-- ===== src/Disk/Parts.antt =====
-- How kernel/fs/fat32.c and kernel/fs/ext2.c cut the range of a read into the parts that lie in the
-- blocks of a file.
use next_os.Prelude.{
  ℕ, zero, suc, ◌+◌, ◌-◌, ◌%◌, ◌≤◌, ◌<◌, ◌≡◌, refl, sym, ap, ◌∙◌, ◌⊎◌, inl, inr, List, [], ◌∷◌,
  ◌++◌, ltb, if◌then◌else◌, length, take, drop, length-append, Bool-cases, arith,
}
use mathlib.Core.Path.{ap₂}
use mathlib.Core.List.{append_assoc}
use next_os.Prelude.Words.{word_mod}
use next_os.Prelude.Slices.{take-append, drop-append_in, length-drop, take_clip, length-take}

-- `start` and `end` in the loops of `fat32_read`, `fat32_write`, `ext2_read` and `ext2_write`, for a block of `bsize` bytes at
-- `pos`, where `count` bytes are done.
abbrev pub part_start : ℕ → ℕ → ℕ
part_start offset pos = if ltb pos offset then offset - pos else 0

abbrev pub part_end : ℕ → ℕ → ℕ → ℕ → ℕ
part_end bsize size count start =
    if ltb size ((count + (bsize - start)) % word_mod) then start + (size - count) else bsize

-- The bytes of a block from `start` to `end`.
abbrev pub part : List ℕ → ℕ → ℕ → List ℕ
part block start stop = take (stop - start) (drop start block)

-- The blocks of a file, one after the other.
abbrev pub concat : List (List ℕ) → List ℕ
concat [] = []
concat (b ∷ bs) = b ++ concat bs

-- The part of a block and what follows it that a read wants: first of the block, then of the rest.
part_lem :
    (k s : ℕ) (b rest : List ℕ)
    → s < length b
    → take k (drop s (b ++ rest)) ≡ take k (drop s b) ++ take (k - (length b - s)) rest
part_lem k s b rest h =
    ap (take k) (drop-append_in s b rest (omega arith))
    ∙ take-append k (drop s b) rest
    ∙ ap (λ n. take k (drop s b) ++ take (k - n) rest) (length-drop s b)

-- Of `k` bytes wanted from `s` on, a block of `bsize` bytes gives `n`.
Gives : ℕ → ℕ → ℕ → ℕ → Type 0
Gives bsize k s n = ((n ≡ k) × (k ≤ bsize - s)) ⊎ ((n ≡ bsize - s) × (bsize - s ≤ k))

clipped :
    (bsize k s n : ℕ) (b rest : List ℕ)
    → length b ≡ bsize
    → s < bsize
    → Gives bsize k s n
    → take k (drop s (b ++ rest)) ≡ take n (drop s b) ++ take (k - n) rest
unfolding Gives
clipped bsize k s n b rest len h (inl (all, inside)) =
    let left : k - (length b - s) ≡ k - n = omega arith in
    part_lem k s b rest (omega arith) ∙ ap₂ (λ i j. take i (drop s b) ++ take j rest) (sym all) left
clipped bsize k s n b rest len h (inr (all, past)) =
    let left : k - (length b - s) ≡ k - n = omega arith in
    part_lem k s b rest (omega arith)
    ∙ ap₂ (λ q j. q ++ take j rest)
        (take_clip k n (drop s b) (omega (arith, length-drop s b)) (omega (arith, length-drop s b)))
        left

end_Gives :
    (bsize size count s : ℕ)
    → s < bsize
    → count < size
    → size + bsize < word_mod
    → Gives bsize (size - count) s (part_end bsize size count s - s)
unfolding Gives
end_Gives bsize size count s h more small =
    let whole : (count + (bsize - s)) % word_mod ≡ count + (bsize - s) = omega arith in
    elim (Bool-cases (ltb size (count + (bsize - s)))) [
      | inl past ↦ rw (whole, past) (inl (omega arith, ground arith))
      | inr inside ↦ rw (whole, inside) (inr (refl, ground arith))
    ]

part_start_lem : (offset pos : ℕ) → part_start offset pos ≡ offset - pos
part_start_lem offset pos = ground arith

-- A round in which the block at `pos` meets the range: it takes `n` bytes of the block.
pub record Round (bsize size offset pos : ℕ) (out b rest out' : List ℕ) : Type 0 where
  pub taken :
      out ++ take (size - length out) (drop (offset - pos) (b ++ rest))
      ≡ out' ++ take (size - length out') (drop (offset - (pos + bsize)) rest)
  pub grows : pos + bsize ≤ offset + length out' ⊎ length out' ≡ size
  pub inside : length out' ≤ size

part_length :
    (bsize k s n : ℕ) (b : List ℕ)
    → length b ≡ bsize
    → Gives bsize k s n
    → length (take n (drop s b)) ≡ n
unfolding Gives
part_length bsize k s n b len (inl g) = length-take n (drop s b) (omega (arith, length-drop s b))
part_length bsize k s n b len (inr g) = length-take n (drop s b) (omega (arith, length-drop s b))

advance_lem :
    (bsize size offset pos s n : ℕ) (out b rest : List ℕ)
    → length b ≡ bsize
    → offset < pos + bsize
    → length out < size
    → s ≡ offset - pos
    → 0 < bsize
    → pos ≤ offset + length out
    → Gives bsize (size - length out) s n
    → Round bsize size offset pos out b rest (out ++ take n (drop s b))
unfolding Gives
advance_lem bsize size offset pos s n out b rest len meets more at some_byte inv gives =
    let new = out ++ take n (drop s b) in
    let n_long = part_length bsize (size - length out) s n b len gives in
    let new_length : length new ≡ length out + n =
      length-append out (take n (drop s b)) ∙ omega (arith, n_long) in
    let gone : offset - (pos + bsize) ≡ 0 = omega arith in
    let left : size - length out - n ≡ size - length new = omega (arith, new_length) in
    record {
      taken =
          ap (λ q. out ++ take (size - length out) (drop q (b ++ rest))) (sym at)
          ∙ ap (λ q. out ++ q)
              (clipped bsize (size - length out) s n b rest len (omega arith) gives)
          ∙ sym (append_assoc out (take n (drop s b)) (take (size - length out - n) rest))
          ∙ ap₂ (λ q j. new ++ take q (drop j rest)) left (sym gone);
      grows = grown gives new_length;
      inside = small gives new_length;
    }
  where
    grown :
        Gives bsize (size - length out) s n
        → length (out ++ take n (drop s b)) ≡ length out + n
        → (pos + bsize ≤ offset + length (out ++ take n (drop s b)))
          ⊎ (length (out ++ take n (drop s b)) ≡ size)
    grown (inl g) e = inr (omega arith)
    grown (inr g) e = inl (omega arith)

    small :
        Gives bsize (size - length out) s n
        → length (out ++ take n (drop s b)) ≡ length out + n
        → length (out ++ take n (drop s b)) ≤ size
    small (inl g) e = omega arith
    small (inr g) e = omega arith

-- The loops of `fat32_read` and `ext2_read` take such a part.
pub round_lem :
    (bsize size offset pos : ℕ) (out b rest : List ℕ)
    → length b ≡ bsize
    → offset < pos + bsize
    → length out < size
    → 0 < bsize
    → size + bsize < word_mod
    → pos ≤ offset + length out
    → Round bsize size offset pos out b rest (
        out
        ++ part b
            (part_start offset pos)
            (part_end bsize size (length out) (part_start offset pos)))
round_lem bsize size offset pos out b rest len meets more some_byte small inv =
    let s = part_start offset pos in
    let at = part_start_lem offset pos in
    advance_lem bsize size offset pos s (part_end bsize size (length out) s - s) out b rest len
      meets more at some_byte inv
      (end_Gives bsize size (length out) s (omega (arith, at)) more small)

pub take-nil : (n : ℕ) → take {A = ℕ} n [] ≡ []
take-nil zero = refl
take-nil (suc n) = refl

pub drop-nil : (n : ℕ) → drop {A = ℕ} n [] ≡ []
drop-nil zero = refl
drop-nil (suc n) = refl

pub append_nil : (xs : List ℕ) → xs ++ [] ≡ xs
append_nil [] = refl
append_nil (x ∷ xs) = ap (λ q. x ∷ q) (append_nil xs)

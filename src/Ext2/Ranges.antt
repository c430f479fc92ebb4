-- ===== src/Ext2/Ranges.antt =====
-- Parts of two stretches of bytes, for `ext2_read` of kernel/fs/ext2.c.
use next_os.Prelude.{
  ℕ, ◌-◌, min, ◌≡◌, refl, sym, ap, ◌∙◌, List, [], ◌∷◌, ◌++◌, length, take, drop, arith,
}
use mathlib.Core.Path.{ap₂}
use native.Mathlib.Decide.{dec_le}
use next_os.Prelude.Slices.{
  take-append, drop-append_in, drop-append_past, length-drop, length-take, take_all,
}

pub length-take-drop : (k s : ℕ) (xs : List ℕ) → length (take k (drop s xs)) ≡ min k (length xs - s)
length-take-drop k s xs = elim (dec_le k (length xs - s)) [
  | yes short ↦ length-take k (drop s xs) (omega (arith, length-drop s xs)) ∙ omega arith
  | no long ↦
      ap length (take_all k (drop s xs) (omega (arith, length-drop s xs)))
      ∙ length-drop s xs
      ∙ omega arith
]

no_bytes : (xs : List ℕ) → length xs ≡ 0 → xs ≡ []
no_bytes [] h = refl
no_bytes (x ∷ xs) h = absurd (omega arith)

-- The part of two stretches of bytes, first of the one and then of the other.
pub range_append :
    (k s : ℕ) (xs ys : List ℕ)
    → take k (drop s (xs ++ ys))
      ≡ take k (drop s xs) ++ take (k - length (take k (drop s xs))) (drop (s - length xs) ys)
range_append k s xs ys = elim (dec_le s (length xs)) [
  | yes inside ↦
      let none_dropped : 0 ≡ s - length xs = omega arith in
      let left : k - length (drop s xs) ≡ k - length (take k (drop s xs)) =
        omega (arith, length-take-drop k s xs, length-drop s xs) in
      ap (take k) (drop-append_in s xs ys inside)
      ∙ take-append k (drop s xs) ys
      ∙ ap₂ (λ n l. take k (drop s xs) ++ take n (drop l ys)) left none_dropped
  | no past ↦
      let nothing : take k (drop s xs) ≡ [] =
        no_bytes (take k (drop s xs)) (length-take-drop k s xs ∙ omega arith) in
      let left : k ≡ k - length (take k (drop s xs)) = omega (arith, ap length nothing) in
      ap (take k) (drop-append_past s xs ys (omega arith))
      ∙ ap (λ n. take n (drop (s - length xs) ys)) left
      ∙ ap (λ q. q ++ take (k - length (take k (drop s xs))) (drop (s - length xs) ys))
          (sym nothing)
]

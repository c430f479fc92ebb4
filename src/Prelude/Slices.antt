-- ===== src/Prelude/Slices.antt =====
-- Parts of a list, and bytes written into one.
use Prim.Native.Nat.{ℕ, zero, suc, ◌+◌, ◌-◌, ◌≤◌, ◌<◌}
use mathlib.Core.Path.{◌≡◌, refl, sym, ap, ap₂, subst, ◌∙◌}
use mathlib.Core.Logic.{◌⊎◌, inl, inr}
use mathlib.Core.List.{List, [], ◌∷◌, ◌++◌}
use native.Mathlib.Omega.{arith}
use next_os.Prelude.Lists.{
  length, get_or, set, take, drop, length-set, get_or-set_self, get_or-set_ne,
}

-- Bytes written one after the other, from `offset` on.
unfoldable pub overlay : List ℕ → ℕ → List ℕ → List ℕ
overlay block offset [] = block
overlay block offset (b ∷ bs) = overlay (set block offset b) (offset + 1) bs

pub length-overlay :
    (block : List ℕ) (o : ℕ) (bs : List ℕ) → length (overlay block o bs) ≡ length block
unfolding overlay
length-overlay block o [] = refl
length-overlay block o (b ∷ bs) = length-overlay (set block o b) (o + 1) bs ∙ length-set block o b

-- A byte in front of the written ones, or behind them, stays.
pub get_or-overlay_out :
    (block : List ℕ) (o : ℕ) (bs : List ℕ) (k : ℕ)
    → (k < o) ⊎ (o + length bs ≤ k)
    → get_or (overlay block o bs) k 0 ≡ get_or block k 0
unfolding overlay
get_or-overlay_out block o [] k h = refl
get_or-overlay_out block o (b ∷ bs) k (inl before) =
    get_or-overlay_out (set block o b) (o + 1) bs k (inl (omega arith))
    ∙ get_or-set_ne block o k b 0 (omega arith)
get_or-overlay_out block o (b ∷ bs) k (inr behind) =
    get_or-overlay_out (set block o b) (o + 1) bs k (inr (omega arith))
    ∙ get_or-set_ne block o k b 0 (omega arith)

drop-get_or : (xs : List ℕ) (o : ℕ) → o < length xs → drop o xs ≡ get_or xs o 0 ∷ drop (suc o) xs
drop-get_or [] o h = absurd (omega arith)
drop-get_or (x ∷ xs) zero h = refl
drop-get_or (x ∷ xs) (suc o) h = drop-get_or xs o (omega arith)

-- The written bytes are read back.
pub take-overlay :
    (block : List ℕ) (o : ℕ) (bs : List ℕ)
    → o + length bs ≤ length block
    → take (length bs) (drop o (overlay block o bs)) ≡ bs
unfolding overlay
take-overlay block o [] h = refl
take-overlay block o (b ∷ bs) h =
    let rest = overlay (set block o b) (o + 1) bs in
    let long : o < length rest =
      omega (arith, length-overlay (set block o b) (o + 1) bs, length-set block o b) in
    let first : get_or rest o 0 ≡ b =
      get_or-overlay_out (set block o b) (o + 1) bs o (inl (omega arith))
      ∙ get_or-set_self block o b 0 (omega arith) in
    let others = take-overlay (set block o b) (o + 1) bs (omega (arith, length-set block o b)) in
    let shift : o + 1 ≡ suc o = omega arith in
    ap (take (suc (length bs))) (drop-get_or rest o long)
    ∙ ap₂ (λ x xs. x ∷ xs) first (subst (λ q. take (length bs) (drop q rest) ≡ bs) shift others)

pub get_or-take : (n : ℕ) (xs : List ℕ) (k : ℕ) → k < n → get_or (take n xs) k 0 ≡ get_or xs k 0
get_or-take zero xs k h = absurd (omega arith)
get_or-take (suc n) [] k h = refl
get_or-take (suc n) (x ∷ xs) zero h = refl
get_or-take (suc n) (x ∷ xs) (suc k) h = get_or-take n xs k (omega arith)

pub length-take : (n : ℕ) (xs : List ℕ) → n ≤ length xs → length (take n xs) ≡ n
length-take zero xs h = refl
length-take (suc n) [] h = absurd (omega arith)
length-take (suc n) (x ∷ xs) h = ap suc (length-take n xs (omega arith))

pub get_or-drop : (o : ℕ) (xs : List ℕ) (k : ℕ) → get_or (drop o xs) k 0 ≡ get_or xs (o + k) 0
get_or-drop zero xs k = ap (λ q. get_or xs q 0) (omega arith)
get_or-drop (suc o) [] k = refl
get_or-drop (suc o) (x ∷ xs) k = get_or-drop o xs k ∙ ap (λ q. get_or (x ∷ xs) q 0) step
  where
    step : suc (o + k) ≡ suc o + k
    step = omega arith

-- A byte among the written ones.
pub get_or-overlay_in :
    (block : List ℕ) (o : ℕ) (bs : List ℕ) (k : ℕ)
    → o + length bs ≤ length block
    → k < length bs
    → get_or (overlay block o bs) (o + k) 0 ≡ get_or bs k 0
get_or-overlay_in block o bs k h lt =
    sym (get_or-drop o (overlay block o bs) k)
    ∙ sym (get_or-take (length bs) (drop o (overlay block o bs)) k lt)
    ∙ ap (λ q. get_or q k 0) (take-overlay block o bs h)

module _ {ℓ} {A : Type ℓ} where
  pub take_all : (n : ℕ) (xs : List A) → length xs ≤ n → take n xs ≡ xs
  take_all zero [] h = refl
  take_all zero (x ∷ xs) h = absurd (omega arith)
  take_all (suc n) [] h = refl
  take_all (suc n) (x ∷ xs) h = ap (λ q. x ∷ q) (take_all n xs (omega arith))

  pub drop_none : (xs ys : List A) → drop (length xs) (xs ++ ys) ≡ ys
  drop_none [] ys = refl
  drop_none (x ∷ xs) ys = drop_none xs ys

  -- What is dropped reaches behind the first list.
  pub drop-append_past :
      (n : ℕ) (xs ys : List A) → length xs ≤ n → drop n (xs ++ ys) ≡ drop (n - length xs) ys
  drop-append_past n [] ys h = ap (λ q. drop q ys) (omega arith)
  drop-append_past zero (x ∷ xs) ys h = absurd (omega arith)
  drop-append_past (suc n) (x ∷ xs) ys h =
      drop-append_past n xs ys (omega arith) ∙ ap (λ q. drop q ys) (omega arith)

  pub take-append :
      (k : ℕ) (xs ys : List A) → take k (xs ++ ys) ≡ take k xs ++ take (k - length xs) ys
  take-append zero [] ys = refl
  take-append zero (x ∷ xs) ys =
      let none_left : 0 ≡ 0 - suc (length xs) = omega arith in ap (λ q. take q ys) none_left
  take-append (suc k) [] ys =
      let whole : suc k ≡ suc k - 0 = omega arith in ap (λ q. take q ys) whole
  take-append (suc k) (x ∷ xs) ys =
      let shift : k - length xs ≡ suc k - suc (length xs) = omega arith in
      ap (λ q. x ∷ q) (take-append k xs ys) ∙ ap (λ q. x ∷ (take k xs ++ take q ys)) shift

  -- What is dropped ends in the first list.
  pub drop-append_in :
      (n : ℕ) (xs ys : List A) → n ≤ length xs → drop n (xs ++ ys) ≡ drop n xs ++ ys
  drop-append_in zero xs ys h = refl
  drop-append_in (suc n) [] ys h = absurd (omega arith)
  drop-append_in (suc n) (x ∷ xs) ys h = drop-append_in n xs ys (omega arith)

  pub length-drop : (n : ℕ) (xs : List A) → length (drop n xs) ≡ length xs - n
  length-drop zero xs = omega arith
  length-drop (suc n) [] = omega arith
  length-drop (suc n) (x ∷ xs) = omega (arith, length-drop n xs)

  -- To ask for more than there is gives what there is.
  pub take_clip : (k n : ℕ) (xs : List A) → length xs ≤ k → length xs ≤ n → take k xs ≡ take n xs
  take_clip k n xs hk hn = take_all k xs hk ∙ sym (take_all n xs hn)

pub take-nil : (n : ℕ) → take {A = ℕ} n [] ≡ []
take-nil zero = refl
take-nil (suc n) = refl

pub take-append_drop : (a b : ℕ) (xs : List ℕ) → take a xs ++ take b (drop a xs) ≡ take (a + b) xs
take-append_drop zero b xs = ap (λ q. take q xs) (omega arith)
take-append_drop (suc a) b [] = take-nil b ∙ sym (take-nil (suc a + b))
take-append_drop (suc a) b (x ∷ xs) =
    ap (λ q. x ∷ q) (take-append_drop a b xs) ∙ ap (λ q. take q (x ∷ xs)) step
  where
    step : suc (a + b) ≡ suc a + b
    step = omega arith

pub take-drop : (n : ℕ) (xs : List ℕ) → take n xs ++ drop n xs ≡ xs
take-drop zero xs = refl
take-drop (suc n) [] = refl
take-drop (suc n) (x ∷ xs) = ap (λ q. x ∷ q) (take-drop n xs)

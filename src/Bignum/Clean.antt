-- ===== src/Bignum/Clean.antt =====
-- The words behind a number of kernel/net/tls_crypto.c: `bn_add`, `bn_sub` and `bn_shl1` leave them 0,
-- and `bn_to_bytes` reads them.
use next_os.Prelude.{
  ℕ, zero, suc, ◌+◌, ◌-◌, ◌/◌, ◌^◌, ◌≤◌, ◌<◌, ◌≡◌, refl, ap, ◌∙◌, inl, inr, List, [], ◌∷◌, leb,
  ◌==◌, if◌then◌else◌, get_or, set, replicate, get_or-set_ne, Bool-cases, arith,
}
use mathlib.Core.Path.{subst}
use native.Mathlib.Decide.{ℕ_discrete}
use next_os.Bignum.{word_size, word, behind, normalize, sub_loop, add_loop, shl_loop}
use next_os.Bignum.Value.{value, Clean, value_top}

get_or_nil : (j : ℕ) → get_or {A = ℕ} [] j 0 ≡ 0
get_or_nil zero = refl
get_or_nil (suc j) = refl

-- A loop of `k` rounds leaves the words from `k` on.
get_or-sub_loop :
    (k an bn : ℕ) (xs ys : List ℕ) (borrow j : ℕ)
    → k ≤ j
    → get_or (sub_loop k an bn xs ys borrow) j 0 ≡ get_or xs j 0
unfolding sub_loop
get_or-sub_loop zero an bn xs ys borrow j le = refl
get_or-sub_loop (suc k) an bn [] ys borrow j le = refl
get_or-sub_loop (suc k) an bn (x ∷ xs) ys borrow zero le = absurd (omega arith)
get_or-sub_loop (suc k) an bn (x ∷ xs) ys borrow (suc j) le =
    get_or-sub_loop k (an - 1) (bn - 1) xs (behind ys)
      (if leb (word bn ys + borrow) (word an (x ∷ xs)) then 0 else 1) j (omega arith)

get_or-add_loop :
    (k an bn : ℕ) (xs ys : List ℕ) (carry j : ℕ)
    → k ≤ j
    → get_or (add_loop k an bn xs ys carry) j 0 ≡ get_or xs j 0
unfolding add_loop
get_or-add_loop zero an bn xs ys carry j le = refl
get_or-add_loop (suc k) an bn [] ys carry j le = refl
get_or-add_loop (suc k) an bn (x ∷ xs) ys carry zero le = absurd (omega arith)
get_or-add_loop (suc k) an bn (x ∷ xs) ys carry (suc j) le =
    get_or-add_loop k (an - 1) (bn - 1) xs (behind ys)
      ((carry + word an (x ∷ xs) + word bn ys) / word_size) j (omega arith)

get_or-shl_loop :
    (n : ℕ) (ws : List ℕ) (carry j : ℕ) → n ≤ j → get_or (shl_loop n ws carry).0 j 0 ≡ get_or ws j 0
unfolding shl_loop
get_or-shl_loop zero ws carry j le = refl
get_or-shl_loop (suc n) [] carry j le = refl
get_or-shl_loop (suc n) (w ∷ ws) carry zero le = absurd (omega arith)
get_or-shl_loop (suc n) (w ∷ ws) carry (suc j) le =
    get_or-shl_loop n ws (w / 2 ^ 31) j (omega arith)

pub Clean-sub_loop :
    (k an bn : ℕ) (xs ys : List ℕ) (borrow : ℕ)
    → an ≤ k
    → Clean an xs
    → Clean k (sub_loop k an bn xs ys borrow)
unfolding Clean
Clean-sub_loop k an bn xs ys borrow le clean =
    λ j far. get_or-sub_loop k an bn xs ys borrow j far ∙ clean j (omega arith)

pub Clean-add_loop :
    (k an bn : ℕ) (xs ys : List ℕ) (carry : ℕ)
    → an ≤ k
    → Clean an xs
    → Clean k (add_loop k an bn xs ys carry)
unfolding Clean
Clean-add_loop k an bn xs ys carry le clean =
    λ j far. get_or-add_loop k an bn xs ys carry j far ∙ clean j (omega arith)

pub Clean-shl_loop :
    (n : ℕ) (ws : List ℕ) (carry : ℕ) → Clean n ws → Clean n (shl_loop n ws carry).0
unfolding Clean
Clean-shl_loop n ws carry clean = λ j far. get_or-shl_loop n ws carry j far ∙ clean j far

pub Clean-set : (n i : ℕ) (ws : List ℕ) (v : ℕ) → i < n → Clean n ws → Clean n (set ws i v)
unfolding Clean
Clean-set n i ws v lt clean = λ j far. get_or-set_ne ws i j v 0 (omega arith) ∙ clean j far

pub Clean-more : (n k : ℕ) (ws : List ℕ) → n ≤ k → Clean n ws → Clean k ws
unfolding Clean
Clean-more n k ws le clean = λ j far. clean j (omega arith)

Clean-top : (n : ℕ) (ws : List ℕ) → get_or ws n 0 ≡ 0 → Clean (suc n) ws → Clean n ws
unfolding Clean
Clean-top n ws top clean = λ j far. elim (ℕ_discrete n j) [
  | yes here ↦ subst (λ q. get_or ws q 0 ≡ 0) here top
  | no away ↦ clean j (omega arith)
]

pub Clean-normalize : (n : ℕ) (ws : List ℕ) → Clean n ws → Clean (normalize n ws) ws
unfolding normalize
Clean-normalize zero ws clean = clean
Clean-normalize (suc n) ws clean = elim (Bool-cases (get_or ws n 0 == 0)) [
  | inl top ↦ rw top (Clean-normalize n ws (Clean-top n ws (ground arith) clean))
  | inr kept ↦ rw kept clean
]

zeros : (n j : ℕ) → get_or {A = ℕ} (replicate n 0) j 0 ≡ 0
zeros zero j = get_or_nil j
zeros (suc n) zero = refl
zeros (suc n) (suc j) = zeros n j

pub Clean-replicate : (k n : ℕ) → Clean n (replicate k 0)
unfolding Clean
Clean-replicate k n = λ j far. zeros k j

-- More words of a clean number do not count.
pub value-Clean : (d n : ℕ) (ws : List ℕ) → Clean n ws → value (n + d) ws ≡ value n ws
unfolding Clean
value-Clean zero n ws clean =
    let none_more : n + 0 ≡ n = omega arith in ap (λ k. value k ws) none_more
value-Clean (suc d) n ws clean =
    let next : n + suc d ≡ suc (n + d) = omega arith in
    ap (λ k. value k ws) next
    ∙ value_top (n + d) ws (clean (n + d) (omega arith))
    ∙ value-Clean d n ws clean

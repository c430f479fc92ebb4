-- ===== src/Bignum/Compare.antt =====
-- `bn_cmp` of kernel/net/tls_crypto.c, and what it says of the number of words.
use next_os.Prelude.{
  ℕ, zero, suc, ◌+◌, ◌-◌, ◌*◌, ◌≤◌, ◌<◌, max, ◌≡◌, refl, sym, ap, ◌∙◌, ◌⊎◌, inl, inr, true, false,
  List, [], ◌∷◌, ltb, ◌==◌, if◌then◌else◌, get_or, Bool-cases, arith,
}
use mathlib.Core.Path.{subst, ap₂}
use native.Mathlib.Decide.{dec_le}
use next_os.Bignum.{
  Bignum, word_size, normalize, word, behind, Sign, below, equal, above, word_at, cmp_loop, bn_cmp,
  at_least,
}
use next_os.Bignum.Value.{
  value, value_of, Words, IsBignum, value_split, value_none, Words-behind, word-lt,
}

-- Two values are in the order that a sign says.
abbrev pub Ordered : Sign → ℕ → ℕ → Type 0
Ordered below a b = a < b
Ordered equal a b = a ≡ b
Ordered above a b = b < a

abbrev sign_of : ℕ → ℕ → Sign
sign_of a b = if ltb b a then above else if ltb a b then below else equal

-- The sign of the higher words, or that of the lower ones.
abbrev or_else : Sign → Sign → Sign
or_else below s = below
or_else equal s = s
or_else above s = above

word_at-behind : (n i : ℕ) (ws : List ℕ) → word_at n ws (suc i) ≡ word_at (n - 1) (behind ws) i
unfolding word_at
word_at-behind n i [] = ground arith
word_at-behind n i (w ∷ ws) = ground arith

word_at-first : (n : ℕ) (ws : List ℕ) → word_at n ws 0 ≡ word n ws
unfolding word_at
word_at-first zero ws = refl
word_at-first (suc n) [] = ground arith
word_at-first (suc n) (w ∷ ws) = ground arith

cmp_loop-suc :
    (i an : ℕ) (xs : List ℕ) (bn : ℕ) (ys : List ℕ)
    → cmp_loop (suc i) an xs bn ys
      ≡ or_else (sign_of (word_at an xs i) (word_at bn ys i)) (cmp_loop i an xs bn ys)
unfolding cmp_loop
cmp_loop-suc i an xs bn ys = elim (Bool-cases (ltb (word_at bn ys i) (word_at an xs i))) [
  | inl more ↦ rw more refl
  | inr not_more ↦ elim (Bool-cases (ltb (word_at an xs i) (word_at bn ys i))) [
    | inl less ↦ rw (not_more, less) refl
    | inr not_less ↦ rw (not_more, not_less) refl
  ]
]

or_else_assoc : (s t u : Sign) → or_else s (or_else t u) ≡ or_else (or_else s t) u
or_else_assoc below t u = refl
or_else_assoc equal t u = refl
or_else_assoc above t u = refl

or_else-equal : (s : Sign) → or_else s equal ≡ s
or_else-equal below = refl
or_else-equal equal = refl
or_else-equal above = refl

cmp_loop-zero : (an : ℕ) (xs : List ℕ) (bn : ℕ) (ys : List ℕ) → cmp_loop 0 an xs bn ys ≡ equal
unfolding cmp_loop
cmp_loop-zero an xs bn ys = refl

-- The lowest words decide last.
cmp_loop_lowest :
    (k an : ℕ) (xs : List ℕ) (bn : ℕ) (ys : List ℕ)
    → cmp_loop (suc k) an xs bn ys
      ≡ or_else
          (cmp_loop k (an - 1) (behind xs) (bn - 1) (behind ys))
          (sign_of (word an xs) (word bn ys))
cmp_loop_lowest zero an xs bn ys =
    cmp_loop-suc 0 an xs bn ys
    ∙ ap₂ or_else (ap₂ sign_of (word_at-first an xs) (word_at-first bn ys))
        (cmp_loop-zero an xs bn ys)
    ∙ or_else-equal (sign_of (word an xs) (word bn ys))
    ∙ ap (λ s. or_else s (sign_of (word an xs) (word bn ys)))
        (sym (cmp_loop-zero (an - 1) (behind xs) (bn - 1) (behind ys)))
cmp_loop_lowest (suc k) an xs bn ys =
    cmp_loop-suc (suc k) an xs bn ys
    ∙ ap₂ or_else (ap₂ sign_of (word_at-behind an k xs) (word_at-behind bn k ys))
        (cmp_loop_lowest k an xs bn ys)
    ∙ or_else_assoc (sign_of (word_at (an - 1) (behind xs) k) (word_at (bn - 1) (behind ys) k))
        (cmp_loop k (an - 1) (behind xs) (bn - 1) (behind ys)) (sign_of (word an xs) (word bn ys))
    ∙ ap (λ s. or_else s (sign_of (word an xs) (word bn ys)))
        (sym (cmp_loop-suc k (an - 1) (behind xs) (bn - 1) (behind ys)))

-- Words that are in an order, with lower ones.
Ordered-more :
    (s t : Sign) (a b u v : ℕ)
    → Ordered s a b
    → Ordered t u v
    → u < word_size
    → v < word_size
    → Ordered (or_else s t) (u + word_size * a) (v + word_size * b)
Ordered-more below t a b u v h g u_lt v_lt = omega arith
Ordered-more equal below a b u v h g u_lt v_lt = omega arith
Ordered-more equal equal a b u v h g u_lt v_lt = omega arith
Ordered-more equal above a b u v h g u_lt v_lt = omega arith
Ordered-more above t a b u v h g u_lt v_lt = omega arith

sign_of-Ordered : (a b : ℕ) → Ordered (sign_of a b) a b
sign_of-Ordered a b = elim (Bool-cases (ltb b a)) [
  | inl more ↦ rw more (ground arith)
  | inr not_more ↦ elim (Bool-cases (ltb a b)) [
    | inl less ↦ rw (not_more, less) (ground arith)
    | inr not_less ↦ rw (not_more, not_less) (ground arith)
  ]
]

cmp_loop-Ordered :
    (k an : ℕ) (xs : List ℕ) (bn : ℕ) (ys : List ℕ)
    → an ≤ k
    → bn ≤ k
    → Words xs
    → Words ys
    → Ordered (cmp_loop k an xs bn ys) (value an xs) (value bn ys)
cmp_loop-Ordered zero an xs bn ys a_le b_le xw yw =
    subst (λ s. Ordered s (value an xs) (value bn ys)) (sym (cmp_loop-zero an xs bn ys))
      (value_none an xs (omega arith) ∙ sym (value_none bn ys (omega arith)))
cmp_loop-Ordered (suc k) an xs bn ys a_le b_le xw yw =
    let xs' = behind xs in
    let ys' = behind ys in
    let lower = sign_of (word an xs) (word bn ys) in
    let higher = cmp_loop k (an - 1) xs' (bn - 1) ys' in
    let rest =
      cmp_loop-Ordered k (an - 1) xs' (bn - 1) ys' (omega arith) (omega arith) (Words-behind xs xw)
        (Words-behind ys yw) in
    let both =
      Ordered-more higher lower (value (an - 1) xs') (value (bn - 1) ys') (word an xs) (word bn ys)
        rest (sign_of-Ordered (word an xs) (word bn ys)) (word-lt an xs xw) (word-lt bn ys yw) in
    subst (λ s. Ordered s (value an xs) (value bn ys)) (sym (cmp_loop_lowest k an xs bn ys))
      (subst (λ a. Ordered (or_else higher lower) a (value bn ys)) (sym (value_split an xs))
        (subst (λ b. Ordered (or_else higher lower) (word an xs + word_size * value (an - 1) xs') b)
          (sym (value_split bn ys)) both))

-- `bn_cmp` compares the values.
pub bn_cmp-Ordered :
    (a b : Bignum) → IsBignum a → IsBignum b → Ordered (bn_cmp a b) (value_of a) (value_of b)
unfolding bn_cmp
bn_cmp-Ordered a b oka okb =
    cmp_loop-Ordered (max a.n b.n) a.n a.words b.n b.words (omega arith) (omega arith) oka.wide
      okb.wide

by_sign :
    (s : Sign) (a b : ℕ)
    → Ordered s a b
    → ((at_least s ≡ true) × (b ≤ a)) ⊎ ((at_least s ≡ false) × (a < b))
unfolding at_least
by_sign below a b h = inr (refl, h)
by_sign equal a b h = inl (refl, omega arith)
by_sign above a b h = inl (refl, omega arith)

pub at_least-cases :
    (a b : Bignum)
    → IsBignum a
    → IsBignum b
    → ((at_least (bn_cmp a b) ≡ true) × (value_of b ≤ value_of a))
      ⊎ ((at_least (bn_cmp a b) ≡ false) × (value_of a < value_of b))
at_least-cases a b oka okb =
    by_sign (bn_cmp a b) (value_of a) (value_of b) (bn_cmp-Ordered a b oka okb)

-- The highest word is not 0.
unfoldable pub IsNormal : ℕ → List ℕ → Type 0
IsNormal n ws = (k : ℕ) → n ≡ suc k → 0 < get_or ws k 0

pub normalize-IsNormal : (n : ℕ) (ws : List ℕ) → IsNormal (normalize n ws) ws
unfolding IsNormal normalize
normalize-IsNormal zero ws = λ k e. absurd (omega arith)
normalize-IsNormal (suc n) ws = elim (Bool-cases (get_or ws n 0 == 0)) [
  | inl top ↦ rw top (normalize-IsNormal n ws)
  | inr kept ↦
      rw kept (λ k e.
        let here : n ≡ k = omega arith in subst (λ q. 0 < get_or ws q 0) here (ground arith))
]

value_pos : (j : ℕ) (ws : List ℕ) → 0 < get_or ws j 0 → 0 < value (suc j) ws
value_pos j [] h = absurd (omega arith)
value_pos zero (w ∷ ws) h = omega arith
value_pos (suc j) (w ∷ ws) h = omega (arith, value_pos j ws h)

more_digits :
    (k n : ℕ) (us ws : List ℕ) → k < n → IsNormal n ws → Words us → value k us < value n ws
unfolding IsNormal
more_digits k zero us ws lt normal wide = absurd (omega arith)
more_digits zero (suc n) us ws lt normal wide = value_pos n ws (normal n refl)
more_digits (suc k) (suc n) us [] lt normal wide = absurd (omega (arith, normal n refl))
more_digits (suc k) (suc zero) us (w ∷ ws) lt normal wide = absurd (omega arith)
more_digits (suc k) (suc (suc n)) [] (w ∷ ws) lt normal wide =
    value_pos (suc n) (w ∷ ws) (normal (suc n) refl)
more_digits (suc k) (suc (suc n)) (u ∷ us) (w ∷ ws) lt normal (small, wide) =
    let rest =
      more_digits k (suc n) us ws (omega arith)
        (λ j e. let further : suc (suc n) ≡ suc (suc j) = omega arith in normal (suc j) further)
        wide in
    omega arith

-- A smaller number without leading words that are 0 has no more words.
pub fewer_digits :
    (k n : ℕ) (us ws : List ℕ) → IsNormal n ws → Words us → value n ws ≤ value k us → n ≤ k
fewer_digits k n us ws normal wide le = elim (dec_le n k) [
  | yes fits ↦ fits
  | no more ↦ absurd (omega (arith, more_digits k n us ws (omega arith) normal wide))
]

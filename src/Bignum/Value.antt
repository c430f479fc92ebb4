-- ===== src/Bignum/Value.antt =====
-- The values of the numbers of kernel/net/tls_crypto.c, and what `bn_add`, `bn_sub` and `bn_shl1` make
-- of them.
use next_os.Prelude.{
  ℕ, zero, suc, ◌+◌, ◌-◌, ◌*◌, ◌/◌, ◌%◌, ◌^◌, ◌≤◌, ◌<◌, bit_or, ◌≡◌, refl, sym, ap, ◌∙◌, inl, inr,
  true, false, List, [], ◌∷◌, leb, ◌==◌, if◌then◌else◌, length, get_or, set, Bool-cases, arith,
}
use native.Mathlib.Decide.{dec_le}
use next_os.Prelude.Bits.{bit_or_step}
use next_os.Bignum.{
  Bignum, word_size, bn_words, normalize, word, behind, sub_loop, add_loop, shl_loop,
}

-- The number that the first `n` words are.
abbrev pub value : ℕ → List ℕ → ℕ
value zero ws = 0
value (suc n) [] = 0
value (suc n) (w ∷ ws) = w + word_size * value n ws

abbrev pub value_of : Bignum → ℕ
value_of a = value a.n a.words

-- Every word has 32 bits.
abbrev pub Words : List ℕ → Type 0
Words [] = Unit
Words (w ∷ ws) = (w < word_size) × Words ws

-- The words behind the first `n` are 0.
unfoldable pub Clean : ℕ → List ℕ → Type 0
Clean n ws = (j : ℕ) → n ≤ j → get_or ws j 0 ≡ 0

pub record IsBignum (a : Bignum) : Type 0 where
  pub sized : length a.words ≡ bn_words
  pub clean : Clean a.n a.words
  pub inside : a.n ≤ bn_words
  pub wide : Words a.words

value_nil : (n : ℕ) → value n [] ≡ 0
value_nil zero = refl
value_nil (suc n) = refl

pub value_split :
    (n : ℕ) (ws : List ℕ) → value n ws ≡ word n ws + word_size * value (n - 1) (behind ws)
value_split zero [] = refl
value_split zero (w ∷ ws) = refl
value_split (suc n) [] = omega (arith, value_nil (suc n - 1))
value_split (suc n) (w ∷ ws) =
    let same : n ≡ suc n - 1 = omega arith in ap (λ k. w + word_size * value k ws) same

pub word-lt : (n : ℕ) (ws : List ℕ) → Words ws → word n ws < word_size
word-lt zero ws h = omega arith
word-lt (suc n) [] h = omega arith
word-lt (suc n) (w ∷ ws) (small, h) = small

pub Words-behind : (ws : List ℕ) → Words ws → Words (behind ws)
Words-behind [] h = h
Words-behind (w ∷ ws) (small, h) = h

pub value_none : (n : ℕ) (ws : List ℕ) → n ≡ 0 → value n ws ≡ 0
value_none zero ws h = refl
value_none (suc n) ws h = absurd (omega arith)

-- Leading words that are 0 do not count.
pub value_top : (n : ℕ) (ws : List ℕ) → get_or ws n 0 ≡ 0 → value (suc n) ws ≡ value n ws
value_top zero [] h = refl
value_top zero (w ∷ ws) h = omega arith
value_top (suc n) [] h = refl
value_top (suc n) (w ∷ ws) h = omega (arith, value_top n ws h)

pub value-normalize : (n : ℕ) (ws : List ℕ) → value (normalize n ws) ws ≡ value n ws
unfolding normalize
value-normalize zero ws = refl
value-normalize (suc n) ws = elim (Bool-cases (get_or ws n 0 == 0)) [
  | inl top ↦ rw top (value-normalize n ws ∙ sym (value_top n ws (ground arith)))
  | inr kept ↦ rw kept refl
]

pub normalize-le : (n : ℕ) (ws : List ℕ) → normalize n ws ≤ n
unfolding normalize
normalize-le zero ws = omega arith
normalize-le (suc n) ws = elim (Bool-cases (get_or ws n 0 == 0)) [
  | inl top ↦ rw top (omega (arith, normalize-le n ws))
  | inr kept ↦ rw kept (omega arith)
]

-- Subtraction.
pub value-sub_loop :
    (k an bn : ℕ) (xs ys : List ℕ) (borrow : ℕ)
    → an ≤ k
    → bn ≤ k
    → k ≤ length xs
    → Words xs
    → Words ys
    → borrow ≤ 1
    → value bn ys + borrow ≤ value an xs
    → value k (sub_loop k an bn xs ys borrow) + (value bn ys + borrow) ≡ value an xs
unfolding sub_loop
value-sub_loop zero an bn xs ys borrow a_le b_le room xw yw carry le =
    omega (arith, value_none an xs (omega arith), value_none bn ys (omega arith))
value-sub_loop (suc k) an bn [] ys borrow a_le b_le room xw yw carry le = absurd (omega arith)
value-sub_loop (suc k) an bn (x ∷ xs) ys borrow a_le b_le room (x_small, xw) yw carry le =
    let xs_split = value_split an (x ∷ xs) in
    let ys_split = value_split bn ys in
    let x_lt = word-lt an (x ∷ xs) (x_small, xw) in
    let y_lt = word-lt bn ys yw in
    elim (dec_le (word bn ys + borrow) (word an (x ∷ xs))) [
      | yes fits ↦
          let test : leb (word bn ys + borrow) (word an (x ∷ xs)) ≡ true = ground arith in
          let rest =
            value-sub_loop k (an - 1) (bn - 1) xs (behind ys) 0 (omega arith) (omega arith)
              (omega arith) xw (Words-behind ys yw) (omega arith)
              (omega (arith, xs_split, ys_split, x_lt, y_lt)) in
          rw test (omega (arith, rest, xs_split, ys_split, x_lt, y_lt))
      | no short ↦
          let test : leb (word bn ys + borrow) (word an (x ∷ xs)) ≡ false = ground arith in
          let rest =
            value-sub_loop k (an - 1) (bn - 1) xs (behind ys) 1 (omega arith) (omega arith)
              (omega arith) xw (Words-behind ys yw) (omega arith)
              (omega (arith, xs_split, ys_split, x_lt, y_lt)) in
          rw test (omega (arith, rest, xs_split, ys_split, x_lt, y_lt))
    ]

-- Addition, for one round more than there are words.
pub value-add_loop :
    (k an bn : ℕ) (xs ys : List ℕ) (carry : ℕ)
    → an < k
    → bn < k
    → k ≤ length xs
    → Words xs
    → Words ys
    → carry ≤ 1
    → value k (add_loop k an bn xs ys carry) ≡ value an xs + value bn ys + carry
unfolding add_loop
value-add_loop zero an bn xs ys carry a_lt b_lt room xw yw small = absurd (omega arith)
value-add_loop (suc k) an bn [] ys carry a_lt b_lt room xw yw small = absurd (omega arith)
value-add_loop (suc zero) an bn (x ∷ xs) ys carry a_lt b_lt room (x_small, xw) yw small = omega (
  arith,
  value_split an (x ∷ xs),
  value_split bn ys,
  value_none an (x ∷ xs) (omega arith),
  value_none bn ys (omega arith),
)
value-add_loop (suc (suc k)) an bn (x ∷ xs) ys carry a_lt b_lt room (x_small, xw) yw small =
    let sum = carry + word an (x ∷ xs) + word bn ys in
    let x_lt = word-lt an (x ∷ xs) (x_small, xw) in
    let y_lt = word-lt bn ys yw in
    let rest =
      value-add_loop (suc k) (an - 1) (bn - 1) xs (behind ys) (sum / word_size) (omega arith)
        (omega arith) (omega arith) xw (Words-behind ys yw) (omega (arith, x_lt, y_lt)) in
    omega (arith, rest, value_split an (x ∷ xs), value_split bn ys, x_lt, y_lt)

or_zero_to : (k a : ℕ) → a ≤ k → bit_or a 0 ≡ a
or_zero_to k zero le = refl
or_zero_to zero (suc a) le = absurd (omega arith)
or_zero_to (suc k) (suc a) le =
    omega (arith, bit_or_step (suc a) 0, or_zero_to k (suc a / 2) (omega arith))

pub or_zero : (a : ℕ) → bit_or a 0 ≡ a
or_zero a = or_zero_to a a (omega arith)

-- A shift by one bit, with the carry in the word behind.
or_low : (w carry : ℕ) → carry ≤ 1 → bit_or (w * 2 % word_size) carry ≡ w * 2 % word_size + carry
or_low w carry small =
    let above : bit_or (w * 2 % word_size / 2) 0 ≡ w * 2 % word_size / 2 =
      or_zero (w * 2 % word_size / 2) in
    let none_left : carry / 2 ≡ 0 = omega arith in
    omega (
      arith,
      bit_or_step (w * 2 % word_size) carry,
      ap (bit_or (w * 2 % word_size / 2)) none_left,
      above,
    )

pub value-set : (n : ℕ) (ws : List ℕ) → value (suc n) (set ws n 0) ≡ value n ws
value-set zero [] = refl
value-set zero (w ∷ ws) = omega arith
value-set (suc n) [] = refl
value-set (suc n) (w ∷ ws) = omega (arith, value-set n ws)

pub value-shl_loop :
    (n : ℕ) (ws : List ℕ) (carry : ℕ)
    → Words ws
    → carry ≤ 1
    → n < length ws
    → ((shl_loop n ws carry).1 ≤ 1)
      × (value (suc n) (set (shl_loop n ws carry).0 n (shl_loop n ws carry).1)
          ≡ 2 * value n ws + carry)
unfolding shl_loop
value-shl_loop zero [] carry wide small room = absurd (omega arith)
value-shl_loop zero (w ∷ ws) carry wide small room = (small, omega arith)
value-shl_loop (suc n) [] carry wide small room = absurd (omega arith)
value-shl_loop (suc n) (w ∷ ws) carry (w_small, wide) small room =
    let (bit, rest) = value-shl_loop n ws (w / 2 ^ 31) wide (omega arith) (omega arith) in
    (bit, omega (arith, rest, or_low w carry small))

-- The loops keep the length of the array and the size of the words.
pub length-sub_loop :
    (k an bn : ℕ) (xs ys : List ℕ) (borrow : ℕ) → length (sub_loop k an bn xs ys borrow) ≡ length xs
unfolding sub_loop
length-sub_loop zero an bn xs ys borrow = refl
length-sub_loop (suc k) an bn [] ys borrow = refl
length-sub_loop (suc k) an bn (x ∷ xs) ys borrow =
    ap suc (length-sub_loop k (an - 1) (bn - 1) xs (behind ys) _)

pub Words-sub_loop :
    (k an bn : ℕ) (xs ys : List ℕ) (borrow : ℕ) → Words xs → Words (sub_loop k an bn xs ys borrow)
unfolding sub_loop
Words-sub_loop zero an bn xs ys borrow wide = wide
Words-sub_loop (suc k) an bn [] ys borrow wide = tt
Words-sub_loop (suc k) an bn (x ∷ xs) ys borrow (small, wide) = (
  ground arith,
  Words-sub_loop k (an - 1) (bn - 1) xs (behind ys)
      (if leb (word bn ys + borrow) (word an (x ∷ xs)) then 0 else 1) wide,
)

pub length-add_loop :
    (k an bn : ℕ) (xs ys : List ℕ) (carry : ℕ) → length (add_loop k an bn xs ys carry) ≡ length xs
unfolding add_loop
length-add_loop zero an bn xs ys carry = refl
length-add_loop (suc k) an bn [] ys carry = refl
length-add_loop (suc k) an bn (x ∷ xs) ys carry = ap suc (
    length-add_loop k (an - 1) (bn - 1) xs (behind ys)
      ((carry + word an (x ∷ xs) + word bn ys) / word_size))

pub Words-add_loop :
    (k an bn : ℕ) (xs ys : List ℕ) (carry : ℕ) → Words xs → Words (add_loop k an bn xs ys carry)
unfolding add_loop
Words-add_loop zero an bn xs ys carry wide = wide
Words-add_loop (suc k) an bn [] ys carry wide = tt
Words-add_loop (suc k) an bn (x ∷ xs) ys carry (small, wide) = (
  omega arith,
  Words-add_loop k (an - 1) (bn - 1) xs (behind ys)
      ((carry + word an (x ∷ xs) + word bn ys) / word_size) wide,
)

pub length-shl_loop : (n : ℕ) (ws : List ℕ) (carry : ℕ) → length (shl_loop n ws carry).0 ≡ length ws
unfolding shl_loop
length-shl_loop zero ws carry = refl
length-shl_loop (suc n) [] carry = refl
length-shl_loop (suc n) (w ∷ ws) carry = ap suc (length-shl_loop n ws (w / 2 ^ 31))

pub Words-shl_loop :
    (n : ℕ) (ws : List ℕ) (carry : ℕ) → Words ws → carry ≤ 1 → Words (shl_loop n ws carry).0
unfolding shl_loop
Words-shl_loop zero ws carry wide small = wide
Words-shl_loop (suc n) [] carry wide small = tt
Words-shl_loop (suc n) (w ∷ ws) carry (w_small, wide) small =
    (omega (arith, or_low w carry small), Words-shl_loop n ws (w / 2 ^ 31) wide (omega arith))

pub Words-set : (ws : List ℕ) (i v : ℕ) → Words ws → v < word_size → Words (set ws i v)
Words-set [] i v wide small = tt
Words-set (w ∷ ws) zero v (w_small, wide) small = (small, wide)
Words-set (w ∷ ws) (suc i) v (w_small, wide) small = (w_small, Words-set ws i v wide small)

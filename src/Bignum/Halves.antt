-- ===== src/Bignum/Halves.antt =====
-- The bits of the numbers of kernel/net/tls_crypto.c, as `bn_mulmod` tests them.
use next_os.Prelude.{
  ℕ, zero, suc, ◌+◌, ◌*◌, ◌/◌, ◌%◌, ◌^◌, ◌<◌, bit_and, ◌≡◌, refl, sym, ap, ◌∙◌, List, [], ◌∷◌, ◌==◌,
  if◌then◌else◌, get_or, arith,
}
use native.Mathlib.Nat.{pow-suc}
use next_os.Prelude.Words.{bit_and-pow_eq_zero}
use next_os.Prelude.Bits.{bit_at, bit_at-le, bit_at-zero}
use next_os.Bignum.{word_size}
use next_os.Bignum.Value.{value, Words}

-- What is left of `v` above bit `i`.
abbrev pub halves : ℕ → ℕ → ℕ
halves zero v = v
halves (suc i) v = halves i (v / 2)

pub halves-suc : (i v : ℕ) → halves i v ≡ bit_at v i + 2 * halves (suc i) v
halves-suc zero v = omega arith
halves-suc (suc i) v = halves-suc i (v / 2)

halves-add : (i j v : ℕ) → halves (i + j) v ≡ halves j (halves i v)
halves-add zero j v = let same_index : 0 + j ≡ j = omega arith in ap (λ k. halves k v) same_index
halves-add (suc i) j v =
    let same_index : suc i + j ≡ suc (i + j) = omega arith in
    ap (λ k. halves k v) same_index ∙ halves-add i j (v / 2)

bit_at-halves : (i j v : ℕ) → bit_at v (i + j) ≡ bit_at (halves i v) j
bit_at-halves zero j v = let same_index : 0 + j ≡ j = omega arith in ap (bit_at v) same_index
bit_at-halves (suc i) j v =
    let same_index : suc i + j ≡ suc (i + j) = omega arith in
    ap (bit_at v) same_index ∙ bit_at-halves i j (v / 2)

half_above : (k w v : ℕ) → (w + 2 ^ suc k * v) / 2 ≡ w / 2 + 2 ^ k * v
half_above k w v =
    let unfolded = ap (λ (power : ℕ). power * v) (pow-suc 2 k) in omega (arith, unfolded)

-- The bits above a word, and those in it.
halves_above : (k w v : ℕ) → w < 2 ^ k → halves k (w + 2 ^ k * v) ≡ v
halves_above zero w v lt = omega arith
halves_above (suc k) w v lt =
    ap (halves k) (half_above k w v) ∙ halves_above k (w / 2) v (omega (arith, pow-suc 2 k))

bit_inside : (k r w v : ℕ) → r < k → bit_at (w + 2 ^ k * v) r ≡ bit_at w r
bit_inside zero r w v lt = absurd (omega arith)
bit_inside (suc k) zero w v lt =
    let unfolded = ap (λ (power : ℕ). power * v) (pow-suc 2 k) in omega (arith, unfolded)
bit_inside (suc k) (suc r) w v lt =
    ap (λ t. bit_at t r) (half_above k w v) ∙ bit_inside k r (w / 2) v (omega arith)

halves_word : (w v : ℕ) → w < word_size → halves 32 (w + word_size * v) ≡ v
halves_word w v lt = halves_above 32 w v lt

-- A number of `n` words has no bits above them.
pub halves-value : (n : ℕ) (ws : List ℕ) → Words ws → halves (n * 32) (value n ws) ≡ 0
halves-value zero ws wide = refl
halves-value (suc n) [] wide = halves_zero (suc n * 32)
  where
    halves_zero : (i : ℕ) → halves i 0 ≡ 0
    halves_zero zero = refl
    halves_zero (suc i) = halves_zero i
halves-value (suc n) (w ∷ ws) (small, wide) =
    let next : suc n * 32 ≡ 32 + n * 32 = omega arith in
    ap (λ (i : ℕ). halves i (w + word_size * value n ws)) next
    ∙ halves-add 32 (n * 32) (w + word_size * value n ws)
    ∙ ap (halves (n * 32)) (halves_word w (value n ws) small)
    ∙ halves-value n ws wide

bit_at-value :
    (n q r : ℕ) (ws : List ℕ)
    → Words ws
    → q < n
    → r < 32
    → bit_at (value n ws) (q * 32 + r) ≡ bit_at (get_or ws q 0) r
bit_at-value zero q r ws wide lt small = absurd (omega arith)
bit_at-value (suc n) q r [] wide lt small = bit_at-zero (q * 32 + r) ∙ sym (bit_at-zero r)
bit_at-value (suc n) zero r (w ∷ ws) (w_lt, wide) lt small =
    let first : 0 * 32 + r ≡ r = omega arith in
    ap (bit_at (w + word_size * value n ws)) first ∙ bit_inside 32 r w (value n ws) small
bit_at-value (suc n) (suc q) r (w ∷ ws) (w_lt, wide) lt small =
    let next : suc q * 32 + r ≡ 32 + (q * 32 + r) = omega arith in
    ap (bit_at (w + word_size * value n ws)) next
    ∙ bit_at-halves 32 (q * 32 + r) (w + word_size * value n ws)
    ∙ ap (λ t. bit_at t (q * 32 + r)) (halves_word w (value n ws) w_lt)
    ∙ bit_at-value n q r ws wide (omega arith) small

-- The test of `bn_mulmod` at bit `i`.
pub tested_bit :
    (n i : ℕ) (ws : List ℕ)
    → Words ws
    → i < n * 32
    → bit_at (value n ws) i ≡ (if bit_and (get_or ws (i / 32) 0) (2 ^ (i % 32)) == 0 then 0 else 1)
tested_bit n i ws wide lt =
    let w = get_or ws (i / 32) 0 in
    let position : i ≡ i / 32 * 32 + i % 32 = omega arith in
    let found : bit_at (value n ws) i ≡ bit_at w (i % 32) =
      ap (bit_at (value n ws)) position
      ∙ bit_at-value n (i / 32) (i % 32) ws wide (omega arith) (omega arith) in
    ground (arith, bit_and-pow_eq_zero (i % 32) w, bit_at-le w (i % 32), found)

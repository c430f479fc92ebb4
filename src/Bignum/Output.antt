-- ===== src/Bignum/Output.antt =====
-- `bn_to_bytes` of kernel/net/tls_crypto.c against the number that bytes are, and back.
use next_os.Prelude.{
  ℕ, zero, suc, ◌+◌, ◌-◌, ◌*◌, ◌/◌, ◌%◌, ◌^◌, ◌≤◌, ◌<◌, ◌≡◌, refl, sym, ap, ◌∙◌, true, List, [],
  ◌∷◌, ltb, length, get_or, arith,
}
use mathlib.Core.Path.{subst, ap₂}
use native.Mathlib.Nat.{pow-suc, pow-zero, mul-le-mul_right}
use native.Mathlib.Decide.{dec_lt}
use next_os.Bignum.{Bignum, word_size, bn_words, bn_from_bytes, to_loop, bn_to_bytes}
use next_os.Bignum.Value.{value, value_of, Words, IsBignum}
use next_os.Bignum.Clean.{value-Clean}
use next_os.Bignum.Bytes.{number, Bytes, bn_from_bytes-Read}

-- What is left of `v` above `p` bytes.
abbrev above : ℕ → ℕ → ℕ
above zero v = v
above (suc p) v = above p (v / 256)

above-suc : (p v : ℕ) → above p v ≡ above p v % 256 + 256 * above (suc p) v
above-suc zero v = omega arith
above-suc (suc p) v = above-suc p (v / 256)

above_none : (p v : ℕ) → v < 256 ^ p → above p v ≡ 0
above_none zero v lt = omega arith
above_none (suc p) v lt = above_none p (v / 256) (omega (arith, pow-suc 256 p))

-- The byte that `bn_to_bytes` cuts out of a word.
abbrev byte_of : ℕ → List ℕ → ℕ
byte_of p ws = get_or ws (p / 4) 0 / 2 ^ (p % 4 * 8) % 256

byte_of-value :
    (n p : ℕ) (ws : List ℕ)
    → Words ws
    → p < n * 4
    → n ≤ length ws
    → byte_of p ws ≡ above p (value n ws) % 256
byte_of-value zero p ws wide lt room = absurd (omega arith)
byte_of-value (suc n) p [] wide lt room = absurd (omega arith)
byte_of-value (suc n) zero (w ∷ ws) (small, wide) lt room = omega arith
byte_of-value (suc n) (suc zero) (w ∷ ws) (small, wide) lt room = omega arith
byte_of-value (suc n) (suc (suc zero)) (w ∷ ws) (small, wide) lt room = omega arith
byte_of-value (suc n) (suc (suc (suc zero))) (w ∷ ws) (small, wide) lt room = omega arith
byte_of-value (suc n) (suc (suc (suc (suc p)))) (w ∷ ws) (small, wide) lt room =
    let next : suc (suc (suc (suc p))) / 4 ≡ suc (p / 4) = omega arith in
    let same_byte : suc (suc (suc (suc p))) % 4 ≡ p % 4 = omega arith in
    let rest = byte_of-value n p ws wide (omega arith) (omega arith) in
    let shifted : (w + word_size * value n ws) / 256 / 256 / 256 / 256 ≡ value n ws = omega arith in
    rw (next, same_byte) (rest ∙ ap (λ v. above p v % 256) (sym shifted))

length-to_loop : (p : ℕ) (ws : List ℕ) → length (to_loop p ws) ≡ p
unfolding to_loop
length-to_loop zero ws = refl
length-to_loop (suc p) ws = ap suc (length-to_loop p ws)

to_loop-zero : (ws : List ℕ) → to_loop 0 ws ≡ []
unfolding to_loop
to_loop-zero ws = refl

to_loop-suc :
    (p : ℕ) (ws : List ℕ) → p < bn_words * 4 → to_loop (suc p) ws ≡ byte_of p ws ∷ to_loop p ws
unfolding to_loop
to_loop-suc p ws lt = let inside : ltb (p / 4) bn_words ≡ true = ground arith in rw inside refl

to_loop-Bytes : (p : ℕ) (ws : List ℕ) → p ≤ bn_words * 4 → Bytes (to_loop p ws)
unfolding to_loop
to_loop-Bytes zero ws le = tt
to_loop-Bytes (suc p) ws le =
    subst Bytes (sym (to_loop-suc p ws (omega arith)))
      (omega arith, to_loop-Bytes p ws (omega arith))

number-to_loop :
    (p : ℕ) (ws : List ℕ)
    → Words ws
    → length ws ≡ bn_words
    → p ≤ bn_words * 4
    → number (to_loop p ws) + 256 ^ p * above p (value bn_words ws) ≡ value bn_words ws
number-to_loop zero ws wide sized le = omega (arith, pow-zero 256, ap number (to_loop-zero ws))
number-to_loop (suc p) ws wide sized le =
    let v = value bn_words ws in
    let rest = number-to_loop p ws wide sized (omega arith) in
    let byte = byte_of-value bn_words p ws wide (omega arith) (omega arith) in
    let long = length-to_loop p ws in
    let front : number (to_loop (suc p) ws) ≡ byte_of p ws * 256 ^ p + number (to_loop p ws) =
      ap number (to_loop-suc p ws (omega arith))
      ∙ ap (λ (k : ℕ). byte_of p ws * 256 ^ k + number (to_loop p ws)) long in
    let split = ap (λ (t : ℕ). 256 ^ p * t) (above-suc p v) in
    let power = ap (λ (t : ℕ). t * above (suc p) v) (pow-suc 256 p) in
    let digit = ap (λ (t : ℕ). t * 256 ^ p) byte in omega (arith, front, rest, split, power, digit)

-- Bytes of one length that are the same number are the same.
pub number-lt : (bytes : List ℕ) → Bytes bytes → number bytes < 256 ^ length bytes
number-lt [] small = omega (arith, pow-zero 256)
number-lt (b ∷ bytes) (b_small, small) =
    let most : suc b * 256 ^ length bytes ≤ 256 * 256 ^ length bytes =
      mul-le-mul_right (256 ^ length bytes) (omega arith) in
    omega (arith, number-lt bytes small, pow-suc 256 (length bytes), most)

-- The digit in front of a rest below `k`.
smaller_front : (b c k r s : ℕ) → r < k → b * k + r ≡ c * k + s → b < c → ⊥
smaller_front b c k r s r_lt e lt =
    let most : suc b * k ≤ c * k = mul-le-mul_right k (omega arith) in omega (arith, most)

same_front : (b c k r s : ℕ) → r < k → s < k → b * k + r ≡ c * k + s → b ≡ c
same_front b c k r s r_lt s_lt e = elim (dec_lt b c) [
  | yes lt ↦ absurd (smaller_front b c k r s r_lt e lt)
  | no le ↦ elim (dec_lt c b) [
    | yes lt ↦ absurd (smaller_front c b k s r s_lt (sym e) lt)
    | no ge ↦ omega arith
  ]
]

number-injective :
    (xs ys : List ℕ) → Bytes xs → Bytes ys → length xs ≡ length ys → number xs ≡ number ys → xs ≡ ys
number-injective [] [] xb yb sized e = refl
number-injective [] (y ∷ ys) xb yb sized e = absurd (omega arith)
number-injective (x ∷ xs) [] xb yb sized e = absurd (omega arith)
number-injective (x ∷ xs) (y ∷ ys) (x_small, xb) (y_small, yb) sized e =
    let k = 256 ^ length xs in
    let long : length ys ≡ length xs = omega arith in
    let one_power : y * 256 ^ length ys ≡ y * k = ap (λ (n : ℕ). y * 256 ^ n) long in
    let y_lt : number ys < k = subst (λ n. number ys < 256 ^ n) long (number-lt ys yb) in
    let front =
      same_front x y k (number xs) (number ys) (number-lt xs xb) y_lt
        (omega (arith, e, one_power)) in
    let scaled = ap (λ (t : ℕ). t * k) front in
    ap₂ (λ b bytes. b ∷ bytes) front
      (number-injective xs ys xb yb (sym long) (omega (arith, e, one_power, scaled)))

pub record Written (a : Bignum) (len : ℕ) (bytes : List ℕ) : Type 0 where
  pub bytes_only : Bytes bytes
  pub long : length bytes ≡ len
  pub number_is : number bytes ≡ value_of a

-- What `bn_to_bytes` makes of a number that fits into the bytes.
pub bn_to_bytes-Written :
    (a : Bignum) (len : ℕ)
    → IsBignum a
    → len ≤ bn_words * 4
    → value_of a < 256 ^ len
    → Written a len (bn_to_bytes a len)
unfolding bn_to_bytes
bn_to_bytes-Written a len ok le fits =
    let rest_of : a.n + (bn_words - a.n) ≡ bn_words = omega (arith, ok.inside) in
    let whole : value bn_words a.words ≡ value_of a =
      ap (λ n. value n a.words) (sym rest_of) ∙ value-Clean (bn_words - a.n) a.n a.words ok.clean in
    let none_above : above len (value bn_words a.words) ≡ 0 =
      above_none len (value bn_words a.words) (subst (λ v. v < 256 ^ len) (sym whole) fits) in
    let product = ap (λ (t : ℕ). 256 ^ len * t) none_above in
    record {
      bytes_only = to_loop-Bytes len a.words le;
      long = length-to_loop len a.words;
      number_is = omega (arith, number-to_loop len a.words ok.wide ok.sized le, product, whole);
    }

-- Bytes that `bn_from_bytes` reads are what `bn_to_bytes` writes in as many bytes, where the array has
-- room for them.
pub bn_to_bytes-bn_from_bytes :
    (bytes : List ℕ)
    → Bytes bytes
    → length bytes ≤ bn_words * 4
    → bn_to_bytes (bn_from_bytes bytes) (length bytes) ≡ bytes
bn_to_bytes-bn_from_bytes bytes small le =
    let a = bn_from_bytes-Read bytes small le in
    let w =
      bn_to_bytes-Written (bn_from_bytes bytes) (length bytes) a.ok le
        (omega (arith, a.value_is, number-lt bytes small)) in
    number-injective (bn_to_bytes (bn_from_bytes bytes) (length bytes)) bytes w.bytes_only small
      w.long (w.number_is ∙ a.value_is)

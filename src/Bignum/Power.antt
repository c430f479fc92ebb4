-- ===== src/Bignum/Power.antt =====
-- `bn_modexp` of kernel/net/tls_crypto.c against the power modulo `m`.
use next_os.Prelude.{
  ℕ, zero, suc, ◌*◌, ◌/◌, ◌%◌, ◌^◌, ◌≤◌, ◌<◌, ◌≡◌, refl, sym, ap, ◌∙◌, inl, inr, true, false,
  Option, some, get_or, ◌==◌, arith,
}
use mathlib.Core.Path.{subst, ap₂}
use native.Mathlib.Nat.{pow-suc, pow-zero, mul_assoc}
use native.Mathlib.Decide.{ℕ_discrete}
use next_os.Bignum.{Bignum, bn_words, bn_zero, bn_mulmod, exp_loop, bn_one, bn_modexp}
use next_os.Bignum.Clean.{Clean-set, Clean-replicate}
use next_os.Bignum.Value.{value_of, IsBignum, Words-set}
use next_os.Bignum.Reduced.{Reduced, Small}
use next_os.Bignum.Compare.{IsNormal}
use next_os.Bignum.Reduce.{reduce-Reduces}
use next_os.Bignum.Product.{
  Reduced-Remainder, Remainder-cong, Computes, bn_mulmod-Computes, bn_zero-IsBignum,
}
use next_os.Bignum.Exponent.{mod_power, mod_power_both, even_power, odd_power}

exp_loop-end : (k fuel : ℕ) (r b m : Bignum) → exp_loop k fuel r b 0 m ≡ some r
unfolding exp_loop
exp_loop-end zero fuel r b m = refl
exp_loop-end (suc k) fuel r b m = refl

exp_loop-even :
    (k fuel : ℕ) (r b b2 : Bignum) (exp : ℕ) (m : Bignum)
    → 0 < exp
    → exp % 2 ≡ 0
    → bn_mulmod fuel b b m ≡ some b2
    → exp_loop (suc k) fuel r b exp m ≡ exp_loop k fuel r b2 (exp / 2) m
unfolding exp_loop
exp_loop-even k fuel r b b2 exp m pos even found =
    let going : (exp == 0) ≡ false = ground arith in
    let test : (exp % 2 == 0) ≡ true = ground arith in rw (going, test, found) refl

exp_loop-odd :
    (k fuel : ℕ) (r b r2 b2 : Bignum) (exp : ℕ) (m : Bignum)
    → exp % 2 ≡ 1
    → bn_mulmod fuel r b m ≡ some r2
    → bn_mulmod fuel b b m ≡ some b2
    → exp_loop (suc k) fuel r b exp m ≡ exp_loop k fuel r2 b2 (exp / 2) m
unfolding exp_loop
exp_loop-odd k fuel r b r2 b2 exp m odd times found =
    let going : (exp == 0) ≡ false = ground arith in
    let test : (exp % 2 == 0) ≡ false = ground arith in rw (going, test, times, found) refl

Computes-cong :
    (returned again : Option Bignum) (m : Bignum) (v w : ℕ)
    → again ≡ returned
    → v % value_of m ≡ w % value_of m
    → Computes returned m v
    → Computes again m w
Computes-cong returned again m v w e same_rest c = record {
  result = c.result;
  found = e ∙ c.found;
  remainder = Remainder-cong m v w c.result same_rest c.remainder;
}

module _ (fuel : ℕ) (m : Bignum) (okm : IsBignum m) (room : m.n < bn_words) (pos : 0 < value_of m)
    (enough : value_of m ≤ fuel) where
  product :
      (a b : Bignum)
      → IsBignum a
      → Small m a
      → value_of a < fuel
      → Reduced m b
      → Computes (bn_mulmod fuel a b m) m (value_of a * value_of b)
  product a b oka small lt rb = bn_mulmod-Computes fuel a b m oka small rb.ok okm room pos lt

  square : (b : Bignum) → Reduced m b → Computes (bn_mulmod fuel b b m) m (value_of b * value_of b)
  square b rb = product b b rb.ok (inl rb.few) (omega (arith, rb.less)) rb

  after_even :
      (r b b2 e : ℕ)
      → e % 2 ≡ 0
      → b2 ≡ b * b % value_of m
      → (r * b2 ^ (e / 2)) % value_of m ≡ (r * b ^ e) % value_of m
  after_even r b b2 e even squared =
      ap (λ (t : ℕ). (r * t ^ (e / 2)) % value_of m) squared
      ∙ mod_power r (b * b) (e / 2) (value_of m)
      ∙ ap (λ (t : ℕ). (r * t) % value_of m) (sym (even_power b e even))

  after_odd :
      (r b r2 b2 e : ℕ)
      → e % 2 ≡ 1
      → r2 ≡ r * b % value_of m
      → b2 ≡ b * b % value_of m
      → (r2 * b2 ^ (e / 2)) % value_of m ≡ (r * b ^ e) % value_of m
  after_odd r b r2 b2 e odd times squared =
      ap₂ (λ (s t : ℕ). (s * t ^ (e / 2)) % value_of m) times squared
      ∙ mod_power_both (r * b) (b * b) (e / 2) (value_of m)
      ∙ ap (λ (t : ℕ). t % value_of m) (mul_assoc r b ((b * b) ^ (e / 2)))
      ∙ ap (λ (t : ℕ). (r * t) % value_of m) (sym (odd_power b e odd))

  at_end :
      (k : ℕ) (r b : Bignum) (e : ℕ)
      → e ≡ 0
      → Reduced m r
      → Computes (exp_loop k fuel r b e m) m (value_of r * value_of b ^ e)
  at_end k r b e over rr = record {
    result = r;
    found = ap (λ x. exp_loop k fuel r b x m) over ∙ exp_loop-end k fuel r b m;
    remainder =
        Remainder-cong m (value_of r) (value_of r * value_of b ^ e) r
          (ap (λ (t : ℕ). t % value_of m)
            (sym (
              ap (λ (t : ℕ). value_of r * value_of b ^ t) over
              ∙ ap (λ (t : ℕ). value_of r * t) (pow-zero (value_of b))
              ∙ omega arith)))
          (Reduced-Remainder m r rr);
  }

  pub exp_loop-Computes :
      (k : ℕ) (r b : Bignum) (e : ℕ)
      → IsBignum r
      → Small m r
      → value_of r < fuel
      → Reduced m b
      → 0 < e
      → e < 2 ^ k
      → Computes (exp_loop k fuel r b e m) m (value_of r * value_of b ^ e)
  exp_loop-Computes zero r b e okr small lt rb more bound = absurd (omega arith)
  exp_loop-Computes (suc k) r b e okr small lt rb more bound =
      let sq = square b rb in
      let b2 = sq.result in
      let rb2 = sq.remainder.reduced in
      let half_bound : e / 2 < 2 ^ k = omega (arith, pow-suc 2 k) in
      elim (ℕ_discrete (e % 2) 0) [
        | yes even ↦
            Computes-cong (exp_loop k fuel r b2 (e / 2) m) (exp_loop (suc k) fuel r b e m) m
              (value_of r * value_of b2 ^ (e / 2)) (value_of r * value_of b ^ e)
              (exp_loop-even k fuel r b b2 e m more even sq.found)
              (after_even (value_of r) (value_of b) (value_of b2) e even sq.remainder.value_is)
              (exp_loop-Computes k r b2 (e / 2) okr small lt rb2 (omega arith) half_bound)
        | no not_even ↦
            let odd : e % 2 ≡ 1 = omega arith in
            let times = product r b okr small lt rb in
            let r2 = times.result in
            let rr2 = times.remainder.reduced in
            let tail : Computes (exp_loop k fuel r2 b2 (e / 2) m) m
                (value_of r2 * value_of b2 ^ (e / 2)) =
              elim (ℕ_discrete (e / 2) 0) [
                | yes over ↦ at_end k r2 b2 (e / 2) over rr2
                | no on ↦
                    exp_loop-Computes k r2 b2 (e / 2) rr2.ok (inl rr2.few) (omega (arith, rr2.less))
                      rb2 (omega arith) half_bound
              ] in
            Computes-cong (exp_loop k fuel r2 b2 (e / 2) m) (exp_loop (suc k) fuel r b e m) m
              (value_of r2 * value_of b2 ^ (e / 2)) (value_of r * value_of b ^ e)
              (exp_loop-odd k fuel r b r2 b2 e m odd times.found sq.found)
              (after_odd (value_of r) (value_of b) (value_of r2) (value_of b2) e odd
                times.remainder.value_is sq.remainder.value_is)
              tail
      ]

bn_one-IsBignum : IsBignum bn_one
bn_one-IsBignum = record {
  sized = refl;
  clean = Clean-set 1 0 bn_zero.words 1 (omega arith) (Clean-replicate bn_words 1);
  inside = omega arith;
  wide = Words-set bn_zero.words 0 1 bn_zero-IsBignum.wide (omega arith);
}

bn_one-IsNormal : IsNormal bn_one.n bn_one.words
unfolding IsNormal
bn_one-IsNormal = λ k e.
    let first : 0 ≡ k = omega arith in subst (λ j. 0 < get_or bn_one.words j 0) first (omega arith)

-- `bn_modexp`, for a base without leading words that are 0 and an exponent of 32 bits that is not 0.
-- When the fuel is above the base and above the modulus, a number comes back; it is the power of the
-- base modulo the modulus, and has no more words than the modulus.
pub bn_modexp-Computes :
    (fuel : ℕ) (base : Bignum) (exp : ℕ) (m : Bignum)
    → IsBignum base
    → IsNormal base.n base.words
    → IsBignum m
    → m.n < bn_words
    → 0 < value_of m
    → value_of base < fuel
    → value_of m < fuel
    → 0 < exp
    → exp < 2 ^ 32
    → Computes (bn_modexp fuel base exp m) m (value_of base ^ exp)
unfolding bn_modexp
bn_modexp-Computes fuel base exp m okb normal okm room pos enough also more bound =
    let first = reduce-Reduces fuel base m okb okm (inr normal) pos enough in
    let b = first.result in
    let run =
      exp_loop-Computes fuel m okm room pos (omega arith) 32 bn_one b exp bn_one-IsBignum
        (inr bn_one-IsNormal) (omega arith) first.remainder.reduced more bound in
    let same_power : (value_of bn_one * value_of b ^ exp) % value_of m
        ≡ value_of base ^ exp % value_of m =
      ap (λ (t : ℕ). (value_of bn_one * t ^ exp) % value_of m) first.remainder.value_is
      ∙ mod_power 1 (value_of base) exp (value_of m)
      ∙ ap (λ (t : ℕ). t % value_of m) (omega arith) in
    Computes-cong (exp_loop 32 fuel bn_one b exp m) (bn_modexp fuel base exp m) m
      (value_of bn_one * value_of b ^ exp) (value_of base ^ exp) (rw first.found refl) same_power
      run

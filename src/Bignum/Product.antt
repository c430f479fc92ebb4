-- ===== src/Bignum/Product.antt =====
-- `bn_mulmod` of kernel/net/tls_crypto.c against the product modulo `m`.
use next_os.Prelude.{
  ℕ, zero, suc, ◌+◌, ◌*◌, ◌/◌, ◌%◌, ◌^◌, ◌≤◌, ◌<◌, bit_and, ◌≡◌, refl, sym, ap, ◌∙◌, inl, inr,
  Option, some, replicate, ◌==◌, if◌then◌else◌, get_or, Bool-cases, arith,
}
use mathlib.Core.Path.{subst, ap₂}
use native.Mathlib.Nat.{mod-eq_of_lt, mod-add-mod, add-mod-mod, mul_comm}
use next_os.Prelude.Bits.{bit_at}
use next_os.Bignum.{
  Bignum, bn_words, bn_zero, bn_add, bn_shl1, reduce_once, mul_loop, mul_reduced, bn_mulmod,
}
use next_os.Bignum.Clean.{Clean-replicate}
use next_os.Bignum.Value.{value_of, Words, IsBignum}
use next_os.Bignum.Reduced.{
  Reduced, Small, Remainder, bn_add-Added, bn_shl1-Doubled, Doubled, reduce_once-Remainder,
}
use next_os.Bignum.Reduce.{reduce-Reduces}
use next_os.Bignum.Halves.{halves, halves-suc, halves-value, tested_bit}

-- Arithmetic modulo `m`.
pub mod_mul : (x y z m : ℕ) → (x + y % m * z) % m ≡ (x + y * z) % m
mod_mul x y zero m = ap (λ (t : ℕ). (x + t) % m) (omega arith)
mod_mul x y (suc z) m =
    ap (λ (t : ℕ). t % m) (omega (arith, mul_comm (y % m) (suc z), mul_comm (y % m) z))
    ∙ mod_mul (x + y % m) y z m
    ∙ ap (λ (t : ℕ). t % m) (omega arith)
    ∙ add-mod-mod (x + y * z) y m
    ∙ ap (λ (t : ℕ). t % m) (omega (arith, mul_comm y (suc z), mul_comm y z))

mod_both : (x y z m : ℕ) → (x % m + y % m * z) % m ≡ (x + y * z) % m
mod_both x y z m = mod-add-mod x m (y % m * z) ∙ mod_mul x y z m

pub Remainder-cong :
    (m : Bignum) (v w : ℕ) (x : Bignum)
    → v % value_of m ≡ w % value_of m
    → Remainder m v x
    → Remainder m w x
Remainder-cong m v w x e r = record { reduced = r.reduced; value_is = r.value_is ∙ e }

pub Reduced-Remainder : (m x : Bignum) → Reduced m x → Remainder m (value_of x) x
Reduced-Remainder m x r = record { reduced = r; value_is = sym (mod-eq_of_lt r.less) }

-- The accumulator of a round.
added :
    (m acc temp : Bignum)
    → IsBignum m
    → m.n < bn_words
    → Reduced m acc
    → Reduced m temp
    → Remainder m (value_of acc + value_of temp) (reduce_once (bn_add acc temp) m)
added m acc temp okm room ra rt =
    let s = bn_add-Added acc temp ra.ok rt.ok (omega (arith, ra.few)) (omega (arith, rt.few)) in
    subst (λ v. Remainder m v (reduce_once (bn_add acc temp) m)) s.sum
      (reduce_once-Remainder (bn_add acc temp) m s.ok okm (inr s.normal)
        (omega (arith, s.sum, ra.less, rt.less)))

Doubled-Small : (m a s : Bignum) → a.n ≤ m.n → Doubled a s → Small m s
Doubled-Small m a s le d = elim d.length_kept [
  | inl kept ↦ inl (omega arith)
  | inr normal ↦ inr normal
]

doubled :
    (m temp : Bignum)
    → IsBignum m
    → m.n < bn_words
    → Reduced m temp
    → Remainder m (2 * value_of temp) (reduce_once (bn_shl1 temp) m)
doubled m temp okm room rt =
    let s = bn_shl1-Doubled temp rt.ok (omega (arith, rt.few)) in
    subst (λ v. Remainder m v (reduce_once (bn_shl1 temp) m)) s.double
      (reduce_once-Remainder (bn_shl1 temp) m s.ok okm
        (Doubled-Small m temp (bn_shl1 temp) rt.few s) (omega (arith, s.double, rt.less)))

abbrev next_acc : ℕ → Bignum → Bignum → Bignum → Bignum → Bignum
next_acc i acc temp b m =
    if bit_and (get_or b.words (i / 32) 0) (2 ^ (i % 32)) == 0
    then acc
    else reduce_once (bn_add acc temp) m

acc_bit :
    (i : ℕ) (acc temp b m : Bignum)
    → IsBignum m
    → m.n < bn_words
    → IsBignum b
    → Reduced m acc
    → Reduced m temp
    → i < b.n * 32
    → Remainder m (value_of acc + value_of temp * bit_at (value_of b) i) (next_acc i acc temp b m)
acc_bit i acc temp b m okm room okb ra rt lt =
    let bit = tested_bit b.n i b.words okb.wide lt in
    elim (Bool-cases (bit_and (get_or b.words (i / 32) 0) (2 ^ (i % 32)) == 0)) [
      | inl clear ↦
          let nothing : bit_at (value_of b) i ≡ 0 = rw clear at bit in
          rw (clear, nothing)
            (Remainder-cong m (value_of acc) _ acc (ap (λ (t : ℕ). t % value_of m) (omega arith))
              (Reduced-Remainder m acc ra))
      | inr set_bit ↦
          let one : bit_at (value_of b) i ≡ 1 = rw set_bit at bit in
          rw (set_bit, one)
            (Remainder-cong m (value_of acc + value_of temp) _ (reduce_once (bn_add acc temp) m)
              (ap (λ (t : ℕ). t % value_of m) (omega arith)) (added m acc temp okm room ra rt))
    ]

split_bit : (a t h bit above : ℕ) → h ≡ bit + 2 * above → a + t * h ≡ a + t * bit + 2 * t * above
split_bit a t h bit above e = let product = ap (λ (x : ℕ). t * x) e in omega (arith, product)

mul_loop-suc :
    (k i : ℕ) (acc temp b m : Bignum)
    → mul_loop (suc k) i acc temp b m
      ≡ mul_loop k (suc i) (next_acc i acc temp b m) (reduce_once (bn_shl1 temp) m) b m
unfolding mul_loop
mul_loop-suc k i acc temp b m =
    let next : i + 1 ≡ suc i = omega arith in
    ap (λ j. mul_loop k j (next_acc i acc temp b m) (reduce_once (bn_shl1 temp) m) b m) next

mul_loop-zero : (i : ℕ) (acc temp b m : Bignum) → mul_loop 0 i acc temp b m ≡ acc
unfolding mul_loop
mul_loop-zero i acc temp b m = refl

pub mul_loop-Remainder :
    (k i : ℕ) (acc temp b m : Bignum)
    → IsBignum m
    → m.n < bn_words
    → IsBignum b
    → Reduced m acc
    → Reduced m temp
    → i + k ≡ b.n * 32
    → Remainder m (value_of acc + value_of temp * halves i (value_of b)) (mul_loop k i acc temp b m)
mul_loop-Remainder zero i acc temp b m okm room okb ra rt total =
    let over : i ≡ b.n * 32 = omega arith in
    let none_left : halves i (value_of b) ≡ 0 =
      ap (λ j. halves j (value_of b)) over ∙ halves-value b.n b.words okb.wide in
    subst (Remainder m (value_of acc + value_of temp * halves i (value_of b)))
      (sym (mul_loop-zero i acc temp b m))
      (Remainder-cong m (value_of acc) _ acc
        (ap (λ (t : ℕ). t % value_of m) (rw none_left (omega arith))) (Reduced-Remainder m acc ra))
mul_loop-Remainder (suc k) i acc temp b m okm room okb ra rt total =
    let v = value_of temp in
    let bit = bit_at (value_of b) i in
    let above = halves (suc i) (value_of b) in
    let acc2 = next_acc i acc temp b m in
    let temp2 = reduce_once (bn_shl1 temp) m in
    let step = acc_bit i acc temp b m okm room okb ra rt (omega arith) in
    let twice = doubled m temp okm room rt in
    let same_rest : (value_of acc2 + value_of temp2 * above) % value_of m
        ≡ (value_of acc + v * halves i (value_of b)) % value_of m =
      ap₂ (λ (a t : ℕ). (a + t * above) % value_of m) step.value_is twice.value_is
      ∙ mod_both (value_of acc + v * bit) (2 * v) above (value_of m)
      ∙ ap (λ (t : ℕ). t % value_of m)
          (sym (
            split_bit (value_of acc) v (halves i (value_of b)) bit above
              (halves-suc i (value_of b)))) in
    subst (Remainder m (value_of acc + v * halves i (value_of b)))
      (sym (mul_loop-suc k i acc temp b m))
      (Remainder-cong m (value_of acc2 + value_of temp2 * above)
        (value_of acc + v * halves i (value_of b)) (mul_loop k (suc i) acc2 temp2 b m) same_rest
        (mul_loop-Remainder k (suc i) acc2 temp2 b m okm room okb step.reduced twice.reduced
          (omega arith)))

pub zeros-Words : (n : ℕ) → Words (replicate n 0)
zeros-Words zero = tt
zeros-Words (suc n) = (omega arith, zeros-Words n)

pub bn_zero-IsBignum : IsBignum bn_zero
bn_zero-IsBignum = record {
  sized = refl;
  clean = Clean-replicate bn_words 0;
  inside = omega arith;
  wide = zeros-Words bn_words;
}

pub record Computes (returned : Option Bignum) (m : Bignum) (v : ℕ) : Type 0 where
  pub result : Bignum
  pub found : returned ≡ some result
  pub remainder : Remainder m v result

-- `bn_mulmod` gives the remainder of the product, when the fuel is above the first factor.
pub bn_mulmod-Computes :
    (fuel : ℕ) (a b m : Bignum)
    → IsBignum a
    → Small m a
    → IsBignum b
    → IsBignum m
    → m.n < bn_words
    → 0 < value_of m
    → value_of a < fuel
    → Computes (bn_mulmod fuel a b m) m (value_of a * value_of b)
unfolding bn_mulmod mul_reduced
bn_mulmod-Computes fuel a b m oka small okb okm room pos enough =
    let first = reduce-Reduces fuel a m oka okm small pos enough in
    let t = first.result in
    let start : Reduced m bn_zero = record {
      ok = bn_zero-IsBignum;
      less = pos;
      few = omega arith;
    } in
    let run =
      mul_loop-Remainder (b.n * 32) 0 bn_zero t b m okm room okb start first.remainder.reduced
        (omega arith) in
    rw first.found (record {
      result = mul_loop (b.n * 32) 0 bn_zero t b m;
      found = refl;
      remainder =
          Remainder-cong m (0 + value_of t * value_of b) (value_of a * value_of b)
            (mul_loop (b.n * 32) 0 bn_zero t b m)
            (ap (λ (v : ℕ). (0 + v * value_of b) % value_of m) first.remainder.value_is
              ∙ mod_mul 0 (value_of a) (value_of b) (value_of m)
              ∙ ap (λ (v : ℕ). v % value_of m) (omega arith))
            run;
    })

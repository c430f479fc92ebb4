-- ===== src/Bignum/Reduce.antt =====
-- The loop of `bn_mulmod` and `bn_modexp` of kernel/net/tls_crypto.c that subtracts the modulus.
use next_os.Prelude.{
  ℕ, zero, suc, ◌-◌, ◌%◌, ◌<◌, ◌≡◌, refl, sym, ap, ◌∙◌, inl, inr, Option, none, some, arith,
}
use native.Mathlib.Nat.{mod-eq-sub-mod}
use next_os.Bignum.{Bignum, bn_sub, reduce}
use next_os.Bignum.Value.{value_of, IsBignum}
use next_os.Bignum.Compare.{at_least-cases}
use next_os.Bignum.Reduced.{bn_sub-Subtracted, Small, Remainder, Remainder-below}

pub record Reduces (returned : Option Bignum) (a m : Bignum) : Type 0 where
  pub result : Bignum
  pub found : returned ≡ some result
  pub remainder : Remainder m (value_of a) result

-- Fuel above the value is enough.
pub reduce-Reduces :
    (fuel : ℕ) (a m : Bignum)
    → IsBignum a
    → IsBignum m
    → Small m a
    → 0 < value_of m
    → value_of a < fuel
    → Reduces (reduce fuel a m) a m
unfolding reduce
reduce-Reduces zero a m oka okm small pos lt = absurd (omega arith)
reduce-Reduces (suc fuel) a m oka okm small pos lt = elim (at_least-cases a m oka okm) [
  | inl (more, le) ↦
      let d = bn_sub-Subtracted a m oka okm le in
      let rest =
        reduce-Reduces fuel (bn_sub a m) m d.ok okm (inr d.normal) pos
          (omega (arith, d.difference)) in
      let v : value_of (bn_sub a m) ≡ value_of a - value_of m = omega (arith, d.difference) in
      rw more (record {
        result = rest.result;
        found = rest.found;
        remainder = record {
          reduced = rest.remainder.reduced;
          value_is =
              rest.remainder.value_is ∙ ap (λ (t : ℕ). t % value_of m) v ∙ sym (mod-eq-sub-mod le);
        };
      })
  | inr (not_more, less) ↦
      rw not_more
        (record { result = a; found = refl; remainder = Remainder-below m a okm oka small less })
]

-- A modulus of 0 is subtracted for ever.
pub reduce_by_zero :
    (fuel : ℕ) (a m : Bignum) → IsBignum a → IsBignum m → value_of m ≡ 0 → reduce fuel a m ≡ none
unfolding reduce
reduce_by_zero zero a m oka okm nought = refl
reduce_by_zero (suc fuel) a m oka okm nought = elim (at_least-cases a m oka okm) [
  | inl (more, le) ↦
      let d = bn_sub-Subtracted a m oka okm (omega arith) in
      rw more (reduce_by_zero fuel (bn_sub a m) m d.ok okm nought)
  | inr (not_more, less) ↦ absurd (omega arith)
]

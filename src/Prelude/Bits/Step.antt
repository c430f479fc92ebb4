-- ===== src/Prelude/Bits/Step.antt =====
-- One binary digit at a time: the lowest digit of `a & b` and `a | b`, and the digits above it. The
-- native operations stand for a recursion that counts down from its first number.
use Prim.Native.Nat
use Prim.Native.Nat.{ℕ, zero, suc, ◌+◌, ◌*◌, ◌/◌, ◌%◌, ◌≤◌, min, max}
use mathlib.Core.Path.{◌≡◌, refl, ap, ◌∙◌}
use native.Mathlib.Decide.{dec_le}
use native.Mathlib.Omega.{arith}

-- `rest` stands for the digits that are left when the first number has run out.
module _ (rest : ℕ → ℕ) (digit : ℕ → ℕ → ℕ) where
  abbrev run : ℕ → ℕ → ℕ → ℕ
  run = Nat.digits rest digit

  -- One count more changes nothing, once the count covers the number.
  one_more : (count : ℕ) {a : ℕ} (b : ℕ) → a ≤ count → run (suc count) a b ≡ run count a b
  one_more zero {a = zero} b covers = refl
  one_more zero {a = suc a} b covers = absurd (omega arith)
  one_more (suc count) {a = zero} b covers = refl
  one_more (suc count) {a = suc a} b covers =
      ap (λ (above : ℕ). above * 2 + digit (suc a % 2) (b % 2))
        (one_more count (b / 2) (omega arith))

  -- So every such count does as well as the number itself.
  settled : (count a b : ℕ) → a ≤ count → run count a b ≡ run a a b
  settled zero zero b covers = refl
  settled zero (suc a) b covers = absurd (omega arith)
  settled (suc count) a b covers = elim (dec_le a count) [
    | yes fewer ↦ one_more count b fewer ∙ settled count a b fewer
    | no tight ↦ let whole : suc count ≡ a = omega arith in ap (λ (n : ℕ). run n a b) whole
  ]

  -- The digits of a number that is not 0.
  lowest_digit :
      (a b : ℕ)
      → run (suc a) (suc a) b ≡ run (suc a / 2) (suc a / 2) (b / 2) * 2 + digit (suc a % 2) (b % 2)
  lowest_digit a b =
      ap (λ (above : ℕ). above * 2 + digit (suc a % 2) (b % 2))
        (settled a (suc a / 2) (b / 2) (omega arith))

abbrev and_rest : ℕ → ℕ
and_rest b = 0

abbrev or_rest : ℕ → ℕ
or_rest b = b

-- `simp` opens the native operations by the laws that say what they stand for.
pub bit_and_step :
    (left right : ℕ)
    → Nat.bit_and left right ≡ Nat.bit_and (left / 2) (right / 2) * 2 + min (left % 2) (right % 2)
bit_and_step zero right = simp Nat.bit_and-bitwise (omega arith)
bit_and_step (suc left) right = simp Nat.bit_and-bitwise (lowest_digit and_rest min left right)

pub bit_or_step :
    (left right : ℕ)
    → Nat.bit_or left right ≡ Nat.bit_or (left / 2) (right / 2) * 2 + max (left % 2) (right % 2)
bit_or_step zero right = simp Nat.bit_or-bitwise (omega arith)
bit_or_step (suc left) right = simp Nat.bit_or-bitwise (lowest_digit or_rest max left right)

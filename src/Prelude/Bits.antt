-- ===== src/Prelude/Bits.antt =====
-- Words as lists of bits: what `&`, `|`, `~` and `<<` do to the bit at each position.
mod Step
pub use Step.{bit_or_step, bit_and_step}
use Prim.Native.Nat.{
  ℕ, zero, suc, ◌+◌, ◌-◌, ◌*◌, ◌/◌, ◌%◌, ◌^◌, ◌≤◌, ◌<◌, min, max, bit_and, bit_or,
}
use mathlib.Core.Path.{◌≡◌, refl, ap, sym, ◌∙◌}
use native.Mathlib.Nat.{pow-suc, pow-succ', div-div-eq-div-mul}
use native.Mathlib.Omega.{arith}
use next_os.Prelude.Tests.{◌==◌, if◌then◌else◌}

-- The bit of `a` at position `k`.
abbrev pub bit_at : ℕ → ℕ → ℕ
bit_at a zero = a % 2
bit_at a (suc k) = bit_at (a / 2) k

pub bit_at-le : (a k : ℕ) → bit_at a k ≤ 1
bit_at-le a zero = omega arith
bit_at-le a (suc k) = bit_at-le (a / 2) k

bit_and-half : (a b : ℕ) → bit_and a b / 2 ≡ bit_and (a / 2) (b / 2)
bit_and-half a b = omega (arith, bit_and_step a b)

bit_or-half : (a b : ℕ) → bit_or a b / 2 ≡ bit_or (a / 2) (b / 2)
bit_or-half a b = omega (arith, bit_or_step a b)

pub bit_at-and : (k a b : ℕ) → bit_at (bit_and a b) k ≡ min (bit_at a k) (bit_at b k)
bit_at-and zero a b = omega (arith, bit_and_step a b)
bit_at-and (suc k) a b = ap (λ t. bit_at t k) (bit_and-half a b) ∙ bit_at-and k (a / 2) (b / 2)

pub bit_at-or : (k a b : ℕ) → bit_at (bit_or a b) k ≡ max (bit_at a k) (bit_at b k)
bit_at-or zero a b = omega (arith, bit_or_step a b)
bit_at-or (suc k) a b = ap (λ t. bit_at t k) (bit_or-half a b) ∙ bit_at-or k (a / 2) (b / 2)

pub bit_at-zero : (k : ℕ) → bit_at 0 k ≡ 0
bit_at-zero zero = refl
bit_at-zero (suc k) = bit_at-zero k

half-pow : (b : ℕ) → 2 ^ suc b / 2 ≡ 2 ^ b
half-pow b = omega (arith, pow-suc 2 b)

-- `1 << b` has one bit set.
pub bit_at-pow : (b k : ℕ) → bit_at (2 ^ b) k ≡ (if b == k then 1 else 0)
bit_at-pow zero zero = refl
bit_at-pow zero (suc k) = bit_at-zero k ∙ ground arith
bit_at-pow (suc b) zero = ground (arith, pow-suc 2 b)
bit_at-pow (suc b) (suc k) = ap (λ t. bit_at t k) (half-pow b) ∙ bit_at-pow b k ∙ ground arith

not-half : (n a : ℕ) → a < 2 ^ suc n → (2 ^ suc n - 1 - a) / 2 ≡ 2 ^ n - 1 - a / 2
not-half n a h = omega (arith, pow-suc 2 n)

-- `~a` in `n` bits.
pub bit_at-not : (n k a : ℕ) → k < n → a < 2 ^ n → bit_at (2 ^ n - 1 - a) k ≡ 1 - bit_at a k
bit_at-not zero k a lt h = absurd (omega arith)
bit_at-not (suc n) zero a lt h = omega (arith, pow-suc 2 n)
bit_at-not (suc n) (suc k) a lt h =
    ap (λ t. bit_at t k) (not-half n a h)
    ∙ bit_at-not n k (a / 2) (omega arith) (omega (arith, pow-suc 2 n))

-- A word of `n` bits that are all set is the greatest one.
pub all_ones : (n a : ℕ) → a < 2 ^ n → ((k : ℕ) → k < n → bit_at a k ≡ 1) → a ≡ 2 ^ n - 1
all_ones zero a h ones = omega arith
all_ones (suc n) a h ones = omega (
  arith,
  pow-suc 2 n,
  ones 0 (omega arith),
  all_ones n (a / 2) (omega (arith, pow-suc 2 n)) (λ k lt. ones (suc k) (omega arith)),
)

-- A mask of `n` ones keeps a word of `n` bits.
pub bit_and-ones : (n a : ℕ) → a < 2 ^ n → bit_and a (2 ^ n - 1) ≡ a
bit_and-ones zero zero h = refl
bit_and-ones zero (suc a) h = absurd (omega arith)
bit_and-ones (suc n) a h = omega (
  arith,
  pow-suc 2 n,
  bit_and_step a (2 ^ suc n - 1),
  half-ones,
  bit_and-ones n (a / 2) (omega (arith, pow-suc 2 n)),
)
  where
    half-ones : bit_and (a / 2) ((2 ^ suc n - 1) / 2) ≡ bit_and (a / 2) (2 ^ n - 1)
    half-ones = ap (bit_and (a / 2)) (omega (arith, pow-suc 2 n))

shifted_once : (n w : ℕ) → 2 * (w * 2 ^ n) ≡ w * 2 ^ suc n
shifted_once n w =
    let unfolded = ap (λ (power : ℕ). w * power) (pow-suc 2 n) in omega (arith, unfolded)

div-pow-suc : (a k : ℕ) → a / 2 ^ suc k ≡ a / 2 / 2 ^ k
div-pow-suc a k = ap (λ (t : ℕ). a / t) (pow-succ' 2 k) ∙ sym (div-div-eq-div-mul a 2 (2 ^ k))

-- Clearing the `k` lowest bits of a word of `k + n` bits rounds it down to a multiple of `2 ^ k`.
pub bit_and_round :
    (k n a : ℕ) → a / 2 ^ k < 2 ^ n → bit_and a ((2 ^ n - 1) * 2 ^ k) ≡ a / 2 ^ k * 2 ^ k
bit_and_round zero n a h =
    ap (bit_and a) (omega arith) ∙ bit_and-ones n a (omega arith) ∙ omega arith
bit_and_round (suc k) n a h = omega (
  arith,
  bit_and_step a ((2 ^ n - 1) * 2 ^ suc k),
  shifted_once k (2 ^ n - 1),
  shifted_once k (a / 2 / 2 ^ k),
  ap (λ (t : ℕ). t * 2 ^ suc k) (div-pow-suc a k),
  ap (bit_and (a / 2)) halved,
  bit_and_round k n (a / 2) (rw (← div-pow-suc a k) h),
)
  where
    halved : (2 ^ n - 1) * 2 ^ suc k / 2 ≡ (2 ^ n - 1) * 2 ^ k
    halved = omega (arith, shifted_once k (2 ^ n - 1))

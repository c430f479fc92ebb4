-- ===== src/Prelude/Words.antt =====
-- 64-bit words: the C expressions `w & (1ULL << b)`, `w | (1ULL << b)` and `w & ~(1ULL << b)`,
-- as facts about single bits.
use Prim.Native.Nat.{ℕ, zero, suc, ◌-◌, ◌*◌, ◌/◌, ◌^◌, ◌<◌, bit_and, bit_or}
use Prim.Native.Nat.{bit_and-bitwise}
use mathlib.Core.Path.{◌≡◌, refl, ap, ◌∙◌}
use mathlib.Core.Logic.{◌↔◌}
use native.Mathlib.Nat.{pow-suc, one-le-pow, div-eq_of_lt}
use native.Mathlib.Omega.{arith}
use next_os.Prelude.Tests.{◌==◌, if◌then◌else◌}
use next_os.Prelude.Bits.{bit_at, bit_at-le, bit_at-and, bit_at-or, bit_at-pow, bit_at-not}
use next_os.Prelude.Bits.{bit_and_step, bit_or_step, bit_and_round}

abbrev pub word_mod : ℕ
word_mod = 0x1_0000_0000_0000_0000

-- `~w`
abbrev pub not64 : ℕ → ℕ
not64 w = word_mod - 1 - w

self_below_pow : (w : ℕ) → w < 2 ^ w
self_below_pow zero = omega arith
self_below_pow (suc w) = omega (arith, pow-suc 2 w, self_below_pow w)

-- No digit is left of a word when all of them are cleared.
pow_clears : (w : ℕ) → w / 2 ^ w ≡ 0
pow_clears w = div-eq_of_lt (self_below_pow w)

and_nothing : (w : ℕ) → bit_and w 0 ≡ 0
and_nothing w =
    ap (bit_and w) (omega (arith, nothing))
    ∙ bit_and_round w 0 w (omega (arith, pow_clears w))
    ∙ ap (λ (q : ℕ). q * 2 ^ w) (pow_clears w)
    ∙ omega (arith, nothing)
  where
    nothing : 0 * 2 ^ w ≡ 0
    nothing = omega arith

-- `w & (1 << b)` is the bit at `b`, in its place.
bit_and-pow : (b w : ℕ) → bit_and w (2 ^ b) ≡ bit_at w b * 2 ^ b
bit_and-pow zero w = omega (arith, bit_and_step w 1, and_nothing (w / 2))
bit_and-pow (suc b) w = omega (
  arith,
  pow-suc 2 b,
  ap (λ (t : ℕ). bit_at (w / 2) b * t) (pow-suc 2 b),
  bit_and_step w (2 ^ suc b),
  halved,
  bit_and-pow b (w / 2),
)
  where
    halved : bit_and (w / 2) (2 ^ suc b / 2) ≡ bit_and (w / 2) (2 ^ b)
    halved = ap (bit_and (w / 2)) (omega (arith, pow-suc 2 b))

zero-or-one : (x p : ℕ) → 0 < p → (x * p ≡ 0) ↔ (x ≡ 0)
zero-or-one zero p h = (λ _. refl, λ _. omega arith)
zero-or-one (suc x) p h = (λ e. absurd (omega arith), λ e. absurd (omega arith))

pub bit_and-pow_eq_zero : (b w : ℕ) → (bit_and w (2 ^ b) ≡ 0) ↔ (bit_at w b ≡ 0)
bit_and-pow_eq_zero b w =
    let law = zero-or-one (bit_at w b) (2 ^ b) (one-le-pow b 2 (omega arith)) in
    (λ e. law.0 (omega (arith, bit_and-pow b w)), λ e. omega (arith, bit_and-pow b w, law.1 e))

pub bit_or-lt : (n a b : ℕ) → a < 2 ^ n → b < 2 ^ n → bit_or a b < 2 ^ n
bit_or-lt zero zero zero ha hb = omega arith
bit_or-lt zero zero (suc b) ha hb = absurd (omega arith)
bit_or-lt zero (suc a) b ha hb = absurd (omega arith)
bit_or-lt (suc n) a b ha hb = omega (
  arith,
  pow-suc 2 n,
  bit_or_step a b,
  bit_or-lt n (a / 2) (b / 2) (omega (arith, pow-suc 2 n)) (omega (arith, pow-suc 2 n)),
)

pub bit_and-lt : (n a b : ℕ) → a < 2 ^ n → bit_and a b < 2 ^ n
bit_and-lt zero zero b ha = omega (arith, bit_and_step 0 b, bit_and-bitwise 0 b)
bit_and-lt zero (suc a) b ha = absurd (omega arith)
bit_and-lt (suc n) a b ha = omega (
  arith,
  pow-suc 2 n,
  bit_and_step a b,
  bit_and-lt n (a / 2) (b / 2) (omega (arith, pow-suc 2 n)),
)

pub pow-lt : (n b : ℕ) → b < n → 2 ^ b < 2 ^ n
pow-lt zero b h = absurd (omega arith)
pow-lt (suc n) zero h = omega (arith, pow-suc 2 n, one-le-pow n 2 (omega arith))
pow-lt (suc n) (suc b) h = omega (arith, pow-suc 2 n, pow-suc 2 b, pow-lt n b (omega arith))

-- `w | (1 << b)` sets the bit at `b` and no other.
pub bit_at-set : (w b k : ℕ) → bit_at (bit_or w (2 ^ b)) k ≡ (if b == k then 1 else bit_at w k)
bit_at-set w b k = ground (arith, bit_at-or k w (2 ^ b), bit_at-pow b k, bit_at-le w k)

-- `w & ~(1 << b)` clears the bit at `b` and no other.
pub bit_at-clear :
    (w b k : ℕ)
    → b < 64
    → k < 64
    → bit_at (bit_and w (not64 (2 ^ b))) k ≡ (if b == k then 0 else bit_at w k)
bit_at-clear w b k hb hk = ground (
  arith,
  bit_at-and k w (not64 (2 ^ b)),
  bit_at-not 64 k (2 ^ b),
  pow-lt 64 b,
  bit_at-pow b k,
  bit_at-le w k,
)

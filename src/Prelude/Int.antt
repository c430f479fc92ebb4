-- ===== src/Prelude/Int.antt =====
-- The C type `int`, without its bounds.
use Prim.Native.Nat.{ℕ, zero, suc, ◌+◌, ◌-◌, ◌*◌, ◌/◌}
use mathlib.Core.Bool.{Bool, true, false}
use next_os.Prelude.Tests.{ltb, leb, if◌then◌else◌}

-- `negsuc n` is the number that is `n + 1` below 0.
pub data ℤ : Type 0 where
  pos : ℕ → ℤ
  negsuc : ℕ → ℤ

-- The number that is `n` below 0.
abbrev pub below_zero : ℕ → ℤ
below_zero zero = pos 0
below_zero (suc n) = negsuc n

abbrev pub neg : ℤ → ℤ
neg (pos n) = below_zero n
neg (negsuc n) = pos (suc n)

-- `m - n` of natural numbers
abbrev pub difference : ℕ → ℕ → ℤ
difference m n = if leb n m then pos (m - n) else below_zero (n - m)

abbrev pub add : ℤ → ℤ → ℤ
add (pos m) (pos n) = pos (m + n)
add (pos m) (negsuc n) = difference m (suc n)
add (negsuc m) (pos n) = difference n (suc m)
add (negsuc m) (negsuc n) = negsuc (m + n + 1)

-- `z * m / d`, which C rounds towards 0
abbrev pub scale : ℤ → ℕ → ℕ → ℤ
scale (pos n) m d = pos (n * m / d)
scale (negsuc n) m d = below_zero (suc n * m / d)

abbrev pub is_neg : ℤ → Bool
is_neg (pos n) = false
is_neg (negsuc n) = true

-- `<`
abbrev pub less : ℤ → ℤ → Bool
less (pos m) (pos n) = ltb m n
less (pos m) (negsuc n) = false
less (negsuc m) (pos n) = true
less (negsuc m) (negsuc n) = ltb n m

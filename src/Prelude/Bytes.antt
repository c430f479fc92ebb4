-- ===== src/Prelude/Bytes.antt =====
-- Numbers in a buffer of bytes, the lowest byte first, and C strings.
use Prim.Native.Nat.{ℕ, ◌+◌, ◌*◌}
use mathlib.Core.List.{List, [], ◌∷◌}
use next_os.Prelude.Tests.{◌==◌, if◌then◌else◌}
use next_os.Prelude.Lists.{get_or}

abbrev pub read16 : List ℕ → ℕ → ℕ
read16 buf at = get_or buf at 0 + 256 * get_or buf (at + 1) 0

abbrev pub read32 : List ℕ → ℕ → ℕ
read32 buf at = read16 buf at + 65536 * read16 buf (at + 2)

-- The string in a buffer: what stands before the first NUL.
abbrev pub c_string : List ℕ → List ℕ
c_string [] = []
c_string (b ∷ bs) = let rest = c_string bs in if b == 0 then [] else b ∷ rest

-- ===== src/Bignum.antt =====
-- The numbers of kernel/net/tls_crypto.c, for RSA. A loop along an array goes along the list of its
-- words from the index on where the loop stands; a write behind the array changes nothing. The
-- subtractions that reduce a number take fuel, and `none` says that it ran out.
pub mod Value
pub mod Clean
pub mod Compare
pub mod Reduced
pub mod Reduce
pub mod Halves
pub mod Product
pub mod Exponent
pub mod Power
pub mod Bytes
pub mod Output
mod Tests
use next_os.Prelude.{
  ℕ, zero, suc, ◌+◌, ◌-◌, ◌*◌, ◌/◌, ◌%◌, ◌^◌, max, bit_and, bit_or, Bool, true, false, not, ◌&&◌,
  Option, none, some, List, [], ◌∷◌, ◌++◌, ltb, leb, ◌==◌, if◌then◌else◌, length, get_or, set, take,
  drop, replicate,
}

-- The size of a word.
abbrev pub word_size : ℕ
word_size = 4294967296

abbrev pub max_modulus : ℕ
max_modulus = 512

abbrev pub bn_words : ℕ
bn_words = max_modulus / 4 + 2

-- `bignum_t`
pub record Bignum : Type 0 where
  pub words : List ℕ
  pub n : ℕ

abbrev pub bn_zero : Bignum
bn_zero = record { words = replicate bn_words 0; n = 0 }

-- The loop that leaves out leading words that are 0.
unfoldable pub normalize : ℕ → List ℕ → ℕ
normalize zero ws = zero
normalize (suc n) ws = let rest = normalize n ws in if get_or ws n 0 == 0 then rest else suc n

-- The word at the head, if there are words left.
abbrev pub word : ℕ → List ℕ → ℕ
word zero ws = 0
word (suc n) [] = 0
word (suc n) (w ∷ ws) = w

abbrev pub behind : List ℕ → List ℕ
behind [] = []
behind (w ∷ ws) = ws

-- What `bn_cmp` returns: -1, 0 or 1.
pub data Sign : Type 0 where
  below equal above : Sign

unfoldable pub word_at : ℕ → List ℕ → ℕ → ℕ
word_at n ws i = if ltb i n then get_or ws i 0 else 0

-- The loop of `bn_cmp`, with the words below index `i` left.
unfoldable pub cmp_loop : ℕ → ℕ → List ℕ → ℕ → List ℕ → Sign
cmp_loop zero an xs bn ys = equal
cmp_loop (suc i) an xs bn ys =
    let av = word_at an xs i in
    let bv = word_at bn ys i in
    let rest = cmp_loop i an xs bn ys in
    if ltb bv av then above else if ltb av bv then below else rest

unfoldable pub bn_cmp : Bignum → Bignum → Sign
bn_cmp a b = cmp_loop (max a.n b.n) a.n a.words b.n b.words

-- The loop of `bn_sub`, with `k` rounds left; `an` and `bn` words are left of the numbers.
unfoldable pub sub_loop : ℕ → ℕ → ℕ → List ℕ → List ℕ → ℕ → List ℕ
sub_loop zero an bn xs ys borrow = xs
sub_loop (suc k) an bn [] ys borrow = []
sub_loop (suc k) an bn (a ∷ xs) ys borrow =
    let av = word an (a ∷ xs) in
    let bv = word bn ys + borrow in
    (if leb bv av then (av - bv) % word_size else (word_size + av - bv) % word_size)
    ∷ sub_loop k (an - 1) (bn - 1) xs (behind ys) (if leb bv av then 0 else 1)

unfoldable pub bn_sub : Bignum → Bignum → Bignum
bn_sub a b =
    let n = max a.n b.n in
    let words = sub_loop n a.n b.n a.words b.words 0 in
    record { words = words; n = normalize n words }

-- The loop of `bn_add`, with `k` rounds left.
unfoldable pub add_loop : ℕ → ℕ → ℕ → List ℕ → List ℕ → ℕ → List ℕ
add_loop zero an bn xs ys carry = xs
add_loop (suc k) an bn [] ys carry = []
add_loop (suc k) an bn (a ∷ xs) ys carry =
    let sum = carry + word an (a ∷ xs) + word bn ys in
    sum % word_size ∷ add_loop k (an - 1) (bn - 1) xs (behind ys) (sum / word_size)

unfoldable pub bn_add : Bignum → Bignum → Bignum
bn_add a b =
    let n = suc (max a.n b.n) in
    let words = add_loop n a.n b.n a.words b.words 0 in
    record { words = words; n = normalize n words }

-- The loop of `bn_shl1`, with `n` words left: the words and the carry.
unfoldable pub shl_loop : ℕ → List ℕ → ℕ → List ℕ × ℕ
shl_loop zero ws carry = (ws, carry)
shl_loop (suc n) [] carry = ([], carry)
shl_loop (suc n) (w ∷ ws) carry =
    let (shifted, out) = shl_loop n ws (w / 2 ^ 31) in
    (bit_or (w * 2 % word_size) carry ∷ shifted, out)

unfoldable pub bn_shl1 : Bignum → Bignum
bn_shl1 a =
    let (words, carry) = shl_loop a.n a.words 0 in
    if not (carry == 0) && ltb a.n bn_words
    then record { words = set words a.n carry; n = suc a.n }
    else record { words = words; n = a.n }

unfoldable pub at_least : Sign → Bool
at_least below = false
at_least equal = true
at_least above = true

-- The loop `while (bn_cmp(a, m) >= 0) bn_sub(a, m)`
unfoldable pub reduce : ℕ → Bignum → Bignum → Option Bignum
reduce zero a m = none
reduce (suc fuel) a m =
    let rest = reduce fuel (bn_sub a m) m in if at_least (bn_cmp a m) then rest else some a

unfoldable pub reduce_once : Bignum → Bignum → Bignum
reduce_once a m = if at_least (bn_cmp a m) then bn_sub a m else a

-- The loop of `bn_mulmod`, with `k` bits of `b` left from bit `i` on.
unfoldable pub mul_loop : ℕ → ℕ → Bignum → Bignum → Bignum → Bignum → Bignum
mul_loop zero i acc temp b m = acc
mul_loop (suc k) i acc temp b m =
    mul_loop k (i + 1)
      (if bit_and (get_or b.words (i / 32) 0) (2 ^ (i % 32)) == 0
        then acc
        else reduce_once (bn_add acc temp) m)
      (reduce_once (bn_shl1 temp) m) b m

unfoldable pub mul_reduced : Option Bignum → Bignum → Bignum → Option Bignum
mul_reduced none b m = none
mul_reduced (some temp) b m = some (mul_loop (b.n * 32) 0 bn_zero temp b m)

unfoldable pub bn_mulmod : ℕ → Bignum → Bignum → Bignum → Option Bignum
bn_mulmod fuel a b m = mul_reduced (reduce fuel a m) b m

infixl 5 ◌>>=◌
abbrev ◌>>=◌ : Option Bignum → (Bignum → Option Bignum) → Option Bignum
none >>= next = none
some a >>= next = next a

-- The loop of `bn_modexp`, for at most `k` bits of the exponent.
unfoldable pub exp_loop : ℕ → ℕ → Bignum → Bignum → ℕ → Bignum → Option Bignum
exp_loop zero fuel r b exp m = if exp == 0 then some r else none
exp_loop (suc k) fuel r b exp m =
    let rest =
      (if exp % 2 == 0 then some r else bn_mulmod fuel r b m)
      >>= (λ r2. bn_mulmod fuel b b m >>= (λ b2. exp_loop k fuel r2 b2 (exp / 2) m)) in
    if exp == 0 then some r else rest

abbrev pub bn_one : Bignum
bn_one = record { words = set (replicate bn_words 0) 0 1; n = 1 }

-- `bn_modexp` with an exponent of 32 bits
unfoldable pub bn_modexp : ℕ → Bignum → ℕ → Bignum → Option Bignum
bn_modexp fuel base exp m = do b ← reduce fuel base m; exp_loop 32 fuel bn_one b exp m

-- The loop of `bn_from_bytes`, at the byte `i`
unfoldable pub from_loop : ℕ → ℕ → List ℕ → List ℕ → List ℕ
from_loop len i [] ws = ws
from_loop len i (b ∷ bytes) ws =
    let wi = (len - 1 - i) / 4 in
    let bi = (len - 1 - i) % 4 in
    from_loop len (i + 1) bytes (set ws wi (bit_or (get_or ws wi 0) (b * 2 ^ (bi * 8) % word_size)))

unfoldable pub bn_from_bytes : List ℕ → Bignum
bn_from_bytes bytes =
    let len = length bytes in
    let words = from_loop len 0 (take (bn_words * 4) bytes) (replicate bn_words 0) in
    let n = (len + 3) / 4 in
    record { words = words; n = normalize (if ltb bn_words n then bn_words else n) words }

-- The loop of `bn_to_bytes`: the last `n` bytes.
unfoldable pub to_loop : ℕ → List ℕ → List ℕ
to_loop zero ws = []
to_loop (suc i) ws =
    (if ltb (i / 4) bn_words then get_or ws (i / 4) 0 / 2 ^ (i % 4 * 8) % 256 else 0) ∷ to_loop i ws

unfoldable pub bn_to_bytes : Bignum → ℕ → List ℕ
bn_to_bytes a len = to_loop len a.words

-- ===== src/Bignum/Bytes.antt =====
-- `bn_from_bytes` and `bn_to_bytes` of kernel/net/tls_crypto.c against the number that bytes are, the
-- highest byte first.
use next_os.Prelude.{
  ℕ, zero, suc, ◌+◌, ◌-◌, ◌*◌, ◌/◌, ◌%◌, ◌^◌, ◌≤◌, ◌<◌, bit_or, ◌≡◌, refl, sym, ap, ◌∙◌, false,
  List, [], ◌∷◌, ltb, length, get_or, set, replicate, length-set, arith,
}
use mathlib.Core.Path.{subst}
use native.Mathlib.Nat.{pow-suc}
use next_os.Prelude.Slices.{take_all}
use next_os.Prelude.Bits.{bit_or_step}
use next_os.Bignum.{Bignum, word_size, bn_words, from_loop, bn_from_bytes}
use next_os.Bignum.Value.{
  value, value_of, Words, IsBignum, Clean, value-normalize, normalize-le, or_zero,
}
use next_os.Bignum.Compare.{IsNormal, normalize-IsNormal}
use next_os.Bignum.Product.{zeros-Words}
use next_os.Bignum.Clean.{Clean-set, Clean-normalize, Clean-replicate}

-- The number that bytes are, the highest one first.
abbrev pub number : List ℕ → ℕ
number [] = 0
number (b ∷ bytes) = b * 256 ^ length bytes + number bytes

abbrev pub Bytes : List ℕ → Type 0
Bytes [] = Unit
Bytes (b ∷ bytes) = (b < 256) × Bytes bytes

-- The bits of `q * 2 ^ k` and those of `l` are apart.
or_shift : (k q l : ℕ) → l < 2 ^ k → bit_or (q * 2 ^ k) l ≡ q * 2 ^ k + l
or_shift zero q l lt =
    let none_there : l ≡ 0 = omega arith in
    ap (bit_or (q * 2 ^ 0)) none_there ∙ or_zero (q * 2 ^ 0) ∙ omega arith
or_shift (suc k) q l lt =
    let twice : q * 2 ^ suc k ≡ 2 * (q * 2 ^ k) =
      ap (λ (t : ℕ). q * t) (pow-suc 2 k) ∙ omega arith in
    let half : q * 2 ^ suc k / 2 ≡ q * 2 ^ k = omega arith in
    let upper = ap (λ (t : ℕ). bit_or t (l / 2)) half in
    omega (
      arith,
      twice,
      bit_or_step (q * 2 ^ suc k) l,
      upper,
      or_shift k q (l / 2) (omega (arith, pow-suc 2 k)),
    )

or_apart : (k q a l : ℕ) → a ≡ q * 2 ^ k → l < 2 ^ k → bit_or a l ≡ a + l
or_apart k q a l e lt = subst (λ t. bit_or t l ≡ t + l) (sym e) (or_shift k q l lt)

-- The `p` lowest bytes are 0.
abbrev pub Low : ℕ → List ℕ → Type 0
Low zero ws = Unit
Low (suc p) [] = Unit
Low (suc zero) (w ∷ ws) = w % 256 ≡ 0
Low (suc (suc zero)) (w ∷ ws) = w % 65536 ≡ 0
Low (suc (suc (suc zero))) (w ∷ ws) = w % 16777216 ≡ 0
Low (suc (suc (suc (suc p)))) (w ∷ ws) = (w ≡ 0) × Low p ws

-- The write of `bn_from_bytes` of a byte at position `p` from the end.
abbrev put : ℕ → ℕ → List ℕ → List ℕ
put p b ws = set ws (p / 4) (bit_or (get_or ws (p / 4) 0) (b * 2 ^ (p % 4 * 8) % word_size))

record Put (n p b : ℕ) (ws us : List ℕ) : Type 0 where
  low : Low p us
  wide : Words us
  more : value n us ≡ value n ws + b * 256 ^ p

put_later : (p b w : ℕ) (ws : List ℕ) → put (suc (suc (suc (suc p)))) b (w ∷ ws) ≡ w ∷ put p b ws
put_later p b w ws =
    let next : suc (suc (suc (suc p))) / 4 ≡ suc (p / 4) = omega arith in
    let same_byte : suc (suc (suc (suc p))) % 4 ≡ p % 4 = omega arith in rw (next, same_byte) refl

put_at-Put :
    (n p b : ℕ) (ws : List ℕ)
    → Low (suc p) ws
    → Words ws
    → b < 256
    → p / 4 < n
    → n ≤ length ws
    → Put n p b ws (put p b ws)
put_at-Put zero p b ws low wide byte inside room = absurd (omega arith)
put_at-Put (suc n) p b [] low wide byte inside room = absurd (omega arith)
put_at-Put (suc n) zero b (w ∷ ws) low (small, wide) byte inside room =
    let joined = or_apart 8 (w / 2 ^ 8) w (b * 2 ^ 0 % word_size) (omega arith) (omega arith) in
    record { low = tt; wide = (omega arith, wide); more = omega arith }
put_at-Put (suc n) (suc zero) b (w ∷ ws) low (small, wide) byte inside room =
    let joined = or_apart 16 (w / 2 ^ 16) w (b * 2 ^ 8 % word_size) (omega arith) (omega arith) in
    record { low = omega arith; wide = (omega arith, wide); more = omega arith }
put_at-Put (suc n) (suc (suc zero)) b (w ∷ ws) low (small, wide) byte inside room =
    let joined = or_apart 24 (w / 2 ^ 24) w (b * 2 ^ 16 % word_size) (omega arith) (omega arith) in
    record { low = omega arith; wide = (omega arith, wide); more = omega arith }
put_at-Put (suc n) (suc (suc (suc zero))) b (w ∷ ws) low (small, wide) byte inside room =
    let (nought, rest_low) = low in
    let joined = or_apart 32 (w / 2 ^ 32) w (b * 2 ^ 24 % word_size) (omega arith) (omega arith) in
    record { low = omega arith; wide = (omega arith, wide); more = omega arith }
put_at-Put (suc n) (suc (suc (suc (suc p)))) b (w ∷ ws) (nought, low) (small, wide) byte inside
      room =
    let rest = put_at-Put n p b ws low wide byte (omega arith) (omega arith) in
    let scaled : 256 ^ suc (suc (suc (suc p))) ≡ word_size * 256 ^ p = omega (
      arith,
      pow-suc 256 p,
      pow-suc 256 (suc p),
      pow-suc 256 (suc (suc p)),
      pow-suc 256 (suc (suc (suc p))),
    ) in
    let product = ap (λ (t : ℕ). b * t) scaled in
    subst (Put (suc n) (suc (suc (suc (suc p)))) b (w ∷ ws)) (sym (put_later p b w ws)) (record {
      low = (nought, rest.low);
      wide = (small, rest.wide);
      more = omega (arith, rest.more, product);
    })

-- The loop of `bn_from_bytes`, with the bytes that are left.
record FromBytes (n : ℕ) (v : ℕ) (ws us : List ℕ) : Type 0 where
  wide : Words us
  kept : Clean n ws → Clean n us
  sized : length us ≡ length ws
  more : value n us ≡ value n ws + v

from_loop-FromBytes :
    (len i n : ℕ) (bytes ws : List ℕ)
    → Bytes bytes
    → Low (length bytes) ws
    → Words ws
    → i + length bytes ≡ len
    → length bytes ≤ n * 4
    → n ≤ length ws
    → FromBytes n (number bytes) ws (from_loop len i bytes ws)
unfolding from_loop
from_loop-FromBytes len i n [] ws small low wide total inside room = record {
  wide = wide;
  kept = λ c. c;
  sized = refl;
  more = omega arith;
}
from_loop-FromBytes len i n (b ∷ bytes) ws (b_small, small) low wide total inside room =
    let p = length bytes in
    let here : len - 1 - i ≡ p = omega arith in
    let now = put_at-Put n p b ws low wide b_small (omega arith) room in
    let sized =
      length-set ws (p / 4) (bit_or (get_or ws (p / 4) 0) (b * 2 ^ (p % 4 * 8) % word_size)) in
    let rest =
      from_loop-FromBytes len (i + 1) n bytes (put p b ws) small now.low now.wide (omega arith)
        (omega arith) (omega (arith, sized)) in
    rw here (record {
      wide = rest.wide;
      kept = λ c. rest.kept (
          Clean-set n (p / 4) ws (bit_or (get_or ws (p / 4) 0) (b * 2 ^ (p % 4 * 8) % word_size))
            (omega arith) c);
      sized = rest.sized ∙ sized;
      more = omega (arith, rest.more, now.more);
    })

Low-replicate : (k p : ℕ) → Low p (replicate k 0)
Low-replicate k zero = tt
Low-replicate zero (suc p) = tt
Low-replicate (suc k) (suc zero) = omega arith
Low-replicate (suc k) (suc (suc zero)) = omega arith
Low-replicate (suc k) (suc (suc (suc zero))) = omega arith
Low-replicate (suc k) (suc (suc (suc (suc p)))) = (refl, Low-replicate k p)

value_zeros : (k n : ℕ) → value n (replicate k 0) ≡ 0
value_zeros k zero = refl
value_zeros zero (suc n) = refl
value_zeros (suc k) (suc n) = omega (arith, value_zeros k n)

pub record Read (bytes : List ℕ) (a : Bignum) : Type 0 where
  pub ok : IsBignum a
  pub normal : IsNormal a.n a.words
  pub value_is : value_of a ≡ number bytes
  pub few : a.n ≤ (length bytes + 3) / 4

-- What `bn_from_bytes` makes of as many bytes as the array holds.
pub bn_from_bytes-Read :
    (bytes : List ℕ) → Bytes bytes → length bytes ≤ bn_words * 4 → Read bytes (bn_from_bytes bytes)
unfolding bn_from_bytes
bn_from_bytes-Read bytes small le =
    let len = length bytes in
    let n = (len + 3) / 4 in
    let fits : ltb bn_words n ≡ false = ground arith in
    let zeros : List ℕ = replicate bn_words 0 in
    let ws = from_loop len 0 bytes zeros in
    let run =
      from_loop-FromBytes len 0 n bytes zeros small (Low-replicate bn_words len)
        (zeros-Words bn_words) (omega arith) (omega arith) (omega arith) in
    let nothing : value n zeros ≡ 0 = value_zeros bn_words n in
    rw (take_all (bn_words * 4) bytes le, fits)
      (record {
        ok = record {
          sized = run.sized;
          clean = Clean-normalize n ws (run.kept (Clean-replicate bn_words n));
          inside = omega (arith, normalize-le n ws);
          wide = run.wide;
        };
        normal = normalize-IsNormal n ws;
        value_is = value-normalize n ws ∙ omega (arith, run.more, nothing);
        few = normalize-le n ws;
      })

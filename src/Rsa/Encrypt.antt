-- ===== src/Rsa/Encrypt.antt =====
-- What `rsa_pkcs1_encrypt` of kernel/net/tls_crypto.c makes of a message.
use next_os.Prelude.{
  ℕ, zero, suc, ◌+◌, ◌-◌, ◌%◌, ◌^◌, ◌≤◌, ◌<◌, ◌≡◌, refl, ap, ◌∙◌, ◌⊎◌, inl, inr, false, Option,
  some, List, [], ◌∷◌, ◌++◌, ltb, ◌==◌, length, take, length-append, Bool-cases, arith,
}
use mathlib.Core.Path.{subst}
use next_os.Prelude.Outcome.{Outcome, done}
use next_os.Prelude.Slices.{length-take}
use next_os.Bignum.{Bignum, max_modulus, bn_from_bytes, bn_to_bytes, bn_modexp}
use next_os.Bignum.Value.{value_of}
use next_os.Bignum.Bytes.{number, Bytes, bn_from_bytes-Read}
use next_os.Bignum.Output.{bn_to_bytes-Written, number-lt}
use next_os.Bignum.Power.{bn_modexp-Computes}
use next_os.Rsa.{RsaPubkey, nonzero_byte, padding, block, rsa_pkcs1_encrypt}

-- One of the next `fuel` numbers has a lowest byte that is not 0.
abbrev pub Gives : {S : Type 0} (tls_random : S → ℕ × S) → ℕ → S → Type 0
Gives tls_random zero s = ⊥
Gives tls_random (suc fuel) s =
    (0 < (tls_random s).0 % 256) ⊎ Gives tls_random fuel (tls_random s).1

-- Bytes that are not 0.
abbrev pub Pads : List ℕ → Type 0
Pads [] = Unit
Pads (b ∷ ps) = (0 < b) × (b < 256) × Pads ps

Pads-Bytes : (ps : List ℕ) → Pads ps → Bytes ps
Pads-Bytes [] h = tt
Pads-Bytes (b ∷ ps) (pos, lt, h) = (lt, Pads-Bytes ps h)

record Draws {S : Type 0} (drawn : Option (ℕ × S)) : Type 0 where
  byte : ℕ
  rest : S
  found : drawn ≡ some (byte, rest)
  pos : 0 < byte
  lt : byte < 256

record Padded {S : Type 0} (n : ℕ) (drawn : Option (List ℕ × S)) : Type 0 where
  ps : List ℕ
  rest : S
  found : drawn ≡ some (ps, rest)
  long : length ps ≡ n
  pads : Pads ps

-- A message of the block that is encrypted: its padding has no 0, so that the first 0 behind the type
-- ends it.
pub record Encrypts {S : Type 0} (key : RsaPubkey) (bytes : List ℕ)
    (returned : Option (Outcome (List ℕ × S))) : Type 0 where
  pub ps : List ℕ
  pub output : List ℕ
  pub rest : S
  pub found : returned ≡ some (done (output, rest))
  pub pads : Pads ps
  pub block_long : length (block ps bytes) ≡ key.mod_len
  pub output_bytes : Bytes output
  pub output_long : length output ≡ key.mod_len
  pub power :
      number output ≡ number (block ps bytes) ^ key.exponent % number (take key.mod_len key.modulus)

pub Bytes-append : (xs ys : List ℕ) → Bytes xs → Bytes ys → Bytes (xs ++ ys)
Bytes-append [] ys h g = g
Bytes-append (x ∷ xs) ys (lt, h) g = (lt, Bytes-append xs ys h g)

Bytes-take : (n : ℕ) (xs : List ℕ) → Bytes xs → Bytes (take n xs)
Bytes-take zero xs h = tt
Bytes-take (suc n) [] h = tt
Bytes-take (suc n) (x ∷ xs) (lt, h) = (lt, Bytes-take n xs h)

module _ {S : Type 0} (tls_random : S → ℕ × S) where
  nonzero_byte-Draws :
      (fuel : ℕ) (s : S) → Gives tls_random fuel s → Draws (nonzero_byte tls_random fuel s)
  unfolding nonzero_byte
  nonzero_byte-Draws zero s h = absurd h
  nonzero_byte-Draws (suc fuel) s h = elim (Bool-cases ((tls_random s).0 % 256 == 0)) [
    | inl nought ↦ rw nought (elim h [
      | inl pos ↦ absurd (ground arith)
      | inr later ↦ nonzero_byte-Draws fuel (tls_random s).1 later
    ])
    | inr other ↦ rw other (record {
      byte = (tls_random s).0 % 256;
      rest = (tls_random s).1;
      found = refl;
      pos = ground arith;
      lt = omega arith;
    })
  ]

  padding-Padded :
      (fuel : ℕ)
      → ((s : S) → Gives tls_random fuel s)
      → (n : ℕ) (s : S) → Padded n (padding tls_random fuel n s)
  unfolding padding
  padding-Padded fuel gives zero s = record {
    ps = [];
    rest = s;
    found = refl;
    long = refl;
    pads = tt;
  }
  padding-Padded fuel gives (suc n) s =
      let one = nonzero_byte-Draws fuel s (gives s) in
      let more = padding-Padded fuel gives n one.rest in
      rw (one.found, more.found)
        (record {
          ps = one.byte ∷ more.ps;
          rest = more.rest;
          found = refl;
          long = ap suc more.long;
          pads = (one.pos, one.lt, more.pads);
        })

  fits_in :
      (steps : ℕ) (s : S) (key : RsaPubkey) (bytes : List ℕ) (max_out fuel : ℕ) (ps : List ℕ)
      (t : S) (result : Bignum)
      → key.mod_len ≤ max_out
      → length bytes + 11 ≤ key.mod_len
      → key.mod_len ≤ max_modulus
      → padding tls_random fuel (key.mod_len - length bytes - 3) s ≡ some (ps, t)
      → bn_modexp steps
          (bn_from_bytes (block ps bytes))
          key.exponent
          (bn_from_bytes (take key.mod_len key.modulus))
        ≡ some result
      → rsa_pkcs1_encrypt tls_random fuel steps s key bytes max_out
        ≡ some (done (bn_to_bytes result key.mod_len, t))
  unfolding rsa_pkcs1_encrypt
  fits_in steps s key bytes max_out fuel ps t result out_room long_enough small padded raised =
      let a : ltb max_out key.mod_len ≡ false = ground arith in
      let b : ltb key.mod_len (length bytes + 11) ≡ false = ground arith in
      let c : ltb max_modulus key.mod_len ≡ false = ground arith in
      rw (a, b, c, padded, raised) refl

  -- `rsa_pkcs1_encrypt`, for a message that leaves room for eleven bytes and an output with room, with a
  -- modulus and an exponent that are not 0. When of each run of `fuel` random numbers one has a lowest
  -- byte that is not 0, and with steps for each number below `256 ^ mod_len`, it writes as many bytes as
  -- the modulus has, which are the power modulo the modulus of a block of that length: 0, 2, padding
  -- without a 0, 0 and the message.
  pub rsa_pkcs1_encrypt-Encrypts :
      (fuel steps : ℕ) (s : S) (key : RsaPubkey) (bytes : List ℕ) (max_out : ℕ)
      → ((t : S) → Gives tls_random fuel t)
      → key.mod_len ≤ max_out
      → length bytes + 11 ≤ key.mod_len
      → key.mod_len ≤ max_modulus
      → length key.modulus ≡ max_modulus
      → Bytes key.modulus
      → Bytes bytes
      → 0 < number (take key.mod_len key.modulus)
      → 0 < key.exponent
      → key.exponent < 2 ^ 32
      → 256 ^ key.mod_len ≤ steps
      → Encrypts key bytes (rsa_pkcs1_encrypt tls_random fuel steps s key bytes max_out)
  rsa_pkcs1_encrypt-Encrypts fuel steps s key bytes max_out gives out_room long_enough small sized
        modulus_bytes bytes_ok pos exp_pos exp_lt enough =
      let k = key.mod_len in
      let drawn = padding-Padded fuel gives (k - length bytes - 3) s in
      let em = block drawn.ps bytes in
      let em_long : length em ≡ k = omega (arith, length-append drawn.ps (0 ∷ bytes), drawn.long) in
      let em_bytes : Bytes em = (
        omega arith,
        (
          omega arith,
          Bytes-append drawn.ps (0 ∷ bytes) (Pads-Bytes drawn.ps drawn.pads)
              (omega arith, bytes_ok),
        ),
      ) in
      let n = take k key.modulus in
      let n_long : length n ≡ k = length-take k key.modulus (omega arith) in
      let n_bytes = Bytes-take k key.modulus modulus_bytes in
      let base = bn_from_bytes-Read em em_bytes (omega arith) in
      let modulo = bn_from_bytes-Read n n_bytes (omega arith) in
      let base_lt : number em < 256 ^ k =
        subst (λ j. number em < 256 ^ j) em_long (number-lt em em_bytes) in
      let n_lt : number n < 256 ^ k =
        subst (λ j. number n < 256 ^ j) n_long (number-lt n n_bytes) in
      let power =
        bn_modexp-Computes steps (bn_from_bytes em) key.exponent (bn_from_bytes n) base.ok
          base.normal modulo.ok (omega (arith, modulo.few)) (omega (arith, modulo.value_is))
          (omega (arith, base.value_is)) (omega (arith, modulo.value_is)) exp_pos exp_lt in
      let rr = power.remainder.reduced in
      let written =
        bn_to_bytes-Written power.result k rr.ok (omega arith)
          (omega (arith, rr.less, modulo.value_is)) in
      record {
        ps = drawn.ps;
        output = bn_to_bytes power.result k;
        rest = drawn.rest;
        found =
            fits_in steps s key bytes max_out fuel drawn.ps drawn.rest power.result out_room
              long_enough small drawn.found power.found;
        pads = drawn.pads;
        block_long = em_long;
        output_bytes = written.bytes_only;
        output_long = written.long;
        power =
            written.number_is
            ∙ power.remainder.value_is
            ∙ ap (λ (v : ℕ). v ^ key.exponent % value_of (bn_from_bytes n)) base.value_is
            ∙ ap (λ (v : ℕ). number em ^ key.exponent % v) modulo.value_is;
      }

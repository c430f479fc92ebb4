-- ===== src/Rsa.antt =====
-- `rsa_pkcs1_encrypt` of kernel/net/tls_crypto.c, over the numbers of Bignum. `tls_random` is an
-- argument, on a state of its own; the loops take fuel, and `none` says that it ran out.
mod Encrypt
mod Tests
use next_os.Prelude.{
  ℕ, zero, suc, ◌+◌, ◌-◌, ◌*◌, ◌/◌, ◌%◌, Bool, Option, none, some, List, [], ◌∷◌, ◌++◌, ltb, ◌==◌,
  if◌then◌else◌, length, take,
}
use next_os.Prelude.Outcome.{Outcome, fault, error, done}
use next_os.Bignum.{Bignum, max_modulus, bn_from_bytes, bn_to_bytes, bn_modexp}

-- `rsa_pubkey_t`
pub record RsaPubkey : Type 0 where
  pub modulus : List ℕ
  pub mod_len : ℕ
  pub exponent : ℕ

infixl 5 ◌>>=◌
abbrev ◌>>=◌ : {A B : Type 0} → Option A → (A → Option B) → Option B
none >>= next = none
some a >>= next = next a

-- The block that is encrypted.
abbrev pub block : List ℕ → List ℕ → List ℕ
block ps bytes = 0 ∷ 2 ∷ ps ++ 0 ∷ bytes

module _ {S : Type 0} (tls_random : S → ℕ × S) where
  -- A random byte that is not 0.
  unfoldable pub nonzero_byte : ℕ → S → Option (ℕ × S)
  nonzero_byte zero s = none
  nonzero_byte (suc fuel) s =
      let r = (tls_random s).0 % 256 in
      let again = nonzero_byte fuel (tls_random s).1 in
      if r == 0 then again else some (r, (tls_random s).1)

  -- The padding of `ps_len` bytes.
  unfoldable pub padding : ℕ → ℕ → S → Option (List ℕ × S)
  padding fuel zero s = some ([], s)
  padding fuel (suc ps_len) s = do
    (r, t) ← nonzero_byte fuel s
    (ps, u) ← padding fuel ps_len t
    some (r ∷ ps, u)

  unfoldable pub rsa_pkcs1_encrypt :
      ℕ → ℕ → S → RsaPubkey → List ℕ → ℕ → Option (Outcome (List ℕ × S))
  rsa_pkcs1_encrypt fuel steps s key bytes max_out =
      let k = key.mod_len in
      let encrypted = (do
        (ps, t) ← padding fuel (k - length bytes - 3) s
        result ←
            bn_modexp steps (bn_from_bytes (block ps bytes)) key.exponent
              (bn_from_bytes (take k key.modulus))
        some (done (bn_to_bytes result k, t))) in
      if ltb max_out k
      then some error
      else if ltb k (length bytes + 11)
      then some error
      else if ltb max_modulus k
      then some fault
      else encrypted

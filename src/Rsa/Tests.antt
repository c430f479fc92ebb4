-- ===== src/Rsa/Tests.antt =====
-- `rsa_pkcs1_encrypt` of kernel/net/tls_crypto.c with a modulus of twelve bytes.
use next_os.Prelude.{
  ℕ, zero, suc, ◌+◌, ◌%◌, ◌^◌, refl, inl, inr, List, [], ◌∷◌, ◌++◌, replicate, arith,
}
use native.Mathlib.Decide.{ℕ_discrete}
use next_os.Bignum.Bytes.{Bytes}
use next_os.Rsa.{RsaPubkey, rsa_pkcs1_encrypt}
use next_os.Rsa.Encrypt.{Gives, Encrypts, Bytes-append, rsa_pkcs1_encrypt-Encrypts}

-- Numbers that count up, of which one in two has a lowest byte that is not 0.
abbrev counting : ℕ → ℕ × ℕ
counting n = (n, n + 1)

counting-Gives : (n : ℕ) → Gives counting 2 n
counting-Gives n = elim (ℕ_discrete (n % 256) 0) [
  | yes nought ↦ inr (inl (omega arith))
  | no other ↦ inl (omega arith)
]

abbrev modulus_bytes : List ℕ
modulus_bytes = 200 ∷ replicate 10 17 ++ 3 ∷ []

abbrev key : RsaPubkey
key = record { modulus = modulus_bytes ++ replicate 500 0; mod_len = 12; exponent = 65537 }

zeros-Bytes : (n : ℕ) → Bytes (replicate n 0)
zeros-Bytes zero = tt
zeros-Bytes (suc n) = (omega arith, zeros-Bytes n)

rsa_pkcs1_encrypt-Encrypts_example :
    Encrypts key (77 ∷ []) (rsa_pkcs1_encrypt counting 2 (256 ^ 12) 255 key (77 ∷ []) 16)
rsa_pkcs1_encrypt-Encrypts_example =
    rsa_pkcs1_encrypt-Encrypts counting 2 (256 ^ 12) 255 key (77 ∷ []) 16 counting-Gives
      (omega arith) (omega arith) (omega arith) refl
      (Bytes-append modulus_bytes (replicate 500 0) (omega arith) (zeros-Bytes 500)) (omega arith)
      (omega arith) (omega arith) (omega arith) (omega arith)

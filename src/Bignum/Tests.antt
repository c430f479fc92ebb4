-- ===== src/Bignum/Tests.antt =====
-- The numbers of kernel/net/tls_crypto.c at concrete values.
use next_os.Prelude.{ℕ, ◌≡◌, refl, [], ◌∷◌, arith}
use next_os.Bignum.{
  Bignum, normalize, add_loop, bn_add, sub_loop, bn_sub, bn_from_bytes, bn_to_bytes,
}
use next_os.Bignum.Output.{bn_to_bytes-bn_from_bytes}

abbrev word_of : ℕ → Bignum
word_of v = record { words = v ∷ []; n = 1 }

-- 2^32 - 1 and 1 are carried into a second word, and borrowed from it again.
abbrev two_words : Bignum
two_words = record { words = 4294967295 ∷ 0 ∷ []; n = 1 }

carried : bn_add two_words (word_of 1) ≡ record { words = 0 ∷ 1 ∷ []; n = 2 }
unfolding bn_add add_loop normalize
carried = refl

borrowed :
    bn_sub (record { words = 0 ∷ 1 ∷ []; n = 2 }) (word_of 1)
    ≡ record { words = 4294967295 ∷ 0 ∷ []; n = 1 }
unfolding bn_sub sub_loop normalize
borrowed = refl

bn_to_bytes-bn_from_bytes_example :
    bn_to_bytes (bn_from_bytes (0 ∷ 200 ∷ 1 ∷ 2 ∷ 3 ∷ [])) 5 ≡ 0 ∷ 200 ∷ 1 ∷ 2 ∷ 3 ∷ []
bn_to_bytes-bn_from_bytes_example =
    bn_to_bytes-bn_from_bytes (0 ∷ 200 ∷ 1 ∷ 2 ∷ 3 ∷ []) (omega arith) (omega arith)

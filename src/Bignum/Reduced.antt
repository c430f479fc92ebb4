-- ===== src/Bignum/Reduced.antt =====
-- The numbers below a modulus in `bn_mulmod` of kernel/net/tls_crypto.c: `bn_add`, `bn_shl1` and one
-- subtraction.
use next_os.Prelude.{
  ℕ, suc, ◌+◌, ◌-◌, ◌*◌, ◌%◌, ◌≤◌, ◌<◌, max, ◌≡◌, refl, sym, ap, ◌∙◌, ◌⊎◌, inl, inr, true, false,
  not, ◌&&◌, List, ltb, ◌==◌, length, get_or, set, length-set, get_or-set_self, arith,
}
use mathlib.Core.Path.{subst}
use native.Mathlib.Decide.{ℕ_discrete}
use native.Mathlib.Nat.{mod-eq_of_lt, mod-eq-sub-mod}
use next_os.Bignum.{
  Bignum, bn_words, sub_loop, bn_sub, add_loop, bn_add, shl_loop, bn_shl1, reduce_once,
}
use next_os.Bignum.Value.{
  value, value_of, IsBignum, value-normalize, normalize-le, value-sub_loop, value-add_loop,
  value-shl_loop, length-sub_loop, Words-sub_loop, length-add_loop, Words-add_loop, length-shl_loop,
  Words-shl_loop, Words-set, value-set,
}
use next_os.Bignum.Clean.{
  Clean-sub_loop, Clean-add_loop, Clean-shl_loop, Clean-set, Clean-more, Clean-normalize,
}
use next_os.Bignum.Compare.{at_least-cases, IsNormal, normalize-IsNormal, fewer_digits}

pub record Subtracted (a b d : Bignum) : Type 0 where
  pub ok : IsBignum d
  pub difference : value_of d + value_of b ≡ value_of a
  pub normal : IsNormal d.n d.words

pub bn_sub-Subtracted :
    (a b : Bignum) → IsBignum a → IsBignum b → value_of b ≤ value_of a → Subtracted a b (bn_sub a b)
unfolding bn_sub
bn_sub-Subtracted a b oka okb le =
    let n = max a.n b.n in
    let ws = sub_loop n a.n b.n a.words b.words 0 in
    let same_value = value-normalize n ws in
    let run =
      value-sub_loop n a.n b.n a.words b.words 0 (omega arith) (omega arith)
        (omega (arith, oka.sized, oka.inside, okb.inside)) oka.wide okb.wide (omega arith)
        (omega arith) in
    record {
      ok = record {
        clean =
            Clean-normalize n ws
              (Clean-sub_loop n a.n b.n a.words b.words 0 (omega arith) oka.clean);
        sized = length-sub_loop n a.n b.n a.words b.words 0 ∙ oka.sized;
        inside = omega (arith, normalize-le n ws, oka.inside, okb.inside);
        wide = Words-sub_loop n a.n b.n a.words b.words 0 oka.wide;
      };
      difference = omega (arith, same_value, run);
      normal = normalize-IsNormal n ws;
    }

pub record Added (a b s : Bignum) : Type 0 where
  pub ok : IsBignum s
  pub sum : value_of s ≡ value_of a + value_of b
  pub normal : IsNormal s.n s.words

pub bn_add-Added :
    (a b : Bignum)
    → IsBignum a
    → IsBignum b
    → a.n < bn_words
    → b.n < bn_words
    → Added a b (bn_add a b)
unfolding bn_add
bn_add-Added a b oka okb a_room b_room =
    let n = suc (max a.n b.n) in
    let ws = add_loop n a.n b.n a.words b.words 0 in
    let same_value = value-normalize n ws in
    let run =
      value-add_loop n a.n b.n a.words b.words 0 (omega arith) (omega arith)
        (omega (arith, oka.sized)) oka.wide okb.wide (omega arith) in
    record {
      ok = record {
        clean =
            Clean-normalize n ws
              (Clean-add_loop n a.n b.n a.words b.words 0 (omega arith) oka.clean);
        sized = length-add_loop n a.n b.n a.words b.words 0 ∙ oka.sized;
        inside = omega (arith, normalize-le n ws);
        wide = Words-add_loop n a.n b.n a.words b.words 0 oka.wide;
      };
      sum = omega (arith, same_value, run);
      normal = normalize-IsNormal n ws;
    }

-- A shift keeps the number of words, or makes it one more with a highest word that is not 0.
pub record Doubled (a s : Bignum) : Type 0 where
  pub ok : IsBignum s
  pub double : value_of s ≡ 2 * value_of a
  pub length_kept : (s.n ≡ a.n) ⊎ IsNormal s.n s.words

set_word : (ws : List ℕ) (n v : ℕ) → n < length ws → get_or (set ws n v) n 0 ≡ v
set_word ws n v lt = get_or-set_self ws n v 0 lt

top_word :
    (ws : List ℕ) (n carry : ℕ) → n < length ws → 0 < carry → IsNormal (suc n) (set ws n carry)
unfolding IsNormal
top_word ws n carry lt pos = λ k e.
    let here : n ≡ k = omega arith in
    let found : get_or (set ws n carry) k 0 ≡ carry =
      subst (λ j. get_or (set ws n carry) j 0 ≡ carry) here (set_word ws n carry lt) in
    omega arith

shl1_carry :
    (a : Bignum)
    → (not ((shl_loop a.n a.words 0).1 == 0) && ltb a.n bn_words) ≡ true
    → bn_shl1 a ≡ record {
      words = set (shl_loop a.n a.words 0).0 a.n (shl_loop a.n a.words 0).1;
      n = suc a.n;
    }
unfolding bn_shl1
shl1_carry a h = rw h refl

shl1_none :
    (a : Bignum)
    → (not ((shl_loop a.n a.words 0).1 == 0) && ltb a.n bn_words) ≡ false
    → bn_shl1 a ≡ record { words = (shl_loop a.n a.words 0).0; n = a.n }
unfolding bn_shl1
shl1_none a h = rw h refl

pub bn_shl1-Doubled : (a : Bignum) → IsBignum a → a.n < bn_words → Doubled a (bn_shl1 a)
bn_shl1-Doubled a oka room =
    let ws = (shl_loop a.n a.words 0).0 in
    let carry = (shl_loop a.n a.words 0).1 in
    let (bit, run) =
      value-shl_loop a.n a.words 0 oka.wide (omega arith) (omega (arith, oka.sized)) in
    let long : length ws ≡ bn_words = length-shl_loop a.n a.words 0 ∙ oka.sized in
    let clean = Clean-shl_loop a.n a.words 0 oka.clean in
    let wide = Words-shl_loop a.n a.words 0 oka.wide (omega arith) in
    elim (ℕ_discrete carry 0) [
      | yes none_out ↦
          let nothing : value (suc a.n) (set ws a.n carry) ≡ value a.n ws =
            ap (λ c. value (suc a.n) (set ws a.n c)) none_out ∙ value-set a.n ws in
          subst (Doubled a) (sym (shl1_none a (ground arith))) (record {
            ok = record { sized = long; clean = clean; inside = oka.inside; wide = wide };
            double = omega (arith, nothing, run);
            length_kept = inl refl;
          })
      | no out ↦ subst (Doubled a) (sym (shl1_carry a (ground arith))) (record {
        ok = record {
          sized = length-set ws a.n carry ∙ long;
          clean =
              Clean-set (suc a.n) a.n ws carry (omega arith)
                (Clean-more a.n (suc a.n) ws (omega arith) clean);
          inside = omega arith;
          wide = Words-set ws a.n carry wide (omega arith);
        };
        double = omega (arith, run);
        length_kept = inr (top_word ws a.n carry (omega (arith, long)) (omega arith));
      })
    ]

-- A number below the modulus, with no more words.
pub record Reduced (m x : Bignum) : Type 0 where
  pub ok : IsBignum x
  pub less : value_of x < value_of m
  pub few : x.n ≤ m.n

-- A number with no more words than the modulus once it is below it.
abbrev pub Small : Bignum → Bignum → Type 0
Small m x = (x.n ≤ m.n) ⊎ IsNormal x.n x.words

few_digits : (m x : Bignum) → IsBignum m → Small m x → value_of x < value_of m → x.n ≤ m.n
few_digits m x okm (inl le) lt = le
few_digits m x okm (inr normal) lt =
    fewer_digits m.n x.n m.words x.words normal okm.wide (omega arith)

pub Reduced-below :
    (m x : Bignum) → IsBignum m → IsBignum x → Small m x → value_of x < value_of m → Reduced m x
Reduced-below m x okm ok small lt = record { ok = ok; less = lt; few = few_digits m x okm small lt }

-- A reduced number with a given remainder.
pub record Remainder (m : Bignum) (v : ℕ) (x : Bignum) : Type 0 where
  pub reduced : Reduced m x
  pub value_is : value_of x ≡ v % value_of m

pub Remainder-below :
    (m x : Bignum)
    → IsBignum m
    → IsBignum x
    → Small m x
    → value_of x < value_of m
    → Remainder m (value_of x) x
Remainder-below m x okm ok small lt = record {
  reduced = Reduced-below m x okm ok small lt;
  value_is = sym (mod-eq_of_lt lt);
}

-- One subtraction reduces what is less than twice the modulus.
pub reduce_once-Remainder :
    (a m : Bignum)
    → IsBignum a
    → IsBignum m
    → Small m a
    → value_of a < 2 * value_of m
    → Remainder m (value_of a) (reduce_once a m)
unfolding reduce_once
reduce_once-Remainder a m oka okm small lt = elim (at_least-cases a m oka okm) [
  | inl (more, le) ↦
      let d = bn_sub-Subtracted a m oka okm le in
      let v = value_of a - value_of m in
      let less : value_of (bn_sub a m) < value_of m = omega (arith, d.difference) in
      rw more (record {
        reduced = Reduced-below m (bn_sub a m) okm d.ok (inr d.normal) less;
        value_is =
            sym (mod-eq_of_lt less)
            ∙ ap (λ (t : ℕ). t % value_of m) (omega (arith, d.difference))
            ∙ sym (mod-eq-sub-mod le);
      })
  | inr (not_more, less) ↦ rw not_more (Remainder-below m a okm oka small less)
]

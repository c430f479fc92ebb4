-- ===== src/Arp/Loops.antt =====
-- The two loops of `arp_cache_add` of kernel/net/net_stack.c.
use next_os.Prelude.{
  ℕ, suc, ◌≡◌, refl, sym, ap, ◌∙◌, inl, inr, Bool, true, false, Option, none, some, List, [], ◌∷◌,
  ◌==◌, if◌then◌else◌, length, Bool-cases, arith,
}
use mathlib.Core.Path.{subst}
use next_os.Arp.{ArpEntry, holds, in_front, renew, occupy, arp_cache_lookup}

-- What is found when one address is added.
pub record Added (ip : ℕ) (mac : List ℕ) (cache after : List ArpEntry) : Type 0 where
  pub sized : length after ≡ length cache
  pub found :
      (j : ℕ) → arp_cache_lookup j after ≡ (if j == ip then some mac else arp_cache_lookup j cache)

-- Every entry is taken.
abbrev pub Full : List ArpEntry → Type 0
Full [] = Unit
Full (e ∷ cache) = (e.valid ≡ true) × Full cache

pub lookup_there :
    (j : ℕ) (e : ArpEntry) (cache : List ArpEntry)
    → holds j e ≡ false
    → arp_cache_lookup j (e ∷ cache) ≡ arp_cache_lookup j cache
unfolding arp_cache_lookup
lookup_there j e cache other = rw other refl

pub lookup_here :
    (j : ℕ) (e : ArpEntry) (cache : List ArpEntry)
    → holds j e ≡ true
    → arp_cache_lookup j (e ∷ cache) ≡ some e.mac
unfolding arp_cache_lookup
lookup_here j e cache here = rw here refl

lookup_front :
    (j : ℕ) (e : ArpEntry) (xs ys : List ArpEntry)
    → arp_cache_lookup j xs ≡ arp_cache_lookup j ys
    → arp_cache_lookup j (e ∷ xs) ≡ arp_cache_lookup j (e ∷ ys)
unfolding arp_cache_lookup
lookup_front j e xs ys same = ap (λ rest. if holds j e then some e.mac else rest) same

-- The entry that has the address gets the new one.
Added-first :
    (ip : ℕ) (mac : List ℕ) (e : ArpEntry) (cache : List ArpEntry)
    → holds ip e ≡ true
    → Added ip mac (e ∷ cache) (record e { mac = mac } ∷ cache)
Added-first ip mac e cache here = record {
  sized = refl;
  found = λ j. elim (Bool-cases (j == ip)) [
    | inl equal ↦
        rw equal (lookup_here j (record e { mac = mac }) cache (ground (arith, here, equal)))
    | inr other ↦ rw other (
        lookup_there j (record e { mac = mac }) cache (ground (arith, here, other))
        ∙ sym (lookup_there j e cache (ground (arith, here, other))))
  ];
}

Added-free :
    (ip : ℕ) (mac : List ℕ) (e : ArpEntry) (cache : List ArpEntry)
    → e.valid ≡ false
    → Added ip mac (e ∷ cache) (record { ip = ip; mac = mac; valid = true } ∷ cache)
Added-free ip mac e cache free =
    let entry : ArpEntry = record { ip = ip; mac = mac; valid = true } in
    record {
      sized = refl;
      found = λ j. elim (Bool-cases (j == ip)) [
        | inl equal ↦ rw equal (lookup_here j entry cache (ground (arith, equal)))
        | inr other ↦ rw other (
            lookup_there j entry cache (ground (arith, other))
            ∙ sym (lookup_there j e cache (ground (arith, free))))
      ];
    }

Added-later :
    (ip : ℕ) (mac : List ℕ) (e : ArpEntry) (cache after : List ArpEntry)
    → holds ip e ≡ false
    → Added ip mac cache after
    → Added ip mac (e ∷ cache) (e ∷ after)
Added-later ip mac e cache after other a = record {
  sized = ap suc a.sized;
  found = λ j. elim (Bool-cases (j == ip)) [
    | inl equal ↦
        let learned : arp_cache_lookup j after ≡ some mac = a.found j ∙ rw equal refl in
        rw equal (lookup_there j e after (ground (arith, other, equal)) ∙ learned)
    | inr apart ↦
        let kept : arp_cache_lookup j after ≡ arp_cache_lookup j cache =
          a.found j ∙ rw apart refl in
        rw apart (lookup_front j e after cache kept)
  ];
}

-- What the two loops do, or say when they find no entry.
abbrev pub Renews : ℕ → List ℕ → List ArpEntry → Option (List ArpEntry) → Type 0
Renews ip mac cache none = arp_cache_lookup ip cache ≡ none
Renews ip mac cache (some after) = Added ip mac cache after

abbrev pub Occupies : ℕ → List ℕ → List ArpEntry → Option (List ArpEntry) → Type 0
Occupies ip mac cache none = Full cache
Occupies ip mac cache (some after) = Added ip mac cache after

Renews-in_front :
    (ip : ℕ) (mac : List ℕ) (e : ArpEntry) (cache : List ArpEntry) (o : Option (List ArpEntry))
    → holds ip e ≡ false
    → Renews ip mac cache o
    → Renews ip mac (e ∷ cache) (in_front e o)
Renews-in_front ip mac e cache none other r = lookup_there ip e cache other ∙ r
Renews-in_front ip mac e cache (some after) other r = Added-later ip mac e cache after other r

pub renew-Renews :
    (ip : ℕ) (mac : List ℕ) (cache : List ArpEntry) → Renews ip mac cache (renew ip mac cache)
unfolding renew arp_cache_lookup
renew-Renews ip mac [] = refl
renew-Renews ip mac (e ∷ cache) = elim (Bool-cases (holds ip e)) [
  | inl here ↦ rw here (Added-first ip mac e cache here)
  | inr other ↦
      rw other
        (Renews-in_front ip mac e cache (renew ip mac cache) other (renew-Renews ip mac cache))
]

Occupies-in_front :
    (ip : ℕ) (mac : List ℕ) (e : ArpEntry) (cache : List ArpEntry) (o : Option (List ArpEntry))
    → holds ip e ≡ false
    → e.valid ≡ true
    → Occupies ip mac cache o
    → Occupies ip mac (e ∷ cache) (in_front e o)
Occupies-in_front ip mac e cache none other taken r = (taken, r)
Occupies-in_front ip mac e cache (some after) other taken r =
    Added-later ip mac e cache after other r

not_held :
    (ip : ℕ) (e : ArpEntry) (cache : List ArpEntry)
    → arp_cache_lookup ip (e ∷ cache) ≡ none
    → (holds ip e ≡ false) × (arp_cache_lookup ip cache ≡ none)
not_held ip e cache missing = elim (Bool-cases (holds ip e)) [
  | inl here ↦
      let both : some e.mac ≡ none = sym (lookup_here ip e cache here) ∙ missing in
      absurd (ground (arith, both))
  | inr other ↦ (other, sym (lookup_there ip e cache other) ∙ missing)
]

occupy_test :
    (ip : ℕ) (mac : List ℕ) (e : ArpEntry) (cache : List ArpEntry) (taken : Bool)
    → e.valid ≡ taken
    → occupy ip mac (e ∷ cache) ≡ (
        if taken
        then in_front e (occupy ip mac cache)
        else some (record { ip = ip; mac = mac; valid = true } ∷ cache))
unfolding occupy
occupy_test ip mac e cache taken h =
    ap
      (λ b.
        if b
        then in_front e (occupy ip mac cache)
        else some (record { ip = ip; mac = mac; valid = true } ∷ cache))
      h

occupy_nil : (ip : ℕ) (mac : List ℕ) → occupy ip mac [] ≡ none
unfolding occupy
occupy_nil ip mac = refl

pub occupy-Occupies :
    (ip : ℕ) (mac : List ℕ) (cache : List ArpEntry)
    → arp_cache_lookup ip cache ≡ none
    → Occupies ip mac cache (occupy ip mac cache)
occupy-Occupies ip mac [] missing = subst (Occupies ip mac []) (sym (occupy_nil ip mac)) tt
occupy-Occupies ip mac (e ∷ cache) missing = elim (Bool-cases e.valid) [
  | inl taken ↦
      let (other, rest) = not_held ip e cache missing in
      subst (Occupies ip mac (e ∷ cache)) (sym (occupy_test ip mac e cache true taken)) (
        Occupies-in_front ip mac e cache (occupy ip mac cache) other taken
          (occupy-Occupies ip mac cache rest))
  | inr free ↦
      subst (Occupies ip mac (e ∷ cache)) (sym (occupy_test ip mac e cache false free))
        (Added-free ip mac e cache free)
]

-- ===== src/Arp/Learn.antt =====
-- What `arp_cache_add` and `arp_handle` of kernel/net/net_stack.c make `arp_cache_lookup` find.
use next_os.Prelude.{
  ℕ, ◌≤◌, ◌<◌, ◌≡◌, ◌≢◌, refl, ◌⊎◌, inl, inr, true, false, ◌&&◌, Option, none, some, List, [], ◌∷◌,
  ltb, ◌==◌, if◌then◌else◌, length, Bool-cases, arith,
}
use native.Mathlib.Decide.{ℕ_discrete}
use next_os.Arp.{
  ArpEntry, renew, occupy, overwrite, or_else, arp_cache_add, arp_cache_lookup, ArpReply,
  arp_header_size, arp_oper, arp_sha, arp_spa, arp_tpa, arp_handle, arp_cache_size,
}
use next_os.Arp.Loops.{
  Added, Full, lookup_there, lookup_here, Renews, Occupies, renew-Renews, occupy-Occupies,
}

-- A full cache that does not have the address loses its first entry.
pub record Replaced (ip : ℕ) (mac : List ℕ) (cache after : List ArpEntry) : Type 0 where
  pub full : Full cache
  pub missing : arp_cache_lookup ip cache ≡ none
  pub first : ArpEntry
  pub rest : List ArpEntry
  pub split : cache ≡ first ∷ rest
  pub sized : length after ≡ length cache
  pub found :
      (j : ℕ) → arp_cache_lookup j after ≡ (if j == ip then some mac else arp_cache_lookup j rest)

overwrite-Replaced :
    (ip : ℕ) (mac : List ℕ) (cache : List ArpEntry)
    → 0 < length cache
    → Full cache
    → arp_cache_lookup ip cache ≡ none
    → Replaced ip mac cache (overwrite ip mac cache)
unfolding overwrite
overwrite-Replaced ip mac [] pos full missing = absurd (omega arith)
overwrite-Replaced ip mac (e ∷ cache) pos full missing =
    let entry : ArpEntry = record { ip = ip; mac = mac; valid = true } in
    record {
      full = full;
      missing = missing;
      first = e;
      rest = cache;
      split = refl;
      sized = refl;
      found = λ j. elim (Bool-cases (j == ip)) [
        | inl equal ↦ rw equal (lookup_here j entry cache (ground (arith, equal)))
        | inr other ↦ rw other (lookup_there j entry cache (ground (arith, other)))
      ];
    }

abbrev pub Learns : ℕ → List ℕ → List ArpEntry → List ArpEntry → Type 0
Learns ip mac cache after = Added ip mac cache after ⊎ Replaced ip mac cache after

by_loops :
    (ip : ℕ) (mac : List ℕ) (cache : List ArpEntry) (renewed occupied : Option (List ArpEntry))
    → 0 < length cache
    → Renews ip mac cache renewed
    → (arp_cache_lookup ip cache ≡ none → Occupies ip mac cache occupied)
    → Learns ip mac cache (or_else renewed (or_else occupied (overwrite ip mac cache)))
by_loops ip mac cache (some after) occupied pos r o = inl r
by_loops ip mac cache none (some after) pos r o = inl (o r)
by_loops ip mac cache none none pos r o = inr (overwrite-Replaced ip mac cache pos (o r) r)

-- `arp_cache_add` makes the address known, and leaves what is found for the others; but a full cache
-- that does not have the address loses its first entry.
pub arp_cache_add-Learns :
    (ip : ℕ) (mac : List ℕ) (cache : List ArpEntry)
    → 0 < length cache
    → Learns ip mac cache (arp_cache_add ip mac cache)
unfolding arp_cache_add
arp_cache_add-Learns ip mac cache pos =
    by_loops ip mac cache (renew ip mac cache) (occupy ip mac cache) pos (renew-Renews ip mac cache)
      (occupy-Occupies ip mac cache)

-- A packet that is long enough teaches the address of its sender, and a request for `our_ip`, and
-- nothing else, gets one reply, to its sender and with `our_mac`.
pub record Handled (our_ip : ℕ) (our_mac bytes : List ℕ) (cache after : List ArpEntry)
    (replies : List ArpReply) : Type 0 where
  pub learns : Learns (arp_spa bytes) (arp_sha bytes) cache after
  pub answer :
      ((arp_oper bytes ≡ 1)
        × (arp_tpa bytes ≡ our_ip)
        × (replies
            ≡ record {
              dst = arp_sha bytes;
              oper = 2;
              sha = our_mac;
              spa = our_ip;
              tha = arp_sha bytes;
              tpa = arp_spa bytes;
            }
              ∷ []))
      ⊎ ((replies ≡ []) × ((arp_oper bytes ≢ 1) ⊎ (arp_tpa bytes ≢ our_ip)))

not_asked : (a b c : ℕ) → (a == 1 && b == c) ≡ false → (a ≢ 1) ⊎ (b ≢ c)
not_asked a b c other = elim (ℕ_discrete a 1) [
  | yes request ↦ inr (λ ours. absurd (ground (arith, other, request, ours)))
  | no not_request ↦ inl not_request
]

-- `arp_handle`: a packet that is too short changes nothing. Another one makes the address of its sender
-- known and leaves what is found for the others, but a full cache without that address loses its first
-- entry; and one reply is sent, to the sender and with our address, when it is a request for our
-- address, and none otherwise.
pub arp_handle-Handled :
    (our_ip : ℕ) (our_mac bytes : List ℕ) (cache : List ArpEntry)
    → length cache ≡ arp_cache_size
    → ((length bytes < arp_header_size) × (arp_handle our_ip our_mac bytes cache ≡ (cache, [])))
      ⊎ ((arp_header_size ≤ length bytes)
          × Handled our_ip our_mac bytes cache
              (arp_handle our_ip our_mac bytes cache).0
              (arp_handle our_ip our_mac bytes cache).1)
unfolding arp_handle
arp_handle-Handled our_ip our_mac bytes cache sized =
    elim (Bool-cases (ltb (length bytes) arp_header_size)) [
      | inl short ↦ inl (ground arith, rw short refl)
      | inr long ↦ inr (
        ground arith,
        rw long (record {
          learns = arp_cache_add-Learns (arp_spa bytes) (arp_sha bytes) cache (omega arith);
          answer = elim (Bool-cases (arp_oper bytes == 1 && arp_tpa bytes == our_ip)) [
            | inl asked ↦ rw asked (inl (ground (arith, asked), ground (arith, asked), refl))
            | inr other ↦
                rw other (inr (refl, not_asked (arp_oper bytes) (arp_tpa bytes) our_ip other))
          ];
        }),
      )
    ]

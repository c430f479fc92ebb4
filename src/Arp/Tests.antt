-- ===== src/Arp/Tests.antt =====
-- The ARP cache of kernel/net/net_stack.c at a request for our address.
use next_os.Prelude.{ℕ, ◌≤◌, ◌<◌, ◌≡◌, refl, ◌⊎◌, false, List, [], ◌∷◌, length, replicate}
use next_os.Arp.{ArpEntry, arp_handle, arp_header_size, arp_cache_size}
use next_os.Arp.Learn.{Handled, arp_handle-Handled}

abbrev free_entry : ArpEntry
free_entry = record { ip = 0; mac = 0 ∷ 0 ∷ 0 ∷ 0 ∷ 0 ∷ 0 ∷ []; valid = false }

abbrev fresh_cache : List ArpEntry
fresh_cache = replicate arp_cache_size free_entry

abbrev our_mac : List ℕ
our_mac = 2 ∷ 0 ∷ 0 ∷ 0 ∷ 0 ∷ 1 ∷ []

-- 10.0.2.2 asks for 10.0.2.15.
abbrev request : List ℕ
request =
    0 ∷ 1 ∷ 8 ∷ 0 ∷ 6 ∷ 4 ∷ 0 ∷ 1 ∷ 82 ∷ 85 ∷ 10 ∷ 0 ∷ 2 ∷ 2 ∷ 10 ∷ 0 ∷ 2 ∷ 2 ∷ 0 ∷ 0 ∷ 0 ∷ 0 ∷ 0
    ∷ 0 ∷ 10 ∷ 0 ∷ 2 ∷ 15 ∷ []

arp_handle-Handled_example :
    ((length request < arp_header_size)
      × (arp_handle 251789322 our_mac request fresh_cache ≡ (fresh_cache, [])))
    ⊎ ((arp_header_size ≤ length request)
        × Handled 251789322 our_mac request fresh_cache
            (arp_handle 251789322 our_mac request fresh_cache).0
            (arp_handle 251789322 our_mac request fresh_cache).1)
arp_handle-Handled_example = arp_handle-Handled 251789322 our_mac request fresh_cache refl

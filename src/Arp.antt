-- ===== src/Arp.antt =====
-- The ARP cache of kernel/net/net_stack.c. An address of the network is the number that its four bytes
-- are in memory; `send_eth` is what it is told to send.
pub mod Loops
mod Learn
mod Tests
use next_os.Prelude.{
  ℕ, zero, suc, ◌+◌, ◌*◌, Bool, true, false, not, ◌&&◌, Option, none, some, List, [], ◌∷◌, ltb,
  ◌==◌, if◌then◌else◌, length, get_or, take, drop,
}
use next_os.Prelude.Bytes.{read32}

abbrev pub arp_cache_size : ℕ
arp_cache_size = 16

-- `arp_entry_t`
pub record ArpEntry : Type 0 where
  pub ip : ℕ
  pub mac : List ℕ
  pub valid : Bool

abbrev pub holds : ℕ → ArpEntry → Bool
holds ip e = e.valid && e.ip == ip

abbrev pub in_front : ArpEntry → Option (List ArpEntry) → Option (List ArpEntry)
in_front e none = none
in_front e (some cache) = some (e ∷ cache)

-- The first loop of `arp_cache_add`: the entry that has the address gets the new hardware address.
unfoldable pub renew : ℕ → List ℕ → List ArpEntry → Option (List ArpEntry)
renew ip mac [] = none
renew ip mac (e ∷ cache) =
    let rest = in_front e (renew ip mac cache) in
    if holds ip e then some (record e { mac = mac } ∷ cache) else rest

-- The second loop: the first entry that is free.
unfoldable pub occupy : ℕ → List ℕ → List ArpEntry → Option (List ArpEntry)
occupy ip mac [] = none
occupy ip mac (e ∷ cache) =
    let rest = in_front e (occupy ip mac cache) in
    if e.valid then rest else some (record { ip = ip; mac = mac; valid = true } ∷ cache)

-- A full cache loses its first entry.
unfoldable pub overwrite : ℕ → List ℕ → List ArpEntry → List ArpEntry
overwrite ip mac [] = []
overwrite ip mac (e ∷ cache) = record { ip = ip; mac = mac; valid = true } ∷ cache

abbrev pub or_else : Option (List ArpEntry) → List ArpEntry → List ArpEntry
or_else none other = other
or_else (some cache) other = cache

unfoldable pub arp_cache_add : ℕ → List ℕ → List ArpEntry → List ArpEntry
arp_cache_add ip mac cache =
    or_else (renew ip mac cache) (or_else (occupy ip mac cache) (overwrite ip mac cache))

unfoldable pub arp_cache_lookup : ℕ → List ArpEntry → Option (List ℕ)
arp_cache_lookup ip [] = none
arp_cache_lookup ip (e ∷ cache) =
    let rest = arp_cache_lookup ip cache in if holds ip e then some e.mac else rest

-- The reply of `arp_handle`, and the hardware address it is sent to.
pub record ArpReply : Type 0 where
  pub dst : List ℕ
  pub oper : ℕ
  pub sha : List ℕ
  pub spa : ℕ
  pub tha : List ℕ
  pub tpa : ℕ

abbrev pub arp_header_size : ℕ
arp_header_size = 28

abbrev pub arp_oper : List ℕ → ℕ
arp_oper bytes = get_or bytes 6 0 * 256 + get_or bytes 7 0

abbrev pub arp_sha : List ℕ → List ℕ
arp_sha bytes = take 6 (drop 8 bytes)

abbrev pub arp_spa : List ℕ → ℕ
arp_spa bytes = read32 bytes 14

abbrev pub arp_tpa : List ℕ → ℕ
arp_tpa bytes = read32 bytes 24

-- `our_ip` and `our_mac` come first.
unfoldable pub arp_handle : ℕ → List ℕ → List ℕ → List ArpEntry → List ArpEntry × List ArpReply
arp_handle our_ip our_mac bytes cache =
    let reply : ArpReply = record {
      dst = arp_sha bytes;
      oper = 2;
      sha = our_mac;
      spa = our_ip;
      tha = arp_sha bytes;
      tpa = arp_spa bytes;
    } in
    if ltb (length bytes) arp_header_size then (cache, []) else (
      arp_cache_add (arp_spa bytes) (arp_sha bytes) cache,
      if arp_oper bytes == 1 && arp_tpa bytes == our_ip then reply ∷ [] else [],
    )

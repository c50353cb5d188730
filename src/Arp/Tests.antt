-- ===== src/Arp/Tests.antt =====
-- The ARP code on concrete input: two hosts that have not met, and a cache with one binding.
use stink_os.Base.{
  ℕ, ◌-◌, ◌≤◌, ◌≡◌, ◌⊎◌, ◌∙◌, refl, sym, ap, List, [], ◌∷◌, none, some, true, false, if◌then◌else◌,
  length, replicate, take, ltb, sub32, arith, length-replicate, get_or-replicate,
}
use stink_os.Arp.{Cache, Host, no_entry, cache_insert, arp_lookup, arp_entry_ttl, arp_cache_size}
use stink_os.Arp.Entries.{IsValid, Tracks}
use stink_os.Arp.Insert.{cache_insert-IsValid, arp_lookup-cache_insert}
use stink_os.Arp.Others.{Evicted, cache_insert-other}
use stink_os.Arp.Resolve.{IsHost, Resolved, arp_handle-request, requests, Spaced, requests-Spaced}
use stink_os.Arp.Snapshot.{arp_snapshot, arp_text, arp_snapshot-take}

abbrev empty : Cache
empty = record { entries = replicate arp_cache_size no_entry; cache_next = 0 }

nothing_tracked : (ip i : ℕ) → ¬ Tracks ip i empty.entries
nothing_tracked ip i k =
    let same = get_or-replicate arp_cache_size i no_entry in
    let bad : ◌≡◌ false true = sym (ap (λ e. e.valid) same) ∙ k.is_valid in cc

empty-IsValid : IsValid empty
empty-IsValid = record {
  sized = length-replicate arp_cache_size no_entry;
  cursor = omega arith;
  unique = λ ip i j k _. absurd (nothing_tracked ip i k);
}

abbrev mac_a : List ℕ
mac_a = 0x52 ∷ 0x54 ∷ 0 ∷ 0x12 ∷ 0x34 ∷ 0x56 ∷ []

abbrev mac_b : List ℕ
mac_b = 0x52 ∷ 0x55 ∷ 10 ∷ 0 ∷ 2 ∷ 2 ∷ []

-- The guest and the gateway of QEMU's user network: 10.0.2.15 and 10.0.2.2.
abbrev guest : Host
guest = record { local_mac = mac_a; local_ip = 0x0f02000a; cache = empty; last_request_tick = 0 }

abbrev gateway : Host
gateway = record { local_mac = mac_b; local_ip = 0x0202000a; cache = empty; last_request_tick = 0 }

guest-IsHost : IsHost guest
guest-IsHost = record { ip_fits = omega arith; mac_sized = refl; cache_valid = empty-IsValid }

gateway-IsHost : IsHost gateway
gateway-IsHost = record { ip_fits = omega arith; mac_sized = refl; cache_valid = empty-IsValid }

arp_handle-request_example : Resolved 500 501 502 600 guest gateway
arp_handle-request_example =
    arp_handle-request 500 501 502 600 guest gateway guest-IsHost gateway-IsHost
      (λ e. omega (arith, e)) refl (omega arith) (omega arith)

-- The cache of a host that has met the gateway.
abbrev met : Cache
met = cache_insert 500 0x0202000a mac_b empty

met-IsValid : IsValid met
met-IsValid = cache_insert-IsValid 500 0x0202000a mac_b empty empty-IsValid

arp_lookup-cache_insert_example :
    (arp_lookup 600 0x0202000a met).0
    ≡ (if ltb arp_entry_ttl (sub32 600 500) then none else some mac_b)
arp_lookup-cache_insert_example =
    arp_lookup-cache_insert 500 600 0x0202000a mac_b empty empty-IsValid

cache_insert-other_example :
    ((arp_lookup 600 0x0202000a (cache_insert 550 0x0f02000a mac_a met)).0
      ≡ (arp_lookup 600 0x0202000a met).0)
    ⊎ (Evicted 0x0f02000a 0x0202000a met
        × ((arp_lookup 600 0x0202000a (cache_insert 550 0x0f02000a mac_a met)).0 ≡ none))
cache_insert-other_example =
    cache_insert-other 550 600 0x0f02000a 0x0202000a mac_a met met-IsValid (λ e. omega (arith, e))

-- Three requests; the second one comes too soon after the first.
abbrev asked : List (ℕ × ℕ)
asked = (500, 0x0202000a) ∷ (505, 0x0202000a) ∷ (520, 0x0202000a) ∷ []

requests-Spaced_example : Spaced 0 (requests asked guest)
requests-Spaced_example =
    requests-Spaced asked 0 guest
      (omega arith, omega arith, (omega arith, omega arith, (omega arith, omega arith, tt)))
      (omega arith)

arp_snapshot-take_example :
    (arp_snapshot 40 met ≡ take (40 - 1) (arp_text met)) × (length (arp_snapshot 40 met) ≤ 40 - 1)
arp_snapshot-take_example = arp_snapshot-take 40 met

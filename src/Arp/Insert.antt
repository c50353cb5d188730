-- ===== src/Arp/Insert.antt =====
-- What `cache_insert` of kernel/drivers/net/arp.c makes of the bindings: the three ways it stores one,
-- and what a later `arp_lookup` finds.
use stink_os.Base.{
  ap₂, ℕ, ◌+◌, ◌%◌, ◌<◌, ◌≡◌, ◌∙◌, inl, inr, refl, ap, subst, List, none, some, true, false, length,
  set, ltb, if◌then◌else◌, sub32, arith, length-set, get_or-set_self, Bool-cases, Option-cases,
}
use stink_os.Arp.{
  Entry, Cache, entry, no_entry, find_ip, find_free, put_entry, touch, insert_new, cache_insert,
  expire, arp_lookup, is_stale, arp_cache_size, arp_entry_ttl,
}
use stink_os.Arp.Entries.{
  Tracks, IsValid, find_ip-Tracks, find_ip-none, find_ip_lem, find_free_lem, set_self-Tracks,
  unique-set,
}

-- The cursor after an eviction.
abbrev pub advanced : Cache → Cache
advanced c = record c { cache_next = (c.cache_next + 1) % arp_cache_size }

-- The binding is updated in its slot, put in a free slot, or put over the cursor's slot.
pub data Insert (now ip : ℕ) (mac : List ℕ) (c : Cache) : Cache → Type 0 where
  update : (i : ℕ) → Tracks ip i c.entries → Insert now ip mac c (touch now mac i c)
  fill :
      (i : ℕ)
      → ((j : ℕ) → ¬ Tracks ip j c.entries)
      → i < length c.entries
      → (entry c i).valid ≡ false
      → Insert now ip mac c (put_entry now ip mac i c)
  evict :
      ((j : ℕ) → ¬ Tracks ip j c.entries)
      → find_free 0 c.entries ≡ none
      → Insert now ip mac c (put_entry now ip mac c.cache_next (advanced c))

insert_new-cases :
    (now ip : ℕ) (mac : List ℕ) (c : Cache)
    → ((j : ℕ) → ¬ Tracks ip j c.entries)
    → Insert now ip mac c (insert_new now ip mac c)
unfolding insert_new
insert_new-cases now ip mac c new = elim (Option-cases (find_free 0 c.entries)) [
  | inl e ↦ rw (e, insert_new) (evict new e)
  | inr (i, e) ↦
      let (j, at, lt, free) = find_free_lem 0 c.entries i e in
      let same : i ≡ j = omega arith in rw (e, insert_new, same) (fill j new lt free)
]

pub cache_insert-cases :
    (now ip : ℕ) (mac : List ℕ) (c : Cache) → Insert now ip mac c (cache_insert now ip mac c)
unfolding cache_insert
cache_insert-cases now ip mac c = elim (Option-cases (find_ip ip 0 c.entries)) [
  | inl e ↦
      rw (e, cache_insert) (insert_new-cases now ip mac c (λ j. find_ip-none ip 0 c.entries j e))
  | inr (i, e) ↦
      let (j, at, k) = find_ip-Tracks ip 0 c.entries i e in
      let same : i ≡ j = omega arith in rw (e, cache_insert, same) (update j k)
]

Insert-IsValid :
    {now ip : ℕ} {mac : List ℕ} {c c' : Cache} → IsValid c → Insert now ip mac c c' → IsValid c'
unfolding touch put_entry
Insert-IsValid {now} {ip} {mac} {c} v (update i k) =
    let e = record (entry c i) { mac = mac; touched_tick = now } in
    record {
      sized = length-set c.entries i e ∙ v.sized;
      cursor = v.cursor;
      unique =
          unique-set i e c.entries v.unique
            (λ j _ k'. v.unique ip i j k (subst (λ a. Tracks a j c.entries) k.is_ip k'));
    }
Insert-IsValid {now} {ip} {mac} {c} v (fill i new lt free) =
    let e : Entry = record { ip = ip; mac = mac; valid = true; touched_tick = now } in
    record {
      sized = length-set c.entries i e ∙ v.sized;
      cursor = v.cursor;
      unique = unique-set i e c.entries v.unique (λ j _ k. absurd (new j k));
    }
Insert-IsValid {now} {ip} {mac} {c} v (evict new full) =
    let e : Entry = record { ip = ip; mac = mac; valid = true; touched_tick = now } in
    record {
      sized = length-set c.entries c.cache_next e ∙ v.sized;
      cursor = omega arith;
      unique = unique-set c.cache_next e c.entries v.unique (λ j _ k. absurd (new j k));
    }

-- Learning a binding keeps the cache well-formed: sixteen slots, the cursor inside, and no address bound
-- in two slots.
pub cache_insert-IsValid :
    (now ip : ℕ) (mac : List ℕ) (c : Cache) → IsValid c → IsValid (cache_insert now ip mac c)
cache_insert-IsValid now ip mac c v = Insert-IsValid v (cache_insert-cases now ip mac c)

expire-IsValid : (i : ℕ) (c : Cache) → IsValid c → IsValid (expire i c)
unfolding expire
expire-IsValid i c v =
    let e = record (entry c i) { valid = false } in
    record {
      sized = length-set c.entries i e ∙ v.sized;
      cursor = v.cursor;
      unique = unique-set i e c.entries v.unique (λ j ok k. cc);
    }

-- A lookup keeps the cache well-formed, also when it drops a stale binding.
pub arp_lookup-IsValid : (now ip : ℕ) (c : Cache) → IsValid c → IsValid (arp_lookup now ip c).1
unfolding arp_lookup
arp_lookup-IsValid now ip c v = elim (Option-cases (find_ip ip 0 c.entries)) [
  | inl e ↦ rw (e, arp_lookup) v
  | inr (i, e) ↦ elim (Bool-cases (is_stale now (entry c i))) [
    | inl t ↦ rw (e, arp_lookup, t) (expire-IsValid i c v)
    | inr t ↦ rw (e, arp_lookup, t) v
  ]
]

-- What a lookup answers, given the slot that tracks the address.
pub arp_lookup-Tracks :
    (now ip i : ℕ) (c : Cache)
    → IsValid c
    → Tracks ip i c.entries
    → (arp_lookup now ip c).0 ≡ (if is_stale now (entry c i) then none else some (entry c i).mac)
unfolding arp_lookup
arp_lookup-Tracks now ip i c v k =
    rw (find_ip_lem c ip i v k, arp_lookup)
      (elim (Bool-cases (is_stale now (entry c i))) [ inl t ↦ rw t refl | inr t ↦ rw t refl ])

pub arp_lookup-none :
    (now ip : ℕ) (c : Cache) → ((j : ℕ) → ¬ Tracks ip j c.entries) → arp_lookup now ip c ≡ (none, c)
unfolding arp_lookup
arp_lookup-none now ip c new = elim (Option-cases (find_ip ip 0 c.entries)) [
  | inl e ↦ rw (e, arp_lookup) refl
  | inr (i, e) ↦ let (j, at, k) = find_ip-Tracks ip 0 c.entries i e in absurd (new j k)
]

-- The new binding stands in one slot, with its address, its MAC and the time of the insertion.
pub Insert-Tracks :
    {now ip : ℕ} {mac : List ℕ} {c c' : Cache}
    → IsValid c
    → Insert now ip mac c c'
    → (i : ℕ) × Tracks ip i c'.entries
      × ((entry c' i).mac ≡ mac)
      × ((entry c' i).touched_tick ≡ now)
unfolding touch put_entry
Insert-Tracks {now} {ip} {mac} {c} v (update i k) =
    let e = record (entry c i) { mac = mac; touched_tick = now } in
    let same = get_or-set_self c.entries i e no_entry k.within in
    (
      i,
      subst (λ a. Tracks a i (set c.entries i e)) k.is_ip
          (set_self-Tracks i e c.entries k.within k.is_valid),
      ap (λ x. x.mac) same,
      ap (λ x. x.touched_tick) same,
    )
Insert-Tracks {now} {ip} {mac} {c} v (fill i new lt free) =
    let e : Entry = record { ip = ip; mac = mac; valid = true; touched_tick = now } in
    let same = get_or-set_self c.entries i e no_entry lt in
    (i, set_self-Tracks i e c.entries lt refl, ap (λ x. x.mac) same, ap (λ x. x.touched_tick) same)
Insert-Tracks {now} {ip} {mac} {c} v (evict new full) =
    let e : Entry = record { ip = ip; mac = mac; valid = true; touched_tick = now } in
    let lt : c.cache_next < length c.entries = omega (arith, v.sized, v.cursor) in
    let same = get_or-set_self c.entries c.cache_next e no_entry lt in
    (
      c.cache_next,
      set_self-Tracks c.cache_next e c.entries lt refl,
      ap (λ x. x.mac) same,
      ap (λ x. x.touched_tick) same,
    )

-- A binding that was just learned is found for `ARP_ENTRY_TTL` ticks, also where the tick counter wraps,
-- and is not found any more after them: `later` is a clock whose 32-bit distance from the insertion
-- decides, whatever the cache held before.
pub arp_lookup-cache_insert :
    (now later ip : ℕ) (mac : List ℕ) (c : Cache)
    → IsValid c
    → (arp_lookup later ip (cache_insert now ip mac c)).0
      ≡ (if ltb arp_entry_ttl (sub32 later now) then none else some mac)
arp_lookup-cache_insert now later ip mac c v =
    let (i, k, m, t) = Insert-Tracks v (cache_insert-cases now ip mac c) in
    arp_lookup-Tracks later ip i (cache_insert now ip mac c) (cache_insert-IsValid now ip mac c v) k
    ∙ ap₂ (λ (a : ℕ) (b : List ℕ). if ltb arp_entry_ttl (sub32 later a) then none else some b) t m

-- ===== src/Arp/Others.antt =====
-- What `cache_insert` of kernel/drivers/net/arp.c leaves of the bindings of other addresses, and the
-- lookups after a flush.
use stink_os.Base.{
  ℕ, zero, suc, ◌≡◌, ◌≢◌, ◌⊎◌, ◌∙◌, inl, inr, refl, sym, ap, subst, List, [], ◌∷◌, none, some, true,
  length, get_or, set, if◌then◌else◌, arith, get_or-set_ne, Option-cases, ℕ_discrete,
}
use stink_os.Arp.{
  Entry, Cache, entry, no_entry, find_ip, find_free, put_entry, touch, cache_insert, arp_lookup,
  arp_flush, invalidate, is_stale,
}
use stink_os.Arp.Entries.{
  Tracks, IsValid, find_ip-Tracks, find_ip-none, set_ne-Tracks, Tracks-set_ne, Tracks-set_self,
}
use stink_os.Arp.Insert.{
  Insert, update, fill, evict, cache_insert-cases, cache_insert-IsValid, advanced,
  arp_lookup-Tracks, arp_lookup-none,
}

-- An address is tracked in some slot, or in none.
Tracks-cases : (ip : ℕ) (l : List Entry) → ((i : ℕ) × Tracks ip i l) ⊎ ((i : ℕ) → ¬ Tracks ip i l)
Tracks-cases ip l = elim (Option-cases (find_ip ip 0 l)) [
  | inl e ↦ inr (λ i. find_ip-none ip 0 l i e)
  | inr (i, e) ↦ let (j, at, k) = find_ip-Tracks ip 0 l i e in inl (j, k)
]

-- The answer for `other` is the same in both caches.
abbrev Same : ℕ → ℕ → Cache → Cache → Type 0
Same later other c c' = (arp_lookup later other c').0 ≡ (arp_lookup later other c).0

module _ (later other s : ℕ) (e : Entry) (c c' : Cache) (v : IsValid c) (v' : IsValid c')
    (written : c'.entries ≡ set c.entries s e) where
  Same-elsewhere : (i : ℕ) → s ≢ i → Tracks other i c.entries → Same later other c c'
  Same-elsewhere i ne k =
      arp_lookup-Tracks later other i c' v'
        (subst (Tracks other i) (sym written) (set_ne-Tracks other s i e c.entries ne k))
      ∙ ap (λ x. if is_stale later x then none else some x.mac)
          (ap (λ l. get_or l i no_entry) written ∙ get_or-set_ne c.entries s i e no_entry ne)
      ∙ sym (arp_lookup-Tracks later other i c v k)

  untracked-set :
      ((i : ℕ) → s ≢ i → ¬ Tracks other i c.entries)
      → (e.valid ≡ true → e.ip ≢ other)
      → (i : ℕ) → ¬ Tracks other i c'.entries
  untracked-set gone not_it i k = elim (ℕ_discrete s i) [
    | yes p ↦
        let (ok, same, lt) = Tracks-set_self other s e c.entries (
          subst (λ n. Tracks other n (set c.entries s e)) (sym p)
            (subst (Tracks other i) written k)) in
        not_it ok same
    | no p ↦ gone i p (Tracks-set_ne other s i e c.entries p (subst (Tracks other i) written k))
  ]

  Same-untracked :
      ((i : ℕ) → ¬ Tracks other i c.entries)
      → (e.valid ≡ true → e.ip ≢ other)
      → Same later other c c'
  Same-untracked gone not_it =
      ap (λ r. r.0) (arp_lookup-none later other c' (untracked-set (λ i _. gone i) not_it))
      ∙ sym (ap (λ r. r.0) (arp_lookup-none later other c gone))

  -- Only the binding of the slot that is written can change.
  Same-cases :
      (e.valid ≡ true → e.ip ≢ other)
      → Same later other c c' ⊎ (Tracks other s c.entries × ((arp_lookup later other c').0 ≡ none))
  Same-cases not_it = elim (Tracks-cases other c.entries) [
    | inl (i, k) ↦ elim (ℕ_discrete s i) [
      | yes p ↦
          let k' : Tracks other s c.entries = subst (λ n. Tracks other n c.entries) (sym p) k in
          inr (
            k',
            ap (λ r. r.0)
                (arp_lookup-none later other c'
                  (untracked-set (λ j ne kj. ne (v.unique other s j k' kj)) not_it)),
          )
      | no p ↦ inl (Same-elsewhere i p k)
    ]
    | inr gone ↦ inl (Same-untracked gone not_it)
  ]

only_untracked {ℓ} : {A B C D : Type ℓ} → ¬ B → A ⊎ (B × C) → A ⊎ (D × C)
only_untracked no_b (inl a) = inl a
only_untracked no_b (inr (b, _)) = absurd (no_b b)

-- The one binding that an insertion may drop: the cache is full, the new address was not tracked, and the
-- cursor's slot held `other`.
pub record Evicted (ip other : ℕ) (c : Cache) : Type 0 where
  pub is_full : find_free 0 c.entries ≡ none
  pub is_new : (i : ℕ) → ¬ Tracks ip i c.entries
  pub at_cursor : Tracks other c.cache_next c.entries

-- Learning one address changes no answer about another, at any later time, with one exception: where the
-- cache is full and does not track the new address, the binding in the cursor's slot is dropped.
pub cache_insert-other :
    (now later ip other : ℕ) (mac : List ℕ) (c : Cache)
    → IsValid c
    → ip ≢ other
    → ((arp_lookup later other (cache_insert now ip mac c)).0 ≡ (arp_lookup later other c).0)
      ⊎ (Evicted ip other c × ((arp_lookup later other (cache_insert now ip mac c)).0 ≡ none))
unfolding touch put_entry
cache_insert-other now later ip other mac c v ne =
    kept (cache_insert-cases now ip mac c) (cache_insert-IsValid now ip mac c v)
  where
    kept :
        {c' : Cache}
        → Insert now ip mac c c'
        → IsValid c'
        → Same later other c c' ⊎ (Evicted ip other c × ((arp_lookup later other c').0 ≡ none))
    kept (update i k) v' =
        only_untracked (λ k'. ne (sym k.is_ip ∙ k'.is_ip))
          (Same-cases later other i (record (entry c i) { mac = mac; touched_tick = now }) c
            (touch now mac i c) v v' refl (λ _ e. ne (sym k.is_ip ∙ e)))
    kept (fill i new lt free) v' =
        only_untracked (λ k'. cc)
          (Same-cases later other i
            (record { ip = ip; mac = mac; valid = true; touched_tick = now }) c
            (put_entry now ip mac i c) v v' refl (λ _ e. ne e))
    kept (evict new full) v' =
        elim (Same-cases later other c.cache_next
          (record { ip = ip; mac = mac; valid = true; touched_tick = now }) c
          (put_entry now ip mac c.cache_next (advanced c)) v v' refl (λ _ e. ne e)) [
            | inl same ↦ inl same
            | inr (k, gone) ↦ inr (record { is_full = full; is_new = new; at_cursor = k }, gone)
          ]

invalidate-untracked : (l : List Entry) (ip i : ℕ) → ¬ Tracks ip i (invalidate l)
unfolding invalidate
invalidate-untracked [] ip i k = absurd (omega (arith, k.within))
invalidate-untracked (e ∷ l) ip zero k = cc (k.is_valid)
invalidate-untracked (e ∷ l) ip (suc i) k =
    invalidate-untracked l ip i
      (record { within = omega (arith, k.within); is_valid = k.is_valid; is_ip = k.is_ip })

length-invalidate : (l : List Entry) → length (invalidate l) ≡ length l
unfolding invalidate
length-invalidate [] = refl
length-invalidate (e ∷ l) = ap suc (length-invalidate l)

-- A flush keeps the cache well-formed, and after it no address is found, whatever the cache held.
pub arp_flush-Empty :
    (now ip : ℕ) (c : Cache)
    → IsValid c
    → IsValid (arp_flush c) × (arp_lookup now ip (arp_flush c) ≡ (none, arp_flush c))
unfolding arp_flush
arp_flush-Empty now ip c v = (
  record {
    sized = length-invalidate c.entries ∙ v.sized;
    cursor = omega arith;
    unique = λ a i j k _. absurd (invalidate-untracked c.entries a i k);
  },
  arp_lookup-none now ip (arp_flush c) (λ j. invalidate-untracked c.entries ip j),
)

-- ===== src/Arp/Entries.antt =====
-- The invariant of the ARP cache of kernel/drivers/net/arp.c, and what an insertion and a lookup make
-- of the bindings it holds.
use stink_os.Base.{
  ℕ, zero, suc, ◌+◌, ◌<◌, ◌≡◌, ◌≢◌, ◌∙◌, inl, inr, sym, ap, subst, List, [], ◌∷◌, none, some, true,
  false, length, get_or, set, ◌==◌, ◌&&◌, not, arith, length-set, get_or-set_self, get_or-set_ne,
  Bool-cases, Option-cases, ℕ_discrete,
}
use stink_os.Arp.{Entry, Cache, no_entry, find_ip, find_free, arp_cache_size}

-- Slot `i` holds a valid binding of the address.
pub record Tracks (ip i : ℕ) (l : List Entry) : Type 0 where
  pub within : i < length l
  pub is_valid : (get_or l i no_entry).valid ≡ true
  pub is_ip : (get_or l i no_entry).ip ≡ ip

-- The cache has its sixteen slots, the cursor is one of them, and no address is bound twice.
pub record IsValid (c : Cache) : Type 0 where
  pub sized : length c.entries ≡ arp_cache_size
  pub cursor : c.cache_next < arp_cache_size
  pub unique : (ip i j : ℕ) → Tracks ip i c.entries → Tracks ip j c.entries → i ≡ j

pub Tracks-tail :
    (ip i : ℕ) (e : Entry) (l : List Entry) → Tracks ip (suc i) (e ∷ l) → Tracks ip i l
Tracks-tail ip i e l k = record {
  within = omega (arith, k.within);
  is_valid = k.is_valid;
  is_ip = k.is_ip;
}

pub find_ip-Tracks :
    (ip n : ℕ) (l : List Entry) (i : ℕ)
    → find_ip ip n l ≡ some i
    → (j : ℕ) × (i ≡ n + j) × Tracks ip j l
unfolding find_ip
find_ip-Tracks ip n [] i h = cc
find_ip-Tracks ip n (e ∷ l) i h = elim (Bool-cases (e.valid && (e.ip == ip))) [
  | inl t ↦ (
    0,
    ground arith,
    record { within = omega arith; is_valid = ground arith; is_ip = ground arith },
  )
  | inr t ↦
      let (j, at, k) = find_ip-Tracks ip (n + 1) l i (ground arith) in
      (
        suc j,
        omega arith,
        record { within = omega (arith, k.within); is_valid = k.is_valid; is_ip = k.is_ip },
      )
]

pub find_ip-none : (ip n : ℕ) (l : List Entry) (i : ℕ) → find_ip ip n l ≡ none → ¬ Tracks ip i l
unfolding find_ip
find_ip-none ip n [] i h k = absurd (omega (arith, k.within))
find_ip-none ip n (e ∷ l) zero h k = ground (arith, k.is_valid, k.is_ip)
find_ip-none ip n (e ∷ l) (suc i) h k =
    find_ip-none ip (n + 1) l i (ground arith) (Tracks-tail ip i e l k)

-- The search gives the one slot that tracks the address.
pub find_ip_lem :
    (c : Cache) (ip i : ℕ) → IsValid c → Tracks ip i c.entries → find_ip ip 0 c.entries ≡ some i
find_ip_lem c ip i v k = elim (Option-cases (find_ip ip 0 c.entries)) [
  | inl e ↦ absurd (find_ip-none ip 0 c.entries i e k)
  | inr (j, e) ↦
      let (m, at, k') = find_ip-Tracks ip 0 c.entries j e in
      e ∙ ap some (omega (arith, v.unique ip i m k k'))
]

pub find_free_lem :
    (n : ℕ) (l : List Entry) (i : ℕ)
    → find_free n l ≡ some i
    → (j : ℕ) × (i ≡ n + j) × (j < length l) × ((get_or l j no_entry).valid ≡ false)
unfolding find_free
find_free_lem n [] i h = cc
find_free_lem n (e ∷ l) i h = elim (Bool-cases (not e.valid)) [
  | inl t ↦ (0, ground arith, omega arith, ground arith)
  | inr t ↦
      let (j, at, lt, free) = find_free_lem (n + 1) l i (ground arith) in
      (suc j, omega arith, omega arith, free)
]

-- Writing an entry at slot `s` moves the bindings: another address is tracked where it was, except in
-- that slot.
pub Tracks-set_ne :
    (ip s i : ℕ) (e : Entry) (l : List Entry) → s ≢ i → Tracks ip i (set l s e) → Tracks ip i l
Tracks-set_ne ip s i e l ne k = record {
  within = omega (arith, k.within, length-set l s e);
  is_valid = sym (ap (λ x. x.valid) same) ∙ k.is_valid;
  is_ip = sym (ap (λ x. x.ip) same) ∙ k.is_ip;
}
  where
    same : get_or (set l s e) i no_entry ≡ get_or l i no_entry
    same = get_or-set_ne l s i e no_entry ne

pub set_ne-Tracks :
    (ip s i : ℕ) (e : Entry) (l : List Entry) → s ≢ i → Tracks ip i l → Tracks ip i (set l s e)
set_ne-Tracks ip s i e l ne k = record {
  within = omega (arith, k.within, length-set l s e);
  is_valid = ap (λ x. x.valid) same ∙ k.is_valid;
  is_ip = ap (λ x. x.ip) same ∙ k.is_ip;
}
  where
    same : get_or (set l s e) i no_entry ≡ get_or l i no_entry
    same = get_or-set_ne l s i e no_entry ne

pub set_self-Tracks :
    (s : ℕ) (e : Entry) (l : List Entry) → s < length l → e.valid ≡ true → Tracks e.ip s (set l s e)
set_self-Tracks s e l lt ok = record {
  within = omega (arith, length-set l s e);
  is_valid = ap (λ x. x.valid) same ∙ ok;
  is_ip = ap (λ x. x.ip) same;
}
  where
    same : get_or (set l s e) s no_entry ≡ e
    same = get_or-set_self l s e no_entry lt

pub Tracks-set_self :
    (ip s : ℕ) (e : Entry) (l : List Entry)
    → Tracks ip s (set l s e)
    → (e.valid ≡ true) × (e.ip ≡ ip) × (s < length l)
Tracks-set_self ip s e l k =
    (sym (ap (λ x. x.valid) same) ∙ k.is_valid, sym (ap (λ x. x.ip) same) ∙ k.is_ip, lt)
  where
    lt : s < length l
    lt = omega (arith, k.within, length-set l s e)

    same : get_or (set l s e) s no_entry ≡ e
    same = get_or-set_self l s e no_entry lt

-- Uniqueness survives a write, if the address written was tracked nowhere else.
pub unique-set :
    (s : ℕ) (e : Entry) (l : List Entry)
    → ((ip i j : ℕ) → Tracks ip i l → Tracks ip j l → i ≡ j)
    → ((j : ℕ) → e.valid ≡ true → Tracks e.ip j l → s ≡ j)
    → (ip i j : ℕ) → Tracks ip i (set l s e)
    → Tracks ip j (set l s e)
    → i ≡ j
unique-set s e l unique alone ip i j k k' = elim (ℕ_discrete s i) [
  | yes p ↦ elim (ℕ_discrete s j) [
    | yes q ↦ sym p ∙ q
    | no q ↦
        let (ok, same, lt) =
          Tracks-set_self ip s e l (subst (λ n. Tracks ip n (set l s e)) (sym p) k) in
        sym p ∙ alone j ok (subst (λ a. Tracks a j l) (sym same) (Tracks-set_ne ip s j e l q k'))
  ]
  | no p ↦ elim (ℕ_discrete s j) [
    | yes q ↦
        let (ok, same, lt) =
          Tracks-set_self ip s e l (subst (λ n. Tracks ip n (set l s e)) (sym q) k') in
        sym (alone i ok (subst (λ a. Tracks a i l) (sym same) (Tracks-set_ne ip s i e l p k))) ∙ q
    | no q ↦ unique ip i j (Tracks-set_ne ip s i e l p k) (Tracks-set_ne ip s j e l q k')
  ]
]

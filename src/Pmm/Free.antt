-- ===== src/Pmm/Free.antt =====
-- `pmm_free` and `pmm_ref_inc`: the owners of a frame.
use stink_os.Base.{
  ℕ, ◌+◌, ◌-◌, ◌<◌, ◌≡◌, ◌≢◌, inl, inr, sym, ◌∙◌, ap, true, set, arith, dec_lt, ltb, Bool-cases,
  ◌==◌, length-set, get_or-set_self, get_or-set_ne, if◌then◌else◌,
}
use stink_os.Pmm.{Pmm, frame_base, free_max, put_ref, release, in_range, pmm_free}
use stink_os.Pmm.Inv.{
  refs, listed, IsFrame, IsBounded, IsValid, refs-put_self, refs-put_ne, put_ref-IsBounded,
}

-- A frame goes back on the list.
abbrev pub pushed : ℕ → Pmm → Pmm
pushed f s = record s { free_list = set s.free_list s.free_count f; free_count = s.free_count + 1 }

pub data FreeCase (s : Pmm) (f : ℕ) : Pmm → Type 0 where
  foreign : ¬ (IsFrame s f) → FreeCase s f s
  unowned : IsFrame s f → refs s f ≡ 0 → FreeCase s f s
  shared : IsFrame s f → 1 < refs s f → FreeCase s f (put_ref s f (refs s f - 1))
  returned :
      IsFrame s f → refs s f ≡ 1 → s.free_count < free_max → FreeCase s f (pushed f (put_ref s f 0))
  dropped : IsFrame s f → refs s f ≡ 1 → s.free_count ≡ free_max → FreeCase s f (put_ref s f 0)

owned-FreeCase :
    {s : Pmm} (f : ℕ)
    → IsBounded s
    → IsFrame s f
    → FreeCase s f (
        if refs s f == 0
        then s
        else if ltb 0 (refs s f - 1)
        then put_ref s f (refs s f - 1)
        else release f (put_ref s f (refs s f - 1)))
owned-FreeCase {s} f b hf = elim (Bool-cases (refs s f == 0)) [
  | inl none_left ↦ rw none_left (unowned hf (ground arith))
  | inr some_left ↦ elim (Bool-cases (ltb 0 (refs s f - 1))) [
    | inl more ↦ rw (some_left, more) (shared hf (ground arith))
    | inr last ↦
        let one : refs s f ≡ 1 = ground arith in
        elim (Bool-cases (ltb s.free_count free_max)) [
          | inl room ↦ rw (some_left, last, one, room) (returned hf one (ground arith))
          | inr full ↦ rw (some_left, last, one, full) (dropped hf one (ground arith))
        ]
  ]
]

pub pmm_free-cases :
    {s : Pmm} (addr : ℕ) → IsBounded s → FreeCase s (frame_base addr) (pmm_free addr s)
unfolding pmm_free
pmm_free-cases {s} addr b = elim (Bool-cases (in_range s (frame_base addr))) [
  | inl inside ↦ rw inside (owned-FreeCase (frame_base addr) b (ground arith))
  | inr outside ↦ rw outside (foreign (λ hf. cc (sym outside ∙ ranged hf)))
]
  where
    ranged : IsFrame s (frame_base addr) → in_range s (frame_base addr) ≡ true
    ranged hf = ground arith

pub put_ref-IsValid :
    {s : Pmm} (f n : ℕ)
    → IsValid s
    → IsFrame s f
    → f < s.next_frame
    → ((i : ℕ) → i < s.free_count → f ≢ listed s i)
    → IsValid (put_ref s f n)
put_ref-IsValid {s} f n v hf below apart = record {
  bounds = put_ref-IsBounded {s = s} f n v.bounds;
  free_IsFrame = λ i h. omega (arith, v.free_IsFrame i h);
  free_below = v.free_below;
  free_unowned = λ i h.
      refs-put_ne {s = s} f (listed s i) n v.bounds hf (v.free_IsFrame i h) (apart i h)
      ∙ v.free_unowned i h;
  distinct = v.distinct;
  virgin = λ g hg p.
      refs-put_ne {s = s} f g n v.bounds hf (omega (arith, hg)) (omega arith)
      ∙ v.virgin g (omega (arith, hg)) p;
}

-- A frame with an owner was handed out, and is on no list.
pub owned_below : {s : Pmm} (f : ℕ) → IsValid s → IsFrame s f → 0 < refs s f → f < s.next_frame
owned_below f v hf pos = ground (arith, v.virgin f hf)

pub owned_apart :
    {s : Pmm} (f : ℕ) → IsValid s → 0 < refs s f → (i : ℕ) → i < s.free_count → f ≢ listed s i
owned_apart {s} f v pos i h e = absurd (omega (arith, ap (λ g. refs s g) e, v.free_unowned i h))

listed-pushed_old : (s : Pmm) (f i : ℕ) → i < s.free_count → listed (pushed f s) i ≡ listed s i
listed-pushed_old s f i h = get_or-set_ne s.free_list s.free_count i f 0 (omega arith)

pub listed-pushed_new :
    {s : Pmm} (f : ℕ) → IsBounded s → s.free_count < free_max → listed (pushed f s) s.free_count ≡ f
listed-pushed_new {s} f b room = get_or-set_self s.free_list s.free_count f 0 (omega arith)

-- What holds of the frames on the list, and of the one pushed, holds of the new list.
pub listed-pushed :
    {s : Pmm} (f : ℕ) (P : ℕ → Type 0)
    → IsBounded s
    → s.free_count < free_max
    → P f
    → ((i : ℕ) → i < s.free_count → P (listed s i))
    → (i : ℕ) → i < s.free_count + 1
    → P (listed (pushed f s) i)
listed-pushed {s} f P b room new old i h = elim (dec_lt i s.free_count) [
  | yes p ↦ rw (listed-pushed_old s f i p) (old i p)
  | no p ↦ let last : i ≡ s.free_count = omega arith in rw (last, listed-pushed_new f b room) new
]

pushed-distinct :
    {s : Pmm} (f : ℕ)
    → IsBounded s
    → s.free_count < free_max
    → ((i : ℕ) → i < s.free_count → f ≢ listed s i)
    → ((i j : ℕ) → i < j → j < s.free_count → listed s i ≢ listed s j)
    → (i j : ℕ) → i < j
    → j < s.free_count + 1
    → listed (pushed f s) i ≢ listed (pushed f s) j
pushed-distinct {s} f b room apart distinct i j p q = elim (dec_lt j s.free_count) [
  | yes h ↦ rw (listed-pushed_old s f i (omega arith), listed-pushed_old s f j h) (distinct i j p h)
  | no h ↦
      let last : j ≡ s.free_count = omega arith in
      rw (last, listed-pushed_new f b room, listed-pushed_old s f i (omega arith))
        (λ e. apart i (omega arith) (sym e))
]

pushed-IsValid :
    {s : Pmm} (f : ℕ)
    → IsValid s
    → IsFrame s f
    → f < s.next_frame
    → refs s f ≡ 0
    → s.free_count < free_max
    → ((i : ℕ) → i < s.free_count → f ≢ listed s i)
    → IsValid (pushed f s)
pushed-IsValid {s} f v hf below none_left room apart = record {
  bounds = omega (arith, v.bounds, length-set s.free_list s.free_count f);
  free_IsFrame =
      listed-pushed f (λ g. IsFrame (pushed f s) g) v.bounds room (omega arith)
        (λ i h. omega (arith, v.free_IsFrame i h));
  free_below = listed-pushed f (λ g. g < s.next_frame) v.bounds room below v.free_below;
  free_unowned = listed-pushed f (λ g. refs s g ≡ 0) v.bounds room none_left v.free_unowned;
  distinct = pushed-distinct f v.bounds room apart v.distinct;
  virgin = λ g hg p. v.virgin g (omega (arith, hg)) p;
}

FreeCase-IsValid : {s : Pmm} {f : ℕ} {s' : Pmm} → IsValid s → FreeCase s f s' → IsValid s'
FreeCase-IsValid v (foreign out) = v
FreeCase-IsValid v (unowned hf z) = v
FreeCase-IsValid {f = f} v (shared hf more) =
    put_ref-IsValid f _ v hf (owned_below f v hf (omega arith)) (owned_apart f v (omega arith))
FreeCase-IsValid {s} {f = f} v (returned hf one room) =
    pushed-IsValid {s = put_ref s f 0} f (put_ref-IsValid f 0 v hf below apart) (omega (arith, hf))
      below (refs-put_self {s = s} f 0 v.bounds hf) room apart
  where
    below : f < s.next_frame
    below = owned_below f v hf (omega arith)

    apart : (i : ℕ) → i < s.free_count → f ≢ listed s i
    apart = owned_apart f v (omega arith)
FreeCase-IsValid {f = f} v (dropped hf one full) =
    put_ref-IsValid f 0 v hf (owned_below f v hf (omega arith)) (owned_apart f v (omega arith))

-- `pmm_free` of any address at all keeps the invariant: a double free, an address outside the
-- range and a full list included.
pub pmm_free-IsValid : {s : Pmm} (addr : ℕ) → IsValid s → IsValid (pmm_free addr s)
pmm_free-IsValid addr v = FreeCase-IsValid v (pmm_free-cases addr v.bounds)

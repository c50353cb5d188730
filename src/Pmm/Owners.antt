-- ===== src/Pmm/Owners.antt =====
-- How freeing and sharing a frame change its number of owners and the pool.
use stink_os.Base.{
  ℕ, ◌+◌, ◌-◌, ◌<◌, ◌≡◌, ◌≢◌, inl, inr, sym, ◌∙◌, ap, arith, ℕ_discrete, Bool-cases, ◌==◌,
  if◌then◌else◌,
}
use stink_os.Pmm.{Pmm, frame_base, put_ref, in_range, pmm_free, pmm_ref, pmm_ref_inc}
use stink_os.Pmm.Inv.{refs, IsFrame, IsBounded, IsValid, refs-put_self, refs-put_ne}
use stink_os.Pmm.Free.{
  FreeCase, foreign, unowned, shared, returned, dropped, pmm_free-cases, put_ref-IsValid,
  owned_below, owned_apart,
}

pub frame_base-IsFrame : {s : Pmm} {f : ℕ} → IsFrame s f → frame_base f ≡ f
frame_base-IsFrame hf = omega arith

refs-put :
    {s : Pmm} (f g n : ℕ)
    → IsBounded s
    → IsFrame s f
    → IsFrame s g
    → refs (put_ref s f n) g ≡ (if f == g then n else refs s g)
refs-put {s} f g n b hf hg = elim (ℕ_discrete f g) [
  | yes e ↦ ground (arith, refs-put_self {s = s} f n b hf, ap (refs (put_ref s f n)) e)
  | no ne ↦ ground (arith, refs-put_ne {s = s} f g n b hf hg ne)
]

FreeCase-refs :
    {s : Pmm} {f : ℕ} {s' : Pmm} (g : ℕ)
    → IsBounded s
    → FreeCase s f s'
    → IsFrame s g
    → refs s' g ≡ (if f == g then refs s f - 1 else refs s g)
FreeCase-refs {s} {f = f} g b (foreign out) hg = ground (arith, apart)
  where
    apart : f ≢ g
    apart e = out (rw e hg)
FreeCase-refs {s} {f = f} g b (unowned hf z) hg = ground (arith, λ (e : f ≡ g). ap (refs s) e)
FreeCase-refs {s} {f = f} g b (shared hf more) hg = refs-put f g _ b hf hg
FreeCase-refs {s} {f = f} g b (returned hf one room) hg = ground (arith, refs-put f g 0 b hf hg)
FreeCase-refs {s} {f = f} g b (dropped hf one full) hg = ground (arith, refs-put f g 0 b hf hg)

-- Freeing an address takes one owner from the frame that it lies in, if the frame has one, and
-- leaves every other frame's owners alone.
pub refs-pmm_free :
    {s : Pmm} (addr g : ℕ)
    → IsValid s
    → IsFrame s g
    → refs (pmm_free addr s) g ≡ (if frame_base addr == g then refs s g - 1 else refs s g)
refs-pmm_free {s} addr g v hg = ground (
  arith,
  FreeCase-refs g v.bounds (pmm_free-cases addr v.bounds) hg,
  λ (e : frame_base addr ≡ g). ap (refs s) e,
)

-- A frame whose count is read as positive lies in the range.
pub pmm_ref-IsFrame :
    (s : Pmm) (addr : ℕ)
    → 0 < pmm_ref addr s
    → IsFrame s (frame_base addr) × (pmm_ref addr s ≡ refs s (frame_base addr))
unfolding pmm_ref
pmm_ref-IsFrame s addr pos = elim (Bool-cases (in_range s (frame_base addr))) [
  | inl inside ↦ (ground arith, rw inside)
  | inr outside ↦ let empty : 0 < 0 = rw outside at pos in absurd (omega arith)
]

pmm_ref_of_IsFrame :
    (s : Pmm) (addr : ℕ) → IsFrame s (frame_base addr) → pmm_ref addr s ≡ refs s (frame_base addr)
unfolding pmm_ref
pmm_ref_of_IsFrame s addr hf = ground arith

pmm_ref_inc-eq-put :
    (s : Pmm) (addr : ℕ)
    → IsFrame s (frame_base addr)
    → refs s (frame_base addr) < 255
    → pmm_ref_inc addr s ≡ put_ref s (frame_base addr) (refs s (frame_base addr) + 1)
unfolding pmm_ref_inc
pmm_ref_inc-eq-put s addr hf small = ground arith

-- Sharing a frame that has an owner and whose counter is not at its limit of 255 keeps the
-- invariant, adds one owner to it, and leaves every other frame's owners alone.
pub pmm_ref_inc-shares :
    {s : Pmm} (addr : ℕ)
    → IsValid s
    → 0 < pmm_ref addr s
    → pmm_ref addr s < 255
    → IsValid (pmm_ref_inc addr s)
      × (pmm_ref addr (pmm_ref_inc addr s) ≡ pmm_ref addr s + 1)
      × ((g : ℕ) → IsFrame s g → frame_base addr ≢ g → refs (pmm_ref_inc addr s) g ≡ refs s g)
pmm_ref_inc-shares {s} addr v pos small =
    let (hf, count) = pmm_ref-IsFrame s addr pos in
    let f = frame_base addr in
    let owned : 0 < refs s f = omega arith in
    rw (pmm_ref_inc-eq-put s addr hf (omega arith)) (
      put_ref-IsValid f _ v hf (owned_below f v hf owned) (owned_apart f v owned),
      pmm_ref_of_IsFrame (put_ref s f (refs s f + 1)) addr (omega (arith, hf))
          ∙ refs-put_self {s = s} f _ v.bounds hf
          ∙ ap (λ n. n + 1) (sym count),
      λ g hg ne. refs-put_ne {s = s} f g _ v.bounds hf hg ne,
    )

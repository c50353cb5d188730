-- ===== src/Base/Ring.antt =====
-- Circular byte buffers: a position counts every byte that went by before it, and stands for
-- the cell `p % cap` of an array of `cap` bytes.
use Prim.Native.Nat.{ℕ, zero, suc, ◌+◌, ◌-◌, ◌%◌, ◌≤◌, ◌<◌}
use mathlib.Core.Path.{◌≡◌, refl, ap, ap₂, ◌∙◌, sym}
use mathlib.Core.Logic.{◌≢◌}
use mathlib.Core.List.{List, [], ◌∷◌, ◌++◌}
use native.Mathlib.Nat.{mod-add-mod, mod-lt, mod-eq_of_lt, mod-eq-sub-mod}
use native.Mathlib.Decide.{dec_lt}
use native.Mathlib.Omega.{arith}
use stink_os.Base.Lists.{length, get_or, set, drop, get_or-set_self, get_or-set_ne}

-- Two positions less than one round apart are in different cells.
pub add-mod-ne : (cap a k : ℕ) → 0 < k → k < cap → (a + k) % cap ≢ a % cap
add-mod-ne cap a k hk hc = elim (dec_lt (a % cap + k) cap) [
  | yes p ↦ omega (arith, mod-add-mod a cap k, mod-eq_of_lt {n = a % cap + k} {m = cap} p)
  | no p ↦ omega (
    arith,
    mod-add-mod a cap k,
    mod-lt a {m = cap} (omega arith),
    mod-eq-sub-mod {n = a % cap + k} {m = cap} (omega arith),
    mod-eq_of_lt {n = a % cap + k - cap} {m = cap} (omega arith),
  )
]

module _ (cap : ℕ) where
  -- The `n` bytes from position `h` on.
  unfoldable pub window : List ℕ → ℕ → ℕ → List ℕ
  window buf h zero = []
  window buf h (suc n) = get_or buf (h % cap) 0 ∷ window buf (h + 1) n

  pub length-window : (buf : List ℕ) (h n : ℕ) → length (window buf h n) ≡ n
  unfolding window
  length-window buf h zero = refl
  length-window buf h (suc n) = ap suc (length-window buf (h + 1) n)

  -- A window depends on its position only up to whole rounds.
  pub window_mod : (buf : List ℕ) (h k n : ℕ) → h % cap ≡ k % cap → window buf h n ≡ window buf k n
  unfolding window
  window_mod buf h k zero e = refl
  window_mod buf h k (suc n) e =
      ap₂ (λ i xs. get_or buf i 0 ∷ xs) e (window_mod buf (h + 1) (k + 1) n step)
    where
      step : (h + 1) % cap ≡ (k + 1) % cap
      step = sym (mod-add-mod h cap 1) ∙ ap (λ r. (r + 1) % cap) e ∙ mod-add-mod k cap 1

  -- Two windows that follow each other are one.
  pub window-append :
      (buf : List ℕ) (h m n : ℕ) → window buf h (m + n) ≡ window buf h m ++ window buf (h + m) n
  unfolding window
  window-append buf h zero n = ap₂ (window buf) (omega arith) (omega arith)
  window-append buf h (suc m) n =
      ap (window buf h) regroup
      ∙ ap (λ xs. get_or buf (h % cap) 0 ∷ xs)
          (window-append buf (h + 1) m n ∙ ap (λ p. window buf (h + 1) m ++ window buf p n) shift)
    where
      regroup : suc m + n ≡ suc (m + n)
      regroup = omega arith

      shift : h + 1 + m ≡ h + suc m
      shift = omega arith

  pub window-set_out :
      (buf : List ℕ) (i v h n : ℕ)
      → ((j : ℕ) → j < n → (h + j) % cap ≢ i)
      → window (set buf i v) h n ≡ window buf h n
  unfolding window
  window-set_out buf i v h zero out = refl
  window-set_out buf i v h (suc n) out =
      ap₂ ◌∷◌ (get_or-set_ne buf i (h % cap) v 0 head_out)
        (window-set_out buf i v (h + 1) n tail_out)
    where
      head_out : i ≢ h % cap
      head_out e = out 0 (omega arith) (ap (λ p. p % cap) (omega arith) ∙ sym e)

      tail_out : (j : ℕ) → j < n → (h + 1 + j) % cap ≢ i
      tail_out j lt e = out (j + 1) (omega arith) (ap (λ p. p % cap) (omega arith) ∙ e)

  -- Writing the cell just past a window that is not full makes the window one byte longer.
  pub window-set_end :
      (buf : List ℕ) (i v h n : ℕ)
      → cap ≤ length buf
      → n < cap
      → i ≡ (h + n) % cap
      → window (set buf i v) h (n + 1) ≡ window buf h n ++ (v ∷ [])
  unfolding window
  window-set_end buf i v h n fits room e =
      window-append (set buf i v) h n 1
      ∙ ap₂ ◌++◌ (window-set_out buf i v h n apart) (ap (λ x. x ∷ []) written)
    where
      apart : (j : ℕ) → j < n → (h + j) % cap ≢ i
      apart j lt q =
          add-mod-ne cap (h + j) (n - j) (omega arith) (omega arith)
            (ap (λ p. p % cap) (omega arith) ∙ sym (q ∙ e))

      in_window : i < length buf
      in_window = omega (arith, mod-lt (h + n) {m = cap} (omega arith))

      written : get_or (set buf i v) ((h + n) % cap) 0 ≡ v
      written = ap (λ k. get_or (set buf i v) k 0) (sym e) ∙ get_or-set_self buf i v 0 in_window

  -- Without its first bytes a window is a window further on.
  pub drop-window :
      (buf : List ℕ) (h m n : ℕ) → drop m (window buf h (m + n)) ≡ window buf (h + m) n
  unfolding window
  drop-window buf h zero n = ap₂ (window buf) (omega arith) (omega arith)
  drop-window buf h (suc m) n =
      ap (λ k. drop (suc m) (window buf h k)) regroup
      ∙ drop-window buf (h + 1) m n
      ∙ ap (λ p. window buf p n) shift
    where
      regroup : suc m + n ≡ suc (m + n)
      regroup = omega arith

      shift : h + 1 + m ≡ h + suc m
      shift = omega arith

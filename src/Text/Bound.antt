-- ===== src/Text/Bound.antt =====
-- The bounded output of kernel/drivers/net/arp.c and kernel/sys/proc.c writes the text cut at the
-- buffer's size.
use stink_os.Base.{
  ℕ, zero, suc, ◌/◌, ◌%◌, ◌≤◌, ◌≡◌, inl, inr, ◌∙◌, refl, sym, ap, List, [], ◌∷◌, ◌++◌, length, take,
  arith, append_assoc, append-nil, take_all, take-append_le, length-append, length-take, Bool-cases,
}
use stink_os.Text.{has_room, put, append_str, append_dec, append_hex2, decimal, hex_digit}

-- Taking from a text that was cut is cutting the whole.
pub take-take_append : (n : ℕ) (t s : List ℕ) → take n (take n t ++ s) ≡ take n (t ++ s)
take-take_append zero t s = refl
take-take_append (suc n) [] s = refl
take-take_append (suc n) (x ∷ t) s = ap (λ l. x ∷ l) (take-take_append n t s)

pub length-take-le : (n : ℕ) (t : List ℕ) → length (take n t) ≤ n
length-take-le n t = omega (arith, length-take n t)

-- A writer of the text `s`: whatever was written, the result is cut at the buffer's size.
abbrev pub Writes : (ℕ → List ℕ → List ℕ) → List ℕ → Type 0
Writes f s = (n : ℕ) (out : List ℕ) → length out ≤ n → f (suc n) out ≡ take n (out ++ s)

pub put-Writes : (c : ℕ) → Writes (λ cap out. put cap out c) (c ∷ [])
unfolding put
put-Writes c n out le = elim (Bool-cases (has_room (suc n) out)) [
  | inl e ↦ rw e (sym (take_all n (out ++ (c ∷ [])) (ground (arith, length-append out (c ∷ [])))))
  | inr e ↦ rw e (
      let full : length out ≡ n = ground arith in
      sym (take-append_le n out (c ∷ []) (omega arith) ∙ take_all n out le))
]

pub append_str-Writes : (s : List ℕ) → Writes (λ cap out. append_str cap out s) s
unfolding append_str
append_str-Writes [] n out le = sym (ap (take n) (append-nil out) ∙ take_all n out le)
append_str-Writes (c ∷ s) n out le = elim (Bool-cases (has_room (suc n) out)) [
  | inl e ↦ rw e (
      append_str-Writes s n (out ++ (c ∷ [])) (ground (arith, length-append out (c ∷ [])))
      ∙ ap (take n) (append_assoc out (c ∷ []) s))
  | inr e ↦ rw e (
      let full : length out ≡ n = ground arith in
      sym (take-append_le n out (c ∷ s) (omega arith) ∙ take_all n out le))
]

-- One writer after another writes both texts.
pub Writes-then :
    (f g : ℕ → List ℕ → List ℕ) (s t : List ℕ)
    → Writes f s
    → Writes g t
    → Writes (λ cap out. g cap (f cap out)) (s ++ t)
Writes-then f g s t wf wg n out le =
    ap (g (suc n)) (wf n out le)
    ∙ wg n (take n (out ++ s)) (length-take-le n (out ++ s))
    ∙ take-take_append n (out ++ s) t
    ∙ ap (take n) (append_assoc out s t)

pub append_dec-Writes : (v : ℕ) → Writes (λ cap out. append_dec cap out v) (decimal v)
unfolding append_dec
append_dec-Writes v = append_str-Writes (decimal v)

pub append_hex2-Writes :
    (b : ℕ)
    → Writes (λ cap out. append_hex2 cap out b) (hex_digit (b / 16 % 16) ∷ hex_digit (b % 16) ∷ [])
unfolding append_hex2
append_hex2-Writes b =
    Writes-then (λ cap out. put cap out (hex_digit (b / 16 % 16)))
      (λ cap out. put cap out (hex_digit (b % 16))) (hex_digit (b / 16 % 16) ∷ [])
      (hex_digit (b % 16) ∷ []) (put-Writes (hex_digit (b / 16 % 16)))
      (put-Writes (hex_digit (b % 16)))

-- A writer on a text that was already cut.
pub Writes-cut :
    (f : ℕ → List ℕ → List ℕ) (s : List ℕ)
    → Writes f s
    → (n : ℕ) (t : List ℕ) → f (suc n) (take n t) ≡ take n (t ++ s)
Writes-cut f s w n t = w n (take n t) (length-take-le n t) ∙ take-take_append n t s

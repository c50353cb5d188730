-- ===== src/Tcp/Pool.antt =====
-- The pool of connections of kernel/drivers/net/tcp.c: which slot a segment is for.
use stink_os.Base.{
  ℕ, zero, suc, ◌+◌, ◌<◌, ◌≡◌, inl, inr, refl, ap, subst, List, [], ◌∷◌, Option, none, some, Bool,
  true, false, ◌&&◌, length, get_or, if◌then◌else◌, ◌==◌, arith, Bool-cases,
}
use stink_os.Tcp.{Tcb, Tcp, TcpState, listen, zero_tcb, is_exact, is_listen, find_tcb, tcb_find}

module _ (ip port local : ℕ) where
  -- A connection of these ends, and a socket that listens on the port.
  abbrev pub Exact : Tcb → Type 0
  Exact t = (t.in_use ≡ true) × (t.remote_ip ≡ ip) × (t.remote_port ≡ port) × (t.local_port ≡ local)

  abbrev pub Listens : Tcb → Type 0
  Listens t = (t.in_use ≡ true) × (t.state ≡ listen) × (t.local_port ≡ local)

  -- The tests of the search.
  abbrev is_here : Tcb → Bool
  is_here t = is_listen t.state && (t.local_port == local)

  of-Exact : (t : Tcb) → (t.in_use && is_exact ip port local t) ≡ true → Exact t
  of-Exact t e = ground arith

  not-Exact : (t : Tcb) → (t.in_use && is_exact ip port local t) ≡ false → ¬ Exact t
  not-Exact t e (used, here, there, own) = ground (arith, used, here, there, own)

  of-Listens : (t : Tcb) → (t.in_use && is_here t) ≡ true → Listens t
  of-Listens t e = (ground arith, only_listen t.state (ground arith), ground arith)
    where
      only_listen : (x : TcpState) → is_listen x ≡ true → x ≡ listen
      only_listen listen q = refl
      only_listen _ q = cc

  not-Listens : (t : Tcb) → (t.in_use && is_here t) ≡ false → ¬ Listens t
  not-Listens t e (used, state, own) = ground (arith, used, ap is_listen state, own)

  abbrev slot_of : List Tcb → ℕ → Tcb
  slot_of l j = get_or l j zero_tcb

  -- What the search gives: the first slot of the connection; if there is none, the last slot that listens
  -- on the port; if there is none either, what `listening` held.
  pub data Match (l : List Tcb) (i : ℕ) (listening : Option ℕ) : Option ℕ → Type 0 where
    exact :
        (j : ℕ)
        → j < length l
        → Exact (slot_of l j)
        → ((k : ℕ) → k < j → ¬ Exact (slot_of l k))
        → Match l i listening (some (i + j))
    listener :
        ((k : ℕ) → k < length l → ¬ Exact (slot_of l k))
        → (j : ℕ) → j < length l
        → Listens (slot_of l j)
        → ((k : ℕ) → j < k → k < length l → ¬ Listens (slot_of l k))
        → Match l i listening (some (i + j))
    neither :
        ((k : ℕ) → k < length l → ¬ Exact (slot_of l k))
        → ((k : ℕ) → k < length l → ¬ Listens (slot_of l k))
        → Match l i listening listening

  none-cons :
      (P : Tcb → Type 0) (t : Tcb) (l : List Tcb) (n : ℕ)
      → ¬ P t
      → ((k : ℕ) → k < n → ¬ P (slot_of l k))
      → (k : ℕ) → k < suc n
      → ¬ P (slot_of (t ∷ l) k)
  none-cons P t l n here there zero lt = here
  none-cons P t l n here there (suc k) lt = there k (omega arith)

  next : (i j : ℕ) → i + suc j ≡ i + 1 + j
  next i j = omega arith

  Match-cons :
      (t : Tcb) (l : List Tcb) (i : ℕ) (listening : Option ℕ) {r : Option ℕ}
      → ¬ Exact t
      → Match l
          (i + 1)
          (if t.in_use && (is_listen t.state && (t.local_port == local)) then some i else listening)
          r
      → Match (t ∷ l) i listening r
  Match-cons t l i listening no_match (exact j lt is first) =
      subst (λ n. Match (t ∷ l) i listening (some n)) (next i j)
        (exact (suc j) (omega arith) is (none-cons Exact t l j no_match first))
  Match-cons t l i listening no_match (listener none_exact j lt is last) =
      subst (λ n. Match (t ∷ l) i listening (some n)) (next i j)
        (listener (none-cons Exact t l (length l) no_match none_exact) (suc j) (omega arith) is
          later)
    where
      later : (k : ℕ) → suc j < k → k < suc (length l) → ¬ Listens (slot_of (t ∷ l) k)
      later zero a b = absurd (omega arith)
      later (suc k) a b = last k (omega arith) (omega arith)
  Match-cons t l i listening no_match (neither none_exact none_listens) =
      elim (Bool-cases (t.in_use && (is_listen t.state && (t.local_port == local)))) [
        | inl e ↦ rw e (
            subst (λ n. Match (t ∷ l) i listening (some n)) (at_zero i)
              (listener (none-cons Exact t l (length l) no_match none_exact) 0 (omega arith)
                (of-Listens t e) later))
        | inr e ↦ rw e (
            neither (none-cons Exact t l (length l) no_match none_exact)
              (none-cons Listens t l (length l) (not-Listens t e) none_listens))
      ]
    where
      at_zero : (n : ℕ) → n + 0 ≡ n
      at_zero n = omega arith

      later : (k : ℕ) → 0 < k → k < suc (length l) → ¬ Listens (slot_of (t ∷ l) k)
      later zero a b = absurd (omega arith)
      later (suc k) a b = none_listens k (omega arith)

  find_tcb-Match :
      (l : List Tcb) (i : ℕ) (listening : Option ℕ)
      → Match l i listening (find_tcb ip port local i listening l)
  unfolding find_tcb
  find_tcb-Match [] i listening =
      neither (λ k lt. absurd (omega arith)) (λ k lt. absurd (omega arith))
  find_tcb-Match (t ∷ l) i listening =
      let rest = find_tcb-Match l (i + 1) (
        if t.in_use && (is_listen t.state && (t.local_port == local)) then some i else listening) in
      elim (Bool-cases (t.in_use && is_exact ip port local t)) [
        | inl e ↦ rw e (
            subst (λ n. Match (t ∷ l) i listening (some n)) (at_zero i)
              (exact 0 (omega arith) (of-Exact t e) (λ k lt. absurd (omega arith))))
        | inr e ↦ rw e (Match-cons t l i listening (not-Exact t e) rest)
      ]
    where
      at_zero : (n : ℕ) → n + 0 ≡ n
      at_zero n = omega arith

  -- A segment goes to the first connection in use of exactly its two ends and port; if there is none, to the
  -- last socket that listens on the port; only if there is none either, to nothing.
  pub tcb_find-Match : (s : Tcp) → Match s.conns 0 none (tcb_find ip port local s)
  unfolding tcb_find
  tcb_find-Match s = find_tcb-Match s.conns 0 none

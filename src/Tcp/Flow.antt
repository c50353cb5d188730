-- ===== src/Tcp/Flow.antt =====
-- The flow control of kernel/drivers/net/tcp.c: the rounds of `tcp_drain_tx`, and what they leave in flight.
use stink_os.Base.{
  ℕ, zero, suc, ◌+◌, ◌-◌, ◌^◌, ◌≤◌, ◌<◌, ◌≡◌, ◌≢◌, ◌∙◌, inl, inr, refl, sym, ap, subst, List, [],
  ◌∷◌, ◌++◌, some, Bool, true, false, length, if◌then◌else◌, ◌==◌, ltb, arith, Bool-cases, min, max,
  All,
}
use stink_os.Tcp.{Tcb, tx_pending, tcp_mss, tcp_persist_initial}
use stink_os.Tcp.Output.{
  in_flight, drain_chunk, drained, drain_tx_loop, tcp_drain_tx, is_shut, arm_persist, tx_bytes,
  can_send,
}
use stink_os.Tcp.Segment.{Sent, tcp_emit, tcp_ack, tcp_psh, sealed, header_bytes}

-- The segment size for the peer.
abbrev pub effective_mss : Tcb → ℕ
effective_mss t = if t.peer_mss == 0 then tcp_mss else t.peer_mss

-- The numbers that the loop goes by fit their types.
pub record IsSender (t : Tcb) : Type 0 where
  pub una_fits : t.snd_una < 2 ^ 32
  pub nxt_fits : t.snd_nxt < 2 ^ 32
  pub cwnd_fits : t.cwnd < 2 ^ 32

drain_chunk_bounds :
    (t : Tcb)
    → drain_chunk t ≢ 0
    → (in_flight t + drain_chunk t ≤ min t.cwnd t.snd_wnd) × (drain_chunk t ≤ effective_mss t)
unfolding drain_chunk
drain_chunk_bounds t ne = ground arith

pub in_flight-drained :
    (now chunk : ℕ) (t : Tcb)
    → IsSender t
    → in_flight t + chunk < 2 ^ 32
    → in_flight (drained now chunk t) ≡ in_flight t + chunk
unfolding drained
in_flight-drained now chunk t v lt = ground arith

-- What a round keeps.
pub record Same (t t' : Tcb) : Type 0 where
  pub una : t'.snd_una ≡ t.snd_una
  pub cwnd : t'.cwnd ≡ t.cwnd
  pub wnd : t'.snd_wnd ≡ t.snd_wnd
  pub mss : t'.peer_mss ≡ t.peer_mss
  pub nxt : t'.snd_nxt < 2 ^ 32

pub drained-Same : (now chunk : ℕ) (t : Tcb) → Same t (drained now chunk t)
unfolding drained
drained-Same now chunk t = ground arith

length-tx_bytes : (t : Tcb) (i n : ℕ) → length (tx_bytes t i n) ≡ n
unfolding tx_bytes
length-tx_bytes t i zero = refl
length-tx_bytes t i (suc n) = ap suc (length-tx_bytes t (i + 1) n)

-- The segments carry no more than a segment size.
abbrev pub AllShort : ℕ → List Sent → Type 0
AllShort mss out = All (λ m. length m.bytes ≤ 20 + mss) out

AllShort-append :
    (mss : ℕ) (a b : List Sent) → AllShort mss a → AllShort mss b → AllShort mss (a ++ b)
AllShort-append mss [] b x y = y
AllShort-append mss (m ∷ a) b x y = (x.0, AllShort-append mss a b x.1 y)

emit-AllShort :
    (t : Tcb) (flags : ℕ) (payload : List ℕ) (mss : ℕ)
    → length payload ≤ mss
    → AllShort mss (tcp_emit t flags payload)
unfolding tcp_emit sealed header_bytes
emit-AllShort t flags payload mss le = elim (Bool-cases (ltb 1500 (20 + length payload))) [
  | inl e ↦ rw e tt
  | inr e ↦ rw e (omega arith, tt)
]

-- What a run of the loop gives.
pub record Flow (t : Tcb) (out : List Sent) (t' : Tcb) : Type 0 where
  pub within : in_flight t' ≤ max (in_flight t) (min t.cwnd t.snd_wnd)
  pub never_less : in_flight t ≤ in_flight t'
  pub same_una : t'.snd_una ≡ t.snd_una
  pub short : AllShort (effective_mss t) out

stay : (t : Tcb) → Flow t [] t
stay t = record { within = omega arith; never_less = omega arith; same_una = refl; short = tt }

arm_persist-Flow : (now : ℕ) (t : Tcb) → Flow t [] (arm_persist now t)
unfolding arm_persist
arm_persist-Flow now t = split t.persist_armed
  where
    waiting : Tcb
    waiting = record t {
      persist_armed = true;
      persist_last_tick = now;
      persist_interval = tcp_persist_initial;
    }

    split : (b : Bool) → Flow t [] (if b then t else waiting)
    split true = stay t
    split false = record {
      within = omega arith;
      never_less = omega arith;
      same_una = refl;
      short = tt;
    }

pub drained-IsSender : (now chunk : ℕ) (t : Tcb) → IsSender t → IsSender (drained now chunk t)
drained-IsSender now chunk t v =
    let s = drained-Same now chunk t in
    record {
      una_fits = omega (arith, s.una, v.una_fits);
      nxt_fits = s.nxt;
      cwnd_fits = omega (arith, s.cwnd, v.cwnd_fits);
    }

-- The segment of a round.
abbrev segment : Tcb → List Sent
segment t = tcp_emit t (tcp_ack + tcp_psh) (tx_bytes t 0 (drain_chunk t))

pub drain_tx_loop-Flow :
    (fuel now : ℕ) (t : Tcb)
    → IsSender t
    → t.cwnd - in_flight t < fuel
    → (out : List Sent) × (t' : Tcb) × (drain_tx_loop fuel now t ≡ some (out, t')) × Flow t out t'
unfolding drain_tx_loop
drain_tx_loop-Flow zero now t v lt = absurd (omega arith)
drain_tx_loop-Flow (suc fuel) now t v lt = elim (Bool-cases (tx_pending t == 0)) [
  | inl e ↦ ([], t, rw e refl, stay t)
  | inr e ↦ elim (Bool-cases (is_shut t)) [
    | inl e2 ↦ ([], arm_persist now t, rw (e, e2) refl, arm_persist-Flow now t)
    | inr e2 ↦ elim (Bool-cases (drain_chunk t == 0)) [
      | inl e3 ↦ ([], t, rw (e, e2, e3) refl, stay t)
      | inr e3 ↦
          let ne : drain_chunk t ≢ 0 = λ q. ground arith in
          let (inside, small) = drain_chunk_bounds t ne in
          let more =
            in_flight-drained now (drain_chunk t) t v (omega (arith, v.cwnd_fits, inside)) in
          let s = drained-Same now (drain_chunk t) t in
          let pos_chunk : 0 < drain_chunk t = ground arith in
          let less : (drained now (drain_chunk t) t).cwnd
                - in_flight (drained now (drain_chunk t) t)
              < fuel =
            omega (arith, more, inside, s.cwnd, lt, pos_chunk) in
          let (out, t', run, f) =
            drain_tx_loop-Flow fuel now (drained now (drain_chunk t) t)
              (drained-IsSender now (drain_chunk t) t v) less in
          (
            segment t ++ out,
            t',
            rw (e, e2, e3, run) refl,
            record {
              within = omega (arith, f.within, more, inside, s.cwnd, s.wnd);
              never_less = omega (arith, f.never_less, more);
              same_una = f.same_una ∙ s.una;
              short =
                  AllShort-append (effective_mss t) (segment t) out
                    (emit-AllShort t (tcp_ack + tcp_psh) (tx_bytes t 0 (drain_chunk t))
                      (effective_mss t) (omega (arith, small, length-tx_bytes t 0 (drain_chunk t))))
                    (subst (λ m. AllShort m out) (ap (λ m. if m == 0 then tcp_mss else m) s.mss)
                      f.short);
            },
          )
    ]
  ]
]

pub tcp_drain_tx_lem :
    (now : ℕ) (t : Tcb) (r : List Sent × Tcb)
    → can_send t.state ≡ true
    → drain_tx_loop (t.cwnd + 1) now t ≡ some r
    → tcp_drain_tx now t ≡ r
unfolding tcp_drain_tx
tcp_drain_tx_lem now t r open_state run = rw (open_state, run) refl

-- Sending what is queued always ends, within as many rounds as the congestion window has bytes; it never
-- leaves more in flight than was already and than both the congestion window and the peer's window allow; no
-- segment carries more than the peer's segment size; and the oldest unacknowledged byte stays where it was.
pub tcp_drain_tx-Flow :
    (now : ℕ) (t : Tcb)
    → IsSender t
    → can_send t.state ≡ true
    → (drain_tx_loop (t.cwnd + 1) now t ≡ some (tcp_drain_tx now t))
      × Flow t (tcp_drain_tx now t).0 (tcp_drain_tx now t).1
tcp_drain_tx-Flow now t v open_state =
    let (out, t', run, f) = drain_tx_loop-Flow (t.cwnd + 1) now t v (omega arith) in
    let same = sym (tcp_drain_tx_lem now t (out, t') open_state run) in
    (run ∙ ap some same, subst (λ r. Flow t r.0 r.1) same f)

-- One round that sends.
pub drain_tx_loop-suc :
    (fuel now : ℕ) (t : Tcb) (r : List Sent × Tcb)
    → (tx_pending t == 0) ≡ false
    → is_shut t ≡ false
    → (drain_chunk t == 0) ≡ false
    → drain_tx_loop fuel now (drained now (drain_chunk t) t) ≡ some r
    → drain_tx_loop (suc fuel) now t
      ≡ some (tcp_emit t (tcp_ack + tcp_psh) (tx_bytes t 0 (drain_chunk t)) ++ r.0, r.1)
unfolding drain_tx_loop
drain_tx_loop-suc fuel now t r e e2 e3 run = rw (e, e2, e3, run) refl

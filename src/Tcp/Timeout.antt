-- ===== src/Tcp/Timeout.antt =====
-- The timers of kernel/drivers/net/tcp.c: the bounds of the backed-off times.
use stink_os.Base.{
  ℕ, ◌≤◌, ◌<◌, ◌≡◌, inl, inr, List, [], not, ◌==◌, ltb, leb, arith, Bool-cases, sub32,
}
use stink_os.Tcp.{Tcb, tcp_max_retries, tcp_rto_max, tcp_persist_max}
use stink_os.Tcp.Input.{dropped_tcb}
use stink_os.Tcp.Segment.{Sent}
use stink_os.Tcp.Tick.{
  tick_keepalive, tick_persist, tick_retransmit, tick_tcb, is_idle, has_expired, is_persist_due,
  backed_off,
}

-- The bounds of the timers.
pub record IsTimed (t : Tcb) : Type 0 where
  pub few_retries : t.retries ≤ tcp_max_retries
  pub rto_bound : t.rto_ticks ≤ tcp_rto_max
  pub persist_bound : t.persist_interval ≤ tcp_persist_max

keepalive-IsTimed : (now : ℕ) (t : Tcb) → IsTimed t → IsTimed (tick_keepalive now t).1
unfolding tick_keepalive
keepalive-IsTimed now t v = elim (Bool-cases (is_idle now t)) [
  | inl e ↦ rw e (record {
    few_retries = v.few_retries;
    rto_bound = v.rto_bound;
    persist_bound = v.persist_bound;
  })
  | inr e ↦ rw e v
]

persist-IsTimed : (now : ℕ) (t : Tcb) → IsTimed t → IsTimed (tick_persist now t).1
unfolding tick_persist
persist-IsTimed now t v = elim (Bool-cases (is_persist_due now t)) [
  | inl e ↦
      rw e (record {
        few_retries = v.few_retries;
        rto_bound = v.rto_bound;
        persist_bound = omega arith;
      })
  | inr e ↦ rw e v
]

-- What a look at the retransmission timer gives.
pub data Expiry (now : ℕ) (t : Tcb) : List Sent × Tcb → Type 0 where
  waits : Expiry now t ([], t)
  caught_up : t.snd_una ≡ t.snd_nxt → Expiry now t ([], record t { last_seg_ticks = 0 })
  gives_up : tcp_max_retries ≤ t.retries → Expiry now t ([], dropped_tcb t)
  resends : {out : List Sent} → t.retries < tcp_max_retries → Expiry now t (out, backed_off now t)

tick_retransmit-Expiry : (now : ℕ) (t : Tcb) → Expiry now t (tick_retransmit now t)
unfolding tick_retransmit
tick_retransmit-Expiry now t = elim (Bool-cases (t.last_seg_ticks == 0)) [
  | inl e ↦ rw e waits
  | inr e ↦ elim (Bool-cases (t.snd_una == t.snd_nxt)) [
    | inl e2 ↦ rw (e, e2) (caught_up (ground arith))
    | inr e2 ↦ elim (Bool-cases (ltb (sub32 now t.last_seg_ticks) t.rto_ticks)) [
      | inl e3 ↦ rw (e, e2, e3) waits
      | inr e3 ↦ elim (Bool-cases (leb tcp_max_retries t.retries)) [
        | inl e4 ↦ rw (e, e2, e3, e4) (gives_up (ground arith))
        | inr e4 ↦ rw (e, e2, e3, e4) (resends (ground arith))
      ]
    ]
  ]
]

Expiry-IsTimed :
    {now : ℕ} {t : Tcb} {r : List Sent × Tcb} → IsTimed t → Expiry now t r → IsTimed r.1
Expiry-IsTimed v waits = v
Expiry-IsTimed v (caught_up e) = record {
  few_retries = v.few_retries;
  rto_bound = v.rto_bound;
  persist_bound = v.persist_bound;
}
Expiry-IsTimed v (gives_up le) = record {
  few_retries = v.few_retries;
  rto_bound = v.rto_bound;
  persist_bound = v.persist_bound;
}
Expiry-IsTimed v (resends lt) = record {
  few_retries = omega arith;
  rto_bound = omega arith;
  persist_bound = v.persist_bound;
}

dropped_tcb-IsTimed : (t : Tcb) → IsTimed t → IsTimed (dropped_tcb t)
dropped_tcb-IsTimed t v = record {
  few_retries = v.few_retries;
  rto_bound = v.rto_bound;
  persist_bound = v.persist_bound;
}

-- A tick keeps the timers of a connection in their bounds: no more than five retries, a timeout of at most
-- 60 s however often it was doubled, and a persist interval of at most 60 s.
pub tick_tcb-IsTimed : (now : ℕ) (t : Tcb) → IsTimed t → IsTimed (tick_tcb now t).1
unfolding tick_tcb
tick_tcb-IsTimed now t v =
    let a = (tick_keepalive now t).1 in
    let va = keepalive-IsTimed now t v in
    let b = (tick_persist now a).1 in
    elim (Bool-cases (not t.in_use)) [
      | inl e ↦ rw e v
      | inr e ↦ elim (Bool-cases (has_expired now a)) [
        | inl e2 ↦ rw (e, e2) (dropped_tcb-IsTimed a va)
        | inr e2 ↦
            rw (e, e2) (Expiry-IsTimed (persist-IsTimed now a va) (tick_retransmit-Expiry now b))
      ]
    ]

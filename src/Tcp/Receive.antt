-- ===== src/Tcp/Receive.antt =====
-- The receive ring of kernel/drivers/net/tcp.c as a queue of bytes: what `tcb_rx_inline` appends and what
-- `tcp_recv` takes.
use stink_os.Base.{
  ℕ, zero, suc, ◌+◌, ◌-◌, ◌%◌, ◌≤◌, ◌<◌, ◌≡◌, ◌∙◌, inl, inr, refl, sym, ap, List, [], ◌∷◌, ◌++◌,
  true, false, length, set, get_or, take, drop, if◌then◌else◌, ◌==◌, arith, length-set,
  append_assoc, append-nil, Bool-cases, min, take_all, length-append, leb, add32,
}
use stink_os.Base.Ring.{window, length-window, window_mod, window-set_end}
use stink_os.Tcp.{Tcb, rx_fill, tcb_rx_inline, rx_used, tcb_rx_wnd, tcp_buffer_size}
use stink_os.Tcp.Output.{rx_drain}

-- The ring has its 4096 cells and its positions are cells.
pub record IsRing (t : Tcb) : Type 0 where
  pub sized : length t.rx_buf ≡ tcp_buffer_size
  pub head_in : t.rx_head < tcp_buffer_size
  pub tail_in : t.rx_tail < tcp_buffer_size

-- The bytes that wait for `tcp_recv`, the oldest first.
unfoldable pub rx_content : Tcb → List ℕ
rx_content t = window tcp_buffer_size t.rx_buf t.rx_head (rx_used t)

abbrev pushed : ℕ → Tcb → Tcb
pushed b t = record t {
  rx_buf = set t.rx_buf t.rx_tail b;
  rx_tail = (t.rx_tail + 1) % tcp_buffer_size;
}

pushed-IsRing : (b : ℕ) (t : Tcb) → IsRing t → IsRing (pushed b t)
pushed-IsRing b t v = record {
  sized = length-set t.rx_buf t.rx_tail b ∙ v.sized;
  head_in = v.head_in;
  tail_in = omega arith;
}

rx_used-pushed :
    (b : ℕ) (t : Tcb)
    → IsRing t
    → ((t.rx_tail + 1) % tcp_buffer_size == t.rx_head) ≡ false
    → (rx_used (pushed b t) ≡ rx_used t + 1) × (rx_used t + 1 < tcp_buffer_size)
rx_used-pushed b t v room = ground arith

rx_content-pushed :
    (b : ℕ) (t : Tcb)
    → IsRing t
    → ((t.rx_tail + 1) % tcp_buffer_size == t.rx_head) ≡ false
    → rx_content (pushed b t) ≡ rx_content t ++ (b ∷ [])
unfolding rx_content
rx_content-pushed b t v room =
    let (grown, fits) = rx_used-pushed b t v room in
    ap (window tcp_buffer_size (set t.rx_buf t.rx_tail b) t.rx_head) grown
    ∙ window-set_end tcp_buffer_size t.rx_buf t.rx_tail b t.rx_head (rx_used t)
        (omega (arith, v.sized)) (omega arith) (omega (arith, v.head_in, v.tail_in))

-- What the fill of the ring leaves alone.
pub record Filled (bytes : List ℕ) (t : Tcb) (r : ℕ × Tcb) : Type 0 where
  pub ring : IsRing r.1
  pub count : r.0 ≡ min (length bytes) (tcp_buffer_size - 1 - rx_used t)
  pub content : rx_content r.1 ≡ rx_content t ++ take r.0 bytes
  pub same_ooo : r.1.ooo ≡ t.ooo
  pub same_next : r.1.rcv_nxt ≡ t.rcv_nxt
  pub same_state : r.1.state ≡ t.state

pub rx_fill-Filled : (bytes : List ℕ) (t : Tcb) → IsRing t → Filled bytes t (rx_fill bytes t)
unfolding rx_fill
rx_fill-Filled [] t v = record {
  ring = v;
  count = omega arith;
  content = sym (append-nil (rx_content t));
  same_ooo = refl;
  same_next = refl;
  same_state = refl;
}
rx_fill-Filled (b ∷ bytes) t v =
    elim (Bool-cases ((t.rx_tail + 1) % tcp_buffer_size == t.rx_head)) [
      | inl full ↦ rw full (record {
        ring = v;
        count = ground arith;
        content = sym (append-nil (rx_content t));
        same_ooo = refl;
        same_next = refl;
        same_state = refl;
      })
      | inr room ↦
          let f = rx_fill-Filled bytes (pushed b t) (pushed-IsRing b t v) in
          let (grown, fits) = rx_used-pushed b t v room in
          rw room (record {
            ring = f.ring;
            count = omega (arith, f.count);
            content =
                f.content
                ∙ ap (λ c. c ++ take (rx_fill bytes (pushed b t)).0 bytes)
                    (rx_content-pushed b t v room)
                ∙ append_assoc (rx_content t) (b ∷ []) (take (rx_fill bytes (pushed b t)).0 bytes)
                ∙ ap (λ k. rx_content t ++ take k (b ∷ bytes))
                    (next (rx_fill bytes (pushed b t)).0);
            same_ooo = f.same_ooo;
            same_next = f.same_next;
            same_state = f.same_state;
          })
    ]
  where
    next : (n : ℕ) → suc n ≡ n + 1
    next n = omega arith

-- A segment that arrives in order is appended to the bytes that wait, as far as the ring has room: all of it
-- if it fits the window that `tcb_rx_wnd` advertises, else its first bytes, one slot of the ring staying
-- empty. The next sequence number moves by what was kept, and nothing else of the queue changes.
pub tcb_rx_inline-Filled :
    (bytes : List ℕ) (t : Tcb)
    → IsRing t
    → IsRing (tcb_rx_inline bytes t).1
      × ((tcb_rx_inline bytes t).0 ≡ min (length bytes) (tcb_rx_wnd t))
      × (rx_content (tcb_rx_inline bytes t).1
          ≡ rx_content t ++ take (tcb_rx_inline bytes t).0 bytes)
      × ((tcb_rx_inline bytes t).1.rcv_nxt ≡ add32 t.rcv_nxt (tcb_rx_inline bytes t).0)
      × ((tcb_rx_inline bytes t).1.ooo ≡ t.ooo)
unfolding tcb_rx_inline tcb_rx_wnd rx_content
tcb_rx_inline-Filled bytes t v =
    let f = rx_fill-Filled bytes t v in
    (
      record { sized = f.ring.sized; head_in = f.ring.head_in; tail_in = f.ring.tail_in },
      f.count ∙ ap (λ w. min (length bytes) w) wnd,
      f.content,
      refl,
      f.same_ooo,
    )
  where
    wnd : tcp_buffer_size - 1 - rx_used t ≡ tcb_rx_wnd t
    wnd = ground arith

tcb_rx_wnd_lem : (t : Tcb) → tcb_rx_wnd t ≡ tcp_buffer_size - 1 - length (rx_content t)
unfolding tcb_rx_wnd rx_content
tcb_rx_wnd_lem t =
    wnd
    ∙ ap (λ n. tcp_buffer_size - 1 - n)
        (sym (length-window tcp_buffer_size t.rx_buf t.rx_head (rx_used t)))
  where
    wnd :
        (if leb tcp_buffer_size (rx_used t + 1) then 0 else tcp_buffer_size - 1 - rx_used t)
        ≡ tcp_buffer_size - 1 - rx_used t
    wnd = ground arith

-- What a segment that fits the window does.
pub record Inlined (bytes : List ℕ) (t t' : Tcb) : Type 0 where
  pub ring : IsRing t'
  pub content : rx_content t' ≡ rx_content t ++ bytes
  pub next : t'.rcv_nxt ≡ add32 t.rcv_nxt (length bytes)
  pub window_left : tcb_rx_wnd t' ≡ tcb_rx_wnd t - length bytes
  pub same_ooo : t'.ooo ≡ t.ooo

pub tcb_rx_inline-Inlined :
    (bytes : List ℕ) (t : Tcb)
    → IsRing t
    → length bytes ≤ tcb_rx_wnd t
    → Inlined bytes t (tcb_rx_inline bytes t).1
tcb_rx_inline-Inlined bytes t v fits =
    let (ring, count, content, next, same) = tcb_rx_inline-Filled bytes t v in
    let n = (tcb_rx_inline bytes t).0 in
    let all : n ≡ length bytes = omega (arith, count) in
    let whole : rx_content (tcb_rx_inline bytes t).1 ≡ rx_content t ++ bytes =
      content ∙ ap (λ l. rx_content t ++ l) (take_all n bytes (omega arith)) in
    record {
      ring = ring;
      content = whole;
      next = next ∙ ap (add32 t.rcv_nxt) all;
      window_left = omega (
        arith,
        tcb_rx_wnd_lem t,
        tcb_rx_wnd_lem (tcb_rx_inline bytes t).1,
        ap length whole,
        length-append (rx_content t) bytes,
      );
      same_ooo = same;
    }

abbrev popped : Tcb → Tcb
popped t = record t { rx_head = (t.rx_head + 1) % tcp_buffer_size }

rx_content-popped :
    (t : Tcb)
    → IsRing t
    → (t.rx_head == t.rx_tail) ≡ false
    → rx_content t ≡ get_or t.rx_buf t.rx_head 0 ∷ rx_content (popped t)
unfolding rx_content window
rx_content-popped t v some_left =
    let shorter : rx_used t ≡ suc (rx_used (popped t)) = ground arith in
    let here : t.rx_head % tcp_buffer_size ≡ t.rx_head = omega (arith, v.head_in) in
    let next : (t.rx_head + 1) % tcp_buffer_size
        ≡ (t.rx_head + 1) % tcp_buffer_size % tcp_buffer_size =
      omega arith in
    ap (window tcp_buffer_size t.rx_buf t.rx_head) shorter
    ∙ ap
        (λ i.
          get_or t.rx_buf i 0
          ∷ window tcp_buffer_size t.rx_buf (t.rx_head + 1) (rx_used (popped t)))
        here
    ∙ ap (λ l. get_or t.rx_buf t.rx_head 0 ∷ l)
        (window_mod tcp_buffer_size t.rx_buf (t.rx_head + 1) ((t.rx_head + 1) % tcp_buffer_size)
          (rx_used (popped t)) next)

rx_content_empty : (t : Tcb) → IsRing t → (t.rx_head == t.rx_tail) ≡ true → rx_content t ≡ []
unfolding rx_content window
rx_content_empty t v e =
    let zero_left : rx_used t ≡ 0 = ground arith in
    ap (window tcp_buffer_size t.rx_buf t.rx_head) zero_left

-- A receive call takes the oldest bytes that wait, as many as it asks for and as there are, and leaves the
-- others in their order.
pub rx_drain-take :
    (max : ℕ) (t : Tcb)
    → IsRing t
    → IsRing (rx_drain max t).1
      × ((rx_drain max t).0 ≡ take max (rx_content t))
      × (rx_content (rx_drain max t).1 ≡ drop max (rx_content t))
unfolding rx_drain
rx_drain-take zero t v = (v, refl, refl)
rx_drain-take (suc max) t v = elim (Bool-cases (t.rx_head == t.rx_tail)) [
  | inl e ↦ rw (e, rx_content_empty t v e) (v, refl, refl)
  | inr e ↦
      let kept : IsRing (popped t) = record {
        sized = v.sized;
        head_in = omega arith;
        tail_in = v.tail_in;
      } in
      let (ring, out, left) = rx_drain-take max (popped t) kept in
      rw (e, rx_content-popped t v e) (ring, ap (λ l. get_or t.rx_buf t.rx_head 0 ∷ l) out, left)
]

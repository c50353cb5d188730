-- ===== src/Tcp/States.antt =====
-- The state machine of kernel/drivers/net/tcp.c: which segment moves a connection from which state to which.
use stink_os.Base.{ℕ, ◌≡◌, ◌≢◌, ◌⊎◌, refl, List, true}
use stink_os.Tcp.{
  Tcb, TcpState, closed, listen, syn_sent, syn_received, established, fin_wait_1, fin_wait_2,
  close_wait, last_ack, time_wait,
}
use stink_os.Tcp.Input.{syn_accepted}
use stink_os.Tcp.Segment.{Header, has_flag, tcp_ack, tcp_fin, tcp_rst, tcp_syn}

abbrev pub Has : ℕ → Header → Type 0
Has flag h = has_flag flag h.flags ≡ true

-- The state after a segment with header `h`: the same, or a move and what of the segment causes it. A reset
-- is taken in LISTEN, in SYN_SENT if it acknowledges our SYN, and in any other state if it stands at the next
-- sequence number that is expected.
pub data Moved (h : Header) (t : Tcb) : TcpState → Type 0 where
  unmoved : Moved h t t.state
  refused : t.state ≡ listen → Has tcp_rst h → Moved h t closed
  not_connected :
      t.state ≡ syn_sent → Has tcp_rst h → Has tcp_ack h → h.ack ≡ t.snd_nxt → Moved h t closed
  reset :
      t.state ≢ listen → t.state ≢ syn_sent → Has tcp_rst h → h.seq ≡ t.rcv_nxt → Moved h t closed
  syn_taken : t.state ≡ listen → Has tcp_syn h → ¬ Has tcp_ack h → Moved h t syn_received
  answered :
      t.state ≡ syn_sent → Has tcp_syn h → Has tcp_ack h → h.ack ≡ t.snd_nxt → Moved h t established
  completed : t.state ≡ syn_received → Has tcp_ack h → h.ack ≡ t.snd_nxt → Moved h t established
  peer_closed : t.state ≡ established → Has tcp_fin h → Moved h t close_wait
  fin_acked : t.state ≡ fin_wait_1 → Has tcp_ack h → Moved h t fin_wait_2
  both_closed :
      (t.state ≡ fin_wait_1) ⊎ (t.state ≡ fin_wait_2) → Has tcp_fin h → Moved h t time_wait
  finished : t.state ≡ last_ack → Has tcp_ack h → Moved h t closed

-- A segment with an ACK, whatever its number, and neither a reset nor a SYN.
abbrev pub IsAnyAck : Header → Type 0
IsAnyAck h = Has tcp_ack h × ¬ Has tcp_rst h × ¬ Has tcp_syn h

syn_accepted-state :
    (src seq : ℕ) (h : Header) (payload : List ℕ) (t : Tcb)
    → (syn_accepted src seq h payload t).state ≡ syn_received
syn_accepted-state src seq h payload t = refl

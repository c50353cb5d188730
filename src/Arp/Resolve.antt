-- ===== src/Arp/Resolve.antt =====
-- The exchange of kernel/drivers/net/arp.c: which packets are handled, a request answered by the peer,
-- and the limit on requests.
use stink_os.Base.{
  ℕ, ◌+◌, ◌≤◌, ◌<◌, ◌≡◌, ◌≢◌, ◌⊎◌, ◌∙◌, ◌^◌, inl, inr, refl, sym, ap, subst, List, [], ◌∷◌, Option,
  none, some, Bool, true, false, length, ltb, if◌then◌else◌, sub32, arith, Bool-cases,
}
use stink_os.Arp.{
  Packet, Host, Frame, encode, decode, packet_from, arp_lookup, arp_handle, arp_send_request,
  arp_send_reply, learn, handle_packet, is_ethernet_ipv4, wants_reply, held_back, arp_request,
  arp_reply, broadcast_mac, arp_entry_ttl,
}
use stink_os.Arp.Entries.{IsValid}
use stink_os.Arp.Insert.{cache_insert-IsValid, arp_lookup-cache_insert}
use stink_os.Arp.Wire.{Fits, decode-encode}

-- A host with a 32-bit address and six bytes of MAC.
pub record IsHost (h : Host) : Type 0 where
  pub ip_fits : h.local_ip < 2 ^ 32
  pub mac_sized : length h.local_mac ≡ 6
  pub cache_valid : IsValid h.cache

Fits-packet_from :
    (h : Host) (op : ℕ) (mac : List ℕ) (ip : ℕ)
    → IsHost h
    → op < 65536
    → length mac ≡ 6
    → ip < 2 ^ 32
    → Fits (packet_from h op mac ip)
Fits-packet_from h op mac ip v o m i = record {
  hw_type_fits = omega arith;
  proto_type_fits = omega arith;
  hw_size_fits = omega arith;
  proto_size_fits = omega arith;
  opcode_fits = o;
  sender_ip_fits = v.ip_fits;
  target_ip_fits = i;
  sender_mac_sized = v.mac_sized;
  target_mac_sized = m;
}

-- What a host makes of the bytes of a well-formed packet.
arp_handle-encode :
    (now : ℕ) (h from : Host) (op : ℕ) (mac : List ℕ) (ip : ℕ)
    → Fits (packet_from from op mac ip)
    → arp_handle now (encode (packet_from from op mac ip)) h ≡ (
      (if wants_reply (packet_from from op mac ip) h
          then some (arp_send_reply (packet_from from op mac ip) h)
          else none),
      learn now (packet_from from op mac ip) h,
    )
unfolding arp_handle handle_packet
arp_handle-encode now h from op mac ip f =
    let (len, back) = decode-encode (packet_from from op mac ip) f in
    long (none, h) (handle_packet now (decode (encode (packet_from from op mac ip))) h)
      (ap (λ n. ltb n 28) len)
    ∙ ap (λ p. handle_packet now p h) back
  where
    long : {l : Bool} (x y : Option Frame × Host) → l ≡ false → (if l then x else y) ≡ y
    long x y e = rw e refl

-- The request of `a` for `b`'s address at `t0`, handled by `b` at `t1`, whose reply `a` handles at `t2`; at
-- `later` both find each other.
abbrev pub Resolved : (t0 t1 t2 later : ℕ) (a b : Host) → Type 0
Resolved t0 t1 t2 later a b =
    (request reply : Frame) × (a1 a2 b1 : Host) × (arp_send_request t0 b.local_ip a
      ≡ (some request, a1))
    × (arp_handle t1 request.payload b ≡ (some reply, b1))
    × (reply.dst ≡ a.local_mac)
    × (arp_handle t2 reply.payload a1 ≡ (none, a2))
    × ((arp_lookup later b.local_ip a2.cache).0 ≡ some b.local_mac)
    × ((arp_lookup later a.local_ip b1.cache).0 ≡ some a.local_mac)

-- A host that looks for `b`'s address and sends its request to `b` has the answer when the reply comes
-- back: `b` replies to `a`'s MAC, and from then on, for the life of an entry, `a` finds `b`'s MAC and `b`
-- finds `a`'s, whatever their caches held. The request leaves unless the rate limit holds it back.
pub arp_handle-request :
    (t0 t1 t2 later : ℕ) (a b : Host)
    → IsHost a
    → IsHost b
    → b.local_ip ≢ 0
    → held_back t0 a.last_request_tick ≡ false
    → sub32 later t1 ≤ arp_entry_ttl
    → sub32 later t2 ≤ arp_entry_ttl
    → Resolved t0 t1 t2 later a b
unfolding arp_send_request arp_send_reply learn
arp_handle-request t0 t1 t2 later a b va vb ne free near1 near2 =
    let zeros : List ℕ = 0 ∷ 0 ∷ 0 ∷ 0 ∷ 0 ∷ 0 ∷ [] in
    let asked : Packet = packet_from a arp_request zeros b.local_ip in
    let told : Packet = packet_from b arp_reply a.local_mac a.local_ip in
    let a1 = record a { last_request_tick = t0 } in
    (
      record { dst = broadcast_mac; payload = encode asked },
      arp_send_reply asked b,
      a1,
      learn t2 told a1,
      learn t1 asked b,
      rw free refl,
      arp_handle-encode t1 b a arp_request zeros b.local_ip
            (Fits-packet_from a arp_request zeros b.local_ip va (omega arith) refl vb.ip_fits)
          ∙ ap (λ w. ((if w then some (arp_send_reply asked b) else none), learn t1 asked b)) wants,
      refl,
      arp_handle-encode t2 a1 b arp_reply a.local_mac a.local_ip (
          Fits-packet_from b arp_reply a.local_mac a.local_ip vb (omega arith) va.mac_sized
            va.ip_fits),
      arp_lookup-cache_insert t2 later b.local_ip b.local_mac a.cache va.cache_valid ∙ fresh near2,
      arp_lookup-cache_insert t1 later a.local_ip a.local_mac b.cache vb.cache_valid ∙ fresh near1,
    )
  where
    wants : wants_reply (packet_from a arp_request (0 ∷ 0 ∷ 0 ∷ 0 ∷ 0 ∷ 0 ∷ []) b.local_ip) b ≡ true
    wants = ground arith

    fresh :
        {n : ℕ} {m : List ℕ}
        → n ≤ arp_entry_ttl
        → (if ltb arp_entry_ttl n then none else some m) ≡ some m
    fresh le = ground arith

-- Which packets are ignored: those shorter than 28 bytes, and those that are not IPv4 over Ethernet.
-- Every other one teaches the sender's binding, and is answered exactly if it is a request for this
-- host's address and that address is set; the answer goes to the sender.
pub data Handled (now : ℕ) (b : List ℕ) (h : Host) : Option Frame × Host → Type 0 where
  runt : length b < 28 → Handled now b h (none, h)
  foreign : 28 ≤ length b → ¬ (is_ethernet_ipv4 (decode b) ≡ true) → Handled now b h (none, h)
  answered :
      28 ≤ length b
      → is_ethernet_ipv4 (decode b) ≡ true
      → (decode b).opcode ≡ arp_request
      → (decode b).target_ip ≡ h.local_ip
      → h.local_ip ≢ 0
      → Handled now b h (some (arp_send_reply (decode b) h), learn now (decode b) h)
  learned :
      28 ≤ length b
      → is_ethernet_ipv4 (decode b) ≡ true
      → wants_reply (decode b) h ≡ false
      → Handled now b h (none, learn now (decode b) h)

-- What the host makes of any bytes at all: one of the four outcomes, and a well-formed cache stays so.
pub arp_handle-cases :
    (now : ℕ) (b : List ℕ) (h : Host)
    → Handled now b h (arp_handle now b h)
      × (IsValid h.cache → IsValid (arp_handle now b h).1.cache)
unfolding arp_handle handle_packet learn
arp_handle-cases now b h = elim (Bool-cases (ltb (length b) 28)) [
  | inl t ↦ rw t (runt (ground arith), λ v. v)
  | inr t ↦ elim (Bool-cases (is_ethernet_ipv4 (decode b))) [
    | inr e ↦ rw (t, e) (foreign (ground arith) (λ x. cc), λ v. v)
    | inl e ↦ elim (Bool-cases (wants_reply (decode b) h)) [
      | inl w ↦
          rw (t, e, w)
            (
              answered (ground arith) e (ground arith) (ground arith) (ground arith),
              λ v. cache_insert-IsValid now (decode b).sender_ip (decode b).sender_mac h.cache v,
            )
      | inr w ↦
          rw (t, e, w)
            (
              learned (ground arith) e w,
              λ v. cache_insert-IsValid now (decode b).sender_ip (decode b).sender_mac h.cache v,
            )
    ]
  ]
]

held :
    (now ip : ℕ) (h : Host)
    → held_back now h.last_request_tick ≡ true
    → arp_send_request now ip h ≡ (none, h)
unfolding arp_send_request
held now ip h e = rw e refl

sent :
    (now ip : ℕ) (h : Host)
    → held_back now h.last_request_tick ≡ false
    → arp_send_request now ip h ≡ (
      some (record {
        dst = broadcast_mac;
        payload = encode (packet_from h arp_request (0 ∷ 0 ∷ 0 ∷ 0 ∷ 0 ∷ 0 ∷ []) ip);
      }),
      record h { last_request_tick = now },
    )
unfolding arp_send_request
sent now ip h e = rw e refl

abbrev noted : ℕ → Option Frame → List ℕ → List ℕ
noted now none ticks = ticks
noted now (some _) ticks = now ∷ ticks

-- The requests that leave in a run of calls: the tick of each, for the calls `(tick, target)` in order.
pub requests : List (ℕ × ℕ) → Host → List ℕ
requests [] h = []
requests ((now, ip) ∷ l) h = let r = arp_send_request now ip h in noted now r.0 (requests l r.1)

requests_held :
    (now ip : ℕ) (l : List (ℕ × ℕ)) (h : Host)
    → held_back now h.last_request_tick ≡ true
    → requests ((now, ip) ∷ l) h ≡ requests l h
unfolding requests
requests_held now ip l h e = ap (λ r. noted now r.0 (requests l r.1)) (held now ip h e)

requests_sent :
    (now ip : ℕ) (l : List (ℕ × ℕ)) (h : Host)
    → held_back now h.last_request_tick ≡ false
    → requests ((now, ip) ∷ l) h ≡ now ∷ requests l (record h { last_request_tick = now })
unfolding requests
requests_sent now ip l h e = ap (λ r. noted now r.0 (requests l r.1)) (sent now ip h e)

-- Each tick is at least ten after the one before it, the first one than `last`.
abbrev pub Spaced : ℕ → List ℕ → Type 0
Spaced last [] = Unit {0}
Spaced last (t ∷ l) = (last ≡ 0 ⊎ last + 10 ≤ t) × Spaced t l

-- The calls come in the order of a clock that has not wrapped.
abbrev pub InOrder : ℕ → List (ℕ × ℕ) → Type 0
InOrder now [] = Unit {0}
InOrder now ((t, ip) ∷ l) = (now ≤ t) × (t < 2 ^ 32) × InOrder t l

-- However many requests are asked for, those that leave are ten ticks apart, but for one: a request that
-- left at tick 0 does not hold the next one back. The clock must not wrap during the run.
pub requests-Spaced :
    (l : List (ℕ × ℕ)) (now : ℕ) (h : Host)
    → InOrder now l
    → h.last_request_tick ≤ now
    → Spaced h.last_request_tick (requests l h)
requests-Spaced [] now h o le = unfold requests in tt
requests-Spaced ((t, ip) ∷ l) now h (le', lt, o) le =
    elim (Bool-cases (held_back t h.last_request_tick)) [
      | inl e ↦
          subst (Spaced h.last_request_tick) (sym (requests_held t ip l h e))
            (requests-Spaced l t h o (omega arith))
      | inr e ↦
          subst (Spaced h.last_request_tick) (sym (requests_sent t ip l h e))
            (ground arith, requests-Spaced l t (record h { last_request_tick = t }) o (omega arith))
    ]

-- ===== src/Arp.antt =====
-- The ARP cache and packet handling of kernel/drivers/net/arp.c. A MAC address is a list of six bytes,
-- so that copying its bytes is copying the value; an IP address is the 32-bit word that the packet
-- holds, loaded little-endian. The clock `pit_ticks()` and the host's own addresses are arguments, and
-- a frame handed to `eth_send` is a result.
pub mod Entries
pub mod Insert
pub mod Others
pub mod Wire
pub mod Resolve
pub mod Snapshot
mod Tests
use stink_os.Base.{
  ℕ, zero, suc, ◌+◌, ◌-◌, ◌*◌, ◌/◌, ◌%◌, ◌^◌, List, [], ◌∷◌, ◌++◌, Option, none, some, Bool, true,
  false, not, ◌&&◌, length, get_or, set, take, drop, ltb, leb, ◌==◌, if◌then◌else◌, sub32,
}

-- `ARP_HW_ETHERNET`, `ARP_PROTO_IPV4`, `ARP_REQUEST`, `ARP_REPLY`
abbrev pub arp_hw_ethernet : ℕ
arp_hw_ethernet = 1

abbrev pub arp_proto_ipv4 : ℕ
arp_proto_ipv4 = 0x0800

abbrev pub arp_request : ℕ
arp_request = 1

abbrev pub arp_reply : ℕ
arp_reply = 2

-- `ARP_CACHE_SIZE` and `ARP_ENTRY_TTL`
abbrev pub arp_cache_size : ℕ
arp_cache_size = 16

abbrev pub arp_entry_ttl : ℕ
arp_entry_ttl = 6000

-- `struct arp_packet`, its 16-bit fields in host order
pub record Packet : Type 0 where
  pub hw_type : ℕ
  pub proto_type : ℕ
  pub hw_size : ℕ
  pub proto_size : ℕ
  pub opcode : ℕ
  pub sender_mac : List ℕ
  pub sender_ip : ℕ
  pub target_mac : List ℕ
  pub target_ip : ℕ

-- `struct arp_entry`
pub record Entry : Type 0 where
  pub ip : ℕ
  pub mac : List ℕ
  pub valid : Bool
  pub touched_tick : ℕ

-- `cache` and `cache_next`
pub record Cache : Type 0 where
  pub entries : List Entry
  pub cache_next : ℕ

abbrev pub no_entry : Entry
no_entry = record { ip = 0; mac = 0 ∷ 0 ∷ 0 ∷ 0 ∷ 0 ∷ 0 ∷ []; valid = false; touched_tick = 0 }

abbrev pub entry : Cache → ℕ → Entry
entry c i = get_or c.entries i no_entry

-- The loops that look for the first valid entry of an address, and for the first free one.
pub find_ip : ℕ → ℕ → List Entry → Option ℕ
find_ip ip i [] = none
find_ip ip i (e ∷ l) = if e.valid && (e.ip == ip) then some i else find_ip ip (i + 1) l

pub find_free : ℕ → List Entry → Option ℕ
find_free i [] = none
find_free i (e ∷ l) = if not e.valid then some i else find_free (i + 1) l

-- The write of a whole entry at the end of `cache_insert`.
pub put_entry : ℕ → ℕ → List ℕ → ℕ → Cache → Cache
put_entry now ip mac slot c = record c {
  entries = set c.entries slot (record { ip = ip; mac = mac; valid = true; touched_tick = now });
}

-- The update of an entry that is already tracked.
pub touch : ℕ → List ℕ → ℕ → Cache → Cache
touch now mac i c = record c {
  entries = set c.entries i (record (entry c i) { mac = mac; touched_tick = now });
}

pub insert_new : ℕ → ℕ → List ℕ → Cache → Cache
unfolding put_entry find_free
insert_new now ip mac c = elim (find_free 0 c.entries) [
  | some slot ↦ put_entry now ip mac slot c
  | none ↦
      put_entry now ip mac c.cache_next
        (record c { cache_next = (c.cache_next + 1) % arp_cache_size })
]

pub cache_insert : ℕ → ℕ → List ℕ → Cache → Cache
unfolding touch insert_new find_ip
cache_insert now ip mac c = elim (find_ip ip 0 c.entries) [
  | some i ↦ touch now mac i c
  | none ↦ insert_new now ip mac c
]

pub expire : ℕ → Cache → Cache
expire i c = record c { entries = set c.entries i (record (entry c i) { valid = false }) }

-- `now - touched_tick > ARP_ENTRY_TTL` on 32-bit ticks
abbrev pub is_stale : ℕ → Entry → Bool
is_stale now e = ltb arp_entry_ttl (sub32 now e.touched_tick)

pub arp_lookup : ℕ → ℕ → Cache → Option (List ℕ) × Cache
unfolding expire find_ip
arp_lookup now ip c = elim (find_ip ip 0 c.entries) [
  | none ↦ (none, c)
  | some i ↦ if is_stale now (entry c i) then (none, expire i c) else (some (entry c i).mac, c)
]

pub invalidate : List Entry → List Entry
invalidate [] = []
invalidate (e ∷ l) = record e { valid = false } ∷ invalidate l

pub arp_flush : Cache → Cache
unfolding invalidate
arp_flush c = record { entries = invalidate c.entries; cache_next = 0 }

-- The host: its addresses, its cache and the `last_request_tick` of `arp_send_request`.
pub record Host : Type 0 where
  pub local_ip : ℕ
  pub local_mac : List ℕ
  pub cache : Cache
  pub last_request_tick : ℕ

-- A frame handed to `eth_send`: the destination and the ARP packet.
pub record Frame : Type 0 where
  pub dst : List ℕ
  pub payload : List ℕ

-- A 16-bit field in network order, a 32-bit one as x86 stores it.
abbrev pub bytes16 : ℕ → List ℕ
bytes16 x = x / 256 % 256 ∷ x % 256 ∷ []

abbrev pub bytes32 : ℕ → List ℕ
bytes32 x = x % 256 ∷ x / 256 % 256 ∷ x / 65536 % 256 ∷ x / 16777216 % 256 ∷ []

abbrev pub word16 : List ℕ → ℕ → ℕ
word16 b i = get_or b i 0 * 256 + get_or b (i + 1) 0

abbrev pub word32 : List ℕ → ℕ → ℕ
word32 b i =
    get_or b i 0
    + get_or b (i + 1) 0 * 256
    + get_or b (i + 2) 0 * 65536
    + get_or b (i + 3) 0 * 16777216

-- The packed struct in memory, and read from memory.
pub encode : Packet → List ℕ
encode p =
    bytes16 p.hw_type
    ++ (bytes16 p.proto_type
        ++ (p.hw_size % 256
            ∷ p.proto_size % 256
            ∷ (bytes16 p.opcode
                ++ (p.sender_mac
                    ++ (bytes32 p.sender_ip ++ (p.target_mac ++ bytes32 p.target_ip))))))

pub decode : List ℕ → Packet
decode b = record {
  hw_type = word16 b 0;
  proto_type = word16 b 2;
  hw_size = get_or b 4 0;
  proto_size = get_or b 5 0;
  opcode = word16 b 6;
  sender_mac = take 6 (drop 8 b);
  sender_ip = word32 b 14;
  target_mac = take 6 (drop 18 b);
  target_ip = word32 b 24;
}

abbrev pub broadcast_mac : List ℕ
broadcast_mac = 255 ∷ 255 ∷ 255 ∷ 255 ∷ 255 ∷ 255 ∷ []

-- The fields that a request and a reply fill alike.
abbrev pub packet_from : Host → ℕ → List ℕ → ℕ → Packet
packet_from h opcode target_mac target_ip = record {
  hw_type = arp_hw_ethernet;
  proto_type = arp_proto_ipv4;
  hw_size = 6;
  proto_size = 4;
  opcode = opcode;
  sender_mac = h.local_mac;
  sender_ip = h.local_ip;
  target_mac = target_mac;
  target_ip = target_ip;
}

-- The rate limit on requests.
abbrev pub held_back : ℕ → ℕ → Bool
held_back now last = not (last == 0) && ltb (sub32 now last) 10

pub arp_send_request : ℕ → ℕ → Host → Option Frame × Host
unfolding encode
arp_send_request now target_ip h = if held_back now h.last_request_tick then (none, h) else (
  some (record {
    dst = broadcast_mac;
    payload = encode (packet_from h arp_request (0 ∷ 0 ∷ 0 ∷ 0 ∷ 0 ∷ 0 ∷ []) target_ip);
  }),
  record h { last_request_tick = now },
)

pub arp_send_reply : Packet → Host → Frame
unfolding encode
arp_send_reply req h = record {
  dst = req.sender_mac;
  payload = encode (packet_from h arp_reply req.sender_mac req.sender_ip);
}

-- IPv4 over Ethernet, the only ARP that is handled.
abbrev pub is_ethernet_ipv4 : Packet → Bool
is_ethernet_ipv4 p =
    (p.hw_type == arp_hw_ethernet)
    && (p.proto_type == arp_proto_ipv4)
    && (p.hw_size == 6)
    && (p.proto_size == 4)

abbrev pub wants_reply : Packet → Host → Bool
wants_reply p h = (p.opcode == arp_request) && (p.target_ip == h.local_ip) && not (h.local_ip == 0)

pub learn : ℕ → Packet → Host → Host
unfolding cache_insert
learn now p h = record h { cache = cache_insert now p.sender_ip p.sender_mac h.cache }

-- The handling of a packet that is long enough.
pub handle_packet : ℕ → Packet → Host → Option Frame × Host
unfolding learn arp_send_reply
handle_packet now p h =
    if not (is_ethernet_ipv4 p)
    then (none, h)
    else (if wants_reply p h then some (arp_send_reply p h) else none, learn now p h)

pub arp_handle : ℕ → List ℕ → Host → Option Frame × Host
unfolding decode handle_packet
arp_handle now payload h =
    if ltb (length payload) 28 then (none, h) else handle_packet now (decode payload) h

-- ===== src/Arp/Wire.antt =====
-- The ARP packets of kernel/drivers/net/arp.c in memory, encoded and decoded.
use stink_os.Base.{ℕ, ◌+◌, ◌*◌, ◌/◌, ◌%◌, ◌^◌, ◌<◌, ◌≡◌, List, [], ◌∷◌, length, arith}
use stink_os.Arp.{Packet, encode, decode}

pub record Fits (p : Packet) : Type 0 where
  pub hw_type_fits : p.hw_type < 65536
  pub proto_type_fits : p.proto_type < 65536
  pub hw_size_fits : p.hw_size < 256
  pub proto_size_fits : p.proto_size < 256
  pub opcode_fits : p.opcode < 65536
  pub sender_ip_fits : p.sender_ip < 2 ^ 32
  pub target_ip_fits : p.target_ip < 2 ^ 32
  pub sender_mac_sized : length p.sender_mac ≡ 6
  pub target_mac_sized : length p.target_mac ≡ 6

word32-bytes32 :
    (x : ℕ)
    → x < 2 ^ 32
    → x % 256 + x / 256 % 256 * 256 + x / 65536 % 256 * 65536 + x / 16777216 % 256 * 16777216 ≡ x
word32-bytes32 x h = omega arith

-- Six bytes.
data Six : List ℕ → Type 0 where
  six : (a b c d e f : ℕ) → Six (a ∷ b ∷ c ∷ d ∷ e ∷ f ∷ [])

Six-of : (l : List ℕ) → length l ≡ 6 → Six l
Six-of [] h = absurd (omega arith)
Six-of (a ∷ []) h = absurd (omega arith)
Six-of (a ∷ b ∷ []) h = absurd (omega arith)
Six-of (a ∷ b ∷ c ∷ []) h = absurd (omega arith)
Six-of (a ∷ b ∷ c ∷ d ∷ []) h = absurd (omega arith)
Six-of (a ∷ b ∷ c ∷ d ∷ e ∷ []) h = absurd (omega arith)
Six-of (a ∷ b ∷ c ∷ d ∷ e ∷ f ∷ []) h = six a b c d e f
Six-of (a ∷ b ∷ c ∷ d ∷ e ∷ f ∷ g ∷ l) h = absurd (omega arith)

decode_mac_lem :
    (hw proto hs ps op : ℕ) {sm : List ℕ} (sip : ℕ) {tm : List ℕ} (tip : ℕ)
    → Six sm
    → Six tm
    → let p : Packet = record {
      hw_type = hw;
      proto_type = proto;
      hw_size = hs;
      proto_size = ps;
      opcode = op;
      sender_mac = sm;
      sender_ip = sip;
      target_mac = tm;
      target_ip = tip;
    } in
      Fits p → (length (encode p) ≡ 28) × (decode (encode p) ≡ p)
unfolding encode decode
decode_mac_lem hw proto hs ps op sip tip (six a b c d e f) (six g h i j k l) fits =
    (omega arith, ground arith)

-- A packet whose fields fit takes 28 bytes, and those bytes give back every field.
pub decode-encode : (p : Packet) → Fits p → (length (encode p) ≡ 28) × (decode (encode p) ≡ p)
decode-encode p f =
    decode_mac_lem p.hw_type p.proto_type p.hw_size p.proto_size p.opcode p.sender_ip p.target_ip
      (Six-of p.sender_mac f.sender_mac_sized) (Six-of p.target_mac f.target_mac_sized) f

-- ===== src/Arp/Snapshot.antt =====
-- The text of the cache that `arp_snapshot` of kernel/drivers/net/arp.c writes, and its bounds.
use stink_os.Base.{
  ℕ, zero, suc, ◌+◌, ◌-◌, ◌/◌, ◌%◌, ◌≤◌, ◌≡◌, ◌∙◌, inl, inr, refl, sym, ap, subst, List, [], ◌∷◌,
  ◌++◌, Bool, true, false, not, ◌&&◌, length, get_or, take, ltb, ◌==◌, if◌then◌else◌, arith,
  take_all, take-append_le, length-append, Bool-cases, append-nil, append_assoc, replicate,
  length-take, dec_le,
}
use stink_os.Arp.{Entry, Cache}
use stink_os.Text.{has_room, put, append_str, append_dec, append_hex2, codes, decimal, hex_digit}
use stink_os.Text.Bound.{
  Writes, Writes-then, put-Writes, append_str-Writes, append_dec-Writes, append_hex2-Writes,
  Writes-cut, length-take-le,
}

-- The padding of the address column, `while (off + 1 < cap && off % 16 != 0)`: at most fifteen
-- rounds.
pub pad_from : ℕ → ℕ → List ℕ → List ℕ
pad_from zero cap out = out
pad_from (suc n) cap out =
    let rest = pad_from n cap (out ++ (b' ' ∷ [])) in
    if has_room cap out && not (length out % 16 == 0) then rest else out

-- The MAC of a row: `left` bytes to go from byte `k` on.
pub append_mac : ℕ → ℕ → ℕ → List ℕ → List ℕ → List ℕ
unfolding append_hex2 put
append_mac zero k cap out mac = out
append_mac (suc left) k cap out mac =
    let byte = append_hex2 cap out (get_or mac k 0) in
    append_mac left (k + 1) cap (if ltb k 5 then put cap byte b':' else byte) mac

pub append_ip : ℕ → List ℕ → ℕ → List ℕ
unfolding append_dec put
append_ip cap out ip =
    let a = put cap (append_dec cap out (ip % 256)) b'.' in
    let b = put cap (append_dec cap a (ip / 256 % 256)) b'.' in
    let c = put cap (append_dec cap b (ip / 65536 % 256)) b'.' in
    append_dec cap c (ip / 16777216 % 256)

pub append_row : ℕ → List ℕ → Entry → List ℕ
unfolding append_ip append_mac pad_from put
append_row cap out e =
    if e.valid
    then put cap (append_mac 6 0 cap (pad_from 16 cap (append_ip cap out e.ip)) e.mac) b'\n'
    else out

pub append_rows : ℕ → List ℕ → List Entry → List ℕ
unfolding append_row
append_rows cap out [] = out
append_rows cap out (e ∷ l) = append_rows cap (append_row cap out e) l

abbrev pub arp_header : List ℕ
arp_header = codes "IP              MAC\n"

-- What `arp_snapshot` has written before the final NUL; it returns the length. A null buffer is one of
-- size 0.
pub arp_snapshot : ℕ → Cache → List ℕ
unfolding append_rows append_str
arp_snapshot zero c = []
arp_snapshot (suc n) c = append_rows (suc n) (append_str (suc n) [] arp_header) c.entries

-- The whole text, as a buffer of any size would hold it. The padding goes to the next column of 16.
abbrev padding : ℕ → ℕ
padding n = (16 - n % 16) % 16

abbrev mac_text : ℕ → ℕ → List ℕ → List ℕ
mac_text zero k mac = []
mac_text (suc left) k mac =
    (hex_digit (get_or mac k 0 / 16 % 16) ∷ hex_digit (get_or mac k 0 % 16) ∷ [])
    ++ ((if ltb k 5 then b':' ∷ [] else []) ++ mac_text left (k + 1) mac)

abbrev dotted : ℕ → List ℕ
dotted v = decimal v ++ (b'.' ∷ [])

ip_text : ℕ → List ℕ
ip_text ip =
    ((dotted (ip % 256) ++ dotted (ip / 256 % 256)) ++ dotted (ip / 65536 % 256))
    ++ decimal (ip / 16777216 % 256)

row_text : List ℕ → Entry → List ℕ
row_text out e =
    if e.valid
    then ((out ++ ip_text e.ip) ++ replicate (padding (length (out ++ ip_text e.ip))) b' ')
      ++ (mac_text 6 0 e.mac ++ (b'\n' ∷ []))
    else out

rows_text : List ℕ → List Entry → List ℕ
rows_text out [] = out
rows_text out (e ∷ l) = rows_text (row_text out e) l

pub arp_text : Cache → List ℕ
arp_text c = rows_text arp_header c.entries

padding-suc : (n : ℕ) → (n % 16 == 0) ≡ false → padding n ≡ suc (padding (n + 1))
padding-suc n h = ground arith

pad_from_full : (r n : ℕ) (out : List ℕ) → length out ≡ n → pad_from r (suc n) out ≡ out
unfolding pad_from
pad_from_full zero n out e = refl
pad_from_full (suc r) n out e = ground arith

pad_from-padding :
    (r n : ℕ) (out : List ℕ)
    → padding (length out) ≤ r
    → length out ≤ n
    → pad_from r (suc n) out ≡ take n (out ++ replicate (padding (length out)) b' ')
unfolding pad_from replicate
pad_from-padding zero n out le fits =
    let e : padding (length out) ≡ 0 = omega arith in
    rw e (sym (ap (take n) (append-nil out) ∙ take_all n out fits))
pad_from-padding (suc r) n out le fits = elim (Bool-cases (length out % 16 == 0)) [
  | inl t ↦
      let e : padding (length out) ≡ 0 = ground arith in
      rw (e, t) (ground (arith, append-nil out, take_all n out fits))
  | inr t ↦ elim (Bool-cases (has_room (suc n) out)) [
    | inl room ↦
        rw (room, t)
          (pad_from-padding r n (out ++ (b' ' ∷ []))
              (ground (arith, length-append out (b' ' ∷ []), padding-suc (length out) t))
              (ground (arith, length-append out (b' ' ∷ [])))
            ∙ ap (take n) (
                append_assoc out (b' ' ∷ [])
                  (replicate (padding (length (out ++ (b' ' ∷ [])))) b' ')
                ∙ ap (λ k. out ++ replicate k b' ')
                    (let grown : suc (padding (length (out ++ (b' ' ∷ []))))
                          ≡ padding (length out) =
                        ground (arith, length-append out (b' ' ∷ []), padding-suc (length out) t) in
                      grown)))
    | inr none_left ↦
        let full : length out ≡ n = ground arith in
        pad_from_full (suc r) n out full
        ∙ sym (
            take-append_le n out (replicate (padding (length out)) b' ') (omega arith)
            ∙ take_all n out fits)
  ]
]

pad_from-cut :
    (n : ℕ) (t : List ℕ)
    → pad_from 16 (suc n) (take n t) ≡ take n (t ++ replicate (padding (length t)) b' ')
pad_from-cut n t = elim (dec_le (length t) n) [
  | yes le ↦
      ap (λ u. pad_from 16 (suc n) u) (take_all n t le) ∙ pad_from-padding 16 n t (omega arith) le
  | no gt ↦
      pad_from_full 16 n (take n t) (omega (arith, length-take n t))
      ∙ sym (take-append_le n t (replicate (padding (length t)) b' ') (omega arith))
]

dotted-Writes : (v : ℕ) → Writes (λ cap out. put cap (append_dec cap out v) b'.') (dotted v)
dotted-Writes v =
    Writes-then (λ cap out. append_dec cap out v) (λ cap out. put cap out b'.') (decimal v)
      (b'.' ∷ []) (append_dec-Writes v) (put-Writes b'.')

append_ip-Writes : (ip : ℕ) → Writes (λ cap out. append_ip cap out ip) (ip_text ip)
unfolding append_ip ip_text
append_ip-Writes ip =
    let a = ip % 256 in
    let b = ip / 256 % 256 in
    let c = ip / 65536 % 256 in
    let d = ip / 16777216 % 256 in
    let dot : ℕ → ℕ → List ℕ → List ℕ = λ v cap out. put cap (append_dec cap out v) b'.' in
    Writes-then (λ cap out. dot c cap (dot b cap (dot a cap out))) (λ cap out. append_dec cap out d)
      ((dotted a ++ dotted b) ++ dotted c) (decimal d)
      (Writes-then (λ cap out. dot b cap (dot a cap out)) (dot c) (dotted a ++ dotted b) (dotted c)
        (Writes-then (dot a) (dot b) (dotted a) (dotted b) (dotted-Writes a) (dotted-Writes b))
        (dotted-Writes c))
      (append_dec-Writes d)

colon-Writes :
    (b : Bool)
    → Writes (λ cap out. if b then put cap out b':' else out) (if b then b':' ∷ [] else [])
colon-Writes true n out le = put-Writes b':' n out le
colon-Writes false n out le = sym (ap (take n) (append-nil out) ∙ take_all n out le)

append_mac-Writes :
    (left k : ℕ) (mac : List ℕ)
    → Writes (λ cap out. append_mac left k cap out mac) (mac_text left k mac)
unfolding append_mac
append_mac-Writes zero k mac n out le = sym (ap (take n) (append-nil out) ∙ take_all n out le)
append_mac-Writes (suc left) k mac n out le =
    let byte = get_or mac k 0 in
    let pair = hex_digit (byte / 16 % 16) ∷ hex_digit (byte % 16) ∷ [] in
    let one : ℕ → List ℕ → List ℕ = λ cap out. append_hex2 cap out byte in
    let colon : ℕ → List ℕ → List ℕ = λ cap out. if ltb k 5 then put cap out b':' else out in
    let more : ℕ → List ℕ → List ℕ = λ cap out. append_mac left (k + 1) cap out mac in
    Writes-then one (λ cap out. more cap (colon cap out)) pair
      ((if ltb k 5 then b':' ∷ [] else []) ++ mac_text left (k + 1) mac) (append_hex2-Writes byte)
      (Writes-then colon more (if ltb k 5 then b':' ∷ [] else []) (mac_text left (k + 1) mac)
        (colon-Writes (ltb k 5)) (append_mac-Writes left (k + 1) mac))
      n out le

append_row-cut :
    (n : ℕ) (t : List ℕ) (e : Entry) → append_row (suc n) (take n t) e ≡ take n (row_text t e)
unfolding append_row row_text
append_row-cut n t e = elim (Bool-cases e.valid) [
  | inl ok ↦ rw ok (
      let u = t ++ ip_text e.ip in
      let w = u ++ replicate (padding (length u)) b' ' in
      let mac : ℕ → List ℕ → List ℕ = λ cap out. append_mac 6 0 cap out e.mac in
      ap (λ x. put (suc n) (mac (suc n) (pad_from 16 (suc n) x)) b'\n')
        (Writes-cut (λ cap out. append_ip cap out e.ip) (ip_text e.ip) (append_ip-Writes e.ip) n t)
      ∙ ap (λ x. put (suc n) (mac (suc n) x) b'\n') (pad_from-cut n u)
      ∙ Writes-cut (λ cap out. put cap (mac cap out) b'\n') (mac_text 6 0 e.mac ++ (b'\n' ∷ []))
          (Writes-then mac (λ cap out. put cap out b'\n') (mac_text 6 0 e.mac) (b'\n' ∷ [])
            (append_mac-Writes 6 0 e.mac) (put-Writes b'\n'))
          n w)
  | inr no_binding ↦ rw no_binding refl
]

append_rows-cut :
    (n : ℕ) (l : List Entry) (t : List ℕ)
    → append_rows (suc n) (take n t) l ≡ take n (rows_text t l)
unfolding append_rows rows_text
append_rows-cut n [] t = refl
append_rows-cut n (e ∷ l) t =
    ap (λ u. append_rows (suc n) u l) (append_row-cut n t e) ∙ append_rows-cut n l (row_text t e)

-- The snapshot is the whole text, cut where the buffer would have no room for the final NUL: the same
-- text for every size, and never more than one byte less than the buffer, so that the NUL is inside it.
pub arp_snapshot-take :
    (cap : ℕ) (c : Cache)
    → (arp_snapshot cap c ≡ take (cap - 1) (arp_text c)) × (length (arp_snapshot cap c) ≤ cap - 1)
unfolding arp_snapshot arp_text
arp_snapshot-take zero c = (refl, omega arith)
arp_snapshot-take (suc n) c =
    let start : append_str (suc n) [] arp_header ≡ take n arp_header =
      append_str-Writes arp_header n [] (omega arith) in
    let whole : append_rows (suc n) (append_str (suc n) [] arp_header) c.entries
        ≡ take n (arp_text c) =
      ap (λ t. append_rows (suc n) t c.entries) start ∙ append_rows-cut n c.entries arp_header in
    subst
      (λ k. (arp_snapshot (suc n) c ≡ take k (arp_text c)) × (length (arp_snapshot (suc n) c) ≤ k))
      (less n) (whole, omega (arith, ap length whole, length-take-le n (arp_text c)))
  where
    less : (m : ℕ) → m ≡ suc m - 1
    less m = omega arith

-- ===== src/Text.antt =====
-- The bounded text output that kernel/drivers/net/arp.c and kernel/sys/proc.c share: `out` is what has
-- been written to the buffer, so the offset `off` is its length, and `cap` is the buffer's size.
pub mod Bound
use Prim.Native.Char.{code}
use Prim.Native.String.{String}
use stink_os.Base.{
  ℕ, zero, suc, ◌+◌, ◌-◌, ◌/◌, ◌%◌, List, [], ◌∷◌, ◌++◌, Bool, true, false, length, get_or, ltb,
  ◌==◌, if◌then◌else◌,
}

-- The characters of a C string.
abbrev pub codes : String → List ℕ
codes String.[] = []
codes (String.◌∷◌ c s) = code c ∷ codes s

-- `off + 1 < cap`
abbrev pub has_room : ℕ → List ℕ → Bool
has_room cap out = ltb (length out + 1) cap

-- `if (off + 1 < cap) out[off++] = c`
unfoldable pub put : ℕ → List ℕ → ℕ → List ℕ
put cap out c = if has_room cap out then out ++ (c ∷ []) else out

-- `while (*s && off + 1 < cap) out[off++] = *s++`
unfoldable pub append_str : ℕ → List ℕ → List ℕ → List ℕ
append_str cap out [] = out
append_str cap out (c ∷ s) =
    let rest = append_str cap (out ++ (c ∷ [])) s in if has_room cap out then rest else out

-- The digits of a number, the last one first, as the loop of `append_dec` stores them; `n < 11` is the
-- fuel.
unfoldable pub digits_from : ℕ → ℕ → List ℕ
digits_from zero v = []
digits_from (suc n) v =
    let rest = digits_from n (v / 10) in if v == 0 then [] else (b'0' + v % 10) ∷ rest

abbrev pub backwards : List ℕ → List ℕ → List ℕ
backwards acc [] = acc
backwards acc (c ∷ s) = backwards (c ∷ acc) s

unfoldable pub decimal : ℕ → List ℕ
unfolding digits_from
decimal v = if v == 0 then b'0' ∷ [] else backwards [] (digits_from 11 v)

-- `append_dec` of arp.c
unfoldable pub append_dec : ℕ → List ℕ → ℕ → List ℕ
unfolding decimal append_str
append_dec cap out v = append_str cap out (decimal v)

-- The digit `hx[d]` of append_hex2.
abbrev pub hex_digit : ℕ → ℕ
hex_digit d = if ltb d 10 then b'0' + d else b'A' + (d - 10)

unfoldable pub append_hex2 : ℕ → List ℕ → ℕ → List ℕ
unfolding put
append_hex2 cap out b = put cap (put cap out (hex_digit (b / 16 % 16))) (hex_digit (b % 16))

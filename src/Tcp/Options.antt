-- ===== src/Tcp/Options.antt =====
-- The option parsers of kernel/drivers/net/tcp.c. Their loops share one skeleton, `next_option`: it reads
-- the option at the front of the list of bytes that is left.
use stink_os.Base.{
  ℕ, zero, suc, ◌+◌, ◌-◌, ◌*◌, ◌%◌, List, [], ◌∷◌, Option, none, some, ◌&&◌, ◌||◌, length, get_or,
  take, drop, ltb, leb, ◌==◌, if◌then◌else◌,
}

-- The end of the options, a NOP, or an option with its body; then what is left.
pub data OptionStep : Type 0 where
  stop : OptionStep
  nop : List ℕ → OptionStep
  option : ℕ → List ℕ → List ℕ → OptionStep

abbrev pub after_kind : ℕ → List ℕ → OptionStep
after_kind kind [] = stop
after_kind kind (optlen ∷ l) =
    if ltb optlen 2 || ltb (2 + length l) optlen
    then stop
    else option kind (take (optlen - 2) l) (drop (optlen - 2) l)

unfoldable pub next_option : List ℕ → OptionStep
next_option [] = stop
next_option (kind ∷ l) = if kind == 0 then stop else if kind == 1 then nop l else after_kind kind l

-- `opts_len` rounds are enough: every round takes a byte.
unfoldable pub parse_mss : ℕ → List ℕ → ℕ
unfolding next_option
parse_mss zero opts = 0
parse_mss (suc fuel) opts = elim (next_option opts) as (λ _. ℕ) [
  | stop ↦ 0
  | nop rest ↦ parse_mss fuel rest
  | option kind body rest ↦
      let later = parse_mss fuel rest in
      if (kind == 2) && (length body == 2) then get_or body 0 0 * 256 + get_or body 1 0 else later
]

abbrev pub tcp_parse_mss : List ℕ → ℕ
tcp_parse_mss opts = parse_mss (length opts) opts

unfoldable pub parse_wscale : ℕ → List ℕ → ℕ
unfolding next_option
parse_wscale zero opts = 0
parse_wscale (suc fuel) opts = elim (next_option opts) as (λ _. ℕ) [
  | stop ↦ 0
  | nop rest ↦ parse_wscale fuel rest
  | option kind body rest ↦
      let later = parse_wscale fuel rest in
      if (kind == 3) && (length body == 1)
      then (if ltb 14 (get_or body 0 0) then 14 else get_or body 0 0)
      else later
]

abbrev pub tcp_parse_wscale : List ℕ → ℕ
tcp_parse_wscale opts = parse_wscale (length opts) opts

abbrev pub lower : Option ℕ → ℕ → Option ℕ
lower none left = some left
lower (some lowest) left = if ltb left lowest then some left else some lowest

-- The blocks of one SACK option, eight bytes each; `none` is `!seen`.
unfoldable pub lowest_edge : Option ℕ → List ℕ → Option ℕ
lowest_edge seen (a ∷ b ∷ c ∷ d ∷ _ ∷ _ ∷ _ ∷ _ ∷ l) =
    lowest_edge (lower seen (a * 16777216 + b * 65536 + c * 256 + d)) l
lowest_edge seen _ = seen

unfoldable pub parse_sack : ℕ → Option ℕ → List ℕ → Option ℕ
unfolding next_option lowest_edge
parse_sack zero seen opts = seen
parse_sack (suc fuel) seen opts = elim (next_option opts) as (λ _. Option ℕ) [
  | stop ↦ seen
  | nop rest ↦ parse_sack fuel seen rest
  | option kind body rest ↦
      parse_sack fuel
        (if (kind == 5) && (leb 8 (length body) && (length body % 8 == 0))
          then lowest_edge seen body
          else seen)
        rest
]

unfoldable pub tcp_parse_sack_lo : List ℕ → ℕ
unfolding parse_sack
tcp_parse_sack_lo opts = elim (parse_sack (length opts) none opts) [
  | none ↦ 0
  | some lowest ↦ lowest
]

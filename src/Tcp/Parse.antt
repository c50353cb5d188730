-- ===== src/Tcp/Parse.antt =====
-- The option parsers of kernel/drivers/net/tcp.c: their rounds and their results.
use stink_os.Base.{
  ℕ, zero, suc, ◌+◌, ◌-◌, ◌*◌, ◌%◌, ◌≤◌, ◌<◌, ◌≡◌, ◌∙◌, inl, inr, refl, sym, ap, subst, List, [],
  ◌∷◌, Option, none, ◌||◌, ◌&&◌, length, if◌then◌else◌, ◌==◌, ltb, leb, arith, Bool-cases, get_or,
  length-drop,
}
use stink_os.Tcp.Options.{
  OptionStep, stop, nop, option, after_kind, next_option, parse_mss, parse_wscale, parse_sack,
  lowest_edge,
}

-- A step leaves fewer bytes.
data Shorter (n : ℕ) : OptionStep → Type 0 where
  stopped : Shorter n stop
  padded : {rest : List ℕ} → length rest < n → Shorter n (nop rest)
  read : {kind : ℕ} {body rest : List ℕ} → length rest < n → Shorter n (option kind body rest)

after_kind-Shorter : (kind : ℕ) (l : List ℕ) → Shorter (suc (length l)) (after_kind kind l)
after_kind-Shorter kind [] = stopped
after_kind-Shorter kind (optlen ∷ l) =
    elim (Bool-cases (ltb optlen 2 || ltb (2 + length l) optlen)) [
      | inl e ↦ rw e stopped
      | inr e ↦ rw e (read (omega (arith, length-drop (optlen - 2) l)))
    ]

next_option-Shorter : (opts : List ℕ) → Shorter (length opts) (next_option opts)
unfolding next_option
next_option-Shorter [] = stopped
next_option-Shorter (kind ∷ l) = elim (Bool-cases (kind == 0)) [
  | inl e ↦ rw e stopped
  | inr e ↦ elim (Bool-cases (kind == 1)) [
    | inl e2 ↦ rw (e, e2) (padded (omega arith))
    | inr e2 ↦ rw (e, e2) (after_kind-Shorter kind l)
  ]
]

-- One round of the parser of the MSS, over the parser of what is left.
mss_round : (List ℕ → ℕ) → OptionStep → ℕ
mss_round later stop = 0
mss_round later (nop rest) = later rest
mss_round later (option kind body rest) =
    if (kind == 2) && (length body == 2)
    then get_or body 0 0 * 256 + get_or body 1 0
    else later rest

wscale_round : (List ℕ → ℕ) → OptionStep → ℕ
wscale_round later stop = 0
wscale_round later (nop rest) = later rest
wscale_round later (option kind body rest) =
    if (kind == 3) && (length body == 1)
    then (if ltb 14 (get_or body 0 0) then 14 else get_or body 0 0)
    else later rest

sack_round : (Option ℕ → List ℕ → Option ℕ) → Option ℕ → OptionStep → Option ℕ
sack_round later seen stop = seen
sack_round later seen (nop rest) = later seen rest
sack_round later seen (option kind body rest) =
    later
      (if (kind == 5) && (leb 8 (length body) && (length body % 8 == 0))
        then lowest_edge seen body
        else seen)
      rest

parse_mss-suc :
    (f : ℕ) (opts : List ℕ) → parse_mss (suc f) opts ≡ mss_round (parse_mss f) (next_option opts)
unfolding parse_mss mss_round
parse_mss-suc f opts = same (next_option opts)
  where
    same :
        (x : OptionStep)
        → (elim x as (λ _. ℕ) [
          | stop ↦ 0
          | nop rest ↦ parse_mss f rest
          | option kind body rest ↦
              let later = parse_mss f rest in
              if (kind == 2) && (length body == 2)
              then get_or body 0 0 * 256 + get_or body 1 0
              else later
        ])
          ≡ mss_round (parse_mss f) x
    same stop = refl
    same (nop rest) = refl
    same (option kind body rest) = refl

parse_wscale-suc :
    (f : ℕ) (opts : List ℕ)
    → parse_wscale (suc f) opts ≡ wscale_round (parse_wscale f) (next_option opts)
unfolding parse_wscale wscale_round
parse_wscale-suc f opts = same (next_option opts)
  where
    same :
        (x : OptionStep)
        → (elim x as (λ _. ℕ) [
          | stop ↦ 0
          | nop rest ↦ parse_wscale f rest
          | option kind body rest ↦
              let later = parse_wscale f rest in
              if (kind == 3) && (length body == 1)
              then (if ltb 14 (get_or body 0 0) then 14 else get_or body 0 0)
              else later
        ])
          ≡ wscale_round (parse_wscale f) x
    same stop = refl
    same (nop rest) = refl
    same (option kind body rest) = refl

parse_sack-suc :
    (f : ℕ) (seen : Option ℕ) (opts : List ℕ)
    → parse_sack (suc f) seen opts ≡ sack_round (parse_sack f) seen (next_option opts)
unfolding parse_sack sack_round
parse_sack-suc f seen opts = same (next_option opts)
  where
    same :
        (x : OptionStep)
        → (elim x as (λ _. Option ℕ) [
          | stop ↦ seen
          | nop rest ↦ parse_sack f seen rest
          | option kind body rest ↦
              parse_sack f
                (if (kind == 5) && (leb 8 (length body) && (length body % 8 == 0))
                  then lowest_edge seen body
                  else seen)
                rest
        ])
          ≡ sack_round (parse_sack f) seen x
    same stop = refl
    same (nop rest) = refl
    same (option kind body rest) = refl

-- Two parsers that agree on what is left agree on the whole.
mss_round-same :
    (n : ℕ) (f g : List ℕ → ℕ) {x : OptionStep}
    → Shorter n x
    → ((rest : List ℕ) → length rest < n → f rest ≡ g rest)
    → mss_round f x ≡ mss_round g x
unfolding mss_round
mss_round-same n f g stopped same = refl
mss_round-same n f g (padded {rest} lt) same = same rest lt
mss_round-same n f g (read {kind} {body} {rest} lt) same =
    ap
      (λ later.
        if (kind == 2) && (length body == 2)
        then get_or body 0 0 * 256 + get_or body 1 0
        else later)
      (same rest lt)

wscale_round-same :
    (n : ℕ) (f g : List ℕ → ℕ) {x : OptionStep}
    → Shorter n x
    → ((rest : List ℕ) → length rest < n → f rest ≡ g rest)
    → wscale_round f x ≡ wscale_round g x
unfolding wscale_round
wscale_round-same n f g stopped same = refl
wscale_round-same n f g (padded {rest} lt) same = same rest lt
wscale_round-same n f g (read {kind} {body} {rest} lt) same =
    ap
      (λ later.
        if (kind == 3) && (length body == 1)
        then (if ltb 14 (get_or body 0 0) then 14 else get_or body 0 0)
        else later)
      (same rest lt)

sack_round-same :
    (n : ℕ) (f g : Option ℕ → List ℕ → Option ℕ) (seen : Option ℕ) {x : OptionStep}
    → Shorter n x
    → ((s : Option ℕ) (rest : List ℕ) → length rest < n → f s rest ≡ g s rest)
    → sack_round f seen x ≡ sack_round g seen x
unfolding sack_round
sack_round-same n f g seen stopped same = refl
sack_round-same n f g seen (padded {rest} lt) same = same seen rest lt
sack_round-same n f g seen (read {kind} {body} {rest} lt) same =
    same
      (if (kind == 5) && (leb 8 (length body) && (length body % 8 == 0))
        then lowest_edge seen body
        else seen)
      rest lt

-- The loops of the three option parsers end within one round for each byte: with more rounds than that
-- nothing changes, whatever the bytes are.
pub parsers_end :
    (f g : ℕ) (seen : Option ℕ) (opts : List ℕ)
    → length opts ≤ f
    → length opts ≤ g
    → (parse_mss f opts ≡ parse_mss g opts)
      × (parse_wscale f opts ≡ parse_wscale g opts)
      × (parse_sack f seen opts ≡ parse_sack g seen opts)
parsers_end zero zero seen opts le le' = (refl, refl, refl)
parsers_end zero (suc g) seen [] le le' =
    unfold parse_mss parse_wscale parse_sack next_option in (refl, refl, refl)
parsers_end zero (suc g) seen (x ∷ l) le le' = absurd (omega arith)
parsers_end (suc f) zero seen [] le le' =
    unfold parse_mss parse_wscale parse_sack next_option in (refl, refl, refl)
parsers_end (suc f) zero seen (x ∷ l) le le' = absurd (omega arith)
parsers_end (suc f) (suc g) seen opts le le' =
    let step = next_option-Shorter opts in
    (
      parse_mss-suc f opts
          ∙ mss_round-same (length opts) (parse_mss f) (parse_mss g) step
              (λ rest lt. (parsers_end f g none rest (omega arith) (omega arith)).0)
          ∙ sym (parse_mss-suc g opts),
      parse_wscale-suc f opts
          ∙ wscale_round-same (length opts) (parse_wscale f) (parse_wscale g) step
              (λ rest lt. (parsers_end f g none rest (omega arith) (omega arith)).1)
          ∙ sym (parse_wscale-suc g opts),
      parse_sack-suc f seen opts
          ∙ sack_round-same (length opts) (parse_sack f) (parse_sack g) seen step
              (λ s rest lt. (parsers_end f g s rest (omega arith) (omega arith)).2)
          ∙ sym (parse_sack-suc g seen opts),
    )

wscale_round-le :
    (later : List ℕ → ℕ)
    → ((rest : List ℕ) → later rest ≤ 14)
    → (x : OptionStep) → wscale_round later x ≤ 14
unfolding wscale_round
wscale_round-le later small stop = omega arith
wscale_round-le later small (nop rest) = small rest
wscale_round-le later small (option kind body rest) = ground (arith, small rest)

-- The window shift of the peer is never more than 14.
pub tcp_parse_wscale-le : (f : ℕ) (opts : List ℕ) → parse_wscale f opts ≤ 14
tcp_parse_wscale-le zero opts = unfold parse_wscale in omega arith
tcp_parse_wscale-le (suc f) opts =
    subst (λ n. n ≤ 14) (sym (parse_wscale-suc f opts))
      (wscale_round-le (parse_wscale f) (λ rest. tcp_parse_wscale-le f rest) (next_option opts))

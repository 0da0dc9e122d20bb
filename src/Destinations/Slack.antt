-- ===== src/Destinations/Slack.antt =====
-- internal/connector/destination/slack.go. The pattern of a placeholder is a function on texts of ASCII
-- bytes; `url.ParseRequestURI` is a parameter.
pub mod Ledger
pub mod Render
use Prim.Native.Char.{Char, code}
use Prim.Native.String.{slice, len}
use vortara.Base.{
  ℕ, zero, suc, ◌-◌, ℤ, String, concat, Bool, true, false, ◌||◌, ◌&&◌, List, [], ◌∷◌, Option, none,
  some, lookup, eqb, leb, ltb, ◌==◌, if◌then◌else◌,
}
use vortara.Destinations.Client.{Web}
use vortara.Destinations.Connect.{DestinationConfig, option_of, or_text}
use vortara.Destinations.Loading.{Loading, failed_row, skip_row, mark_row, poll, start}
use vortara.Destinations.RestApi.{Request, Wire}
use vortara.Errors.{GoError, Result, ok, err, connect_required, bad_status}
use vortara.Http.RateLimit.{RateLimiter, new_rate_limiter}
use vortara.Row.{Row}
use vortara.Runtime.{Runtime}
use vortara.State.{StateStore}
use vortara.Text.{trim_space, has_prefix}
use vortara.Value.{Value, Payload, null, str, obj, field, no_fields, sprint}

pub record Slack : Type 0 where
  pub webhook_url : String
  pub template : String
  pub rate_limiter : Option RateLimiter

-- Connect
unfoldable pub connect :
    (String → Result ℤ) → (String → Option GoError) → DestinationConfig → Result Slack
unfolding trim_space new_rate_limiter
connect parse parse_uri cfg =
    let webhook = or_text (trim_space (option_of cfg "webhook")) (trim_space cfg.url) in
    let message = trim_space (option_of cfg "message") in
    if webhook == "" then err (connect_required "slack" "webhook") else elim (parse_uri webhook) [
      | some e ↦ err e
      | none ↦
          if message == ""
          then err (connect_required "slack" "message template")
          else elim (new_rate_limiter parse cfg.requests cfg.period) [
            | err e ↦ err e
            | ok limiter ↦
                ok (record { webhook_url = webhook; template = message; rate_limiter = limiter })
          ]
    ]

-- `\s` and `[A-Za-z0-9_]`
abbrev is_space : Char → Bool
is_space c =
    eqb (code c) 9 || eqb (code c) 10 || eqb (code c) 12 || eqb (code c) 13 || eqb (code c) 32

abbrev is_word : Char → Bool
is_word c =
    (leb b'A' (code c) && leb (code c) b'Z')
    || (leb b'a' (code c) && leb (code c) b'z')
    || (leb b'0' (code c) && leb (code c) b'9')
    || eqb (code c) b'_'

unfoldable pub skip_spaces : String → String
skip_spaces String.[] = String.[]
skip_spaces (String.◌∷◌ c s) =
    let rest = skip_spaces s in if is_space c then rest else String.◌∷◌ c s

-- The word at the beginning.
unfoldable pub word : String → String
word String.[] = String.[]
word (String.◌∷◌ c s) = let rest = word s in if is_word c then String.◌∷◌ c rest else String.[]

abbrev behind : ℕ → String → String
behind n s = slice s n (len s)

-- The field of a placeholder at the beginning of a text, and what is left behind it.
unfoldable pub placeholder : String → Option (String × String)
unfolding skip_spaces word has_prefix
placeholder s =
    let inner = skip_spaces (behind 2 s) in
    let name = word (behind 4 inner) in
    let close = skip_spaces (behind (len name) (behind 4 inner)) in
    if has_prefix s "{{" && has_prefix inner "row." && ltb 0 (len name) && has_prefix close "}}"
    then some (name, behind 2 close)
    else none

abbrev non_nil_text : Runtime → Value → String
non_nil_text rt null = ""
non_nil_text rt v = sprint rt v

-- The text for a placeholder.
abbrev pub text_of : Runtime → Payload → String → String
text_of rt row name = elim (lookup name row) [ none ↦ "" | some v ↦ non_nil_text rt v ]

-- The text behind the first `skip` bytes, with its placeholders replaced.
unfoldable pub render_from : Runtime → Payload → String → ℕ → String
unfolding placeholder sprint
render_from rt row String.[] skip = String.[]
render_from rt row (String.◌∷◌ c s) (suc skip) = render_from rt row s skip
render_from rt row (String.◌∷◌ c s) zero = elim (placeholder (String.◌∷◌ c s)) [
  | none ↦ String.◌∷◌ c (render_from rt row s zero)
  | some p ↦ concat (text_of rt row p.0) (render_from rt row s (len s - len p.1))
]

-- renderMessage
unfoldable pub render_message : Runtime → String → Payload → String
unfolding render_from
render_message rt template row = render_from rt row template zero

-- `io.LimitReader(resp.Body, 512)`
abbrev limit : String → String
limit b = if ltb 512 (len b) then slice b 0 512 else b

module _ {O : Type 0} (rt : Runtime) (web : Web O) (k : Slack) where
  abbrev post_request : String → Request
  post_request payload = record {
    method = "POST";
    url = k.webhook_url;
    body = payload;
    headers = (web.net.canonical "Content-Type", "application/json") ∷ [];
  }

  -- The answer of the webhook.
  abbrev posted : Result (ℕ × String) → Option GoError
  posted (err e) = some e
  posted (ok (code, body)) =
      if leb 300 code
      then some (bad_status "slack webhook" code (trim_space (limit body)))
      else none

  unfoldable pub post_message : String → Wire O → Wire O × Option GoError
  unfolding trim_space
  post_message text w = elim (web.encode (obj (field "text" (str text) no_fields))) [
    | err e ↦ (w, some e)
    | ok payload ↦ elim (web.net.refuse "POST" k.webhook_url) [
      | some e ↦ (w, some e)
      | none ↦
          let (o, r) = web.reply (post_request payload) w.outside in
          (record w { outside = o }, posted r)
    ]
  ]

  -- `if s.rateLimiter != nil { Wait }`
  abbrev pub throttled : Wire O → Wire O × Option GoError
  throttled w = elim k.rate_limiter [
    | none ↦ (w, none)
    | some limiter ↦ let (o, e) = web.net.wait w.outside in (record w { outside = o }, e)
  ]

  module _ {S : Type 0} (store : StateStore S) (pipeline destination : String) where
    abbrev sent_row : Row → Loading O S → Option GoError → Loading O S
    sent_row row l none = mark_row store pipeline destination row l
    sent_row row l (some e) = failed_row row e l

    -- A row behind the check of its delivery, and the rest of the loop.
    unfoldable pub post_row :
        Row
        → Loading O S
        → (Loading O S → Loading O S × Option GoError)
        → Loading O S × Option GoError
    unfolding post_message render_message mark_row
    post_row row l next =
        let (w, e) = throttled l.wire in
        elim e [
          | some cause ↦ (record l { wire = w }, some cause)
          | none ↦
              let (w', sent) = post_message (render_message rt k.template row.fields) w in
              next (sent_row row (record l { wire = w' }) sent)
        ]

    -- The loop of Load.
    unfoldable pub load_rows : List Row → Loading O S → Loading O S × Option GoError
    unfolding post_row
    load_rows [] l = (l, none)
    load_rows (row ∷ rows) l =
        let next = λ (l' : Loading O S). load_rows rows l' in
        let (l1, stop) = poll web.net l in
        elim stop [
          | some e ↦ (l1, some e)
          | none ↦ elim (store.is_delivered l1.store row.id pipeline destination) [
            | err e ↦ next (failed_row row e l1)
            | ok delivered ↦ elim delivered [
              | true ↦ next (skip_row l1)
              | false ↦ post_row row l1 next
            ]
          ]
        ]

    abbrev load_polled : List Row → Loading O S × Option GoError → Loading O S × Option GoError
    load_polled rows (l, some e) = (l, some e)
    load_polled rows (l, none) = load_rows rows l

    -- Load
    unfoldable pub load : List Row → Wire O → S → Loading O S × Option GoError
    unfolding load_rows
    load rows w s = load_polled rows (poll web.net (start w s))

-- ===== src/Destinations/HubSpot/Requests.antt =====
-- internal/connector/destination/hubspot.go: the requests with their retries and the classes of errors.
use Prim.Native.String.{slice, len}
use vortara.Base.{
  ℕ, zero, suc, ◌*◌, ◌^◌, pos, String, concat, Bool, true, false, ◌&&◌, ◌||◌, [], ◌∷◌, Option, none,
  some, eqb, leb, ltb, ◌==◌, if◌then◌else◌,
}
use vortara.Destinations.Client.{Web}
use vortara.Destinations.RestApi.{Request}
use vortara.Errors.{GoError, Result, ok, err, hubspot_error, hubspot_ambiguous, hubspot_decode}
use vortara.Text.{trim_space}
use vortara.Value.{Value}

-- What an attempt comes to: the end of the loop, or the error of an answer that is tried again.
pub data Turn (A : Type 0) : Type 0 where
  stop : Result A → Turn A
  again : GoError → Turn A

-- hsReadMessage, with the decoder of `message` and `error`
unfoldable pub read_message : (String → Option (String × String)) → String → String
unfolding trim_space
read_message decode_error body =
    let plain = trim_space body in
    let short = if ltb 200 (len plain) then concat (slice plain 0 200) "..." else plain in
    elim (decode_error body) [
      | none ↦ short
      | some m ↦ if m.0 == "" then (if m.1 == "" then short else m.1) else m.0
    ]

-- The error of a code that is not a success, and whether it is final.
unfoldable pub error_of : ℕ → String → Bool × GoError
error_of code msg =
    if eqb code 401
    then (true, hubspot_error "auth_failed" code "invalid or missing private app token")
    else if eqb code 403
    then (true, hubspot_error "auth_failed" code "token lacks required scope")
    else if eqb code 400 || eqb code 422
    then (true, hubspot_error "validation_error" code msg)
    else if eqb code 409
    then (true, hubspot_error "conflict" code msg)
    else (false, hubspot_error "retryable" code msg)

abbrev pub limited_body : String → String
limited_body b = if ltb 4096 (len b) then slice b 0 4096 else b

abbrev pub decoded : {A : Type 0} → Result A → Turn A
decoded (ok a) = stop (ok a)
decoded (err e) = stop (err (hubspot_decode e))

-- A call that is told of the context, and the rest.
abbrev pub guard : {A O : Type 0} → O × Option GoError → (O → O × Turn A) → O × Turn A
guard (o, none) k = k o
guard (o, some e) k = (o, stop (err (hubspot_ambiguous e)))

module _ {O : Type 0} (web : Web O) (decode_error : String → Option (String × String))
    (limited authenticated : Bool) where
  module _ {A : Type 0} (nothing : A) (decode : String → Result A) where
    unfoldable pub judge : ℕ → String → Turn A
    unfolding read_message error_of
    judge code body =
        if leb 200 code && ltb code 300
        then (if body == "" then stop (ok nothing) else decoded (decode body))
        else (let (final, e) = error_of code (read_message decode_error body) in
            if final then stop (err e) else again e)

    abbrev pub answered : O × Result (ℕ × String) → O × Turn A
    answered (o, err e) = (o, stop (err (hubspot_ambiguous e)))
    answered (o, ok (code, body)) = (o, judge code (limited_body body))

    abbrev pub signed : O × Result Request → O × Turn A
    signed (o, err e) = (o, stop (err e))
    signed (o, ok req) = answered (web.reply req o)

    -- The request behind the rate limiter.
    abbrev pub created : Request → O → O × Turn A
    created req o = elim (web.net.refuse req.method req.url) [
      | some e ↦ (o, stop (err e))
      | none ↦ if authenticated then signed (web.net.apply_auth req o) else signed (o, ok req)
    ]

    -- One round of the loop, without the wait behind it.
    unfoldable pub attempt : Request → O → O × Turn A
    unfolding judge
    attempt req o =
        guard (web.net.poll o)
          (λ o1. if limited then guard (web.net.wait o1) (created req) else created req o1)

    -- The loop: the rounds that are left, and the number of the next.
    unfoldable pub retry_loop : ℕ → ℕ → GoError → Request → O → O × Result A
    unfolding attempt
    retry_loop zero n last req o = (o, err last)
    retry_loop (suc left) n last req o =
        let (o1, turn) = attempt req o in
        elim turn [
          | stop r ↦ (o1, r)
          | again e ↦ elim left [
            | zero ↦ (o1, err e)
            | suc k ↦
                let (o2, woken) = web.net.sleep (pos (2 ^ n * 1000000000)) o1 in
                elim woken [
                  | some cause ↦ (o2, err (hubspot_ambiguous cause))
                  | none ↦ retry_loop left (suc n) e req o2
                ]
          ]
        ]

    -- doWithRetry
    unfoldable pub do_with_retry : String → String → String → O → O × Result A
    unfolding retry_loop
    do_with_retry method url body o =
        retry_loop 3 0 (hubspot_error "" 0 "")
          (record {
            method = method;
            url = url;
            body = body;
            headers = (web.net.canonical "Content-Type", "application/json") ∷ [];
          })
          o

-- `body, _ := json.Marshal(v)`
abbrev pub marshalled : {O : Type 0} → Web O → Value → String
marshalled web v = elim (web.encode v) [ ok s ↦ s | err e ↦ "" ]

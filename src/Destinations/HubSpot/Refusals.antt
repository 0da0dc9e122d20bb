-- ===== src/Destinations/HubSpot/Refusals.antt =====
-- Which answers end in an error of HubSpot's class auth_failed.
use vortara.Base.{
  ℕ, zero, suc, ◌*◌, ◌^◌, ◌||◌, pos, String, Bool, true, false, Option, none, some, eqb, leb, ltb,
  ◌&&◌, ◌==◌, ◌≡◌, refl, arith, sym, if◌then◌else◌, subst, ◌∙◌, Option-cases, Bool-cases, inl, inr,
  ◌⊎◌,
}
use vortara.Destinations.Client.{Web}
use vortara.Destinations.HubSpot.{is_auth}
use vortara.Destinations.HubSpot.Requests.{
  Turn, stop, again, error_of, read_message, limited_body, decoded, guard, judge, answered, signed,
  created, attempt, retry_loop, do_with_retry,
}
use vortara.Destinations.RestApi.{Request}
use vortara.Errors.{GoError, Result, ok, err, hubspot_error}

-- The error of an answer 401 or 403, with its code.
abbrev pub AuthAnswer : ℕ → GoError → Type 0
AuthAnswer code e =
    ((code ≡ 401) ⊎ (code ≡ 403)) × ((text : String) × (e ≡ hubspot_error "auth_failed" code text))

-- A request was answered 401 or 403, and this is the error of that answer.
abbrev pub Rejected : {O : Type 0} → Web O → GoError → Type 0
Rejected {O} web e =
    (req : Request) × (o : O) × (code : ℕ) × (body : String) × ((web.reply req o).1
      ≡ ok (code, body))
    × AuthAnswer code e

-- A request was not made, or not authenticated, with this error.
abbrev pub Unmade : {O : Type 0} → Web O → GoError → Type 0
Unmade {O} web e =
    ((method : String) × (url : String) × (web.net.refuse method url ≡ some e))
    ⊎ ((req : Request) × (o : O) × ((web.net.apply_auth req o).1 ≡ err e))

abbrev pub Cause : {O : Type 0} → Web O → GoError → Type 0
Cause web e = Rejected web e ⊎ Unmade web e

-- An error of the class has such a cause.
abbrev pub Caused : {O A : Type 0} → Web O → Result A → Type 0
Caused web (ok a) = Unit
Caused web (err e) = is_auth e ≡ true → Cause web e

abbrev TurnCaused : {O A : Type 0} → Web O → Turn A → Type 0
TurnCaused web (stop r) = Caused web r
TurnCaused web (again e) = is_auth e ≡ false

-- The codes of the class among the errors of an answer.
abbrev Classed : ℕ → Bool × GoError → Type 0
Classed code (true, e) = is_auth e ≡ true → AuthAnswer code e
Classed code (false, e) = is_auth e ≡ false

Turn-cases :
    {A : Type 0} (t : Turn A) → ((r : Result A) × (t ≡ stop r)) ⊎ ((e : GoError) × (t ≡ again e))
Turn-cases (stop r) = inl (r, refl)
Turn-cases (again e) = inr (e, refl)

true_not_false : true ≡ false → ⊥
true_not_false h = ground arith

error_of-Classed : (code : ℕ) (msg : String) → Classed code (error_of code msg)
unfolding error_of
error_of-Classed code msg = elim (Bool-cases (eqb code 401)) [
  | inl a ↦ rw a (λ h. (inl (ground arith), (_, refl)))
  | inr a ↦ elim (Bool-cases (eqb code 403)) [
    | inl b ↦ rw (a, b) (λ h. (inr (ground arith), (_, refl)))
    | inr b ↦ elim (Bool-cases (eqb code 400 || eqb code 422)) [
      | inl c ↦ rw (a, b, c) (λ h. absurd (true_not_false (sym h)))
      | inr c ↦ elim (Bool-cases (eqb code 409)) [
        | inl d ↦ rw (a, b, c, d) (λ h. absurd (true_not_false (sym h)))
        | inr d ↦ rw (a, b, c, d) refl
      ]
    ]
  ]
]

module _ {O : Type 0} (web : Web O) (decode_error : String → Option (String × String))
    (limited authenticated : Bool) {A : Type 0} (nothing : A) (decode : String → Result A) where
  decoded-Caused : (r : Result A) → TurnCaused web (decoded r)
  decoded-Caused (ok a) = tt
  decoded-Caused (err e) = λ h. absurd (true_not_false (sym h))

  Classed-Caused :
      (code : ℕ) (p : Bool × GoError)
      → Classed code p
      → ((e : GoError) → AuthAnswer code e → Rejected web e)
      → TurnCaused {A = A} web (if p.0 then stop (err p.1) else again p.1)
  Classed-Caused code (true, e) c r = λ h. inl (r e (c h))
  Classed-Caused code (false, e) c r = c

  judge-Caused :
      (code : ℕ) (body : String)
      → ((e : GoError) → AuthAnswer code e → Rejected web e)
      → TurnCaused web (judge web decode_error limited authenticated nothing decode code body)
  unfolding judge
  judge-Caused code body r = elim (Bool-cases (leb 200 code && ltb code 300)) [
    | inl a ↦ elim (Bool-cases (body == "")) [
      | inl b ↦ rw (a, b) tt
      | inr b ↦ rw (a, b) (decoded-Caused (decode body))
    ]
    | inr a ↦
        let msg = read_message decode_error body in
        rw a (Classed-Caused code (error_of code msg) (error_of-Classed code msg) r)
  ]

  answered-Caused :
      (p : O × Result (ℕ × String))
      → ((code : ℕ) (body : String)
          → p.1 ≡ ok (code, body)
          → (e : GoError) → AuthAnswer code e
          → Rejected web e)
      → TurnCaused web (answered web decode_error limited authenticated nothing decode p).1
  answered-Caused (o, err e) r = λ h. absurd (true_not_false (sym h))
  answered-Caused (o, ok (code, body)) r = judge-Caused code (limited_body body) (r code body refl)

  signed-Caused :
      (p : O × Result Request)
      → ((e : GoError) → p.1 ≡ err e → Unmade web e)
      → TurnCaused web (signed web decode_error limited authenticated nothing decode p).1
  signed-Caused (o, err e) r = λ h. inr (r e refl)
  signed-Caused (o, ok req) r =
      answered-Caused (web.reply req o) (λ code body z e c. (req, o, code, body, z, c))

  if-Caused :
      (b : Bool) (p q : O × Turn A)
      → TurnCaused web p.1
      → TurnCaused web q.1
      → TurnCaused web (if b then p else q).1
  if-Caused true p q h g = h
  if-Caused false p q h g = g

  created-Caused :
      (req : Request) (o : O)
      → TurnCaused web (created web decode_error limited authenticated nothing decode req o).1
  created-Caused req o = elim (Option-cases (web.net.refuse req.method req.url)) [
    | inr (e, g) ↦ rw (g, created) (λ h. inr (inl (req.method, req.url, g)))
    | inl g ↦
        rw (g, created)
          (if-Caused authenticated _ _
            (signed-Caused (web.net.apply_auth req o) (λ e z. inr (req, o, z)))
            (answered-Caused (web.reply req o) (λ code body z e c. (req, o, code, body, z, c))))
  ]

  guard-Caused :
      (p : O × Option GoError) (k : O → O × Turn A)
      → ((o : O) → TurnCaused web (k o).1)
      → TurnCaused web (guard p k).1
  guard-Caused (o, none) k h = h o
  guard-Caused (o, some e) k h = λ z. absurd (true_not_false (sym z))

  attempt-Caused :
      (req : Request) (o : O)
      → TurnCaused web (attempt web decode_error limited authenticated nothing decode req o).1
  unfolding attempt
  attempt-Caused req o = elim (Bool-cases limited) [
    | inl a ↦ rw a (
        guard-Caused (web.net.poll o) _
          (λ o1. guard-Caused (web.net.wait o1) _ (created-Caused req)))
    | inr a ↦ rw a (guard-Caused (web.net.poll o) _ (created-Caused req))
  ]

  loop-Caused :
      (left n : ℕ) (last : GoError) (req : Request) (o : O)
      → is_auth last ≡ false
      → Caused web
          (retry_loop web decode_error limited authenticated nothing decode left n last req o).1
  unfolding retry_loop
  loop-Caused zero n last req o h = λ z. absurd (true_not_false (sym z ∙ h))
  loop-Caused (suc zero) n last req o h =
      let t = attempt web decode_error limited authenticated nothing decode req o in
      elim (Turn-cases t.1) [
        | inl (r, g) ↦ rw (g, retry_loop) (subst (TurnCaused web) g (attempt-Caused req o))
        | inr (e, g) ↦
            let plain : is_auth e ≡ false = subst (TurnCaused web) g (attempt-Caused req o) in
            rw (g, retry_loop) (λ z. absurd (true_not_false (sym z ∙ plain)))
      ]
  loop-Caused (suc (suc left)) n last req o h =
      let t = attempt web decode_error limited authenticated nothing decode req o in
      elim (Turn-cases t.1) [
        | inl (r, g) ↦ rw (g, retry_loop) (subst (TurnCaused web) g (attempt-Caused req o))
        | inr (e, g) ↦
            let plain : is_auth e ≡ false = subst (TurnCaused web) g (attempt-Caused req o) in
            let rest =
              loop-Caused (suc left) (suc n) e req (web.net.sleep (pos (2 ^ n * 1000000000)) t.0).0
                plain in
            elim (Option-cases (web.net.sleep (pos (2 ^ n * 1000000000)) t.0).1) [
              | inl w ↦ rw (g, w, retry_loop) rest
              | inr (c, w) ↦ rw (g, w, retry_loop) (λ z. absurd (true_not_false (sym z)))
            ]
      ]

  pub do_with_retry-Caused :
      (method url body : String) (o : O)
      → Caused web
          (do_with_retry web decode_error limited authenticated nothing decode method url body o).1
  unfolding do_with_retry
  do_with_retry-Caused method url body o = loop-Caused 3 0 (hubspot_error "" 0 "") _ o refl

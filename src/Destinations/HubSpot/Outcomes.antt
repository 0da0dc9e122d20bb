-- ===== src/Destinations/HubSpot/Outcomes.antt =====
-- What ends a row of HubSpot fatally.
use vortara.Base.{
  String, concat, Bool, true, false, List, [], Option, is_some, ◌≡◌, Bool-cases, inl, inr, subst,
  ◌||◌, ◌==◌, lookup, if◌then◌else◌,
}
use vortara.Value.{Payload, sprint}
use vortara.Destinations.Client.{Web}
use vortara.Destinations.HubSpot.{
  HubSpot, Outcome, delivered_as, row_failed, fatal, is_auth, classify_err, deliver_to, written,
  write_found, resolve, Found, several, no_contact, one_contact, is_null, is_delete, create_contact,
  update_contact, archive_contact, search_by_field, search_body, objects_url, ask, properties,
}
use vortara.Destinations.HubSpot.Refusals.{Cause, Caused, do_with_retry-Caused}
use vortara.Destinations.HubSpot.Requests.{marshalled}
use vortara.Destinations.Intercom.{data_at}
use vortara.Errors.{GoError, Result, ok, err, Result-cases}
use vortara.Row.{Row}
use vortara.Runtime.{Runtime}

-- A fatal outcome is an error of the class auth_failed with its cause.
abbrev pub Fair : {O : Type 0} → Web O → Outcome → Type 0
Fair web (fatal e) = (is_auth e ≡ true) × Cause web e
Fair web (row_failed e) = Unit
Fair web (delivered_as id) = Unit

classify-Fair :
    {O : Type 0} (web : Web O) (e : GoError)
    → (is_auth e ≡ true → Cause web e)
    → Fair web (classify_err e)
unfolding classify_err
classify-Fair web e c = elim (Bool-cases (is_auth e)) [
  | inl h ↦ rw (h, classify_err) (h, c h)
  | inr h ↦ rw (h, classify_err) tt
]

module _ {O : Type 0} (rt : Runtime) (web : Web O)
    (decode_error : String → Option (String × String)) (decode_ids : String → Result (List String))
    (decode_id : String → Result String) (h : HubSpot) where
  written-Fair :
      {A : Type 0} (p : O × Result A) (id : A → String)
      → Caused web p.1
      → Fair web (written rt web decode_error decode_ids decode_id h p id).1
  written-Fair (o, err e) id c = classify-Fair web e c
  written-Fair (o, ok a) id c = tt

  if-Fair :
      (b : Bool) (p q : O × Outcome) → Fair web p.1 → Fair web q.1 → Fair web (if b then p else q).1
  if-Fair true p q f g = f
  if-Fair false p q f g = g

  ask-Caused :
      {A : Type 0} (nothing : A) (decode : String → Result A) (method url body : String) (o : O)
      → Caused web
          (ask rt web decode_error decode_ids decode_id h nothing decode method url body o).1
  ask-Caused nothing decode method url body o =
      do_with_retry-Caused web decode_error (is_some h.rate_limiter) (is_some h.auth) nothing decode
        method url body o

  create-Fair :
      (props : Payload) (o : O) (id : String → String)
      → Fair web
          (written rt web decode_error decode_ids decode_id h
            (create_contact rt web decode_error decode_ids decode_id h props o)
            id).1
  unfolding create_contact
  create-Fair props o id = written-Fair _ id (ask-Caused "" decode_id _ _ _ o)

  update-Fair :
      (name : String) (props : Payload) (o : O) (id : Unit {0} → String)
      → Fair web
          (written rt web decode_error decode_ids decode_id h
            (update_contact rt web decode_error decode_ids decode_id h name props o)
            id).1
  unfolding update_contact
  update-Fair name props o id = written-Fair _ id (ask-Caused tt (λ body. ok tt) _ _ _ o)

  archive-Fair :
      (name : String) (o : O) (id : Unit {0} → String)
      → Fair web
          (written rt web decode_error decode_ids decode_id h
            (archive_contact rt web decode_error decode_ids decode_id h name o)
            id).1
  unfolding archive_contact
  archive-Fair name o id = written-Fair _ id (ask-Caused tt (λ body. ok tt) _ _ _ o)

  search-Caused :
      (name value : String) (o : O)
      → Caused web (search_by_field rt web decode_error decode_ids decode_id h name value o).1
  unfolding search_by_field
  search-Caused name value o =
      let p =
        ask rt web decode_error decode_ids decode_id h [] decode_ids "POST"
          (concat (objects_url rt web decode_error decode_ids decode_id h) "/search")
          (marshalled web (search_body name value)) o in
      let c = ask-Caused [] decode_ids "POST" _ _ o in
      elim (Result-cases p.1) [
        | inl (e, g) ↦ rw (g, search_by_field) (subst (Caused web) g c)
        | inr (ids, g) ↦ rw (g, search_by_field) tt
      ]

  found-Fair :
      (props : Payload) (text : String) (p : O × Result Found)
      → Caused web p.1
      → Fair web (write_found rt web decode_error decode_ids decode_id h props text p).1
  unfolding write_found
  found-Fair props text (o, err e) c = classify-Fair web e c
  found-Fair props text (o, ok several) c = tt
  found-Fair props text (o, ok no_contact) c = create-Fair props o (λ id. id)
  found-Fair props text (o, ok (one_contact id)) c =
      if-Fair (id == "") _ _ (create-Fair props o (λ new. new))
        (update-Fair id props o (λ done. id))

  resolve-Fair :
      (row : Row) (props : Payload) (o : O)
      → Fair web (resolve rt web decode_error decode_ids decode_id h row props o).1
  unfolding resolve
  resolve-Fair row props o =
      let text = sprint rt (data_at row.fields h.match_on) in
      if-Fair (is_null (data_at row.fields h.match_on) || text == "") _ _ tt (
        found-Fair props text
          (search_by_field rt web decode_error decode_ids decode_id h h.match_on text o)
          (search-Caused h.match_on text o))

  pub deliver-Fair :
      (row : Row) (stored : String) (o : O)
      → Fair web (deliver_to rt web decode_error decode_ids decode_id h row stored o).1
  unfolding deliver_to
  deliver-Fair row stored o =
      let props = properties rt row.fields in
      if-Fair (is_delete (lookup "_action" row.metadata)) _ _
        (if-Fair (stored == "") _ _ tt (archive-Fair stored o (λ done. stored)))
        (if-Fair (stored == "") _ _ (resolve-Fair row props o)
          (update-Fair stored props o (λ done. stored)))

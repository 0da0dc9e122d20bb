-- ===== src/Destinations/Zendesk/Bodies.antt =====
-- The body that Zendesk is sent for a row.
use vortara.Base.{
  String, some, lookup, ◌==◌, ◌≡◌, refl, arith, Bool-cases, inl, inr, eq_iff, sym, ◌∙◌, ap,
  lookup-insert, if◌then◌else◌,
}
use vortara.Destinations.Zendesk.{Zendesk, body_of}
use vortara.Runtime.{Runtime}
use vortara.Value.{Value, Payload, str, sprint}

-- The body for a row that has the match field is keyed by it, with the text of its value unless the field
-- is called `external_id` already, and every other field is as it was.
body_of-lookup :
    (rt : Runtime) (z : Zendesk) (row : Payload) (v : Value) (k : String)
    → lookup z.match_field row ≡ some v
    → lookup k (body_of rt z row) ≡ (
        if k == "external_id"
        then some (if z.match_field == "external_id" then v else str (sprint rt v))
        else lookup k row)
unfolding body_of
body_of-lookup rt z row v k h = elim (Bool-cases (z.match_field == "external_id")) [
  | inl g ↦
      rw (g, body_of)
        (elim (Bool-cases (k == "external_id")) [
          | inl e ↦ rw e (
              ap (λ x. lookup x row)
                ((eq_iff k "external_id").0 e ∙ sym ((eq_iff z.match_field "external_id").0 g))
              ∙ h)
          | inr e ↦ rw e refl
        ])
  | inr g ↦
      rw (g, h, body_of)
        (ground (
          arith,
          lookup-insert "external_id" k (str (sprint rt v)) row,
          eq_iff "external_id" k,
          eq_iff k "external_id",
        ))
]

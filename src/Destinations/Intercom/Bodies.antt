-- ===== src/Destinations/Intercom/Bodies.antt =====
-- The body that Intercom is sent for a row.
use vortara.Base.{
  String, Bool, ◌∷◌, Option, some, true, false, ◌⊎◌, lookup-insert_self, lookup-insert, not, ◌&&◌,
  [], none, lookup, ◌==◌, ◌≡◌, refl, arith, if◌then◌else◌, Bool-cases, inl, inr, eq_iff, ap, sym,
  ◌∙◌,
}
use vortara.Destinations.Intercom.{split_fields, top_field, with_custom, body_of}
use vortara.Value.{Value, Payload, Fields, obj, field, no_fields, to_fields}

-- Where a field of a row belongs.
abbrev pub is_custom : String → String → Bool
is_custom object k = object == "contacts" && not (top_field k)

split_fields-lookup :
    (object k : String) (row : Payload)
    → (lookup k (split_fields object row).0 ≡ (if is_custom object k then none else lookup k row))
      × (lookup k (split_fields object row).1 ≡ (if is_custom object k then lookup k row else none))
unfolding split_fields lookup
split_fields-lookup object k [] = ground arith
split_fields-lookup object k ((at, v) ∷ rest) =
    let (a, b) = split_fields-lookup object k rest in
    elim (Bool-cases (at == k)) [
      | inl h ↦
          let same = ap (is_custom object) (sym ((eq_iff at k).0 h)) in
          elim (Bool-cases (is_custom object at)) [
            | inl c ↦ rw (c, same ∙ c, h) (a ∙ rw (same ∙ c) refl, refl)
            | inr c ↦ rw (c, same ∙ c, h) (refl, b ∙ rw (same ∙ c) refl)
          ]
      | inr h ↦ elim (Bool-cases (is_custom object at)) [
        | inl c ↦ rw (c, h) (a, b)
        | inr c ↦ rw (c, h) (a, b)
      ]
    ]

no_custom :
    (object : String) (row : Payload)
    → (object == "contacts") ≡ false
    → (split_fields object row).1 ≡ []
unfolding split_fields
no_custom object [] h = refl
no_custom object ((at, v) ∷ rest) h = rw h (no_custom object rest h)

-- What an object has under a name.
unfoldable pub field_at : String → Fields → Option Value
field_at k no_fields = none
field_at k (field at v fs) = let rest = field_at k fs in if at == k then some v else rest

abbrev pub value_at : String → Option Value → Option Value
value_at k (some (obj fs)) = field_at k fs
value_at k v = none

field_at-to_fields : (k : String) (m : Payload) → field_at k (to_fields m) ≡ lookup k m
unfolding field_at to_fields lookup
field_at-to_fields k [] = refl
field_at-to_fields k ((at, v) ∷ m) = rw (field_at-to_fields k m) refl

top_value :
    (k : String) (p : Payload × Payload)
    → (p.1 ≡ []) ⊎ (("custom_attributes" == k) ≡ false)
    → lookup k (with_custom p) ≡ lookup k p.0
top_value k (top, []) h = refl
top_value k (top, c ∷ custom) (inl e) = absurd (ground arith)
top_value k (top, c ∷ custom) (inr ne) =
    lookup-insert "custom_attributes" k (obj (to_fields (c ∷ custom))) top ∙ rw ne refl

lookup_nil : (k : String) → lookup {V = Value} k [] ≡ none
unfolding lookup
lookup_nil k = refl

custom_value :
    (k : String) (p : Payload × Payload)
    → lookup "custom_attributes" p.0 ≡ none
    → value_at k (lookup "custom_attributes" (with_custom p)) ≡ lookup k p.1
custom_value k (top, []) h = rw h (sym (lookup_nil k))
custom_value k (top, c ∷ custom) h =
    rw (lookup-insert_self "custom_attributes" (obj (to_fields (c ∷ custom))) top)
      (field_at-to_fields k (c ∷ custom))

contact : (object k : String) → is_custom object k ≡ true → (object == "contacts") ≡ true
contact object k h = ground arith

known_custom :
    (object : String) → (object == "contacts") ≡ true → is_custom object "custom_attributes" ≡ true
known_custom object g = rw g refl

true_not_false : true ≡ false → ⊥
true_not_false h = ground arith

top_or_known :
    (object k : String) (row : Payload)
    → is_custom object k ≡ false
    → ((split_fields object row).1 ≡ []) ⊎ (("custom_attributes" == k) ≡ false)
top_or_known object k row h = elim (Bool-cases (object == "contacts")) [
  | inr g ↦ inl (no_custom object row g)
  | inl g ↦ elim (Bool-cases ("custom_attributes" == k)) [
    | inr z ↦ inr z
    | inl z ↦ absurd (
        true_not_false (
          sym (known_custom object g)
          ∙ ap (is_custom object) ((eq_iff "custom_attributes" k).0 z)
          ∙ h))
  ]
]

-- The body that Intercom is sent for a row has every field of the row with its value: at the top, or, for a
-- field of a contact that Intercom does not know, among its custom attributes.
pub body_of-value_at :
    (object k : String) (row : Payload)
    → let sent = some (body_of object row) in
      (if is_custom object k
        then value_at k (value_at "custom_attributes" sent)
        else value_at k sent)
      ≡ lookup k row
unfolding body_of
body_of-value_at object k row =
    let p = split_fields object row in
    let (a, b) = split_fields-lookup object k row in
    let (c, d) = split_fields-lookup object "custom_attributes" row in
    elim (Bool-cases (is_custom object k)) [
      | inr h ↦ rw h (
          field_at-to_fields k (with_custom p)
          ∙ top_value k p (top_or_known object k row h)
          ∙ a
          ∙ rw h refl)
      | inl h ↦ rw h (
          ap (value_at k) (field_at-to_fields "custom_attributes" (with_custom p))
          ∙ custom_value k p (c ∙ rw (contact object k h) refl)
          ∙ b
          ∙ rw h refl)
    ]

-- ===== src/Registry/Lookup.antt =====
-- What a registration makes of the look-ups.
use vortara.Base.{
  String, Bool, true, false, Option, none, some, Assoc, lookup, insert, lookup-insert, ◌==◌, ◌&&◌,
  ap, ◌≡◌, refl, sym, ◌∙◌, arith, if◌then◌else◌, Option-cases, inl, inr,
}
use vortara.Errors.{Result, ok, err}
use vortara.Registry.{
  Registry, Kind, batch_source, streaming_source, destination, table, with_table, register, get,
}

abbrev pub same_kind : Kind → Kind → Bool
same_kind batch_source batch_source = true
same_kind streaming_source streaming_source = true
same_kind destination destination = true
same_kind _ _ = false

-- The factory that a look-up finds.
abbrev pub found {ℓ} : {A : Type ℓ} → Result A → Option A
found (ok a) = some a
found (err e) = none

module _ {F : Type 0} where
  found-get :
      (kind : Kind) (r : Registry F) (name : String)
      → found (get kind r name) ≡ lookup name (table kind r)
  unfolding get
  found-get kind r name = elim (Option-cases (lookup name (table kind r))) [
    | inl h ↦ rw (h, get) refl
    | inr (f, h) ↦ rw (h, get) refl
  ]

  table-with_table :
      (kind k : Kind) (t : Assoc F) (r : Registry F)
      → table k (with_table kind t r) ≡ (if same_kind kind k then t else table k r)
  table-with_table kind k t r = ground arith

  registered :
      (kind : Kind) (r r' : Registry F) (name : String) (f : F)
      → register kind r name (some f) ≡ ok r'
      → (r' ≡ with_table kind (insert name f (table kind r)) r)
        × (lookup name (table kind r) ≡ none)
  unfolding register
  registered kind r r' name f h = ground arith

  lookup_registered :
      (kind k : Kind) (r : Registry F) (name other : String) (f : F)
      → lookup other (table k (with_table kind (insert name f (table kind r)) r))
        ≡ (if same_kind kind k && name == other then some f else lookup other (table k r))
  lookup_registered batch_source batch_source r name other f =
      lookup-insert name other f r.batch_sources
  lookup_registered streaming_source streaming_source r name other f =
      lookup-insert name other f r.streaming_sources
  lookup_registered destination destination r name other f =
      lookup-insert name other f r.destinations
  lookup_registered batch_source streaming_source r name other f = refl
  lookup_registered batch_source destination r name other f = refl
  lookup_registered streaming_source batch_source r name other f = refl
  lookup_registered streaming_source destination r name other f = refl
  lookup_registered destination batch_source r name other f = refl
  lookup_registered destination streaming_source r name other f = refl

  -- After a registration that does not panic the name, which was free, gives the factory, and every
  -- other name and every other kind of connector gives what it gave before.
  get-register :
      (kind k : Kind) (r r' : Registry F) (name other : String) (f : F)
      → register kind r name (some f) ≡ ok r'
      → (found (get kind r name) ≡ none)
        × (found (get k r' other)
            ≡ (if same_kind kind k && name == other then some f else found (get k r other)))
  get-register kind k r r' name other f h =
      let (e, free) = registered kind r r' name f h in
      (
        found-get kind r name ∙ free,
        found-get k r' other
            ∙ ap (λ x. lookup other (table k x)) e
            ∙ lookup_registered kind k r name other f
            ∙ ap (λ x. if same_kind kind k && name == other then some f else x)
                (sym (found-get k r other)),
      )

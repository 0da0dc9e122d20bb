-- ===== src/Destinations/Loading/Marks.antt =====
-- What the marks of a Load do to the store, and what it is that a Load sends nothing.
use vortara.Base.{String, true, [], ◌≡◌, refl, none, Option-cases, inl, inr, ◌⊎◌}
use vortara.Destinations.Loading.{Loading, mark_row}
use vortara.Destinations.RestApi.{Network, Wire}
use vortara.Errors.{ok}
use vortara.Row.{Row}
use vortara.State.{StateStore}
use vortara.State.Observe.{SameEntities, StoreLaws}

-- A store remembers a delivery that it marked without an error.
abbrev pub RemembersMarks : {S : Type 0} → StateStore S → Type 0
RemembersMarks {S} store =
    (s : S) (id n d : String)
    → (store.mark_delivered s id n d).1 ≡ none
    → store.is_delivered (store.mark_delivered s id n d).0 id n d ≡ ok true

abbrev pub Delivered : {S : Type 0} → StateStore S → String → String → S → Row → Type 0
Delivered store n d s row = store.is_delivered s row.id n d ≡ ok true

module _ {O : Type 0} (net : Network O) where
  -- The world outside was only asked for the context's error.
  pub data Polled : O → O → Type 0 where
    not_asked : {o : O} → Polled o o
    asked : {o o' : O} → Polled (net.poll o).0 o' → Polled o o'

  pub Polled-snoc : {o o' : O} → Polled o o' → Polled o (net.poll o').0
  Polled-snoc not_asked = asked not_asked
  Polled-snoc (asked p) = asked (Polled-snoc p)

  -- Nothing was sent or written since the first state.
  abbrev pub Quiet : {S : Type 0} → Wire O → S → Loading O S → Type 0
  Quiet w s l =
      (l.store ≡ s)
      × (l.result.loaded ≡ 0)
      × (l.result.errors ≡ [])
      × (l.wire.breaker ≡ w.breaker)
      × Polled w.outside l.wire.outside

module _ {O S : Type 0} (store : StateStore S) (n d : String) where
  -- A row counted as loaded is marked.
  abbrev pub Marked : Row → Loading O S → Loading O S → Type 0
  Marked row l l' = (l'.result.loaded ≡ l.result.loaded) ⊎ Delivered store n d l'.store row

  pub mark-Marked :
      RemembersMarks store → (row : Row) (l : Loading O S) → Marked row l (mark_row store n d row l)
  unfolding mark_row
  mark-Marked marks row l = elim (Option-cases (store.mark_delivered l.store row.id n d).1) [
    | inl g ↦ rw (g, mark_row) (inr (marks l.store row.id n d g))
    | inr (cause, g) ↦ rw (g, mark_row) (inl refl)
  ]

  pub mark-SameEntities :
      StoreLaws store
      → (row : Row) (l : Loading O S) → SameEntities store (mark_row store n d row l).store l.store
  unfolding mark_row
  mark-SameEntities laws row l = elim (Option-cases (store.mark_delivered l.store row.id n d).1) [
    | inl g ↦ rw (g, mark_row) (laws.mark_delivered l.store row.id n d)
    | inr (cause, g) ↦ rw (g, mark_row) (laws.mark_delivered l.store row.id n d)
  ]

-- ===== src/Destinations/Loading/Counts.antt =====
-- The counters of a Load.
use vortara.Base.{
  ℕ, suc, ◌+◌, String, [], ◌∷◌, Option, none, length, length-append, ◌≡◌, arith, ◌∙◌, Option-cases,
  inl, inr,
}
use vortara.Destinations.Loading.{Loading, failed_row, mark_row}
use vortara.Engine.{LoadResult}
use vortara.Errors.{GoError}
use vortara.Row.{Row}
use vortara.State.{StateStore}

-- The rows that a result accounts for.
abbrev pub accounted : LoadResult → ℕ
accounted res = res.loaded + res.skipped + length res.errors

module _ {O S : Type 0} where
  pub failed-accounted :
      (row : Row) (e : GoError) (l : Loading O S)
      → accounted (failed_row row e l).result ≡ suc (accounted l.result)
  failed-accounted row e l =
      omega (arith, length-append l.result.errors (record { row_id = row.id; error = e } ∷ []))

  pub mark-accounted :
      (store : StateStore S) (n d : String) (row : Row) (l : Loading O S)
      → accounted (mark_row store n d row l).result ≡ suc (accounted l.result)
  unfolding mark_row
  mark-accounted store n d row l =
      let (s, e) = store.mark_delivered l.store row.id n d in
      elim (Option-cases e) [
        | inl g ↦ rw (g, mark_row) (omega arith)
        | inr (cause, g) ↦ rw (g, mark_row) (failed-accounted row cause (record l { store = s }))
      ]

  -- A Load that returns no error has accounted for so many rows.
  abbrev pub Done : ℕ → Loading O S × Option GoError → Type 0
  Done m p = p.1 ≡ none → accounted p.0.result ≡ m

  pub next-Done :
      (m : ℕ) (l l' : Loading O S) (p : Loading O S × Option GoError)
      → Done (m + accounted l'.result) p
      → accounted l'.result ≡ suc (accounted l.result)
      → Done (suc m + accounted l.result) p
  next-Done m l l' p done z h = done h ∙ omega arith

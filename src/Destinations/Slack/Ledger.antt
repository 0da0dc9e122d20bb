-- ===== src/Destinations/Slack/Ledger.antt =====
-- Every row that Slack's Load is given is counted once, or Load returns an error.
use vortara.Base.{
  ℕ, suc, ◌+◌, String, true, false, List, [], ◌∷◌, length, Option, none, some, ◌≡◌, refl, arith,
  ◌∙◌, Option-cases, inl, inr,
}
use vortara.Destinations.Client.{Web}
use vortara.Destinations.Loading.{Loading, failed_row, skip_row, poll, start}
use vortara.Destinations.Loading.Counts.{
  accounted, failed-accounted, mark-accounted, Done, next-Done,
}
use vortara.Destinations.RestApi.{Wire}
use vortara.Destinations.Slack.{
  Slack, sent_row, post_row, load_rows, load_polled, load, throttled, post_message, render_message,
}
use vortara.Errors.{GoError, ok, Result-cases}
use vortara.Row.{Row}
use vortara.Runtime.{Runtime}
use vortara.State.{StateStore}

module _ {O S : Type 0} (rt : Runtime) (web : Web O) (k : Slack) (store : StateStore S)
    (n d : String) where
  sent-accounted :
      (row : Row) (l : Loading O S) (e : Option GoError)
      → accounted (sent_row rt web k store n d row l e).result ≡ suc (accounted l.result)
  sent-accounted row l none = mark-accounted store n d row l
  sent-accounted row l (some e) = failed-accounted row e l

  post-Done :
      (m : ℕ) (row : Row) (l : Loading O S) (next : Loading O S → Loading O S × Option GoError)
      → ((l' : Loading O S) → accounted l'.result ≡ suc (accounted l.result) → Done m (next l'))
      → Done m (post_row rt web k store n d row l next)
  unfolding post_row
  post-Done m row l next more = elim (Option-cases (throttled rt web k l.wire).1) [
    | inr (e, g) ↦ rw (g, post_row) (λ h. absurd (ground arith))
    | inl g ↦
        let w = (throttled rt web k l.wire).0 in
        let (w', sent) = post_message rt web k (render_message rt k.template row.fields) w in
        let l' = sent_row rt web k store n d row (record l { wire = w' }) sent in
        rw (g, post_row) (more l' (sent-accounted row (record l { wire = w' }) sent))
  ]

  rows-Done :
      (rows : List Row) (l : Loading O S)
      → Done (length rows + accounted l.result) (load_rows rt web k store n d rows l)
  unfolding load_rows
  rows-Done [] l = λ h. omega arith
  rows-Done (row ∷ rows) l =
      let l1 = (poll web.net l).0 in
      let more = λ (l' : Loading O S).
        next-Done (length rows) l l' (load_rows rt web k store n d rows l') (rows-Done rows l') in
      elim (Option-cases (poll web.net l).1) [
        | inr (e, g) ↦ rw (g, load_rows) (λ h. absurd (ground arith))
        | inl g ↦ elim (Result-cases (store.is_delivered l1.store row.id n d)) [
          | inl (e, z) ↦
              rw (g, z, load_rows) (more (failed_row row e l1) (failed-accounted row e l1))
          | inr (true, z) ↦ rw (g, z, load_rows) (more (skip_row l1) (omega arith))
          | inr (false, z) ↦
              rw (g, z, load_rows)
                (post-Done (length (row ∷ rows) + accounted l.result) row l1
                  (λ l'. load_rows rt web k store n d rows l') more)
        ]
      ]

  polled-Done :
      (rows : List Row) (l : Loading O S) (e : Option GoError)
      → Done (length rows + accounted l.result) (load_polled rt web k store n d rows (l, e))
  polled-Done rows l none = rows-Done rows l
  polled-Done rows l (some e) = λ h. absurd (ground arith)

-- Where the context is never done, a row that was delivered is skipped.
pub slack-Delivered :
    {O S : Type 0} (rt : Runtime) (web : Web O) (k : Slack) (store : StateStore S) (n d : String)
    → ((o : O) → (web.net.poll o).1 ≡ none)
    → (row : Row) (w : Wire O) (s : S) → store.is_delivered s row.id n d ≡ ok true
    → let (l, e) = load rt web k store n d (row ∷ []) w s in
      (l.store ≡ s) × (l.result.loaded ≡ 0) × (l.result.errors ≡ []) × (e ≡ none)
unfolding load load_rows
slack-Delivered rt web k store n d runs row w s h =
    rw (runs w.outside, runs (web.net.poll w.outside).0, h, load_rows) (refl, refl, refl, refl)

-- If Load of Slack returns no error, it counts every row that it was given once: as loaded, as skipped or
-- in its errors.
slack-accounted :
    {O S : Type 0} (rt : Runtime) (web : Web O) (k : Slack) (store : StateStore S) (n d : String)
    (rows : List Row) (w : Wire O) (s : S)
    → (load rt web k store n d rows w s).1 ≡ none
    → let res = (load rt web k store n d rows w s).0.result in
      res.loaded + res.skipped + length res.errors ≡ length rows
unfolding load
slack-accounted rt web k store n d rows w s h =
    polled-Done rt web k store n d rows (poll web.net (start w s)).0 (web.net.poll w.outside).1 h
    ∙ omega arith

-- ===== src/Destinations/RestApi/Load/Ledger.antt =====
-- Every row that Load is given is counted once, or the context is done.
use vortara.Base.{
  ℕ, suc, ◌+◌, String, Bool, true, false, List, [], ◌∷◌, Option, none, some, is_some, length, ◌≡◌,
  refl, arith, ap, sym, ◌∙◌, subst, Option-cases, Bool-cases, inl, inr, ◌⊎◌,
}
use vortara.Destinations.Loading.Counts.{accounted, failed-accounted, mark-accounted}
use vortara.Destinations.RestApi.{Network, RestApi, Wire, send_with_retry}
use vortara.Destinations.RestApi.Context.{ContextLaws, Ended, send-Ended, send_cancelled-Ended}
use vortara.Destinations.Loading.{Loading, failed_row, mark_row, poll, skip_row, start}
use vortara.Destinations.RestApi.Load.{
  sent_row, load_row, load_rows, pending_rows, with_row, send_pending, load,
}
use vortara.Errors.{GoError, Result, ok, err, Result-cases, is_cancellation}
use vortara.Row.{Row}
use vortara.State.{StateStore}

true-false : ¬ (true ≡ false)
true-false h = ground arith

module _ {O S : Type 0} (net : Network O) (store : StateStore S) (r : RestApi) (n d : String) where
  module _ (done : O → Bool) (laws : ContextLaws net done) where
    sent-accounted :
        (row : Row) (l : Loading O S) (e : Option GoError)
        → ((cause : GoError)
            → is_cancellation cause ≡ true
            → e ≡ some cause
            → Ended net done laws l.wire)
        → (accounted (sent_row net store r n d row l e).result ≡ suc (accounted l.result))
          ⊎ Ended net done laws (sent_row net store r n d row l e).wire
    unfolding sent_row
    sent-accounted row l none k = inl (mark-accounted store n d row l)
    sent-accounted row l (some e) k = elim (Bool-cases (is_cancellation e)) [
      | inl g ↦ rw g (inr (k e g refl))
      | inr g ↦ rw g (inl (failed-accounted row e l))
    ]

    row-accounted :
        (row : Row) (l : Loading O S)
        → (accounted (load_row net store r n d row l).result ≡ suc (accounted l.result))
          ⊎ Ended net done laws (load_row net store r n d row l).wire
    unfolding load_row
    row-accounted row l = elim (Result-cases (net.marshal row.fields)) [
      | inl (e, g) ↦ rw (g, load_row) (inl (failed-accounted row e l))
      | inr (body, g) ↦
          let (w, e) = send_with_retry net r row.id body l.wire in
          rw (g, load_row)
            (sent-accounted row (record l { wire = w }) e
              (λ cause c z.
                send_cancelled-Ended net done laws r row.id body l.wire w cause c
                  (ap (λ q. (w, q)) z)))
    ]

    sent-Ended :
        (row : Row) (l : Loading O S) (e : Option GoError)
        → Ended net done laws l.wire
        → Ended net done laws (sent_row net store r n d row l e).wire
    unfolding sent_row mark_row
    sent-Ended row l e h = ground arith

    row-Ended :
        (row : Row) (l : Loading O S)
        → Ended net done laws l.wire
        → Ended net done laws (load_row net store r n d row l).wire
    unfolding load_row
    row-Ended row l h = elim (Result-cases (net.marshal row.fields)) [
      | inl (e, g) ↦ rw (g, load_row) h
      | inr (body, g) ↦
          let (w, e) = send_with_retry net r row.id body l.wire in
          rw (g, load_row)
            (sent-Ended row (record l { wire = w }) e
              (send-Ended net done laws r row.id body l.wire h))
    ]

    rows-Ended :
        (rows : List Row) (l : Loading O S)
        → Ended net done laws l.wire
        → Ended net done laws (load_rows net store r n d rows l).wire
    unfolding load_rows
    rows-Ended [] l h = h
    rows-Ended (row ∷ rows) l h =
        rows-Ended rows (load_row net store r n d row l) (row-Ended row l h)

    rows-accounted :
        (rows : List Row) (l : Loading O S)
        → (accounted (load_rows net store r n d rows l).result ≡ length rows + accounted l.result)
          ⊎ Ended net done laws (load_rows net store r n d rows l).wire
    unfolding load_rows
    rows-accounted [] l = inl (omega arith)
    rows-accounted (row ∷ rows) l =
        let l' = load_row net store r n d row l in
        elim (row-accounted row l) [
          | inr h ↦ inr (rows-Ended rows l' h)
          | inl h ↦ elim (rows-accounted rows l') [ inr k ↦ inr k | inl k ↦ inl (omega arith) ]
        ]

  -- A first loop that was not stopped accounts for so many rows, with those that it leaves to send.
  abbrev Accounts : ℕ → Loading O S × Result (List Row) → Type 0
  Accounts k (l, err e) = Unit
  Accounts k (l, ok pending) = accounted l.result + length pending ≡ k

  Accounts-with_row :
      (k : ℕ) (row : Row) (p : Loading O S × Result (List Row))
      → Accounts k p
      → Accounts (suc k) (with_row net store r n d row p)
  Accounts-with_row k row (l, err e) h = tt
  Accounts-with_row k row (l, ok pending) h = omega arith

  Accounts-eq :
      {k m : ℕ} (p : Loading O S × Result (List Row)) → k ≡ m → Accounts k p → Accounts m p
  Accounts-eq p e h = subst (λ x. Accounts x p) e h

  pending-Accounts :
      (rows : List Row) (l : Loading O S)
      → Accounts (length rows + accounted l.result) (pending_rows net store r n d rows l)
  unfolding pending_rows
  pending-Accounts [] l = omega arith
  pending-Accounts (row ∷ rows) l =
      let (l', stop) = poll net l in
      elim (Option-cases stop) [
        | inr (e, g) ↦ rw (g, pending_rows) tt
        | inl g ↦ elim (Result-cases (store.is_delivered l'.store row.id n d)) [
          | inl (e, h) ↦
              rw (g, h, pending_rows)
                (Accounts-eq (pending_rows net store r n d rows (failed_row row e l'))
                  (omega (arith, failed-accounted row e l'))
                  (pending-Accounts rows (failed_row row e l')))
          | inr (delivered, h) ↦ elim (Bool-cases delivered) [
            | inl z ↦
                rw (g, h, z, pending_rows)
                  (Accounts-eq (pending_rows net store r n d rows (skip_row l')) (omega arith)
                    (pending-Accounts rows (skip_row l')))
            | inr z ↦
                rw (g, h, z, pending_rows)
                  (Accounts-eq (with_row net store r n d row (pending_rows net store r n d rows l'))
                    (omega arith)
                    (Accounts-with_row (length rows + accounted l'.result) row
                      (pending_rows net store r n d rows l') (pending-Accounts rows l')))
          ]
        ]
      ]

  module _ (done : O → Bool) (laws : ContextLaws net done) (order : List Row → List Row)
      (permutes : (rows : List Row) → length (order rows) ≡ length rows) where
    poll-none :
        (l l' : Loading O S)
        → poll net l ≡ (l', none)
        → (l'.result ≡ l.result) × ¬ Ended net done laws l.wire
    poll-none l l' h = (
      sym (ap (λ p. p.0.result) h),
      λ e. true-false (
          sym (laws.poll l.wire.outside e)
          ∙ sym (laws.poll_done l.wire.outside)
          ∙ ap (λ p. is_some p.1) h),
    )

    send-accounted :
        (k : ℕ) (p : Loading O S × Result (List Row)) (l : Loading O S)
        → Accounts k p
        → send_pending net store r n d order p ≡ (l, none)
        → accounted l.result ≡ k
    unfolding send_pending
    send-accounted k (l', err e) l a h = ground arith
    send-accounted k (l', ok []) l a h = sym (ap (λ p. accounted p.0.result) h) ∙ omega arith
    send-accounted k (l', ok (row ∷ rows)) l a h =
        let l'' = load_rows net store r n d (order (row ∷ rows)) l' in
        let (z, alive) = poll-none l'' l h in
        elim (rows-accounted done laws (order (row ∷ rows)) l') [
          | inr e ↦ absurd (alive e)
          | inl e ↦ ap accounted z ∙ e ∙ omega (arith, permutes (row ∷ rows))
        ]

none-some : (e : GoError) → ¬ (none ≡ some e)
none-some e h = ground arith

module _ {O S : Type 0} (net : Network O) (store : StateStore S) (r : RestApi) (n d : String)
    (order : List Row → List Row) (rows : List Row) (w : Wire O) (s : S) where
  pub load-stopped :
      (e : GoError)
      → (poll net (start w s)).1 ≡ some e
      → load net store r n d order rows w s ≡ ((poll net (start w s)).0, some e)
  unfolding load
  load-stopped e g = rw (g, load) refl

  pub load-started :
      (poll net (start w s)).1 ≡ none
      → load net store r n d order rows w s
        ≡ send_pending net store r n d order
            (pending_rows net store r n d rows (poll net (start w s)).0)
  unfolding load
  load-started g = rw (g, load) refl

-- If Load returns no error, it counts every row that it was given once: as loaded, as skipped or in
-- its errors. The goroutines may run in any order that runs each of them once, and the context behaves
-- as a context.
pub load-accounted :
    {O S : Type 0} (net : Network O) (store : StateStore S) (r : RestApi) (n d : String)
    (done : O → Bool)
    → ContextLaws net done
    → (order : List Row → List Row) → ((rows : List Row) → length (order rows) ≡ length rows)
    → (rows : List Row) (w : Wire O) (s : S) (l : Loading O S)
    → load net store r n d order rows w s ≡ (l, none)
    → l.result.loaded + l.result.skipped + length l.result.errors ≡ length rows
load-accounted net store r n d done laws order permutes rows w s l h =
    let (l1, stop) = poll net (start w s) in
    elim (Option-cases stop) [
      | inr (e, g) ↦ absurd (
          none-some e (
            sym (ap (λ p. p.1) h)
            ∙ ap (λ p. p.1) (load-stopped net store r n d order rows w s e g)))
      | inl g ↦
          send-accounted net store r n d done laws order permutes (length rows)
            (pending_rows net store r n d rows l1) l
            (Accounts-eq net store r n d (pending_rows net store r n d rows l1) (omega arith)
              (pending-Accounts net store r n d rows l1))
            (sym (load-started net store r n d order rows w s g) ∙ h)
    ]

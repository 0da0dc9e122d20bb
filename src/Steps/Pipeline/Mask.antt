-- ===== src/Steps/Pipeline/Mask.antt =====
-- Masked fields do not leave the pipeline.
use vortara.Base.{
  String, Bool, true, false, List, [], ◌∷◌, ◌++◌, none, some, lookup, insert, has, contains,
  lookup-insert, eq_iff, append_assoc, append-nil, ◌==◌, ◌≡◌, refl, ap, sym, ◌∙◌, subst, ◌⊎◌, inl,
  inr, arith, if◌then◌else◌, Bool-cases,
}
use vortara.Errors.{GoError, Result, ok, err, Result-cases}
use vortara.Runtime.{Runtime}
use vortara.Steps.Pipeline.{
  TransformStep, StepFn, mask_all, rename_all, add_all, drop_all, trim_fields, no_entries, mutating,
  unless, compiled, mutations, filtering, step_fns, join_fns, new, apply,
}
use vortara.Steps.Expr.{Expr}
use vortara.Steps.Parser.{parse_expr}
use vortara.Value.{Value, Payload, str}

-- The field is absent or shows "***".
abbrev pub IsMasked : String → Payload → Type 0
IsMasked f row = (lookup f row ≡ none) ⊎ (lookup f row ≡ some (str "***"))

err_ok : (x : GoError) (fns : List StepFn) → ¬ (err x ≡ ok fns)
err_ok x fns h = ground arith

true-false : ¬ (true ≡ false)
true-false h = ground arith

mask_one :
    (g f : String) (row : Payload)
    → IsMasked f row
    → IsMasked f (if has row g then insert g (str "***") row else row)
mask_one g f row h = ground (arith, lookup-insert g f (str "***") row)

mask_hit :
    (f : String) (row : Payload) → IsMasked f (if has row f then insert f (str "***") row else row)
mask_hit f row = ground (arith, lookup-insert f f (str "***") row, eq_iff f f)

mask_stays :
    (masks : List String) (f : String) (row : Payload)
    → IsMasked f row
    → IsMasked f (mask_all masks row)
unfolding mask_all
mask_stays [] f row h = h
mask_stays (g ∷ masks) f row h = mask_stays masks f _ (mask_one g f row h)

mask_all-IsMasked :
    (masks : List String) (f : String) (row : Payload)
    → contains masks f ≡ true
    → IsMasked f (mask_all masks row)
unfolding mask_all
mask_all-IsMasked [] f row h = absurd (ground arith)
mask_all-IsMasked (g ∷ masks) f row h = elim (Bool-cases (g == f)) [
  | inl e ↦ mask_stays masks f _ (
      subst (λ x. IsMasked f (if has row x then insert x (str "***") row else row))
        (sym ((eq_iff g f).0 e)) (mask_hit f row))
  | inr e ↦ mask_all-IsMasked masks f _ (ground arith)
]

-- The function is the last of the list.
abbrev Ends : StepFn → List StepFn → Type 0
Ends m fns = (pre : List StepFn) × (fns ≡ pre ++ m ∷ [])

Ends-append : (m : StepFn) (xs ys : List StepFn) → Ends m ys → Ends m (xs ++ ys)
Ends-append m xs ys (pre, e) = (xs ++ pre, ap (λ z. xs ++ z) e ∙ sym (append_assoc xs pre (m ∷ [])))

-- Where the row is kept, the last function made the result.
apply_last :
    (pre : List StepFn) (m : StepFn) (row out : Payload)
    → apply (pre ++ m ∷ []) row ≡ (out, true)
    → (mid : Payload) × ((m mid).0 ≡ out)
unfolding apply
apply_last [] m row out h = elim (Bool-cases (m row).1) [
  | inl k ↦ (row, ap (λ p. p.0) (sym (kept k) ∙ h))
  | inr k ↦ absurd (true-false (sym (ap (λ p. p.1) h) ∙ ap (λ p. p.1) (dropped k)))
]
  where
    kept : (m row).1 ≡ true → apply (m ∷ []) row ≡ ((m row).0, true)
    kept k = rw (k, apply) refl

    dropped : (m row).1 ≡ false → apply (m ∷ []) row ≡ ((m row).0, false)
    dropped k = rw (k, apply) refl
apply_last (f ∷ pre) m row out h = elim (Bool-cases (f row).1) [
  | inl k ↦ apply_last pre m (f row).0 out (sym (kept k) ∙ h)
  | inr k ↦ absurd (true-false (sym (ap (λ p. p.1) h) ∙ ap (λ p. p.1) (dropped k)))
]
  where
    kept : (f row).1 ≡ true → apply (f ∷ pre ++ m ∷ []) row ≡ apply (pre ++ m ∷ []) (f row).0
    kept k = rw (k, apply) refl

    dropped : (f row).1 ≡ false → apply (f ∷ pre ++ m ∷ []) row ≡ ((f row).0, false)
    dropped k = rw (k, apply) refl

unless-Ends : (m : StepFn) (absent : Bool) → absent ≡ false → Ends m (unless absent m)
unless-Ends m absent h = rw h ([], refl)

ok_same : (xs ys : List StepFn) → ok xs ≡ ok ys → xs ≡ ys
ok_same xs ys h = ground arith

some_entries :
    (masks : List String) (f : String) → contains masks f ≡ true → no_entries masks ≡ false
some_entries [] f h = absurd (ground arith)
some_entries (g ∷ masks) f h = refl

module _ (rt : Runtime) (add_value : String → Payload → Value)
    (flatten_into : String → Payload → Payload) where
  mutations-Ends :
      (step : TransformStep)
      → no_entries step.mask ≡ false
      → Ends (mutating (mask_all step.mask)) (mutations rt add_value flatten_into step)
  unfolding mutations
  mutations-Ends step h =
      let m = mutating (mask_all step.mask) in
      let g = unless (step.flatten == "") (mutating (flatten_into step.flatten)) in
      let t = unless (no_entries step.trim) (mutating (trim_fields step.trim)) in
      let d = unless (no_entries step.drop) (mutating (drop_all step.drop)) in
      let a = unless (no_entries step.add) (mutating (add_all add_value step.add)) in
      let n = unless (no_entries step.rename) (mutating (rename_all step.rename)) in
      let k = unless (no_entries step.mask) m in
      Ends-append m (n ++ a ++ d ++ t ++ g) k (unless-Ends m (no_entries step.mask) h)

  fns-Ends :
      (step : TransformStep) (fns : List StepFn)
      → no_entries step.mask ≡ false
      → step_fns rt add_value flatten_into step ≡ ok fns
      → Ends (mutating (mask_all step.mask)) fns
  unfolding step_fns
  fns-Ends step fns h e =
      let m = mutating (mask_all step.mask) in
      let muts = mutations rt add_value flatten_into step in
      let ends = mutations-Ends step h in
      elim (Bool-cases (step.filter == "")) [
        | inl g ↦ subst (λ x. Ends m x) (ok_same muts fns (sym (plain g) ∙ e)) ends
        | inr g ↦ elim (Result-cases (compiled (parse_expr rt step.filter))) [
          | inl (x, k) ↦ absurd (err_ok x fns (sym (refused g x k) ∙ e))
          | inr (x, k) ↦
              subst (λ x. Ends m x)
                (ok_same (filtering rt add_value flatten_into x ∷ muts) fns
                  (sym (filtered g x k) ∙ e))
                (Ends-append m (filtering rt add_value flatten_into x ∷ []) muts ends)
        ]
      ]
    where
      plain :
          (step.filter == "") ≡ true
          → step_fns rt add_value flatten_into step ≡ ok (mutations rt add_value flatten_into step)
      plain g = rw (g, step_fns) refl

      refused :
          (step.filter == "") ≡ false
          → (x : GoError) → compiled (parse_expr rt step.filter) ≡ err x
          → step_fns rt add_value flatten_into step ≡ err x
      refused g x k = rw (g, k, step_fns) refl

      filtered :
          (step.filter == "") ≡ false
          → (x : Expr) → compiled (parse_expr rt step.filter) ≡ ok x
          → step_fns rt add_value flatten_into step
            ≡ ok (filtering rt add_value flatten_into x ∷ mutations rt add_value flatten_into step)
      filtered g x k = rw (g, k, step_fns) refl

  join_cases :
      (a b : Result (List StepFn)) (fns : List StepFn)
      → join_fns rt add_value flatten_into a b ≡ ok fns
      → (xs ys : List StepFn) × (a ≡ ok xs) × (b ≡ ok ys) × (fns ≡ xs ++ ys)
  join_cases (err e) b fns h = absurd (ground arith)
  join_cases (ok xs) (err e) fns h = absurd (ground arith)
  join_cases (ok xs) (ok ys) fns h = (xs, ys, refl, refl, ground arith)

  new-Ends :
      (steps : List TransformStep) (step : TransformStep) (fns : List StepFn)
      → no_entries step.mask ≡ false
      → new rt add_value flatten_into (steps ++ step ∷ []) ≡ ok fns
      → Ends (mutating (mask_all step.mask)) fns
  unfolding new
  new-Ends [] step fns h e =
      let (xs, ys, a, b, c) = join_cases (step_fns rt add_value flatten_into step) (ok []) fns e in
      subst (λ x. Ends (mutating (mask_all step.mask)) x)
        (sym (append-nil xs) ∙ ap (λ z. xs ++ z) (ok_same [] ys b) ∙ sym c) (fns-Ends step xs h a)
  new-Ends (s ∷ steps) step fns h e =
      let (xs, ys, a, b, c) =
        join_cases (step_fns rt add_value flatten_into s)
          (new rt add_value flatten_into (steps ++ step ∷ [])) fns e in
      subst (λ x. Ends (mutating (mask_all step.mask)) x) (sym c)
        (Ends-append (mutating (mask_all step.mask)) xs ys (new-Ends steps step ys h b))

-- A field that the last step masks is absent from every row that the pipeline keeps, or shows "***",
-- however `add` expressions are evaluated and fields are flattened.
pub apply-IsMasked :
    (rt : Runtime) (add_value : String → Payload → Value)
    (flatten_into : String → Payload → Payload) (steps : List TransformStep) (step : TransformStep)
    (fns : List StepFn) (f : String) (row out : Payload)
    → new rt add_value flatten_into (steps ++ step ∷ []) ≡ ok fns
    → contains step.mask f ≡ true
    → apply fns row ≡ (out, true)
    → IsMasked f out
apply-IsMasked rt add_value flatten_into steps step fns f row out e h k =
    let (pre, z) =
      new-Ends rt add_value flatten_into steps step fns (some_entries step.mask f h) e in
    let (mid, y) =
      apply_last pre (mutating (mask_all step.mask)) row out (ap (λ x. apply x row) (sym z) ∙ k) in
    subst (λ x. IsMasked f x) y (mask_all-IsMasked step.mask f mid h)

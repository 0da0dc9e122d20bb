-- ===== src/State/Backends.antt =====
-- internal/state/registry.go: the factories of the state backends. A panic is an error.
use vortara.Base.{
  String, false, List, map, Option, none, some, Assoc, lookup, insert, has, ◌==◌, ◌≡◌, refl, ap,
  ◌∙◌, lookup-insert_self, if◌then◌else◌,
}
use vortara.Base.Sort.{sort_by, str_lt}
use vortara.Errors.{Result, ok, err, name_required, factory_nil, already_registered, unknown_type}
use vortara.Text.{trim_space}

-- stateConfig, of which no caller sets the prefix of the keys
pub record StateConfig : Type 0 where
  pub backend : String
  pub path : String
  pub connection : String

-- Factory, for stores of a type `A`
abbrev pub Factory : Type 0 → Type 0
Factory A = StateConfig → Result A

abbrev backend_kind : String
backend_kind = "state backend"

abbrev backend_or_default : String → String
backend_or_default backend = if trim_space backend == "" then "sqlite" else trim_space backend

module _ {A : Type 0} where
  -- Register, with nil for no factory
  unfoldable pub register_backend :
      String → Option (Factory A) → Assoc (Factory A) → Result (Assoc (Factory A))
  register_backend backend factory factories =
      if backend == "" then err (name_required backend_kind) else elim factory [
        | none ↦ err (factory_nil backend_kind)
        | some f ↦
            if has factories backend
            then err (already_registered backend_kind backend)
            else ok (insert backend f factories)
      ]

  -- List
  unfoldable pub list_backends : Assoc (Factory A) → List String
  list_backends factories = sort_by str_lt (map (λ e. e.0) factories)

  abbrev build_named : String → String → String → Assoc (Factory A) → Result A
  build_named name path connection factories = elim (lookup name factories) [
    | none ↦ err (unknown_type backend_kind name (list_backends factories))
    | some f ↦ f (record { backend = name; path = path; connection = connection })
  ]

  -- Build
  unfoldable pub build_store : String → String → String → Assoc (Factory A) → Result A
  unfolding trim_space list_backends
  build_store backend path connection factories =
      build_named (backend_or_default backend) path connection factories

kept_name :
    (backend : String)
    → (trim_space backend == "") ≡ false
    → backend_or_default backend ≡ trim_space backend
kept_name backend h = rw h refl

-- A store of a registered backend is what its factory makes of the configuration.
build_store-register :
    {A : Type 0} (backend path connection : String) (f : Factory A) (factories : Assoc (Factory A))
    → (trim_space backend == "") ≡ false
    → build_store backend path connection (insert (trim_space backend) f factories)
      ≡ f (record { backend = trim_space backend; path = path; connection = connection })
unfolding build_store
build_store-register backend path connection f factories h =
    ap (λ name. build_named name path connection (insert (trim_space backend) f factories))
      (kept_name backend h)
    ∙ rw (build_named, lookup-insert_self (trim_space backend) f factories) refl

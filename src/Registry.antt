-- ===== src/Registry.antt =====
-- internal/registry/registry.go: the factories of connectors by type name. A panic ends the program, so
-- it is an error of the registration; a factory may be nil.
pub mod Lookup
pub mod Tests
use vortara.Base.{
  String, Bool, true, false, List, [], ◌∷◌, Option, none, some, Assoc, lookup, insert, has, map,
  ◌==◌, if◌then◌else◌,
}
use vortara.Base.Sort.{sort_by, str_lt}
use vortara.Errors.{
  GoError, Result, ok, err, name_required, factory_nil, already_registered, unknown_type,
}

-- The three tables; `F` is the type of factories.
pub record Registry (F : Type 0) : Type 0 where
  pub batch_sources : Assoc F
  pub streaming_sources : Assoc F
  pub destinations : Assoc F

pub data Kind : Type 0 where
  batch_source streaming_source destination : Kind

abbrev pub kind_text : Kind → String
kind_text batch_source = "batch source"
kind_text streaming_source = "streaming source"
kind_text destination = "destination"

module _ {F : Type 0} where
  abbrev pub table : Kind → Registry F → Assoc F
  table batch_source r = r.batch_sources
  table streaming_source r = r.streaming_sources
  table destination r = r.destinations

  abbrev pub with_table : Kind → Assoc F → Registry F → Registry F
  with_table batch_source t r = record r { batch_sources = t }
  with_table streaming_source t r = record r { streaming_sources = t }
  with_table destination t r = record r { destinations = t }

  -- register
  unfoldable pub register : Kind → Registry F → String → Option F → Result (Registry F)
  register kind r type_name none =
      if type_name == ""
      then err (name_required (kind_text kind))
      else err (factory_nil (kind_text kind))
  register kind r type_name (some factory) =
      if type_name == ""
      then err (name_required (kind_text kind))
      else if has (table kind r) type_name
      then err (already_registered (kind_text kind) type_name)
      else ok (with_table kind (insert type_name factory (table kind r)) r)

  -- list
  unfoldable pub list : Kind → Registry F → List String
  list kind r = sort_by str_lt (map (λ e. e.0) (table kind r))

  -- GetBatchSource, GetStreamingSource and GetDestination, up to the call of the factory
  unfoldable pub get : Kind → Registry F → String → Result F
  unfolding list
  get kind r type_name = elim (lookup type_name (table kind r)) [
    | some factory ↦ ok factory
    | none ↦ err (unknown_type (kind_text kind) type_name (list kind r))
  ]

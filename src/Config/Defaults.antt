-- ===== src/Config/Defaults.antt =====
-- pkg/config/sync/load.go: the defaults of a specification that has been read. The fields that only the
-- defaults touch stand beside the sections that the engine reads.
use vortara.Base.{
  ℕ, zero, ℤ, pos, String, false, ◌==◌, ◌≡◌, refl, ap, if◌then◌else◌, Bool-cases, inl, inr,
}
use vortara.Config.{SyncSpec}
use vortara.Config.Validate.{validate, validate_choice, valid_actions, valid_on_error}

pub record SyncFile : Type 0 where
  pub sync : SyncSpec
  pub batch_size : ℤ
  pub backend : String
  pub path : String
  pub max_retries : ℤ

unfoldable pub or_text : String → String → String
or_text s d = if s == "" then d else s

abbrev pub or_number : ℤ → ℕ → ℤ
or_number (pos zero) d = pos d
or_number z d = z

-- applyDefaults; the path is asked for with the backend already set.
unfoldable pub apply_defaults : SyncFile → SyncFile
unfolding or_text
apply_defaults f = record {
  sync = record (f.sync) {
    decisions = record (f.sync.decisions) { default = or_text f.sync.decisions.default "skip" };
    errors = record (f.sync.errors) { on_error = or_text f.sync.errors.on_error "skip" };
    on_missing = record (f.sync.on_missing) {
      action = or_text f.sync.on_missing.action "skip";
      after_missing_runs = or_number f.sync.on_missing.after_missing_runs 1;
    };
  };
  batch_size = or_number f.batch_size 1000;
  backend = or_text f.backend "sqlite";
  path =
      if or_text f.backend "sqlite" == "sqlite" then or_text f.path "./state/sync.db" else f.path;
  max_retries = or_number f.max_retries 3;
}

or_text_kept : (s d : String) → (s == "") ≡ false → or_text s d ≡ s
unfolding or_text
or_text_kept s d g = rw (g, or_text) refl

choice-or_text_actions :
    (n s : String)
    → validate_choice n valid_actions (or_text s "skip") ≡ validate_choice n valid_actions s
unfolding validate_choice or_text
choice-or_text_actions n s = elim (Bool-cases (s == "")) [
  | inl g ↦ rw (g, validate_choice) refl
  | inr g ↦ ap (validate_choice n valid_actions) (or_text_kept s "skip" g)
]

choice-or_text_on_error :
    (n s : String)
    → validate_choice n valid_on_error (or_text s "skip") ≡ validate_choice n valid_on_error s
unfolding validate_choice or_text
choice-or_text_on_error n s = elim (Bool-cases (s == "")) [
  | inl g ↦ rw (g, validate_choice) refl
  | inr g ↦ ap (validate_choice n valid_on_error) (or_text_kept s "skip" g)
]

-- The defaults do not change what Validate says of a specification.
pub validate-apply_defaults : (f : SyncFile) → validate (apply_defaults f).sync ≡ validate f.sync
unfolding validate apply_defaults
validate-apply_defaults f =
    rw
      (
        choice-or_text_actions "sync.decisions.default" f.sync.decisions.default,
        choice-or_text_on_error "sync.errors.on_error" f.sync.errors.on_error,
      )
      refl

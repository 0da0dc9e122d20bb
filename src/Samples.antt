-- ===== src/Samples.antt =====
-- A small sync for the tests: contacts with a plan and a status, and a runtime whose floats are
-- natural numbers and whose hash is the text itself.
use vortara.Base.{◌/◌, pos, true, false, [], ◌∷◌, none, some, ltb, eqb}
use vortara.Config.{when, no_subs, nil_when, RuleConfig, DecisionsConfig, SyncSpec, SafetyConfig}
use vortara.Runtime.{Runtime}
use vortara.Value.{Payload, str}

abbrev pub rt : Runtime
rt = record {
  float_text = λ n. "f";
  time_json = λ n. "t";
  float_json = λ n. "f";
  float_eq = eqb;
  float_lt = ltb;
  float_of_nat = λ n. n;
  float_of_neg = λ n. n;
  float_div = λ a b. a / b;
  parse_float = λ s. none;
  time_text = λ n. "t";
  rfc3339 = λ n. "t";
  json_quote = λ s. s;
  sha256_hex = λ s. s;
}

abbrev pub before : Payload
before = ("plan", str "free") ∷ ("status", str "open") ∷ []

abbrev pub after : Payload
after = ("status", str "won") ∷ ("city", str "Rome") ∷ []

abbrev pub welcome : RuleConfig
welcome = record {
  name = "welcome";
  when = when true false none [] no_subs no_subs nil_when;
  once = true;
  action = "create";
  remember = [];
}

abbrev pub closed : RuleConfig
closed = record {
  name = "closed";
  when =
      when false false (some (record { field = "status"; from = "open"; to = "won" })) [] no_subs
        no_subs nil_when;
  once = true;
  action = "update";
  remember = ("seen", "yes") ∷ [];
}

abbrev pub decisions : DecisionsConfig
decisions = record { default = "skip"; rules = welcome ∷ closed ∷ [] }

abbrev pub safety : SafetyConfig
safety = record {
  max_creates_per_run = pos 1;
  max_updates_per_run = pos 5;
  max_deletes_per_run = pos 0;
  require_approval_above = 0;
  dry_run_required = false;
  block_if_changed_field_ratio_above = [];
  require_approval_for = "Create" ∷ [];
}

abbrev pub spec : SyncSpec
spec = record {
  name = "contacts";
  source = record { type = "csv"; url = "in.csv"; entity_key = "email"; has_watermark = false };
  mapping =
      record { source = "email"; dest = ""; exclude_from_fingerprint = false; redacted = true }
      ∷ record { source = "status"; dest = ""; exclude_from_fingerprint = false; redacted = false }
      ∷ [];
  required = "email" ∷ [];
  destination_type = "http";
  fingerprint = record { include = []; exclude = [] };
  decisions = decisions;
  on_missing = record {
    action = "skip";
    fields = [];
    after_missing_runs = pos 2;
    allow_destructive = false;
  };
  safety = safety;
  errors = record {
    on_error = "";
    dlq_path = "";
    dlq_path_new = "dlq.jsonl";
    failure_webhook_url = "";
  };
}

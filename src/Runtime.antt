-- ===== src/Runtime.antt =====
-- What the model takes from Go's runtime without defining it: float64 arithmetic on bit patterns,
-- the texts of floats and times, the quoting of JSON strings, and SHA-256 in hexadecimal.
use vortara.Base.{ℕ, String, Bool, Option}

pub record Runtime : Type 0 where
  pub float_text : ℕ → String
  pub time_json : ℕ → String
  pub float_json : ℕ → String
  pub float_eq : ℕ → ℕ → Bool
  pub float_lt : ℕ → ℕ → Bool
  pub float_of_nat : ℕ → ℕ
  pub float_of_neg : ℕ → ℕ
  pub float_div : ℕ → ℕ → ℕ
  pub parse_float : String → Option ℕ
  pub time_text : ℕ → String
  pub rfc3339 : ℕ → String
  pub json_quote : String → String
  pub sha256_hex : String → String

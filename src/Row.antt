-- ===== src/Row.antt =====
-- pkg/row/row.go: the record that sources emit and destinations consume. The context and the pool
-- of recycled rows are not modelled.
use vortara.Base.{ℕ, String}
use vortara.Value.{Payload}

pub record Row : Type 0 where
  pub id : String
  pub primary_key : String
  pub fields : Payload
  pub watermark : ℕ
  pub metadata : Payload

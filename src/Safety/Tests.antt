-- ===== src/Safety/Tests.antt =====
-- Tests of internal/safety.
use vortara.Base.{ℕ, [], ◌∷◌, Assoc}
use vortara.Safety.{RunCounts}

abbrev changes : Assoc ℕ
changes = ("status", 7) ∷ []

abbrev two_creates : RunCounts
two_creates = record { creates = 2; updates = 0; deletes = 0 }

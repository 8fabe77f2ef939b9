-- ===== src/Schema/Validation.antt =====
-- A rule set that src/rule-schema.ts lets pass is well formed.
use accountos.Prelude.{◌≤◌, Option, some, ℕ, none}
use accountos.Schema.Json.{Json}

-- What `read_between` gives is in the bounds.
Between : ℕ → ℕ → Option ℕ → Type 0
Between low high none = Unit
Between low high (some n) = (low ≤ n) × (n ≤ high)

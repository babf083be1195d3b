-- ===== src/Control/Results.antt =====
-- control/controlexecute/dimension.go, result_row.go, status_summary.go and the status constants.
-- `int` counters are unbounded: a run cannot produce 2^63 rows.
pub mod Row
mod Tests
use steampipe.Prelude.{String, ℕ, List, ◌+◌, ◌∷◌, if◌then◌else◌, ◌==◌, [], string_eq, Bool, any}

pub record Dimension : Type 0 where
  pub key : String
  pub value : String

pub record ResultRow : Type 0 where
  pub reason : String
  pub resource : String
  pub status : String
  pub dimensions : List Dimension

pub record StatusSummary : Type 0 where
  pub alarm : ℕ
  pub ok : ℕ
  pub info : ℕ
  pub skip : ℕ
  pub error : ℕ

abbrev pub no_results : StatusSummary
no_results = record { alarm = 0; ok = 0; info = 0; skip = 0; error = 0 }

unfoldable pub passed_count : StatusSummary → ℕ
passed_count s = s.ok + s.info

unfoldable pub failed_count : StatusSummary → ℕ
failed_count s = s.alarm + s.error

unfoldable pub total_count : StatusSummary → ℕ
total_count s = s.alarm + s.ok + s.info + s.skip + s.error

-- `GetDimensionValue`; a missing key gives the empty text.
unfoldable pub get_dimension_value : List Dimension → String → String
get_dimension_value [] key = ""
get_dimension_value (dim ∷ dims) key =
    if dim.key == key then dim.value else get_dimension_value dims key

-- `IsValidControlStatus`
unfoldable pub is_valid_control_status : String → Bool
is_valid_control_status status =
    any (λ s. s == status) ("ok" ∷ "alarm" ∷ "info" ∷ "error" ∷ "skip" ∷ [])

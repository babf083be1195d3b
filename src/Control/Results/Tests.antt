-- ===== src/Control/Results/Tests.antt =====
-- result_row.go: the theorem at a row with one dimension.
use steampipe.Prelude.{String, List, ◌∷◌, ◌≡◌, true, [], string_eq, Option, none, inl, refl}
use steampipe.Control.Results.{ResultRow, is_valid_control_status}
use steampipe.Control.Results.Row.{
  new_result_row, Column, validate_columns, add_cells, new_result_row-status, row_of, missing_of,
  column_types_contains_column, add_cell, add_dimension,
}

abbrev column : String → Column
column name = record { name = name; is_scalar = true }

abbrev cells : List (Column × String)
cells =
    (column "status", "ok")
    ∷ (column "region", "eu")
    ∷ (column "reason", "fine")
    ∷ (column "resource", "sg-1")
    ∷ []

abbrev fine : ResultRow
fine = record {
  reason = "fine";
  resource = "sg-1";
  status = "ok";
  dimensions = record { key = "region"; value = "eu" } ∷ [];
}

new_fine : new_result_row none cells ≡ inl fine
unfolding new_result_row row_of validate_columns missing_of column_types_contains_column add_cell
    add_dimension add_cells string_eq is_valid_control_status
new_fine = refl

new_result_row-status_example :
    (is_valid_control_status fine.status ≡ true)
    × (◌≡◌ {A = Option String} none none)
    × (validate_columns cells ≡ [])
new_result_row-status_example = new_result_row-status none cells fine new_fine

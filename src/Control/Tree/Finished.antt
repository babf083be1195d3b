-- ===== src/Control/Tree/Finished.antt =====
-- execution_tree.go: the end of `Execute`.

use steampipe.Control.Tree.{finish_execute, color_rows}
use steampipe.Control.Results.{failed_count, StatusSummary, ResultRow}
use steampipe.Control.Colors.{new_dimension_color_generator, DimensionColorGenerator}
use steampipe.Prelude.{List, ◌≡◌, ◌+◌, some, All, refl}
use steampipe.Control.Colors.Populate.{RowHasColors, new-IsValid, populate-Extends}

-- `Execute` returns the number of alarms and errors, and its colour generator serves each dimension
-- value of each row: the constructor accepts its start, and `populate` returns.
finish_execute-colors :
    (status : StatusSummary) (rows : List (List ResultRow))
    → ((finish_execute status rows).0 ≡ status.alarm + status.error)
      × ((h : DimensionColorGenerator) × ((finish_execute status rows).1 ≡ some h)
          × All (All (RowHasColors h)) rows)
unfolding finish_execute failed_count new_dimension_color_generator color_rows
finish_execute-colors status rows =
    let valid = (new-IsValid 4 27 _ (unfold new_dimension_color_generator in refl)).0 in
    let (h, returns, _, all) = populate-Extends _ rows valid in (refl, (h, returns, all))

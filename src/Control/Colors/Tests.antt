-- ===== src/Control/Colors/Tests.antt =====
use mathlib.Core.Option
-- Tests of the colour generator, and its theorems at concrete inputs.
-- The generator of `ExecutionTree.Execute`: row 4, column 27.
use steampipe.Control.Colors.{
  DimensionColorGenerator, new_dimension_color_generator, get_next_color, color_clashes,
  add_dimension_value, populate, get_current_color, color_code, is_forbidden, starting_column_range,
  starting_row_range,
}
use steampipe.Control.Colors.Next.{IsValid, Took, get_next_color-Took}
use steampipe.Control.Results.{Dimension, ResultRow}
use steampipe.Prelude.{List, ℕ, [], ◌≡◌, arith, inl, inr, ◌∷◌, some, refl, All}
use steampipe.Prelude.Dict.{lookup, insert}
use steampipe.Control.Colors.Distinct.{IsDistinct, add_dimension_value-IsDistinct}
use steampipe.Control.Colors.Positions.{is_column}
use steampipe.Control.Colors.Populate.{Extends, RowHasColors, populate-Extends}
use steampipe.Control.Colors.Loop.{AllTaken}

abbrev first : DimensionColorGenerator
first = record {
  color_map = [];
  starting_row = 4;
  starting_column = 27;
  allocated_color_codes = [];
  current_row = 4;
  current_column = 27;
}

new_first : new_dimension_color_generator 4 27 ≡ inl first
unfolding new_dimension_color_generator
new_first = refl

new_errors :
    (new_dimension_color_generator 4 15 ≡ inr starting_column_range)
    × (new_dimension_color_generator 6 27 ≡ inr starting_row_range)
unfolding new_dimension_color_generator
new_errors = (refl, refl)

first-IsValid : IsValid first
first-IsValid = omega arith

region : Dimension
region = record { key = "region"; value = "eu-west-1" }

account : Dimension
account = record { key = "account"; value = "12" }

abbrev rows : List (List ResultRow)
rows =
    (record { reason = "r"; resource = "b"; status = "ok"; dimensions = region ∷ account ∷ [] }
      ∷ [])
    ∷ (record { reason = "r"; resource = "c"; status = "ok"; dimensions = account ∷ [] } ∷ [])
    ∷ []

-- Row 1 and column 30, since 29 is forbidden.
next_first :
    Option.map (λ (r : ℕ × DimensionColorGenerator). r.0) (get_next_color 2 first) ≡ some 66
unfolding get_next_color steampipe.Control.Colors.next_column steampipe.Control.Colors.next_row
next_first = refl

get_next_color-Took_example :
    (color : ℕ) × (h : DimensionColorGenerator) × (get_next_color 2 first ≡ some (color, h))
    × Took first color h
get_next_color-Took_example = get_next_color-Took first first-IsValid

populate-Extends_example :
    (h : DimensionColorGenerator) × (populate first rows ≡ some h)
    × Extends first h
    × All (All (RowHasColors h)) rows
populate-Extends_example = populate-Extends first rows first-IsValid

first-IsDistinct : IsDistinct first
unfolding lookup
first-IsDistinct = record { different = λ d e c p q. cc; taken = λ d c p. cc }

first-free : ¬ AllTaken first
unfolding color_clashes is_column is_forbidden
first-free all = cc (all 1 21 refl refl)

abbrev second : DimensionColorGenerator
second = record {
  color_map = ("region", ("eu-west-1", 66) ∷ []) ∷ [];
  starting_row = 4;
  starting_column = 27;
  allocated_color_codes = 66 ∷ [];
  current_row = 1;
  current_column = 30;
}

add_region : add_dimension_value first region ≡ some second
unfolding add_dimension_value region insert lookup steampipe.Control.Colors.next_column
    steampipe.Control.Colors.next_row
add_region = refl

add_dimension_value-IsDistinct_example : IsDistinct second
add_dimension_value-IsDistinct_example =
    add_dimension_value-IsDistinct first second region first-IsValid first-IsDistinct first-free
      add_region

-- ===== src/Control/Colors.antt =====
-- control/controlexecute/dimension_color_map.go: colours for the values of dimensions.
-- A colour is a uint8; `u8` keeps the wrap-around. Each `for` loop takes fuel, which is enough:
-- `next_column` always leaves its loop by the test, and `Search` never runs out (child modules).
-- The map of forbidden columns is never changed, so it is a constant and no field.
pub mod Positions
pub mod Loop
pub mod Next
pub mod Populate
pub mod Distinct
mod Tests
use steampipe.Prelude.Dict.{Dict, lookup, insert}
use steampipe.Prelude.{
  ℕ, List, [], Option, String, ◌%◌, ◌∷◌, Bool, ◌⊎◌, ◌+◌, suc, some, none, any, if◌then◌else◌, ◌*◌,
  ◌++◌, zero, false, string_eq, ◌==◌, ltb, nat_eq, ◌||◌, ◌-◌, inr, inl, eqb,
}
use steampipe.Control.Results.{Dimension, ResultRow}
use steampipe.Prelude.Options.{is_some, ◌>>=◌}

pub data ColorError : Type 0 where
  starting_column_range starting_row_range : ColorError

pub record DimensionColorGenerator : Type 0 where
  pub color_map : Dict String (Dict String ℕ)
  pub starting_row : ℕ
  pub starting_column : ℕ
  pub allocated_color_codes : List ℕ
  pub current_row : ℕ
  pub current_column : ℕ

abbrev pub u8 : ℕ → ℕ
u8 n = n % 256

abbrev pub min_column : ℕ
min_column = 16

abbrev pub max_column : ℕ
max_column = 51

abbrev pub max_row : ℕ
max_row = 5

abbrev pub forbidden_columns : List ℕ
forbidden_columns =
    16 ∷ 17 ∷ 18 ∷ 19 ∷ 20 ∷ 22 ∷ 23 ∷ 27 ∷ 28 ∷ 29 ∷ 34 ∷ 35 ∷ 36 ∷ 40 ∷ 41 ∷ 42 ∷ 46 ∷ 47 ∷ 48
    ∷ 49 ∷ []

-- forbiddenColumns[c]
unfoldable pub is_forbidden : ℕ → Bool
is_forbidden c = any (λ f. eqb f c) forbidden_columns

-- The assignments of `reset`.
unfoldable pub reset : DimensionColorGenerator → DimensionColorGenerator
reset g = record g {
  current_row = g.starting_row;
  current_column = g.starting_column;
  allocated_color_codes = [];
}

-- `startingRow < minRow` never holds of a uint8, since `minRow` is 0.
unfoldable pub new_dimension_color_generator : ℕ → ℕ → DimensionColorGenerator ⊎ ColorError
unfolding reset
new_dimension_color_generator starting_row starting_column =
    if ltb starting_column min_column || ltb max_column starting_column
    then inr starting_column_range
    else if ltb max_row starting_row
    then inr starting_row_range
    else inl (
        reset (record {
          color_map = [];
          starting_row = starting_row;
          starting_column = starting_column;
          allocated_color_codes = [];
          current_row = 0;
          current_column = 0;
        }))

unfoldable pub next_row : ℕ → ℕ → ℕ
next_row increment row =
    let r = u8 (row + increment) in if ltb max_row r then u8 (r + 256 - max_row) else r

-- `for ; g.forbiddenColumns[g.currentColumn]; g.currentColumn++`
unfoldable pub skip_forbidden : ℕ → ℕ → ℕ
unfolding is_forbidden
skip_forbidden zero column = column
skip_forbidden (suc fuel) column =
    let rest = skip_forbidden fuel (u8 (column + 1)) in if is_forbidden column then rest else column

unfoldable pub next_column : ℕ → ℕ → ℕ
unfolding skip_forbidden
next_column increment column =
    let c = u8 (column + increment) in
    skip_forbidden 256
      (if ltb max_column c then u8 (c + 256 - (max_column - min_column + 1)) else c)

unfoldable pub increment_current_row : ℕ → DimensionColorGenerator → DimensionColorGenerator
increment_current_row increment g = record g { current_row = next_row increment g.current_row }

unfoldable pub increment_current_column : ℕ → DimensionColorGenerator → DimensionColorGenerator
increment_current_column increment g = record g {
  current_column = next_column increment g.current_column;
}

abbrev pub color_code : ℕ → ℕ → ℕ
color_code row column = u8 (column + u8 (row * 36))

abbrev pub get_current_color : DimensionColorGenerator → ℕ
get_current_color g = color_code g.current_row g.current_column

unfoldable pub color_clashes : DimensionColorGenerator → ℕ → Bool
color_clashes g color = any (λ a. eqb a color) g.allocated_color_codes

-- How the loop of `getNextColor` ends: at a free colour, or back at the colour it began with.
pub data Search : Type 0 where
  found : ℕ → DimensionColorGenerator → Search
  exhausted : DimensionColorGenerator → Search
  out_of_fuel : Search

-- One round of the loop's increments.
unfoldable pub advance : ℕ → DimensionColorGenerator → DimensionColorGenerator
unfolding increment_current_row increment_current_column
advance increment g = increment_current_row increment (increment_current_column increment g)

unfoldable pub search_from : ℕ → ℕ → ℕ → DimensionColorGenerator → Search
unfolding color_clashes advance
search_from zero orig_color color g = out_of_fuel
search_from (suc fuel) orig_color color g =
    let next = advance 1 g in
    let rest = search_from fuel orig_color (get_current_color next) next in
    if color_clashes g color
    then (if eqb (get_current_color next) orig_color then exhausted next else rest)
    else found color g

-- There are 80 colours to try.
abbrev pub colors : ℕ
colors = 80

unfoldable pub settle :
    (DimensionColorGenerator → Option (ℕ × DimensionColorGenerator))
    → Search
    → Option (ℕ × DimensionColorGenerator)
settle again (found color g) =
    some (color, record g { allocated_color_codes = g.allocated_color_codes ++ color ∷ [] })
settle again (exhausted g) = again (reset g)
settle again out_of_fuel = none

-- `getNextColor`, with fuel for the call of itself after a reset.
unfoldable pub get_next_color : ℕ → DimensionColorGenerator → Option (ℕ × DimensionColorGenerator)
unfolding advance search_from settle
get_next_color zero g = none
get_next_color (suc depth) g =
    let start = advance 2 g in
    let color = get_current_color start in
    settle (get_next_color depth) (search_from colors color color start)

-- A nil map reads as an empty one.
abbrev pub or_empty : Option (Dict String ℕ) → Dict String ℕ
or_empty none = []
or_empty (some m) = m

-- g.Map[d.Key]
abbrev pub dimension_map_of : DimensionColorGenerator → String → Dict String ℕ
dimension_map_of g key = or_empty (lookup key g.color_map)

abbrev holds_value : String → Option (Dict String ℕ) → Bool
holds_value value none = false
holds_value value (some m) = is_some (lookup value m)

unfoldable pub has_dimension_value : DimensionColorGenerator → Dimension → Bool
has_dimension_value g d = holds_value d.value (lookup d.key g.color_map)

abbrev pub store : Dimension → ℕ × DimensionColorGenerator → DimensionColorGenerator
store d (color, g) = record g {
  color_map = insert d.key (insert d.value color (dimension_map_of g d.key)) g.color_map;
}

unfoldable pub add_dimension_value :
    DimensionColorGenerator → Dimension → Option DimensionColorGenerator
unfolding get_next_color
add_dimension_value g d = do colored ← get_next_color 2 g; some (store d colored)

-- The loops of `populate`, over the rows of the control runs.
unfoldable pub populate_dimensions :
    DimensionColorGenerator → List Dimension → Option DimensionColorGenerator
unfolding has_dimension_value add_dimension_value
populate_dimensions g [] = some g
populate_dimensions g (d ∷ dims) =
    if has_dimension_value g d
    then populate_dimensions g dims
    else (do g' ← add_dimension_value g d; populate_dimensions g' dims)

unfoldable pub populate_rows :
    DimensionColorGenerator → List ResultRow → Option DimensionColorGenerator
populate_rows g [] = some g
populate_rows g (row ∷ rows) = do g' ← populate_dimensions g row.dimensions; populate_rows g' rows

-- Each run is given by its rows.
unfoldable pub populate :
    DimensionColorGenerator → List (List ResultRow) → Option DimensionColorGenerator
populate g [] = some g
populate g (rows ∷ runs) = do g' ← populate_rows g rows; populate g' runs

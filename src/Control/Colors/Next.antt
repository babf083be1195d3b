-- ===== src/Control/Colors/Next.antt =====
-- dimension_color_map.go: what a call of `getNextColor` returns.
use steampipe.Control.Colors.{
  DimensionColorGenerator, Search, found, exhausted, out_of_fuel, search_from, color_clashes,
  advance, color_code, get_current_color, next_row, suc, next_column, colors, inr, inl, max_row,
  min_column, max_column, reset, is_forbidden, settle, get_next_color,
}
use steampipe.Prelude.{
  ℕ, ◌≡◌, true, false, ap, suc, arith, refl, ◌∙◌, ◌≤◌, sym, ◌++◌, ◌∷◌, subst, [], ◌⊎◌, Option, some,
}
use steampipe.Control.Colors.Positions.{
  is_row, is_column, column_range, next_row_valid, next_column_valid,
}
use steampipe.Prelude.Range.{iter}
use steampipe.Control.Colors.Loop.{
  walk, walk_lem, IsPlaced, AllTaken, SearchOk, search-ok, AllTaken-exhausted, row_stays,
  column_stays,
}

-- The generator's fields hold a starting place and a current place of the palette.
pub record IsValid (g : DimensionColorGenerator) : Type 0 where
  pub starting_row_in : g.starting_row ≤ max_row
  pub starting_column_in : (min_column ≤ g.starting_column) × (g.starting_column ≤ max_column)
  pub row_in : g.current_row ≤ max_row
  pub column_in : (min_column ≤ g.current_column) × (g.current_column ≤ max_column)

pub advance-IsPlaced : (g : DimensionColorGenerator) → IsValid g → IsPlaced (advance 2 g)
unfolding advance
advance-IsPlaced g v = record {
  row_in = (next_row_valid g.current_row v.row_in).0;
  column_in = (next_column_valid g.current_column v.column_in.0 v.column_in.1).1;
}

-- One of the 80 colours: a row from 1 to 5 and a column that is not forbidden.
abbrev pub InPalette : ℕ → Type 0
InPalette color =
    (r : ℕ) × (c : ℕ) × (is_row r ≡ true) × (is_column c ≡ true) × (color ≡ color_code r c)

-- A call of `getNextColor` gives a colour of the palette that was free, and takes it; if none was
-- free, it forgets all colours first. Nothing else changes but the place.
pub record Took (g : DimensionColorGenerator) (color : ℕ) (h : DimensionColorGenerator)
    : Type 0 where
  pub in_palette : InPalette color
  pub valid : IsValid h
  pub same_map : h.color_map ≡ g.color_map
  pub taken :
      ((color_clashes g color ≡ false)
        × (h.allocated_color_codes ≡ g.allocated_color_codes ++ color ∷ []))
      ⊎ (AllTaken g × (h.allocated_color_codes ≡ color ∷ []))

abbrev take : ℕ → DimensionColorGenerator → DimensionColorGenerator
take color h = record h { allocated_color_codes = h.allocated_color_codes ++ color ∷ [] }

module _ (g : DimensionColorGenerator) (v : IsValid g) where
  abbrev start : DimensionColorGenerator
  start = advance 2 g

  -- The generator after `k` rounds from the start.
  abbrev walked : ℕ → DimensionColorGenerator
  walked k = record g {
    current_row = iter (next_row 1) k start.current_row;
    current_column = iter (next_column 1) k start.current_column;
  }

  walked-eq-walk : (k : ℕ) → walked k ≡ walk k start
  unfolding advance
  walked-eq-walk k = sym (walk_lem k start)

  clashes-start : (color : ℕ) → color_clashes start color ≡ color_clashes g color
  unfolding advance color_clashes
  clashes-start color = refl

  walked-placed :
      (k : ℕ)
      → (is_row (walked k).current_row ≡ true) × (is_column (walked k).current_column ≡ true)
  walked-placed k =
      let here = advance-IsPlaced g v in
      (
        row_stays k start.current_row here.row_in,
        column_stays k start.current_column here.column_in,
      )

  walked-IsValid : (k : ℕ) → IsValid (walked k)
  walked-IsValid k =
      let (row_in, column_in) = walked-placed k in
      record {
        starting_row_in = v.starting_row_in;
        starting_column_in = v.starting_column_in;
        row_in = ground arith;
        column_in = column_range (walked k).current_column column_in;
      }

  found-Took :
      (color : ℕ) (h : DimensionColorGenerator)
      → SearchOk start (found color h)
      → Took g color (take color h)
  found-Took color h (k, at_k, code, free) =
      let (row_in, column_in) = walked-placed k in
      let ok = walked-IsValid k in
      subst (λ w. Took g color (take color w)) (walked-eq-walk k ∙ sym at_k)
        (record {
          in_palette = ((walked k).current_row, (walked k).current_column, row_in, column_in, code);
          valid = record {
            starting_row_in = ok.starting_row_in;
            starting_column_in = ok.starting_column_in;
            row_in = ok.row_in;
            column_in = ok.column_in;
          };
          same_map = refl;
          taken = inl (sym (clashes-start color) ∙ free, refl);
        })

  -- What a reset leaves when every colour was taken.
  exhausted-reset :
      (h : DimensionColorGenerator)
      → SearchOk start (exhausted h)
      → AllTaken g × IsValid (reset h) × (h.color_map ≡ g.color_map)
  unfolding reset
  exhausted-reset h ok =
      let all = AllTaken-exhausted start h (advance-IsPlaced g v) ok in
      let same = walked-eq-walk ok.0 ∙ sym ok.1 in
      (
        λ r c hr hc. sym (clashes-start (color_code r c)) ∙ all r c hr hc,
        subst (λ w. IsValid (reset w)) same
            (record {
              starting_row_in = v.starting_row_in;
              starting_column_in = v.starting_column_in;
              row_in = v.starting_row_in;
              column_in = v.starting_column_in;
            }),
        sym (ap (λ (w : DimensionColorGenerator). w.color_map) same),
      )

abbrev Result : Type 0
Result = Option (ℕ × DimensionColorGenerator)

-- A generator without a taken colour finds one at once.
module _ (g : DimensionColorGenerator) (v : IsValid g) (empty : g.allocated_color_codes ≡ []) where
  not-AllTaken : AllTaken g → ⊥
  unfolding color_clashes is_column is_forbidden
  not-AllTaken all =
      let free : color_clashes g (color_code 1 21) ≡ false = rw empty in
      cc (sym free ∙ all 1 21 refl refl)

  settle_empty :
      (again : DimensionColorGenerator → Result) (s : Search)
      → SearchOk (start g v) s
      → (color : ℕ) × (h : DimensionColorGenerator) × (settle again s ≡ some (color, h))
        × Took g color h
  unfolding settle
  settle_empty again (found color h) ok = (color, take color h, refl, found-Took g v color h ok)
  settle_empty again (exhausted h) ok = absurd (not-AllTaken (exhausted-reset g v h ok).0)
  settle_empty again out_of_fuel ok = elim ok [ ]

  next_empty :
      (depth : ℕ)
      → (color : ℕ) × (h : DimensionColorGenerator) × (get_next_color (suc depth) g
          ≡ some (color, h))
        × Took g color h
  unfolding get_next_color
  next_empty depth =
      settle_empty (get_next_color depth)
        (search_from colors (get_current_color (start g v)) (get_current_color (start g v))
          (start g v))
        (search-ok (start g v) (advance-IsPlaced g v))

-- What is taken after a reset, told of the generator before it.
Took-reset :
    (g h w : DimensionColorGenerator) (color : ℕ)
    → AllTaken g
    → h.color_map ≡ g.color_map
    → Took (reset h) color w
    → Took g color w
unfolding reset
Took-reset g h w color all same t = record {
  in_palette = t.in_palette;
  valid = t.valid;
  same_map = t.same_map ∙ same;
  taken = inr (all, elim t.taken [ inl a ↦ a.1 | inr a ↦ a.1 ]);
}

settle_lem :
    (g : DimensionColorGenerator) (v : IsValid g) (s : Search)
    → SearchOk (start g v) s
    → (color : ℕ) × (h : DimensionColorGenerator) × (settle (get_next_color 1) s ≡ some (color, h))
      × Took g color h
unfolding settle
settle_lem g v (found color h) ok = (color, take color h, refl, found-Took g v color h ok)
settle_lem g v (exhausted h) ok =
    let (all, valid, same) = exhausted-reset g v h ok in
    let (color, w, runs, t) = next_empty (reset h) valid (unfold reset in refl) 0 in
    (color, w, runs, Took-reset g h w color all same t)
settle_lem g v out_of_fuel ok = elim ok [ ]

-- From a valid generator `getNextColor` returns, within the fuel: a colour of the palette that was
-- not taken and is taken afterwards, or, if all 80 colours were taken, one that is afterwards the
-- only one taken. The generator stays valid and the stored colours are not touched.
pub get_next_color-Took :
    (g : DimensionColorGenerator)
    → IsValid g
    → (color : ℕ) × (h : DimensionColorGenerator) × (get_next_color 2 g ≡ some (color, h))
      × Took g color h
unfolding get_next_color
get_next_color-Took g v =
    let s = start g v in
    settle_lem g v (search_from colors (get_current_color s) (get_current_color s) s)
      (search-ok s (advance-IsPlaced g v))

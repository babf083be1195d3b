-- ===== src/Control/Colors/Loop.antt =====
-- dimension_color_map.go: how the loop of `getNextColor` ends.
use steampipe.Control.Colors.{
  DimensionColorGenerator, Search, found, exhausted, out_of_fuel, search_from, color_clashes,
  advance, color_code, get_current_color, next_row, suc, next_column, colors, inr, inl,
}
use steampipe.Prelude.{
  ℕ, ◌≡◌, true, false, ◌<◌, ◌+◌, ap, suc, zero, arith, refl, eqb, Bool-cases, ◌∙◌, ◌≤◌, sym,
  eqb_iff, ◌-◌, subst,
}
use steampipe.Control.Colors.Positions.{
  is_row, is_column, row_period, column_period, column_range, next_row_valid, next_column_valid,
  steps, steps_lem,
}
use steampipe.Prelude.Range.{iter, iter-add}
use native.Mathlib.Decide.{ℕ_discrete, dec_lt}
use mathlib.Core.Path.{ap₂}

-- The generator after `k` rounds of the loop's increments.
abbrev pub walk : ℕ → DimensionColorGenerator → DimensionColorGenerator
walk k g = iter (advance 1) k g

pub record IsPlaced (g : DimensionColorGenerator) : Type 0 where
  pub row_in : is_row g.current_row ≡ true
  pub column_in : is_column g.current_column ≡ true

-- The loop moves the row and the column and nothing else.
pub walk_lem :
    (k : ℕ) (g : DimensionColorGenerator)
    → walk k g ≡ record g {
      current_row = iter (next_row 1) k g.current_row;
      current_column = iter (next_column 1) k g.current_column;
    }
unfolding iter advance
walk_lem zero g = refl
walk_lem (suc k) g = ap (advance 1) (walk_lem k g)

-- The colour after `k` rounds.
abbrev pub code_at : ℕ → DimensionColorGenerator → ℕ
code_at k g =
    color_code (iter (next_row 1) k g.current_row) (iter (next_column 1) k g.current_column)

color_walk : (k : ℕ) (g : DimensionColorGenerator) → get_current_color (walk k g) ≡ code_at k g
color_walk k g = ap get_current_color (walk_lem k g)

clashes_walk :
    (k : ℕ) (g : DimensionColorGenerator) (color : ℕ)
    → color_clashes (walk k g) color ≡ color_clashes g color
unfolding color_clashes
clashes_walk k g color = rw (walk_lem k g)

code-period : (g : DimensionColorGenerator) → IsPlaced g → code_at 80 g ≡ get_current_color g
code-period g h = rw (row_period g.current_row h.row_in, column_period g.current_column h.column_in)

-- A colour of the palette is taken.
abbrev pub AllTaken : DimensionColorGenerator → Type 0
AllTaken g =
    (r c : ℕ) → is_row r ≡ true → is_column c ≡ true → color_clashes g (color_code r c) ≡ true

abbrev pub SearchOk : DimensionColorGenerator → Search → Type 0
SearchOk g (found color h) =
    (k : ℕ) × (h ≡ walk k g) × (color ≡ code_at k g) × (color_clashes g color ≡ false)
SearchOk g (exhausted h) =
    (k : ℕ) × (h ≡ walk k g)
    × (0 < k)
    × (code_at k g ≡ get_current_color g)
    × ((j : ℕ) → j < k → color_clashes g (code_at j g) ≡ true)
SearchOk g out_of_fuel = ⊥

clash_step :
    (g : DimensionColorGenerator) (k : ℕ)
    → ((j : ℕ) → j < k → color_clashes g (code_at j g) ≡ true)
    → color_clashes g (code_at k g) ≡ true
    → (j : ℕ) → j < suc k
    → color_clashes g (code_at j g) ≡ true
clash_step g k before now j h = elim (ℕ_discrete j k) [
  | yes e ↦ rw e now
  | no d ↦ before j (omega arith)
]

-- After the last round the colour is the one that the loop began with.
more_rounds :
    (g : DimensionColorGenerator) (fuel k : ℕ)
    → IsPlaced g
    → suc fuel + k ≡ 80
    → eqb (get_current_color (walk (suc k) g)) (get_current_color g) ≡ false
    → 0 < fuel
more_rounds g (suc fuel) k placed sum onward = omega arith
more_rounds g zero k placed sum onward =
    let home =
      color_walk (suc k) g
      ∙ ap (λ (n : ℕ). code_at n g) {x = suc k} {y = 80} (omega arith)
      ∙ code-period g placed in
    cc (sym onward ∙ (eqb_iff _ _).1 home)

module _ (g : DimensionColorGenerator) (placed : IsPlaced g) where
  search_from-ok :
      (fuel k : ℕ)
      → fuel + k ≡ 80
      → 0 < fuel
      → ((j : ℕ) → j < k → color_clashes g (code_at j g) ≡ true)
      → SearchOk g
          (search_from fuel (get_current_color g) (get_current_color (walk k g)) (walk k g))
  unfolding search_from iter
  search_from-ok zero k sum pos before = elim pos [ ]
  search_from-ok (suc fuel) k sum pos before =
      let color = get_current_color (walk k g) in
      let here = color_walk k g in
      let same = clashes_walk k g color in
      elim (Bool-cases (color_clashes (walk k g) color)) [
        | inr free ↦ rw free (k, refl, here, sym same ∙ free)
        | inl taken ↦
            let before' =
              clash_step g k before (ap (color_clashes g) (sym here) ∙ sym same ∙ taken) in
            rw taken
              (elim (Bool-cases (eqb (get_current_color (walk (suc k) g)) (get_current_color g))) [
                | inl back ↦ rw back (
                  suc k,
                  refl,
                  omega arith,
                  sym (color_walk (suc k) g) ∙ (eqb_iff _ _).0 back,
                  before',
                )
                | inr onward ↦ rw onward (
                    search_from-ok fuel (suc k) (omega arith)
                      (more_rounds g fuel k placed sum onward) before')
              ])
      ]

  -- The loop of `getNextColor` ends within its fuel.
  pub search-ok : SearchOk g (search_from colors (get_current_color g) (get_current_color g) g)
  unfolding iter
  search-ok = search_from-ok 80 0 refl (omega arith) (λ j h. absurd (omega arith))

-- Two places with the same colour are the same place.
color_injective :
    (r c r' c' : ℕ)
    → is_row r ≡ true
    → is_column c ≡ true
    → is_row r' ≡ true
    → is_column c' ≡ true
    → color_code r c ≡ color_code r' c'
    → (r ≡ r') × (c ≡ c')
color_injective r c r' c' hr hc hr' hc' e =
    let a = column_range c hc in
    let b = column_range c' hc' in
    let i : r ≤ 5 = ground arith in let j : r' ≤ 5 = ground arith in omega arith

pub row_stays : (k r : ℕ) → is_row r ≡ true → is_row (iter (next_row 1) k r) ≡ true
unfolding iter
row_stays zero r h = h
row_stays (suc k) r h =
    let i = row_stays k r h in (next_row_valid (iter (next_row 1) k r) (ground arith)).1 i

pub column_stays : (k c : ℕ) → is_column c ≡ true → is_column (iter (next_column 1) k c) ≡ true
unfolding iter
column_stays zero c h = h
column_stays (suc k) c h =
    let range = column_range (iter (next_column 1) k c) (column_stays k c h) in
    (next_column_valid (iter (next_column 1) k c) range.0 range.1).0

iter-return : (f : ℕ → ℕ) (k j x : ℕ) → iter f k x ≡ x → k ≤ j → iter f j x ≡ iter f (j - k) x
iter-return f k j x back h =
    ap (λ (n : ℕ). iter f n x) {x = j} {y = j - k + k} (omega arith)
    ∙ iter-add f (j - k) k x
    ∙ ap (iter f (j - k)) back

-- If the walk is back at its place after `k` rounds that all clash, every round clashes.
module _ (g : DimensionColorGenerator) (k : ℕ)
    (row_back : iter (next_row 1) k g.current_row ≡ g.current_row)
    (column_back : iter (next_column 1) k g.current_column ≡ g.current_column) (moved : 0 < k)
    (before : (j : ℕ) → j < k → color_clashes g (code_at j g) ≡ true) where
  clash_always : (n j : ℕ) → j < n → color_clashes g (code_at j g) ≡ true
  clash_always zero j h = absurd (omega arith)
  clash_always (suc n) j h = elim (dec_lt j k) [
    | yes first ↦ before j first
    | no later ↦
        rw
          (
            iter-return (next_row 1) k j g.current_row row_back (omega arith),
            iter-return (next_column 1) k j g.current_column column_back (omega arith),
          )
          (clash_always n (j - k) (omega arith))
  ]

-- If the loop comes back to its first colour, every colour of the palette is taken.
pub AllTaken-exhausted :
    (g h : DimensionColorGenerator) → IsPlaced g → SearchOk g (exhausted h) → AllTaken g
AllTaken-exhausted g h placed (k, _, moved, back, before) r c hr hc =
    let (row_back, column_back) =
      color_injective _ _ g.current_row g.current_column (row_stays k g.current_row placed.row_in)
        (column_stays k g.current_column placed.column_in) placed.row_in placed.column_in back in
    let n = steps g.current_row g.current_column r c in
    let (to_row, to_column) =
      steps_lem g.current_row g.current_column r c placed.row_in placed.column_in hr hc in
    let taken = clash_always g k row_back column_back moved before (suc n) n (omega arith) in
    subst (λ color. color_clashes g color ≡ true) (ap₂ color_code to_row to_column) taken

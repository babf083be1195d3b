-- ===== src/Control/Colors/Positions.antt =====
-- dimension_color_map.go: the rows and columns that the generator visits, checked value by value.
use steampipe.Control.Colors.{
  next_row, next_column, is_forbidden, min_column, max_column, max_row, suc,
}
use steampipe.Prelude.{
  ℕ, Bool, leb, not, ◌&&◌, ◌||◌, ◌≡◌, true, refl, nat_eq, eqb, ◌*◌, if◌then◌else◌, ◌-◌, zero, ◌+◌,
  ◌%◌, arith, ◌≤◌, eqb_iff, ◌<◌, ap, sym, ◌∙◌,
}
use steampipe.Prelude.Range.{all_below, iter, all_below_sound, iter-add}

abbrev pub is_row : ℕ → Bool
is_row r = leb 1 r && leb r max_row

unfoldable pub is_column : ℕ → Bool
is_column c = leb min_column c && leb c max_column && not (is_forbidden c)

implies : Bool → Bool → Bool
implies a b = not a || b

columns_table :
    all_below 52
      (λ c. implies (leb 16 c) (is_column (next_column 1 c) && is_column (next_column 2 c)))
    ≡ true
unfolding all_below implies is_column next_column nat_eq
columns_table = refl

rows_table :
    all_below 6 (λ r. is_row (next_row 2 r) && implies (is_row r) (is_row (next_row 1 r))) ≡ true
unfolding all_below implies next_row
rows_table = refl

period_table : all_below 52 (λ c. implies (is_column c) (eqb (iter (next_column 1) 80 c) c)) ≡ true
unfolding all_below implies is_column next_column iter
period_table = refl

row_period_table : all_below 6 (λ r. implies (is_row r) (eqb (iter (next_row 1) 80 r) r)) ≡ true
unfolding all_below implies next_row iter
row_period_table = refl

-- The number of steps from column 21 to column `c`, up to 16.
steps_to : ℕ → ℕ → ℕ → ℕ
steps_to zero from c = 0
steps_to (suc n) from c =
    let rest = suc (steps_to n (next_column 1 from) c) in if eqb from c then 0 else rest

-- The number of steps from row 1 and column 21 to row `r` and column `c`: it is `r - 1` modulo the
-- five rows, and the place of `c` modulo the sixteen columns.
place : ℕ → ℕ → ℕ
place r c = (16 * (r - 1) + 65 * steps_to 16 21 c) % 80

place_table :
    all_below 6 (λ r. all_below 52 (λ c.
      implies
        (is_row r && is_column c)
        (eqb (iter (next_row 1) (place r c) 1) r && eqb (iter (next_column 1) (place r c) 21) c)))
    ≡ true
unfolding all_below implies is_column next_row next_column iter place steps_to
place_table = refl

-- What the tables say at one value.
implies_elim : (a b : Bool) → implies a b ≡ true → a ≡ true → b ≡ true
unfolding implies
implies_elim a b h p = ground arith

pub column_range : (c : ℕ) → is_column c ≡ true → (16 ≤ c) × (c ≤ 51)
unfolding is_column
column_range c h = ground arith

pub next_column_valid :
    (c : ℕ)
    → 16 ≤ c
    → c ≤ 51
    → (is_column (next_column 1 c) ≡ true) × (is_column (next_column 2 c) ≡ true)
next_column_valid c low high =
    let both =
      implies_elim (leb 16 c) (is_column (next_column 1 c) && is_column (next_column 2 c))
        (all_below_sound 52 _ c columns_table (omega arith)) (ground arith) in
    ground arith

pub next_row_valid :
    (r : ℕ)
    → r ≤ 5
    → (is_row (next_row 2 r) ≡ true) × (is_row r ≡ true → is_row (next_row 1 r) ≡ true)
next_row_valid r high =
    let both = all_below_sound 6 _ r rows_table (omega arith) in
    (ground arith, λ h. implies_elim (is_row r) (is_row (next_row 1 r)) (ground arith) h)

pub column_period : (c : ℕ) → is_column c ≡ true → iter (next_column 1) 80 c ≡ c
column_period c h = (eqb_iff _ c).0 (
    implies_elim (is_column c) _
      (all_below_sound 52 _ c period_table (omega (arith, column_range c h))) h)

pub row_period : (r : ℕ) → is_row r ≡ true → iter (next_row 1) 80 r ≡ r
row_period r h =
    (eqb_iff _ r).0
      (implies_elim (is_row r) _ (all_below_sound 6 _ r row_period_table (ground arith)) h)

place-lt : (r c : ℕ) → place r c < 80
unfolding place
place-lt r c = omega arith

place_lem :
    (r c : ℕ)
    → is_row r ≡ true
    → is_column c ≡ true
    → (iter (next_row 1) (place r c) 1 ≡ r) × (iter (next_column 1) (place r c) 21 ≡ c)
place_lem r c hr hc =
    let at_row = all_below_sound 6 _ r place_table (ground arith) in
    let at_column = all_below_sound 52 _ c at_row (omega (arith, column_range c hc)) in
    let both = implies_elim (is_row r && is_column c) _ at_column (rw (hr, hc)) in
    ((eqb_iff _ r).0 (ground arith), (eqb_iff _ c).0 (ground arith))

-- On a cycle of 80 steps that begins at `x₀`, from the place `p` to the place `q`.
reach :
    (f : ℕ → ℕ) (x₀ p q x y : ℕ)
    → iter f 80 x₀ ≡ x₀
    → p < 80
    → iter f p x₀ ≡ x
    → iter f q x₀ ≡ y
    → iter f (q + (80 - p)) x ≡ y
reach f x₀ p q x y period small ep eq =
    let home : iter f (80 - p) x ≡ x₀ =
      ap (iter f (80 - p)) (sym ep)
      ∙ sym (iter-add f (80 - p) p x₀)
      ∙ ap (λ (k : ℕ). iter f k x₀) {x = 80 - p + p} {y = 80} (omega arith)
      ∙ period in
    iter-add f q (80 - p) x ∙ ap (iter f q) home ∙ eq

column_21 : is_column 21 ≡ true
unfolding is_column is_forbidden
column_21 = refl

-- From any row and column, the steps to another row and column.
pub steps : (r c r' c' : ℕ) → ℕ
steps r c r' c' = place r' c' + (80 - place r c)

pub steps_lem :
    (r c r' c' : ℕ)
    → is_row r ≡ true
    → is_column c ≡ true
    → is_row r' ≡ true
    → is_column c' ≡ true
    → (iter (next_row 1) (steps r c r' c') r ≡ r') × (iter (next_column 1) (steps r c r' c') c ≡ c')
unfolding steps
steps_lem r c r' c' hr hc hr' hc' =
    let (here_r, here_c) = place_lem r c hr hc in
    let (there_r, there_c) = place_lem r' c' hr' hc' in
    (
      reach (next_row 1) 1 (place r c) (place r' c') r r' (row_period 1 refl) (place-lt r c) here_r
          there_r,
      reach (next_column 1) 21 (place r c) (place r' c') c c' (column_period 21 column_21)
          (place-lt r c) here_c there_c,
    )

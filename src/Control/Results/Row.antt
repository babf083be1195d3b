-- ===== src/Control/Results/Row.antt =====
-- control/controlexecute/result_row.go: a result row from a row of the query.
-- A cell is a column with its value as text (`typehelpers.ToString`); the kind of the column's scan
-- type is given as whether it is a scalar. A row has one value for each column.
use mathlib.Core.Sum.{inl-injective}
use steampipe.Prelude.{
  string_eq, String, List, Option, Bool, ◌∷◌, if◌then◌else◌, ◌⊎◌, [], ◌≡◌, false, ◌++◌, ◌==◌, inl,
  inr, true, ◌||◌, some, ap, none, sym, eq_of_==, Bool-cases, ◌∙◌, refl, arith, all,
}
use steampipe.Control.Results.{is_valid_control_status, ResultRow}

pub record Column : Type 0 where
  pub name : String
  pub is_scalar : Bool

pub data RowError : Type 0 where
  missing_columns : List String → RowError
  sql_error : String → RowError
  invalid_status : String → RowError

unfoldable pub column_types_contains_column : String → List (Column × String) → Bool
column_types_contains_column col [] = false
column_types_contains_column col ((ct, _) ∷ cells) =
    (ct.name == col) || column_types_contains_column col cells

unfoldable pub missing_of : List String → List (Column × String) → List String
unfolding column_types_contains_column
missing_of [] cells = []
missing_of (col ∷ required) cells =
    if column_types_contains_column col cells
    then missing_of required cells
    else col ∷ missing_of required cells

abbrev pub required_columns : List String
required_columns = "reason" ∷ "resource" ∷ "status" ∷ []

unfoldable pub validate_columns : List (Column × String) → List String
validate_columns cells = missing_of required_columns cells

unfoldable pub add_dimension : Column → String → ResultRow → ResultRow
add_dimension c val r =
    if c.is_scalar
    then record r { dimensions = r.dimensions ++ record { key = c.name; value = val } ∷ [] }
    else r

-- The `switch` for one cell.
unfoldable pub add_cell : Column → String → ResultRow → ResultRow ⊎ RowError
unfolding add_dimension
add_cell c val r =
    if c.name == "reason"
    then inl (record r { reason = val })
    else if c.name == "resource"
    then inl (record r { resource = val })
    else if c.name == "status"
    then (if is_valid_control_status val
        then inl (record r { status = val })
        else inr (invalid_status val))
    else inl (add_dimension c val r)

abbrev pub and_then :
    (ResultRow → ResultRow ⊎ RowError) → ResultRow ⊎ RowError → ResultRow ⊎ RowError
and_then f (inl r) = f r
and_then f (inr err) = inr err

unfoldable pub add_cells : List (Column × String) → ResultRow → ResultRow ⊎ RowError
unfolding add_cell
add_cells [] r = inl r
add_cells ((c, val) ∷ cells) r = and_then (add_cells cells) (add_cell c val r)

abbrev pub empty_row : ResultRow
empty_row = record { reason = ""; resource = ""; status = ""; dimensions = [] }

-- By the missing columns, and the error of the query's row.
unfoldable pub row_of : List String → Option String → List (Column × String) → ResultRow ⊎ RowError
unfolding add_cells
row_of (col ∷ missing) error cells = inr (missing_columns (col ∷ missing))
row_of [] (some err) cells = inr (sql_error err)
row_of [] none cells = add_cells cells empty_row

unfoldable pub new_result_row : Option String → List (Column × String) → ResultRow ⊎ RowError
unfolding validate_columns
new_result_row error cells = row_of (validate_columns cells) error cells

-- Either the row has a valid status, or a cell is still to give it one.
WillBeValid : List (Column × String) → ResultRow → Type 0
WillBeValid cells r =
    (is_valid_control_status r.status ≡ true) ⊎ (column_types_contains_column "status" cells ≡ true)

same_status :
    (t s : ResultRow) → ◌≡◌ {A = ResultRow ⊎ RowError} (inl t) (inl s) → s.status ≡ t.status
same_status t s h = ap (λ (x : ResultRow). x.status) (sym (inl-injective t s h))

reason_ne_status : (name : String) → (name == "reason") ≡ true → (name == "status") ≡ false
unfolding string_eq
reason_ne_status name h = ap (λ (q : String). q == "status") (eq_of_== name "reason" h)

resource_ne_status : (name : String) → (name == "resource") ≡ true → (name == "status") ≡ false
unfolding string_eq
resource_ne_status name h = ap (λ (q : String). q == "status") (eq_of_== name "resource" h)

add_dimension-status :
    (c : Column) (val : String) (r : ResultRow) → (add_dimension c val r).status ≡ r.status
unfolding add_dimension
add_dimension-status c val r = elim (Bool-cases c.is_scalar) [ inl h ↦ rw h | inr h ↦ rw h ]

-- What a cell that was added has done to the status.
add_cell-status :
    (c : Column) (val : String) (r s : ResultRow)
    → add_cell c val r ≡ inl s
    → (is_valid_control_status s.status ≡ true)
      ⊎ ((s.status ≡ r.status) × ((c.name == "status") ≡ false))
unfolding add_cell
add_cell-status c val r s h = elim (Bool-cases (c.name == "reason")) [
  | inl a ↦
      inr (same_status (record r { reason = val }) s (sym (rw a) ∙ h), reason_ne_status c.name a)
  | inr a ↦ elim (Bool-cases (c.name == "resource")) [
    | inl b ↦ inr (
      same_status (record r { resource = val }) s (sym (rw (a, b)) ∙ h),
      resource_ne_status c.name b,
    )
    | inr b ↦ elim (Bool-cases (c.name == "status")) [
      | inl d ↦ elim (Bool-cases (is_valid_control_status val)) [
        | inl valid ↦ inl (
            ap is_valid_control_status
              (same_status (record r { status = val }) s (sym (rw (a, b, d, valid)) ∙ h))
            ∙ valid)
        | inr invalid ↦
            (let e : add_cell c val r ≡ inr (invalid_status val) = rw (a, b, d, invalid) in cc)
      ]
      | inr d ↦ inr (
        same_status (add_dimension c val r) s (sym (rw (a, b, d)) ∙ h)
            ∙ add_dimension-status c val r,
        d,
      )
    ]
  ]
]

still-WillBeValid :
    (c : Column) (val : String) (cells : List (Column × String)) (r t : ResultRow)
    → WillBeValid ((c, val) ∷ cells) r
    → (is_valid_control_status t.status ≡ true)
      ⊎ ((t.status ≡ r.status) × ((c.name == "status") ≡ false))
    → WillBeValid cells t
unfolding WillBeValid column_types_contains_column
still-WillBeValid c val cells r t will (inl valid) = inl valid
still-WillBeValid c val cells r t (inl before) (inr (same, other)) =
    inl (ap is_valid_control_status same ∙ before)
still-WillBeValid c val cells r t (inr later) (inr (same, other)) = inr (sym (rw other) ∙ later)

and_then-inl :
    (f : ResultRow → ResultRow ⊎ RowError) (x : ResultRow ⊎ RowError) (s : ResultRow)
    → and_then f x ≡ inl s
    → (t : ResultRow) × (x ≡ inl t) × (f t ≡ inl s)
and_then-inl f (inl t) s h = (t, refl, h)
and_then-inl f (inr err) s h = cc

add_cells-status :
    (cells : List (Column × String)) (r s : ResultRow)
    → WillBeValid cells r
    → add_cells cells r ≡ inl s
    → is_valid_control_status s.status ≡ true
unfolding WillBeValid add_cells column_types_contains_column
add_cells-status [] r s (inl valid) h =
    ap (λ (x : ResultRow). is_valid_control_status x.status) (sym (inl-injective _ _ h)) ∙ valid
add_cells-status [] r s (inr later) h = cc
add_cells-status ((c, val) ∷ cells) r s will h =
    let (t, one, rest) = and_then-inl (add_cells cells) (add_cell c val r) s h in
    add_cells-status cells t s
      (still-WillBeValid c val cells r t will (add_cell-status c val r t one)) rest

missing_of-nil :
    (required : List String) (cells : List (Column × String))
    → missing_of required cells ≡ []
    → all (λ col. column_types_contains_column col cells) required ≡ true
unfolding missing_of
missing_of-nil [] cells h = refl
missing_of-nil (col ∷ required) cells h =
    elim (Bool-cases (column_types_contains_column col cells)) [
      | inl e ↦ rw e (missing_of-nil required cells (sym (rw e) ∙ h))
      | inr e ↦
          (let full : missing_of (col ∷ required) cells ≡ col ∷ missing_of required cells = rw e in
            cc)
    ]

status_present :
    (cells : List (Column × String))
    → validate_columns cells ≡ []
    → column_types_contains_column "status" cells ≡ true
unfolding validate_columns
status_present cells h = ground (arith, missing_of-nil required_columns cells h)

-- `NewResultRow` only returns rows with one of the five statuses: without the column, or with another
-- text in it, it fails. It also fails on each row that carries an error.
pub new_result_row-status :
    (error : Option String) (cells : List (Column × String)) (s : ResultRow)
    → new_result_row error cells ≡ inl s
    → (is_valid_control_status s.status ≡ true) × (error ≡ none) × (validate_columns cells ≡ [])
unfolding new_result_row WillBeValid add_cells row_of
new_result_row-status error cells s h = returned_row (validate_columns cells) error refl h
  where
    returned_row :
        (missing : List String) (error : Option String)
        → validate_columns cells ≡ missing
        → row_of missing error cells ≡ inl s
        → (is_valid_control_status s.status ≡ true) × (error ≡ none) × (validate_columns cells ≡ [])
    returned_row (col ∷ missing) error e h = cc
    returned_row [] (some err) e h = cc
    returned_row [] none e h =
        (add_cells-status cells empty_row s (inr (status_present cells e)) h, refl, e)

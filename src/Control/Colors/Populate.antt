-- ===== src/Control/Colors/Populate.antt =====
-- dimension_color_map.go: the colours that `populate` stores.
use steampipe.Control.Colors.{
  DimensionColorGenerator, has_dimension_value, dimension_map_of, store, inl, add_dimension_value,
  inr, populate_dimensions, populate_rows, populate, new_dimension_color_generator,
  get_current_color, color_code,
}
use steampipe.Control.Results.{Dimension, ResultRow}
use steampipe.Prelude.{
  Option, ◌≡◌, Bool, ℕ, ◌==◌, if◌then◌else◌, string_eq, ◌&&◌, some, arith, true, ◌⊎◌, sym, false,
  ◌∙◌, ap, none, subst, List, refl, All, ◌∷◌, Bool-cases, All-mono, [],
}
use steampipe.Prelude.Dict.{lookup, lookup-nil, insert, lookup-insert}
use steampipe.Prelude.Options.{is_some}
use steampipe.Control.Colors.Next.{IsValid, InPalette, get_next_color-Took}
use mathlib.Core.Option.{some-injective}

-- The colour that is stored for a dimension.
abbrev pub color_of : DimensionColorGenerator → Dimension → Option ℕ
color_of g d = lookup d.value (dimension_map_of g d.key)

pub has_dimension_value-color_of :
    (g : DimensionColorGenerator) (d : Dimension) → has_dimension_value g d ≡ is_some (color_of g d)
unfolding has_dimension_value
has_dimension_value-color_of g d = ground (arith, lookup-nil {V = ℕ} d.value)

abbrev pub same_dimension : Dimension → Dimension → Bool
same_dimension d e = d.key == e.key && d.value == e.value

-- Storing a colour for `d` changes the colour of `d` alone.
pub color_of-store :
    (d e : Dimension) (color : ℕ) (g h : DimensionColorGenerator)
    → h.color_map ≡ g.color_map
    → color_of (store d (color, h)) e ≡ (if same_dimension d e then some color else color_of g e)
color_of-store d e color g h same =
    let m = insert d.value color (dimension_map_of h d.key) in
    rw (lookup-insert e.key d.key m h.color_map, same)
      (ground (arith, lookup-insert e.value d.value color (dimension_map_of g d.key)))

-- `h` holds the colours of `g` and perhaps more, all of the palette.
pub record Extends (g h : DimensionColorGenerator) : Type 0 where
  pub valid : IsValid h
  pub kept : (e : Dimension) (c : ℕ) → color_of g e ≡ some c → color_of h e ≡ some c
  pub in_palette :
      (e : Dimension) (c : ℕ) → color_of h e ≡ some c → (color_of g e ≡ some c) ⊎ InPalette c

Extends-refl : (g : DimensionColorGenerator) → IsValid g → Extends g g
Extends-refl g v = record { valid = v; kept = λ e c p. p; in_palette = λ e c p. inl p }

Extends-trans : (g h k : DimensionColorGenerator) → Extends g h → Extends h k → Extends g k
Extends-trans g h k a b = record {
  valid = b.valid;
  kept = λ e c p. b.kept e c (a.kept e c p);
  in_palette =
      λ e c p. elim (b.in_palette e c p) [ inl old ↦ a.in_palette e c old | inr new ↦ inr new ];
}

is_some-elim : (o : Option ℕ) → is_some o ≡ true → (c : ℕ) × (o ≡ some c)
is_some-elim (some c) h = (c, refl)
is_some-elim none h = cc

IsColored-kept :
    (g h : DimensionColorGenerator) (d : Dimension)
    → Extends g h
    → has_dimension_value g d ≡ true
    → has_dimension_value h d ≡ true
IsColored-kept g h d x p =
    let (c, e) = is_some-elim (color_of g d) (sym (has_dimension_value-color_of g d) ∙ p) in
    has_dimension_value-color_of h d ∙ ap is_some (x.kept d c e)

stored_color :
    (same : Bool) (old : Option ℕ) (color c : ℕ)
    → InPalette color
    → (if same then some color else old) ≡ some c
    → (old ≡ some c) ⊎ InPalette c
stored_color true old color c new p = inr (subst InPalette (some-injective color c p) new)
stored_color false old color c new p = inl p

add_dimension_value-Extends :
    (g : DimensionColorGenerator) (d : Dimension)
    → IsValid g
    → has_dimension_value g d ≡ false
    → (h : DimensionColorGenerator) × (add_dimension_value g d ≡ some h)
      × Extends g h
      × (has_dimension_value h d ≡ true)
unfolding add_dimension_value
add_dimension_value-Extends g d v new =
    let (color, h, runs, t) = get_next_color-Took g v in
    let here = λ (e : Dimension). color_of-store d e color g h t.same_map in
    let absent : is_some (color_of g d) ≡ false = sym (has_dimension_value-color_of g d) ∙ new in
    (
      store d (color, h),
      rw runs,
      record {
        valid = record {
          starting_row_in = t.valid.starting_row_in;
          starting_column_in = t.valid.starting_column_in;
          row_in = t.valid.row_in;
          column_in = t.valid.column_in;
        };
        kept = λ e c p. rw (here e) (ground arith);
        in_palette = λ e c p.
            stored_color (same_dimension d e) (color_of g e) color c t.in_palette
              (sym (here e) ∙ p);
      },
      has_dimension_value-color_of (store d (color, h)) d ∙ rw (here d) (ground arith),
    )

abbrev pub HasColor : DimensionColorGenerator → Dimension → Type 0
HasColor h d = has_dimension_value h d ≡ true

abbrev pub RowHasColors : DimensionColorGenerator → ResultRow → Type 0
RowHasColors h row = All (HasColor h) row.dimensions

populate_dimensions-Extends :
    (g : DimensionColorGenerator) (dims : List Dimension)
    → IsValid g
    → (h : DimensionColorGenerator) × (populate_dimensions g dims ≡ some h)
      × Extends g h
      × All (HasColor h) dims
unfolding populate_dimensions
populate_dimensions-Extends g [] v = (g, refl, Extends-refl g v, tt)
populate_dimensions-Extends g (d ∷ dims) v = elim (Bool-cases (has_dimension_value g d)) [
  | inl old ↦
      let (h, runs, x, all) = populate_dimensions-Extends g dims v in
      (h, rw old runs, x, (IsColored-kept g h d x old, all))
  | inr new ↦
      let (k, added, y, colored) = add_dimension_value-Extends g d v new in
      let (h, runs, x, all) = populate_dimensions-Extends k dims y.valid in
      (h, rw (new, added) runs, Extends-trans g k h y x, (IsColored-kept k h d x colored, all))
]

populate_rows-Extends :
    (g : DimensionColorGenerator) (rows : List ResultRow)
    → IsValid g
    → (h : DimensionColorGenerator) × (populate_rows g rows ≡ some h)
      × Extends g h
      × All (RowHasColors h) rows
unfolding populate_rows
populate_rows-Extends g [] v = (g, refl, Extends-refl g v, tt)
populate_rows-Extends g (row ∷ rows) v =
    let (k, added, y, colored) = populate_dimensions-Extends g row.dimensions v in
    let (h, runs, x, all) = populate_rows-Extends k rows y.valid in
    (
      h,
      rw added runs,
      Extends-trans g k h y x,
      (
        All-mono (HasColor k) (HasColor h) (λ d. IsColored-kept k h d x) row.dimensions colored,
        all,
      ),
    )

-- `populate` on a valid generator returns; afterwards every dimension value of every row has a
-- colour, the colours stored before are the same, and each new one is of the palette.
pub populate-Extends :
    (g : DimensionColorGenerator) (runs : List (List ResultRow))
    → IsValid g
    → (h : DimensionColorGenerator) × (populate g runs ≡ some h)
      × Extends g h
      × All (All (RowHasColors h)) runs
unfolding populate
populate-Extends g [] v = (g, refl, Extends-refl g v, tt)
populate-Extends g (rows ∷ runs) v =
    let (k, added, y, colored) = populate_rows-Extends g rows v in
    let (h, returns, x, all) = populate-Extends k runs y.valid in
    (
      h,
      rw added returns,
      Extends-trans g k h y x,
      (
        All-mono (RowHasColors k) (RowHasColors h)
            (λ row. All-mono (HasColor k) (HasColor h) (λ d. IsColored-kept k h d x) row.dimensions)
            rows colored,
        all,
      ),
    )

-- A generator that the constructor returns is valid, starts at the colour of the given row and
-- column, and has no colour taken or stored.
pub new-IsValid :
    (row column : ℕ) (g : DimensionColorGenerator)
    → new_dimension_color_generator row column ≡ inl g
    → IsValid g
      × (get_current_color g ≡ color_code row column)
      × (g.allocated_color_codes ≡ [])
      × (g.color_map ≡ [])
unfolding new_dimension_color_generator
new-IsValid row column g h = ground arith

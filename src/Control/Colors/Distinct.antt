-- ===== src/Control/Colors/Distinct.antt =====
-- dimension_color_map.go: two dimension values share a colour only after all 80 were used.
use steampipe.Control.Colors.{
  DimensionColorGenerator, add_dimension_value, color_clashes, inl, store, inr,
}
use steampipe.Control.Colors.Populate.{color_of, color_of-store, same_dimension}
use steampipe.Control.Results.{Dimension}
use steampipe.Prelude.{
  ℕ, ◌≡◌, Bool, some, List, ◌++◌, arith, false, true, any, ◌∷◌, [], ◌||◌, ◌⊎◌, eqb, sym, ◌∙◌, ap,
  subst,
}
use steampipe.Control.Colors.Loop.{AllTaken}
use steampipe.Control.Colors.Next.{Took, IsValid, get_next_color-Took}
use mathlib.Core.Option.{some-injective}

-- Stored colours differ from value to value, and all of them are taken.
pub record IsDistinct (g : DimensionColorGenerator) : Type 0 where
  pub different :
      (d e : Dimension) (c : ℕ)
      → color_of g d ≡ some c
      → color_of g e ≡ some c
      → same_dimension d e ≡ true
  pub taken : (d : Dimension) (c : ℕ) → color_of g d ≡ some c → color_clashes g c ≡ true

any-append : (p : ℕ → Bool) (xs : List ℕ) (x : ℕ) → any p (xs ++ x ∷ []) ≡ (any p xs || p x)
any-append p [] x = ground arith
any-append p (y ∷ xs) x = ground (arith, any-append p xs x)

clashes-append :
    (g h : DimensionColorGenerator) (color c : ℕ)
    → h.allocated_color_codes ≡ g.allocated_color_codes ++ color ∷ []
    → color_clashes h c ≡ (color_clashes g c || eqb color c)
unfolding color_clashes
clashes-append g h color c e = rw (e, any-append (λ a. eqb a c) g.allocated_color_codes color)

free_lem :
    (g h : DimensionColorGenerator) (color : ℕ)
    → ¬ AllTaken g
    → Took g color h
    → (color_clashes g color ≡ false)
      × (h.allocated_color_codes ≡ g.allocated_color_codes ++ color ∷ [])
free_lem g h color left t = elim t.taken [ inl free ↦ free | inr all ↦ absurd (left all.0) ]

same_dimension_trans :
    (d a b : Dimension)
    → same_dimension d a ≡ true
    → same_dimension d b ≡ true
    → same_dimension a b ≡ true
same_dimension_trans d a b p q = ground arith

module _ (g h : DimensionColorGenerator) (d : Dimension) (color : ℕ) (distinct : IsDistinct g)
    (free : color_clashes g color ≡ false)
    (took : h.allocated_color_codes ≡ g.allocated_color_codes ++ color ∷ [])
    (same_map : h.color_map ≡ g.color_map) where
  abbrev after : DimensionColorGenerator
  after = store d (color, h)

  -- A stored colour is the new one at `d`, and an old one elsewhere.
  after_cases :
      (e : Dimension) (c : ℕ)
      → color_of after e ≡ some c
      → ((same_dimension d e ≡ true) × (c ≡ color)) ⊎ (color_of g e ≡ some c)
  after_cases e c p = let q = sym (color_of-store d e color g h same_map) ∙ p in ground (arith, q)

  -- An old colour is not the new one.
  old_or_new : (e : Dimension) (c : ℕ) → color_of g e ≡ some c → c ≡ color → ⊥
  old_or_new e c old same = cc (sym free ∙ ap (color_clashes g) (sym same) ∙ distinct.taken e c old)

  store-IsDistinct : IsDistinct after
  store-IsDistinct = record {
    different = λ a b c p q. elim (after_cases a c p) [
      | inl (at_a, new) ↦ elim (after_cases b c q) [
        | inl (at_b, _) ↦ same_dimension_trans d a b at_a at_b
        | inr old ↦ absurd (old_or_new b c old new)
      ]
      | inr first ↦ elim (after_cases b c q) [
        | inl (_, new) ↦ absurd (old_or_new a c first new)
        | inr old ↦ distinct.different a b c first old
      ]
    ];
    taken = λ a c p. clashes-append g after color c took ∙ elim (after_cases a c p) [
      | inl (_, new) ↦ ground arith
      | inr old ↦ rw (distinct.taken a c old)
    ];
  }

-- On a valid generator whose values have different colours, as long as some colour of the palette
-- is free, a value that `addDimensionValue` stores gets a colour that no other value has: the
-- colours stay different from value to value.
pub add_dimension_value-IsDistinct :
    (g h : DimensionColorGenerator) (d : Dimension)
    → IsValid g
    → IsDistinct g
    → ¬ AllTaken g
    → add_dimension_value g d ≡ some h
    → IsDistinct h
unfolding add_dimension_value
add_dimension_value-IsDistinct g h d v distinct left e =
    let (color, k, runs, t) = get_next_color-Took g v in
    let (free, took) = free_lem g k color left t in
    let same : store d (color, k) ≡ h = some-injective _ _ (sym (rw runs) ∙ e) in
    subst IsDistinct same (store-IsDistinct g k d color distinct free took t.same_map)

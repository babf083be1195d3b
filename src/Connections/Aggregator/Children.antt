-- ===== src/Connections/Aggregator/Children.antt =====
-- What an aggregator connection resolves to.
use mathlib.Core.Option.{some-injective}
use steampipe.Connections.Updates.Settled.{Entries, Entries-lookup}
use steampipe.Prelude.{
  [], ◌∷◌, ◌≡◌, some, true, false, inl, inr, arith, refl, String, List, Bool, All, any, ℕ, ◌==◌,
  ==_refl, ◌⊎◌, string_eq, Option-cases, ◌||◌, ◌≢◌, sym, All-mono, ◌∙◌, ap,
}
use steampipe.Connections.Aggregator.{
  child_errors, validate, validate_aggregator_connection, Children, populate_each,
  connection_type_aggregator, populate_children, is_aggregator,
}
use steampipe.Connections.{Connection}
use steampipe.Prelude.Dict.{Dict, lookup, NodupKeys, lookup-nil}
use steampipe.Connections.Aggregator.Matches.{
  IsChild, AreChildren, is_wildcard_of, populate_each-AreChildren, populate_each-has,
  populate_each-NodupKeys,
}

asked_all : (names : List String) → All (λ n. any (λ x. x == n) names ≡ true) names
asked_all [] = tt
asked_all (n ∷ names) = (
  ground (arith, ==_refl n),
  All-mono _ _ (λ m h. more (n == m) (any (λ x. x == m) names) h) names (asked_all names),
)
  where
    more : (a b : Bool) → b ≡ true → (a || b) ≡ true
    more true b h = refl
    more false b h = h

child_errors-nil :
    (c : Connection) (children : Children)
    → Entries (λ n child. child.plugin ≡ c.plugin) children
    → child_errors c children ≡ []
unfolding child_errors
child_errors-nil c [] h = refl
child_errors-nil c ((n, child) ∷ children) (h, hs) =
    rw (h, ==_refl c.plugin) (child_errors-nil c children hs)

validate-nil :
    (format_nat : ℕ → String) (c : Connection) (children : Children)
    → c.type ≡ connection_type_aggregator
    → children ≢ []
    → Entries (λ n child. child.plugin ≡ c.plugin) children
    → validate format_nat c children ≡ []
unfolding validate validate_aggregator_connection
validate-nil format_nat c [] aggregator some_child h = absurd (some_child refl)
validate-nil format_nat c (child ∷ children) aggregator some_child h =
    ground (arith, aggregator, child_errors-nil c (child ∷ children) h)

module _ (matches : String → String → Bool) (format_nat : ℕ → String) (c : Connection)
    (connection_map : Dict String Connection) where
  -- In a map that has each connection once: an aggregator resolves, under their names, to exactly
  -- the connections of the map that it names, and those of its plugin that are no aggregators and
  -- are matched by one of its names that is not a connection of the map. If the connections that it names are of its plugin too, and it resolves to some
  -- connection, it passes validation.
  pub populate_children-validate :
      NodupKeys connection_map
      → AreChildren matches c.plugin connection_map c.connection_names
          (populate_children matches c connection_map)
        × ((n : String) (child : Connection)
            → IsChild matches c.plugin connection_map c.connection_names n child
            → lookup n (populate_children matches c connection_map) ≡ some child)
        × (c.type ≡ connection_type_aggregator
            → ((n : String) (child : Connection)
                → any (λ x. x == n) c.connection_names ≡ true
                → lookup n connection_map ≡ some child
                → child.plugin ≡ c.plugin)
            → populate_children matches c connection_map ≢ []
            → validate format_nat c (populate_children matches c connection_map) ≡ [])
  unfolding populate_children
  populate_children-validate distinct =
      let children = populate_each matches c.plugin connection_map c.connection_names [] in
      let are =
        populate_each-AreChildren matches c.plugin connection_map c.connection_names
          c.connection_names []
          (Entries-lookup (λ n child. lookup n connection_map ≡ some child) connection_map distinct
            (λ k a e. e))
          (asked_all c.connection_names) (λ n child e. cc (lookup-nil {V = Connection} n, e)) in
      (
        are,
        λ n child h.
            let has =
              populate_each-has matches c.plugin connection_map n child c.connection_names [] h in
            elim (Option-cases (lookup n children)) [
              | inl missing ↦ absurd (ground (arith, missing, has))
              | inr (found, at_n) ↦
                  at_n ∙ ap some (some-injective _ _ (sym (are n found at_n).0 ∙ h.0))
            ],
        λ aggregator named some_child. validate-nil format_nat c children aggregator some_child (
            Entries-lookup (λ n child. child.plugin ≡ c.plugin) children
              (populate_each-NodupKeys matches c.plugin connection_map c.connection_names [] tt)
              (λ n child e. let (found, why) = are n child e in of_plugin n child found named why)),
      )
    where
      of_plugin :
          (n : String) (child : Connection)
          → lookup n connection_map ≡ some child
          → ((m : String) (child' : Connection)
              → any (λ x. x == m) c.connection_names ≡ true
              → lookup m connection_map ≡ some child'
              → child'.plugin ≡ c.plugin)
          → (any (λ x. x == n) c.connection_names ≡ true)
            ⊎ ((child.plugin ≡ c.plugin)
                × (is_aggregator matches child ≡ false)
                × (any (is_wildcard_of matches c.plugin connection_map n) c.connection_names
                    ≡ true))
          → child.plugin ≡ c.plugin
      of_plugin n child found named (inl asked) = named n child asked found
      of_plugin n child found named (inr (same, _, _)) = same

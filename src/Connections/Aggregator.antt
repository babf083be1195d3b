-- ===== src/Connections/Aggregator.antt =====
-- steampipeconfig/modconfig/connection.go: aggregator connections, and the connections that their
-- names and wildcards resolve to. `path.Match`, its error left aside as the code does, is the
-- parameter `matches`, a pattern first; `fmt.Sprintf("%d", n)` of a length is `format_nat`.
pub mod Matches
pub mod Children
use steampipe.Prelude.{
  eq_of_==, [], ◌∷◌, ◌≡◌, none, some, true, false, inl, inr, arith, refl, String, ℕ, Bool, List,
  ◌==◌, not, if◌then◌else◌, length, string_eq, ◌&&◌, any, Bool-cases, All, ◌||◌, ◌⊎◌, sym,
  Option-cases, ◌∙◌, subst,
}
use steampipe.Prelude.Dict.{Dict, lookup, insert, lookup-insert}
use steampipe.Connections.{Connection}
use steampipe.Prelude.Text.{◌+++◌, is_empty}
use steampipe.Prelude.Options.{is_some}

abbrev pub connection_type_aggregator : String
connection_type_aggregator = "aggregator"

abbrev pub Children : Type 0
Children = Dict String Connection

module _ (matches : String → String → Bool) where
  abbrev pub is_aggregator : Connection → Bool
  is_aggregator c = c.type == connection_type_aggregator

  -- Is a connection, under its name, to be added for a wildcard?
  abbrev pub is_matched : (pattern plugin : String) → String → Connection → Children → Bool
  is_matched pattern plugin name connection children =
      not (is_aggregator connection)
      && not (is_some (lookup name children))
      && matches pattern name
      && connection.plugin == plugin

  unfoldable pub match_each :
      (pattern plugin : String) → Dict String Connection → Children → Children
  match_each pattern plugin [] children = children
  match_each pattern plugin ((name, connection) ∷ connections) children =
      match_each pattern plugin connections (
        if is_matched pattern plugin name connection children
        then insert name connection children
        else children)

  unfoldable pub populate_each :
      (plugin : String) → Dict String Connection → List String → Children → Children
  unfolding match_each
  populate_each plugin connection_map [] children = children
  populate_each plugin connection_map (child_name ∷ names) children =
      populate_each plugin connection_map names (elim (lookup child_name connection_map) [
        | some child ↦ insert child_name child children
        | none ↦ match_each child_name plugin connection_map children
      ])

  -- (*Connection).PopulateChildren
  unfoldable pub populate_children : Connection → Dict String Connection → Children
  unfolding populate_each
  populate_children c connection_map = populate_each c.plugin connection_map c.connection_names []

abbrev pub other_plugin : Connection → Connection → String
other_plugin c child =
    "aggregator connection '" +++ c.name +++ "' uses plugin " +++ c.plugin
    +++ " but child connection '" +++ child.name +++ "' uses plugin '" +++ child.plugin +++ "'"

unfoldable pub child_errors : Connection → Children → List String
child_errors c [] = []
child_errors c ((name, child) ∷ children) =
    let rest = child_errors c children in
    if child.plugin == c.plugin then rest else other_plugin c child ∷ rest

unfoldable pub validate_aggregator_connection : Connection → Children → List String
unfolding child_errors
validate_aggregator_connection c [] =
    ("aggregator connection '" +++ c.name +++ "' has no children") ∷ []
validate_aggregator_connection c (child ∷ children) = child_errors c (child ∷ children)

abbrev pub no_children : (ℕ → String) → Connection → List String → List String
no_children format_nat c [] = []
no_children format_nat c (n ∷ names) =
    ("connection '"
      +++ c.name
      +++ "' has "
      +++ format_nat (length (n ∷ names))
      +++ " children, but is not of type 'aggregator'")
    ∷ []

-- (*Connection).Validate, for the children that PopulateChildren gave.
unfoldable pub validate : (ℕ → String) → Connection → Children → List String
unfolding validate_aggregator_connection
validate format_nat c children =
    if is_empty c.type || c.type == connection_type_aggregator
    then (if c.type == connection_type_aggregator
        then validate_aggregator_connection c children
        else no_children format_nat c c.connection_names)
    else ("connection '" +++ c.name +++ "' has invalid connection type '" +++ c.type +++ "'") ∷ []

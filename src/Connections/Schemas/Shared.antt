-- ===== src/Connections/Schemas/Shared.antt =====
-- The connections of one list of the schema map use one plugin.
use steampipe.Connections.Schemas.{
  Sharing, own_schema, same_schema, place, new_connection_schema_map_for_connections, SchemaMap,
  names_at, each_connection, text_at,
}
use steampipe.Prelude.{
  ◌≡◌, none, some, inl, inr, String, List, Option, ◌∷◌, All, ◌==◌, if◌then◌else◌, string_eq, true,
  Option-cases, ◌++◌, false, [], ◌⊎◌, Bool-cases, ==_refl, sym, eq_of_==, ◌∙◌, All-mono, arith, ap,
  All-append,
}
use steampipe.Connections.{Connection}
use steampipe.Prelude.Dict.{lookup, Dict, lookup-nil, insert, lookup-insert}
use steampipe.Connections.Schemas.Once.{DistinctNames}
use mathlib.Core.Option.{some-injective}

-- The plugin of a connection by its name, where the connections have it.
unfoldable pub plugin_at : String → List Connection → Option String
plugin_at n [] = none
plugin_at n (c ∷ cs) = if c.name == n then some c.plugin else plugin_at n cs

-- A key and the names listed under it are connections of one plugin.
abbrev pub OnePlugin : (String → Option String) → String → List String → Type 0
OnePlugin plugin_of k names =
    (p : String) × (plugin_of k ≡ some p) × All (λ n. plugin_of n ≡ some p) names

record Shares (plugin_of : String → Option String) (s : Sharing) : Type 0 where
  firsts : (p first : String) → lookup p s.0 ≡ some first → plugin_of first ≡ some p
  lists :
      (k : String) (names : List String) → lookup k s.1 ≡ some names → OnePlugin plugin_of k names

module _ (plugin_of : String → Option String) where
  own_schema-Shares :
      (c : Connection) (s : Sharing)
      → plugin_of c.name ≡ some c.plugin
      → Shares plugin_of s
      → Shares plugin_of (own_schema c s)
  unfolding own_schema
  own_schema-Shares c (pm, res) h shares = record {
    firsts = λ p first e. ground (arith, lookup-insert p c.plugin c.name pm, shares.firsts p first);
    lists = λ k names e. own k names (Bool-cases (c.name == k)) e;
  }
    where
      own :
          (k : String) (names : List String)
          → ((c.name == k) ≡ true) ⊎ ((c.name == k) ≡ false)
          → lookup k (insert c.name (c.name ∷ []) res) ≡ some names
          → OnePlugin plugin_of k names
      own k names (inl same) e =
          let at_k : k ≡ c.name = sym (eq_of_== c.name k same) in
          let own_list : names ≡ c.name ∷ [] =
            some-injective _ _ (sym e ∙ lookup-insert k c.name (c.name ∷ []) res ∙ rw same) in
          rw own_list (c.plugin, rw at_k h, (h, tt))
      own k names (inr other) e =
          shares.lists k names (sym (lookup-insert k c.name (c.name ∷ []) res ∙ rw other) ∙ e)

  names_at-OnePlugin :
      (first p : String) (res : SchemaMap)
      → plugin_of first ≡ some p
      → ((names : List String) → lookup first res ≡ some names → OnePlugin plugin_of first names)
      → All (λ n. plugin_of n ≡ some p) (names_at first res)
  names_at-OnePlugin first p res h lists = elim (Option-cases (lookup first res)) [
    | inl missing ↦ rw (missing, names_at) tt
    | inr (names, e) ↦
        let one = lists names e in
        let same : one.0 ≡ p = some-injective _ _ (sym one.1 ∙ h) in
        rw (e, names_at) (All-mono _ _ (λ n f. f ∙ ap some same) names one.2)
  ]

  same_schema-Shares :
      (first : String) (c : Connection) (s : Sharing)
      → plugin_of c.name ≡ some c.plugin
      → plugin_of first ≡ some c.plugin
      → Shares plugin_of s
      → Shares plugin_of (same_schema first c s)
  unfolding same_schema
  same_schema-Shares first c (pm, res) h at_first shares = record {
    firsts = shares.firsts;
    lists = λ k names e. longer k names (Bool-cases (first == k)) e;
  }
    where
      listed : List String
      listed = names_at first res ++ c.name ∷ []

      longer :
          (k : String) (names : List String)
          → ((first == k) ≡ true) ⊎ ((first == k) ≡ false)
          → lookup k (insert first (names_at first res ++ c.name ∷ []) res) ≡ some names
          → OnePlugin plugin_of k names
      longer k names (inl same) e =
          let own_list : names ≡ names_at first res ++ c.name ∷ [] =
            some-injective _ _
              (sym e ∙ lookup-insert k first (names_at first res ++ c.name ∷ []) res ∙ rw same) in
          rw own_list (
            c.plugin,
            rw (sym (eq_of_== first k same)) at_first,
            All-append _ (names_at first res) (c.name ∷ [])
                (names_at-OnePlugin first c.plugin res at_first (λ ns. shares.lists first ns))
                (h, tt),
          )
      longer k names (inr other) e =
          shares.lists k names
            (sym (lookup-insert k first (names_at first res ++ c.name ∷ []) res ∙ rw other) ∙ e)

  each_connection-Shares :
      (dynamic : String) (modes : Dict String String) (cs : List Connection) (s : Sharing)
      → All (λ c. plugin_of c.name ≡ some c.plugin) cs
      → Shares plugin_of s
      → Shares plugin_of (each_connection dynamic modes cs s)
  unfolding each_connection place
  each_connection-Shares dynamic modes [] s h shares = shares
  each_connection-Shares dynamic modes (c ∷ cs) s (h, hs) shares =
      each_connection-Shares dynamic modes cs (place dynamic modes c (lookup c.plugin s.0) s) hs
        (elim (Option-cases (lookup c.plugin s.0)) [
          | inl new ↦ rw new (own_schema-Shares c s h shares)
          | inr (first, seen) ↦ elim (Bool-cases (text_at c.name modes == dynamic)) [
            | inl own ↦ rw (seen, own) (own_schema-Shares c s h shares)
            | inr shared ↦
                rw (seen, shared)
                  (same_schema-Shares first c s h (shares.firsts c.plugin first seen) shares)
          ]
        ])

pub All-plugin_at :
    (cs : List Connection) → DistinctNames cs → All (λ c. plugin_at c.name cs ≡ some c.plugin) cs
unfolding plugin_at
All-plugin_at [] u = tt
All-plugin_at (c ∷ cs) (other, u) = (rw (==_refl c.name), later cs other (All-plugin_at cs u))
  where
    later :
        (ds : List Connection)
        → All (λ d. (c.name == d.name) ≡ false) ds
        → All (λ d. plugin_at d.name cs ≡ some d.plugin) ds
        → All (λ d. plugin_at d.name (c ∷ cs) ≡ some d.plugin) ds
    later [] h k = tt
    later (d ∷ ds) (h, hs) (k, ks) = (rw h k, later ds hs ks)

-- A list of the map stands under the name of a connection, and all that it lists are connections
-- of that connection's plugin.
pub new_connection_schema_map_for_connections-OnePlugin :
    (dynamic : String) (cs : List Connection) (modes : Dict String String)
    → DistinctNames cs
    → (k : String) (names : List String)
    → lookup k (new_connection_schema_map_for_connections dynamic cs modes) ≡ some names
    → OnePlugin (λ n. plugin_at n cs) k names
unfolding new_connection_schema_map_for_connections
new_connection_schema_map_for_connections-OnePlugin dynamic cs modes u k names e =
    (each_connection-Shares (λ n. plugin_at n cs) dynamic modes cs ([], []) (All-plugin_at cs u)
        (record {
          firsts = λ p first e'. cc (lookup-nil {V = String} p, e');
          lists = λ j ns e'. cc (lookup-nil {V = List String} j, e');
        })).lists
      k names e

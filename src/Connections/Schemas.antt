-- ===== src/Connections/Schemas.antt =====
-- steampipeconfig/connection_schemas.go: which connections share a schema. The schema mode that the
-- plugin SDK calls dynamic is the parameter `dynamic`.
pub mod Once
pub mod Shared
use steampipe.Prelude.{
  ◌≡◌, none, some, String, List, Option, ◌∷◌, [], string_eq, ◌++◌, if◌then◌else◌, ◌==◌,
}
use steampipe.Prelude.Dict.{Dict, lookup, insert}
use steampipe.Connections.{Connection, ConnectionDataMap}
use steampipe.Prelude.Text.{is_empty}

abbrev pub SchemaMap : Type 0
SchemaMap = Dict String (List String)

-- m[k] of a map to texts, and of a map to slices: the zero value where the key is missing.
abbrev pub text_at : String → Dict String String → String
text_at k m = elim (lookup k m) [ none ↦ "" | some s ↦ s ]

abbrev pub names_at : String → SchemaMap → List String
names_at k m = elim (lookup k m) [ none ↦ [] | some names ↦ names ]

abbrev pub Sharing : Type 0
Sharing = Dict String String × SchemaMap

unfoldable pub own_schema : Connection → Sharing → Sharing
own_schema c (plugin_map, res) =
    (insert c.plugin c.name plugin_map, insert c.name (c.name ∷ []) res)

unfoldable pub same_schema : String → Connection → Sharing → Sharing
same_schema first c (plugin_map, res) =
    (plugin_map, insert first (names_at first res ++ c.name ∷ []) res)

unfoldable pub place :
    (dynamic : String) → Dict String String → Connection → Option String → Sharing → Sharing
unfolding own_schema same_schema
place dynamic modes c none s = own_schema c s
place dynamic modes c (some first) s =
    if text_at c.name modes == dynamic then own_schema c s else same_schema first c s

unfoldable pub each_connection :
    (dynamic : String) → Dict String String → List Connection → Sharing → Sharing
unfolding place
each_connection dynamic modes [] s = s
each_connection dynamic modes (c ∷ connections) s =
    each_connection dynamic modes connections (place dynamic modes c (lookup c.plugin s.0) s)

-- NewConnectionSchemaMapForConnections
unfoldable pub new_connection_schema_map_for_connections :
    (dynamic : String) → List Connection → Dict String String → SchemaMap
unfolding each_connection
new_connection_schema_map_for_connections dynamic connections modes =
    (each_connection dynamic modes connections ([], [])).1

unfoldable pub keys {ℓ} : {A : Type ℓ} → Dict String A → List String
keys [] = []
keys ((k, a) ∷ m) = k ∷ keys m

-- (ConnectionSchemaMap).UniqueSchemas
unfoldable pub unique_schemas : SchemaMap → List String
unfolding keys
unique_schemas m = keys m

-- The schema modes that the state holds.
unfoldable pub modes_of : ConnectionDataMap → Dict String String
modes_of [] = []
modes_of ((name, d) ∷ state) =
    let rest = modes_of state in
    if is_empty d.schema_mode then rest else (name, d.schema_mode) ∷ rest

-- NewConnectionSchemaMap, for the connections of the config and the pruned state.
unfoldable pub new_connection_schema_map :
    (dynamic : String) → List Connection → ConnectionDataMap → SchemaMap
unfolding new_connection_schema_map_for_connections modes_of
new_connection_schema_map dynamic (c ∷ []) state = (c.name, c.name ∷ []) ∷ []
new_connection_schema_map dynamic connections state =
    new_connection_schema_map_for_connections dynamic connections (modes_of state)

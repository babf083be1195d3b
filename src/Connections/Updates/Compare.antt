-- ===== src/Connections/Updates/Compare.antt =====
-- steampipeconfig/connection_updates.go: NewConnectionUpdates. The maps of a `ConnectionUpdates`
-- share pointers with one another, which matters only for the schema mode and hash of the required
-- connections, and nothing reads these through another map.
use steampipe.Prelude.{
  none, some, true, Option, List, String, ◌∷◌, [], Bool, if◌then◌else◌, not, string_eq, ◌==◌, ◌&&◌,
}
use steampipe.Connections.{
  answer, nil_pointer, ◌>>=◌, ConnectionDataMap, ConnectionData, Answer, Connection, data_equal,
}
use steampipe.Connections.Updates.{
  Environment, PluginMap, connections, new_connection_data_map, remove_connections_from_list,
  get_schema_hashes_for_dynamic_schemas, plugin_schema_hash,
}
use steampipe.Connections.Plugins.{Schema, ConnectionPlugin, create_connection_plugins}
use steampipe.Prelude.Dict.{Dict, lookup, insert}
use steampipe.Connections.State.{get_connection_state, StateFile}
use steampipe.Prelude.Options.{is_some}
use steampipe.Prelude.Text.{is_empty}

module _ (env : Environment) where
  open env use {sdk, format_int}

  pub record ConnectionUpdates : Type 0 where
    pub update : ConnectionDataMap
    pub delete : ConnectionDataMap
    pub missing_plugins : List String
    pub required_connection_state : ConnectionDataMap
    pub connection_plugins : PluginMap sdk

  -- A connection that is not in the state, or differs from it.
  unfoldable pub is_out_of_date : ConnectionDataMap → String → ConnectionData → Bool
  is_out_of_date current name required = elim (lookup name current) [
    | none ↦ true
    | some d ↦ not (data_equal format_int d required)
  ]

  unfoldable pub out_of_date :
      ConnectionDataMap → ConnectionDataMap → ConnectionDataMap → ConnectionDataMap
  unfolding is_out_of_date
  out_of_date current [] update = update
  out_of_date current ((name, d) ∷ required) update =
      out_of_date current required
        (if is_out_of_date current name d then insert name d update else update)

  unfoldable pub no_longer_required :
      ConnectionDataMap → ConnectionDataMap → ConnectionDataMap → ConnectionDataMap
  no_longer_required required [] delete = delete
  no_longer_required required ((name, d) ∷ current) delete =
      no_longer_required required current
        (if is_some (lookup name required) then delete else insert name d delete)

  -- The schema of a dynamic connection is not that of the state.
  unfoldable pub hash_changed :
      ConnectionDataMap → Dict String String → ConnectionDataMap → ConnectionDataMap
  hash_changed current [] update = update
  hash_changed current ((name, required_hash) ∷ hashes) update =
      hash_changed current hashes (elim (lookup name current) [
        | none ↦ update
        | some d ↦ if d.schema_hash == required_hash then update else insert name d update
      ])

  unfoldable pub add_back : PluginMap sdk → PluginMap sdk → PluginMap sdk
  add_back [] plugins = plugins
  add_back ((name, p) ∷ created) plugins = add_back created (insert name p plugins)

  unfoldable pub populate_connection_plugins :
      ConnectionDataMap → PluginMap sdk → Answer (PluginMap sdk × List String)
  unfolding connections remove_connections_from_list create_connection_plugins add_back
  populate_connection_plugins update created = connections env update >>= λ cs.
      create_connection_plugins sdk true (remove_connections_from_list env cs created)
      >>= λ (made : PluginMap sdk × List String). answer (add_back created made.0, made.1)

  abbrev pub from_state : Option ConnectionData → ConnectionData → ConnectionData
  from_state none v = v
  from_state (some c) v = record v { schema_mode = c.schema_mode; schema_hash = c.schema_hash }

  abbrev pub from_hash : Option String → ConnectionData → ConnectionData
  from_hash none v = v
  from_hash (some hash) v = record v { schema_hash = hash }

  abbrev pub from_schema : Schema → ConnectionData → ConnectionData
  from_schema s v = record v {
    schema_mode = s.mode;
    schema_hash =
        if s.mode == sdk.dynamic && is_empty v.schema_hash
        then plugin_schema_hash env s
        else v.schema_hash;
  }

  abbrev pub from_plugin : Option (ConnectionPlugin sdk) → ConnectionData → Answer ConnectionData
  from_plugin none v = answer v
  from_plugin (some p) v = elim p.schema [ none ↦ nil_pointer | some s ↦ answer (from_schema s v) ]

  unfoldable pub update_required_state_with_schema_properties :
      ConnectionDataMap
      → Dict String String
      → PluginMap sdk
      → ConnectionDataMap
      → Answer ConnectionDataMap
  update_required_state_with_schema_properties current hashes plugins [] = answer []
  update_required_state_with_schema_properties current hashes plugins ((k, v) ∷ required) =
      from_plugin (lookup k plugins) (from_hash (lookup k hashes) (from_state (lookup k current) v))
      >>= λ v'.
          update_required_state_with_schema_properties current hashes plugins required >>= λ rest.
          answer ((k, v') ∷ rest)

  abbrev pub updated :
      ConnectionDataMap → ConnectionDataMap → Dict String String → ConnectionDataMap
  updated required current hashes = hash_changed current hashes (out_of_date current required [])

  -- NewConnectionUpdates, for the connections of the config, the state file and the schemas of the
  -- database: the updates, and the warnings for plugins that did not start.
  unfoldable pub new_connection_updates :
      Dict String Connection → StateFile → List String → Answer (ConnectionUpdates × List String)
  unfolding new_connection_data_map get_connection_state get_schema_hashes_for_dynamic_schemas
      out_of_date no_longer_required hash_changed populate_connection_plugins
      update_required_state_with_schema_properties
  new_connection_updates config file schema_names =
      new_connection_data_map env config >>= λ (loaded : ConnectionDataMap × List String).
      get_connection_state file schema_names >>= λ current.
      get_schema_hashes_for_dynamic_schemas env loaded.0 current
      >>= λ (dynamic : Dict String String × PluginMap sdk).
          populate_connection_plugins (updated loaded.0 current dynamic.0) dynamic.1
          >>= λ (made : PluginMap sdk × List String).
              update_required_state_with_schema_properties current dynamic.0 made.0 loaded.0
              >>= λ required. answer (
                record {
                  update = updated loaded.0 current dynamic.0;
                  delete = no_longer_required loaded.0 current [];
                  missing_plugins = loaded.1;
                  required_connection_state = required;
                  connection_plugins = made.0;
                },
                made.1,
              )

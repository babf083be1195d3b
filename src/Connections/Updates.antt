-- ===== src/Connections/Updates.antt =====
-- steampipeconfig/connection_updates.go, and NewConnectionDataMap of connection_data_map.go: what
-- the database lacks of the connections in the config. Paths and times of plugin files, sorting,
-- the formatting of numbers and MD5 are the parameters of `Environment`.
pub mod Compare
pub mod Loaded
pub mod New
pub mod Needed
pub mod Settled
pub mod Unchanged
pub mod Again
pub mod Dynamic
pub mod Keys
pub mod Data
pub mod Refines
use steampipe.Prelude.{
  none, some, true, inl, inr, List, String, ℕ, Bool, if◌then◌else◌, ◌∷◌, [], ◌⊎◌, any, ◌++◌, ◌==◌,
  string_eq,
}
use steampipe.Connections.{
  answer, failed, nil_pointer, ◌>>=◌, ConnectionDataMap, new_connection_data, Connection, Answer,
  plugin_path_failed, mod_time_failed,
}
use steampipe.Connections.Plugins.{
  Sdk, Column, TableSchema, Schema, PluginMap, create_connection_plugins,
}
use steampipe.Prelude.Dict.{Dict, lookup, insert}
use steampipe.Connections.Schemas.{keys}
use steampipe.Prelude.Int.{ℤ}
use steampipe.Prelude.Text.{◌+++◌, is_empty}
use steampipe.Prelude.Options.{is_some}

pub record Environment : Type 1 where
  pub sdk : Sdk
  pub format_int : ℤ → String
  pub format_nat : ℕ → String
  pub sort_strings : List String → List String
  pub md5 : String → String
  -- GetPluginPath, by the plugin and its short name; "" for a plugin that is not installed
  pub get_plugin_path : String → String → String ⊎ String
  pub file_mod_time : String → String ⊎ ℕ

module _ (env : Environment) where
  open env use {sdk, format_int, format_nat, sort_strings, md5, get_plugin_path, file_mod_time}

  -- The variables of NewConnectionDataMap.
  pub record Loading : Type 0 where
    pub required : ConnectionDataMap
    pub missing_plugins : List String
    pub mod_times : Dict String ℕ

  abbrev pub string_slice_contains : List String → String → Bool
  string_slice_contains xs x = any (λ y. y == x) xs

  abbrev pub note_missing : String → Loading → Loading
  note_missing plugin s =
      if string_slice_contains s.missing_plugins plugin
      then s
      else record s { missing_plugins = s.missing_plugins ++ plugin ∷ [] }

  -- The plugin file's time, read once for each path.
  unfoldable pub mod_time_of : String → Dict String ℕ → Answer (ℕ × Dict String ℕ)
  mod_time_of path times = elim (lookup path times) [
    | some t ↦ answer (t, times)
    | none ↦ elim (file_mod_time path) [
      | inl err ↦ failed (mod_time_failed err)
      | inr t ↦ answer (t, insert path t times)
    ]
  ]

  unfoldable pub load_connection : String → Connection → Loading → Answer Loading
  unfolding mod_time_of new_connection_data
  load_connection name c s = elim (get_plugin_path c.plugin c.plugin_short_name) [
    | inl err ↦ failed (plugin_path_failed c.name err)
    | inr path ↦
        if is_empty path
        then answer (note_missing c.plugin s)
        else mod_time_of path s.mod_times >>= λ (m : ℕ × Dict String ℕ). answer (record s {
          required = insert name (new_connection_data c.plugin c m.0) s.required;
          mod_times = m.1;
        })
  ]

  unfoldable pub load_each : Dict String Connection → Loading → Answer Loading
  unfolding load_connection
  load_each [] s = answer s
  load_each ((name, c) ∷ connections) s = load_connection name c s >>= load_each connections

  unfoldable pub new_connection_data_map :
      Dict String Connection → Answer (ConnectionDataMap × List String)
  unfolding load_each
  new_connection_data_map connection_map =
      load_each connection_map (record { required = []; missing_plugins = []; mod_times = [] })
      >>= λ s. answer (s.required, s.missing_plugins)

  -- The columns and the tables of the text that is hashed.
  abbrev pub columns_text : List Column → String
  columns_text [] = ""
  columns_text (c ∷ columns) = c.name +++ format_nat c.type +++ columns_text columns

  abbrev pub tables_text : Dict String TableSchema → List String → String
  tables_text tables [] = ""
  tables_text tables (t ∷ names) =
      t
      +++ elim (lookup t tables) [ none ↦ "" | some schema ↦ columns_text schema.columns ]
      +++ tables_text tables names

  unfoldable pub plugin_schema_hash : Schema → String
  unfolding keys
  plugin_schema_hash s = md5 (tables_text s.tables (sort_strings (keys s.tables)))

  -- Connections, whose names are read next: a nil pointer where old data has no connection.
  unfoldable pub connections : ConnectionDataMap → Answer (List Connection)
  connections [] = answer []
  connections ((name, d) ∷ m) = elim d.connection [
    | none ↦ nil_pointer
    | some c ↦ connections m >>= λ cs. answer (c ∷ cs)
  ]

  unfoldable pub remove_connections_from_list : List Connection → PluginMap sdk → List Connection
  remove_connections_from_list [] created = []
  remove_connections_from_list (c ∷ cs) created =
      let rest = remove_connections_from_list cs created in
      if is_some (lookup c.name created) then rest else c ∷ rest

  -- The required connections whose state has a dynamic schema.
  unfoldable pub with_dynamic_schema : ConnectionDataMap → ConnectionDataMap → ConnectionDataMap
  with_dynamic_schema [] current = []
  with_dynamic_schema ((name, d) ∷ required) current =
      let rest = with_dynamic_schema required current in
      elim (lookup name current) [
        | none ↦ rest
        | some existing ↦ if existing.schema_mode == sdk.dynamic then (name, d) ∷ rest else rest
      ]

  unfoldable pub schema_hashes : PluginMap sdk → Answer (Dict String String)
  schema_hashes [] = answer []
  schema_hashes ((name, p) ∷ plugins) = elim p.schema [
    | none ↦ nil_pointer
    | some s ↦ schema_hashes plugins >>= λ hashes. answer ((name, plugin_schema_hash s) ∷ hashes)
  ]

  -- The warnings for plugins that did not start stay in a result that is dropped.
  unfoldable pub get_schema_hashes_for_dynamic_schemas :
      ConnectionDataMap → ConnectionDataMap → Answer (Dict String String × PluginMap sdk)
  unfolding connections with_dynamic_schema create_connection_plugins schema_hashes
  get_schema_hashes_for_dynamic_schemas required current =
      connections (with_dynamic_schema required current)
      >>= create_connection_plugins sdk true
      >>= λ (made : PluginMap sdk × List String).
          schema_hashes made.0 >>= λ hashes. answer (hashes, made.0)

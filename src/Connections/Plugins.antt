-- ===== src/Connections/Plugins.antt =====
-- steampipeconfig/connection_plugin.go: the plugins of connections, and the schemas that they have.
-- The plugin manager, the plugin SDK and the plugins themselves answer through the parameters of
-- `Sdk`. A client stands for a plugin process as it was last configured.
pub mod Filled
pub mod Created
pub mod Missing
pub mod Populated
use steampipe.Prelude.{
  ◌≡◌, none, some, String, List, Bool, Option, ℕ, ◌⊎◌, ◌∷◌, [], inr, inl, if◌then◌else◌, map, false,
  eqb, ◌++◌, string_eq, true,
}
use steampipe.Connections.{
  answer, failed, nil_pointer, ◌>>=◌, Connection, Answer, ConnectionOptions, plugin_manager_failed,
  schemas_failed,
}
use steampipe.Prelude.Dict.{Dict, lookup, insert}
use steampipe.Connections.Schemas.{
  new_connection_schema_map_for_connections, SchemaMap, unique_schemas, names_at,
}
use steampipe.Prelude.Text.{◌+++◌}
use steampipe.Prelude.Options.{is_some}

-- proto.ColumnDefinition, proto.TableSchema and proto.Schema, as far as the code reads them.
pub record Column : Type 0 where
  pub name : String
  pub type : ℕ
  pub description : String

pub record TableSchema : Type 0 where
  pub columns : List Column
  pub description : String

pub record Schema : Type 0 where
  pub mode : String
  pub protocol_version : ℕ
  pub tables : Dict String TableSchema

pub record Sdk : Type 1 where
  pub Client : Type 0
  pub SupportedOperations : Type 0
  pub dynamic : String  -- plugin.SchemaModeDynamic
  pub protocol_version : ℕ
  pub no_operations : SupportedOperations
  pub get_plugin_manager : Option String
  -- pluginManager.Get: the process id of each connection's plugin
  pub get : List String → String ⊎ Dict String ℕ
  pub attach : (pid : ℕ) → (plugin : String) → String ⊎ Client
  pub set_connection_config : Client → (name config : String) → String ⊎ Client
  pub get_supported_operations : Client → Option SupportedOperations
  pub get_schema : Client → String ⊎ Schema

module _ (sdk : Sdk) where
  open sdk use {
    Client, SupportedOperations, dynamic, no_operations, get_plugin_manager, get, attach,
    set_connection_config, get_supported_operations, get_schema,
  }

  pub record ConnectionPlugin : Type 0 where
    pub connection_name : String
    pub connection_config : String
    pub connection_options : Option ConnectionOptions
    pub plugin_name : String
    pub plugin_client : Client
    pub schema : Option Schema
    pub supported_operations : SupportedOperations

  abbrev pub PluginMap : Type 0
  PluginMap = Dict String ConnectionPlugin

  -- What createConnectionPlugin makes of a client.
  abbrev pub connection_plugin : Connection → Client → ConnectionPlugin
  connection_plugin c client = record {
    connection_name = c.name;
    connection_config = c.config;
    connection_options = c.options;
    plugin_name = c.plugin;
    plugin_client = client;
    schema = none;
    supported_operations = elim (get_supported_operations client) [
      | none ↦ no_operations
      | some operations ↦ operations
    ];
  }

  abbrev pub configured : Bool → Connection → Client → String ⊎ Client
  configured false c client = inr client
  configured true c client = set_connection_config client c.name c.config

  abbrev pub attached : Bool → Connection → ℕ → String ⊎ ConnectionPlugin
  attached config c pid = elim (attach pid c.plugin) [
    | inl err ↦ inl err
    | inr client ↦ elim (configured config c client) [
      | inl err ↦ inl err
      | inr client' ↦ inr (connection_plugin c client')
    ]
  ]

  -- A missing reattach config is a nil pointer.
  unfoldable pub create_connection_plugin :
      Bool → Connection → Dict String ℕ → Answer (String ⊎ ConnectionPlugin)
  create_connection_plugin config c reattach_map = elim (lookup c.name reattach_map) [
    | none ↦ nil_pointer
    | some pid ↦ answer (
        if eqb pid 0
        then inl ("plugin manager returned nil PID for " +++ c.name)
        else attached config c pid)
  ]

  abbrev pub plugin_warning : Connection → String → String
  plugin_warning c err = "failed to start plugin '" +++ c.plugin_short_name +++ "': " +++ err

  abbrev pub keep :
      Connection → String ⊎ ConnectionPlugin → PluginMap × List String → PluginMap × List String
  keep c (inl err) (plugins, warnings) = (plugins, warnings ++ plugin_warning c err ∷ [])
  keep c (inr p) (plugins, warnings) = (insert c.name p plugins, warnings)

  -- The loop over the connections of CreateConnectionPlugins.
  unfoldable pub create_each :
      Bool
      → Dict String ℕ
      → List Connection
      → PluginMap × List String
      → Answer (PluginMap × List String)
  unfolding create_connection_plugin
  create_each config reattach_map [] s = answer s
  create_each config reattach_map (c ∷ connections) s =
      create_connection_plugin config c reattach_map >>= λ made.
      create_each config reattach_map connections (keep c made s)

  -- The state of the loop of buildPluginSchemaMap: the schemas by plugin, and the errors.
  abbrev pub schema_fetched :
      ConnectionPlugin
      → String ⊎ Schema
      → Dict String Schema × List String
      → Dict String Schema × List String
  schema_fetched p (inl err) (schemas, errors) = (schemas, errors ++ err ∷ [])
  schema_fetched p (inr schema) (schemas, errors) = (insert p.plugin_name schema schemas, errors)

  unfoldable pub fetch_each :
      PluginMap → Dict String Schema × List String → Dict String Schema × List String
  fetch_each [] s = s
  fetch_each ((name, p) ∷ plugins) s = fetch_each plugins (
      if is_some (lookup p.plugin_name s.0)
      then s
      else schema_fetched p (get_schema p.plugin_client) s)

  unfoldable pub build_plugin_schema_map : PluginMap → Answer (Dict String Schema)
  unfolding fetch_each
  build_plugin_schema_map plugins =
      let (schemas, errors) = fetch_each plugins ([], []) in
      elim errors [ [] ↦ answer schemas | err ∷ more ↦ failed (schemas_failed (err ∷ more)) ]

  unfoldable pub build_schema_mode_map :
      PluginMap → Dict String Schema → Answer (Dict String String)
  build_schema_mode_map [] schemas = answer []
  build_schema_mode_map ((name, p) ∷ plugins) schemas = elim (lookup p.plugin_name schemas) [
    | none ↦ nil_pointer
    | some s ↦ build_schema_mode_map plugins schemas >>= λ modes. answer ((name, s.mode) ∷ modes)
  ]

  -- Every connection that uses a schema is given it, through the pointer of its plugin.
  unfoldable pub set_schema : Option Schema → List String → PluginMap → Answer PluginMap
  set_schema schema [] plugins = answer plugins
  set_schema schema (name ∷ names) plugins = elim (lookup name plugins) [
    | none ↦ nil_pointer
    | some p ↦ set_schema schema names (insert name (record p { schema = schema }) plugins)
  ]

  unfoldable pub set_schemas :
      Dict String Schema → SchemaMap → List String → PluginMap → Answer PluginMap
  unfolding set_schema
  set_schemas schemas uses [] plugins = answer plugins
  set_schemas schemas uses (c ∷ unique) plugins = elim (lookup c plugins) [
    | none ↦ set_schemas schemas uses unique plugins
    | some p ↦
        set_schema (lookup p.plugin_name schemas) (names_at c uses) plugins
        >>= set_schemas schemas uses unique
  ]

  unfoldable pub populate_connection_plugin_schemas : List Connection → PluginMap → Answer PluginMap
  unfolding build_plugin_schema_map build_schema_mode_map set_schemas
      new_connection_schema_map_for_connections unique_schemas
  populate_connection_plugin_schemas connections plugins =
      build_plugin_schema_map plugins >>= λ schemas.
      build_schema_mode_map plugins schemas >>= λ modes.
      let uses = new_connection_schema_map_for_connections dynamic connections modes in
      set_schemas schemas uses (unique_schemas uses) plugins

  -- CreateConnectionPlugins: the plugins, with the warnings for those that did not start.
  unfoldable pub create_connection_plugins :
      (set_config : Bool) → List Connection → Answer (PluginMap × List String)
  unfolding create_each populate_connection_plugin_schemas
  create_connection_plugins set_config connections = elim get_plugin_manager [
    | some err ↦ failed (plugin_manager_failed err)
    | none ↦ elim (get (map (λ c. c.name) connections)) [
      | inl err ↦ failed (plugin_manager_failed err)
      | inr reattach_map ↦ create_each set_config reattach_map connections ([], []) >>= λ made.
          populate_connection_plugin_schemas connections made.0 >>= λ plugins.
          answer (plugins, made.1)
    ]
  ]

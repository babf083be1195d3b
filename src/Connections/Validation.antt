-- ===== src/Connections/Validation.antt =====
-- steampipeconfig/connection_validation.go: plugins that are too new for this version, or serve a
-- connection with a reserved name, are kept out of the updates.
pub mod Valid
use steampipe.Prelude.{
  [], ◌∷◌, ◌≡◌, none, some, true, false, inl, inr, String, List, Bool, Option, ◌++◌, if◌then◌else◌,
  ℕ, eqb, ltb, string_eq,
}
use steampipe.Connections.Updates.{Environment, string_slice_contains}
use steampipe.Connections.Plugins.{ConnectionPlugin, Schema, PluginMap}
use steampipe.Connections.{ConnectionDataMap}
use steampipe.Prelude.Dict.{lookup, insert}

pub record ValidationFailure : Type 0 where
  pub plugin : String
  pub connection_name : String
  pub message : String
  pub should_drop_if_exists : Bool

abbrev pub reserved_connection_names : List String
reserved_connection_names = "public" ∷ "internal" ∷ []

module _ (env : Environment) where
  open env use {sdk}

  -- The protocol version of no schema is 0.
  abbrev pub protocol_version_of : Option Schema → ℕ
  protocol_version_of none = 0
  protocol_version_of (some s) = s.protocol_version

  unfoldable pub validate_column_def_version : ConnectionPlugin sdk → Option ValidationFailure
  validate_column_def_version p =
      let version = protocol_version_of p.schema in
      if eqb version 0
      then none
      else if ltb sdk.protocol_version version
      then some (record {
        plugin = p.plugin_name;
        connection_name = p.connection_name;
        message = "Incompatible steampipe-plugin-sdk version. Please upgrade Steampipe.";
        should_drop_if_exists = true;
      })
      else none

  unfoldable pub validate_connection_name : ConnectionPlugin sdk → Option ValidationFailure
  validate_connection_name p =
      if string_slice_contains env reserved_connection_names p.connection_name
      then some (record {
        plugin = p.plugin_name;
        connection_name = p.connection_name;
        message = "Connection name cannot be one of public,internal";
        should_drop_if_exists = false;
      })
      else none

  pub record Validation : Type 0 where
    pub failures : List ValidationFailure
    pub updates : ConnectionDataMap
    pub plugins : List (ConnectionPlugin sdk)

  abbrev pub add_failure : ValidationFailure → Validation → Validation
  add_failure failure v = record v { failures = v.failures ++ failure ∷ [] }

  abbrev pub add_plugin : ConnectionDataMap → ConnectionPlugin sdk → Validation → Validation
  add_plugin updates p v = record v {
    updates = elim (lookup p.connection_name updates) [
      | none ↦ v.updates
      | some d ↦ insert p.connection_name d v.updates
    ];
    plugins = v.plugins ++ p ∷ [];
  }

  unfoldable pub validate_plugin :
      ConnectionDataMap → ConnectionPlugin sdk → Validation → Validation
  unfolding validate_column_def_version validate_connection_name
  validate_plugin updates p v = elim (validate_column_def_version p) [
    | some failure ↦ add_failure failure v
    | none ↦ elim (validate_connection_name p) [
      | some failure ↦ add_failure failure v
      | none ↦ add_plugin updates p v
    ]
  ]

  unfoldable pub validate_each : ConnectionDataMap → PluginMap sdk → Validation → Validation
  unfolding validate_plugin
  validate_each updates [] v = v
  validate_each updates ((name, p) ∷ plugins) v =
      validate_each updates plugins (validate_plugin updates p v)

  -- ValidatePlugins
  unfoldable pub validate_plugins : ConnectionDataMap → PluginMap sdk → Validation
  unfolding validate_each
  validate_plugins updates plugins =
      validate_each updates plugins (record { failures = []; updates = []; plugins = [] })

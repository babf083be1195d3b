-- ===== src/Connections/Tests.antt =====
-- Runs on small configs, and the theorems at inputs that meet their hypotheses.
use steampipe.Prelude.{
  string_eq, [], ◌∷◌, ◌≡◌, none, some, true, false, inl, inr, arith, refl, ◌∙◌, String, ℕ,
  if◌then◌else◌, Bool, ◌==◌, eqb, List, All, ◌||◌, any, ◌&&◌, subst, not, ◌≢◌,
}
use steampipe.Connections.{
  answer, failed, nil_pointer, Connection, ConnectionData, ConnectionDataMap,
  RefreshConnectionResult, no_result, new_connection_data,
}
use steampipe.Connections.State.{no_file, parsed, get_connection_state}
use steampipe.Connections.Plugins.{
  Schema, Sdk, ConnectionPlugin, PluginMap, build_plugin_schema_map, create_connection_plugin,
  connection_plugin, build_schema_mode_map, create_connection_plugins,
  populate_connection_plugin_schemas,
}
use steampipe.Connections.Updates.{Environment, new_connection_data_map}
use steampipe.Connections.Refresh.{Database, refresh_connections}
use steampipe.Prelude.Dict.{Dict, lookup, NodupKeys, lookup-nil}
use steampipe.Connections.Schemas.Shared.{plugin_at}
use steampipe.Connections.Schemas.Once.{
  DistinctNames, occurrences, count, names_of,
  occurrences-new_connection_schema_map_for_connections,
}
use steampipe.Connections.Updates.Compare.{ConnectionUpdates, new_connection_updates}
use steampipe.Prelude.Options.{is_some}
use steampipe.Connections.Aggregator.Matches.{IsChild, AreChildren}
use steampipe.Connections.Aggregator.Children.{populate_children-validate}
use steampipe.Connections.Plugins.Created.{Values, HasStarted}
use steampipe.Connections.Refresh.Twice.{refresh_connections-updated}
use steampipe.Connections.Schemas.{new_connection_schema_map_for_connections}
use steampipe.Connections.Updates.Loaded.{IsResolved, new_connection_data_map-IsResolved}
use steampipe.Connections.Aggregator.{populate_children, validate}
use steampipe.Connections.Plugins.Populated.{HasSchema, create_connection_plugins-HasSchema}
use steampipe.Connections.Plugins.Missing.{populate_connection_plugin_schemas-nil_pointer}
use steampipe.Connections.Updates.Refines.{Turns, new_connection_updates-required_connection_state}

abbrev connection : String → String → String → Connection
connection name plugin config = record {
  name = name;
  plugin_short_name = plugin;
  plugin = plugin;
  type = "";
  connection_names = [];
  config = config;
  options = none;
}

abbrev static_schema : Schema
static_schema = record {
  mode = "static";
  protocol_version = 20;
  tables = ("bucket", record { columns = []; description = "a bucket" }) ∷ [];
}

-- Every plugin starts, but that of the process 9.
abbrev test_sdk : Sdk
test_sdk = record {
  Client = ℕ;
  SupportedOperations = Bool;
  dynamic = "dynamic";
  protocol_version = 20;
  no_operations = false;
  get_plugin_manager = none;
  get = λ names. inr (("aws", 7) ∷ ("aws2", 8) ∷ ("aws9", 9) ∷ []);
  attach = λ pid plugin. if eqb pid 9 then inl "no process" else inr pid;
  set_connection_config = λ client name config. inr client;
  get_supported_operations = λ client. some true;
  get_schema = λ client. inr static_schema;
}

abbrev test_env : Environment
test_env = record {
  sdk = test_sdk;
  format_int = λ n. "60";
  format_nat = λ n. "1";
  sort_strings = λ names. names;
  md5 = λ text. text;
  get_plugin_path =
      λ plugin short. inr (if plugin == "turbot/gone" then "" else "/plugins/a.plugin");
  file_mod_time = λ path. inr 5;
}

abbrev test_db : Database
test_db = record {
  schema_comments = true;
  plugin_fqn_to_schema_name = λ fqn. fqn;
  build_validation_warning_string = λ failures. "not imported";
  execute_sql_as_root = λ queries. none;
  write_state = λ state. none;
}

abbrev aws : Connection
aws = connection "aws" "turbot/aws" "region"

abbrev aws2 : Connection
aws2 = connection "aws2" "turbot/aws" "other region"

abbrev aws9 : Connection
aws9 = connection "aws9" "turbot/aws" "nowhere"

abbrev one_config : Dict String Connection
one_config = ("aws", aws) ∷ []

abbrev saved : ConnectionData
saved = record {
  struct_version = 20211125;
  plugin = "turbot/aws";
  connection = some aws;
  schema_mode = "static";
  schema_hash = "";
  mod_time = 5;
}

abbrev saved_state : ConnectionDataMap
saved_state = ("aws", saved) ∷ []

abbrev updated_result : RefreshConnectionResult
updated_result = record { updated_connections = true; warnings = []; error = none }

first_refresh :
    refresh_connections test_env test_db one_config no_file []
    ≡ answer (updated_result, parsed saved_state)
unfolding refresh_connections string_eq steampipe.Prelude.Dict.lookup steampipe.Prelude.Dict.insert
    steampipe.Connections.State.save_connection_state
first_refresh = refl

parsed_injective : (s t : ConnectionDataMap) → parsed s ≡ parsed t → s ≡ t
parsed_injective s t h = cc

saved_static : (saved.schema_mode == "dynamic") ≡ false
unfolding string_eq
saved_static = refl

stays_saved :
    (state : ConnectionDataMap)
    → parsed saved_state ≡ parsed state
    → Values (λ d. (d.schema_mode == "dynamic") ≡ false) state
      × ((n : String) → is_some (lookup n state) ≡ true → any (λ x. x == n) ("aws" ∷ []) ≡ true)
unfolding lookup
stays_saved state e =
    subst
      (λ (s : ConnectionDataMap).
        Values (λ d. (d.schema_mode == "dynamic") ≡ false) s
        × ((n : String) → is_some (lookup n s) ≡ true → any (λ x. x == n) ("aws" ∷ []) ≡ true))
      (parsed_injective saved_state state e) ((saved_static, tt), λ n h. ground (arith, h))

refresh_connections-updated_example :
    refresh_connections test_env test_db one_config (parsed saved_state) ("aws" ∷ [])
    ≡ answer (no_result, parsed saved_state)
refresh_connections-updated_example =
    refresh_connections-updated test_env test_db one_config no_file (parsed saved_state) []
      ("aws" ∷ []) updated_result (lookup-nil "aws", tt) (refl, _, refl) first_refresh refl
      stays_saved

-- The second of two connections of one plugin does not start.
abbrev two_config : List Connection
two_config = aws ∷ aws9 ∷ []

abbrev aws_plugin : ConnectionPlugin test_sdk
aws_plugin = connection_plugin test_sdk aws 7

abbrev started : PluginMap test_sdk
started = ("aws", aws_plugin) ∷ []

only_aws_started :
    (n p : String)
    → plugin_at n two_config ≡ some p
    → ("aws9" == n) ≡ false
    → is_some (lookup n started) ≡ true
unfolding plugin_at lookup
only_aws_started n p h other = ground (arith, h, other)

two_distinct : DistinctNames two_config
unfolding string_eq
two_distinct = ((refl, tt), (tt, tt))

populate_connection_plugin_schemas-nil_pointer_example :
    populate_connection_plugin_schemas test_sdk two_config started ≡ nil_pointer
unfolding build_plugin_schema_map build_schema_mode_map plugin_at
    new_connection_schema_map_for_connections lookup steampipe.Prelude.Dict.insert string_eq
populate_connection_plugin_schemas-nil_pointer_example =
    populate_connection_plugin_schemas-nil_pointer test_sdk two_config started
      (("turbot/aws", static_schema) ∷ []) (("aws", "static") ∷ []) "aws9" "turbot/aws" two_distinct
      refl refl refl refl only_aws_started refl

both_started :
    All (HasStarted test_sdk true (("aws", 7) ∷ ("aws2", 8) ∷ ("aws9", 9) ∷ [])) (aws ∷ aws2 ∷ [])
unfolding create_connection_plugin lookup string_eq
both_started = (
  (aws_plugin, static_schema, (refl, refl)),
  ((connection_plugin test_sdk aws2 8, static_schema, (refl, refl)), tt),
)

create_connection_plugins-HasSchema_example :
    (plugins : PluginMap test_sdk) × (create_connection_plugins test_sdk true (aws ∷ aws2 ∷ [])
      ≡ answer (plugins, []))
    × ((n q : String)
        → plugin_at n (aws ∷ aws2 ∷ []) ≡ some q
        → HasSchema test_sdk true
            (aws ∷ aws2 ∷ [])
            (("aws", 7) ∷ ("aws2", 8) ∷ ("aws9", 9) ∷ [])
            plugins
            n
            q)
unfolding string_eq
create_connection_plugins-HasSchema_example =
    create_connection_plugins-HasSchema test_sdk true (aws ∷ aws2 ∷ [])
      (("aws", 7) ∷ ("aws2", 8) ∷ ("aws9", 9) ∷ []) ((refl, tt), (tt, tt)) refl refl both_started

occurrences-new_connection_schema_map_for_connections_example :
    occurrences "aws9" (new_connection_schema_map_for_connections "dynamic" two_config [])
    ≡ count "aws9" (names_of two_config)
occurrences-new_connection_schema_map_for_connections_example =
    occurrences-new_connection_schema_map_for_connections "dynamic" two_config [] "aws9"
      two_distinct

loaded_one :
    new_connection_data_map test_env one_config
    ≡ answer (("aws", new_connection_data "turbot/aws" aws 5) ∷ [], [])
unfolding new_connection_data_map string_eq lookup steampipe.Prelude.Dict.insert
loaded_one = refl

new_connection_data_map-IsResolved_example :
    ((n : String) (c : Connection)
      → lookup n one_config ≡ some c
      → (times : Dict String ℕ) × IsResolved test_env
          (record {
            required = ("aws", new_connection_data "turbot/aws" aws 5) ∷ [];
            missing_plugins = [];
            mod_times = times;
          })
          n
          c)
    × ((n : String)
        → lookup n one_config ≡ none
        → lookup n (("aws", new_connection_data "turbot/aws" aws 5) ∷ []) ≡ none)
new_connection_data_map-IsResolved_example =
    new_connection_data_map-IsResolved test_env one_config
      (("aws", new_connection_data "turbot/aws" aws 5) ∷ []) [] (lookup-nil "aws", tt) loaded_one

-- A connection of the state is no longer in the config, and the configured one is new.
abbrev old_state : ConnectionDataMap
old_state = ("old", saved) ∷ []

abbrev first_updates : ConnectionUpdates test_env
first_updates = record {
  update = ("aws", new_connection_data "turbot/aws" aws 5) ∷ [];
  delete = old_state;
  missing_plugins = [];
  required_connection_state = saved_state;
  connection_plugins = ("aws", record aws_plugin { schema = some static_schema }) ∷ [];
}

updates_run :
    new_connection_updates test_env one_config (parsed old_state) ("old" ∷ [])
    ≡ answer (first_updates, [])
unfolding new_connection_updates new_connection_data string_eq lookup steampipe.Prelude.Dict.insert
updates_run = refl

named_one : (n : String) (c : Connection) → lookup n one_config ≡ some c → c.name ≡ n
unfolding lookup
named_one n c h = ground (arith, h)

old_current : get_connection_state (parsed old_state) ("old" ∷ []) ≡ answer old_state
unfolding get_connection_state lookup string_eq steampipe.Prelude.Dict.insert
old_current = refl

new_connection_updates-required_connection_state_example :
    Turns test_env old_state first_updates.update first_updates.delete
      first_updates.required_connection_state
new_connection_updates-required_connection_state_example =
    new_connection_updates-required_connection_state test_env one_config (parsed old_state)
      ("old" ∷ []) first_updates [] old_state (lookup-nil "aws", tt) named_one old_current
      updates_run

-- A plugin of a newer protocol is kept out.
abbrev newer : ConnectionPlugin test_sdk
newer = record aws_plugin { schema = some (record static_schema { protocol_version = 21 }) }

abbrev all_aws : Connection
all_aws = record (connection "all" "turbot/aws" "") {
  type = "aggregator";
  connection_names = "*" ∷ [];
}

abbrev aggregated : Dict String Connection
aggregated = ("aws", aws) ∷ ("all", all_aws) ∷ []

aggregated_distinct : NodupKeys aggregated
unfolding lookup string_eq
aggregated_distinct = (refl, (refl, tt))

-- The pattern `*` matches all names.
abbrev matches_all : String → String → Bool
matches_all pattern name = pattern == "*"

populate_children-validate_example :
    AreChildren matches_all "turbot/aws" aggregated
      ("*" ∷ [])
      (populate_children matches_all all_aws aggregated)
    × ((n : String) (child : Connection)
        → IsChild matches_all "turbot/aws" aggregated ("*" ∷ []) n child
        → lookup n (populate_children matches_all all_aws aggregated) ≡ some child)
    × (all_aws.type ≡ "aggregator"
        → ((n : String) (child : Connection)
            → any (λ x. x == n) ("*" ∷ []) ≡ true
            → lookup n aggregated ≡ some child
            → child.plugin ≡ "turbot/aws")
        → populate_children matches_all all_aws aggregated ≢ []
        → validate (λ n. "1") all_aws (populate_children matches_all all_aws aggregated) ≡ [])
populate_children-validate_example =
    populate_children-validate matches_all (λ n. "1") all_aws aggregated aggregated_distinct

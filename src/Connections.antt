-- ===== src/Connections.antt =====
-- steampipeconfig: connections, the plugins that serve them, and what a refresh has to update.
-- steampipeconfig/modconfig/connection.go, options/connection.go, connection_data.go,
-- connection_data_map.go and refresh_connections_result.go; the children are the other files of the
-- component. A time is a number, and `fmt.Sprintf("%d", n)` is the parameter `format_int`. Where
-- the code left a nil pointer to be read there is a panic.
pub mod Schemas
pub mod Plugins
pub mod State
pub mod Updates
pub mod Validation
pub mod Refresh
pub mod Aggregator
mod Tests
use steampipe.Prelude.{
  ◌≡◌, Option, none, some, true, false, Bool, String, ℕ, [], if◌then◌else◌, List, not, ◌==◌, ◌++◌,
  ◌&&◌, ◌∷◌, string_eq, nat_eq,
}
use steampipe.Prelude.Int.{ℤ}
use steampipe.Prelude.Dict.{Dict}
use steampipe.Prelude.Text.{◌+++◌}
use steampipe.Prelude.Options.{is_some}

-- options.Connection
pub record ConnectionOptions : Type 0 where
  pub cache : Option Bool
  pub cache_ttl : Option ℤ

-- The connections that a connection resolves to are not stored in it: see `Aggregator`.
pub record Connection : Type 0 where
  pub name : String
  pub plugin_short_name : String
  pub plugin : String  -- the fully qualified name
  pub type : String
  pub connection_names : List String
  pub config : String
  pub options : Option ConnectionOptions

abbrev pub format_cache : Option Bool → String
format_cache none = "  Cache: nil"
format_cache (some true) = "  Cache: true"
format_cache (some false) = "  Cache: false"

abbrev pub format_cache_ttl : (ℤ → String) → Option ℤ → String
format_cache_ttl format_int none = "  CacheTTL: nil"
format_cache_ttl format_int (some n) = "  CacheTTL: " +++ format_int n

-- (*options.Connection).String
unfoldable pub options_string : (ℤ → String) → Option ConnectionOptions → String
options_string format_int none = ""
options_string format_int (some o) =
    format_cache o.cache +++ "\n" +++ format_cache_ttl format_int o.cache_ttl

-- (*Connection).Equals
unfoldable pub options_equal :
    (ℤ → String) → Option ConnectionOptions → Option ConnectionOptions → Bool
unfolding options_string
options_equal format_int none other = not (is_some other)
options_equal format_int (some o) other =
    options_string format_int (some o) == options_string format_int other

unfoldable pub connections_equal : (ℤ → String) → Connection → Connection → Bool
unfolding options_equal
connections_equal format_int c other =
    c.name == other.name
    && options_equal format_int c.options other.options
    && c.config == other.config

abbrev pub connection_data_struct_version : ℕ
connection_data_struct_version = 20211125

-- The connection is nil in data that an old state file held.
pub record ConnectionData : Type 0 where
  pub struct_version : ℕ
  pub plugin : String
  pub connection : Option Connection
  pub schema_mode : String
  pub schema_hash : String
  pub mod_time : ℕ

unfoldable pub new_connection_data : String → Connection → ℕ → ConnectionData
new_connection_data remote_schema c creation_time = record {
  struct_version = connection_data_struct_version;
  plugin = remote_schema;
  connection = some c;
  schema_mode = "";
  schema_hash = "";
  mod_time = creation_time;
}

abbrev pub both_equal : (ℤ → String) → Option Connection → Option Connection → Bool
both_equal format_int (some c) (some other) = connections_equal format_int c other
both_equal format_int _ _ = false

-- (*ConnectionData).Equals
unfoldable pub data_equal : (ℤ → String) → ConnectionData → ConnectionData → Bool
unfolding connections_equal
data_equal format_int p other =
    p.plugin == other.plugin
    && p.mod_time == other.mod_time
    && both_equal format_int p.connection other.connection

abbrev pub ConnectionDataMap : Type 0
ConnectionDataMap = Dict String ConnectionData

-- What stops a refresh, by the call that fails.
pub data RefreshError : Type 0 where
  plugin_path_failed : (connection err : String) → RefreshError
  mod_time_failed : (err : String) → RefreshError
  state_not_read : (err : String) → RefreshError
  plugin_manager_failed : (err : String) → RefreshError
  schemas_failed : (errors : List String) → RefreshError
  plugins_missing : (plugins : List String) → RefreshError
  queries_failed : (err : String) → RefreshError
  state_not_saved : (err : String) → RefreshError

pub record RefreshConnectionResult : Type 0 where
  pub updated_connections : Bool
  pub warnings : List String
  pub error : Option RefreshError

abbrev pub no_result : RefreshConnectionResult
no_result = record { updated_connections = false; warnings = []; error = none }

unfoldable pub add_warning : String → RefreshConnectionResult → RefreshConnectionResult
add_warning warning r = record r { warnings = r.warnings ++ warning ∷ [] }

abbrev pub last_error : Option RefreshError → Option RefreshError → Option RefreshError
last_error e none = e
last_error e (some other) = some other

-- (*RefreshConnectionResult).Merge
unfoldable pub merge : RefreshConnectionResult → RefreshConnectionResult → RefreshConnectionResult
merge r other = record {
  updated_connections = if other.updated_connections then true else r.updated_connections;
  warnings = r.warnings ++ other.warnings;
  error = last_error r.error other.error;
}

-- What a call returns, or the panic of a nil pointer.
pub data Answer {ℓ} (A : Type ℓ) : Type ℓ where
  answer : A → Answer A
  failed : RefreshError → Answer A
  nil_pointer : Answer A

infixl 5 ◌>>=◌
abbrev pub ◌>>=◌ {ℓ κ} : {A : Type ℓ} {B : Type κ} → Answer A → (A → Answer B) → Answer B
answer a >>= f = f a
failed e >>= f = failed e
nil_pointer >>= f = nil_pointer

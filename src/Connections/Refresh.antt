-- ===== src/Connections/Refresh.antt =====
-- db/db_local/local_db_client_connections.go: the refresh of the database's schemas. The queries are
-- the texts that the code builds. Running them, writing the state file, the text of a validation
-- warning and hashed schema names are the parameters of `Database`. A file that could not be written
-- is taken to be as it was, and warnings that stand beside an error are left out.
pub mod Twice
use steampipe.Prelude.{
  [], ◌∷◌, ◌≡◌, none, some, true, false, inl, inr, Bool, String, List, if◌then◌else◌, ◌++◌, Option,
}
use steampipe.Connections.{
  answer, failed, nil_pointer, ◌>>=◌, ConnectionDataMap, RefreshConnectionResult, Answer,
  queries_failed, RefreshError, state_not_saved, plugins_missing, Connection,
}
use steampipe.Connections.Updates.{Environment}
use steampipe.Prelude.Text.{◌+++◌, is_empty}
use steampipe.Prelude.Dict.{Dict}
use steampipe.Connections.Validation.{Validation, ValidationFailure, validate_plugins}
use steampipe.Connections.Updates.Compare.{ConnectionUpdates, new_connection_updates}
use steampipe.Connections.State.{StateFile, save_connection_state}
use steampipe.Connections.Plugins.{Column, TableSchema, ConnectionPlugin}

pub record Database : Type 0 where
  pub schema_comments : Bool  -- viper's ArgSchemaComments
  pub plugin_fqn_to_schema_name : String → String
  pub build_validation_warning_string : List ValidationFailure → String
  pub execute_sql_as_root : List String → Option String
  pub write_state : ConnectionDataMap → Option String

abbrev pub pg_escape_name : String → String
pg_escape_name name = "\"" +++ name +++ "\""

abbrev pub pg_escape_string : String → String
pg_escape_string str = "$steampipe_escape$" +++ str +++ "$steampipe_escape$"

unfoldable pub update_connection_query : (local_schema remote_schema : String) → List String
update_connection_query local_schema remote_schema =
    let schema = pg_escape_name local_schema in
    ("drop schema if exists " +++ schema +++ " cascade;")
    ∷ ("create schema " +++ schema +++ ";")
    ∷ ("comment on schema " +++ schema +++ " is 'steampipe plugin: " +++ remote_schema +++ "';")
    ∷ ("grant usage on schema " +++ schema +++ " to steampipe_users;")
    ∷ ("alter default privileges in schema " +++ schema
        +++ " grant select on tables to steampipe_users;")
    ∷ ("grant select on all tables in schema " +++ schema +++ " to steampipe_users;")
    ∷ ("import foreign schema \"" +++ remote_schema +++ "\" from server steampipe into " +++ schema
        +++ ";")
    ∷ []

unfoldable pub delete_connection_query : String → List String
delete_connection_query name =
    ("DROP SCHEMA IF EXISTS " +++ pg_escape_name name +++ " CASCADE;") ∷ []

abbrev pub column_comments : (schema_name table : String) → List Column → List String
column_comments schema_name table [] = []
column_comments schema_name table (c ∷ columns) =
    let rest = column_comments schema_name table columns in
    if is_empty c.description
    then rest
    else ("COMMENT ON COLUMN "
        +++ schema_name
        +++ "."
        +++ table
        +++ "."
        +++ pg_escape_name c.name
        +++ " is "
        +++ pg_escape_string c.description
        +++ ";")
      ∷ rest

abbrev pub table_comment : (schema_name table description : String) → List String
table_comment schema_name table description =
    if is_empty description
    then []
    else ("COMMENT ON FOREIGN TABLE "
        +++ schema_name
        +++ "."
        +++ table
        +++ " is "
        +++ pg_escape_string description
        +++ ";")
      ∷ []

unfoldable pub comments_query : (schema_name : String) → Dict String TableSchema → List String
comments_query schema_name [] = []
comments_query schema_name ((t, schema) ∷ tables) =
    (table_comment schema_name (pg_escape_name t) schema.description
      ++ column_comments schema_name (pg_escape_name t) schema.columns)
    ++ comments_query schema_name tables

module _ (env : Environment) (db : Database) where
  open env use {sdk}

  unfoldable pub update_queries : ConnectionDataMap → List String
  unfolding update_connection_query
  update_queries [] = []
  update_queries ((name, d) ∷ updates) =
      update_connection_query name (db.plugin_fqn_to_schema_name d.plugin) ++ update_queries updates

  unfoldable pub drop_queries : List ValidationFailure → List String
  unfolding delete_connection_query
  drop_queries [] = []
  drop_queries (f ∷ failures) =
      (if f.should_drop_if_exists then delete_connection_query f.connection_name else [])
      ++ drop_queries failures

  unfoldable pub get_schema_queries : ConnectionDataMap → List ValidationFailure → List String
  unfolding update_queries drop_queries
  get_schema_queries updates failures = update_queries updates ++ drop_queries failures

  -- The schema of a plugin that passed is read; where there is none that is a nil pointer.
  unfoldable pub get_comment_queries : List (ConnectionPlugin sdk) → Answer (List String)
  unfolding comments_query
  get_comment_queries [] = answer []
  get_comment_queries (p ∷ plugins) = elim p.schema [
    | none ↦ nil_pointer
    | some s ↦ get_comment_queries plugins >>= λ rest.
        answer (comments_query (pg_escape_name p.connection_name) s.tables ++ rest)
  ]

  unfoldable pub delete_queries : ConnectionDataMap → List String
  unfolding delete_connection_query
  delete_queries [] = []
  delete_queries ((name, d) ∷ delete) = delete_connection_query name ++ delete_queries delete

  abbrev pub validation_warnings : List ValidationFailure → List String
  validation_warnings [] = []
  validation_warnings (f ∷ failures) = db.build_validation_warning_string (f ∷ failures) ∷ []

  abbrev pub queries_for : Validation env → Answer (List String × List String)
  queries_for v =
      (if db.schema_comments then get_comment_queries v.plugins else answer []) >>= λ comments.
      answer (get_schema_queries v.updates v.failures ++ comments, validation_warnings v.failures)

  -- The queries, and the warnings for plugins that are kept out.
  unfoldable pub build_connection_update_queries :
      ConnectionUpdates env → Answer (List String × List String)
  unfolding validate_plugins get_schema_queries get_comment_queries delete_queries
  build_connection_update_queries u =
      (elim u.update [
        | [] ↦ answer ([], [])
        | d ∷ update ↦ queries_for (validate_plugins env (d ∷ update) u.connection_plugins)
      ])
      >>= λ (q : List String × List String). answer (q.0 ++ delete_queries u.delete, q.1)

  -- The result, and the state file that the refresh leaves.
  abbrev pub Refreshed : Type 0
  Refreshed = RefreshConnectionResult × StateFile

  abbrev pub ended : List String → Option RefreshError → StateFile → Refreshed
  ended warnings error file =
      (record { updated_connections = false; warnings = warnings; error = error }, file)

  unfoldable pub run_queries :
      ConnectionUpdates env → List String → List String → StateFile → Refreshed
  run_queries u warnings [] file = ended warnings none file
  run_queries u warnings (q ∷ queries) file = elim (db.execute_sql_as_root (q ∷ queries)) [
    | some err ↦ ended warnings (some (queries_failed err)) file
    | none ↦ elim (db.write_state u.required_connection_state) [
      | some err ↦ ended warnings (some (state_not_saved err)) file
      | none ↦ (
        record { updated_connections = true; warnings = warnings; error = none },
        save_connection_state u.required_connection_state,
      )
    ]
  ]

  abbrev pub apply_updates : StateFile → ConnectionUpdates env × List String → Answer Refreshed
  apply_updates file (u, warnings) = elim u.missing_plugins [
    | p ∷ missing ↦ answer (ended warnings (some (plugins_missing (p ∷ missing))) file)
    | [] ↦ build_connection_update_queries u >>= λ (q : List String × List String).
        answer (run_queries u (warnings ++ q.1) q.0 file)
  ]

  abbrev pub with_error : StateFile → Answer Refreshed → Answer Refreshed
  with_error file (answer r) = answer r
  with_error file (failed e) = answer (ended [] (some e) file)
  with_error file nil_pointer = nil_pointer

  -- (*LocalDbClient).refreshConnections
  unfoldable pub refresh_connections :
      Dict String Connection → StateFile → List String → Answer Refreshed
  unfolding new_connection_updates build_connection_update_queries run_queries
  refresh_connections config file schema_names =
      with_error file (new_connection_updates env config file schema_names >>= apply_updates file)

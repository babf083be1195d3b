-- ===== src/Connections/State.antt =====
-- steampipeconfig/connection_state.go: the state of the connections between two refreshes, in a
-- JSON file. What reading the file comes to is `StateFile`.
use steampipe.Prelude.{none, some, String, List, ◌∷◌, [], if◌then◌else◌, ltb, string_eq}
use steampipe.Connections.{
  answer, failed, ◌>>=◌, ConnectionDataMap, Answer, state_not_read, connection_data_struct_version,
}
use steampipe.Prelude.Dict.{lookup, insert}

pub data StateFile : Type 0 where
  no_file : StateFile
  unreadable : (err : String) → StateFile
  unparsable : StateFile
  parsed : ConnectionDataMap → StateFile

-- The entries of an older struct version are deleted, so that their connections are refreshed.
unfoldable pub delete_old : ConnectionDataMap → ConnectionDataMap
delete_old [] = []
delete_old ((key, d) ∷ state) =
    let rest = delete_old state in
    if ltb d.struct_version connection_data_struct_version then rest else (key, d) ∷ rest

unfoldable pub load_connection_state_file : StateFile → Answer ConnectionDataMap
unfolding delete_old
load_connection_state_file no_file = answer []
load_connection_state_file (unreadable err) = failed (state_not_read err)
load_connection_state_file unparsable = answer []
load_connection_state_file (parsed state) = answer (delete_old state)

unfoldable pub prune_each : ConnectionDataMap → List String → ConnectionDataMap → ConnectionDataMap
prune_each connections [] actual = actual
prune_each connections (name ∷ schema_names) actual =
    prune_each connections schema_names
      (elim (lookup name connections) [ none ↦ actual | some c ↦ insert name c actual ])

unfoldable pub prune_connection_state : ConnectionDataMap → List String → ConnectionDataMap
unfolding prune_each
prune_connection_state connections schema_names = prune_each connections schema_names []

unfoldable pub get_connection_state : StateFile → List String → Answer ConnectionDataMap
unfolding load_connection_state_file prune_connection_state
get_connection_state file schema_names =
    load_connection_state_file file >>= λ state. answer (prune_connection_state state schema_names)

-- The file that SaveConnectionState leaves, where the write succeeds.
unfoldable pub save_connection_state : ConnectionDataMap → StateFile
save_connection_state state = parsed state

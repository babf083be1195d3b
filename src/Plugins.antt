-- ===== src/Plugins.antt =====
-- pluginmanager/plugin_manager.go: the plugin processes, and the requests that share them.
-- A request is a thread. Its sections between two accesses of shared state are steps, and `Step` lets
-- the environment choose the order of the requests, the answers of the operating system and of a
-- plugin's start, and a time-out. A placeholder is shared through a pointer, so there is a heap.
-- A section under the lock is one step, so the order of its writes does not show.
-- `SetConnectionConfigMap` and gRPC serving play no part in a request.
pub mod Stuck
pub mod Restart
pub mod Collect
mod Tests
use steampipe.Prelude.{
  String, Option, none, ℕ, Bool, false, if◌then◌else◌, [], some, ◌≡◌, List, eqb, string_eq, true,
  ◌∷◌, ◌+◌,
}
use steampipe.Prelude.Dict.{Dict, lookup, insert, erase}

pub record ConnectionConfig : Type 0 where
  pub plugin : String
  pub plugin_short_name : String

-- runningPlugin; a client is known by the process id that its reattach config tells.
pub record RunningPlugin : Type 0 where
  pub client : Option ℕ
  pub reattach : Option ℕ
  pub initialized : Bool  -- is the channel closed?

pub record PluginManager : Type 0 where
  pub plugins : Dict String ℕ
  pub heap : ℕ → RunningPlugin
  pub next : ℕ  -- the next free pointer
  pub connection_config : Dict String ConnectionConfig

pub data PluginError : Type 0 where
  timed_out : String → PluginError
  no_config : String → PluginError
  no_plugin_path : String → PluginError
  start_failed : String → PluginError
  -- a panic that `getPlugin` recovers from
  nil_pointer : PluginError
  closed_channel : PluginError

-- What starting a plugin comes to: `GetPluginPath`, then `client.Start`.
pub data Launch : Type 0 where
  no_path : String → Launch
  no_start : String → Launch
  launched : (pid : ℕ) → Launch

-- Where a call of `getPlugin` stands.
pub data Request : Type 0 where
  asked : (connection : String) → Request
  waiting : (connection : String) (p : ℕ) → Request
  loaded : (connection : String) (p : ℕ) → Request
  starting : (connection : String) → Request
  storing : (connection : String) (pid : ℕ) → Request
  returned : (pid : ℕ) → Request
  failed : PluginError → Request

abbrev pub placeholder : RunningPlugin
placeholder = record { client = none; reattach = none; initialized = false }

abbrev pub set_heap : ℕ → RunningPlugin → (ℕ → RunningPlugin) → ℕ → RunningPlugin
set_heap i p heap j = if eqb i j then p else heap j

unfoldable pub new_plugin_manager : Dict String ConnectionConfig → PluginManager
new_plugin_manager config = record {
  plugins = [];
  heap = λ i. placeholder;
  next = 0;
  connection_config = config;
}

unfoldable pub set_connection_config_map :
    Dict String ConnectionConfig → PluginManager → PluginManager
set_connection_config_map config m = record m { connection_config = config }

abbrev pub found_in_map : String → Option ℕ → PluginManager → PluginManager × Request
found_in_map connection (some p) m = (m, waiting connection p)
found_in_map connection none m = (
  record m {
    plugins = insert connection m.next m.plugins;
    heap = set_heap m.next placeholder m.heap;
    next = m.next + 1;
  },
  starting connection,
)

-- The first locked section.
unfoldable pub look_up : String → PluginManager → PluginManager × Request
look_up connection m = found_in_map connection (lookup connection m.plugins) m

-- waitForPluginLoad: the channel is closed, or else the time is up; both may be so.
unfoldable pub wait_for_plugin_load : (timeout : Bool) → String → ℕ → PluginManager → Option Request
wait_for_plugin_load true connection p m = some (failed (timed_out connection))
wait_for_plugin_load false connection p m =
    if (m.heap p).initialized then some (loaded connection p) else none

abbrev pub checked_pid :
    (exists : Bool) → String → Option ℕ → PluginManager → PluginManager × Request
checked_pid exists connection none m = (m, failed nil_pointer)
checked_pid true connection (some pid) m = (m, returned pid)
checked_pid false connection (some pid) m =
    (record m { plugins = erase connection m.plugins }, starting connection)

-- `PidExists`, and the removal from the map
unfoldable pub check_pid : (exists : Bool) → String → ℕ → PluginManager → PluginManager × Request
check_pid exists connection p m = checked_pid exists connection (m.heap p).reattach m

abbrev pub launch_result : String → Launch → Request
launch_result connection (no_path err) = failed (no_plugin_path err)
launch_result connection (no_start err) = failed (start_failed err)
launch_result connection (launched pid) = storing connection pid

abbrev pub with_config : String → Option ConnectionConfig → (ConnectionConfig → Launch) → Request
with_config connection none launch = failed (no_config connection)
with_config connection (some config) launch = launch_result connection (launch config)

unfoldable pub start_plugin : (ConnectionConfig → Launch) → String → PluginManager → Request
start_plugin launch connection m =
    with_config connection (lookup connection m.connection_config) launch

abbrev pub filled : ℕ → RunningPlugin
filled pid = record { client = some pid; reattach = some pid; initialized = true }

-- Closing a closed channel panics, after the assignments.
abbrev pub stored_at : ℕ → Option ℕ → PluginManager → PluginManager × Request
stored_at pid none m = (m, failed nil_pointer)
stored_at pid (some p) m = (
  record m { heap = set_heap p (filled pid) m.heap },
  if (m.heap p).initialized then failed closed_channel else returned pid,
)

unfoldable pub store_client_to_map : String → ℕ → PluginManager → PluginManager × Request
store_client_to_map connection pid m = stored_at pid (lookup connection m.plugins) m

-- One step of a request, with what the environment chooses.
pub data Step (m : PluginManager) : Request → PluginManager → Request → Type 0 where
  enter : (c : String) → Step m (asked c) (look_up c m).0 (look_up c m).1
  wait :
      (timeout : Bool) (c : String) (p : ℕ) (r : Request)
      → wait_for_plugin_load timeout c p m ≡ some r
      → Step m (waiting c p) m r
  check :
      (exists : Bool) (c : String) (p : ℕ)
      → Step m (loaded c p) (check_pid exists c p m).0 (check_pid exists c p m).1
  start :
      (launch : ConnectionConfig → Launch) (c : String)
      → Step m (starting c) m (start_plugin launch c m)
  store :
      (c : String) (pid : ℕ)
      → Step m (storing c pid) (store_client_to_map c pid m).0 (store_client_to_map c pid m).1

-- Any number of requests at once: one of them takes a step.
pub record Calls : Type 0 where
  pub manager : PluginManager
  pub requests : ℕ → Request

abbrev pub set_request : ℕ → Request → (ℕ → Request) → ℕ → Request
set_request i r requests j = if eqb i j then r else requests j

pub data Reach (s : Calls) : Calls → Type 0 where
  here : Reach s s
  next_step :
      {t : Calls} (i : ℕ) (m : PluginManager) (r : Request)
      → Reach s t
      → Step t.manager (t.requests i) m r
      → Reach s (record { manager = m; requests = set_request i r t.requests })

abbrev pub killed : Option ℕ → List ℕ × Option PluginError → List ℕ × Option PluginError
killed none rest = ([], some nil_pointer)
killed (some pid) (pids, err) = (pid ∷ pids, err)

-- The loop of `Shutdown`: the processes that it kills, and the panic at a plugin without a reattach
-- config, which ends it.
unfoldable pub shutdown : PluginManager → Dict String ℕ → List ℕ × Option PluginError
shutdown m [] = ([], none)
shutdown m ((_, p) ∷ plugins) = killed (m.heap p).reattach (shutdown m plugins)

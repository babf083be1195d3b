-- ===== src/Dashboard/Execution.antt =====
-- dashboard/dashboardexecute: `Execute` of the runs of a dashboard, which are goroutines.
-- A run is a number, and the tree says of each what it is and which run is its parent. A step is what
-- a goroutine does between two accesses of what it shares; the answers of the database, of the control
-- execution and of a cancelled context are the environment's. Events that are published, the data of
-- a query and the value that is set on a dependency are left out. Messages of errors are strings, and
-- `errorf` is what `fmt.Errorf` makes of a format without arguments.
pub mod Steps
pub mod Turn
pub mod Past
pub mod Outcome
pub mod Room
pub mod Select
pub mod Wake
pub mod Blocked
mod Tests
use steampipe.Prelude.{
  String, List, Option, ℕ, Bool, none, [], not, all, if◌then◌else◌, ◌⊎◌, eqb, some, ◌==◌, inl, inr,
  false, string_eq, true, length, ltb, ◌++◌, ◌∷◌, ◌≡◌,
}
use steampipe.Prelude.Dict.{Dict, lookup}
use steampipe.Prelude.Text.{◌+++◌}
use steampipe.Dashboard.Build.{DashboardRunStatus, is_ready, ready, complete, error}
use steampipe.Prelude.Split.{join}

pub record RuntimeDependency : Type 0 where  -- the parts of its property path that are read
  pub item_type : String
  pub name : String

pub data NodeKind : Type 0 where
  container_node : (children : List ℕ) → NodeKind
  leaf_node : List RuntimeDependency → NodeKind
  check_node : NodeKind

pub record Node : Type 0 where
  pub kind : NodeKind
  pub parent : Option ℕ  -- none: the execution tree

-- The runs, and the inputs of the root dashboard with their values.
pub record ExecutionTree : Type 0 where
  pub node : ℕ → Node
  pub dashboard_name : String
  pub inputs : Dict String (Option String)

-- Where `Execute` of a run stands.
pub data Phase : Type 0 where
  idle : Phase
  -- the tree was complete from the start
  skipped : Phase
  waiting : Phase
  selecting : Phase
  depending : List RuntimeDependency → Phase
  subscribed : (delivered : Bool) → List RuntimeDependency → Phase
  querying : Phase
  checking : Phase
  setting : Option String → Phase
  notifying : Option String → Phase
  returning : Option String → Phase
  ended : Phase

pub record NodeRun : Type 0 where
  pub phase : Phase
  pub status : DashboardRunStatus
  pub error : Option String
  pub errors : List String
  pub child_complete : List ℕ  -- the channel that children report to
  pub err_chan : List String

pub record Execution : Type 0 where
  pub runs : ℕ → NodeRun
  pub run_complete : List ℕ  -- the channel of the execution tree, for one message

-- A run as `NewDashboardRun` and the others leave it.
abbrev pub new_node_run : DashboardRunStatus → NodeRun
new_node_run status = record {
  phase = idle;
  status = status;
  error = none;
  errors = [];
  child_complete = [];
  err_chan = [];
}

unfoldable pub new_execution : (ℕ → DashboardRunStatus) → Execution
new_execution statuses = record { runs = λ i. new_node_run (statuses i); run_complete = [] }

abbrev pub run_complete : NodeRun → Bool
run_complete n = not (is_ready n.status)

abbrev pub children_complete : List ℕ → (ℕ → NodeRun) → Bool
children_complete children runs = all (λ (c : ℕ). run_complete (runs c)) children

abbrev pub set_run : ℕ → NodeRun → (ℕ → NodeRun) → ℕ → NodeRun
set_run i n runs j = if eqb i j then n else runs j

-- SetComplete and SetError, up to the message to the parent
unfoldable pub set_status : Option String → NodeRun → NodeRun
set_status none n = record n { status = complete; phase = notifying none }
set_status (some err) n = record n {
  status = error;
  error = some err;
  phase = notifying (some err);
}

abbrev pub input_of :
    (name : String) → RuntimeDependency → Option (Option String) → Option String ⊎ String
input_of name dependency (some value) = inl value
input_of name dependency none =
    inr ("dashboard " +++ name +++ " does not contain input " +++ dependency.item_type)

unfoldable pub get_runtime_dependency : ExecutionTree → RuntimeDependency → Option String ⊎ String
get_runtime_dependency tree dependency =
    if dependency.item_type == "input"
    then input_of tree.dashboard_name dependency (lookup dependency.name tree.inputs)
    else inr ("invalid runtime dependency type " +++ dependency.item_type)

-- One round of `waitForRuntimeDependencies`. A new subscription has no message.
abbrev pub on_dependency : Option String ⊎ String → List RuntimeDependency → Phase
on_dependency (inl (some value)) dependencies = depending dependencies
on_dependency (inl none) dependencies = subscribed false dependencies
on_dependency (inr err) dependencies = returning (some err)

-- A leaf with nothing to do returns.
abbrev pub on_resolved : DashboardRunStatus → Phase
on_resolved ready = querying
on_resolved complete = returning none
on_resolved error = querying

-- `Execute` of the execution tree returns when the root is complete.
abbrev pub first_phase : NodeKind → (parent : Option ℕ) → DashboardRunStatus → Phase
first_phase (container_node children) none complete = skipped
first_phase (container_node children) none ready = waiting
first_phase (container_node children) none error = waiting
first_phase (container_node children) (some p) status = waiting
first_phase (leaf_node dependencies) parent status = depending dependencies
first_phase check_node parent status = checking

-- Has the loop over the children started their goroutines?
abbrev pub has_spawned : Phase → Bool
has_spawned idle = false
has_spawned skipped = false
has_spawned _ = true

abbrev pub is_spawned : (parent : Option ℕ) → (ℕ → NodeRun) → Bool
is_spawned none runs = true
is_spawned (some p) runs = has_spawned (runs p).phase

-- The message to the channel of the parent, which is blocked when the channel is full.
abbrev pub child_count : NodeKind → ℕ
child_count (container_node children) = length children
child_count (leaf_node dependencies) = 0
child_count check_node = 0

abbrev pub has_room : ExecutionTree → (parent : Option ℕ) → Execution → Bool
has_room tree none x = ltb (length x.run_complete) 1
has_room tree (some p) x = ltb (length (x.runs p).child_complete) (child_count (tree.node p).kind)

unfoldable pub send_complete : (parent : Option ℕ) → ℕ → Execution → Execution
send_complete none i x = record x { run_complete = x.run_complete ++ (i ∷ []) }
send_complete (some p) i x = record x {
  runs =
      set_run p (record (x.runs p) { child_complete = (x.runs p).child_complete ++ (i ∷ []) })
        x.runs;
}

-- `executeChild` sends an error on; for the root, `ExecuteDashboardNode` sets it, unless it is set.
abbrev pub after_return : (parent : Option ℕ) → Option String → DashboardRunStatus → Phase
after_return parent none status = ended
after_return (some p) (some err) status = ended
after_return none (some err) error = ended
after_return none (some err) ready = setting (some err)
after_return none (some err) complete = setting (some err)

unfoldable pub send_error : (parent : Option ℕ) → Option String → Execution → Execution
send_error parent none x = x
send_error none (some err) x = x
send_error (some p) (some err) x = record x {
  runs = set_run p (record (x.runs p) { err_chan = (x.runs p).err_chan ++ (err ∷ []) }) x.runs;
}

-- Is there room in the channel for errors?
abbrev pub has_error_room : ExecutionTree → (parent : Option ℕ) → Option String → Execution → Bool
has_error_room tree parent none x = true
has_error_room tree none (some err) x = true
has_error_room tree (some p) (some err) x =
    ltb (length (x.runs p).err_chan) (child_count (tree.node p).kind)

abbrev pub set_phase : ℕ → Phase → Execution → Execution
set_phase i phase x = record x { runs = set_run i (record (x.runs i) { phase = phase }) x.runs }

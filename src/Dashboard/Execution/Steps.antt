-- ===== src/Dashboard/Execution/Steps.antt =====
-- dashboardexecute: the steps of the goroutines, and what they reach.
use steampipe.Prelude.Split.{join}
use steampipe.Dashboard.Execution.{
  on_resolved, has_error_room, container_node, leaf_node, check_node, setting, notifying, returning,
  waiting, selecting, idle, depending, subscribed, querying, checking, ExecutionTree, Execution,
  NodeRun, is_spawned, children_complete, set_phase, RuntimeDependency, first_phase, on_dependency,
  set_run, get_runtime_dependency, has_room, send_complete, set_status, after_return, send_error,
}
use steampipe.Prelude.{
  String, List, Option, ℕ, none, ◌≡◌, ◌∷◌, if◌then◌else◌, some, ◌++◌, true, [], Bool,
}

module _ (errorf : String → String) where
  -- utils.CombineErrors, of errors that are not nil
  unfoldable pub combine_errors : List String → Option String
  unfolding join
  combine_errors [] = none
  combine_errors (err ∷ []) = some err
  combine_errors (err ∷ next ∷ errors) = some (errorf (join ("" ∷ err ∷ next ∷ errors) "\n\t"))

  -- The test of the loop in a container's `Execute`, and what comes after the loop.
  unfoldable pub check_children : List ℕ → (ℕ → NodeRun) → NodeRun → NodeRun
  unfolding combine_errors
  check_children children runs n = record n {
    phase =
        if children_complete children runs then setting (combine_errors n.errors) else selecting;
  }

  -- A step of one run that concerns no other; the hypotheses say where the run stands.
  pub data Local (tree : ExecutionTree) (runs : ℕ → NodeRun) (i : ℕ) : NodeRun → Type 0 where
    check_loop :
        (children : List ℕ)
        → (tree.node i).kind ≡ container_node children
        → (runs i).phase ≡ waiting
        → Local tree runs i (check_children children runs (runs i))
    receive_complete :
        (children : List ℕ) (c : ℕ) (rest : List ℕ)
        → (tree.node i).kind ≡ container_node children
        → (runs i).phase ≡ selecting
        → (runs i).child_complete ≡ c ∷ rest
        → Local tree runs i (record (runs i) { phase = waiting; child_complete = rest })
    receive_error :
        (children : List ℕ) (err : String) (rest : List String)
        → (tree.node i).kind ≡ container_node children
        → (runs i).phase ≡ selecting
        → (runs i).err_chan ≡ err ∷ rest
        → Local tree runs i (record (runs i) {
          phase = waiting;
          errors = (runs i).errors ++ (err ∷ []);
          err_chan = rest;
        })
    dependency :
        (all rest : List RuntimeDependency) (d : RuntimeDependency)
        → (tree.node i).kind ≡ leaf_node all
        → (runs i).phase ≡ depending (d ∷ rest)
        → Local tree runs i
            (record (runs i) { phase = on_dependency (get_runtime_dependency tree d) rest })
    deliver :
        (all rest : List RuntimeDependency)
        → (tree.node i).kind ≡ leaf_node all
        → (runs i).phase ≡ subscribed true rest
        → Local tree runs i (record (runs i) { phase = depending rest })
    cancel :
        (all rest : List RuntimeDependency) (delivered : Bool) (err : String)
        → (tree.node i).kind ≡ leaf_node all
        → (runs i).phase ≡ subscribed delivered rest
        → Local tree runs i (record (runs i) { phase = returning (some err) })
    resolve :
        (all : List RuntimeDependency)
        → (tree.node i).kind ≡ leaf_node all
        → (runs i).phase ≡ depending []
        → Local tree runs i (record (runs i) { phase = on_resolved (runs i).status })
    query :
        (all : List RuntimeDependency) (answer : Option String)
        → (tree.node i).kind ≡ leaf_node all
        → (runs i).phase ≡ querying
        → Local tree runs i (record (runs i) { phase = setting answer })
    check_controls :
        (answer : Option String)
        → (tree.node i).kind ≡ check_node
        → (runs i).phase ≡ checking
        → Local tree runs i (record (runs i) { phase = setting answer })
    set :
        (err : Option String)
        → (runs i).phase ≡ setting err
        → Local tree runs i (set_status err (runs i))

  pub data Step (tree : ExecutionTree) (x : Execution) : Execution → Type 0 where
    start :
        (i : ℕ)
        → (x.runs i).phase ≡ idle
        → is_spawned (tree.node i).parent x.runs ≡ true
        → Step tree x
            (set_phase i (first_phase (tree.node i).kind (tree.node i).parent (x.runs i).status) x)
    move :
        (i : ℕ) (n : NodeRun)
        → Local tree x.runs i n
        → Step tree x (record x { runs = set_run i n x.runs })
    notify :
        (i : ℕ) (err : Option String)
        → (x.runs i).phase ≡ notifying err
        → has_room tree (tree.node i).parent x ≡ true
        → Step tree x (set_phase i (returning err) (send_complete (tree.node i).parent i x))
    finish :
        (i : ℕ) (err : Option String)
        → (x.runs i).phase ≡ returning err
        → has_error_room tree (tree.node i).parent err x ≡ true
        → Step tree x (
            set_phase i
              (after_return (tree.node i).parent err (x.runs i).status)
              (send_error (tree.node i).parent err x))

  pub data Reach (tree : ExecutionTree) (x : Execution) : Execution → Type 0 where
    at_start : Reach tree x x
    then_step : {y z : Execution} → Reach tree x y → Step tree y z → Reach tree x z

-- ===== src/Control/Tree.antt =====
-- control/controlexecute/execution_tree.go and the construction of groups in result_group.go.
-- A tree of groups is built once, so it is a value here; the counters of its groups, which runs share,
-- are those of Control/Groups.antt. The items that a mod declares are a tree without cycles.
-- Resolving a query, running it, and parsing a URL query are parameters.
pub mod Filter
pub mod Built
pub mod Found
pub mod Finished
mod Tests
use steampipe.Prelude.{
  String, List, [], Option, Bool, if◌then◌else◌, length, none, some, ◌∷◌, true, ltb, ◌==◌, any, ◌⊎◌,
  string_eq, ◌++◌, inl, ℕ, inr, ◌+◌,
}
use steampipe.Control.Progress.{new_control_progress, ControlProgress}
use steampipe.Control.Run.{set_error, Attempt, skip, RunState, execute}
use steampipe.Control.Colors.{
  populate, DimensionColorGenerator, new_dimension_color_generator, ColorError,
}
use steampipe.Control.Results.{failed_count, StatusSummary, ResultRow}

pub record Control : Type 0 where
  pub name : String
  pub short_name : String
  pub tags : List String

-- The items of a mod: a list of children is its own type.
mutual
  pub data ModTreeItem : Type 0 where
    control : Control → ModTreeItem
    benchmark : (name : String) → Items → ModTreeItem
    -- a mod, or another item that is neither
    other_item : (name : String) → Items → ModTreeItem

  pub data Items : Type 0 where
    no_items : Items
    add_item : ModTreeItem → Items → Items

-- A group and its subgroups, with the runs that the group holds itself.
mutual
  pub data GroupNode : Type 0 where
    group : (group_id : String) → List Control → GroupNodes → GroupNode

  pub data GroupNodes : Type 0 where
    no_groups : GroupNodes
    add_group : GroupNode → GroupNodes → GroupNodes

unfoldable mutual
  pub control_run_count : GroupNode → ℕ
  control_run_count (group id runs below) = length runs + groups_run_count below

  pub groups_run_count : GroupNodes → ℕ
  groups_run_count no_groups = 0
  groups_run_count (add_group g others) = control_run_count g + groups_run_count others

-- What the loop over children makes: the group's runs and subgroups, and the runs that are appended
-- to the list of the whole tree.
pub record Children : Type 0 where
  pub runs : List Control
  pub groups : GroupNodes
  pub tree_runs : List Control

abbrev pub no_children : Children
no_children = record { runs = []; groups = no_groups; tree_runs = [] }

-- `controlNameFilterMap`; nil is `none`.
unfoldable pub should_include_control : Option (List String) → String → Bool
should_include_control none name = true
should_include_control (some names) name = any (λ n. n == name) names

-- `AddControl`, ahead of what the later children add
unfoldable pub add_control : Option (List String) → Control → Children → Children
unfolding should_include_control
add_control filter_map c rest =
    if should_include_control filter_map c.short_name
    then record { runs = c ∷ rest.runs; groups = rest.groups; tree_runs = c ∷ rest.tree_runs }
    else rest

abbrev pub node : String → Children → GroupNode
node name children = group name children.runs children.groups

unfoldable pub add_benchmark : String → Children → Children → Children
unfolding control_run_count
add_benchmark name sub rest = record {
  runs = rest.runs;
  groups =
      if ltb 0 (control_run_count (node name sub))
      then add_group (node name sub) rest.groups
      else rest.groups;
  tree_runs = sub.tree_runs ++ rest.tree_runs;
}

-- The loop of `NewResultGroup`.
unfoldable mutual
  unfolding add_control add_benchmark

  pub add_child : Option (List String) → ModTreeItem → Children → Children
  add_child filter_map (control c) rest = add_control filter_map c rest
  add_child filter_map (benchmark name items) rest =
      add_benchmark name (children_of filter_map items) rest
  add_child filter_map (other_item name items) rest = rest

  pub children_of : Option (List String) → Items → Children
  children_of filter_map no_items = no_children
  children_of filter_map (add_item item items) =
      add_child filter_map item (children_of filter_map items)

-- `NewRootResultGroup` for the one root item: its group is kept even if it is empty.
unfoldable pub root_children : Option (List String) → ModTreeItem → Children
unfolding add_control children_of
root_children filter_map (control c) = add_control filter_map c no_children
root_children filter_map (benchmark name items) =
    let sub = children_of filter_map items in
    record { runs = []; groups = add_group (node name sub) no_groups; tree_runs = sub.tree_runs }
root_children filter_map (other_item name items) =
    let sub = children_of filter_map items in
    record { runs = []; groups = add_group (node name sub) no_groups; tree_runs = sub.tree_runs }

pub record ExecutionTree : Type 0 where
  pub root : GroupNode
  pub control_runs : List Control
  pub progress : ControlProgress

-- `NewExecutionTree`, once the filter and the root item are known
unfoldable pub new_execution_tree : Option (List String) → ModTreeItem → ExecutionTree
unfolding root_children new_control_progress
new_execution_tree filter_map item =
    let children = root_children filter_map item in
    record {
      root = node "root_result_group" children;
      control_runs = children.tree_runs;
      progress = new_control_progress (length children.tree_runs);
    }

abbrev pub id_of : GroupNode → String
id_of (group id _ _) = id

-- `GetGroupByName`, on a group's subgroups
unfoldable pub get_group_by_name : GroupNodes → String → Option GroupNode
get_group_by_name no_groups name = none
get_group_by_name (add_group g others) name =
    if id_of g == name then some g else get_group_by_name others name

abbrev pub or_else {ℓ} : {A : Type ℓ} → Option A → Option A → Option A
or_else (some a) other = some a
or_else none other = other

unfoldable mutual
  pub get_child_group_by_name : GroupNode → String → Option GroupNode
  get_child_group_by_name (group id runs below) name = search_groups below name

  pub search_groups : GroupNodes → String → Option GroupNode
  search_groups no_groups name = none
  search_groups (add_group g others) name =
      let below = get_child_group_by_name g name in
      let beside = search_groups others name in
      if id_of g == name then some g else or_else below beside

-- `GetControlRunByName`, on a group's runs
unfoldable pub get_control_run_by_name : List Control → String → Option Control
get_control_run_by_name [] name = none
get_control_run_by_name (run ∷ runs) name =
    if run.name == name then some run else get_control_run_by_name runs name

-- The order in which `ResultGroup.execute` comes to the runs: a group's own, then its subgroups'.
unfoldable mutual
  pub execution_order : GroupNode → List Control
  execution_order (group id runs below) = runs ++ groups_order below

  pub groups_order : GroupNodes → List Control
  groups_order no_groups = []
  groups_order (add_group g others) = execution_order g ++ groups_order others

-- What `ResultGroup.execute` meets at one run.
pub data Turn : Type 0 where
  context_cancelled : String → Turn
  dry_run : Turn
  no_lock : String → Turn
  goes : Attempt → Turn
  -- `execute` panics in its course
  panics : (err : String) → (RunState → RunState) → Turn

-- One round of the loop of `ResultGroup.execute`.
unfoldable pub take_turn : Turn → RunState → RunState
unfolding set_error skip execute
take_turn (context_cancelled err) s = set_error err s
take_turn dry_run s = skip s
take_turn (no_lock err) s = set_error err s
take_turn (goes attempt) s = execute attempt s
take_turn (panics err before) s = set_error err (before s)

-- The tags of all runs, each once, in the order of their first occurrence.
abbrev pub add_tags : List String → List String → List String
add_tags columns [] = columns
add_tags columns (tag ∷ tags) =
    if any (λ c. c == tag) columns
    then add_tags columns tags
    else add_tags (columns ++ tag ∷ []) tags

unfoldable pub get_all_tags_from : List String → List Control → List String
get_all_tags_from columns [] = columns
get_all_tags_from columns (c ∷ controls) = get_all_tags_from (add_tags columns c.tags) controls

unfoldable pub get_all_tags : ExecutionTree → List String
unfolding get_all_tags_from
get_all_tags e = get_all_tags_from [] e.control_runs

abbrev pub color_rows :
    DimensionColorGenerator ⊎ ColorError → List (List ResultRow) → Option DimensionColorGenerator
unfolding populate
color_rows (inl g) rows = populate g rows
color_rows (inr err) rows = none

-- The end of `Execute`: the exit code, and the colours.
unfoldable pub finish_execute :
    StatusSummary → List (List ResultRow) → ℕ × Option DimensionColorGenerator
unfolding failed_count new_dimension_color_generator
finish_execute root_status rows =
    (failed_count root_status, color_rows (new_dimension_color_generator 4 27) rows)

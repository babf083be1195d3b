-- ===== src/Dashboard/Build.antt =====
-- dashboard/dashboardexecute: the tree of runs that `NewDashboardRun`, `NewDashboardContainerRun`,
-- `NewCheckRun` and `NewLeafRun` make.
-- A resource is given with what `ResolveQuery` answers for it; titles, widths and paths are left out.
pub mod Root
pub mod Status
mod Tests
use steampipe.Prelude.{
  String, Bool, List, ◌⊎◌, inr, inl, Option, if◌then◌else◌, ℕ, true, ◌∷◌, some, false, none, ◌||◌,
}
use steampipe.Names.{ParsedResourceName, NameError, parse_resource_name}
use steampipe.Names.Unique.{get_unique_name}

pub data DashboardRunStatus : Type 0 where
  ready complete error : DashboardRunStatus

pub data ContainerKind : Type 0 where
  dashboard container : ContainerKind

pub data CheckKind : Type 0 where
  control benchmark : CheckKind

mutual
  pub data Resource : Type 0 where
    container_of : ContainerKind → (name : String) → Resources → Resource
    check : CheckKind → (name : String) → Resource
    -- a leaf without a query, or with the answer of `ResolveQuery`
    leaf : (name : String) → Option (String ⊎ String) → Resource
    -- a child that is no leaf node
    no_leaf : (name : String) → Resource

  pub data Resources : Type 0 where
    no_resources : Resources
    add_resource : Resource → Resources → Resources

pub data BuildError : Type 0 where
  not_a_leaf_node : String → BuildError
  invalid_resource_name : NameError → BuildError
  unresolved_query : String → BuildError
  not_a_report : (item_type : String) → BuildError
  no_report : String → BuildError
  already_running : String → BuildError
  -- the loop for a unique name does not run out (Names/Unique.antt)
  no_unique_name : BuildError

mutual
  pub data Run : Type 0 where
    container_run : ContainerKind → (name : String) → DashboardRunStatus → Runs → Run
    check_run : CheckKind → (name : String) → DashboardRunStatus → Run
    leaf_run : (name node_type sql : String) → DashboardRunStatus → Run

  pub data Runs : Type 0 where
    no_runs : Runs
    add_run : Run → Runs → Runs

unfoldable pub get_run_status : Run → DashboardRunStatus
get_run_status (container_run kind name status children) = status
get_run_status (check_run kind name status) = status
get_run_status (leaf_run name node_type sql status) = status

abbrev pub is_ready : DashboardRunStatus → Bool
is_ready ready = true
is_ready complete = false
is_ready error = false

-- The parts of the execution tree that building changes: the names taken, and the names of `runs`.
pub record Registry : Type 0 where
  pub names : List String
  pub runs : List String

-- A step of building, which may fail.
abbrev pub Building : Type 0 → Type 0
Building A = Registry → (A × Registry) ⊎ BuildError

abbrev pub then_run :
    {A B : Type 0} → (A → Building B) → (A × Registry) ⊎ BuildError → (B × Registry) ⊎ BuildError
then_run f (inl (a, r)) = f a r
then_run f (inr err) = inr err

infixl 5 ◌>>=◌
abbrev pub ◌>>=◌ : {A B : Type 0} → Building A → (A → Building B) → Building B
◌>>=◌ m f r = then_run f (m r)

abbrev pub fail : {A : Type 0} → BuildError → Building A
fail err r = inr err

abbrev pub done : {A : Type 0} → A → Building A
done a r = inl (a, r)

-- executionTree.runs[r.Name] = r
abbrev pub register : String → Run → Building Run
register name run r = inl (run, record r { runs = name ∷ r.runs })

abbrev pub found_name : Option (String × List String) → Building String
found_name none r = inr no_unique_name
found_name (some (name, names)) r = inl (name, record r { names = names })

abbrev pub leaf_status : Option (String ⊎ String) → DashboardRunStatus
leaf_status none = complete
leaf_status (some query) = ready

-- The query of a leaf; without one it is empty.
abbrev pub leaf_sql : Option (String ⊎ String) → Building String
leaf_sql none = done ""
leaf_sql (some (inl sql)) = done sql
leaf_sql (some (inr err)) = fail (unresolved_query err)

abbrev pub node_type_of : ParsedResourceName ⊎ NameError → Building String
node_type_of (inl parsed) = done parsed.item_type
node_type_of (inr err) = fail (invalid_resource_name err)

-- A container is complete, unless a child is ready.
abbrev pub any_ready : Runs → Bool
unfolding get_run_status
any_ready no_runs = false
any_ready (add_run run runs) = is_ready (get_run_status run) || any_ready runs

abbrev pub container_status : Runs → DashboardRunStatus
container_status runs = if any_ready runs then ready else complete

module _ (decimal : ℕ → String) where
  abbrev pub unique_name : String → Building String
  unfolding get_unique_name
  unique_name name r = found_name (get_unique_name decimal r.names name) r

  unfoldable pub new_leaf_run : String → Option (String ⊎ String) → Building Run
  unfolding parse_resource_name
  new_leaf_run name query = do
    unique ← unique_name name
    node_type ← node_type_of (parse_resource_name name)
    sql ← leaf_sql query
    register unique (leaf_run unique node_type sql (leaf_status query))

  unfoldable pub new_check_run : CheckKind → String → Building Run
  new_check_run kind name = do
    unique ← unique_name name
    register unique (check_run kind unique ready)

  unfoldable mutual
    unfolding new_leaf_run new_check_run

    -- The `switch` on a child.
    pub new_run : Resource → Building Run
    new_run (container_of kind name children) = do
      unique ← unique_name name
      runs ← new_runs children
      register unique (container_run kind unique (container_status runs) runs)
    new_run (check kind name) = new_check_run kind name
    new_run (leaf name query) = new_leaf_run name query
    new_run (no_leaf name) = fail (not_a_leaf_node name)

    -- The loop over the children.
    pub new_runs : Resources → Building Runs
    new_runs no_resources = done no_runs
    new_runs (add_resource child children) = do
      run ← new_run child
      runs ← new_runs children
      done (add_run run runs)

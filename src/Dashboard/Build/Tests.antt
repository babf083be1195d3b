-- ===== src/Dashboard/Build/Tests.antt =====
-- dashboardexecute: the theorem on the status of runs, for a dashboard with a container.
use steampipe.Prelude.{◌≡◌, ℕ, String, none, [], ◌∷◌, inl, refl}
use steampipe.Dashboard.Build.{
  add_resource, no_resources, container_of, leaf, check, control, dashboard, container, add_run,
  no_runs, container_run, check_run, leaf_run, ready, complete, Resource, Run, Registry, new_run,
  is_ready, get_run_status,
}
use steampipe.Dashboard.Build.Status.{has_work, new_run-is_ready}

unary : ℕ → String
unary n = "1"

abbrev nested : Resource
nested = container_of dashboard "m.dashboard.d" (
    add_resource (leaf "m.text.t" none) (
      add_resource
        (container_of container "m.container.c" (
          add_resource (check control "m.control.a")
            (add_resource (check control "m.control.a") no_resources)))
        no_resources))

abbrev nested_run : Run
nested_run = container_run dashboard "m.dashboard.d" ready (
    add_run (leaf_run "m.text.t" "text" "" complete) (
      add_run
        (container_run container "m.container.c" ready (
          add_run (check_run control "m.control.a" ready)
            (add_run (check_run control "m.control.a_1" ready) no_runs)))
        no_runs))

abbrev no_registry : Registry
no_registry = record { names = []; runs = [] }

abbrev full_registry : Registry
full_registry = record {
  names = "m.control.a_1" ∷ "m.control.a" ∷ "m.container.c" ∷ "m.text.t" ∷ "m.dashboard.d" ∷ [];
  runs = "m.dashboard.d" ∷ "m.container.c" ∷ "m.control.a_1" ∷ "m.control.a" ∷ "m.text.t" ∷ [];
}

nested-made : new_run unary nested no_registry ≡ inl (nested_run, full_registry)
unfolding new_run steampipe.Dashboard.Build.unique_name steampipe.Prelude.string_eq
    steampipe.Prelude.Split.split steampipe.Prelude.Split.is_char unary
    steampipe.Dashboard.Build.any_ready
nested-made = refl

new_run-is_ready_example : is_ready (get_run_status nested_run) ≡ has_work nested
new_run-is_ready_example =
    new_run-is_ready unary nested nested_run no_registry full_registry nested-made

-- ===== src/Dashboard/Build/Root.antt =====
-- dashboardexecute: the root of an execution tree (`createRootItem`), and the dashboards that run
-- (`ExecuteDashboardNode`). The dashboards of the workspace are a map to their children.
use steampipe.Prelude.{ℕ, String, List, Option, ◌⊎◌, [], if◌then◌else◌, ◌==◌, ◌∷◌, none, string_eq}
use steampipe.Names.{parse_resource_name, ParsedResourceName, NameError}
use steampipe.Dashboard.Build.{
  new_run, Resources, Run, Building, Registry, fail, BuildError, no_report, inr, some,
  invalid_resource_name, inl, container_of, already_running, dashboard, not_a_report,
}
use steampipe.Prelude.Dict.{Dict, lookup}
use steampipe.Control.Groups.Keys.{contains}

module _ (decimal : ℕ → String) where
  abbrev pub root_of : String → Option Resources → Building Run
  unfolding new_run
  root_of report_name none = fail (no_report report_name)
  root_of report_name (some children) =
      new_run decimal (container_of dashboard report_name children)

  abbrev pub root_item :
      Dict String Resources → String → ParsedResourceName ⊎ NameError → Building Run
  root_item dashboards report_name (inr err) = fail (invalid_resource_name err)
  root_item dashboards report_name (inl parsed) =
      if parsed.item_type == "dashboard"
      then root_of report_name (lookup report_name dashboards)
      else fail (not_a_report parsed.item_type)

  unfoldable pub create_root_item : Dict String Resources → String → Building Run
  unfolding parse_resource_name
  create_root_item dashboards report_name =
      root_item dashboards report_name (parse_resource_name report_name)

  unfoldable pub new_report_execution_tree :
      Dict String Resources → String → (Run × Registry) ⊎ BuildError
  unfolding create_root_item
  new_report_execution_tree dashboards report_name =
      create_root_item dashboards report_name (record { names = []; runs = [] })

  -- The names in the map `executions` after a dashboard has started.
  abbrev pub with_execution :
      String → List String → (Run × Registry) ⊎ BuildError → (Run × List String) ⊎ BuildError
  with_execution dashboard_name executions (inr err) = inr err
  with_execution dashboard_name executions (inl (run, r)) = inl (run, dashboard_name ∷ executions)

  unfoldable pub execute_dashboard_node :
      Dict String Resources → List String → String → (Run × List String) ⊎ BuildError
  unfolding new_report_execution_tree
  execute_dashboard_node dashboards executions dashboard_name =
      if contains dashboard_name executions
      then inr (already_running dashboard_name)
      else with_execution dashboard_name executions
          (new_report_execution_tree dashboards dashboard_name)

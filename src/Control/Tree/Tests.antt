-- ===== src/Control/Tree/Tests.antt =====
-- execution_tree.go: the theorems at a small benchmark.
use steampipe.Control.Tree.{
  Control, ModTreeItem, new_execution_tree, benchmark, other_item, control_run_count, root_children,
  add_item, children_of, control, no_items, group, execution_order, add_group, no_groups,
}
use steampipe.Prelude.{Option, List, ◌∷◌, [], String, ◌≡◌, some, length, string_eq, refl}
use steampipe.Control.Results.{ResultRow}
use steampipe.Control.Tree.Built.{
  included, controls_of, items_of, new_execution_tree-included, new_execution_tree-IsComplete,
}
use steampipe.Prelude.Int.{pos}
use mathlib.Core.List.{Perm}

abbrev open_port : Control
open_port = record { name = "mod.control.open_port"; short_name = "open_port"; tags = "cis" ∷ [] }

abbrev weak_key : Control
weak_key = record { name = "mod.control.weak_key"; short_name = "weak_key"; tags = [] }

abbrev network : ModTreeItem
network = benchmark "mod.benchmark.network" (add_item (control open_port) no_items)

abbrev keys : ModTreeItem
keys = benchmark "mod.benchmark.keys" (add_item (control weak_key) no_items)

abbrev cis : ModTreeItem
cis = other_item "mod.mod" (add_item network (add_item keys (add_item (control weak_key) no_items)))

abbrev only_ports : Option (List String)
only_ports = some ("open_port" ∷ [])

new_execution_tree-IsComplete_example :
    let e = new_execution_tree only_ports cis in
    (control_run_count e.root ≡ length e.control_runs)
    × (e.progress.total ≡ pos (length e.control_runs))
    × Perm (execution_order e.root) e.control_runs
new_execution_tree-IsComplete_example = new_execution_tree-IsComplete only_ports cis

new_execution_tree-included_example :
    (new_execution_tree only_ports cis).control_runs
    ≡ included only_ports (controls_of (items_of cis))
new_execution_tree-included_example = new_execution_tree-included only_ports cis

-- The group of the keys has no run and is left out.
ports_tree :
    (new_execution_tree only_ports cis).root
    ≡ group "root_result_group" [] (
        add_group
          (group "mod.mod" []
            (add_group (group "mod.benchmark.network" (open_port ∷ []) no_groups) no_groups))
          no_groups)
unfolding new_execution_tree root_children children_of string_eq control_run_count
ports_tree = refl

abbrev one_row : List (List ResultRow)
one_row =
    (record {
      reason = "open";
      resource = "sg-1";
      status = "alarm";
      dimensions = record { key = "region"; value = "eu" } ∷ [];
    }
      ∷ [])
    ∷ []

-- ===== src/Control/Groups/Tests.antt =====
-- Tests of the groups' counters, and their theorems at concrete inputs.
use mathlib.Core.List.Perm
use steampipe.Prelude.{
  String, Option, none, ◌∷◌, ◌≡◌, ◌%◌, ℕ, some, arith, [], zero, string_eq, ◌≤◌, refl, ◌+◌, ◌<◌,
}
use steampipe.Control.Groups.{
  Heap, update_severity_counts, round, suc, update_summary, add_status, millisecond, ResultGroup,
}
use steampipe.Control.Groups.Climb.{IsTree}
use steampipe.Control.Results.{StatusSummary, no_results}
use steampipe.Control.Groups.Totals.{update_all, total_under, update_all-perm, update_all-total}
use steampipe.Prelude.Dict.{lookup, insert}
use steampipe.Control.Groups.Duration.{round_lem}

abbrev empty_group : String → Option ℕ → ResultGroup
empty_group name parent = record {
  group_id = name;
  summary_status = no_results;
  summary_severity = [];
  severity = [];
  parent = parent;
  duration = 0;
  dimension_keys = [];
}

-- The root, two benchmarks in it, and one in the first of these.
abbrev tree : Heap
tree zero = empty_group "root_result_group" none
tree (suc zero) = empty_group "cis" (some 0)
tree (suc (suc zero)) = empty_group "pci" (some 0)
tree (suc (suc (suc i))) = empty_group "cis_1" (some 1)

tree-IsTree : IsTree tree
tree-IsTree zero p e = cc
tree-IsTree (suc zero) p e = ground arith
tree-IsTree (suc (suc zero)) p e = ground arith
tree-IsTree (suc (suc (suc i))) p e = ground arith

abbrev alarms : StatusSummary
alarms = record { alarm = 2; ok = 1; info = 0; skip = 0; error = 0 }

abbrev oks : StatusSummary
oks = record { alarm = 0; ok = 5; info = 0; skip = 0; error = 0 }

root_counts :
    (update_all ((3, alarms) ∷ (2, oks) ∷ []) tree 0).summary_status
    ≡ record { alarm = 2; ok = 6; info = 0; skip = 0; error = 0 }
unfolding update_all update_summary add_status
root_counts = refl

update_all-total_example :
    (update_all ((3, alarms) ∷ (2, oks) ∷ []) tree 1).summary_status
    ≡ add_status (tree 1).summary_status (total_under tree 1 ((3, alarms) ∷ (2, oks) ∷ []))
update_all-total_example = update_all-total ((3, alarms) ∷ (2, oks) ∷ []) tree 1 tree-IsTree

update_all-perm_example :
    (update_all ((3, alarms) ∷ (2, oks) ∷ []) tree 0).summary_status
    ≡ (update_all ((2, oks) ∷ (3, alarms) ∷ []) tree 0).summary_status
update_all-perm_example =
    update_all-perm ((3, alarms) ∷ (2, oks) ∷ []) ((2, oks) ∷ (3, alarms) ∷ []) tree 0 tree-IsTree
      (Perm.swap _ _ [])

-- The second control's counts replace those of the first.
severity_replaced :
    lookup "high"
      (update_severity_counts 2 "high" oks
        (update_severity_counts 3 "high" alarms tree)
        0).summary_severity
    ≡ some oks
unfolding update_severity_counts add_status insert lookup string_eq
severity_replaced = refl

round_lem_example :
    (round 1600000 % millisecond ≡ 0)
    × (round 1600000 ≤ 1600000 + 500000)
    × (1600000 < round 1600000 + 500000 + 1)
    × (round (round 1600000) ≡ round 1600000)
round_lem_example = round_lem 1600000

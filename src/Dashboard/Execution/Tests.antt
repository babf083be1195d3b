-- ===== src/Dashboard/Execution/Tests.antt =====
-- dashboardexecute: the theorems on execution, for a dashboard with one child.
use steampipe.Prelude.{
  ◌≡◌, ◌∷◌, [], none, some, String, zero, suc, ℕ, true, refl, List, any, eqb, ap, ◌⊎◌, sym, ◌≤◌,
  ◌∙◌, arith, inr, false,
}
use steampipe.Dashboard.Build.{ready, DashboardRunStatus}
use steampipe.Dashboard.Execution.{
  check_node, leaf_node, container_node, NodeKind, ExecutionTree, NodeRun, new_execution, Execution,
  Node, set_run, set_phase, set_status, checking, setting, has_room, selecting, waiting, returning,
  children_complete, RuntimeDependency, depending, get_runtime_dependency, send_complete,
  after_return, ended,
}
use steampipe.Dashboard.Execution.Steps.{
  at_start, then_step, check_controls, set, start, move, check_loop, check_children, Reach, notify,
  receive_complete, dependency,
}
use steampipe.Dashboard.Execution.Select.{IsTree, to_come}
use steampipe.Dashboard.Execution.Room.{Reach-has_room}
use steampipe.Dashboard.Execution.Turn.{unread}
use steampipe.Dashboard.Execution.Wake.{Reach-to_come}
use steampipe.Dashboard.Execution.Outcome.{outcome, Reach-outcome}
use steampipe.Dashboard.Execution.Past.{is_past, Reach-children_complete}
use steampipe.Dashboard.Execution.Blocked.{Reach-blocked}

no_format : String → String
no_format s = s

abbrev with_child : NodeKind → ℕ → Node
with_child kind zero = record { kind = container_node (1 ∷ []); parent = none }
with_child kind (suc zero) = record { kind = kind; parent = some 0 }
with_child kind (suc (suc i)) = record { kind = leaf_node []; parent = none }

abbrev dashboard_of : NodeKind → ExecutionTree
dashboard_of kind = record { node = with_child kind; dashboard_name = "m.dashboard.d"; inputs = [] }

abbrev of_check : ExecutionTree
of_check = dashboard_of check_node

of_check-IsTree : IsTree of_check
of_check-IsTree = record { parent_of_child = up; child_of_parent = down }
  where
    up :
        (i : ℕ) (children : List ℕ) (c : ℕ)
        → (of_check.node i).kind ≡ container_node children
        → any (λ (k : ℕ). eqb c k) children ≡ true
        → (of_check.node c).parent ≡ some i
    up zero children c kind elem =
        let same : children ≡ 1 ∷ [] = cc in
        child c (ap (λ (l : List ℕ). any (λ (k : ℕ). eqb c k) l) (sym same) ∙ elem)
      where
        child :
            (c : ℕ) → any (λ (k : ℕ). eqb c k) (1 ∷ []) ≡ true → (of_check.node c).parent ≡ some 0
        child zero h = cc
        child (suc zero) h = refl
        child (suc (suc c)) h = absurd (ground arith)
    up (suc zero) children c kind elem = cc
    up (suc (suc i)) children c kind elem = cc

    down :
        (i : ℕ) (children : List ℕ) (c : ℕ)
        → (of_check.node i).kind ≡ container_node children
        → (of_check.node c).parent ≡ some i
        → any (λ (k : ℕ). eqb c k) children ≡ true
    down zero children zero kind parent = cc
    down zero children (suc zero) kind parent = let same : children ≡ 1 ∷ [] = cc in rw same
    down zero children (suc (suc c)) kind parent = cc
    down (suc zero) children c kind parent = cc
    down (suc (suc i)) children c kind parent = cc

abbrev all_ready : ℕ → DashboardRunStatus
all_ready i = ready

abbrev moved_to : ℕ → NodeRun → Execution → Execution
moved_to i n x = record x { runs = set_run i n x.runs }

abbrev begun : Execution
unfolding new_execution
begun = set_phase 1 checking (set_phase 0 selecting (set_phase 0 waiting (new_execution all_ready)))

Reach-begun : Reach no_format of_check (new_execution all_ready) begun
unfolding new_execution check_children
Reach-begun =
    then_step
      (then_step (then_step at_start (start 0 refl refl))
        (move 0 _ (check_loop (1 ∷ []) refl refl)))
      (start 1 refl refl)

abbrev told : Execution
told =
    moved_to 1 (set_status none (record (begun.runs 1) { phase = setting none }))
      (set_phase 1 (setting none) begun)

Reach-told : Reach no_format of_check (new_execution all_ready) told
unfolding new_execution
Reach-told =
    then_step (then_step Reach-begun (move 1 _ (check_controls none refl refl)))
      (move 1 _ (set none refl))

Reach-to_come_example :
    (any (λ (c : ℕ). to_come (told.runs c)) (1 ∷ []) ≡ true) ⊎ (1 ≤ unread (told.runs 0))
unfolding new_execution
Reach-to_come_example =
    Reach-to_come no_format of_check of_check-IsTree all_ready Reach-told 0 (1 ∷ []) refl refl

Reach-has_room_example : has_room of_check (some 0) told ≡ true
unfolding new_execution set_status
Reach-has_room_example =
    Reach-has_room no_format of_check of_check-IsTree all_ready Reach-told 0 1 (1 ∷ []) none refl
      refl refl

-- The child has told its container, which tests its children again and ends.
abbrev received : Execution
received =
    let sent = set_phase 1 (returning none) (send_complete (some 0) 1 told) in
    moved_to 0 (record (sent.runs 0) { phase = waiting; child_complete = [] }) sent

abbrev over : Execution
over =
    let end = set_phase 0 (setting none) received in
    set_phase 0 (returning none)
      (send_complete none 0 (moved_to 0 (set_status none (end.runs 0)) end))

Reach-over : Reach no_format of_check (new_execution all_ready) over
unfolding set_status begun send_complete check_children
Reach-over =
    then_step
      (then_step
        (then_step
          (then_step (then_step Reach-told (notify 1 none refl refl))
            (move 0 _ (receive_complete (1 ∷ []) 1 [] refl refl refl)))
          (move 0 _ (check_loop (1 ∷ []) refl refl)))
        (move 0 _ (set none refl)))
      (notify 0 none refl refl)

Reach-children_complete_example : children_complete (1 ∷ []) over.runs ≡ true
Reach-children_complete_example =
    Reach-children_complete no_format of_check all_ready Reach-over 0 (1 ∷ []) refl refl

Reach-outcome_example :
    ((over.runs 0).status ≡ outcome none) × (after_return none none (over.runs 0).status ≡ ended)
Reach-outcome_example =
    Reach-outcome no_format of_check all_ready Reach-over 0 (1 ∷ []) none refl refl

-- A leaf that depends on an input which the dashboard does not have.
abbrev region : RuntimeDependency
region = record { item_type = "input"; name = "region" }

abbrev of_leaf : ExecutionTree
of_leaf = dashboard_of (leaf_node (region ∷ []))

abbrev looking_up : Execution
looking_up = set_phase 1 (depending (region ∷ [])) (set_phase 0 waiting (new_execution all_ready))

abbrev no_input : String
no_input = "dashboard m.dashboard.d does not contain input input"

no_region : get_runtime_dependency of_leaf region ≡ inr no_input
unfolding get_runtime_dependency steampipe.Prelude.string_eq steampipe.Prelude.Dict.lookup
no_region = refl

abbrev given_up : Execution
given_up = set_phase 1 (returning (some no_input)) looking_up

Reach-blocked_example :
    ((given_up.runs 1).status ≡ ready) × (is_past (given_up.runs 0).phase ≡ false)
unfolding new_execution
Reach-blocked_example =
    Reach-blocked no_format of_leaf region [] no_input no_region {x = looking_up} 0 1 0 (1 ∷ [])
      refl refl refl refl refl refl
      (then_step at_start (move 1 _ (dependency (region ∷ []) [] region refl refl)))

-- ===== src/Dashboard/Execution/Past.antt =====
-- dashboardexecute: a container that has left its loop.
use mathlib.Core.Bool.{true≢false}
use steampipe.Dashboard.Build.{ready, complete, error, DashboardRunStatus, is_ready}
use steampipe.Dashboard.Execution.{
  Phase, NodeRun, ExecutionTree, setting, run_complete, set_status, Execution, new_execution,
  container_node, RuntimeDependency, notifying, some, children_complete, NodeKind, first_phase,
  returning, set_run, leaf_node, ended, selecting, inl, inr,
}
use steampipe.Dashboard.Execution.Steps.{
  query, at_start, then_step, check_children, Local, Step, check_loop, Reach, receive_complete,
  combine_errors, receive_error, dependency, deliver, cancel, resolve, check_controls, set,
}
use steampipe.Prelude.{
  ◌≡◌, ℕ, String, Bool, List, true, ap, Option, all, not, ◌⊎◌, ◌∷◌, none, if◌then◌else◌, false,
  Bool-cases, refl, ◌∙◌, sym, inr, subst, [],
}
use steampipe.Dashboard.Execution.Turn.{
  own, Turn, started, Step-Turn, moved, notified, finished, set_run-cases,
}

abbrev pub is_past : Phase → Bool
is_past (setting err) = true
is_past (notifying err) = true
is_past (returning err) = true
is_past ended = true
is_past _ = false

pub all_mono :
    (p q : ℕ → Bool) (xs : List ℕ)
    → ((i : ℕ) → p i ≡ true → q i ≡ true)
    → all p xs ≡ true
    → all q xs ≡ true
all_mono p q [] le h = refl
all_mono p q (x ∷ xs) le h = elim (Bool-cases (p x)) [
  | inl e ↦ rw (le x e) (all_mono p q xs le (sym (rw e) ∙ h))
  | inr e ↦ absurd (true≢false (sym h ∙ rw e))
]

run_complete-own : (m n : NodeRun) → own m ≡ own n → run_complete m ≡ run_complete n
run_complete-own m n same = ap (λ (o : Phase × DashboardRunStatus). not (is_ready o.1)) same

pub leaf_not_container :
    {A : Type 0} (cs : List ℕ) (ds : List RuntimeDependency) (k : NodeKind)
    → k ≡ container_node cs
    → k ≡ leaf_node ds
    → A
leaf_not_container cs ds k h h' = absurd cc

pub same_children : (cs ds : List ℕ) → container_node cs ≡ container_node ds → cs ≡ ds
same_children cs ds h = cc

module _ (errorf : String → String) (tree : ExecutionTree) where
  run_complete-set_status :
      (err : Option String) (n : NodeRun) → run_complete (set_status err n) ≡ true
  unfolding set_status
  run_complete-set_status none n = refl
  run_complete-set_status (some err) n = refl

  Local-complete :
      {runs : ℕ → NodeRun} {i : ℕ} {n : NodeRun}
      → Local errorf tree runs i n
      → run_complete (runs i) ≡ true
      → run_complete n ≡ true
  unfolding check_children
  Local-complete (check_loop cs kind at) h = h
  Local-complete (receive_complete cs c rest kind at has) h = h
  Local-complete (receive_error cs err rest kind at has) h = h
  Local-complete (dependency ds rest d kind at) h = h
  Local-complete (deliver ds rest kind at) h = h
  Local-complete (cancel ds rest b err kind at) h = h
  Local-complete (resolve ds kind at) h = h
  Local-complete (query ds answer kind at) h = h
  Local-complete (check_controls answer kind at) h = h
  Local-complete {runs} {i} (set err at) h = run_complete-set_status err (runs i)

  Turn-complete :
      {x : Execution} {i : ℕ} {m : NodeRun}
      → Turn errorf tree x i m
      → run_complete (x.runs i) ≡ true
      → run_complete m ≡ true
  Turn-complete (started at) h = h
  Turn-complete (moved n local) h = Local-complete local h
  Turn-complete (notified err at) h = h
  Turn-complete (finished err at) h = h

  -- A run that is complete stays so.
  pub Step-complete :
      {x y : Execution}
      → Step errorf tree x y
      → (j : ℕ) → run_complete (x.runs j) ≡ true
      → run_complete (y.runs j) ≡ true
  Step-complete {x} {y} step j h =
      let (i, m, turn, same) = Step-Turn errorf tree step in
      run_complete-own (y.runs j) (set_run i m x.runs j) (same j)
      ∙ elim (set_run-cases i m x.runs j) [
        | inl (e, is) ↦
            ap run_complete is ∙ Turn-complete turn (ap (λ (k : ℕ). run_complete (x.runs k)) e ∙ h)
        | inr (_, is) ↦ ap run_complete is ∙ h
      ]

  -- A container comes to be past its loop by the loop's test.
  abbrev pub Earlier : List ℕ → Phase → (ℕ → NodeRun) → Type 0
  Earlier cs phase runs = (is_past phase ≡ true) ⊎ (children_complete cs runs ≡ true)

  Earlier-check :
      (cs : List ℕ) (runs : ℕ → NodeRun) (err : Option String) (phase : Phase) (b : Bool)
      → children_complete cs runs ≡ b
      → is_past (if b then setting err else selecting) ≡ true
      → Earlier cs phase runs
  Earlier-check cs runs err phase true e h = inr e
  Earlier-check cs runs err phase false e h = cc

  Local-past :
      {runs : ℕ → NodeRun} {i : ℕ} {n : NodeRun} (cs : List ℕ)
      → (tree.node i).kind ≡ container_node cs
      → Local errorf tree runs i n
      → is_past n.phase ≡ true
      → Earlier cs (runs i).phase runs
  unfolding check_children set_status
  Local-past {runs} {i} cs kind (check_loop ds is at) h =
      Earlier-check cs runs (combine_errors errorf (runs i).errors) (runs i).phase
        (children_complete ds runs)
        (ap (λ (l : List ℕ). children_complete l runs) (same_children cs ds (sym kind ∙ is))) h
  Local-past cs kind (receive_complete ds c rest is at has) h = cc
  Local-past cs kind (receive_error ds err rest is at has) h = cc
  Local-past cs kind (dependency ds rest d is at) h = leaf_not_container cs ds _ kind is
  Local-past cs kind (deliver ds rest is at) h = leaf_not_container cs ds _ kind is
  Local-past cs kind (cancel ds rest b err is at) h = leaf_not_container cs ds _ kind is
  Local-past cs kind (resolve ds is at) h = leaf_not_container cs ds _ kind is
  Local-past cs kind (query ds answer is at) h = leaf_not_container cs ds _ kind is
  Local-past cs kind (check_controls answer is at) h = absurd cc
  Local-past {runs} {i} cs kind (set err at) h = inl (rw at)

  first_phase-past :
      (cs : List ℕ) (parent : Option ℕ) (status : DashboardRunStatus)
      → is_past (first_phase (container_node cs) parent status) ≡ false
  first_phase-past cs none ready = refl
  first_phase-past cs none complete = refl
  first_phase-past cs none error = refl
  first_phase-past cs (some p) status = refl

  Turn-past :
      {x : Execution} {i : ℕ} {m : NodeRun} (cs : List ℕ)
      → (tree.node i).kind ≡ container_node cs
      → Turn errorf tree x i m
      → is_past m.phase ≡ true
      → Earlier cs (x.runs i).phase x.runs
  Turn-past {x} {i} cs kind (started at) h = absurd (
      true≢false (
        sym h
        ∙ ap (λ (k : NodeKind). is_past (first_phase k (tree.node i).parent (x.runs i).status)) kind
        ∙ first_phase-past cs (tree.node i).parent (x.runs i).status))
  Turn-past cs kind (moved n local) h = Local-past cs kind local h
  Turn-past cs kind (notified err at) h = inl (rw at)
  Turn-past cs kind (finished err at) h = inl (rw at)

  pub Step-past :
      {x y : Execution} (i : ℕ) (cs : List ℕ)
      → (tree.node i).kind ≡ container_node cs
      → Step errorf tree x y
      → is_past (y.runs i).phase ≡ true
      → Earlier cs (x.runs i).phase x.runs
  Step-past {x} {y} i cs kind step h =
      let (k, m, turn, same) = Step-Turn errorf tree step in
      let now : is_past (set_run k m x.runs i).phase ≡ true =
        ap (λ (o : Phase × DashboardRunStatus). is_past o.0) (sym (same i)) ∙ h in
      elim (set_run-cases k m x.runs i) [
        | inl (e, is) ↦
            subst (λ (j : ℕ). Earlier cs (x.runs j).phase x.runs) e
              (Turn-past cs (ap (λ (j : ℕ). (tree.node j).kind) e ∙ kind) turn
                (ap (λ (n : NodeRun). is_past n.phase) (sym is) ∙ now))
        | inr (_, is) ↦ inl (ap (λ (n : NodeRun). is_past n.phase) (sym is) ∙ now)
      ]

  -- A dashboard or container leaves its loop, and then sets its status, tells its parent and returns,
  -- only when each of its children is complete or in error. This holds after any number of steps of
  -- all runs, in whatever order.
  pub Reach-children_complete :
      (statuses : ℕ → DashboardRunStatus) {x : Execution}
      → Reach errorf tree (new_execution statuses) x
      → (i : ℕ) (children : List ℕ) → (tree.node i).kind ≡ container_node children
      → is_past (x.runs i).phase ≡ true
      → children_complete children x.runs ≡ true
  unfolding new_execution
  Reach-children_complete statuses at_start i children kind past = cc
  Reach-children_complete statuses {x} (then_step {y} reach step) i children kind past =
      all_mono (λ (c : ℕ). run_complete (y.runs c)) (λ (c : ℕ). run_complete (x.runs c)) children
        (Step-complete step)
        (elim (Step-past i children kind step past) [
          | inl earlier ↦ Reach-children_complete statuses reach i children kind earlier
          | inr now ↦ now
        ])

-- ===== src/Dashboard/Execution/Outcome.antt =====
-- dashboardexecute: what a container returns, and the status that it has then.
use steampipe.Prelude.{
  ◌≡◌, Option, Bool, List, String, ℕ, none, if◌then◌else◌, refl, subst, true, sym, ap, false, ◌∙◌,
}
use steampipe.Dashboard.Build.{ready, complete, error, DashboardRunStatus}
use steampipe.Dashboard.Execution.{
  Phase, NodeRun, set_status, some, ExecutionTree, notifying, after_return, first_phase, Execution,
  new_execution, returning, setting, container_node, ended, selecting, children_complete, NodeKind,
  inl, inr,
}
use steampipe.Dashboard.Execution.Steps.{
  query, at_start, then_step, check_children, Reach, Local, check_loop, combine_errors,
  receive_complete, receive_error, dependency, deliver, cancel, resolve, check_controls, set,
}
use steampipe.Dashboard.Execution.Turn.{
  Turn, Step-Turn, started, set_run-cases, moved, notified, finished,
}
use steampipe.Dashboard.Execution.Past.{leaf_not_container}

pub outcome : Option String → DashboardRunStatus
outcome none = complete
outcome (some err) = error

abbrev AgreesAt : Phase → DashboardRunStatus → Type 0
AgreesAt (notifying err) status = status ≡ outcome err
AgreesAt (returning err) status = status ≡ outcome err
AgreesAt _ status = Unit

Agrees : NodeRun → Type 0
Agrees n = AgreesAt n.phase n.status

Agrees-set_status : (err : Option String) (n : NodeRun) → Agrees (set_status err n)
unfolding Agrees set_status outcome
Agrees-set_status none n = refl
Agrees-set_status (some err) n = refl

AgreesAt-branch :
    (b : Bool) (err : Option String) (status : DashboardRunStatus)
    → AgreesAt (if b then setting err else selecting) status
AgreesAt-branch true err status = tt
AgreesAt-branch false err status = tt

AgreesAt-after_return :
    (parent err : Option _) (status : DashboardRunStatus)
    → AgreesAt (after_return parent err status) status
AgreesAt-after_return parent none status = tt
AgreesAt-after_return (some p) (some err) status = tt
AgreesAt-after_return none (some err) error = tt
AgreesAt-after_return none (some err) ready = tt
AgreesAt-after_return none (some err) complete = tt

AgreesAt-first_phase :
    (cs : List ℕ) (parent : Option ℕ) (status : DashboardRunStatus)
    → AgreesAt (first_phase (container_node cs) parent status) status
AgreesAt-first_phase cs none ready = tt
AgreesAt-first_phase cs none complete = tt
AgreesAt-first_phase cs none error = tt
AgreesAt-first_phase cs (some p) status = tt

module _ (errorf : String → String) (tree : ExecutionTree) where
  Local-Agrees :
      {runs : ℕ → NodeRun} {i : ℕ} {n : NodeRun} (cs : List ℕ)
      → (tree.node i).kind ≡ container_node cs
      → Local errorf tree runs i n
      → Agrees n
  unfolding check_children Agrees
  Local-Agrees {runs} {i} cs kind (check_loop ds is at) =
      AgreesAt-branch (children_complete ds runs) (combine_errors errorf (runs i).errors)
        (runs i).status
  Local-Agrees cs kind (receive_complete ds c rest is at has) = tt
  Local-Agrees cs kind (receive_error ds err rest is at has) = tt
  Local-Agrees cs kind (dependency ds rest d is at) = leaf_not_container cs ds _ kind is
  Local-Agrees cs kind (deliver ds rest is at) = tt
  Local-Agrees cs kind (cancel ds rest b err is at) = leaf_not_container cs ds _ kind is
  Local-Agrees cs kind (resolve ds is at) = leaf_not_container cs ds _ kind is
  Local-Agrees cs kind (query ds answer is at) = tt
  Local-Agrees cs kind (check_controls answer is at) = tt
  Local-Agrees {runs} {i} cs kind (set err at) = Agrees-set_status err (runs i)

  Turn-Agrees :
      {x : Execution} {i : ℕ} {m : NodeRun} (cs : List ℕ)
      → (tree.node i).kind ≡ container_node cs
      → Agrees (x.runs i)
      → Turn errorf tree x i m
      → Agrees m
  unfolding Agrees
  Turn-Agrees {x} {i} cs kind old (started at) =
      subst
        (λ (k : NodeKind).
          AgreesAt (first_phase k (tree.node i).parent (x.runs i).status) (x.runs i).status)
        (sym kind) (AgreesAt-first_phase cs (tree.node i).parent (x.runs i).status)
  Turn-Agrees cs kind old (moved n local) = Local-Agrees cs kind local
  Turn-Agrees {x} {i} cs kind old (notified err at) =
      subst (λ (p : Phase). AgreesAt p (x.runs i).status) at old
  Turn-Agrees {x} {i} cs kind old (finished err at) =
      AgreesAt-after_return (tree.node i).parent err (x.runs i).status

  Reach-Agrees :
      (statuses : ℕ → DashboardRunStatus) {x : Execution}
      → Reach errorf tree (new_execution statuses) x
      → (i : ℕ) (children : List ℕ) → (tree.node i).kind ≡ container_node children
      → Agrees (x.runs i)
  unfolding new_execution Agrees
  Reach-Agrees statuses at_start i children kind = tt
  Reach-Agrees statuses {x} (then_step {y} reach step) i children kind =
      let (k, m, turn, same) = Step-Turn errorf tree step in
      subst (λ (o : Phase × DashboardRunStatus). AgreesAt o.0 o.1) (sym (same i))
        (elim (set_run-cases k m y.runs i) [
          | inl (e, is) ↦
              subst (λ (n : NodeRun). AgreesAt n.phase n.status) (sym is)
                (Turn-Agrees children (ap (λ (j : ℕ). (tree.node j).kind) e ∙ kind)
                  (Reach-Agrees statuses reach k children
                    (ap (λ (j : ℕ). (tree.node j).kind) e ∙ kind))
                  turn)
          | inr (_, is) ↦
              subst (λ (n : NodeRun). AgreesAt n.phase n.status) (sym is)
                (Reach-Agrees statuses reach i children kind)
        ])

  ended_once : (err : Option String) → after_return none err (outcome err) ≡ ended
  unfolding outcome
  ended_once none = refl
  ended_once (some err) = refl

  -- When `Execute` of a dashboard or container returns an error, its status is error, and without an
  -- error it is complete. So `ExecuteDashboardNode` never has to set an error on the root that has
  -- returned one, and its goroutine ends.
  pub Reach-outcome :
      (statuses : ℕ → DashboardRunStatus) {x : Execution}
      → Reach errorf tree (new_execution statuses) x
      → (i : ℕ) (children : List ℕ) (err : Option String)
      → (tree.node i).kind ≡ container_node children
      → (x.runs i).phase ≡ returning err
      → ((x.runs i).status ≡ outcome err) × (after_return none err (x.runs i).status ≡ ended)
  unfolding Agrees
  Reach-outcome statuses {x} reach i children err kind at =
      let agrees : (x.runs i).status ≡ outcome err =
        subst (λ (p : Phase). AgreesAt p (x.runs i).status) at
          (Reach-Agrees statuses reach i children kind) in
      (agrees, ap (after_return none err) agrees ∙ ended_once err)

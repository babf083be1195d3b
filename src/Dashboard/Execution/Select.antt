-- ===== src/Dashboard/Execution/Select.antt =====
-- dashboardexecute: how a container comes to its `select`, and how a child comes to tell it.
use mathlib.Core.Bool.{true≢false}
use steampipe.Prelude.{
  ◌≡◌, Bool, ℕ, String, List, true, not, Option, false, ap, ◌||◌, any, eqb, none, sym, ◌∷◌, ◌⊎◌,
  refl, ◌∙◌, Bool-cases, inl, inr, [], if◌then◌else◌,
}
use steampipe.Dashboard.Build.{DashboardRunStatus, is_ready, ready, complete, error}
use steampipe.Dashboard.Execution.{
  ExecutionTree, Phase, NodeRun, set_status, notifying, Execution, container_node, selecting,
  run_complete, some, children_complete, inr, NodeKind, after_return, first_phase, setting,
  leaf_node, check_node,
}
use steampipe.Dashboard.Execution.Steps.{
  query, resolve, check_controls, set, cancel, deliver, receive_error, dependency, check_children,
  Local, check_loop, receive_complete, combine_errors,
}
use steampipe.Dashboard.Execution.Turn.{started, moved, notified, finished, own, Turn}
use steampipe.Dashboard.Execution.Past.{same_children, leaf_not_container}

-- The runs that a container has as children are those with it as their parent.
pub record IsTree (tree : ExecutionTree) : Type 0 where
  pub parent_of_child :
      (i : ℕ) (children : List ℕ) (c : ℕ)
      → (tree.node i).kind ≡ container_node children
      → any (λ (k : ℕ). eqb c k) children ≡ true
      → (tree.node c).parent ≡ some i
  pub child_of_parent :
      (i : ℕ) (children : List ℕ) (c : ℕ)
      → (tree.node i).kind ≡ container_node children
      → (tree.node c).parent ≡ some i
      → any (λ (k : ℕ). eqb c k) children ≡ true

abbrev pub is_notifying : Phase → Bool
is_notifying (notifying err) = true
is_notifying _ = false

abbrev pub is_selecting : Phase → Bool
is_selecting selecting = true
is_selecting _ = false

-- A run that is not complete, or that has not yet told its parent that it is.
pub to_come : NodeRun → Bool
to_come n = not (run_complete n) || is_notifying n.phase

pub own-to_come : (m n : NodeRun) → own m ≡ own n → to_come m ≡ to_come n
unfolding to_come
own-to_come m n same =
    ap (λ (o : Phase × DashboardRunStatus). not (not (is_ready o.1)) || is_notifying o.0) same

to_come-set_status : (err : Option String) (n : NodeRun) → to_come (set_status err n) ≡ true
unfolding to_come set_status
to_come-set_status none n = refl
to_come-set_status (some err) n = refl

not_notifying :
    (b : Bool) (p q : Phase)
    → is_notifying p ≡ false
    → (b || is_notifying p) ≡ true
    → (b || is_notifying q) ≡ true
not_notifying true p q h e = refl
not_notifying false p q h e = absurd (true≢false (sym e ∙ h))

pub to_come_later :
    (n m : NodeRun)
    → is_notifying n.phase ≡ false
    → m.status ≡ n.status
    → to_come n ≡ true
    → to_come m ≡ true
unfolding to_come
to_come_later n m quiet same h =
    ap (λ (s : DashboardRunStatus). not (not (is_ready s)) || is_notifying m.phase) same
    ∙ not_notifying _ n.phase m.phase quiet h

pub or_true : (a b : Bool) → b ≡ true → (a || b) ≡ true
or_true true b h = refl
or_true false b h = h

pub any_incomplete :
    (runs : ℕ → NodeRun) (cs : List ℕ)
    → children_complete cs runs ≡ false
    → any (λ (c : ℕ). to_come (runs c)) cs ≡ true
unfolding to_come
any_incomplete runs [] h = cc
any_incomplete runs (c ∷ cs) h = elim (Bool-cases (run_complete (runs c))) [
  | inl e ↦ elim (Bool-cases (is_notifying (runs c).phase)) [
    | inl e' ↦ rw (e, e')
    | inr e' ↦ rw (e, e', any_incomplete runs cs (sym (rw e) ∙ h))
  ]
  | inr e ↦ rw e
]

module _ (errorf : String → String) (tree : ExecutionTree) where
  pub to_come-Local :
      {runs : ℕ → NodeRun} {i : ℕ} {n : NodeRun}
      → Local errorf tree runs i n
      → to_come (runs i) ≡ true
      → to_come n ≡ true
  unfolding check_children
  to_come-Local {runs} {i} (check_loop ds is at) h = to_come_later (runs i) _ (rw at) refl h
  to_come-Local {runs} {i} (receive_complete ds c rest is at has) h =
      to_come_later (runs i) _ (rw at) refl h
  to_come-Local {runs} {i} (receive_error ds err rest is at has) h =
      to_come_later (runs i) _ (rw at) refl h
  to_come-Local {runs} {i} (dependency ds rest d is at) h = to_come_later (runs i) _ (rw at) refl h
  to_come-Local {runs} {i} (deliver ds rest is at) h = to_come_later (runs i) _ (rw at) refl h
  to_come-Local {runs} {i} (cancel ds rest b err is at) h = to_come_later (runs i) _ (rw at) refl h
  to_come-Local {runs} {i} (resolve ds is at) h = to_come_later (runs i) _ (rw at) refl h
  to_come-Local {runs} {i} (query ds answer is at) h = to_come_later (runs i) _ (rw at) refl h
  to_come-Local {runs} {i} (check_controls answer is at) h = to_come_later (runs i) _ (rw at) refl h
  to_come-Local {runs} {i} (set err at) h = to_come-set_status err (runs i)

  -- Only the message to the parent ends it.
  pub to_come-Turn :
      {x : Execution} {i : ℕ} {m : NodeRun}
      → Turn errorf tree x i m
      → to_come (x.runs i) ≡ true
      → (to_come m ≡ true) ⊎ (is_notifying (x.runs i).phase ≡ true)
  to_come-Turn {x} {i} (started at) h = inl (to_come_later (x.runs i) _ (rw at) refl h)
  to_come-Turn (moved n local) h = inl (to_come-Local local h)
  to_come-Turn (notified err at) h = inr (rw at)
  to_come-Turn {x} {i} (finished err at) h = inl (to_come_later (x.runs i) _ (rw at) refl h)

  not_at :
      (n : NodeRun) (phase : Phase)
      → n.phase ≡ phase
      → is_selecting phase ≡ false
      → is_selecting n.phase ≡ false
  not_at n phase at h = ap is_selecting at ∙ h

  first_phase-selecting :
      (kind : NodeKind) (parent : Option ℕ) (status : DashboardRunStatus)
      → is_selecting (first_phase kind parent status) ≡ false
  first_phase-selecting (container_node cs) none ready = refl
  first_phase-selecting (container_node cs) none complete = refl
  first_phase-selecting (container_node cs) none error = refl
  first_phase-selecting (container_node cs) (some p) status = refl
  first_phase-selecting (leaf_node ds) parent status = refl
  first_phase-selecting check_node parent status = refl

  after_return-selecting :
      (parent : Option ℕ) (err : Option String) (status : DashboardRunStatus)
      → is_selecting (after_return parent err status) ≡ false
  after_return-selecting parent none status = refl
  after_return-selecting (some p) (some err) status = refl
  after_return-selecting none (some err) error = refl
  after_return-selecting none (some err) ready = refl
  after_return-selecting none (some err) complete = refl

  set_status-selecting :
      (err : Option String) (n : NodeRun) → is_selecting (set_status err n).phase ≡ false
  unfolding set_status
  set_status-selecting none n = refl
  set_status-selecting (some err) n = refl

  selecting_after :
      (b : Bool) (err : Option String)
      → is_selecting (if b then setting err else selecting) ≡ true
      → b ≡ false
  selecting_after true err h = cc
  selecting_after false err h = refl

  -- A container comes to its `select` by the loop's test.
  Local-selecting :
      {runs : ℕ → NodeRun} {i : ℕ} {n : NodeRun} (cs : List ℕ)
      → (tree.node i).kind ≡ container_node cs
      → Local errorf tree runs i n
      → is_selecting n.phase ≡ true
      → children_complete cs runs ≡ false
  unfolding check_children
  Local-selecting {runs} {i} cs kind (check_loop ds is at) h =
      ap (λ (l : List ℕ). children_complete l runs) (same_children cs ds (sym kind ∙ is))
      ∙ selecting_after (children_complete ds runs) (combine_errors errorf (runs i).errors) h
  Local-selecting cs kind (receive_complete ds c rest is at has) h = cc
  Local-selecting cs kind (receive_error ds err rest is at has) h = cc
  Local-selecting cs kind (dependency ds rest d is at) h = leaf_not_container cs ds _ kind is
  Local-selecting cs kind (deliver ds rest is at) h = leaf_not_container cs ds _ kind is
  Local-selecting cs kind (cancel ds rest b err is at) h = leaf_not_container cs ds _ kind is
  Local-selecting cs kind (resolve ds is at) h = leaf_not_container cs ds _ kind is
  Local-selecting cs kind (query ds answer is at) h = leaf_not_container cs ds _ kind is
  Local-selecting cs kind (check_controls answer is at) h = cc
  Local-selecting {runs} {i} cs kind (set err at) h =
      absurd (true≢false (sym h ∙ set_status-selecting err (runs i)))

  pub Turn-selecting :
      {x : Execution} {i : ℕ} {m : NodeRun} (cs : List ℕ)
      → (tree.node i).kind ≡ container_node cs
      → Turn errorf tree x i m
      → is_selecting m.phase ≡ true
      → children_complete cs x.runs ≡ false
  Turn-selecting {x} {i} cs kind (started at) h = absurd (
      true≢false
        (sym h ∙ first_phase-selecting (tree.node i).kind (tree.node i).parent (x.runs i).status))
  Turn-selecting cs kind (moved n local) h = Local-selecting cs kind local h
  Turn-selecting cs kind (notified err at) h = cc
  Turn-selecting {x} {i} cs kind (finished err at) h =
      absurd
        (true≢false (sym h ∙ after_return-selecting (tree.node i).parent err (x.runs i).status))

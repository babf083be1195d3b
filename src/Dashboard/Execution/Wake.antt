-- ===== src/Dashboard/Execution/Wake.antt =====
-- dashboardexecute: what a container that waits in its `select` still has to come.
use mathlib.Core.Bool.{true≢false}
use mathlib.Core.Option.{some-injective}
use steampipe.Prelude.{
  ◌≡◌, String, List, ℕ, Option, any, some, ◌≤◌, true, ◌⊎◌, ◌++◌, ◌∙◌, ◌∷◌, [], ap, arith,
  length-append, sym, eqb_iff, eqb, none, Bool-cases, false, refl,
}
use steampipe.Dashboard.Execution.{
  ExecutionTree, send_complete, Execution, NodeRun, set_run, inl, inr, container_node,
  new_execution, first_phase, children_complete, selecting, Phase, returning, after_return,
  send_error,
}
use steampipe.Dashboard.Execution.Steps.{
  Step, start, Reach, move, then_step, at_start, notify, finish,
}
use steampipe.Dashboard.Execution.Select.{
  IsTree, to_come, own-to_come, is_selecting, any_incomplete, to_come_later, to_come-Local,
  Turn-selecting, or_true,
}
use steampipe.Dashboard.Execution.Turn.{
  own, unread, set_run-cases, Step-Turn_unread, unread-set_phase, own-set_phase, own-send_complete,
  own-send_error,
}
use steampipe.Dashboard.Build.{DashboardRunStatus}

module _ (errorf : String → String) (tree : ExecutionTree) (is_tree : IsTree tree) where
  -- A child is still to come, or a message is there.
  Awake : List ℕ → ℕ → Execution → Type 0
  Awake children i x =
      (any (λ (c : ℕ). to_come (x.runs c)) children ≡ true) ⊎ (1 ≤ unread (x.runs i))

  -- A run that is still to come stays so, or has told its parent.
  Told : (runs : ℕ → NodeRun) → ℕ → Type 0
  Told runs c = (p : ℕ) → (tree.node c).parent ≡ some p → 1 ≤ unread (runs p)

  told :
      (parent : Option ℕ) (i p : ℕ) (x : Execution)
      → parent ≡ some p
      → 1 ≤ unread ((send_complete parent i x).runs p)
  unfolding send_complete
  told none i p x h = cc
  told (some q) i p x h =
      let same : q ≡ p = some-injective q p h in
      elim (set_run-cases q
        (record (x.runs q) { child_complete = (x.runs q).child_complete ++ (i ∷ []) }) x.runs p) [
          | inl (e, is) ↦
              omega (arith, ap unread is, length-append (x.runs q).child_complete (i ∷ []))
          | inr (other, is) ↦ absurd (true≢false (sym ((eqb_iff q p).1 same) ∙ other))
        ]

  to_come-other :
      (i : ℕ) (m : NodeRun) (x y : Execution) (c : ℕ)
      → ((j : ℕ) → own (y.runs j) ≡ own (set_run i m x.runs j))
      → (i ≡ c → to_come (x.runs i) ≡ true → to_come m ≡ true)
      → to_come (x.runs c) ≡ true
      → to_come (y.runs c) ≡ true
  to_come-other i m x y c same turn h =
      own-to_come (y.runs c) (set_run i m x.runs c) (same c) ∙ elim (set_run-cases i m x.runs c) [
        | inl (e, is) ↦ ap to_come is ∙ turn e (ap (λ (k : ℕ). to_come (x.runs k)) e ∙ h)
        | inr (_, is) ↦ ap to_come is ∙ h
      ]

  Step-to_come :
      {x y : Execution}
      → Step errorf tree x y
      → (c : ℕ) → to_come (x.runs c) ≡ true
      → (to_come (y.runs c) ≡ true) ⊎ Told y.runs c
  unfolding Told
  Step-to_come {x} {y} (start i at spawned) c h =
      let phase = first_phase (tree.node i).kind (tree.node i).parent (x.runs i).status in
      inl (
        to_come-other i (record (x.runs i) { phase = phase }) x y c (λ j. refl)
          (λ e. to_come_later (x.runs i) _ (rw at) refl) h)
  Step-to_come {x} {y} (move i n local) c h =
      inl (to_come-other i n x y c (λ j. refl) (λ e. to_come-Local errorf tree local) h)
  Step-to_come {x} {y} (notify i err at room) c h =
      let sent = send_complete (tree.node i).parent i x in
      elim (Bool-cases (eqb i c)) [
        | inl e ↦ inr (λ p parent. omega (
          arith,
          unread-set_phase i (returning err) sent p,
          told (tree.node i).parent i p x
              (ap (λ (k : ℕ). (tree.node k).parent) ((eqb_iff i c).0 e) ∙ parent),
        ))
        | inr other ↦ inl (
            to_come-other i (record (x.runs i) { phase = returning err }) x y c
              (own-set_phase i (returning err) x sent (own-send_complete (tree.node i).parent i x))
              (λ e. absurd (true≢false (sym ((eqb_iff i c).1 e) ∙ other))) h)
      ]
  Step-to_come {x} {y} (finish i err at room) c h =
      let phase = after_return (tree.node i).parent err (x.runs i).status in
      inl (
        to_come-other i (record (x.runs i) { phase = phase }) x y c
          (own-set_phase i phase x (send_error (tree.node i).parent err x)
            (own-send_error (tree.node i).parent err x))
          (λ e. to_come_later (x.runs i) _ (rw at) refl) h)

  -- What the messages of a container come to in a step after which it is in its `select`.
  Step-select :
      {x y : Execution} (i : ℕ) (children : List ℕ)
      → (tree.node i).kind ≡ container_node children
      → Step errorf tree x y
      → is_selecting (y.runs i).phase ≡ true
      → (children_complete children x.runs ≡ false)
        ⊎ ((is_selecting (x.runs i).phase ≡ true) × (unread (x.runs i) ≤ unread (y.runs i)))
  Step-select {x} {y} i children kind step at =
      let (k, m, turn, same, grows) = Step-Turn_unread errorf tree step in
      let now : is_selecting (set_run k m x.runs i).phase ≡ true =
        ap (λ (o : Phase × DashboardRunStatus). is_selecting o.0) (sym (same i)) ∙ at in
      elim (set_run-cases k m x.runs i) [
        | inl (e, is) ↦ inl (
            Turn-selecting errorf tree children (ap (λ (j : ℕ). (tree.node j).kind) e ∙ kind) turn
              (ap (λ (n : NodeRun). is_selecting n.phase) (sym is) ∙ now))
        | inr (other, is) ↦
            inr (ap (λ (n : NodeRun). is_selecting n.phase) (sym is) ∙ now, grows i other)
      ]

  any_cases :
      (x y : Execution) (cs : List ℕ) (A : Type 0)
      → ((c : ℕ)
          → any (λ (k : ℕ). eqb c k) cs ≡ true
          → to_come (x.runs c) ≡ true
          → (to_come (y.runs c) ≡ true) ⊎ A)
      → any (λ (c : ℕ). to_come (x.runs c)) cs ≡ true
      → (any (λ (c : ℕ). to_come (y.runs c)) cs ≡ true) ⊎ A
  any_cases x y [] A each h = inl h
  any_cases x y (c ∷ cs) A each h = elim (Bool-cases (to_come (x.runs c))) [
    | inl e ↦ elim (each c (rw ((eqb_iff c c).1 refl)) e) [ inl now ↦ inl (rw now) | inr a ↦ inr a ]
    | inr e ↦
        elim (any_cases x y cs A (λ k elem. each k (or_true (eqb k c) _ elem)) (sym (rw e) ∙ h)) [
          | inl now ↦ inl (or_true (to_come (y.runs c)) _ now)
          | inr a ↦ inr a
        ]
  ]

  Step-Awake :
      {x y : Execution} (i : ℕ) (children : List ℕ)
      → (tree.node i).kind ≡ container_node children
      → Step errorf tree x y
      → (is_selecting (x.runs i).phase ≡ true → Awake children i x)
      → is_selecting (y.runs i).phase ≡ true
      → Awake children i y
  unfolding Awake Told
  Step-Awake {x} {y} i children kind step before at = elim (Step-select i children kind step at) [
    | inl incomplete ↦ after (any_incomplete x.runs children incomplete)
    | inr (was, grows) ↦ elim (before was) [
      | inl come ↦ after come
      | inr there ↦ inr (omega (arith, there, grows))
    ]
  ]
    where
      after :
          any (λ (c : ℕ). to_come (x.runs c)) children ≡ true
          → (any (λ (c : ℕ). to_come (y.runs c)) children ≡ true) ⊎ (1 ≤ unread (y.runs i))
      after come =
          any_cases x y children (1 ≤ unread (y.runs i))
            (λ c elem h. elim (Step-to_come step c h) [
              | inl now ↦ inl now
              | inr sent ↦ inr (sent i (is_tree.parent_of_child i children c kind elem))
            ])
            come

  -- Of a dashboard or container that waits in its `select`, a child is still ready, or has set its
  -- status and is about to send it, or a message is in the channel to be received.
  -- This holds after any number of steps of all runs, in whatever order.
  pub Reach-to_come :
      (statuses : ℕ → DashboardRunStatus) {x : Execution}
      → Reach errorf tree (new_execution statuses) x
      → (i : ℕ) (children : List ℕ) → (tree.node i).kind ≡ container_node children
      → (x.runs i).phase ≡ selecting
      → (any (λ (c : ℕ). to_come (x.runs c)) children ≡ true) ⊎ (1 ≤ unread (x.runs i))
  unfolding Awake new_execution
  Reach-to_come statuses reach i children kind at = all_awake reach (rw at)
    where
      all_awake :
          {z : Execution}
          → Reach errorf tree (new_execution statuses) z
          → is_selecting (z.runs i).phase ≡ true
          → Awake children i z
      all_awake at_start h = cc
      all_awake (then_step reach' step) h = Step-Awake i children kind step (all_awake reach') h

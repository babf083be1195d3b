-- ===== src/Dashboard/Execution/Turn.antt =====
-- dashboardexecute: a step, as seen by the one run that takes it and by the others.
use steampipe.Prelude.{
  length-append, ◌≡◌, ℕ, String, Option, ◌⊎◌, eqb, ap, false, ◌∙◌, none, Bool-cases, eqb_iff, refl,
  length, ◌≤◌, arith, ◌∷◌, [],
}
use steampipe.Dashboard.Execution.{
  NodeRun, send_complete, send_error, set_run, Phase, ExecutionTree, inl, Execution, some, idle,
  set_phase, first_phase, inr, notifying, returning, after_return,
}
use steampipe.Dashboard.Execution.Steps.{Step, start, Local, move, notify, finish}
use steampipe.Dashboard.Build.{DashboardRunStatus}

pub set_run-cases :
    (i : ℕ) (n : NodeRun) (runs : ℕ → NodeRun) (j : ℕ)
    → ((i ≡ j) × (set_run i n runs j ≡ n)) ⊎ ((eqb i j ≡ false) × (set_run i n runs j ≡ runs j))
set_run-cases i n runs j = elim (Bool-cases (eqb i j)) [
  | inl e ↦ inl ((eqb_iff i j).0 e, rw e)
  | inr e ↦ inr (e, rw e)
]

-- Phase and status, which no step changes for another run.
abbrev pub own : NodeRun → Phase × DashboardRunStatus
own n = (n.phase, n.status)

own-set_run :
    (p : ℕ) (n : NodeRun) (runs : ℕ → NodeRun) (j : ℕ)
    → own n ≡ own (runs p)
    → own (set_run p n runs j) ≡ own (runs j)
own-set_run p n runs j same = elim (set_run-cases p n runs j) [
  | inl (e, is) ↦ ap own is ∙ same ∙ ap (λ (k : ℕ). own (runs k)) e
  | inr (_, is) ↦ ap own is
]

pub own-send_complete :
    (parent : Option ℕ) (i : ℕ) (x : Execution) (j : ℕ)
    → own ((send_complete parent i x).runs j) ≡ own (x.runs j)
unfolding send_complete
own-send_complete none i x j = refl
own-send_complete (some p) i x j = own-set_run p _ x.runs j refl

pub own-send_error :
    (parent : Option ℕ) (err : Option String) (x : Execution) (j : ℕ)
    → own ((send_error parent err x).runs j) ≡ own (x.runs j)
unfolding send_error
own-send_error parent none x j = refl
own-send_error none (some err) x j = refl
own-send_error (some p) (some err) x j = own-set_run p _ x.runs j refl

-- The messages that a run has not yet received.
abbrev pub unread : NodeRun → ℕ
unread n = length n.child_complete

unread-set_run :
    (p : ℕ) (n : NodeRun) (runs : ℕ → NodeRun) (j : ℕ)
    → unread (runs p) ≤ unread n
    → unread (runs j) ≤ unread (set_run p n runs j)
unread-set_run p n runs j le = elim (set_run-cases p n runs j) [
  | inl (e, is) ↦ omega (arith, le, ap unread is, ap (λ (k : ℕ). unread (runs k)) e)
  | inr (_, is) ↦ omega (arith, ap unread is)
]

unread-send_complete :
    (parent : Option ℕ) (i : ℕ) (x : Execution) (j : ℕ)
    → unread (x.runs j) ≤ unread ((send_complete parent i x).runs j)
unfolding send_complete
unread-send_complete none i x j = omega arith
unread-send_complete (some p) i x j =
    unread-set_run p _ x.runs j (omega (arith, length-append (x.runs p).child_complete (i ∷ [])))

unread-send_error :
    (parent : Option ℕ) (err : Option String) (x : Execution) (j : ℕ)
    → unread (x.runs j) ≤ unread ((send_error parent err x).runs j)
unfolding send_error
unread-send_error parent none x j = omega arith
unread-send_error none (some err) x j = omega arith
unread-send_error (some p) (some err) x j = unread-set_run p _ x.runs j (omega arith)

pub unread-set_phase :
    (i : ℕ) (phase : Phase) (x : Execution) (j : ℕ)
    → unread ((set_phase i phase x).runs j) ≡ unread (x.runs j)
unread-set_phase i phase x j =
    elim (set_run-cases i (record (x.runs i) { phase = phase }) x.runs j) [
      | inl (e, is) ↦ ap unread is ∙ ap (λ (k : ℕ). unread (x.runs k)) e
      | inr (_, is) ↦ ap unread is
    ]

-- What a run is after its step, but for what others send to it.
pub data Turn (errorf : String → String) (tree : ExecutionTree) (x : Execution) (i : ℕ)
    : NodeRun → Type 0 where
  started :
      (x.runs i).phase ≡ idle
      → Turn errorf tree x i (record (x.runs i) {
        phase = first_phase (tree.node i).kind (tree.node i).parent (x.runs i).status;
      })
  moved : (n : NodeRun) → Local errorf tree x.runs i n → Turn errorf tree x i n
  notified :
      (err : Option String)
      → (x.runs i).phase ≡ notifying err
      → Turn errorf tree x i (record (x.runs i) { phase = returning err })
  finished :
      (err : Option String)
      → (x.runs i).phase ≡ returning err
      → Turn errorf tree x i
          (record (x.runs i) { phase = after_return (tree.node i).parent err (x.runs i).status })

-- Setting a phase commutes with what leaves phase and status of all runs.
pub own-set_phase :
    (i : ℕ) (phase : Phase) (x y : Execution)
    → ((j : ℕ) → own (y.runs j) ≡ own (x.runs j))
    → (j : ℕ)
    → own ((set_phase i phase y).runs j)
      ≡ own (set_run i (record (x.runs i) { phase = phase }) x.runs j)
own-set_phase i phase x y same j = elim (Bool-cases (eqb i j)) [
  | inl e ↦ rw e (ap (λ (o : Phase × DashboardRunStatus). (phase, o.1)) (same i))
  | inr e ↦ rw e (same j)
]

module _ (errorf : String → String) (tree : ExecutionTree) where
  -- One run takes its turn, and no other loses a message.
  pub Step-Turn_unread :
      {x y : Execution}
      → Step errorf tree x y
      → (i : ℕ) × (m : NodeRun) × Turn errorf tree x i m
        × ((j : ℕ) → own (y.runs j) ≡ own (set_run i m x.runs j))
        × ((j : ℕ) → eqb i j ≡ false → unread (x.runs j) ≤ unread (y.runs j))
  Step-Turn_unread {x} (start i at spawned) = (
    i,
    _,
    started at,
    λ j. refl,
    λ j other. omega (
      arith,
      unread-set_phase i (first_phase (tree.node i).kind (tree.node i).parent (x.runs i).status) x
          j,
    ),
  )
  Step-Turn_unread {x} (move i n local) =
      (i, n, moved n local, λ j. refl, λ j other. rw other (omega arith))
  Step-Turn_unread {x} (notify i err at room) =
      let sent = send_complete (tree.node i).parent i x in
      (
        i,
        _,
        notified err at,
        own-set_phase i (returning err) x sent (own-send_complete (tree.node i).parent i x),
        λ j other. omega (
          arith,
          unread-send_complete (tree.node i).parent i x j,
          unread-set_phase i (returning err) sent j,
        ),
      )
  Step-Turn_unread {x} (finish i err at room) =
      let sent = send_error (tree.node i).parent err x in
      let phase = after_return (tree.node i).parent err (x.runs i).status in
      (
        i,
        _,
        finished err at,
        own-set_phase i phase x sent (own-send_error (tree.node i).parent err x),
        λ j other. omega (
          arith,
          unread-send_error (tree.node i).parent err x j,
          unread-set_phase i phase sent j,
        ),
      )

  pub Step-Turn :
      {x y : Execution}
      → Step errorf tree x y
      → (i : ℕ) × (m : NodeRun) × Turn errorf tree x i m
        × ((j : ℕ) → own (y.runs j) ≡ own (set_run i m x.runs j))
  Step-Turn step = let (i, m, turn, same, _) = Step-Turn_unread step in (i, m, turn, same)

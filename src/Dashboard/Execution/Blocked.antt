-- ===== src/Dashboard/Execution/Blocked.antt =====
-- dashboardexecute: a leaf that cannot get a value that it depends on, and its container.
use mathlib.Core.Bool.{true≢false}
use steampipe.Prelude.{
  ◌≡◌, ℕ, String, Bool, List, any, true, eqb, inr, false, ◌∷◌, Option, ◌⊎◌, all, some, Bool-cases,
  none, sym, refl, subst, ap, eqb_iff, ◌∙◌, [], not,
}
use steampipe.Dashboard.Build.{ready, DashboardRunStatus, is_ready}
use steampipe.Dashboard.Execution.{
  Phase, RuntimeDependency, ExecutionTree, returning, NodeRun, get_runtime_dependency, depending,
  Execution, ended, container_node, after_return, inl, run_complete,
}
use steampipe.Dashboard.Execution.Steps.{
  query, at_start, then_step, resolve, check_controls, set, cancel, deliver, Local, check_loop,
  receive_complete, Step, receive_error, Reach, dependency,
}
use steampipe.Dashboard.Execution.Turn.{
  Turn, own, Step-Turn, started, moved, notified, finished, set_run-cases,
}
use steampipe.Dashboard.Execution.Past.{is_past, Step-past}

abbrev pub is_gone : Phase → Bool
is_gone (returning err) = true
is_gone ended = true
is_gone _ = false

-- The run is about to look up a dependency, or it has returned, and it has no status.
IsDoomed : RuntimeDependency → List RuntimeDependency → Phase × DashboardRunStatus → Type 0
IsDoomed d rest (phase, status) =
    ((phase ≡ depending (d ∷ rest)) ⊎ (is_gone phase ≡ true)) × (status ≡ ready)

-- The loop's test fails while a child is not complete.
pub all-false :
    (p : ℕ → Bool) (xs : List ℕ) (c : ℕ)
    → any (λ (k : ℕ). eqb c k) xs ≡ true
    → p c ≡ false
    → all p xs ≡ false
all-false p [] c elem h = cc
all-false p (x ∷ xs) c elem h = elim (Bool-cases (eqb c x)) [
  | inl e ↦ rw (sym (ap p ((eqb_iff c x).0 e)) ∙ h)
  | inr e ↦ elim (Bool-cases (p x)) [
    | inl e' ↦ rw (e', all-false p xs c (sym (rw e) ∙ elem) h)
    | inr e' ↦ rw e'
  ]
]

pub ended_after :
    (parent : Option ℕ) (p : ℕ) (err' : Option String) (status : DashboardRunStatus)
    → parent ≡ some p
    → is_gone (after_return parent err' status) ≡ true
ended_after parent p none status h = refl
ended_after parent p (some err') status h = rw h

module _ (errorf : String → String) (tree : ExecutionTree) where
  pub Local-gone :
      {runs : ℕ → NodeRun} {i : ℕ} {n : NodeRun}
      → Local errorf tree runs i n
      → is_gone (runs i).phase ≡ false
  Local-gone (check_loop ds is at) = rw at
  Local-gone (receive_complete ds c rest is at has) = rw at
  Local-gone (receive_error ds err rest is at has) = rw at
  Local-gone (dependency ds rest d is at) = rw at
  Local-gone (deliver ds rest is at) = rw at
  Local-gone (cancel ds rest b err is at) = rw at
  Local-gone (resolve ds is at) = rw at
  Local-gone (query ds answer is at) = rw at
  Local-gone (check_controls answer is at) = rw at
  Local-gone (set err at) = rw at

  module _ (d : RuntimeDependency) (rest : List RuntimeDependency) (err : String)
      (fails : get_runtime_dependency tree d ≡ inr err) where
    Local-depending :
        {runs : ℕ → NodeRun} {i : ℕ} {n : NodeRun}
        → Local errorf tree runs i n
        → (runs i).phase ≡ depending (d ∷ rest)
        → (is_gone n.phase ≡ true) × (n.status ≡ (runs i).status)
    Local-depending (check_loop ds is at) h = absurd cc
    Local-depending (receive_complete ds c rest' is at has) h = absurd cc
    Local-depending (receive_error ds err' rest' is at has) h = absurd cc
    Local-depending (dependency ds rest' d' is at) h =
        let same : d' ≡ d = cc in (rw (same, fails), refl)
    Local-depending (deliver ds rest' is at) h = absurd cc
    Local-depending (cancel ds rest' b err' is at) h = absurd cc
    Local-depending (resolve ds is at) h = absurd cc
    Local-depending (query ds answer is at) h = absurd cc
    Local-depending (check_controls answer is at) h = absurd cc
    Local-depending (set err' at) h = absurd cc

    Turn-IsDoomed :
        {x : Execution} {c p : ℕ} {m : NodeRun}
        → (tree.node c).parent ≡ some p
        → Turn errorf tree x c m
        → IsDoomed d rest (own (x.runs c))
        → IsDoomed d rest (own m)
    unfolding IsDoomed
    Turn-IsDoomed parent (started at) (inl h, status) = absurd cc
    Turn-IsDoomed parent (started at) (inr h, status) = absurd (true≢false (sym h ∙ rw at))
    Turn-IsDoomed parent (moved n local) (inl h, status) =
        let (gone, same) = Local-depending local h in (inr gone, same ∙ status)
    Turn-IsDoomed parent (moved n local) (inr h, status) =
        absurd (true≢false (sym h ∙ Local-gone local))
    Turn-IsDoomed parent (notified err' at) (h, status) = (inr refl, status)
    Turn-IsDoomed {x} {c} {p} parent (finished err' at) (h, status) =
        (inr (ended_after (tree.node c).parent p err' (x.runs c).status parent), status)

    Step-IsDoomed :
        {x y : Execution} {c p : ℕ}
        → (tree.node c).parent ≡ some p
        → Step errorf tree x y
        → IsDoomed d rest (own (x.runs c))
        → IsDoomed d rest (own (y.runs c))
    Step-IsDoomed {x} {y} {c} {p} parent step h =
        let (k, m, turn, same) = Step-Turn errorf tree step in
        subst (IsDoomed d rest) (sym (same c)) (elim (set_run-cases k m x.runs c) [
          | inl (e, is) ↦
              subst (λ (n : NodeRun). IsDoomed d rest (own n)) (sym is)
                (Turn-IsDoomed (ap (λ (j : ℕ). (tree.node j).parent) e ∙ parent) turn
                  (subst (λ (j : ℕ). IsDoomed d rest (own (x.runs j))) (sym e) h))
          | inr (_, is) ↦ subst (λ (n : NodeRun). IsDoomed d rest (own n)) (sym is) h
        ])

    kept_in_loop :
        {x y : Execution} (i c : ℕ) (children : List ℕ)
        → (tree.node i).kind ≡ container_node children
        → any (λ (k : ℕ). eqb c k) children ≡ true
        → (x.runs c).status ≡ ready
        → is_past (x.runs i).phase ≡ false
        → Step errorf tree x y
        → is_past (y.runs i).phase ≡ false
    kept_in_loop {x} {y} i c children kind elem status loop step =
        elim (Bool-cases (is_past (y.runs i).phase)) [
          | inl past ↦ absurd (elim (Step-past errorf tree i children kind step past) [
            | inl earlier ↦ true≢false (sym earlier ∙ loop)
            | inr now ↦ true≢false (
                sym now
                ∙ all-false (λ (k : ℕ). run_complete (x.runs k)) children c elem
                    (ap (λ (s : DashboardRunStatus). not (is_ready s)) status))
          ])
          | inr loop' ↦ loop'
        ]

    kept :
        {x y : Execution} (i c p : ℕ) (children : List ℕ)
        → (tree.node i).kind ≡ container_node children
        → any (λ (k : ℕ). eqb c k) children ≡ true
        → (tree.node c).parent ≡ some p
        → IsDoomed d rest (own (x.runs c))
        → is_past (x.runs i).phase ≡ false
        → Reach errorf tree x y
        → IsDoomed d rest (own (y.runs c)) × (is_past (y.runs i).phase ≡ false)
    unfolding IsDoomed
    kept i c p children kind elem parent doomed loop at_start = (doomed, loop)
    kept i c p children kind elem parent doomed loop (then_step {y} reach step) =
        let (doomed', loop') = kept i c p children kind elem parent doomed loop reach in
        (
          Step-IsDoomed parent step doomed',
          kept_in_loop i c children kind elem doomed'.1 loop' step,
        )

    -- The dashboard has no input for the dependency that a leaf is about to look up, or it is no
    -- input, and the leaf is not complete. Then the leaf never gets a status, and its container never
    -- leaves its loop, whatever steps all runs take and in whatever order.
    pub Reach-blocked :
        {x y : Execution} (i c p : ℕ) (children : List ℕ)
        → (tree.node i).kind ≡ container_node children
        → any (λ (k : ℕ). eqb c k) children ≡ true
        → (tree.node c).parent ≡ some p
        → (x.runs c).phase ≡ depending (d ∷ rest)
        → (x.runs c).status ≡ ready
        → is_past (x.runs i).phase ≡ false
        → Reach errorf tree x y
        → ((y.runs c).status ≡ ready) × (is_past (y.runs i).phase ≡ false)
    unfolding IsDoomed
    Reach-blocked i c p children kind elem parent at status loop reach =
        let (doomed, loop') = kept i c p children kind elem parent (inl at, status) loop reach in
        (doomed.1, loop')

-- ===== src/Dashboard/Execution/Room.antt =====
-- dashboardexecute: the channel of a container has room for what its children send.
use mathlib.Core.Bool.{true≢false}
use steampipe.Prelude.{
  ◌≡◌, ℕ, String, Bool, Option, List, ◌∷◌, any, ◌≤◌, some, if◌then◌else◌, eqb, length, arith, ◌⊎◌,
  inl, suc, true, [], none, false, ◌+◌, ◌++◌, sym, Bool-cases, ap, ◌∙◌, eqb_iff, length-append,
  refl,
}
use steampipe.Dashboard.Execution.{
  set_status, send_error, ExecutionTree, NodeRun, Execution, send_complete, new_execution,
  container_node, first_phase, inr, notifying, has_room, Phase, returning, after_return,
}
use steampipe.Dashboard.Execution.Steps.{
  query, at_start, then_step, resolve, check_controls, set, cancel, deliver, receive_error,
  dependency, start, move, notify, finish, check_children, Step, Local, Reach, check_loop,
  receive_complete,
}
use steampipe.Dashboard.Execution.Turn.{
  started, moved, notified, finished, unread, Turn, set_run-cases, unread-set_phase, Step-Turn,
}
use steampipe.Dashboard.Execution.Select.{IsTree, or_true}
use steampipe.Dashboard.Build.{DashboardRunStatus}
use steampipe.Dashboard.Execution.Blocked.{is_gone, Local-gone, ended_after}

count : (ℕ → Bool) → List ℕ → ℕ
count p [] = 0
count p (x ∷ xs) = if p x then suc (count p xs) else count p xs

count_mono :
    (p q : ℕ → Bool) (xs : List ℕ)
    → ((c : ℕ) → any (λ (k : ℕ). eqb c k) xs ≡ true → p c ≡ true → q c ≡ true)
    → count p xs ≤ count q xs
unfolding count
count_mono p q [] le = omega arith
count_mono p q (x ∷ xs) le =
    let rest = count_mono p q xs (λ c elem. le c (or_true (eqb c x) _ elem)) in
    elim (Bool-cases (p x)) [
      | inl e ↦ rw (e, le x (rw ((eqb_iff x x).1 refl)) e) (omega (arith, rest))
      | inr e ↦ elim (Bool-cases (q x)) [
        | inl e' ↦ rw (e, e') (omega (arith, rest))
        | inr e' ↦ rw (e, e') rest
      ]
    ]

-- One more is counted.
count-more :
    (p q : ℕ → Bool) (xs : List ℕ) (a : ℕ)
    → any (λ (k : ℕ). eqb a k) xs ≡ true
    → p a ≡ false
    → q a ≡ true
    → ((c : ℕ) → any (λ (k : ℕ). eqb c k) xs ≡ true → p c ≡ true → q c ≡ true)
    → count p xs + 1 ≤ count q xs
unfolding count
count-more p q [] a elem out now le = cc
count-more p q (x ∷ xs) a elem out now le =
    let later : (c : ℕ) → any (λ (k : ℕ). eqb c k) xs ≡ true → p c ≡ true → q c ≡ true =
      λ c elem'. le c (or_true (eqb c x) _ elem') in
    elim (Bool-cases (eqb a x)) [
      | inl e ↦
          let same : a ≡ x = (eqb_iff a x).0 e in
          rw (sym (ap p same) ∙ out, sym (ap q same) ∙ now) (omega (arith, count_mono p q xs later))
      | inr e ↦
          let rest = count-more p q xs a (sym (rw e) ∙ elem) out now later in
          elim (Bool-cases (p x)) [
            | inl e' ↦ rw (e', le x (rw ((eqb_iff x x).1 refl)) e') (omega (arith, rest))
            | inr e' ↦ elim (Bool-cases (q x)) [
              | inl e'' ↦ rw (e', e'') (omega (arith, rest))
              | inr e'' ↦ rw (e', e'') rest
            ]
          ]
    ]

count-length : (p : ℕ → Bool) (xs : List ℕ) → count p xs ≤ length xs
unfolding count
count-length p [] = omega arith
count-length p (x ∷ xs) = ground (arith, count-length p xs)

unread_set : (err : Option String) (n : NodeRun) → unread (set_status err n) ≤ unread n
unfolding set_status
unread_set none n = omega arith
unread_set (some err) n = omega arith

unread_error :
    (parent : Option ℕ) (err : Option String) (x : Execution) (j : ℕ)
    → unread ((send_error parent err x).runs j) ≤ unread (x.runs j)
unfolding send_error
unread_error parent none x j = omega arith
unread_error none (some err) x j = omega arith
unread_error (some p) (some err) x j =
    elim (set_run-cases p (record (x.runs p) { err_chan = (x.runs p).err_chan ++ (err ∷ []) })
      x.runs j) [
        | inl (e, is) ↦ omega (arith, ap unread is, ap (λ (k : ℕ). unread (x.runs k)) e)
        | inr (_, is) ↦ omega (arith, ap unread is)
      ]

module _ (errorf : String → String) (tree : ExecutionTree) (is_tree : IsTree tree) where
  Local-unread :
      {runs : ℕ → NodeRun} {i : ℕ} {n : NodeRun}
      → Local errorf tree runs i n
      → unread n ≤ unread (runs i)
  unfolding check_children
  Local-unread (check_loop ds is at) = omega arith
  Local-unread (receive_complete ds c rest is at has) =
      omega (arith, ap (λ (l : List ℕ). length l) has)
  Local-unread (receive_error ds err rest is at has) = omega arith
  Local-unread (dependency ds rest d is at) = omega arith
  Local-unread (deliver ds rest is at) = omega arith
  Local-unread (cancel ds rest b err is at) = omega arith
  Local-unread (resolve ds is at) = omega arith
  Local-unread (query ds answer is at) = omega arith
  Local-unread (check_controls answer is at) = omega arith
  Local-unread {runs} {i} (set err at) = unread_set err (runs i)

  -- A child that has told its parent, or returned without doing so, stays gone.
  Turn-gone :
      {x : Execution} {i p : ℕ} {m : NodeRun}
      → (tree.node i).parent ≡ some p
      → Turn errorf tree x i m
      → is_gone (x.runs i).phase ≡ true
      → is_gone m.phase ≡ true
  Turn-gone parent (started at) h = absurd (true≢false (sym h ∙ rw at))
  Turn-gone parent (moved n local) h = absurd (true≢false (sym h ∙ Local-gone errorf tree local))
  Turn-gone parent (notified err at) h = absurd (true≢false (sym h ∙ rw at))
  Turn-gone {x} {i} {p} parent (finished err at) h =
      ended_after (tree.node i).parent p err (x.runs i).status parent

  Step-gone :
      {x y : Execution}
      → Step errorf tree x y
      → (c p : ℕ) → (tree.node c).parent ≡ some p
      → is_gone (x.runs c).phase ≡ true
      → is_gone (y.runs c).phase ≡ true
  Step-gone {x} {y} step c p parent h =
      let (k, m, turn, same) = Step-Turn errorf tree step in
      ap (λ (o : Phase × DashboardRunStatus). is_gone o.0) (same c)
      ∙ elim (set_run-cases k m x.runs c) [
        | inl (e, is) ↦
            ap (λ (n : NodeRun). is_gone n.phase) is
            ∙ Turn-gone (ap (λ (j : ℕ). (tree.node j).parent) e ∙ parent) turn
                (ap (λ (j : ℕ). is_gone (x.runs j).phase) e ∙ h)
        | inr (_, is) ↦ ap (λ (n : NodeRun). is_gone n.phase) is ∙ h
      ]

  -- In a step, a container gets no message, or gets one from a child that goes.
  Sent : (x y : Execution) → ℕ → Type 0
  Sent x y i =
      (unread (y.runs i) ≤ unread (x.runs i))
      ⊎ ((k : ℕ) × ((tree.node k).parent ≡ some i)
          × (is_gone (x.runs k).phase ≡ false)
          × (is_gone (y.runs k).phase ≡ true)
          × (unread (y.runs i) ≤ unread (x.runs i) + 1))

  unread_sent :
      (parent : Option ℕ) (k i : ℕ) (x : Execution)
      → ((unread ((send_complete parent k x).runs i) ≤ unread (x.runs i))
          ⊎ ((parent ≡ some i)
              × (unread ((send_complete parent k x).runs i) ≤ unread (x.runs i) + 1)))
  unfolding send_complete
  unread_sent none k i x = inl (omega arith)
  unread_sent (some q) k i x =
      elim (set_run-cases q
        (record (x.runs q) { child_complete = (x.runs q).child_complete ++ (k ∷ []) }) x.runs i) [
          | inl (e, is) ↦ inr (
            ap some e,
            omega (
              arith,
              ap unread is,
              length-append (x.runs q).child_complete (k ∷ []),
              ap (λ (j : ℕ). unread (x.runs j)) e,
            ),
          )
          | inr (other, is) ↦ inl (omega (arith, ap unread is))
        ]

  Step-Sent : {x y : Execution} → Step errorf tree x y → (i : ℕ) → Sent x y i
  unfolding Sent
  Step-Sent {x} (start k at spawned) i = inl (
      omega (
        arith,
        unread-set_phase k (first_phase (tree.node k).kind (tree.node k).parent (x.runs k).status) x
            i,
      ))
  Step-Sent {x} (move k n local) i = inl (elim (set_run-cases k n x.runs i) [
    | inl (e, is) ↦
        omega (arith, ap unread is, Local-unread local, ap (λ (j : ℕ). unread (x.runs j)) e)
    | inr (_, is) ↦ omega (arith, ap unread is)
  ])
  Step-Sent {x} (notify k err at room) i =
      let sent = send_complete (tree.node k).parent k x in
      let same = unread-set_phase k (returning err) sent i in
      elim (unread_sent (tree.node k).parent k i x) [
        | inl le ↦ inl (omega (arith, le, same))
        | inr (parent, le) ↦
            inr (k, parent, rw at, rw ((eqb_iff k k).1 refl), omega (arith, le, same))
      ]
  Step-Sent {x} (finish k err at room) i =
      let phase = after_return (tree.node k).parent err (x.runs k).status in
      inl (
        omega (
          arith,
          unread-set_phase k phase (send_error (tree.node k).parent err x) i,
          unread_error (tree.node k).parent err x i,
        ))

  Reach-counted :
      (statuses : ℕ → DashboardRunStatus) {x : Execution}
      → Reach errorf tree (new_execution statuses) x
      → (i : ℕ) (children : List ℕ) → (tree.node i).kind ≡ container_node children
      → unread (x.runs i) ≤ count (λ (c : ℕ). is_gone (x.runs c).phase) children
  unfolding new_execution Sent
  Reach-counted statuses at_start i children kind = omega arith
  Reach-counted statuses {x} (then_step {y} reach step) i children kind =
      let before = Reach-counted statuses reach i children kind in
      let gone : ℕ → Bool = λ c. is_gone (y.runs c).phase in
      let gone' : ℕ → Bool = λ c. is_gone (x.runs c).phase in
      let stays : (c : ℕ)
          → any (λ (k : ℕ). eqb c k) children ≡ true
          → gone c ≡ true
          → gone' c ≡ true =
        λ c elem. Step-gone step c i (is_tree.parent_of_child i children c kind elem) in
      elim (Step-Sent step i) [
        | inl le ↦ omega (arith, le, before, count_mono gone gone' children stays)
        | inr (k, parent, was, is, le) ↦ omega (
          arith,
          le,
          before,
          count-more gone gone' children k (is_tree.child_of_parent i children k kind parent) was is
              stays,
        )
      ]

  -- A child that is about to tell its dashboard or container that it is complete or in error finds
  -- room in the channel, so that the message is never blocked, whatever steps have been taken.
  pub Reach-has_room :
      (statuses : ℕ → DashboardRunStatus) {x : Execution}
      → Reach errorf tree (new_execution statuses) x
      → (i c : ℕ) (children : List ℕ) (err : Option String)
      → (tree.node i).kind ≡ container_node children
      → (tree.node c).parent ≡ some i
      → (x.runs c).phase ≡ notifying err
      → has_room tree (tree.node c).parent x ≡ true
  Reach-has_room statuses {x} reach i c children err kind parent at =
      let gone : ℕ → Bool = λ k. is_gone (x.runs k).phase in
      let less : count gone children + 1 ≤ length children = omega (
        arith,
        count-more gone (λ k. true) children c (is_tree.child_of_parent i children c kind parent)
            (rw at) refl (λ k elem h. refl),
        count-length (λ k. true) children,
      ) in
      rw (parent, kind) (ground (arith, Reach-counted statuses reach i children kind, less))

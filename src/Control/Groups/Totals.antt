-- ===== src/Control/Groups/Totals.antt =====
-- result_group.go: the counts of a group after any sequence of updates.
use steampipe.Control.Groups.{
  Heap, update_summary, add_status, update_severity_counts, ResultGroup, add_summary, or_zero,
  add_severity,
}
use steampipe.Control.Groups.Climb.{IsTree, is_under, climb_lem, is_under-same, IsTree-same}
use steampipe.Control.Results.{StatusSummary, no_results}
use steampipe.Prelude.{
  ℕ, List, ◌≡◌, arith, ap, sym, suc, ◌∙◌, refl, ◌∷◌, [], if◌then◌else◌, String, true, some, ==_refl,
  string_eq,
}
use mathlib.Core.List.{Permᴰ, Perm}
use native.Mathlib.Decide.{ℕ_discrete}
use mathlib.Core.Path.{ap₂}
use mathlib.Core.Logic.{∥∥₁_elim}
use mathlib.Core.HLevel.{hedberg}
use steampipe.Prelude.Dict.{lookup, lookup-insert}

add_status_assoc :
    (a b c : StatusSummary) → add_status (add_status a b) c ≡ add_status a (add_status b c)
unfolding add_status
add_status_assoc a b c = ground arith

add_status_left_comm :
    (a b c : StatusSummary) → add_status a (add_status b c) ≡ add_status b (add_status a c)
unfolding add_status
add_status_left_comm a b c = ground arith

add_status-none : (a : StatusSummary) → add_status a no_results ≡ a
unfolding add_status
add_status-none a = ground arith

-- A control that is done: its group and its counts.
abbrev pub Update : Type 0
Update = ℕ × StatusSummary

-- `updateSummary` of each control that is done, in the order in which they take the locks.
unfoldable pub update_all : List Update → Heap → Heap
update_all [] h = h
update_all ((i, s) ∷ us) h = update_all us (update_summary i s h)

-- The counts of the controls in the subtree of group `j`.
unfoldable pub total_under : Heap → ℕ → List Update → StatusSummary
total_under h j [] = no_results
total_under h j ((i, s) ∷ us) =
    let rest = total_under h j us in if is_under (suc i) h j i then add_status s rest else rest

SameParents-update :
    (i j : ℕ) (s : StatusSummary) (h : Heap)
    → IsTree h
    → (update_summary i s h j).parent ≡ (h j).parent
unfolding update_summary
SameParents-update i j s h tree =
    ap (λ (r : ResultGroup). r.parent)
      (climb_lem (suc i) (add_summary s) i j h (λ r. refl) tree (omega arith))
    ∙ ground arith

total_under-same :
    (h k : Heap) (j : ℕ) (us : List Update)
    → ((i : ℕ) → (k i).parent ≡ (h i).parent)
    → total_under k j us ≡ total_under h j us
unfolding total_under
total_under-same h k j [] same = refl
total_under-same h k j ((i, s) ∷ us) same =
    rw (is_under-same (suc i) h k j i same, total_under-same h k j us same)

-- Where parents come before their children, after any sequence of updates each group's counts are
-- what they were before, plus the counts of the controls in its subtree.
pub update_all-total :
    (us : List Update) (h : Heap) (j : ℕ)
    → IsTree h
    → (update_all us h j).summary_status ≡ add_status (h j).summary_status (total_under h j us)
unfolding update_all total_under
update_all-total [] h j tree = sym (add_status-none (h j).summary_status)
update_all-total ((i, s) ∷ us) h j tree =
    let k = update_summary i s h in
    let same = λ (n : ℕ). SameParents-update i n s h tree in
    let ih = update_all-total us k j (IsTree-same h k same tree) in
    let here : k j ≡ (if is_under (suc i) h j i then add_summary s (h j) else h j) =
      unfold update_summary in
      climb_lem (suc i) (add_summary s) i j h (λ r. refl) tree (omega arith) in
    ih
    ∙ rw (total_under-same h k j us same, here)
        (ground (arith, add_status_assoc (h j).summary_status s (total_under h j us)))

-- The counts of one more control.
abbrev with_update : Heap → ℕ → Update → StatusSummary → StatusSummary
with_update h j u rest = if is_under (suc u.0) h j u.0 then add_status u.1 rest else rest

with_update_comm :
    (h : Heap) (j : ℕ) (u v : Update) (rest : StatusSummary)
    → with_update h j u (with_update h j v rest) ≡ with_update h j v (with_update h j u rest)
with_update_comm h j u v rest = ground (arith, add_status_left_comm u.1 v.1 rest)

total_under-permᴰ :
    (h : Heap) (j : ℕ) {us vs : List Update} → Permᴰ us vs → total_under h j us ≡ total_under h j vs
unfolding total_under
total_under-permᴰ h j Permᴰ.nil = refl
total_under-permᴰ h j (Permᴰ.cons e p) = ap₂ (with_update h j) e (total_under-permᴰ h j p)
total_under-permᴰ h j (Permᴰ.swap {a = u} {b = v} {l = us} e e') =
    with_update_comm h j u v (total_under h j us)
    ∙ ap₂ (λ (x y : Update). with_update h j x (with_update h j y (total_under h j us))) e' e
total_under-permᴰ h j (Permᴰ.trans p q) = total_under-permᴰ h j p ∙ total_under-permᴰ h j q

StatusSummary-discrete : Discrete StatusSummary
StatusSummary-discrete = hlevel ℕ_discrete

-- Where parents come before their children, the order in which the controls finish does not
-- matter: any two orders of the same updates leave the same counts in every group.
pub update_all-perm :
    (us vs : List Update) (h : Heap) (j : ℕ)
    → IsTree h
    → Perm us vs
    → (update_all us h j).summary_status ≡ (update_all vs h j).summary_status
update_all-perm us vs h j tree p = ∥∥₁_elim p (hedberg StatusSummary-discrete _ _) λ q.
    update_all-total us h j tree
    ∙ ap (add_status (h j).summary_status) (total_under-permᴰ h j q)
    ∙ sym (update_all-total vs h j tree)

-- Where parents come before their children, `updateSeverityCounts` at a group and at each
-- ancestor: the count that is stored starts from `Severity`, which stays as it is, and replaces
-- the one that was stored for the severity before.
update_severity_counts-lookup :
    (i j : ℕ) (severity : String) (s : StatusSummary) (h : Heap)
    → IsTree h
    → is_under (suc i) h j i ≡ true
    → (lookup severity (update_severity_counts i severity s h j).summary_severity
        ≡ some (add_status (or_zero (lookup severity (h j).severity)) s))
      × ((update_severity_counts i severity s h j).severity ≡ (h j).severity)
unfolding update_severity_counts
update_severity_counts-lookup i j severity s h tree under =
    let here = climb_lem (suc i) (add_severity severity s) i j h (λ r. refl) tree (omega arith) in
    rw (here, under)
      (lookup-insert severity severity _ (h j).summary_severity ∙ rw (==_refl severity), refl)

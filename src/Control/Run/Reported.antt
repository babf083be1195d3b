-- ===== src/Control/Run/Reported.antt =====
-- control_run.go: the groups' counts after a run has added its own a number of times.
use steampipe.Control.Run.{RunState, update_group, clean_up}
use steampipe.Prelude.{
  ℕ, suc, ◌≡◌, List, String, if◌then◌else◌, zero, arith, refl, ◌∙◌, ap, sym, Bool-cases, ◌==◌, inl,
  inr, string_eq,
}
use steampipe.Control.Groups.{
  Heap, add_dimension_keys, update_severity_counts, add_status, add_duration, add_severity,
  update_summary, add_summary, ResultGroup,
}
use steampipe.Control.Results.{StatusSummary}
use steampipe.Control.Groups.Climb.{IsTree, climb_lem, is_under, IsTree-same, is_under-same}
use steampipe.Control.Groups.Keys.{add_dimension_keys_from_lem}
use steampipe.Control.Groups.Duration.{add_duration_lem}

unfoldable pub add_times : ℕ → StatusSummary → StatusSummary → StatusSummary
add_times zero s c = c
add_times (suc n) s c = add_status (add_times n s c) s

-- The groups of `h` after the run of group `i` has added its counts `n` times.
pub record Reported (n : ℕ) (h : Heap) (i : ℕ) (s : RunState) : Type 0 where
  pub same_group : s.run.group ≡ i
  pub same_parents : (j : ℕ) → (s.groups j).parent ≡ (h j).parent
  pub counts_of :
      (j : ℕ)
      → (s.groups j).summary_status ≡ (
          if is_under (suc i) h j i
          then add_times n s.run.summary (h j).summary_status
          else (h j).summary_status)

-- Two heaps with the same parents and the same counts.
pub record SameCounts (h k : Heap) : Type 0 where
  pub parents : (j : ℕ) → (k j).parent ≡ (h j).parent
  pub counts : (j : ℕ) → (k j).summary_status ≡ (h j).summary_status

pub SameCounts-keys :
    (i : ℕ) (keys : List String) (h : Heap) → IsTree h → SameCounts h (add_dimension_keys i keys h)
unfolding add_dimension_keys
SameCounts-keys i keys h tree =
    let here = λ (j : ℕ). add_dimension_keys_from_lem (suc i) i j keys h tree (omega arith) in
    record { parents = λ j. ground (arith, here j); counts = λ j. ground (arith, here j) }

SameCounts-severity :
    (i : ℕ) (severity : String) (c : StatusSummary) (h : Heap)
    → IsTree h
    → SameCounts h (update_severity_counts i severity c h)
unfolding update_severity_counts
SameCounts-severity i severity c h tree =
    let here =
      λ (j : ℕ). climb_lem (suc i) (add_severity severity c) i j h (λ r. refl) tree (omega arith) in
    record { parents = λ j. ground (arith, here j); counts = λ j. ground (arith, here j) }

SameCounts-duration : (i d : ℕ) (h : Heap) → IsTree h → SameCounts h (add_duration i d h)
SameCounts-duration i d h tree =
    let here = λ (j : ℕ). add_duration_lem i j d h tree in
    record { parents = λ j. ground (arith, here j); counts = λ j. ground (arith, here j) }

pub Reported-same :
    (n : ℕ) (h : Heap) (i : ℕ) (s s' : RunState)
    → s'.run.group ≡ s.run.group
    → s'.run.summary ≡ s.run.summary
    → SameCounts s.groups s'.groups
    → Reported n h i s
    → Reported n h i s'
Reported-same n h i s s' group summary same r = record {
  same_group = group ∙ r.same_group;
  same_parents = λ j. same.parents j ∙ r.same_parents j;
  counts_of = λ j.
      same.counts j
      ∙ r.counts_of j
      ∙ ap
          (λ c.
            if is_under (suc i) h j i
            then add_times n c (h j).summary_status
            else (h j).summary_status)
          (sym summary);
}

pub Reported-IsTree :
    (n : ℕ) (h : Heap) (i : ℕ) (s : RunState) → IsTree h → Reported n h i s → IsTree s.groups
Reported-IsTree n h i s tree r = IsTree-same h s.groups r.same_parents tree

pub Reported-update_group :
    (n : ℕ) (h : Heap) (i : ℕ) (s : RunState)
    → IsTree h
    → Reported n h i s
    → Reported (suc n) h i (update_group s)
unfolding update_summary add_times
Reported-update_group n h i s tree r =
    let tree' = Reported-IsTree n h i s tree r in
    let here = λ (j : ℕ).
      climb_lem (suc s.run.group) (add_summary s.run.summary) s.run.group j s.groups (λ g. refl)
        tree' (omega arith) in
    let under = λ (j : ℕ).
      is_under-same (suc s.run.group) h s.groups j s.run.group r.same_parents
      ∙ ap (λ (g : ℕ). is_under (suc g) h j g) r.same_group in
    record {
      same_group = r.same_group;
      same_parents = λ j. ground (arith, here j, r.same_parents j);
      counts_of = λ j.
          ap (λ (g : ResultGroup). g.summary_status) (here j)
          ∙ rw (under j) (ground (arith, r.counts_of j));
    }

-- The clean-up adds the counts once more, and the rest of it touches no count.
pub Reported-clean_up :
    (n elapsed : ℕ) (h : Heap) (i : ℕ) (s : RunState)
    → IsTree h
    → Reported n h i s
    → Reported (suc n) h i (clean_up elapsed s)
unfolding clean_up
Reported-clean_up n elapsed h i s tree r =
    let s1 = update_group s in
    let r1 = Reported-update_group n h i s tree r in
    let tree1 = Reported-IsTree (suc n) h i s1 tree r1 in
    let k = update_severity_counts s1.run.group s1.run.severity s1.run.summary s1.groups in
    let sev = SameCounts-severity s1.run.group s1.run.severity s1.run.summary s1.groups tree1 in
    elim (Bool-cases (s1.run.severity == "")) [
      | inl none_given ↦ rw none_given (
          Reported-same (suc n) h i s1 _ refl refl
            (SameCounts-duration s.run.group elapsed s1.groups tree1) r1)
      | inr given ↦ rw given (
          let s2 = record s1 { groups = k } in
          let r2 = Reported-same (suc n) h i s1 s2 refl refl sev r1 in
          Reported-same (suc n) h i s2 _ refl refl
            (SameCounts-duration s.run.group elapsed k (Reported-IsTree (suc n) h i s2 tree r2)) r2)
    ]

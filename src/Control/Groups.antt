-- ===== src/Control/Groups.antt =====
-- control/controlexecute/result_group.go: the counters of the groups of a run.
-- A group is a number, and the heap gives the struct behind it. `updateLock` makes each step of a
-- climb atomic; an interleaving of climbs is an order of updates (Groups/Totals.antt). A climb to the
-- root takes fuel: a parent is made before its children, so `suc group` is enough (Groups/Climb.antt).
-- `time.Duration` is a number of nanoseconds.
pub mod Climb
pub mod Totals
pub mod Duration
pub mod Keys
mod Tests
use steampipe.Prelude.{
  String, ℕ, Option, List, if◌then◌else◌, suc, ◌+◌, ◌%◌, ◌∷◌, ◌++◌, eqb, some, ltb, any, none,
  string_eq, ◌-◌, ◌==◌, zero, [],
}
use steampipe.Control.Results.{StatusSummary, no_results}
use steampipe.Prelude.Dict.{Dict, insert, lookup}

pub record ResultGroup : Type 0 where
  pub group_id : String
  pub summary_status : StatusSummary  -- Summary.Status
  pub summary_severity : Dict String StatusSummary  -- Summary.Severity
  pub severity : Dict String StatusSummary
  pub parent : Option ℕ
  pub duration : ℕ
  pub dimension_keys : List String

abbrev pub Heap : Type 0
Heap = ℕ → ResultGroup

abbrev pub modify : ℕ → (ResultGroup → ResultGroup) → Heap → Heap
modify i f h j = if eqb i j then f (h j) else h j

-- `if r.Parent != nil`
abbrev pub at_parent {ℓ} : {A : Type ℓ} → Option ℕ → A → (ℕ → A) → A
at_parent none root above = root
at_parent (some p) root above = above p

-- Applies `f` to a group, and then to its parent, up to the root.
unfoldable pub climb : ℕ → (ResultGroup → ResultGroup) → ℕ → Heap → Heap
climb zero f i h = h
climb (suc fuel) f i h = at_parent (h i).parent (modify i f h) (λ p. climb fuel f p (modify i f h))

unfoldable pub add_status : StatusSummary → StatusSummary → StatusSummary
add_status a b = record {
  alarm = a.alarm + b.alarm;
  ok = a.ok + b.ok;
  info = a.info + b.info;
  skip = a.skip + b.skip;
  error = a.error + b.error;
}

abbrev pub add_summary : StatusSummary → ResultGroup → ResultGroup
add_summary summary r = record r { summary_status = add_status r.summary_status summary }

unfoldable pub update_summary : ℕ → StatusSummary → Heap → Heap
unfolding climb
update_summary i summary = climb (suc i) (add_summary summary) i

abbrev pub or_zero : Option StatusSummary → StatusSummary
or_zero none = no_results
or_zero (some val) = val

-- The source reads `r.Severity` and writes `r.Summary.Severity`.
abbrev pub add_severity : String → StatusSummary → ResultGroup → ResultGroup
add_severity severity summary r = record r {
  summary_severity =
      insert severity (add_status (or_zero (lookup severity r.severity)) summary)
        r.summary_severity;
}

unfoldable pub update_severity_counts : ℕ → String → StatusSummary → Heap → Heap
unfolding climb
update_severity_counts i severity summary = climb (suc i) (add_severity severity summary) i

abbrev pub millisecond : ℕ
millisecond = 1000000

-- time.Duration.Round(time.Millisecond), for a duration that is not negative
unfoldable pub round : ℕ → ℕ
round d =
    let r = d % millisecond in if ltb (r + r) millisecond then d - r else d + (millisecond - r)

abbrev pub add_time : ℕ → ResultGroup → ResultGroup
add_time d r = record r { duration = r.duration + d }

-- Each group rounds what it is given and hands the rounded value on.
unfoldable pub add_duration_from : ℕ → ℕ → ℕ → Heap → Heap
add_duration_from zero i d h = h
add_duration_from (suc fuel) i d h =
    at_parent (h i).parent (modify i (add_time (round d)) h)
      (λ p. add_duration_from fuel p (round d) (modify i (add_time (round d)) h))

unfoldable pub add_duration : ℕ → ℕ → Heap → Heap
unfolding add_duration_from
add_duration i d = add_duration_from (suc i) i d

-- utils.StringSliceDistinct; the order of the result is that of a Go map's keys, which is open.
unfoldable pub string_slice_distinct : List String → List String
string_slice_distinct [] = []
string_slice_distinct (item ∷ items) =
    let rest = string_slice_distinct items in
    if any (λ k. k == item) rest then rest else item ∷ rest

abbrev pub append_keys : List String → ResultGroup → ResultGroup
append_keys keys r = record r { dimension_keys = r.dimension_keys ++ keys }

abbrev pub distinct_keys : ResultGroup → ResultGroup
distinct_keys r = record r { dimension_keys = string_slice_distinct r.dimension_keys }

-- The group's own list is cut down after the call on the parent.
unfoldable pub add_dimension_keys_from : ℕ → ℕ → List String → Heap → Heap
unfolding string_slice_distinct
add_dimension_keys_from zero i keys h = h
add_dimension_keys_from (suc fuel) i keys h = modify i distinct_keys (
    at_parent (h i).parent (modify i (append_keys keys) h)
      (λ p. add_dimension_keys_from fuel p keys (modify i (append_keys keys) h)))

unfoldable pub add_dimension_keys : ℕ → List String → Heap → Heap
unfolding add_dimension_keys_from
add_dimension_keys i keys = add_dimension_keys_from (suc i) i keys

-- ===== src/Control/Run/Twice.antt =====
-- control_run.go: how often a run adds its counts to its groups.
use steampipe.Control.Run.{
  Attempt, Stream, RunState, no_session, no_query, no_search_path, query_error, plugin_crash,
  results, nil_row, row_error, bad_row, row, max_control_run_attempts, gather_loop, collect_keys,
  leave, execute, set_error, with_progress, set_run_status, finished, keys_of,
  created_ordered_result_rows, add_result_row, with_run, start, attempted, wait_for_results,
}
use steampipe.Prelude.{
  ℕ, suc, ◌≡◌, List, String, ◌+◌, if◌then◌else◌, ltb, arith, refl, ◌∙◌, ap, Bool-cases, inl, inr,
  string_eq, ◌++◌, true, ◌∷◌, [],
}
use steampipe.Control.Groups.{Heap, add_status, ResultGroup, string_slice_distinct}
use steampipe.Control.Results.{ResultRow}
use steampipe.Control.Groups.Climb.{IsTree, is_under}
use steampipe.Control.Progress.{on_control_finish}
use steampipe.Control.Run.Rows.{stream_of}
use steampipe.Control.Run.Reported.{
  add_times, Reported, Reported-update_group, Reported-same, Reported-clean_up, SameCounts-keys,
  Reported-IsTree,
}

-- The calls of `updateSummary` that one stream and one call of `execute` make.
unfoldable pub stream_updates : Stream → ℕ
stream_updates nil_row = 0
stream_updates (row_error err) = 1
stream_updates (bad_row err) = 0
stream_updates (row r rest) = stream_updates rest

unfoldable updates : ℕ → Attempt → ℕ
unfolding stream_updates
updates attempts (no_session elapsed) = 1
updates attempts (no_query elapsed err) = 1
updates attempts (no_search_path elapsed err) = 1
updates attempts (query_error elapsed err) = 1
updates attempts (plugin_crash elapsed err next) =
    let again = suc (updates (attempts + 1) next) in
    if ltb (attempts + 1) max_control_run_attempts then again else 1
updates attempts (results elapsed stream) = suc (stream_updates stream)

-- Before the first addition the counts of the run do not matter.
Reported-zero :
    (h : Heap) (i : ℕ) (s s' : RunState)
    → s'.run.group ≡ s.run.group
    → ((j : ℕ) → s'.groups j ≡ s.groups j)
    → Reported 0 h i s
    → Reported 0 h i s'
unfolding add_times
Reported-zero h i s s' group same r = record {
  same_group = group ∙ r.same_group;
  same_parents = λ j. ap (λ (g : ResultGroup). g.parent) (same j) ∙ r.same_parents j;
  counts_of = λ j. ap (λ (g : ResultGroup). g.summary_status) (same j) ∙ r.counts_of j;
}

gather_loop-Reported :
    (st : Stream) (h : Heap) (i : ℕ) (s : RunState)
    → IsTree h
    → Reported 0 h i s
    → Reported (stream_updates st) h i (gather_loop st s)
unfolding gather_loop stream_updates set_error set_run_status finished created_ordered_result_rows
    add_result_row
gather_loop-Reported nil_row h i s tree r = Reported-zero h i s _ refl (λ j. refl) r
gather_loop-Reported (row_error err) h i s tree r =
    Reported-update_group 0 h i (set_error err s) tree (Reported-zero h i s _ refl (λ j. refl) r)
gather_loop-Reported (bad_row err) h i s tree r = Reported-zero h i s _ refl (λ j. refl) r
gather_loop-Reported (row x rest) h i s tree r =
    gather_loop-Reported rest h i (with_run (add_result_row x) s) tree
      (Reported-zero h i s _ refl (λ j. refl) r)

collect_keys-Reported :
    (n : ℕ) (h : Heap) (i : ℕ) (s : RunState)
    → IsTree h
    → Reported n h i s
    → Reported n h i (collect_keys s)
unfolding collect_keys
collect_keys-Reported n h i s tree r =
    Reported-same n h i s _ refl refl
      (SameCounts-keys s.run.group
        (string_slice_distinct (s.run.dimension_keys ++ keys_of s.run.rows)) s.groups
        (Reported-IsTree n h i s tree r))
      r

leave-Reported :
    (n elapsed : ℕ) (h : Heap) (i : ℕ) (s : RunState)
    → IsTree h
    → Reported n h i s
    → Reported (suc n) h i (leave elapsed s)
unfolding leave
leave-Reported n elapsed h i s tree r =
    let s' = with_progress on_control_finish s in
    Reported-clean_up n elapsed h i s' tree
      (Reported-same n h i s s' refl refl (record { parents = λ j. refl; counts = λ j. refl }) r)

-- A run that has only started.
begin :
    (s s' : RunState)
    → s'.run.group ≡ s.run.group
    → ((j : ℕ) → s'.groups j ≡ s.groups j)
    → Reported 0 s.groups s.run.group s'
unfolding add_times
begin s s' group same = record {
  same_group = group;
  same_parents = λ j. ap (λ (g : ResultGroup). g.parent) (same j);
  counts_of = λ j. ap (λ (g : ResultGroup). g.summary_status) (same j) ∙ ground arith;
}

-- Where parents come before their children, a call of `execute` adds the counts that the run has
-- in the end `updates` times to the run's group and to each of its ancestors, and leaves the
-- counts of the other groups.
execute-Reported :
    (a : Attempt) (s : RunState)
    → IsTree s.groups
    → Reported (updates s.run.attempts a) s.groups s.run.group (execute a s)
unfolding execute updates set_error set_run_status finished start
execute-Reported (no_session elapsed) s tree =
    Reported-clean_up 0 elapsed s.groups s.run.group s tree (begin s s refl (λ j. refl))
execute-Reported (no_query elapsed err) s tree =
    leave-Reported 0 elapsed s.groups s.run.group (set_error err (start s)) tree
      (begin s _ refl (λ j. refl))
execute-Reported (no_search_path elapsed err) s tree =
    leave-Reported 0 elapsed s.groups s.run.group (set_error err (start s)) tree
      (begin s _ refl (λ j. refl))
execute-Reported (query_error elapsed err) s tree =
    leave-Reported 0 elapsed s.groups s.run.group (set_error err (attempted (start s))) tree
      (begin s _ refl (λ j. refl))
execute-Reported (plugin_crash elapsed err next) s tree =
    let s1 = attempted (start s) in
    let ih = execute-Reported next s1 tree in
    elim (Bool-cases (ltb (s.run.attempts + 1) max_control_run_attempts)) [
      | inl retry ↦ rw retry (
          leave-Reported (updates (s.run.attempts + 1) next) elapsed s.groups s.run.group
            (execute next s1) tree ih)
      | inr give_up ↦ rw give_up (
          leave-Reported 0 elapsed s.groups s.run.group (set_error err s1) tree
            (begin s _ refl (λ j. refl)))
    ]
execute-Reported (results elapsed stream) s tree =
    leave-Reported (stream_updates stream) elapsed s.groups s.run.group
      (wait_for_results stream (start s)) tree
      (collect_keys-Reported (stream_updates stream) s.groups s.run.group
        (gather_loop stream (start s)) tree
        (gather_loop-Reported stream s.groups s.run.group (start s) tree
          (begin s _ refl (λ j. refl))))

counted :
    (n : ℕ) (j : ℕ) (a : Attempt) (s : RunState)
    → IsTree s.groups
    → updates s.run.attempts a ≡ n
    → is_under (suc s.run.group) s.groups j s.run.group ≡ true
    → ((execute a s).groups j).summary_status
      ≡ add_times n (execute a s).run.summary (s.groups j).summary_status
counted n j a s tree times under = (execute-Reported a s tree).counts_of j ∙ rw (under, times)

stream_updates-stream_of :
    (rows : List ResultRow) (last : Stream)
    → stream_updates (stream_of rows last) ≡ stream_updates last
unfolding stream_updates
stream_updates-stream_of [] last = refl
stream_updates-stream_of (r ∷ rows) last = stream_updates-stream_of rows last

-- Where parents come before their children, two kinds of control at their first attempt are
-- counted twice in their group and in each group above it: one whose first query meets a plugin
-- crash and whose second yields its rows and ends, and one whose first query yields a row error
-- after its rows.
pub execute-counted_twice :
    (e e' j : ℕ) (err : String) (rows : List ResultRow) (s : RunState)
    → IsTree s.groups
    → s.run.attempts ≡ 0
    → is_under (suc s.run.group) s.groups j s.run.group ≡ true
    → (let retried = execute (plugin_crash e err (results e' (stream_of rows nil_row))) s in
        (retried.groups j).summary_status
        ≡ add_status
            (add_status (s.groups j).summary_status retried.run.summary)
            retried.run.summary)
      × (let failed = execute (results e (stream_of rows (row_error err))) s in
          (failed.groups j).summary_status
          ≡ add_status
              (add_status (s.groups j).summary_status failed.run.summary)
              failed.run.summary)
unfolding updates add_times
execute-counted_twice e e' j err rows s tree first under =
    let retried = plugin_crash e err (results e' (stream_of rows nil_row)) in
    let failed = results e (stream_of rows (row_error err)) in
    (
      counted 2 j retried s tree (rw (first, stream_updates-stream_of rows nil_row)) under,
      counted 2 j failed s tree (ap suc (stream_updates-stream_of rows (row_error err))) under,
    )

-- ===== src/Control/Run/Ended.antt =====
-- control_run.go: the status in which `execute` leaves a run, and what it tells others.
use steampipe.Control.Run.{
  Attempt, Stream, RunState, execute, gather_loop, collect_keys, clean_up, leave, set_error,
  set_run_status, start, no_session, no_query, no_search_path, query_error, plugin_crash, results,
  nil_row, row_error, bad_row, row, max_control_run_attempts, wait_for_results, finished,
  created_ordered_result_rows, add_result_row, with_run, with_progress, is_finished, attempted,
}
use steampipe.Prelude.{
  ℕ, Bool, ◌≡◌, true, if◌then◌else◌, ◌+◌, arith, ltb, false, ◌∙◌, String, ap, Bool-cases, inl, inr,
}
use steampipe.Control.Progress.{
  on_control_complete, on_control_finish, on_control_error, on_control_start,
}
use steampipe.Prelude.Int.{dec, dec-inc}

-- The last call of `execute` gets no database session.
unfoldable pub without_session : ℕ → Attempt → Bool
without_session attempts (no_session elapsed) = true
without_session attempts (plugin_crash elapsed err next) =
    let again = without_session (attempts + 1) next in
    if ltb (attempts + 1) max_control_run_attempts then again else false
without_session attempts _ = false

abbrev sent : Bool → ℕ
sent silent = if silent then 0 else 1

-- What changes from `s` to `s'`.
pub record Ended (silent : Bool) (s s' : RunState) : Type 0 where
  pub told : s'.run.done_sent ≡ s.run.done_sent + sent silent
  pub is_over : silent ≡ false → finished s'.run ≡ true
  pub no_error : silent ≡ true → s'.run.run_error ≡ s.run.run_error
  pub not_running : s'.progress.executing ≡ s.progress.executing

-- A state that differs in what is not told: the counts, the rows, the keys, the groups.
record SameStatus (s s' : RunState) : Type 0 where
  status : s'.run.run_status ≡ s.run.run_status
  told : s'.run.done_sent ≡ s.run.done_sent
  run_error : s'.run.run_error ≡ s.run.run_error
  executing : s'.progress.executing ≡ s.progress.executing

clean_up-SameStatus : (elapsed : ℕ) (s : RunState) → SameStatus s (clean_up elapsed s)
unfolding clean_up
clean_up-SameStatus elapsed s = ground arith

gather_loop-Ended : (st : Stream) (s : RunState) → Ended false s (gather_loop st s)
unfolding gather_loop set_error set_run_status finished created_ordered_result_rows add_result_row
    on_control_complete on_control_error
gather_loop-Ended nil_row s = ground arith
gather_loop-Ended (row_error err) s = ground arith
gather_loop-Ended (bad_row err) s = ground arith
gather_loop-Ended (row x rest) s =
    ground (arith, gather_loop-Ended rest (with_run (add_result_row x) s))

-- What is deferred tells nothing but that the control is not running.
leave-Ended :
    (silent : Bool) (elapsed : ℕ) (s s' : RunState)
    → Ended silent (start s) s'
    → Ended silent s (leave elapsed s')
unfolding leave start on_control_finish on_control_start finished
leave-Ended silent elapsed s s' e =
    let same = clean_up-SameStatus elapsed (with_progress on_control_finish s') in
    record {
      told = same.told ∙ e.told;
      is_over = λ h. ap is_finished same.status ∙ e.is_over h;
      no_error = λ h. same.run_error ∙ e.no_error h;
      not_running = same.executing ∙ ap dec e.not_running ∙ dec-inc s.progress.executing;
    }

set_error-Ended : (err : String) (s : RunState) → Ended false s (set_error err s)
unfolding set_error set_run_status finished on_control_error
set_error-Ended err s = ground arith

-- Counting the attempt and collecting the keys tells nothing.
tried : (silent : Bool) (s s' : RunState) → Ended silent (attempted s) s' → Ended silent s s'
tried silent s s' e = record {
  told = e.told;
  is_over = e.is_over;
  no_error = e.no_error;
  not_running = e.not_running;
}

gathered : (st : Stream) (s : RunState) → Ended false s (wait_for_results st s)
unfolding wait_for_results collect_keys finished
gathered st s =
    let e = gather_loop-Ended st s in
    record {
      told = e.told;
      is_over = e.is_over;
      no_error = e.no_error;
      not_running = e.not_running;
    }

-- Where the context is not cancelled while results are gathered, `execute` sends one value on
-- `doneChan`, which has room for one, and leaves the run complete or in error; only where the last
-- call gets no session does it send nothing and set no error. It leaves the number of running
-- controls as it was.
pub execute-Ended :
    (a : Attempt) (s : RunState) → Ended (without_session s.run.attempts a) s (execute a s)
unfolding execute without_session
execute-Ended (no_session elapsed) s =
    let same = clean_up-SameStatus elapsed s in
    record {
      told = same.told ∙ omega arith;
      is_over = λ h. cc;
      no_error = λ h. same.run_error;
      not_running = same.executing;
    }
execute-Ended (no_query elapsed err) s =
    leave-Ended false elapsed s (set_error err (start s)) (set_error-Ended err (start s))
execute-Ended (no_search_path elapsed err) s =
    leave-Ended false elapsed s (set_error err (start s)) (set_error-Ended err (start s))
execute-Ended (query_error elapsed err) s =
    leave-Ended false elapsed s _
      (tried false (start s) _ (set_error-Ended err (attempted (start s))))
execute-Ended (plugin_crash elapsed err next) s =
    let s1 = attempted (start s) in
    let ih = execute-Ended next s1 in
    elim (Bool-cases (ltb (s.run.attempts + 1) max_control_run_attempts)) [
      | inl retry ↦ rw retry (
          leave-Ended (without_session (s.run.attempts + 1) next) elapsed s (execute next s1)
            (tried (without_session (s.run.attempts + 1) next) (start s) _ ih))
      | inr give_up ↦ rw give_up (
          leave-Ended false elapsed s (set_error err s1)
            (tried false (start s) _ (set_error-Ended err s1)))
    ]
execute-Ended (results elapsed stream) s = leave-Ended false elapsed s _ (gathered stream (start s))

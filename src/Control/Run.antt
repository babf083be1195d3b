-- ===== src/Control/Run.antt =====
-- control/controlexecute/control_run.go: one control, from `execute` to its results.
-- What the database, the clock and the workspace answer is the environment's: `Attempt` holds it
-- for one call of `execute`, with the next attempt behind a plugin crash. The time limit of a query
-- shows as a row error. Messages are not cleaned up (`TransformErrorToSteampipe`), and the lifecycle
-- timer is left out. A context that is cancelled while the results are gathered is left out too:
-- there `setError` of `waitForResults` races with `gatherResults`.
pub mod Rows
pub mod Outcome
pub mod Reported
pub mod Twice
pub mod Ended
mod Tests
use steampipe.Control.Results.{StatusSummary, ResultRow, Dimension}
use steampipe.Control.Progress.{
  ControlProgress, on_control_error, on_control_start, on_control_complete, on_control_finish,
}
use steampipe.Control.Groups.{
  Heap, update_summary, string_slice_distinct, add_dimension_keys, update_severity_counts,
  add_duration,
}
use steampipe.Prelude.{
  Bool, if◌then◌else◌, String, Option, List, ◌++◌, ℕ, ◌+◌, true, some, [], ◌==◌, ◌∷◌, ltb, false,
  none, string_eq, map,
}
use steampipe.Prelude.Dict.{Dict, insert, lookup}

pub data ControlRunStatus : Type 0 where
  ready started complete error : ControlRunStatus

pub record ControlRun : Type 0 where
  pub summary : StatusSummary
  pub rows : List ResultRow
  pub dimension_keys : List String
  pub duration : ℕ
  pub severity : String
  pub group : ℕ
  pub row_map : Dict String (List ResultRow)
  pub run_status : ControlRunStatus
  pub run_error : Option String
  pub attempts : ℕ
  -- how many values were sent on `doneChan`, which has room for one
  pub done_sent : ℕ

-- A run with what it shares with the others: the progress and the groups.
pub record RunState : Type 0 where
  pub run : ControlRun
  pub progress : ControlProgress
  pub groups : Heap

abbrev pub with_run : (ControlRun → ControlRun) → RunState → RunState
with_run f s = record s { run = f s.run }

abbrev pub with_progress : (ControlProgress → ControlProgress) → RunState → RunState
with_progress f s = record s { progress = f s.progress }

abbrev pub with_groups : (Heap → Heap) → RunState → RunState
with_groups f s = record s { groups = f s.groups }

abbrev pub is_finished : ControlRunStatus → Bool
is_finished complete = true
is_finished error = true
is_finished _ = false

unfoldable pub finished : ControlRun → Bool
finished r = is_finished r.run_status

abbrev pub report : ControlRunStatus → RunState → RunState
report error s = with_progress on_control_error s
report _ s = with_progress on_control_complete s

unfoldable pub set_run_status : ControlRunStatus → RunState → RunState
unfolding finished
set_run_status status s =
    let s' = with_run (λ r. record r { run_status = status }) s in
    if finished s'.run
    then with_run (λ r. record r { done_sent = r.done_sent + 1 }) (report status s')
    else s'

abbrev pub count_error : StatusSummary → StatusSummary
count_error c = record c { error = c.error + 1 }

-- The error is never nil where this is called.
unfoldable pub set_error : String → RunState → RunState
unfolding set_run_status
set_error err s =
    set_run_status error
      (with_run (λ r. record r { run_error = some err; summary = count_error r.summary }) s)

unfoldable pub skip : RunState → RunState
unfolding set_run_status
skip s = set_run_status complete s

abbrev pub or_nil : Option (List ResultRow) → List ResultRow
or_nil none = []
or_nil (some rows) = rows

-- The `switch` on the status; any other text counts nothing.
unfoldable pub count_status : String → StatusSummary → StatusSummary
count_status status c =
    if status == "ok"
    then record c { ok = c.ok + 1 }
    else if status == "alarm"
    then record c { alarm = c.alarm + 1 }
    else if status == "skip"
    then record c { skip = c.skip + 1 }
    else if status == "info"
    then record c { info = c.info + 1 }
    else if status == "error"
    then record c { error = c.error + 1 }
    else c

unfoldable pub add_result_row : ResultRow → ControlRun → ControlRun
unfolding count_status
add_result_row row r = record r {
  row_map = insert row.status (or_nil (lookup row.status r.row_map) ++ row ∷ []) r.row_map;
  summary = count_status row.status r.summary;
}

abbrev pub status_order : List String
status_order = "error" ∷ "alarm" ∷ "info" ∷ "ok" ∷ "skip" ∷ []

unfoldable pub ordered_rows : Dict String (List ResultRow) → List String → List ResultRow
ordered_rows m [] = []
ordered_rows m (status ∷ statuses) = or_nil (lookup status m) ++ ordered_rows m statuses

unfoldable pub created_ordered_result_rows : ControlRun → ControlRun
unfolding ordered_rows
created_ordered_result_rows r = record r { rows = r.rows ++ ordered_rows r.row_map status_order }

-- What the query's row channel brings, up to the event that ends the run.
pub data Stream : Type 0 where
  nil_row : Stream
  row_error : String → Stream
  -- `NewResultRow` refuses the row
  bad_row : String → Stream
  row : ResultRow → Stream → Stream

abbrev pub update_group : RunState → RunState
update_group s = with_groups (update_summary s.run.group s.run.summary) s

-- The loop of `gatherResults`. Nothing is sent on `doneChan` before it ends.
unfoldable pub gather_loop : Stream → RunState → RunState
unfolding set_run_status set_error add_result_row created_ordered_result_rows
gather_loop nil_row s = with_run created_ordered_result_rows (set_run_status complete s)
gather_loop (row_error err) s = update_group (set_error err s)
gather_loop (bad_row err) s = set_error err s
gather_loop (row r rest) s = gather_loop rest (with_run (add_result_row r) s)

abbrev pub keys_of : List ResultRow → List String
keys_of [] = []
keys_of (r ∷ rows) = map (λ (d : Dimension). d.key) r.dimensions ++ keys_of rows

-- The deferred function of `gatherResults`.
unfoldable pub collect_keys : RunState → RunState
collect_keys s =
    let keys = string_slice_distinct (s.run.dimension_keys ++ keys_of s.run.rows) in
    with_groups (add_dimension_keys s.run.group keys)
      (with_run (λ r. record r { dimension_keys = keys }) s)

-- `waitForResults`, where the context is not cancelled.
unfoldable pub wait_for_results : Stream → RunState → RunState
unfolding gather_loop collect_keys
wait_for_results stream s = collect_keys (gather_loop stream s)

-- constants.MaxControlRunAttempts
abbrev pub max_control_run_attempts : ℕ
max_control_run_attempts = 2

-- What one call of `execute` meets, with the time that it takes.
pub data Attempt : Type 0 where
  no_session : (elapsed : ℕ) → Attempt
  no_query : (elapsed : ℕ) → String → Attempt
  no_search_path : (elapsed : ℕ) → String → Attempt
  query_error : (elapsed : ℕ) → String → Attempt
  -- a connectivity error, and what the next call would meet
  plugin_crash : (elapsed : ℕ) → String → Attempt → Attempt
  results : (elapsed : ℕ) → Stream → Attempt

-- The first deferred function of `execute`, which runs last.
unfoldable pub clean_up : ℕ → RunState → RunState
clean_up elapsed s =
    let s1 = update_group s in
    let s2 =
      if s1.run.severity == ""
      then s1
      else with_groups (update_severity_counts s1.run.group s1.run.severity s1.run.summary) s1 in
    with_groups (add_duration s.run.group elapsed)
      (with_run (λ r. record r { duration = elapsed }) s2)

-- The status is set without `setRunStatus`, and the progress is told.
unfoldable pub start : RunState → RunState
start s = with_progress on_control_start (with_run (λ r. record r { run_status = started }) s)

-- What is deferred once the control has started.
unfoldable pub leave : ℕ → RunState → RunState
unfolding clean_up
leave elapsed s = clean_up elapsed (with_progress on_control_finish s)

abbrev pub attempted : RunState → RunState
attempted s = with_run (λ r. record r { attempts = r.attempts + 1 }) s

unfoldable pub execute : Attempt → RunState → RunState
unfolding set_error wait_for_results leave start
execute (no_session elapsed) s = clean_up elapsed s
execute (no_query elapsed err) s = leave elapsed (set_error err (start s))
execute (no_search_path elapsed err) s = leave elapsed (set_error err (start s))
execute (query_error elapsed err) s = leave elapsed (set_error err (attempted (start s)))
execute (plugin_crash elapsed err next) s =
    let s1 = attempted (start s) in
    let again = execute next s1 in
    leave elapsed (if ltb s1.run.attempts max_control_run_attempts then again else set_error err s1)
execute (results elapsed stream) s = leave elapsed (wait_for_results stream (start s))

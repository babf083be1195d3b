-- ===== src/Control/Run/Outcome.antt =====
-- control_run.go: what `gatherResults` leaves behind on each end of the row channel.
use steampipe.Control.Run.{
  ControlRun, RunState, nil_row, gather_loop, set_run_status, complete, finished,
  created_ordered_result_rows, ordered_rows,
}
use steampipe.Control.Run.Rows.{
  with_status, counts, by_status, stream_of, add_rows, gather_loop-stream_of, add_rows-summary,
  add_rows-held, add_rows-rest, held,
}
use steampipe.Control.Results.{no_results, ResultRow, StatusSummary}
use steampipe.Prelude.{◌≡◌, List, [], ◌+◌, String, arith, ◌∙◌, ap, refl}
use steampipe.Control.Groups.{add_status}
use steampipe.Prelude.Dict.{lookup-nil}

-- A control that has not gathered anything yet.
pub record IsFresh (c : ControlRun) : Type 0 where
  pub no_summary : c.summary ≡ no_results
  pub no_rows : c.rows ≡ []
  pub no_map : c.row_map ≡ []

fresh_held :
    (rows : List ResultRow) (c : ControlRun)
    → IsFresh c
    → (status : String) → held (add_rows rows c).row_map status ≡ with_status status rows
fresh_held rows c fresh status =
    add_rows-held status rows c ∙ rw (fresh.no_map, lookup-nil {V = List ResultRow} status)

add_status-none_left : (c : StatusSummary) → add_status no_results c ≡ c
unfolding add_status
add_status-none_left c = ground arith

-- What a finished control shows.
pub record Gathered (rows : List ResultRow) (s s' : RunState) : Type 0 where
  pub is_complete : s'.run.run_status ≡ complete
  pub same_error : s'.run.run_error ≡ s.run.run_error
  pub counted : s'.run.summary ≡ counts rows
  pub grouped : s'.run.rows ≡ by_status rows
  pub told_once : s'.run.done_sent ≡ s.run.done_sent + 1
  pub same_groups : s'.groups ≡ s.groups

-- A run without rows and counts so far, whose query yields any rows and then ends: the run is
-- complete, its counts are the numbers of rows with each status, its rows stand in the order
-- error, alarm, info, ok, skip, each status in the order of arrival, `doneChan` gets one value,
-- and the groups are as before.
pub gather_loop-nil_row :
    (rows : List ResultRow) (s : RunState)
    → IsFresh s.run
    → Gathered rows s (gather_loop (stream_of rows nil_row) s)
unfolding gather_loop set_run_status finished created_ordered_result_rows ordered_rows
gather_loop-nil_row rows s fresh =
    let rest = add_rows-rest rows s.run in
    let here = fresh_held rows s.run fresh in
    rw (gather_loop-stream_of rows nil_row s) (record {
      is_complete = refl;
      same_error = ap (λ (c : ControlRun). c.run_error) rest;
      counted =
          add_rows-summary rows s.run
          ∙ ap (λ c. add_status c (counts rows)) fresh.no_summary
          ∙ add_status-none_left (counts rows);
      grouped = rw (
        ap (λ (c : ControlRun). c.rows) rest ∙ fresh.no_rows,
        here "error",
        here "alarm",
        here "info",
        here "ok",
        here "skip",
      );
      told_once = ap (λ (c : ControlRun). c.done_sent + 1) rest;
      same_groups = refl;
    })

-- ===== src/Control/Run/Tests.antt =====
-- Tests of a control run, and its theorems at concrete inputs.
use steampipe.Control.Groups.{Heap, update_summary, add_status, add_dimension_keys, add_duration}
use steampipe.Control.Groups.Climb.{IsTree, is_under}
use steampipe.Control.Run.{
  RunState, execute, gather_loop, plugin_crash, results, no_session, ready, nil_row, row_error,
}
use steampipe.Prelude.{String, List, ℕ, string_eq, refl, [], ◌∷◌, none, ◌≡◌}
use steampipe.Control.Results.{StatusSummary, no_results, ResultRow}
use steampipe.Control.Run.Outcome.{IsFresh, Gathered, gather_loop-nil_row}
use steampipe.Control.Run.Ended.{Ended, without_session, execute-Ended}
use steampipe.Control.Run.Twice.{execute-counted_twice}
use steampipe.Prelude.Dict.{insert, lookup}
use steampipe.Control.Run.Rows.{stream_of}
use steampipe.Control.Progress.{new_control_progress}

abbrev groups : Heap
groups i = record {
  group_id = "root_result_group";
  summary_status = no_results;
  summary_severity = [];
  severity = [];
  parent = none;
  duration = 0;
  dimension_keys = [];
}

groups-IsTree : IsTree groups
groups-IsTree i p e = cc

abbrev fresh : RunState
fresh = record {
  run = record {
    summary = no_results;
    rows = [];
    dimension_keys = [];
    duration = 0;
    severity = "";
    group = 0;
    row_map = [];
    run_status = ready;
    run_error = none;
    attempts = 0;
    done_sent = 0;
  };
  progress = new_control_progress 1;
  groups = groups;
}

abbrev a_row : String → ResultRow
a_row status = record { reason = "r"; resource = "x"; status = status; dimensions = [] }

abbrev some_rows : List ResultRow
some_rows = a_row "ok" ∷ a_row "alarm" ∷ a_row "ok" ∷ []

all_results : StatusSummary → List ℕ
all_results c = c.alarm ∷ c.ok ∷ c.info ∷ c.skip ∷ c.error ∷ []

-- One crash, then three rows: the group counts six.
retried_run :
    all_results
      ((execute (plugin_crash 0 "EOF" (results 0 (stream_of some_rows nil_row))) fresh).groups
        0).summary_status
    ≡ 2 ∷ 4 ∷ 0 ∷ 0 ∷ 0 ∷ []
unfolding execute string_eq insert lookup update_summary add_status add_dimension_keys add_duration
    all_results
retried_run = refl

first_run-IsFresh : IsFresh fresh.run
first_run-IsFresh = record { no_summary = refl; no_rows = refl; no_map = refl }

gather_loop-nil_row_example :
    Gathered some_rows fresh (gather_loop (stream_of some_rows nil_row) fresh)
gather_loop-nil_row_example = gather_loop-nil_row some_rows fresh first_run-IsFresh

execute-counted_twice_example :
    (let retried = execute (plugin_crash 1 "EOF" (results 2 (stream_of some_rows nil_row))) fresh in
      (retried.groups 0).summary_status
      ≡ add_status (add_status (groups 0).summary_status retried.run.summary) retried.run.summary)
    × (let failed = execute (results 1 (stream_of some_rows (row_error "EOF"))) fresh in
        (failed.groups 0).summary_status
        ≡ add_status (add_status (groups 0).summary_status failed.run.summary) failed.run.summary)
unfolding is_under
execute-counted_twice_example =
    execute-counted_twice 1 2 0 "EOF" some_rows fresh groups-IsTree refl refl

execute-Ended_example :
    Ended
      (without_session 0 (plugin_crash 1 "EOF" (no_session 2)))
      fresh
      (execute (plugin_crash 1 "EOF" (no_session 2)) fresh)
execute-Ended_example = execute-Ended (plugin_crash 1 "EOF" (no_session 2)) fresh

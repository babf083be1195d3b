-- ===== src/Control/Run/Rows.antt =====
-- control_run.go: the rows and the counts of a control whose query ends well.
use steampipe.Control.Run.{
  count_status, gather_loop, add_result_row, Stream, ControlRun, or_nil, row, RunState, with_run,
}
use steampipe.Prelude.{
  Bool, string_eq, String, ℕ, ◌==◌, if◌then◌else◌, ◌≡◌, false, ◌+◌, arith, refl, List, ◌∷◌, length,
  ◌++◌, [], ◌∙◌, sym, append-nil, append_assoc,
}
use steampipe.Control.Results.{StatusSummary, ResultRow}
use steampipe.Control.Groups.{add_status}
use steampipe.Prelude.Dict.{Dict, lookup, lookup-insert}

abbrev pub one_if : Bool → ℕ
one_if b = if b then 1 else 0

abbrev is : String → String → Bool
is a b = a == b

-- The five statuses differ.
statuses :
    (is "ok" "alarm" ≡ false)
    × (is "ok" "skip" ≡ false)
    × (is "ok" "info" ≡ false)
    × (is "ok" "error" ≡ false)
    × (is "alarm" "skip" ≡ false)
    × (is "alarm" "info" ≡ false)
    × (is "alarm" "error" ≡ false)
    × (is "skip" "info" ≡ false)
    × (is "skip" "error" ≡ false)
    × (is "info" "error" ≡ false)
unfolding string_eq
statuses = (refl, refl, refl, refl, refl, refl, refl, refl, refl, refl)

-- One count goes up, or none.
count_status_lem :
    (status : String) (c : StatusSummary)
    → count_status status c ≡ record {
      alarm = c.alarm + one_if (status == "alarm");
      ok = c.ok + one_if (status == "ok");
      info = c.info + one_if (status == "info");
      skip = c.skip + one_if (status == "skip");
      error = c.error + one_if (status == "error");
    }
unfolding count_status
count_status_lem status c = ground (arith, statuses)

-- The rows with one status, in the order in which they came.
pub with_status : String → List ResultRow → List ResultRow
with_status status [] = []
with_status status (r ∷ rows) =
    let rest = with_status status rows in if r.status == status then r ∷ rest else rest

-- How many rows have each status.
abbrev pub counts : List ResultRow → StatusSummary
counts rows = record {
  alarm = length (with_status "alarm" rows);
  ok = length (with_status "ok" rows);
  info = length (with_status "info" rows);
  skip = length (with_status "skip" rows);
  error = length (with_status "error" rows);
}

-- The rows, grouped by status.
abbrev pub by_status : List ResultRow → List ResultRow
by_status rows =
    with_status "error" rows
    ++ (with_status "alarm" rows
        ++ (with_status "info" rows ++ (with_status "ok" rows ++ (with_status "skip" rows ++ []))))

-- A query that yields `rows` and then ends as `last` says.
abbrev pub stream_of : List ResultRow → Stream → Stream
stream_of [] last = last
stream_of (r ∷ rows) last = row r (stream_of rows last)

unfoldable pub add_rows : List ResultRow → ControlRun → ControlRun
add_rows [] c = c
add_rows (r ∷ rows) c = add_rows rows (add_result_row r c)

pub gather_loop-stream_of :
    (rows : List ResultRow) (last : Stream) (s : RunState)
    → gather_loop (stream_of rows last) s ≡ gather_loop last (with_run (add_rows rows) s)
unfolding gather_loop add_rows
gather_loop-stream_of [] last s = refl
gather_loop-stream_of (r ∷ rows) last s =
    gather_loop-stream_of rows last (with_run (add_result_row r) s)

length-with_status :
    (status : String) (r : ResultRow) (rows : List ResultRow)
    → length (with_status status (r ∷ rows))
      ≡ one_if (r.status == status) + length (with_status status rows)
unfolding with_status
length-with_status status r rows = ground arith

counts-cons :
    (r : ResultRow) (rows : List ResultRow) (c : StatusSummary)
    → add_status (count_status r.status c) (counts rows) ≡ add_status c (counts (r ∷ rows))
unfolding add_status
counts-cons r rows c =
    rw
      (
        count_status_lem r.status c,
        length-with_status "alarm" r rows,
        length-with_status "ok" r rows,
        length-with_status "info" r rows,
        length-with_status "skip" r rows,
        length-with_status "error" r rows,
      )
      (ground arith)

pub add_rows-summary :
    (rows : List ResultRow) (c : ControlRun)
    → (add_rows rows c).summary ≡ add_status c.summary (counts rows)
unfolding add_rows
add_rows-summary [] c = unfold add_status with_status in ground arith
add_rows-summary (r ∷ rows) c =
    add_rows-summary rows (add_result_row r c)
    ∙ (unfold add_result_row in counts-cons r rows c.summary)

-- The rows that a map holds for a status.
abbrev pub held : Dict String (List ResultRow) → String → List ResultRow
held m status = or_nil (lookup status m)

held-add_result_row :
    (status : String) (r : ResultRow) (c : ControlRun)
    → held (add_result_row r c).row_map status
      ≡ (if r.status == status then held c.row_map status ++ r ∷ [] else held c.row_map status)
unfolding add_result_row
held-add_result_row status r c =
    rw (lookup-insert status r.status (held c.row_map r.status ++ r ∷ []) c.row_map) (ground arith)

pub add_rows-held :
    (status : String) (rows : List ResultRow) (c : ControlRun)
    → held (add_rows rows c).row_map status ≡ held c.row_map status ++ with_status status rows
unfolding add_rows with_status
add_rows-held status [] c = sym (append-nil _)
add_rows-held status (r ∷ rows) c =
    add_rows-held status rows (add_result_row r c)
    ∙ rw (held-add_result_row status r c)
        (ground (arith, append_assoc (held c.row_map status) (r ∷ []) (with_status status rows)))

-- Rows change the counts and the map alone.
pub add_rows-rest :
    (rows : List ResultRow) (c : ControlRun)
    → add_rows rows c
      ≡ record c { summary = (add_rows rows c).summary; row_map = (add_rows rows c).row_map }
unfolding add_rows add_result_row
add_rows-rest [] c = refl
add_rows-rest (r ∷ rows) c = add_rows-rest rows (add_result_row r c)

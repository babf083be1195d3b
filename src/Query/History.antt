-- ===== src/Query/History.antt =====
-- query/queryhistory/history.go: the history of the interactive client.
-- The file that `Persist` and `load` use is not modelled.
pub mod Push
pub mod Replay
pub mod Clean
mod Tests
use Prim.Native.Char.{Char, code}
use Prim.Native.String.{[], ◌∷◌, len}
use steampipe.Prelude.{
  [], ◌∷◌, ℕ, ◌+◌, ◌-◌, String, Bool, true, false, ◌&&◌, ◌||◌, Option, none, some, List, ◌++◌, ltb,
  leb, ◌==◌, nat_eq, string_eq, if◌then◌else◌, length, drop, last?,
}
use steampipe.Prelude.Text.{trim_space, is_empty}
use mathlib.Core.List

pub record QueryHistory : Type 0 where
  pub history : List String

-- constants.HistorySize
abbrev pub history_size : ℕ
history_size = 500

-- A nil pointer is `none`.
unfoldable pub peek : QueryHistory → Option String
peek q = last? q.history

abbrev pub same_as : Option String → String → Bool
same_as none query = false
same_as (some last_element) query = last_element == query

-- `q.history[n-HistorySize+1:]`, taken where `n >= HistorySize`.
abbrev pub trimmed : List String → List String
trimmed history =
    let n = length history in
    if leb history_size n then drop (n - history_size + 1) history else history

unfoldable pub push : QueryHistory → String → QueryHistory
unfolding peek trim_space
push q query =
    if is_empty (trim_space query)  -- len(strings.TrimSpace(query)) == 0
    then q
    else if same_as (peek q) query
    then q
    else record { history = trimmed q.history ++ query ∷ [] }

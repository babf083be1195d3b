-- ===== src/Query/History/Replay.antt =====
-- query/queryhistory/history.go: what a sequence of calls of `Push` leaves.
use steampipe.Query.History.{QueryHistory, history_size, peek, push, same_as}
use steampipe.Prelude.{
  [], ◌∷◌, String, Option, List, ◌≡◌, some, length, Bool-cases, if◌then◌else◌, ◌++◌, ◌∙◌, ◌||◌, inl,
  ◌≤◌, sym, ap, inr, last?, append-nil, last?-append, append_assoc,
}
use steampipe.Prelude.Text.{blank}
use steampipe.Query.History.Push.{last_n, push_lem, last_n-all, push_end}

-- The queries of a sequence that are stored after a query `last`: no blank ones, and none that
-- repeats the query stored before it.
pub accepted : Option String → List String → List String
accepted last [] = []
accepted last (query ∷ queries) =
    let same = accepted last queries in
    let next = accepted (some query) queries in
    if blank query || same_as last query then same else query ∷ next

abbrev pub replay : QueryHistory → List String → QueryHistory
replay q [] = q
replay q (query ∷ queries) = replay (push q query) queries

replay_from :
    (xs queries : List String)
    → (replay (record { history = last_n history_size xs }) queries).history
      ≡ last_n history_size (xs ++ accepted (last? xs) queries)
unfolding accepted
replay_from xs [] = rw append-nil
replay_from xs (query ∷ queries) =
    let step = push_lem xs query in
    elim (Bool-cases (blank query || same_as (last? xs) query)) [
      | inl skipped ↦ rw skipped (
          ap (λ (h : List String). (replay (record { history = h }) queries).history)
            (step ∙ rw skipped)
          ∙ replay_from xs queries)
      | inr stored ↦ rw stored (
          ap (λ (h : List String). (replay (record { history = h }) queries).history)
            (step ∙ rw stored)
          ∙ replay_from (push_end xs query) queries
          ∙ rw
              (last?-append xs query, append_assoc xs (query ∷ []) (accepted (some query) queries)))
    ]

-- From a history within the size limit, any sequence of queries leaves the last `history_size`
-- entries of what was there followed by the accepted queries: those that are not blank and do not
-- repeat the entry stored before them.
pub replay-eq-last_n :
    (q : QueryHistory) (queries : List String)
    → length q.history ≤ history_size
    → (replay q queries).history ≡ last_n history_size (q.history ++ accepted (peek q) queries)
unfolding peek
replay-eq-last_n q queries h =
    ap (λ (old : List String). (replay (record { history = old }) queries).history)
      (sym (last_n-all history_size q.history h))
    ∙ replay_from q.history queries

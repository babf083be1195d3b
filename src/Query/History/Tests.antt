-- ===== src/Query/History/Tests.antt =====
-- Tests of the history, and its theorems at concrete inputs.
use steampipe.Query.History.{QueryHistory, push, peek, history_size}
use steampipe.Query.History.Replay.{replay, accepted, replay-eq-last_n}
use steampipe.Prelude.{
  ◌≢◌, ◌∷◌, String, Option, [], ◌≡◌, string_eq, arith, nat_eq, some, sym, ◌++◌, refl,
}
use steampipe.Prelude.Text.{blank, trim_space, is_space}
use steampipe.Query.History.Push.{last_n}
use text.Mathlib.TextEquality.{eq_iff}
use steampipe.Query.History.Clean.{IsClean, push-IsClean}
use mathlib.Core.Option.{some-injective}

abbrev two : QueryHistory
two = record { history = "select 1" ∷ "select 2" ∷ [] }

push_blank : push two " \t" ≡ two
unfolding push peek trim_space is_space nat_eq
push_blank = refl

push_same : push two "select 2" ≡ two
unfolding push peek trim_space string_eq is_space nat_eq
push_same = refl

push_other : push two "select 1" ≡ record { history = "select 1" ∷ "select 2" ∷ "select 1" ∷ [] }
unfolding push peek trim_space string_eq is_space nat_eq
push_other = refl

replay-eq-last_n_example :
    (replay two ("select 2" ∷ " " ∷ "select 3" ∷ [])).history
    ≡ last_n history_size (two.history ++ accepted (peek two) ("select 2" ∷ " " ∷ "select 3" ∷ []))
replay-eq-last_n_example = replay-eq-last_n two ("select 2" ∷ " " ∷ "select 3" ∷ []) (omega arith)

differ : ◌≢◌ {A = String} "select 1" "select 2"
differ = ground (arith, eq_iff "select 1" "select 2")

push-IsClean_example : IsClean (push two "select 3")
unfolding blank is_space nat_eq
push-IsClean_example =
    push-IsClean two "select 3"
      (record { no_blank = (refl, (refl, tt)); no_repeat = (differ, tt); within = omega arith })

other : ◌≢◌ {A = Option String} (peek two) (some "select 1")
unfolding peek
other = λ e. differ (sym (some-injective _ _ e))

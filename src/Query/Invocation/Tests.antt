-- ===== src/Query/Invocation/Tests.antt =====
-- prepared_statement.go: the theorem on splitting, and what single quotes do.
use steampipe.Prelude.{◌≡◌, ◌∷◌, [], String, List, some, refl, string_eq}
use steampipe.Query.Invocation.{split_arg_string, scan}
use steampipe.Query.Invocation.RoundTrip.{plain_char, is_plain, split_arg_string-join}
use steampipe.Prelude.Split.{is_char, join}

abbrev two_args : List String
two_args = "a => 1" ∷ "b => two" ∷ []

split_arg_string-join_example : split_arg_string (join two_args ",") ≡ some two_args
unfolding is_plain plain_char string_eq is_char
split_arg_string-join_example =
    split_arg_string-join "a => 1" ("b => two" ∷ []) (refl, refl) ((refl, refl), tt)

brackets_kept : split_arg_string "[1,2],{a:\"x,y\"}" ≡ some ("[1,2]" ∷ "{a:\"x,y\"}" ∷ [])
unfolding split_arg_string scan string_eq is_char
brackets_kept = refl

single_quotes : split_arg_string "'a,b'" ≡ some ("'a" ∷ "b'" ∷ [])
unfolding split_arg_string scan string_eq is_char
single_quotes = refl

-- ===== src/Query/Args/Tests.antt =====
-- query_args.go: the theorems at concrete arguments.
use steampipe.Query.Args.{ParamDef, QueryArgs, resolve_as_string, positional_values}
use steampipe.Query.Args.Resolved.{
  CanResolve, named_text, resolve_as_string-inl, resolve_as_string-CanResolve,
}
use steampipe.Prelude.{some, none, ◌∷◌, [], arith, ◌≡◌, refl, inl, take, ◌++◌, drop}

abbrev region : ParamDef
region = record { name = "region"; default = some "'eu'" }

abbrev size : ParamDef
size = record { name = "size"; default = none }

abbrev by_name : QueryArgs
by_name = record { args = ("size", "10") ∷ []; args_list = [] }

by_name-CanResolve : CanResolve by_name (region ∷ size ∷ [])
unfolding steampipe.Prelude.string_eq steampipe.Prelude.Dict.lookup
by_name-CanResolve = record { no_list = refl; enough = omega arith; defined = refl; valued = refl }

resolve_as_string-CanResolve_example :
    resolve_as_string by_name (region ∷ size ∷ []) ≡ inl (named_text by_name (region ∷ size ∷ []))
resolve_as_string-CanResolve_example =
    resolve_as_string-CanResolve by_name (region ∷ size ∷ []) (omega arith) by_name-CanResolve

by_name_text : named_text by_name (region ∷ size ∷ []) ≡ "('eu',10)"
unfolding steampipe.Query.Args.printed steampipe.Prelude.Dict.lookup steampipe.Prelude.string_eq
by_name_text = refl

resolve_as_string-inl_example :
    CanResolve by_name (region ∷ size ∷ [])
    × ("('eu',10)" ≡ named_text by_name (region ∷ size ∷ []))
unfolding steampipe.Query.Args.printed steampipe.Prelude.Dict.lookup steampipe.Prelude.string_eq
resolve_as_string-inl_example =
    resolve_as_string-inl by_name (region ∷ size ∷ []) "('eu',10)" (omega arith)
      resolve_as_string-CanResolve_example

-- ===== src/Query/Args.antt =====
-- steampipeconfig/modconfig/query_args.go: the arguments of a query, and their values for its parameters.
-- The loops over a map read the entries in the order of the association list; the references of the
-- arguments play no part. An error holds what its message is made of, without the query's name.
pub mod Named
pub mod Resolved
mod Tests
use steampipe.Prelude.Dict.{Dict, lookup}
use steampipe.Prelude.{
  String, ℕ, List, Option, Bool, ◌⊎◌, some, eqb, true, false, ◌∷◌, if◌then◌else◌, none, inl, length,
  ◌==◌, any, inr, ltb, [], ◌+◌, ◌&&◌, string_eq,
}
use steampipe.Prelude.Options.{is_some}
use steampipe.Prelude.Text.{◌+++◌}

pub record QueryArgs : Type 0 where
  pub args : Dict String String
  pub args_list : List String

-- param_def.go, the fields that count here
pub record ParamDef : Type 0 where
  pub name : String
  pub default : Option String

pub data ArgsError : Type 0 where
  both_kinds : ArgsError
  too_few_params : (args params : ℕ) → ArgsError
  no_param_definition : String → ArgsError
  missing_params : List String → ArgsError

abbrev pub Resolution : Type 0
Resolution = (List String × List String) ⊎ ArgsError

-- typehelpers.SafeString: the empty text for nil
abbrev pub safe_string : Option String → String
safe_string none = ""
safe_string (some s) = s

unfoldable pub empty : QueryArgs → Bool
empty q = eqb (length q.args + length q.args_list) 0

-- A missing key reads as the empty text.
abbrev pub same_args : Dict String String → Dict String String → Bool
same_args [] others = true
same_args ((k, v) ∷ args) others = (safe_string (lookup k others) == v) && same_args args others

abbrev pub same_list : List String → List String → Bool
same_list [] others = true
same_list (v ∷ values) [] = false
same_list (v ∷ values) (w ∷ others) = (w == v) && same_list values others

abbrev pub both_equal : QueryArgs → QueryArgs → Bool
both_equal q other =
    eqb (length other.args) (length q.args)
    && eqb (length other.args_list) (length q.args_list)
    && same_args q.args other.args
    && same_list q.args_list other.args_list

-- A nil pointer is `none`.
unfoldable pub equals : QueryArgs → Option QueryArgs → Bool
unfolding empty
equals q none = false
equals q (some other) = if empty q then empty other else both_equal q other

-- One round of a loop over the parameters: the value, or the name in the list of missing ones.
abbrev pub put_value : String → List String × List String → List String × List String
put_value value (strs, missing) = (value ∷ strs, missing)

abbrev pub put_missing : String → List String × List String → List String × List String
put_missing name (strs, missing) = ("" ∷ strs, name ∷ missing)

abbrev pub put_default : ParamDef → List String × List String → List String × List String
put_default param rest =
    if safe_string param.default == ""
    then put_missing param.name rest
    else put_value (safe_string param.default) rest

abbrev pub put_named :
    Option String → ParamDef → List String × List String → List String × List String
put_named (some val) param rest = put_value val rest
put_named none param rest = put_default param rest

-- The first loop of `resolveNamedParameters`.
unfoldable pub named_values : Dict String String → List ParamDef → List String × List String
named_values args [] = ([], [])
named_values args (param ∷ params) =
    put_named (lookup param.name args) param (named_values args params)

-- `argsWithParamDef`
unfoldable pub args_with_param_def : Dict String String → List ParamDef → List String
args_with_param_def args [] = []
args_with_param_def args (param ∷ params) =
    let rest = args_with_param_def args params in
    if is_some (lookup param.name args) then param.name ∷ rest else rest

-- The second loop: the first argument without a definition.
unfoldable pub undefined_arg : List String → Dict String String → Option String
undefined_arg known [] = none
undefined_arg known ((arg, _) ∷ args) =
    if any (λ k. k == arg) known then undefined_arg known args else some arg

abbrev pub checked : Option String → List String × List String → Resolution
checked none values = inl values
checked (some arg) values = inr (no_param_definition arg)

unfoldable pub resolve_named_parameters : QueryArgs → List ParamDef → Resolution
unfolding named_values args_with_param_def undefined_arg
resolve_named_parameters q params =
    if ltb 0 (length q.args_list)
    then inr both_kinds
    else if ltb (length params) (length q.args)
    then inr (too_few_params (length q.args) (length params))
    else checked (undefined_arg (args_with_param_def q.args params) q.args)
        (named_values q.args params)

-- The loop of `resolvePositionalParameters`: the arguments run out first, or stay unused.
unfoldable pub positional_values : List String → List ParamDef → List String × List String
positional_values values [] = ([], [])
positional_values [] (param ∷ params) = put_default param (positional_values [] params)
positional_values (v ∷ values) (param ∷ params) = put_value v (positional_values values params)

unfoldable pub resolve_positional_parameters : QueryArgs → List ParamDef → Resolution
unfolding positional_values
resolve_positional_parameters q params =
    if ltb 0 (length q.args)
    then inr both_kinds
    else if eqb (length params) 0
    then inl (q.args_list, [])
    else inl (positional_values q.args_list params)

-- strings.Join(strs, ",")
unfoldable pub comma_separated : List String → String
comma_separated [] = ""
comma_separated (s ∷ []) = s
comma_separated (s ∷ t ∷ strs) = s +++ "," +++ comma_separated (t ∷ strs)

abbrev pub printed : List String → String
unfolding comma_separated
printed [] = ""
printed (s ∷ strs) = "(" +++ comma_separated (s ∷ strs) +++ ")"

abbrev pub finish : Resolution → String ⊎ ArgsError
finish (inr err) = inr err
finish (inl (strs, [])) = inl (printed strs)
finish (inl (strs, name ∷ names)) = inr (missing_params (name ∷ names))

unfoldable pub resolve_as_string : QueryArgs → List ParamDef → String ⊎ ArgsError
unfolding resolve_named_parameters resolve_positional_parameters
resolve_as_string q params = finish (
    if ltb 0 (length q.args)
    then resolve_named_parameters q params
    else resolve_positional_parameters q params)

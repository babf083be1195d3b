-- ===== src/Query/Args/Resolved.antt =====
-- query_args.go: when `ResolveAsString` yields a text, and which.
use mathlib.Core.Sum.{inl-injective}
use steampipe.Query.Args.{
  QueryArgs, resolve_as_string, resolve_named_parameters, ParamDef, finish, printed, checked,
  safe_string, undefined_arg, args_with_param_def, named_values, both_kinds, too_few_params,
}
use steampipe.Prelude.{
  Option, List, String, length, ◌≡◌, ◌<◌, ◌≤◌, map, false, inl, all, some, true, ◌∷◌, sym, ltb,
  none, [], ◌∙◌, refl, arith, ap, Bool-cases, inr, string_eq,
}
use steampipe.Prelude.Options.{is_some}
use steampipe.Query.Args.Named.{
  is_nil, is_defined, value_of, undefined_arg-some, named_values-missing, named_values-strs,
}

-- What named arguments need: no positional ones, no more than there are parameters, a parameter for
-- each, and a value for each parameter.
pub record CanResolve (q : QueryArgs) (params : List ParamDef) : Type 0 where
  pub no_list : length q.args_list ≡ 0
  pub enough : length q.args ≤ length params
  pub defined : all (λ (e : String × String). is_defined params e.0) q.args ≡ true
  pub valued : all (λ (p : ParamDef). is_some (value_of q.args p)) params ≡ true

abbrev pub named_text : QueryArgs → List ParamDef → String
named_text q params = printed (map (λ (p : ParamDef). safe_string (value_of q.args p)) params)

-- The answer to named arguments, by its four guards.
finish-checked :
    (arg : Option String) (values : List String × List String)
    → is_some arg ≡ false
    → is_nil values.1 ≡ true
    → finish (checked arg values) ≡ inl (printed values.0)
finish-checked none (strs, []) h n = refl
finish-checked none (strs, name ∷ names) h n = cc
finish-checked (some arg) values h n = cc

checked-finish :
    (arg : Option String) (values : List String × List String) (text : String)
    → finish (checked arg values) ≡ inl text
    → (is_some arg ≡ false) × (is_nil values.1 ≡ true) × (text ≡ printed values.0)
checked-finish none (strs, []) text h = (refl, refl, sym (inl-injective _ _ h))
checked-finish none (strs, name ∷ names) text h = cc
checked-finish (some arg) values text h = cc

-- Arguments are given by name and none by position, they are no more than the parameters, each has
-- a parameter of its name, and each parameter has a value: then they resolve, and the text is the
-- list of the values in brackets, one for each parameter in its order: the argument of its name,
-- or else its default.
pub resolve_as_string-CanResolve :
    (q : QueryArgs) (params : List ParamDef)
    → 0 < length q.args
    → CanResolve q params
    → resolve_as_string q params ≡ inl (named_text q params)
unfolding resolve_as_string resolve_named_parameters
resolve_as_string-CanResolve q params some_args can =
    let ended =
      finish-checked (undefined_arg (args_with_param_def q.args params) q.args)
        (named_values q.args params) (undefined_arg-some q.args params ∙ rw can.defined)
        (named_values-missing q.args params ∙ can.valued) in
    let some : ltb 0 (length q.args) ≡ true = ground arith in
    let no_list : ltb 0 (length q.args_list) ≡ false = ground (arith, can.no_list) in
    let enough : ltb (length params) (length q.args) ≡ false = ground (arith, can.enough) in
    rw (some, no_list, enough)
      (ended ∙ ap (λ (strs : List String). inl (printed strs)) (named_values-strs q.args params))

-- If arguments that are given by name resolve to a text, then none is given by position, they are
-- no more than the parameters, each has a parameter of its name, each parameter has a value, and
-- the text is the list of the values in brackets.
pub resolve_as_string-inl :
    (q : QueryArgs) (params : List ParamDef) (text : String)
    → 0 < length q.args
    → resolve_as_string q params ≡ inl text
    → CanResolve q params × (text ≡ named_text q params)
unfolding resolve_as_string resolve_named_parameters
resolve_as_string-inl q params text some_args h =
    let some : ltb 0 (length q.args) ≡ true = ground arith in
    elim (Bool-cases (ltb 0 (length q.args_list))) [
      | inl l ↦ (let e : resolve_as_string q params ≡ inr both_kinds = rw (some, l) in cc)
      | inr l ↦ elim (Bool-cases (ltb (length params) (length q.args))) [
        | inl m ↦
            (let e : resolve_as_string q params
                  ≡ inr (too_few_params (length q.args) (length params)) =
                rw (some, l, m) in
              cc)
        | inr m ↦
            let e : resolve_as_string q params
                ≡ finish (
                    checked (undefined_arg (args_with_param_def q.args params) q.args)
                      (named_values q.args params)) =
              rw (some, l, m) in
            let (known, full, same) =
              checked-finish (undefined_arg (args_with_param_def q.args params) q.args)
                (named_values q.args params) text (sym e ∙ h) in
            (
              record {
                no_list = ground arith;
                enough = ground arith;
                defined = ground (arith, undefined_arg-some q.args params);
                valued = sym (named_values-missing q.args params) ∙ full;
              },
              same ∙ ap printed (named_values-strs q.args params),
            )
      ]
    ]

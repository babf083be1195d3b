-- ===== src/Query/Args/Named.antt =====
-- query_args.go: the loops over the parameters, for arguments with names.

-- The value that a parameter gets: its argument, or else a default that is not empty.
use steampipe.Prelude.{
  Option, List, String, Bool, ◌≡◌, some, map, true, all, any, if◌then◌else◌, string_eq, ◌∷◌, ◌==◌,
  [], not, none, Bool-cases, ap, false, ◌&&◌, arith, inl, ◌∙◌, refl, inr, eq_of_==, ==_refl,
}
use steampipe.Prelude.Dict.{Dict, lookup, lookup-cons}
use steampipe.Query.Args.{
  named_values, args_with_param_def, undefined_arg, ParamDef, put_named, safe_string,
}
use steampipe.Prelude.Options.{is_some}

abbrev pub or_default : Option String → ParamDef → Option String
or_default (some val) param = some val
or_default none param =
    if safe_string param.default == "" then none else some (safe_string param.default)

abbrev pub value_of : Dict String String → ParamDef → Option String
value_of args param = or_default (lookup param.name args) param

put_named-value :
    (found : Option String) (param : ParamDef) (rest : List String × List String)
    → put_named found param rest ≡ (
      safe_string (or_default found param) ∷ rest.0,
      if is_some (or_default found param) then rest.1 else param.name ∷ rest.1,
    )
put_named-value (some val) param rest = refl
put_named-value none param rest = elim (Bool-cases (safe_string param.default == "")) [
  | inl h ↦ rw h
  | inr h ↦ rw h
]

pub named_values-strs :
    (args : Dict String String) (params : List ParamDef)
    → (named_values args params).0 ≡ map (λ (p : ParamDef). safe_string (value_of args p)) params
unfolding named_values
named_values-strs args [] = refl
named_values-strs args (param ∷ params) =
    ap (λ (r : List String × List String). r.0)
      (put_named-value (lookup param.name args) param (named_values args params))
    ∙ ap (λ (strs : List String). safe_string (value_of args param) ∷ strs)
        (named_values-strs args params)

abbrev pub is_nil {ℓ} : {A : Type ℓ} → List A → Bool
is_nil [] = true
is_nil (x ∷ xs) = false

pub named_values-missing :
    (args : Dict String String) (params : List ParamDef)
    → is_nil (named_values args params).1 ≡ all (λ (p : ParamDef). is_some (value_of args p)) params
unfolding named_values
named_values-missing args [] = refl
named_values-missing args (param ∷ params) =
    ap (λ (r : List String × List String). is_nil r.1)
      (put_named-value (lookup param.name args) param (named_values args params))
    ∙ elim (Bool-cases (is_some (value_of args param))) [
      | inl h ↦ rw (h, named_values-missing args params)
      | inr h ↦ rw h
    ]

-- Is there a parameter of this name?
abbrev pub is_defined : List ParamDef → String → Bool
is_defined params arg = any (λ (p : ParamDef). p.name == arg) params

known_lem :
    (args : Dict String String) (params : List ParamDef) (arg : String)
    → any (λ k. k == arg) (args_with_param_def args params)
      ≡ (is_defined params arg && is_some (lookup arg args))
unfolding args_with_param_def
known_lem args [] arg = refl
known_lem args (param ∷ params) arg = elim (Bool-cases (param.name == arg)) [
  | inl h ↦
      rw (ap (λ (k : String). is_some (lookup k args)) (eq_of_== param.name arg h), h)
        (ground (arith, known_lem args params arg))
  | inr h ↦ ground (arith, known_lem args params arg)
]

has_keys : Dict String String → Dict String String → Bool
has_keys args [] = true
has_keys args ((k, v) ∷ d) = is_some (lookup k args) && has_keys args d

undefined_lem :
    (args : Dict String String) (params : List ParamDef) (d : Dict String String)
    → has_keys args d ≡ true
    → is_some (undefined_arg (args_with_param_def args params) d)
      ≡ not (all (λ (e : String × String). is_defined params e.0) d)
unfolding undefined_arg has_keys
undefined_lem args params [] h = refl
undefined_lem args params ((k, v) ∷ d) h =
    ground (arith, known_lem args params k, undefined_lem args params d)

has_keys-cons :
    (k v : String) (args d : Dict String String)
    → has_keys args d ≡ true
    → has_keys ((k, v) ∷ args) d ≡ true
unfolding has_keys
has_keys-cons k v args [] h = refl
has_keys-cons k v args ((j, w) ∷ d) h =
    ground (arith, lookup-cons j k v args, has_keys-cons k v args d)

has_keys_self : (args : Dict String String) → has_keys args args ≡ true
unfolding has_keys
has_keys_self [] = refl
has_keys_self ((k, v) ∷ args) =
    ground
      (arith, lookup-cons k k v args, ==_refl k, has_keys-cons k v args args (has_keys_self args))

pub undefined_arg-some :
    (args : Dict String String) (params : List ParamDef)
    → is_some (undefined_arg (args_with_param_def args params) args)
      ≡ not (all (λ (e : String × String). is_defined params e.0) args)
undefined_arg-some args params = undefined_lem args params args (has_keys_self args)

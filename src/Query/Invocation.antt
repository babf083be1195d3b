-- ===== src/Query/Invocation.antt =====
-- steampipeconfig/parse/prepared_statement.go: the arguments of a query that is called by name. The
-- value of one argument is read by the HCL library, so `parse_arg` is a parameter, as is the removal
-- of spaces.
pub mod RoundTrip
mod Tests
use Prim.Native.Char.{Char}
use steampipe.Prelude.{
  ℕ, Bool, String, List, Option, none, some, ◌∷◌, [], ◌⊎◌, inl, inr, false, ◌||◌, if◌then◌else◌,
  not, ◌==◌, ◌&&◌, eqb, ◌++◌, ◌-◌, ◌+◌, string_eq,
}
use steampipe.Prelude.Split.{is_char, onto_first}
use steampipe.Prelude.Dict.{Dict, insert}
use steampipe.Prelude.Text.{◌+++◌}
use steampipe.Query.Args.{QueryArgs}

pub record Scan : Type 0 where
  pub words : List String
  pub word : String
  pub quote : Bool
  pub curly : ℕ
  pub square : ℕ

abbrev pub at_start : Scan
at_start = record { words = []; word = ""; quote = false; curly = 0; square = 0 }

abbrev pub in_block : Scan → Bool
in_block s = s.quote || not (eqb s.curly 0) || not (eqb s.square 0)

-- A word that is not empty ends.
abbrev pub end_word : Scan → Scan
end_word s = if s.word == "" then s else record s { words = s.words ++ s.word ∷ []; word = "" }

unfoldable pub add_char : Char → Scan → Scan
add_char c s =
    if is_char c "," && not (in_block s)
    then end_word s
    else record s { word = s.word +++ String.◌∷◌ c String.[] }

abbrev pub close_curly : Scan → Option Scan
close_curly s = if eqb s.curly 0 then none else some (record s { curly = s.curly - 1 })

abbrev pub close_square : Scan → Option Scan
close_square s = if eqb s.square 0 then none else some (record s { square = s.square - 1 })

-- The `switch` on a bracket or quote; it fails on a bracket that was not opened.
unfoldable pub count_char : Char → Scan → Option Scan
count_char c s =
    if is_char c "\""
    then some (record s { quote = not s.quote })
    else if s.quote
    then some s
    else if is_char c "{"
    then some (record s { curly = s.curly + 1 })
    else if is_char c "}"
    then close_curly s
    else if is_char c "["
    then some (record s { square = s.square + 1 })
    else if is_char c "]"
    then close_square s
    else some s

abbrev pub then_scan : (Scan → Option Scan) → Option Scan → Option Scan
then_scan f none = none
then_scan f (some s) = f s

unfoldable pub scan : String → Scan → Option Scan
unfolding add_char count_char
scan String.[] s = some s
scan (String.◌∷◌ c text) s = then_scan (scan text) (count_char c (add_char c s))

abbrev pub all_words : Option Scan → Option (List String)
all_words none = none
all_words (some s) = some (end_word s).words

unfoldable pub split_arg_string : String → Option (List String)
unfolding scan
split_arg_string text = all_words (scan text at_start)

-- strings.Split at "=>"
unfoldable pub split_arrow : String → List String
split_arrow String.[] = "" ∷ []
split_arrow (String.◌∷◌ c String.[]) = String.◌∷◌ c String.[] ∷ []
split_arrow (String.◌∷◌ c (String.◌∷◌ d text)) =
    let rest = split_arrow (String.◌∷◌ d text) in
    let after = split_arrow text in
    if is_char c "=" && is_char d ">" then "" ∷ after else onto_first c rest

abbrev pub before : Char → Option (String × String) → Option (String × String)
before c none = none
before c (some (query, text)) = some (String.◌∷◌ c query, text)

-- The text before the first opening bracket, and the text behind it.
unfoldable pub at_bracket : String → Option (String × String)
at_bracket String.[] = none
at_bracket (String.◌∷◌ c text) =
    if is_char c "(" then some ("", text) else before c (at_bracket text)

abbrev pub onto_text : Char → Option String → Option String
onto_text c none = none
onto_text c (some text) = some (String.◌∷◌ c text)

-- The text before a closing bracket that is the last character.
unfoldable pub without_bracket : String → Option String
without_bracket String.[] = none
without_bracket (String.◌∷◌ c String.[]) = if is_char c ")" then some "" else none
without_bracket (String.◌∷◌ c (String.◌∷◌ d text)) =
    onto_text c (without_bracket (String.◌∷◌ d text))

module _ (parse_arg : String → String ⊎ String) (trim_space : String → String) where
  abbrev pub stored :
      (k : String) → Dict String String → String ⊎ String → Dict String String ⊎ String
  stored k res (inr err) = inr err
  stored k res (inl v) = inl (insert k v res)

  abbrev pub then_named :
      (Dict String String → Option (Dict String String) ⊎ String)
      → Dict String String ⊎ String
      → Option (Dict String String) ⊎ String
  then_named f (inl res) = f res
  then_named f (inr err) = inr err

  -- The argument of a tuple, unless the list has another length; then the loop gives up.
  abbrev pub named_arg :
      (Dict String String → Option (Dict String String) ⊎ String)
      → Dict String String
      → List String
      → Option (Dict String String) ⊎ String
  named_arg f res (k ∷ v ∷ []) = then_named f (stored (trim_space k) res (parse_arg v))
  named_arg f res parts = inl none

  unfoldable pub parse_named_args :
      List String → Dict String String → Option (Dict String String) ⊎ String
  unfolding split_arrow
  parse_named_args [] res = inl (some res)
  parse_named_args (p ∷ args) res =
      named_arg (parse_named_args args) res (split_arrow (trim_space p))

  abbrev pub onto_args : String ⊎ String → List String ⊎ String → List String ⊎ String
  onto_args (inr err) rest = inr err
  onto_args (inl v) (inr err) = inr err
  onto_args (inl v) (inl values) = inl (v ∷ values)

  unfoldable pub parse_positional_args : List String → List String ⊎ String
  parse_positional_args [] = inl []
  parse_positional_args (v ∷ args) = onto_args (parse_arg v) (parse_positional_args args)

  abbrev pub positional : List String ⊎ String → QueryArgs ⊎ String
  positional (inr err) = inr err
  positional (inl values) = inl (record { args = []; args_list = values })

  -- Without named arguments the words are positional ones.
  unfoldable pub args_of : List String → Option (Dict String String) ⊎ String → QueryArgs ⊎ String
  unfolding parse_positional_args
  args_of words (inr err) = inr err
  args_of words (inl (some (arg ∷ named))) = inl (record { args = arg ∷ named; args_list = [] })
  args_of words (inl (some [])) = positional (parse_positional_args words)
  args_of words (inl none) = positional (parse_positional_args words)

  abbrev pub parse_words : Option (List String) → QueryArgs ⊎ String
  unfolding args_of parse_named_args
  parse_words none = inr "bad arg syntax"
  parse_words (some words) = args_of words (parse_named_args words [])

  unfoldable pub parse_args : String → QueryArgs ⊎ String
  unfolding parse_words split_arg_string
  parse_args text =
      if text == ""
      then inl (record { args = []; args_list = [] })
      else parse_words (split_arg_string text)

  abbrev pub called :
      (arg : String) → Option (String × String) → Option String → String × (QueryArgs ⊎ String)
  unfolding parse_args
  called arg (some (query, text)) (some args) = (trim_space query, parse_args args)
  called arg bracket end = (arg, inl (record { args = []; args_list = [] }))

  abbrev pub behind : Option (String × String) → Option String
  unfolding without_bracket
  behind none = none
  behind (some (query, text)) = without_bracket text

  unfoldable pub parse_prepared_statement_invocation : String → String × (QueryArgs ⊎ String)
  unfolding called behind at_bracket
  parse_prepared_statement_invocation arg =
      let trimmed = trim_space arg in
      called trimmed (at_bracket trimmed) (behind (at_bracket trimmed))

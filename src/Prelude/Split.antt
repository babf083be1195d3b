-- ===== src/Prelude/Split.antt =====
-- Go's `strings.Split` at one character, `strings.Join`, `strings.Contains` and `strings.HasPrefix`.
use Prim.Native.Char.{Char, code}
use Prim.Native.String.{String}
use mathlib.Core.Path.{◌≡◌, refl, sym, ◌∙◌}
use mathlib.Core.Bool.{Bool, true, false, ◌&&◌, ◌||◌}
use mathlib.Core.List.{List, [], ◌∷◌}
use native.Mathlib.Omega.{arith}
use text.Mathlib.TextLemmas.{nil-append, cons-append}
use mathlib.Core.Logic.{inl, inr}
use steampipe.Prelude.Tests.{if◌then◌else◌, eqb, Bool-cases}
use steampipe.Prelude.Text.{◌+++◌}

unfoldable pub is_char : Char → Char → Bool
is_char a b = eqb (code a) (code b)

abbrev pub onto_first : Char → List String → List String
onto_first c [] = (String.◌∷◌ c String.[]) ∷ []
onto_first c (w ∷ ws) = String.◌∷◌ c w ∷ ws

unfoldable pub split : String → Char → List String
split String.[] sep = "" ∷ []
split (String.◌∷◌ c s) sep =
    let rest = split s sep in if is_char c sep then "" ∷ rest else onto_first c rest

unfoldable pub join : List String → String → String
join [] sep = ""
join (s ∷ []) sep = s
join (s ∷ t ∷ strs) sep = s +++ sep +++ join (t ∷ strs) sep

-- Is the character in the text?
unfoldable pub has_char : String → Char → Bool
has_char String.[] c = false
has_char (String.◌∷◌ d s) c = is_char d c || has_char s c

-- strings.HasPrefix
unfoldable pub has_prefix : String → String → Bool
has_prefix s String.[] = true
has_prefix String.[] (String.◌∷◌ p prefix) = false
has_prefix (String.◌∷◌ c s) (String.◌∷◌ p prefix) = is_char c p && has_prefix s prefix

abbrev pub drop_prefix : String → String → String
drop_prefix s String.[] = s
drop_prefix String.[] (String.◌∷◌ p prefix) = String.[]
drop_prefix (String.◌∷◌ c s) (String.◌∷◌ p prefix) = drop_prefix s prefix

-- strings.TrimPrefix
unfoldable pub trim_prefix : String → String → String
unfolding has_prefix
trim_prefix s prefix = if has_prefix s prefix then drop_prefix s prefix else s

-- strings.Contains
unfoldable pub contains_text : String → String → Bool
unfolding has_prefix
contains_text String.[] sub = has_prefix String.[] sub
contains_text (String.◌∷◌ c s) sub = has_prefix (String.◌∷◌ c s) sub || contains_text s sub

is_char_refl : (c : Char) → is_char c c ≡ true
unfolding is_char
is_char_refl c = ground arith

-- A text without the separator is one part.
pub split-one : (s : String) (sep : Char) → has_char s sep ≡ false → split s sep ≡ s ∷ []
unfolding split has_char
split-one String.[] sep h = refl
split-one (String.◌∷◌ c s) sep h = elim (Bool-cases (is_char c sep)) [
  | inl e ↦ cc
  | inr e ↦ (let rest : has_char s sep ≡ false = sym (rw e) ∙ h in rw (e, split-one s sep rest))
]

-- The part ahead of a separator.
pub split-append :
    (s : String) (sep : Char) (rest : String)
    → has_char s sep ≡ false
    → split (s +++ String.◌∷◌ sep rest) sep ≡ s ∷ split rest sep
unfolding split has_char
split-append String.[] sep rest h = rw (nil-append (String.◌∷◌ sep rest), is_char_refl sep)
split-append (String.◌∷◌ c s) sep rest h = elim (Bool-cases (is_char c sep)) [
  | inl e ↦ cc
  | inr e ↦
      let beside : has_char s sep ≡ false = sym (rw e) ∙ h in
      rw (cons-append c s (String.◌∷◌ sep rest), e, split-append s sep rest beside)
]

-- ===== src/Prelude/Text.antt =====
-- Go's `strings.TrimSpace`, over the code points of a text.
use Prim.Native.Char.{Char, code}
use Prim.Native.String.{String, [], ◌∷◌}
use mathlib.Core.Path.{◌≡◌, refl, ap, ◌∙◌}
use mathlib.Core.Logic.{inl, inr}
use mathlib.Core.Bool.{Bool, true, false, ◌&&◌, ◌||◌}
use steampipe.Prelude.Tests.{◌==◌, nat_eq, if◌then◌else◌, leb, Bool-cases}
use steampipe.Prelude.{◌≡◌, ◌∙◌, inl, inr}

-- unicode.IsSpace
unfoldable pub is_space : Char → Bool
is_space c =
    let n = code c in
    leb 0x9 n && leb n 0xd
    || n == 0x20
    || n == 0x85
    || n == 0xa0
    || n == 0x1680
    || leb 0x2000 n && leb n 0x200a
    || n == 0x2028
    || n == 0x2029
    || n == 0x202f
    || n == 0x205f
    || n == 0x3000

trim_left : String → String
trim_left [] = []
trim_left (c ∷ s) = let rest = trim_left s in if is_space c then rest else c ∷ s

-- Trailing space is dropped once all that follows it is dropped.
trim_cons : Char → String → String
trim_cons c [] = if is_space c then [] else c ∷ []
trim_cons c (d ∷ t) = c ∷ d ∷ t

trim_right : String → String
trim_right [] = []
trim_right (c ∷ s) = trim_cons c (trim_right s)

-- strings.TrimSpace
unfoldable pub trim_space : String → String
unfolding trim_left trim_right trim_cons
trim_space s = trim_right (trim_left s)

-- s + t
infixr 6 ◌+++◌
abbrev pub ◌+++◌ : String → String → String
s +++ t = Prim.Native.String.◌++◌ s t

-- s == ""
abbrev pub is_empty : String → Bool
is_empty [] = true
is_empty (c ∷ s) = false

-- A text with nothing but white space.
unfoldable pub blank : String → Bool
blank [] = true
blank (c ∷ s) = is_space c && blank s

trim_cons-empty : (c : Char) (t : String) → is_empty (trim_cons c t) ≡ (is_space c && is_empty t)
unfolding trim_cons
trim_cons-empty c [] = elim (Bool-cases (is_space c)) [ inl h ↦ rw h | inr h ↦ rw h ]
trim_cons-empty c (d ∷ t) = elim (Bool-cases (is_space c)) [ inl h ↦ rw h | inr h ↦ rw h ]

trim_right-empty : (s : String) → is_empty (trim_right s) ≡ blank s
unfolding trim_right blank
trim_right-empty [] = refl
trim_right-empty (c ∷ s) =
    trim_cons-empty c (trim_right s) ∙ ap (λ b. is_space c && b) (trim_right-empty s)

trim_right-cons :
    (c : Char) (s : String) → is_space c ≡ false → is_empty (trim_right (c ∷ s)) ≡ false
unfolding blank
trim_right-cons c s h = trim_right-empty (c ∷ s) ∙ rw h

-- A text is empty after trimming exactly when it is blank.
pub trim_space-empty : (s : String) → is_empty (trim_space s) ≡ blank s
unfolding trim_space trim_left blank
trim_space-empty [] = trim_right-empty []
trim_space-empty (c ∷ s) = elim (Bool-cases (is_space c)) [
  | inl space ↦ rw space (trim_space-empty s)
  | inr other ↦ rw other (trim_right-cons c s other)
]

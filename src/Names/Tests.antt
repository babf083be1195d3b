-- ===== src/Names/Tests.antt =====
-- modconfig: the theorems on names, at concrete ones.
use text.Mathlib.TextLemmas.{nil≢cons, tail-eq_of_cons-eq}
use steampipe.Prelude.Split.{has_char, split}
use steampipe.Names.{
  parse_resource_name, parse_resource_property_path, build_mod_resource_name, invalid_name,
  index_out_of_range, unqualified_resource_name,
}
use steampipe.Prelude.{
  ℕ, ◌∷◌, string_eq, String, ◌≡◌, [], inr, suc, inl, zero, some, refl, sym, ap, false, List,
}
use steampipe.Prelude.Text.{◌+++◌}
use steampipe.Names.Unique.{get_unique_name, candidate, contains, TakenFrom, get_unique_name-first}
use steampipe.Names.RoundTrip.{parse_resource_name-build}

parse_resource_name-build_example :
    let short = build_mod_resource_name "control" "open_port" in
    let long = "aws" +++ "." +++ short in
    (parse_resource_name short
      ≡ inl (record { mod_name = ""; item_type = "control"; name = "open_port" }))
    × (parse_resource_name long
        ≡ inl (record { mod_name = "aws"; item_type = "control"; name = "open_port" }))
    × (unqualified_resource_name short ≡ short)
    × (unqualified_resource_name long ≡ short)
unfolding has_char steampipe.Prelude.Split.is_char
parse_resource_name-build_example =
    parse_resource_name-build "aws" "control" "open_port" refl refl refl

long_name : parse_resource_name "a.b.c.d" ≡ inr (invalid_name "a.b.c.d")
unfolding parse_resource_name split string_eq steampipe.Prelude.Split.is_char
long_name = refl

self_only : parse_resource_property_path "self.x" ≡ inr index_out_of_range
unfolding parse_resource_property_path split string_eq steampipe.Prelude.Split.is_char
self_only = refl

-- Numbers printed in unary.
abbrev strokes : ℕ → String
strokes zero = String.[]
strokes (suc n) = String.◌∷◌ "1" (strokes n)

strokes-inj : (m n : ℕ) → strokes m ≡ strokes n → m ≡ n
strokes-inj zero zero h = refl
strokes-inj zero (suc n) h = absurd (nil≢cons h)
strokes-inj (suc m) zero h = absurd (nil≢cons (sym h))
strokes-inj (suc m) (suc n) h = ap suc (strokes-inj m n (tail-eq_of_cons-eq h))

abbrev two_names : List String
two_names = "a" ∷ "a_1" ∷ []

get_unique_name-first_example :
    (n : ℕ) × (get_unique_name strokes two_names "a"
      ≡ some (candidate strokes "a" n, candidate strokes "a" n ∷ two_names))
    × (contains (candidate strokes "a" n) two_names ≡ false)
    × TakenFrom strokes strokes-inj two_names "a" 0 n
get_unique_name-first_example = get_unique_name-first strokes strokes-inj two_names "a"

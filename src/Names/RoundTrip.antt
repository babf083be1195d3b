-- ===== src/Names/RoundTrip.antt =====
-- parsed_name.go, parsed_property_path.go: names that are built, and read again.
use text.Mathlib.TextLemmas.{nil-append, cons-append}
use steampipe.Prelude.{
  String, List, ◌≡◌, ap, false, ◌∷◌, ◌∙◌, [], ◌==◌, inl, Bool-cases, eq_of_==, string_eq, refl,
}
use steampipe.Names.{
  build_mod_resource_name, parse_resource_name, parse_resource_property_path,
  unqualified_resource_name, dashboard_scope, ParsedPropertyPath, inr, scoped_path_of,
  property_path_of,
}
use steampipe.Prelude.Split.{split, has_char, split-append, split-one, join}
use steampipe.Prelude.Text.{◌+++◌}

dot : (s t : String) → s +++ "." +++ t ≡ s +++ String.◌∷◌ "." t
dot s t =
    ap (λ (u : String). s +++ u)
      (cons-append "." String.[] t ∙ ap (λ (u : String). String.◌∷◌ "." u) (nil-append t))

split-dot : (s t : String) → has_char s "." ≡ false → split (s +++ "." +++ t) "." ≡ s ∷ split t "."
split-dot s t h = ap (λ (u : String). split u ".") (dot s t) ∙ split-append s "." t h

two_parts :
    (t n : String)
    → has_char t "." ≡ false
    → has_char n "." ≡ false
    → split (build_mod_resource_name t n) "." ≡ t ∷ n ∷ []
unfolding build_mod_resource_name
two_parts t n no_dot_t no_dot_n =
    split-dot t n no_dot_t ∙ ap (λ (parts : List String). t ∷ parts) (split-one n "." no_dot_n)

three_parts :
    (m t n : String)
    → has_char m "." ≡ false
    → has_char t "." ≡ false
    → has_char n "." ≡ false
    → split (m +++ "." +++ build_mod_resource_name t n) "." ≡ m ∷ t ∷ n ∷ []
three_parts m t n no_dot_m no_dot_t no_dot_n =
    split-dot m (build_mod_resource_name t n) no_dot_m
    ∙ ap (λ (parts : List String). m ∷ parts) (two_parts t n no_dot_t no_dot_n)

-- The empty name has one part.
parts-ne-empty :
    (full s t : String) (parts : List String)
    → split full "." ≡ s ∷ t ∷ parts
    → (full == "") ≡ false
unfolding split
parts-ne-empty full s t parts e = elim (Bool-cases (full == "")) [
  | inl empty ↦
      let one : split full "." ≡ "" ∷ [] =
        ap (λ (u : String). split u ".") (eq_of_== full "" empty) in
      cc
  | inr other ↦ other
]

join_two : (t n : String) → join (t ∷ n ∷ []) "." ≡ build_mod_resource_name t n
unfolding join build_mod_resource_name
join_two t n = refl

-- A resource name that `BuildModResourceName` builds from a type and a name without dots is read back
-- as that type and name, and with a mod without dots ahead of it also as that mod. The unqualified name
-- is in both cases the one without the mod.
pub parse_resource_name-build :
    (m t n : String)
    → has_char m "." ≡ false
    → has_char t "." ≡ false
    → has_char n "." ≡ false
    → (let short = build_mod_resource_name t n in
        let long = m +++ "." +++ short in
        (parse_resource_name short ≡ inl (record { mod_name = ""; item_type = t; name = n }))
        × (parse_resource_name long ≡ inl (record { mod_name = m; item_type = t; name = n }))
        × (unqualified_resource_name short ≡ short)
        × (unqualified_resource_name long ≡ short))
unfolding parse_resource_name unqualified_resource_name
parse_resource_name-build m t n no_dot_m no_dot_t no_dot_n =
    let short = build_mod_resource_name t n in
    let two = two_parts t n no_dot_t no_dot_n in
    let three = three_parts m t n no_dot_m no_dot_t no_dot_n in
    (
      rw (parts-ne-empty short t n [] two, two),
      rw (parts-ne-empty (m +++ "." +++ short) m t (n ∷ []) three, three),
      rw two,
      rw three (join_two t n),
    )

-- A property of a resource of another mod: the property path that is read begins with the resource's
-- own name.
parse_resource_property_path-mod :
    (m t n property : String)
    → has_char m "." ≡ false
    → has_char t "." ≡ false
    → has_char n "." ≡ false
    → has_char property "." ≡ false
    → (m == dashboard_scope) ≡ false
    → (p : ParsedPropertyPath) × (parse_resource_property_path
          (m +++ "." +++ t +++ "." +++ build_mod_resource_name n property)
        ≡ inl p)
      × (p.mod_name ≡ m)
      × (p.item_type ≡ t)
      × (p.name ≡ n)
      × (p.property_path ≡ n ∷ property ∷ [])
unfolding parse_resource_property_path scoped_path_of property_path_of
parse_resource_property_path-mod m t n property no_dot_m no_dot_t no_dot_n no_dot_p other =
    let path = m +++ "." +++ t +++ "." +++ build_mod_resource_name n property in
    let parts : split path "." ≡ m ∷ t ∷ n ∷ property ∷ [] =
      split-dot m (t +++ "." +++ build_mod_resource_name n property) no_dot_m
      ∙ ap (λ (rest : List String). m ∷ rest)
          (split-dot t (build_mod_resource_name n property) no_dot_t
            ∙ ap (λ (rest : List String). t ∷ rest) (two_parts n property no_dot_n no_dot_p)) in
    let p : ParsedPropertyPath = record {
      mod_name = m;
      item_type = t;
      name = n;
      property_path = n ∷ property ∷ [];
      scope = "";
      original = path;
    } in
    (p, rw (parts, other), refl, refl, refl, refl)

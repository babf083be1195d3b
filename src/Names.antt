-- ===== src/Names.antt =====
-- steampipeconfig/modconfig: the names of resources and mods (parsed_name.go, parsed_property_path.go,
-- mod_name.go, mod_version_constraint.go, unique_name_provider_base.go).
-- Versions and constraints are parsed by the semver library, so that is a parameter. Errors hold the
-- name that their message shows.
pub mod Constraint
pub mod RoundTrip
pub mod Unique
mod Tests
use steampipe.Prelude.{String, List, ◌⊎◌, ◌∷◌, if◌then◌else◌, inl, ◌==◌, inr, string_eq, []}
use steampipe.Prelude.Split.{split, join}
use steampipe.Prelude.Text.{◌+++◌}

pub data NameError : Type 0 where
  invalid_name : String → NameError
  invalid_property_path : String → NameError
  invalid_mod_name : String → NameError
  invalid_version : String → NameError
  -- an index out of range panics
  index_out_of_range : NameError

pub record ParsedResourceName : Type 0 where
  pub mod_name : String
  pub item_type : String
  pub name : String

-- The cases of the `switch`, on the parts of the name.
unfoldable pub resource_name_of : String → List String → ParsedResourceName ⊎ NameError
resource_name_of full_name (name ∷ []) = inl (record { mod_name = ""; item_type = ""; name = name })
resource_name_of full_name (item_type ∷ name ∷ []) =
    inl (record { mod_name = ""; item_type = item_type; name = name })
resource_name_of full_name (mod_name ∷ item_type ∷ name ∷ []) =
    inl (record { mod_name = mod_name; item_type = item_type; name = name })
resource_name_of full_name parts = inr (invalid_name full_name)

unfoldable pub parse_resource_name : String → ParsedResourceName ⊎ NameError
unfolding resource_name_of
parse_resource_name full_name =
    if full_name == ""
    then inl (record { mod_name = ""; item_type = ""; name = "" })
    else resource_name_of full_name (split full_name ".")

unfoldable pub without_mod : String → List String → String
without_mod full_name (mod_name ∷ item_type ∷ name ∷ []) = join (item_type ∷ name ∷ []) "."
without_mod full_name parts = full_name

unfoldable pub unqualified_resource_name : String → String
unfolding without_mod
unqualified_resource_name full_name = without_mod full_name (split full_name ".")

unfoldable pub build_mod_resource_name : String → String → String
build_mod_resource_name block_type name = block_type +++ "." +++ name

pub record ParsedPropertyPath : Type 0 where
  pub mod_name : String
  pub item_type : String
  pub name : String
  pub property_path : List String
  pub scope : String
  pub original : String

unfoldable pub property_path_string : ParsedPropertyPath → String
property_path_string p = join p.property_path "."

unfoldable pub to_parsed_resource_name : ParsedPropertyPath → ParsedResourceName
to_parsed_resource_name p = record { mod_name = p.mod_name; item_type = p.item_type; name = p.name }

unfoldable pub to_resource_name : ParsedPropertyPath → String
unfolding build_mod_resource_name
to_resource_name p = build_mod_resource_name p.item_type p.name

-- The cases of the `switch`, on the parts behind the scope.
unfoldable pub property_path_of :
    (original scope : String) → List String → ParsedPropertyPath ⊎ NameError
property_path_of original scope (item_type ∷ name ∷ []) = inl (record {
  mod_name = "";
  item_type = item_type;
  name = name;
  property_path = [];
  scope = scope;
  original = original;
})
property_path_of original scope (item_type ∷ name ∷ property ∷ []) = inl (record {
  mod_name = "";
  item_type = item_type;
  name = name;
  property_path = property ∷ [];
  scope = scope;
  original = original;
})
property_path_of original scope (mod_name ∷ item_type ∷ name ∷ property ∷ parts) = inl (record {
  mod_name = mod_name;
  item_type = item_type;
  name = name;
  property_path = name ∷ property ∷ parts;  -- parts[2:]
  scope = scope;
  original = original;
})
property_path_of original scope parts = inr index_out_of_range

-- runtimeDependencyDashboardScope
abbrev pub dashboard_scope : String
dashboard_scope = "self"

unfoldable pub scoped_path_of : String → List String → ParsedPropertyPath ⊎ NameError
unfolding property_path_of
scoped_path_of original (first ∷ second ∷ parts) =
    if first == dashboard_scope
    then property_path_of original first (second ∷ parts)
    else property_path_of original "" (first ∷ second ∷ parts)
scoped_path_of original parts = inr (invalid_property_path original)

unfoldable pub parse_resource_property_path : String → ParsedPropertyPath ⊎ NameError
unfolding scoped_path_of
parse_resource_property_path path = scoped_path_of path (split path ".")

-- ===== src/Names/Constraint.antt =====
-- mod_name.go, mod_version_constraint.go: mods with a version, and the constraints on it.
use steampipe.Prelude.{
  String, List, Bool, if◌then◌else◌, Option, ◌∷◌, not, ◌==◌, ◌⊎◌, [], any, ◌&&◌, none, string_eq,
  inr, inl, some,
}
use steampipe.Prelude.Text.{◌+++◌}
use steampipe.Prelude.Split.{has_prefix, split, trim_prefix}
use steampipe.Names.{NameError, invalid_version, invalid_mod_name}

module _ {V : Type 0} (new_version : String → Option V) where
  abbrev pub with_version : String → String → Option V → (String × V) ⊎ NameError
  with_version full_name mod_name none = inr (invalid_version full_name)
  with_version full_name mod_name (some v) = inl (mod_name, v)

  unfoldable pub mod_full_name_of : String → List String → (String × V) ⊎ NameError
  mod_full_name_of full_name (mod_name ∷ version ∷ []) =
      with_version full_name mod_name (new_version version)
  mod_full_name_of full_name parts = inr (invalid_mod_name full_name)

  unfoldable pub parse_mod_full_name : String → (String × V) ⊎ NameError
  unfolding mod_full_name_of
  parse_mod_full_name full_name = mod_full_name_of full_name (split full_name "@")

-- `versionhelpers.Constraints`, as `C`.
pub record Requirement (C : Type 0) : Type 0 where
  pub name : String
  pub version_string : String
  pub constraint : Option C
  pub file_path : String

abbrev pub file_prefix : String
file_prefix = "file:"

abbrev pub no_version : List String
no_version = "" ∷ "latest" ∷ "*" ∷ []

module _ {C : Type 0} where
  unfoldable pub has_version : Requirement C → Bool
  has_version m = not (any (λ v. v == m.version_string) no_version)

  unfoldable pub full_name : Requirement C → String
  unfolding has_version
  full_name m = if has_version m then m.name +++ "@" +++ m.version_string else m.name

  unfoldable pub equal_requirements : Requirement C → Requirement C → Bool
  equal_requirements m other = (m.name == other.name) && (m.version_string == other.version_string)

  -- It trims `FilePath`, and not the name.
  unfoldable pub set_file_path : Requirement C → Requirement C
  unfolding trim_prefix
  set_file_path m = record m { file_path = trim_prefix m.file_path file_prefix }

module _ {C : Type 0} (new_constraint : String → Option C) where
  abbrev pub with_constraint : Requirement C → Option C → Requirement C ⊎ NameError
  with_constraint m none = inr (invalid_version m.version_string)
  with_constraint m (some c) = inl (record m { constraint = some c })

  unfoldable pub initialise : Requirement C → Requirement C ⊎ NameError
  unfolding set_file_path
  initialise m =
      if has_prefix m.name file_prefix
      then inl (set_file_path m)
      else if m.version_string == ""
      then inl (record m { constraint = new_constraint "*"; version_string = "latest" })
      else if m.version_string == "latest"
      then inl (record m { constraint = new_constraint "*" })
      else with_constraint m (new_constraint m.version_string)

  abbrev pub bare : String → String → Requirement C
  bare name version = record {
    name = name;
    version_string = version;
    constraint = none;
    file_path = "";
  }

  unfoldable pub requirement_of : String → List String → Requirement C ⊎ NameError
  unfolding initialise
  requirement_of full_name (name ∷ []) = initialise (bare name "")
  requirement_of full_name (name ∷ version ∷ []) = initialise (bare name version)
  requirement_of full_name segments = inr (invalid_mod_name full_name)

  unfoldable pub new_mod_version_constraint : String → Requirement C ⊎ NameError
  unfolding requirement_of
  new_mod_version_constraint mod_full_name =
      if has_prefix mod_full_name file_prefix
      then initialise (bare mod_full_name "")
      else requirement_of mod_full_name (split mod_full_name "@")

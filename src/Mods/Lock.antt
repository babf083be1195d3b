-- ===== src/Mods/Lock.antt =====
-- steampipeconfig/versionmap: the versions that a workspace has locked, and those it misses.
-- `Semver` is what the code uses of the semver library. Reading, writing and listing files are left
-- out, as is the tree for printing. A nil constraint is `none`, and a nil map reads as an empty one.
pub mod Installed
pub mod Changes
pub mod Visits
pub mod Missing
mod Tests
-- github.com/Masterminds/semver, and `sort` of a list of versions, highest first
use steampipe.Prelude.{
  Bool, String, Option, [], List, some, ◌∷◌, ◌⊎◌, ltb, eqb, false, none, string_eq, if◌then◌else◌,
  inl, length, any, inr, ◌==◌, ◌&&◌, ◌||◌,
}
use steampipe.Prelude.Dict.{Dict, lookup, insert, erase}

pub record Semver (V : Type 0) : Type 0 where
  pub equal : V → V → Bool
  pub greater_than : V → V → Bool
  pub less_than : V → V → Bool
  pub prerelease : V → String
  pub metadata : V → String
  pub major_minor : V → String  -- "%d.%d" of Major and Minor
  pub sort_reverse : List V → List V

pub record ResolvedVersionConstraint (V : Type 0) : Type 0 where
  pub name : String
  pub version : V
  pub constraint : String

-- modconfig.ModVersionConstraint, with its `Check`
pub record ModVersionConstraint (V : Type 0) : Type 0 where
  pub name : String
  pub check : V → Bool
  pub original : String

abbrev pub ResolvedVersionMap : Type 0 → Type 0
ResolvedVersionMap V = Dict String (ResolvedVersionConstraint V)

abbrev pub DependencyVersionMap : Type 0 → Type 0
DependencyVersionMap V = Dict String (ResolvedVersionMap V)

abbrev pub VersionListMap : Type 0 → Type 0
VersionListMap V = Dict String (List V)

-- The maps of the lock; paths play no part.
pub record WorkspaceLock (V : Type 0) : Type 0 where
  pub install_cache : DependencyVersionMap V
  pub missing_versions : DependencyVersionMap V
  pub installed_mods : VersionListMap V

abbrev pub or_nil_map {ℓ κ} : {K : Type ℓ} {A : Type κ} → Option (Dict K A) → Dict K A
or_nil_map none = []
or_nil_map (some m) = m

abbrev pub or_no_versions : {V : Type 0} → Option (List V) → List V
or_no_versions none = []
or_no_versions (some versions) = versions

pub data LockError : Type 0 where
  does_not_meet : (name constraint : String) → LockError

module _ {V : Type 0} where
  -- m[parent]
  abbrev pub deps_of : String → DependencyVersionMap V → ResolvedVersionMap V
  deps_of parent m = or_nil_map (lookup parent m)

  -- m[parent][name]
  abbrev pub entry : String → String → DependencyVersionMap V → Option (ResolvedVersionConstraint V)
  entry parent name m = lookup name (deps_of parent m)

  -- DependencyVersionMap.Add
  unfoldable pub add :
      String → V → String → String → DependencyVersionMap V → DependencyVersionMap V
  add name version constraint parent m =
      insert parent
        (insert name (record { name = name; version = version; constraint = constraint })
          (deps_of parent m))
        m

  -- m[parent].Remove(name); a nil map stays.
  abbrev pub removed :
      String
      → String
      → Option (ResolvedVersionMap V)
      → DependencyVersionMap V
      → DependencyVersionMap V
  removed parent name none m = m
  removed parent name (some deps) m = insert parent (erase name deps) m

  unfoldable pub remove : String → String → DependencyVersionMap V → DependencyVersionMap V
  remove parent name m = removed parent name (lookup parent m) m

  abbrev pub add_picked :
      String
      → Option (ResolvedVersionConstraint V)
      → DependencyVersionMap V
      → DependencyVersionMap V
  unfolding add
  add_picked parent none res = res
  add_picked parent (some dep) res = add dep.name dep.version dep.constraint parent res

  -- The two loops over a map, for `GetMissingFromOther` and the comparisons of versions.
  unfoldable pub add_deps :
      (Option (ResolvedVersionConstraint V)
        → ResolvedVersionConstraint V
        → Option (ResolvedVersionConstraint V))
      → String
      → ResolvedVersionMap V
      → ResolvedVersionMap V
      → DependencyVersionMap V
      → DependencyVersionMap V
  unfolding add
  add_deps pick parent other_deps [] res = res
  add_deps pick parent other_deps ((name, dep) ∷ deps) res =
      add_deps pick parent other_deps deps
        (add_picked parent (pick (lookup name other_deps) dep) res)

  unfoldable pub compare_maps :
      (Option (ResolvedVersionConstraint V)
        → ResolvedVersionConstraint V
        → Option (ResolvedVersionConstraint V))
      → DependencyVersionMap V
      → DependencyVersionMap V
      → DependencyVersionMap V
      → DependencyVersionMap V
  unfolding add_deps
  compare_maps pick [] other res = res
  compare_maps pick ((parent, deps) ∷ m) other res =
      compare_maps pick m other (add_deps pick parent (deps_of parent other) deps res)

  abbrev pub if_absent :
      Option (ResolvedVersionConstraint V)
      → ResolvedVersionConstraint V
      → Option (ResolvedVersionConstraint V)
  if_absent none dep = some dep
  if_absent (some other_dep) dep = none

  unfoldable pub get_missing_from_other :
      DependencyVersionMap V → DependencyVersionMap V → DependencyVersionMap V
  unfolding compare_maps
  get_missing_from_other m other = compare_maps if_absent m other []

  -- DeleteMods, for the names of the given mods
  unfoldable pub delete_mods : List String → (parent : String) → WorkspaceLock V → WorkspaceLock V
  unfolding remove
  delete_mods [] parent l = l
  delete_mods (name ∷ names) parent l =
      delete_mods names parent (record l { install_cache = remove parent name l.install_cache })

  -- `parent` is the mod's dependency path.
  unfoldable pub get_mod :
      String → (parent : String) → WorkspaceLock V → Option (ResolvedVersionConstraint V)
  get_mod name parent l = entry parent name l.install_cache

  abbrev pub if_met :
      ModVersionConstraint V
      → Option (ResolvedVersionConstraint V)
      → Option (ResolvedVersionConstraint V)
  if_met required none = none
  if_met required (some locked) = if required.check locked.version then some locked else none

  unfoldable pub get_locked_mod_version :
      ModVersionConstraint V → String → WorkspaceLock V → Option (ResolvedVersionConstraint V)
  unfolding get_mod
  get_locked_mod_version required parent l = if_met required (get_mod required.name parent l)

  abbrev pub must_meet :
      ModVersionConstraint V
      → Option (ResolvedVersionConstraint V)
      → Option (ResolvedVersionConstraint V) ⊎ LockError
  must_meet required none = inl none
  must_meet required (some locked) =
      if required.check locked.version
      then inl (some locked)
      else inr (does_not_meet required.name required.original)

  unfoldable pub ensure_locked_mod_version :
      ModVersionConstraint V
      → String
      → WorkspaceLock V
      → Option (ResolvedVersionConstraint V) ⊎ LockError
  unfolding get_mod
  ensure_locked_mod_version required parent l = must_meet required (get_mod required.name parent l)

  unfoldable pub incomplete : WorkspaceLock V → Bool
  incomplete l = ltb 0 (length l.missing_versions)

  unfoldable pub empty : WorkspaceLock V → Bool
  empty l = eqb (length l.install_cache) 0

  -- A new lock with the installed mods of another one.
  unfoldable pub empty_workspace_lock : WorkspaceLock V → WorkspaceLock V
  empty_workspace_lock l = record {
    install_cache = [];
    missing_versions = [];
    installed_mods = l.installed_mods;
  }

  unfoldable pub contains_mod_constraint : String → String → DependencyVersionMap V → Bool
  contains_mod_constraint name original [] = false
  contains_mod_constraint name original ((_, deps) ∷ m) =
      any
        (λ (e : String × ResolvedVersionConstraint V).
          (e.0 == name) && (e.1.constraint == original))
        deps
      || contains_mod_constraint name original m

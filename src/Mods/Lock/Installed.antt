-- ===== src/Mods/Lock/Installed.antt =====
-- steampipeconfig/versionmap: what compares versions, and what compares the lock with what is
-- installed. The names of modconfig/mod_name.go tell versions apart by major, minor and metadata.
use steampipe.Mods.Lock.{
  Semver, ResolvedVersionConstraint, DependencyVersionMap, VersionListMap, add, WorkspaceLock, some,
  compare_maps, remove, ResolvedVersionMap, or_no_versions, entry,
}
use steampipe.Prelude.{
  String, Option, List, Bool, if◌then◌else◌, ◌∷◌, [], ◌==◌, not, none, map, any, false, ◌&&◌, ◌||◌,
  string_eq, ◌++◌,
}
use steampipe.Prelude.Text.{◌+++◌}
use steampipe.Prelude.Dict.{insert, lookup}
use steampipe.Prelude.Options.{is_some}

module _ {V : Type 0} (semver : Semver V) where
  unfoldable pub equals : ResolvedVersionConstraint V → ResolvedVersionConstraint V → Bool
  equals c other =
      (c.name == other.name)
      && semver.equal c.version other.version
      && (c.constraint == other.constraint)

  unfoldable pub is_prerelease : ResolvedVersionConstraint V → Bool
  is_prerelease c = not (semver.prerelease c.version == "") || not (semver.metadata c.version == "")

  unfoldable pub get_monotonic_version_string : V → String
  get_monotonic_version_string v =
      if semver.metadata v == ""
      then semver.major_minor v
      else semver.major_minor v +++ "+" +++ semver.metadata v

  -- The version is never nil here.
  unfoldable pub mod_version_full_name : String → V → String
  unfolding get_monotonic_version_string
  mod_version_full_name name version = name +++ "@v" +++ get_monotonic_version_string version

  abbrev pub if_newer :
      Option (ResolvedVersionConstraint V)
      → ResolvedVersionConstraint V
      → Option (ResolvedVersionConstraint V)
  if_newer none dep = none
  if_newer (some other_dep) dep =
      if semver.greater_than other_dep.version dep.version then some other_dep else none

  unfoldable pub get_upgraded_in_other :
      DependencyVersionMap V → DependencyVersionMap V → DependencyVersionMap V
  get_upgraded_in_other m other = compare_maps if_newer m other []

  abbrev pub if_older :
      Option (ResolvedVersionConstraint V)
      → ResolvedVersionConstraint V
      → Option (ResolvedVersionConstraint V)
  if_older none dep = none
  if_older (some other_dep) dep =
      if semver.less_than other_dep.version dep.version then some other_dep else none

  unfoldable pub get_downgraded_in_other :
      DependencyVersionMap V → DependencyVersionMap V → DependencyVersionMap V
  get_downgraded_in_other m other = compare_maps if_older m other []

  -- VersionListMap.Add
  unfoldable pub add_version : String → V → VersionListMap V → VersionListMap V
  add_version name version m =
      insert name (semver.sort_reverse (or_no_versions (lookup name m) ++ version ∷ [])) m

  -- VersionListMap.FlatMap, as the list of its keys
  unfoldable pub flat_names : VersionListMap V → List String
  unfolding mod_version_full_name
  flat_names [] = []
  flat_names ((name, versions) ∷ m) =
      map (λ (v : V). mod_version_full_name name v) versions ++ flat_names m

  abbrev pub is_installed : List String → String → ResolvedVersionConstraint V → Bool
  unfolding mod_version_full_name
  is_installed flat_installed name c =
      any (λ full. full == mod_version_full_name name c.version) flat_installed

  unfoldable pub move_missing :
      String → ResolvedVersionConstraint V → WorkspaceLock V → WorkspaceLock V
  unfolding add remove
  move_missing parent c l = record l {
    missing_versions = add c.name c.version c.constraint parent l.missing_versions;
    install_cache = remove parent c.name l.install_cache;
  }

  -- One round of the inner loop of `setMissing`. An entry that is removed before the loop over the
  -- map reaches it is not visited.
  unfoldable pub visit :
      List String
      → String
      → String
      → ResolvedVersionConstraint V
      → WorkspaceLock V
      → WorkspaceLock V
  unfolding move_missing
  visit flat parent name c l =
      if is_some (entry parent name l.install_cache) && not (is_installed flat name c)
      then move_missing parent c l
      else l

  unfoldable pub set_missing_deps :
      List String → String → ResolvedVersionMap V → WorkspaceLock V → WorkspaceLock V
  unfolding visit
  set_missing_deps flat parent [] l = l
  set_missing_deps flat parent ((name, c) ∷ deps) l =
      set_missing_deps flat parent deps (visit flat parent name c l)

  unfoldable pub set_missing_parents :
      List String → DependencyVersionMap V → WorkspaceLock V → WorkspaceLock V
  unfolding set_missing_deps
  set_missing_parents flat [] l = l
  set_missing_parents flat ((parent, deps) ∷ cache) l =
      set_missing_parents flat cache (set_missing_deps flat parent deps l)

  unfoldable pub set_missing : WorkspaceLock V → WorkspaceLock V
  unfolding flat_names set_missing_parents
  set_missing l = set_missing_parents (flat_names l.installed_mods) l.install_cache l

  unfoldable pub contains_mod_version : String → V → DependencyVersionMap V → Bool
  contains_mod_version name v [] = false
  contains_mod_version name v ((_, deps) ∷ m) =
      any
        (λ (e : String × ResolvedVersionConstraint V).
          (e.0 == name)
          && semver.equal e.1.version v
          && (semver.metadata e.1.version == semver.metadata v))
        deps
      || contains_mod_version name v m

  unfoldable pub add_unreferenced :
      DependencyVersionMap V → String → List V → VersionListMap V → VersionListMap V
  unfolding contains_mod_version add_version
  add_unreferenced cache name [] res = res
  add_unreferenced cache name (v ∷ versions) res =
      add_unreferenced cache name versions
        (if contains_mod_version name v cache then res else add_version name v res)

  unfoldable pub unreferenced_from :
      DependencyVersionMap V → VersionListMap V → VersionListMap V → VersionListMap V
  unfolding add_unreferenced
  unreferenced_from cache [] res = res
  unreferenced_from cache ((name, versions) ∷ installed) res =
      unreferenced_from cache installed (add_unreferenced cache name versions res)

  unfoldable pub get_unreferenced_mods : WorkspaceLock V → VersionListMap V
  unfolding unreferenced_from
  get_unreferenced_mods l = unreferenced_from l.install_cache l.installed_mods []

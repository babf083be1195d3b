-- ===== src/Mods/Installer/Versions.antt =====
-- modinstaller: the versions of a mod that there are, and the one to use.
use steampipe.Prelude.Dict.{lookup, insert}
use steampipe.Mods.Installer.{
  ◌>>=◌, done, Sources, get_version_satisfying_constraint, Mod, some, Installing, failed,
  ResolvedModRef, inr, no_version_data, fail, answer, no_version_satisfies, load_failed, inl, panic,
  nil_pointer,
}
use steampipe.Mods.Lock.{ResolvedVersionConstraint, get_locked_mod_version, ModVersionConstraint}
use steampipe.Mods.Require.{Required}
use steampipe.Prelude.{
  Bool, String, Option, List, ◌∷◌, false, ◌⊎◌, if◌then◌else◌, [], none, string_eq, not, ◌&&◌, ◌==◌,
  ◌||◌, true,
}
use steampipe.Mods.Lock.Installed.{mod_version_full_name}
use steampipe.Prelude.Text.{◌+++◌}

module _ {V : Type 0} (src : Sources V) where
  abbrev pub add_tag : Bool → Option V → List V → List V
  add_tag include_prerelease none rest = rest
  add_tag include_prerelease (some v) rest =
      if (not include_prerelease && not (src.semver.metadata v == ""))
        || not (src.semver.prerelease v == "")
      then rest
      else v ∷ rest

  -- helpers of git.go: the tags that are versions; a version with a prerelease is dropped in any case
  unfoldable pub tag_versions : (include_prerelease : Bool) → List String → List V
  tag_versions include_prerelease [] = []
  tag_versions include_prerelease (raw ∷ tags) =
      let rest = tag_versions include_prerelease tags in
      add_tag include_prerelease (src.new_version raw) rest

  unfoldable pub sorted_versions : Bool → Option (List String) → Option (List V)
  unfolding tag_versions
  sorted_versions include_prerelease none = none
  sorted_versions include_prerelease (some tags) =
      some (src.semver.sort_reverse (tag_versions include_prerelease tags))

  unfoldable pub get_tag_versions_from_git : String → Bool → Option (List V)
  get_tag_versions_from_git repo include_prerelease =
      sorted_versions include_prerelease (src.tags repo)

  abbrev pub cache_versions : String → Option (List V) → Installing V (List V)
  cache_versions name none d = (failed (no_version_data name), d)
  cache_versions name (some versions) d =
      (answer versions, record d { all_available = insert name versions d.all_available })

  unfoldable pub from_cache : String → Bool → Option (List V) → Installing V (List V)
  unfolding get_tag_versions_from_git
  from_cache name include_prerelease (some versions) = done versions
  from_cache name include_prerelease none =
      cache_versions name (get_tag_versions_from_git ("https://" +++ name) include_prerelease)

  -- InstallData.getAvailableModVersions
  unfoldable pub get_available_mod_versions : String → Bool → Installing V (List V)
  unfolding from_cache
  get_available_mod_versions name include_prerelease d =
      from_cache name include_prerelease (lookup name d.all_available) d

  abbrev pub has_label : Option V → Bool
  has_label none = false
  has_label (some v) = not (src.semver.prerelease v == "") || not (src.semver.metadata v == "")

  -- Constraints.IsPrerelease
  unfoldable pub is_prerelease_constraint : Required → Bool
  is_prerelease_constraint required = has_label (src.new_version required.original)

  abbrev pub mod_constraint : Required → ModVersionConstraint V
  mod_constraint required = record {
    name = required.name;
    check = src.check required.original;
    original = required.original;
  }

  abbrev pub ref_of : Required → Option V → Installing V (ResolvedModRef V)
  ref_of required none = fail (no_version_satisfies required.name required.original)
  ref_of required (some version) = done (record { name = required.name; version = version })

  unfoldable pub get_mod_ref_satisfying_constraints :
      Required → List V → Installing V (ResolvedModRef V)
  unfolding get_version_satisfying_constraint
  get_mod_ref_satisfying_constraints required versions =
      ref_of required (get_version_satisfying_constraint (src.check required.original) versions)

  unfoldable pub update_available : Required → V → List V → Installing V Bool
  unfolding get_mod_ref_satisfying_constraints
  update_available required current versions = do
    latest ← get_mod_ref_satisfying_constraints required versions
    done (src.semver.greater_than latest.version current)

  unfoldable pub can_update_mod : ResolvedVersionConstraint V → Required → Bool → Installing V Bool
  unfolding update_available get_available_mod_versions is_prerelease_constraint
  can_update_mod locked required force_update =
      if force_update || not (locked.constraint == required.original)
      then get_available_mod_versions required.name (is_prerelease_constraint required)
        >>= update_available required locked.version
      else done false

  -- `setModDependencyPath` writes to a nil mod when the folder has no mod file.
  abbrev pub loaded_mod : String → Option (Mod V) ⊎ String → Installing V (Option (Mod V))
  loaded_mod path (inr err) = fail (load_failed err)
  loaded_mod path (inl none) = panic nil_pointer
  loaded_mod path (inl (some m)) = done (some (record m { dependency_path = path }))

  unfoldable pub load_dependency_mod : ResolvedVersionConstraint V → Installing V (Option (Mod V))
  unfolding mod_version_full_name
  load_dependency_mod locked =
      let full = mod_version_full_name src.semver locked.name locked.version in
      loaded_mod (src.mod_path full) (src.load full)

  unfoldable pub unless_update : ResolvedVersionConstraint V → Bool → Installing V (Option (Mod V))
  unfolding load_dependency_mod
  unless_update locked true = done none
  unless_update locked false = load_dependency_mod locked

  unfoldable pub locked_or_none :
      Required → Bool → Option (ResolvedVersionConstraint V) → Installing V (Option (Mod V))
  unfolding can_update_mod unless_update
  locked_or_none required force_update none = done none
  locked_or_none required force_update (some locked) =
      can_update_mod locked required force_update >>= unless_update locked

  unfoldable pub get_currently_installed_version_to_use :
      Required → Mod V → Bool → Installing V (Option (Mod V))
  unfolding get_locked_mod_version locked_or_none
  get_currently_installed_version_to_use required parent force_update d =
      locked_or_none required force_update
        (get_locked_mod_version (mod_constraint required) parent.dependency_path d.lock) d

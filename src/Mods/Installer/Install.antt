-- ===== src/Mods/Installer/Install.antt =====
-- modinstaller: the installation of mods and of those that they require.
use steampipe.Mods.Installer.{
  ◌>>=◌, Sources, ResolvedModRef, Answer, each, InstallData, Mod, Installing, InstallError,
  panicked, inr, then_install, panic, answer, nil_pointer, fail, some, out_of_fuel, no_errors,
  load_failed, suc, failed, inl, no_mod_definition,
}
use steampipe.Mods.Lock.{add, get_missing_from_other}
use steampipe.Mods.Require.{Required, get_mod_dependency}
use steampipe.Prelude.{String, Option, List, ℕ, ◌⊎◌, Bool, true, none, false, zero}
use steampipe.Mods.Installer.Versions.{
  get_mod_ref_satisfying_constraints, get_available_mod_versions,
  get_currently_installed_version_to_use, is_prerelease_constraint,
}
use steampipe.Mods.Lock.Installed.{get_upgraded_in_other, get_downgraded_in_other}

module _ {V : Type 0} (src : Sources V) where
  -- InstallData.addExisting
  unfoldable pub add_existing :
      (name : String) → V → (original parent_path : String) → InstallData V → InstallData V
  unfolding add
  add_existing name version original parent_path d = record d {
    new_lock = record d.new_lock {
      install_cache = add name version original parent_path d.new_lock.install_cache;
    };
  }

  -- InstallData.onModInstalled, with the constraint that the parent has for the name
  unfoldable pub installed_at :
      ResolvedModRef V → (parent_path : String) → Option Required → Mod V → Installing V (Mod V)
  unfolding add_existing
  installed_at ref parent_path none m d = (panicked nil_pointer, d)
  installed_at ref parent_path (some required) m d =
      (answer m, add_existing ref.name ref.version required.original parent_path d)

  unfoldable pub cloned_mod :
      ResolvedModRef V → (parent : Mod V) → Option (Mod V) ⊎ String → Installing V (Mod V)
  unfolding get_mod_dependency installed_at
  cloned_mod ref parent (inr err) = fail (load_failed err)
  cloned_mod ref parent (inl none) = fail (no_mod_definition ref.name)
  cloned_mod ref parent (inl (some m)) =
      installed_at ref parent.dependency_path (get_mod_dependency ref.name parent.require)
        (record m { dependency_path = src.tmp_path })

  unfoldable pub install : ResolvedModRef V → (parent : Mod V) → Installing V (Mod V)
  unfolding cloned_mod
  install ref parent = cloned_mod ref parent (src.clone ref.name ref.version)

  -- The mod to go on with: a new one, or the one that is there.
  unfoldable pub install_or_use :
      Required → Option (Mod V) → (parent : Mod V) → List V → Installing V (Mod V)
  unfolding install get_mod_ref_satisfying_constraints add_existing
  install_or_use required none parent versions d =
      then_install (λ ref. install ref parent)
        (get_mod_ref_satisfying_constraints src required versions d)
  install_or_use required (some m) parent versions d =
      (answer m, add_existing required.name m.version required.original parent.dependency_path d)

  unfoldable pub install_mod_dependences_recursively :
      (fuel : ℕ) → Required → Option (Mod V) → (parent : Mod V) → Bool → Installing V Unit
  unfolding get_available_mod_versions is_prerelease_constraint install_or_use each
      get_currently_installed_version_to_use
  install_mod_dependences_recursively zero required m parent should_update = panic out_of_fuel
  install_mod_dependences_recursively (suc fuel) required m parent should_update = do
    versions ← get_available_mod_versions src required.name (is_prerelease_constraint src required)
    used ← install_or_use required m parent versions
    errors ←
        each
          (λ dep. get_currently_installed_version_to_use src dep used should_update >>= λ child.
            install_mod_dependences_recursively fuel dep child used should_update)
          used.require.mods
    no_errors errors

  unfoldable pub on_install_complete : InstallData V → InstallData V
  unfolding get_missing_from_other get_upgraded_in_other get_downgraded_in_other
  on_install_complete d = record d {
    installed = get_missing_from_other d.new_lock.install_cache d.lock.install_cache;
    uninstalled = get_missing_from_other d.lock.install_cache d.new_lock.install_cache;
    upgraded = get_upgraded_in_other src.semver d.lock.install_cache d.new_lock.install_cache;
    downgraded = get_downgraded_in_other src.semver d.lock.install_cache d.new_lock.install_cache;
    lock = d.new_lock;
  }

  abbrev pub is_new : Option (Mod V) → Bool
  is_new none = true
  is_new (some m) = false

  -- A panic leaves the lock as it is.
  unfoldable pub completed :
      Answer (List InstallError) × InstallData V → Answer Unit × InstallData V
  unfolding on_install_complete
  completed (answer errors, d) = no_errors errors (on_install_complete d)
  completed (failed err, d) = (failed err, d)
  completed (panicked p, d) = (panicked p, d)

  -- One round of the loop of `installMods`.
  unfoldable pub install_required :
      (fuel : ℕ) → (updating : Bool) → (parent : Mod V) → Required → Installing V Unit
  unfolding install_mod_dependences_recursively get_currently_installed_version_to_use
  install_required fuel updating parent required =
      get_currently_installed_version_to_use src required parent updating >>= λ m.
      install_mod_dependences_recursively fuel required m parent (is_new m)

  unfoldable pub install_mods :
      (fuel : ℕ) → (updating : Bool) → List Required → (parent : Mod V) → Installing V Unit
  unfolding install_required each completed
  install_mods fuel updating mods parent d =
      completed (each (install_required fuel updating parent) mods d)

-- ===== src/Mods/Installer.antt =====
-- modinstaller: `installMods` and what it calls, over the lock of Mods/Lock and the requirements of
-- Mods/Require. Git, the file system, the parsing of mod files and the semver library are `Sources`. A
-- version is a pointer, so the nil version of a mod file without one is a version too. A panic ends the
-- whole call, while errors of single mods are collected. Dependencies that go round in a circle never
-- come to an end, so the recursion takes fuel. Saving and copying of files is left out.
pub mod Versions
pub mod Install
pub mod After
pub mod Sound
pub mod Locked
pub mod Ends
pub mod Fuel
mod Tests
use steampipe.Prelude.Dict.{Dict, lookup, insert}
use steampipe.Mods.Require.{Require, Required, get_mod_dependency}
use steampipe.Mods.Lock.{
  Semver, WorkspaceLock, VersionListMap, DependencyVersionMap, ResolvedVersionConstraint, add,
  get_missing_from_other, empty_workspace_lock, get_locked_mod_version, ModVersionConstraint,
}
use steampipe.Mods.Lock.Installed.{
  mod_version_full_name, get_upgraded_in_other, get_downgraded_in_other,
}
use steampipe.Prelude.{
  String, List, [], Bool, Option, ◌∷◌, ◌⊎◌, ◌++◌, none, if◌then◌else◌, some, ℕ, length, not, false,
  ◌||◌, inr, ◌&&◌, string_eq, ◌==◌, inl, true, suc, zero,
}
use steampipe.Prelude.Text.{◌+++◌}

pub record Mod (V : Type 0) : Type 0 where
  pub dependency_path : String  -- GetModDependencyPath
  pub version : V
  pub require : Require

pub record Sources (V : Type 0) : Type 0 where
  pub semver : Semver V
  pub new_version : String → Option V
  pub check : (constraint : String) → V → Bool
  pub tags : (url : String) → Option (List String)  -- getTags
  -- the mod file of a version that is cloned to the temporary folder
  pub clone : (name : String) → V → Option (Mod V) ⊎ String
  -- the mod file in a folder of the mods path
  pub load : (full_name : String) → Option (Mod V) ⊎ String
  -- paths relative to the mods path
  pub tmp_path : String
  pub mod_path : (full_name : String) → String

pub record ResolvedModRef (V : Type 0) : Type 0 where
  pub name : String
  pub version : V

pub record InstallData (V : Type 0) : Type 0 where
  pub lock : WorkspaceLock V
  pub new_lock : WorkspaceLock V
  pub all_available : VersionListMap V
  pub installed : DependencyVersionMap V
  pub upgraded : DependencyVersionMap V
  pub downgraded : DependencyVersionMap V
  pub uninstalled : DependencyVersionMap V

pub data InstallError : Type 0 where
  no_version_data : (name : String) → InstallError
  no_version_satisfies : (name constraint : String) → InstallError
  load_failed : String → InstallError
  no_mod_definition : (name : String) → InstallError
  dependencies_failed : (count : ℕ) → InstallError  -- the messages below it are left out

pub data Panic : Type 0 where
  nil_pointer : Panic
  out_of_fuel : Panic

pub data Answer (A : Type 0) : Type 0 where
  answer : A → Answer A
  failed : InstallError → Answer A
  panicked : Panic → Answer A

-- A step of the installation; what it has written stays when it fails.
abbrev pub Installing : Type 0 → Type 0 → Type 0
Installing V A = InstallData V → Answer A × InstallData V

abbrev pub then_install :
    {V A B : Type 0} → (A → Installing V B) → Answer A × InstallData V → Answer B × InstallData V
then_install f (answer a, d) = f a d
then_install f (failed err, d) = (failed err, d)
then_install f (panicked p, d) = (panicked p, d)

infixl 5 ◌>>=◌
abbrev pub ◌>>=◌ : {V A B : Type 0} → Installing V A → (A → Installing V B) → Installing V B
◌>>=◌ m f d = then_install f (m d)

abbrev pub done : {V A : Type 0} → A → Installing V A
done a d = (answer a, d)

abbrev pub fail : {V A : Type 0} → InstallError → Installing V A
fail err d = (failed err, d)

abbrev pub panic : {V A : Type 0} → Panic → Installing V A
panic p d = (panicked p, d)

-- `errors = append(errors, err)` and `continue`
abbrev pub collected :
    {V : Type 0} → Answer Unit × InstallData V → Answer (List InstallError) × InstallData V
collected (answer u, d) = (answer [], d)
collected (failed err, d) = (answer (err ∷ []), d)
collected (panicked p, d) = (panicked p, d)

-- The loop over required mods, which goes on after an error.
unfoldable pub each :
    {V : Type 0} → (Required → Installing V Unit) → List Required → Installing V (List InstallError)
each f [] d = (answer [], d)
each f (required ∷ mods) d =
    then_install (λ errors. each f mods >>= λ more. done (errors ++ more))
      (collected (f required d))

abbrev pub no_errors : {V : Type 0} → List InstallError → Installing V Unit
no_errors [] = done tt
no_errors (err ∷ errors) = fail (dependencies_failed (length (err ∷ errors)))

unfoldable pub new_install_data : {V : Type 0} → WorkspaceLock V → InstallData V
unfolding empty_workspace_lock
new_install_data lock = record {
  lock = lock;
  new_lock = empty_workspace_lock lock;
  all_available = [];
  installed = [];
  upgraded = [];
  downgraded = [];
  uninstalled = [];
}

unfoldable pub get_version_satisfying_constraint : {V : Type 0} → (V → Bool) → List V → Option V
get_version_satisfying_constraint check [] = none
get_version_satisfying_constraint check (v ∷ versions) =
    if check v then some v else get_version_satisfying_constraint check versions

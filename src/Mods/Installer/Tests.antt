-- ===== src/Mods/Installer/Tests.antt =====
-- modinstaller: the theorems on installations, for a workspace whose mod `a` requires `b`.
use mathlib.Core.Sum.{inl-injective}
use steampipe.Prelude.{
  ◌≡◌, ◌∷◌, [], All, none, some, ℕ, eqb, ltb, inl, String, List, if◌then◌else◌, Bool, ◌==◌, subst,
  true, ==_refl, false, refl, string_eq, ap, ◌≢◌, arith,
}
use steampipe.Mods.Lock.{Semver, WorkspaceLock, entry}
use steampipe.Mods.Require.{Required, Require}
use steampipe.Mods.Installer.{
  Mod, Sources, Answer, InstallData, answer, new_install_data, panicked, out_of_fuel,
}
use steampipe.Prelude.Dict.{lookup}
use steampipe.Mods.Installer.After.{SourceLaws, IsSound, IsRequire, IsLocked}
use steampipe.Mods.Installer.Install.{install_mods}
use mathlib.Core.Option.{some-injective}
use steampipe.Mods.Installer.Locked.{install_mods-IsLocked}
use steampipe.Mods.Installer.Ends.{IsBelow, IsAcyclic, HasNames}
use steampipe.Mods.Installer.Fuel.{install_mods_ends}

abbrev numbers : Semver ℕ
numbers = record {
  equal = eqb;
  greater_than = λ v w. ltb w v;
  less_than = ltb;
  prerelease = λ v. "";
  metadata = λ v. "";
  major_minor = λ v. if eqb v 1 then "1.0" else "2.0";
  sort_reverse = λ versions. versions;
}

abbrev any_of : String → Required
any_of name = record { name = name; original = "*" }

abbrev only : Required → Require
only required = record { mods = required ∷ []; mod_map = (required.name, required) ∷ [] }

abbrev mod_a : Mod ℕ
mod_a = record { dependency_path = ""; version = 1; require = only (any_of "b") }

abbrev mod_b : Mod ℕ
mod_b = record { dependency_path = ""; version = 1; require = record { mods = []; mod_map = [] } }

abbrev two_mods : Sources ℕ
two_mods = record {
  semver = numbers;
  new_version = λ s. if s == "v1.0" then some 1 else none;
  check = λ c v. true;
  tags = λ url. some ("main" ∷ "v1.0" ∷ []);
  clone = λ name v. inl (some (if name == "a" then mod_a else mod_b));
  load = λ full. inl none;
  tmp_path = "../tmp";
  mod_path = λ full. full;
}

only-IsRequire : (name : String) → IsRequire (only (any_of name))
unfolding lookup
only-IsRequire name = (rw (==_refl name), tt)

cloned-IsRequire : (b : Bool) → IsRequire (if b then mod_a else mod_b).require
cloned-IsRequire true = only-IsRequire "b"
cloned-IsRequire false = tt

abbrev workspace : Mod ℕ
workspace = record { dependency_path = "local"; version = 0; require = only (any_of "a") }

abbrev empty_lock : WorkspaceLock ℕ
empty_lock = record { install_cache = []; missing_versions = []; installed_mods = [] }

-- Version 1 of `a`, 1.0.5, is locked; its folder is read as version 0, 1.0.0, which no constraint
-- admits.
abbrev patched : Sources ℕ
patched = record two_mods {
  check = λ c v. eqb v 1;
  load = λ full. inl (if full == "a@v1.0" then some (record mod_a { version = 0 }) else none);
}

loaded-IsRequire :
    (b : Bool) (m : Mod ℕ)
    → (if b then some (record mod_a { version = 0 }) else none) ≡ some m
    → IsRequire m.require
loaded-IsRequire true m h =
    subst (λ (c : Mod ℕ). IsRequire c.require) (some-injective _ m h) (only-IsRequire "b")
loaded-IsRequire false m h = cc

patched-laws : SourceLaws patched
patched-laws = record {
  load_require = λ full m h. loaded-IsRequire (full == "a@v1.0") m (inl-injective _ (some m) h);
  clone_require = λ n v m h.
      subst (λ (c : Mod ℕ). IsRequire c.require) (some-injective _ m (inl-injective _ (some m) h))
        (cloned-IsRequire (n == "a"));
}

abbrev locked_a : WorkspaceLock ℕ
locked_a = record empty_lock {
  install_cache = ("local", ("a", record { name = "a"; version = 1; constraint = "*" }) ∷ []) ∷ [];
}

abbrev result : Answer Unit × InstallData ℕ
result = install_mods patched 2 false workspace.require.mods workspace (new_install_data locked_a)

ends_well : result.0 ≡ answer tt
unfolding install_mods lookup new_install_data steampipe.Mods.Installer.Versions.sorted_versions
    string_eq steampipe.Prelude.Dict.insert
ends_well = refl

-- The new lock has the version that was read.
locks_other :
    entry "local" "a" result.1.lock.install_cache
    ≡ some (record { name = "a"; version = 0; constraint = "*" })
unfolding install_mods lookup new_install_data steampipe.Mods.Installer.Versions.sorted_versions
    string_eq steampipe.Prelude.Dict.insert
locks_other = refl

install_mods-IsLocked_example :
    IsSound patched locked_a result.1.lock × All (IsLocked "local" result.1.lock) (any_of "a" ∷ [])
install_mods-IsLocked_example =
    install_mods-IsLocked patched locked_a patched-laws 2 false workspace result.1
      (only-IsRequire "a") (ap (λ (a : Answer Unit). (a, result.1)) ends_well)

-- `a` is above all others.
abbrev rank : String → ℕ
rank name = if name == "a" then 1 else 0

cloned-IsBelow :
    (b : Bool)
    → IsBelow two_mods rank (if b then 1 else 0) (if b then mod_a else mod_b).require.mods
unfolding string_eq
cloned-IsBelow true = (omega arith, tt)
cloned-IsBelow false = tt

two_mods-IsAcyclic : IsAcyclic two_mods rank
two_mods-IsAcyclic = record {
  cloned = λ n v m h.
      subst (λ (c : Mod ℕ). IsBelow two_mods rank (rank n) c.require.mods)
        (some-injective _ m (inl-injective _ (some m) h)) (cloned-IsBelow (n == "a"));
  loaded = λ n v m h. cc;
}

empty_lock-HasNames : HasNames two_mods rank empty_lock
unfolding lookup
empty_lock-HasNames p n e h = cc

install_mods_ends_example :
    install_mods two_mods 2 false workspace.require.mods workspace (new_install_data empty_lock)
    ≢ (panicked out_of_fuel, result.1)
unfolding string_eq
install_mods_ends_example =
    install_mods_ends two_mods rank two_mods-IsAcyclic 2 false workspace.require.mods workspace
      empty_lock result.1 empty_lock-HasNames (omega arith, tt)

-- ===== src/Mods/Lock/Tests.antt =====
-- versionmap: the theorems at a lock with two dependencies, one of them not installed.
-- A version is its minor number, 1 or 2.
use steampipe.Mods.Lock.{
  Semver, ResolvedVersionConstraint, WorkspaceLock, ModVersionConstraint, entry, add, remove,
}
use steampipe.Mods.Lock.Installed.{
  set_missing, is_installed, set_missing_parents, flat_names, move_missing, visit,
}
use steampipe.Mods.Lock.Visits.{Moves, moved}
use steampipe.Mods.Lock.Missing.{set_missing-Moves, set_missing-is_installed}
use steampipe.Prelude.Dict.{lookup, lookup-nil}
use steampipe.Prelude.{
  ℕ, string_eq, ◌≡◌, eqb, ◌∷◌, true, inl, ltb, [], some, if◌then◌else◌, refl, ◌⊎◌, ◌==◌, false,
  ◌&&◌, inr, any, none,
}

abbrev minors : Semver ℕ
minors = record {
  equal = eqb;
  greater_than = λ v w. ltb w v;
  less_than = ltb;
  prerelease = λ v. "";
  metadata = λ v. "";
  major_minor = λ v. if eqb v 1 then "1.1" else "1.2";
  sort_reverse = λ versions. versions;
}

abbrev aws : ResolvedVersionConstraint ℕ
aws = record { name = "aws"; version = 1; constraint = "*" }

abbrev gcp : ResolvedVersionConstraint ℕ
gcp = record { name = "gcp"; version = 2; constraint = "^1" }

abbrev lock : WorkspaceLock ℕ
lock = record {
  install_cache = ("local", ("aws", aws) ∷ ("gcp", gcp) ∷ []) ∷ [];
  missing_versions = [];
  installed_mods = ("aws", 1 ∷ []) ∷ ("gcp", 1 ∷ []) ∷ [];
}

-- Version 2 of `gcp` is locked, and version 1 is installed.
lock_missing : set_missing minors lock ≡ record lock {
  install_cache = ("local", ("aws", aws) ∷ []) ∷ [];
  missing_versions = ("local", ("gcp", gcp) ∷ []) ∷ [];
}
unfolding set_missing set_missing_parents flat_names string_eq visit move_missing add remove lookup
    steampipe.Prelude.Dict.insert steampipe.Prelude.Dict.erase
lock_missing = refl

set_missing-Moves_example :
    Moves minors
      (moved minors (flat_names minors lock.installed_mods) lock.install_cache "local" "gcp")
      "local"
      "gcp"
      lock
      (set_missing minors lock)
set_missing-Moves_example =
    set_missing-Moves minors lock "local" "gcp" (lookup-nil "local", tt) ((refl, (refl, tt)), tt)

aws_left : entry "local" "aws" (set_missing minors lock).install_cache ≡ some aws
unfolding lookup string_eq
aws_left = rw lock_missing

set_missing-is_installed_example :
    is_installed minors (flat_names minors lock.installed_mods) "aws" aws ≡ true
set_missing-is_installed_example =
    set_missing-is_installed minors lock "local" "aws" aws ((refl, (refl, tt)), tt) aws_left

abbrev wants_one : ModVersionConstraint ℕ
wants_one = record { name = "gcp"; check = λ v. eqb v 1; original = "1" }

-- ===== src/Mods/Lock/Missing.antt =====
-- workspace_lock.go: which entries `setMissing` moves.
use mathlib.Core.Bool.{true≢false}
use steampipe.Prelude.{
  string_eq, List, String, All, false, ◌∷◌, [], ◌≡◌, some, true, ◌==◌, refl, ◌∙◌, ap, sym, eq_of_==,
  arith, Bool-cases, ==_refl,
}
use steampipe.Mods.Lock.{
  Semver, ResolvedVersionMap, WorkspaceLock, ResolvedVersionConstraint, DependencyVersionMap, entry,
  inl, inr,
}
use steampipe.Mods.Lock.Installed.{is_installed, set_missing, flat_names}
use steampipe.Prelude.Dict.{lookup, NodupKeys}
use mathlib.Core.Option.{some-injective, none-ne-some}
use steampipe.Mods.Lock.Visits.{
  Moves, moved, moved_deps, IsNamed, parents-Removes, parents-Adds, moved-listed,
}

module _ {V : Type 0} (semver : Semver V) where
  -- `setMissing` on an install cache that has each parent once and each entry under the name of its
  -- constraint, for each parent and name: if the parent has a dependency of that name whose full
  -- name is not among the installed mods, then the entry is gone from the install cache and there is
  -- one among the missing versions; otherwise the entry is as it was, and there is one among the
  -- missing versions exactly if there was one.
  pub set_missing-Moves :
      (l : WorkspaceLock V) (p n : String)
      → NodupKeys l.install_cache
      → All (λ (e : String × ResolvedVersionMap V). IsNamed semver e.1) l.install_cache
      → Moves semver
          (moved semver (flat_names semver l.installed_mods) l.install_cache p n)
          p
          n
          l
          (set_missing semver l)
  unfolding set_missing
  set_missing-Moves l p n distinct named =
      let flat = flat_names semver l.installed_mods in
      (
        parents-Removes semver flat p n l.install_cache l named,
        parents-Adds semver flat p n l.install_cache l named
            (λ e. rw (moved-listed semver flat p n l.install_cache distinct named e) refl),
      )

  moved_deps-lookup :
      (flat : List String) (p n : String) (deps : ResolvedVersionMap V)
      (c : ResolvedVersionConstraint V)
      → IsNamed semver deps
      → lookup n deps ≡ some c
      → is_installed semver flat n c ≡ false
      → moved_deps semver flat p deps p n ≡ true
  unfolding lookup
  moved_deps-lookup flat p n [] c named h missing = cc
  moved_deps-lookup flat p n ((name, d) ∷ deps) c (same, named) h missing =
      elim (Bool-cases (name == n)) [
        | inl e ↦
            let d_c : d ≡ c = some-injective _ _ (sym (rw e) ∙ h) in
            let gone : is_installed semver flat name d ≡ false =
              ap (λ (q : String). is_installed semver flat q d) (eq_of_== name n e)
              ∙ ap (λ (x : ResolvedVersionConstraint V). is_installed semver flat n x) d_c
              ∙ missing in
            let named_n : (d.name == n) ≡ true = ap (λ (q : String). q == n) same ∙ e in
            rw (gone, named_n, ==_refl p)
        | inr e ↦
            let rest = moved_deps-lookup flat p n deps c named (sym (rw e) ∙ h) missing in
            ground arith
      ]

  moved-lookup :
      (flat : List String) (p n : String) (cache : DependencyVersionMap V)
      (c : ResolvedVersionConstraint V)
      → All (λ (e : String × ResolvedVersionMap V). IsNamed semver e.1) cache
      → entry p n cache ≡ some c
      → is_installed semver flat n c ≡ false
      → moved semver flat cache p n ≡ true
  unfolding lookup
  moved-lookup flat p n [] c named h missing = cc
  moved-lookup flat p n ((parent, deps) ∷ cache) c (here, named) h missing =
      elim (Bool-cases (parent == p)) [
        | inl e ↦
            let found : lookup n deps ≡ some c = sym (rw e) ∙ h in
            let rest : moved_deps semver flat parent deps p n ≡ true =
              ap (λ (q : String). moved_deps semver flat q deps p n) (eq_of_== parent p e)
              ∙ moved_deps-lookup flat p n deps c here found missing in
            rw rest
        | inr e ↦
            let beside : entry p n cache ≡ some c = sym (rw e) ∙ h in
            let rest = moved-lookup flat p n cache c named beside missing in ground arith
      ]

  -- If each entry stands under its constraint's name, all that `setMissing` leaves in the install
  -- cache is installed.
  pub set_missing-is_installed :
      (l : WorkspaceLock V) (p n : String) (c : ResolvedVersionConstraint V)
      → All (λ (e : String × ResolvedVersionMap V). IsNamed semver e.1) l.install_cache
      → entry p n (set_missing semver l).install_cache ≡ some c
      → is_installed semver (flat_names semver l.installed_mods) n c ≡ true
  unfolding set_missing
  set_missing-is_installed l p n c named h =
      let flat = flat_names semver l.installed_mods in
      let kept = parents-Removes semver flat p n l.install_cache l named in
      elim (Bool-cases (is_installed semver flat n c)) [
        | inl fine ↦ fine
        | inr missing ↦ elim (Bool-cases (moved semver flat l.install_cache p n)) [
          | inl lost ↦ absurd (none-ne-some c (sym (kept ∙ rw lost) ∙ h))
          | inr left ↦ absurd (
              true≢false (
                sym
                  (moved-lookup flat p n l.install_cache c named (sym (kept ∙ rw left) ∙ h) missing)
                ∙ left))
        ]
      ]

-- ===== src/Mods/Installer/Sound.antt =====
-- modinstaller: what an installation writes to the new lock.
use steampipe.Prelude.{
  ◌≡◌, ◌∷◌, [], String, Option, Bool, List, some, true, inl, Bool-cases, none, sym, ◌⊎◌, ◌∙◌, ◌||◌,
  string_eq, ap, refl, not, ◌==◌, false,
}
use mathlib.Core.Option.{some-injective, some}
use steampipe.Mods.Installer.{
  Sources, get_version_satisfying_constraint, ResolvedModRef, Mod, InstallData, inr,
}
use steampipe.Mods.Lock.{
  ResolvedVersionConstraint, if_met, get_locked_mod_version, WorkspaceLock, entry, get_mod,
}
use steampipe.Prelude.Dict.{lookup}
use steampipe.Mods.Require.{Required}
use steampipe.Mods.Installer.Versions.{
  get_available_mod_versions, get_mod_ref_satisfying_constraints, can_update_mod, update_available,
  ref_of, load_dependency_mod, locked_or_none, mod_constraint,
  get_currently_installed_version_to_use, cache_versions, from_cache, loaded_mod, unless_update,
  get_tag_versions_from_git, is_prerelease_constraint,
}
use steampipe.Mods.Installer.After.{
  IsGood, IsRequire, After, Any, same, After-then, SourceLaws, IsAdmitted,
}
use steampipe.Prelude.Text.{◌+++◌}

module _ {V : Type 0} (src : Sources V) (old : WorkspaceLock V) where
  -- The mod that is there admits the constraint.
  abbrev pub Fits : String → Required → Option (Mod V) → Type 0
  Fits path required none = Unit
  Fits path required (some m) =
      IsAdmitted src old path required.name required.original m.version × IsRequire m.require

  cache_versions-After :
      (name : String) (o : Option (List V)) (d : InstallData V)
      → IsGood src old d
      → After src old d (Any src old) (cache_versions src name o d)
  cache_versions-After name none d sound = (sound, same src old d)
  cache_versions-After name (some versions) d sound = (sound, same src old d, tt)

  from_cache-After :
      (name : String) (pre : Bool) (o : Option (List V)) (d : InstallData V)
      → IsGood src old d
      → After src old d (Any src old) (from_cache src name pre o d)
  unfolding from_cache
  from_cache-After name pre none d sound =
      cache_versions-After name (get_tag_versions_from_git src ("https://" +++ name) pre) d sound
  from_cache-After name pre (some versions) d sound = (sound, same src old d, tt)

  pub versions-After :
      (name : String) (pre : Bool) (d : InstallData V)
      → IsGood src old d
      → After src old d (Any src old) (get_available_mod_versions src name pre d)
  unfolding get_available_mod_versions
  versions-After name pre d sound = from_cache-After name pre (lookup name d.all_available) d sound

  satisfying :
      (check : V → Bool) (versions : List V) (v : V)
      → get_version_satisfying_constraint check versions ≡ some v
      → check v ≡ true
  unfolding get_version_satisfying_constraint
  satisfying check [] v h = cc
  satisfying check (w ∷ versions) v h = elim (Bool-cases (check w)) [
    | inl e ↦ let is : w ≡ v = some-injective w v (sym (rw e) ∙ h) in ap check (sym is) ∙ e
    | inr e ↦ satisfying check versions v (sym (rw e) ∙ h)
  ]

  abbrev pub IsRefOf : Required → ResolvedModRef V → InstallData V → Type 0
  IsRefOf required ref d =
      (ref.name ≡ required.name) × (src.check required.original ref.version ≡ true)

  ref_of-After :
      (required : Required) (o : Option V) (d : InstallData V)
      → ((v : V) → o ≡ some v → src.check required.original v ≡ true)
      → IsGood src old d
      → After src old d (IsRefOf required) (ref_of src required o d)
  ref_of-After required none d checked sound = (sound, same src old d)
  ref_of-After required (some v) d checked sound = (sound, same src old d, (refl, checked v refl))

  pub ref-After :
      (required : Required) (versions : List V) (d : InstallData V)
      → IsGood src old d
      → After src old d
          (IsRefOf required)
          (get_mod_ref_satisfying_constraints src required versions d)
  unfolding get_mod_ref_satisfying_constraints
  ref-After required versions d sound =
      ref_of-After required _ d (satisfying (src.check required.original) versions) sound

  can_update-After :
      (locked : ResolvedVersionConstraint V) (required : Required) (force : Bool)
      (d : InstallData V)
      → IsGood src old d
      → After src old d (Any src old) (can_update_mod src locked required force d)
  unfolding can_update_mod update_available
  can_update-After locked required force d sound =
      elim (Bool-cases (force || not (locked.constraint == required.original))) [
        | inl e ↦ rw e (
            After-then src old d (Any src old) (Any src old)
              (update_available src required locked.version) _
              (versions-After required.name (is_prerelease_constraint src required) d sound)
              (λ versions e' sound' g q.
                After-then src old e' (IsRefOf required) (Any src old) _ _
                  (ref-After required versions e' sound')
                  (λ ref e'' sound'' g' q'. (sound'', same src old e'', tt))))
        | inr e ↦ rw e (sound, same src old d, tt)
      ]

  module _ (laws : SourceLaws src) where
    loaded-After :
        (parent : String) (required : Required) (path : String) (o : Option (Mod V) ⊎ String)
        (d : InstallData V)
        → ((m : Mod V) → o ≡ inl (some m) → Fits parent required (some m))
        → IsGood src old d
        → After src old d (λ m e. Fits parent required m) (loaded_mod src path o d)
    loaded-After parent required path (inr err) d fits sound = (sound, same src old d)
    loaded-After parent required path (inl none) d fits sound = (sound, same src old d)
    loaded-After parent required path (inl (some m)) d fits sound =
        (sound, same src old d, fits m refl)

    unless_update-After :
        (parent : String) (required : Required) (locked : ResolvedVersionConstraint V) (b : Bool)
        (d : InstallData V)
        → entry parent required.name old.install_cache ≡ some locked
        → src.check required.original locked.version ≡ true
        → IsGood src old d
        → After src old d (λ m e. Fits parent required m) (unless_update src locked b d)
    unfolding load_dependency_mod unless_update
    unless_update-After parent required locked true d at_old met sound = (sound, same src old d, tt)
    unless_update-After parent required locked false d at_old met sound =
        loaded-After parent required _ _ d
          (λ m is. (inr (locked, m, at_old, met, is, refl), laws.load_require _ m is)) sound

    locked_or_none-After :
        (parent : String) (required : Required) (force : Bool)
        (o : Option (ResolvedVersionConstraint V)) (d : InstallData V)
        → ((locked : ResolvedVersionConstraint V)
            → o ≡ some locked
            → (entry parent required.name old.install_cache ≡ some locked)
              × (src.check required.original locked.version ≡ true))
        → IsGood src old d
        → After src old d (λ m e. Fits parent required m) (locked_or_none src required force o d)
    unfolding locked_or_none
    locked_or_none-After parent required force none d met sound = (sound, same src old d, tt)
    locked_or_none-After parent required force (some locked) d met sound =
        After-then src old d (Any src old) _ _ _ (can_update-After locked required force d sound)
          (λ b e sound' g q.
            let (at_old, is_met) = met locked refl in
            unless_update-After parent required locked b e at_old is_met sound')

    no_version : {A B : Type 0} (a : A) → none ≡ some a → B
    no_version a h = absurd cc

    met_check :
        (required : Required) (o : Option (ResolvedVersionConstraint V))
        (locked : ResolvedVersionConstraint V)
        → if_met (mod_constraint src required) o ≡ some locked
        → (o ≡ some locked) × (src.check required.original locked.version ≡ true)
    met_check required none locked h = cc
    met_check required (some c) locked h =
        elim (Bool-cases (src.check required.original c.version)) [
          | inl e ↦
              let is : c ≡ locked = some-injective c locked (sym (rw e) ∙ h) in
              (
                ap some is,
                ap (λ (l : ResolvedVersionConstraint V). src.check required.original l.version)
                      (sym is)
                    ∙ e,
              )
          | inr e ↦ no_version locked (sym (rw e) ∙ h)
        ]

    pub current-After :
        (required : Required) (parent : Mod V) (force : Bool) (d : InstallData V)
        → IsGood src old d
        → After src old d
            (λ m e. Fits parent.dependency_path required m)
            (get_currently_installed_version_to_use src required parent force d)
    unfolding get_currently_installed_version_to_use get_locked_mod_version get_mod
    current-After required parent force d sound =
        locked_or_none-After parent.dependency_path required force _ d
          (λ locked h.
            let (at_d, met) = met_check required _ locked h in
            (
              ap
                    (λ (l : WorkspaceLock V).
                      entry parent.dependency_path required.name l.install_cache)
                    (sym sound.0)
                  ∙ at_d,
              met,
            ))
          sound

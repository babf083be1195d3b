-- ===== src/Mods/Installer/Locked.antt =====
-- modinstaller: `installMods` locks the mods that are required.
use steampipe.Prelude.{
  ◌≡◌, ◌∷◌, [], All, Bool, String, ◌&&◌, Option, true, some, false, if◌then◌else◌, refl, ap, sym,
  ◌==◌, ◌∙◌, eq_of_==, ==_refl, string_eq, List, ℕ, ◌⊎◌, subst, inl, none, zero,
}
use steampipe.Prelude.Options.{is_some}
use steampipe.Mods.Installer.{
  answer, failed, panicked, Sources, InstallData, ResolvedModRef, Installing, Mod, InstallError,
  no_errors, suc, inr, then_install, Answer, new_install_data,
}
use steampipe.Mods.Lock.{
  entry, WorkspaceLock, ResolvedVersionConstraint, empty_workspace_lock, ResolvedVersionMap,
  or_nil_map,
}
use steampipe.Mods.Lock.Changes.{entry-add}
use steampipe.Mods.Installer.Sound.{Fits, IsRefOf, ref-After, current-After, versions-After}
use steampipe.Prelude.Dict.{lookup, lookup-nil}
use steampipe.Mods.Installer.Install.{
  add_existing, installed_at, cloned_mod, install_or_use, install_mod_dependences_recursively,
  install, completed, install_mods, on_install_complete, install_required, is_new,
}
use steampipe.Mods.Require.{Required, get_mod_dependency}
use steampipe.Mods.Installer.After.{
  IsAdmitted, IsSound, After, IsLocked, SourceLaws, IsRequire, same, After-then, Any, each-After,
  IsGood,
}
use mathlib.Core.Option.{some-injective, none-ne-some}
use steampipe.Mods.Installer.Versions.{
  get_currently_installed_version_to_use, is_prerelease_constraint,
}

module _ {V : Type 0} (src : Sources V) (old : WorkspaceLock V) where
  sound_entry :
      (b : Bool) (p name n original : String) (v : V) (o : Option (ResolvedVersionConstraint V))
      (e : ResolvedVersionConstraint V)
      → (b ≡ true → (name ≡ n) × IsAdmitted src old p n original v)
      → (o ≡ some e → (e.name ≡ n) × IsAdmitted src old p n e.constraint e.version)
      → (if b then some (record { name = name; version = v; constraint = original }) else o)
        ≡ some e
      → (e.name ≡ n) × IsAdmitted src old p n e.constraint e.version
  sound_entry true p name n original v o e met known h =
      subst
        (λ (c : ResolvedVersionConstraint V).
          (c.name ≡ n) × IsAdmitted src old p n c.constraint c.version)
        (some-injective _ _ h) (met refl)
  sound_entry false p name n original v o e met known h = known h

  nothing_locked :
      {B : Type 0} (p n : String) (e : ResolvedVersionConstraint V) → entry p n [] ≡ some e → B
  nothing_locked p n e h =
      let none_there : entry {V = V} p n [] ≡ none =
        ap (λ (o : Option (ResolvedVersionMap V)). lookup n (or_nil_map o)) (lookup-nil p)
        ∙ lookup-nil n in
      absurd (none-ne-some e (sym none_there ∙ h))

  both_true : (a b : Bool) → (a && b) ≡ true → (a ≡ true) × (b ≡ true)
  both_true true b h = (refl, h)
  both_true false b h = cc

  some_if :
      {A : Type 0} (b : Bool) (a : A) (o : Option A)
      → is_some o ≡ true
      → is_some (if b then some a else o) ≡ true
  some_if true a o h = refl
  some_if false a o h = h

  -- An admitted version is added.
  add_existing-After :
      {A : Type 0} (a : A) (required : Required) (name : String) (v : V) (path : String)
      (d : InstallData V)
      → name ≡ required.name
      → IsAdmitted src old path required.name required.original v
      → IsGood src old d
      → After src old d
          (λ (m : A) e. IsLocked path e.new_lock required)
          (answer a, add_existing src name v required.original path d)
  unfolding add_existing
  add_existing-After a required name v path d is met sound = (
    (
      sound.0,
      λ p n e h.
          sound_entry ((path == p) && (name == n)) p name n required.original v
            (entry p n d.new_lock.install_cache) e (λ both. here p n both) (sound.1 p n e)
            (sym (entry-add p n name v required.original path d.new_lock.install_cache) ∙ h),
    ),
    λ p n has.
        ap is_some (entry-add p n name v required.original path d.new_lock.install_cache)
        ∙ some_if ((path == p) && (name == n)) _ (entry p n d.new_lock.install_cache) has,
    ap is_some (entry-add path required.name name v required.original path d.new_lock.install_cache)
        ∙ rw (is, ==_refl path, ==_refl required.name) refl,
  )
    where
      here :
          (p n : String)
          → ((path == p) && (name == n)) ≡ true
          → (name ≡ n) × IsAdmitted src old p n required.original v
      here p n both =
          let (at_p, at_n) = both_true (path == p) (name == n) both in
          let named : name ≡ n = eq_of_== name n at_n in
          (
            named,
            subst (λ q. IsAdmitted src old q n required.original v) (eq_of_== path p at_p)
                (subst (λ q. IsAdmitted src old path q required.original v) (sym is ∙ named) met),
          )

  installed_at-After :
      (ref : ResolvedModRef V) (path : String) (o : Option Required) (required : Required)
      (m : Mod V) (d : InstallData V)
      → o ≡ some required
      → IsRefOf src old required ref d
      → IsRequire m.require
      → IsGood src old d
      → After src old d
          (λ used e. IsRequire used.require × IsLocked path e.new_lock required)
          (installed_at src ref path o m d)
  unfolding installed_at
  installed_at-After ref path none required m d is is_ref fits sound = cc
  installed_at-After ref path (some r) required m d is (name, met) fits sound =
      let same_required : r ≡ required = some-injective r required is in
      let (sound', g, locked) =
        add_existing-After m required ref.name ref.version path d name (inl met) sound in
      subst
        (λ (r' : Required).
          After src old d (λ used e. IsRequire used.require × IsLocked path e.new_lock required)
            (answer m, add_existing src ref.name ref.version r'.original path d))
        (sym same_required) (sound', g, (fits, locked))

  module _ (laws : SourceLaws src) where
    cloned_mod-After :
        (ref : ResolvedModRef V) (parent : Mod V) (required : Required)
        (o : Option (Mod V) ⊎ String) (d : InstallData V)
        → ((m : Mod V) → o ≡ inl (some m) → IsRequire m.require)
        → lookup required.name parent.require.mod_map ≡ some required
        → IsRefOf src old required ref d
        → IsGood src old d
        → After src old d
            (λ used e. IsRequire used.require × IsLocked parent.dependency_path e.new_lock required)
            (cloned_mod src ref parent o d)
    unfolding cloned_mod get_mod_dependency
    cloned_mod-After ref parent required (inr err) d fits has is_ref sound = (sound, same src old d)
    cloned_mod-After ref parent required (inl none) d fits has is_ref sound =
        (sound, same src old d)
    cloned_mod-After ref parent required (inl (some m)) d fits has is_ref sound =
        installed_at-After ref parent.dependency_path _ required _ d
          (ap (λ (n : String). lookup n parent.require.mod_map) is_ref.0 ∙ has) is_ref (fits m refl)
          sound

    install_or_use-After :
        (required : Required) (m : Option (Mod V)) (parent : Mod V) (versions : List V)
        (d : InstallData V)
        → Fits src old parent.dependency_path required m
        → lookup required.name parent.require.mod_map ≡ some required
        → IsGood src old d
        → After src old d
            (λ used e. IsRequire used.require × IsLocked parent.dependency_path e.new_lock required)
            (install_or_use src required m parent versions d)
    unfolding install_or_use install
    install_or_use-After required none parent versions d fits has sound =
        After-then src old d (IsRefOf src old required) _ _ _
          (ref-After src old required versions d sound)
          (λ ref e sound' g is_ref.
            cloned_mod-After ref parent required _ e (laws.clone_require ref.name ref.version) has
              is_ref sound')
    install_or_use-After required (some m) parent versions d (met, fits) has sound =
        let (sound', g, locked) =
          add_existing-After m required required.name m.version parent.dependency_path d refl met
            sound in
        (sound', g, (fits, locked))

    no_errors-After :
        (errors : List InstallError) (d : InstallData V) (Q : InstallData V → Type 0)
        → IsGood src old d
        → (errors ≡ [] → Q d)
        → After src old d (λ (u : Unit) e. Q e) (no_errors errors d)
    no_errors-After [] d Q sound q = (sound, same src old d, q refl)
    no_errors-After (err ∷ errors) d Q sound q = (sound, same src old d)

    abbrev Locks : String → Required → Installing V Unit → Type 0
    Locks path required f =
        (d : InstallData V)
        → IsGood src old d
        → After src old d (λ (u : Unit) e. IsLocked path e.new_lock required) (f d)

    -- The rounds of the loop over the mods that `used` requires, given that of the recursive calls.
    children-Locks :
        (used : Mod V) (force : Bool) (next : Required → Option (Mod V) → Installing V Unit)
        → ((dep : Required) (child : Option (Mod V))
            → Fits src old used.dependency_path dep child
            → lookup dep.name used.require.mod_map ≡ some dep
            → Locks used.dependency_path dep (next dep child))
        → (deps : List Required)
        → All (λ (dep : Required). lookup dep.name used.require.mod_map ≡ some dep) deps
        → All
            (λ (dep : Required). Locks used.dependency_path dep (λ d.
              then_install
                (next dep)
                (get_currently_installed_version_to_use src dep used force d)))
            deps
    children-Locks used force next each_next [] h = tt
    children-Locks used force next each_next (dep ∷ deps) (one, more) = (
      λ d sound.
          After-then src old d (λ child e. Fits src old used.dependency_path dep child) _ (next dep)
            _ (current-After src old laws dep used force d sound)
            (λ child e sound' g fits. each_next dep child fits one e sound'),
      children-Locks used force next each_next deps more,
    )

    recursively-After :
        (fuel : ℕ) (required : Required) (m : Option (Mod V)) (parent : Mod V)
        (should_update : Bool)
        → Fits src old parent.dependency_path required m
        → lookup required.name parent.require.mod_map ≡ some required
        → Locks parent.dependency_path required
            (install_mod_dependences_recursively src fuel required m parent should_update)
    unfolding install_mod_dependences_recursively
    recursively-After zero required m parent should_update fits has d sound =
        (sound, same src old d)
    recursively-After (suc fuel) required m parent should_update fits has d sound =
        After-then src old d (Any src old) _ _ _
          (versions-After src old required.name (is_prerelease_constraint src required) d sound)
          (λ versions e sound1 g q.
            After-then src old e
              (λ used e1.
                IsRequire used.require × IsLocked parent.dependency_path e1.new_lock required)
              _ _ _ (install_or_use-After required m parent versions e fits has sound1)
              (λ used e1 sound2 g1 (is_require, locked).
                After-then src old e1
                  (λ errors e2.
                    errors ≡ [] → All (IsLocked used.dependency_path e2.new_lock) used.require.mods)
                  _ _ _
                  (each-After src old used.dependency_path _ used.require.mods e1 sound2 (
                    children-Locks used should_update
                      (λ dep child.
                        install_mod_dependences_recursively src fuel dep child used should_update)
                      (λ dep child fits' has'.
                        recursively-After fuel dep child used should_update fits' has')
                      used.require.mods is_require))
                  (λ errors e2 sound3 g2 all_locked.
                    no_errors-After errors e2
                      (λ e3. IsLocked parent.dependency_path e3.new_lock required) sound3
                      (λ empty. g2 parent.dependency_path required.name locked))))

    completed-All :
        (path : String) (mods : List Required) (d d' : InstallData V)
        (r : Answer (List InstallError) × InstallData V)
        → After src old d (λ errors e. errors ≡ [] → All (IsLocked path e.new_lock) mods) r
        → completed src r ≡ (answer tt, d')
        → IsSound src old d'.lock × All (IsLocked path d'.lock) mods
    unfolding completed on_install_complete
    completed-All path mods d d' (answer [], e) (sound, g, all_locked) h =
        let is : on_install_complete src e ≡ d' = ap (λ (x : Answer Unit × InstallData V). x.1) h in
        subst (λ (x : InstallData V). IsSound src old x.lock × All (IsLocked path x.lock) mods) is
          (sound.1, all_locked refl)
    completed-All path mods d d' (answer (err ∷ errors), e) after h = cc
    completed-All path mods d d' (failed err, e) after h = cc
    completed-All path mods d d' (panicked p, e) after h = cc

    -- When an installation of what a mod requires, which began with the lock `old`, ends without an
    -- error, the lock that it leaves has each of the required mods under that mod. Each entry of the
    -- lock, also those of indirect dependencies, has its name, and a version that the constraint
    -- written beside it admits, or else the version of the mod that is read from the folder of the
    -- version in `old` at the same place, which the constraint admits. It is relied on that mod files
    -- require each name once.
    pub install_mods-IsLocked :
        (fuel : ℕ) (updating : Bool) (parent : Mod V) (d : InstallData V)
        → IsRequire parent.require
        → install_mods src fuel updating parent.require.mods parent (new_install_data old)
          ≡ (answer tt, d)
        → IsSound src old d.lock × All (IsLocked parent.dependency_path d.lock) parent.require.mods
    unfolding install_mods install_required new_install_data empty_workspace_lock
    install_mods-IsLocked fuel updating parent d is_require h =
        completed-All parent.dependency_path parent.require.mods (new_install_data old) d _
          (each-After src old parent.dependency_path _ parent.require.mods (new_install_data old)
            (refl, λ p n e h'. nothing_locked p n e h')
            (children-Locks parent updating
              (λ dep m. install_mod_dependences_recursively src fuel dep m parent (is_new src m))
              (λ dep m fits has. recursively-After fuel dep m parent (is_new src m) fits has)
              parent.require.mods is_require))
          h

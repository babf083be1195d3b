-- ===== src/Mods/Installer/Fuel.antt =====
-- modinstaller: the recursion over the dependencies comes to an end.
use steampipe.Prelude.{
  ◌≡◌, ◌∷◌, [], All, String, ℕ, List, Bool, Option, some, ◌⊎◌, inl, ◌<◌, subst, Bool-cases, none,
  arith, true, refl, sym, false, ◌∙◌, ap, zero, ◌≢◌,
}
use mathlib.Core.Option.{some-injective, none-ne-some}
use steampipe.Mods.Installer.{
  answer, failed, panicked, out_of_fuel, Sources, each, Mod, ResolvedModRef, Installing,
  InstallError, InstallData, Answer, no_errors, inr, collected, then_install, suc, new_install_data,
}
use steampipe.Mods.Lock.{
  WorkspaceLock, ResolvedVersionConstraint, if_met, get_locked_mod_version, get_mod,
}
use steampipe.Mods.Installer.Ends.{
  Ends, IsLow, Any, IsAcyclic, loaded-Ends, Ends-then, IsBelow, can_update-Ends, ref-Ends,
  versions-Ends, HasNames,
}
use steampipe.Mods.Installer.Versions.{
  load_dependency_mod, locked_or_none, get_currently_installed_version_to_use, unless_update,
  mod_constraint, is_prerelease_constraint,
}
use steampipe.Mods.Require.{Required}
use steampipe.Mods.Installer.Install.{
  installed_at, cloned_mod, install_or_use, install_mod_dependences_recursively, add_existing,
  install, completed, install_mods, install_required, is_new,
}

module _ {V : Type 0} (src : Sources V) (rank : String → ℕ) (acyclic : IsAcyclic src rank) where
  unless_update-Ends :
      (l : WorkspaceLock V) (required : Required) (locked : ResolvedVersionConstraint V) (b : Bool)
      (d : InstallData V)
      → d.lock ≡ l
      → locked.name ≡ required.name
      → Ends src rank l (IsLow src rank required) (unless_update src locked b d)
  unfolding load_dependency_mod unless_update
  unless_update-Ends l required locked true d is named = (is, tt)
  unless_update-Ends l required locked false d is named =
      loaded-Ends src rank l required _ _ d is (λ m found.
        subst (λ (n : String). IsBelow src rank (rank n) m.require.mods) named
          (acyclic.loaded locked.name locked.version m found))

  locked_or_none-Ends :
      (l : WorkspaceLock V) (required : Required) (force : Bool)
      (o : Option (ResolvedVersionConstraint V)) (d : InstallData V)
      → d.lock ≡ l
      → ((locked : ResolvedVersionConstraint V) → o ≡ some locked → locked.name ≡ required.name)
      → Ends src rank l (IsLow src rank required) (locked_or_none src required force o d)
  unfolding locked_or_none
  locked_or_none-Ends l required force none d is named = (is, tt)
  locked_or_none-Ends l required force (some locked) d is named =
      Ends-then src rank l (Any src rank) _ _ _
        (can_update-Ends src rank l locked required force d is)
        (λ b d' is' q. unless_update-Ends l required locked b d' is' (named locked refl))

  met_name :
      (required : Required) (o : Option (ResolvedVersionConstraint V))
      (locked : ResolvedVersionConstraint V)
      → ((e : ResolvedVersionConstraint V) → o ≡ some e → e.name ≡ required.name)
      → if_met (mod_constraint src required) o ≡ some locked
      → locked.name ≡ required.name
  met_name required none locked named h = cc
  met_name required (some c) locked named h =
      elim (Bool-cases (src.check required.original c.version)) [
        | inl e ↦
            let is : c ≡ locked = some-injective c locked (sym (rw e) ∙ h) in
            ap (λ (x : ResolvedVersionConstraint V). x.name) (sym is) ∙ named c refl
        | inr e ↦ absurd (none-ne-some locked (sym (rw e) ∙ h))
      ]

  current-Ends :
      (required : Required) (parent : Mod V) (force : Bool) (d : InstallData V)
      → HasNames src rank d.lock
      → Ends src rank d.lock
          (IsLow src rank required)
          (get_currently_installed_version_to_use src required parent force d)
  unfolding get_currently_installed_version_to_use get_locked_mod_version get_mod
  current-Ends required parent force d named =
      locked_or_none-Ends d.lock required force _ d refl (λ locked h.
        met_name required _ locked (λ e. named parent.dependency_path required.name e) h)

  installed_at-Ends :
      (l : WorkspaceLock V) (ref : ResolvedModRef V) (path : String) (o : Option Required) (n : ℕ)
      (m : Mod V) (d : InstallData V)
      → d.lock ≡ l
      → IsBelow src rank n m.require.mods
      → Ends src rank l
          (λ (used : Mod V). IsBelow src rank n used.require.mods)
          (installed_at src ref path o m d)
  unfolding installed_at add_existing
  installed_at-Ends l ref path none n m d is low = refl
  installed_at-Ends l ref path (some required) n m d is low = (is, low)

  cloned_mod-Ends :
      (l : WorkspaceLock V) (ref : ResolvedModRef V) (parent : Mod V) (o : Option (Mod V) ⊎ String)
      (n : ℕ) (d : InstallData V)
      → d.lock ≡ l
      → ((m : Mod V) → o ≡ inl (some m) → IsBelow src rank n m.require.mods)
      → Ends src rank l
          (λ (used : Mod V). IsBelow src rank n used.require.mods)
          (cloned_mod src ref parent o d)
  unfolding cloned_mod
  cloned_mod-Ends l ref parent (inr err) n d is low = is
  cloned_mod-Ends l ref parent (inl none) n d is low = is
  cloned_mod-Ends l ref parent (inl (some m)) n d is low =
      installed_at-Ends l ref parent.dependency_path _ n _ d is (low m refl)

  install_or_use-Ends :
      (l : WorkspaceLock V) (required : Required) (m : Option (Mod V)) (parent : Mod V)
      (versions : List V) (d : InstallData V)
      → d.lock ≡ l
      → IsLow src rank required m
      → Ends src rank l
          (λ (used : Mod V). IsBelow src rank (rank required.name) used.require.mods)
          (install_or_use src required m parent versions d)
  unfolding install_or_use install add_existing
  install_or_use-Ends l required none parent versions d is low =
      Ends-then src rank l (λ (ref : ResolvedModRef V). ref.name ≡ required.name) _ _ _
        (ref-Ends src rank l required versions d is)
        (λ ref d' is' name. cloned_mod-Ends l ref parent _ (rank required.name) d' is' (λ m' found.
          subst (λ (n : String). IsBelow src rank (rank n) m'.require.mods) name
            (acyclic.cloned ref.name ref.version m' found)))
  install_or_use-Ends l required (some m) parent versions d is low = (is, low)

  each-Ends :
      (l : WorkspaceLock V) (f : Required → Installing V Unit) (mods : List Required)
      (d : InstallData V)
      → d.lock ≡ l
      → All
          (λ (dep : Required).
            (e : InstallData V) → e.lock ≡ l → Ends src rank l (Any src rank) (f dep e))
          mods
      → Ends src rank l (Any src rank) (each f mods d)
  unfolding each
  each-Ends l f [] d is rounds = (is, tt)
  each-Ends l f (dep ∷ mods) d is (first, rounds) =
      Ends-then src rank l (Any src rank) _ _ _ (collected-Ends (f dep d) (first d is))
        (λ errors e is' q.
          Ends-then src rank l (Any src rank) _ _ _ (each-Ends l f mods e is' rounds)
            (λ more e' is'' q'. (is'', tt)))
    where
      collected-Ends :
          (r : Answer Unit × InstallData V)
          → Ends src rank l (Any src rank) r
          → Ends src rank l (Any src rank) (collected r)
      collected-Ends (answer u, e) h = h
      collected-Ends (failed err, e) h = (h, tt)
      collected-Ends (panicked p, e) h = h

  no_errors-Ends :
      (l : WorkspaceLock V) (errors : List InstallError) (d : InstallData V)
      → d.lock ≡ l
      → Ends src rank l (Any src rank) (no_errors errors d)
  no_errors-Ends l [] d is = (is, tt)
  no_errors-Ends l (err ∷ errors) d is = is

  -- The rounds of the loop over the mods that a mod requires, given that of the recursive calls.
  rounds_end :
      (l : WorkspaceLock V) (n : ℕ) (used : Mod V) (force : Bool)
      (next : Required → Option (Mod V) → Installing V Unit)
      → HasNames src rank l
      → ((dep : Required) (child : Option (Mod V)) (d : InstallData V)
          → rank dep.name < n
          → IsLow src rank dep child
          → d.lock ≡ l
          → Ends src rank l (Any src rank) (next dep child d))
      → (deps : List Required) → IsBelow src rank n deps
      → All
          (λ (dep : Required).
            (d : InstallData V)
            → d.lock ≡ l
            → Ends src rank l (Any src rank) (
                then_install
                  (next dep)
                  (get_currently_installed_version_to_use src dep used force d)))
          deps
  rounds_end l n used force next named each_next [] low = tt
  rounds_end l n used force next named each_next (dep ∷ deps) (one, more) = (
    λ d is.
        Ends-then src rank l (IsLow src rank dep) _ (next dep) _
          (subst
            (λ (k : WorkspaceLock V).
              Ends src rank k (IsLow src rank dep)
                (get_currently_installed_version_to_use src dep used force d))
            is (current-Ends dep used force d (subst (HasNames src rank) (sym is) named)))
          (λ child d' is' low. each_next dep child d' one low is'),
    rounds_end l n used force next named each_next deps more,
  )

  recursively-Ends :
      (fuel : ℕ) (required : Required) (m : Option (Mod V)) (parent : Mod V) (should_update : Bool)
      (l : WorkspaceLock V) (d : InstallData V)
      → rank required.name < fuel
      → HasNames src rank l
      → IsLow src rank required m
      → d.lock ≡ l
      → Ends src rank l
          (Any src rank)
          (install_mod_dependences_recursively src fuel required m parent should_update d)
  unfolding install_mod_dependences_recursively
  recursively-Ends zero required m parent should_update l d lt named low is = absurd (omega arith)
  recursively-Ends (suc fuel) required m parent should_update l d lt named low is =
      Ends-then src rank l (Any src rank) _ _ _
        (versions-Ends src rank l required.name (is_prerelease_constraint src required) d is)
        (λ versions e is1 q.
          Ends-then src rank l
            (λ (used : Mod V). IsBelow src rank (rank required.name) used.require.mods) _ _ _
            (install_or_use-Ends l required m parent versions e is1 low)
            (λ used e1 is2 low'.
              Ends-then src rank l (Any src rank) _ _ _
                (each-Ends l _ used.require.mods e1 is2 (
                  rounds_end l (rank required.name) used should_update
                    (λ dep child.
                      install_mod_dependences_recursively src fuel dep child used should_update)
                    named
                    (λ dep child d' lt' low'' is'.
                      recursively-Ends fuel dep child used should_update l d'
                        (omega (arith, lt, lt')) named low'' is')
                    used.require.mods low'))
                (λ errors e2 is3 q2. no_errors-Ends l errors e2 is3)))

  completed-Ends :
      (l : WorkspaceLock V) (r : Answer (List InstallError) × InstallData V) (d : InstallData V)
      → Ends src rank l (Any src rank) r
      → completed src r ≢ (panicked out_of_fuel, d)
  unfolding completed
  completed-Ends l (answer [], e) d h is = cc
  completed-Ends l (answer (err ∷ errors), e) d h is = cc
  completed-Ends l (failed err, e) d h is = cc
  completed-Ends l (panicked p, e) d h is = cc

  -- When the mods that a mod requires, directly or not, go round in no circle, an installation comes
  -- to an end: fuel beyond the rank of each required mod is never used up. Each entry of the old
  -- lock is relied on to stand under its name.
  pub install_mods_ends :
      (fuel : ℕ) (updating : Bool) (mods : List Required) (parent : Mod V) (lock : WorkspaceLock V)
      (d : InstallData V)
      → HasNames src rank lock
      → IsBelow src rank fuel mods
      → install_mods src fuel updating mods parent (new_install_data lock)
        ≢ (panicked out_of_fuel, d)
  unfolding install_mods install_required new_install_data
  install_mods_ends fuel updating mods parent lock d named low = completed-Ends lock _ d (
      each-Ends lock _ mods (new_install_data lock) refl (
        rounds_end lock fuel parent updating
          (λ dep m. install_mod_dependences_recursively src fuel dep m parent (is_new src m)) named
          (λ dep m d' lt low' is.
            recursively-Ends fuel dep m parent (is_new src m) lock d' lt named low' is)
          mods low))

-- ===== src/Mods/Installer/Ends.antt =====
-- modinstaller: the steps of an installation leave the old lock, and do not use up fuel.
use steampipe.Prelude.{
  ◌≡◌, All, String, ℕ, List, some, Option, ◌<◌, inl, Bool, none, ◌⊎◌, subst, Bool-cases, refl,
  string_eq, ◌||◌, not, ◌==◌,
}
use steampipe.Mods.Installer.{
  answer, failed, panicked, nil_pointer, Sources, Mod, Answer, Installing, InstallData,
  then_install, ResolvedModRef, inr, get_version_satisfying_constraint,
}
use steampipe.Mods.Lock.{entry, WorkspaceLock, ResolvedVersionConstraint}
use steampipe.Prelude.Dict.{lookup}
use steampipe.Mods.Installer.Versions.{
  from_cache, get_available_mod_versions, get_mod_ref_satisfying_constraints, can_update_mod,
  update_available, cache_versions, get_tag_versions_from_git, loaded_mod, ref_of,
  is_prerelease_constraint,
}
use steampipe.Mods.Require.{Required}
use steampipe.Mods.Lock.Installed.{mod_version_full_name}
use steampipe.Prelude.Text.{◌+++◌}

module _ {V : Type 0} (src : Sources V) (rank : String → ℕ) where
  abbrev pub IsBelow : ℕ → List Required → Type 0
  IsBelow n mods = All (λ (dep : Required). rank dep.name < n) mods

  -- Each mod requires only mods of a lower rank.
  pub record IsAcyclic : Type 0 where
    pub cloned :
        (n : String) (v : V) (m : Mod V)
        → src.clone n v ≡ inl (some m)
        → IsBelow (rank n) m.require.mods
    pub loaded :
        (n : String) (v : V) (m : Mod V)
        → src.load (mod_version_full_name src.semver n v) ≡ inl (some m)
        → IsBelow (rank n) m.require.mods

  abbrev pub HasNames : WorkspaceLock V → Type 0
  HasNames l =
      (p n : String) (e : ResolvedVersionConstraint V)
      → entry p n l.install_cache ≡ some e
      → e.name ≡ n

  -- The old lock stays, and there is fuel left.
  abbrev pub Ends :
      {A : Type 0} → WorkspaceLock V → (A → Type 0) → Answer A × InstallData V → Type 0
  Ends l Q (answer a, d) = (d.lock ≡ l) × Q a
  Ends l Q (failed err, d) = d.lock ≡ l
  Ends l Q (panicked p, d) = p ≡ nil_pointer

  pub Ends-then :
      {A B : Type 0} (l : WorkspaceLock V) (Q : A → Type 0) (R : B → Type 0)
      (f : A → Installing V B) (r : Answer A × InstallData V)
      → Ends l Q r
      → ((a : A) (d : InstallData V) → d.lock ≡ l → Q a → Ends l R (f a d))
      → Ends l R (then_install f r)
  Ends-then l Q R f (answer a, d) (is, q) next = next a d is q
  Ends-then l Q R f (failed err, d) h next = h
  Ends-then l Q R f (panicked p, d) h next = h

  abbrev pub Any : {A : Type 0} → A → Type 0
  Any a = Unit

  cache_versions-Ends :
      (name : String) (o : Option (List V)) (d : InstallData V)
      → Ends d.lock Any (cache_versions src name o d)
  cache_versions-Ends name none d = refl
  cache_versions-Ends name (some versions) d = (refl, tt)

  from_cache-Ends :
      (name : String) (pre : Bool) (o : Option (List V)) (d : InstallData V)
      → Ends d.lock Any (from_cache src name pre o d)
  unfolding from_cache
  from_cache-Ends name pre none d =
      cache_versions-Ends name (get_tag_versions_from_git src ("https://" +++ name) pre) d
  from_cache-Ends name pre (some versions) d = (refl, tt)

  pub versions-Ends :
      (l : WorkspaceLock V) (name : String) (pre : Bool) (d : InstallData V)
      → d.lock ≡ l
      → Ends l Any (get_available_mod_versions src name pre d)
  unfolding get_available_mod_versions
  versions-Ends l name pre d is =
      subst
        (λ (k : WorkspaceLock V).
          Ends k Any (from_cache src name pre (lookup name d.all_available) d))
        is (from_cache-Ends name pre (lookup name d.all_available) d)

  pub ref-Ends :
      (l : WorkspaceLock V) (required : Required) (versions : List V) (d : InstallData V)
      → d.lock ≡ l
      → Ends l
          (λ (ref : ResolvedModRef V). ref.name ≡ required.name)
          (get_mod_ref_satisfying_constraints src required versions d)
  unfolding get_mod_ref_satisfying_constraints
  ref-Ends l required versions d is =
      by_option (get_version_satisfying_constraint (src.check required.original) versions)
    where
      by_option :
          (o : Option V)
          → Ends l (λ (ref : ResolvedModRef V). ref.name ≡ required.name) (ref_of src required o d)
      by_option none = is
      by_option (some v) = (is, refl)

  pub can_update-Ends :
      (l : WorkspaceLock V) (locked : ResolvedVersionConstraint V) (required : Required)
      (force : Bool) (d : InstallData V)
      → d.lock ≡ l
      → Ends l Any (can_update_mod src locked required force d)
  unfolding can_update_mod update_available
  can_update-Ends l locked required force d is =
      elim (Bool-cases (force || not (locked.constraint == required.original))) [
        | inl e ↦ rw e (
            Ends-then l Any Any (update_available src required locked.version) _
              (versions-Ends l required.name (is_prerelease_constraint src required) d is)
              (λ versions d' is' q.
                Ends-then l (λ (ref : ResolvedModRef V). ref.name ≡ required.name) Any _ _
                  (ref-Ends l required versions d' is') (λ ref d'' is'' q'. (is'', tt))))
        | inr e ↦ rw e (is, tt)
      ]

  -- The mod that is there requires mods of a lower rank.
  abbrev pub IsLow : Required → Option (Mod V) → Type 0
  IsLow required none = Unit
  IsLow required (some m) = IsBelow (rank required.name) m.require.mods

  pub loaded-Ends :
      (l : WorkspaceLock V) (required : Required) (path : String) (o : Option (Mod V) ⊎ String)
      (d : InstallData V)
      → d.lock ≡ l
      → ((m : Mod V) → o ≡ inl (some m) → IsLow required (some m))
      → Ends l (IsLow required) (loaded_mod src path o d)
  loaded-Ends l required path (inr err) d is low = is
  loaded-Ends l required path (inl none) d is low = refl
  loaded-Ends l required path (inl (some m)) d is low = (is, low m refl)

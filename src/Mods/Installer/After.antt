-- ===== src/Mods/Installer/After.antt =====
-- modinstaller: what holds of the new lock after a step of an installation.
use steampipe.Prelude.{◌≡◌, ◌∷◌, [], All, String, List, some, true, ◌++◌, refl, string_eq, inl, ◌⊎◌}
use steampipe.Prelude.Options.{is_some}
use steampipe.Mods.Installer.{
  answer, failed, panicked, Sources, InstallData, each, Answer, Installing, then_install,
  InstallError, collected, Mod,
}
use steampipe.Mods.Lock.{entry, WorkspaceLock, ResolvedVersionConstraint}
use steampipe.Mods.Require.{Require, Required}
use steampipe.Prelude.Dict.{lookup}
use steampipe.Mods.Lock.Installed.{mod_version_full_name}

-- The map has each of the required mods.
abbrev pub IsRequire : Require → Type 0
IsRequire r = All (λ (dep : Required). lookup dep.name r.mod_map ≡ some dep) r.mods

-- What mod files are relied on: the map of the required mods of a mod file is that of its list.
pub record SourceLaws {V : Type 0} (src : Sources V) : Type 0 where
  pub load_require :
      (full : String) (m : Mod V) → src.load full ≡ inl (some m) → IsRequire m.require
  pub clone_require :
      (n : String) (v : V) (m : Mod V) → src.clone n v ≡ inl (some m) → IsRequire m.require

module _ {V : Type 0} where
  abbrev pub IsLocked : String → WorkspaceLock V → Required → Type 0
  IsLocked path l required = is_some (entry path required.name l.install_cache) ≡ true

  -- No entry is lost.
  abbrev pub Grows : InstallData V → InstallData V → Type 0
  Grows d d' =
      (p n : String)
      → is_some (entry p n d.new_lock.install_cache) ≡ true
      → is_some (entry p n d'.new_lock.install_cache) ≡ true

module _ {V : Type 0} (src : Sources V) (old : WorkspaceLock V) where
  -- The constraint admits the version for the mod `n` under `p`; or it admits the one that `old` has
  -- there, whose folder holds a mod of this version. The name of a folder leaves out the patch, so
  -- the two can differ.
  abbrev pub IsAdmitted : String → String → String → V → Type 0
  IsAdmitted p n constraint v =
      (src.check constraint v ≡ true)
      ⊎ ((locked : ResolvedVersionConstraint V) × (m : Mod V) × (entry p n old.install_cache
            ≡ some locked)
          × (src.check constraint locked.version ≡ true)
          × (src.load (mod_version_full_name src.semver locked.name locked.version) ≡ inl (some m))
          × (m.version ≡ v))

  -- Each entry has its name, and an admitted version.
  abbrev pub IsSound : WorkspaceLock V → Type 0
  IsSound l =
      (p n : String) (e : ResolvedVersionConstraint V)
      → entry p n l.install_cache ≡ some e
      → (e.name ≡ n) × IsAdmitted p n e.constraint e.version

  -- The installation began with `old`, and what it has locked so far is sound.
  abbrev pub IsGood : InstallData V → Type 0
  IsGood d = (d.lock ≡ old) × IsSound d.new_lock

  -- What holds when a step that began with `d` is over.
  abbrev pub After :
      {A : Type 0}
      → InstallData V
      → (A → InstallData V → Type 0)
      → Answer A × InstallData V
      → Type 0
  After d Q (answer a, d') = IsGood d' × Grows d d' × Q a d'
  After d Q (failed err, d') = IsGood d' × Grows d d'
  After d Q (panicked p, d') = IsGood d' × Grows d d'

  Grows-trans : (c d e : InstallData V) → Grows c d → Grows d e → Grows c e
  Grows-trans c d e g h p n has = h p n (g p n has)

  pub After-from :
      {A : Type 0} (c d : InstallData V) (Q : A → InstallData V → Type 0)
      (r : Answer A × InstallData V)
      → Grows c d
      → After d Q r
      → After c Q r
  After-from c d Q (answer a, e) g (sound, h, q) = (sound, Grows-trans c d e g h, q)
  After-from c d Q (failed err, e) g (sound, h) = (sound, Grows-trans c d e g h)
  After-from c d Q (panicked p, e) g (sound, h) = (sound, Grows-trans c d e g h)

  pub After-then :
      {A B : Type 0} (d : InstallData V) (Q : A → InstallData V → Type 0)
      (R : B → InstallData V → Type 0) (f : A → Installing V B) (r : Answer A × InstallData V)
      → After d Q r
      → ((a : A) (e : InstallData V) → IsGood e → Grows d e → Q a e → After e R (f a e))
      → After d R (then_install f r)
  After-then d Q R f (answer a, e) (sound, g, q) next =
      After-from d e R (f a e) g (next a e sound g q)
  After-then d Q R f (failed err, e) h next = h
  After-then d Q R f (panicked p, e) h next = h

  pub same : (d : InstallData V) → Grows d d
  same d p n has = has

  abbrev pub Any : {A : Type 0} → A → InstallData V → Type 0
  Any a d = Unit

  All-IsLocked :
      (path : String) (mods : List Required) (d e : InstallData V)
      → Grows d e
      → All (IsLocked path d.new_lock) mods
      → All (IsLocked path e.new_lock) mods
  All-IsLocked path [] d e g h = tt
  All-IsLocked path (required ∷ mods) d e g (one, more) =
      (g path required.name one, All-IsLocked path mods d e g more)

  nil_append : {A : Type 0} (xs ys : List A) → xs ++ ys ≡ [] → (xs ≡ []) × (ys ≡ [])
  nil_append [] ys h = (refl, h)
  nil_append (x ∷ xs) ys h = cc

  -- The loop over required mods, when each round keeps the lock sound and locks its mod.
  pub each-After :
      (path : String) (f : Required → Installing V Unit) (mods : List Required) (d : InstallData V)
      → IsGood d
      → All
          (λ (dep : Required).
            (e : InstallData V)
            → IsGood e
            → After e (λ (u : Unit) (e' : InstallData V). IsLocked path e'.new_lock dep) (f dep e))
          mods
      → After d
          (λ (errors : List InstallError) (e : InstallData V).
            errors ≡ [] → All (IsLocked path e.new_lock) mods)
          (each f mods d)
  unfolding each
  each-After path f [] d sound rounds = (sound, same d, λ h. tt)
  each-After path f (dep ∷ mods) d sound (first, rounds) =
      After-then d
        (λ (errors : List InstallError) (e : InstallData V).
          errors ≡ [] → IsLocked path e.new_lock dep)
        _ _ (collected (f dep d)) (After-collected (f dep d) (first d sound))
        (λ errors e sound' g locked.
          After-then e
            (λ (more : List InstallError) (e' : InstallData V).
              more ≡ [] → All (IsLocked path e'.new_lock) mods)
            _ _ (each f mods e) (each-After path f mods e sound' rounds)
            (λ more e' sound'' g' all_locked. (
              sound'',
              same e',
              λ empty.
                  let (none_first, none_more) = nil_append errors more empty in
                  (g' path dep.name (locked none_first), all_locked none_more),
            )))
    where
      After-collected :
          (r : Answer Unit × InstallData V)
          → After d (λ (u : Unit) (e : InstallData V). IsLocked path e.new_lock dep) r
          → After d
              (λ (errors : List InstallError) (e : InstallData V).
                errors ≡ [] → IsLocked path e.new_lock dep)
              (collected r)
      After-collected (answer u, e) (s, g, locked) = (s, g, λ h. locked)
      After-collected (failed err, e) (s, g) = (s, g, λ h. cc)
      After-collected (panicked p, e) h = h

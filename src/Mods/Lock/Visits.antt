-- ===== src/Mods/Lock/Visits.antt =====
-- workspace_lock.go: the rounds of the loops of `setMissing`.
use steampipe.Prelude.{
  string_eq, List, Bool, String, All, false, Option, ◌||◌, not, ◌∷◌, [], ◌≡◌, if◌then◌else◌, some,
  ◌&&◌, none, true, ◌==◌, refl, ◌∙◌, ap, sym, eq_of_==, arith, Bool-cases, ==_refl,
}
use steampipe.Mods.Lock.{
  Semver, ResolvedVersionMap, WorkspaceLock, ResolvedVersionConstraint, DependencyVersionMap, entry,
  inl, inr,
}
use steampipe.Mods.Lock.Installed.{
  move_missing, is_installed, visit, set_missing_deps, set_missing_parents,
}
use steampipe.Prelude.Options.{is_some}
use steampipe.Mods.Lock.Changes.{entry-remove, entry-add}
use steampipe.Prelude.Dict.{lookup, NodupKeys}

module _ {V : Type 0} (semver : Semver V) where
  -- Does the parent have a dependency that is not installed, and whose constraint has the name?
  abbrev pub moved_deps : List String → String → ResolvedVersionMap V → String → String → Bool
  moved_deps flat parent [] p n = false
  moved_deps flat parent ((name, c) ∷ deps) p n =
      not (is_installed semver flat name c) && ((parent == p) && (c.name == n))
      || moved_deps flat parent deps p n

  abbrev pub moved : List String → DependencyVersionMap V → String → String → Bool
  moved flat [] p n = false
  moved flat ((parent, deps) ∷ cache) p n = moved_deps flat parent deps p n || moved flat cache p n

  -- What a part of the loop does to the entry `p`, `n`, if `b` says that it is moved.
  abbrev pub Moves : Bool → String → String → WorkspaceLock V → WorkspaceLock V → Type 0
  Moves b p n l l' =
      (entry p n l'.install_cache ≡ (if b then none else entry p n l.install_cache))
      × (is_some (entry p n l'.missing_versions) ≡ (b || is_some (entry p n l.missing_versions)))

  -- Each entry stands under the name of its constraint.
  abbrev pub IsNamed : ResolvedVersionMap V → Type 0
  IsNamed deps = All (λ (e : String × ResolvedVersionConstraint V). e.1.name ≡ e.0) deps

  -- The two halves of `Moves`.
  abbrev Removes : Bool → String → String → WorkspaceLock V → WorkspaceLock V → Type 0
  Removes b p n l l' = entry p n l'.install_cache ≡ (if b then none else entry p n l.install_cache)

  abbrev Adds : Bool → String → String → WorkspaceLock V → WorkspaceLock V → Type 0
  Adds b p n l l' =
      is_some (entry p n l'.missing_versions) ≡ (b || is_some (entry p n l.missing_versions))

  -- The entry is in the install cache or among the missing versions.
  abbrev IsKnown : String → String → WorkspaceLock V → Type 0
  IsKnown p n l =
      (is_some (entry p n l.install_cache) || is_some (entry p n l.missing_versions)) ≡ true

  some_if :
      (b : Bool) (c : ResolvedVersionConstraint V) (o : Option (ResolvedVersionConstraint V))
      → is_some (if b then some c else o) ≡ (b || is_some o)
  some_if true c o = refl
  some_if false c o = refl

  then-Removes :
      (a b : Bool) (p n : String) (l k j : WorkspaceLock V)
      → Removes a p n l k
      → Removes b p n k j
      → Removes (a || b) p n l j
  then-Removes a b p n l k j first second = ground (arith, first, second)

  then-Adds :
      (a b : Bool) (p n : String) (l k j : WorkspaceLock V)
      → Adds a p n l k
      → Adds b p n k j
      → Adds (a || b) p n l j
  then-Adds a b p n l k j first second = ground (arith, first, second)

  -- What is moved is removed here and added there.
  move_missing-Moves :
      (parent p n : String) (c : ResolvedVersionConstraint V) (l : WorkspaceLock V)
      → Moves ((parent == p) && (c.name == n)) p n l (move_missing semver parent c l)
  unfolding move_missing
  move_missing-Moves parent p n c l = (
    entry-remove p n parent c.name l.install_cache,
    ap is_some (entry-add p n c.name c.version c.constraint parent l.missing_versions)
        ∙ some_if ((parent == p) && (c.name == n)) _ _,
  )

  -- An entry that is no longer there is not moved again.
  not_there :
      (parent p name n : String) (l : WorkspaceLock V)
      → is_some (entry parent name l.install_cache) ≡ false
      → ((parent == p) && (name == n)) ≡ true
      → is_some (entry p n l.install_cache) ≡ false
  not_there parent p name n l gone at_n =
      sym (
        ap (λ (q : String). is_some (entry q name l.install_cache))
          (eq_of_== parent p (ground (arith, at_n)))
        ∙ ap (λ (q : String). is_some (entry p q l.install_cache))
            (eq_of_== name n (ground (arith, at_n))))
      ∙ gone

  visit-Removes :
      (flat : List String) (parent name p n : String) (c : ResolvedVersionConstraint V)
      (l : WorkspaceLock V)
      → c.name ≡ name
      → Removes
          (not (is_installed semver flat name c) && ((parent == p) && (c.name == n)))
          p
          n
          l
          (visit semver flat parent name c l)
  unfolding visit
  visit-Removes flat parent name p n c l named =
      ground (arith, (move_missing-Moves parent p n c l).0, not_there parent p name n l, named)

  visit-Adds :
      (flat : List String) (parent name p n : String) (c : ResolvedVersionConstraint V)
      (l : WorkspaceLock V)
      → c.name ≡ name
      → ((not (is_installed semver flat name c) && ((parent == p) && (c.name == n))) ≡ true
          → IsKnown p n l)
      → Adds
          (not (is_installed semver flat name c) && ((parent == p) && (c.name == n)))
          p
          n
          l
          (visit semver flat parent name c l)
  unfolding visit
  visit-Adds flat parent name p n c l named known =
      ground
        (arith, (move_missing-Moves parent p n c l).1, not_there parent p name n l, named, known)

  visit-IsKnown :
      (flat : List String) (parent name p n : String) (c : ResolvedVersionConstraint V)
      (l : WorkspaceLock V)
      → IsKnown p n l
      → IsKnown p n (visit semver flat parent name c l)
  unfolding visit
  visit-IsKnown flat parent name p n c l known =
      let (gone, there) = move_missing-Moves parent p n c l in
      elim (Bool-cases ((parent == p) && (c.name == n))) [
        | inl e ↦ ground (arith, known, there, e)
        | inr e ↦ ground (arith, known, gone, there, e)
      ]

  deps-IsKnown :
      (flat : List String) (parent p n : String) (deps : ResolvedVersionMap V) (l : WorkspaceLock V)
      → IsKnown p n l
      → IsKnown p n (set_missing_deps semver flat parent deps l)
  unfolding set_missing_deps
  deps-IsKnown flat parent p n [] l known = known
  deps-IsKnown flat parent p n ((name, c) ∷ deps) l known =
      deps-IsKnown flat parent p n deps (visit semver flat parent name c l)
        (visit-IsKnown flat parent name p n c l known)

  deps-Removes :
      (flat : List String) (parent p n : String) (deps : ResolvedVersionMap V) (l : WorkspaceLock V)
      → IsNamed deps
      → Removes (moved_deps flat parent deps p n) p n l (set_missing_deps semver flat parent deps l)
  unfolding set_missing_deps
  deps-Removes flat parent p n [] l named = refl
  deps-Removes flat parent p n ((name, c) ∷ deps) l (same, named) =
      let next = visit semver flat parent name c l in
      then-Removes (not (is_installed semver flat name c) && ((parent == p) && (c.name == n)))
        (moved_deps flat parent deps p n) p n l next (set_missing_deps semver flat parent deps next)
        (visit-Removes flat parent name p n c l same) (deps-Removes flat parent p n deps next named)

  pub parents-Removes :
      (flat : List String) (p n : String) (cache : DependencyVersionMap V) (l : WorkspaceLock V)
      → All (λ (e : String × ResolvedVersionMap V). IsNamed e.1) cache
      → Removes (moved flat cache p n) p n l (set_missing_parents semver flat cache l)
  unfolding set_missing_parents
  parents-Removes flat p n [] l named = refl
  parents-Removes flat p n ((parent, deps) ∷ cache) l (here, named) =
      let next = set_missing_deps semver flat parent deps l in
      then-Removes (moved_deps flat parent deps p n) (moved flat cache p n) p n l next
        (set_missing_parents semver flat cache next) (deps-Removes flat parent p n deps l here)
        (parents-Removes flat p n cache next named)

  deps-Adds :
      (flat : List String) (parent p n : String) (deps : ResolvedVersionMap V) (l : WorkspaceLock V)
      → IsNamed deps
      → (moved_deps flat parent deps p n ≡ true → IsKnown p n l)
      → Adds (moved_deps flat parent deps p n) p n l (set_missing_deps semver flat parent deps l)
  unfolding set_missing_deps
  deps-Adds flat parent p n [] l named known = refl
  deps-Adds flat parent p n ((name, c) ∷ deps) l (same, named) known =
      let next = visit semver flat parent name c l in
      let first = not (is_installed semver flat name c) && ((parent == p) && (c.name == n)) in
      then-Adds first (moved_deps flat parent deps p n) p n l next
        (set_missing_deps semver flat parent deps next)
        (visit-Adds flat parent name p n c l same (λ e. known (rw e refl)))
        (deps-Adds flat parent p n deps next named
          (λ e. visit-IsKnown flat parent name p n c l (known (ground (arith, e)))))

  pub parents-Adds :
      (flat : List String) (p n : String) (cache : DependencyVersionMap V) (l : WorkspaceLock V)
      → All (λ (e : String × ResolvedVersionMap V). IsNamed e.1) cache
      → (moved flat cache p n ≡ true → IsKnown p n l)
      → Adds (moved flat cache p n) p n l (set_missing_parents semver flat cache l)
  unfolding set_missing_parents
  parents-Adds flat p n [] l named known = refl
  parents-Adds flat p n ((parent, deps) ∷ cache) l (here, named) known =
      let next = set_missing_deps semver flat parent deps l in
      then-Adds (moved_deps flat parent deps p n) (moved flat cache p n) p n l next
        (set_missing_parents semver flat cache next)
        (deps-Adds flat parent p n deps l here (λ e. known (rw e refl)))
        (parents-Adds flat p n cache next named
          (λ e. deps-IsKnown flat parent p n deps l (known (ground (arith, e)))))

  -- A moved entry is one of the cache, where that has each parent once.
  moved_deps-listed :
      (flat : List String) (parent p n : String) (deps : ResolvedVersionMap V)
      → IsNamed deps
      → moved_deps flat parent deps p n ≡ true
      → (parent ≡ p) × (is_some (lookup n deps) ≡ true)
  unfolding lookup
  moved_deps-listed flat parent p n [] named h = cc
  moved_deps-listed flat parent p n ((name, c) ∷ deps) (same, named) h =
      elim (Bool-cases ((parent == p) && (c.name == n))) [
        | inl e ↦ (eq_of_== parent p (ground (arith, e)), ground (arith, e, same))
        | inr e ↦
            let (at_p, has) = moved_deps-listed flat parent p n deps named (ground (arith, h, e)) in
            (at_p, ground (arith, has))
      ]

  pub moved-listed :
      (flat : List String) (p n : String) (cache : DependencyVersionMap V)
      → NodupKeys cache
      → All (λ (e : String × ResolvedVersionMap V). IsNamed e.1) cache
      → moved flat cache p n ≡ true
      → is_some (entry p n cache) ≡ true
  unfolding lookup
  moved-listed flat p n [] distinct named h = cc
  moved-listed flat p n ((parent, deps) ∷ cache) (new, distinct) (here, named) h =
      elim (Bool-cases (moved_deps flat parent deps p n)) [
        | inl e ↦
            let (at_p, has) = moved_deps-listed flat parent p n deps here e in
            ground (arith, at_p, has, ==_refl p)
        | inr e ↦ elim (Bool-cases (parent == p)) [
          | inl at_p ↦
              let later = moved-listed flat p n cache distinct named (ground (arith, h, e)) in
              let none_there : lookup p cache ≡ none =
                ap (λ (q : String). lookup q cache) (sym (eq_of_== parent p at_p)) ∙ new in
              absurd (ground (arith, later, none_there))
          | inr other ↦
              ground
                (arith, other, moved-listed flat p n cache distinct named (ground (arith, h, e)))
        ]
      ]

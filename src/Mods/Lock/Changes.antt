-- ===== src/Mods/Lock/Changes.antt =====
-- versionmap: single entries, and what the operations of the lock do to them.
use steampipe.Prelude.{
  string_eq, Bool, String, Option, List, ◌≡◌, if◌then◌else◌, some, ◌==◌, ◌&&◌, inl, true, ap,
  Bool-cases, none, any, false, ◌∙◌, refl, ◌||◌, arith, ◌∷◌, eq_of_==, [], sym,
}
use steampipe.Mods.Lock.{
  add, remove, delete_mods, ResolvedVersionMap, DependencyVersionMap, get_mod, entry,
  ResolvedVersionConstraint, WorkspaceLock, or_nil_map, removed, inr, deps_of,
}
use steampipe.Prelude.Dict.{lookup, insert, lookup-insert, erase, lookup-erase, lookup-nil}

none_either : {A : Type 0} (b : Bool) (o : Option A) → o ≡ none → (if b then none else o) ≡ none
none_either true o e = refl
none_either false o e = e

module _ {V : Type 0} where
  nested-insert :
      (b : Bool) (k : String) (deps : ResolvedVersionMap V) (other : Option (ResolvedVersionMap V))
      → lookup k (or_nil_map (if b then some deps else other))
        ≡ (if b then lookup k deps else lookup k (or_nil_map other))
  nested-insert true k deps other = refl
  nested-insert false k deps other = refl

  entry-insert :
      (p n parent : String) (deps : ResolvedVersionMap V) (m : DependencyVersionMap V)
      → entry p n (insert parent deps m) ≡ (if parent == p then lookup n deps else entry p n m)
  entry-insert p n parent deps m =
      ap (λ (o : Option (ResolvedVersionMap V)). lookup n (or_nil_map o))
        (lookup-insert p parent deps m)
      ∙ nested-insert (parent == p) n deps (lookup p m)

  pub entry-add :
      (p n name : String) (v : V) (constraint parent : String) (m : DependencyVersionMap V)
      → entry p n (add name v constraint parent m) ≡ (
          if (parent == p) && (name == n)
          then some (record { name = name; version = v; constraint = constraint })
          else entry p n m)
  unfolding add
  entry-add p n name v constraint parent m = elim (Bool-cases (parent == p)) [
    | inl h ↦
        entry-insert p n parent _ m
        ∙ rw h (
            lookup-insert n name _ (deps_of parent m)
            ∙ ap
                (λ (q : String).
                  if name == n
                  then some (record { name = name; version = v; constraint = constraint })
                  else entry q n m)
                (eq_of_== parent p h))
    | inr h ↦ entry-insert p n parent _ m ∙ rw h
  ]

  entry_at :
      (p n parent : String) (o : Option (ResolvedVersionMap V)) (m : DependencyVersionMap V)
      → (parent == p) ≡ true
      → lookup parent m ≡ o
      → entry p n m ≡ lookup n (or_nil_map o)
  entry_at p n parent o m h e =
      ap (λ (q : String). entry q n m) (sym (eq_of_== parent p h))
      ∙ ap (λ (q : Option (ResolvedVersionMap V)). lookup n (or_nil_map q)) e

  removed-entry :
      (p n parent name : String) (o : Option (ResolvedVersionMap V)) (m : DependencyVersionMap V)
      → lookup parent m ≡ o
      → entry p n (removed parent name o m)
        ≡ (if (parent == p) && (name == n) then none else entry p n m)
  removed-entry p n parent name none m e = elim (Bool-cases (parent == p)) [
    | inl h ↦
        let gone : entry p n m ≡ none = entry_at p n parent none m h e ∙ lookup-nil n in
        rw h (gone ∙ sym (none_either (name == n) (entry p n m) gone))
    | inr h ↦ rw h
  ]
  removed-entry p n parent name (some deps) m e = elim (Bool-cases (parent == p)) [
    | inl h ↦
        entry-insert p n parent (erase name deps) m
        ∙ rw h (lookup-erase n name deps ∙ rw (entry_at p n parent (some deps) m h e))
    | inr h ↦ entry-insert p n parent (erase name deps) m ∙ rw h
  ]

  pub entry-remove :
      (p n parent name : String) (m : DependencyVersionMap V)
      → entry p n (remove parent name m)
        ≡ (if (parent == p) && (name == n) then none else entry p n m)
  unfolding remove
  entry-remove p n parent name m = removed-entry p n parent name (lookup parent m) m refl

  delete_cond :
      (b c d : Bool) (o : Option (ResolvedVersionConstraint V))
      → (if b && c then none else if b && d then none else o) ≡ (if b && (d || c) then none else o)
  delete_cond b c d o = ground arith

  -- After `DeleteMods` the parent has no entry for the names given; all other entries, of this parent
  -- and of others, are as they were.
  delete_mods-get_mod :
      (names : List String) (parent p n : String) (l : WorkspaceLock V)
      → get_mod n p (delete_mods names parent l)
        ≡ (if (parent == p) && any (λ name. name == n) names then none else get_mod n p l)
  unfolding delete_mods get_mod
  delete_mods-get_mod [] parent p n l = ground arith
  delete_mods-get_mod (name ∷ names) parent p n l =
      delete_mods-get_mod names parent p n
        (record l { install_cache = remove parent name l.install_cache })
      ∙ rw (entry-remove p n parent name l.install_cache) (
          delete_cond (parent == p) (any (λ k. k == n) names) (name == n)
            (entry p n l.install_cache))

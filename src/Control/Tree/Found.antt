-- ===== src/Control/Tree/Found.antt =====
-- result_group.go: the search for a nested group.

-- The ids of all nested groups, each before those below it.
use steampipe.Control.Tree.{
  GroupNode, get_child_group_by_name, some, or_else, group, GroupNodes, id_of, search_groups,
  add_group, no_groups, inl, inr,
}
use steampipe.Prelude.{
  Bool, Option, String, List, any, ◌≡◌, none, [], ◌++◌, ◌||◌, ◌==◌, ◌∷◌, refl, subst, arith,
  Bool-cases, string_eq, eq_of_==, ◌∙◌, sym,
}
use steampipe.Prelude.Options.{is_some}

mutual
  pub nested_ids : GroupNode → List String
  nested_ids (group id runs below) = ids_of below

  pub ids_of : GroupNodes → List String
  ids_of no_groups = []
  ids_of (add_group g others) = id_of g ∷ nested_ids g ++ ids_of others

any-append :
    {A : Type 0} (p : A → Bool) (xs ys : List A) → any p (xs ++ ys) ≡ (any p xs || any p ys)
any-append p [] ys = refl
any-append p (x ∷ xs) ys = ground (arith, any-append p xs ys)

or_else-some :
    (o other : Option GroupNode) → is_some (or_else o other) ≡ (is_some o || is_some other)
or_else-some none other = refl
or_else-some (some g) other = refl

mutual
  unfolding get_child_group_by_name nested_ids

  get_child-is_some :
      (g : GroupNode) (name : String)
      → is_some (get_child_group_by_name g name) ≡ any (λ id. id == name) (nested_ids g)
  get_child-is_some (group id runs below) name = search_groups-is_some below name

  search_groups-is_some :
      (groups : GroupNodes) (name : String)
      → is_some (search_groups groups name) ≡ any (λ id. id == name) (ids_of groups)
  search_groups-is_some no_groups name = refl
  search_groups-is_some (add_group g others) name = elim (Bool-cases (id_of g == name)) [
    | inl h ↦ rw h
    | inr h ↦ rw h (
        or_else-some (get_child_group_by_name g name) (search_groups others name)
        ∙ rw (get_child-is_some g name, search_groups-is_some others name)
            (sym (any-append (λ id. id == name) (nested_ids g) (ids_of others))))
  ]

abbrev IsNamed : String → Option GroupNode → Type 0
IsNamed name none = Unit
IsNamed name (some g) = id_of g ≡ name

or_else-IsNamed :
    (name : String) (o other : Option GroupNode)
    → IsNamed name o
    → IsNamed name other
    → IsNamed name (or_else o other)
or_else-IsNamed name none other h k = k
or_else-IsNamed name (some g) other h k = h

mutual
  unfolding get_child_group_by_name

  get_child-IsNamed :
      (g : GroupNode) (name : String) → IsNamed name (get_child_group_by_name g name)
  get_child-IsNamed (group id runs below) name = search_groups-IsNamed below name

  search_groups-IsNamed :
      (groups : GroupNodes) (name : String) → IsNamed name (search_groups groups name)
  search_groups-IsNamed no_groups name = tt
  search_groups-IsNamed (add_group g others) name = elim (Bool-cases (id_of g == name)) [
    | inl h ↦ rw h (eq_of_== (id_of g) name h)
    | inr h ↦ rw h (
        or_else-IsNamed name (get_child_group_by_name g name) (search_groups others name)
          (get_child-IsNamed g name) (search_groups-IsNamed others name))
  ]

-- `GetChildGroupByName` finds a group exactly when some group nested at any depth has the name, and a
-- group that it finds has the name.
get_child_group_by_name-found :
    (g : GroupNode) (name : String)
    → (is_some (get_child_group_by_name g name) ≡ any (λ id. id == name) (nested_ids g))
      × ((found : GroupNode) → get_child_group_by_name g name ≡ some found → id_of found ≡ name)
get_child_group_by_name-found g name =
    (get_child-is_some g name, λ found h. subst (IsNamed name) h (get_child-IsNamed g name))

-- ===== src/Control/Groups/Keys.antt =====
-- result_group.go: the dimension keys that `addDimensionKeys` collects.
use steampipe.Control.Groups.{
  ResultGroup, Heap, add_dimension_keys, add_dimension_keys_from, append_keys, distinct_keys,
  string_slice_distinct, modify,
}
use steampipe.Control.Groups.Climb.{
  IsTree, is_under, SameParents-modify, IsTree-same, is_under-same, not-is_under,
}
use steampipe.Prelude.{
  String, List, ℕ, Bool, ◌∷◌, ◌≡◌, ◌++◌, ◌<◌, suc, any, false, arith, Bool-cases, ◌||◌,
  if◌then◌else◌, true, ◌==◌, [], inl, Option-cases, ◌∙◌, string_eq, refl, inr, zero,
}

abbrev pub contains : String → List String → Bool
contains k xs = any (λ x. x == k) xs

abbrev pub NoDup : List String → Type 0
NoDup [] = Unit
NoDup (x ∷ xs) = (contains x xs ≡ false) × NoDup xs

contains-distinct :
    (k : String) (xs : List String) → contains k (string_slice_distinct xs) ≡ contains k xs
unfolding string_slice_distinct
contains-distinct k [] = refl
contains-distinct k (x ∷ xs) = ground (arith, contains-distinct k xs, contains-distinct x xs)

NoDup-distinct : (xs : List String) → NoDup (string_slice_distinct xs)
unfolding string_slice_distinct
NoDup-distinct [] = tt
NoDup-distinct (x ∷ xs) = elim (Bool-cases (contains x (string_slice_distinct xs))) [
  | inl old ↦ rw old (NoDup-distinct xs)
  | inr new ↦ rw new (new, NoDup-distinct xs)
]

contains-append :
    (k : String) (xs ys : List String) → contains k (xs ++ ys) ≡ (contains k xs || contains k ys)
contains-append k [] ys = refl
contains-append k (x ∷ xs) ys = ground (arith, contains-append k xs ys)

abbrev pub collect : List String → ResultGroup → ResultGroup
collect keys r = distinct_keys (append_keys keys r)

pub add_dimension_keys_from_lem :
    (fuel i j : ℕ) (keys : List String) (h : Heap)
    → IsTree h
    → i < fuel
    → add_dimension_keys_from fuel i keys h j
      ≡ (if is_under fuel h j i then collect keys (h j) else h j)
unfolding add_dimension_keys_from is_under
add_dimension_keys_from_lem zero i j keys h tree lt = elim lt [ ]
add_dimension_keys_from_lem (suc fuel) i j keys h tree lt = elim (Option-cases (h i).parent) [
  | inl root ↦ rw root (ground arith)
  | inr (p, up) ↦
      let k = modify i (append_keys keys) h in
      let same = SameParents-modify i (append_keys keys) h (λ r. refl) in
      let below = tree i p up in
      let ih = λ (n : ℕ).
        add_dimension_keys_from_lem fuel p n keys k (IsTree-same h k same tree) (omega arith) in
      rw (up, ih j, is_under-same fuel h k j p same) (ground (arith, not-is_under fuel h j p tree))
]

-- Where parents come before their children, after `addDimensionKeys` the group and each of its
-- ancestors hold the keys that they had and the new ones, each once; any other group is as it was.
add_dimension_keys_lem :
    (i j : ℕ) (keys : List String) (h : Heap)
    → IsTree h
    → (is_under (suc i) h j i ≡ true
        → ((k : String)
            → contains k (add_dimension_keys i keys h j).dimension_keys
              ≡ (contains k (h j).dimension_keys || contains k keys))
          × NoDup (add_dimension_keys i keys h j).dimension_keys)
      × (is_under (suc i) h j i ≡ false → add_dimension_keys i keys h j ≡ h j)
unfolding add_dimension_keys
add_dimension_keys_lem i j keys h tree =
    let here = add_dimension_keys_from_lem (suc i) i j keys h tree (omega arith) in
    (
      λ under.
          rw (here, under)
            (
              λ k. contains-distinct k _ ∙ contains-append k (h j).dimension_keys keys,
              NoDup-distinct ((h j).dimension_keys ++ keys),
            ),
      λ out. here ∙ rw out,
    )

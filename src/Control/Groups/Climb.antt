-- ===== src/Control/Groups/Climb.antt =====
-- result_group.go: which groups an update reaches.
use steampipe.Control.Groups.{ResultGroup, Heap, climb, modify, suc, at_parent}
use steampipe.Prelude.{
  ℕ, ◌≡◌, some, Bool, arith, ◌<◌, false, Option-cases, eqb, inl, ◌||◌, inr, zero, refl, true,
  Bool-cases, sym, if◌then◌else◌, ◌≤◌, ◌∙◌,
}

-- A parent is older than its child.
abbrev pub IsTree : Heap → Type 0
IsTree h = (i p : ℕ) → (h i).parent ≡ some p → p < i

-- `j` is `i` or an ancestor of `i`.
unfoldable pub is_under : ℕ → Heap → ℕ → ℕ → Bool
is_under zero h j i = false
is_under (suc fuel) h j i = eqb i j || at_parent (h i).parent false (λ p. is_under fuel h j p)

-- `f` leaves the parent as it is.
abbrev pub KeepsParent : (ResultGroup → ResultGroup) → Type 0
KeepsParent f = (r : ResultGroup) → (f r).parent ≡ r.parent

abbrev pub SameParents : Heap → Heap → Type 0
SameParents h k = (i : ℕ) → (k i).parent ≡ (h i).parent

pub SameParents-modify :
    (i : ℕ) (f : ResultGroup → ResultGroup) (h : Heap)
    → KeepsParent f
    → SameParents h (modify i f h)
SameParents-modify i f h keep j = ground (arith, keep (h j))

pub is_under-same :
    (fuel : ℕ) (h k : Heap) (j i : ℕ) → SameParents h k → is_under fuel k j i ≡ is_under fuel h j i
unfolding is_under
is_under-same zero h k j i same = refl
is_under-same (suc fuel) h k j i same = elim (Option-cases (h i).parent) [
  | inl root ↦ rw (same i, root)
  | inr (p, up) ↦ rw (same i, up, is_under-same fuel h k j p same)
]

-- An ancestor is not younger.
is_under-le : (fuel : ℕ) (h : Heap) (j i : ℕ) → IsTree h → is_under fuel h j i ≡ true → j ≤ i
unfolding is_under
is_under-le zero h j i tree e = cc
is_under-le (suc fuel) h j i tree e = elim (Option-cases (h i).parent) [
  | inl root ↦ let e' = rw root at e in ground arith
  | inr (p, up) ↦
      let e' = rw up at e in let below = tree i p up in ground (arith, is_under-le fuel h j p tree)
]

pub not-is_under : (fuel : ℕ) (h : Heap) (j i : ℕ) → IsTree h → i < j → is_under fuel h j i ≡ false
not-is_under fuel h j i tree lt = elim (Bool-cases (is_under fuel h j i)) [
  | inl under ↦ absurd (omega (arith, is_under-le fuel h j i tree under))
  | inr out ↦ out
]

pub IsTree-same : (h k : Heap) → SameParents h k → IsTree h → IsTree k
IsTree-same h k same tree i p e = tree i p (sym (same i) ∙ e)

-- A climb from `i` applies `f` once to `i` and to each of its ancestors, and to no other group.
pub climb_lem :
    (fuel : ℕ) (f : ResultGroup → ResultGroup) (i j : ℕ) (h : Heap)
    → KeepsParent f
    → IsTree h
    → i < fuel
    → climb fuel f i h j ≡ (if is_under fuel h j i then f (h j) else h j)
unfolding climb is_under
climb_lem zero f i j h keep tree lt = elim lt [ ]
climb_lem (suc fuel) f i j h keep tree lt = elim (Option-cases (h i).parent) [
  | inl root ↦ rw root (ground arith)
  | inr (p, up) ↦
      let k = modify i f h in
      let same = SameParents-modify i f h keep in
      let below = tree i p up in
      let ih = climb_lem fuel f p j k keep (IsTree-same h k same tree) (omega arith) in
      rw (up, ih, is_under-same fuel h k j p same) (ground (arith, not-is_under fuel h j p tree))
]

-- ===== src/Control/Tree/Built.antt =====
-- execution_tree.go, result_group.go: the runs of a tree that was built.
use mathlib.Core.List.{Perm, perm_append_comm}
use steampipe.Control.Tree.{
  ModTreeItem, children_of, Children, Control, control, add_child, groups_run_count, benchmark,
  should_include_control, groups_order, other_item, inl, Items, inr, add_item, no_items,
  no_children, add_control, add_benchmark, control_run_count, root_children, new_execution_tree,
  execution_order, add_group, node, no_groups,
}
use steampipe.Prelude.{
  Option, List, String, length, ◌∷◌, ◌++◌, ◌+◌, ◌≡◌, [], if◌then◌else◌, Bool-cases, arith, refl, ap,
  ◌∙◌, sym, subst, append_assoc, ltb, length-append, append-nil,
}
use steampipe.Control.Progress.{new_control_progress}
use steampipe.Prelude.Int.{pos}
use mathlib.Core.List.Perm

-- The controls among the items, in the order in which they are declared.
mutual
  pub item_controls : ModTreeItem → List Control
  item_controls (control c) = c ∷ []
  item_controls (benchmark name items) = controls_of items
  item_controls (other_item name items) = []

  pub controls_of : Items → List Control
  controls_of no_items = []
  controls_of (add_item item items) = item_controls item ++ controls_of items

abbrev pub included : Option (List String) → List Control → List Control
included names [] = []
included names (c ∷ controls) =
    if should_include_control names c.short_name
    then c ∷ included names controls
    else included names controls

included-append :
    (names : Option (List String)) (xs ys : List Control)
    → included names (xs ++ ys) ≡ included names xs ++ included names ys
included-append names [] ys = refl
included-append names (c ∷ xs) ys = elim (Bool-cases (should_include_control names c.short_name)) [
  | inl h ↦ rw (h, included-append names xs ys)
  | inr h ↦ rw (h, included-append names xs ys)
]

mutual
  unfolding children_of item_controls

  add_child-tree_runs :
      (names : Option (List String)) (item : ModTreeItem) (rest : Children)
      → (add_child names item rest).tree_runs
        ≡ included names (item_controls item) ++ rest.tree_runs
  add_child-tree_runs names (control c) rest =
      elim (Bool-cases (should_include_control names c.short_name)) [ inl h ↦ rw h | inr h ↦ rw h ]
  add_child-tree_runs names (benchmark name items) rest =
      ap (λ (runs : List Control). runs ++ rest.tree_runs) (children_of-tree_runs names items)
  add_child-tree_runs names (other_item name items) rest = refl

  children_of-tree_runs :
      (names : Option (List String)) (items : Items)
      → (children_of names items).tree_runs ≡ included names (controls_of items)
  children_of-tree_runs names no_items = refl
  children_of-tree_runs names (add_item item items) =
      add_child-tree_runs names item (children_of names items)
      ∙ ap (λ (runs : List Control). included names (item_controls item) ++ runs)
          (children_of-tree_runs names items)
      ∙ sym (included-append names (item_controls item) (controls_of items))

-- The runs of the groups are those of the tree.
record IsComplete (c : Children) : Type 0 where
  counted : length c.runs + groups_run_count c.groups ≡ length c.tree_runs
  ordered : Perm (c.runs ++ groups_order c.groups) c.tree_runs

empty_list : {A : Type 0} (xs : List A) → length xs ≡ 0 → xs ≡ []
empty_list [] h = refl
empty_list (x ∷ xs) h = absurd (omega arith)

no_children-IsComplete : IsComplete no_children
unfolding groups_run_count groups_order
no_children-IsComplete = record { counted = refl; ordered = Perm.refl [] }

add_control-IsComplete :
    (names : Option (List String)) (c : Control) (rest : Children)
    → IsComplete rest
    → IsComplete (add_control names c rest)
unfolding add_control
add_control-IsComplete names c rest ok =
    elim (Bool-cases (should_include_control names c.short_name)) [
      | inl h ↦
          rw h (record { counted = omega (arith, ok.counted); ordered = Perm.cons c ok.ordered })
      | inr h ↦ rw h ok
    ]

move_front :
    {A : Type 0} (r a g s t : List A) → Perm a s → Perm (r ++ g) t → Perm (r ++ (a ++ g)) (s ++ t)
move_front r a g s t p q =
    subst (λ xs. Perm xs (s ++ t)) (append_assoc r a g)
      (Perm.trans (Perm.append_right g (perm_append_comm r a))
        (subst (λ xs. Perm xs (s ++ t)) (sym (append_assoc a r g)) (Perm.append p q)))

add_benchmark-IsComplete :
    (name : String) (sub rest : Children)
    → IsComplete sub
    → IsComplete rest
    → IsComplete (add_benchmark name sub rest)
unfolding add_benchmark control_run_count execution_order
add_benchmark-IsComplete name sub rest ok beside =
    elim (Bool-cases (ltb 0 (control_run_count (node name sub)))) [
      | inl h ↦ rw h (record {
        counted =
            omega (arith, ok.counted, beside.counted, length-append sub.tree_runs rest.tree_runs);
        ordered =
            move_front rest.runs (sub.runs ++ groups_order sub.groups) (groups_order rest.groups)
              sub.tree_runs rest.tree_runs ok.ordered beside.ordered;
      })
      | inr h ↦
          let none : sub.tree_runs ≡ [] = empty_list sub.tree_runs (ground (arith, ok.counted)) in
          rw (h, none) (record { counted = beside.counted; ordered = beside.ordered })
    ]

mutual
  unfolding children_of

  add_child-IsComplete :
      (names : Option (List String)) (item : ModTreeItem) (rest : Children)
      → IsComplete rest
      → IsComplete (add_child names item rest)
  add_child-IsComplete names (control c) rest ok = add_control-IsComplete names c rest ok
  add_child-IsComplete names (benchmark name items) rest ok =
      add_benchmark-IsComplete name (children_of names items) rest
        (children_of-IsComplete names items) ok
  add_child-IsComplete names (other_item name items) rest ok = ok

  children_of-IsComplete :
      (names : Option (List String)) (items : Items) → IsComplete (children_of names items)
  children_of-IsComplete names no_items = no_children-IsComplete
  children_of-IsComplete names (add_item item items) =
      add_child-IsComplete names item (children_of names items) (children_of-IsComplete names items)

-- One group for all that it holds.
grouped-IsComplete :
    (name : String) (sub : Children)
    → IsComplete sub
    → IsComplete (record {
      runs = [];
      groups = add_group (node name sub) no_groups;
      tree_runs = sub.tree_runs;
    })
unfolding control_run_count execution_order
grouped-IsComplete name sub ok = record {
  counted = omega (arith, ok.counted);
  ordered =
      subst (λ xs. Perm xs sub.tree_runs) (sym (append-nil (sub.runs ++ groups_order sub.groups)))
        ok.ordered;
}

root_children-IsComplete :
    (names : Option (List String)) (item : ModTreeItem) → IsComplete (root_children names item)
unfolding root_children
root_children-IsComplete names (control c) =
    add_control-IsComplete names c no_children no_children-IsComplete
root_children-IsComplete names (benchmark name items) =
    grouped-IsComplete name (children_of names items) (children_of-IsComplete names items)
root_children-IsComplete names (other_item name items) =
    grouped-IsComplete name (children_of names items) (children_of-IsComplete names items)

-- The runs of a new tree: the flat list and the groups hold the same number of runs, the progress
-- expects that many, and executing the root comes to each run of the list, once for each time that the
-- list has it.
pub new_execution_tree-IsComplete :
    (names : Option (List String)) (item : ModTreeItem)
    → (let e = new_execution_tree names item in
        (control_run_count e.root ≡ length e.control_runs)
        × (e.progress.total ≡ pos (length e.control_runs))
        × Perm (execution_order e.root) e.control_runs)
unfolding new_execution_tree control_run_count execution_order new_control_progress
new_execution_tree-IsComplete names item =
    let ok = root_children-IsComplete names item in (ok.counted, refl, ok.ordered)

abbrev pub items_of : ModTreeItem → Items
items_of (control c) = add_item (control c) no_items
items_of (benchmark name items) = items
items_of (other_item name items) = items

-- The flat list of a new tree holds exactly the controls that the filter lets through, in the order in
-- which the root item declares them, through benchmarks at any depth.
pub new_execution_tree-included :
    (names : Option (List String)) (item : ModTreeItem)
    → (new_execution_tree names item).control_runs ≡ included names (controls_of (items_of item))
unfolding new_execution_tree root_children add_control controls_of
new_execution_tree-included names (control c) =
    elim (Bool-cases (should_include_control names c.short_name)) [ inl h ↦ rw h | inr h ↦ rw h ]
new_execution_tree-included names (benchmark name items) = children_of-tree_runs names items
new_execution_tree-included names (other_item name items) = children_of-tree_runs names items

-- ===== src/Tests/RbTree.antt =====
-- Runs of ds/rb_tree.h, and the theorems at a tree of three nodes.
use panix.Prelude.{
  ℕ, zero, suc, ◌+◌, ◌≡◌, ◌⊎◌, ◌↔◌, inl, inr, refl, arith, List, [], ◌∷◌, ◌++◌, ◌==◌, if◌then◌else◌,
}
use panix.Prelude.Run.{Run, ok, fault, out_of_fuel, ◌>>=◌, Returns}
use panix.RbTree.State.{
  RbNode, RbTree, red, black, left, find, load, store, get_dir, get_orientation, get_child,
  get_uncle, get_sibling, get_nephew, outermost,
}
use panix.RbTree.Methods.{insert, rotate, bst_insert, post_insert_fix, post_insert_loop}
use panix.RbTree.Delete.{delete, bst_delete, pre_deletion_fix, pre_deletion_loop}
use panix.RbTree.Shape.{Tree, nil, node, Holds, Distinct, Ordered, Has}
use panix.RbTree.Find.{IsFound, find-IsFound}
use panix.RbTree.Keys.{bst_insert-Ordered}
use panix.RbTree.Rotate.{IsRotated, rotate-IsRotated}

abbrev no_nodes : RbTree ℕ
no_nodes = record {
  root = 0;
  num_keys = 0;
  nodes = λ a. record {
    key = 0;
    value = 0;
    color = black;
    left_child = 0;
    right_child = 0;
    parent = 0;
  };
}

abbrev keys_from : ℕ → ℕ → (ℕ → RbNode ℕ) → List ℕ
keys_from zero n h = []
keys_from (suc fuel) n h =
    let below = keys_from fuel ((h n).left_child) h in
    let above = keys_from fuel ((h n).right_child) h in
    if n == 0 then [] else below ++ ((h n).key ∷ above)

-- The keys in order; 0 for a fault or a lack of fuel.
abbrev keys : Run (RbTree ℕ) → List ℕ
keys (ok t) = keys_from 8 t.root t.nodes
keys (fault why) = 0 ∷ []
keys out_of_fuel = 0 ∷ []

abbrev insert_all : List ℕ → RbTree ℕ → Run (RbTree ℕ)
insert_all [] t = ok t
insert_all (k ∷ ks) t = insert 10 (k + 100) k k t >>= λ r. insert_all ks (r.1)

-- The node that takes the place of the deleted one has a child, which is lost with it.
delete_loses :
    keys (insert_all (10 ∷ 5 ∷ 15 ∷ 3 ∷ []) no_nodes >>= λ t. delete 10 10 t >>= λ r. ok (r.1))
    ≡ 5 ∷ 15 ∷ []
unfolding insert delete bst_insert post_insert_fix post_insert_loop rotate bst_delete
    pre_deletion_fix pre_deletion_loop load store get_dir get_orientation get_child get_uncle
    get_sibling get_nephew find outermost
delete_loses = refl

-- Node 1 with key 10 above node 2 with key 5 and node 3 with key 15.
abbrev three : ℕ → RbNode ℕ
three a =
    if a == 1
    then record { key = 10; value = 0; color = black; left_child = 2; right_child = 3; parent = 0 }
    else if a == 2
    then record { key = 5; value = 0; color = red; left_child = 0; right_child = 0; parent = 1 }
    else record { key = 15; value = 0; color = red; left_child = 0; right_child = 0; parent = 1 }

abbrev three_keys : Tree
three_keys = node (node nil 2 5 nil) 1 10 (node nil 3 15 nil)

three-Holds : Holds three 1 0 three_keys
three-Holds = (
  refl,
  ground arith,
  refl,
  refl,
  (refl, ground arith, refl, refl, refl, refl),
  (refl, ground arith, refl, refl, refl, refl),
)

three-Distinct : Distinct three_keys
three-Distinct = (
  (ground arith, tt, tt),
  (ground arith, tt, tt),
  ((ground arith, tt, tt), tt, tt),
  ((ground arith, tt, tt), tt, tt),
  (tt, tt, tt, tt, tt, tt),
  (tt, tt, tt, tt, tt, tt),
)

three-Ordered : Ordered 0 100 three_keys
three-Ordered = (
  omega arith,
  omega arith,
  (omega arith, omega arith, tt, tt),
  (omega arith, omega arith, tt, tt),
)

find-IsFound_example : Returns (find 2 1 5 three) (IsFound three 5 three_keys)
find-IsFound_example =
    find-IsFound three 2 1 0 0 100 5 three_keys three-Holds (ground arith) three-Ordered
      (omega arith)

seven_absent : Has 7 three_keys → ⊥
seven_absent h = elim h [
  | inl e ↦ absurd (omega arith)
  | inr (inl (inl e)) ↦ absurd (omega arith)
  | inr (inl (inr (inl n))) ↦ n
  | inr (inl (inr (inr n))) ↦ n
  | inr (inr (inl e)) ↦ absurd (omega arith)
  | inr (inr (inr (inl n))) ↦ n
  | inr (inr (inr (inr n))) ↦ n
]

bst_insert-Ordered_example : Returns (bst_insert 2 4 7 0 1 three) λ r.
    (r.0 ≡ 4)
    × ((t' : Tree) × Holds (r.1) 1 0 t'
        × Ordered 0 100 t'
        × ((x : ℕ) → Has x t' ↔ ((7 ≡ x) ⊎ Has x three_keys)))
bst_insert-Ordered_example =
    bst_insert-Ordered 2 4 7 0 100 0 1 0 three_keys three three-Holds (ground arith) three-Distinct
      (ground arith, (ground arith, tt, tt), (ground arith, tt, tt)) (ground arith) seven_absent
      (omega arith) (omega arith) (omega arith) three-Ordered

abbrev three_tree : RbTree ℕ
three_tree = record { root = 1; num_keys = 3; nodes = three }

rotate-IsRotated_example :
    Returns
      (rotate left 1 three_tree)
      λ t'. IsRotated left three_tree t' 0 1 10 3 15 (node nil 2 5 nil) nil nil
rotate-IsRotated_example =
    rotate-IsRotated left three_tree 0 1 10 3 15 (node nil 2 5 nil) nil nil three-Holds
      three-Distinct (ground arith, (ground arith, tt, tt), (ground arith, tt, tt))

-- ===== src/RbTree/Keys.antt =====
-- The keys of a tree of ds/rb_tree.h after `BstInsert`.
use panix.Prelude.{
  ℕ, suc, ◌<◌, ◌≤◌, ◌≡◌, ◌≢◌, ◌⊎◌, ◌↔◌, inl, inr, ◌∙◌, arith, ltb, ltb→lt, ltb→le, Bool-cases,
}
use panix.Prelude.Run.{Returns}
use panix.RbTree.State.{RbNode}
use panix.RbTree.Shape.{Tree, nil, node, depth, Ordered, Has, Holds, Without, Distinct}
use panix.RbTree.Methods.{bst_insert}
use panix.RbTree.Leaf.{tree_insert}
use panix.RbTree.Grow.{bst_insert-IsGrown}

tree_insert-Ordered :
    (lo hi new key : ℕ) (t : Tree)
    → lo ≤ key
    → key < hi
    → Ordered lo hi t
    → Ordered lo hi (tree_insert new key t)
tree_insert-Ordered lo hi new key nil from until o = (from, until, tt, tt)
tree_insert-Ordered lo hi new key (node l a k r) from until (p, q, ol, or) =
    elim (Bool-cases (ltb key k)) [
      | inl less ↦
          rw less (p, q, tree_insert-Ordered lo k new key l from (ltb→lt key k less) ol, or)
      | inr not_less ↦ elim (Bool-cases (ltb k key)) [
        | inl more ↦
            rw (not_less, more)
              (p, q, ol, tree_insert-Ordered (suc k) hi new key r (ltb→lt k key more) until or)
        | inr not_more ↦ rw (not_less, not_more) (p, q, ol, or)
      ]
    ]

-- A key joins one of two alternatives.
swap_in : (K L R N L' : Type 0) → (L' ↔ (N ⊎ L)) → (K ⊎ (L' ⊎ R)) ↔ (N ⊎ (K ⊎ (L ⊎ R)))
swap_in K L R N L' (to, from) = (
  λ h. elim h [
    | inl k ↦ inr (inl k)
    | inr (inl l) ↦ elim (to l) [ inl n ↦ inl n | inr l' ↦ inr (inr (inl l')) ]
    | inr (inr r) ↦ inr (inr (inr r))
  ],
  λ h. elim h [
    | inl n ↦ inr (inl (from (inl n)))
    | inr (inl k) ↦ inl k
    | inr (inr (inl l)) ↦ inr (inl (from (inr l)))
    | inr (inr (inr r)) ↦ inr (inr r)
  ],
)

swap_last : (K L R N R' : Type 0) → (R' ↔ (N ⊎ R)) → (K ⊎ (L ⊎ R')) ↔ (N ⊎ (K ⊎ (L ⊎ R)))
swap_last K L R N R' (to, from) = (
  λ h. elim h [
    | inl k ↦ inr (inl k)
    | inr (inl l) ↦ inr (inr (inl l))
    | inr (inr r) ↦ elim (to r) [ inl n ↦ inl n | inr r' ↦ inr (inr (inr r')) ]
  ],
  λ h. elim h [
    | inl n ↦ inr (inr (from (inl n)))
    | inr (inl k) ↦ inl k
    | inr (inr (inl l)) ↦ inr (inl l)
    | inr (inr (inr r)) ↦ inr (inr (from (inr r)))
  ],
)

tree_insert-Has : (x new key : ℕ) (t : Tree) → Has x (tree_insert new key t) ↔ ((key ≡ x) ⊎ Has x t)
tree_insert-Has x new key nil = (
  λ h. elim h [ inl e ↦ inl e | inr (inl n) ↦ absurd n | inr (inr n) ↦ absurd n ],
  λ h. elim h [ inl e ↦ inl e | inr n ↦ absurd n ],
)
tree_insert-Has x new key (node l a k r) = elim (Bool-cases (ltb key k)) [
  | inl less ↦
      let ih = tree_insert-Has x new key l in
      rw less (swap_in (k ≡ x) (Has x l) (Has x r) (key ≡ x) (Has x (tree_insert new key l)) ih)
  | inr not_less ↦ elim (Bool-cases (ltb k key)) [
    | inl more ↦
        let ih = tree_insert-Has x new key r in
        rw (not_less, more)
          (swap_last (k ≡ x) (Has x l) (Has x r) (key ≡ x) (Has x (tree_insert new key r)) ih)
    | inr not_more ↦
        let same : k ≡ key = omega (arith, ltb→le key k not_less, ltb→le k key not_more) in
        rw (not_less, not_more) (inr, λ h. elim h [ inl e ↦ inl (same ∙ e) | inr old ↦ old ])
  ]
]

-- `BstInsert` of a key between the bounds that the tree does not have ends, with a round for each level, and returns the new
-- node: the pointer then leads to a tree whose keys are in order, between the bounds, and are those of before and the new one.
pub bst_insert-Ordered {ℓ} :
    {V : Type ℓ} (fuel new key lo hi : ℕ) (v : V) (p par : ℕ) (t : Tree) (h : ℕ → RbNode V)
    → Holds h p par t
    → p ≢ 0
    → Distinct t
    → Without new t
    → new ≢ 0
    → (Has key t → ⊥)
    → depth t ≤ fuel
    → lo ≤ key
    → key < hi
    → Ordered lo hi t
    → Returns (bst_insert fuel new key v p h) λ r.
      (r.0 ≡ new)
      × ((t' : Tree) × Holds (r.1) p par t'
          × Ordered lo hi t'
          × ((x : ℕ) → Has x t' ↔ ((key ≡ x) ⊎ Has x t)))
bst_insert-Ordered fuel new key lo hi v p par t h hold nz dis w new_nz absent deep from until o =
    let (r, run, (is_new, grown, _)) =
      bst_insert-IsGrown fuel new key v p par t h hold nz dis w new_nz absent deep in
    (
      r,
      run,
      (
        is_new,
        (
          tree_insert new key t,
          grown,
          tree_insert-Ordered lo hi new key t from until o,
          λ x. tree_insert-Has x new key t,
        ),
      ),
    )

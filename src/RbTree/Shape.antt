-- ===== src/RbTree/Shape.antt =====
-- The trees that the nodes of ds/rb_tree.h form.
use panix.Prelude.{
  ℕ, suc, ◌<◌, ◌≤◌, ◌≡◌, ◌≢◌, ◌⊎◌, inl, inr, refl, ap, sym, ◌∙◌, subst, max, eq_true, eq_false,
}
use panix.RbTree.State.{RbNode, store}

-- A node has an address and a key.
pub data Tree : Type 0 where
  nil : Tree
  node : Tree → ℕ → ℕ → Tree → Tree

abbrev pub depth : Tree → ℕ
depth nil = 0
depth (node l a k r) = suc (max (depth l) (depth r))

abbrev pub IsNode : ℕ → Tree → Type 0
IsNode x nil = ⊥
IsNode x (node l a k r) = (x ≡ a) ⊎ (IsNode x l ⊎ IsNode x r)

-- The address is none of the tree's.
abbrev pub Without : ℕ → Tree → Type 0
Without x nil = Unit
Without x (node l a k r) = (x ≢ a) × Without x l × Without x r

-- The addresses of the first tree are none of the second's.
abbrev pub Disjoint : Tree → Tree → Type 0
Disjoint nil t = Unit
Disjoint (node l a k r) t = Without a t × Disjoint l t × Disjoint r t

abbrev pub Distinct : Tree → Type 0
Distinct nil = Unit
Distinct (node l a k r) =
    Without a l × Without a r × Disjoint r l × Disjoint l r × Distinct l × Distinct r

-- The keys are in order, and between bounds.
abbrev pub Ordered : ℕ → ℕ → Tree → Type 0
Ordered lo hi nil = Unit
Ordered lo hi (node l a k r) = (lo ≤ k) × (k < hi) × Ordered lo k l × Ordered (suc k) hi r

abbrev pub Has : ℕ → Tree → Type 0
Has key nil = ⊥
Has key (node l a k r) = (k ≡ key) ⊎ (Has key l ⊎ Has key r)

module _ {ℓ} {V : Type ℓ} where
  -- The pointer leads to the tree, and each node to its parent.
  abbrev pub Holds : (ℕ → RbNode V) → ℕ → ℕ → Tree → Type 0
  Holds h p par nil = p ≡ 0
  Holds h p par (node l a k r) =
      (p ≡ a)
      × (a ≢ 0)
      × ((h a).key ≡ k)
      × ((h a).parent ≡ par)
      × Holds h ((h a).left_child) a l
      × Holds h ((h a).right_child) a r

  -- A memory that is the same at a tree's addresses holds it too.
  pub Holds-same :
      (h h' : ℕ → RbNode V) (p par : ℕ) (t : Tree)
      → ((x : ℕ) → IsNode x t → h' x ≡ h x)
      → Holds h p par t
      → Holds h' p par t
  Holds-same h h' p par nil same hold = hold
  Holds-same h h' p par (node l a k r) same (at, nz, key, up, lower, higher) =
      let here = same a (inl refl) in
      (
        at,
        nz,
        ap (λ (n : RbNode V). n.key) here ∙ key,
        ap (λ (n : RbNode V). n.parent) here ∙ up,
        subst (λ (n : RbNode V). Holds h' n.left_child a l) (sym here)
            (Holds-same h h' ((h a).left_child) a l (λ x i. same x (inr (inl i))) lower),
        subst (λ (n : RbNode V). Holds h' n.right_child a r) (sym here)
            (Holds-same h h' ((h a).right_child) a r (λ x i. same x (inr (inr i))) higher),
      )

  pub store_at : (h : ℕ → RbNode V) (a : ℕ) (n : RbNode V) → store h a n a ≡ n
  unfolding store
  store_at h a n = rw (eq_true a a refl) refl

  pub store_other : (h : ℕ → RbNode V) (a x : ℕ) (n : RbNode V) → x ≢ a → store h a n x ≡ h x
  unfolding store
  store_other h a x n ne = rw (eq_false x a ne) refl

pub Without-ne : (x y : ℕ) (t : Tree) → Without y t → IsNode x t → x ≢ y
Without-ne x y nil w i = absurd i
Without-ne x y (node l a k r) (ne, wl, wr) i = elim i [
  | inl at ↦ λ e. ne (sym e ∙ at)
  | inr (inl lower) ↦ Without-ne x y l wl lower
  | inr (inr higher) ↦ Without-ne x y r wr higher
]

pub Disjoint-Without : (x : ℕ) (s t : Tree) → Disjoint s t → IsNode x s → Without x t
Disjoint-Without x nil t d i = absurd i
Disjoint-Without x (node l a k r) t (here, dl, dr) i = elim i [
  | inl at ↦ subst (λ z. Without z t) (sym at) here
  | inr (inl lower) ↦ Disjoint-Without x l t dl lower
  | inr (inr higher) ↦ Disjoint-Without x r t dr higher
]

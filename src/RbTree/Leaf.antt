-- ===== src/RbTree/Leaf.antt =====
-- A leaf that is hung into a tree of ds/rb_tree.h.
use panix.Prelude.{
  ℕ, ◌≡◌, ◌≢◌, refl, ap, sym, ◌∙◌, subst, true, false, ltb, if◌then◌else◌, eq_false,
}
use panix.Prelude.Run.{ok}
use panix.RbTree.State.{RbNode, load, store, red, left, right, Direction, set_child}
use panix.RbTree.Shape.{
  Tree, nil, node, Holds, Holds-same, Without, Without-ne, Disjoint, Disjoint-Without, store_at,
  store_other,
}
use panix.RbTree.Methods.{hang, new_leaf}

-- The tree with a leaf for the key.
abbrev pub tree_insert : ℕ → ℕ → Tree → Tree
tree_insert new key nil = node nil new key nil
tree_insert new key (node l a k r) =
    let lower = tree_insert new key l in
    let higher = tree_insert new key r in
    if ltb key k then node lower a k r else if ltb k key then node l a k higher else node l a k r

-- The tree grows on the left, or on the right.
pub grows_left :
    (new key a k : ℕ) (l r : Tree)
    → ltb key k ≡ true
    → node (tree_insert new key l) a k r ≡ tree_insert new key (node l a k r)
grows_left new key a k l r less = rw less refl

pub grows_right :
    (new key a k : ℕ) (l r : Tree)
    → ltb key k ≡ false
    → ltb k key ≡ true
    → node l a k (tree_insert new key r) ≡ tree_insert new key (node l a k r)
grows_right new key a k l r not_less more = rw (not_less, more) refl

module _ {ℓ} {V : Type ℓ} where
  -- Nothing changes but at the tree's addresses and the new one.
  abbrev pub SameBut : ℕ → Tree → (ℕ → RbNode V) → (ℕ → RbNode V) → Type ℓ
  SameBut new t h h' = (x : ℕ) → x ≢ new → Without x t → h' x ≡ h x

  module _ (h h' : ℕ → RbNode V) (p par new a k : ℕ) (l r : Tree)
      (hold : Holds h p par (node l a k r)) (ne : a ≢ new) where
    pub graft_left :
        (l' : Tree)
        → Without a l
        → Disjoint r l
        → Without new r
        → Holds h' ((h a).left_child) a l'
        → SameBut new l h h'
        → Holds h' p par (node l' a k r)
    graft_left l' wl d wr grown same =
        let (at, nz, key, up, lower, higher) = hold in
        let here = same a ne wl in
        (
          at,
          nz,
          ap (λ (n : RbNode V). n.key) here ∙ key,
          ap (λ (n : RbNode V). n.parent) here ∙ up,
          subst (λ (n : RbNode V). Holds h' n.left_child a l') (sym here) grown,
          subst (λ (n : RbNode V). Holds h' n.right_child a r) (sym here)
              (Holds-same h h' ((h a).right_child) a r
                (λ x i. same x (Without-ne x new r wr i) (Disjoint-Without x r l d i)) higher),
        )

    pub graft_right :
        (r' : Tree)
        → Without a r
        → Disjoint l r
        → Without new l
        → Holds h' ((h a).right_child) a r'
        → SameBut new r h h'
        → Holds h' p par (node l a k r')
    graft_right r' wr d wl grown same =
        let (at, nz, key, up, lower, higher) = hold in
        let here = same a ne wr in
        (
          at,
          nz,
          ap (λ (n : RbNode V). n.key) here ∙ key,
          ap (λ (n : RbNode V). n.parent) here ∙ up,
          subst (λ (n : RbNode V). Holds h' n.left_child a l) (sym here)
              (Holds-same h h' ((h a).left_child) a l
                (λ x i. same x (Without-ne x new l wl i) (Disjoint-Without x l r d i)) lower),
          subst (λ (n : RbNode V). Holds h' n.right_child a r') (sym here) grown,
        )

  -- The memory once a leaf hangs below the node.
  abbrev pub hung : Direction → ℕ → ℕ → V → ℕ → (ℕ → RbNode V) → ℕ → RbNode V
  hung dir new key v a h =
      let h0 = store h new (new_leaf key v red a) in store h0 a (set_child dir new (h0 a))

  module _ (h : ℕ → RbNode V) (dir : Direction) (p par new key a k : ℕ) (v : V) (ne : a ≢ new)
      (nz : new ≢ 0) where
    abbrev h0 : ℕ → RbNode V
    h0 = store h new (new_leaf key v red a)

    abbrev h1 : ℕ → RbNode V
    h1 = hung dir new key v a h

    other : (x : ℕ) → x ≢ a → x ≢ new → h1 x ≡ h x
    other x na nn = store_other _ a x _ na ∙ store_other h new x _ nn

    at_node : h1 a ≡ set_child dir new (h a)
    at_node = store_at _ a _ ∙ ap (set_child dir new) (store_other h new a _ ne)

    leaf : h1 new ≡ new_leaf key v red a
    leaf = store_other _ a new _ (λ e. ne (sym e)) ∙ store_at h new _

    leaf-Holds : Holds h1 new a (node nil new key nil)
    leaf-Holds = (
      refl,
      nz,
      ap (λ (n : RbNode V). n.key) leaf,
      ap (λ (n : RbNode V). n.parent) leaf,
      ap (λ (n : RbNode V). n.left_child) leaf,
      ap (λ (n : RbNode V). n.right_child) leaf,
    )

    kept : (q : ℕ) (t : Tree) → Without a t → Without new t → Holds h q a t → Holds h1 q a t
    kept q t wa wn hold =
        Holds-same h h1 q a t (λ x i. other x (Without-ne x a t wa i) (Without-ne x new t wn i))
          hold

  module _ (h : ℕ → RbNode V) (p par new key a k : ℕ) (v : V) (ne : a ≢ new) (nz : new ≢ 0) where
    pub hung_left :
        (r : Tree)
        → Without a r
        → Without new r
        → Holds h p par (node nil a k r)
        → Holds (hung left new key v a h) p par (node (node nil new key nil) a k r)
    hung_left r wa wn (at, anz, key_at, up, lower, higher) =
        let here = at_node h left p par new key a k v ne nz in
        let h1 = hung left new key v a h in
        (
          at,
          anz,
          ap (λ (n : RbNode V). n.key) here ∙ key_at,
          ap (λ (n : RbNode V). n.parent) here ∙ up,
          subst (λ (n : RbNode V). Holds h1 n.left_child a (node nil new key nil)) (sym here)
              (leaf-Holds h left p par new key a k v ne nz),
          subst (λ (n : RbNode V). Holds h1 n.right_child a r) (sym here)
              (kept h left p par new key a k v ne nz ((h a).right_child) r wa wn higher),
        )

    pub hung_right :
        (l : Tree)
        → Without a l
        → Without new l
        → Holds h p par (node l a k nil)
        → Holds (hung right new key v a h) p par (node l a k (node nil new key nil))
    hung_right l wa wn (at, anz, key_at, up, lower, higher) =
        let here = at_node h right p par new key a k v ne nz in
        let h1 = hung right new key v a h in
        (
          at,
          anz,
          ap (λ (n : RbNode V). n.key) here ∙ key_at,
          ap (λ (n : RbNode V). n.parent) here ∙ up,
          subst (λ (n : RbNode V). Holds h1 n.left_child a l) (sym here)
              (kept h right p par new key a k v ne nz ((h a).left_child) l wa wn lower),
          subst (λ (n : RbNode V). Holds h1 n.right_child a (node nil new key nil)) (sym here)
              (leaf-Holds h right p par new key a k v ne nz),
        )

  pub hang-ok :
      (dir : Direction) (new key : ℕ) (v : V) (a : ℕ) (h : ℕ → RbNode V)
      → a ≢ 0
      → hang dir new key v a h ≡ ok (new, hung dir new key v a h)
  unfolding load
  hang-ok dir new key v a h nz = rw (eq_false a 0 nz) refl

  -- What `BstInsert` leaves.
  abbrev pub IsGrown : ℕ → ℕ → ℕ → ℕ → Tree → (ℕ → RbNode V) → ℕ × (ℕ → RbNode V) → Type ℓ
  IsGrown new key p par t h r =
      (r.0 ≡ new) × Holds (r.1) p par (tree_insert new key t) × SameBut new t h (r.1)

-- ===== src/RbTree/Grow.antt =====
-- `BstInsert` of ds/rb_tree.h.
use panix.Prelude.{
  ℕ, zero, suc, ◌≤◌, ◌≡◌, ◌≢◌, inl, inr, refl, ap, sym, ◌∙◌, subst, arith, true, false, ltb, ltb→le,
  if◌then◌else◌, ◌==◌, eq_false, Bool-cases, ==_iff,
}
use panix.Prelude.Run.{Returns}
use panix.RbTree.State.{RbNode, load, left, right}
use panix.RbTree.Shape.{Tree, nil, node, depth, Has, Holds, Without, Distinct, store_other}
use panix.RbTree.Methods.{bst_insert, hang}
use panix.RbTree.Leaf.{
  tree_insert, grows_left, grows_right, SameBut, graft_left, graft_right, hung, hung_left,
  hung_right, hang-ok, IsGrown,
}

module _ {ℓ} {V : Type ℓ} where
  null-nil : (h : ℕ → RbNode V) (p par : ℕ) (t : Tree) → Holds h p par t → p ≡ 0 → t ≡ nil
  null-nil h p par nil hold z = refl
  null-nil h p par (node l a k r) (at, anz, _, _, _, _) z = absurd (anz (sym at ∙ z))

  same_left :
      (h : ℕ → RbNode V) (new key a k : ℕ) (v : V) (l r : Tree)
      → SameBut new (node l a k r) h (hung left new key v a h)
  same_left h new key a k v l r x nn (na, wl, wr) =
      store_other _ a x _ na ∙ store_other h new x _ nn

  same_right :
      (h : ℕ → RbNode V) (new key a k : ℕ) (v : V) (l r : Tree)
      → SameBut new (node l a k r) h (hung right new key v a h)
  same_right h new key a k v l r x nn (na, wl, wr) =
      store_other _ a x _ na ∙ store_other h new x _ nn

  -- One level of the descent.
  run_left :
      (fuel new key : ℕ) (v : V) (a k : ℕ) (h : ℕ → RbNode V)
      → a ≢ 0
      → (h a).key ≡ k
      → ltb key k ≡ true
      → bst_insert (suc fuel) new key v a h ≡ (
          if (h a).left_child == 0
          then hang left new key v a h
          else bst_insert fuel new key v ((h a).left_child) h)
  unfolding bst_insert load
  run_left fuel new key v a k h nz key_at less =
      let test : ltb key ((h a).key) ≡ true = ap (ltb key) key_at ∙ less in
      rw (eq_false a 0 nz, test) refl

  run_right :
      (fuel new key : ℕ) (v : V) (a k : ℕ) (h : ℕ → RbNode V)
      → a ≢ 0
      → (h a).key ≡ k
      → ltb key k ≡ false
      → ltb k key ≡ true
      → bst_insert (suc fuel) new key v a h ≡ (
          if (h a).right_child == 0
          then hang right new key v a h
          else bst_insert fuel new key v ((h a).right_child) h)
  unfolding bst_insert load
  run_right fuel new key v a k h nz key_at not_less more =
      let test : ltb key ((h a).key) ≡ false = ap (ltb key) key_at ∙ not_less in
      let test' : ltb ((h a).key) key ≡ true = ap (λ n. ltb n key) key_at ∙ more in
      rw (eq_false a 0 nz, test, test') refl

  -- What holds of the descent into a child.
  abbrev Descends : ℕ → ℕ → ℕ → V → ℕ → Tree → (ℕ → RbNode V) → Type ℓ
  Descends fuel new key v par t h =
      (p : ℕ)
      → Holds h p par t
      → p ≢ 0
      → Returns (bst_insert fuel new key v p h) (IsGrown new key p par t h)

  module _ (fuel new key : ℕ) (v : V) (par a k : ℕ) (l r : Tree) (h : ℕ → RbNode V)
      (hold : Holds h a par (node l a k r)) (dis : Distinct (node l a k r))
      (w : Without new (node l a k r)) (nz : new ≢ 0) where
    descend_left :
        ltb key k ≡ true
        → Descends fuel new key v a l h
        → Returns (bst_insert (suc fuel) new key v a h) (IsGrown new key a par (node l a k r) h)
    descend_left less further =
        let (_, anz, key_at, up, lower, higher) = hold in
        let (wal, war, drl, dlr, dl, dr) = dis in
        let (nna, wl, wr) = w in
        let ne : a ≢ new = λ e. nna (sym e) in
        let grows = grows_left new key a k l r less in
        subst (λ run. Returns run (IsGrown new key a par (node l a k r) h))
          (sym (run_left fuel new key v a k h anz key_at less))
          (elim (Bool-cases ((h a).left_child == 0)) [
            | inl null ↦
                let e =
                  null-nil h ((h a).left_child) a l lower ((==_iff ((h a).left_child) 0).0 null) in
                let h1 = hung left new key v a h in
                let grown =
                  hung_left h a par new key a k v ne nz r war wr
                    (subst (λ s. Holds h a par (node s a k r)) e hold) in
                rw null (
                  (new, h1),
                  hang-ok left new key v a h anz,
                  (
                    refl,
                    subst (Holds h1 a par)
                        (ap (λ s. node (tree_insert new key s) a k r) (sym e) ∙ grows) grown,
                    same_left h new key a k v l r,
                  ),
                )
            | inr child ↦
                let (res, run, (is_new, grown, same)) =
                  further ((h a).left_child) lower (ground arith) in
                rw child (
                  res,
                  run,
                  (
                    is_new,
                    subst (Holds (res.1) a par) grows (
                        graft_left h (res.1) a par new a k l r hold ne (tree_insert new key l) wal
                          drl wr grown same),
                    λ x nn o. same x nn (o.1),
                  ),
                )
          ])

    descend_right :
        ltb key k ≡ false
        → ltb k key ≡ true
        → Descends fuel new key v a r h
        → Returns (bst_insert (suc fuel) new key v a h) (IsGrown new key a par (node l a k r) h)
    descend_right not_less more further =
        let (_, anz, key_at, up, lower, higher) = hold in
        let (wal, war, drl, dlr, dl, dr) = dis in
        let (nna, wl, wr) = w in
        let ne : a ≢ new = λ e. nna (sym e) in
        let grows = grows_right new key a k l r not_less more in
        subst (λ run. Returns run (IsGrown new key a par (node l a k r) h))
          (sym (run_right fuel new key v a k h anz key_at not_less more))
          (elim (Bool-cases ((h a).right_child == 0)) [
            | inl null ↦
                let e =
                  null-nil h ((h a).right_child) a r higher
                    ((==_iff ((h a).right_child) 0).0 null) in
                let h1 = hung right new key v a h in
                let grown =
                  hung_right h a par new key a k v ne nz l wal wl
                    (subst (λ s. Holds h a par (node l a k s)) e hold) in
                rw null (
                  (new, h1),
                  hang-ok right new key v a h anz,
                  (
                    refl,
                    subst (Holds h1 a par)
                        (ap (λ s. node l a k (tree_insert new key s)) (sym e) ∙ grows) grown,
                    same_right h new key a k v l r,
                  ),
                )
            | inr child ↦
                let (res, run, (is_new, grown, same)) =
                  further ((h a).right_child) higher (ground arith) in
                rw child (
                  res,
                  run,
                  (
                    is_new,
                    subst (Holds (res.1) a par) grows (
                        graft_right h (res.1) a par new a k l r hold ne (tree_insert new key r) war
                          dlr wl grown same),
                    λ x nn o. same x nn (o.2),
                  ),
                )
          ])

  -- `BstInsert` of a key that the tree below the node does not have ends, with a round for each level: the tree then
  -- has a leaf with the key at the new address, its parents lead to it, and no other memory has changed.
  pub bst_insert-IsGrown :
      (fuel new key : ℕ) (v : V) (p par : ℕ) (t : Tree) (h : ℕ → RbNode V)
      → Holds h p par t
      → p ≢ 0
      → Distinct t
      → Without new t
      → new ≢ 0
      → (Has key t → ⊥)
      → depth t ≤ fuel
      → Returns (bst_insert fuel new key v p h) (IsGrown new key p par t h)
  bst_insert-IsGrown fuel new key v p par nil h hold pnz dis w nz absent deep = absurd (pnz hold)
  bst_insert-IsGrown zero new key v p par (node l a k r) h hold pnz dis w nz absent deep =
      absurd (omega arith)
  bst_insert-IsGrown (suc fuel) new key v p par (node l a k r) h hold pnz dis w nz absent deep =
      let at = hold.0 in
      let here : Holds h a par (node l a k r) = (refl, hold.1, hold.2, hold.3, hold.4, hold.5) in
      let (_, _, _, _, dl, dr) = dis in
      subst
        (λ q.
          Returns (bst_insert (suc fuel) new key v q h) (IsGrown new key q par (node l a k r) h))
        (sym at)
        (elim (Bool-cases (ltb key k)) [
          | inl less ↦ descend_left fuel new key v par a k l r h here dis w nz less (λ c hold' cnz.
              bst_insert-IsGrown fuel new key v c a l h hold' cnz dl (w.1) nz
                (λ has. absent (inr (inl has))) (omega arith))
          | inr not_less ↦ elim (Bool-cases (ltb k key)) [
            | inr not_more ↦
                absurd (absent (inl (omega (arith, ltb→le key k not_less, ltb→le k key not_more))))
            | inl more ↦
                descend_right fuel new key v par a k l r h here dis w nz not_less more
                  (λ c hold' cnz.
                    bst_insert-IsGrown fuel new key v c a r h hold' cnz dr (w.2) nz
                      (λ has. absent (inr (inr has))) (omega arith))
          ]
        ])

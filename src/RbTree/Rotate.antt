-- ===== src/RbTree/Rotate.antt =====
-- `Rotate` of ds/rb_tree.h.
use panix.Prelude.{ℕ, ◌≡◌, ◌≢◌, inl, refl, ap, sym, ◌∙◌, subst, ◌==◌, if◌then◌else◌}
use panix.Prelude.Run.{Returns}
use panix.RbTree.State.{RbNode, RbTree, Direction, invert_dir, child, set_child}
use panix.RbTree.Shape.{
  Tree, nil, node, IsNode, Ordered, Holds, Holds-same, Without, Without-ne, Disjoint,
  Disjoint-Without, Distinct,
}
use panix.RbTree.Sides.{
  side, side-Without, side-Disjoint, side-Distinct, side-Holds, Holds-side, Holds-reparent,
  child-set, set_child-fields, child-with_parent, Ordered-rotated,
}
use panix.RbTree.Methods.{rotate, rotate_nodes}
use panix.RbTree.Rotated.{
  rotated, load-ok, at_a, at_b, at_c, at_q, elsewhere, rotate_nodes-ok, hangs,
}

module _ {ℓ} {V : Type ℓ} where
  rotate-loads :
      (dir : Direction) (a : ℕ) (t : RbTree V)
      → a ≢ 0
      → child (invert_dir dir) (t.nodes a) ≢ 0
      → rotate dir a t
        ≡ rotate_nodes dir a
            (child (invert_dir dir) (t.nodes a))
            (child dir (t.nodes (child (invert_dir dir) (t.nodes a))))
            ((t.nodes a).parent)
            t
  unfolding rotate
  rotate-loads dir a t anz bnz =
      rw (load-ok t.nodes a anz, load-ok t.nodes (child (invert_dir dir) (t.nodes a)) bnz) refl

  -- The pointers of a node and its child are those of a tree.
  rotate-nodes :
      (dir : Direction) (a b c q : ℕ) (t : RbTree V)
      → a ≢ 0
      → b ≢ 0
      → child (invert_dir dir) (t.nodes a) ≡ b
      → child dir (t.nodes b) ≡ c
      → (t.nodes a).parent ≡ q
      → rotate dir a t ≡ rotate_nodes dir a b c q t
  rotate-nodes dir a b c q t anz bnz to_b to_c up =
      rotate-loads dir a t anz (λ z. bnz (sym to_b ∙ z))
      ∙ ap (λ x. rotate_nodes dir a x (child dir (t.nodes x)) ((t.nodes a).parent) t) to_b
      ∙ ap (λ x. rotate_nodes dir a b x ((t.nodes a).parent) t) to_c
      ∙ ap (λ x. rotate_nodes dir a b c x t) up

  -- What a rotation of the node `a` makes of its tree, and what of the parent.
  pub record IsRotated (dir : Direction) (t t' : RbTree V) (q a k b kb : ℕ) (l i r : Tree)
      : Type ℓ where
    pub holds : Holds t'.nodes b q (side dir (side dir l a k i) b kb r)
    pub root : t'.root ≡ (if q == 0 then b else t.root)
    pub parent : q ≢ 0 → t'.nodes q ≡ set_child (hangs a q t.nodes) b (t.nodes q)
    pub others :
        (x : ℕ) → Without x (side dir l a k (side dir i b kb r)) → x ≢ q → t'.nodes x ≡ t.nodes x
    pub order :
        (lo hi : ℕ)
        → Ordered lo hi (side dir l a k (side dir i b kb r))
        → Ordered lo hi (side dir (side dir l a k i) b kb r)

  -- The inner grandchild is null, or the first node of its tree.
  inner-IsNode : (h : ℕ → RbNode V) (c par : ℕ) (i : Tree) → Holds h c par i → c ≢ 0 → IsNode c i
  inner-IsNode h c par nil hold nz = absurd (nz hold)
  inner-IsNode h c par (node il x k ir) hold nz = inl (hold.0)

  -- `Rotate` of a node whose child on the other side is there, where the parent is no node of the tree below: it ends, the
  -- child stands in the place of the node, the keys are in the same order as before, every parent pointer is right, and
  -- other nodes have not changed.
  pub rotate-IsRotated :
      (dir : Direction) (t : RbTree V) (q a k b kb : ℕ) (l i r : Tree)
      → Holds t.nodes a q (side dir l a k (side dir i b kb r))
      → Distinct (side dir l a k (side dir i b kb r))
      → Without q (side dir l a k (side dir i b kb r))
      → Returns (rotate dir a t) λ t'. IsRotated dir t t' q a k b kb l i r
  rotate-IsRotated dir t q a k b kb l i r hold dis outside =
      let h = t.nodes in
      let opp = invert_dir dir in
      let (_, anz, key_a, up_a, hl, hb) = side-Holds dir h a q a k l (side dir i b kb r) hold in
      let (to_b, bnz, key_b, up_b, hi, hr) = side-Holds dir h (child opp (h a)) a b kb i r hb in
      let c = child dir (h b) in
      let (wal, wab, dbl, dlb, dl, db) = side-Distinct dir a k l (side dir i b kb r) dis in
      let (ab, wai, war) = side-Without dir a b kb i r wab in
      let (wbi, wbr, dri, dir', di, dr) = side-Distinct dir b kb i r db in
      let (wbl, dil, drl) = side-Disjoint dir b kb i r l dbl in
      let (qa, wql, wqb) = side-Without dir q a k l (side dir i b kb r) outside in
      let (qb, wqi, wqr) = side-Without dir q b kb i r wqb in
      let aq : a ≢ q = λ e. qa (sym e) in
      let bq : b ≢ q = λ e. qb (sym e) in
      let first = inner-IsNode h c b i hi in
      let ac : c ≢ 0 → a ≢ c = λ nz e. Without-ne c a i wai (first nz) (sym e) in
      let bc : c ≢ 0 → b ≢ c = λ nz e. Without-ne c b i wbi (first nz) (sym e) in
      let cq : c ≢ 0 → c ≢ q = λ nz. Without-ne c q i wqi (first nz) in
      let H = rotated dir a b c q h in
      let A = at_a dir a b c q h ab aq bq ac bc cq in
      let B = at_b dir a b c q h ab aq bq ac bc cq in
      let still = elsewhere dir a b c q h ab aq bq ac bc cq in
      let apart : (x : ℕ) (s : Tree) → Disjoint i s → IsNode x s → c ≢ 0 → x ≢ c =
        λ x s d n nz. Without-ne x c s (Disjoint-Without c i s d (first nz)) n in
      let outer : Holds H (child dir (h a)) a l =
        Holds-same h H (child dir (h a)) a l
          (λ x n.
            still x (Without-ne x a l wal n) (Without-ne x b l wbl n) (apart x l dil n)
              (Without-ne x q l wql n))
          hl in
      let inner : Holds H c a i =
        Holds-reparent h H c b a i hi di
          (λ x n xc.
            still x (Without-ne x a i wai n) (Without-ne x b i wbi n) (λ _. xc)
              (Without-ne x q i wqi n))
          (at_c dir a b c q h ab aq bq ac bc cq) in
      let far : Holds H (child opp (h b)) b r =
        Holds-same h H (child opp (h b)) b r
          (λ x n.
            still x (Without-ne x a r war n) (Without-ne x b r wbr n) (apart x r dir' n)
              (Without-ne x q r wqr n))
          hr in
      let lowered : Holds H a b (side dir l a k i) =
        Holds-side dir H a b a k l i refl anz
          (ap (λ (n : RbNode V). n.key) A ∙ (set_child-fields opp c (h a)).0 ∙ key_a)
          (ap (λ (n : RbNode V). n.parent) A)
          (subst (λ p. Holds H p a l)
            (sym (ap (child dir) A ∙ child-with_parent dir b _ ∙ (child-set dir c (h a)).2)) outer)
          (subst (λ p. Holds H p a i)
            (sym (ap (child opp) A ∙ child-with_parent opp b _ ∙ (child-set dir c (h a)).3))
            inner) in
      (
        record t { nodes = H; root = if q == 0 then b else t.root },
        rotate-nodes dir a b c q t anz bnz to_b refl up_a
            ∙ rotate_nodes-ok dir a b c q h ab aq bq ac bc cq t refl anz bnz up_a,
        record {
          holds =
              Holds-side dir H b q b kb (side dir l a k i) r refl bnz
                (ap (λ (n : RbNode V). n.key) B ∙ (set_child-fields dir a _).0 ∙ key_b)
                (ap (λ (n : RbNode V). n.parent) B ∙ (set_child-fields dir a _).1)
                (subst (λ p. Holds H p b (side dir l a k i))
                  (sym (ap (child dir) B ∙ (child-set dir a _).0)) lowered)
                (subst (λ p. Holds H p b r)
                  (sym (ap (child opp) B ∙ (child-set dir a _).1 ∙ child-with_parent opp q (h b)))
                  far);
          root = refl;
          parent = at_q dir a b c q h ab aq bq ac bc cq;
          others = λ x w xq.
              let (xa, wxl, wxb) = side-Without dir x a k l (side dir i b kb r) w in
              let (xb, wxi, wxr) = side-Without dir x b kb i r wxb in
              still x xa xb (λ nz e. Without-ne c x i wxi (first nz) (sym e)) xq;
          order = λ lo hi. Ordered-rotated dir lo hi a k b kb l i r;
        },
      )

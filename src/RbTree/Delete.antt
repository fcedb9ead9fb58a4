-- ===== src/RbTree/Delete.antt =====
-- Deletion in ds/rb_tree.h.
use panix.Prelude.{ℕ, zero, suc, ◌+◌, ◌-◌, ◌%◌, ◌^◌, Bool, true, false, not, ◌==◌, if◌then◌else◌}
use panix.Prelude.Run.{Run, ok, out_of_fuel, ◌>>=◌}
use panix.RbTree.State.{
  red, black, left, right, straight, angled, is_red, RbNode, RbTree, load, update, set_child,
  get_dir, get_sibling, get_nephew, color_of, find, outermost,
}
use panix.RbTree.Methods.{rotate, recolor, parent_of}

module _ {ℓ} {V : Type ℓ} where
  -- The key and the value of one node are copied to another.
  abbrev pub transplant : ℕ → ℕ → (ℕ → RbNode V) → Run (ℕ × (ℕ → RbNode V))
  transplant node source h = load h source >>= λ s.
      update (λ n. record n { key = s.key; value = s.value }) node h >>= λ h1. ok (source, h1)

  -- The node to take out, or 0.
  unfoldable pub bst_delete : ℕ → ℕ → ℕ → (ℕ → RbNode V) → Run (ℕ × (ℕ → RbNode V))
  bst_delete fuel root key h = find fuel root key h >>= λ node.
      (let found = load h node >>= λ n.
      (let pred = outermost right fuel n.left_child h >>= λ p. transplant node p h in
        let succ = outermost left fuel n.right_child h >>= λ s. transplant node s h in
        if not (n.left_child == 0)
        then pred
        else if not (n.right_child == 0)
        then succ
        else ok (node, h)) in
        if node == 0 then ok (0, h) else found)

  -- Case 3 of `PreDeletionFix`; the root ends the loop.
  abbrev pub red_outer_nephew : ℕ → ℕ → ℕ → RbTree V → Run (ℕ × RbTree V)
  red_outer_nephew node sibling outer t = parent_of node t >>= λ p.
      recolor (color_of p t.nodes) sibling t >>= λ t1. recolor black p t1 >>= λ t2.
      recolor black outer t2 >>= λ t3.
      get_dir node t3.nodes >>= λ d. rotate d p t3 >>= λ t4. ok (t4.root, t4)

  -- Case 2.
  abbrev pub red_inner_nephew : ℕ → ℕ → ℕ → RbTree V → Run (ℕ × RbTree V)
  red_inner_nephew node sibling inner t = recolor red sibling t >>= λ t1.
      recolor black inner t1 >>= λ t2.
      get_dir sibling t2.nodes >>= λ d. rotate d sibling t2 >>= λ t3. ok (node, t3)

  -- Case 1.
  abbrev pub black_nephews : ℕ → ℕ → RbTree V → Run (ℕ × RbTree V)
  black_nephews node sibling t =
      recolor red sibling t >>= λ t1. parent_of node t1 >>= λ p. ok (p, t1)

  -- Case 4.
  abbrev pub red_sibling : ℕ → ℕ → RbTree V → Run (ℕ × RbTree V)
  red_sibling node sibling t = recolor black sibling t >>= λ t1. parent_of node t1 >>= λ p.
      recolor red p t1 >>= λ t2.
      get_dir node t2.nodes >>= λ d. rotate d p t2 >>= λ t3. ok (node, t3)

  -- One round of the loop.
  abbrev pub delete_round : ℕ → RbTree V → Run (ℕ × RbTree V)
  delete_round node t = get_sibling node t.nodes >>= λ sibling.
      get_nephew angled node t.nodes >>= λ inner. get_nephew straight node t.nodes >>= λ outer.
      load t.nodes sibling >>= λ s.
      (if is_red s.color
        then red_sibling node sibling t
        else if is_red (color_of outer t.nodes)
        then red_outer_nephew node sibling outer t
        else if is_red (color_of inner t.nodes)
        then red_inner_nephew node sibling inner t
        else black_nephews node sibling t)

  -- `while(problem_node != root_ && problem_node->color_ == BLACK)`: the node at the end.
  unfoldable pub pre_deletion_loop : ℕ → ℕ → RbTree V → Run (ℕ × RbTree V)
  pre_deletion_loop zero node t = out_of_fuel
  pre_deletion_loop (suc fuel) node t =
      let fixed = load t.nodes node >>= λ n.
      (let round = delete_round node t >>= λ r. pre_deletion_loop fuel (r.0) (r.1) in
        if is_red n.color then ok (node, t) else round) in
      if node == t.root then ok (node, t) else fixed

  unfoldable pub pre_deletion_fix : ℕ → ℕ → RbTree V → Run (RbTree V)
  pre_deletion_fix fuel node t = pre_deletion_loop fuel node t >>= λ r. recolor black (r.0) (r.1)

  abbrev pub uncount_key : RbTree V → RbTree V
  uncount_key t = record t { num_keys = (t.num_keys + 2 ^ 64 - 1) % 2 ^ 64 }

  -- The node is taken off its parent.
  abbrev pub detach : ℕ → RbTree V → Run (RbTree V)
  detach node t = get_dir node t.nodes >>= λ d. parent_of node t >>= λ p.
      update (set_child d 0) p t.nodes >>= λ h. ok (record t { nodes = h })

  unfoldable pub delete : ℕ → ℕ → RbTree V → Run (Bool × RbTree V)
  delete fuel key t = bst_delete fuel t.root key t.nodes >>= λ r.
      (let (node, h) = r in
        let t1 = record t { nodes = h } in
        let fixed =
          (if is_red (color_of node h) then ok t1 else pre_deletion_fix fuel node t1) >>= λ t2.
          detach node t2 >>= λ t3. ok (true, uncount_key t3) in
        if node == 0
        then ok (false, t1)
        else if node == t.root
        then ok (true, uncount_key (record t1 { root = 0 }))
        else fixed)

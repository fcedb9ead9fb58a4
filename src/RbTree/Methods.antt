-- ===== src/RbTree/Methods.antt =====
-- The operations of ds/rb_tree.h. A new node stands at the address that the allocator returns.
use panix.Prelude.{
  ℕ, zero, suc, ◌+◌, ◌%◌, ◌^◌, Bool, true, false, not, ◌&&◌, ltb, ◌==◌, if◌then◌else◌, Option, none,
  some,
}
use panix.Prelude.Run.{Run, ok, out_of_fuel, ◌>>=◌}
use panix.RbTree.State.{
  Color, red, black, Direction, left, right, Orientation, straight, angled, invert_dir, is_red,
  RbNode, RbTree, load, store, update, with_parent, with_color, set_child, child, get_dir,
  get_orientation, get_uncle, color_of, find,
}

module _ {ℓ} {V : Type ℓ} where
  -- `if(child) child->parent_ = node`
  abbrev pub adopt : ℕ → ℕ → (ℕ → RbNode V) → Run (ℕ → RbNode V)
  adopt node inner h = if inner == 0 then ok h else (update (with_parent node) inner h)

  -- The node's place at its parent is taken by another one.
  abbrev pub replace_child : ℕ → ℕ → ℕ → (ℕ → RbNode V) → Run (ℕ → RbNode V)
  replace_child node new_par parent h =
      let replaced = get_dir node h >>= λ d. update (set_child d new_par) parent h in
      if parent == 0 then ok h else replaced

  -- `Rotate`, with the child that rises, the inner grandchild and the parent.
  abbrev pub rotate_nodes : Direction → ℕ → ℕ → ℕ → ℕ → RbTree V → Run (RbTree V)
  rotate_nodes dir node new_par inner parent t =
      update (set_child (invert_dir dir) inner) node t.nodes >>= λ h1. adopt node inner h1 >>= λ h2.
      update (with_parent parent) new_par h2 >>= λ h3.
      replace_child node new_par parent h3 >>= λ h4.
      update (set_child dir node) new_par h4 >>= λ h5.
      update (with_parent new_par) node h5 >>= λ h6.
      ok (record t { nodes = h6; root = if parent == 0 then new_par else t.root })

  -- The two halves of `Rotate`, which are each other's mirror images.
  unfoldable pub rotate : Direction → ℕ → RbTree V → Run (RbTree V)
  rotate dir node t =
      let opp = invert_dir dir in
      load t.nodes node >>= λ n. load t.nodes (child opp n) >>= λ m.
      rotate_nodes dir node (child opp n) (child dir m) n.parent t

  abbrev pub recolor : Color → ℕ → RbTree V → Run (RbTree V)
  recolor c node t = update (with_color c) node t.nodes >>= λ h. ok (record t { nodes = h })

  abbrev pub parent_of : ℕ → RbTree V → Run ℕ
  parent_of node t = load t.nodes node >>= λ n. ok n.parent

  -- Case 1 of `PostInsertFix`: the next problem node.
  abbrev pub red_uncle : ℕ → ℕ → RbTree V → Run (ℕ × RbTree V)
  red_uncle node uncle t = parent_of node t >>= λ p. recolor black p t >>= λ t1.
      recolor black uncle t1 >>= λ t2. parent_of p t2 >>= λ g. recolor red g t2 >>= λ t3. ok (g, t3)

  -- Case 2, where it applies.
  abbrev pub straighten : ℕ → Orientation → RbTree V → Run (ℕ × RbTree V)
  straighten node straight t = ok (node, t)
  straighten node angled t = get_dir node t.nodes >>= λ d.
      parent_of node t >>= λ p. rotate (invert_dir d) p t >>= λ t1. ok (p, t1)

  -- Cases 2 and 3.
  abbrev pub black_uncle : ℕ → RbTree V → Run (ℕ × RbTree V)
  black_uncle node t = get_orientation node t.nodes >>= λ o. straighten node o t >>= λ r.
      (let (problem, t1) = r in
        parent_of problem t1 >>= λ p. get_dir p t1.nodes >>= λ d. recolor black p t1 >>= λ t2.
        parent_of p t2 >>= λ g.
        recolor red g t2 >>= λ t3. rotate (invert_dir d) g t3 >>= λ t4. ok (problem, t4))

  -- `while(problem_node->parent_ && problem_node->parent_->color_ == RED)`
  unfoldable pub post_insert_loop : ℕ → ℕ → RbTree V → Run (RbTree V)
  post_insert_loop zero node t = out_of_fuel
  post_insert_loop (suc fuel) node t = parent_of node t >>= λ p.
      (let fixed = get_uncle node t.nodes >>= λ uncle.
      (if is_red (color_of uncle t.nodes) then red_uncle node uncle t else black_uncle node t)
      >>= λ r. post_insert_loop fuel (r.0) (r.1) in
        if not (p == 0) && is_red (color_of p t.nodes) then fixed else ok t)

  unfoldable pub post_insert_fix : ℕ → ℕ → RbTree V → Run (RbTree V)
  post_insert_fix fuel node t = post_insert_loop fuel node t >>= λ t1. recolor black t1.root t1

  abbrev pub new_leaf : ℕ → V → Color → ℕ → RbNode V
  new_leaf key value color parent = record {
    key = key;
    value = value;
    color = color;
    left_child = 0;
    right_child = 0;
    parent = parent;
  }

  -- A new red child.
  abbrev pub hang : Direction → ℕ → ℕ → V → ℕ → (ℕ → RbNode V) → Run (ℕ × (ℕ → RbNode V))
  hang dir new key value node h =
      update (set_child dir new) node (store h new (new_leaf key value red node)) >>= λ h1.
      ok (new, h1)

  -- `BstInsert`, with the address for the new node: that address, or 0 where the key is there.
  unfoldable pub bst_insert : ℕ → ℕ → ℕ → V → ℕ → (ℕ → RbNode V) → Run (ℕ × (ℕ → RbNode V))
  bst_insert zero new key value node h = out_of_fuel
  bst_insert (suc fuel) new key value node h = load h node >>= λ n.
      (let lower = bst_insert fuel new key value n.left_child h in
        let higher = bst_insert fuel new key value n.right_child h in
        if ltb key n.key
        then (if n.left_child == 0 then hang left new key value node h else lower)
        else if ltb n.key key
        then (if n.right_child == 0 then hang right new key value node h else higher)
        else ok (0, h))

  abbrev pub count_key : RbTree V → RbTree V
  count_key t = record t { num_keys = (t.num_keys + 1) % 2 ^ 64 }

  unfoldable pub insert : ℕ → ℕ → ℕ → V → RbTree V → Run (Bool × RbTree V)
  insert fuel new key value t =
      let first =
        post_insert_fix fuel new
          (record t { root = new; nodes = store t.nodes new (new_leaf key value black 0) })
        >>= λ t1. ok (true, count_key t1) in
      let further = bst_insert fuel new key value t.root t.nodes >>= λ r.
      (let (node, h) = r in
        let fixed =
          post_insert_fix fuel node (record t { nodes = h }) >>= λ t1. ok (true, count_key t1) in
        if node == 0 then ok (false, t) else fixed) in
      if t.root == 0 then first else further

  -- The value, or `none` for `false`.
  unfoldable pub read : ℕ → ℕ → RbTree V → Run (Option V)
  read fuel key t = find fuel t.root key t.nodes >>= λ node.
      ok (if node == 0 then none else some ((t.nodes node).value))

  unfoldable pub update_key : ℕ → ℕ → V → RbTree V → Run (Bool × RbTree V)
  update_key fuel key value t = find fuel t.root key t.nodes >>= λ node. ok (
      if node == 0 then (false, t) else (
        true,
        record t { nodes = store t.nodes node (record (t.nodes node) { value = value }) },
      ))

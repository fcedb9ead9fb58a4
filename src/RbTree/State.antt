-- ===== src/RbTree/State.antt =====
-- The nodes of ds/rb_tree.h and what they ask of their neighbours. Nodes are addresses, and 0 is the null pointer.
use panix.Prelude.{ℕ, zero, suc, Bool, true, false, ltb, ◌==◌, if◌then◌else◌}
use panix.Prelude.Run.{Run, ok, fault, out_of_fuel, ◌>>=◌, null_dereference}

pub data Color : Type 0 where
  red : Color
  black : Color

pub data Direction : Type 0 where
  left : Direction
  right : Direction

pub data Orientation : Type 0 where
  straight : Orientation
  angled : Orientation

abbrev pub invert_dir : Direction → Direction
invert_dir left = right
invert_dir right = left

abbrev pub same_dir : Direction → Direction → Orientation
same_dir left left = straight
same_dir right right = straight
same_dir _ _ = angled

abbrev pub nephew_dir : Orientation → Direction → Direction
nephew_dir straight d = d
nephew_dir angled d = invert_dir d

abbrev pub is_red : Color → Bool
is_red red = true
is_red black = false

abbrev pub is_left : Direction → Bool
is_left left = true
is_left right = false

pub record RbNode {ℓ} (V : Type ℓ) : Type ℓ where
  pub key : ℕ
  pub value : V
  pub color : Color
  pub left_child : ℕ
  pub right_child : ℕ
  pub parent : ℕ

-- The tree, and the nodes in memory.
pub record RbTree {ℓ} (V : Type ℓ) : Type ℓ where
  pub root : ℕ
  pub num_keys : ℕ
  pub nodes : ℕ → RbNode V

module _ {ℓ} {V : Type ℓ} where
  -- `node->...`
  unfoldable pub load : (ℕ → RbNode V) → ℕ → Run (RbNode V)
  load h node = if node == 0 then fault null_dereference else ok (h node)

  unfoldable pub store : (ℕ → RbNode V) → ℕ → RbNode V → ℕ → RbNode V
  store h node n a = if a == node then n else h a

  abbrev pub update : (RbNode V → RbNode V) → ℕ → (ℕ → RbNode V) → Run (ℕ → RbNode V)
  update change node h = load h node >>= λ n. ok (store h node (change n))

  abbrev pub with_left : ℕ → RbNode V → RbNode V
  with_left p n = record n { left_child = p }

  abbrev pub with_right : ℕ → RbNode V → RbNode V
  with_right p n = record n { right_child = p }

  abbrev pub with_parent : ℕ → RbNode V → RbNode V
  with_parent p n = record n { parent = p }

  abbrev pub with_color : Color → RbNode V → RbNode V
  with_color c n = record n { color = c }

  abbrev pub set_child : Direction → ℕ → RbNode V → RbNode V
  set_child left p n = with_left p n
  set_child right p n = with_right p n

  abbrev pub child : Direction → RbNode V → ℕ
  child left n = n.left_child
  child right n = n.right_child

  unfoldable pub get_dir : ℕ → (ℕ → RbNode V) → Run Direction
  get_dir node h = load h node >>= λ n.
      load h n.parent >>= λ p. ok (if node == p.left_child then left else right)

  unfoldable pub get_orientation : ℕ → (ℕ → RbNode V) → Run Orientation
  get_orientation node h =
      load h node >>= λ n. get_dir n.parent h >>= λ d. get_dir node h >>= λ e. ok (same_dir d e)

  unfoldable pub get_child : Direction → ℕ → (ℕ → RbNode V) → Run ℕ
  get_child dir node h = load h node >>= λ n. ok (child dir n)

  unfoldable pub get_uncle : ℕ → (ℕ → RbNode V) → Run ℕ
  get_uncle node h = load h node >>= λ n.
      (let uncle = load h n.parent >>= λ p.
      (let other = get_dir n.parent h >>= λ d. get_child (invert_dir d) p.parent h in
        if p.parent == 0 then ok 0 else other) in
        if n.parent == 0 then ok 0 else uncle)

  unfoldable pub get_sibling : ℕ → (ℕ → RbNode V) → Run ℕ
  get_sibling node h = load h node >>= λ n.
      (let sibling = get_dir node h >>= λ d. get_child (invert_dir d) n.parent h in
        if n.parent == 0 then ok 0 else sibling)

  unfoldable pub get_nephew : Orientation → ℕ → (ℕ → RbNode V) → Run ℕ
  get_nephew orientation node h = get_sibling node h >>= λ sibling.
      (let nephew = get_dir sibling h >>= λ d. get_child (nephew_dir orientation d) sibling h in
        if sibling == 0 then ok 0 else nephew)

  -- The colour of a node; null is black.
  abbrev pub color_of : ℕ → (ℕ → RbNode V) → Color
  color_of node h = if node == 0 then black else (h node).color

  unfoldable pub find : ℕ → ℕ → ℕ → (ℕ → RbNode V) → Run ℕ
  find zero node key h = out_of_fuel
  find (suc fuel) node key h = load h node >>= λ n.
      (let lower = find fuel n.left_child key h in
        let higher = find fuel n.right_child key h in
        if ltb key n.key
        then (if n.left_child == 0 then ok 0 else lower)
        else if ltb n.key key
        then (if n.right_child == 0 then ok 0 else higher)
        else ok node)

  -- `Min` and `Max`
  unfoldable pub outermost : Direction → ℕ → ℕ → (ℕ → RbNode V) → Run ℕ
  outermost dir zero node h = out_of_fuel
  outermost dir (suc fuel) node h = load h node >>= λ n.
      (let further = outermost dir fuel (child dir n) h in
        if child dir n == 0 then ok node else further)

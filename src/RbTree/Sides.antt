-- ===== src/RbTree/Sides.antt =====
-- The nodes of ds/rb_tree.h seen from one side or from the other.
use panix.Prelude.{ℕ, ◌≡◌, ◌≢◌, inl, inr, refl, ap, sym, ◌∙◌, subst, arith}
use panix.RbTree.State.{RbNode, Direction, left, right, invert_dir, child, set_child, with_parent}
use panix.RbTree.Shape.{
  Tree, nil, node, IsNode, Ordered, Holds, Holds-same, Without, Without-ne, Disjoint, Distinct,
}

-- A node whose child in the direction is the first tree.
abbrev pub side : Direction → Tree → ℕ → ℕ → Tree → Tree
side left x a k y = node x a k y
side right x a k y = node y a k x

pub side-Without :
    (dir : Direction) (z a k : ℕ) (x y : Tree)
    → Without z (side dir x a k y)
    → (z ≢ a) × Without z x × Without z y
side-Without left z a k x y w = w
side-Without right z a k x y (ne, wy, wx) = (ne, wx, wy)

pub side-Disjoint :
    (dir : Direction) (a k : ℕ) (x y t : Tree)
    → Disjoint (side dir x a k y) t
    → Without a t × Disjoint x t × Disjoint y t
side-Disjoint left a k x y t d = d
side-Disjoint right a k x y t (w, dy, dx) = (w, dx, dy)

pub side-Distinct :
    (dir : Direction) (a k : ℕ) (x y : Tree)
    → Distinct (side dir x a k y)
    → Without a x × Without a y × Disjoint y x × Disjoint x y × Distinct x × Distinct y
side-Distinct left a k x y d = d
side-Distinct right a k x y (wy, wx, dxy, dyx, dy, dx) = (wx, wy, dyx, dxy, dx, dy)

-- A rotation keeps the order of the keys.
pub Ordered-rotated :
    (dir : Direction) (lo hi a k b kb : ℕ) (l i r : Tree)
    → Ordered lo hi (side dir l a k (side dir i b kb r))
    → Ordered lo hi (side dir (side dir l a k i) b kb r)
Ordered-rotated left lo hi a k b kb l i r (p, q, ol, (p', q', oi, or)) =
    (omega arith, q', (p, p', ol, oi), or)
Ordered-rotated right lo hi a k b kb l i r (p, q, (p', q', or, oi), ol) =
    (p', omega arith, or, (q', q, oi, ol))

module _ {ℓ} {V : Type ℓ} where
  pub child-set :
      (d : Direction) (v : ℕ) (n : RbNode V)
      → (child d (set_child d v n) ≡ v)
        × (child (invert_dir d) (set_child d v n) ≡ child (invert_dir d) n)
        × (child d (set_child (invert_dir d) v n) ≡ child d n)
        × (child (invert_dir d) (set_child (invert_dir d) v n) ≡ v)
  child-set left v n = (refl, refl, refl, refl)
  child-set right v n = (refl, refl, refl, refl)

  pub set_child-fields :
      (d : Direction) (v : ℕ) (n : RbNode V)
      → ((set_child d v n).key ≡ n.key) × ((set_child d v n).parent ≡ n.parent)
  set_child-fields left v n = (refl, refl)
  set_child-fields right v n = (refl, refl)

  pub child-with_parent :
      (d : Direction) (v : ℕ) (n : RbNode V) → child d (with_parent v n) ≡ child d n
  child-with_parent left v n = refl
  child-with_parent right v n = refl

  pub side-Holds :
      (dir : Direction) (h : ℕ → RbNode V) (p par a k : ℕ) (x y : Tree)
      → Holds h p par (side dir x a k y)
      → (p ≡ a)
        × (a ≢ 0)
        × ((h a).key ≡ k)
        × ((h a).parent ≡ par)
        × Holds h (child dir (h a)) a x
        × Holds h (child (invert_dir dir) (h a)) a y
  side-Holds left h p par a k x y hold = hold
  side-Holds right h p par a k x y (at, nz, key, up, hy, hx) = (at, nz, key, up, hx, hy)

  pub Holds-side :
      (dir : Direction) (h : ℕ → RbNode V) (p par a k : ℕ) (x y : Tree)
      → p ≡ a
      → a ≢ 0
      → (h a).key ≡ k
      → (h a).parent ≡ par
      → Holds h (child dir (h a)) a x
      → Holds h (child (invert_dir dir) (h a)) a y
      → Holds h p par (side dir x a k y)
  Holds-side left h p par a k x y at nz key up hx hy = (at, nz, key, up, hx, hy)
  Holds-side right h p par a k x y at nz key up hx hy = (at, nz, key, up, hy, hx)

  -- The first node of a tree gets another parent.
  pub Holds-reparent :
      (h h' : ℕ → RbNode V) (c par par' : ℕ) (t : Tree)
      → Holds h c par t
      → Distinct t
      → ((x : ℕ) → IsNode x t → x ≢ c → h' x ≡ h x)
      → (c ≢ 0 → h' c ≡ with_parent par' (h c))
      → Holds h' c par' t
  Holds-reparent h h' c par par' nil hold d same first = hold
  Holds-reparent h h' c par par' (node l a k r) (at, nz, key, up, lower, higher)
        (wl, wr, _, _, _, _) same first =
      let cnz : c ≢ 0 = λ e. nz (sym at ∙ e) in
      let here : h' a ≡ with_parent par' (h a) =
        subst (λ z. h' z ≡ with_parent par' (h z)) at (first cnz) in
      (
        at,
        nz,
        ap (λ (n : RbNode V). n.key) here ∙ key,
        ap (λ (n : RbNode V). n.parent) here,
        subst (λ (n : RbNode V). Holds h' n.left_child a l) (sym here)
            (Holds-same h h' ((h a).left_child) a l
              (λ x i. same x (inr (inl i)) (λ e. Without-ne x a l wl i (e ∙ at))) lower),
        subst (λ (n : RbNode V). Holds h' n.right_child a r) (sym here)
            (Holds-same h h' ((h a).right_child) a r
              (λ x i. same x (inr (inr i)) (λ e. Without-ne x a r wr i (e ∙ at))) higher),
      )

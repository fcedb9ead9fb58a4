-- ===== src/RbTree/Rotated.antt =====
-- The memory after the writes of `Rotate` of ds/rb_tree.h.
use panix.Prelude.{
  ℕ, ◌≡◌, ◌≢◌, inl, inr, refl, ap, sym, ◌∙◌, arith, ◌==◌, if◌then◌else◌, eq_false, Bool-cases,
}
use panix.Prelude.Run.{ok}
use panix.RbTree.State.{
  RbNode, RbTree, Direction, left, right, invert_dir, set_child, with_parent, load, store, update,
  get_dir,
}
use panix.RbTree.Shape.{store_at, store_other}
use panix.RbTree.Sides.{set_child-fields}
use panix.RbTree.Methods.{rotate_nodes, adopt, replace_child}

module _ {ℓ} {V : Type ℓ} where
  -- A write where the pointer is not null.
  abbrev store_some : (RbNode V → RbNode V) → ℕ → (ℕ → RbNode V) → ℕ → RbNode V
  store_some change p h = if p == 0 then h else store h p (change (h p))

  store_some-other :
      (change : RbNode V → RbNode V) (p x : ℕ) (h : ℕ → RbNode V)
      → (p ≢ 0 → x ≢ p)
      → store_some change p h x ≡ h x
  store_some-other change p x h ne = elim (Bool-cases (p == 0)) [
    | inl null ↦ rw null refl
    | inr given ↦ rw given (store_other h p x (change (h p)) (ne (ground arith)))
  ]

  store_some-at :
      (change : RbNode V → RbNode V) (p : ℕ) (h : ℕ → RbNode V)
      → p ≢ 0
      → store_some change p h p ≡ change (h p)
  store_some-at change p h nz = rw (eq_false p 0 nz) (store_at h p (change (h p)))

  abbrev set : (RbNode V → RbNode V) → ℕ → (ℕ → RbNode V) → ℕ → RbNode V
  set change p h = store h p (change (h p))

  update-ok :
      (change : RbNode V → RbNode V) (p : ℕ) (h : ℕ → RbNode V)
      → p ≢ 0
      → update change p h ≡ ok (set change p h)
  unfolding load
  update-ok change p h nz = rw (eq_false p 0 nz) refl

  -- The side of its parent on which a node hangs.
  abbrev pub hangs : ℕ → ℕ → (ℕ → RbNode V) → Direction
  hangs a q h = if a == (h q).left_child then left else right

  adopt-ok : (a c : ℕ) (h : ℕ → RbNode V) → adopt a c h ≡ ok (store_some (with_parent a) c h)
  adopt-ok a c h = elim (Bool-cases (c == 0)) [
    | inl null ↦ rw null refl
    | inr given ↦ rw given (update-ok (with_parent a) c h (ground arith))
  ]

  pub load-ok : (h : ℕ → RbNode V) (p : ℕ) → p ≢ 0 → load h p ≡ ok (h p)
  unfolding load
  load-ok h p nz = rw (eq_false p 0 nz) refl

  replace_child-ok :
      (a b q : ℕ) (h : ℕ → RbNode V)
      → a ≢ 0
      → (h a).parent ≡ q
      → replace_child a b q h ≡ ok (store_some (set_child (hangs a q h) b) q h)
  unfolding get_dir
  replace_child-ok a b q h anz up = elim (Bool-cases (q == 0)) [
    | inl null ↦ rw null refl
    | inr given ↦
        let qnz : q ≢ 0 = ground arith in
        let parent = ap (load h) up ∙ load-ok h q qnz in
        rw (given, load-ok h a anz, parent, update-ok (set_child (hangs a q h) b) q h qnz) refl
  ]

  -- The memory after the writes; `c` is the inner child, `q` the parent.
  abbrev pub rotated : Direction → ℕ → ℕ → ℕ → ℕ → (ℕ → RbNode V) → ℕ → RbNode V
  rotated dir a b c q h =
      let h3 =
        set (with_parent q) b
          (store_some (with_parent a) c (set (set_child (invert_dir dir) c) a h)) in
      let h4 = store_some (set_child (hangs a q h3) b) q h3 in
      set (with_parent b) a (set (set_child dir a) b h4)

  module _ (dir : Direction) (a b c q : ℕ) (h : ℕ → RbNode V) (ab : a ≢ b) (aq : a ≢ q) (bq : b ≢ q)
      (ac : c ≢ 0 → a ≢ c) (bc : c ≢ 0 → b ≢ c) (cq : c ≢ 0 → c ≢ q) where
    abbrev opp : Direction
    opp = invert_dir dir

    abbrev h1 : ℕ → RbNode V
    h1 = set (set_child opp c) a h

    abbrev h2 : ℕ → RbNode V
    h2 = store_some (with_parent a) c h1

    abbrev h3 : ℕ → RbNode V
    h3 = set (with_parent q) b h2

    abbrev h4 : ℕ → RbNode V
    h4 = store_some (set_child (hangs a q h3) b) q h3

    abbrev h6 : ℕ → RbNode V
    h6 = rotated dir a b c q h

    h3_a : h3 a ≡ set_child opp c (h a)
    h3_a = store_other h2 b a _ ab ∙ store_some-other (with_parent a) c a h1 ac ∙ store_at h a _

    h3_other : (x : ℕ) → x ≢ a → x ≢ b → (c ≢ 0 → x ≢ c) → h3 x ≡ h x
    h3_other x xa xb xc =
        store_other h2 b x _ xb
        ∙ store_some-other (with_parent a) c x h1 xc
        ∙ store_other h a x _ xa

    pub at_a : h6 a ≡ with_parent b (set_child opp c (h a))
    at_a =
        store_at (set (set_child dir a) b h4) a _
        ∙ ap (with_parent b) (
            store_other h4 b a _ ab
            ∙ store_some-other (set_child (hangs a q h3) b) q a h3 (λ _. aq)
            ∙ h3_a)

    pub at_b : h6 b ≡ set_child dir a (with_parent q (h b))
    at_b =
        let ba : b ≢ a = λ e. ab (sym e) in
        store_other (set (set_child dir a) b h4) a b _ ba
        ∙ store_at h4 b _
        ∙ ap (set_child dir a) (
            store_some-other (set_child (hangs a q h3) b) q b h3 (λ _. bq)
            ∙ store_at h2 b _
            ∙ ap (with_parent q)
                (store_some-other (with_parent a) c b h1 bc ∙ store_other h a b _ ba))

    above : (x : ℕ) → x ≢ a → x ≢ b → h6 x ≡ h4 x
    above x xa xb = store_other (set (set_child dir a) b h4) a x _ xa ∙ store_other h4 b x _ xb

    pub at_c : c ≢ 0 → h6 c ≡ with_parent a (h c)
    at_c nz =
        above c (λ e. ac nz (sym e)) (λ e. bc nz (sym e))
        ∙ store_some-other (set_child (hangs a q h3) b) q c h3 (λ _. cq nz)
        ∙ store_other h2 b c _ (λ e. bc nz (sym e))
        ∙ store_some-at (with_parent a) c h1 nz
        ∙ ap (with_parent a) (store_other h a c _ (λ e. ac nz (sym e)))

    h3_q : h3 q ≡ h q
    h3_q = h3_other q (λ e. aq (sym e)) (λ e. bq (sym e)) (λ nz e. cq nz (sym e))

    pub at_q : q ≢ 0 → h6 q ≡ set_child (hangs a q h) b (h q)
    at_q nz =
        above q (λ e. aq (sym e)) (λ e. bq (sym e))
        ∙ store_some-at (set_child (hangs a q h3) b) q h3 nz
        ∙ ap (λ (n : RbNode V). set_child (if a == n.left_child then left else right) b n) h3_q

    pub elsewhere : (x : ℕ) → x ≢ a → x ≢ b → (c ≢ 0 → x ≢ c) → x ≢ q → h6 x ≡ h x
    elsewhere x xa xb xc xq =
        above x xa xb
        ∙ store_some-other (set_child (hangs a q h3) b) q x h3 (λ _. xq)
        ∙ h3_other x xa xb xc

    h3_parent : (h a).parent ≡ q → (h3 a).parent ≡ q
    h3_parent up = ap (λ (n : RbNode V). n.parent) h3_a ∙ (set_child-fields opp c (h a)).1 ∙ up

    pub rotate_nodes-ok :
        (t : RbTree V)
        → t.nodes ≡ h
        → a ≢ 0
        → b ≢ 0
        → (h a).parent ≡ q
        → rotate_nodes dir a b c q t
          ≡ ok (record t { nodes = h6; root = if q == 0 then b else t.root })
    rotate_nodes-ok t same anz bnz up =
        rw
          (
            same,
            update-ok (set_child opp c) a h anz,
            adopt-ok a c h1,
            update-ok (with_parent q) b h2 bnz,
            replace_child-ok a b q h3 anz (h3_parent up),
            update-ok (set_child dir a) b h4 bnz,
            update-ok (with_parent b) a (set (set_child dir a) b h4) anz,
          )
          refl

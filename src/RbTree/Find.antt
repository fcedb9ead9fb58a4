-- ===== src/RbTree/Find.antt =====
-- `Find` of ds/rb_tree.h on a tree whose keys are in order.
use panix.Prelude.{
  ℕ, zero, suc, ◌<◌, ◌≤◌, ◌≡◌, ◌≢◌, ◌⊎◌, inl, inr, refl, sym, ◌∙◌, arith, ltb, ltb→lt, ltb→le, ◌==◌,
  eq_false, Bool-cases, ==_iff,
}
use panix.Prelude.Run.{Returns}
use panix.RbTree.State.{RbNode, load, find}
use panix.RbTree.Shape.{Tree, nil, node, depth, IsNode, Ordered, Has, Holds}

-- No key is below the lower bound, and none reaches the upper one.
pub Has-bounds : (key lo hi : ℕ) (t : Tree) → Ordered lo hi t → Has key t → (lo ≤ key) × (key < hi)
Has-bounds key lo hi nil o has = absurd has
Has-bounds key lo hi (node l a k r) (from, until, ol, or) has = elim has [
  | inl here ↦ (omega arith, omega arith)
  | inr (inl lower) ↦ let (p, q) = Has-bounds key lo k l ol lower in (p, omega arith)
  | inr (inr higher) ↦ let (p, q) = Has-bounds key (suc k) hi r or higher in (omega arith, q)
]

-- The key is at the node that was found, or there is none.
abbrev pub IsFound {ℓ} : {V : Type ℓ} → (ℕ → RbNode V) → ℕ → Tree → ℕ → Type 0
IsFound h key t found =
    ((found ≡ 0) × (Has key t → ⊥))
    ⊎ ((found ≢ 0) × IsNode found t × Has key t × ((h found).key ≡ key))

module _ {ℓ} {V : Type ℓ} (h : ℕ → RbNode V) where
  in_left :
      (lo hi key k a found : ℕ) (l r : Tree)
      → Ordered (suc k) hi r
      → key < k
      → IsFound h key l found
      → IsFound h key (node l a k r) found
  in_left lo hi key k a found l r or lt f = elim f [
    | inl (none_there, absent) ↦ inl (
      none_there,
      λ has. elim has [
        | inl here ↦ absurd (omega arith)
        | inr (inl lower) ↦ absent lower
        | inr (inr higher) ↦ absurd (omega (arith, (Has-bounds key (suc k) hi r or higher).0))
      ],
    )
    | inr (nz, i, has, at) ↦ inr (nz, inr (inl i), inr (inl has), at)
  ]

  in_right :
      (lo hi key k a found : ℕ) (l r : Tree)
      → Ordered lo k l
      → k < key
      → IsFound h key r found
      → IsFound h key (node l a k r) found
  in_right lo hi key k a found l r ol lt f = elim f [
    | inl (none_there, absent) ↦ inl (
      none_there,
      λ has. elim has [
        | inl here ↦ absurd (omega arith)
        | inr (inl lower) ↦ absurd (omega (arith, (Has-bounds key lo k l ol lower).1))
        | inr (inr higher) ↦ absent higher
      ],
    )
    | inr (nz, i, has, at) ↦ inr (nz, inr (inr i), inr (inr has), at)
  ]

  null-empty : (p par key : ℕ) (t : Tree) → Holds h p par t → p ≡ 0 → Has key t → ⊥
  null-empty p par key nil hold z has = has
  null-empty p par key (node l a k r) (at, anz, _, _, _, _) z has = anz (sym at ∙ z)

  -- With a round for each level, `Find` from a node ends: it returns a node with the key if the tree below has it,
  -- and null if not.
  pub find-IsFound :
      (fuel p par lo hi key : ℕ) (t : Tree)
      → Holds h p par t
      → p ≢ 0
      → Ordered lo hi t
      → depth t ≤ fuel
      → Returns (find fuel p key h) (IsFound h key t)
  unfolding find load
  find-IsFound fuel p par lo hi key nil hold nz o deep = absurd (nz hold)
  find-IsFound zero p par lo hi key (node l a k r) hold nz o deep = absurd (omega arith)
  find-IsFound (suc fuel) p par lo hi key (node l a k r) (at, anz, key_at, up, lower, higher) nz
        (from, until, ol, or) deep =
      let there = eq_false p 0 nz in
      elim (Bool-cases (ltb key k)) [
        | inl less ↦
            let lt = ltb→lt key k less in
            elim (Bool-cases ((h a).left_child == 0)) [
              | inl null ↦
                  let z = (==_iff ((h a).left_child) 0).0 null in
                  rw (there, at, key_at, less, null)
                    (
                      0,
                      refl,
                      in_left lo hi key k a 0 l r or lt
                          (inl (refl, null-empty ((h a).left_child) a key l lower z)),
                    )
              | inr child ↦
                  let (found, run, is) =
                    find-IsFound fuel ((h a).left_child) a lo k key l lower (ground arith) ol
                      (omega arith) in
                  rw (there, at, key_at, less, child)
                    (found, run, in_left lo hi key k a found l r or lt is)
            ]
        | inr not_less ↦ elim (Bool-cases (ltb k key)) [
          | inl more ↦
              let lt = ltb→lt k key more in
              elim (Bool-cases ((h a).right_child == 0)) [
                | inl null ↦
                    let z = (==_iff ((h a).right_child) 0).0 null in
                    rw (there, at, key_at, not_less, more, null)
                      (
                        0,
                        refl,
                        in_right lo hi key k a 0 l r ol lt
                            (inl (refl, null-empty ((h a).right_child) a key r higher z)),
                      )
                | inr child ↦
                    let (found, run, is) =
                      find-IsFound fuel ((h a).right_child) a (suc k) hi key r higher (ground arith)
                        or (omega arith) in
                    rw (there, at, key_at, not_less, more, child)
                      (found, run, in_right lo hi key k a found l r ol lt is)
              ]
          | inr not_more ↦
              let same : k ≡ key = omega (arith, ltb→le key k not_less, ltb→le k key not_more) in
              rw (there, at, key_at, not_less, not_more)
                (a, refl, inr (anz, inl refl, inl same, key_at ∙ same))
        ]
      ]

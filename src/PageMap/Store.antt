-- ===== src/PageMap/Store.antt =====
-- Writes of `PageMap::Map` and `Unmap` to an entry of level 1, and the walks behind them.
use panix.Prelude.{
  ℕ, zero, suc, ◌+◌, ◌^◌, ◌≤◌, ◌<◌, ◌≡◌, ◌≢◌, refl, ap, sym, ◌∙◌, none, some, List, [], ◌∷◌, length,
  arith, ◌==◌, Bool-cases, inl, inr, if◌then◌else◌, Option-cases, ==_iff,
}
use Prim.Native.Nat.{bit_and}
use panix.PageMap.{
  Words, PageMap, to_high_mem, vaddr_index, get_page_table, tab_addr_mask, entry, store, walk,
  translate_from,
}
use panix.PageMap.Entry.{
  get_page_table_same, write_at, write_other, vaddr_index-lt, page, page-index, page-ext,
}
use panix.PageMap.Tree.{Owner, IsTree, walk-none, walk-some, path, walk-owner}
use panix.PageMap.Grow.{entry_apart, entry_off}

-- The walk reads a virtual address by its page.
pub walk-page :
    (n : ℕ) (words : Words) (t v v' : ℕ)
    → n ≤ 3
    → page v ≡ page v'
    → walk n words t v ≡ walk n words t v'
unfolding walk
walk-page zero words t v v' le same = refl
walk-page (suc n) words t v v' le same =
    let e = page-index v v' (n + 2) same (omega arith) (omega arith) in
    elim (Option-cases (get_page_table words t (vaddr_index v (n + 2)))) [
      | inl gone ↦ walk-none n words t v gone ∙ sym (walk-none n words t v' (rw (← e) gone))
      | inr (c, there) ↦
          walk-some n words t v c there
          ∙ walk-page n words c v v' (omega arith) same
          ∙ sym (walk-some n words t v' c (rw (← e) there))
    ]

pub translate_from-walk :
    (n : ℕ) (words : Words) (t u v : ℕ)
    → walk n words t v ≡ some u
    → translate_from n words t v ≡ bit_and (words (entry u (vaddr_index v 1))) tab_addr_mask
unfolding translate_from
translate_from-walk n words t u v e = rw (translate_from, e) refl

pub translate_from-none :
    (n : ℕ) (words : Words) (t v : ℕ) → walk n words t v ≡ none → translate_from n words t v ≡ 0
unfolding translate_from
translate_from-none n words t v e = rw (translate_from, e) refl

module _ {owner : Owner} {m : PageMap} (tree : IsTree owner m) (t i x : ℕ) (p : List ℕ)
    (own : owner t ≡ some p) (leaf : length p ≡ 3) (hi : i < 512) where
  stored_elsewhere : (a : ℕ) → a ≢ entry t i → (store m (entry t i) x).words a ≡ m.words a
  stored_elsewhere a ne = write_other m.words (entry t i) x a ne

  inner_same :
      (u j : ℕ) (q : List ℕ)
      → owner u ≡ some q
      → length q < 3
      → j < 512
      → get_page_table (store m (entry t i) x).words u j ≡ get_page_table m.words u j
  inner_same u j q ou len hj = get_page_table_same (store m (entry t i) x).words m.words u j (
      stored_elsewhere (entry u j) λ e.
        let (ut, _) = entry_apart tree u t j i q p ou own hj hi e in
        let qp : q ≡ p = cc (ap owner ut, ou, own) in absurd (omega (arith, ap length qp)))

  pub store-IsTree : x < 2 ^ 64 → IsTree owner (store m (entry t i) x)
  store-IsTree small = record {
    rooted = tree.rooted;
    aligned = tree.aligned;
    child =
        λ u j c q ou len hj e. tree.child u j c q ou len hj (sym (inner_same u j q ou len hj) ∙ e);
    bounded = λ a. elim (Bool-cases (a == entry t i)) [
      | inl here ↦ rw ((==_iff a (entry t i)).0 here, write_at m.words (entry t i) x) small
      | inr apart ↦ rw (stored_elsewhere a (ground arith)) (tree.bounded a)
    ];
    frames = λ k f e.
        let fr = tree.frames k f e in
        record {
          free = fr.free;
          aligned = fr.aligned;
          low = fr.low;
          clear = λ j hj.
              stored_elsewhere (entry (to_high_mem f) j) (entry_off tree t i f j p own fr hi hj)
              ∙ fr.clear j hj;
        };
    distinct = tree.distinct;
  }

  walk-store :
      (n u v : ℕ) (q : List ℕ)
      → owner u ≡ some q
      → length q + n ≡ 3
      → walk n (store m (entry t i) x).words u v ≡ walk n m.words u v
  unfolding walk
  walk-store zero u v q ou len = refl
  walk-store (suc n) u v q ou len =
      let same =
        inner_same u (vaddr_index v (n + 2)) q ou (omega arith) (vaddr_index-lt v (n + 2)) in
      elim (Option-cases (get_page_table m.words u (vaddr_index v (n + 2)))) [
        | inl gone ↦
            walk-none n (store m (entry t i) x).words u v (same ∙ gone)
            ∙ sym (walk-none n m.words u v gone)
        | inr (c, there) ↦
            walk-some n (store m (entry t i) x).words u v c (same ∙ there)
            ∙ walk-store n c v (vaddr_index v (n + 2) ∷ q)
                (tree.child u _ c q ou (omega arith) (vaddr_index-lt v (n + 2)) there) (omega arith)
            ∙ sym (walk-some n m.words u v c there)
      ]

-- The entry for `v` at which the walk from the root ends.
module _ {owner : Owner} {m : PageMap} (tree : IsTree owner m) (t v x : ℕ)
    (way : walk 3 m.words m.root v ≡ some t) where
  pub end-owner : owner t ≡ some (path 3 v [])
  end-owner = walk-owner tree 3 m.root t v [] tree.rooted refl way

  -- Two pages that lead to one entry are the same.
  one_page :
      (u v' : ℕ)
      → walk 3 m.words m.root v' ≡ some u
      → entry u (vaddr_index v' 1) ≡ entry t (vaddr_index v 1)
      → page v' ≡ page v
  one_page u v' way' e =
      let own' = walk-owner tree 3 m.root u v' [] tree.rooted refl way' in
      let (ut, idx) =
        entry_apart tree u t _ _ _ _ own' end-owner (vaddr_index-lt v' 1) (vaddr_index-lt v 1) e in
      let same : some (path 3 v' []) ≡ some (path 3 v []) = sym own' ∙ ap owner ut ∙ end-owner in
      page-ext v' v idx (cc same) (cc same) (cc same)

  after : Words
  after = (store m (entry t (vaddr_index v 1)) x).words

  after_other : (a : ℕ) → a ≢ entry t (vaddr_index v 1) → after a ≡ m.words a
  unfolding after
  after_other a ne = write_other m.words (entry t (vaddr_index v 1)) x a ne

  way_after : (v' : ℕ) → walk 3 after m.root v' ≡ walk 3 m.words m.root v'
  unfolding after
  way_after v' =
      walk-store tree t (vaddr_index v 1) x (path 3 v []) end-owner refl (vaddr_index-lt v 1) 3
        m.root v' [] tree.rooted refl

  read_back :
      (v' : ℕ) → page v' ≡ page v → translate_from 3 after m.root v' ≡ bit_and x tab_addr_mask
  read_back v' same =
      translate_from-walk 3 after m.root t v'
        (way_after v' ∙ walk-page 3 m.words m.root v' v (omega arith) same ∙ way)
      ∙ ap (λ j. bit_and (after (entry t j)) tab_addr_mask)
          (page-index v' v 1 same (omega arith) (omega arith))
      ∙ ap (λ w. bit_and w tab_addr_mask)
          (unfold after in write_at m.words (entry t (vaddr_index v 1)) x)

  unaffected :
      (v' : ℕ)
      → page v' ≢ page v
      → translate_from 3 after m.root v' ≡ translate_from 3 m.words m.root v'
  unaffected v' other = elim (Option-cases (walk 3 m.words m.root v')) [
    | inl gone ↦
        translate_from-none 3 after m.root v' (way_after v' ∙ gone)
        ∙ sym (translate_from-none 3 m.words m.root v' gone)
    | inr (u, way') ↦
        translate_from-walk 3 after m.root u v' (way_after v' ∙ way')
        ∙ ap (λ w. bit_and w tab_addr_mask)
            (after_other (entry u (vaddr_index v' 1)) (λ e. other (one_page u v' way' e)))
        ∙ sym (translate_from-walk 3 m.words m.root u v' way')
  ]

  pub translate-store :
      (v' : ℕ)
      → translate_from 3 (store m (entry t (vaddr_index v 1)) x).words m.root v' ≡ (
          if page v' == page v then bit_and x tab_addr_mask else translate_from 3 m.words m.root v')
  unfolding after
  translate-store v' = elim (Bool-cases (page v' == page v)) [
    | inl same ↦ rw same (read_back v' ((==_iff _ _).0 same))
    | inr other ↦ rw other (unaffected v' (ground arith))
  ]

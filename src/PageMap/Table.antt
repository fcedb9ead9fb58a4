-- ===== src/PageMap/Table.antt =====
-- The page map once `PageMap::GetOrCreatePageTable` has made a table.
use panix.Prelude.{
  ℕ, zero, suc, ◌+◌, ◌%◌, ◌^◌, ◌<◌, ◌≡◌, ◌≢◌, refl, ap, sym, ◌∙◌, false, none, some, List, [], ◌∷◌,
  length, get_elem?, arith, ◌==◌, Bool-cases, inl, inr, if◌then◌else◌, Option-cases, ==_iff,
}
use Prim.Native.Nat.{bit_and, bit_or}
use panix.PageMap.{
  PageMap, to_high_mem, vaddr_index, get_page_table, tab_addr_mask, entry, write, translate_from,
}
use panix.PageMap.Entry.{
  IsFlags, get_page_table_entry, get_page_table_same, entry-lt, write_at, write_other,
  vaddr_index-lt, to_high_mem-mod, to_high_mem-injective, get_page_table_even,
}
use panix.PageMap.Tree.{
  Owner, IsFrame, IsTree, translate_from-no_child, translate_from-child, translate_from-leaf,
  translate_from-clear,
}
use panix.PageMap.Grow.{Grows, entry_apart, entry_off}

-- A frame `f` becomes the table at index `i` of the table `t`.
module _ {owner : Owner} {m : PageMap} (tree : IsTree owner m) (t i f flags : ℕ) (p rest : List ℕ)
    (own : owner t ≡ some p) (short : length p < 3) (hi : i < 512) (good : IsFlags flags)
    (supply : m.supply ≡ f ∷ rest) (unset : get_page_table m.words t i ≡ none) where
  abbrev pub with_table : PageMap
  with_table = record {
    words = write m.words (entry t i) (bit_or f flags);
    supply = rest;
    root = m.root;
  }

  abbrev pub with_owner : Owner
  with_owner a = if a == to_high_mem f then some (i ∷ p) else owner a

  frame : IsFrame owner m.words f
  frame = tree.frames 0 f (ap (λ s. get_elem? s 0) supply)

  later : (k g : ℕ) → get_elem? rest k ≡ some g → get_elem? m.supply (suc k) ≡ some g
  later k g e = ap (λ s. get_elem? s (suc k)) supply ∙ e

  elsewhere : (a : ℕ) → a ≢ entry t i → with_table.words a ≡ m.words a
  elsewhere a ne = write_other m.words (entry t i) (bit_or f flags) a ne

  -- The tables that there were.
  old_owner : (u : ℕ) (q : List ℕ) → owner u ≡ some q → with_owner u ≡ some q
  old_owner u q ou = elim (Bool-cases (u == to_high_mem f)) [
    | inl same ↦ let e = (==_iff u (to_high_mem f)).0 same in cc (ap owner e, frame.free, ou)
    | inr other ↦ rw other ou
  ]

  new_owner : with_owner (to_high_mem f) ≡ some (i ∷ p)
  new_owner = ground arith

  new_clear : (j : ℕ) → j < 512 → with_table.words (entry (to_high_mem f) j) ≡ 0
  new_clear j hj =
      elsewhere (entry (to_high_mem f) j) (entry_off tree t i f j p own frame hi hj)
      ∙ frame.clear j hj

  new_entry : get_page_table with_table.words t i ≡ some (to_high_mem f)
  new_entry =
      get_page_table_entry with_table.words t i f flags (omega (arith, frame.aligned)) good
        (omega (arith, frame.low)) (write_at m.words (entry t i) (bit_or f flags))

  old_entry :
      (u j : ℕ)
      → entry u j ≢ entry t i
      → get_page_table with_table.words u j ≡ get_page_table m.words u j
  old_entry u j ne = get_page_table_same with_table.words m.words u j (elsewhere (entry u j) ne)

  new_child :
      (u j c : ℕ) (q : List ℕ)
      → with_owner u ≡ some q
      → length q < 3
      → j < 512
      → get_page_table with_table.words u j ≡ some c
      → with_owner c ≡ some (j ∷ q)
  new_child u j c q ou len hj e = elim (Bool-cases (u == to_high_mem f)) [
    | inl same ↦
        let e' = (==_iff u (to_high_mem f)).0 same in
        let clear : with_table.words (entry u j) % 2 ≡ 0 = rw (e', new_clear j hj) refl in
        cc (get_page_table_even with_table.words u j clear, e)
    | inr other ↦
        let ou' : owner u ≡ some q = rw other at ou in
        elim (Bool-cases (entry u j == entry t i)) [
          | inl here ↦
              let (ut, ji) = entry_apart tree u t j i q p ou' own hj hi ((==_iff _ _).0 here) in
              let qp : q ≡ p = cc (ap owner ut, ou', own) in
              let fc : c ≡ to_high_mem f = cc (
                e,
                ap (get_page_table with_table.words u) ji,
                ap (λ w. get_page_table with_table.words w i) ut,
                new_entry,
              ) in
              rw (fc, ji, qp) new_owner
          | inr apart ↦
              let ne : entry u j ≢ entry t i = ground arith in
              old_owner c (j ∷ q) (tree.child u j c q ou' len hj (sym (old_entry u j ne) ∙ e))
        ]
  ]

  new_leaf :
      (u v : ℕ) (q : List ℕ)
      → owner u ≡ some q
      → length q ≡ 3
      → translate_from zero with_table.words u v ≡ translate_from zero m.words u v
  new_leaf u v q ou len =
      let apart : entry u (vaddr_index v 1) ≢ entry t i = λ e.
        let (ut, _) =
          entry_apart tree u t (vaddr_index v 1) i q p ou own (vaddr_index-lt v 1) hi e in
        let qp : q ≡ p = cc (ap owner ut, ou, own) in absurd (omega (arith, ap length qp)) in
      translate_from-leaf with_table.words u v
      ∙ ap (λ w. bit_and w tab_addr_mask) (elsewhere (entry u (vaddr_index v 1)) apart)
      ∙ sym (translate_from-leaf m.words u v)

  -- The entry that is written led nowhere, and leads to a table of zeros.
  through_new :
      (n u v : ℕ) (q : List ℕ)
      → owner u ≡ some q
      → entry u (vaddr_index v (n + 2)) ≡ entry t i
      → translate_from (suc n) with_table.words u v ≡ translate_from (suc n) m.words u v
  through_new n u v q ou here =
      let j = vaddr_index v (n + 2) in
      let (ut, ji) = entry_apart tree u t j i q p ou own (vaddr_index-lt v (n + 2)) hi here in
      let before : get_page_table m.words u j ≡ none = rw (ut, ji) unset in
      let after : get_page_table with_table.words u j ≡ some (to_high_mem f) =
        rw (ut, ji) new_entry in
      translate_from-child n with_table.words u v (to_high_mem f) after
      ∙ translate_from-clear n with_table.words (to_high_mem f) v new_clear
      ∙ sym (translate_from-no_child n m.words u v before)

  new_translates :
      (n u v : ℕ) (q : List ℕ)
      → owner u ≡ some q
      → length q + n ≡ 3
      → translate_from n with_table.words u v ≡ translate_from n m.words u v
  new_translates zero u v q ou len = new_leaf u v q ou (omega arith)
  new_translates (suc n) u v q ou len =
      let j = vaddr_index v (n + 2) in
      elim (Bool-cases (entry u j == entry t i)) [
        | inl here ↦ through_new n u v q ou ((==_iff _ _).0 here)
        | inr apart ↦
            let as_before = old_entry u j (ground arith) in
            elim (Option-cases (get_page_table m.words u j)) [
              | inl gone ↦
                  translate_from-no_child n with_table.words u v (as_before ∙ gone)
                  ∙ sym (translate_from-no_child n m.words u v gone)
              | inr (c, there) ↦
                  translate_from-child n with_table.words u v c (as_before ∙ there)
                  ∙ new_translates n c v (j ∷ q)
                      (tree.child u j c q ou (omega arith) (vaddr_index-lt v (n + 2)) there)
                      (omega arith)
                  ∙ sym (translate_from-child n m.words u v c there)
            ]
      ]

  new_frame : (k g : ℕ) → get_elem? rest k ≡ some g → IsFrame with_owner with_table.words g
  new_frame k g e =
      let fr = tree.frames (suc k) g (later k g e) in
      let apart : to_high_mem g ≢ to_high_mem f = λ h.
        let gf = to_high_mem-injective g f fr.low frame.low h in
        absurd (
          omega (
            arith,
            tree.distinct (suc k) 0 f (later k f (rw (← gf) e)) (ap (λ s. get_elem? s 0) supply),
          )) in
      record {
        free = (let ne : (to_high_mem g == to_high_mem f) ≡ false = ground arith in rw ne fr.free);
        aligned = fr.aligned;
        low = fr.low;
        clear = λ j hj.
            elsewhere (entry (to_high_mem g) j) (entry_off tree t i g j p own fr hi hj)
            ∙ fr.clear j hj;
      }

  new_aligned : (u : ℕ) (q : List ℕ) → with_owner u ≡ some q → u % 4096 ≡ 0
  new_aligned u q ou = elim (Bool-cases (u == to_high_mem f)) [
    | inl same ↦ rw ((==_iff u (to_high_mem f)).0 same) (to_high_mem-mod f frame.aligned)
    | inr other ↦ tree.aligned u q (rw other at ou)
  ]

  new_bounded : (a : ℕ) → with_table.words a < 2 ^ 64
  new_bounded a = elim (Bool-cases (a == entry t i)) [
    | inl here ↦
        rw ((==_iff a (entry t i)).0 here, write_at m.words (entry t i) (bit_or f flags))
          (entry-lt f flags (omega (arith, frame.aligned)) (good.1) (omega (arith, frame.low)))
    | inr apart ↦ rw (elsewhere a (ground arith)) (tree.bounded a)
  ]

  new_IsTree : IsTree with_owner with_table
  new_IsTree = record {
    rooted = old_owner m.root [] tree.rooted;
    aligned = new_aligned;
    child = new_child;
    bounded = new_bounded;
    frames = new_frame;
    distinct =
        λ k j g e e'. omega (arith, tree.distinct (suc k) (suc j) g (later k g e) (later j g e'));
  }

  pub Grows-table : Grows 1 owner m with_owner with_table
  Grows-table = record {
    tree = new_IsTree;
    root = refl;
    spent = omega (arith, ap length supply);
    extends = old_owner;
    keeps = λ u j c q ou hj e.
        old_entry u j (λ here.
          let (ut, ji) = entry_apart tree u t j i q p ou own hj hi here in
          let before : get_page_table m.words u j ≡ none = rw (ut, ji) unset in cc)
        ∙ e;
    translates = new_translates;
  }

  pub with_table-child :
      (get_page_table with_table.words t i ≡ some (to_high_mem f))
      × (with_owner (to_high_mem f) ≡ some (i ∷ p))
  with_table-child = (new_entry, new_owner)

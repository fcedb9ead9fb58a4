-- ===== src/PageMap/Tree.antt =====
-- The tables of a `PageMap` form a tree: every table has one owner, the indices that lead to it.
use panix.Prelude.{
  ℕ, zero, suc, ◌+◌, ◌%◌, ◌^◌, ◌<◌, ◌≡◌, refl, sym, ◌∙◌, Option, none, some, List, [], ◌∷◌, length,
  get_elem?, arith, inl, inr, Option-cases,
}
use Prim.Native.Nat.{bit_and}
use panix.PageMap.{
  Words, PageMap, to_high_mem, vaddr_index, get_page_table, tab_addr_mask, entry, walk,
  translate_from,
}
use panix.PageMap.Entry.{get_page_table_even, masked_zero, vaddr_index-lt}

-- A table's path: the index of its entry in its parent, then that of the parent, up to the root.
abbrev pub Owner : Type 0
Owner = ℕ → Option (List ℕ)

-- A frame that may become a table holds zeros and belongs to no table.
pub record IsFrame (owner : Owner) (words : Words) (f : ℕ) : Type 0 where
  pub free : owner (to_high_mem f) ≡ none
  pub aligned : f % 4096 ≡ 0
  pub low : f < 2 ^ 47
  pub clear : (i : ℕ) → i < 512 → words (entry (to_high_mem f) i) ≡ 0

pub record IsTree (owner : Owner) (m : PageMap) : Type 0 where
  pub rooted : owner m.root ≡ some []
  pub aligned : (t : ℕ) (p : List ℕ) → owner t ≡ some p → t % 4096 ≡ 0
  pub child :
      (t i c : ℕ) (p : List ℕ)
      → owner t ≡ some p
      → length p < 3
      → i < 512
      → get_page_table m.words t i ≡ some c
      → owner c ≡ some (i ∷ p)
  pub bounded : (a : ℕ) → m.words a < 2 ^ 64
  pub frames : (k f : ℕ) → get_elem? m.supply k ≡ some f → IsFrame owner m.words f
  pub distinct : (k j f : ℕ) → get_elem? m.supply k ≡ some f → get_elem? m.supply j ≡ some f → k ≡ j

module _ (i : ℕ) (words : Words) (t v : ℕ) where
  pub walk-none :
      get_page_table words t (vaddr_index v (i + 2)) ≡ none → walk (suc i) words t v ≡ none
  unfolding walk
  walk-none h = rw (walk, h) refl

  pub walk-some :
      (c : ℕ)
      → get_page_table words t (vaddr_index v (i + 2)) ≡ some c
      → walk (suc i) words t v ≡ walk i words c v
  unfolding walk
  walk-some c h = rw (walk, h) refl

  pub translate_from-no_child :
      get_page_table words t (vaddr_index v (i + 2)) ≡ none → translate_from (suc i) words t v ≡ 0
  unfolding translate_from
  translate_from-no_child h = rw (translate_from, walk-none h) refl

  pub translate_from-child :
      (c : ℕ)
      → get_page_table words t (vaddr_index v (i + 2)) ≡ some c
      → translate_from (suc i) words t v ≡ translate_from i words c v
  unfolding translate_from
  translate_from-child c h = rw (translate_from, walk-some c h) refl

pub translate_from-leaf :
    (words : Words) (t v : ℕ)
    → translate_from zero words t v ≡ bit_and (words (entry t (vaddr_index v 1))) tab_addr_mask
unfolding translate_from walk
translate_from-leaf words t v = refl

-- Nothing is mapped below a table of zeros.
pub translate_from-clear :
    (n : ℕ) (words : Words) (t v : ℕ)
    → ((i : ℕ) → i < 512 → words (entry t i) ≡ 0)
    → translate_from n words t v ≡ 0
translate_from-clear zero words t v h =
    translate_from-leaf words t v ∙ rw (h (vaddr_index v 1) (vaddr_index-lt v 1)) masked_zero
translate_from-clear (suc n) words t v h =
    let e = h (vaddr_index v (n + 2)) (vaddr_index-lt v (n + 2)) in
    translate_from-no_child n words t v
      (get_page_table_even words t (vaddr_index v (n + 2)) (rw e refl))

-- The path to the table where the walk for `v` ends.
abbrev pub path : ℕ → ℕ → List ℕ → List ℕ
path zero v p = p
path (suc n) v p = path n v (vaddr_index v (n + 2) ∷ p)

pub walk-owner :
    {owner : Owner} {m : PageMap} (tree : IsTree owner m) (n t u v : ℕ) (p : List ℕ)
    → owner t ≡ some p
    → length p + n ≡ 3
    → walk n m.words t v ≡ some u
    → owner u ≡ some (path n v p)
unfolding walk
walk-owner tree zero t u v p own len e = let same : t ≡ u = cc in rw (← same) own
walk-owner {m} tree (suc n) t u v p own len e =
    elim (Option-cases (get_page_table m.words t (vaddr_index v (n + 2)))) [
      | inl gone ↦ cc (walk-none n m.words t v gone)
      | inr (c, there) ↦
          walk-owner tree n c u v (vaddr_index v (n + 2) ∷ p)
            (tree.child t _ c p own (omega arith) (vaddr_index-lt v (n + 2)) there) (omega arith)
            (sym (walk-some n m.words t v c there) ∙ e)
    ]

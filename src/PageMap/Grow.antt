-- ===== src/PageMap/Grow.antt =====
-- Changes of a page map by `PageMap::CreatePage`.
use panix.Prelude.{ℕ, ◌+◌, ◌≤◌, ◌<◌, ◌≡◌, ◌≢◌, refl, ap, ◌∙◌, some, List, length, arith}
use panix.PageMap.{PageMap, to_high_mem, get_page_table, entry, translate_from}
use panix.PageMap.Entry.{entry-injective, to_high_mem-mod}
use panix.PageMap.Tree.{Owner, IsFrame, IsTree}

-- From one map to another that has more tables, with at most `k` frames fewer.
pub record Grows (k : ℕ) (owner : Owner) (m : PageMap) (owner' : Owner) (m' : PageMap)
    : Type 0 where
  pub tree : IsTree owner' m'
  pub root : m'.root ≡ m.root
  pub spent : length m.supply ≤ length m'.supply + k
  pub extends : (t : ℕ) (p : List ℕ) → owner t ≡ some p → owner' t ≡ some p
  pub keeps :
      (t i c : ℕ) (p : List ℕ)
      → owner t ≡ some p
      → i < 512
      → get_page_table m.words t i ≡ some c
      → get_page_table m'.words t i ≡ some c
  pub translates :
      (n t v : ℕ) (p : List ℕ)
      → owner t ≡ some p
      → length p + n ≡ 3
      → translate_from n m'.words t v ≡ translate_from n m.words t v

pub Grows-refl : {k : ℕ} {owner : Owner} {m : PageMap} → IsTree owner m → Grows k owner m owner m
Grows-refl tree = record {
  tree = tree;
  root = refl;
  spent = omega arith;
  extends = λ t p e. e;
  keeps = λ t i c p own hi e. e;
  translates = λ n t v p own len. refl;
}

pub Grows-le :
    {k j : ℕ} {owner owner' : Owner} {m m' : PageMap}
    → k ≤ j
    → Grows k owner m owner' m'
    → Grows j owner m owner' m'
Grows-le h g = record {
  tree = g.tree;
  root = g.root;
  spent = omega (arith, g.spent);
  extends = g.extends;
  keeps = g.keeps;
  translates = g.translates;
}

pub Grows-trans :
    {k j : ℕ} {owner owner' owner'' : Owner} {m m' m'' : PageMap}
    → Grows k owner m owner' m'
    → Grows j owner' m' owner'' m''
    → Grows (j + k) owner m owner'' m''
Grows-trans g h = record {
  tree = h.tree;
  root = h.root ∙ g.root;
  spent = omega (arith, g.spent, h.spent);
  extends = λ t p e. h.extends t p (g.extends t p e);
  keeps = λ t i c p own hi e. h.keeps t i c p (g.extends t p own) hi (g.keeps t i c p own hi e);
  translates = λ n t v p own len.
      h.translates n t v p (g.extends t p own) len ∙ g.translates n t v p own len;
}

-- The entry of one table is not that of another.
pub entry_apart :
    {owner : Owner} {m : PageMap} (tree : IsTree owner m) (t u i j : ℕ) (p q : List ℕ)
    → owner t ≡ some p
    → owner u ≡ some q
    → i < 512
    → j < 512
    → entry t i ≡ entry u j
    → (t ≡ u) × (i ≡ j)
entry_apart tree t u i j p q ot ou hi hj e =
    entry-injective t u i j (tree.aligned t p ot) (tree.aligned u q ou) hi hj e

-- An entry of the tables is not in a frame of the supply.
pub entry_off :
    {owner : Owner} {m : PageMap} (tree : IsTree owner m) (t i f j : ℕ) (p : List ℕ)
    → owner t ≡ some p
    → IsFrame owner m.words f
    → i < 512
    → j < 512
    → entry (to_high_mem f) j ≢ entry t i
entry_off {owner} tree t i f j p ot frame hi hj e =
    let (same, _) =
      entry-injective (to_high_mem f) t j i (to_high_mem-mod f frame.aligned) (tree.aligned t p ot)
        hj hi e in
    cc (ap owner same, frame.free, ot)

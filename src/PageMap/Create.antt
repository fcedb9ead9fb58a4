-- ===== src/PageMap/Create.antt =====
-- `PageMap::CreatePage`: it finds the table of level 1, and makes the tables that the way there lacks.
use panix.Prelude.{
  ℕ, zero, suc, ◌+◌, ◌<◌, ◌≡◌, refl, ap, ◌∙◌, Option, none, some, List, [], ◌∷◌, length, arith,
  Bool-cases, ◌⊎◌, inl, inr,
}
use panix.PageMap.{
  PageMap, to_high_mem, vaddr_index, get_page_table, get_page_flag, entry, walk, create_walk,
  allocate_table, get_or_create_page_table,
}
use panix.PageMap.Entry.{IsFlags, vaddr_index-lt}
use panix.PageMap.Tree.{Owner, IsTree, walk-some}
use panix.PageMap.Grow.{Grows, Grows-refl, Grows-trans, Grows-le}
use panix.PageMap.Table.{Grows-table, with_table-child, with_owner}

-- A step that may make one table, and its result.
pub record Makes (owner : Owner) (m : PageMap) (t i : ℕ) (r : Option ℕ × PageMap) : Type 0 where
  pub owners : Owner
  pub grows : Grows 1 owner m owners (r.1)
  pub found :
      ((r.0 ≡ none) × (m.supply ≡ []))
      ⊎ ((c : ℕ) × (r.0 ≡ some c) × (get_page_table (r.1).words t i ≡ some c))

module _ {owner : Owner} {m : PageMap} (tree : IsTree owner m) (t i flags : ℕ) (p : List ℕ)
    (own : owner t ≡ some p) (short : length p < 3) (hi : i < 512) (good : IsFlags flags) where
  allocate-Makes :
      (s : List ℕ)
      → m.supply ≡ s
      → get_page_table m.words t i ≡ none
      → Makes owner m t i (allocate_table m t i flags s)
  unfolding allocate_table
  allocate-Makes [] supply unset = record {
    owners = owner;
    grows = Grows-refl tree;
    found = inl (refl, supply);
  }
  allocate-Makes (f ∷ rest) supply unset = record {
    owners = with_owner tree t i f flags p rest own short hi good supply unset;
    grows = Grows-table tree t i f flags p rest own short hi good supply unset;
    found = inr (
      to_high_mem f,
      refl,
      (with_table-child tree t i f flags p rest own short hi good supply unset).0,
    );
  }

  pub get_or_create-Makes : Makes owner m t i (get_or_create_page_table m t i flags)
  unfolding get_or_create_page_table
  get_or_create-Makes = elim (Bool-cases (get_page_flag (m.words (entry t i)) 1)) [
    | inl set ↦ rw set (record {
      owners = owner;
      grows = Grows-refl tree;
      found = inr (_, refl, unfold get_page_table in rw set refl);
    })
    | inr unset ↦ rw unset (allocate-Makes m.supply refl (unfold get_page_table in rw unset refl))
  ]

-- The loop, with `n` rounds left at the table `t`.
pub record Creates (n : ℕ) (owner : Owner) (m : PageMap) (t v : ℕ) (r : Option ℕ × PageMap)
    : Type 0 where
  pub owners : Owner
  pub grows : Grows n owner m owners (r.1)
  pub found :
      ((r.0 ≡ none) × (length m.supply < n))
      ⊎ ((u : ℕ) × (r.0 ≡ some u) × (walk n (r.1).words t v ≡ some u))

pub create_walk-Creates :
    (n : ℕ) {owner : Owner} {m : PageMap} (tree : IsTree owner m) (t v flags : ℕ) (p : List ℕ)
    → owner t ≡ some p
    → length p + n ≡ 3
    → IsFlags flags
    → Creates n owner m t v (create_walk n m t v flags)
unfolding create_walk walk
create_walk-Creates zero {owner} tree t v flags p own len good = record {
  owners = owner;
  grows = Grows-refl tree;
  found = inr (t, refl, refl);
}
create_walk-Creates (suc n) {owner} {m} tree t v flags p own len good =
    let j = vaddr_index v (n + 2) in
    let hj = vaddr_index-lt v (n + 2) in
    let made = get_or_create-Makes tree t j flags p own (omega arith) hj good in
    elim made.found [
      | inl (none_left, empty) ↦
          rw (create_walk, none_left)
            (record {
              owners = made.owners;
              grows = Grows-le (omega arith) made.grows;
              found = inl (refl, omega (arith, ap length empty));
            })
      | inr (c, there, child) ↦
          let own' : made.owners c ≡ some (j ∷ p) =
            made.grows.tree.child t j c p (made.grows.extends t p own) (omega arith) hj child in
          let rest =
            create_walk-Creates n made.grows.tree c v flags (j ∷ p) own' (omega arith) good in
          rw (create_walk, there)
            (record {
              owners = rest.owners;
              grows = Grows-le (omega arith) (Grows-trans made.grows rest.grows);
              found = (elim rest.found [
                | inl (none_left, few) ↦ inl (none_left, omega (arith, few, made.grows.spent))
                | inr (u, there_too, way) ↦
                    let kept = rest.grows.keeps t j c (p) (made.grows.extends t p own) hj child in
                    inr (u, there_too, walk-some n _ t v c kept ∙ way)
              ]);
            })
    ]

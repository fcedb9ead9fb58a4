-- ===== src/PageMap/Map.antt =====
-- `PageMap::Map`, `Unmap`, `Remap` and `VAddrToPAddr`: what every page translates to afterwards.
use panix.Prelude.{
  ℕ, ◌+◌, ◌%◌, ◌^◌, ◌≤◌, ◌<◌, ◌≡◌, refl, ap, ◌∙◌, Bool, true, false, Option, none, some, [], length,
  arith, ◌==◌, Bool-cases, inl, inr, if◌then◌else◌, Option-cases, ==_iff, ◌&&◌,
}
use Prim.Native.Nat.{bit_or}
use panix.PageMap.{
  PageMap, vaddr_index, entry, store, walk, create_page, create_walk, get_page, translate_from,
  map_page, unmap, vaddr_to_paddr, remap,
}
use panix.PageMap.Entry.{IsFlags, masked, masked_zero, masked-entry, entry-lt, vaddr_index-lt, page}
use panix.PageMap.Tree.{Owner, IsTree, path}
use panix.PageMap.Create.{create_walk-Creates}
use panix.PageMap.Store.{
  store-IsTree, translate-store, end-owner, translate_from-none, translate_from-walk, walk-page,
}

-- A tree for some owners.
abbrev pub IsPageMap : PageMap → Type 0
IsPageMap m = (owner : Owner) × IsTree owner m

-- `CreatePage` and the write behind it.
pub record Maps (m : PageMap) (paddr vaddr : ℕ) (r : Bool × PageMap) : Type 0 where
  pub tree : IsPageMap (r.1)
  pub translates :
      (v : ℕ)
      → vaddr_to_paddr (r.1) v
        ≡ (if r.0 && (page v == page vaddr) then paddr else vaddr_to_paddr m v)
  pub enough : 3 ≤ length m.supply → r.0 ≡ true
  pub spent : length m.supply ≤ length (r.1).supply + 3

module _ (m : PageMap) (paddr vaddr flags : ℕ) (valid : IsPageMap m) (aligned : paddr % 2 ^ 9 ≡ 0)
    (bound : paddr < 2 ^ 64) (good : IsFlags flags) where
  create_page-none :
      (create_walk 3 m m.root vaddr flags).0 ≡ none
      → create_page m vaddr flags ≡ (none, (create_walk 3 m m.root vaddr flags).1)
  unfolding create_page
  create_page-none h = rw (create_page, h) refl

  create_page-some :
      (t : ℕ)
      → (create_walk 3 m m.root vaddr flags).0 ≡ some t
      → create_page m vaddr flags
        ≡ (some (entry t (vaddr_index vaddr 1)), (create_walk 3 m m.root vaddr flags).1)
  unfolding create_page
  create_page-some t h = rw (create_page, h) refl

  map_page-none :
      (create_walk 3 m m.root vaddr flags).0 ≡ none
      → map_page m paddr vaddr flags ≡ (false, (create_walk 3 m m.root vaddr flags).1)
  unfolding map_page
  map_page-none h =
      rw (map_page, create_page-none h)
        (ap (λ (r : Option ℕ × PageMap). (false, r.1)) (create_page-none h))

  map_page-some :
      (t : ℕ)
      → (create_walk 3 m m.root vaddr flags).0 ≡ some t
      → map_page m paddr vaddr flags ≡ (
        true,
        store
            (create_walk 3 m m.root vaddr flags).1
            (entry t (vaddr_index vaddr 1))
            (bit_or paddr flags),
      )
  unfolding map_page
  map_page-some t h =
      rw (map_page, create_page-some t h)
        (ap
          (λ (r : Option ℕ × PageMap).
            (true, store r.1 (entry t (vaddr_index vaddr 1)) (bit_or paddr flags)))
          (create_page-some t h))

  pub map_page-Maps : Maps m paddr vaddr (map_page m paddr vaddr flags)
  unfolding vaddr_to_paddr
  map_page-Maps =
      let (owner, tree) = valid in
      let made = create_walk-Creates 3 tree m.root vaddr flags [] tree.rooted refl good in
      let next = (create_walk 3 m m.root vaddr flags).1 in
      let as_before : (v : ℕ)
          → translate_from 3 next.words next.root v ≡ translate_from 3 m.words m.root v =
        λ v.
          ap (λ r. translate_from 3 next.words r v) made.grows.root
          ∙ made.grows.translates 3 m.root v [] tree.rooted refl in
      elim made.found [
        | inl (none_left, few) ↦ rw (map_page-none none_left) (record {
          tree = (made.owners, made.grows.tree);
          translates = as_before;
          enough = λ h. absurd (omega arith);
          spent = made.grows.spent;
        })
        | inr (t, there, way) ↦
            let way' : walk 3 next.words next.root vaddr ≡ some t =
              ap (λ r. walk 3 next.words r vaddr) made.grows.root ∙ way in
            let small = entry-lt paddr flags aligned good.1 bound in
            rw (map_page-some t there) (record {
              tree = (
                made.owners,
                store-IsTree made.grows.tree t (vaddr_index vaddr 1) (bit_or paddr flags)
                    (path 3 vaddr []) (end-owner made.grows.tree t vaddr 0 way') refl
                    (vaddr_index-lt vaddr 1) small,
              );
              translates = λ v.
                  translate-store made.grows.tree t vaddr (bit_or paddr flags) way' v
                  ∙ ap
                      (λ w.
                        if page v == page vaddr then w else translate_from 3 next.words next.root v)
                      (masked-entry paddr flags aligned good.1 bound)
                  ∙ ap (λ w. if page v == page vaddr then paddr else w) (as_before v);
              enough = λ h. refl;
              spent = made.grows.spent;
            })
      ]

  -- For a physical address below 2 ^ 64 that is a multiple of 2 ^ 9, and flags with the PRESENT bit and none
  -- above bit 8, `Map` keeps the tree of tables. If it returns true, the page of `vaddr` translates to the
  -- address and every other page as before; if it returns false, every page translates as before.
  pub map_page-translates :
      IsPageMap ((map_page m paddr vaddr flags).1)
      × ((v : ℕ)
          → vaddr_to_paddr ((map_page m paddr vaddr flags).1) v ≡ (
              if (map_page m paddr vaddr flags).0 && (page v == page vaddr)
              then paddr
              else vaddr_to_paddr m v))
  map_page-translates = (map_page-Maps.tree, map_page-Maps.translates)

-- With three frames left, for a physical address below 2 ^ 64 that is a multiple of 2 ^ 9, and flags with the
-- PRESENT bit and none above bit 8, `Map` returns true.
pub map_page_succeeds :
    (m : PageMap) (paddr vaddr flags : ℕ)
    → IsPageMap m
    → paddr % 2 ^ 9 ≡ 0
    → paddr < 2 ^ 64
    → IsFlags flags
    → 3 ≤ length m.supply
    → (map_page m paddr vaddr flags).0 ≡ true
map_page_succeeds m paddr vaddr flags valid aligned bound good h =
    (map_page-Maps m paddr vaddr flags valid aligned bound good).enough h

get_page_none :
    (m : PageMap) (vaddr : ℕ) → walk 3 m.words m.root vaddr ≡ none → unmap m vaddr ≡ (false, m)
unfolding unmap get_page
get_page_none m vaddr h = rw (unmap, get_page, h) refl

get_page_some :
    (m : PageMap) (vaddr t : ℕ)
    → walk 3 m.words m.root vaddr ≡ some t
    → unmap m vaddr ≡ (true, store m (entry t (vaddr_index vaddr 1)) 0)
unfolding unmap get_page
get_page_some m vaddr t h = rw (unmap, get_page, h) refl

-- `Unmap` keeps the tree of tables and takes no frame; whatever it returns, the page of `vaddr` then
-- translates to 0, and every other page as before.
pub unmap-translates :
    (m : PageMap) (vaddr : ℕ)
    → IsPageMap m
    → IsPageMap ((unmap m vaddr).1)
      × ((unmap m vaddr).1.supply ≡ m.supply)
      × ((v : ℕ)
          → vaddr_to_paddr ((unmap m vaddr).1) v
            ≡ (if page v == page vaddr then 0 else vaddr_to_paddr m v))
unfolding vaddr_to_paddr
unmap-translates m vaddr (owner, tree) = elim (Option-cases (walk 3 m.words m.root vaddr)) [
  | inl gone ↦ rw (get_page_none m vaddr gone) (
    (owner, tree),
    refl,
    λ v. elim (Bool-cases (page v == page vaddr)) [
      | inl same ↦ rw same (
          translate_from-none 3 m.words m.root v
            (walk-page 3 m.words m.root v vaddr (omega arith) ((==_iff _ _).0 same) ∙ gone))
      | inr other ↦ rw other refl
    ],
  )
  | inr (t, way) ↦ rw (get_page_some m vaddr t way) (
    (
      owner,
      store-IsTree tree t (vaddr_index vaddr 1) 0 (path 3 vaddr []) (end-owner tree t vaddr 0 way)
          refl (vaddr_index-lt vaddr 1) (omega arith),
    ),
    refl,
    λ v.
        translate-store tree t vaddr 0 way v
        ∙ ap (λ w. if page v == page vaddr then w else translate_from 3 m.words m.root v)
            masked_zero,
  )
]

and_true : (b : Bool) → (b && true) ≡ b
and_true true = refl
and_true false = refl

-- What a page translates to is the address of a page frame.
translate-frame :
    (m : PageMap) (v : ℕ)
    → IsPageMap m
    → (vaddr_to_paddr m v % 2 ^ 9 ≡ 0) × (vaddr_to_paddr m v < 2 ^ 64)
unfolding vaddr_to_paddr
translate-frame m v (owner, tree) = elim (Option-cases (walk 3 m.words m.root v)) [
  | inl gone ↦ rw (translate_from-none 3 m.words m.root v gone) (refl, omega arith)
  | inr (t, way) ↦
      let w = m.words (entry t (vaddr_index v 1)) in
      let small = tree.bounded (entry t (vaddr_index v 1)) in
      rw (translate_from-walk 3 m.words m.root t v way, masked w small)
        (omega arith, omega (arith, small))
]

-- With three frames left, and flags with the PRESENT bit and none above bit 8, `Remap` keeps the tree of tables and returns
-- what `Unmap` of the old address does: the page of `new_vaddr` translates to what that of `vaddr` did,
-- else the page of `vaddr` to 0, and every other page as before.
pub remap-translates :
    (m : PageMap) (vaddr new_vaddr flags : ℕ)
    → IsPageMap m
    → IsFlags flags
    → 3 ≤ length m.supply
    → IsPageMap ((remap m vaddr new_vaddr flags).1)
      × ((remap m vaddr new_vaddr flags).0 ≡ (unmap m vaddr).0)
      × ((v : ℕ)
          → vaddr_to_paddr ((remap m vaddr new_vaddr flags).1) v ≡ (
              if page v == page new_vaddr
              then vaddr_to_paddr m vaddr
              else if page v == page vaddr
              then 0
              else vaddr_to_paddr m v))
unfolding remap
remap-translates m vaddr new_vaddr flags valid good enough =
    let (aligned, small) = translate-frame m vaddr valid in
    let (valid', supply, gone) = unmap-translates m vaddr valid in
    let next = (unmap m vaddr).1 in
    let made =
      map_page-Maps next (vaddr_to_paddr m vaddr) new_vaddr flags valid' aligned small good in
    let done = made.enough (rw supply enough) in
    (
      made.tree,
      rw done (and_true (unmap m vaddr).0),
      λ v.
          made.translates v
          ∙ ap
              (λ (b : Bool).
                if b && (page v == page new_vaddr)
                then vaddr_to_paddr m vaddr
                else vaddr_to_paddr next v)
              done
          ∙ ap (λ w. if page v == page new_vaddr then vaddr_to_paddr m vaddr else w) (gone v),
    )

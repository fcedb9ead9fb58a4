-- ===== src/PageMap/New.antt =====
-- The constructor `PageMap()`, and the higher half's addresses for physical ones.
use panix.Prelude.{
  ℕ, suc, ◌%◌, ◌^◌, ◌<◌, ◌≡◌, ◌≢◌, refl, false, none, some, List, [], ◌∷◌, arith, ◌==◌, Bool-cases,
  inl, inr, if◌then◌else◌, ==_iff, get_elem?,
}
use panix.PageMap.{Words, vaddr_to_paddr, new_map, to_high_mem, from_high_mem, entry}
use panix.PageMap.Entry.{to_high_mem-mod, to_high_mem-injective, get_page_table_even}
use panix.PageMap.Tree.{Owner, IsTree, translate_from-clear}
use panix.PageMap.Map.{IsPageMap}

-- What the allocator promises of the frames that it hands out, and, which `PageMap` leaves to it, that
-- they hold zeros.
pub record IsSupply (words : Words) (frames : List ℕ) : Type 0 where
  pub aligned : (k f : ℕ) → get_elem? frames k ≡ some f → f % 4096 ≡ 0
  pub low : (k f : ℕ) → get_elem? frames k ≡ some f → f < 2 ^ 47
  pub clear :
      (k f i : ℕ) → get_elem? frames k ≡ some f → i < 512 → words (entry (to_high_mem f) i) ≡ 0
  pub distinct : (k j f : ℕ) → get_elem? frames k ≡ some f → get_elem? frames j ≡ some f → k ≡ j

module _ (words : Words) (frame : ℕ) (rest : List ℕ) (supply : IsSupply words (frame ∷ rest))
    (bounded : (a : ℕ) → words a < 2 ^ 64) where
  only_root : Owner
  only_root t = if t == to_high_mem frame then some [] else none

  root_alone : (t : ℕ) (p : List ℕ) → only_root t ≡ some p → (t ≡ to_high_mem frame) × ([] ≡ p)
  unfolding only_root
  root_alone t p h = elim (Bool-cases (t == to_high_mem frame)) [
    | inl same ↦ ((==_iff _ _).0 same, cc (rw same at h))
    | inr other ↦ absurd (cc (rw other at h))
  ]

  apart : (k f : ℕ) → get_elem? rest k ≡ some f → to_high_mem f ≢ to_high_mem frame
  apart k f e h =
      let same =
        to_high_mem-injective f frame (supply.low (suc k) f e) (supply.low 0 frame refl) h in
      absurd (omega (arith, supply.distinct (suc k) 0 frame (rw (← same) e) refl))

  root_rooted : only_root (to_high_mem frame) ≡ some []
  unfolding only_root
  root_rooted = ground arith

  others_free : (k f : ℕ) → get_elem? rest k ≡ some f → only_root (to_high_mem f) ≡ none
  unfolding only_root
  others_free k f e =
      let ne = apart k f e in
      let other : (to_high_mem f == to_high_mem frame) ≡ false = ground arith in rw other refl

  new_map-IsTree : IsTree only_root (new_map words (frame ∷ rest))
  unfolding new_map
  new_map-IsTree = record {
    rooted = root_rooted;
    aligned =
        λ t p h. rw ((root_alone t p h).0) (to_high_mem-mod frame (supply.aligned 0 frame refl));
    child = λ t i c p own len hi e.
        let zeros : words (entry t i) % 2 ≡ 0 =
          rw ((root_alone t p own).0, supply.clear 0 frame i refl hi) refl in
        cc (get_page_table_even words t i zeros, e);
    bounded = bounded;
    frames = λ k f e. record {
      free = others_free k f e;
      aligned = supply.aligned (suc k) f e;
      low = supply.low (suc k) f e;
      clear = λ i hi. supply.clear (suc k) f i e hi;
    };
    distinct = λ k j f e h. omega (arith, supply.distinct (suc k) (suc j) f e h);
  }

  -- Of frames that are distinct, page-aligned, below 2 ^ 47 and zeroed, and a memory of 64-bit words, the
  -- constructor makes a tree of tables in which every page translates to 0.
  pub new_map-translates :
      IsPageMap (new_map words (frame ∷ rest))
      × ((v : ℕ) → vaddr_to_paddr (new_map words (frame ∷ rest)) v ≡ 0)
  unfolding vaddr_to_paddr new_map
  new_map-translates = (
    (only_root, new_map-IsTree),
    λ v.
        translate_from-clear 3 words (to_high_mem frame) v (λ i hi. supply.clear 0 frame i refl hi),
  )

-- A physical address above 0 and below 2 ^ 47 comes back from the higher half.
pub from_high_mem-to_high_mem :
    (paddr : ℕ) → 0 < paddr → paddr < 2 ^ 47 → from_high_mem (to_high_mem paddr) ≡ paddr
unfolding from_high_mem to_high_mem
from_high_mem-to_high_mem paddr lo hi = ground arith

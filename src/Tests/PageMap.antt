-- ===== src/Tests/PageMap.antt =====
-- The theorems on sys/page_map.cpp at four frames of zeros, one of which is the root.
use panix.Prelude.{
  ℕ, zero, suc, ◌+◌, ◌*◌, ◌≡◌, ◌<◌, refl, true, if◌then◌else◌, ◌==◌, ◌&&◌, some, List, [], ◌∷◌,
  get_elem?, arith,
}
use panix.Prelude.Run.{Returns}
use panix.PageMap.{Words, PageMap, new_map, map_page, unmap, remap, vaddr_to_paddr, map_range}
use panix.PageMap.Entry.{page, IsFlags}
use panix.PageMap.Map.{
  IsPageMap, map_page-translates, map_page_succeeds, unmap-translates, remap-translates,
}
use panix.PageMap.Range.{in_range, map_range-translates}
use panix.PageMap.New.{IsSupply, new_map-translates}

abbrev zeros : Words
zeros a = 0

abbrev four : List ℕ
four = 4096 ∷ 8192 ∷ 12288 ∷ 16384 ∷ []

-- Frame `k` is the one at 4096 * (k + 1).
four_place : (k f : ℕ) → get_elem? four k ≡ some f → (f ≡ 4096 * (k + 1)) × (k < 4)
four_place zero f h = ground arith
four_place (suc zero) f h = ground arith
four_place (suc (suc zero)) f h = ground arith
four_place (suc (suc (suc zero))) f h = ground arith
four_place (suc (suc (suc (suc k)))) f h = cc

four-IsSupply : IsSupply zeros four
four-IsSupply = record {
  aligned = λ k f h. let (e, lt) = four_place k f h in omega arith;
  low = λ k f h. let (e, lt) = four_place k f h in omega arith;
  clear = λ k f i h hi. refl;
  distinct = λ k j f h g.
      let (e, lt) = four_place k f h in let (e', lt') = four_place j f g in omega arith;
}

new_map-translates_example :
    IsPageMap (new_map zeros four) × ((v : ℕ) → vaddr_to_paddr (new_map zeros four) v ≡ 0)
new_map-translates_example =
    new_map-translates zeros 4096 (8192 ∷ 12288 ∷ 16384 ∷ []) four-IsSupply λ a. omega arith

abbrev start : PageMap
start = new_map zeros four

start-IsPageMap : IsPageMap start
start-IsPageMap =
    (new_map-translates zeros 4096 (8192 ∷ 12288 ∷ 16384 ∷ []) four-IsSupply λ a. omega arith).0

kernel_page-IsFlags : IsFlags 3
kernel_page-IsFlags = (refl, omega arith)

map_page-translates_example :
    IsPageMap ((map_page start 40960 73728 3).1)
    × ((v : ℕ)
        → vaddr_to_paddr ((map_page start 40960 73728 3).1) v ≡ (
            if (map_page start 40960 73728 3).0 && (page v == page 73728)
            then 40960
            else vaddr_to_paddr start v))
map_page-translates_example =
    map_page-translates start 40960 73728 3 start-IsPageMap refl (omega arith) kernel_page-IsFlags

map_page_succeeds_example : (map_page start 40960 73728 3).0 ≡ true
unfolding new_map
map_page_succeeds_example =
    map_page_succeeds start 40960 73728 3 start-IsPageMap refl (omega arith) kernel_page-IsFlags
      (omega arith)

abbrev mapped : PageMap
mapped = (map_page start 40960 73728 3).1

unmap-translates_example :
    IsPageMap ((unmap mapped 73728).1)
    × ((unmap mapped 73728).1.supply ≡ mapped.supply)
    × ((v : ℕ)
        → vaddr_to_paddr ((unmap mapped 73728).1) v
          ≡ (if page v == page 73728 then 0 else vaddr_to_paddr mapped v))
unmap-translates_example = unmap-translates mapped 73728 (map_page-translates_example.0)

remap-translates_example :
    IsPageMap ((remap start 73728 90112 3).1)
    × ((remap start 73728 90112 3).0 ≡ (unmap start 73728).0)
    × ((v : ℕ)
        → vaddr_to_paddr ((remap start 73728 90112 3).1) v ≡ (
            if page v == page 90112
            then vaddr_to_paddr start 73728
            else if page v == page 73728
            then 0
            else vaddr_to_paddr start v))
unfolding new_map
remap-translates_example =
    remap-translates start 73728 90112 3 start-IsPageMap kernel_page-IsFlags (omega arith)

map_range-translates_example : Returns (map_range 2 start 40960 45056 8192 3) λ r.
    (r.0 ≡ true)
    × IsPageMap (r.1)
    × ((v : ℕ)
        → vaddr_to_paddr (r.1) v ≡ in_range 40960 45056 (40960 + 8192) v (vaddr_to_paddr start v))
unfolding new_map
map_range-translates_example =
    map_range-translates 1 40960 45056 8192 3 start start-IsPageMap kernel_page-IsFlags refl
      (omega arith) (omega arith) (omega arith) (omega arith)

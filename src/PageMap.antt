-- ===== src/PageMap.antt =====
-- sys/page_map.cpp: four-level page tables. A pointer is an address of the higher half, and `words`
-- holds the 64-bit word at each address. `supply` lists the frames that `BuddyAllocator::Allocate` hands
-- out, in this order; with an empty list it returns a null pointer. `invlpg` and CR3 are not modelled.
pub mod Entry
pub mod Tree
pub mod Grow
pub mod Table
pub mod Create
pub mod Store
pub mod Map
pub mod Range
pub mod New
use panix.Prelude.{
  ℕ, zero, suc, ◌+◌, ◌-◌, ◌*◌, ◌/◌, ◌%◌, ◌^◌, Bool, true, false, not, ◌&&◌, Option, none, some,
  List, [], ◌∷◌, ltb, ◌==◌, if◌then◌else◌,
}
use Prim.Native.Nat.{bit_and, bit_or}
use panix.Prelude.Run.{Run, out_of_fuel, ok}

abbrev pub Words : Type 0
Words = ℕ → ℕ

pub record PageMap : Type 0 where
  pub words : Words
  pub supply : List ℕ
  pub root : ℕ

abbrev pub frame_size : ℕ
frame_size = 4096

-- 0xFFFF800000000000
abbrev pub kernel_data_base : ℕ
kernel_data_base = 2 ^ 64 - 2 ^ 47

-- `~(0x1FF)`
abbrev pub tab_addr_mask : ℕ
tab_addr_mask = 2 ^ 64 - 1 - (2 ^ 9 - 1)

unfoldable pub to_high_mem : ℕ → ℕ
to_high_mem paddr = (paddr + kernel_data_base) % 2 ^ 64

unfoldable pub from_high_mem : ℕ → ℕ
from_high_mem vaddr = if ltb kernel_data_base vaddr then vaddr - kernel_data_base else vaddr

unfoldable pub vaddr_index : ℕ → ℕ → ℕ
vaddr_index vaddr level = bit_and (vaddr / 2 ^ (12 + 9 * (level - 1))) (2 ^ 9 - 1)

unfoldable pub get_page_flag : ℕ → ℕ → Bool
get_page_flag page flag = not (bit_and page flag == 0)

-- `&table[index]`
abbrev pub entry : ℕ → ℕ → ℕ
entry table index = table + 8 * index

-- The pointer is null where PRESENT is not set. (An entry for address 2 ^ 47, which no memory has, would make
-- it null as well, and is not told apart.)
unfoldable pub get_page_table : Words → ℕ → ℕ → Option ℕ
get_page_table words parent index =
    let page = words (entry parent index) in
    if get_page_flag page 1 then some (to_high_mem (bit_and page tab_addr_mask)) else none

unfoldable pub write : Words → ℕ → ℕ → Words
write words p v a = if a == p then v else words a

-- `PageMap()`: the root is the first frame, and the null pointer's place where there is none.
unfoldable pub new_map : Words → List ℕ → PageMap
new_map words [] = record { words = words; supply = []; root = to_high_mem 0 }
new_map words (frame ∷ rest) = record { words = words; supply = rest; root = to_high_mem frame }

-- `BuddyAllocator::Allocate`, and the entry for the frame that it returns.
unfoldable pub allocate_table : PageMap → ℕ → ℕ → ℕ → List ℕ → Option ℕ × PageMap
allocate_table m parent index flags [] = (none, m)
allocate_table m parent index flags (free_frame ∷ rest) = (
  some (to_high_mem free_frame),
  record {
    words = write m.words (entry parent index) (bit_or free_frame flags);
    supply = rest;
    root = m.root;
  },
)

-- The table, or none, and the map afterwards.
unfoldable pub get_or_create_page_table : PageMap → ℕ → ℕ → ℕ → Option ℕ × PageMap
get_or_create_page_table m parent index flags =
    let page = m.words (entry parent index) in
    if get_page_flag page 1
    then (some (to_high_mem (bit_and page tab_addr_mask)), m)
    else allocate_table m parent index flags m.supply

-- `for(int i = 4; i > 1; --i)`, the argument being i - 1: the table of level 1.
unfoldable pub walk : ℕ → Words → ℕ → ℕ → Option ℕ
walk zero words parent vaddr = some parent
walk (suc i) words parent vaddr = elim (get_page_table words parent (vaddr_index vaddr (i + 2))) [
  | none ↦ none
  | some child ↦ walk i words child vaddr
]

unfoldable pub get_page : Words → ℕ → ℕ → Option ℕ
get_page words root vaddr = elim (walk 3 words root vaddr) [
  | none ↦ none
  | some table ↦ some (entry table (vaddr_index vaddr 1))
]

-- The loop of `CreatePage`.
unfoldable pub create_walk : ℕ → PageMap → ℕ → ℕ → ℕ → Option ℕ × PageMap
create_walk zero m parent vaddr flags = (some parent, m)
create_walk (suc i) m parent vaddr flags =
    let (found, next) = get_or_create_page_table m parent (vaddr_index vaddr (i + 2)) flags in
    elim found [ none ↦ (none, next) | some child ↦ create_walk i next child vaddr flags ]

unfoldable pub create_page : PageMap → ℕ → ℕ → Option ℕ × PageMap
create_page m vaddr flags =
    let (found, next) = create_walk 3 m m.root vaddr flags in
    elim found [
      | none ↦ (none, next)
      | some table ↦ (some (entry table (vaddr_index vaddr 1)), next)
    ]

abbrev pub store : PageMap → ℕ → ℕ → PageMap
store m p v = record { words = write m.words p v; supply = m.supply; root = m.root }

-- `Map`
unfoldable pub map_page : PageMap → ℕ → ℕ → ℕ → Bool × PageMap
map_page m paddr vaddr flags =
    let (found, next) = create_page m vaddr flags in
    elim found [ none ↦ (false, next) | some p ↦ (true, store next p (bit_or paddr flags)) ]

-- `Unmap`
unfoldable pub unmap : PageMap → ℕ → Bool × PageMap
unmap m vaddr = elim (get_page m.words m.root vaddr) [
  | none ↦ (false, m)
  | some p ↦ (true, store m p 0)
]

unfoldable pub translate_from : ℕ → Words → ℕ → ℕ → ℕ
translate_from i words parent vaddr = elim (walk i words parent vaddr) [
  | none ↦ 0
  | some table ↦ bit_and (words (entry table (vaddr_index vaddr 1))) tab_addr_mask
]

unfoldable pub vaddr_to_paddr : PageMap → ℕ → ℕ
vaddr_to_paddr m vaddr = translate_from 3 m.words m.root vaddr

unfoldable pub remap : PageMap → ℕ → ℕ → ℕ → Bool × PageMap
remap m vaddr new_vaddr flags =
    let paddr = vaddr_to_paddr m vaddr in
    let (unmap_code, unmapped) = unmap m vaddr in
    let (map_code, mapped) = map_page unmapped paddr new_vaddr flags in
    (unmap_code && map_code, mapped)

-- `for(addr = base; addr < bound; addr += FRAME_SIZE)`, left where the body returns false.
unfoldable pub each : ℕ → (PageMap → ℕ → Bool × PageMap) → ℕ → ℕ → PageMap → Run (Bool × PageMap)
each zero step addr bound m = out_of_fuel
each (suc fuel) step addr bound m =
    let (done, next) = step m addr in
    let later = each fuel step ((addr + frame_size) % 2 ^ 64) bound next in
    if ltb addr bound then (if done then later else ok (false, next)) else ok (true, m)

unfoldable pub map_range : ℕ → PageMap → ℕ → ℕ → ℕ → ℕ → Run (Bool × PageMap)
map_range fuel m base bound virt_offset flags =
    each fuel (λ next addr. map_page next addr ((addr + virt_offset) % 2 ^ 64) flags) base bound m

unfoldable pub unmap_range : ℕ → PageMap → ℕ → ℕ → Run (Bool × PageMap)
unmap_range fuel m base bound = each fuel unmap base bound m

unfoldable pub remap_range : ℕ → PageMap → ℕ → ℕ → ℕ → ℕ → Run (Bool × PageMap)
remap_range fuel m base bound new_vaddr_base flags =
    each fuel (λ next vaddr. remap next vaddr ((new_vaddr_base + (vaddr - base)) % 2 ^ 64) flags)
      base bound m

-- ===== src/Buddy/State.antt =====
-- The static variables of sys/buddy_allocator.cpp, the ranges of memory with their entries, and the access to
-- entries and lists. An access through the null pointer, an index outside `free_lists_` and a shift of an `int`
-- by 31 bits or more are faults.
use panix.Prelude.{
  ℕ, zero, suc, ◌+◌, ◌-◌, ◌*◌, ◌/◌, ◌%◌, ◌^◌, Bool, ◌&&◌, Option, none, some, List, [], ◌∷◌, ltb,
  leb, ◌==◌, if◌then◌else◌,
}
use Prim.Native.Nat.{bit_xor}
use panix.Prelude.Run.{Run, ok, fault, ◌>>=◌, out_of_bounds, null_dereference, bad_shift}

pub record FreeListEntry : Type 0 where
  pub forward : ℕ
  pub backward : ℕ
  pub order : ℕ
  pub free : Bool

pub record MemRange : Type 0 where
  pub mdata_base : ℕ
  pub base : ℕ
  pub mdata_size : ℕ
  pub size : ℕ
  pub page_entries : ℕ

-- The namespace's static variables, and the entries they point to.
pub record Allocator : Type 0 where
  pub mem_ranges : List MemRange
  pub num_blocks : ℕ
  pub free_lists : ℕ → ℕ
  pub mem_in_use : ℕ
  pub total_mem : ℕ
  pub initialized : Bool
  pub entries : ℕ → FreeListEntry

abbrev pub max_order : ℕ
max_order = 40

abbrev pub min_order : ℕ
min_order = 12

abbrev pub min_allocation : ℕ
min_allocation = 4096

-- `sizeof(FreeListEntry)`
abbrev pub entry_size : ℕ
entry_size = 24

-- `1 << n` of type `int`
unfoldable pub shift_int : ℕ → Run ℕ
shift_int n = if ltb n 31 then ok (2 ^ n) else fault bad_shift

-- `for(i = 0; (1ULL << i) < size; ++i)`, with the shifts that are left
unfoldable pub log2_from : ℕ → ℕ → ℕ → Run ℕ
log2_from zero i size = fault bad_shift
log2_from (suc shifts) i size =
    let rest = log2_from shifts (i + 1) size in if ltb (2 ^ i) size then rest else ok i

unfoldable pub ceil_log2 : ℕ → Run ℕ
ceil_log2 size = log2_from 64 0 size

unfoldable pub round_up : ℕ → ℕ
round_up size = (size + min_allocation - 1) % 2 ^ 64 / min_allocation * min_allocation

-- `EntryRange(uintptr_t)`: the range, or `none` for -1.
unfoldable pub entry_range : List MemRange → ℕ → Option MemRange
entry_range [] addr = none
entry_range (r ∷ ranges) addr =
    let rest = entry_range ranges addr in
    if leb r.base addr && leb addr (r.base + r.size) then some r else rest

-- `EntryRange(FreeListEntry*)`
unfoldable pub mdata_range : List MemRange → ℕ → Option MemRange
mdata_range [] addr = none
mdata_range (r ∷ ranges) addr =
    let rest = mdata_range ranges addr in
    if leb r.mdata_base addr && leb addr (r.mdata_base + r.mdata_size) then some r else rest

abbrev pub entry_page : Option MemRange → ℕ → ℕ
entry_page none entry = 0
entry_page (some r) entry = (entry - r.mdata_base) / entry_size * min_allocation + r.base

unfoldable pub entry_to_addr : List MemRange → ℕ → ℕ
entry_to_addr ranges entry = entry_page (mdata_range ranges entry) entry

abbrev pub page_entry : Option MemRange → ℕ → ℕ
page_entry none addr = 0
page_entry (some r) addr =
    r.page_entries + entry_size * (addr / min_allocation - r.base / min_allocation)

unfoldable pub addr_to_entry : List MemRange → ℕ → ℕ
addr_to_entry ranges addr = page_entry (entry_range ranges addr) addr

-- `((addr - base) ^ (1 << order)) + base`, and its entry
abbrev pub buddy_in : Option MemRange → List MemRange → ℕ → ℕ → Run ℕ
buddy_in none ranges addr order = ok 0
buddy_in (some r) ranges addr order = shift_int order >>= λ bit.
    ok (addr_to_entry ranges ((bit_xor (addr - r.base) bit + r.base) % 2 ^ 64))

unfoldable pub buddy_of : List MemRange → ℕ → ℕ → Run ℕ
buddy_of ranges addr order = buddy_in (entry_range ranges addr) ranges addr order

-- `entry->...`
unfoldable pub load : Allocator → ℕ → Run FreeListEntry
load s entry = if entry == 0 then fault null_dereference else ok (s.entries entry)

unfoldable pub store : (ℕ → FreeListEntry) → ℕ → FreeListEntry → ℕ → FreeListEntry
store entries entry e a = if a == entry then e else entries a

abbrev pub with_entries : Allocator → (ℕ → FreeListEntry) → Allocator
with_entries s entries = record {
  mem_ranges = s.mem_ranges;
  num_blocks = s.num_blocks;
  free_lists = s.free_lists;
  mem_in_use = s.mem_in_use;
  total_mem = s.total_mem;
  initialized = s.initialized;
  entries = entries;
}

-- A write through a pointer.
unfoldable pub save : Allocator → ℕ → FreeListEntry → Run Allocator
save s entry e =
    if entry == 0 then fault null_dereference else ok (with_entries s (store s.entries entry e))

-- `free_lists_[order - MIN_ORDER]`
abbrev pub list_head : Allocator → ℕ → Run ℕ
list_head s order =
    if leb min_order order && ltb order max_order
    then ok (s.free_lists (order - min_order))
    else fault out_of_bounds

abbrev pub with_head : (ℕ → ℕ) → ℕ → ℕ → ℕ → ℕ
with_head lists order head n = if n == order - min_order then head else lists n

abbrev pub set_head : Allocator → ℕ → ℕ → Allocator
set_head s order head = record {
  mem_ranges = s.mem_ranges;
  num_blocks = s.num_blocks;
  free_lists = with_head s.free_lists order head;
  mem_in_use = s.mem_in_use;
  total_mem = s.total_mem;
  initialized = s.initialized;
  entries = s.entries;
}

-- The two blocks' counters.
abbrev pub set_counters : Allocator → ℕ → ℕ → Allocator
set_counters s num_blocks mem_in_use = record {
  mem_ranges = s.mem_ranges;
  num_blocks = num_blocks;
  free_lists = s.free_lists;
  mem_in_use = mem_in_use;
  total_mem = s.total_mem;
  initialized = s.initialized;
  entries = s.entries;
}

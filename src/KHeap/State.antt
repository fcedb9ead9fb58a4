-- ===== src/KHeap/State.antt =====
-- The static variables of sys/kheap.cpp and its memory. Chunks start at multiples of 32 bytes and their
-- headers fill 32 bytes, so the memory is one header for each such address, whether it is one or holds data.
-- The masks of the size words are written as arithmetic: `SIZE_MASK` takes off the last five bits, `IN_USE` is
-- the last one.
use panix.Prelude.{ℕ, zero, suc, ◌+◌, ◌-◌, ◌*◌, ◌/◌, ◌%◌, ◌^◌, Bool, ltb, ◌==◌, if◌then◌else◌}
use panix.Prelude.Run.{Run, ok, fault, bad_shift}

pub record FreeListEntry : Type 0 where
  pub forward : ℕ
  pub backward : ℕ
  pub size : ℕ
  pub prev_size : ℕ

pub record Heap : Type 0 where
  pub free_lists : ℕ → ℕ
  pub free_lists_bitmap : ℕ
  pub heap_size : ℕ
  pub max_heap_size : ℕ
  pub heap : ℕ
  pub heap_paddr : ℕ
  pub top : ℕ
  pub entries : ℕ → FreeListEntry
  -- Whether the pages of the heap are in the page map.
  pub mapped : Bool

-- `sizeof(FreeListEntry)`
abbrev pub entry_size : ℕ
entry_size = 32

abbrev pub pmm_threshold : ℕ
pmm_threshold = 16384

-- `KERNEL_DATA_BASE`
abbrev pub kernel_data_base : ℕ
kernel_data_base = 18446603336221196288

-- `KERNEL_DATA_BASE + KERN_DIRECT_MAP_SIZE`
abbrev pub heap_base : ℕ
heap_base = 18446603340516163584

-- Unsigned arithmetic on 64 bits.
abbrev pub word : ℕ → ℕ
word n = n % 2 ^ 64

abbrev pub minus : ℕ → ℕ → ℕ
minus a b = word (a + 2 ^ 64 - b)

-- `w & SIZE_MASK`
abbrev pub masked : ℕ → ℕ
masked w = w / 32 * 32

-- `w & IN_USE`
abbrev pub in_use : ℕ → Bool
in_use w = w % 2 == 1

-- `w | IN_USE`
abbrev pub with_in_use : ℕ → ℕ
with_in_use w = w / 2 * 2 + 1

-- `w & ~(IN_USE)`
abbrev pub without_in_use : ℕ → ℕ
without_in_use w = w / 2 * 2

-- `1ULL << n`
unfoldable pub shift : ℕ → Run ℕ
shift n = if ltb n 64 then ok (2 ^ n) else fault bad_shift

-- The number of bits up to the highest that is set, of a number of at most so many bits.
unfoldable pub bit_length : ℕ → ℕ → ℕ
bit_length zero n = 0
bit_length (suc bits) n = let rest = bit_length bits (n / 2) in if n == 0 then 0 else suc rest

-- `__builtin_clzl(n)`, of a number that is not 0
abbrev pub clzl : ℕ → ℕ
clzl n = 64 - bit_length 64 n

-- A write of a header.
unfoldable pub store : (ℕ → FreeListEntry) → ℕ → FreeListEntry → ℕ → FreeListEntry
store h entry e a = if a == entry then e else h a

abbrev pub set_forward : ℕ → ℕ → (ℕ → FreeListEntry) → ℕ → FreeListEntry
set_forward entry v h = store h entry (record (h entry) { forward = v })

abbrev pub set_backward : ℕ → ℕ → (ℕ → FreeListEntry) → ℕ → FreeListEntry
set_backward entry v h = store h entry (record (h entry) { backward = v })

abbrev pub set_size : ℕ → ℕ → (ℕ → FreeListEntry) → ℕ → FreeListEntry
set_size entry v h = store h entry (record (h entry) { size = v })

abbrev pub set_prev_size : ℕ → ℕ → (ℕ → FreeListEntry) → ℕ → FreeListEntry
set_prev_size entry v h = store h entry (record (h entry) { prev_size = v })

-- `forward_ = backward_ = nullptr`
abbrev pub unlink : ℕ → (ℕ → FreeListEntry) → ℕ → FreeListEntry
unlink entry h = store h entry (record (h entry) { forward = 0; backward = 0 })

abbrev pub with_head : (ℕ → ℕ) → ℕ → ℕ → ℕ → ℕ
with_head lists ind head n = if n == ind then head else lists n

unfoldable pub bin_index : ℕ → ℕ
unfolding bit_length
bin_index size =
    let floor_log2_size = 64 - clzl size in
    if ltb size 1024
    then size / 32
    else 32 + (floor_log2_size - 11) * 2 + size / 2 ^ (floor_log2_size - 2) % 2

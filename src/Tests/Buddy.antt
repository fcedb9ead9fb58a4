-- ===== src/Tests/Buddy.antt =====
-- The theorems on sys/buddy_allocator.cpp at a range of four pages, and at a list of one entry.
use panix.Prelude.{
  ltb, ℕ, ◌+◌, ◌-◌, ◌^◌, ◌≡◌, refl, [], ◌∷◌, true, arith, ◌==◌, if◌then◌else◌, some,
}
use panix.Prelude.Run.{Run, ok, Returns, ◌>>=◌}
use panix.Buddy.State.{
  MemRange, Allocator, ceil_log2, entry_to_addr, addr_to_entry, entry_range, mdata_range,
  page_entry, log2_from, shift_int, load, buddy_of, save, store,
}
use panix.Buddy.Lists.{push_front, pop_front, update_some, remove, drop_head, update}
use panix.Buddy.Blocks.{allocate, free, find_block, split_down, split, merge_up, mergeable, merge}
use panix.Buddy.Address.{IsLaidOut, entry_to_addr-addr_to_entry}
use panix.Buddy.Remove.{remove-IsFreeList}
use panix.Buddy.FreeLists.{IsFreeList, misses_all, misses_next, push_front-IsFreeList}

abbrev range : MemRange
range = record {
  mdata_base = 65536;
  base = 69632;
  mdata_size = 4096;
  size = 16384;
  page_entries = 65536;
}

range-IsLaidOut : IsLaidOut range
range-IsLaidOut = record { entries_first = refl; whole_pages = refl }

-- One block of four pages, whose entry is the first.
abbrev machine : Allocator
machine = record {
  mem_ranges = range ∷ [];
  num_blocks = 4;
  free_lists = λ n. if n == 2 then 65536 else 0;
  mem_in_use = 0;
  total_mem = 20480;
  initialized = true;
  entries = λ a. record { forward = 0; backward = 0; order = 14; free = ltb a 65632 };
}

at_page : entry_range (range ∷ []) 73728 ≡ some range
unfolding entry_range
at_page = refl

at_entry : mdata_range (range ∷ []) (page_entry (some range) 73728) ≡ some range
unfolding mdata_range
at_entry = refl

entry_to_addr-addr_to_entry_example :
    entry_to_addr (range ∷ []) (addr_to_entry (range ∷ []) 73728) ≡ 73728
entry_to_addr-addr_to_entry_example =
    entry_to_addr-addr_to_entry (range ∷ []) range 73728 range-IsLaidOut refl (omega arith) at_page
      at_entry

machine-IsFreeList : IsFreeList machine 14 (65536 ∷ [])
machine-IsFreeList = (refl, (λ e. absurd (omega arith)), refl, misses_all, refl)

push_front-IsFreeList_example :
    Returns (push_front 14 65560 machine) λ s. IsFreeList s 14 (65560 ∷ 65536 ∷ [])
push_front-IsFreeList_example =
    push_front-IsFreeList machine 14 65560 (65536 ∷ []) (omega arith, omega arith)
      machine-IsFreeList (λ e. absurd (omega arith))
      (misses_next 65536 [] (λ e. absurd (omega arith)) misses_all) refl

counters : Run Allocator → Run (ℕ × ℕ)
counters r = r >>= λ s. ok (s.num_blocks, s.mem_in_use)

-- The last page of the block is handed out.
allocated_page : (allocate 4096 machine >>= λ r. ok (r.0)) ≡ ok 81920
unfolding allocate ceil_log2 log2_from shift_int find_block pop_front load update_some split_down
    split buddy_of entry_to_addr addr_to_entry mdata_range entry_range remove drop_head update save
    store push_front
allocated_page = refl

-- Freed again, it is merged with the rest, and more is subtracted from `mem_in_use_` than was added.
freed_page :
    counters (allocate 4096 machine >>= λ r. free 4 (r.0) (r.1)) ≡ ok (4 - 1 + 4096, 2 ^ 64 - 12288)
unfolding counters allocate ceil_log2 log2_from shift_int find_block pop_front load update_some
    split_down split buddy_of entry_to_addr addr_to_entry mdata_range entry_range remove drop_head
    update save store push_front free merge_up mergeable merge
freed_page = refl

-- Two blocks of four pages.
abbrev linked : Allocator
linked = record {
  mem_ranges = range ∷ [];
  num_blocks = 8;
  free_lists = λ n. if n == 2 then 65536 else 0;
  mem_in_use = 0;
  total_mem = 36864;
  initialized = true;
  entries = λ a.
      if a == 65536
      then record { forward = 65560; backward = 0; order = 14; free = true }
      else record { forward = 0; backward = 65536; order = 14; free = true };
}

linked-IsFreeList : IsFreeList linked 14 (65536 ∷ 65560 ∷ [])
linked-IsFreeList = (
  refl,
  (λ e. absurd (omega arith)),
  refl,
  misses_next 65560 [] (λ e. absurd (omega arith)) misses_all,
  (refl, (λ e. absurd (omega arith)), refl, misses_all, refl),
)

remove-IsFreeList_example : Returns (remove 65560 linked) λ s.
    IsFreeList s 14 (65536 ∷ [])
    × ((s.entries 65560).forward ≡ 0)
    × ((s.entries 65560).backward ≡ 0)
remove-IsFreeList_example =
    remove-IsFreeList linked 14 65560 (65536 ∷ []) [] (omega arith, omega arith) linked-IsFreeList
      refl

-- ===== src/Buddy/Blocks.antt =====
-- `Split`, `Merge`, `Allocate` and `Free` of sys/buddy_allocator.cpp, and the counters.
use panix.Prelude.{
  ℕ, zero, suc, ◌+◌, ◌-◌, ◌/◌, ◌%◌, ◌^◌, Bool, true, false, not, ◌||◌, Option, none, some, ltb, leb,
  ◌==◌, if◌then◌else◌, max,
}
use panix.Prelude.Run.{Run, ok, out_of_fuel, ◌>>=◌}
use panix.Buddy.State.{
  MemRange, Allocator, max_order, min_order, shift_int, ceil_log2, entry_range, entry_to_addr,
  addr_to_entry, buddy_of, load, list_head, set_counters,
}
use panix.Buddy.Lists.{with_order, with_free, update, push_front, pop_front, remove}

-- `Split`: the lower half goes to its list, the upper one is returned.
unfoldable pub split : ℕ → ℕ → Allocator → Run (ℕ × Allocator)
split entry order s =
    buddy_of s.mem_ranges (entry_to_addr s.mem_ranges entry) (order - 1) >>= λ buddy.
    remove buddy s >>= λ s1. remove entry s1 >>= λ s2.
    update (with_order (order - 1)) entry s2 >>= λ s3.
    update (with_order (order - 1)) buddy s3 >>= λ s4. update (with_free true) entry s4 >>= λ s5.
    push_front (order - 1) entry s5 >>= λ s6. ok (buddy, s6)

-- `Merge`, of the lower buddy and the upper one
abbrev pub merge_at : ℕ → ℕ → Allocator → Run (ℕ × Allocator)
merge_at lower upper s = remove lower s >>= λ s1. remove upper s1 >>= λ s2. load s2 lower >>= λ e.
    update (with_order (e.order + 1)) lower s2 >>= λ s3.
    push_front (e.order + 1) lower s3 >>= λ s4. ok (lower, s4)

unfoldable pub merge : ℕ → ℕ → Allocator → Run (ℕ × Allocator)
merge buddy1 buddy2 s =
    merge_at (if ltb buddy1 buddy2 then buddy1 else buddy2)
      (if ltb buddy1 buddy2 then buddy2 else buddy1) s

abbrev pub is_some : Option MemRange → Bool
is_some none = false
is_some (some r) = true

unfoldable pub mergeable : ℕ → ℕ → Allocator → Run Bool
mergeable entry buddy s =
    let compared = load s buddy >>= λ b.
    if b.free then (load s entry >>= λ e. ok (b.order == e.order)) else ok false in
    if is_some (entry_range s.mem_ranges (entry_to_addr s.mem_ranges buddy))
    then compared
    else ok false

-- The first list from `order` on that is not empty, its head popped.
unfoldable pub find_block : ℕ → ℕ → Allocator → Run (Option (ℕ × (ℕ × Allocator)))
find_block zero order s = ok none
find_block (suc rounds) order s =
    let rest = find_block rounds (order + 1) s in
    let popped = pop_front order s >>= λ r. ok (some (order, r)) in
    list_head s order >>= λ head. if head == 0 then rest else popped

-- `for(; order > block_order; --order)`
unfoldable pub split_down : ℕ → ℕ → ℕ → Allocator → Run (ℕ × Allocator)
split_down zero order entry s = ok (entry, s)
split_down (suc rounds) order entry s = split entry order s >>= λ halves.
    update (with_free false) (halves.0) (halves.1) >>= λ s1.
    split_down rounds (order - 1) (halves.0) s1

-- `Allocate`, once a block of some order is found
abbrev pub take_block : ℕ → Option (ℕ × (ℕ × Allocator)) → Allocator → Run (ℕ × Allocator)
take_block block_order none s = ok (0, s)
take_block block_order (some (order, (found, popped))) s =
    split_down (order - block_order) order found popped >>= λ block.
    update (with_free false) (block.0) (block.1) >>= λ s1.
    update (with_order block_order) (block.0) s1 >>= λ s2. shift_int block_order >>= λ bytes. ok (
      entry_to_addr s2.mem_ranges (block.0),
      set_counters s2 s2.num_blocks ((s2.mem_in_use + bytes) % 2 ^ 64),
    )

unfoldable pub allocate : ℕ → Allocator → Run (ℕ × Allocator)
allocate size s =
    let taken = ceil_log2 size >>= λ order. shift_int (max order min_order - min_order) >>= λ pages.
    (let s1 = set_counters s ((s.num_blocks + 2 ^ 64 - pages) % 2 ^ 64) s.mem_in_use in
      find_block (max_order - max order min_order) (max order min_order) s1 >>= λ found.
      take_block (max order min_order) found s1) in
    if s.initialized then taken else ok (0, s)

-- `while(Mergeable(alloc_entry, buddy_entry))`: the block at the end.
unfoldable pub merge_up : ℕ → ℕ → ℕ → Allocator → Run (ℕ × Allocator)
merge_up zero entry buddy s = out_of_fuel
merge_up (suc fuel) entry buddy s =
    let merged = update (with_free true) entry s >>= λ s1. merge entry buddy s1 >>= λ r.
    load (r.1) (r.0) >>= λ e.
    buddy_of (r.1).mem_ranges (entry_to_addr (r.1).mem_ranges (r.0)) e.order >>= λ next.
    merge_up fuel (r.0) next (r.1) in
    mergeable entry buddy s >>= λ more. if more then merged else ok (entry, s)

-- `Free` of an entry, its order and its buddy
abbrev pub free_block : ℕ → ℕ → ℕ → ℕ → Allocator → Run Allocator
free_block fuel entry order buddy s =
    let listed = update (with_free true) entry s >>= push_front order entry in
    mergeable entry buddy s >>= λ merges. (if merges then ok s else listed) >>= λ s1.
    merge_up fuel entry buddy s1 >>= λ r. load (r.1) (r.0) >>= λ e. shift_int e.order >>= λ bytes.
    ok (set_counters (r.1) (r.1).num_blocks (((r.1).mem_in_use + 2 ^ 64 - bytes) % 2 ^ 64))

unfoldable pub free : ℕ → ℕ → Allocator → Run Allocator
free fuel allocation s =
    let entry = addr_to_entry s.mem_ranges allocation in
    let freed = load s entry >>= λ e. shift_int e.order >>= λ pages.
    buddy_of s.mem_ranges allocation e.order >>= λ buddy.
    free_block fuel entry e.order buddy
      (set_counters s ((s.num_blocks + pages) % 2 ^ 64) s.mem_in_use) in
    if not s.initialized || allocation == 0 then ok s else freed

-- `MemInUse`, `MemFree`, `MemCritical`
abbrev pub mem_free : Allocator → ℕ
mem_free s = (s.total_mem + 2 ^ 64 - s.mem_in_use) % 2 ^ 64

abbrev pub mem_critical : Allocator → Bool
mem_critical s = leb (s.total_mem / 2) s.mem_in_use

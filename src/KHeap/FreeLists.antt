-- ===== src/KHeap/FreeLists.antt =====
-- The free lists of sys/kheap.cpp: `PopFront`, `PushFront`, `Remove` and `FindEntry`.
use panix.Prelude.{ℕ, zero, suc, ◌+◌, ◌-◌, ◌^◌, ltb, ◌==◌, if◌then◌else◌}
use Prim.Native.Nat.{bit_and, bit_or}
use panix.Prelude.Run.{Run, ok, out_of_fuel, ◌>>=◌}
use panix.KHeap.State.{
  FreeListEntry, Heap, masked, shift, bit_length, set_forward, set_backward, unlink, with_head,
  bin_index,
}

-- The bit of a list that has become empty is cleared.
abbrev pub behind_popped : ℕ → ℕ → Heap → Run Heap
behind_popped ind forward s =
    let emptied = shift ind >>= λ bit.
    ok (record s { free_lists_bitmap = bit_and s.free_lists_bitmap (2 ^ 64 - 1 - bit) }) in
    if forward == 0 then emptied else ok (record s { entries = set_backward forward 0 s.entries })

unfoldable pub pop_front : ℕ → Heap → Run (ℕ × Heap)
pop_front ind s =
    let entry = s.free_lists ind in
    let forward = (s.entries entry).forward in
    let popped =
      behind_popped ind forward (record s { free_lists = with_head s.free_lists ind forward })
      >>= λ s1. ok (entry, record s1 { entries = unlink entry s1.entries }) in
    if entry == 0 then ok (0, s) else popped

unfoldable pub push_front : ℕ → ℕ → Heap → Run Heap
push_front ind entry s =
    let head = s.free_lists ind in
    let h1 = set_forward entry head s.entries in
    let h2 = if head == 0 then h1 else set_backward head entry h1 in
    shift ind >>= λ bit. ok (record s {
      entries = h2;
      free_lists = with_head s.free_lists ind entry;
      free_lists_bitmap = bit_or s.free_lists_bitmap bit;
    })

-- The neighbours in the list are made each other's.
abbrev pub bridge : ℕ → (ℕ → FreeListEntry) → ℕ → FreeListEntry
bridge entry h =
    let f = (h entry).forward in
    let h1 = if f == 0 then h else set_backward f ((h entry).backward) h in
    let b = (h1 entry).backward in if b == 0 then h1 else set_forward b ((h1 entry).forward) h1

unfoldable pub remove : ℕ → Heap → Run Heap
remove entry s =
    let s1 = record s { entries = bridge entry s.entries } in
    let entry_bin = bin_index (masked ((s1.entries entry).size)) in
    let popped = pop_front entry_bin s1 >>= λ r. ok (r.1) in
    (if s1.free_lists entry_bin == entry then popped else ok s1) >>= λ s2.
    ok (record s2 { entries = unlink entry s2.entries })

-- `while(entry)`: the first entry of the list that is larger, or null.
unfoldable pub scan : ℕ → ℕ → ℕ → (ℕ → FreeListEntry) → Run ℕ
scan zero entry size h = out_of_fuel
scan (suc fuel) entry size h =
    let rest = scan fuel ((h entry).forward) size h in
    if entry == 0 then ok 0 else if ltb size ((h entry).size) then ok entry else rest

-- `while(free_list_mask)`; `more` is the rest of the loop, from the next `bin_ind` and mask on.
abbrev pub find_round : (ℕ → ℕ → Run (ℕ × Heap)) → ℕ → ℕ → ℕ → ℕ → Heap → Run (ℕ × Heap)
find_round more fuel bin_ind mask size s =
    scan fuel (s.free_lists (bit_length 64 mask - 1)) size s.entries >>= λ entry.
    (let again =
        shift (bin_ind + 1) >>= λ bit. more (bin_ind + 1) (bit_and mask (2 ^ 64 - 1 - bit)) in
      let found = remove entry s >>= λ s1. ok (entry, s1) in if entry == 0 then again else found)

unfoldable pub find_from : ℕ → ℕ → ℕ → ℕ → ℕ → Heap → Run (ℕ × Heap)
find_from zero fuel bin_ind mask size s = out_of_fuel
find_from (suc rounds) fuel bin_ind mask size s =
    let round = find_round (λ b m. find_from rounds fuel b m size s) fuel bin_ind mask size s in
    if mask == 0 then ok (0, s) else round

unfoldable pub find_entry : ℕ → ℕ → Heap → Run (ℕ × Heap)
find_entry fuel size s = shift (bin_index size) >>= λ bit.
    find_from 64 fuel (bin_index size) (bit_and s.free_lists_bitmap (2 ^ 64 - bit)) size s

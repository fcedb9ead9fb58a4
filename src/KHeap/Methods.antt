-- ===== src/KHeap/Methods.antt =====
-- The functions of sys/kheap.cpp that are called from outside, over the page frames and the page map that they
-- use.
use panix.Prelude.{
  ℕ, zero, suc, ◌+◌, ◌-◌, ◌*◌, ◌/◌, true, false, not, ◌&&◌, ◌||◌, ltb, leb, ◌==◌, if◌then◌else◌,
}
use panix.Prelude.Run.{Run, ok, fault, out_of_fuel, ◌>>=◌, null_dereference, page_fault}
use panix.KHeap.State.{
  Heap, entry_size, pmm_threshold, kernel_data_base, heap_base, masked, with_in_use, without_in_use,
  word, minus, store, set_size, set_prev_size, bin_index,
}
use panix.KHeap.FreeLists.{find_entry, push_front}
use panix.KHeap.Chunks.{next_chunk, split, split_and_push, merge_with_neighbors}
use panix.KHeap.Verify.{verify}

-- What the heap calls of the buddy allocator and of its page map; 0 is the null pointer.
pub record Backing (S : Type 0) : Type 0 where
  pub allocate : ℕ → S → Run (ℕ × S)
  pub realloc : ℕ → ℕ → S → Run (ℕ × S)
  pub free : ℕ → S → Run S
  pub mem_in_use : S → ℕ
  pub unmap_range : ℕ → ℕ → S → Run S
  -- The range of physical addresses, and what is added to each.
  pub map_range : ℕ → ℕ → ℕ → S → Run S

-- The size of a chunk for a request: the header is added, and the sum rounded up.
unfoldable pub chunk_size : ℕ → ℕ
chunk_size size = word (word (size + entry_size) + 31) / 32 * 32

-- Physical memory is mapped twice, as it is and from `KERNEL_DATA_BASE` on: the header at an address.
abbrev pub locate : ℕ → ℕ
locate a = if leb kernel_data_base a && ltb a heap_base then a - kernel_data_base else a

unfoldable pub to_paddr : ℕ → Heap → ℕ
to_paddr vaddr s =
    if ltb vaddr kernel_data_base
    then vaddr
    else if leb vaddr heap_base
    then vaddr - kernel_data_base
    else minus (word (vaddr + s.heap_paddr)) heap_base

unfoldable pub to_vaddr : ℕ → Heap → ℕ
to_vaddr paddr s = word (minus paddr s.heap_paddr + heap_base)

unfoldable pub set_size_limit : ℕ → Heap → Heap
set_size_limit max_heap_size s = record s { max_heap_size = max_heap_size }

-- The chunk is marked, and its size told to the next one.
unfoldable pub mark : ℕ → Heap → Heap
mark entry s =
    let next = next_chunk s.entries entry in
    let h = set_size entry (with_in_use ((s.entries entry).size)) s.entries in
    record s { entries = set_prev_size next ((h entry).size) h }

-- What `Free` does with a chunk of the heap, before the check.
unfoldable pub release : ℕ → Heap → Run Heap
release entry s =
    merge_with_neighbors entry
      (record s { entries = set_size entry (without_in_use ((s.entries entry).size)) s.entries })
    >>= λ r.
        let (chunk, s1) = r in
        if chunk == s1.top
        then ok s1
        else push_front (bin_index ((s1.entries chunk).size)) chunk (record s1 {
          entries =
              set_prev_size (next_chunk s1.entries chunk) ((s1.entries chunk).size) s1.entries;
        })

module _ {S : Type 0} (back : Backing S) where
  -- A header in memory that the buddy allocator has returned.
  abbrev pub write_size : ℕ → ℕ → Heap × S → Run (Heap × S)
  write_size entry size (s, b) =
      if entry == 0
      then fault null_dereference
      else ok (record s { entries = set_size (locate entry) size s.entries }, b)

  unfoldable pub init : ℕ → ℕ → Heap × S → Run (Heap × S)
  init initial_size max_heap_size (s, b) =
      let heap_size = word (initial_size + 31) / 32 * 32 in
      back.allocate heap_size b >>= λ r.
      back.map_range (r.0) (word (r.0 + heap_size)) (minus heap_base (r.0)) (r.1) >>= λ b2. ok (
        record s {
          max_heap_size = max_heap_size;
          free_lists_bitmap = 0;
          heap_size = heap_size;
          heap = heap_base;
          top = heap_base;
          heap_paddr = r.0;
          entries =
              store s.entries heap_base
                (record { forward = 0; backward = 0; size = heap_size; prev_size = 0 });
          mapped = true;
        },
        b2,
      )

  -- `heap_size_ * 2 > max_heap_size_ ? max_heap_size_ : heap_size_ * 2`
  abbrev pub grown_size : Heap → ℕ
  grown_size s =
      if ltb s.max_heap_size (word (s.heap_size * 2))
      then s.max_heap_size
      else word (s.heap_size * 2)

  unfoldable pub grow_heap : Heap × S → Run (Heap × S)
  grow_heap (s, b) = back.unmap_range s.heap (word (s.heap + s.heap_size)) b >>= λ b1.
      (let size = grown_size s in
        let grown = back.realloc s.heap_paddr size b1 >>= λ r.
        back.map_range (r.0) (word (r.0 + size)) (minus heap_base (r.0)) (r.1) >>= λ b3. ok (
          record s {
            heap_size = size;
            heap_paddr = r.0;
            entries = set_size s.top (word ((s.entries s.top).size + size / 2)) s.entries;
          },
          b3,
        ) in
        if ltb (back.mem_in_use b1) s.max_heap_size
        then grown
        else ok (record s { mapped = false }, b1))

  -- `while(size >= top_->size_)`
  unfoldable pub grow_until : ℕ → ℕ → Heap × S → Run (Heap × S)
  grow_until zero size (s, b) = out_of_fuel
  grow_until (suc rounds) size (s, b) =
      let grown = grow_heap (s, b) >>= λ r. grow_until rounds size r in
      if not s.mapped
      then fault page_fault
      else if leb ((s.entries s.top).size) size
      then grown
      else ok (s, b)

  -- A chunk of the top one.
  abbrev pub shave : ℕ → Heap × S → ℕ × (Heap × S)
  shave size (s, b) = let (next, s1) = split s.top size s in (s.top, (record s1 { top = next }, b))

  abbrev pub take_chunk : ℕ → ℕ → ℕ × Heap → S → Run (ℕ × (Heap × S))
  take_chunk rounds size (entry, s) b =
      let listed =
        (if leb 1024 size && ltb size (masked ((s.entries entry).size))
          then split_and_push entry size s
          else ok s)
        >>= λ s1. ok (entry, (s1, b)) in
      let shaved = grow_until rounds size (s, b) >>= λ r. ok (shave size r) in
      if entry == 0 then shaved else listed

  -- A request that the buddy allocator serves.
  abbrev pub allocate_frames : ℕ → Heap × S → Run (ℕ × (Heap × S))
  allocate_frames size (s, b) = back.allocate size b >>= λ r.
      write_size (r.0) (with_in_use size) (s, r.1) >>= λ s1.
      ok (word (r.0 + entry_size + kernel_data_base), s1)

  -- A request that a free list or the top chunk serves, between the two checks.
  unfoldable pub allocate_chunk : ℕ → ℕ → ℕ → Heap × S → Run (ℕ × (Heap × S))
  allocate_chunk fuel rounds size (s, b) = find_entry fuel size s >>= λ found.
      take_chunk rounds size found b >>= λ r. ok (r.0, (mark (r.0) ((r.1).0), (r.1).1))

  unfoldable pub allocate : ℕ → ℕ → ℕ → Heap × S → Run (ℕ × (Heap × S))
  allocate fuel rounds request (s, b) =
      let size = chunk_size request in
      let chunk = allocate_chunk fuel rounds size (s, b) >>= λ r.
      verify fuel ((r.1).0) >>= λ _. ok (r.0 + entry_size, r.1) in
      let allocated = verify fuel s >>= λ _.
      if leb pmm_threshold size then allocate_frames size (s, b) else chunk in
      if s.heap == 0 || request == 0 then ok (0, (s, b)) else allocated

  unfoldable pub free : ℕ → ℕ → Heap × S → Run (Heap × S)
  free fuel allocation (s, b) =
      let entry = minus allocation entry_size in
      let frames = back.free (to_paddr entry s) b >>= λ b1. verify fuel s >>= λ _. ok (s, b1) in
      let chunk = release entry s >>= λ s1. verify fuel s1 >>= λ _. ok (s1, b) in
      if s.heap == 0 || allocation == 0
      then ok (s, b)
      else if leb pmm_threshold ((s.entries (locate entry)).size)
      then frames
      else chunk

-- ===== src/KHeap/Realloc.antt =====
-- `Reallocate` of sys/kheap.cpp, with the copies that it makes.
use panix.Prelude.{ℕ, zero, suc, ◌+◌, ◌*◌, ◌/◌, ◌%◌, not, ◌||◌, ltb, leb, ◌==◌, if◌then◌else◌}
use panix.Prelude.Run.{Run, ok, fault, ◌>>=◌, null_dereference}
use panix.KHeap.State.{
  FreeListEntry, Heap, entry_size, pmm_threshold, masked, in_use, minus, store, set_forward,
  set_prev_size,
}
use panix.KHeap.Chunks.{next_chunk, split_and_push, merge_with_neighbors}
use panix.KHeap.Verify.{verify}
use panix.KHeap.Methods.{Backing, chunk_size, locate, to_paddr, write_size, allocate, free}

-- `memcpy` of a number of 32-byte lines, in ascending order.
unfoldable pub copy_lines : ℕ → ℕ → ℕ → (ℕ → FreeListEntry) → ℕ → FreeListEntry
copy_lines zero dst src h = h
copy_lines (suc n) dst src h = copy_lines n (dst + 32) (src + 32) (store h dst (h src))

-- `memcpy` of a size word's number of bytes: whole lines, and a byte more where the word has its last bit set.
unfoldable pub copy_bytes : ℕ → ℕ → ℕ → (ℕ → FreeListEntry) → ℕ → FreeListEntry
copy_bytes bytes dst src h =
    let lines = bytes / 32 * 32 in
    let h1 = copy_lines (bytes / 32) dst src h in
    let low = (h1 (src + lines)).forward % 256 in
    if in_use bytes
    then set_forward (dst + lines) ((h1 (dst + lines)).forward / 256 * 256 + low) h1
    else h1

module _ {S : Type 0} (back : Backing S) where
  abbrev pub realloc_frames : ℕ → ℕ → Heap × S → Run (ℕ × (Heap × S))
  realloc_frames entry size (s, b) = back.realloc (to_paddr entry s) size b >>= λ r.
      write_size back (r.0) (size % 2) (s, r.1) >>= λ s1. ok (r.0 + entry_size, s1)

  -- A chunk of the heap is replaced by page frames.
  abbrev pub realloc_to_frames : ℕ → ℕ → ℕ → Heap × S → Run (ℕ × (Heap × S))
  realloc_to_frames fuel allocation size (s, b) = back.allocate size b >>= λ r.
      (if r.0 == 0
        then fault null_dereference
        else ok (
          record s {
            entries = copy_lines (size / 32) (locate (r.0)) (minus allocation entry_size) s.entries;
          },
          r.1,
        ))
      >>= λ s1. write_size back (r.0) size s1 >>= λ s2.
          free back fuel allocation s2 >>= λ s3. ok (r.0 + entry_size, s3)

  -- The chunk stays, at the start of what it was merged with.
  abbrev pub keep_chunk : ℕ → ℕ → ℕ → ℕ → Heap × S → Run (ℕ × (Heap × S))
  keep_chunk fuel entry allocation original_size (s, b) =
      let s1 = record s {
        entries = copy_bytes (masked original_size) (entry + entry_size) allocation s.entries;
      } in
      verify fuel s1 >>= λ _. ok (entry + entry_size, (s1, b))

  -- The merged chunk is too small.
  abbrev pub move_chunk : ℕ → ℕ → ℕ → ℕ → ℕ → ℕ → Heap × S → Run (ℕ × (Heap × S))
  move_chunk fuel rounds entry allocation original_size size (s, b) =
      let s1 = record s {
        entries = set_prev_size (next_chunk s.entries entry) ((s.entries entry).size) s.entries;
      } in
      allocate back fuel rounds size (s1, b) >>= λ r.
      (let s2 = (r.1).0 in
        free back fuel (entry + entry_size)
          (record s2 { entries = copy_bytes original_size (r.0) allocation s2.entries }, (r.1).1))
      >>= λ s3. verify fuel (s3.0) >>= λ _. ok (r.0, s3)

  abbrev pub realloc_chunk : ℕ → ℕ → ℕ → ℕ → ℕ → Heap × S → Run (ℕ × (Heap × S))
  realloc_chunk fuel rounds allocation original_size size (s, b) =
      merge_with_neighbors (minus allocation entry_size) s >>= λ r.
      (let (entry, s1) = r in
        let merged_size = masked ((s1.entries entry).size) in
        let shrunk = split_and_push entry size s1 >>= λ s2.
        keep_chunk fuel entry allocation original_size (s2, b) in
        if ltb size merged_size
        then shrunk
        else if merged_size == size
        then keep_chunk fuel entry allocation original_size (s1, b)
        else move_chunk fuel rounds entry allocation original_size size (s1, b))

  unfoldable pub reallocate : ℕ → ℕ → ℕ → ℕ → Heap × S → Run (ℕ × (Heap × S))
  reallocate fuel rounds allocation request (s, b) =
      let size = chunk_size request in
      let entry = minus allocation entry_size in
      let original_size = (s.entries (locate entry)).size in
      let reallocated =
        if not (in_use original_size)
        then ok (0, (s, b))
        else if leb pmm_threshold original_size
        then realloc_frames entry size (s, b)
        else if leb pmm_threshold size
        then realloc_to_frames fuel allocation size (s, b)
        else realloc_chunk fuel rounds allocation original_size size (s, b) in
      let checked = verify fuel s >>= λ _. reallocated in
      if s.heap == 0 || request == 0 then ok (0, (s, b)) else checked

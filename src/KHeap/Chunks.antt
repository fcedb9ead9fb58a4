-- ===== src/KHeap/Chunks.antt =====
-- The chunks of sys/kheap.cpp, which lie one behind the other up to the top chunk: `NextChunk`, `PrevChunk`,
-- `Split`, `SplitAndPush` and `MergeWithNeighbors`.
use panix.Prelude.{ℕ, ◌+◌, ◌-◌, not, ◌&&◌, ltb, ◌==◌, if◌then◌else◌}
use panix.Prelude.Run.{Run, ok, ◌>>=◌}
use panix.KHeap.State.{
  FreeListEntry, Heap, masked, in_use, with_in_use, without_in_use, word, minus, set_size,
  set_prev_size, unlink, bin_index,
}
use panix.KHeap.FreeLists.{remove, push_front}

abbrev pub next_chunk : (ℕ → FreeListEntry) → ℕ → ℕ
next_chunk h chunk = chunk + masked ((h chunk).size)

abbrev pub prev_chunk : (ℕ → FreeListEntry) → ℕ → ℕ
prev_chunk h chunk = chunk - masked ((h chunk).prev_size)

-- The four writes that make two chunks of one.
abbrev pub cut : ℕ → ℕ → (ℕ → FreeListEntry) → ℕ → FreeListEntry
cut entry size h =
    let old_size = masked ((h entry).size) in
    let next = entry + size in
    let h1 = set_size entry (with_in_use size) (unlink next h) in
    let h2 = set_size next (without_in_use (minus old_size size)) h1 in
    set_prev_size next ((h2 entry).size) h2

-- The chunk behind, and the heap.
unfoldable pub split : ℕ → ℕ → Heap → ℕ × Heap
split entry size s =
    let next = entry + size in
    let h = cut entry size s.entries in
    let after_next = next_chunk h next in
    (
      next,
      if entry == s.top
          then record s { entries = h; top = next }
          else record s { entries = set_prev_size after_next ((h next).size) h },
    )

unfoldable pub split_and_push : ℕ → ℕ → Heap → Run Heap
split_and_push entry size s =
    let (next, s1) = split entry size s in
    if next == s1.top then ok s1 else push_front (bin_index ((s1.entries next).size)) next s1

abbrev pub merge_prev : ℕ → Heap → Run (ℕ × Heap)
merge_prev entry s =
    let e = s.entries entry in
    let prev = prev_chunk s.entries entry in
    let merged = remove prev s >>= λ s1. ok (
      prev,
      record s1 { entries = set_size prev (word ((s1.entries prev).size + e.size)) s1.entries },
    ) in
    if not (in_use e.prev_size) && ltb 0 e.prev_size then merged else ok (entry, s)

abbrev pub merge_next : ℕ → Heap → Run Heap
merge_next entry s =
    let next = next_chunk s.entries entry in
    let merged = remove next s >>= λ s1.
    (let sum = word ((s1.entries entry).size + masked ((s1.entries next).size)) in
      ok (record s1 {
        entries = set_size entry sum s1.entries;
        top = if next == s1.top then entry else s1.top;
      })) in
    if in_use ((s.entries next).size) then ok s else merged

-- `if(entry != top_) next->prev_size_ = entry->size_`
abbrev pub tell_next : ℕ → Heap → Heap
tell_next entry s = if entry == s.top then s else record s {
  entries = set_prev_size (next_chunk s.entries entry) ((s.entries entry).size) s.entries;
}

unfoldable pub merge_with_neighbors : ℕ → Heap → Run (ℕ × Heap)
merge_with_neighbors entry s =
    merge_prev entry s >>= λ r. merge_next (r.0) (r.1) >>= λ s2. ok (r.0, tell_next (r.0) s2)

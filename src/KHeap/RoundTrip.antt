-- ===== src/KHeap/RoundTrip.antt =====
-- `Allocate` of sys/kheap.cpp, and then `Free`.
use panix.Prelude.{
  ℕ, suc, ◌+◌, ◌%◌, ◌<◌, ◌≤◌, ◌≡◌, ◌≢◌, ◌⊎◌, inl, inr, ap, ◌∙◌, arith, List, length,
}
use panix.Prelude.Run.{Returns, ◌>>=◌}
use panix.KHeap.State.{FreeListEntry, Heap}
use panix.KHeap.Layout.{IsHeap}
use panix.KHeap.Methods.{Backing, allocate, free, chunk_size}
use panix.KHeap.Shave.{
  IsServedByTop, allocate-after_shave, after_shave, shaved_top, chunk_size-lines,
}
use panix.KHeap.Release.{IsFreedLast, free-IsHeap}

-- Memory that the top chunk serves and that is freed at once: both calls end, and the heap is in order with the
-- chunks of before and the top chunk where it was, if the chunk before the top one is in use and no free list starts
-- at the new top chunk.
pub free-allocate :
    {S : Type 0} (back : Backing S) (fuel rounds request : ℕ) (s : Heap) (b : S) (ws : List ℕ)
    → IsServedByTop s ws request
    → length ws < fuel
    → 18446603340516163584 ≤ s.heap
    → (((s.entries s.top).prev_size ≡ 0) ⊎ ((s.entries s.top).prev_size % 2 ≡ 1))
    → ((i : ℕ) → s.free_lists i ≢ s.top + chunk_size request)
    → Returns
        (allocate back fuel (suc rounds) request (s, b) >>= λ r. free back fuel (r.0) (r.1))
        λ r. IsHeap (r.0) ws × ((r.0).top ≡ s.top) × (r.1 ≡ b)
free-allocate back fuel rounds request s b ws served long high used unlisted =
    let w = served.in_order in
    let size = chunk_size request in
    let (run, after) = allocate-after_shave back fuel rounds request s b ws served long in
    let (lines, least, _) = chunk_size-lines request served.fits in
    let top = shaved_top s ws size w lines (omega arith) served.larger in
    let prev = ap (λ (r : FreeListEntry). r.prev_size) top in
    let freed : IsFreedLast (after_shave size s) ws (size + 1) s.top = record {
      in_order = after;
      high = high;
      last = omega arith;
      used = omega arith;
      small = omega (arith, served.small, lines);
      no_forward = ap (λ (r : FreeListEntry). r.forward) top ∙ w.top_forward;
      no_backward = ap (λ (r : FreeListEntry). r.backward) top ∙ w.top_backward;
      before_used = elim used [
        | inl none_there ↦ inl (prev ∙ none_there)
        | inr odd ↦ inr (ap (λ n. n % 2) prev ∙ odd)
      ];
      top_unlisted = unlisted;
    } in
    rw run (free-IsHeap back fuel (after_shave size s) b ws (size + 1) s.top freed (omega arith))

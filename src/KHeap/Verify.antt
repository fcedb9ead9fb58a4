-- ===== src/KHeap/Verify.antt =====
-- The self-check of sys/kheap.cpp: `Verify`, which logs what is wrong and then never returns, by `Print` or by
-- a loop of its own.
use panix.Prelude.{
  ℕ, zero, suc, ◌+◌, Bool, false, not, ◌&&◌, ◌||◌, Option, none, some, ltb, ◌==◌, if◌then◌else◌,
}
use panix.Prelude.Run.{Run, ok, fault, out_of_fuel, halted}
use panix.KHeap.State.{FreeListEntry, Heap, masked, word}

-- `prev && chunk->prev_size_ != prev->size_`
abbrev pub prev_differs : Option ℕ → ℕ → (ℕ → FreeListEntry) → Bool
prev_differs none chunk h = false
prev_differs (some prev) chunk h = not ((h chunk).prev_size == (h prev).size)

-- The two tests for a loop in a free list.
abbrev pub loops : ℕ → (ℕ → FreeListEntry) → Bool
loops chunk h =
    let b = (h chunk).backward in
    let f = (h b).forward in
    not (b == 0) && not (f == 0) && (f == (h f).forward)
    || not (b == 0) && not ((h chunk).forward == 0) && (f == b)

abbrev pub is_bad : Option ℕ → ℕ → Heap → Bool
is_bad prev chunk s = ltb s.top chunk || prev_differs prev chunk s.entries || loops chunk s.entries

abbrev pub check_top : ℕ → Heap → Run Heap
check_top sum s =
    let top = s.entries s.top in
    if not (top.forward == 0)
      || not (top.backward == 0)
      || not (word (sum + top.size) == s.heap_size)
    then fault halted
    else ok s

-- The loop over the chunks, from one of them on.
unfoldable pub verify_from : ℕ → Option ℕ → ℕ → ℕ → Heap → Run Heap
verify_from zero prev chunk sum s = out_of_fuel
verify_from (suc fuel) prev chunk sum s =
    let size = masked ((s.entries chunk).size) in
    let rest = verify_from fuel (some chunk) (chunk + size) (word (sum + size)) s in
    if is_bad prev chunk s
    then fault halted
    else if chunk + size == s.top
    then check_top (word (sum + size)) s
    else rest

unfoldable pub verify : ℕ → Heap → Run Heap
verify fuel s =
    let checked = verify_from fuel none s.heap 0 s in if s.heap == s.top then ok s else checked

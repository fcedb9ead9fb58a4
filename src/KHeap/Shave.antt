-- ===== src/KHeap/Shave.antt =====
-- `Allocate` of sys/kheap.cpp where the top chunk serves the request.
use panix.Prelude.{
  ℕ, suc, ◌+◌, ◌-◌, ◌%◌, ◌^◌, ◌<◌, ◌≤◌, ◌≡◌, inl, inr, refl, ap, sym, ◌∙◌, subst, arith, List, [],
  ◌∷◌, ◌++◌, true, false, leb, lt→ltb, lt→leb, ◌==◌, length, length-append, eq_true, eq_false,
  ==_iff, Bool-cases, if◌then◌else◌,
}
use Prim.Native.Nat.{bit_and}
use panix.Prelude.Run.{ok, Returns}
use panix.KHeap.State.{
  FreeListEntry, Heap, masked, minus, with_in_use, without_in_use, store, shift, bin_index,
  set_size, set_prev_size,
}
use panix.KHeap.Bins.{bin_index-monotone}
use panix.KHeap.FreeLists.{find_entry, find_from}
use panix.KHeap.Chunks.{split, cut, next_chunk}
use panix.KHeap.Layout.{
  IsHeap, Tiles, SameSizes, SameLinks, total-append, IsStart-append, IsStart-below, Tiles-append,
  Linked-append,
}
use panix.KHeap.Checked.{verify-IsHeap}
use panix.KHeap.Methods.{Backing, chunk_size, allocate, allocate_chunk, mark, grow_until}

-- The header of the chunk, and that of the rest.
abbrev pub shaved : (ℕ → FreeListEntry) → ℕ → ℕ → ℕ → FreeListEntry
shaved h top size =
    let h1 = cut top size h in
    let h2 = set_size top (with_in_use ((h1 top).size)) h1 in
    set_prev_size (next_chunk h1 top) ((h2 top).size) h2

module _ (h : ℕ → FreeListEntry) (top size : ℕ) (lines : size % 32 ≡ 0) (big : 32 ≤ size)
    (fits : size < (h top).size) (old : (h top).size % 32 ≡ 0) (small : (h top).size < 2 ^ 64) where
  shaved_run :
      (x : ℕ)
      → shaved h top size x ≡ (
          if x == top
          then record (h top) { size = size + 1 }
          else if x == top + size
          then record {
            forward = 0;
            backward = 0;
            size = (h top).size - size;
            prev_size = size + 1;
          }
          else h x)
  unfolding store
  shaved_run x =
      let here = eq_true top top refl in
      let there = eq_true (top + size) (top + size) refl in
      let apart = eq_false top (top + size) (λ e. absurd (omega arith)) in
      let apart' = eq_false (top + size) top (λ e. absurd (omega arith)) in
      let marked : with_in_use size ≡ size + 1 = omega arith in
      let again : with_in_use (size + 1) ≡ size + 1 = omega arith in
      let back : masked (size + 1) ≡ size = omega arith in
      let rest : without_in_use (minus (masked ((h top).size)) size) ≡ (h top).size - size =
        omega arith in
      rw (apart, apart', here, there, marked, again, back, rest)
        (rw (there, apart')
          (elim (Bool-cases (x == top)) [
            | inl at ↦ rw (at, (==_iff x top).0 at, apart) refl
            | inr off ↦ elim (Bool-cases (x == top + size)) [
              | inl next ↦ rw (off, next) refl
              | inr other ↦ rw (off, other) refl
            ]
          ]))

-- The heap with the new chunk before the top one.
abbrev pub after_shave : ℕ → Heap → Heap
after_shave size s = record s { entries = shaved s.entries s.top size; top = s.top + size }

module _ (s : Heap) (ws : List ℕ) (size : ℕ) (w : IsHeap s ws) (lines : size % 32 ≡ 0)
    (big : 32 ≤ size) (fits : size < (s.entries s.top).size) where
  abbrev top : ℕ
  top = s.top

  abbrev h' : ℕ → FreeListEntry
  h' = shaved s.entries top size

  run :
      (x : ℕ)
      → h' x ≡ (
          if x == top
          then record (s.entries top) { size = size + 1 }
          else if x == top + size
          then record {
            forward = 0;
            backward = 0;
            size = (s.entries top).size - size;
            prev_size = size + 1;
          }
          else s.entries x)
  run = shaved_run s.entries top size lines big fits w.lines (omega (arith, w.whole, w.fits))

  pub shaved_top : h' top ≡ record (s.entries top) { size = size + 1 }
  shaved_top = run top ∙ rw (eq_true top top refl) refl

  at_rest : h' (top + size) ≡ record {
    forward = 0;
    backward = 0;
    size = (s.entries top).size - size;
    prev_size = size + 1;
  }
  at_rest =
      run (top + size)
      ∙ rw
          (
            eq_false (top + size) top (λ e. absurd (omega arith)),
            eq_true (top + size) (top + size) refl,
          )
          refl

  below : (x : ℕ) → x < top → h' x ≡ s.entries x
  below x lt =
      run x
      ∙ rw
          (
            eq_false x top (λ e. absurd (omega arith)),
            eq_false x (top + size) (λ e. absurd (omega arith)),
          )
          refl

  prev_kept : (x : ℕ) → x ≤ top → (h' x).prev_size ≡ (s.entries x).prev_size
  prev_kept x le = elim (Bool-cases (x == top)) [
    | inl at ↦
        let e = (==_iff x top).0 at in
        ap (λ y. (h' y).prev_size) e
        ∙ ap (λ (r : FreeListEntry). r.prev_size) shaved_top
        ∙ ap (λ y. (s.entries y).prev_size) (sym e)
    | inr off ↦
        let lt : x < top = ground arith in ap (λ (r : FreeListEntry). r.prev_size) (below x lt)
  ]

  after_shave-IsHeap : IsHeap (after_shave size s) (ws ++ (size + 1) ∷ [])
  after_shave-IsHeap =
      let back : masked (size + 1) ≡ size = omega arith in
      let sizes : (h' (top + size)).size ≡ (s.entries top).size - size =
        ap (λ (r : FreeListEntry). r.size) at_rest in
      let same : SameSizes s.entries h' top = record {
        sizes = λ x lt. ap (λ (r : FreeListEntry). r.size) (below x lt);
        prev_sizes = prev_kept;
      } in
      let links : SameLinks s.entries h' top = record {
        forwards = λ x lt. ap (λ (r : FreeListEntry). r.forward) (below x lt);
        backwards = λ x lt. ap (λ (r : FreeListEntry). r.backward) (below x lt);
      } in
      let tiles =
        Tiles-append s.entries h' top s.heap 0 ws (size + 1) same w.tiles (omega arith)
          (ap (λ (r : FreeListEntry). r.size) shaved_top)
          (ap (λ y. (h' (top + y)).prev_size) back
            ∙ ap (λ (r : FreeListEntry). r.prev_size) at_rest) in
      record {
        there = w.there;
        tiles = subst (λ y. Tiles h' (top + y) s.heap 0 (ws ++ (size + 1) ∷ [])) back tiles;
        linked =
            Linked-append s.entries h' top s.heap ws (ws ++ (size + 1) ∷ []) links
              (λ x i _. (
                IsStart-append x s.heap ws ((size + 1) ∷ []) i,
                (IsStart-below s.entries top s.heap 0 x ws w.tiles i).1,
              ))
              s.heap 0 ws (size + 1) w.there w.tiles w.linked
              (ap (λ (r : FreeListEntry). r.backward) shaved_top ∙ w.top_backward);
        whole = omega (arith, total-append ws ((size + 1) ∷ []), sizes, w.whole);
        fits = w.fits;
        lines = omega (arith, sizes, w.lines);
        top_forward = ap (λ (r : FreeListEntry). r.forward) at_rest;
        top_backward = ap (λ (r : FreeListEntry). r.backward) at_rest;
      }

-- No list from the bin of the size on has an entry.
find_entry-none :
    (fuel size : ℕ) (s : Heap)
    → size < 2 ^ 26
    → bit_and s.free_lists_bitmap (2 ^ 64 - 2 ^ bin_index size) ≡ 0
    → find_entry fuel size s ≡ ok (0, s)
unfolding find_entry shift find_from
find_entry-none fuel size s small none_there =
    let bin = (bin_index-monotone size size (omega arith) (omega arith)).1 small in
    rw (lt→ltb (bin_index size) 64 bin, none_there) refl

module _ {S : Type 0} (back : Backing S) (fuel rounds : ℕ) (s : Heap) (b : S) (size : ℕ)
    (small : size < 2 ^ 26) (mapped : s.mapped ≡ true)
    (none_there : bit_and s.free_lists_bitmap (2 ^ 64 - 2 ^ bin_index size) ≡ 0)
    (fits : size < (s.entries s.top).size) where
  allocate_chunk-shave :
      allocate_chunk back fuel (suc rounds) size (s, b) ≡ ok (s.top, (after_shave size s, b))
  unfolding allocate_chunk grow_until split mark
  allocate_chunk-shave =
      rw
        (
          find_entry-none fuel size s small none_there,
          mapped,
          lt→leb ((s.entries s.top).size) size fits,
          eq_true s.top s.top refl,
        )
        refl

pub chunk_size-lines :
    (request : ℕ)
    → request + 63 < 2 ^ 64
    → (chunk_size request % 32 ≡ 0)
      × (request + 32 ≤ chunk_size request)
      × (chunk_size request < request + 64)
unfolding chunk_size
chunk_size-lines request h = (omega arith, omega arith, omega arith)

-- What a request needs that the top chunk serves.
pub record IsServedByTop (s : Heap) (ws : List ℕ) (request : ℕ) : Type 0 where
  pub in_order : IsHeap s ws
  pub mapped : s.mapped ≡ true
  pub asked : 0 < request
  pub fits : request + 63 < 2 ^ 64
  pub small : chunk_size request < 16384
  pub none_listed : bit_and s.free_lists_bitmap (2 ^ 64 - 2 ^ bin_index (chunk_size request)) ≡ 0
  pub larger : chunk_size request < (s.entries s.top).size

pub allocate-after_shave :
    {S : Type 0} (back : Backing S) (fuel rounds request : ℕ) (s : Heap) (b : S) (ws : List ℕ)
    → IsServedByTop s ws request
    → length ws < fuel
    → (allocate back fuel (suc rounds) request (s, b)
        ≡ ok (s.top + 32, (after_shave (chunk_size request) s, b)))
      × IsHeap (after_shave (chunk_size request) s) (ws ++ (chunk_size request + 1) ∷ [])
unfolding allocate
allocate-after_shave back fuel rounds request s b ws served long =
    let w = served.in_order in
    let (lines, least, _) = chunk_size-lines request served.fits in
    let size = chunk_size request in
    let after = after_shave-IsHeap s ws size w lines (omega arith) served.larger in
    let there = eq_false s.heap 0 w.there in
    let asked = eq_false request 0 (λ e. absurd (omega (arith, served.asked))) in
    let frames : leb 16384 size ≡ false = lt→leb 16384 size served.small in
    let before = verify-IsHeap fuel s ws (omega arith) w in
    let behind =
      verify-IsHeap fuel (after_shave size s) (ws ++ (size + 1) ∷ [])
        (omega (arith, length-append ws ((size + 1) ∷ []))) after in
    (
      rw
          (
            there,
            asked,
            before,
            frames,
            allocate_chunk-shave back fuel rounds s b size (omega (arith, served.small))
                served.mapped served.none_listed served.larger,
            behind,
          )
          refl,
      after,
    )

-- Where the heap is in order and its pages are mapped, for a request above 0 (and so far below 2 ^ 64 that its chunk's
-- size does not wrap around) whose chunk is smaller than 0x4000 bytes, where no free list from the bin of this size on
-- has an entry and the top chunk is larger, `Allocate` ends, with a round for each chunk: it returns the memory behind the header of a new chunk in
-- use, which has taken the start of the top chunk, and the heap is in order with this chunk behind the others.
pub allocate-IsHeap :
    {S : Type 0} (back : Backing S) (fuel rounds request : ℕ) (s : Heap) (b : S) (ws : List ℕ)
    → IsServedByTop s ws request
    → length ws < fuel
    → Returns (allocate back fuel (suc rounds) request (s, b)) λ r.
      (r.0 ≡ s.top + 32)
      × ((r.1).1 ≡ b)
      × IsHeap ((r.1).0) (ws ++ (chunk_size request + 1) ∷ [])
      × (((r.1).0).top ≡ s.top + chunk_size request)
allocate-IsHeap back fuel rounds request s b ws served long =
    let (run, after) = allocate-after_shave back fuel rounds request s b ws served long in
    (_, run, (refl, refl, after, refl))

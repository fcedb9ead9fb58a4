-- ===== src/KHeap/Release.antt =====
-- `Free` of sys/kheap.cpp for the last chunk before the top one.
use panix.Prelude.{
  ℕ, ◌+◌, ◌-◌, ◌%◌, ◌<◌, ◌≤◌, ◌≡◌, ◌≢◌, ◌⊎◌, inl, inr, refl, ap, sym, ◌∙◌, subst, arith, List, [],
  ◌∷◌, ◌++◌, false, not, ◌&&◌, ltb, leb, le→ltb, lt→leb, ◌==◌, length, eq_true, eq_false, ==_iff,
  Bool-cases,
}
use panix.Prelude.Run.{ok, Returns}
use panix.KHeap.State.{
  FreeListEntry, Heap, masked, word, minus, in_use, without_in_use, store, bin_index, set_size,
  unlink,
}
use panix.KHeap.FreeLists.{remove}
use panix.KHeap.Chunks.{merge_with_neighbors, merge_prev, merge_next, tell_next, next_chunk}
use panix.KHeap.Layout.{
  IsHeap, IsStart, Tiles, SameSizes, SameLinks, Tiles-total, Tiles-last, Tiles-same, IsStart-last,
  IsStart-below, Linked-without, total-append,
}
use panix.KHeap.Checked.{verify-IsHeap}
use panix.KHeap.Methods.{Backing, free, release, locate}

-- The headers afterwards: the chunk has become the start of the top one.
abbrev returned : (ℕ → FreeListEntry) → ℕ → ℕ → ℕ → ℕ → ℕ → FreeListEntry
returned h e top free size = set_size e size (unlink top (set_size e free h))

abbrev after_return : ℕ → ℕ → ℕ → Heap → Heap
after_return e free size s = record s { entries = returned s.entries e s.top free size; top = e }

-- An entry that is in no list and that no list starts with.
remove-alone :
    (entry : ℕ) (s : Heap)
    → (s.entries entry).forward ≡ 0
    → (s.entries entry).backward ≡ 0
    → ((i : ℕ) → s.free_lists i ≢ entry)
    → remove entry s ≡ ok (record s { entries = unlink entry s.entries })
unfolding remove
remove-alone entry s f b lists =
    rw
      (
        eq_true ((s.entries entry).forward) 0 f,
        eq_true ((s.entries entry).backward) 0 b,
        eq_false (s.free_lists (bin_index (masked ((s.entries entry).size)))) entry (lists _),
      )
      refl

-- What is asked of the chunk that is freed: it is in use, in no list, and the chunk before is in use or there is none.
pub record IsFreedLast (s : Heap) (ws : List ℕ) (w e : ℕ) : Type 0 where
  pub in_order : IsHeap s (ws ++ (w ∷ []))
  pub high : 18446603340516163584 ≤ s.heap
  pub last : e + masked w ≡ s.top
  pub used : w % 32 ≡ 1
  pub small : w < 16384
  pub no_forward : (s.entries e).forward ≡ 0
  pub no_backward : (s.entries e).backward ≡ 0
  pub before_used : ((s.entries e).prev_size ≡ 0) ⊎ ((s.entries e).prev_size % 2 ≡ 1)
  pub top_unlisted : (i : ℕ) → s.free_lists i ≢ s.top

store_at : (h : ℕ → FreeListEntry) (a : ℕ) (e : FreeListEntry) → store h a e a ≡ e
unfolding store
store_at h a e = rw (eq_true a a refl) refl

store_other : (h : ℕ → FreeListEntry) (a x : ℕ) (e : FreeListEntry) → x ≢ a → store h a e x ≡ h x
unfolding store
store_other h a x e ne = rw (eq_false x a ne) refl

merge_prev-skip :
    (entry : ℕ) (s : Heap)
    → (not (in_use ((s.entries entry).prev_size)) && ltb 0 ((s.entries entry).prev_size)) ≡ false
    → merge_prev entry s ≡ ok (entry, s)
merge_prev-skip entry s alone = rw alone refl

-- The chunk behind is the top one, which is free.
merge_next-top :
    (entry : ℕ) (s s' : Heap)
    → next_chunk s.entries entry ≡ s.top
    → (s.entries s.top).size % 2 ≡ 0
    → remove s.top s ≡ ok s'
    → s'.top ≡ s.top
    → merge_next entry s
      ≡ ok (record s' {
        entries =
            set_size entry
              (word ((s'.entries entry).size + masked ((s'.entries s.top).size)))
              s'.entries;
        top = entry;
      })
merge_next-top entry s s' next free removed same =
    rw (next, free, removed, eq_true s.top s'.top (sym same)) refl

tell_next-top : (entry : ℕ) (s : Heap) → entry ≡ s.top → tell_next entry s ≡ s
tell_next-top entry s at = rw (eq_true entry s.top at) refl

module _ (s : Heap) (ws : List ℕ) (w e : ℕ) (f : IsFreedLast s ws w e) where
  abbrev size : ℕ
  size = w - 1 + (s.entries s.top).size

  -- Where the chunk lies.
  abbrev found :
      (t : ℕ) × Tiles s.entries t s.heap 0 ws
      × ((s.entries t).size ≡ w)
      × (32 ≤ w)
      × (t + masked w ≡ s.top)
  found = Tiles-last s.entries s.top s.heap 0 ws w (f.in_order).tiles

  is_found : found.0 ≡ e
  is_found = omega (arith, found.4, f.last)

  tiles_before : Tiles s.entries e s.heap 0 ws
  tiles_before = subst (λ t. Tiles s.entries t s.heap 0 ws) is_found (found.1)

  size_there : (s.entries e).size ≡ w
  size_there = ap (λ t. (s.entries t).size) (sym is_found) ∙ found.2

  not_top : e ≢ s.top
  not_top q = absurd (omega (arith, found.3, f.last))

  not_merged : (not (in_use ((s.entries e).prev_size)) && ltb 0 ((s.entries e).prev_size)) ≡ false
  not_merged = elim (f.before_used) [
    | inl none_there ↦ rw none_there refl
    | inr used ↦ rw used refl
  ]

  abbrev s1 : Heap
  s1 = record s { entries = set_size e (w - 1) s.entries }

  abbrev s2 : Heap
  s2 = record s1 { entries = unlink s.top s1.entries }

  top_kept : s1.entries s.top ≡ s.entries s.top
  top_kept = store_other s.entries e s.top _ (λ q. not_top (sym q))

  chunk_freed : s1.entries e ≡ record (s.entries e) { size = w - 1 }
  chunk_freed = store_at s.entries e _

  removed : remove s.top s1 ≡ ok s2
  removed =
      remove-alone s.top s1
        (ap (λ (r : FreeListEntry). r.forward) top_kept ∙ (f.in_order).top_forward)
        (ap (λ (r : FreeListEntry). r.backward) top_kept ∙ (f.in_order).top_backward) f.top_unlisted

  chunk_freed_2 : (s2.entries e).size ≡ w - 1
  chunk_freed_2 =
      ap (λ (r : FreeListEntry). r.size) (store_other s1.entries s.top e _ not_top)
      ∙ ap (λ (r : FreeListEntry). r.size) chunk_freed

  top_size : (s2.entries s.top).size ≡ (s.entries s.top).size
  top_size =
      ap (λ (r : FreeListEntry). r.size) (store_at s1.entries s.top _)
      ∙ ap (λ (r : FreeListEntry). r.size) top_kept

  total_size : word ((s2.entries e).size + masked ((s2.entries s.top).size)) ≡ size
  total_size =
      let w' = f.in_order in
      omega (
        arith,
        chunk_freed_2,
        top_size,
        w'.lines,
        w'.whole,
        w'.fits,
        total-append ws (w ∷ []),
        f.used,
      )

  skipped : merge_prev e s1 ≡ ok (e, s1)
  skipped = merge_prev-skip e s1 (
      subst (λ p. (not (in_use p) && ltb 0 p) ≡ false)
        (sym (ap (λ (r : FreeListEntry). r.prev_size) chunk_freed)) not_merged)

  next_is_top : next_chunk s1.entries e ≡ s.top
  next_is_top =
      let sz = ap (λ (r : FreeListEntry). r.size) chunk_freed in omega (arith, sz, f.last, f.used)

  merged : merge_next e s1 ≡ ok (after_return e (w - 1) size s)
  merged =
      merge_next-top e s1 s2 next_is_top
        (omega (arith, ap (λ (r : FreeListEntry). r.size) top_kept, (f.in_order).lines)) removed
        refl
      ∙ ap (λ n. ok (after_return e (w - 1) n s)) total_size

  release-run : release e s ≡ ok (after_return e (w - 1) size s)
  unfolding release merge_with_neighbors
  release-run =
      let cleared : without_in_use ((s.entries e).size) ≡ w - 1 =
        omega (arith, size_there, f.used) in
      rw
        (
          cleared,
          skipped,
          merged,
          tell_next-top e (after_return e (w - 1) size s) refl,
          eq_true e e refl,
        )
        refl

  abbrev h' : ℕ → FreeListEntry
  h' = returned s.entries e s.top (w - 1) size

  below : (x : ℕ) → x < e → h' x ≡ s.entries x
  below x lt =
      store_other s2.entries e x _ (λ q. absurd (omega arith))
      ∙ store_other s1.entries s.top x _ (λ q. absurd (omega (arith, f.last)))
      ∙ store_other s.entries e x _ (λ q. absurd (omega arith))

  at_chunk :
      ((h' e).size ≡ size)
      × ((h' e).prev_size ≡ (s.entries e).prev_size)
      × ((h' e).forward ≡ 0)
      × ((h' e).backward ≡ 0)
  at_chunk =
      let outer : h' e ≡ record (s2.entries e) { size = size } = store_at s2.entries e _ in
      let inner : s2.entries e ≡ s1.entries e = store_other s1.entries s.top e _ not_top in
      (
        ap (λ (r : FreeListEntry). r.size) outer,
        ap (λ (r : FreeListEntry). r.prev_size) outer
            ∙ ap (λ (r : FreeListEntry). r.prev_size) inner
            ∙ ap (λ (r : FreeListEntry). r.prev_size) chunk_freed,
        ap (λ (r : FreeListEntry). r.forward) outer
            ∙ ap (λ (r : FreeListEntry). r.forward) inner
            ∙ ap (λ (r : FreeListEntry). r.forward) chunk_freed
            ∙ f.no_forward,
        ap (λ (r : FreeListEntry). r.backward) outer
            ∙ ap (λ (r : FreeListEntry). r.backward) inner
            ∙ ap (λ (r : FreeListEntry). r.backward) chunk_freed
            ∙ f.no_backward,
      )

  same_sizes : SameSizes s.entries h' e
  same_sizes = record {
    sizes = λ x lt. ap (λ (r : FreeListEntry). r.size) (below x lt);
    prev_sizes = λ x le. elim (Bool-cases (x == e)) [
      | inl at ↦
          let q = (==_iff x e).0 at in
          ap (λ y. (h' y).prev_size) q ∙ at_chunk.1 ∙ ap (λ y. (s.entries y).prev_size) (sym q)
      | inr off ↦
          let lt : x < e = ground arith in ap (λ (r : FreeListEntry). r.prev_size) (below x lt)
    ];
  }

  same_links : SameLinks s.entries h' e
  same_links = record {
    forwards = λ x lt. ap (λ (r : FreeListEntry). r.forward) (below x lt);
    backwards = λ x lt. ap (λ (r : FreeListEntry). r.backward) (below x lt);
  }

  -- No link leads through the chunk that is freed.
  starts :
      (b : ℕ)
      → IsStart b s.heap (ws ++ (w ∷ []))
      → (s.entries b).forward ≢ 0
      → IsStart b s.heap ws × (b < e)
  starts b i linked = elim (IsStart-last b s.heap ws w i) [
    | inl other ↦ (other, (IsStart-below s.entries e s.heap 0 b ws tiles_before other).1)
    | inr last ↦
        let at : b ≡ e = last ∙ Tiles-total s.entries e s.heap 0 ws tiles_before in
        absurd (linked (ap (λ x. (s.entries x).forward) at ∙ f.no_forward))
  ]

  after_return-IsHeap : IsHeap (after_return e (w - 1) size s) ws
  after_return-IsHeap =
      let before = f.in_order in
      record {
        there = before.there;
        tiles = Tiles-same s.entries h' e s.heap 0 ws same_sizes tiles_before;
        linked =
            Linked-without s.entries h' e s.heap (ws ++ (w ∷ [])) ws same_links starts s.heap 0 ws w
              before.there tiles_before before.linked;
        whole = omega (arith, at_chunk.0, before.whole, total-append ws (w ∷ []), f.used, found.3);
        fits = before.fits;
        lines = omega (arith, at_chunk.0, before.lines, f.last, f.used, next_is_top);
        top_forward = at_chunk.2;
        top_backward = at_chunk.3;
      }

locate-heap : (a : ℕ) → 18446603340516163584 ≤ a → locate a ≡ a
locate-heap a high = rw (le→ltb a 18446603340516163584 high) (ground arith)

-- `Free` of the last chunk of a heap that is in order and does not lie below HEAP_BASE, where the chunk is smaller than
-- 0x4000 bytes, in use and in no free list, the chunk before is in use or there is none, and no free list starts at the
-- top chunk, ends, with a round for each chunk: the chunk and the top one have become the top chunk, and the heap is in
-- order with the other chunks.
pub free-IsHeap :
    {S : Type 0} (back : Backing S) (fuel : ℕ) (s : Heap) (b : S) (ws : List ℕ) (w e : ℕ)
    → IsFreedLast s ws w e
    → length ws ≤ fuel
    → Returns (free back fuel (e + 32) (s, b)) λ r. IsHeap (r.0) ws × ((r.0).top ≡ e) × (r.1 ≡ b)
unfolding free
free-IsHeap back fuel s b ws w e f long =
    let before = f.in_order in
    let order = Tiles-total s.entries e s.heap 0 ws (tiles_before s ws w e f) in
    let after = after_return-IsHeap s ws w e f in
    let at : minus (e + 32) 32 ≡ e = omega (arith, f.last, before.whole, before.fits) in
    let there = eq_false s.heap 0 before.there in
    let given = eq_false (e + 32) 0 (λ q. absurd (omega arith)) in
    let high : 18446603340516163584 ≤ e = omega (arith, f.high, order) in
    let frames : leb 16384 w ≡ false = lt→leb 16384 w f.small in
    rw
      (
        there,
        given,
        at,
        locate-heap e high,
        size_there s ws w e f,
        frames,
        release-run s ws w e f,
        verify-IsHeap fuel _ ws long after,
      )
      (_, refl, (after, refl, refl))

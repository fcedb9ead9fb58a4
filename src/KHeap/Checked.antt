-- ===== src/KHeap/Checked.antt =====
-- `Verify` of sys/kheap.cpp on a heap that is in order.
use panix.Prelude.{
  ℕ, zero, suc, ◌+◌, ◌^◌, ◌<◌, ◌≤◌, ◌≡◌, inl, inr, refl, ap, sym, ◌∙◌, arith, List, [], ◌∷◌, Option,
  none, some, Bool, true, false, not, ◌&&◌, ◌||◌, le→ltb, ◌==◌, length, eq_true, eq_false,
}
use panix.Prelude.Run.{ok}
use panix.KHeap.State.{FreeListEntry, Heap, masked, word}
use panix.KHeap.Verify.{prev_differs, loops, is_bad, check_top, verify_from, verify}
use panix.KHeap.Layout.{IsLinked, Tiles, Linked, total, IsHeap, Tiles-total}

neither : (x y z p q : Bool) → p ≡ false → q ≡ false → (x && y && p || x && z && q) ≡ false
neither x y z p q ep eq = rw (ep, eq) (ground arith)

loops_of_Linked :
    (h : ℕ → FreeListEntry) (heap : ℕ) (all : List ℕ) (a : ℕ)
    → IsLinked h heap all a
    → loops a h ≡ false
loops_of_Linked h heap all a l = elim l [
  | inl alone ↦ rw (eq_true ((h a).backward) 0 alone) refl
  | inr (below, leads, f, b) ↦
      neither (not ((h a).backward == 0)) (not ((h ((h a).backward)).forward == 0))
        (not ((h a).forward == 0)) _ _
        (ap (λ x. x == (h x).forward) leads ∙ eq_false a ((h a).forward) (λ e. f (sym e)))
        (ap (λ x. x == (h a).backward) leads ∙ eq_false a ((h a).backward) (λ e. b (sym e)))
]

-- What is told of the chunk before is true.
abbrev Told : Option ℕ → ℕ → (ℕ → FreeListEntry) → Type 0
Told none p h = Unit
Told (some q) p h = (h q).size ≡ p

prev_agrees :
    (prev : Option ℕ) (chunk p : ℕ) (h : ℕ → FreeListEntry)
    → (h chunk).prev_size ≡ p
    → Told prev p h
    → prev_differs prev chunk h ≡ false
prev_agrees none chunk p h e told = refl
prev_agrees (some q) chunk p h e told = rw (eq_true ((h chunk).prev_size) ((h q).size) cc) refl

module _ (s : Heap) (small : s.heap_size < 2 ^ 64) (forth : (s.entries s.top).forward ≡ 0)
    (back : (s.entries s.top).backward ≡ 0) (all : List ℕ) where
  check_top-ok : (sum : ℕ) → sum + (s.entries s.top).size ≡ s.heap_size → check_top sum s ≡ ok s
  check_top-ok sum whole =
      let same : (word (sum + (s.entries s.top).size) == s.heap_size) ≡ true =
        eq_true _ _ (omega arith) in
      rw
        (
          eq_true ((s.entries s.top).forward) 0 forth,
          eq_true ((s.entries s.top).backward) 0 back,
          same,
        )
        refl

  chunk-passes :
      (prev : Option ℕ) (chunk p : ℕ)
      → (s.entries chunk).prev_size ≡ p
      → chunk ≤ s.top
      → IsLinked s.entries s.heap all chunk
      → Told prev p s.entries
      → is_bad prev chunk s ≡ false
  chunk-passes prev chunk p e le l told =
      rw
        (
          le→ltb s.top chunk le,
          prev_agrees prev chunk p s.entries e told,
          loops_of_Linked s.entries s.heap all chunk l,
        )
        refl

  verify_from-ok :
      (fuel : ℕ) (prev : Option ℕ) (chunk sum p w : ℕ) (ws : List ℕ)
      → length ws < fuel
      → Tiles s.entries s.top chunk p (w ∷ ws)
      → Linked s.entries s.heap all chunk (w ∷ ws)
      → Told prev p s.entries
      → sum + total (w ∷ ws) + (s.entries s.top).size ≡ s.heap_size
      → verify_from fuel prev chunk sum s ≡ ok s
  unfolding verify_from
  verify_from-ok zero prev chunk sum p w ws le t l told whole = absurd (omega arith)
  verify_from-ok (suc fuel) prev chunk sum p w [] le (size, e, big, (at, p')) (l, ls) told whole =
      let next : (chunk + masked w == s.top) ≡ true = eq_true _ _ at in
      let added : word (sum + masked w) ≡ sum + masked w = omega arith in
      rw (chunk-passes prev chunk p e (omega arith) l told, size, next, added)
        (check_top-ok (sum + masked w) (omega arith))
  verify_from-ok (suc fuel) prev chunk sum p w (v ∷ ws) le (size, e, big, t) (l, ls) told whole =
      let below = Tiles-total s.entries s.top (chunk + masked w) w (v ∷ ws) t in
      let large = t.2 in
      let next : (chunk + masked w == s.top) ≡ false = eq_false _ _ (λ q. absurd (omega arith)) in
      let added : word (sum + masked w) ≡ sum + masked w = omega arith in
      rw (chunk-passes prev chunk p e (omega arith) l told, size, next, added)
        (verify_from-ok fuel (some chunk) (chunk + masked w) (sum + masked w) w v ws (omega arith) t
          ls size (omega arith))

-- On a heap that is in order, with a round for each chunk, `Verify` ends and finds nothing wrong.
pub verify-IsHeap :
    (fuel : ℕ) (s : Heap) (ws : List ℕ) → length ws ≤ fuel → IsHeap s ws → verify fuel s ≡ ok s
unfolding verify
verify-IsHeap fuel s [] le w = let (at, _) = w.tiles in rw (eq_true s.heap s.top at) refl
verify-IsHeap fuel s (v ∷ ws) le w =
    let t = w.tiles in
    let below = Tiles-total s.entries s.top s.heap 0 (v ∷ ws) t in
    let large = t.2 in
    rw (eq_false s.heap s.top (λ q. absurd (omega arith))) (
      verify_from-ok s (omega (arith, w.fits)) w.top_forward w.top_backward (v ∷ ws) fuel none
        s.heap 0 0 v ws (omega arith) t w.linked tt (omega (arith, w.whole)))

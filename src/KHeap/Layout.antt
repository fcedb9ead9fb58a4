-- ===== src/KHeap/Layout.antt =====
-- How the chunks of the heap of sys/kheap.cpp lie.
use panix.Prelude.{
  ℕ, ◌+◌, ◌%◌, ◌^◌, ◌<◌, ◌≤◌, ◌≡◌, ◌≢◌, ◌⊎◌, inl, inr, refl, ap, sym, ◌∙◌, subst, arith, List, [],
  ◌∷◌, ◌++◌,
}
use panix.KHeap.State.{FreeListEntry, Heap, masked}

-- `b` is where a chunk starts, of those with these size words from `a` on.
pub data IsStart (b : ℕ) : ℕ → List ℕ → Type 0 where
  first : (a w : ℕ) (ws : List ℕ) → a ≡ b → IsStart b a (w ∷ ws)
  further : (a w : ℕ) (ws : List ℕ) → IsStart b (a + masked w) ws → IsStart b a (w ∷ ws)

-- A chunk that is in a free list behind another chunk is led to by that one, and is in no loop.
abbrev pub IsLinked : (ℕ → FreeListEntry) → ℕ → List ℕ → ℕ → Type 0
IsLinked h heap all a =
    ((h a).backward ≡ 0)
    ⊎ (IsStart ((h a).backward) heap all
        × ((h ((h a).backward)).forward ≡ a)
        × ((h a).forward ≢ a)
        × ((h a).backward ≢ a))

-- From `a` to the top chunk lie chunks with these size words, each with the size word of the one before.
abbrev pub Tiles : (ℕ → FreeListEntry) → ℕ → ℕ → ℕ → List ℕ → Type 0
Tiles h top a prev [] = (a ≡ top) × ((h a).prev_size ≡ prev)
Tiles h top a prev (w ∷ ws) =
    ((h a).size ≡ w) × ((h a).prev_size ≡ prev) × (32 ≤ w) × Tiles h top (a + masked w) w ws

-- All chunks from `a` on are, among those from `heap` on.
abbrev pub Linked : (ℕ → FreeListEntry) → ℕ → List ℕ → ℕ → List ℕ → Type 0
Linked h heap all a [] = Unit
Linked h heap all a (w ∷ ws) = IsLinked h heap all a × Linked h heap all (a + masked w) ws

abbrev pub total : List ℕ → ℕ
total [] = 0
total (w ∷ ws) = masked w + total ws

-- The heap is made of chunks with these size words and of the top chunk.
pub record IsHeap (s : Heap) (ws : List ℕ) : Type 0 where
  pub there : s.heap ≢ 0
  pub tiles : Tiles s.entries s.top s.heap 0 ws
  pub linked : Linked s.entries s.heap ws s.heap ws
  pub whole : total ws + (s.entries s.top).size ≡ s.heap_size
  pub fits : s.heap + s.heap_size < 2 ^ 64
  pub lines : (s.entries s.top).size % 32 ≡ 0
  pub top_forward : (s.entries s.top).forward ≡ 0
  pub top_backward : (s.entries s.top).backward ≡ 0

pub Tiles-total :
    (h : ℕ → FreeListEntry) (top a prev : ℕ) (ws : List ℕ)
    → Tiles h top a prev ws
    → a + total ws ≡ top
Tiles-total h top a prev [] (at, _) = omega arith
Tiles-total h top a prev (w ∷ ws) (_, _, _, t) =
    omega (arith, Tiles-total h top (a + masked w) w ws t)

pub total-append : (xs ys : List ℕ) → total (xs ++ ys) ≡ total xs + total ys
total-append [] ys = omega arith
total-append (x ∷ xs) ys = omega (arith, total-append xs ys)

-- Two memories with the same size words below an address, and what is told there about the chunk before.
pub record SameSizes (h h' : ℕ → FreeListEntry) (top : ℕ) : Type 0 where
  pub sizes : (x : ℕ) → x < top → (h' x).size ≡ (h x).size
  pub prev_sizes : (x : ℕ) → x ≤ top → (h' x).prev_size ≡ (h x).prev_size

-- Behind the chunks there comes one more.
pub Tiles-append :
    (h h' : ℕ → FreeListEntry) (top a prev : ℕ) (ws : List ℕ) (w : ℕ)
    → SameSizes h h' top
    → Tiles h top a prev ws
    → 32 ≤ w
    → (h' top).size ≡ w
    → (h' (top + masked w)).prev_size ≡ w
    → Tiles h' (top + masked w) a prev (ws ++ (w ∷ []))
Tiles-append h h' top a prev [] w same (at, p) big size told = (
  ap (λ x. (h' x).size) at ∙ size,
  same.prev_sizes a (omega arith) ∙ p,
  big,
  (ap (λ x. x + masked w) at, ap (λ x. (h' (x + masked w)).prev_size) at ∙ told),
)
Tiles-append h h' top a prev (v ∷ ws) w same (here, p, large, t) big size told =
    let below = Tiles-total h top (a + masked v) v ws t in
    (
      same.sizes a (omega arith) ∙ here,
      same.prev_sizes a (omega arith) ∙ p,
      large,
      Tiles-append h h' top (a + masked v) v ws w same t big size told,
    )

-- Two memories with the same links below an address.
pub record SameLinks (h h' : ℕ → FreeListEntry) (top : ℕ) : Type 0 where
  pub forwards : (x : ℕ) → x < top → (h' x).forward ≡ (h x).forward
  pub backwards : (x : ℕ) → x < top → (h' x).backward ≡ (h x).backward

pub IsStart-append : (b a : ℕ) (ws vs : List ℕ) → IsStart b a ws → IsStart b a (ws ++ vs)
IsStart-append b a [] vs i = elim i [ ]
IsStart-append b a (w ∷ ws) vs (first _ _ _ e) = first a w (ws ++ vs) e
IsStart-append b a (w ∷ ws) vs (further _ _ _ i) =
    further a w (ws ++ vs) (IsStart-append b (a + masked w) ws vs i)

pub IsStart-below :
    (h : ℕ → FreeListEntry) (top a prev b : ℕ) (ws : List ℕ)
    → Tiles h top a prev ws
    → IsStart b a ws
    → (a ≤ b) × (b < top)
IsStart-below h top a prev b [] t i = elim i [ ]
IsStart-below h top a prev b (w ∷ ws) (_, _, big, t) (first _ _ _ e) =
    (omega arith, omega (arith, Tiles-total h top (a + masked w) w ws t))
IsStart-below h top a prev b (w ∷ ws) (_, _, big, t) (further _ _ _ i) =
    let (from, until) = IsStart-below h top (a + masked w) w b ws t i in (omega arith, until)

-- A link stays where what it leads through stays.
IsLinked-same :
    (h h' : ℕ → FreeListEntry) (top heap a : ℕ) (all all' : List ℕ)
    → SameLinks h h' top
    → a < top
    → a ≢ 0
    → ((b : ℕ) → IsStart b heap all → (h b).forward ≢ 0 → IsStart b heap all' × (b < top))
    → IsLinked h heap all a
    → IsLinked h' heap all' a
IsLinked-same h h' top heap a all all' same lt nz starts l = elim l [
  | inl alone ↦ inl (same.backwards a lt ∙ alone)
  | inr (start, leads, f, b) ↦
      let back = same.backwards a lt in
      let forth = same.forwards a lt in
      let (start', below) = starts ((h a).backward) start (λ z. nz (sym leads ∙ z)) in
      inr (
        subst (λ x. IsStart x heap all') (sym back) start',
        ap (λ x. (h' x).forward) back ∙ same.forwards ((h a).backward) below ∙ leads,
        (λ e. f (sym forth ∙ e)),
        (λ e. b (sym back ∙ e)),
      )
]

module _ (h h' : ℕ → FreeListEntry) (top heap : ℕ) (all all' : List ℕ) (same : SameLinks h h' top)
    (starts : (b : ℕ)
      → IsStart b heap all
      → (h b).forward ≢ 0
      → IsStart b heap all' × (b < top)) where
  -- The links of the chunks stay, and there is one more.
  pub Linked-append :
      (a prev : ℕ) (ws : List ℕ) (w : ℕ)
      → a ≢ 0
      → Tiles h top a prev ws
      → Linked h heap all a ws
      → (h' top).backward ≡ 0
      → Linked h' heap all' a (ws ++ (w ∷ []))
  Linked-append a prev [] w nz (at, _) l alone = (inl (ap (λ x. (h' x).backward) at ∙ alone), tt)
  Linked-append a prev (v ∷ ws) w nz (_, p, large, t) (l, ls) alone =
      let below = Tiles-total h top (a + masked v) v ws t in
      (
        IsLinked-same h h' top heap a all all' same (omega arith) nz starts l,
        Linked-append (a + masked v) v ws w (λ e. absurd (omega arith)) t ls alone,
      )

  -- The links of the chunks but the last stay.
  pub Linked-without :
      (a prev : ℕ) (ws : List ℕ) (w : ℕ)
      → a ≢ 0
      → Tiles h top a prev ws
      → Linked h heap all a (ws ++ (w ∷ []))
      → Linked h' heap all' a ws
  Linked-without a prev [] w nz t l = tt
  Linked-without a prev (v ∷ ws) w nz (_, p, large, t) (l, ls) =
      let below = Tiles-total h top (a + masked v) v ws t in
      (
        IsLinked-same h h' top heap a all all' same (omega arith) nz starts l,
        Linked-without (a + masked v) v ws w (λ e. absurd (omega arith)) t ls,
      )

-- The last chunk starts behind the others.
pub Tiles-last :
    (h : ℕ → FreeListEntry) (top a prev : ℕ) (ws : List ℕ) (w : ℕ)
    → Tiles h top a prev (ws ++ (w ∷ []))
    → (t : ℕ) × Tiles h t a prev ws × ((h t).size ≡ w) × (32 ≤ w) × (t + masked w ≡ top)
Tiles-last h top a prev [] w (size, p, big, (at, _)) = (a, (refl, p), size, big, at)
Tiles-last h top a prev (v ∷ ws) w (size, p, big, t) =
    let (e, t', size', big', at) = Tiles-last h top (a + masked v) v ws w t in
    (e, (size, p, big, t'), size', big', at)

pub Tiles-same :
    (h h' : ℕ → FreeListEntry) (top a prev : ℕ) (ws : List ℕ)
    → SameSizes h h' top
    → Tiles h top a prev ws
    → Tiles h' top a prev ws
Tiles-same h h' top a prev [] same (at, p) = (at, same.prev_sizes a (omega arith) ∙ p)
Tiles-same h h' top a prev (w ∷ ws) same (size, p, big, t) =
    let below = Tiles-total h top (a + masked w) w ws t in
    (
      same.sizes a (omega arith) ∙ size,
      same.prev_sizes a (omega arith) ∙ p,
      big,
      Tiles-same h h' top (a + masked w) w ws same t,
    )

-- A chunk is the last one or one of the others.
pub IsStart-last :
    (b a : ℕ) (ws : List ℕ) (w : ℕ)
    → IsStart b a (ws ++ (w ∷ []))
    → IsStart b a ws ⊎ (b ≡ a + total ws)
IsStart-last b a [] w (first _ _ _ e) = inr (omega arith)
IsStart-last b a [] w (further _ _ _ i) = elim i [ ]
IsStart-last b a (v ∷ ws) w (first _ _ _ e) = inl (first a v ws e)
IsStart-last b a (v ∷ ws) w (further _ _ _ i) = elim (IsStart-last b (a + masked v) ws w i) [
  | inl other ↦ inl (further a v ws other)
  | inr last ↦ inr (omega arith)
]

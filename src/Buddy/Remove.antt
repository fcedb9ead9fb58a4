-- ===== src/Buddy/Remove.antt =====
-- `Remove` of sys/buddy_allocator.cpp, on the free lists.
use panix.Prelude.{
  ℕ, ◌-◌, ◌≡◌, ◌≢◌, refl, ap, sym, ◌∙◌, subst, arith, List, [], ◌∷◌, ◌++◌, true, false, ◌==◌, leb,
  ltb, lt→ltb, if◌then◌else◌, Bool-cases, inl, inr, ==_iff,
}
use panix.Prelude.Run.{ok, Returns}
use panix.Buddy.State.{FreeListEntry, Allocator, store, load, set_head, with_entries}
use panix.Buddy.Lists.{update_some, remove, drop_head, with_forward, with_backward}
use panix.Buddy.FreeLists.{
  Misses, Chain, Chain-store, Chain-head, IsFreeList, IsOrder, store_at, update-ok, update_some-ok,
  update_some-null, new_head,
}
use panix.Buddy.Unlink.{
  store_some, store_some-other, last, Linked, Chain-Linked, back_to, back_to-other, bridged,
  bridged-Chain, start, behind_some, Misses-head, Misses-last,
}

load-ok : (s : Allocator) (entry : ℕ) → entry ≢ 0 → load s entry ≡ ok (s.entries entry)
unfolding load
load-ok s entry nz = let set : (entry == 0) ≡ false = ground arith in rw set refl

update_some-store_some :
    (change : FreeListEntry → FreeListEntry) (p : ℕ) (s : Allocator)
    → update_some change p s ≡ ok (with_entries s (store_some change p s.entries))
update_some-store_some change p s = elim (Bool-cases (p == 0)) [
  | inl null ↦ let e = (==_iff p 0).0 null in rw e (update_some-null change s)
  | inr set ↦ rw set (update_some-ok change p s (ground arith))
]

-- The last two writes.
abbrev cleared : ℕ → (ℕ → FreeListEntry) → ℕ → FreeListEntry
cleared e h =
    store (store h e (with_forward 0 (h e))) e
      (with_backward 0 (store h e (with_forward 0 (h e)) e))

cleared-fields :
    (e : ℕ) (h : ℕ → FreeListEntry) → ((cleared e h e).forward ≡ 0) × ((cleared e h e).backward ≡ 0)
cleared-fields e h =
    let outer =
      store_at (store h e (with_forward 0 (h e))) e
        (with_backward 0 (store h e (with_forward 0 (h e)) e)) in
    let inner = store_at h e (with_forward 0 (h e)) in
    (
      ap (λ (r : FreeListEntry). r.forward) outer ∙ ap (λ (r : FreeListEntry). r.forward) inner,
      ap (λ (r : FreeListEntry). r.backward) outer,
    )

cleared-Chain :
    (e : ℕ) (h : ℕ → FreeListEntry) (prev p : ℕ) (xs : List ℕ)
    → Misses e xs
    → Chain h prev p xs
    → Chain (cleared e h) prev p xs
cleared-Chain e h prev p xs miss c =
    Chain-store _ prev p xs e _ miss (Chain-store h prev p xs e _ miss c)

module _ (s : Allocator) (order e b : ℕ) (good : IsOrder order) (nz : e ≢ 0)
    (before : (s.entries e).backward ≡ b) (kind : (s.entries e).order ≡ order)
    (untouched : back_to b e s.entries e ≡ s.entries e)
    (untouched_too : bridged b e s.entries e ≡ s.entries e) (target : ℕ → FreeListEntry)
    (reached : cleared e (bridged b e s.entries) ≡ target) where
  -- The head of the list afterwards.
  abbrev head_after : ℕ
  head_after =
      if s.free_lists (order - 12) == e then (s.entries e).forward else s.free_lists (order - 12)

  remove-run :
      (s' : Allocator) × (remove e s ≡ ok s')
      × (s'.entries ≡ target)
      × (s'.free_lists (order - 12) ≡ head_after)
  unfolding remove drop_head
  remove-run =
      let f = (s.entries e).forward in
      let s1 = with_entries s (back_to b e s.entries) in
      let s2 = with_entries s (bridged b e s.entries) in
      let within : leb 12 order ≡ true = ground (arith, good) in
      let below : ltb order 40 ≡ true = lt→ltb order 40 (good.1) in
      rw
        (
          load-ok s e nz,
          before,
          update_some-store_some (with_backward b) f s,
          load-ok s1 e nz,
          untouched,
          before,
          update_some-store_some (with_forward f) b s1,
          load-ok s2 e nz,
          untouched_too,
          kind,
          within,
          below,
        )
        (elim (Bool-cases (s.free_lists (order - 12) == e)) [
          | inl first ↦
              let s3 = set_head s2 order f in
              let s4 = with_entries s3 (store s3.entries e (with_forward 0 (s3.entries e))) in
              rw (first, update-ok (with_forward 0) e s3 nz, update-ok (with_backward 0) e s4 nz)
                (_, refl, reached, new_head s.free_lists order f)
          | inr inner ↦
              let s4 = with_entries s2 (store s2.entries e (with_forward 0 (s2.entries e))) in
              rw (inner, update-ok (with_forward 0) e s2 nz, update-ok (with_backward 0) e s4 nz)
                (_, refl, reached, refl)
        ])

start_head :
    (h : ℕ → FreeListEntry) (p e : ℕ) (xs ys : List ℕ) (f : ℕ)
    → Chain h 0 p (xs ++ (e ∷ ys))
    → Linked h 0 xs e ys
    → (if p == e then f else p) ≡ start p f xs
start_head h p e [] ys f (at, _, _, _, _) l =
    let same : (p == e) ≡ true = ground arith in rw same refl
start_head h p e (x ∷ xs) ys f (at, nz, _, miss, _) l =
    let ne = Misses-head e x (xs ++ ys) l.apart in
    let other : (p == e) ≡ false = ground arith in rw other refl

bridged-start :
    (h : ℕ → FreeListEntry) (p e : ℕ) (xs ys : List ℕ)
    → Chain h 0 p (xs ++ (e ∷ ys))
    → Linked h 0 xs e ys
    → Chain (bridged (last 0 xs) e h) 0 (start p ((h e).forward) xs) (xs ++ ys)
bridged-start h p e [] ys c l = behind_some h e 0 ((h e).forward) ys l.behind
bridged-start h p e (x ∷ xs) ys c l = bridged-Chain h 0 p x xs e ys c

last_apart : (e prev : ℕ) (xs ys : List ℕ) → Misses e (xs ++ ys) → prev ≢ e → last prev xs ≢ e
last_apart e prev [] ys miss ne = ne
last_apart e prev (x ∷ xs) ys miss ne = λ q. Misses-last e x xs ys miss (sym q)

-- `Remove` of an entry anywhere in the list of its order ends without a fault: the list of the others is
-- left, and the entry points nowhere.
pub remove-IsFreeList :
    (s : Allocator) (order entry : ℕ) (xs ys : List ℕ)
    → IsOrder order
    → IsFreeList s order (xs ++ (entry ∷ ys))
    → (s.entries entry).order ≡ order
    → Returns (remove entry s) λ s'.
      IsFreeList s' order (xs ++ ys)
      × ((s'.entries entry).forward ≡ 0)
      × ((s'.entries entry).backward ≡ 0)
remove-IsFreeList s order entry xs ys good list kind =
    let h = s.entries in
    let p = s.free_lists (order - 12) in
    let b = last 0 xs in
    let l = Chain-Linked h 0 p xs entry ys list in
    let untouched = back_to-other h entry b entry ys l.set l.unlike l.behind in
    let untouched_too : bridged b entry h entry ≡ h entry =
      store_some-other (with_forward ((h entry).forward)) b (back_to b entry h) entry
        (λ _. last_apart entry 0 xs ys l.apart (λ z. l.set (sym z)))
      ∙ untouched in
    let after = cleared entry (bridged b entry h) in
    let (s', run, entries, head) =
      remove-run s order entry b good l.set l.before kind untouched untouched_too after refl in
    let (f, back) = cleared-fields entry (bridged b entry h) in
    let chain =
      cleared-Chain entry (bridged b entry h) 0 (start p ((h entry).forward) xs) (xs ++ ys) l.apart
        (bridged-start h p entry xs ys list l) in
    (
      s',
      run,
      (
        subst (λ g. Chain g 0 (s'.free_lists (order - 12)) (xs ++ ys)) (sym entries)
            (Chain-head after 0 (start p ((h entry).forward) xs) (s'.free_lists (order - 12))
              (xs ++ ys) (head ∙ start_head h p entry xs ys ((h entry).forward) list l) chain),
        ap (λ (g : ℕ → FreeListEntry). (g entry).forward) entries ∙ f,
        ap (λ (g : ℕ → FreeListEntry). (g entry).backward) entries ∙ back,
      ),
    )

-- ===== src/Buddy/FreeLists.antt =====
-- The doubly linked free lists of sys/buddy_allocator.cpp: `PushFront`, `PopFront` and `Remove`.
use panix.Prelude.{
  ℕ, ◌-◌, ◌<◌, ◌≤◌, ◌≡◌, ◌≢◌, refl, ap, sym, ◌∙◌, subst, arith, List, [], ◌∷◌, true, false, ◌==◌,
  ltb, leb, ◌&&◌,
}
use panix.Prelude.Run.{ok, Returns, ◌>>=◌}
use panix.Buddy.State.{
  FreeListEntry, Allocator, store, load, save, list_head, set_head, with_entries, with_head,
}
use panix.Buddy.Lists.{
  update, update_some, push_front, pop_front, with_forward, with_backward, with_order,
}

-- An entry that is none of a list.
pub data Misses (a : ℕ) : List ℕ → Type 0 where
  misses_all : Misses a []
  misses_next : (x : ℕ) (xs : List ℕ) → a ≢ x → Misses a xs → Misses a (x ∷ xs)

-- From `p`, the forward pointers lead through the entries of the list to the null pointer, and each
-- backward pointer to the entry before, that of the first to `prev`. No entry occurs twice.
abbrev pub Chain : (ℕ → FreeListEntry) → ℕ → ℕ → List ℕ → Type 0
Chain h prev p [] = p ≡ 0
Chain h prev p (x ∷ xs) =
    (p ≡ x) × (x ≢ 0) × ((h x).backward ≡ prev) × Misses x xs × Chain h x ((h x).forward) xs

-- The allocator's list of an order.
abbrev pub IsFreeList : Allocator → ℕ → List ℕ → Type 0
IsFreeList s order xs = Chain s.entries 0 (s.free_lists (order - 12)) xs

abbrev pub IsOrder : ℕ → Type 0
IsOrder order = (12 ≤ order) × (order < 40)

pub store_at : (h : ℕ → FreeListEntry) (a : ℕ) (e : FreeListEntry) → store h a e a ≡ e
unfolding store
store_at h a e = let same : (a == a) ≡ true = ground arith in rw same refl

pub store_other :
    (h : ℕ → FreeListEntry) (a x : ℕ) (e : FreeListEntry) → a ≢ x → store h a e x ≡ h x
unfolding store
store_other h a x e ne = let other : (x == a) ≡ false = ground arith in rw other refl

-- A write to an entry outside a list keeps the list.
pub Chain-store :
    (h : ℕ → FreeListEntry) (prev p : ℕ) (xs : List ℕ) (a : ℕ) (e : FreeListEntry)
    → Misses a xs
    → Chain h prev p xs
    → Chain (store h a e) prev p xs
Chain-store h prev p [] a e m c = c
Chain-store h prev p (x ∷ xs) a e (misses_next _ _ ne m) (at, nz, b, miss, c) =
    let same = store_other h a x e ne in
    (
      at,
      nz,
      ap (λ (r : FreeListEntry). r.backward) same ∙ b,
      miss,
      subst (λ (r : FreeListEntry). Chain (store h a e) x r.forward xs) (sym same)
          (Chain-store h x ((h x).forward) xs a e m c),
    )

-- The first entry of a list comes to stand behind another one, or behind none.
pub Chain-behind :
    (h : ℕ → FreeListEntry) (prev p x : ℕ) (xs : List ℕ) (before : ℕ)
    → Chain h prev p (x ∷ xs)
    → Chain (store h x (with_backward before (h x))) before p (x ∷ xs)
Chain-behind h prev p x xs before (at, nz, b, miss, c) =
    let here = store_at h x (with_backward before (h x)) in
    (
      at,
      nz,
      ap (λ (r : FreeListEntry). r.backward) here,
      miss,
      subst (λ (r : FreeListEntry). Chain (store h x (with_backward before (h x))) x r.forward xs)
          (sym here) (Chain-store h x ((h x).forward) xs x (with_backward before (h x)) miss c),
    )

-- An entry before a list.
Chain-before :
    (h : ℕ → FreeListEntry) (x : ℕ) (xs : List ℕ)
    → x ≢ 0
    → (h x).backward ≡ 0
    → Misses x xs
    → Chain h x ((h x).forward) xs
    → Chain h 0 x (x ∷ xs)
Chain-before h x xs nz b miss c = (refl, nz, b, miss, c)

pub update-ok :
    (change : FreeListEntry → FreeListEntry) (entry : ℕ) (s : Allocator)
    → entry ≢ 0
    → update change entry s ≡ ok (with_entries s (store s.entries entry (change (s.entries entry))))
unfolding update load save
update-ok change entry s nz = let set : (entry == 0) ≡ false = ground arith in rw set refl

pub list_head-ok :
    (s : Allocator) (order : ℕ) → IsOrder order → list_head s order ≡ ok (s.free_lists (order - 12))
list_head-ok s order (lo, hi) =
    let within : (leb 12 order && ltb order 40) ≡ true = ground arith in rw within refl

pub update_some-null :
    (change : FreeListEntry → FreeListEntry) (s : Allocator) → update_some change 0 s ≡ ok s
unfolding update_some
update_some-null change s = refl

pub update_some-ok :
    (change : FreeListEntry → FreeListEntry) (entry : ℕ) (s : Allocator)
    → entry ≢ 0
    → update_some change entry s
      ≡ ok (with_entries s (store s.entries entry (change (s.entries entry))))
unfolding update_some
update_some-ok change entry s nz =
    let set : (entry == 0) ≡ false = ground arith in rw set (update-ok change entry s nz)

-- The entry as `PushFront` leaves it.
pushed : (ℕ → FreeListEntry) → ℕ → ℕ → ℕ → ℕ → FreeListEntry
pushed h order entry head =
    store (store h entry (with_order order (h entry))) entry
      (with_forward head (store h entry (with_order order (h entry)) entry))

pushed-fields :
    (h : ℕ → FreeListEntry) (order entry head : ℕ)
    → (((pushed h order entry head) entry).forward ≡ head)
      × (((pushed h order entry head) entry).backward ≡ (h entry).backward)
unfolding pushed
pushed-fields h order entry head = rw (store_at, store_at) (refl, refl)

pushed-Chain :
    (h : ℕ → FreeListEntry) (order entry head prev p : ℕ) (xs : List ℕ)
    → Misses entry xs
    → Chain h prev p xs
    → Chain (pushed h order entry head) prev p xs
unfolding pushed
pushed-Chain h order entry head prev p xs miss c =
    Chain-store _ prev p xs entry _ miss (Chain-store h prev p xs entry _ miss c)

module _ (s : Allocator) (order entry : ℕ) (good : IsOrder order) (nz : entry ≢ 0) where
  -- The first two writes.
  push_front-run : push_front order entry s ≡ (
      update_some
        (with_backward entry)
        (s.free_lists (order - 12))
        (with_entries s (pushed s.entries order entry (s.free_lists (order - 12))))
      >>= λ s3. ok (set_head s3 order entry))
  unfolding push_front pushed
  push_front-run =
      let s1 = with_entries s (store s.entries entry (with_order order (s.entries entry))) in
      rw
        (
          update-ok (with_order order) entry s nz,
          list_head-ok s1 order good,
          update-ok (with_forward (s.free_lists (order - 12))) entry s1 nz,
        )
        refl

pub new_head : (lists : ℕ → ℕ) (order entry : ℕ) → with_head lists order entry (order - 12) ≡ entry
new_head lists order entry = ground arith

-- The entry before the first of a list, once that one's backward pointer is set.
pushed-Chain_before :
    (h : ℕ → FreeListEntry) (order entry p x : ℕ) (xs : List ℕ)
    → entry ≢ 0
    → Misses entry (x ∷ xs)
    → (h entry).backward ≡ 0
    → Chain h 0 p (x ∷ xs)
    → Chain
        (store (pushed h order entry x) x (with_backward entry (pushed h order entry x x)))
        0
        entry
        (entry ∷ x ∷ xs)
pushed-Chain_before h order entry p x xs nz (misses_next _ _ ne miss) back
      (at, xnz, b', away, rest) =
    let m : Misses entry (x ∷ xs) = misses_next x xs ne miss in
    let h' = pushed h order entry x in
    let h'' = store h' x (with_backward entry (h' x)) in
    let (f, b) = pushed-fields h order entry x in
    let same = store_other h' x entry (with_backward entry (h' x)) (λ e. ne (sym e)) in
    let behind =
      Chain-behind h' 0 x x xs entry
        (pushed-Chain h order entry x 0 x (x ∷ xs) m (refl, xnz, b', away, rest)) in
    (
      refl,
      nz,
      ap (λ (r : FreeListEntry). r.backward) same ∙ b ∙ back,
      m,
      subst (λ q. Chain h'' entry q (x ∷ xs)) (sym (ap (λ (r : FreeListEntry). r.forward) same ∙ f))
          behind,
    )

pub Chain-head :
    (h : ℕ → FreeListEntry) (prev p q : ℕ) (xs : List ℕ)
    → q ≡ p
    → Chain h prev p xs
    → Chain h prev q xs
Chain-head h prev p q xs e c = subst (λ r. Chain h prev r xs) (sym e) c

-- `PushFront` of an entry that is not in the list and has no backward pointer ends without a fault: the
-- doubly linked list of the order then begins with it.
pub push_front-IsFreeList :
    (s : Allocator) (order entry : ℕ) (xs : List ℕ)
    → IsOrder order
    → IsFreeList s order xs
    → entry ≢ 0
    → Misses entry xs
    → (s.entries entry).backward ≡ 0
    → Returns (push_front order entry s) λ s'. IsFreeList s' order (entry ∷ xs)
push_front-IsFreeList s order entry [] good list nz miss back =
    let (f, b) = pushed-fields s.entries order entry 0 in
    rw (push_front-run s order entry good nz, list, update_some-null)
      (_, refl, (new_head s.free_lists order entry, nz, b ∙ back, miss, f))
push_front-IsFreeList s order entry (x ∷ xs) good list nz miss back =
    let (at, xnz, _, _, _) = list in
    rw
      (
        push_front-run s order entry good nz,
        at,
        update_some-ok (with_backward entry) x (with_entries s (pushed s.entries order entry x))
            xnz,
      )
      (
        _,
        refl,
        Chain-head
            (store (pushed s.entries order entry x) x
              (with_backward entry (pushed s.entries order entry x x)))
            0 entry _ (entry ∷ x ∷ xs) (new_head s.free_lists order entry)
            (pushed-Chain_before s.entries order entry (s.free_lists (order - 12)) x xs nz miss back
              list),
      )

-- `PopFront` of a list with entries ends without a fault, returns the first of them, and leaves the list of
-- the others.
pub pop_front-IsFreeList :
    (s : Allocator) (order x : ℕ) (xs : List ℕ)
    → IsOrder order
    → IsFreeList s order (x ∷ xs)
    → Returns (pop_front order s) λ r. (r.0 ≡ x) × IsFreeList (r.1) order xs
unfolding pop_front load
pop_front-IsFreeList s order x [] good (at, xnz, b, miss, c) =
    let set : (x == 0) ≡ false = ground arith in
    rw (list_head-ok s order good, at, set, c, update_some-null)
      (_, refl, (refl, new_head s.free_lists order 0))
pop_front-IsFreeList s order x (y ∷ ys) good (at, xnz, b, miss, c) =
    let set : (x == 0) ≡ false = ground arith in
    let (at', ynz, _, _, _) = c in
    let h' = store s.entries y (with_backward 0 (s.entries y)) in
    rw
      (
        list_head-ok s order good,
        at,
        set,
        at',
        update_some-ok (with_backward 0) y (set_head s order y) ynz,
      )
      (
        _,
        refl,
        (
          refl,
          Chain-head h' 0 y _ (y ∷ ys) (new_head s.free_lists order y)
              (Chain-behind s.entries x y y ys 0 (Chain-head s.entries x _ y (y ∷ ys) (sym at') c)),
        ),
      )

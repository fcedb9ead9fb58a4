-- ===== src/HashMap/Valid.antt =====
-- The invariant of `ds::HashMap`, the partial function that a table stands for, and the members that
-- only read: `Find`, `Lookup`, `Contains` and `operator[]`.
use panix.Prelude.{
  ℕ, zero, suc, ◌+◌, ◌*◌, ◌%◌, ◌≤◌, ◌<◌, ◌≡◌, refl, ◌∙◌, ap, Option, none, some, arith,
}
use panix.Prelude.Run.{ok, expect, out_of_bounds, Returns}
use panix.HashMap.{
  Key, Arrays, HashMap, new, first_slot, find, value_at, lookup, contains, ref_at, is_some,
  subscript, h1,
}
use panix.HashMap.Slots.{Reach, Gap-exists, occupied, occupied-fresh}
use panix.HashMap.Placed.{
  Stored, Stored-entry, IsPlaced, IsUnique, IsAbsent, home, fresh-absent, fresh-IsPlaced,
}
use panix.HashMap.Probe.{Found, at_slot, missing, find_from_total}

pub first_slot-ok :
    (hash capacity : ℕ) → 0 < capacity → first_slot hash capacity ≡ ok (h1 hash % capacity)
unfolding first_slot
first_slot-ok hash zero h = elim h [ ]
first_slot-ok hash (suc n) h = refl

module _ {ℓ} {K V : Type ℓ} ⦃key : Key K⦄ where
  -- The load factor leaves an EMPTY slot, since `num_entries_` bounds the slots that are not EMPTY.
  pub record IsValid (m : HashMap K V) : Type ℓ where
    pub roomy : 0 < m.capacity
    pub load : m.num_entries * 3 ≤ m.capacity
    pub counted : occupied m.arrays.mdata ≤ m.num_entries
    pub placed : IsPlaced m.arrays m.capacity

  -- The value that the arrays hold for a key.
  pub data Holding (a : Arrays K V) (k : K) : Option V → Type ℓ where
    present : (i : ℕ) (v : V) → Stored a i k v → Holding a k (some v)
    absent : IsAbsent a k → Holding a k none

  -- The table stands for the partial function, each key in one slot.
  pub record Models (f : K → Option V) (m : HashMap K V) : Type ℓ where
    pub valid : IsValid m
    pub unique : IsUnique m.arrays
    pub holding : (k : K) → Holding m.arrays k (f k)

  pub Holding-unique :
      {a : Arrays K V} {k : K} {r s : Option V} → IsUnique a → Holding a k r → Holding a k s → r ≡ s
  Holding-unique u (present i v s) (present j w t) =
      let e = u i j _ v w s t in ap some (Stored-entry s (rw (← e) at t)).1
  Holding-unique u (present i v s) (absent n) = absurd (n i v s)
  Holding-unique u (absent n) (present j w t) = absurd (n j w t)
  Holding-unique u (absent n) (absent n') = refl

  pub IsAbsent-of_none :
      {a : Arrays K V} {k : K} {r : Option V} → Holding a k r → r ≡ none → IsAbsent a k
  IsAbsent-of_none (present i v s) h = cc
  IsAbsent-of_none (absent n) h = n

  pub Stored-of_some :
      {a : Arrays K V} {k : K} {r : Option V} (v : V)
      → Holding a k r
      → r ≡ some v
      → (i : ℕ) × Stored a i k v
  Stored-of_some v (present i w s) h = let e : w ≡ v = cc in (i, rw (← e) s)
  Stored-of_some v (absent n) h = cc

  -- An entry stands where its key's probe sequence reaches it.
  pub Stored-Reach :
      {a : Arrays K V} {capacity i : ℕ} {k : K} {v : V}
      → IsPlaced a capacity
      → Stored a i k v
      → Reach a.mdata capacity (home k capacity) i
  Stored-Reach {capacity} {i} {k} p s =
      let (q, w, t, e, r) = p.holds i _ s.marked in
      let same : q ≡ k = (Stored-entry t s).0 in rw (← same) r

  module _ {m : HashMap K V} (valid : IsValid m) (k : K) where
    few : occupied m.arrays.mdata < m.capacity
    few = omega (arith, valid.roomy, valid.load, valid.counted)

    pub find_total : Returns (find m k) (Found m.arrays m.capacity k (home k m.capacity))
    unfolding find
    find_total =
        let start-lt : home k m.capacity < m.capacity = omega (arith, valid.roomy) in
        let (d, le, gap) =
          Gap-exists m.arrays.mdata m.capacity (home k m.capacity) valid.placed.width few
            start-lt in
        rw (first_slot-ok (key.hash k) m.capacity valid.roomy) (
          find_from_total m.arrays m.capacity valid.placed k (m.capacity + 1) _ d gap (omega arith)
            start-lt)

    pub IsAbsent-of_missing :
        ((j : ℕ) (v : V)
          → Stored m.arrays j k v
          → ¬ (Reach m.arrays.mdata m.capacity (home k m.capacity) j))
        → IsAbsent m.arrays k
    IsAbsent-of_missing n i v s = n i v s (Stored-Reach valid.placed s)

    value_at-Found :
        (r : Option ℕ)
        → Found m.arrays m.capacity k (home k m.capacity) r
        → Returns (value_at m.arrays r) (Holding m.arrays k)
    unfolding value_at
    value_at-Found r (at_slot j v s) = rw s.entry (some v, refl, present j v s)
    value_at-Found r (missing n) = (none, refl, absent (IsAbsent-of_missing n))

    -- On a valid table `Lookup` ends without a fault, and returns what the arrays hold.
    pub lookup_total : Returns (lookup m k) (Holding m.arrays k)
    unfolding lookup
    lookup_total = let (r, run, found) = find_total in rw run (value_at-Found r found)

  module _ {m : HashMap K V} {f : K → Option V} (models : Models f m) (k : K) where
    find_slot : Returns (find m k) (Found m.arrays m.capacity k (home k m.capacity))
    find_slot = find_total models.valid k

    -- Where the table stands for `f`, `Lookup` ends without a fault and returns what `f` does.
    pub lookup-Models : lookup m k ≡ ok (f k)
    lookup-Models =
        let (r, run, holding) = lookup_total models.valid k in
        run ∙ ap ok (Holding-unique models.unique holding (models.holding k))

    is_some-Found :
        (r : Option ℕ)
        → Found m.arrays m.capacity k (home k m.capacity) r
        → is_some r ≡ is_some (f k)
    is_some-Found r (at_slot j v s) =
        rw (← Holding-unique models.unique (present j v s) (models.holding k))
    is_some-Found r (missing n) =
        rw
          (← Holding-unique models.unique (absent (IsAbsent-of_missing models.valid k n))
            (models.holding k))

    -- `Contains` says whether `f` has the key.
    pub contains-Models : contains m k ≡ ok (is_some (f k))
    unfolding contains
    contains-Models = let (r, run, found) = find_slot in rw run (ap ok (is_some-Found r found))

    ref_at-Found :
        (r : Option ℕ)
        → Found m.arrays m.capacity k (home k m.capacity) r
        → ref_at m.arrays r ≡ expect out_of_bounds (f k)
    unfolding ref_at
    ref_at-Found r (at_slot j v s) =
        rw (← Holding-unique models.unique (present j v s) (models.holding k)) (rw s.entry)
    ref_at-Found r (missing n) =
        rw
          (← Holding-unique models.unique (absent (IsAbsent-of_missing models.valid k n))
            (models.holding k))

    -- `operator[]` reads the value that `f` has for the key, and is out of bounds where `f` has none.
    pub subscript-Models : subscript m k ≡ expect out_of_bounds (f k)
    unfolding subscript
    subscript-Models = let (r, run, found) = find_slot in rw run (ref_at-Found r found)

  -- A new table stands for the empty function, except that no capacity of 0 is served.
  pub new-Models : (n : ℕ) → 0 < n → Models (λ _. none) (new {K = K} {V = V} n)
  unfolding new
  new-Models n h = record {
    valid = record {
      roomy = h;
      load = omega arith;
      counted = omega (arith, occupied-fresh n);
      placed = fresh-IsPlaced n;
    };
    unique = λ i j k v w s t. absurd (fresh-absent n i k v s);
    holding = λ k. absent (λ i v. fresh-absent n i k v);
  }

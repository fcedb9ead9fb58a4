-- ===== src/HashMap/Insert.antt =====
-- `HashMap::Insert` against the partial function that the table stands for.
use panix.Prelude.{
  ℕ, ◌+◌, ◌/◌, ◌≤◌, ◌<◌, ◌≡◌, le→ltb, refl, inl, inr, ◌≢◌, Bool, true, false, Option, none, some,
  arith, Bool-cases, if◌then◌else◌, get_elem?,
}
use native.Mathlib.Numerals.{add-one}
use panix.Prelude.Run.{ok, ◌>>=◌, Returns}
use panix.HashMap.{
  Key, Mark, empty, deleted, tag, is_free, HashMap, fill, first_slot, insert_from, insert_at,
  insert, grow, h2,
}
use panix.HashMap.Slots.{Reach, here, Gap-exists, occupied, occupied-set}
use panix.HashMap.Placed.{
  Stored, IsAbsent, home, Stored-fill_self, Stored-fill_old, Stored-fill_inv, fill-IsPlaced,
  fill-IsUnique,
}
use panix.HashMap.Probe.{Chosen, met, slot, insert_from_total, not-Reach_of_empty}
use panix.HashMap.Valid.{
  IsValid, Holding, present, absent, Models, first_slot-ok, IsAbsent-of_none, Stored-of_some,
  Stored-Reach,
}
use panix.HashMap.Rehash.{IsLoaded, grow-Rehashed}

module _ {ℓ} {K V : Type ℓ} ⦃key : Key K⦄ where
  -- The partial function with one value changed.
  abbrev pub update : (K → Option V) → K → Option V → K → Option V
  update f k r q = if key.same k q then r else f q

  module _ {m : HashMap K V} {f : K → Option V} (models : Models f m) (k : K) where
    valid : IsValid m
    valid = models.valid

    pub insert_slot :
        Returns
          (first_slot (key.hash k) m.capacity
            >>= insert_from (m.capacity + 1) m.arrays m.capacity (key.hash k) k)
          (Chosen m.arrays m.capacity k (home k m.capacity) (home k m.capacity))
    insert_slot =
        let start-lt : home k m.capacity < m.capacity = omega (arith, valid.roomy) in
        let few : occupied m.arrays.mdata < m.capacity =
          omega (arith, valid.roomy, valid.load, valid.counted) in
        let (d, le, gap) =
          Gap-exists m.arrays.mdata m.capacity (home k m.capacity) valid.placed.width few
            start-lt in
        rw (first_slot-ok (key.hash k) m.capacity valid.roomy) (
          insert_from_total m.arrays m.capacity valid.placed k (m.capacity + 1) _ _ d gap
            (omega arith) start-lt here)

    -- The arrays once the chosen slot is filled, for a key that was absent.
    filled : ℕ → V → HashMap K V
    filled j v = record m {
      arrays = fill m.arrays j (key.hash k) k v;
      num_entries = m.num_entries + 1;
    }

    module _ (none_there : IsAbsent m.arrays k) (j : ℕ) (mark : Mark) (v : V)
        (at : get_elem? m.arrays.mdata j ≡ some mark) (free : is_free mark ≡ true)
        (b : j < m.capacity) (r : Reach m.arrays.mdata m.capacity (home k m.capacity) j) where
      filled-IsLoaded : IsLoaded (filled j v)
      unfolding filled
      filled-IsLoaded = record {
        roomy = valid.roomy;
        load = omega (arith, valid.load);
        counted =
            omega (arith, valid.counted, occupied-set m.arrays.mdata j (tag (h2 (key.hash k))));
        placed = fill-IsPlaced m.arrays j k v m.capacity valid.placed b r;
        unique = fill-IsUnique m.arrays j k v m.capacity valid.placed b models.unique none_there;
      }

      kept : (q : K) (o : Option V) → k ≢ q → Holding m.arrays q o → Holding (filled j v).arrays q o
      unfolding filled
      kept q o n (present i w s) =
          present i w
            (Stored-fill_old m.arrays j k v m.capacity valid.placed b mark i q w at free s)
      kept q o n (absent nowhere) = absent λ i w s.
          elim (Stored-fill_inv m.arrays j k v m.capacity valid.placed b i q w s) [
            | inl (_, e, _) ↦ n e
            | inr (_, t) ↦ nowhere i w t
          ]

      filled-Holding : (q : K) → Holding (filled j v).arrays q (update f k (some v) q)
      unfolding filled
      filled-Holding q = elim (Bool-cases (key.same k q)) [
        | inl same ↦
            let e = (key.same_iff k q).0 same in
            rw same
              (rw (← e) (present j v (Stored-fill_self m.arrays j k v m.capacity valid.placed b)))
        | inr other ↦
            rw other (kept q (f q) (λ e. ground (arith, key.same_iff k q)) (models.holding q))
      ]

    -- The run ends in a table that stands for `g`, with one more entry counted.
    abbrev pub Inserted : (K → Option V) → HashMap K V × Bool → Type ℓ
    Inserted g (m', done) = (done ≡ true) × Models g m' × (m'.num_entries ≡ m.num_entries + 1)

    insert_at-Models :
        (v : V)
        → f k ≡ none
        → (o : Option ℕ) → Chosen m.arrays m.capacity k (home k m.capacity) (home k m.capacity) o
        → Returns (insert_at m k v o) (Inserted (update f k (some v)))
    unfolding insert_at filled
    insert_at-Models v e o (met j w s) = absurd (IsAbsent-of_none (models.holding k) e j w s)
    insert_at-Models v e o (slot j mark at free b r beyond) =
        let none_there = IsAbsent-of_none (models.holding k) e in
        let (m', run, h) =
          grow-Rehashed (filled j v) (filled-IsLoaded none_there j mark v at free b r) in
        (
          (m', true),
          rw run,
          (
            refl,
            record {
              valid = h.valid;
              unique = h.unique;
              holding = λ q. h.holding q _ (filled-Holding none_there j mark v at free b r q);
            },
            h.entries,
          ),
        )

    -- Where the table stands for `f` and `f` lacks the key, `Insert` ends without a fault and returns
    -- true; the new table stands for `f` with the key, and counts one more entry.
    pub insert-Models :
        (v : V) → f k ≡ none → Returns (insert m k v) (Inserted (update f k (some v)))
    unfolding insert
    insert-Models v e = let (o, run, chosen) = insert_slot in rw run (insert_at-Models v e o chosen)

    insert_at-present :
        (v w : V) (i : ℕ)
        → Stored m.arrays i k w
        → ((j : ℕ) → get_elem? m.arrays.mdata j ≢ some deleted)
        → (o : Option ℕ) → Chosen m.arrays m.capacity k (home k m.capacity) (home k m.capacity) o
        → insert_at m k v o ≡ ok (m, false)
    unfolding insert_at
    insert_at-present v w i s clean o (met j w' s') = refl
    insert_at-present v w i s clean o (slot j empty at free b r beyond) = absurd (
        not-Reach_of_empty m.arrays m.capacity valid.placed k j i w at s
          (beyond i w s (Stored-Reach valid.placed s)))
    insert_at-present v w i s clean o (slot j deleted at free b r beyond) = absurd (clean j at)
    insert_at-present v w i s clean o (slot j (tag t) at free b r beyond) = cc

    -- Where `f` has the key and the table has no tombstone, `Insert` returns false and changes nothing.
    pub insert-present :
        (v w : V)
        → f k ≡ some w
        → ((j : ℕ) → get_elem? m.arrays.mdata j ≢ some deleted)
        → insert m k v ≡ ok (m, false)
    unfolding insert
    insert-present v w e clean =
        let (i, s) = Stored-of_some w (models.holding k) e in
        let (o, run, chosen) = insert_slot in rw run (insert_at-present v w i s clean o chosen)

    -- Where the key is there, but its first slot is a tombstone and the load allows one more entry,
    -- `Insert` returns true and leaves the key in two slots, with the new value and with the old one.
    pub insert-duplicate :
        (v w : V)
        → f k ≡ some w
        → get_elem? m.arrays.mdata (home k m.capacity) ≡ some deleted
        → m.num_entries + 1 ≤ m.capacity / 3
        → (m' : HashMap K V) × (insert m k v ≡ ok (m', true))
          × ((i : ℕ) × (j : ℕ) × (i ≢ j) × Stored m'.arrays i k v × Stored m'.arrays j k w)
    unfolding insert insert_from insert_at grow
    insert-duplicate v w e tomb room =
        let j = home k m.capacity in
        let b : j < m.capacity = omega (arith, valid.roomy) in
        let (i, s) = Stored-of_some w (models.holding k) e in
        let old =
          Stored-fill_old m.arrays j k v m.capacity valid.placed b deleted i k w tomb refl s in
        (
          record m { arrays = fill m.arrays j (key.hash k) k v; num_entries = m.num_entries + 1 },
          rw (
            first_slot-ok (key.hash k) m.capacity valid.roomy,
            add-one,
            tomb,
            le→ltb (m.capacity / 3) (m.num_entries + 1) room,
          ),
          (
            j,
            i,
            λ one. ground (arith, rw one at tomb, s.marked),
            Stored-fill_self m.arrays j k v m.capacity valid.placed b,
            old,
          ),
        )

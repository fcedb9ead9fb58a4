-- ===== src/HashMap/Rehash.antt =====
-- `HashMap::Rehash`: every entry moves to the larger arrays, and nothing else is there afterwards.
use panix.Prelude.{
  ℕ, zero, suc, ◌+◌, ◌-◌, ◌*◌, ◌/◌, ◌≤◌, ◌<◌, ◌≡◌, refl, ap, inl, inr, true, Option, some, List, [],
  ◌∷◌, arith, ◌==◌, ==_iff, Bool-cases, if◌then◌else◌, length, get_elem?, get_elem?-lt,
  lt_of_get_elem?, drop, ltb,
}
use panix.Prelude.Run.{ok, ◌>>=◌, Returns}
use panix.HashMap.{
  Key, Mark, empty, deleted, tag, is_free, Arrays, HashMap, fresh, fill, first_slot, free_slot,
  entry_at, move_slot, move_slots, rehash, grow, h2,
}
use panix.HashMap.Slots.{Reach, here, Gap-exists, occupied, occupied-fresh, occupied-set}
use panix.HashMap.Placed.{
  Stored, Stored-entry, IsPlaced, IsUnique, IsAbsent, home, fresh-absent, fresh-IsPlaced,
  Stored-fill_self, Stored-fill_inv, Stored-fill_old, fill-IsPlaced, fill-IsUnique,
}
use panix.HashMap.Probe.{free_slot_total}
use panix.HashMap.Valid.{IsValid, Holding, present, absent, first_slot-ok}

drop_cons {ℓ} :
    {A : Type ℓ} (xs : List A) (i : ℕ) {x : A}
    → get_elem? xs i ≡ some x
    → drop i xs ≡ x ∷ drop (suc i) xs
drop_cons [] i h = cc
drop_cons (y ∷ xs) zero h = cc
drop_cons (y ∷ xs) (suc i) h = drop_cons xs i h

drop-length {ℓ} : {A : Type ℓ} (xs : List A) → drop (length xs) xs ≡ []
drop-length [] = refl
drop-length (x ∷ xs) = drop-length xs

module _ {ℓ} {K V : Type ℓ} ⦃key : Key K⦄ where
  -- The table `Insert` hands to the load test: one entry above the bound at most.
  pub record IsLoaded (m : HashMap K V) : Type ℓ where
    pub roomy : 0 < m.capacity
    pub load : m.num_entries * 3 ≤ m.capacity + 3
    pub counted : occupied m.arrays.mdata ≤ m.num_entries
    pub placed : IsPlaced m.arrays m.capacity
    pub unique : IsUnique m.arrays

  module _ (old : Arrays K V) (n capacity : ℕ) (few : n < capacity) (unique : IsUnique old) where
    -- The first `i` slots have moved; what is left fits in the count.
    pub record Moved (i : ℕ) (a : Arrays K V) : Type ℓ where
      placed : IsPlaced a capacity
      count : occupied a.mdata + occupied (drop i old.mdata) ≤ n
      from : (j : ℕ) (k : K) (v : V) → Stored a j k v → (l : ℕ) × (l < i) × Stored old l k v
      to : (l : ℕ) (k : K) (v : V) → l < i → Stored old l k v → (j : ℕ) × Stored a j k v
      once : IsUnique a

    -- An entry below `i + 1` is below `i` where slot `i` is free.
    earlier :
        (i l : ℕ) (k : K) (v : V) (mark : Mark)
        → l < suc i
        → get_elem? old.mdata i ≡ some mark
        → is_free mark ≡ true
        → Stored old l k v
        → l < i
    earlier i l k v mark lt at free s = elim (Bool-cases (l == i)) [
      | inl same ↦ let e = (==_iff l i).0 same in ground (arith, rw (← e) at at, s.marked, free)
      | inr other ↦ ground arith
    ]

    -- A free slot holds no entry, so it moves nothing.
    skip-Moved :
        (i : ℕ) (mark : Mark) (a : Arrays K V)
        → get_elem? old.mdata i ≡ some mark
        → is_free mark ≡ true
        → Moved i a
        → Moved (suc i) a
    unfolding occupied
    skip-Moved i mark a at free moved = record {
      placed = moved.placed;
      count = omega (arith, moved.count, ap occupied (drop_cons old.mdata i at));
      from = λ j k v s. let (l, lt, t) = moved.from j k v s in (l, omega arith, t);
      to = λ l k v lt s. moved.to l k v (earlier i l k v mark lt at free s) s;
      once = moved.once;
    }

    -- An entry that has not moved is not there yet.
    not-Moved :
        (i : ℕ) (a : Arrays K V) (k : K) (v : V) → Moved i a → Stored old i k v → IsAbsent a k
    not-Moved i a k v moved s j w t =
        let (l, lt, u) = moved.from j k w t in let e = unique l i k w v u s in absurd (omega arith)

    move-Moved :
        (i j : ℕ) (k : K) (v : V) (a : Arrays K V)
        → Stored old i k v
        → get_elem? a.mdata j ≡ some empty
        → j < capacity
        → Reach a.mdata capacity (home k capacity) j
        → Moved i a
        → Moved (suc i) (fill a j (key.hash k) k v)
    unfolding occupied
    move-Moved i j k v a s e b r moved = record {
      placed = fill-IsPlaced a j k v capacity moved.placed b r;
      count = omega (
        arith,
        moved.count,
        ap occupied (drop_cons old.mdata i s.marked),
        occupied-set a.mdata j (tag (h2 (key.hash k))),
      );
      from = λ l q w t. elim (Stored-fill_inv a j k v capacity moved.placed b l q w t) [
        | inl (el, ek, ev) ↦ (i, omega arith, rw (← ek, ← ev) s)
        | inr (ne, t') ↦ let (o, lt, u) = moved.from l q w t' in (o, omega arith, u)
      ];
      to = λ l q w lt t. elim (Bool-cases (l == i)) [
        | inl same ↦
            let el = (==_iff l i).0 same in
            let (ek, ev) = Stored-entry s (rw el at t) in
            (j, rw (← ek, ← ev) (Stored-fill_self a j k v capacity moved.placed b))
        | inr other ↦
            let (o, u) = moved.to l q w (ground arith) t in
            (o, Stored-fill_old a j k v capacity moved.placed b empty o q w e refl u)
      ];
      once = fill-IsUnique a j k v capacity moved.placed b moved.once (not-Moved i a k v moved s);
    }

    module _ (old_capacity : ℕ) (p : IsPlaced old old_capacity) where
      -- One round: no fault, and the next slot has moved.
      move_slot-Moved :
          (i : ℕ) (a : Arrays K V)
          → i < length old.mdata
          → Moved i a
          → Returns (move_slot old capacity i a) (Moved (suc i))
      unfolding move_slot
      move_slot-Moved i a b moved =
          let (mark, at) = get_elem?-lt old.mdata i b in rw at (move_mark mark at)
        where
          few_moved : occupied a.mdata < capacity
          few_moved = omega (arith, moved.count)

          move_mark :
              (mark : Mark)
              → get_elem? old.mdata i ≡ some mark
              → Returns
                  (if is_free mark
                    then ok a
                    else (entry_at old i >>= λ e. first_slot (key.hash e.0) capacity >>= λ start.
                        free_slot (capacity + 1) a capacity start >>= λ new_ind.
                        ok (fill a new_ind (key.hash e.0) e.0 e.1)))
                  (Moved (suc i))
          move_mark empty at = (a, refl, skip-Moved i empty a at refl moved)
          move_mark deleted at = (a, refl, skip-Moved i deleted a at refl moved)
          move_mark (tag t) at =
              let (k, v, s, e, r) = p.holds i t at in
              let start-lt : home k capacity < capacity = omega (arith, few) in
              let (d, le, gap) =
                Gap-exists a.mdata capacity (home k capacity) moved.placed.width few_moved
                  start-lt in
              let (j, run, (je, jb, reached)) =
                free_slot_total (capacity + 1) a capacity (home k capacity) (home k capacity) d here
                  gap (omega arith) moved.placed.width start-lt in
              rw (s.entry, first_slot-ok (key.hash k) capacity (omega (arith, few)), run)
                (_, refl, move-Moved i j k v a s je jb reached moved)

      move_slots-Moved :
          (rounds i : ℕ) (a : Arrays K V)
          → i + rounds ≡ length old.mdata
          → Moved i a
          → Returns (move_slots rounds old capacity i a) (Moved (length old.mdata))
      unfolding move_slots
      move_slots-Moved zero i a e moved =
          let done : i ≡ length old.mdata = omega arith in (a, refl, rw done at moved)
      move_slots-Moved (suc rounds) i a e moved =
          let (a', run, moved') = move_slot-Moved i a (omega arith) moved in
          let next : suc i ≡ i + 1 = omega arith in
          rw run (move_slots-Moved rounds (i + 1) a' (omega arith) (rw next at moved'))

  -- Nothing has moved yet.
  start-Moved :
      (old : Arrays K V) (n capacity : ℕ) (few : n < capacity) (unique : IsUnique old)
      → occupied old.mdata ≤ n
      → Moved old n capacity few unique 0 (fresh capacity)
  start-Moved old n capacity few unique count = record {
    placed = fresh-IsPlaced capacity;
    count = omega (arith, occupied-fresh capacity);
    from = λ j k v s. absurd (fresh-absent capacity j k v s);
    to = λ l k v lt s. elim lt [ ];
    once = λ i j k v w s t. absurd (fresh-absent capacity i k v s);
  }

  -- A table whose arrays hold what those of `m` hold, with the load restored.
  pub record Rehashed (m m' : HashMap K V) : Type ℓ where
    pub valid : IsValid m'
    pub unique : IsUnique m'.arrays
    pub entries : m'.num_entries ≡ m.num_entries
    pub holding : (k : K) (r : Option V) → Holding m.arrays k r → Holding m'.arrays k r

  -- All the slots have moved: what the old arrays hold, the new ones hold.
  Moved-Holding :
      (old : Arrays K V) (n capacity : ℕ) (few : n < capacity) (unique : IsUnique old)
      (a : Arrays K V)
      → Moved old n capacity few unique (length old.mdata) a
      → (k : K) (r : Option V) → Holding old k r
      → Holding a k r
  Moved-Holding old n capacity few unique a moved k r (present i v s) =
      let (j, t) = moved.to i k v (lt_of_get_elem? old.mdata i s.marked) s in present j v t
  Moved-Holding old n capacity few unique a moved k r (absent nowhere) =
      absent λ j v t. let (l, lt, s) = moved.from j k v t in nowhere l v s

  -- `Rehash` ends without a fault; the load is restored and every key keeps its value.
  pub rehash-Rehashed :
      (m : HashMap K V)
      → IsLoaded m
      → Returns (rehash m) λ m'. Rehashed m m' × (m'.capacity ≡ 2 * m.capacity + 1)
  unfolding rehash
  rehash-Rehashed m l =
      let capacity : ℕ = (m.capacity + 1) * 2 - 1 in
      let few : m.num_entries < capacity = omega (arith, l.load, l.roomy) in
      let start = start-Moved m.arrays m.num_entries capacity few l.unique l.counted in
      let (a, run, moved) =
        move_slots-Moved m.arrays m.num_entries capacity few l.unique m.capacity l.placed m.capacity
          0 (fresh capacity) (omega (arith, l.placed.width)) start in
      (
        record m { arrays = a; capacity = capacity },
        rw run,
        (
          record {
            valid = record {
              roomy = omega (arith, l.roomy);
              load = omega (arith, l.load, l.roomy);
              counted = omega (arith, moved.count);
              placed = moved.placed;
            };
            unique = moved.once;
            entries = refl;
            holding = Moved-Holding m.arrays m.num_entries capacity few l.unique a moved;
          },
          omega arith,
        ),
      )

  -- The load test at the end of `Insert`.
  pub grow-Rehashed : (m : HashMap K V) → IsLoaded m → Returns (grow m) (Rehashed m)
  unfolding grow
  grow-Rehashed m l = elim (Bool-cases (ltb (m.capacity / 3) m.num_entries)) [
    | inl over ↦ rw over (let (m', run, (r, _)) = rehash-Rehashed m l in (m', run, r))
    | inr under ↦ rw under (
      m,
      refl,
      record {
        valid = record {
          roomy = l.roomy;
          load = ground (arith, under);
          counted = l.counted;
          placed = l.placed;
        };
        unique = l.unique;
        entries = refl;
        holding = λ k r h. h;
      },
    )
  ]

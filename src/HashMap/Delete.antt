-- ===== src/HashMap/Delete.antt =====
-- `HashMap::Delete` against the partial function that the table stands for.
use panix.Prelude.{
  ℕ, ◌<◌, ◌≡◌, refl, sym, ◌∙◌, inl, inr, ◌≢◌, Option, none, some, arith, Bool-cases, get_elem?,
  get_elem?-set_self, get_elem?-set_ne, length-set, lt_of_get_elem?, set,
}
use panix.Prelude.Run.{Returns}
use panix.HashMap.{Key, deleted, tag, Arrays, HashMap, delete_at, delete, is_some}
use panix.HashMap.Slots.{Reach-set, occupied-set_old}
use panix.HashMap.Placed.{Stored, Stored-entry, IsPlaced, home}
use panix.HashMap.Probe.{Found, at_slot, missing}
use panix.HashMap.Valid.{
  Holding, present, absent, Models, find_total, Holding-unique, IsAbsent-of_missing,
}
use panix.HashMap.Insert.{update}

module _ {ℓ} {K V : Type ℓ} ⦃key : Key K⦄ where
  module _ (a : Arrays K V) (capacity j : ℕ) (p : IsPlaced a capacity) (b : j < capacity) where
    -- The arrays once slot `j` is a tombstone.
    bury : Arrays K V
    bury = record a { mdata = set a.mdata j deleted }

    bury-ne : (i t : ℕ) → get_elem? bury.mdata i ≡ some (tag t) → j ≢ i
    unfolding bury
    bury-ne i t h e =
        ground (arith, rw (← e) at h, get_elem?-set_self a.mdata j deleted (rw p.width b))

    Stored-bury : (i : ℕ) (q : K) (w : V) → j ≢ i → Stored a i q w → Stored bury i q w
    unfolding bury
    Stored-bury i q w n s = record {
      marked = get_elem?-set_ne a.mdata j i deleted n ∙ s.marked;
      entry = s.entry;
    }

    Stored-bury_inv : (i : ℕ) (q : K) (w : V) → Stored bury i q w → (j ≢ i) × Stored a i q w
    unfolding bury
    Stored-bury_inv i q w s =
        let n = bury-ne i _ s.marked in
        (
          n,
          record {
            marked = sym (get_elem?-set_ne a.mdata j i deleted n) ∙ s.marked;
            entry = s.entry;
          },
        )

    bury-IsPlaced : IsPlaced bury capacity
    unfolding bury
    bury-IsPlaced = record {
      width = length-set a.mdata j deleted ∙ p.width;
      map_width = p.map_width;
      holds = λ i t h.
          let n = bury-ne i t h in
          let (q, w, s, e, r) = p.holds i t (sym (get_elem?-set_ne a.mdata j i deleted n) ∙ h) in
          (q, w, Stored-bury i q w n s, e, Reach-set j deleted refl r);
    }

  module _ {m : HashMap K V} {f : K → Option V} (models : Models f m) (k : K) where
    -- Another key keeps what it has.
    kept-bury :
        (j : ℕ) (v : V) (s : Stored m.arrays j k v) (b : j < m.capacity) (q : K)
        → k ≢ q
        → (o : Option V) → Holding m.arrays q o
        → Holding (bury m.arrays m.capacity j models.valid.placed b) q o
    kept-bury j v s b q n o (present i w t) =
        let apart : j ≢ i = λ e. n (Stored-entry s (rw (← e) at t)).0 in
        present i w (Stored-bury m.arrays m.capacity j models.valid.placed b i q w apart t)
    kept-bury j v s b q n o (absent nowhere) =
        absent λ i w t.
          nowhere i w (Stored-bury_inv m.arrays m.capacity j models.valid.placed b i q w t).1

    buried-Holding :
        (j : ℕ) (v : V) (s : Stored m.arrays j k v) (b : j < m.capacity) (q : K)
        → Holding (bury m.arrays m.capacity j models.valid.placed b) q (update f k none q)
    unfolding bury
    buried-Holding j v s b q = elim (Bool-cases (key.same k q)) [
      | inl same ↦ rw same (
          absent λ i w t.
            let (n, u) = Stored-bury_inv m.arrays m.capacity j models.valid.placed b i q w t in
            n (models.unique j i k v w s (rw ((key.same_iff k q).0 same) u)))
      | inr other ↦
          rw other
            (kept-bury j v s b q (λ e. ground (arith, key.same_iff k q)) (f q) (models.holding q))
    ]

    delete_at-Models :
        (o : Option ℕ)
        → Found m.arrays m.capacity k (home k m.capacity) o
        → Returns (delete_at m o) λ (m', done).
          (done ≡ is_some (f k)) × Models (update f k none) m' × (m'.num_entries ≡ m.num_entries)
    unfolding delete_at bury
    delete_at-Models o (at_slot j v s) =
        let e = Holding-unique models.unique (present j v s) (models.holding k) in
        let b : j < m.capacity =
          rw models.valid.placed.width at (lt_of_get_elem? m.arrays.mdata j s.marked) in
        (
          _,
          refl,
          (
            rw (← e),
            record {
              valid = record {
                roomy = models.valid.roomy;
                load = models.valid.load;
                counted = omega (
                  arith,
                  models.valid.counted,
                  occupied-set_old m.arrays.mdata j deleted _ s.marked refl,
                );
                placed = bury-IsPlaced m.arrays m.capacity j models.valid.placed b;
              };
              unique = λ x y q u w t t'.
                  models.unique x y q u w
                    (Stored-bury_inv m.arrays m.capacity j models.valid.placed b x q u t).1
                    (Stored-bury_inv m.arrays m.capacity j models.valid.placed b y q w t').1;
              holding = buried-Holding j v s b;
            },
            refl,
          ),
        )
    delete_at-Models o (missing nowhere) =
        let gone = IsAbsent-of_missing models.valid k nowhere in
        let e = Holding-unique models.unique (absent gone) (models.holding k) in
        (
          _,
          refl,
          (
            rw (← e),
            record {
              valid = models.valid;
              unique = models.unique;
              holding = λ q. elim (Bool-cases (key.same k q)) [
                | inl same ↦ rw same (absent λ i w s. gone i w (rw ((key.same_iff k q).0 same) s))
                | inr other ↦ rw other (models.holding q)
              ];
            },
            refl,
          ),
        )

    -- On a table that stands for `f`, `Delete` ends without a fault and returns whether `f` has the key;
    -- the new table stands for `f` without that key, and counts as many entries as before.
    pub delete-Models : Returns (delete m k) λ (m', done).
        (done ≡ is_some (f k)) × Models (update f k none) m' × (m'.num_entries ≡ m.num_entries)
    unfolding delete
    delete-Models =
        let (o, run, found) = find_total models.valid k in rw run (delete_at-Models o found)

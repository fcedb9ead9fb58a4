-- ===== src/HashMap/Probe.antt =====
-- The probe loops of ds/hash_map.h: they end, without a fault, and what they return.
use panix.Prelude.{
  ℕ, zero, suc, ◌+◌, ◌%◌, ◌<◌, ◌≡◌, refl, ◌∙◌, ap, ◌⊎◌, inl, inr, true, false, Option, none, some,
  arith, ◌==◌, Bool-cases, length, get_elem?, get_elem?-lt, lt→ltb,
}
use panix.Prelude.Run.{ok, Returns}
use panix.HashMap.{
  Key, Mark, empty, deleted, tag, is_empty, is_free, Arrays, hit, find_from, insert_from, free_slot,
  h2,
}
use panix.HashMap.Slots.{Reach, Gap, stop, more, Reach-snoc, empty_of_is_empty, Reach-cases}
use panix.HashMap.Placed.{Stored, Stored-entry, IsPlaced}

-- An index below the capacity stays there.
pub next-lt : (i capacity : ℕ) → i < capacity → (i + 1) % capacity < capacity
next-lt i capacity h = omega arith

not_empty_of_taken : (mark : Mark) → is_free mark ≡ false → is_empty mark ≡ false
not_empty_of_taken empty h = cc
not_empty_of_taken deleted h = refl
not_empty_of_taken (tag t) h = refl

module _ {ℓ} {K V : Type ℓ} where
  -- `free_slot` ends at an EMPTY slot that the probe sequence reaches.
  pub free_slot_total :
      (fuel : ℕ) (a : Arrays K V) (capacity i start d : ℕ)
      → Reach a.mdata capacity start i
      → Gap a.mdata capacity i d
      → d < fuel
      → length a.mdata ≡ capacity
      → i < capacity
      → Returns
          (free_slot fuel a capacity i)
          λ j. (get_elem? a.mdata j ≡ some empty) × (j < capacity) × Reach a.mdata capacity start j
  unfolding free_slot
  free_slot_total zero a capacity i start d r g f w b = elim f [ ]
  free_slot_total (suc fuel) a capacity i start d r (stop e) f w b = (i, rw e, (e, b, r))
  free_slot_total (suc fuel) a capacity i start d r (more {d = d'} g) f w b =
      let (mark, at) = get_elem?-lt a.mdata i (omega arith) in
      elim (Bool-cases (is_empty mark)) [
        | inl done ↦ (i, rw (at, done), (at ∙ ap some (empty_of_is_empty mark done), b, r))
        | inr full ↦
            rw (at, full)
              (free_slot_total fuel a capacity ((i + 1) % capacity) start d'
                (Reach-snoc mark r at full) g (omega arith) w (next-lt i capacity b))
      ]

module _ {ℓ} {K V : Type ℓ} ⦃key : Key K⦄ where
  -- What `Find` returns for a key, from slot `i` on.
  pub data Found (a : Arrays K V) (capacity : ℕ) (k : K) (i : ℕ) : Option ℕ → Type ℓ where
    at_slot : (j : ℕ) (v : V) → Stored a j k v → Found a capacity k i (some j)
    missing :
        ((j : ℕ) (v : V) → Stored a j k v → ¬ (Reach a.mdata capacity i j))
        → Found a capacity k i none

  -- What the loop of `Insert` returns for a key, from slot `i` on, with `start` its first slot.
  pub data Chosen (a : Arrays K V) (capacity : ℕ) (k : K) (start i : ℕ) : Option ℕ → Type ℓ where
    met : (j : ℕ) (v : V) → Stored a j k v → Chosen a capacity k start i none
    slot :
        (j : ℕ) (mark : Mark)
        → get_elem? a.mdata j ≡ some mark
        → is_free mark ≡ true
        → j < capacity
        → Reach a.mdata capacity start j
        → ((l : ℕ) (v : V)
            → Stored a l k v
            → Reach a.mdata capacity i l
            → Reach a.mdata capacity j l)
        → Chosen a capacity k start i (some j)

  module _ (a : Arrays K V) (capacity : ℕ) (p : IsPlaced a capacity) (k : K) where
    -- The test of a slot against the key does not fault, and says whether the key is there.
    hit_cases :
        (i : ℕ) (mark : Mark)
        → get_elem? a.mdata i ≡ some mark
        → ((hit a (key.hash k) k i mark ≡ ok true) × ((v : V) × Stored a i k v))
          ⊎ ((hit a (key.hash k) k i mark ≡ ok false) × ((v : V) → ¬ (Stored a i k v)))
    unfolding hit
    hit_cases i empty h = inr (refl, λ v s. ground (arith, s.marked, h))
    hit_cases i deleted h = inr (refl, λ v s. ground (arith, s.marked, h))
    hit_cases i (tag t) h =
        let (q, v, s, e, r) = p.holds i t h in
        elim (Bool-cases (h2 (key.hash k) == t)) [
          | inr differ ↦ inr (rw differ, λ w s'. ground (arith, s'.marked, h))
          | inl agree ↦ elim (Bool-cases (key.same k q)) [
            | inl same ↦ inl (rw (agree, s.entry, same), (v, rw ((key.same_iff k q).0 same) s))
            | inr other ↦ inr (
              rw (agree, s.entry, other),
              λ w s'. ground (arith, key.same_iff k q, Stored-entry s' s),
            )
          ]
        ]

    -- Nothing is stored past an EMPTY slot.
    pub not-Reach_of_empty :
        (i j : ℕ) (v : V)
        → get_elem? a.mdata i ≡ some empty
        → Stored a j k v
        → ¬ (Reach a.mdata capacity i j)
    not-Reach_of_empty i j v e s r = elim (Reach-cases r) [
      | inl same ↦ ground (arith, rw same at e, s.marked)
      | inr (mark, at, full, rest) ↦ ground (arith, at, e)
    ]

    -- What is stored beyond slot `i`, which does not hold the key, is beyond the next slot.
    Reach-next :
        (i j : ℕ) (v : V)
        → ((w : V) → ¬ (Stored a i k w))
        → Stored a j k v
        → Reach a.mdata capacity i j
        → Reach a.mdata capacity ((i + 1) % capacity) j
    Reach-next i j v no_key s r = elim (Reach-cases r) [
      | inl same ↦ absurd (no_key v (rw same s))
      | inr (mark, at, full, rest) ↦ rest
    ]

    Found-next :
        (i : ℕ) (r : Option ℕ)
        → ((w : V) → ¬ (Stored a i k w))
        → Found a capacity k ((i + 1) % capacity) r
        → Found a capacity k i r
    Found-next i r no_key (at_slot j v s) = at_slot j v s
    Found-next i r no_key (missing none_there) =
        missing λ j v s r. none_there j v s (Reach-next i j v no_key s r)

    Chosen-next :
        (start i : ℕ) (r : Option ℕ)
        → ((w : V) → ¬ (Stored a i k w))
        → Chosen a capacity k start ((i + 1) % capacity) r
        → Chosen a capacity k start i r
    Chosen-next start i r no_key (met j v s) = met j v s
    Chosen-next start i r no_key (slot j mark at free b reached beyond) =
        slot j mark at free b reached λ l v s r. beyond l v s (Reach-next i l v no_key s r)

    -- With an EMPTY slot within `fuel` steps the loop of `Find` ends without a fault.
    pub find_from_total :
        (fuel i d : ℕ)
        → Gap a.mdata capacity i d
        → d < fuel
        → i < capacity
        → Returns (find_from fuel a capacity (key.hash k) k i) (Found a capacity k i)
    unfolding find_from
    find_from_total zero i d g f b = elim f [ ]
    find_from_total (suc fuel) i d (stop e) f b =
        rw (lt→ltb i capacity b, e) (none, refl, missing λ j v s. not-Reach_of_empty i j v e s)
    find_from_total (suc fuel) i d (more {d = d'} g) f b =
        let (mark, at) = get_elem?-lt a.mdata i (rw p.width b) in
        rw (lt→ltb i capacity b, at)
          (elim (Bool-cases (is_empty mark)) [
            | inl done ↦
                let e = at ∙ ap some (empty_of_is_empty mark done) in
                rw done (none, refl, missing λ j v s. not-Reach_of_empty i j v e s)
            | inr full ↦ rw full (elim (hit_cases i mark at) [
              | inl (h, (v, s)) ↦ rw h (some i, refl, at_slot i v s)
              | inr (h, no_key) ↦ rw h (
                  let (r, run, found) =
                    find_from_total fuel ((i + 1) % capacity) d' g (omega arith)
                      (next-lt i capacity b) in
                  (r, run, Found-next i r no_key found))
            ])
          ])

    -- So does the loop of `Insert`.
    pub insert_from_total :
        (fuel start i d : ℕ)
        → Gap a.mdata capacity i d
        → d < fuel
        → i < capacity
        → Reach a.mdata capacity start i
        → Returns (insert_from fuel a capacity (key.hash k) k i) (Chosen a capacity k start i)
    unfolding insert_from
    insert_from_total zero start i d g f b r = elim f [ ]
    insert_from_total (suc fuel) start i d (stop e) f b r =
        rw e (some i, refl, slot i empty e refl b r λ l v s r'. r')
    insert_from_total (suc fuel) start i d (more {d = d'} g) f b r =
        let (mark, at) = get_elem?-lt a.mdata i (rw p.width b) in
        rw at (elim (Bool-cases (is_free mark)) [
          | inl free ↦ rw free (some i, refl, slot i mark at free b r λ l v s r'. r')
          | inr taken ↦ rw taken (elim (hit_cases i mark at) [
            | inl (h, (v, s)) ↦ rw h (none, refl, met i v s)
            | inr (h, no_key) ↦ rw h (
                let (o, run, chosen) =
                  insert_from_total fuel start ((i + 1) % capacity) d' g (omega arith)
                    (next-lt i capacity b) (Reach-snoc mark r at (not_empty_of_taken mark taken)) in
                (o, run, Chosen-next start i o no_key chosen))
          ])
        ])

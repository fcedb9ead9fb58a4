-- ===== src/HashMap/Placed.antt =====
-- The invariant of the arrays of ds/hash_map.h, and what filling a slot does to the entries stored.
use panix.Prelude.{
  ℕ, ◌%◌, ◌<◌, ◌≡◌, refl, sym, ◌∙◌, ◌⊎◌, inl, inr, ◌≢◌, Option, none, some, arith, ◌==◌, ==_iff,
  Bool-cases, length, get_elem?, replicate, length-set, length-replicate, get_elem?-replicate,
  get_elem?-set_ne, get_elem?-set_self, lt_of_get_elem?,
}
use panix.Prelude.{true}
use panix.HashMap.{Mark, is_free, Key, empty, tag, Arrays, fresh, fill, h1, h2}
use panix.HashMap.Slots.{Reach, Reach-set}

abbrev pub home {ℓ} : {K : Type ℓ} ⦃key : Key K⦄ → K → ℕ → ℕ
home ⦃key⦄ k capacity = h1 (key.hash k) % capacity

module _ {ℓ} {K V : Type ℓ} ⦃key : Key K⦄ where
  -- Slot `i` holds `k` and `v`: the mark is the tag of the key's hash and the entry is there.
  pub record Stored (a : Arrays K V) (i : ℕ) (k : K) (v : V) : Type ℓ where
    pub marked : get_elem? a.mdata i ≡ some (tag (h2 (key.hash k)))
    pub entry : get_elem? a.map i ≡ some (some (k, v))

  -- Each tagged slot holds an entry that carries that tag and that its probe sequence reaches.
  pub record IsPlaced (a : Arrays K V) (capacity : ℕ) : Type ℓ where
    pub width : length a.mdata ≡ capacity
    pub map_width : length a.map ≡ capacity
    pub holds :
        (i t : ℕ)
        → get_elem? a.mdata i ≡ some (tag t)
        → (k : K) × (v : V) × Stored a i k v
          × (t ≡ h2 (key.hash k))
          × Reach a.mdata capacity (home k capacity) i

  -- No two slots hold one key.
  abbrev pub IsUnique : Arrays K V → Type ℓ
  IsUnique a = (i j : ℕ) (k : K) (v w : V) → Stored a i k v → Stored a j k w → i ≡ j

  abbrev pub IsAbsent : Arrays K V → K → Type ℓ
  IsAbsent a k = (i : ℕ) (v : V) → ¬ (Stored a i k v)

  pub fresh-absent : (n i : ℕ) (k : K) (v : V) → ¬ (Stored (fresh n) i k v)
  fresh-absent n i k v s =
      let lt = lt_of_get_elem? (replicate n (let o : Option (K × V) = none in o)) i s.entry in
      let e =
        get_elem?-replicate n i (let o : Option (K × V) = none in o) (rw length-replicate at lt) in
      ground (arith, s.entry, e)

  pub Stored-entry :
      {a : Arrays K V} {i : ℕ} {k q : K} {v w : V}
      → Stored a i k v
      → Stored a i q w
      → (k ≡ q) × (v ≡ w)
  Stored-entry s t = ground (arith, s.entry, t.entry)

  pub fresh-IsPlaced : (n : ℕ) → IsPlaced (fresh n) n
  fresh-IsPlaced n = record {
    width = length-replicate n empty;
    map_width = length-replicate n none;
    holds = λ i t h.
        let lt = lt_of_get_elem? (replicate n empty) i h in
        let e = get_elem?-replicate n i empty (rw length-replicate at lt) in
        absurd (ground (arith, h, e));
  }

  module _ (a : Arrays K V) (i : ℕ) (k : K) (v : V) (capacity : ℕ) (p : IsPlaced a capacity)
      (bound : i < capacity) where
    filled : Arrays K V
    filled = fill a i (key.hash k) k v

    pub Stored-fill_self : Stored (fill a i (key.hash k) k v) i k v
    Stored-fill_self = record {
      marked = get_elem?-set_self a.mdata i _ (rw p.width bound);
      entry = get_elem?-set_self a.map i _ (rw p.map_width bound);
    }

    pub Stored-fill_ne :
        (j : ℕ) (q : K) (w : V) → i ≢ j → Stored a j q w → Stored (fill a i (key.hash k) k v) j q w
    Stored-fill_ne j q w n s = record {
      marked = get_elem?-set_ne a.mdata i j _ n ∙ s.marked;
      entry = get_elem?-set_ne a.map i j _ n ∙ s.entry;
    }

    -- What is stored after the write was written, or was stored before.
    pub Stored-fill_inv :
        (j : ℕ) (q : K) (w : V)
        → Stored (fill a i (key.hash k) k v) j q w
        → ((i ≡ j) × (k ≡ q) × (v ≡ w)) ⊎ ((i ≢ j) × Stored a j q w)
    Stored-fill_inv j q w s = elim (Bool-cases (i == j)) [
      | inl same ↦
          let e = (==_iff i j).0 same in
          let (ek, ev) = Stored-entry Stored-fill_self (rw (← e) at s) in inl (e, ek, ev)
      | inr other ↦
          let n : i ≢ j = ground arith in
          inr (
            n,
            record {
              marked = sym (get_elem?-set_ne a.mdata i j _ n) ∙ s.marked;
              entry = sym (get_elem?-set_ne a.map i j _ n) ∙ s.entry;
            },
          )
    ]

    pub fill-IsPlaced :
        Reach a.mdata capacity (home k capacity) i → IsPlaced (fill a i (key.hash k) k v) capacity
    fill-IsPlaced r = record {
      width = length-set a.mdata i _ ∙ p.width;
      map_width = length-set a.map i _ ∙ p.map_width;
      holds = λ j t h. elim (Bool-cases (i == j)) [
        | inl same ↦
            let e = (==_iff i j).0 same in
            let at = get_elem?-set_self a.mdata i (tag (h2 (key.hash k))) (rw p.width bound) in
            (
              k,
              v,
              rw (← e) Stored-fill_self,
              ground (arith, h, at, e),
              rw (← e) (Reach-set i _ refl r),
            )
        | inr other ↦
            let n : i ≢ j = ground arith in
            let (q, w, s, tagged, reached) =
              p.holds j t (sym (get_elem?-set_ne a.mdata i j _ n) ∙ h) in
            (q, w, Stored-fill_ne j q w n s, tagged, Reach-set i _ refl reached)
      ];
    }

    -- Filling a free slot overwrites no entry.
    pub Stored-fill_old :
        (mark : Mark) (j : ℕ) (q : K) (w : V)
        → get_elem? a.mdata i ≡ some mark
        → is_free mark ≡ true
        → Stored a j q w
        → Stored (fill a i (key.hash k) k v) j q w
    Stored-fill_old mark j q w at free s =
        Stored-fill_ne j q w (λ e. ground (arith, rw e at at, s.marked, free)) s

    -- A key that was absent is in one slot afterwards.
    pub fill-IsUnique : IsUnique a → IsAbsent a k → IsUnique (fill a i (key.hash k) k v)
    fill-IsUnique unique absent x y q u w s t = elim (Stored-fill_inv x q u s) [
      | inl (ex, kx, vx) ↦ elim (Stored-fill_inv y q w t) [
        | inl (ey, ky, vy) ↦ sym ex ∙ ey
        | inr (n, t') ↦ absurd (absent y w (rw kx t'))
      ]
      | inr (n, s') ↦ elim (Stored-fill_inv y q w t) [
        | inl (ey, ky, vy) ↦ absurd (absent x u (rw ky s'))
        | inr (n', t') ↦ unique x y q u w s' t'
      ]
    ]

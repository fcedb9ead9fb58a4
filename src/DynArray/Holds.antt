-- ===== src/DynArray/Holds.antt =====
-- The list of elements that a `ds::DynArray` stands for, and the members that read it.
use panix.Prelude.{
  ℕ, zero, suc, ◌+◌, ◌-◌, ◌%◌, ◌^◌, ◌<◌, ◌≤◌, ◌≡◌, refl, ap, ◌∙◌, none, List, [], ◌∷◌, ◌++◌, length,
  get_elem?, arith,
}
use panix.Prelude.Int.{ℤ, pos, negsuc}
use panix.Prelude.Run.{fault, expect, out_of_bounds}
use panix.DynArray.{DynArray, Block, null, live, read, subscript, lookup, back}

-- The element that an index names: a negative one counts from the end.
abbrev pub position : ℕ → ℤ → ℕ
position n (pos i) = i
position n (negsuc k) = n - (k + 1)

abbrev pub InRange : ℕ → ℤ → Type 0
InRange n (pos i) = i < n
InRange n (negsuc k) = k < n

module _ {ℓ} {T : Type ℓ} where
  -- The elements are the first of the allocation, which has room for `capacity` of them.
  pub data Contents : Block T → ℕ → List T → Type ℓ where
    nothing : Contents null 0 []
    allocated :
        (ys els spare : List T) (capacity : ℕ)
        → ys ≡ els ++ spare
        → length ys ≡ capacity
        → Contents (live ys) capacity els

  pub record Holds (d : DynArray T) (els : List T) : Type ℓ where
    pub used : d.slots_used ≡ length els
    pub block : Contents d.arr d.capacity els

  pub get_elem?-append :
      (xs ys : List T) (i : ℕ) → i < length xs → get_elem? (xs ++ ys) i ≡ get_elem? xs i
  get_elem?-append [] ys i h = absurd (omega arith)
  get_elem?-append (x ∷ xs) ys zero h = refl
  get_elem?-append (x ∷ xs) ys (suc i) h = get_elem?-append xs ys i (omega arith)

  pub read-Contents :
      {b : Block T} {capacity : ℕ} {els : List T}
      → Contents b capacity els
      → (i : ℕ) → i < length els
      → read b i ≡ expect out_of_bounds (get_elem? els i)
  read-Contents nothing i h = absurd (omega arith)
  read-Contents (allocated ys els spare capacity e len) i h =
      ap (λ t. expect out_of_bounds (get_elem? t i)) e
      ∙ ap (expect out_of_bounds) (get_elem?-append els spare i h)

  -- An index from -size up to below the size is read by `operator[]`, from the end where it is negative.
  pub subscript-Holds :
      (d : DynArray T) (els : List T) (i : ℤ)
      → Holds d els
      → length els < 2 ^ 64
      → InRange (length els) i
      → subscript d i ≡ expect out_of_bounds (get_elem? els (position (length els) i))
  unfolding subscript
  subscript-Holds d els (pos i) h small lt = read-Contents h.block i lt
  subscript-Holds d els (negsuc k) h small lt =
      let place : (d.slots_used + 2 ^ 64 - (k + 1)) % 2 ^ 64 ≡ length els - (k + 1) =
        omega (arith, h.used) in
      rw place (read-Contents h.block (length els - (k + 1)) (omega arith))

  -- `Back` of an array that is not empty is its last element.
  pub back-Holds :
      (d : DynArray T) (els : List T)
      → Holds d els
      → length els < 2 ^ 64
      → 0 < length els
      → back d ≡ expect out_of_bounds (get_elem? els (length els - 1))
  unfolding back
  back-Holds d els h small lt =
      let place : (d.slots_used + 2 ^ 64 - 1) % 2 ^ 64 ≡ length els - 1 = omega (arith, h.used) in
      rw place (read-Contents h.block (length els - 1) (omega arith))

  get_elem?_over : (xs : List T) (i : ℕ) → length xs ≤ i → get_elem? xs i ≡ none
  get_elem?_over [] i h = refl
  get_elem?_over (x ∷ xs) zero h = absurd (omega arith)
  get_elem?_over (x ∷ xs) (suc i) h = get_elem?_over xs i (omega arith)

  read_over :
      {b : Block T} {capacity : ℕ} {els : List T}
      → Contents b capacity els
      → (i : ℕ) → 0 < length els
      → capacity ≤ i
      → read b i ≡ fault out_of_bounds
  read_over nothing i lt h = absurd (omega arith)
  read_over (allocated ys els spare capacity e len) i lt h =
      ap (expect out_of_bounds) (get_elem?_over ys i (omega (arith, len)))

  -- In a full array, `Lookup` with a negative index reads beyond the allocation.
  pub lookup_negative :
      (d : DynArray T) (els : List T) (k : ℕ)
      → Holds d els
      → 0 < length els
      → length els + k + 1 < 2 ^ 64
      → d.capacity ≡ length els
      → lookup d (negsuc k) ≡ fault out_of_bounds
  unfolding lookup
  lookup_negative d els k h some_used small full =
      read_over h.block ((d.slots_used + (k + 1)) % 2 ^ 64) some_used (omega (arith, h.used))

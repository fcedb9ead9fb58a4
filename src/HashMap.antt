-- ===== src/HashMap.antt =====
-- ds/hash_map.h: the open-addressing table `ds::HashMap` with linear probing and tombstones.
-- The two parallel arrays `mdata_` and `map_` are `Arrays`; a slot of `map_` that holds no object is
-- `none`. Every access of an array is checked, and a loop runs on fuel. The key's `operator==` and the
-- `hasher` parameter are the interface `Key`; `KernelAllocator` is taken to return the memory asked for.
pub mod Murmur
pub mod Slots
pub mod Placed
pub mod Probe
pub mod Valid
pub mod Rehash
pub mod Insert
pub mod Delete
use panix.Prelude.{
  ℕ, zero, suc, ◌+◌, ◌-◌, ◌*◌, ◌/◌, ◌%◌, ◌^◌, ◌≡◌, ◌↔◌, Bool, true, false, Option, none, some, List,
  ltb, ◌==◌, if◌then◌else◌, length, get_elem?, set, replicate,
}
use panix.Prelude.Run.{
  Run, ok, fault, out_of_fuel, ◌>>=◌, expect, division_by_zero, out_of_bounds, uninitialised,
}

-- `hasher::Hash` returns a `uint32_t`.
pub record Key {ℓ} (K : Type ℓ) : Type ℓ where
  pub same : K → K → Bool
  pub hash : K → ℕ
  pub same_iff : (a b : K) → (same a b ≡ true) ↔ (a ≡ b)

-- A byte of `mdata_`: EMPTY (-128), DELETED (-2), or the seven low bits of a hash.
pub data Mark : Type 0 where
  empty deleted : Mark
  tag : ℕ → Mark

abbrev pub is_empty : Mark → Bool
is_empty empty = true
is_empty deleted = false
is_empty (tag t) = false

-- `mdata_[ind] == EMPTY || mdata_[ind] == DELETED`
abbrev pub is_free : Mark → Bool
is_free empty = true
is_free deleted = true
is_free (tag t) = false

pub record Arrays {ℓ} (K V : Type ℓ) : Type ℓ where
  pub mdata : List Mark
  pub map : List (Option (K × V))

pub record HashMap {ℓ} (K V : Type ℓ) : Type ℓ where
  pub arrays : Arrays K V
  pub capacity : ℕ
  pub num_entries : ℕ

abbrev pub inv_load_factor : ℕ
inv_load_factor = 3

abbrev pub h1 : ℕ → ℕ
h1 hash = hash / 2 ^ 7

abbrev pub h2 : ℕ → ℕ
h2 hash = hash % 2 ^ 7

-- `H1(hash) % capacity_`
unfoldable pub first_slot : ℕ → ℕ → Run ℕ
first_slot hash zero = fault division_by_zero
first_slot hash capacity = ok (h1 hash % capacity)

abbrev pub is_some {ℓ} : {A : Type ℓ} → Option A → Bool
is_some none = false
is_some (some a) = true

module _ {ℓ} {K V : Type ℓ} where
  -- Two fresh allocations, the marks all EMPTY.
  abbrev pub fresh : ℕ → Arrays K V
  fresh n = record { mdata = replicate n empty; map = replicate n none }

  unfoldable pub new : ℕ → HashMap K V
  new initial_size = record {
    arrays = fresh initial_size;
    capacity = initial_size;
    num_entries = 0;
  }

  abbrev pub mark_at : Arrays K V → ℕ → Run Mark
  mark_at a ind = expect out_of_bounds (get_elem? a.mdata ind)

  abbrev pub entry_at : Arrays K V → ℕ → Run (K × V)
  entry_at a ind = expect out_of_bounds (get_elem? a.map ind) >>= expect uninitialised

  -- The three writes that fill a slot.
  abbrev pub fill : Arrays K V → ℕ → ℕ → K → V → Arrays K V
  fill a ind hash key val = record {
    mdata = set a.mdata ind (tag (h2 hash));
    map = set a.map ind (some (key, val));
  }

  -- `for(; new_mdata[new_ind] != EMPTY; new_ind = (new_ind + 1) % capacity_);`
  unfoldable pub free_slot : ℕ → Arrays K V → ℕ → ℕ → Run ℕ
  free_slot zero a capacity ind = out_of_fuel
  free_slot (suc fuel) a capacity ind =
      let next = free_slot fuel a capacity ((ind + 1) % capacity) in
      mark_at a ind >>= λ mark. if is_empty mark then ok ind else next

module _ {ℓ} {K V : Type ℓ} ⦃key : Key K⦄ where
  -- `H2(hash) == mdata_[ind] && key == map_[ind].key_`, the slot read only if the tags agree
  unfoldable pub hit : Arrays K V → ℕ → K → ℕ → Mark → Run Bool
  hit a hash k ind empty = ok false
  hit a hash k ind deleted = ok false
  hit a hash k ind (tag t) =
      if h2 hash == t then (entry_at a ind >>= λ e. ok (key.same k e.0)) else ok false

  -- The loop of `Find`; -1 is `none`.
  unfoldable pub find_from : ℕ → Arrays K V → ℕ → ℕ → K → ℕ → Run (Option ℕ)
  find_from zero a capacity hash k ind = out_of_fuel
  find_from (suc fuel) a capacity hash k ind =
      let next = find_from fuel a capacity hash k ((ind + 1) % capacity) in
      if ltb ind capacity
      then (mark_at a ind >>= λ mark.
          if is_empty mark
          then ok none
          else (hit a hash k ind mark >>= λ found. if found then ok (some ind) else next))
      else ok none

  unfoldable pub find : HashMap K V → K → Run (Option ℕ)
  find m k =
      first_slot (key.hash k) m.capacity
      >>= find_from (m.capacity + 1) m.arrays m.capacity (key.hash k) k

  -- The loop of `Insert`: `none` where the key is met, else the first slot that is EMPTY or DELETED.
  unfoldable pub insert_from : ℕ → Arrays K V → ℕ → ℕ → K → ℕ → Run (Option ℕ)
  insert_from zero a capacity hash k ind = out_of_fuel
  insert_from (suc fuel) a capacity hash k ind =
      let next = insert_from fuel a capacity hash k ((ind + 1) % capacity) in
      mark_at a ind >>= λ mark.
      if is_free mark
      then ok (some ind)
      else (hit a hash k ind mark >>= λ found. if found then ok none else next)

  -- One round of the second loop of `Rehash`.
  unfoldable pub move_slot : Arrays K V → ℕ → ℕ → Arrays K V → Run (Arrays K V)
  move_slot old capacity i new_arrays = mark_at old i >>= λ mark.
      if is_free mark
      then ok new_arrays
      else (entry_at old i >>= λ e. first_slot (key.hash e.0) capacity >>= λ start.
          free_slot (capacity + 1) new_arrays capacity start >>= λ new_ind.
          ok (fill new_arrays new_ind (key.hash e.0) e.0 e.1))

  -- `rounds` of the loop are left.
  unfoldable pub move_slots : ℕ → Arrays K V → ℕ → ℕ → Arrays K V → Run (Arrays K V)
  move_slots zero old capacity i new_arrays = ok new_arrays
  move_slots (suc rounds) old capacity i new_arrays =
      move_slot old capacity i new_arrays >>= move_slots rounds old capacity (i + 1)

  unfoldable pub rehash : HashMap K V → Run (HashMap K V)
  rehash m =
      let capacity = (m.capacity + 1) * 2 - 1 in
      move_slots m.capacity m.arrays capacity 0 (fresh capacity) >>= λ arrays.
      ok (record m { arrays = arrays; capacity = capacity })

  -- The end of `Insert`, once a slot is filled.
  unfoldable pub grow : HashMap K V → Run (HashMap K V)
  grow m = if ltb (m.capacity / inv_load_factor) m.num_entries then rehash m else ok m

  -- What `Insert` does with the slot that its loop ends at.
  unfoldable pub insert_at : HashMap K V → K → V → Option ℕ → Run (HashMap K V × Bool)
  insert_at m k v none = ok (m, false)
  insert_at m k v (some ind) =
      let arrays = fill m.arrays ind (key.hash k) k v in
      grow (record m { arrays = arrays; num_entries = m.num_entries + 1 }) >>= λ grown.
      ok (grown, true)

  unfoldable pub insert : HashMap K V → K → V → Run (HashMap K V × Bool)
  insert m k v =
      first_slot (key.hash k) m.capacity
      >>= insert_from (m.capacity + 1) m.arrays m.capacity (key.hash k) k
      >>= insert_at m k v

  -- What `Lookup` does with the result of `Find`.
  unfoldable pub value_at : Arrays K V → Option ℕ → Run (Option V)
  value_at a none = ok none
  value_at a (some ind) = entry_at a ind >>= λ e. ok (some e.1)

  unfoldable pub lookup : HashMap K V → K → Run (Option V)
  lookup m k = find m k >>= value_at m.arrays

  unfoldable pub contains : HashMap K V → K → Run Bool
  contains m k = find m k >>= λ found. ok (is_some found)

  -- A tombstone over the entry; `num_entries_` is left as it is.
  unfoldable pub delete_at : HashMap K V → Option ℕ → Run (HashMap K V × Bool)
  delete_at m none = ok (m, false)
  delete_at m (some ind) =
      let arrays = record m.arrays { mdata = set m.arrays.mdata ind deleted } in
      ok (record m { arrays = arrays }, true)

  unfoldable pub delete : HashMap K V → K → Run (HashMap K V × Bool)
  delete m k = find m k >>= delete_at m

  -- The reference that `operator[]` returns, read: index -1 is out of bounds.
  unfoldable pub ref_at : Arrays K V → Option ℕ → Run V
  ref_at a none = fault out_of_bounds
  ref_at a (some ind) = entry_at a ind >>= λ e. ok e.1

  unfoldable pub subscript : HashMap K V → K → Run V
  subscript m k = find m k >>= ref_at m.arrays

module _ {ℓ} {K V : Type ℓ} where
  abbrev pub len : HashMap K V → ℕ
  len m = m.num_entries

  -- Slot by slot, an entry copied only where the mark says that there is one.
  unfoldable pub copy_slots : ℕ → Arrays K V → ℕ → Arrays K V → Run (Arrays K V)
  copy_slots zero rhs i a = ok a
  copy_slots (suc rounds) rhs i a = mark_at rhs i >>= λ mark.
      let marks = set a.mdata i mark in
      (if is_free mark
        then ok (record a { mdata = marks })
        else (entry_at rhs i >>= λ e. ok (record { mdata = marks; map = set a.map i (some e) })))
      >>= copy_slots rounds rhs (i + 1)

  -- The copy constructor; the allocations hold no object yet.
  unfoldable pub copy : HashMap K V → Run (HashMap K V)
  copy rhs = copy_slots rhs.capacity rhs.arrays 0 (fresh rhs.capacity) >>= λ a.
      ok (record { arrays = a; capacity = rhs.capacity; num_entries = rhs.num_entries })

-- ===== src/DynArray.antt =====
-- ds/dyn_array.h: the growing array `ds::DynArray`. `arr_` is a null pointer, an allocation with the
-- elements in it, or a pointer to a freed one; `zeroed` is the element whose bytes are 0, for `memset`.
-- `allocator_t` is taken to return the memory asked for. An `int` index is an integer.
pub mod Holds
pub mod Append
use panix.Prelude.{
  ℕ, zero, suc, ◌+◌, ◌-◌, ◌*◌, ◌%◌, ◌^◌, Bool, Option, none, some, List, [], ◌++◌, ltb, ◌==◌,
  if◌then◌else◌, length, get_elem?, set, replicate, take,
}
use panix.Prelude.Int.{ℤ, pos, negsuc}
use panix.Prelude.Run.{
  Run, ok, fault, ◌>>=◌, expect, out_of_bounds, use_after_free, null_dereference,
}

module _ {ℓ} (T : Type ℓ) where
  pub data Block : Type ℓ where
    null freed : Block
    live : List T → Block

  pub record DynArray : Type ℓ where
    pub slots_used : ℕ
    pub capacity : ℕ
    pub arr : Block

-- `capacity_ ? capacity_ * 2 : 1`
unfoldable pub next_capacity : ℕ → ℕ
next_capacity capacity = if capacity == 0 then 1 else capacity * 2 % 2 ^ 64

module _ {ℓ} {T : Type ℓ} where
  -- `arr_[ind]`
  abbrev pub read : Block T → ℕ → Run T
  read null ind = fault null_dereference
  read freed ind = fault use_after_free
  read (live els) ind = expect out_of_bounds (get_elem? els ind)

  -- `arr_[ind] = el`
  unfoldable pub write_at : Block T → ℕ → T → Run (Block T)
  write_at null ind el = fault null_dereference
  write_at freed ind el = fault use_after_free
  write_at (live els) ind el =
      if ltb ind (length els) then ok (live (set els ind el)) else fault out_of_bounds

  -- `DynArray()`
  abbrev pub empty_array : DynArray T
  empty_array = record { slots_used = 0; capacity = 0; arr = null }

  -- `Allocate(capacity * sizeof(T))`, which is null for no bytes, and the zeros of `memset`
  abbrev pub allocated_for : T → ℕ → Block T
  allocated_for zeroed capacity = if capacity == 0 then null else live (replicate capacity zeroed)

  -- `DynArray(size_t init_size)`
  unfoldable pub sized_array : T → ℕ → DynArray T
  sized_array zeroed init_size = record {
    slots_used = 0;
    capacity = init_size;
    arr = allocated_for zeroed init_size;
  }

  -- `allocator_t::Free(arr_)` where there is one
  abbrev pub release : Block T → Run (Block T)
  release null = ok null
  release freed = fault use_after_free
  release (live els) = ok freed

  -- `for(size_t i = 0; i < rhs.Size(); ++i) arr_[i] = rhs[i]`, with the rounds that are left
  unfoldable pub copy_elements : ℕ → ℕ → Block T → Block T → Run (Block T)
  copy_elements zero i source target = ok target
  copy_elements (suc rounds) i source target = read source i >>= λ el.
      write_at target i el >>= λ next. copy_elements rounds (i + 1) source next

  -- `DynArray(const DynArray& rhs)`
  unfoldable pub copy_array : T → DynArray T → Run (DynArray T)
  copy_array zeroed rhs =
      copy_elements rhs.slots_used 0 rhs.arr (allocated_for zeroed rhs.capacity) >>= λ arr.
      ok (record { slots_used = rhs.slots_used; capacity = rhs.capacity; arr = arr })

  -- `operator=` of two different objects: with a capacity of 0, `arr_` keeps its value.
  unfoldable pub assign : T → DynArray T → DynArray T → Run (DynArray T)
  assign zeroed this rhs = release this.arr >>= λ old.
      if rhs.capacity == 0
      then ok (record { slots_used = rhs.slots_used; capacity = 0; arr = old })
      else copy_array zeroed rhs

  -- The new block of `Append`: the old elements, and zeros behind them.
  abbrev pub enlarge : T → ℕ → ℕ → Block T → Run (Block T)
  enlarge zeroed slots capacity null = ok (live (replicate capacity zeroed))
  enlarge zeroed slots capacity freed = fault use_after_free
  enlarge zeroed slots capacity (live els) =
      ok (live (take slots els ++ replicate (capacity - slots) zeroed))

  -- Room for one more element.
  unfoldable pub reserve : T → DynArray T → Run (DynArray T)
  reserve zeroed d =
      if d.slots_used == d.capacity
      then (enlarge zeroed d.slots_used (next_capacity d.capacity) d.arr >>= λ arr.
          ok (record { slots_used = d.slots_used; capacity = next_capacity d.capacity; arr = arr }))
      else ok d

  -- `Append`
  unfoldable pub append : T → DynArray T → T → Run (DynArray T)
  append zeroed d el = reserve zeroed d >>= λ roomy.
      write_at roomy.arr roomy.slots_used el >>= λ arr. ok (record {
        slots_used = (roomy.slots_used + 1) % 2 ^ 64;
        capacity = roomy.capacity;
        arr = arr;
      })

  -- `operator[]`: the index is converted to a `size_t`, and the sum wraps around.
  unfoldable pub subscript : DynArray T → ℤ → Run T
  subscript d (pos i) = read d.arr i
  subscript d (negsuc n) = read d.arr ((d.slots_used + 2 ^ 64 - (n + 1)) % 2 ^ 64)

  -- `Lookup`
  unfoldable pub lookup : DynArray T → ℤ → Run T
  lookup d (pos i) = read d.arr i
  lookup d (negsuc n) = read d.arr ((d.slots_used + (n + 1)) % 2 ^ 64)

  -- `Back`
  unfoldable pub back : DynArray T → Run T
  back d = read d.arr ((d.slots_used + 2 ^ 64 - 1) % 2 ^ 64)

  -- `Size`
  abbrev pub size : DynArray T → ℕ
  size d = d.slots_used

-- ===== src/Tests/DynArray.antt =====
-- The theorems on ds/dyn_array.h at arrays of numbers.
use panix.Prelude.{ℕ, ◌-◌, ◌≡◌, refl, List, [], ◌∷◌, ◌++◌, length, get_elem?, arith}
use panix.Prelude.Run.{ok, fault, expect, out_of_bounds, use_after_free, Returns, ◌>>=◌}
use panix.DynArray.{
  DynArray, live, append, copy_array, assign, back, empty_array, reserve, write_at, next_capacity,
}
use panix.DynArray.Holds.{Holds, nothing, allocated, back-Holds}
use panix.DynArray.Append.{append-Holds, copy_array-Holds, assign_dangles}

abbrev pair : DynArray ℕ
pair = record { slots_used = 2; capacity = 2; arr = live (5 ∷ 6 ∷ []) }

abbrev two : List ℕ
two = 5 ∷ 6 ∷ []

pair-Holds : Holds pair two
pair-Holds = record { used = refl; block = allocated two two [] 2 refl refl }

empty-Holds : Holds {T = ℕ} empty_array []
empty-Holds = record { used = refl; block = nothing }

-- A full array doubles its capacity.
append_full :
    append 0 pair 7 ≡ ok (record { slots_used = 3; capacity = 4; arr = live (5 ∷ 6 ∷ 7 ∷ 0 ∷ []) })
unfolding append reserve write_at next_capacity
append_full = refl

append-Holds_example : Returns (append 0 pair 7) λ d. Holds d (two ++ (7 ∷ []))
append-Holds_example = append-Holds 0 pair two 7 pair-Holds (omega arith)

copy_array-Holds_example :
    Returns (copy_array 0 pair) λ d. Holds d two × (d.capacity ≡ pair.capacity)
copy_array-Holds_example = copy_array-Holds 0 pair two pair-Holds

assign_dangles_example : (assign 0 pair empty_array >>= λ d. append 0 d 7) ≡ fault use_after_free
assign_dangles_example = assign_dangles 0 7 pair empty_array two refl empty-Holds refl

back-Holds_example : back pair ≡ expect out_of_bounds (get_elem? two (length two - 1))
back-Holds_example = back-Holds pair two pair-Holds (omega arith) (omega arith)

-- ===== src/Tests/HashMap.antt =====
-- Runs of the table and of the hasher, and the theorems on ds/hash_map.h at concrete tables.
use panix.Prelude.{
  ℕ, zero, suc, ◌≡◌, refl, ◌≢◌, true, Option, none, some, [], ◌∷◌, arith, ==_iff, ◌==◌, get_elem?,
  replicate,
}
use panix.Prelude.Run.{ok, expect, out_of_bounds, ◌>>=◌, Returns, Returns_at}
use panix.HashMap.{
  Key, empty, deleted, tag, HashMap, new, first_slot, free_slot, hit, find_from, find, insert_from,
  insert_at, insert, move_slot, move_slots, rehash, grow, value_at, lookup, contains, ref_at,
  subscript, delete_at, delete, copy, copy_slots, is_some,
}
use panix.HashMap.Murmur.{murmur3_32}
use panix.HashMap.Placed.{Stored}
use panix.HashMap.Valid.{Models, new-Models, lookup-Models, contains-Models, subscript-Models}
use panix.HashMap.Insert.{update, Inserted, insert-Models, insert-duplicate}
use panix.HashMap.Delete.{delete-Models}

-- Numbers that are their own hash: neighbours below 128 share a first slot.
instance abbrev number_key : Key ℕ
number_key = record { same = ◌==◌; hash = λ k. k; same_iff = ==_iff }

program : Unit {0}
unfolding new first_slot free_slot hit find_from find insert_from insert_at insert move_slot
    move_slots rehash grow value_at lookup contains ref_at subscript delete_at delete copy_slots
    copy
program = tt

abbrev nothing : ℕ → Option ℕ
nothing k = none

abbrev start : HashMap ℕ ℕ
start = record {
  arrays = record {
    mdata = empty ∷ empty ∷ empty ∷ empty ∷ empty ∷ empty ∷ empty ∷ empty ∷ empty ∷ [];
    map = none ∷ none ∷ none ∷ none ∷ none ∷ none ∷ none ∷ none ∷ none ∷ [];
  };
  capacity = 9;
  num_entries = 0;
}

start-Models : Models nothing start
unfolding new
start-Models = new-Models 9 (omega arith)

abbrev one : HashMap ℕ ℕ
one = record {
  arrays = record {
    mdata = tag 5 ∷ empty ∷ empty ∷ empty ∷ empty ∷ empty ∷ empty ∷ empty ∷ empty ∷ [];
    map = some (5, 50) ∷ none ∷ none ∷ none ∷ none ∷ none ∷ none ∷ none ∷ none ∷ [];
  };
  capacity = 9;
  num_entries = 1;
}

insert-one : insert start 5 50 ≡ ok (one, true)
unfolding program
insert-one = refl

abbrev has_five : ℕ → Option ℕ
has_five = update nothing 5 (some 50)

one-Models : Models has_five one
one-Models = (Returns_at (insert-Models start-Models 5 50 refl) insert-one).1

abbrev two : HashMap ℕ ℕ
two = record {
  arrays = record {
    mdata = tag 5 ∷ tag 6 ∷ empty ∷ empty ∷ empty ∷ empty ∷ empty ∷ empty ∷ empty ∷ [];
    map = some (5, 50) ∷ some (6, 60) ∷ none ∷ none ∷ none ∷ none ∷ none ∷ none ∷ none ∷ [];
  };
  capacity = 9;
  num_entries = 2;
}

insert-two : insert one 6 60 ≡ ok (two, true)
unfolding program
insert-two = refl

two-Models : Models (update has_five 6 (some 60)) two
two-Models = (Returns_at (insert-Models one-Models 6 60 refl) insert-two).1

abbrev buried : HashMap ℕ ℕ
buried = record {
  arrays = record {
    mdata = deleted ∷ tag 6 ∷ empty ∷ empty ∷ empty ∷ empty ∷ empty ∷ empty ∷ empty ∷ [];
    map = some (5, 50) ∷ some (6, 60) ∷ none ∷ none ∷ none ∷ none ∷ none ∷ none ∷ none ∷ [];
  };
  capacity = 9;
  num_entries = 2;
}

delete-buried : delete two 5 ≡ ok (buried, true)
unfolding program
delete-buried = refl

buried-Models : Models (update (update has_five 6 (some 60)) 5 none) buried
buried-Models = (Returns_at (delete-Models two-Models 5) delete-buried).1

-- A table of capacity 1, the default, grows at the first insertion.
grows : (insert (new {K = ℕ} {V = ℕ} 1) 5 50 >>= λ r. ok r.0.capacity) ≡ ok 3
unfolding program
grows = refl

copies : copy two ≡ ok two
unfolding program
copies = refl

hello : murmur3_32 (b'h' ∷ b'e' ∷ b'l' ∷ b'l' ∷ b'o' ∷ []) 0 ≡ 0x248bfa47
unfolding murmur3_32
hello = refl

lookup-Models_example : lookup two 6 ≡ ok (update has_five 6 (some 60) 6)
lookup-Models_example = lookup-Models two-Models 6

contains-Models_example : contains two 7 ≡ ok (is_some (update has_five 6 (some 60) 7))
contains-Models_example = contains-Models two-Models 7

subscript-Models_example : subscript two 5 ≡ expect out_of_bounds (update has_five 6 (some 60) 5)
subscript-Models_example = subscript-Models two-Models 5

insert-Models_example :
    Returns (insert one 6 60) (Inserted one-Models 6 (update has_five 6 (some 60)))
insert-Models_example = insert-Models one-Models 6 60 refl

empties-clean : (n j : ℕ) → get_elem? (replicate n empty) j ≢ some deleted
empties-clean zero j e = cc
empties-clean (suc n) zero e = cc
empties-clean (suc n) (suc j) e = empties-clean n j e

one-clean : (j : ℕ) → get_elem? one.arrays.mdata j ≢ some deleted
one-clean zero e = cc
one-clean (suc j) e = empties-clean 8 j e

insert-duplicate_example :
    (m : HashMap ℕ ℕ) × (insert buried 6 61 ≡ ok (m, true))
    × ((i : ℕ) × (j : ℕ) × (i ≢ j) × Stored m.arrays i 6 61 × Stored m.arrays j 6 60)
insert-duplicate_example = insert-duplicate buried-Models 6 61 60 refl refl (omega arith)

delete-Models_example : Returns (delete two 5) λ (m, done).
    (done ≡ is_some (update has_five 6 (some 60) 5))
    × Models (update (update has_five 6 (some 60)) 5 none) m
    × (m.num_entries ≡ two.num_entries)
delete-Models_example = delete-Models two-Models 5

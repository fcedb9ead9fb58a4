-- ===== src/Tests/KHeap.antt =====
-- Runs of sys/kheap.cpp, and the theorems at a heap of 8 KiB.
use panix.Prelude.{
  ℕ, ◌+◌, ◌-◌, ◌^◌, ◌<◌, ◌≤◌, ◌≡◌, inl, refl, arith, true, List, [], ◌∷◌, ◌++◌, ◌==◌, if◌then◌else◌,
}
use Prim.Native.Nat.{bit_and}
use panix.Prelude.Run.{Run, ok, fault, out_of_fuel, ◌>>=◌, bad_shift, Returns}
use panix.KHeap.State.{Heap, bin_index, heap_base, store, shift}
use panix.KHeap.FreeLists.{find_entry, find_from, push_front, scan}
use panix.KHeap.Chunks.{split, merge_with_neighbors}
use panix.KHeap.Methods.{
  allocate_chunk, grow_until, mark, release, Backing, allocate, free, chunk_size,
}
use panix.KHeap.Verify.{verify, verify_from}
use panix.KHeap.Layout.{IsHeap}
use panix.KHeap.Bins.{bin_index-monotone}
use panix.KHeap.Checked.{verify-IsHeap}
use panix.KHeap.Shave.{IsServedByTop, allocate-IsHeap}
use panix.KHeap.Release.{IsFreedLast, free-IsHeap}
use panix.KHeap.RoundTrip.{free-allocate}
use panix.KHeap.Search.{find_entry-bad_shift}

-- Page frames at one address, and a page map that takes every range.
abbrev frames : Backing ℕ
frames = record {
  allocate = λ size b. ok (4096, b);
  realloc = λ p size b. ok (p, b);
  free = λ p b. ok b;
  mem_in_use = λ b. b;
  unmap_range = λ p q b. ok b;
  map_range = λ p q d b. ok b;
}

abbrev fresh : Heap
fresh = record {
  free_lists = λ _. 0;
  free_lists_bitmap = 0;
  heap_size = 8192;
  max_heap_size = 100000;
  heap = 18446603340516163584;
  heap_paddr = 4096;
  top = 18446603340516163584;
  entries = λ _. record { forward = 0; backward = 0; size = 8192; prev_size = 0 };
  mapped = true;
}

-- One chunk of 1056 bytes in use.
abbrev one_chunk : Heap
one_chunk = record {
  free_lists = λ _. 0;
  free_lists_bitmap = 0;
  heap_size = 8192;
  max_heap_size = 100000;
  heap = 18446603340516163584;
  heap_paddr = 4096;
  top = 18446603340516164640;
  entries = λ a.
      if a == 18446603340516163584
      then record { forward = 0; backward = 0; size = 1057; prev_size = 0 }
      else record { forward = 0; backward = 0; size = 7136; prev_size = 1057 };
  mapped = true;
}

-- A free chunk of 1056 bytes, alone in its list.
abbrev one_free : Heap
one_free = record {
  free_lists = λ n. if n == 32 then 18446603340516163584 else 0;
  free_lists_bitmap = 4294967296;
  heap_size = 8192;
  max_heap_size = 100000;
  heap = 18446603340516163584;
  heap_paddr = 4096;
  top = 18446603340516165696;
  entries = λ a.
      if a == 18446603340516163584
      then record { forward = 0; backward = 0; size = 1056; prev_size = 0 }
      else record { forward = 0; backward = 0; size = 1057; prev_size = 1056 };
  mapped = true;
}

-- The result as a list: 0 and the offset in the heap, 1 without fuel, or 2 for a fault.
abbrev outcome : Run (ℕ × (Heap × ℕ)) → List ℕ
outcome out_of_fuel = 1 ∷ []
outcome (fault why) = 2 ∷ []
outcome (ok (p, (s, b))) = 0 ∷ (p - heap_base) ∷ (s.top - heap_base) ∷ []

abbrev two_chunks : Run (ℕ × (Heap × ℕ))
two_chunks = allocate frames 10 10 1000 (fresh, 0) >>= λ a.
    allocate frames 10 10 2000 (a.1) >>= λ b. free frames 10 (a.0) (b.1) >>= λ s. ok (b.0, s)

-- The freed chunk would do, but the search does not end.
allocate_again : outcome (two_chunks >>= λ r. allocate frames 10 10 1000 (r.1)) ≡ 2 ∷ []
unfolding allocate free verify chunk_size allocate_chunk find_entry shift bin_index find_from
    grow_until mark split verify_from store release merge_with_neighbors push_front scan
allocate_again = refl

fresh-IsHeap : IsHeap fresh []
fresh-IsHeap = record {
  there = ground arith;
  tiles = (refl, refl);
  linked = tt;
  whole = refl;
  fits = omega arith;
  lines = refl;
  top_forward = refl;
  top_backward = refl;
}

one_chunk-IsHeap : IsHeap one_chunk (1057 ∷ [])
one_chunk-IsHeap = record {
  there = ground arith;
  tiles = (refl, refl, omega arith, (refl, refl));
  linked = (inl refl, tt);
  whole = refl;
  fits = omega arith;
  lines = refl;
  top_forward = refl;
  top_backward = refl;
}

served : IsServedByTop fresh [] 1000
unfolding chunk_size bin_index
served = record {
  in_order = fresh-IsHeap;
  mapped = refl;
  asked = omega arith;
  fits = omega arith;
  small = omega arith;
  none_listed = refl;
  larger = omega arith;
}

freed : IsFreedLast one_chunk [] 1057 18446603340516163584
freed = record {
  in_order = one_chunk-IsHeap;
  high = omega arith;
  last = refl;
  used = refl;
  small = omega arith;
  no_forward = refl;
  no_backward = refl;
  before_used = inl refl;
  top_unlisted = λ i. ground arith;
}

allocate-IsHeap_example : Returns (allocate frames 1 1 1000 (fresh, 0)) λ r.
    (r.0 ≡ 18446603340516163584 + 32)
    × ((r.1).1 ≡ 0)
    × IsHeap ((r.1).0) ([] ++ (chunk_size 1000 + 1) ∷ [])
    × (((r.1).0).top ≡ 18446603340516163584 + chunk_size 1000)
allocate-IsHeap_example = allocate-IsHeap frames 1 0 1000 fresh 0 [] served (omega arith)

free-IsHeap_example :
    Returns
      (free frames 0 (18446603340516163584 + 32) (one_chunk, 0))
      λ r. IsHeap (r.0) [] × ((r.0).top ≡ 18446603340516163584) × (r.1 ≡ 0)
free-IsHeap_example =
    free-IsHeap frames 0 one_chunk 0 [] 1057 18446603340516163584 freed (omega arith)

free-allocate_example :
    Returns
      (allocate frames 1 1 1000 (fresh, 0) >>= λ r. free frames 1 (r.0) (r.1))
      λ r. IsHeap (r.0) [] × ((r.0).top ≡ 18446603340516163584) × (r.1 ≡ 0)
free-allocate_example =
    free-allocate frames 1 0 1000 fresh 0 [] served (omega arith) (omega arith) (inl refl)
      (λ i. ground arith)

verify-IsHeap_example : verify 1 one_chunk ≡ ok one_chunk
verify-IsHeap_example = verify-IsHeap 1 one_chunk (1057 ∷ []) (omega arith) one_chunk-IsHeap

bin_index-monotone_example :
    (bin_index 1056 ≤ bin_index 3072) × (3072 < 2 ^ 26 → bin_index 3072 < 64)
bin_index-monotone_example = bin_index-monotone 1056 3072 (omega arith) (omega arith)

own_bin : bit_and one_free.free_lists_bitmap (2 ^ 64 - 2 ^ bin_index 1056) ≡ 2 ^ bin_index 1056
unfolding bin_index
own_bin = refl

own_list : one_free.free_lists (bin_index 1056) ≡ 18446603340516163584
unfolding bin_index
own_list = refl

find_entry-bad_shift_example : find_entry 2 1056 one_free ≡ fault bad_shift
find_entry-bad_shift_example =
    find_entry-bad_shift 2 1056 one_free (18446603340516163584 ∷ []) (omega arith) own_bin
      (own_list, ground arith, omega arith, refl) (omega arith)

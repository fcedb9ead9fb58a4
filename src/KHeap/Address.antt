-- ===== src/KHeap/Address.antt =====
-- `ToPAddr` and `ToVAddr` of sys/kheap.cpp.
use panix.Prelude.{ℕ, ◌+◌, ◌-◌, ◌%◌, ◌^◌, ◌<◌, ◌≡◌, arith, le→ltb, lt→leb}
use panix.KHeap.State.{Heap}
use panix.KHeap.Methods.{to_paddr, to_vaddr}

-- A physical address in the heap, but not its first, leads to the virtual one at the same distance from the base of
-- the heap, and from there back.
pub to_paddr-to_vaddr :
    (s : Heap) (paddr : ℕ)
    → s.heap_paddr < paddr
    → paddr < s.heap_paddr + s.heap_size
    → s.heap_size < 2 ^ 40
    → s.heap_paddr < 2 ^ 48
    → (to_vaddr paddr s ≡ 18446603340516163584 + (paddr - s.heap_paddr))
      × (to_paddr (to_vaddr paddr s) s ≡ paddr)
unfolding to_paddr to_vaddr
to_paddr-to_vaddr s paddr above below small low =
    let there : (paddr + 2 ^ 64 - s.heap_paddr) % 2 ^ 64 ≡ paddr - s.heap_paddr = omega arith in
    let v : (paddr - s.heap_paddr + 18446603340516163584) % 2 ^ 64
        ≡ 18446603340516163584 + (paddr - s.heap_paddr) =
      omega arith in
    let vaddr = 18446603340516163584 + (paddr - s.heap_paddr) in
    (
      rw (there, v) (omega arith),
      rw
          (
            there,
            v,
            le→ltb vaddr 18446603336221196288 (omega arith),
            lt→leb vaddr 18446603340516163584 (omega arith),
          )
          (omega arith),
    )

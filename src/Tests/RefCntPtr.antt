-- ===== src/Tests/RefCntPtr.antt =====
-- The theorems on ds/ref_cnt_ptr.h at two variables that share an object, and a third with another one.
use panix.Prelude.{
  ◌≡◌, refl, arith, false, [], ◌∷◌, none, some, ◌==◌, if◌then◌else◌, Bool-cases, inl, inr, ==_iff,
}
use panix.Prelude.Run.{Returns}
use panix.RefCntPtr.{RefCntPtr, World, destroy}
use panix.RefCntPtr.Counted.{IsCounted, holders, assign-IsCounted}
use panix.RefCntPtr.Freed.{destroy-freed}
use panix.RefCntPtr.Reach.{start, next, assign_step, Reach-IsCounted}

abbrev shared : RefCntPtr
shared = record { raw_ptr = 100; refs = 8 }

abbrev single : RefCntPtr
single = record { raw_ptr = 200; refs = 16 }

abbrev world : World
world = record {
  vars = shared ∷ shared ∷ single ∷ [];
  counters = λ c. if c == 8 then some 2 else if c == 16 then some 1 else none;
  freed = [];
}

world-IsCounted : IsCounted world
world-IsCounted = record {
  counts = λ c nz. elim (Bool-cases (c == 8)) [
    | inl first ↦ rw ((==_iff c 8).0 first) refl
    | inr not_first ↦ elim (Bool-cases (c == 16)) [
      | inl second ↦ rw ((==_iff c 16).0 second) refl
      | inr neither ↦
          let a : (8 == c) ≡ false = ground arith in
          let b : (16 == c) ≡ false = ground arith in rw (not_first, neither, a, b) refl
    ]
  ];
  few = omega arith;
}

destroy-freed_example :
    Returns (destroy 2 world) λ w'. w'.freed ≡ (if holders 16 world.vars == 1 then 200 ∷ [] else [])
destroy-freed_example =
    destroy-freed 2 world single world-IsCounted refl (ground arith) (ground arith)

abbrev assigned : World
assigned = (assign-IsCounted 0 2 world shared single world-IsCounted refl refl (ground arith)).0

Reach-IsCounted_example : IsCounted assigned
Reach-IsCounted_example =
    Reach-IsCounted
      (next start (
        assign_step 0 2 shared single assigned refl refl (ground arith)
          ((assign-IsCounted 0 2 world shared single world-IsCounted refl refl (ground arith)).1)))
      world-IsCounted

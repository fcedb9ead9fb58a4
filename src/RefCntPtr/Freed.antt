-- ===== src/RefCntPtr/Freed.antt =====
-- When an object of ds/ref_cnt_ptr.h is freed.
use panix.Prelude.{
  ℕ, suc, ◌+◌, ◌-◌, ◌%◌, ◌^◌, ◌<◌, ◌≡◌, ◌≢◌, refl, arith, true, false, some, ◌∷◌, ◌==◌,
  if◌then◌else◌, get_elem?, inl, inr, eq_true, eq_false, ==_iff, Bool-cases,
}
use panix.Prelude.Run.{Returns}
use panix.RefCntPtr.{RefCntPtr, World, release, destroy}
use panix.RefCntPtr.Counted.{
  IsCounted, holders, at_least_one, holders-member, holders-le, one_if_self,
}

-- The destructor of a pointer to an object frees it exactly if no other variable has the counter.
pub destroy-freed :
    (i : ℕ) (w : World) (p : RefCntPtr)
    → IsCounted w
    → get_elem? w.vars i ≡ some p
    → p.refs ≢ 0
    → p.raw_ptr ≢ 0
    → Returns
        (destroy i w)
        λ w'. w'.freed ≡ (if holders p.refs w.vars == 1 then p.raw_ptr ∷ w.freed else w.freed)
unfolding destroy release
destroy-freed i w p good at nz object =
    let held : 0 < holders (p.refs) w.vars =
      omega (arith, holders-member (p.refs) w.vars i p at, one_if_self (p.refs)) in
    let (m, e) = at_least_one (holders (p.refs) w.vars) held in
    let left : (suc m + 2 ^ 64 - 1) % 2 ^ 64 ≡ m =
      omega (arith, e, holders-le (p.refs) w.vars, good.few) in
    elim (Bool-cases (m == 0)) [
      | inl last ↦
          let one : (suc m == 1) ≡ true = eq_true _ _ (omega (arith, (==_iff m 0).0 last)) in
          rw
            (
              at,
              eq_false (p.refs) 0 nz,
              good.counts (p.refs) nz,
              e,
              left,
              last,
              one,
              eq_false (p.raw_ptr) 0 object,
            )
            (_, refl, refl)
      | inr others ↦
          let more : (suc m == 1) ≡ false = ground arith in
          rw (at, eq_false (p.refs) 0 nz, good.counts (p.refs) nz, e, left, others, more)
            (_, refl, refl)
    ]

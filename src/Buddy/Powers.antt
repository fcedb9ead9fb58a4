-- ===== src/Buddy/Powers.antt =====
-- `CeilLog2` and `RoundUp` of sys/buddy_allocator.cpp.
use panix.Prelude.{
  ℕ, zero, suc, ◌+◌, ◌-◌, ◌%◌, ◌^◌, ◌<◌, ◌≤◌, ◌≡◌, refl, ◌⊎◌, inl, inr, arith, ltb, Bool-cases,
  ltb→lt, ltb→le,
}
use panix.Prelude.Run.{Returns}
use panix.Buddy.State.{log2_from, ceil_log2, round_up}

-- The least power of two that is not below `size`.
pub record IsCeilLog (size k : ℕ) : Type 0 where
  pub enough : size ≤ 2 ^ k
  pub least : (k ≡ 0) ⊎ (2 ^ (k - 1) < size)

log2_from-IsCeilLog :
    (shifts i size : ℕ)
    → size ≤ 2 ^ 63
    → shifts + i ≡ 64
    → (i ≡ 0) ⊎ (2 ^ (i - 1) < size)
    → Returns (log2_from shifts i size) (IsCeilLog size)
unfolding log2_from
log2_from-IsCeilLog zero i size small sum below = elim below [
  | inl none_yet ↦ absurd (omega arith)
  | inr above ↦ let e : i - 1 ≡ 63 = omega arith in absurd (omega (arith, small, rw e at above))
]
log2_from-IsCeilLog (suc shifts) i size small sum below = elim (Bool-cases (ltb (2 ^ i) size)) [
  | inr done ↦ rw done (i, refl, record { enough = ltb→le (2 ^ i) size done; least = below })
  | inl more ↦
      let place : i + 1 - 1 ≡ i = omega arith in
      rw more (
        log2_from-IsCeilLog shifts (i + 1) size small (omega arith)
          (inr (rw place (ltb→lt (2 ^ i) size more))))
]

-- Of a size up to 2 ^ 63, `CeilLog2` ends and is the least order whose power of two is not below it.
pub ceil_log2-IsCeilLog : (size : ℕ) → size ≤ 2 ^ 63 → Returns (ceil_log2 size) (IsCeilLog size)
unfolding ceil_log2
ceil_log2-IsCeilLog size small = log2_from-IsCeilLog 64 0 size small refl (inl refl)

-- Unless it is within 4096 of 2 ^ 64, `RoundUp` raises a size to the next multiple of 4096.
pub round_up-multiple :
    (size : ℕ)
    → size + 4095 < 2 ^ 64
    → (round_up size % 4096 ≡ 0) × (size ≤ round_up size) × (round_up size < size + 4096)
unfolding round_up
round_up-multiple size h = (omega arith, omega arith, omega arith)

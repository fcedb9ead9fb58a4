-- ===== src/KHeap/Search.antt =====
-- `FindEntry` of sys/kheap.cpp where only the bin of the request has entries, and none of them is larger.
use panix.Prelude.{
  ℕ, zero, suc, ◌+◌, ◌-◌, ◌^◌, ◌<◌, ◌≤◌, ◌≡◌, ◌≢◌, inl, inr, refl, ap, sym, ◌∙◌, arith, Bool, false,
  ltb, lt→ltb, le→ltb, ltb→lt, ltb→le, ◌==◌, eq_true, eq_false, ==_iff, Bool-cases, if◌then◌else◌,
  min, List, [], ◌∷◌, length,
}
use Prim.Native.Nat.{bit_and}
use native.Mathlib.Nat.{pow-suc}
use panix.Prelude.Run.{ok, fault, bad_shift}
use panix.Prelude.Bits.{bit, bit-ext, bit-and, bit-pow, pow-pos}
use panix.Prelude.Masks.{bit_of_complement, pow-le}
use panix.KHeap.State.{FreeListEntry, Heap, shift, bit_length, bin_index}
use panix.KHeap.Bins.{bit_length-pow, bin_index-monotone}
use panix.KHeap.FreeLists.{scan, find_from, find_entry}

pow-lt : (k w : ℕ) → k < w → 2 ^ k < 2 ^ w
pow-lt k w lt = omega (arith, pow-le (suc k) w lt, pow-suc 2 k, pow-pos k)

-- Another bit is cleared.
clear_other : (k j : ℕ) → k < 64 → j < 64 → j ≢ k → bit_and (2 ^ k) (2 ^ 64 - 1 - 2 ^ j) ≡ 2 ^ k
clear_other k j hk hj ne = bit-ext _ _ λ i.
    bit-and i (2 ^ k) (2 ^ 64 - 1 - 2 ^ j)
    ∙ ap (λ b. min b (bit (2 ^ 64 - 1 - 2 ^ j) i)) (bit-pow k i)
    ∙ elim (Bool-cases (i == k)) [
      | inr off ↦
          rw off (omega arith ∙ sym (bit-pow k i ∙ ap (λ (c : Bool). if c then 1 else 0) off))
      | inl at ↦
          let e = (==_iff i k).0 at in
          let apart : (i == j) ≡ false = eq_false i j (λ q. ne (sym q ∙ e)) in
          let kept : bit (2 ^ 64 - 1 - 2 ^ j) i ≡ 1 =
            bit_of_complement 64 (2 ^ j) i (pow-lt j 64 hj) (omega arith)
            ∙ ap (λ n. 1 - n) (bit-pow j i ∙ ap (λ (c : Bool). if c then 1 else 0) apart) in
          rw (at, kept) (sym (bit-pow k i ∙ ap (λ (c : Bool). if c then 1 else 0) at))
    ]

highest_bit : (k : ℕ) → k < 64 → bit_length 64 (2 ^ k) - 1 ≡ k
highest_bit k lt =
    let (l, same, low, high) = bit_length-pow 64 (2 ^ k) (pow-pos k) (pow-lt k 64 lt) in
    elim (Bool-cases (ltb k l)) [
      | inl above ↦ absurd (omega (arith, pow-lt k l (ltb→lt k l above), low))
      | inr not_above ↦ elim (Bool-cases (ltb l k)) [
        | inl below ↦ absurd (omega (arith, pow-le (suc l) k (ltb→lt l k below), high))
        | inr not_below ↦ omega (arith, same, ltb→le k l not_above, ltb→le l k not_below)
      ]
    ]

-- The entries of the list from `entry` on, none of which is larger than the size.
abbrev pub NoneLarger : (ℕ → FreeListEntry) → ℕ → ℕ → List ℕ → Type 0
NoneLarger h size entry [] = entry ≡ 0
NoneLarger h size entry (x ∷ xs) =
    (entry ≡ x) × (x ≢ 0) × ((h x).size ≤ size) × NoneLarger h size ((h x).forward) xs

scan-none :
    (fuel size entry : ℕ) (h : ℕ → FreeListEntry) (xs : List ℕ)
    → NoneLarger h size entry xs
    → length xs < fuel
    → scan fuel entry size h ≡ ok 0
unfolding scan
scan-none zero size entry h xs l long = absurd (omega arith)
scan-none (suc fuel) size entry h [] l long = rw (eq_true entry 0 l) refl
scan-none (suc fuel) size entry h (x ∷ xs) (at, nz, small, l) long =
    rw (at, eq_false x 0 nz, le→ltb size ((h x).size) small)
      (scan-none fuel size ((h x).forward) h xs l (omega arith))

module _ (fuel size bin : ℕ) (s : Heap) (xs : List ℕ) (lt : bin < 64)
    (listed : NoneLarger s.entries size (s.free_lists bin) xs) (long : length xs < fuel) where
  find_from-bad_shift :
      (rounds b : ℕ)
      → bin ≤ b
      → b < 64
      → 64 < rounds + b + 1
      → find_from rounds fuel b (2 ^ bin) size s ≡ fault bad_shift
  unfolding find_from shift
  find_from-bad_shift zero b le below enough = absurd (omega arith)
  find_from-bad_shift (suc rounds) b le below enough =
      let some_bit = eq_false (2 ^ bin) 0 (λ q. absurd (omega (arith, pow-pos bin))) in
      elim (Bool-cases (ltb (b + 1) 64)) [
        | inl more ↦
            rw
              (
                some_bit,
                highest_bit bin lt,
                scan-none fuel size (s.free_lists bin) s.entries xs listed long,
                more,
                clear_other bin (b + 1) lt (ltb→lt (b + 1) 64 more) (λ q. absurd (omega arith)),
              )
              (find_from-bad_shift rounds (b + 1) (omega arith) (ltb→lt (b + 1) 64 more)
                (omega arith))
        | inr last ↦
            rw
              (
                some_bit,
                highest_bit bin lt,
                scan-none fuel size (s.free_lists bin) s.entries xs listed long,
                last,
              )
              refl
      ]

-- Where, of the bins from that of the request on, the bitmap has only this one, and no chunk in its list is larger than the
-- request, `FindEntry` does not end with null: the bit is never cleared, and the shift reaches 64.
pub find_entry-bad_shift :
    (fuel size : ℕ) (s : Heap) (xs : List ℕ)
    → size < 2 ^ 26
    → bit_and s.free_lists_bitmap (2 ^ 64 - 2 ^ bin_index size) ≡ 2 ^ bin_index size
    → NoneLarger s.entries size (s.free_lists (bin_index size)) xs
    → length xs < fuel
    → find_entry fuel size s ≡ fault bad_shift
unfolding find_entry shift
find_entry-bad_shift fuel size s xs small only listed long =
    let bin = (bin_index-monotone size size (omega arith) (omega arith)).1 small in
    rw (lt→ltb (bin_index size) 64 bin, only)
      (find_from-bad_shift fuel size (bin_index size) s xs bin listed long 64 (bin_index size)
        (omega arith) bin (omega arith))

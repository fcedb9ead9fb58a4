-- ===== src/Prelude/Masks.antt =====
-- Masks and complements of words, and disjoint fields of a number.
use Prim.Native.Nat.{
  bit_and, bit_or, ℕ, zero, suc, ◌+◌, ◌-◌, ◌*◌, ◌/◌, ◌%◌, ◌^◌, ◌≤◌, ◌<◌, min, max,
}
use mathlib.Core.Path.{◌≡◌, sym, ap, ◌∙◌}
use mathlib.Core.Logic.{inl, inr}
use mathlib.Core.Bool.{Bool, true}
use native.Mathlib.Nat.{pow-suc, div-add-mod}
use native.Mathlib.Omega.{arith}
use panix.Prelude.Tests.{ltb, if◌then◌else◌, Bool-cases, ltb→lt, ltb→le}
use panix.Prelude.Bits.{
  bit, bit-and, bit-div, bit-ext, bit-lt, bit-mod, bit-or, bit_of_lt, bit_of_zero, pow-pos,
}

-- The complement of a word of `k` bits.
complement-half : (x m : ℕ) → x < 2 * m → (2 * m - 1 - x) / 2 ≡ m - 1 - x / 2
complement-half x m h = omega arith

complement-low : (x m : ℕ) → x < 2 * m → (2 * m - 1 - x) % 2 ≡ 1 - x % 2
complement-low x m h = omega arith

pub bit_of_complement : (k x i : ℕ) → x < 2 ^ k → i < k → bit (2 ^ k - 1 - x) i ≡ 1 - bit x i
bit_of_complement zero x i h lt = elim lt [ ]
bit_of_complement (suc k) x zero h lt =
    let e : 2 ^ suc k ≡ 2 * 2 ^ k = omega (arith, pow-suc 2 k) in
    ap (λ m. (m - 1 - x) % 2) e ∙ complement-low x (2 ^ k) (omega arith)
bit_of_complement (suc k) x (suc i) h lt =
    let e : 2 ^ suc k ≡ 2 * 2 ^ k = omega (arith, pow-suc 2 k) in
    ap (λ m. bit ((m - 1 - x) / 2) i) e
    ∙ ap (λ d. bit d i) (complement-half x (2 ^ k) (omega arith))
    ∙ bit_of_complement k (x / 2) i (omega arith) (omega arith)

-- The mask of the `k` low bits.
pub bit_of_mask : (k i : ℕ) → bit (2 ^ k - 1) i ≡ (if ltb i k then 1 else 0)
bit_of_mask k i = elim (Bool-cases (ltb i k)) [
  | inl low ↦
      let zeros : 2 ^ k - 1 ≡ 2 ^ k - 1 - 0 = omega arith in
      rw low (
        ap (λ d. bit d i) zeros
        ∙ bit_of_complement k 0 i (pow-pos k) (ltb→lt i k low)
        ∙ ap (λ d. 1 - d) (bit_of_zero i))
  | inr high ↦ rw high (bit_of_lt k (2 ^ k - 1) i (omega (arith, pow-pos k)) (ltb→le i k high))
]

pub bit_and-mask : (k x : ℕ) → bit_and x (2 ^ k - 1) ≡ x % 2 ^ k
bit_and-mask k x = bit-ext _ _ λ i.
    bit-and i x (2 ^ k - 1)
    ∙ ap (min (bit x i)) (bit_of_mask k i)
    ∙ ground (arith, bit-mod k x i, bit-lt x i)

max-zero : (a : ℕ) → max a 0 ≡ a
max-zero a = omega arith

zero-max : (a : ℕ) → max 0 a ≡ a
zero-max a = omega arith

min-one : (a : ℕ) → a < 2 → min a 1 ≡ a
min-one a h = omega arith

min-zero : (a : ℕ) → min a 0 ≡ 0
min-zero a = omega arith

-- Disjoint fields: the low `k` bits of `x` are 0, and `f` has no others.
module _ (k x f : ℕ) (clear : x % 2 ^ k ≡ 0) (small : f < 2 ^ k) where
  or_high : bit_or x f / 2 ^ k ≡ x / 2 ^ k
  or_high = bit-ext _ _ λ i.
      bit-div k (bit_or x f) i
      ∙ bit-or (i + k) x f
      ∙ ap (max (bit x (i + k))) (bit_of_lt k f (i + k) small (omega arith))
      ∙ max-zero (bit x (i + k))
      ∙ sym (bit-div k x i)

  or_low : bit_or x f % 2 ^ k ≡ f
  or_low = bit-ext _ _ λ i. elim (Bool-cases (ltb i k)) [
    | inl low ↦
        bit-mod k (bit_or x f) i
        ∙ ap (λ (c : Bool). if c then bit (bit_or x f) i else 0) low
        ∙ bit-or i x f
        ∙ ap (λ d. max d (bit f i)) (cleared i low)
        ∙ zero-max (bit f i)
    | inr high ↦
        bit-mod k (bit_or x f) i
        ∙ ap (λ (c : Bool). if c then bit (bit_or x f) i else 0) high
        ∙ sym (bit_of_lt k f i small (ltb→le i k high))
  ]
    where
      cleared : (i : ℕ) → ltb i k ≡ true → bit x i ≡ 0
      cleared i low =
          ap (λ (c : Bool). if c then bit x i else 0) (sym low)
          ∙ sym (bit-mod k x i)
          ∙ ap (λ d. bit d i) clear
          ∙ bit_of_zero i

  pub bit_or-add : bit_or x f ≡ x + f
  bit_or-add = omega (
    arith,
    or_high,
    or_low,
    div-add-mod (bit_or x f) (2 ^ k),
    div-add-mod x (2 ^ k),
    ap (λ d. 2 ^ k * d) or_high,
  )

pub pow-le : (k w : ℕ) → k ≤ w → 2 ^ k ≤ 2 ^ w
pow-le zero w h = omega (arith, pow-pos w)
pow-le (suc k) zero h = absurd (omega arith)
pow-le (suc k) (suc w) h = omega (arith, pow-le k w (omega arith), pow-suc 2 k, pow-suc 2 w)

-- The mask of a word of `w` bits that clears the `k` low ones.
module _ (w k x : ℕ) (fits : x < 2 ^ w) (le : k ≤ w) where
  pub bit_of_high_mask :
      (i : ℕ) → i < w → bit (2 ^ w - 1 - (2 ^ k - 1)) i ≡ (if ltb i k then 0 else 1)
  bit_of_high_mask i lt =
      bit_of_complement w (2 ^ k - 1) i (omega (arith, pow-pos k, pow-le k w le)) lt
      ∙ ap (λ d. 1 - d) (bit_of_mask k i)
      ∙ ground arith

  kept : (i : ℕ) → i < w → k ≤ i → bit (bit_and x (2 ^ w - 1 - (2 ^ k - 1))) i ≡ bit x i
  kept i lt high =
      bit-and i x (2 ^ w - 1 - (2 ^ k - 1))
      ∙ ap (min (bit x i)) (bit_of_high_mask i lt ∙ ground arith)
      ∙ min-one (bit x i) (bit-lt x i)

  gone : (i : ℕ) → w ≤ i → bit (bit_and x (2 ^ w - 1 - (2 ^ k - 1))) i ≡ bit x i
  gone i high =
      bit-and i x (2 ^ w - 1 - (2 ^ k - 1))
      ∙ ap (λ d. min d (bit (2 ^ w - 1 - (2 ^ k - 1)) i)) (bit_of_lt w x i fits high)
      ∙ omega arith
      ∙ sym (bit_of_lt w x i fits high)

  masked_high : bit_and x (2 ^ w - 1 - (2 ^ k - 1)) / 2 ^ k ≡ x / 2 ^ k
  masked_high = bit-ext _ _ λ i.
      bit-div k (bit_and x (2 ^ w - 1 - (2 ^ k - 1))) i
      ∙ elim (Bool-cases (ltb (i + k) w)) [
        | inl low ↦ kept (i + k) (ltb→lt (i + k) w low) (omega arith)
        | inr high ↦ gone (i + k) (ltb→le (i + k) w high)
      ]
      ∙ sym (bit-div k x i)

  masked_low : bit_and x (2 ^ w - 1 - (2 ^ k - 1)) % 2 ^ k ≡ 0
  masked_low = bit-ext _ _ λ i.
      bit-mod k (bit_and x (2 ^ w - 1 - (2 ^ k - 1))) i
      ∙ elim (Bool-cases (ltb i k)) [
        | inl low ↦
            ap (λ (c : Bool). if c then bit (bit_and x (2 ^ w - 1 - (2 ^ k - 1))) i else 0) low
            ∙ bit-and i x (2 ^ w - 1 - (2 ^ k - 1))
            ∙ ap (min (bit x i)) (
                bit_of_high_mask i (omega (arith, ltb→lt i k low))
                ∙ ap (λ (c : Bool). if c then 0 else 1) low)
            ∙ min-zero (bit x i)
        | inr high ↦
            ap (λ (c : Bool). if c then bit (bit_and x (2 ^ w - 1 - (2 ^ k - 1))) i else 0) high
      ]
      ∙ sym (bit_of_zero i)

  pub bit_and-high_mask : bit_and x (2 ^ w - 1 - (2 ^ k - 1)) ≡ x - x % 2 ^ k
  bit_and-high_mask = omega (
    arith,
    masked_low,
    div-add-mod (bit_and x (2 ^ w - 1 - (2 ^ k - 1))) (2 ^ k),
    div-add-mod x (2 ^ k),
    ap (λ d. 2 ^ k * d) masked_high,
  )

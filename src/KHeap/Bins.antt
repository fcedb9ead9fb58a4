-- ===== src/KHeap/Bins.antt =====
-- `BinIndex` of sys/kheap.cpp.
use panix.Prelude.{
  ℕ, zero, suc, ◌+◌, ◌-◌, ◌*◌, ◌/◌, ◌%◌, ◌^◌, ◌<◌, ◌≤◌, ◌≡◌, refl, ap, ◌∙◌, subst, inl, inr, arith,
  false, true, ltb, ◌==◌, Bool-cases, ltb→lt, ltb→le, le→ltb, ==_iff,
}
use native.Mathlib.Nat.{pow-suc, div-lt_iff_lt-mul, div-mul-le_self}
use panix.Prelude.Bits.{pow-pos}
use panix.Prelude.Masks.{pow-le}
use panix.KHeap.State.{bit_length, bin_index}

bit_length_of_zero : (bits : ℕ) → bit_length bits 0 ≡ 0
unfolding bit_length
bit_length_of_zero zero = refl
bit_length_of_zero (suc bits) = refl

-- A number that is not 0 lies between two powers of two.
pub bit_length-pow :
    (bits x : ℕ)
    → 0 < x
    → x < 2 ^ bits
    → (l : ℕ) × (bit_length bits x ≡ suc l) × (2 ^ l ≤ x) × (x < 2 ^ suc l)
unfolding bit_length
bit_length-pow zero x pos fits = absurd (omega arith)
bit_length-pow (suc bits) x pos fits =
    let some_bit : (x == 0) ≡ false = ground arith in
    elim (Bool-cases (x / 2 == 0)) [
      | inl one ↦
          let e = (==_iff (x / 2) 0).0 one in
          (0, rw (some_bit, e, bit_length_of_zero bits) refl, omega arith, omega arith)
      | inr more ↦
          let (l, same, low, high) =
            bit_length-pow bits (x / 2) (ground arith) (omega (arith, pow-suc 2 bits)) in
          (
            suc l,
            rw (some_bit, same) refl,
            omega (arith, pow-suc 2 l),
            omega (arith, pow-suc 2 l, pow-suc 2 (suc l)),
          )
    ]

-- Where a size from 1024 on stands: in the lower or the upper half behind a power of two.
record Halved (x l half : ℕ) : Type 0 where
  big : 10 ≤ l
  place : bin_index x ≡ 32 + (l - 10) * 2 + half
  two : half < 2
  from : (2 + half) * 2 ^ (l - 1) ≤ x
  until : x < (3 + half) * 2 ^ (l - 1)

-- The exponent of a size from 1024 on.
exponent-bounds :
    (x l : ℕ) → 1024 ≤ x → x < 2 ^ 64 → 2 ^ l ≤ x → x < 2 ^ suc l → (10 ≤ l) × (l < 64)
exponent-bounds x l big fits low high = (
  elim (Bool-cases (ltb l 10)) [
    | inl lt ↦ let s : suc l ≤ 10 = ltb→lt l 10 lt in absurd (omega (arith, pow-le (suc l) 10 s))
    | inr ge ↦ ltb→le l 10 ge
  ],
  elim (Bool-cases (ltb l 64)) [
    | inl lt ↦ ltb→lt l 64 lt
    | inr ge ↦ absurd (omega (arith, pow-le 64 l (ltb→le l 64 ge)))
  ],
)

bin_index-exponent :
    (x l : ℕ)
    → 1024 ≤ x
    → bit_length 64 x ≡ suc l
    → l < 64
    → bin_index x ≡ 32 + (l - 10) * 2 + x / 2 ^ (l - 1) % 2
unfolding bin_index
bin_index-exponent x l big same below =
    let large : ltb x 1024 ≡ false = le→ltb x 1024 big in
    let there : 64 - (64 - suc l) ≡ suc l = omega arith in
    let eleven : suc l - 11 ≡ l - 10 = omega arith in
    let one : suc l - 2 ≡ l - 1 = omega arith in rw (large, same, there, eleven, one) refl

bin_index-Halved : (x : ℕ) → 1024 ≤ x → x < 2 ^ 64 → (l : ℕ) × (half : ℕ) × Halved x l half
bin_index-Halved x big fits =
    let (l, same, low, high) = bit_length-pow 64 x (omega arith) fits in
    let (ten, below) = exponent-bounds x l big fits low high in
    let d = 2 ^ (l - 1) in
    let twice : 2 ^ l ≡ d * 2 = ap (λ n. 2 ^ n) (omega arith) ∙ pow-suc 2 (l - 1) in
    let least : 2 ≤ x / d = elim (Bool-cases (ltb (x / d) 2)) [
      | inl lt ↦
          absurd (omega (arith, (div-lt_iff_lt-mul (pow-pos (l - 1))).0 (ltb→lt (x / d) 2 lt)))
      | inr ge ↦ ltb→le (x / d) 2 ge
    ] in
    let most : x / d < 4 = (div-lt_iff_lt-mul (pow-pos (l - 1))).1 (omega (arith, pow-suc 2 l)) in
    let back : 2 + (x / d - 2) ≡ x / d = omega arith in
    let three : 3 + (x / d - 2) ≡ suc (x / d) = omega arith in
    (
      l,
      x / d - 2,
      record {
        big = ten;
        place =
            bin_index-exponent x l big same below ∙ ap (λ n. 32 + (l - 10) * 2 + n) (omega arith);
        two = omega arith;
        from = rw back (div-mul-le_self x d);
        until = rw three ((div-lt_iff_lt-mul (pow-pos (l - 1))).0 (omega arith));
      },
    )

coarse :
    (d half x : ℕ) → half < 2 → (2 + half) * d ≤ x → x < (3 + half) * d → (2 * d ≤ x) × (x < 4 * d)
coarse d zero x two from until = (omega arith, omega arith)
coarse d (suc zero) x two from until = (omega arith, omega arith)
coarse d (suc (suc half)) x two from until = absurd (omega arith)

order_of_halves : (d ha hb x : ℕ) → ha < 2 → hb < 2 → (2 + ha) * d ≤ x → x < (3 + hb) * d → ha ≤ hb
order_of_halves d zero hb x ta tb from until = omega arith
order_of_halves d (suc zero) zero x ta tb from until = absurd (omega arith)
order_of_halves d (suc zero) (suc hb) x ta tb from until = omega arith
order_of_halves d (suc (suc ha)) hb x ta tb from until = absurd (omega arith)

-- Larger sizes stand later.
Halved-le :
    (a b la lb ha hb : ℕ)
    → Halved a la ha
    → Halved b lb hb
    → a ≤ b
    → 32 + (la - 10) * 2 + ha ≤ 32 + (lb - 10) * 2 + hb
Halved-le a b la lb ha hb A B le =
    let (low, _) = coarse (2 ^ (la - 1)) ha a A.two A.from A.until in
    let (_, high) = coarse (2 ^ (lb - 1)) hb b B.two B.from B.until in
    elim (Bool-cases (ltb lb la)) [
      | inl later ↦
          let s : suc (lb - 1) ≤ la - 1 = omega (arith, ltb→lt lb la later, B.big) in
          absurd (omega (arith, pow-le (suc (lb - 1)) (la - 1) s, pow-suc 2 (lb - 1)))
      | inr not_later ↦ elim (Bool-cases (ltb la lb)) [
        | inl before ↦ omega (arith, ltb→lt la lb before, A.two, A.big)
        | inr not_before ↦
            let same : lb ≡ la = omega (arith, ltb→le lb la not_later, ltb→le la lb not_before) in
            let until : a < (3 + hb) * 2 ^ (la - 1) =
              let u : b < (3 + hb) * 2 ^ (la - 1) =
                subst (λ l. b < (3 + hb) * 2 ^ (l - 1)) same B.until in
              omega (arith, u, le) in
            omega (arith, order_of_halves (2 ^ (la - 1)) ha hb a A.two B.two A.from until, same)
      ]
    ]

in_bitmap : (b l half : ℕ) → Halved b l half → b < 2 ^ 26 → bin_index b < 64
in_bitmap b l half B below = elim (Bool-cases (ltb l 26)) [
  | inl lt ↦ omega (arith, B.place, B.two, ltb→lt l 26 lt, B.big)
  | inr ge ↦
      let s : 25 ≤ l - 1 = omega (arith, ltb→le l 26 ge) in
      let (low, _) = coarse (2 ^ (l - 1)) half b B.two B.from B.until in
      absurd (omega (arith, pow-le 25 (l - 1) s))
]

bin_index_small : (x : ℕ) → x < 1024 → bin_index x ≡ x / 32
unfolding bin_index
bin_index_small x lt = let small : ltb x 1024 ≡ true = ground arith in rw small refl

-- Sizes of 64 bits in order have bins in order, and each size below 2 ^ 26 has one of the 64 bins that the
-- bitmap has a bit for.
pub bin_index-monotone :
    (a b : ℕ) → a ≤ b → b < 2 ^ 64 → (bin_index a ≤ bin_index b) × (b < 2 ^ 26 → bin_index b < 64)
bin_index-monotone a b le fits = elim (Bool-cases (ltb b 1024)) [
  | inl small ↦
      let lt = ltb→lt b 1024 small in
      let here = bin_index_small b lt in
      let there = bin_index_small a (omega arith) in
      (omega (arith, here, there), λ _. omega (arith, here))
  | inr large ↦
      let ge = ltb→le b 1024 large in
      let (lb, hb, B) = bin_index-Halved b ge fits in
      (
        elim (Bool-cases (ltb a 1024)) [
          | inl small ↦
              let there = bin_index_small a (ltb→lt a 1024 small) in
              omega (arith, there, B.place, ltb→lt a 1024 small)
          | inr other ↦
              let (la, ha, A) = bin_index-Halved a (ltb→le a 1024 other) (omega arith) in
              omega (arith, A.place, B.place, Halved-le a b la lb ha hb A B le)
        ],
        λ below. in_bitmap b lb hb B below,
      )
]

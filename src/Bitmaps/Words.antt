-- ===== src/Bitmaps/Words.antt =====
-- The bits that AllocVNode, AllocBlock, DeleteINode and FreeBlock of sys/fs/ext2_mount.cpp set and clear.
use panix.Prelude.{
  ℕ, zero, suc, ◌+◌, ◌-◌, ◌/◌, ◌%◌, ◌^◌, ◌<◌, ◌≡◌, ◌≢◌, refl, ap, sym, ◌∙◌, some, arith, List, Bool,
  true, false, ◌==◌, if◌then◌else◌, Bool-cases, inl, inr, ◌⊎◌, min, max, ==_iff, get_elem?, set,
  get_elem?-set_self, ltb, ltb→lt, ltb→le, lt_of_get_elem?, ◌∷◌, [],
}
use Prim.Native.Nat.{bit_and, bit_or}
use panix.Prelude.Run.{ok}
use panix.Prelude.Bits.{bit, bit-lt, bit-ext, bit-and, bit-or, bit-pow, bit_of_lt, bit_of_zero}
use panix.Prelude.Masks.{bit_of_complement, pow-le}
use panix.Bitmaps.{ffs_from, ffs, clear_bit}

with_low :
    (bits x : ℕ)
    → x % 2 ≡ 0
    → ((n : ℕ) → n < bits → bit (x / 2) n ≡ 0)
    → (n : ℕ) → n < suc bits
    → bit x n ≡ 0
with_low bits x low zeros zero lt = low
with_low bits x low zeros (suc n) lt = zeros n (omega arith)

ffs_from-bit :
    (bits i x : ℕ)
    → ((ffs_from bits i x ≡ 0) × ((n : ℕ) → n < bits → bit x n ≡ 0))
      ⊎ ((n : ℕ) × (ffs_from bits i x ≡ suc (i + n)) × (n < bits) × (bit x n ≡ 1))
unfolding ffs_from
ffs_from-bit zero i x = inl (refl, λ n lt. absurd (omega arith))
ffs_from-bit (suc bits) i x = elim (Bool-cases (x % 2 == 1)) [
  | inl odd ↦ rw odd (inr (0, omega arith, omega arith, (==_iff _ _).0 odd))
  | inr even ↦
      let low : x % 2 ≡ 0 = ground arith in
      rw even (elim (ffs_from-bit bits (i + 1) (x / 2)) [
        | inl (e, zeros) ↦ inl (e, with_low bits x low zeros)
        | inr (n, e, lt, one) ↦ inr (suc n, e ∙ omega arith, omega arith, one)
      ])
]

-- `ffs` is one more than the index of a bit that is 1, and 0 for 0 alone.
pub ffs-bit :
    (x : ℕ) → x < 2 ^ 64 → (x ≡ 0) ⊎ ((n : ℕ) × (ffs x ≡ suc n) × (n < 64) × (bit x n ≡ 1))
unfolding ffs
ffs-bit x small = elim (ffs_from-bit 64 0 x) [
  | inl (e, zeros) ↦ inl (
      bit-ext x 0 λ i. elim (Bool-cases (ltb i 64)) [
        | inl within ↦ zeros i (ltb→lt i 64 within) ∙ sym (bit_of_zero i)
        | inr beyond ↦ bit_of_lt 64 x i small (ltb→le i 64 beyond) ∙ sym (bit_of_zero i)
      ])
  | inr (n, e, lt, one) ↦ inr (n, e ∙ omega arith, lt, one)
]

pow-lt : (k : ℕ) → k < 64 → 2 ^ k < 2 ^ 64
pow-lt k lt = omega (arith, pow-le k 63 (omega arith))

bit_of_pow : (k i : ℕ) → i ≢ k → bit (2 ^ k) i ≡ 0
bit_of_pow k i ne =
    let other : (i == k) ≡ false = ground arith in
    bit-pow k i ∙ ap (λ (c : Bool). if c then 1 else 0) other

bit_of_pow_self : (k : ℕ) → bit (2 ^ k) k ≡ 1
bit_of_pow_self k =
    let same : (k == k) ≡ true = ground arith in
    bit-pow k k ∙ ap (λ (c : Bool). if c then 1 else 0) same

-- Clearing the bit that was set.
pub clear_set :
    (w k : ℕ)
    → w < 2 ^ 64
    → k < 64
    → bit w k ≡ 0
    → bit_and (bit_or w (2 ^ k)) (2 ^ 64 - 1 - 2 ^ k) ≡ w
clear_set w k small lt zero_bit = bit-ext _ _ λ i.
    bit-and i (bit_or w (2 ^ k)) (2 ^ 64 - 1 - 2 ^ k)
    ∙ ap (λ d. min d (bit (2 ^ 64 - 1 - 2 ^ k) i)) (bit-or i w (2 ^ k))
    ∙ elim (Bool-cases (ltb i 64)) [
      | inl within ↦
          ap (min (max (bit w i) (bit (2 ^ k) i)))
            (bit_of_complement 64 (2 ^ k) i (pow-lt k lt) (ltb→lt i 64 within))
          ∙ elim (Bool-cases (i == k)) [
            | inl here ↦
                let e = (==_iff i k).0 here in
                omega (arith, ap (bit w) e ∙ zero_bit, ap (bit (2 ^ k)) e ∙ bit_of_pow_self k)
            | inr apart ↦ omega (arith, bit_of_pow k i (ground arith), bit-lt w i)
          ]
      | inr beyond ↦
          let le = ltb→le i 64 beyond in
          let gone = bit_of_lt 64 w i small le in
          let none_there = bit_of_pow k i (omega arith) in omega (arith, gone, none_there)
    ]

module _ {ℓ} {A : Type ℓ} where
  set_twice : (xs : List A) (i : ℕ) (a b : A) → set (set xs i a) i b ≡ set xs i b
  set_twice [] i a b = refl
  set_twice (x ∷ xs) zero a b = refl
  set_twice (x ∷ xs) (suc i) a b = ap (λ t. x ∷ t) (set_twice xs i a b)

  set_same : (xs : List A) (i : ℕ) (a : A) → get_elem? xs i ≡ some a → set xs i a ≡ xs
  set_same [] i a h = refl
  set_same (x ∷ xs) zero a h = let e : x ≡ a = cc in ap (λ t. t ∷ xs) (sym e)
  set_same (x ∷ xs) (suc i) a h = ap (λ t. x ∷ t) (set_same xs i a h)

-- Every word of a bitmap has 64 bits.
abbrev pub IsBitmap : List ℕ → Type 0
IsBitmap words = (j w : ℕ) → get_elem? words j ≡ some w → w < 2 ^ 64

-- Bit `n` of a bitmap was 0, and `marked` is the bitmap with it.
pub record Marks (words : List ℕ) (n : ℕ) (marked : List ℕ) : Type 0 where
  pub word : ℕ
  pub there : get_elem? words (n / 64) ≡ some word
  pub clear : bit word (n % 64) ≡ 0
  pub set_word : marked ≡ set words (n / 64) (bit_or word (2 ^ (n % 64)))

-- Clearing the bit again restores the bitmap.
pub clear_bit-Marks :
    (words marked : List ℕ) (n : ℕ)
    → IsBitmap words
    → Marks words n marked
    → clear_bit marked n ≡ ok words
unfolding clear_bit
clear_bit-Marks words marked n bounded m =
    let w' = bit_or m.word (2 ^ (n % 64)) in
    let at : get_elem? marked (n / 64) ≡ some w' =
      ap (λ ws. get_elem? ws (n / 64)) m.set_word
      ∙ get_elem?-set_self words (n / 64) w' (lt_of_get_elem? words (n / 64) m.there) in
    let back = clear_set m.word (n % 64) (bounded (n / 64) m.word m.there) (omega arith) m.clear in
    rw (at, back)
      (ap ok (
        ap (λ ws. set ws (n / 64) m.word) m.set_word
        ∙ set_twice words (n / 64) w' m.word
        ∙ set_same words (n / 64) m.word m.there))

-- ===== src/Prelude/Bits.antt =====
-- The bits of a number, and what the bitwise operations do to each of them.
use Prim.Native.Nat.{
  bit_and, bit_or, bit_xor, differ, digits, bitwise, bit_and-bitwise, bit_or-bitwise,
  bit_xor-bitwise, ℕ, zero, suc, ◌+◌, ◌*◌, ◌/◌, ◌%◌, ◌^◌, ◌≤◌, ◌<◌, min, max,
}
use mathlib.Core.Path.{◌≡◌, refl, sym, ap, ◌∙◌}
use native.Mathlib.Nat.{
  pow-suc, div-add-mod, mod-lt, mod-eq_of_lt, add-mul-mod_self_left, div-div-eq-div-mul,
}
use native.Mathlib.Omega.{arith}
use panix.Prelude.Tests.{ltb, ◌==◌, if◌then◌else◌}

-- Bit `i` of a number, 0 or 1.
abbrev pub bit : ℕ → ℕ → ℕ
bit x zero = x % 2
bit x (suc i) = bit (x / 2) i

pub bit-lt : (x i : ℕ) → bit x i < 2
bit-lt x zero = omega arith
bit-lt x (suc i) = bit-lt (x / 2) i

pub bit_of_zero : (i : ℕ) → bit 0 i ≡ 0
bit_of_zero zero = refl
bit_of_zero (suc i) = bit_of_zero i

-- Numbers with the same bits are the same.
bit-ext_below : (n x y : ℕ) → x ≤ n → y ≤ n → ((i : ℕ) → bit x i ≡ bit y i) → x ≡ y
bit-ext_below zero x y p q same = omega arith
bit-ext_below (suc n) x y p q same =
    omega (
      arith,
      bit-ext_below n (x / 2) (y / 2) (omega arith) (omega arith) (λ i. same (suc i)),
      same 0,
    )

pub bit-ext : (x y : ℕ) → ((i : ℕ) → bit x i ≡ bit y i) → x ≡ y
bit-ext x y same = bit-ext_below (x + y) x y (omega arith) (omega arith) same

-- How `digits` goes on from one number of rounds to another that is also enough.
module _ (rest : ℕ → ℕ) (join : ℕ → ℕ → ℕ) where
  enough :
      (rounds other x y : ℕ)
      → x ≤ other
      → x ≤ rounds
      → digits rest join other x y ≡ digits rest join rounds x y
  enough zero zero x y h h' = refl
  enough zero (suc other) zero y h h' = refl
  enough zero (suc other) (suc x) y h h' = absurd (omega arith)
  enough (suc rounds) zero zero y h h' = refl
  enough (suc rounds) zero (suc x) y h h' = absurd (omega arith)
  enough (suc rounds) (suc other) zero y h h' = refl
  enough (suc rounds) (suc other) (suc x) y h h' =
      ap (λ d. d * 2 + join (suc x % 2) (y % 2))
        (enough rounds other (suc x / 2) (y / 2) (omega arith) (omega arith))

  halve :
      (x y : ℕ)
      → 0 < x
      → bitwise rest join x y ≡ bitwise rest join (x / 2) (y / 2) * 2 + join (x % 2) (y % 2)
  halve zero y h = elim h [ ]
  halve (suc x) y h =
      ap (λ d. d * 2 + join (suc x % 2) (y % 2))
        (enough (suc x / 2) x (suc x / 2) (y / 2) (omega arith) (omega arith))

or_halves : (x y : ℕ) → bit_or x y ≡ bit_or (x / 2) (y / 2) * 2 + max (x % 2) (y % 2)
or_halves zero y = omega (arith, bit_or-bitwise 0 y, bit_or-bitwise 0 (y / 2))
or_halves (suc x) y =
    bit_or-bitwise (suc x) y
    ∙ halve (λ r. r) max (suc x) y (omega arith)
    ∙ ap (λ d. d * 2 + max (suc x % 2) (y % 2)) (sym (bit_or-bitwise (suc x / 2) (y / 2)))

and_halves : (x y : ℕ) → bit_and x y ≡ bit_and (x / 2) (y / 2) * 2 + min (x % 2) (y % 2)
and_halves zero y = omega (arith, bit_and-bitwise 0 y, bit_and-bitwise 0 (y / 2))
and_halves (suc x) y =
    bit_and-bitwise (suc x) y
    ∙ halve (λ r. 0) min (suc x) y (omega arith)
    ∙ ap (λ d. d * 2 + min (suc x % 2) (y % 2)) (sym (bit_and-bitwise (suc x / 2) (y / 2)))

differ-zero : (y : ℕ) → differ zero y ≡ y
differ-zero y = refl

xor_halves : (x y : ℕ) → bit_xor x y ≡ bit_xor (x / 2) (y / 2) * 2 + differ (x % 2) (y % 2)
xor_halves zero y = omega (arith, bit_xor-bitwise 0 y, bit_xor-bitwise 0 (y / 2))
xor_halves (suc x) y =
    bit_xor-bitwise (suc x) y
    ∙ halve (λ r. r) differ (suc x) y (omega arith)
    ∙ ap (λ d. d * 2 + differ (suc x % 2) (y % 2)) (sym (bit_xor-bitwise (suc x / 2) (y / 2)))

-- The half and the low digit of a number written by its digits.
half_of : (q r : ℕ) → r < 2 → (q * 2 + r) / 2 ≡ q
half_of q r h = omega arith

pub bit-or : (i x y : ℕ) → bit (bit_or x y) i ≡ max (bit x i) (bit y i)
bit-or zero x y = omega (arith, or_halves x y)
bit-or (suc i) x y =
    let half : bit_or x y / 2 ≡ bit_or (x / 2) (y / 2) = omega (arith, or_halves x y) in
    ap (λ d. bit d i) half ∙ bit-or i (x / 2) (y / 2)

pub bit-and : (i x y : ℕ) → bit (bit_and x y) i ≡ min (bit x i) (bit y i)
bit-and zero x y = omega (arith, and_halves x y)
bit-and (suc i) x y =
    let half : bit_and x y / 2 ≡ bit_and (x / 2) (y / 2) = omega (arith, and_halves x y) in
    ap (λ d. bit d i) half ∙ bit-and i (x / 2) (y / 2)

differ-lt : (x y : ℕ) → x < 2 → y < 2 → differ x y < 2
differ-lt zero y h h' = h'
differ-lt (suc x) zero h h' = h
differ-lt (suc zero) (suc y) h h' = omega arith
differ-lt (suc (suc x)) (suc y) h h' = absurd (omega arith)

pub bit-xor : (i x y : ℕ) → bit (bit_xor x y) i ≡ differ (bit x i) (bit y i)
bit-xor zero x y =
    omega (arith, xor_halves x y, differ-lt (x % 2) (y % 2) (omega arith) (omega arith))
bit-xor (suc i) x y =
    let half : bit_xor x y / 2 ≡ bit_xor (x / 2) (y / 2) =
      omega (arith, xor_halves x y, differ-lt (x % 2) (y % 2) (omega arith) (omega arith)) in
    ap (λ d. bit d i) half ∙ bit-xor i (x / 2) (y / 2)

-- The bits of a power of two.
pub bit-pow : (k i : ℕ) → bit (2 ^ k) i ≡ (if i == k then 1 else 0)
bit-pow zero zero = refl
bit-pow zero (suc i) = bit_of_zero i ∙ ground arith
bit-pow (suc k) zero = ground (arith, pow-suc 2 k)
bit-pow (suc k) (suc i) =
    let half : 2 ^ suc k / 2 ≡ 2 ^ k = omega (arith, pow-suc 2 k) in
    ap (λ d. bit d i) half ∙ bit-pow k i ∙ ground arith

pub pow-pos : (k : ℕ) → 0 < 2 ^ k
pow-pos zero = omega arith
pow-pos (suc k) = omega (arith, pow-pos k, pow-suc 2 k)

mod-double : (x m : ℕ) → 0 < m → x % (2 * m) ≡ x / 2 % m * 2 + x % 2
mod-double x m h =
    let low : ℕ = x / 2 % m * 2 + x % 2 in
    let split : x ≡ low + 2 * m * (x / 2 / m) = omega (arith, div-add-mod (x / 2) m) in
    let small : low < 2 * m = omega (arith, mod-lt (x / 2) h) in
    ap (λ t. t % (2 * m)) split ∙ add-mul-mod_self_left low (2 * m) (x / 2 / m) ∙ mod-eq_of_lt small

mod_pow-suc : (x k : ℕ) → x % 2 ^ suc k ≡ x / 2 % 2 ^ k * 2 + x % 2
mod_pow-suc x k =
    let e : 2 ^ suc k ≡ 2 * 2 ^ k = omega (arith, pow-suc 2 k) in
    ap (λ m. x % m) e ∙ mod-double x (2 ^ k) (pow-pos k)

-- The bits of a remainder by a power of two are the low ones.
pub bit-mod : (k x i : ℕ) → bit (x % 2 ^ k) i ≡ (if ltb i k then bit x i else 0)
bit-mod zero x i =
    let none_left : x % 1 ≡ 0 = omega arith in
    ap (λ d. bit d i) none_left ∙ bit_of_zero i ∙ ground arith
bit-mod (suc k) x zero = ground (arith, mod_pow-suc x k)
bit-mod (suc k) x (suc i) =
    let half : x % 2 ^ suc k / 2 ≡ x / 2 % 2 ^ k = omega (arith, mod_pow-suc x k) in
    ap (λ d. bit d i) half ∙ bit-mod k (x / 2) i ∙ ground arith

-- A shift to the right by `k`.
pub bit-div : (k x i : ℕ) → bit (x / 2 ^ k) i ≡ bit x (i + k)
bit-div zero x i =
    let same : x / 1 ≡ x = omega arith in
    let place : i + 0 ≡ i = omega arith in ap (λ d. bit d i) same ∙ ap (bit x) (sym place)
bit-div (suc k) x i =
    let e : 2 ^ suc k ≡ 2 * 2 ^ k = omega (arith, pow-suc 2 k) in
    let place : suc (i + k) ≡ i + suc k = omega arith in
    ap (λ m. bit (x / m) i) e
    ∙ ap (λ d. bit d i) (sym (div-div-eq-div-mul x 2 (2 ^ k)))
    ∙ bit-div k (x / 2) i
    ∙ ap (bit x) place

-- The bits of a number below a power of two.
pub bit_of_lt : (k x i : ℕ) → x < 2 ^ k → k ≤ i → bit x i ≡ 0
bit_of_lt k x i h le = ap (λ d. bit d i) (sym (mod-eq_of_lt h)) ∙ bit-mod k x i ∙ ground arith

-- ===== src/Libc/Order.antt =====
-- `strcmp`, `strncmp` and `memcmp` of libc/string.cpp as orders of texts and of byte ranges.
use panix.Prelude.{
  ℕ, zero, suc, ◌+◌, ◌-◌, ◌%◌, ◌^◌, ◌<◌, ◌≡◌, refl, ap, ◌≢◌, ◌↔◌, inl, inr, Bool, true, false,
  arith, List, [], ◌∷◌, length, take, subst, ltb, ◌==◌, if◌then◌else◌, Bool-cases, ==_iff,
}
use panix.Prelude.Int.{ℤ, pos, negsuc, sub_ℕ}
use panix.Prelude.Run.{Returns}
use panix.Libc.{Memory, goes_on, strcmp, compare_up_to, strncmp, memcmp}
use panix.Libc.Text.{IsText}

abbrev pub is_neg : ℤ → Bool
is_neg (pos n) = false
is_neg (negsuc n) = true

-- The first text comes before the second in the order of a dictionary.
unfoldable pub before : List ℕ → List ℕ → Bool
before xs [] = false
before [] (y ∷ ys) = true
before (x ∷ xs) (y ∷ ys) = if x == y then before xs ys else ltb x y

-- A result of a comparison of two texts: 0 for one text, negative for the smaller one first.
abbrev pub Compares : List ℕ → List ℕ → ℤ → Type 0
Compares xs ys r = ((r ≡ pos 0) ↔ (xs ≡ ys)) × (is_neg r ≡ before xs ys)

Compares-empty : Compares [] [] (pos 0)
unfolding before
Compares-empty = ((λ _. refl, λ _. refl), refl)

-- Texts whose first bytes differ, or one of which has ended.
module _ (x : ℕ) (xs : List ℕ) where
  Compares-nil : 0 < x → Compares [] (x ∷ xs) (sub_ℕ 0 x)
  unfolding before
  Compares-nil h = ((ground arith, λ e. cc), ground arith)

  Compares-cons_nil : 0 < x → Compares (x ∷ xs) [] (sub_ℕ x 0)
  unfolding before
  Compares-cons_nil h = ((ground arith, λ e. cc), ground arith)

  Compares-ne : (y : ℕ) (ys : List ℕ) → x ≢ y → Compares (x ∷ xs) (y ∷ ys) (sub_ℕ x y)
  unfolding before
  Compares-ne y ys n = ((ground arith, ground arith), ground arith)

  -- A common first byte does not count.
  Compares-cons : (ys : List ℕ) (r : ℤ) → Compares xs ys r → Compares (x ∷ xs) (x ∷ ys) r
  unfolding before
  Compares-cons ys r ((to, from), o) = ((λ e. ap (λ t. x ∷ t) (to e), λ e. from (cc)), ground arith)

goes_on_self : (x : ℕ) → 0 < x → goes_on x x ≡ true
goes_on_self x h = ground arith

goes_on-ne : (x y : ℕ) → x ≢ y → goes_on x y ≡ false
goes_on-ne x y h = ground arith

goes_on-zero : (x y : ℕ) → x ≡ 0 → goes_on x y ≡ false
goes_on-zero x y h = ground arith

ne_of_pos : (x : ℕ) → 0 < x → x ≢ 0
ne_of_pos x h = omega arith

-- `strcmp` of two texts ends, with more rounds than the first is long; it is 0 for equal texts alone,
-- and negative exactly where the first text comes before the second.
pub strcmp-Compares :
    (fuel l r : ℕ) (m : Memory) (xs ys : List ℕ)
    → IsText m l xs
    → IsText m r ys
    → length xs < fuel
    → Returns (strcmp fuel m l r) (Compares xs ys)
unfolding strcmp
strcmp-Compares zero l r m xs ys s t h = elim h [ ]
strcmp-Compares (suc fuel) l r m [] [] s t h = rw (s, t) (pos 0, refl, Compares-empty)
strcmp-Compares (suc fuel) l r m [] (y ∷ ys) s (e, n, t) h =
    rw (s, e) (sub_ℕ 0 y, refl, Compares-nil y ys n)
strcmp-Compares (suc fuel) l r m (x ∷ xs) [] (e, n, s) t h =
    rw (e, t, goes_on-ne x 0 (ne_of_pos x n)) (sub_ℕ x 0, refl, Compares-cons_nil x xs n)
strcmp-Compares (suc fuel) l r m (x ∷ xs) (y ∷ ys) (e, n, s) (e', n', t) h =
    rw (e, e')
      (elim (Bool-cases (x == y)) [
        | inl same ↦
            let xy = (==_iff x y).0 same in
            rw (← xy, goes_on_self x n)
              (let (v, run, c) = strcmp-Compares fuel (l + 1) (r + 1) m xs ys s t (omega arith) in
                (v, run, Compares-cons x xs ys v c))
        | inr other ↦
            let ne : x ≢ y = ground arith in
            rw (goes_on-ne x y ne) (sub_ℕ x y, refl, Compares-ne x xs y ys ne)
      ])

pos_limit : (limit : ℕ) → ltb 0 (suc limit) ≡ true
pos_limit limit = ground arith

-- The last bytes that are compared.
Compares-last : (x y : ℕ) → Compares (x ∷ []) (y ∷ []) (sub_ℕ x y)
Compares-last x y = elim (Bool-cases (x == y)) [
  | inl same ↦
      let xy = (==_iff x y).0 same in
      let zero_diff : sub_ℕ x x ≡ pos 0 = ground arith in
      rw (← xy, zero_diff) (Compares-cons x [] [] (pos 0) Compares-empty)
  | inr other ↦ Compares-ne x [] y [] (ground arith)
]

compare_up_to-Compares :
    (fuel limit l r : ℕ) (m : Memory) (xs ys : List ℕ)
    → IsText m l xs
    → IsText m r ys
    → length xs < fuel
    → Returns
        (compare_up_to fuel m limit l r)
        (Compares (take (suc limit) xs) (take (suc limit) ys))
unfolding compare_up_to
compare_up_to-Compares zero limit l r m xs ys s t h = elim h [ ]
compare_up_to-Compares (suc fuel) zero l r m [] [] s t h = rw (s, t) (pos 0, refl, Compares-empty)
compare_up_to-Compares (suc fuel) (suc limit) l r m [] [] s t h =
    rw (s, t, pos_limit limit) (pos 0, refl, Compares-empty)
compare_up_to-Compares (suc fuel) zero l r m [] (y ∷ ys) s (e, n, t) h =
    rw (s, e) (sub_ℕ 0 y, refl, Compares-nil y [] n)
compare_up_to-Compares (suc fuel) (suc limit) l r m [] (y ∷ ys) s (e, n, t) h =
    rw (s, e, pos_limit limit) (sub_ℕ 0 y, refl, Compares-nil y (take (suc limit) ys) n)
compare_up_to-Compares (suc fuel) zero l r m (x ∷ xs) [] (e, n, s) t h =
    rw (e, t) (sub_ℕ x 0, refl, Compares-cons_nil x [] n)
compare_up_to-Compares (suc fuel) (suc limit) l r m (x ∷ xs) [] (e, n, s) t h =
    rw (e, t, pos_limit limit, goes_on-ne x 0 (ne_of_pos x n))
      (sub_ℕ x 0, refl, Compares-cons_nil x (take (suc limit) xs) n)
compare_up_to-Compares (suc fuel) zero l r m (x ∷ xs) (y ∷ ys) (e, n, s) (e', n', t) h =
    rw (e, e') (sub_ℕ x y, refl, Compares-last x y)
compare_up_to-Compares (suc fuel) (suc limit) l r m (x ∷ xs) (y ∷ ys) (e, n, s) (e', n', t) h =
    rw (e, e', pos_limit limit)
      (elim (Bool-cases (x == y)) [
        | inl same ↦
            let xy = (==_iff x y).0 same in
            let shorter : suc limit - 1 ≡ limit = omega arith in
            rw (← xy, goes_on_self x n, shorter)
              (let (v, run, c) =
                  compare_up_to-Compares fuel limit (l + 1) (r + 1) m xs ys s t (omega arith) in
                (v, run, Compares-cons x (take (suc limit) xs) (take (suc limit) ys) v c))
        | inr other ↦
            let ne : x ≢ y = ground arith in
            rw (goes_on-ne x y ne)
              (sub_ℕ x y, refl, Compares-ne x (take (suc limit) xs) y (take (suc limit) ys) ne)
      ])

-- With `len` from 1 up to below 2 ^ 64, `strncmp` of two texts ends, with more rounds than the first is
-- long, and orders their first `len` bytes as `strcmp` orders texts.
pub strncmp-Compares :
    (fuel l r len : ℕ) (m : Memory) (xs ys : List ℕ)
    → IsText m l xs
    → IsText m r ys
    → length xs < fuel
    → 0 < len
    → len < 2 ^ 64
    → Returns (strncmp fuel m l r len) (Compares (take len xs) (take len ys))
unfolding strncmp
strncmp-Compares fuel l r len m xs ys s t h lo hi =
    let e : suc ((len + 2 ^ 64 - 1) % 2 ^ 64) ≡ len = omega arith in
    let c = compare_up_to-Compares fuel ((len + 2 ^ 64 - 1) % 2 ^ 64) l r m xs ys s t h in
    subst (λ n. Returns (strncmp fuel m l r len) (Compares (take n xs) (take n ys))) e c

-- With `len` 0, for which C asks for 0, `strncmp` tells two texts with different first bytes apart.
pub strncmp_zero :
    (fuel l r : ℕ) (m : Memory) → m l ≢ m r → Returns (strncmp (suc fuel) m l r 0) λ v. v ≢ pos 0
unfolding strncmp compare_up_to
strncmp_zero fuel l r m n = rw (goes_on-ne (m l) (m r) n) (sub_ℕ (m l) (m r), refl, ground arith)

-- The bytes of a range.
unfoldable pub bytes : Memory → ℕ → ℕ → List ℕ
bytes m p zero = []
bytes m p (suc count) = m p ∷ bytes m (p + 1) count

Compares-sign :
    (x y : ℕ) (xs ys : List ℕ)
    → x ≢ y
    → Compares (x ∷ xs) (y ∷ ys) (if ltb x y then negsuc 0 else pos 1)
unfolding before
Compares-sign x y xs ys n = ((ground arith, ground arith), ground arith)

-- `memcmp` is 0 exactly where the two ranges hold the same bytes, and negative exactly where the bytes of
-- the first come before those of the second.
pub memcmp-Compares :
    (m : Memory) (p q count : ℕ) → Compares (bytes m p count) (bytes m q count) (memcmp m p q count)
unfolding memcmp bytes
memcmp-Compares m p q zero = Compares-empty
memcmp-Compares m p q (suc count) = elim (Bool-cases (m p == m q)) [
  | inl same ↦
      let e = (==_iff (m p) (m q)).0 same in
      rw same (
        rw (← e) (
          Compares-cons (m p) (bytes m (p + 1) count) (bytes m (q + 1) count) _
            (memcmp-Compares m (p + 1) (q + 1) count)))
  | inr other ↦
      rw other
        (Compares-sign (m p) (m q) (bytes m (p + 1) count) (bytes m (q + 1) count) (ground arith))
]

-- ===== src/Libc/Cat.antt =====
-- `strcat` and `strncat` of libc/string.cpp: the target becomes the concatenation.
use panix.Prelude.{
  ℕ, zero, suc, ◌+◌, ◌-◌, ◌≤◌, ◌<◌, ◌≡◌, refl, ap, subst, ◌⊎◌, inl, inr, true, false, arith, List,
  ◌++◌, length, take, ltb, ◌==◌, if◌then◌else◌,
}
use panix.Prelude.Run.{ok, Returns}
use panix.Libc.{Memory, write, copy_up, cat_from, strcat, strncat}
use panix.Libc.Copy.{within, copy_up-copied}
use panix.Libc.Text.{IsText, IsText-frame, IsText-take, IsText-append, take-length, strlen-length}

-- Two ranges, the first of `n` bytes and the second of `k`, share no byte.
abbrev pub Apart : ℕ → ℕ → ℕ → ℕ → Type 0
Apart p n q k = (p + n ≤ q) ⊎ (q + k ≤ p)

upwards : (p n q k : ℕ) → Apart p n q k → n ≤ k → (p ≤ q) ⊎ (q + 0 + n ≤ p)
upwards p n q k (inl h) le = inl (omega arith)
upwards p n q k (inr h) le = inr (omega arith)

-- Ranges that are apart stay so when they shrink.
Apart-le : (p n q k n' k' : ℕ) → Apart p n q k → n' ≤ n → k' ≤ k → Apart p n' q k'
Apart-le p n q k n' k' (inl h) le le' = inl (omega arith)
Apart-le p n q k n' k' (inr h) le le' = inr (omega arith)

-- While `i` bytes are copied and `n` are left, the loop of `strcat` does what a counted copy does.
cat_from-copy :
    (n fuel i offset dest source : ℕ) (m : Memory) (ys : List ℕ)
    → IsText m source ys
    → i + n ≡ length ys
    → n + length ys < fuel
    → Apart (dest + offset) (length ys) source (length ys + 1)
    → cat_from fuel i offset dest source m ≡ ok (copy_up n i (dest + offset) source m)
unfolding cat_from copy_up write
cat_from-copy n zero i offset dest source m ys t e f a = elim f [ ]
cat_from-copy zero (suc fuel) i offset dest source m ys t e f a =
    let le : ltb i (length ys) ≡ false = ground arith in
    rw (strlen-length (suc fuel) source m ys t (omega arith), le)
cat_from-copy (suc n) (suc fuel) i offset dest source m ys t e f a =
    let lt : ltb i (length ys) ≡ true = ground arith in
    let place : dest + (offset + i) ≡ dest + offset + i = omega arith in
    rw (strlen-length (suc fuel) source m ys t (omega arith), lt, place)
      (cat_from-copy n fuel (i + 1) offset dest source
        (write m (dest + offset + i) (m (source + i))) ys
        (IsText-frame m _ source ys (λ b lo hi. ground arith) t) (omega arith) (omega arith) a)

-- The memory that `strcat` leaves, as `strncat` leaves it.
joined : ℕ → ℕ → ℕ → ℕ → Memory → Memory
joined offset n dest source m = write (copy_up n 0 (dest + offset) source m) (dest + (offset + n)) 0

joined-at :
    (offset n dest source : ℕ) (m : Memory)
    → Apart (dest + offset) n source n
    → (a : ℕ)
    → joined offset n dest source m a ≡ (
        if dest + (offset + n) == a
        then 0
        else (if within (dest + offset) n a then m (source + (a - (dest + offset))) else m a))
unfolding joined write
joined-at offset n dest source m h a = ground (
  arith,
  copy_up-copied n 0 (dest + offset) source m (upwards (dest + offset) n source n h (omega arith))
      a,
)

-- The target holds its text and, behind it, the first `n` bytes of the source's.
joined-IsText :
    (n dest source : ℕ) (m : Memory) (xs ys : List ℕ)
    → IsText m dest xs
    → IsText m source ys
    → n ≤ length ys
    → Apart (dest + length xs) n source n
    → IsText (joined (length xs) n dest source m) dest (xs ++ take n ys)
joined-IsText n dest source m xs ys s t le h =
    let at = joined-at (length xs) n dest source m h in
    IsText-append m _ dest xs (take n ys) s (λ a lo hi. ground (arith, at a))
      (IsText-take n m _ source (dest + length xs) ys t le (λ j lt. moved j lt)
        (ground (arith, at (dest + length xs + n))))
  where
    moved :
        (j : ℕ) → j < n → joined (length xs) n dest source m (dest + length xs + j) ≡ m (source + j)
    moved j lt =
        let back : dest + length xs + j - (dest + length xs) ≡ j = omega arith in
        ground (
          arith,
          joined-at (length xs) n dest source m h (dest + length xs + j),
          ap (λ d. m (source + d)) back,
        )

-- Of two texts, the second not longer than the fuel allows and apart from the room for the result,
-- `strcat` ends, returns `dest`, and leaves the concatenation there.
pub strcat-append :
    (fuel dest source : ℕ) (m : Memory) (xs ys : List ℕ)
    → IsText m dest xs
    → IsText m source ys
    → Apart (dest + length xs) (length ys + 1) source (length ys + 1)
    → length xs < fuel
    → length ys + length ys < fuel
    → Returns (strcat fuel dest source m) λ (p, m'). (p ≡ dest) × IsText m' dest (xs ++ ys)
unfolding strcat
strcat-append fuel dest source m xs ys s t h f f' =
    let n : ℕ = length ys in
    let copied : Memory = copy_up n 0 (dest + length xs) source m in
    let kept : IsText copied source ys =
      IsText-frame m copied source ys
        (λ a lo hi. ground (
          arith,
          copy_up-copied n 0 (dest + length xs) source m
              (upwards (dest + length xs) n source (n + 1)
                (Apart-le _ _ _ _ n (n + 1) h (omega arith) (omega arith)) (omega arith))
              a,
        ))
        t in
    rw
      (
        strlen-length fuel dest m xs s f,
        cat_from-copy (length ys) fuel 0 (length xs) dest source m ys t (omega arith) f'
            (Apart-le _ _ _ _ n (n + 1) h (omega arith) (omega arith)),
        strlen-length fuel source copied ys kept (omega arith),
      )
      (
        (dest, joined (length xs) (length ys) dest source m),
        unfold joined in refl,
        (
          refl,
          subst (λ zs. IsText (joined (length xs) n dest source m) dest (xs ++ zs)) (take-length ys)
              (joined-IsText n dest source m xs ys s t (omega arith)
                (Apart-le _ _ _ _ n n h (omega arith) (omega arith))),
        ),
      )

-- Of two texts, the second at least `len` long and these bytes apart from the room for them, `strncat`
-- ends, returns `dest`, and leaves the first text there with `len` bytes of the second behind it.
pub strncat-take :
    (fuel dest source len : ℕ) (m : Memory) (xs ys : List ℕ)
    → IsText m dest xs
    → IsText m source ys
    → len ≤ length ys
    → Apart (dest + length xs) len source len
    → length xs < fuel
    → Returns
        (strncat fuel dest source len m)
        λ (p, m'). (p ≡ dest) × IsText m' dest (xs ++ take len ys)
unfolding strncat
strncat-take fuel dest source len m xs ys s t le h f = rw (strlen-length fuel dest m xs s f) (
  (dest, joined (length xs) len dest source m),
  unfold joined in refl,
  (refl, joined-IsText len dest source m xs ys s t le h),
)

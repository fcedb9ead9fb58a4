-- ===== src/Libc/Copy.antt =====
-- `memcpy`, `memmove` and `memset` of libc/string.cpp: what every address holds afterwards.
use panix.Prelude.{
  ℕ, zero, suc, ◌+◌, ◌-◌, ◌%◌, ◌^◌, ◌≤◌, ◌<◌, ◌≡◌, refl, ◌⊎◌, inl, inr, ap, Bool, Bool-cases,
  fun_ext, false, arith, leb, ltb, ◌==◌, ◌&&◌, if◌then◌else◌,
}
use panix.Libc.{Memory, write, copy_up, memcpy, copy_down, rounds_down, memmove, fill_up, memset}

abbrev pub within : ℕ → ℕ → ℕ → Bool
within lo n a = leb lo a && ltb a (lo + n)

-- The memory in which the `n` bytes at `dest` are the bytes that `source` had.
abbrev pub copied : ℕ → ℕ → ℕ → Memory → Memory
copied dest source n m a = if within dest n a then m (source + (a - dest)) else m a

not_within : (lo a : ℕ) → within lo 0 a ≡ false
not_within lo a = ground arith

pub copy_up-copied :
    (n i dest source : ℕ) (m : Memory)
    → (dest ≤ source) ⊎ (source + i + n ≤ dest)
    → (a : ℕ)
    → copy_up n i dest source m a ≡ (if within (dest + i) n a then m (source + (a - dest)) else m a)
unfolding copy_up write
copy_up-copied zero i dest source m h a = rw (not_within (dest + i) a) refl
copy_up-copied (suc n) i dest source m h a = ground (
  arith,
  copy_up-copied n (i + 1) dest source (write m (dest + i) (m (source + i))) (omega arith) a,
)

-- Unless the target starts within the source, behind its first byte, `memcpy` copies: the `bytes`
-- bytes at `dest` become those that `source` had, no other byte changes, and `dest` is returned.
pub memcpy-copied :
    (dest source bytes : ℕ) (m : Memory)
    → (dest ≤ source) ⊎ (source + bytes ≤ dest)
    → ((memcpy dest source bytes m).0 ≡ dest)
      × ((memcpy dest source bytes m).1 ≡ copied dest source bytes m)
unfolding memcpy
memcpy-copied dest source bytes m h =
    (refl, fun_ext λ a. ground (arith, copy_up-copied bytes 0 dest source m (omega arith) a))

copy_down-copied :
    (n dest source : ℕ) (m : Memory)
    → (source ≤ dest) ⊎ (dest + n ≤ source)
    → (a : ℕ) → copy_down n dest source m a ≡ copied dest source n m a
unfolding copy_down write
copy_down-copied zero dest source m h a = rw (not_within dest a) refl
copy_down-copied (suc n) dest source m h a =
    ground
      (arith, copy_down-copied n dest source (write m (dest + n) (m (source + n))) (omega arith) a)

rounds_down-eq : (bytes : ℕ) → bytes ≤ 2 ^ 31 → rounds_down bytes ≡ bytes
unfolding rounds_down
rounds_down-eq bytes h = ground arith

-- For at most 2 ^ 31 bytes, and unless the target ends within the source, `memmove` copies: the
-- `bytes` bytes at `dest` become those that `source` had, no other byte changes, and `dest` is returned.
pub memmove-copied :
    (dest source bytes : ℕ) (m : Memory)
    → bytes ≤ 2 ^ 31
    → (source ≤ dest) ⊎ (dest + bytes ≤ source)
    → ((memmove dest source bytes m).0 ≡ dest)
      × ((memmove dest source bytes m).1 ≡ copied dest source bytes m)
unfolding memmove
memmove-copied dest source bytes m small h =
    (refl, fun_ext λ a. rw (rounds_down-eq bytes small) (copy_down-copied bytes dest source m h a))

copy_down_above :
    (n dest source : ℕ) (m : Memory) (a : ℕ) → dest + n ≤ a → copy_down n dest source m a ≡ m a
unfolding copy_down write
copy_down_above zero dest source m a h = refl
copy_down_above (suc n) dest source m a h =
    ground
      (arith, copy_down_above n dest source (write m (dest + n) (m (source + n))) a (omega arith))

next_place : (dest n : ℕ) → dest + 1 + n ≡ dest + suc n
next_place dest n = omega arith

copy_down_smears :
    (n dest : ℕ) (m : Memory) (a : ℕ)
    → dest ≤ a
    → a < dest + n
    → copy_down n dest (dest + 1) m a ≡ m (dest + n)
unfolding copy_down write
copy_down_smears zero dest m a lo hi = absurd (omega arith)
copy_down_smears (suc n) dest m a lo hi = elim (Bool-cases (a == dest + n)) [
  | inl last ↦ ground (
    arith,
    copy_down_above n dest (dest + 1) (write m (dest + n) (m (dest + 1 + n))) a (ground arith),
    ap m (next_place dest n),
  )
  | inr other ↦
      ground
        (arith, copy_down_smears n dest (write m (dest + n) (m (dest + 1 + n))) a lo (ground arith))
]

-- Moving bytes down by one place repeats the last byte over the whole target.
pub memmove_smears :
    (dest bytes : ℕ) (m : Memory) (a : ℕ)
    → bytes ≤ 2 ^ 31
    → dest ≤ a
    → a < dest + bytes
    → (memmove dest (dest + 1) bytes m).1 a ≡ m (dest + bytes)
unfolding memmove
memmove_smears dest bytes m a small lo hi =
    rw (rounds_down-eq bytes small) (copy_down_smears bytes dest m a lo hi)

-- Nothing is moved where more than 2 ^ 31 and at most 2 ^ 32 bytes are asked for.
pub memmove_large :
    (dest source bytes : ℕ) (m : Memory)
    → 2 ^ 31 < bytes
    → bytes ≤ 2 ^ 32
    → memmove dest source bytes m ≡ (dest, m)
unfolding memmove copy_down
memmove_large dest source bytes m lo hi =
    let none_left : rounds_down bytes ≡ 0 = unfold rounds_down in ground arith in rw none_left

fill_up-set :
    (n p c : ℕ) (m : Memory) (a : ℕ) → fill_up n p c m a ≡ (if within p n a then c % 2 ^ 8 else m a)
unfolding fill_up write
fill_up-set zero p c m a = rw (not_within p a) refl
fill_up-set (suc n) p c m a = ground (arith, fill_up-set n (p + 1) c (write m p (c % 2 ^ 8)) a)

-- `memset` stores the low byte of `c` at each of the `len` bytes from `b`, changes no other byte, and
-- returns `b`.
pub memset-within :
    (b c len : ℕ) (m : Memory)
    → ((memset b c len m).0 ≡ b)
      × ((memset b c len m).1 ≡ (λ a. if within b len a then c % 2 ^ 8 else m a))
unfolding memset
memset-within b c len m = (refl, fun_ext (fill_up-set len b c m))

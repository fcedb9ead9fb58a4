-- ===== src/Libc.antt =====
-- libc/string.cpp over a byte memory. Every address holds a byte, and an address is below 2 ^ 64, so
-- that pointer arithmetic does not wrap. A loop that looks for the end of a text runs on fuel.
pub mod Copy
pub mod Text
pub mod Order
pub mod Cat
use panix.Prelude.{ℕ, zero, suc, ◌+◌, ◌-◌, ◌%◌, ◌^◌, Bool, ltb, ◌==◌, ◌&&◌, not, if◌then◌else◌}
use panix.Prelude.Int.{ℤ, pos, negsuc, sub_ℕ}
use panix.Prelude.Run.{Run, ok, out_of_fuel, ◌>>=◌}

abbrev pub Memory : Type 0
Memory = ℕ → ℕ

unfoldable pub write : Memory → ℕ → ℕ → Memory
write m p v a = if p == a then v else m a

-- `for(i; i < bytes; ++i) dest[i] = source[i]`, with the rounds that are left
unfoldable pub copy_up : ℕ → ℕ → ℕ → ℕ → Memory → Memory
copy_up zero i dest source m = m
copy_up (suc rounds) i dest source m =
    copy_up rounds (i + 1) dest source (write m (dest + i) (m (source + i)))

unfoldable pub memcpy : ℕ → ℕ → ℕ → Memory → ℕ × Memory
memcpy dest source bytes m = (dest, copy_up bytes 0 dest source m)

-- `for(i; i >= 0; --i) dest[i] = source[i]`, the argument being i + 1
unfoldable pub copy_down : ℕ → ℕ → ℕ → Memory → Memory
copy_down zero dest source m = m
copy_down (suc i) dest source m = copy_down i dest source (write m (dest + i) (m (source + i)))

-- `int i = bytes - 1`: the low 32 bits, negative from 2 ^ 31 on.
unfoldable pub rounds_down : ℕ → ℕ
rounds_down bytes = let i = (bytes + 2 ^ 64 - 1) % 2 ^ 32 in if ltb i (2 ^ 31) then i + 1 else 0

unfoldable pub memmove : ℕ → ℕ → ℕ → Memory → ℕ × Memory
memmove dest source bytes m = (dest, copy_down (rounds_down bytes) dest source m)

unfoldable pub fill_up : ℕ → ℕ → ℕ → Memory → Memory
fill_up zero p c m = m
fill_up (suc len) p c m = fill_up len (p + 1) c (write m p (c % 2 ^ 8))

-- `c` is the bit pattern of an `int`.
unfoldable pub memset : ℕ → ℕ → ℕ → Memory → ℕ × Memory
memset b c len m = (b, fill_up len b c m)

unfoldable pub len_from : ℕ → Memory → ℕ → ℕ → Run ℕ
len_from zero m i str = out_of_fuel
len_from (suc fuel) m i str =
    let rest = len_from fuel m (i + 1) (str + 1) in if m str == 0 then ok i else rest

unfoldable pub strlen : ℕ → Memory → ℕ → Run ℕ
strlen fuel m str = len_from fuel m 0 str

unfoldable pub cat_from : ℕ → ℕ → ℕ → ℕ → ℕ → Memory → Run Memory
cat_from zero i offset dest source m = out_of_fuel
cat_from (suc fuel) i offset dest source m =
    let rest =
      cat_from fuel (i + 1) offset dest source (write m (dest + (offset + i)) (m (source + i))) in
    strlen (suc fuel) m source >>= λ n. if ltb i n then rest else ok m

unfoldable pub strcat : ℕ → ℕ → ℕ → Memory → Run (ℕ × Memory)
strcat fuel dest source m = strlen fuel m dest >>= λ offset.
    cat_from fuel 0 offset dest source m >>= λ copied.
    strlen fuel copied source >>= λ n. ok (dest, write copied (dest + (offset + n)) 0)

unfoldable pub strncat : ℕ → ℕ → ℕ → ℕ → Memory → Run (ℕ × Memory)
strncat fuel dest source len m = strlen fuel m dest >>= λ offset.
    ok (dest, write (copy_up len 0 (dest + offset) source m) (dest + (offset + len)) 0)

-- `*lhs && *rhs && *lhs == *rhs`
abbrev pub goes_on : ℕ → ℕ → Bool
goes_on x y = (not (x == 0) && not (y == 0)) && (x == y)

unfoldable pub strcmp : ℕ → Memory → ℕ → ℕ → Run ℤ
strcmp zero m lhs rhs = out_of_fuel
strcmp (suc fuel) m lhs rhs =
    let rest = strcmp fuel m (lhs + 1) (rhs + 1) in
    if goes_on (m lhs) (m rhs) then rest else ok (sub_ℕ (m lhs) (m rhs))

-- `limit` is `len - 1`, a `size_t`, less the rounds made.
unfoldable pub compare_up_to : ℕ → Memory → ℕ → ℕ → ℕ → Run ℤ
compare_up_to zero m limit lhs rhs = out_of_fuel
compare_up_to (suc fuel) m limit lhs rhs =
    let rest = compare_up_to fuel m (limit - 1) (lhs + 1) (rhs + 1) in
    if ltb 0 limit && goes_on (m lhs) (m rhs) then rest else ok (sub_ℕ (m lhs) (m rhs))

unfoldable pub strncmp : ℕ → Memory → ℕ → ℕ → ℕ → Run ℤ
strncmp fuel m lhs rhs len = compare_up_to fuel m ((len + 2 ^ 64 - 1) % 2 ^ 64) lhs rhs

unfoldable pub memcmp : Memory → ℕ → ℕ → ℕ → ℤ
memcmp m str1 str2 zero = pos 0
memcmp m str1 str2 (suc count) =
    let rest = memcmp m (str1 + 1) (str2 + 1) count in
    if m str1 == m str2 then rest else if ltb (m str1) (m str2) then negsuc 0 else pos 1

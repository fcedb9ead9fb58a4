-- ===== src/Strings.antt =====
-- ds/string.h: `BaseString`, a length with its end and the address of the bytes, over the memory of libc/string.cpp.
-- `at` is the address that `allocator_t::Allocate` returns; `Free` leaves the bytes as they are.
pub mod Same
pub mod Part
pub mod Substr
pub mod Copied
use panix.Prelude.{
  ℕ, zero, suc, ◌+◌, ◌-◌, ◌%◌, ◌^◌, Bool, true, false, not, ltb, ◌==◌, ◌&&◌, if◌then◌else◌,
}
use panix.Prelude.Int.{ℤ, pos, negsuc}
use panix.Prelude.Run.{Run, ok, ◌>>=◌}
use panix.Libc.{Memory, write, copy_up, memset, strlen, strncmp}

pub record BaseString : Type 0 where
  pub len : ℕ
  pub chars : ℕ

-- A `size_t` as an `int`.
unfoldable pub as_int : ℕ → ℤ
as_int n = let low = n % 2 ^ 32 in if ltb low (2 ^ 31) then pos low else negsuc (2 ^ 32 - 1 - low)

-- `BaseString(size_t len)`
unfoldable pub of_length : ℕ → ℕ → Memory → BaseString × Memory
of_length at len m =
    let size = (len + 1) % 2 ^ 64 in (record { len = size; chars = at }, (memset at 0 size m).1)

-- `BaseString(const char *str)`
unfoldable pub of_text : ℕ → ℕ → ℕ → Memory → Run (BaseString × Memory)
of_text fuel at str m = strlen fuel m str >>= λ n.
    ok (record { len = n + 1; chars = at }, write (copy_up (n + 1) 0 at str m) (at + n) 0)

-- `len ? str[len-1] == '\0' ? len : len + 1 : 1`
unfoldable pub size_of : ℕ → ℕ → Memory → ℕ
size_of str len m =
    if len == 0 then 1 else if m (str + (len - 1)) == 0 then len else (len + 1) % 2 ^ 64

-- `BaseString(const char *str, size_t len)`
unfoldable pub of_chars : ℕ → ℕ → ℕ → Memory → BaseString × Memory
of_chars at str len m =
    let size = size_of str len m in
    (record { len = size; chars = at }, write (copy_up len 0 at str m) (at + (size - 1)) 0)

-- `BaseString(const BaseString &rhs)`
unfoldable pub copy : ℕ → BaseString → Memory → BaseString × Memory
copy at rhs m = (record { len = rhs.len; chars = at }, copy_up rhs.len 0 at rhs.chars m)

-- `operator =`, and whether the two are one object
unfoldable pub assign : Bool → ℕ → BaseString → BaseString → Memory → BaseString × Memory
assign true at this rhs m = (this, m)
assign false at this rhs m = copy at rhs m

-- `(end >= 0) * (end) + (end < 0) * (len + end)`, a `size_t`
abbrev pub place : ℤ → ℕ → ℕ
place (pos n) len = n
place (negsuc n) len = (len + 2 ^ 64 - suc n) % 2 ^ 64

-- The text `""`
unfoldable pub empty_text : ℕ → Memory → BaseString × Memory
empty_text at m = (record { len = 1; chars = at }, write m at 0)

unfoldable pub substr : ℕ → ℤ → ℤ → BaseString → Memory → BaseString × Memory
substr at start end s m =
    let len = (s.len + 2 ^ 64 - 1) % 2 ^ 64 in
    let end_ind = place end len in
    let start_ind = place start len in
    if end_ind == start_ind
    then empty_text at m
    else of_chars at (s.chars + start_ind) ((end_ind + 2 ^ 64 - start_ind) % 2 ^ 64) m

-- `order == 0`
abbrev pub is_zero : ℤ → Bool
is_zero (pos n) = n == 0
is_zero (negsuc n) = false

-- `operator ==`
unfoldable pub equal : ℕ → BaseString → BaseString → Memory → Run Bool
equal fuel lhs rhs m =
    if not (lhs.len == rhs.len)
    then ok false
    else if (lhs.chars == 0) && (rhs.chars == 0)
    then ok true
    else strncmp fuel m lhs.chars rhs.chars lhs.len >>= λ order. ok (is_zero order)

-- `operator !=`
unfoldable pub differs : ℕ → BaseString → BaseString → Memory → Run Bool
differs fuel lhs rhs m = equal fuel lhs rhs m >>= λ same. ok (not same)

-- `a < b` on `int`
abbrev pub int_lt : ℤ → ℤ → Bool
int_lt (pos a) (pos b) = ltb a b
int_lt (pos a) (negsuc b) = false
int_lt (negsuc a) (pos b) = true
int_lt (negsuc a) (negsuc b) = ltb b a

-- `i + (int) len_ < 0` for `i` the negative number -(n + 1)
abbrev pub sum_neg : ℕ → ℤ → Bool
sum_neg n (pos len) = ltb len (suc n)
sum_neg n (negsuc len) = true

-- The byte that the reference of `operator []` is to
unfoldable pub slot : ℤ → BaseString → ℕ
slot (pos i) s = s.chars + i
slot (negsuc n) s = s.chars + (s.len + suc n)

-- `operator [] const`
unfoldable pub get : ℤ → BaseString → Memory → ℕ
get (pos i) s m = if int_lt (pos i) (as_int s.len) then m (slot (pos i) s) else 0
get (negsuc n) s m = if sum_neg n (as_int s.len) then m (slot (negsuc n) s) else 0

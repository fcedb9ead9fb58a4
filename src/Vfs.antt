-- ===== src/Vfs.antt =====
-- `VFS::DecomposePath` of sys/fs/vfs.cpp over the strings of ds/string.h.
pub mod Handle
pub mod Closed
pub mod Slash
pub mod Split
use panix.Prelude.{ℕ, zero, suc, Bool, false, ◌==◌, if◌then◌else◌}
use panix.Prelude.Int.{ℤ, pos, negsuc}
use panix.Libc.{Memory}
use panix.Strings.{BaseString, as_int, copy, assign, substr, get}

-- `VFS::Path`
pub record DirFile : Type 0 where
  pub dir : BaseString
  pub file : BaseString

-- `for(; i >= 0 && path_str[i] != '/'; --i)`, the argument being i + 1
unfoldable pub last_slash : ℕ → BaseString → Memory → ℤ
last_slash zero path m = negsuc 0
last_slash (suc i) path m =
    let rest = last_slash i path m in if get (pos i) path m == b'/' then pos i else rest

-- The loop, from `i = path_str.Len()` on
abbrev pub search_from : ℤ → BaseString → Memory → ℤ
search_from (pos i) path m = last_slash (suc i) path m
search_from (negsuc n) path m = negsuc n

-- `i + 1`
abbrev pub next : ℤ → ℤ
next (pos n) = pos (suc n)
next (negsuc zero) = pos 0
next (negsuc (suc n)) = negsuc n

-- What a member of `Path path {}` is.
abbrev pub no_string : BaseString
no_string = record { len = 0; chars = 0 }

-- A part goes to `at` first, and from there to the member of `path`, at `to`.
unfoldable pub take_part : ℕ → ℕ → ℤ → ℤ → BaseString → Memory → BaseString × Memory
take_part at to start end path m =
    let (part, m1) = substr at start end path m in assign false to no_string part m1

-- The addresses are those of `Allocate`, in the order of its calls.
unfoldable pub decompose_path : ℕ → ℕ → ℕ → ℕ → BaseString → Memory → DirFile × Memory
decompose_path at1 at2 at3 at4 path m =
    let i = search_from (as_int path.len) path m in
    let (dir, m1) = take_part at1 at2 (pos 0) (next i) path m in
    let (file, m2) = take_part at3 at4 (next i) (as_int path.len) path m1 in
    (record { dir = dir; file = file }, m2)

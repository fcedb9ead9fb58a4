-- ===== src/Tests/Vfs.antt =====
-- The theorem on sys/fs/vfs.cpp at the path "a/b".
use panix.Prelude.{
  ℕ, ◌+◌, ◌-◌, leb, true, false, ◌≡◌, refl, arith, List, [], ◌∷◌, ◌++◌, ◌==◌, if◌then◌else◌,
}
use panix.Libc.{Memory}
use panix.Strings.{BaseString}
use panix.Strings.Same.{IsString}
use panix.Vfs.{decompose_path}
use panix.Vfs.Slash.{EndsInSlash, NoSlash, name_start}
use panix.Vfs.Handle.{Machine, VNode, FileHandle, open_handle, read, suspend_io, seek}
use panix.Vfs.Closed.{sought, read_none, suspended, done, call, Calls-closed}
use panix.Vfs.Split.{dir_text, file_text, decompose_path-splits}

abbrev path_memory : Memory
path_memory a = if a == 10 then b'a' else if a == 11 then b'/' else if a == 12 then b'b' else 0

abbrev path_string : BaseString
path_string = record { len = 4; chars = 10 }

path_string-IsString : IsString path_memory path_string (b'a' ∷ b'/' ∷ b'b' ∷ [])
path_string-IsString = record {
  text = (refl, omega arith, (refl, omega arith, (refl, omega arith, refl)));
  size = refl;
  owned = omega arith;
}

abbrev path_bytes : List ℕ
path_bytes = b'a' ∷ b'/' ∷ b'b' ∷ []

decompose_path-splits_example :
    IsString
      ((decompose_path 20 30 40 50 path_string path_memory).1)
      (((decompose_path 20 30 40 50 path_string path_memory).0).dir)
      (dir_text path_bytes)
    × IsString
        ((decompose_path 20 30 40 50 path_string path_memory).1)
        (((decompose_path 20 30 40 50 path_string path_memory).0).file)
        (file_text path_bytes)
    × (dir_text path_bytes ++ file_text path_bytes ≡ path_bytes)
    × EndsInSlash (dir_text path_bytes)
    × NoSlash (file_text path_bytes)
unfolding name_start
decompose_path-splits_example =
    decompose_path-splits 20 30 40 50 path_string path_memory path_bytes path_string-IsString
      (omega arith) (omega arith, omega arith, omega arith, omega arith) (omega arith) (omega arith)
      (omega arith) (omega arith) (omega arith) (omega arith) (omega arith)

split_at_slash : dir_text path_bytes ≡ b'a' ∷ b'/' ∷ []
unfolding name_start
split_at_slash = refl

-- A file of 7 bytes, with its number of pins.
abbrev pinned_file : VNode (ℕ × ℕ)
pinned_file = record {
  read = λ buff offset len s. (leb (offset + len) s.node.0, s);
  write = λ source offset len s. (true, record s { node = (offset + len, s.node.1) });
  unpin = λ s. record s { node = (s.node.0, s.node.1 - 1) };
}

abbrev one_pin : Machine (ℕ × ℕ)
one_pin = record { node = (7, 1); memory = path_memory }

abbrev closed_file : FileHandle × Machine (ℕ × ℕ)
closed_file = suspend_io pinned_file (open_handle path_string true true) one_pin

Calls-closed_example :
    (◌≡◌ {A = ℕ} 0 0)
    × (((suspend_io pinned_file (seek 3 (closed_file.0)) (closed_file.1)).0).valid ≡ false)
    × ((((suspend_io pinned_file (seek 3 (closed_file.0)) (closed_file.1)).1).node).0 ≡ 7)
unfolding suspend_io seek read
Calls-closed_example =
    Calls-closed pinned_file (λ s. s.node.0 ≡ 7) (λ s kept. kept)
      (call false (sought 3 {h = closed_file.0} {s = closed_file.1}) (
        call false (read_none 60 80 4 refl)
          (call false (suspended {h = seek 3 (closed_file.0)} {s = closed_file.1}) done)))
      refl refl

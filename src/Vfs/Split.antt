-- ===== src/Vfs/Split.antt =====
-- What `DecomposePath` of sys/fs/vfs.cpp makes of a path.
use panix.Prelude.{
  ℕ, zero, suc, ◌+◌, ◌-◌, ◌^◌, ◌<◌, ◌≤◌, ◌≡◌, ◌≢◌, ◌⊎◌, inl, inr, refl, ap, sym, ◌∙◌, subst, arith,
  List, ◌++◌, length, take, drop, ◌==◌, Bool-cases, ==_iff,
}
use panix.Prelude.Int.{ℤ, pos}
use panix.Libc.{Memory}
use panix.Libc.Text.{IsText}
use panix.Strings.{BaseString, as_int, substr, of_chars, empty_text, copy, assign}
use panix.Strings.Same.{IsString, take_longer}
use panix.Strings.Part.{IsText-end, length-drop}
use panix.Strings.Substr.{part_text, substr-part, substr-keeps}
use panix.Strings.Copied.{copy-IsString, copy-keeps}
use panix.Vfs.Slash.{
  as_int-small, get-out, NoSlash, EndsInSlash, take-drop, NoSlash-drop, EndsInSlash-take, IsCut,
  last_slash-IsCut, name_start, name_start-le, IsCut-name_start,
}
use panix.Vfs.{last_slash, search_from, next, take_part, decompose_path}

substr-chars :
    (at start end : ℕ) (s : BaseString) (m : Memory)
    → ((substr at (pos start) (pos end) s m).0).chars ≡ at
unfolding substr of_chars empty_text
substr-chars at start end s m = elim (Bool-cases (end == start)) [
  | inl same ↦ rw same refl
  | inr other ↦ rw other refl
]

-- A block of `n` bytes and one of `k` do not overlap.
abbrev pub Apart : ℕ → ℕ → ℕ → ℕ → Type 0
Apart a n b k = (a + n ≤ b) ⊎ (b + k ≤ a)

-- A part of a path, in blocks apart from what is in use.
module _ (at to start end : ℕ) (s : BaseString) (m : Memory) (xs ts : List ℕ) (h : IsString m s xs)
    (order : start ≤ end) (inside : end ≤ length xs + 1) (small : s.len < 2 ^ 31)
    (is_part : part_text start end xs ≡ ts) (apart : Apart s.chars s.len at (length ts + 1))
    (room : Apart at (length ts + 1) to (length ts + 1)) (owned : at ≢ 0) where
  count : length (part_text start end xs) ≡ length ts
  count = ap length is_part

  part-IsString :
      IsString
        ((substr at (pos start) (pos end) s m).1)
        ((substr at (pos start) (pos end) s m).0)
        ts
  part-IsString =
      subst
        (IsString ((substr at (pos start) (pos end) s m).1)
          ((substr at (pos start) (pos end) s m).0))
        is_part
        (substr-part at start end s m xs h order inside (omega arith) (omega (arith, count)) owned)

  take_part-IsString :
      to ≢ 0
      → IsString
          ((take_part at to (pos start) (pos end) s m).1)
          ((take_part at to (pos start) (pos end) s m).0)
          ts
  unfolding take_part assign
  take_part-IsString owned_to =
      let size = part-IsString.size in
      let place = substr-chars at start end s m in
      copy-IsString to ((substr at (pos start) (pos end) s m).0)
        ((substr at (pos start) (pos end) s m).1) (omega arith) ts part-IsString owned_to

  take_part-keeps :
      (t : BaseString) (zs : List ℕ)
      → IsString m t zs
      → Apart t.chars t.len at (length ts + 1)
      → Apart t.chars t.len to (length ts + 1)
      → IsString ((take_part at to (pos start) (pos end) s m).1) t zs
  unfolding take_part assign
  take_part-keeps t zs g far far_to =
      let size = part-IsString.size in
      let place = substr-chars at start end s m in
      copy-keeps to ((substr at (pos start) (pos end) s m).0)
        ((substr at (pos start) (pos end) s m).1) (omega arith) t zs
        (substr-keeps at start end s m xs h order inside (omega arith) (omega (arith, count)) t zs g
          (omega (arith, count)))
        (omega arith)

-- The new string is at `to`.
take_part-chars :
    (at to : ℕ) (start end : ℤ) (s : BaseString) (m : Memory)
    → ((take_part at to start end s m).0).chars ≡ to
unfolding take_part assign copy
take_part-chars at to start end s m = refl

-- The first round of the loop looks at the place behind the end, where `operator []` gives 0.
search-IsCut :
    (s : BaseString) (m : Memory) (xs : List ℕ)
    → IsString m s xs
    → s.len < 2 ^ 31
    → (next (search_from (as_int s.len) s m) ≡ pos (name_start xs))
      × (name_start xs ≤ length xs)
      × IsCut m s s.len (name_start xs)
unfolding last_slash
search-IsCut s m xs h small =
    let (cut, run, c) = last_slash-IsCut s.len s m small (omega arith) in
    let size = h.size in
    let bound = c.bounded in
    let inside : cut ≤ length xs = elim c.at_slash [
      | inl none_there ↦ omega arith
      | inr slash ↦ elim (Bool-cases (cut == length xs + 1)) [
        | inl all ↦
            let eq = (==_iff cut (length xs + 1)).0 all in
            let last : cut - 1 ≡ length xs = omega arith in
            let end : m (s.chars + length xs) ≡ 0 = IsText-end m s.chars xs h.text in
            let there : m (s.chars + length xs) ≡ b'/' =
              ap (λ j. m (s.chars + j)) (sym last) ∙ slash in
            absurd (omega arith)
        | inr less ↦ ground arith
      ]
    ] in
    let same = IsCut-name_start m s s.len cut xs h.text c inside (omega arith) in
    rw (as_int-small s.len small, get-out s m small)
      (run ∙ ap pos same, name_start-le xs, subst (IsCut m s s.len) same c)

sub_zero : (n : ℕ) → n - 0 ≡ n
sub_zero n = omega arith

behind-text :
    (start : ℕ) (xs : List ℕ)
    → start ≤ length xs
    → part_text start (length xs + 1) xs ≡ drop start xs
behind-text start xs le =
    let long = length-drop start xs in
    take_longer (length xs + 1 - start) (drop start xs) (omega arith)

EndsInSlash-cut :
    (m : Memory) (s : BaseString) (cut : ℕ) (xs : List ℕ)
    → IsText m s.chars xs
    → cut ≤ length xs
    → IsCut m s s.len cut
    → EndsInSlash (take cut xs)
EndsInSlash-cut m s zero xs t h c = tt
EndsInSlash-cut m s (suc n) xs t h c = elim c.at_slash [
  | inl none_there ↦ absurd (omega arith)
  | inr slash ↦
      let back : suc n - 1 ≡ n = omega arith in
      EndsInSlash-take m s.chars n xs t (omega arith) (ap (λ j. m (s.chars + j)) (sym back) ∙ slash)
]

-- The text up to the last slash, and behind it.
abbrev pub dir_text : List ℕ → List ℕ
dir_text xs = take (name_start xs) xs

abbrev pub file_text : List ℕ → List ℕ
file_text xs = drop (name_start xs) xs

-- The bytes of a text and of its end.
abbrev pub bytes_of : List ℕ → ℕ
bytes_of xs = length xs + 1

-- `DecomposePath` of a string that holds a text, with a length below 2 ^ 31, where each block of memory that it is given,
-- none of them null, is apart from those in use then: the path, the first part and the directory, and in the second step the path, the
-- directory and the second part. The directory then holds the text up to the last slash and the file what is behind it:
-- they make the path together, the directory is empty or ends in a slash, and the file has no slash.
pub decompose_path-splits :
    (at1 at2 at3 at4 : ℕ) (path : BaseString) (m : Memory) (xs : List ℕ)
    → IsString m path xs
    → path.len < 2 ^ 31
    → (at1 ≢ 0) × (at2 ≢ 0) × (at3 ≢ 0) × (at4 ≢ 0)
    → Apart path.chars path.len at1 (bytes_of (dir_text xs))
    → Apart path.chars path.len at2 (bytes_of (dir_text xs))
    → Apart at1 (bytes_of (dir_text xs)) at2 (bytes_of (dir_text xs))
    → Apart path.chars path.len at3 (bytes_of (file_text xs))
    → Apart at2 (bytes_of (dir_text xs)) at3 (bytes_of (file_text xs))
    → Apart at2 (bytes_of (dir_text xs)) at4 (bytes_of (file_text xs))
    → Apart at3 (bytes_of (file_text xs)) at4 (bytes_of (file_text xs))
    → IsString
        ((decompose_path at1 at2 at3 at4 path m).1)
        (((decompose_path at1 at2 at3 at4 path m).0).dir)
        (dir_text xs)
      × IsString
          ((decompose_path at1 at2 at3 at4 path m).1)
          (((decompose_path at1 at2 at3 at4 path m).0).file)
          (file_text xs)
      × (dir_text xs ++ file_text xs ≡ xs)
      × EndsInSlash (dir_text xs)
      × NoSlash (file_text xs)
unfolding decompose_path
decompose_path-splits at1 at2 at3 at4 path m xs h small (n1, n2, n3, n4) p1 p2 a12 p3 a23 a24 a34 =
    let size = h.size in
    let start = name_start xs in
    let (run, le, c) = search-IsCut path m xs h small in
    let m1 = (take_part at1 at2 (pos 0) (pos start) path m).1 in
    let dir = (take_part at1 at2 (pos 0) (pos start) path m).0 in
    let whole : as_int path.len ≡ pos (length xs + 1) = as_int-small path.len small ∙ ap pos size in
    let first : part_text 0 start xs ≡ dir_text xs = ap (λ n. take n xs) (sub_zero start) in
    let second : part_text start (length xs + 1) xs ≡ file_text xs = behind-text start xs le in
    let first_part =
      take_part-IsString at1 at2 0 start path m xs (dir_text xs) h (omega arith) (omega arith) small
        first p1 a12 n1 n2 in
    let kept =
      take_part-keeps at1 at2 0 start path m xs (dir_text xs) h (omega arith) (omega arith) small
        first p1 a12 n1 path xs h p1 p2 in
    let dir_size = first_part.size in
    let dir_place : dir.chars ≡ at2 = take_part-chars at1 at2 (pos 0) (pos start) path m in
    let second_part =
      take_part-IsString at3 at4 start (length xs + 1) path m1 xs (file_text xs) kept (omega arith)
        (omega arith) small second p3 a34 n3 n4 in
    let dir_kept =
      take_part-keeps at3 at4 start (length xs + 1) path m1 xs (file_text xs) kept (omega arith)
        (omega arith) small second p3 a34 n3 dir (dir_text xs) first_part (omega arith)
        (omega arith) in
    rw (run, whole)
      (
        dir_kept,
        second_part,
        take-drop start xs,
        EndsInSlash-cut m path start xs h.text le c,
        NoSlash-drop m path.chars start xs h.text (λ j lo hi. c.none_after j lo (omega arith)),
      )

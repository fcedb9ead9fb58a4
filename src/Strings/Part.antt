-- ===== src/Strings/Part.antt =====
-- The constructor of ds/string.h from a part of a text.
use panix.Prelude.{
  ℕ, zero, suc, ◌+◌, ◌-◌, ◌%◌, ◌^◌, ◌<◌, ◌≤◌, ◌≡◌, ◌≢◌, ◌⊎◌, refl, ap, sym, ◌∙◌, subst, arith, List,
  [], ◌∷◌, length, take, drop, ◌==◌, Bool-cases, inl, inr, ==_iff,
}
use panix.Libc.{Memory, write, copy_up}
use panix.Libc.Text.{IsText, IsText-take, IsText-frame, take-length}
use panix.Libc.Copy.{copy_up-copied}
use panix.Strings.{BaseString, size_of, of_chars}
use panix.Strings.Same.{IsString, take_longer}

add_zero : (p : ℕ) → p + 0 ≡ p
add_zero p = omega arith

pub length-drop : (n : ℕ) (xs : List ℕ) → length (drop n xs) ≡ length xs - n
length-drop zero xs = omega arith
length-drop (suc n) [] = omega arith
length-drop (suc n) (x ∷ xs) = length-drop n xs ∙ omega arith

pub length-take : (n : ℕ) (xs : List ℕ) → n ≤ length xs → length (take n xs) ≡ n
length-take zero xs h = refl
length-take (suc n) [] h = absurd (omega arith)
length-take (suc n) (x ∷ xs) h = ap suc (length-take n xs (omega arith))

pub length-take_le : (n : ℕ) (xs : List ℕ) → length (take n xs) ≤ length xs
length-take_le zero xs = omega arith
length-take_le (suc n) [] = omega arith
length-take_le (suc n) (x ∷ xs) = let rest = length-take_le n xs in omega arith

pub IsText-drop :
    (m : Memory) (p n : ℕ) (xs : List ℕ)
    → IsText m p xs
    → n ≤ length xs
    → IsText m (p + n) (drop n xs)
IsText-drop m p zero xs t h = subst (λ a. IsText m a xs) (sym (add_zero p)) t
IsText-drop m p (suc n) [] t h = absurd (omega arith)
IsText-drop m p (suc n) (x ∷ xs) (e, gt, t) h =
    let place : p + 1 + n ≡ p + suc n = omega arith in
    subst (λ a. IsText m a (drop n xs)) place (IsText-drop m (p + 1) n xs t (omega arith))

-- The end of a text is the first byte that is 0.
pub IsText-end : (m : Memory) (p : ℕ) (xs : List ℕ) → IsText m p xs → m (p + length xs) ≡ 0
IsText-end m p [] t = ap m (add_zero p) ∙ t
IsText-end m p (x ∷ xs) (e, gt, t) =
    let place : p + suc (length xs) ≡ p + 1 + length xs = omega arith in
    ap m place ∙ IsText-end m (p + 1) xs t

pub IsText-byte :
    (m : Memory) (p i : ℕ) (xs : List ℕ) → IsText m p xs → i < length xs → m (p + i) ≢ 0
IsText-byte m p i [] t h = absurd (omega arith)
IsText-byte m p zero (x ∷ xs) (e, gt, t) h = let here_p = ap m (add_zero p) in omega arith
IsText-byte m p (suc i) (x ∷ xs) (e, gt, t) h =
    let place : p + suc i ≡ p + 1 + i = omega arith in
    let rest = IsText-byte m (p + 1) i xs t (omega arith) in
    λ zero_at. rest (sym (ap m place) ∙ zero_at)

-- The bytes that the constructor leaves: the copy, and a 0 behind the first `k` of them.
pub part : ℕ → ℕ → ℕ → ℕ → Memory → Memory
part at str n k m = write (copy_up n 0 at str m) (at + k) 0

module _ (at str n k : ℕ) (m : Memory) (apart : (at + k < str) ⊎ (str + n ≤ at)) (fits : k ≤ n)
    (all : n ≤ suc k) where
  sub_at : (j : ℕ) → str + (at + j - at) ≡ str + j
  sub_at j = omega arith

  part-at : (j : ℕ) → j < k → part at str n k m (at + j) ≡ m (str + j)
  unfolding part write
  part-at j lt = ground (arith, copy_up-copied n 0 at str m (omega arith) (at + j), ap m (sub_at j))

  part-end : part at str n k m (at + k) ≡ 0
  unfolding part write
  part-end = ground arith

  part-other : (a : ℕ) → (a < at) ⊎ (at + k < a) → part at str n k m a ≡ m a
  unfolding part write
  part-other a far = ground (arith, copy_up-copied n 0 at str m (omega arith) a)

  part-IsText :
      (ys : List ℕ) → IsText m str ys → k ≤ length ys → IsText (part at str n k m) at (take k ys)
  part-IsText ys t short = IsText-take k m (part at str n k m) str at ys t short part-at part-end

-- The constructor of `n` bytes keeps the end that they may have, or adds one.
pub of_chars-part :
    (at str n k : ℕ) (m : Memory)
    → size_of str n m ≡ suc k
    → of_chars at str n m ≡ (record { len = suc k; chars = at }, part at str n k m)
unfolding of_chars part
of_chars-part at str n k m e = let back : suc k - 1 ≡ k = omega arith in rw (e, back) refl

size_of-ended : (str k : ℕ) (m : Memory) → m (str + k) ≡ 0 → size_of str (suc k) m ≡ suc k
unfolding size_of
size_of-ended str k m e = let back : suc k - 1 ≡ k = omega arith in rw (back, e) (ground arith)

size_of-open :
    (str k : ℕ) (m : Memory)
    → m (str + k) ≢ 0
    → suc (suc k) < 2 ^ 64
    → size_of str (suc k) m ≡ suc (suc k)
unfolding size_of
size_of-open str k m n small = let back : suc k - 1 ≡ k = omega arith in rw back (ground arith)

-- The new string holds the first `k` bytes of the text at `str`.
pub of_chars-IsString :
    (at str n k : ℕ) (m : Memory) (ys : List ℕ)
    → (at + k < str) ⊎ (str + n ≤ at)
    → k ≤ n
    → n ≤ suc k
    → size_of str n m ≡ suc k
    → at ≢ 0
    → IsText m str ys
    → k ≤ length ys
    → IsString ((of_chars at str n m).1) ((of_chars at str n m).0) (take k ys)
of_chars-IsString at str n k m ys apart fits all size owned t short =
    rw (of_chars-part at str n k m size) (record {
      text = part-IsText at str n k m apart fits all ys t short;
      size = ap suc (sym (length-take k ys short)) ∙ omega arith;
      owned = owned;
    })

pub write-other : (m : Memory) (p a : ℕ) → p ≢ a → write m p 0 a ≡ m a
unfolding write
write-other m p a n = ground arith

-- What the source of a part keeps.
module _ (at str n k : ℕ) (m : Memory) (apart : (at + k < str) ⊎ (str + n ≤ at)) (fits : k ≤ n)
    (all : n ≤ suc k) where
  pub source-kept :
      (s : BaseString) (xs : List ℕ)
      → (at + k < s.chars) ⊎ (s.chars + s.len ≤ at)
      → IsString m s xs
      → IsString (part at str n k m) s xs
  source-kept s xs clear h =
      let size = h.size in
      record {
        text =
            IsText-frame m (part at str n k m) s.chars xs
              (λ a lo hi. part-other at str n k m apart fits all a (omega arith)) h.text;
        size = h.size;
        owned = h.owned;
      }

-- The bytes that a `Substr` of `n` bytes keeps: all but the end.
pub part_size :
    (m : Memory) (str n : ℕ) (ys : List ℕ)
    → IsText m str ys
    → 0 < n
    → n ≤ length ys + 1
    → n < 2 ^ 63
    → (k : ℕ) × (size_of str n m ≡ suc k)
      × (k ≤ n)
      × (n ≤ suc k)
      × (k ≤ length ys)
      × (take k ys ≡ take n ys)
part_size m str zero ys t some_bytes short small = absurd (omega arith)
part_size m str (suc n) ys t some_bytes short small = elim (Bool-cases (n == length ys)) [
  | inl whole ↦
      let eq = (==_iff n (length ys)).0 whole in
      let ended = ap (λ j. m (str + j)) eq ∙ IsText-end m str ys t in
      let all : take (length ys) ys ≡ ys = take-length ys in
      (
        n,
        size_of-ended str n m ended,
        omega arith,
        omega arith,
        omega arith,
        ap (λ j. take j ys) eq ∙ all ∙ sym (take_longer (suc n) ys (omega arith)),
      )
  | inr inner ↦ (
    suc n,
    size_of-open str n m (IsText-byte m str n ys t (ground arith)) (omega arith),
    omega arith,
    omega arith,
    ground arith,
    refl,
  )
]

pub distance :
    (start end : ℕ) → start < end → end < 2 ^ 63 → (end + 2 ^ 64 - start) % 2 ^ 64 ≡ end - start
distance start end lt small = omega arith

pub empty-IsString :
    (at : ℕ) (m : Memory) → at ≢ 0 → IsString (write m at 0) (record { len = 1; chars = at }) []
unfolding write
empty-IsString at m owned = record { text = ground arith; size = refl; owned = owned }

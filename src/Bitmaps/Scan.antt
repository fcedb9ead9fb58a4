-- ===== src/Bitmaps/Scan.antt =====
-- The search of sys/fs/ext2_mount.cpp for a word of a bitmap that has a bit 0.
use panix.Prelude.{
  ℕ, zero, suc, ◌+◌, ◌-◌, ◌*◌, ◌/◌, ◌%◌, ◌^◌, ◌<◌, ◌≤◌, ◌≡◌, ◌≢◌, refl, ap, sym, ◌∙◌, Option, none,
  some, arith, List, Bool, true, false, ◌==◌, Bool-cases, inl, inr, max, ==_iff, get_elem?, set,
  length, get_elem?-lt, subst,
}
use Prim.Native.Nat.{bit_or}
use panix.Prelude.Run.{Returns}
use panix.Prelude.Bits.{bit, bit-lt, bit-ext, bit-or, bit_of_zero}
use panix.Prelude.Masks.{bit_of_complement}
use panix.Bitmaps.{scan, taken}
use panix.Bitmaps.Words.{ffs-bit, IsBitmap, Marks}

-- `w | 1`
or_one-half : (w : ℕ) → bit_or w 1 / 2 ≡ w / 2
or_one-half w =
    bit-ext _ _ λ i. bit-or (suc i) w 1 ∙ ap (max (bit (w / 2) i)) (bit_of_zero i) ∙ omega arith

or_one-low : (w : ℕ) → bit_or w 1 % 2 ≡ 1
or_one-low w = bit-or 0 w 1 ∙ omega arith

-- The words with nothing to take: one that is full, and, as the first of the first group, one in which only
-- bit 0 is 0.
abbrev pub IsOpen : Bool → ℕ → ℕ → Type 0
IsOpen first j w = (first ≡ true) → (j ≡ 0) → w ≢ 2 ^ 64 - 2

later_word : (j w : ℕ) → taken true (suc j) w ≡ w
later_word j w = ground arith

even_word : (w : ℕ) → w < 2 ^ 64 → w ≢ 2 ^ 64 - 1 → 2 ^ 64 - 1 - bit_or w 1 ≡ 0 → w ≡ 2 ^ 64 - 2
even_word w small ne e = omega (arith, or_one-half w, or_one-low w)

taken-lt : (first : Bool) (j w : ℕ) → w < 2 ^ 64 → taken first j w < 2 ^ 64
taken-lt false j w small = small
taken-lt true zero w small = omega (arith, or_one-half w, or_one-low w)
taken-lt true (suc j) w small = rw (later_word j w) small

taken-open :
    (first : Bool) (j w : ℕ)
    → w < 2 ^ 64
    → IsOpen first j w
    → w ≢ 2 ^ 64 - 1
    → 2 ^ 64 - 1 - taken first j w ≢ 0
taken-open false j w small usable ne e = ne (omega arith)
taken-open true zero w small usable ne e =
    let e' : 2 ^ 64 - 1 - bit_or w 1 ≡ 0 = e in usable refl refl (even_word w small ne e')
taken-open true (suc j) w small usable ne e =
    let e' : 2 ^ 64 - 1 - w ≡ 0 = ap (λ x. 2 ^ 64 - 1 - x) (sym (later_word j w)) ∙ e in
    ne (omega arith)

taken-bit : (first : Bool) (j w k : ℕ) → bit (taken first j w) k ≡ 0 → bit w k ≡ 0
taken-bit false j w k h = h
taken-bit true zero w k h = omega (arith, sym (bit-or k w 1) ∙ h)
taken-bit true (suc j) w k h = ap (λ x. bit x k) (sym (later_word j w)) ∙ h

-- What the search from word `j` on returns: none where every word is full, else one more than the index of
-- the bit that it marked.
pub data Scanned (words : List ℕ) (j : ℕ) : Option (ℕ × List ℕ) → Type 0 where
  full :
      ((i : ℕ) → j ≤ i → i < length words → get_elem? words i ≡ some (2 ^ 64 - 1))
      → Scanned words j none
  marked : (n : ℕ) (after : List ℕ) → Marks words n after → Scanned words j (some (suc n, after))

Marks-at :
    (words : List ℕ) (j k w : ℕ)
    → k < 64
    → get_elem? words j ≡ some w
    → bit w k ≡ 0
    → Marks words (j * 64 + k) (set words j (bit_or w (2 ^ k)))
Marks-at words j k w lt there zero_bit =
    let row : (j * 64 + k) / 64 ≡ j = omega arith in
    let column : (j * 64 + k) % 64 ≡ k = omega arith in
    record {
      word = w;
      there = rw row there;
      clear = rw column zero_bit;
      set_word = rw (row, column) refl;
    }

-- A full word before the others.
earlier :
    (words : List ℕ) (j : ℕ) (r : Option (ℕ × List ℕ))
    → get_elem? words j ≡ some (2 ^ 64 - 1)
    → Scanned words (j + 1) r
    → Scanned words j r
earlier words j none e (full later) = full λ i lo hi. elim (Bool-cases (i == j)) [
  | inl here ↦ ap (get_elem? words) ((==_iff i j).0 here) ∙ e
  | inr apart ↦ later i (ground arith) hi
]
earlier words j (some _) e (marked n after m) = marked n after m

first_usable :
    (first : Bool) (words : List ℕ) (j w : ℕ)
    → get_elem? words j ≡ some w
    → ((w : ℕ) → get_elem? words 0 ≡ some w → IsOpen first 0 w)
    → IsOpen first j w
first_usable first words j w there usable f z =
    usable w (ap (get_elem? words) (sym z) ∙ there) f refl

complement_bit : (x k : ℕ) → x < 2 ^ 64 → k < 64 → bit (2 ^ 64 - 1 - x) k ≡ 1 → bit x k ≡ 0
complement_bit x k small lt one =
    omega (arith, sym (bit_of_complement 64 x k small lt) ∙ one, bit-lt x k)

next_bit : (j k : ℕ) → j * 64 + suc k ≡ suc (j * 64 + k)
next_bit j k = omega arith

result :
    (words : List ℕ) (j k : ℕ) (after : List ℕ)
    → Marks words (j * 64 + k) after
    → Scanned words j (some (j * 64 + suc k, after))
result words j k after m =
    subst (λ n. Scanned words j (some (n, after))) (sym (next_bit j k))
      (marked (j * 64 + k) after m)

pub scan-Scanned :
    (rounds j : ℕ) (first : Bool) (words : List ℕ)
    → IsBitmap words
    → ((w : ℕ) → get_elem? words 0 ≡ some w → IsOpen first 0 w)
    → rounds + j ≡ length words
    → Returns (scan rounds j first words) (Scanned words j)
unfolding scan
scan-Scanned zero j first words bounded usable len =
    (none, refl, full λ i lo hi. absurd (omega arith))
scan-Scanned (suc rounds) j first words bounded usable len =
    let (w, there) = get_elem?-lt words j (omega arith) in
    elim (Bool-cases (w == 2 ^ 64 - 1)) [
      | inl all ↦
          rw (there, all)
            (let (r, run, found) =
                scan-Scanned rounds (j + 1) first words bounded usable (omega arith) in
              (r, run, earlier words j r (there ∙ ap some ((==_iff w (2 ^ 64 - 1)).0 all)) found))
      | inr some_clear ↦
          let ne : w ≢ 2 ^ 64 - 1 = ground arith in
          rw (there, some_clear)
            (elim (ffs-bit (2 ^ 64 - 1 - taken first j w) (omega arith)) [
              | inl gone ↦ absurd (
                  taken-open first j w (bounded j w there)
                    (first_usable first words j w there usable) ne gone)
              | inr (k, e, lt, one) ↦
                  let clear : bit w k ≡ 0 = taken-bit first j w k (
                    complement_bit (taken first j w) k (taken-lt first j w (bounded j w there)) lt
                      one) in
                  rw e (
                    _,
                    refl,
                    result words j k (set words j (bit_or w (2 ^ k)))
                        (Marks-at words j k w lt there clear),
                  )
            ])
    ]

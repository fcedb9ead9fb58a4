-- ===== src/Strings/Substr.antt =====
-- `Substr` of ds/string.h: the new string, and what it spares.
use panix.Prelude.{
  ℕ, ◌+◌, ◌-◌, ◌^◌, ◌<◌, ◌≤◌, ◌≡◌, ◌≢◌, ◌⊎◌, ap, sym, ◌∙◌, arith, List, length, take, drop, ◌==◌,
  Bool-cases, inl, inr, ==_iff,
}
use panix.Prelude.Int.{pos}
use panix.Libc.{Memory, write}
use panix.Libc.Text.{IsText-frame}
use panix.Strings.{BaseString, empty_text, substr}
use panix.Strings.Same.{IsString}
use panix.Strings.Part.{
  source-kept, part_size, distance, empty-IsString, write-other, of_chars-IsString, of_chars-part,
  IsText-drop, length-drop, length-take, length-take_le,
}

-- The text of the part.
abbrev pub part_text : ℕ → ℕ → List ℕ → List ℕ
part_text start end xs = take (end - start) (drop start xs)

module _ (at start end : ℕ) (s : BaseString) (m : Memory) (xs : List ℕ) (h : IsString m s xs)
    (order : start ≤ end) (inside : end ≤ length xs + 1) (small : s.len < 2 ^ 63)
    (clear : (at + length (part_text start end xs) < s.chars) ⊎ (s.chars + s.len ≤ at)) where
  -- `Substr` spares the strings that its new block is apart from.
  pub substr-keeps :
      (t : BaseString) (zs : List ℕ)
      → IsString m t zs
      → (at + length (part_text start end xs) < t.chars) ⊎ (t.chars + t.len ≤ at)
      → IsString ((substr at (pos start) (pos end) s m).1) t zs
  unfolding substr empty_text
  substr-keeps t zs g far =
      let size = h.size in
      let size' = g.size in
      elim (Bool-cases (end == start)) [
        | inl same ↦ rw same (record {
          text =
              IsText-frame m (write m at 0) t.chars zs (λ a lo hi. write-other m at a (omega arith))
                g.text;
          size = g.size;
          owned = g.owned;
        })
        | inr other ↦
            let lt : start < end = ground arith in
            let ys = drop start xs in
            let text = IsText-drop m s.chars start xs h.text (omega arith) in
            let long = length-drop start xs in
            let (k, kept, fits, all, short, bytes) =
              part_size m (s.chars + start) (end - start) ys text (omega arith) (omega arith)
                (omega arith) in
            let count : k ≡ length (part_text start end xs) =
              sym (length-take k ys short) ∙ ap length bytes in
            rw
              (
                other,
                distance start end lt (omega arith),
                of_chars-part at (s.chars + start) (end - start) k m kept,
              )
              (source-kept at (s.chars + start) (end - start) k m (omega arith) fits all t zs
                (omega arith) g)
      ]

  -- The new string holds the part, in a block of as many bytes and one more.
  pub substr-part :
      at ≢ 0
      → IsString
          ((substr at (pos start) (pos end) s m).1)
          ((substr at (pos start) (pos end) s m).0)
          (part_text start end xs)
  unfolding substr empty_text
  substr-part owned =
      let size = h.size in
      elim (Bool-cases (end == start)) [
        | inl same ↦
            let eq = (==_iff end start).0 same in
            let none_left : end - start ≡ 0 = omega arith in
            rw (same, none_left) (empty-IsString at m owned)
        | inr other ↦
            let lt : start < end = ground arith in
            let ys = drop start xs in
            let t = IsText-drop m s.chars start xs h.text (omega arith) in
            let long = length-drop start xs in
            let (k, kept, fits, all, short, bytes) =
              part_size m (s.chars + start) (end - start) ys t (omega arith) (omega arith)
                (omega arith) in
            let count : k ≡ length (part_text start end xs) =
              sym (length-take k ys short) ∙ ap length bytes in
            rw (other, distance start end lt (omega arith), ← bytes)
              (of_chars-IsString at (s.chars + start) (end - start) k m ys (omega arith) fits all
                kept owned t short)
      ]

-- `Substr` of a string that holds a text, between two places of the text or of its end, into memory apart from it: the new
-- string holds the bytes of the text between the two places, and the old one its text.
pub substr-IsString :
    (at start end : ℕ) (s : BaseString) (m : Memory) (xs : List ℕ)
    → IsString m s xs
    → start ≤ end
    → end ≤ length xs + 1
    → s.len < 2 ^ 63
    → at ≢ 0
    → (at + s.len < s.chars) ⊎ (s.chars + s.len ≤ at)
    → IsString
        ((substr at (pos start) (pos end) s m).1)
        ((substr at (pos start) (pos end) s m).0)
        (take (end - start) (drop start xs))
      × IsString ((substr at (pos start) (pos end) s m).1) s xs
substr-IsString at start end s m xs h order inside small owned clear =
    let size = h.size in
    let long = length-drop start xs in
    let short = length-take_le (end - start) (drop start xs) in
    (
      substr-part at start end s m xs h order inside small (omega arith) owned,
      substr-keeps at start end s m xs h order inside small (omega arith) s xs h (omega arith),
    )

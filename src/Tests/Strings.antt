-- ===== src/Tests/Strings.antt =====
-- The theorems on ds/string.h at a memory with two texts.
use panix.Prelude.{
  ℕ, ◌≡◌, ◌-◌, ◌↔◌, refl, inr, arith, true, List, [], ◌∷◌, ◌==◌, if◌then◌else◌, take, drop,
}
use panix.Prelude.Int.{pos}
use panix.Prelude.Run.{Returns}
use panix.Libc.{Memory}
use panix.Strings.{BaseString, equal, substr}
use panix.Strings.Same.{IsString, equal_iff}
use panix.Strings.Substr.{substr-IsString}

-- "ab" at 10 and "ac" at 20.
abbrev two_texts : Memory
two_texts a =
    if a == 10
    then b'a'
    else if a == 11
    then b'b'
    else if a == 20
    then b'a'
    else if a == 21
    then b'c'
    else 0

abbrev ab_bytes : List ℕ
ab_bytes = b'a' ∷ b'b' ∷ []

abbrev ac_bytes : List ℕ
ac_bytes = b'a' ∷ b'c' ∷ []

abbrev ab_string : BaseString
ab_string = record { len = 3; chars = 10 }

abbrev ac_string : BaseString
ac_string = record { len = 3; chars = 20 }

ab_string-IsString : IsString two_texts ab_string ab_bytes
ab_string-IsString = record {
  text = (refl, omega arith, (refl, omega arith, refl));
  size = refl;
  owned = omega arith;
}

ac_string-IsString : IsString two_texts ac_string ac_bytes
ac_string-IsString = record {
  text = (refl, omega arith, (refl, omega arith, refl));
  size = refl;
  owned = omega arith;
}

equal_iff_example :
    Returns (equal 5 ab_string ac_string two_texts) λ same. (same ≡ true) ↔ (ab_bytes ≡ ac_bytes)
equal_iff_example =
    equal_iff 5 ab_string ac_string two_texts ab_bytes ac_bytes ab_string-IsString
      ac_string-IsString (omega arith) (omega arith)

substr-IsString_example :
    IsString
      ((substr 30 (pos 1) (pos 3) ab_string two_texts).1)
      ((substr 30 (pos 1) (pos 3) ab_string two_texts).0)
      (take (3 - 1) (drop 1 ab_bytes))
    × IsString ((substr 30 (pos 1) (pos 3) ab_string two_texts).1) ab_string ab_bytes
substr-IsString_example =
    substr-IsString 30 1 3 ab_string two_texts ab_bytes ab_string-IsString (omega arith)
      (omega arith) (omega arith) (omega arith) (inr (omega arith))

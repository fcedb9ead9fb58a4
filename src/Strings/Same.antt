-- ===== src/Strings/Same.antt =====
-- `operator ==` of ds/string.h against the equality of texts.
use panix.Prelude.{
  ℕ, zero, suc, ◌+◌, ◌^◌, ◌<◌, ◌≡◌, ◌≢◌, ◌↔◌, refl, ap, sym, ◌∙◌, subst, arith, true, false, List,
  [], ◌∷◌, length, take, ◌==◌, Bool-cases, inl, inr, ==_iff,
}
use panix.Prelude.Int.{ℤ, pos, negsuc}
use panix.Prelude.Run.{Returns}
use panix.Libc.{Memory}
use panix.Libc.Text.{IsText}
use panix.Libc.Order.{strncmp-Compares}
use panix.Strings.{BaseString, is_zero, equal}

-- The string has its own bytes, which are the text, and its length counts the end.
pub record IsString (m : Memory) (s : BaseString) (xs : List ℕ) : Type 0 where
  pub text : IsText m s.chars xs
  pub size : s.len ≡ length xs + 1
  pub owned : s.chars ≢ 0

pub take_longer : (n : ℕ) (xs : List ℕ) → length xs < n → take n xs ≡ xs
take_longer zero xs h = elim h [ ]
take_longer (suc n) [] h = refl
take_longer (suc n) (x ∷ xs) h = ap (λ t. x ∷ t) (take_longer n xs (omega arith))

is_zero_iff : (r : ℤ) → (is_zero r ≡ true) ↔ (r ≡ pos 0)
is_zero_iff (pos n) = (λ e. ap pos ((==_iff n 0).0 e), λ e. ap is_zero e)
is_zero_iff (negsuc n) = (λ e. ground arith, λ e. ap is_zero e)

-- `==` of two strings that hold texts, the lengths below 2 ^ 64, ends with more rounds than the first text has bytes, and
-- is true exactly where the texts are the same.
pub equal_iff :
    (fuel : ℕ) (lhs rhs : BaseString) (m : Memory) (xs ys : List ℕ)
    → IsString m lhs xs
    → IsString m rhs ys
    → length xs < fuel
    → lhs.len < 2 ^ 64
    → Returns (equal fuel lhs rhs m) λ same. (same ≡ true) ↔ (xs ≡ ys)
unfolding equal
equal_iff fuel lhs rhs m xs ys l r enough small = elim (Bool-cases (lhs.len == rhs.len)) [
  | inr other ↦
      let ne : lhs.len ≢ rhs.len = ground arith in
      rw other (
        false,
        refl,
        (λ e. ground arith, λ e. absurd (ne (l.size ∙ ap (λ t. length t + 1) e ∙ sym r.size))),
      )
  | inl same ↦
      let eq : lhs.len ≡ rhs.len = (==_iff lhs.len rhs.len).0 same in
      let owned = l.owned in
      let no_null : (lhs.chars == 0) ≡ false = ground arith in
      let size = l.size in
      let size' = r.size in
      let (order, run, (only, _)) =
        strncmp-Compares fuel lhs.chars rhs.chars lhs.len m xs ys l.text r.text enough (omega arith)
          small in
      let whole : take lhs.len xs ≡ xs = take_longer lhs.len xs (omega arith) in
      let whole' : take lhs.len ys ≡ ys = take_longer lhs.len ys (omega arith) in
      let texts : (order ≡ pos 0) ↔ (xs ≡ ys) =
        subst (λ t. (order ≡ pos 0) ↔ (t ≡ ys)) whole
          (subst (λ t. (order ≡ pos 0) ↔ (take lhs.len xs ≡ t)) whole' only) in
      rw (same, no_null, run)
        (
          is_zero order,
          refl,
          (λ e. texts.0 ((is_zero_iff order).0 e), λ e. (is_zero_iff order).1 (texts.1 e)),
        )
]

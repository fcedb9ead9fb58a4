-- ===== src/Libc/Text.antt =====
-- Texts that end in a NUL byte, and `strlen` of libc/string.cpp.
use panix.Prelude.{
  ℕ, zero, suc, ◌+◌, ◌≤◌, ◌<◌, ◌≡◌, refl, ◌∙◌, ap, sym, subst, arith, List, [], ◌∷◌, ◌++◌, length,
  take,
}
use panix.Prelude.Run.{ok}
use panix.Libc.{Memory, len_from, strlen}

-- The memory holds the text at that address: its bytes, none of them 0, and a 0 behind them.
abbrev pub IsText : Memory → ℕ → List ℕ → Type 0
IsText m p [] = m p ≡ 0
IsText m p (x ∷ xs) = (m p ≡ x) × (0 < x) × IsText m (p + 1) xs

-- A text survives a change of memory that spares its bytes and its end.
pub IsText-frame :
    (m m' : Memory) (p : ℕ) (xs : List ℕ)
    → ((a : ℕ) → p ≤ a → a ≤ p + length xs → m' a ≡ m a)
    → IsText m p xs
    → IsText m' p xs
IsText-frame m m' p [] same h = same p (omega arith) (omega arith) ∙ h
IsText-frame m m' p (x ∷ xs) same (e, n, t) = (
  same p (omega arith) (omega arith) ∙ e,
  n,
  IsText-frame m m' (p + 1) xs (λ a lo hi. same a (omega arith) (omega arith)) t,
)

eq_add_zero : (p : ℕ) → p ≡ p + 0
eq_add_zero p = omega arith

shift : (p j : ℕ) → p + 1 + j ≡ p + suc j
shift p j = omega arith

-- The first bytes of a text move to `q`, with an end behind them.
pub IsText-take :
    (n : ℕ) (m m' : Memory) (p q : ℕ) (xs : List ℕ)
    → IsText m p xs
    → n ≤ length xs
    → ((j : ℕ) → j < n → m' (q + j) ≡ m (p + j))
    → m' (q + n) ≡ 0
    → IsText m' q (take n xs)
IsText-take zero m m' p q xs t h same end = ap m' (eq_add_zero q) ∙ end
IsText-take (suc n) m m' p q [] t h same end = absurd (omega arith)
IsText-take (suc n) m m' p q (x ∷ xs) (e, pos, t) h same end = (
  ap m' (eq_add_zero q) ∙ same 0 (omega arith) ∙ ap m (sym (eq_add_zero p)) ∙ e,
  pos,
  IsText-take n m m' (p + 1) (q + 1) xs t (omega arith)
      (λ j lt. ap m' (shift q j) ∙ same (suc j) (omega arith) ∙ ap m (sym (shift p j)))
      (ap m' (shift q n) ∙ end),
)

pub take-length : (xs : List ℕ) → take (length xs) xs ≡ xs
take-length [] = refl
take-length (x ∷ xs) = ap (λ t. x ∷ t) (take-length xs)

-- The bytes of a text, kept, and a text behind them make their concatenation.
pub IsText-append :
    (m m' : Memory) (p : ℕ) (xs ys : List ℕ)
    → IsText m p xs
    → ((a : ℕ) → p ≤ a → a < p + length xs → m' a ≡ m a)
    → IsText m' (p + length xs) ys
    → IsText m' p (xs ++ ys)
IsText-append m m' p [] ys t same next = subst (λ a. IsText m' a ys) (sym (eq_add_zero p)) next
IsText-append m m' p (x ∷ xs) ys (e, n, t) same next = (
  same p (omega arith) (omega arith) ∙ e,
  n,
  IsText-append m m' (p + 1) xs ys t (λ a lo hi. same a (omega arith) (omega arith))
      (subst (λ a. IsText m' a ys) (sym (shift p (length xs))) next),
)

len_from-length :
    (fuel i p : ℕ) (m : Memory) (xs : List ℕ)
    → IsText m p xs
    → length xs < fuel
    → len_from fuel m i p ≡ ok (i + length xs)
unfolding len_from
len_from-length zero i p m xs t h = elim h [ ]
len_from-length (suc fuel) i p m [] t h = ground arith
len_from-length (suc fuel) i p m (x ∷ xs) (e, n, t) h =
    ground (arith, len_from-length fuel (i + 1) (p + 1) m xs t (omega arith))

-- `strlen` of a text, with more rounds than its length, is that length.
pub strlen-length :
    (fuel p : ℕ) (m : Memory) (xs : List ℕ)
    → IsText m p xs
    → length xs < fuel
    → strlen fuel m p ≡ ok (length xs)
unfolding strlen
strlen-length fuel p m xs t h = ground (arith, len_from-length fuel 0 p m xs t h)

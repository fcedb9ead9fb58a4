-- ===== src/Vfs/Slash.antt =====
-- The last slash of a path, which `DecomposePath` of sys/fs/vfs.cpp looks for.
use panix.Prelude.{
  if◌then◌else◌, ltb, ℕ, zero, suc, ◌+◌, ◌-◌, ◌%◌, ◌^◌, ◌<◌, ◌≤◌, ◌≡◌, ◌≢◌, ◌⊎◌, inl, inr, refl, ap,
  sym, ◌∙◌, arith, true, false, List, [], ◌∷◌, ◌++◌, length, take, drop, ◌==◌, Bool-cases, ==_iff,
}
use panix.Prelude.Int.{pos}
use panix.Libc.{Memory}
use panix.Libc.Text.{IsText}
use panix.Strings.{BaseString, as_int, get, slot}
use panix.Vfs.{last_slash, next}

pub as_int-small : (n : ℕ) → n < 2 ^ 31 → as_int n ≡ pos n
unfolding as_int
as_int-small n h = let low : n % 2 ^ 32 ≡ n = omega arith in rw low (ground arith)

get-in :
    (s : BaseString) (m : Memory) (i : ℕ)
    → s.len < 2 ^ 31
    → i < s.len
    → get (pos i) s m ≡ m (s.chars + i)
unfolding get slot
get-in s m i small h = rw (as_int-small s.len small) (ground arith)

pub get-out : (s : BaseString) (m : Memory) → s.len < 2 ^ 31 → get (pos s.len) s m ≡ 0
unfolding get slot
get-out s m small = rw (as_int-small s.len small) (ground arith)

-- No byte is a slash.
abbrev pub NoSlash : List ℕ → Type 0
NoSlash [] = Unit
NoSlash (x ∷ xs) = (x ≢ b'/') × NoSlash xs

-- The text is empty, or its last byte is a slash.
abbrev pub EndsInSlash : List ℕ → Type 0
EndsInSlash [] = Unit
EndsInSlash (x ∷ []) = x ≡ b'/'
EndsInSlash (x ∷ y ∷ xs) = EndsInSlash (y ∷ xs)

pub take-drop : (n : ℕ) (xs : List ℕ) → take n xs ++ drop n xs ≡ xs
take-drop zero xs = refl
take-drop (suc n) [] = refl
take-drop (suc n) (x ∷ xs) = ap (λ t. x ∷ t) (take-drop n xs)

add_suc : (p j : ℕ) → p + 1 + j ≡ p + suc j
add_suc p j = omega arith

add_zero : (p : ℕ) → p + 0 ≡ p
add_zero p = omega arith

pub NoSlash-drop :
    (m : Memory) (p n : ℕ) (xs : List ℕ)
    → IsText m p xs
    → ((j : ℕ) → n ≤ j → j < length xs → m (p + j) ≢ b'/')
    → NoSlash (drop n xs)
NoSlash-drop m p zero [] t none_there = tt
NoSlash-drop m p (suc n) [] t none_there = tt
NoSlash-drop m p zero (x ∷ xs) (e, gt, t) none_there = (
  λ slash. none_there 0 (omega arith) (omega arith) (ap m (add_zero p) ∙ e ∙ slash),
  NoSlash-drop m (p + 1) zero xs t (λ j lo hi slash.
      none_there (suc j) (omega arith) (omega arith) (sym (ap m (add_suc p j)) ∙ slash)),
)
NoSlash-drop m p (suc n) (x ∷ xs) (e, gt, t) none_there =
    NoSlash-drop m (p + 1) n xs t (λ j lo hi slash.
      none_there (suc j) (omega arith) (omega arith) (sym (ap m (add_suc p j)) ∙ slash))

pub EndsInSlash-take :
    (m : Memory) (p n : ℕ) (xs : List ℕ)
    → IsText m p xs
    → n < length xs
    → m (p + n) ≡ b'/'
    → EndsInSlash (take (suc n) xs)
EndsInSlash-take m p n [] t h slash = tt
EndsInSlash-take m p zero (x ∷ xs) (e, gt, t) h slash = sym e ∙ sym (ap m (add_zero p)) ∙ slash
EndsInSlash-take m p (suc n) (x ∷ []) (e, gt, t) h slash = absurd (omega arith)
EndsInSlash-take m p (suc n) (x ∷ y ∷ xs) (e, gt, t) h slash =
    EndsInSlash-take m (p + 1) n (y ∷ xs) t (omega arith) (ap m (add_suc p n) ∙ slash)

-- Where the loop stops: behind the last slash among the first bytes, or before the first byte.
pub record IsCut (m : Memory) (s : BaseString) (count cut : ℕ) : Type 0 where
  pub bounded : cut ≤ count
  pub at_slash : (cut ≡ 0) ⊎ (m (s.chars + (cut - 1)) ≡ b'/')
  pub none_after : (j : ℕ) → cut ≤ j → j < count → m (s.chars + j) ≢ b'/'

pub last_slash-IsCut :
    (count : ℕ) (s : BaseString) (m : Memory)
    → s.len < 2 ^ 31
    → count ≤ s.len
    → (cut : ℕ) × (next (last_slash count s m) ≡ pos cut) × IsCut m s count cut
unfolding last_slash
last_slash-IsCut zero s m small h = (
  0,
  refl,
  record {
    bounded = omega arith;
    at_slash = inl refl;
    none_after = λ j lo hi. absurd (omega arith);
  },
)
last_slash-IsCut (suc i) s m small h =
    rw (get-in s m i small (omega arith)) (elim (Bool-cases (m (s.chars + i) == b'/')) [
      | inl slash ↦ rw slash (
        suc i,
        refl,
        record {
          bounded = omega arith;
          at_slash =
              inr
                (ap (λ j. m (s.chars + j)) (omega arith) ∙ (==_iff (m (s.chars + i)) b'/').0 slash);
          none_after = λ j lo hi. absurd (omega arith);
        },
      )
      | inr other ↦
          let (cut, run, c) = last_slash-IsCut i s m small (omega arith) in
          rw other (
            cut,
            run,
            record {
              bounded = let b = c.bounded in omega arith;
              at_slash = c.at_slash;
              none_after = λ j lo hi slash. elim (Bool-cases (j == i)) [
                | inl same ↦
                    let eq = ap (λ k. m (s.chars + k)) ((==_iff j i).0 same) in
                    let there = (==_iff (m (s.chars + i)) b'/').1 (sym eq ∙ slash) in
                    let clash : true ≡ false = sym there ∙ other in ground arith
                | inr before ↦ c.none_after j lo (ground arith) slash
              ];
            },
          )
    ])

-- The number of bytes of a text up to its last slash, this one included.
unfoldable pub name_start : List ℕ → ℕ
name_start [] = 0
name_start (x ∷ xs) =
    let rest = name_start xs in if rest == 0 then (if x == b'/' then 1 else 0) else suc rest

pub name_start-le : (xs : List ℕ) → name_start xs ≤ length xs
unfolding name_start
name_start-le [] = omega arith
name_start-le (x ∷ xs) = ground (arith, name_start-le xs)

name_start-slash :
    (m : Memory) (p : ℕ) (xs : List ℕ)
    → IsText m p xs
    → (name_start xs ≡ 0) ⊎ (m (p + (name_start xs - 1)) ≡ b'/')
unfolding name_start
name_start-slash m p [] t = inl refl
name_start-slash m p (x ∷ xs) (e, gt, t) = elim (Bool-cases (name_start xs == 0)) [
  | inl last ↦ elim (Bool-cases (x == b'/')) [
    | inl slash ↦ rw (last, slash) (inr (ap m (add_zero p) ∙ e ∙ (==_iff x b'/').0 slash))
    | inr other ↦ rw (last, other) (inl refl)
  ]
  | inr later ↦ elim (name_start-slash m (p + 1) xs t) [
    | inl none_there ↦ absurd (ground arith)
    | inr there ↦
        let place : p + (suc (name_start xs) - 1) ≡ p + 1 + (name_start xs - 1) = ground arith in
        rw later (inr (ap m place ∙ there))
  ]
]

name_start-after :
    (m : Memory) (p : ℕ) (xs : List ℕ)
    → IsText m p xs
    → (j : ℕ) → name_start xs ≤ j
    → j < length xs
    → m (p + j) ≢ b'/'
unfolding name_start
name_start-after m p [] t j lo hi = absurd (omega arith)
name_start-after m p (x ∷ xs) (e, gt, t) zero lo hi =
    let other : x ≢ b'/' = ground arith in λ slash. other (sym e ∙ sym (ap m (add_zero p)) ∙ slash)
name_start-after m p (x ∷ xs) (e, gt, t) (suc j) lo hi =
    let le : name_start xs ≤ j = ground arith in
    λ slash. name_start-after m (p + 1) xs t j le (omega arith) (ap m (add_suc p j) ∙ slash)

-- The loop stops where the name starts.
pub IsCut-name_start :
    (m : Memory) (s : BaseString) (count cut : ℕ) (xs : List ℕ)
    → IsText m s.chars xs
    → IsCut m s count cut
    → cut ≤ length xs
    → length xs ≤ count
    → cut ≡ name_start xs
IsCut-name_start m s count cut xs t c inside wide =
    let le = name_start-le xs in
    let start = name_start xs in
    elim (Bool-cases (ltb cut start)) [
      | inl short ↦ elim (name_start-slash m s.chars xs t) [
        | inl none_there ↦ absurd (ground arith)
        | inr slash ↦ absurd (c.none_after (start - 1) (ground arith) (ground arith) slash)
      ]
      | inr enough ↦ elim (Bool-cases (ltb start cut)) [
        | inl long ↦ elim c.at_slash [
          | inl none_there ↦ absurd (ground arith)
          | inr slash ↦
              absurd (name_start-after m s.chars xs t (cut - 1) (ground arith) (ground arith) slash)
        ]
        | inr no_more ↦ ground arith
      ]
    ]

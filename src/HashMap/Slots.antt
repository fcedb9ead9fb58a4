-- ===== src/HashMap/Slots.antt =====
-- Where entries stand in the arrays of ds/hash_map.h, and what a write to one slot does to that.
use panix.Prelude.{
  ℕ, zero, suc, ◌+◌, ◌-◌, ◌%◌, ◌≤◌, ◌<◌, ◌≡◌, refl, ◌⊎◌, inl, inr, true, false, some, List, [], ◌∷◌,
  arith, ◌==◌, if◌then◌else◌, length, get_elem?, set, replicate, get_elem?-set_ne,
  get_elem?-set_self, lt_of_get_elem?, Bool-cases, ==_iff, ◌∙◌,
}
use panix.HashMap.{Mark, empty, deleted, tag, is_empty}

-- The slots from the first up to the second, which itself may be EMPTY, are not EMPTY.
pub data Reach (marks : List Mark) (capacity : ℕ) : ℕ → ℕ → Type 0 where
  here : {i : ℕ} → Reach marks capacity i i
  step :
      {i j : ℕ} (mark : Mark)
      → get_elem? marks i ≡ some mark
      → is_empty mark ≡ false
      → Reach marks capacity ((i + 1) % capacity) j
      → Reach marks capacity i j

-- Probing meets an EMPTY slot after that many steps.
pub data Gap (marks : List Mark) (capacity : ℕ) : ℕ → ℕ → Type 0 where
  stop : {i : ℕ} → get_elem? marks i ≡ some empty → Gap marks capacity i 0
  more : {i d : ℕ} → Gap marks capacity ((i + 1) % capacity) d → Gap marks capacity i (suc d)

-- The slots that are not EMPTY.
unfoldable pub occupied : List Mark → ℕ
occupied [] = 0
occupied (mark ∷ marks) = (if is_empty mark then 0 else 1) + occupied marks

pub occupied-fresh : (n : ℕ) → occupied (replicate n empty) ≡ 0
unfolding occupied
occupied-fresh zero = refl
occupied-fresh (suc n) = omega (arith, occupied-fresh n)

pub occupied-set :
    (marks : List Mark) (i : ℕ) (mark : Mark) → occupied (set marks i mark) ≤ suc (occupied marks)
unfolding occupied
occupied-set [] i mark = omega arith
occupied-set (x ∷ marks) zero mark = ground arith
occupied-set (x ∷ marks) (suc i) mark = omega (arith, occupied-set marks i mark)

-- Over a slot that was not EMPTY the count cannot grow.
pub occupied-set_old :
    (marks : List Mark) (i : ℕ) (mark old : Mark)
    → get_elem? marks i ≡ some old
    → is_empty old ≡ false
    → occupied (set marks i mark) ≤ occupied marks
unfolding occupied
occupied-set_old [] i mark old e n = ground arith
occupied-set_old (x ∷ marks) zero mark old e n = ground arith
occupied-set_old (x ∷ marks) (suc i) mark old e n =
    omega (arith, occupied-set_old marks i mark old e n)

-- Fewer occupied slots than slots leave an EMPTY one.
pub empty_of_occupied :
    (marks : List Mark) → occupied marks < length marks → (i : ℕ) × (get_elem? marks i ≡ some empty)
unfolding occupied
empty_of_occupied [] h = elim h [ ]
empty_of_occupied (empty ∷ marks) h = (0, refl)
empty_of_occupied (deleted ∷ marks) h =
    let (i, e) = empty_of_occupied marks (omega arith) in (suc i, e)
empty_of_occupied (tag t ∷ marks) h =
    let (i, e) = empty_of_occupied marks (omega arith) in (suc i, e)

pub next_cases :
    (i capacity : ℕ)
    → i < capacity
    → (((i + 1) % capacity ≡ i + 1) × (i + 1 < capacity))
      ⊎ (((i + 1) % capacity ≡ 0) × (i + 1 ≡ capacity))
next_cases i capacity h = grind arith

pub Gap-of_empty :
    (marks : List Mark) (capacity d i e : ℕ)
    → i < capacity
    → e < capacity
    → (i + d ≡ e) ⊎ (i + d ≡ e + capacity)
    → get_elem? marks e ≡ some empty
    → Gap marks capacity i d
Gap-of_empty marks capacity zero i e hi he (inl at) h =
    let same : i ≡ e = omega arith in rw same (stop h)
Gap-of_empty marks capacity zero i e hi he (inr at) h = absurd (omega arith)
Gap-of_empty marks capacity (suc d) i e hi he at h = elim (next_cases i capacity hi) [
  | inl (eq, lt) ↦
      more (Gap-of_empty marks capacity d ((i + 1) % capacity) e (omega arith) he (grind arith) h)
  | inr (eq, last) ↦
      more (Gap-of_empty marks capacity d ((i + 1) % capacity) e (omega arith) he (grind arith) h)
]

-- From every slot some EMPTY one is met within `capacity` steps.
pub le_cases : (a b : ℕ) → (a ≤ b) ⊎ (b < a)
le_cases a b = grind arith

pub Gap-exists :
    (marks : List Mark) (capacity i : ℕ)
    → length marks ≡ capacity
    → occupied marks < capacity
    → i < capacity
    → (d : ℕ) × (d ≤ capacity) × Gap marks capacity i d
Gap-exists marks capacity i w few hi =
    let (e, at) = empty_of_occupied marks (omega arith) in
    let he = lt_of_get_elem? marks e at in
    elim (le_cases i e) [
      | inl le ↦ (
        e - i,
        omega arith,
        Gap-of_empty marks capacity (e - i) i e hi (omega arith) (inl (omega arith)) at,
      )
      | inr lt ↦ (
        e + capacity - i,
        omega arith,
        Gap-of_empty marks capacity (e + capacity - i) i e hi (omega arith) (inr (omega arith)) at,
      )
    ]

module _ {capacity : ℕ} where
  -- A write of a mark that is not EMPTY cuts no probe sequence.
  pub Reach-set :
      {marks : List Mark} {i j : ℕ} (k : ℕ) (mark : Mark)
      → is_empty mark ≡ false
      → Reach marks capacity i j
      → Reach (set marks k mark) capacity i j
  Reach-set k mark n here = here
  Reach-set {marks} k mark n (step {i} old at full rest) = elim (Bool-cases (k == i)) [
    | inl same ↦
        let e = (==_iff k i).0 same in
        step mark (rw (← e) (get_elem?-set_self marks k mark (rw e (lt_of_get_elem? marks i at)))) n
          (Reach-set k mark n rest)
    | inr other ↦
        step old (get_elem?-set_ne marks k i mark (ground arith) ∙ at) full
          (Reach-set k mark n rest)
  ]

  -- One more step at the end.
  pub Reach-snoc :
      {marks : List Mark} {i j : ℕ} (mark : Mark)
      → Reach marks capacity i j
      → get_elem? marks j ≡ some mark
      → is_empty mark ≡ false
      → Reach marks capacity i ((j + 1) % capacity)
  Reach-snoc mark here at full = step mark at full here
  Reach-snoc mark (step m at' full' rest) at full = step m at' full' (Reach-snoc mark rest at full)

pub empty_of_is_empty : (mark : Mark) → is_empty mark ≡ true → mark ≡ empty
empty_of_is_empty empty h = refl
empty_of_is_empty deleted h = cc
empty_of_is_empty (tag t) h = cc

pub Reach-cases :
    {marks : List Mark} {capacity i j : ℕ}
    → Reach marks capacity i j
    → (i ≡ j)
      ⊎ ((mark : Mark) × (get_elem? marks i ≡ some mark)
          × (is_empty mark ≡ false)
          × Reach marks capacity ((i + 1) % capacity) j)
Reach-cases here = inl refl
Reach-cases (step mark at full rest) = inr (mark, at, full, rest)

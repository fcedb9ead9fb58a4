-- ===== src/RefCntPtr/Counted.antt =====
-- The counters of ds/ref_cnt_ptr.h count the variables.
use panix.Prelude.{
  ℕ, zero, suc, ◌+◌, ◌-◌, ◌%◌, ◌^◌, ◌<◌, ◌≤◌, ◌≡◌, ◌≢◌, refl, ap, sym, ◌∙◌, arith, Bool, true,
  false, Option, none, some, List, [], ◌∷◌, ◌++◌, ◌==◌, if◌then◌else◌, get_elem?, set,
  get_elem?-set_ne, set-same, length, length-set, Bool-cases, inl, inr, eq_true, eq_false, ==_iff,
}
use panix.Prelude.Run.{ok, Returns}
use panix.RefCntPtr.{RefCntPtr, World, null, store, retain, release, free_both, put, assign}

-- How many of the variables have this counter.
abbrev pub holders : ℕ → List RefCntPtr → ℕ
holders c [] = 0
holders c (p ∷ ps) = (if p.refs == c then 1 else 0) + holders c ps

abbrev pub counted : ℕ → Option ℕ
counted zero = none
counted (suc n) = some (suc n)

-- A counter is allocated while variables have it, and holds their number.
pub record IsCounted (w : World) : Type 0 where
  pub counts : (c : ℕ) → c ≢ 0 → w.counters c ≡ counted (holders c w.vars)
  pub few : length w.vars < 2 ^ 63

abbrev pub one_if : Bool → ℕ
one_if b = if b then 1 else 0

pub holders-le : (c : ℕ) (ps : List RefCntPtr) → holders c ps ≤ length ps
holders-le c [] = omega arith
holders-le c (p ∷ ps) = elim (Bool-cases (p.refs == c)) [
  | inl it ↦ rw it (omega (arith, holders-le c ps))
  | inr other ↦ rw other (omega (arith, holders-le c ps))
]

pub holders-append :
    (c : ℕ) (ps qs : List RefCntPtr) → holders c (ps ++ qs) ≡ holders c ps + holders c qs
holders-append c [] qs = omega arith
holders-append c (p ∷ ps) qs = omega (arith, holders-append c ps qs)

-- A variable's pointer is replaced.
pub holders-set :
    (c : ℕ) (ps : List RefCntPtr) (i : ℕ) (p q : RefCntPtr)
    → get_elem? ps i ≡ some p
    → holders c (set ps i q) + one_if (p.refs == c) ≡ holders c ps + one_if (q.refs == c)
holders-set c [] i p q e = ground arith
holders-set c (x ∷ ps) zero p q e =
    let same : x ≡ p = cc in omega (arith, ap (λ (r : RefCntPtr). one_if (r.refs == c)) same)
holders-set c (x ∷ ps) (suc i) p q e = omega (arith, holders-set c ps i p q e)

pub holders-member :
    (c : ℕ) (ps : List RefCntPtr) (i : ℕ) (p : RefCntPtr)
    → get_elem? ps i ≡ some p
    → one_if (p.refs == c) ≤ holders c ps
holders-member c [] i p e = ground arith
holders-member c (x ∷ ps) zero p e =
    let same : x ≡ p = cc in omega (arith, ap (λ (r : RefCntPtr). one_if (r.refs == c)) same)
holders-member c (x ∷ ps) (suc i) p e = omega (arith, holders-member c ps i p e)

pub one_if_null : (c : ℕ) → c ≢ 0 → one_if (0 == c) ≡ 0
one_if_null c nz = ap one_if (eq_false 0 c (λ e. nz (sym e)))

pub one_if_self : (c : ℕ) → one_if (c == c) ≡ 1
one_if_self c = ap one_if (eq_true c c refl)

-- Two variables.
holders-two :
    (c : ℕ) (ps : List RefCntPtr) (i j : ℕ) (p q : RefCntPtr)
    → c ≢ 0
    → i ≢ j
    → get_elem? ps i ≡ some p
    → get_elem? ps j ≡ some q
    → one_if (p.refs == c) + one_if (q.refs == c) ≤ holders c ps
holders-two c ps i j p q nz ne ei ej = omega (
  arith,
  holders-set c ps i p null ei,
  one_if_null c nz,
  holders-member c (set ps i null) j q (get_elem?-set_ne ps i j null ne ∙ ej),
)

-- The counters hold the numbers `n`.
abbrev pub CountsAs : World → (ℕ → ℕ) → Type 0
CountsAs w n = (c : ℕ) → c ≢ 0 → w.counters c ≡ counted (n c)

pub store_counts :
    (counters : ℕ → Option ℕ) (n m : ℕ → ℕ) (r : ℕ)
    → ((c : ℕ) → c ≢ 0 → counters c ≡ counted (n c))
    → ((c : ℕ) → c ≢ r → m c ≡ n c)
    → (c : ℕ) → c ≢ 0
    → store counters r (counted (m r)) c ≡ counted (m c)
unfolding store
store_counts counters n m r old same c nz = elim (Bool-cases (c == r)) [
  | inl it ↦ rw it (ap (λ x. counted (m x)) (sym ((==_iff c r).0 it)))
  | inr other ↦ let ne : c ≢ r = ground arith in rw other (old c nz ∙ ap counted (sym (same c ne)))
]

pub at_least_one : (n : ℕ) → 0 < n → (m : ℕ) × (n ≡ suc m)
at_least_one zero pos = absurd (omega arith)
at_least_one (suc m) pos = (m, refl)

-- What is left of a counter.
dropped :
    (p : RefCntPtr) (w : World) (n : ℕ → ℕ)
    → CountsAs w n
    → p.refs ≢ 0
    → (m : ℕ) → n (p.refs) ≡ suc m
    → Returns
        (ok (
          if m == 0
          then free_both p w
          else record w { counters = store w.counters p.refs (some m) }))
        λ w1. (w1.vars ≡ w.vars) × CountsAs w1 (λ c. n c - one_if (p.refs == c))
dropped p w n as_n nz m e =
    let m' : ℕ → ℕ = λ c. n c - one_if (p.refs == c) in
    let here : m' (p.refs) ≡ m = omega (arith, e, one_if_self (p.refs)) in
    let stored =
      store_counts w.counters n m' (p.refs) as_n
        (λ c ne. omega (arith, ap one_if (eq_false (p.refs) c (λ q. ne (sym q))))) in
    elim (Bool-cases (m == 0)) [
      | inl gone ↦
          let z = (==_iff m 0).0 gone in
          rw gone (
            _,
            refl,
            (
              refl,
              λ c cz.
                  ap (λ k. store w.counters (p.refs) (counted k) c) (sym z ∙ sym here)
                  ∙ stored c cz,
            ),
          )
      | inr left ↦
          let (k, z) = at_least_one m (ground arith) in
          rw left (
            _,
            refl,
            (
              refl,
              λ c cz.
                  ap (λ (o : Option ℕ). store w.counters (p.refs) o c)
                    (ap some z ∙ ap counted (sym z ∙ sym here))
                  ∙ stored c cz,
            ),
          )
    ]

-- One holder less.
release_lem :
    (p : RefCntPtr) (w : World) (n : ℕ → ℕ)
    → CountsAs w n
    → (p.refs ≢ 0 → 0 < n (p.refs))
    → n (p.refs) < 2 ^ 64
    → Returns (release p w) λ w1. (w1.vars ≡ w.vars) × CountsAs w1 (λ c. n c - one_if (p.refs == c))
unfolding release
release_lem p w n as_n held few = elim (Bool-cases (p.refs == 0)) [
  | inl unset ↦
      let e = (==_iff (p.refs) 0).0 unset in
      rw unset (
        w,
        refl,
        (
          refl,
          λ c nz.
              as_n c nz ∙ ap counted (omega (arith, ap (λ r. one_if (r == c)) e, one_if_null c nz)),
        ),
      )
  | inr given ↦
      let nz : p.refs ≢ 0 = ground arith in
      let (m, e) = at_least_one (n (p.refs)) (held nz) in
      let left : (suc m + 2 ^ 64 - 1) % 2 ^ 64 ≡ m = omega (arith, e) in
      rw (given, as_n (p.refs) nz, e, left) (dropped p w n as_n nz m e)
]

-- One holder more.
pub retain_lem :
    (r : ℕ) (w : World) (n : ℕ → ℕ)
    → CountsAs w n
    → r ≢ 0
    → 0 < n r
    → n r + 1 < 2 ^ 64
    → Returns (retain r w) λ w1. (w1.vars ≡ w.vars) × CountsAs w1 (λ c. n c + one_if (r == c))
unfolding retain
retain_lem r w n as_n nz held few =
    let (m, e) = at_least_one (n r) held in
    let more : (suc m + 1) % 2 ^ 64 ≡ suc (suc m) = omega (arith, e) in
    let m' : ℕ → ℕ = λ c. n c + one_if (r == c) in
    let here : m' r ≡ suc (suc m) = omega (arith, e, one_if_self r) in
    rw (eq_false r 0 nz, as_n r nz, e, more)
      (
        _,
        refl,
        (
          refl,
          λ c cz.
              ap (λ k. store w.counters r (counted k) c) (sym here)
              ∙ store_counts w.counters n m' r as_n
                  (λ c ne. omega (arith, ap one_if (eq_false r c (λ q. ne (sym q))))) c cz,
        ),
      )

one_if-le : (b : Bool) → one_if b ≤ 1
one_if-le true = omega arith
one_if-le false = omega arith

-- The variable at `i` is released and gets the pointer `q`, which the counters know one less of than the variables.
module _ (w : World) (i : ℕ) (p q : RefCntPtr) (good : IsCounted w)
    (at : get_elem? w.vars i ≡ some p) where
  pub released :
      Returns
        (release p w)
        λ w1. (w1.vars ≡ w.vars) × CountsAs w1 (λ c. holders c w.vars - one_if (p.refs == c))
  released =
      let few = holders-le (p.refs) w.vars in
      release_lem p w (λ c. holders c w.vars) good.counts
        (λ nz. omega (arith, holders-member (p.refs) w.vars i p at, one_if_self (p.refs)))
        (omega (arith, few, good.few))

  -- The counters for the variables with `q` in place of `p`.
  pub replaced :
      (c : ℕ)
      → holders c w.vars - one_if (p.refs == c) + one_if (q.refs == c) ≡ holders c (set w.vars i q)
  replaced c = omega (arith, holders-set c w.vars i p q at, holders-member c w.vars i p at)

pub IsCounted-counts :
    (w : World) (n : ℕ → ℕ)
    → CountsAs w n
    → ((c : ℕ) → c ≢ 0 → n c ≡ holders c w.vars)
    → length w.vars < 2 ^ 63
    → IsCounted w
IsCounted-counts w n as_n same few = record {
  counts = λ c nz. as_n c nz ∙ ap counted (same c nz);
  few = few;
}

-- After `operator=` of a pointer that is not null, both variables have it, and the counters count the variables.
pub assign-IsCounted :
    (i j : ℕ) (w : World) (p q : RefCntPtr)
    → IsCounted w
    → get_elem? w.vars i ≡ some p
    → get_elem? w.vars j ≡ some q
    → q.refs ≢ 0
    → Returns (assign i j w) λ w'. (w'.vars ≡ set w.vars i q) × IsCounted w'
unfolding assign
assign-IsCounted i j w p q good ei ej nz = elim (Bool-cases (i == j)) [
  | inl same ↦
      let here : get_elem? w.vars i ≡ some q = ap (get_elem? w.vars) ((==_iff i j).0 same) ∙ ej in
      rw same (w, refl, (sym (set-same w.vars i q here), good))
  | inr apart ↦
      let ne : i ≢ j = ground arith in
      let (w1, run1, (vars1, counts1)) = released w i p q good ei in
      let two = holders-two (q.refs) w.vars i j p q nz ne ei ej in
      let (w2, run2, (vars2, counts2)) =
        retain_lem (q.refs) (put i q w1) (λ c. holders c w.vars - one_if (p.refs == c)) counts1 nz
          (omega (arith, two, one_if_self (q.refs)))
          (omega (arith, holders-le (q.refs) w.vars, good.few)) in
      let vars : w2.vars ≡ set w.vars i q = vars2 ∙ ap (λ vs. set vs i q) vars1 in
      rw (apart, ei, ej, run1, run2)
        (
          w2,
          refl,
          (
            vars,
            IsCounted-counts w2 _ counts2
                (λ c _. replaced w i p q good ei c ∙ ap (holders c) (sym vars))
                (omega (arith, ap length vars, length-set w.vars i q, good.few)),
          ),
        )
]

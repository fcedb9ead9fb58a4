-- ===== src/RefCntPtr/Reach.antt =====
-- What a program does with variables of ds/ref_cnt_ptr.h, one operation after the other.
use panix.Prelude.{
  ℕ, zero, suc, ◌+◌, ◌^◌, ◌<◌, ◌≡◌, ◌≢◌, refl, ap, sym, ◌∙◌, arith, none, some, [], ◌∷◌, ◌++◌, ◌==◌,
  get_elem?, set, get_elem?-append, get_elem?-set_self, get_elem?-set_ne, lt_of_get_elem?, length,
  length-set, length-append, Bool-cases, inl, inr, eq_false, ==_iff,
}
use panix.Prelude.Run.{ok, Returns, Returns_at}
use panix.RefCntPtr.{
  RefCntPtr, World, null, store, put, declare, construct, construct_null, copy_construct, assign,
  move_construct, move_assign, destroy,
}
use panix.RefCntPtr.Counted.{
  IsCounted, IsCounted-counts, holders, counted, released, replaced, retain_lem, store_counts,
  one_if, one_if_null, one_if_self, holders-append, holders-le, holders-set, holders-member,
  assign-IsCounted,
}

-- A variable is declared, and the counters follow.
declared :
    (w : World) (q : RefCntPtr) (c : ℕ)
    → holders c w.vars + one_if (q.refs == c) ≡ holders c (w.vars ++ (q ∷ []))
declared w q c = omega (arith, holders-append c w.vars (q ∷ []))

few_declared :
    (w : World) (q : RefCntPtr) → length w.vars + 1 < 2 ^ 63 → length (w.vars ++ (q ∷ [])) < 2 ^ 63
few_declared w q few = omega (arith, length-append w.vars (q ∷ []))

construct_null-IsCounted :
    (w : World) → IsCounted w → length w.vars + 1 < 2 ^ 63 → IsCounted (construct_null w)
unfolding construct_null
construct_null-IsCounted w good few =
    IsCounted-counts (declare null w) (λ c. holders c w.vars) good.counts
      (λ c nz. omega (arith, declared w null c, one_if_null c nz)) (few_declared w null few)

none_held : (n : ℕ) → counted n ≡ none → n ≡ 0
none_held zero e = refl
none_held (suc n) e = ground arith

construct-IsCounted :
    (raw refs : ℕ) (w : World)
    → IsCounted w
    → length w.vars + 1 < 2 ^ 63
    → refs ≢ 0
    → w.counters refs ≡ none
    → Returns (construct raw refs w) IsCounted
unfolding construct
construct-IsCounted raw refs w good few nz fresh =
    let q : RefCntPtr = record { raw_ptr = raw; refs = refs } in
    let n : ℕ → ℕ = λ c. holders c (w.vars ++ (q ∷ [])) in
    let unheld = none_held (holders refs w.vars) (sym (good.counts refs nz) ∙ fresh) in
    let here : n refs ≡ 1 = omega (arith, declared w q refs, one_if_self refs) in
    rw (eq_false refs 0 nz) (
      _,
      refl,
      IsCounted-counts _ n
          (λ c cz.
            ap (λ k. store w.counters refs (counted k) c) (sym here)
            ∙ store_counts w.counters (λ d. holders d w.vars) n refs good.counts
                (λ d ne.
                  omega (arith, declared w q d, ap one_if (eq_false refs d (λ e. ne (sym e)))))
                c cz)
          (λ c _. refl) (few_declared w q few),
    )

copy_construct-IsCounted :
    (j : ℕ) (w : World) (p : RefCntPtr)
    → IsCounted w
    → length w.vars + 1 < 2 ^ 63
    → get_elem? w.vars j ≡ some p
    → p.refs ≢ 0
    → Returns (copy_construct j w) IsCounted
unfolding copy_construct
copy_construct-IsCounted j w p good few at nz =
    let (w1, run, (vars, counts)) =
      retain_lem (p.refs) (declare p w) (λ c. holders c w.vars) good.counts nz
        (omega (arith, holders-member (p.refs) w.vars j p at, one_if_self (p.refs)))
        (omega (arith, holders-le (p.refs) w.vars)) in
    rw (at, run)
      (
        w1,
        refl,
        IsCounted-counts w1 _ counts (λ c _. declared w p c ∙ ap (holders c) (sym vars))
            (omega (arith, ap length vars, few_declared w p few)),
      )

move_assign-IsCounted :
    (i j : ℕ) (w : World) (p q : RefCntPtr)
    → IsCounted w
    → get_elem? w.vars i ≡ some p
    → get_elem? w.vars j ≡ some q
    → Returns (move_assign i j w) λ w'. (w'.vars ≡ set (set w.vars i q) j null) × IsCounted w'
unfolding move_assign
move_assign-IsCounted i j w p q good ei ej =
    let (w1, run, (vars, counts)) = released w i p q good ei in
    let moved : set (set w1.vars i q) j null ≡ set (set w.vars i q) j null =
      ap (λ vs. set (set vs i q) j null) vars in
    let there : get_elem? (set w.vars i q) j ≡ some q = elim (Bool-cases (i == j)) [
      | inl same ↦
          let e = (==_iff i j).0 same in
          ap (get_elem? (set w.vars i q)) (sym e)
          ∙ get_elem?-set_self w.vars i q (lt_of_get_elem? w.vars i ei)
      | inr apart ↦ let ne : i ≢ j = ground arith in get_elem?-set_ne w.vars i j q ne ∙ ej
    ] in
    rw (ei, ej, run)
      (
        put j null (put i q w1),
        refl,
        (
          moved,
          IsCounted-counts (put j null (put i q w1)) _ counts
              (λ c nz.
                omega (
                  arith,
                  replaced w i p q good ei c,
                  one_if_null c nz,
                  holders-set c (set w.vars i q) j q null there,
                )
                ∙ ap (holders c) (sym moved))
              (omega (
                arith,
                ap length moved,
                length-set (set w.vars i q) j null,
                length-set w.vars i q,
                good.few,
              )),
        ),
      )

move_construct-IsCounted :
    (j : ℕ) (w : World) (p : RefCntPtr)
    → IsCounted w
    → length w.vars + 1 < 2 ^ 63
    → get_elem? w.vars j ≡ some p
    → Returns (move_construct j w) IsCounted
unfolding move_construct
move_construct-IsCounted j w p good few at =
    let all = w.vars ++ (p ∷ []) in
    let there = get_elem?-append w.vars (p ∷ []) j p at in
    rw at (
      put j null (declare p w),
      refl,
      IsCounted-counts (put j null (declare p w)) (λ c. holders c w.vars) good.counts
          (λ c nz.
            omega (arith, declared w p c, one_if_null c nz, holders-set c all j p null there))
          (omega (arith, length-set all j null, few_declared w p few)),
    )

destroy-IsCounted :
    (i : ℕ) (w : World) (p : RefCntPtr)
    → IsCounted w
    → get_elem? w.vars i ≡ some p
    → Returns (destroy i w) IsCounted
unfolding destroy
destroy-IsCounted i w p good at =
    let (w1, run, (vars, counts)) = released w i p null good at in
    let same : set w1.vars i null ≡ set w.vars i null = ap (λ vs. set vs i null) vars in
    rw (at, run)
      (
        put i null w1,
        refl,
        IsCounted-counts (put i null w1) _ counts
            (λ c nz.
              omega (arith, replaced w i p null good at c, one_if_null c nz)
              ∙ ap (holders c) (sym same))
            (omega (arith, ap length same, length-set w.vars i null, good.few)),
      )

-- One operation: what it is applied to exists, and what is copied is not null.
pub data Step (w : World) : World → Type 0 where
  null_step : length w.vars + 1 < 2 ^ 63 → Step w (construct_null w)
  construct_step :
      (raw refs : ℕ) (w' : World)
      → length w.vars + 1 < 2 ^ 63
      → refs ≢ 0
      → w.counters refs ≡ none
      → construct raw refs w ≡ ok w'
      → Step w w'
  copy_step :
      (j : ℕ) (p : RefCntPtr) (w' : World)
      → length w.vars + 1 < 2 ^ 63
      → get_elem? w.vars j ≡ some p
      → p.refs ≢ 0
      → copy_construct j w ≡ ok w'
      → Step w w'
  assign_step :
      (i j : ℕ) (p q : RefCntPtr) (w' : World)
      → get_elem? w.vars i ≡ some p
      → get_elem? w.vars j ≡ some q
      → q.refs ≢ 0
      → assign i j w ≡ ok w'
      → Step w w'
  move_step :
      (j : ℕ) (p : RefCntPtr) (w' : World)
      → length w.vars + 1 < 2 ^ 63
      → get_elem? w.vars j ≡ some p
      → move_construct j w ≡ ok w'
      → Step w w'
  move_assign_step :
      (i j : ℕ) (p q : RefCntPtr) (w' : World)
      → get_elem? w.vars i ≡ some p
      → get_elem? w.vars j ≡ some q
      → move_assign i j w ≡ ok w'
      → Step w w'
  destroy_step :
      (i : ℕ) (p : RefCntPtr) (w' : World)
      → get_elem? w.vars i ≡ some p
      → destroy i w ≡ ok w'
      → Step w w'

pub data Reach (w : World) : World → Type 0 where
  start : Reach w w
  next : {v u : World} → Reach w v → Step v u → Reach w u

Step-IsCounted : {w v : World} → Step w v → IsCounted w → IsCounted v
Step-IsCounted {w} (null_step few) good = construct_null-IsCounted w good few
Step-IsCounted {w} (construct_step raw refs w' few nz fresh run) good =
    Returns_at (construct-IsCounted raw refs w good few nz fresh) run
Step-IsCounted {w} (copy_step j p w' few at nz run) good =
    Returns_at (copy_construct-IsCounted j w p good few at nz) run
Step-IsCounted {w} (assign_step i j p q w' ei ej nz run) good =
    (Returns_at (assign-IsCounted i j w p q good ei ej nz) run).1
Step-IsCounted {w} (move_step j p w' few at run) good =
    Returns_at (move_construct-IsCounted j w p good few at) run
Step-IsCounted {w} (move_assign_step i j p q w' ei ej run) good =
    (Returns_at (move_assign-IsCounted i j w p q good ei ej) run).1
Step-IsCounted {w} (destroy_step i p w' at run) good =
    Returns_at (destroy-IsCounted i w p good at) run

-- After any sequence of operations on variables, in which no null pointer is copied, each counter that is
-- allocated holds the number of the variables that have it, and it is allocated while there are any.
pub Reach-IsCounted : {w v : World} → Reach w v → IsCounted w → IsCounted v
Reach-IsCounted start good = good
Reach-IsCounted (next r step) good = Step-IsCounted step (Reach-IsCounted r good)

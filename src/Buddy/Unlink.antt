-- ===== src/Buddy/Unlink.antt =====
-- The links of a free list of sys/buddy_allocator.cpp once an entry of it is bridged.
use panix.Prelude.{
  ℕ, ◌≡◌, ◌≢◌, refl, ap, sym, ◌∙◌, subst, arith, List, [], ◌∷◌, ◌++◌, Bool, false, ◌==◌,
  if◌then◌else◌, Bool-cases, inl, inr,
}
use panix.Buddy.State.{FreeListEntry, store}
use panix.Buddy.Lists.{with_forward, with_backward}
use panix.Buddy.FreeLists.{
  Misses, misses_next, Chain, Chain-store, Chain-behind, Chain-head, store_at, store_other,
}

-- A write where the pointer is not null.
abbrev pub store_some :
    (FreeListEntry → FreeListEntry) → ℕ → (ℕ → FreeListEntry) → ℕ → FreeListEntry
store_some change p h = if p == 0 then h else store h p (change (h p))

pub store_some-other :
    (change : FreeListEntry → FreeListEntry) (p : ℕ) (h : ℕ → FreeListEntry) (x : ℕ)
    → (p ≢ 0 → p ≢ x)
    → store_some change p h x ≡ h x
store_some-other change p h x ne = elim (Bool-cases (p == 0)) [
  | inl null ↦ rw null refl
  | inr set ↦ rw set (store_other h p x (change (h p)) (ne (ground arith)))
]

pub Chain-store_some :
    (change : FreeListEntry → FreeListEntry) (a : ℕ) (h : ℕ → FreeListEntry) (prev p : ℕ)
    (xs : List ℕ)
    → Misses a xs
    → Chain h prev p xs
    → Chain (store_some change a h) prev p xs
Chain-store_some change a h prev p xs miss c = elim (Bool-cases (a == 0)) [
  | inl null ↦ rw null c
  | inr set ↦ rw set (Chain-store h prev p xs a (change (h a)) miss c)
]

-- The entry before those that follow, or `prev`.
abbrev pub last : ℕ → List ℕ → ℕ
last prev [] = prev
last prev (x ∷ xs) = last x xs

Misses-right : (a : ℕ) (xs ys : List ℕ) → Misses a (xs ++ ys) → Misses a ys
Misses-right a [] ys m = m
Misses-right a (x ∷ xs) ys (misses_next _ _ ne m) = Misses-right a xs ys m

pub Misses-last : (a x : ℕ) (xs ys : List ℕ) → Misses a ((x ∷ xs) ++ ys) → a ≢ last x xs
Misses-last a x [] ys (misses_next _ _ ne m) = ne
Misses-last a x (x' ∷ xs) ys (misses_next _ _ ne m) = Misses-last a x' xs ys m

Misses-without : (a e : ℕ) (xs ys : List ℕ) → Misses a (xs ++ (e ∷ ys)) → Misses a (xs ++ ys)
Misses-without a e [] ys (misses_next _ _ ne m) = m
Misses-without a e (x ∷ xs) ys (misses_next _ _ ne m) =
    misses_next x (xs ++ ys) ne (Misses-without a e xs ys m)

pub Misses-head : (a x : ℕ) (xs : List ℕ) → Misses a (x ∷ xs) → a ≢ x
Misses-head a x xs (misses_next _ _ ne m) = ne

-- What a list says of an entry in it.
pub record Linked (h : ℕ → FreeListEntry) (prev : ℕ) (xs : List ℕ) (e : ℕ) (ys : List ℕ)
    : Type 0 where
  pub set : e ≢ 0
  pub before : (h e).backward ≡ last prev xs
  pub unlike : Misses e ys
  pub behind : Chain h e ((h e).forward) ys
  pub apart : Misses e (xs ++ ys)

pub Chain-Linked :
    (h : ℕ → FreeListEntry) (prev p : ℕ) (xs : List ℕ) (e : ℕ) (ys : List ℕ)
    → Chain h prev p (xs ++ (e ∷ ys))
    → Linked h prev xs e ys
Chain-Linked h prev p [] e ys (at, nz, b, miss, c) = record {
  set = nz;
  before = b;
  unlike = miss;
  behind = c;
  apart = miss;
}
Chain-Linked h prev p (x ∷ xs) e ys (at, nz, b, miss, c) =
    let l = Chain-Linked h x ((h x).forward) xs e ys c in
    let ne = Misses-head x e ys (Misses-right x xs (e ∷ ys) miss) in
    record {
      set = l.set;
      before = l.before;
      unlike = l.unlike;
      behind = l.behind;
      apart = misses_next x (xs ++ ys) (λ q. ne (sym q)) l.apart;
    }

-- The backward pointer of the entry behind `e` is set to `b`.
abbrev pub back_to : ℕ → ℕ → (ℕ → FreeListEntry) → ℕ → FreeListEntry
back_to b e h = store_some (with_backward b) ((h e).forward) h

pub behind_some :
    (h : ℕ → FreeListEntry) (e b p : ℕ) (ys : List ℕ)
    → Chain h e p ys
    → Chain (store_some (with_backward b) p h) b p ys
behind_some h e b p [] c = c
behind_some h e b p (y ∷ ys) (at, nz, before, miss, c) =
    let set : (y == 0) ≡ false = ground arith in
    let h' = store h y (with_backward b (h y)) in
    let opened : store_some (with_backward b) p h ≡ h' =
      ap (λ q. store_some (with_backward b) q h) at ∙ ap (λ (t : Bool). if t then h else h') set in
    subst (λ g. Chain g b p (y ∷ ys)) (sym opened)
      (Chain-behind h e p y ys b (at, nz, before, miss, c))

-- Nor does an entry that is not behind `e` change.
pub back_to-other :
    (h : ℕ → FreeListEntry) (e b x : ℕ) (ys : List ℕ)
    → x ≢ 0
    → Misses x ys
    → Chain h e ((h e).forward) ys
    → back_to b e h x ≡ h x
back_to-other h e b x [] nz miss c =
    store_some-other (with_backward b) ((h e).forward) h x (λ set. absurd (set c))
back_to-other h e b x (y ∷ ys) nz miss c =
    store_some-other (with_backward b) ((h e).forward) h x
      (λ set same. Misses-head x y ys miss (sym same ∙ c.0))

-- Both neighbours of `e` are set.
abbrev pub bridged : ℕ → ℕ → (ℕ → FreeListEntry) → ℕ → FreeListEntry
bridged b e h = store_some (with_forward ((h e).forward)) b (back_to b e h)

-- The list without `e`: it starts behind `e` where that is the first, and where it did else.
abbrev pub start : ℕ → ℕ → List ℕ → ℕ
start p f [] = f
start p f (x ∷ xs) = p

-- The entry before `e`, and those behind.
bridged_first :
    (h : ℕ → FreeListEntry) (prev x e : ℕ) (ys : List ℕ)
    → x ≢ 0
    → (h x).backward ≡ prev
    → Misses x ys
    → Chain h e ((h e).forward) ys
    → Chain (bridged x e h) prev x (x ∷ ys)
bridged_first h prev x e ys nz b miss c =
    let f = (h e).forward in
    let h1 = back_to x e h in
    let h2 = store h1 x (with_forward f (h1 x)) in
    let set : (x == 0) ≡ false = ground arith in
    let same = back_to-other h e x x ys nz miss c in
    let here = store_at h1 x (with_forward f (h1 x)) in
    let rest : Chain h2 x f ys =
      Chain-store h1 x f ys x (with_forward f (h1 x)) miss (behind_some h e x f ys c) in
    let opened : bridged x e h ≡ h2 = ap (λ (t : Bool). if t then h1 else h2) set in
    subst (λ g. Chain g prev x (x ∷ ys)) (sym opened)
      (
        refl,
        nz,
        ap (λ (r : FreeListEntry). r.backward) here
            ∙ ap (λ (r : FreeListEntry). r.backward) same
            ∙ b,
        miss,
        subst (λ (r : FreeListEntry). Chain h2 x r.forward ys) (sym here) rest,
      )

pub bridged-Chain :
    (h : ℕ → FreeListEntry) (prev p x : ℕ) (xs : List ℕ) (e : ℕ) (ys : List ℕ)
    → Chain h prev p ((x ∷ xs) ++ (e ∷ ys))
    → Chain (bridged (last x xs) e h) prev p ((x ∷ xs) ++ ys)
bridged-Chain h prev p x [] e ys (at, nz, b, miss, c) =
    let l = Chain-Linked h x ((h x).forward) [] e ys c in
    Chain-head (bridged x e h) prev x p (x ∷ ys) at
      (bridged_first h prev x e ys nz b (Misses-without x e [] ys miss) l.behind)
bridged-Chain h prev p x (x' ∷ xs) e ys (at, nz, b, miss, c) =
    let l = Chain-Linked h x ((h x).forward) (x' ∷ xs) e ys c in
    let others = Misses-without x e (x' ∷ xs) ys miss in
    let same : bridged (last x' xs) e h x ≡ h x =
      store_some-other (with_forward ((h e).forward)) (last x' xs) (back_to (last x' xs) e h) x
        (λ set q. Misses-last x x' xs (e ∷ ys) miss (sym q))
      ∙ back_to-other h e (last x' xs) x ys nz (Misses-right x (x' ∷ xs) ys others) l.behind in
    let rest = bridged-Chain h x ((h x).forward) x' xs e ys c in
    (
      at,
      nz,
      ap (λ (r : FreeListEntry). r.backward) same ∙ b,
      others,
      subst (λ (r : FreeListEntry). Chain (bridged (last x' xs) e h) x r.forward ((x' ∷ xs) ++ ys))
          (sym same) rest,
    )

-- ===== src/LruCache/Recency.antt =====
-- The list of ds/cache.h from the most recently used entry on.
use panix.Prelude.{
  ℕ, ◌≡◌, ◌≢◌, refl, ap, sym, ◌∙◌, arith, Option, none, some, List, [], ◌∷◌, ◌++◌, if◌then◌else◌,
  eq_true, eq_false, false, Bool-cases, inl, inr,
}
use panix.HashMap.{Key}
use panix.LruCache.{Entry, store, with_next}

pub record Cell (K V : Type 0) : Type 0 where
  pub addr : ℕ
  pub key : K
  pub value : V

module _ {K V : Type 0} ⦃key : Key K⦄ where
  abbrev pub first : List (Cell K V) → ℕ
  first [] = 0
  first (x ∷ xs) = x.addr

  abbrev pub last : ℕ → List (Cell K V) → ℕ
  last prev [] = prev
  last prev (x ∷ xs) = last x.addr xs

  abbrev pub Misses : ℕ → List (Cell K V) → Type 0
  Misses a [] = Unit
  Misses a (x ∷ xs) = (a ≢ x.addr) × Misses a xs

  abbrev pub entry_of : Cell K V → ℕ → ℕ → Entry K V
  entry_of x prev next = record { key = x.key; value = x.value; prev = prev; next = next }

  -- The entries of the list are there, no two at one address, and linked in both directions.
  abbrev pub Chain : (ℕ → Option (Entry K V)) → ℕ → List (Cell K V) → Type 0
  Chain n prev [] = Unit
  Chain n prev (x ∷ xs) =
      (x.addr ≢ 0)
      × (n x.addr ≡ some (entry_of x prev (first xs)))
      × Misses x.addr xs
      × Chain n x.addr xs

  pub store_at : (n : ℕ → Option (Entry K V)) (a : ℕ) (e : Option (Entry K V)) → store n a e a ≡ e
  unfolding store
  store_at n a e = rw (eq_true a a refl) refl

  pub store_other :
      (n : ℕ → Option (Entry K V)) (a x : ℕ) (e : Option (Entry K V)) → a ≢ x → store n a e x ≡ n x
  unfolding store
  store_other n a x e ne = rw (eq_false x a (λ q. ne (sym q))) refl

  pub Chain-store :
      (n : ℕ → Option (Entry K V)) (prev a : ℕ) (e : Option (Entry K V)) (xs : List (Cell K V))
      → Misses a xs
      → Chain n prev xs
      → Chain (store n a e) prev xs
  Chain-store n prev a e [] m c = c
  Chain-store n prev a e (x ∷ xs) (ne, m) (nz, at, miss, c) =
      (nz, store_other n a x.addr e ne ∙ at, miss, Chain-store n x.addr a e xs m c)

  -- The first entry comes to stand behind another one.
  pub Chain-behind :
      (n : ℕ → Option (Entry K V)) (prev q : ℕ) (x : Cell K V) (xs : List (Cell K V))
      → Chain n prev (x ∷ xs)
      → Chain (store n x.addr (some (entry_of x q (first xs)))) q (x ∷ xs)
  Chain-behind n prev q x xs (nz, at, miss, c) =
      (nz, store_at n x.addr _, miss, Chain-store n x.addr x.addr _ xs miss c)

  -- The entry that the last one of a list is.
  pub Chain-last :
      (n : ℕ → Option (Entry K V)) (prev : ℕ) (xs : List (Cell K V)) (z : Cell K V)
      → Chain n prev (xs ++ (z ∷ []))
      → (n z.addr ≡ some (entry_of z (last prev xs) 0)) × (z.addr ≢ 0) × Misses z.addr xs
  Chain-last n prev [] z (nz, at, _, _) = (at, nz, tt)
  Chain-last n prev (x ∷ xs) z (nz, at, miss, c) =
      let (at', nz', apart) = Chain-last n x.addr xs z c in
      (at', nz', ((λ e. Misses-last x.addr xs z miss (sym e)), apart))
    where
      Misses-last :
          (a : ℕ) (xs : List (Cell K V)) (z : Cell K V) → Misses a (xs ++ (z ∷ [])) → a ≢ z.addr
      Misses-last a [] z (ne, _) = ne
      Misses-last a (x ∷ xs) z (_, m) = Misses-last a xs z m

  Misses-append :
      (a : ℕ) (xs : List (Cell K V)) (z : Cell K V) → Misses a (xs ++ (z ∷ [])) → Misses a xs
  Misses-append a [] z m = tt
  Misses-append a (x ∷ xs) z (ne, m) = (ne, Misses-append a xs z m)

  Misses-last_of :
      (a : ℕ) (x : Cell K V) (xs : List (Cell K V)) → Misses a (x ∷ xs) → a ≢ last x.addr xs
  Misses-last_of a x [] (ne, _) = ne
  Misses-last_of a x (y ∷ xs) (_, m) = Misses-last_of a y xs m

  -- The entry before the last one becomes the last.
  pub Chain-cut :
      (n : ℕ → Option (Entry K V)) (prev : ℕ) (y : Cell K V) (ys : List (Cell K V)) (z : Cell K V)
      → Chain n prev ((y ∷ ys) ++ (z ∷ []))
      → (e : Entry K V) × (n (last y.addr ys) ≡ some e)
        × (last y.addr ys ≢ 0)
        × Chain (store n (last y.addr ys) (some (with_next 0 e))) prev (y ∷ ys)
  Chain-cut n prev y [] z (nz, at, _, _) =
      (entry_of y prev z.addr, at, nz, (nz, store_at n y.addr _, tt, tt))
  Chain-cut n prev y (y' ∷ ys) z (nz, at, miss, c) =
      let (e, at', lnz, c') = Chain-cut n y.addr y' ys z c in
      let others = Misses-append y.addr (y' ∷ ys) z miss in
      let apart = Misses-last_of y.addr y' ys others in
      (
        e,
        at',
        lnz,
        (nz, store_other n (last y'.addr ys) y.addr _ (λ q. apart (sym q)) ∙ at, others, c'),
      )

  -- Where the table finds the keys.
  abbrev pub dict : List (Cell K V) → K → Option ℕ
  dict [] k = none
  dict (x ∷ xs) k = if key.same x.key k then some x.addr else dict xs k

  -- No key occurs twice.
  abbrev pub Unique : List (Cell K V) → Type 0
  Unique [] = Unit
  Unique (x ∷ xs) = (dict xs x.key ≡ none) × Unique xs

  -- A key that the table lacks is neither among the others nor the last one.
  unlike :
      (xs : List (Cell K V)) (z : Cell K V) (k : K)
      → dict (xs ++ (z ∷ [])) k ≡ none
      → (dict xs k ≡ none) × (key.same z.key k ≡ false)
  unlike [] z k e = elim (Bool-cases (key.same z.key k)) [
    | inl same ↦ let there : some z.addr ≡ none = rw same at e in ground arith
    | inr other ↦ (refl, other)
  ]
  unlike (x ∷ xs) z k e = elim (Bool-cases (key.same x.key k)) [
    | inl same ↦ let there : some x.addr ≡ none = rw same at e in ground arith
    | inr other ↦ rw other (unlike xs z k (rw other at e))
  ]

  pub dict-without :
      (xs : List (Cell K V)) (z : Cell K V)
      → Unique (xs ++ (z ∷ []))
      → (q : K) → (if key.same z.key q then none else dict (xs ++ (z ∷ [])) q) ≡ dict xs q
  dict-without [] z u q = elim (Bool-cases (key.same z.key q)) [
    | inl same ↦ rw same refl
    | inr other ↦ rw other refl
  ]
  dict-without (x ∷ xs) z (absent, u) q = elim (Bool-cases (key.same x.key q)) [
    | inr other ↦ rw other (dict-without xs z u q)
    | inl same ↦
        let e = (key.same_iff x.key q).0 same in
        let apart : key.same z.key q ≡ false =
          ap (key.same z.key) (sym e) ∙ (unlike xs z x.key absent).1 in
        rw (same, apart) refl
  ]

  pub Unique-append : (xs : List (Cell K V)) (z : Cell K V) → Unique (xs ++ (z ∷ [])) → Unique xs
  Unique-append [] z u = tt
  Unique-append (x ∷ xs) z (absent, u) = ((unlike xs z x.key absent).0, Unique-append xs z u)

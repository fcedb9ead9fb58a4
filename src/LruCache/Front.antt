-- ===== src/LruCache/Front.antt =====
-- `Lookup` of ds/cache.h, which moves the entry that it finds to the front.
use panix.Prelude.{
  ℕ, ◌≡◌, ◌≢◌, refl, ap, sym, ◌∙◌, subst, fun_ext, arith, Option, none, some, List, [], ◌∷◌, ◌++◌,
  ◌==◌, if◌then◌else◌, eq_true, eq_false, Bool, true, false, ◌&&◌, ltb, lt→ltb, Bool-cases, inl,
  inr, length, length-append,
}
use panix.Prelude.Run.{ok, Returns}
use panix.HashMap.{Key}
use panix.HashMap.Valid.{Models, lookup-Models}
use panix.LruCache.{Entry, LruCache, store, update, with_next, touch, lookup}
use panix.LruCache.Recency.{
  Cell, first, last, Misses, entry_of, Chain, store_at, Chain-store, dict, Unique,
}
use panix.LruCache.Cached.{IsCache, load-ok, linked}
use panix.LruCache.Touched.{Chain-middle, bridge}

other_way : {K : Type 0} ⦃key : Key K⦄ → (a b : K) → key.same b a ≡ false → key.same a b ≡ false
other_way ⦃key⦄ a b other = elim (Bool-cases (key.same a b)) [
  | inl same ↦
      let e = (key.same_iff a b).0 same in
      let back = (key.same_iff b a).1 (sym e) in
      let clash : true ≡ false = sym back ∙ other in ground arith
  | inr apart ↦ apart
]

module _ {K V : Type 0} ⦃key : Key K⦄ where
  update-ok :
      (change : Entry K V → Entry K V) (n : ℕ → Option (Entry K V)) (p : ℕ) (e : Entry K V)
      → p ≢ 0
      → n p ≡ some e
      → update change p n ≡ ok (store n p (some (change e)))
  update-ok change n p e nz at = rw (load-ok n p e nz at) refl

  -- The entry before the list, whose first cell is the newest one.
  fronted :
      (n : ℕ → Option (Entry K V)) (mru : ℕ) (z : Cell K V) (xs ys : List (Cell K V))
      → z.addr ≢ 0
      → n z.addr ≡ some (entry_of z (last 0 xs) (first ys))
      → Misses z.addr (xs ++ ys)
      → Chain n 0 (xs ++ ys)
      → mru ≡ first (xs ++ (z ∷ ys))
      → Returns
          (if mru == z.addr
            then ok (store n z.addr (some (entry_of z 0 (first ys))))
            else update (with_next mru) z.addr (store n z.addr (some (entry_of z 0 (first ys)))))
          λ n4. (n4 z.addr ≡ some (entry_of z 0 (first (xs ++ ys)))) × Chain n4 0 (xs ++ ys)
  fronted n mru z [] ys nz at miss c newest =
      let e : Option (Entry K V) = some (entry_of z 0 (first ys)) in
      rw (newest, eq_true z.addr z.addr refl)
        (store n z.addr e, refl, (store_at n z.addr e, Chain-store n 0 z.addr e ys miss c))
  fronted n mru z (x ∷ xs) ys nz at miss c newest =
      let e = entry_of z 0 (first ys) in
      let e' = entry_of z 0 x.addr in
      let n3 = store n z.addr (some e) in
      rw
        (
          newest,
          eq_false x.addr z.addr (λ q. miss.0 (sym q)),
          update-ok (with_next x.addr) n3 z.addr e nz (store_at n z.addr (some e)),
        )
        (
          store n3 z.addr (some e'),
          refl,
          (
            store_at n3 z.addr (some e'),
            Chain-store n3 0 z.addr (some e') ((x ∷ xs) ++ ys) miss
                (Chain-store n 0 z.addr (some e) ((x ∷ xs) ++ ys) miss c),
          ),
        )

  append-nil : (xs : List (Cell K V)) → xs ++ [] ≡ xs
  append-nil [] = refl
  append-nil (x ∷ xs) = ap (λ ys. x ∷ ys) (append-nil xs)

  last-append :
      (prev : ℕ) (xs : List (Cell K V)) (y : Cell K V) (ys : List (Cell K V))
      → last prev (xs ++ (y ∷ ys)) ≡ last y.addr ys
  last-append prev [] y ys = refl
  last-append prev (x ∷ xs) y ys = last-append x.addr xs y ys

  Misses-last_of :
      (a : ℕ) (xs : List (Cell K V)) (y : Cell K V) (ys : List (Cell K V))
      → Misses a (xs ++ (y ∷ ys))
      → a ≢ last y.addr ys
  Misses-last_of a [] y [] (ne, _) = ne
  Misses-last_of a [] y (y' ∷ ys) (_, m) = Misses-last_of a [] y' ys m
  Misses-last_of a (x ∷ xs) y ys (_, m) = Misses-last_of a xs y ys m

  -- The oldest entry, where the cell may have been it.
  oldest_then :
      (lru num : ℕ) (z : Cell K V) (xs ys : List (Cell K V))
      → Misses z.addr (xs ++ ys)
      → lru ≡ last 0 (xs ++ (z ∷ ys))
      → num ≡ length (xs ++ (z ∷ ys))
      → (if ltb 1 num && lru == z.addr then last 0 xs else lru) ≡ last z.addr (xs ++ ys)
  oldest_then lru num z [] [] miss e counted = rw (counted, e) refl
  oldest_then lru num z (x ∷ xs) [] miss e counted =
      let many : ltb 1 num ≡ true =
        lt→ltb 1 num (omega (arith, counted, length-append xs (z ∷ []))) in
      let at : (lru == z.addr) ≡ true = eq_true lru z.addr (e ∙ last-append 0 (x ∷ xs) z []) in
      rw (many, at) (ap (last x.addr) (sym (append-nil xs)))
  oldest_then lru num z xs (y ∷ ys) miss e counted =
      let there = e ∙ last-append 0 xs z (y ∷ ys) in
      let other : (lru == z.addr) ≡ false =
        eq_false lru z.addr (λ q. Misses-last_of z.addr xs y ys miss (sym q ∙ there)) in
      let same = there ∙ sym (last-append z.addr xs y ys) in
      elim (Bool-cases (ltb 1 num)) [ inl many ↦ rw (many, other) same | inr few ↦ rw few same ]

  -- `touch` of the cell.
  touch-front :
      (c : LruCache K V) (xs : List (Cell K V)) (z : Cell K V) (ys : List (Cell K V))
      → IsCache c (xs ++ (z ∷ ys))
      → Returns (touch z.addr c) λ r.
        (r.0 ≡ z.value)
        × Chain (r.1).nodes 0 (z ∷ (xs ++ ys))
        × ((r.1).mru ≡ z.addr)
        × ((r.1).lru ≡ last z.addr (xs ++ ys))
        × ((r.1).entries ≡ c.entries)
        × ((r.1).num_entries ≡ c.num_entries)
  unfolding touch
  touch-front c xs z ys h =
      let (at, nz, miss) = Chain-middle c.nodes 0 xs z ys h.chain in
      let b = bridge c.nodes xs z ys h.chain in
      let e = entry_of z (last 0 xs) (first ys) in
      let at1 = b.between_same z.addr miss ∙ at in
      let at2 = b.after_same z.addr miss ∙ at in
      let (n4, run4, (at4, chain4)) = fronted b.after c.mru z xs ys nz at2 miss b.chain h.newest in
      let (n5, run5, (chain5, same5)) = linked n4 0 z.addr (xs ++ ys) chain4 in
      let at5 = same5 z.addr miss ∙ at4 in
      rw
        (
          load-ok c.nodes z.addr e nz at,
          b.before_run,
          load-ok b.between z.addr e nz at1,
          b.behind_run,
          load-ok b.after z.addr e nz at2,
          run4,
          load-ok n4 z.addr (entry_of z 0 (first (xs ++ ys))) nz at4,
          run5,
          load-ok n5 z.addr (entry_of z 0 (first (xs ++ ys))) nz at5,
        )
        (
          _,
          refl,
          (
            refl,
            (nz, at5, miss, chain5),
            refl,
            oldest_then c.lru c.num_entries z xs ys miss h.oldest h.counted,
            refl,
            refl,
          ),
        )

  unlike_first :
      (z : Cell K V) (xs : List (Cell K V)) (k : K)
      → dict (z ∷ xs) k ≡ none
      → key.same z.key k ≡ false
  unlike_first z xs k e = elim (Bool-cases (key.same z.key k)) [
    | inl same ↦ let there : some z.addr ≡ none = rw same at e in ground arith
    | inr other ↦ other
  ]

  -- The keys that the table has do not depend on the order.
  dict-front :
      (xs : List (Cell K V)) (z : Cell K V) (ys : List (Cell K V))
      → Unique (xs ++ (z ∷ ys))
      → (q : K) → dict (xs ++ (z ∷ ys)) q ≡ dict (z ∷ (xs ++ ys)) q
  dict-front [] z ys u q = refl
  dict-front (x ∷ xs) z ys (absent, u) q =
      let further = dict-front xs z ys u q in
      elim (Bool-cases (key.same x.key q)) [
        | inr other ↦ rw other further
        | inl same ↦
            let e = (key.same_iff x.key q).0 same in
            let apart : key.same z.key q ≡ false =
              ap (key.same z.key) (sym e)
              ∙ unlike_first z (xs ++ ys) x.key (sym (dict-front xs z ys u x.key) ∙ absent) in
            rw (same, apart) refl
      ]

  Unique-front :
      (xs : List (Cell K V)) (z : Cell K V) (ys : List (Cell K V))
      → Unique (xs ++ (z ∷ ys))
      → Unique (z ∷ (xs ++ ys))
  Unique-front [] z ys u = u
  Unique-front (x ∷ xs) z ys (absent, u) =
      let (absent', u') = Unique-front xs z ys u in
      let without = sym (dict-front xs z ys u x.key) ∙ absent in
      let apart = unlike_first z (xs ++ ys) x.key without in
      let apart' : key.same x.key z.key ≡ false = other_way x.key z.key apart in
      (
        ap (λ (b : Bool). if b then some x.addr else dict (xs ++ ys) z.key) apart' ∙ absent',
        (
          ap (λ (b : Bool). if b then some z.addr else dict (xs ++ ys) x.key) (sym apart) ∙ without,
          u',
        ),
      )

  -- `Lookup` of a key that the cache has ends without a fault and returns its value: the cache then holds the cell before
  -- the others, which keep their order.
  pub lookup-IsCache :
      (c : LruCache K V) (xs : List (Cell K V)) (z : Cell K V) (ys : List (Cell K V))
      → IsCache c (xs ++ (z ∷ ys))
      → Returns (lookup z.key c) λ r. (r.0 ≡ some z.value) × IsCache (r.1) (z ∷ (xs ++ ys))
  unfolding lookup
  lookup-IsCache c xs z ys h =
      let (res, run, (value, chain, newest, oldest, entries, num)) = touch-front c xs z ys h in
      let there : dict (xs ++ (z ∷ ys)) z.key ≡ some z.addr =
        dict-front xs z ys h.unique z.key
        ∙ ap (λ (b : Bool). if b then some z.addr else dict (xs ++ ys) z.key)
            ((key.same_iff z.key z.key).1 refl) in
      rw (lookup-Models h.table z.key, there, run)
        (
          _,
          refl,
          (
            ap some value,
            record {
              chain = chain;
              newest = newest;
              oldest = oldest;
              counted =
                  omega (arith, num, h.counted, length-append xs (z ∷ ys), length-append xs ys);
              table =
                  subst (λ m. Models (dict (z ∷ (xs ++ ys))) m) (sym entries)
                    (subst (λ f. Models f c.entries) (fun_ext (dict-front xs z ys h.unique))
                      h.table);
              unique = Unique-front xs z ys h.unique;
            },
          ),
        )

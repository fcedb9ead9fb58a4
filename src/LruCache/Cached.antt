-- ===== src/LruCache/Cached.antt =====
-- What a cache of ds/cache.h holds after `Insert` and `Evict`.
use panix.Prelude.{
  ℕ, ◌+◌, ◌^◌, ◌<◌, ◌≡◌, ◌≢◌, refl, sym, ◌∙◌, arith, Option, none, some, List, [], ◌∷◌, ◌==◌,
  if◌then◌else◌, eq_false, true, false, length,
}
use panix.Prelude.Run.{ok, Returns}
use panix.HashMap.{Key}
use panix.HashMap.Valid.{Models}
use panix.HashMap.Insert.{insert-Models}
use panix.LruCache.{Entry, LruCache, load, store, update_some, with_prev, insert}
use panix.LruCache.Recency.{
  Cell, first, last, Misses, entry_of, Chain, store_at, store_other, Chain-store, Chain-behind,
  dict, Unique,
}

module _ {K V : Type 0} ⦃key : Key K⦄ where
  -- The cache holds the cells, the most recently used first.
  pub record IsCache (c : LruCache K V) (xs : List (Cell K V)) : Type 0 where
    pub chain : Chain c.nodes 0 xs
    pub newest : c.mru ≡ first xs
    pub oldest : c.lru ≡ last 0 xs
    pub counted : c.num_entries ≡ length xs
    pub table : Models (dict xs) c.entries
    pub unique : Unique xs

  pub load-ok :
      (n : ℕ → Option (Entry K V)) (p : ℕ) (e : Entry K V) → p ≢ 0 → n p ≡ some e → load n p ≡ ok e
  unfolding load
  load-ok n p e nz at = rw (eq_false p 0 nz, at) refl

  pub update_some-ok :
      (change : Entry K V → Entry K V) (n : ℕ → Option (Entry K V)) (p : ℕ) (e : Entry K V)
      → p ≢ 0
      → n p ≡ some e
      → update_some change p n ≡ ok (store n p (some (change e)))
  update_some-ok change n p e nz at = rw (eq_false p 0 nz, load-ok n p e nz at) refl

  -- The list behind a new entry, which is there already; other entries stay.
  pub linked :
      (n : ℕ → Option (Entry K V)) (prev new : ℕ) (xs : List (Cell K V))
      → Chain n prev xs
      → Returns
          (update_some (with_prev new) (first xs) n)
          λ n'. Chain n' new xs × ((a : ℕ) → Misses a xs → n' a ≡ n a)
  linked n prev new [] c = (n, refl, (tt, λ a m. refl))
  linked n prev new (x ∷ xs) c = (
    _,
    update_some-ok (with_prev new) n x.addr (entry_of x prev (first xs)) (c.0) (c.1),
    (Chain-behind n prev new x xs c, λ a m. store_other n x.addr a _ (λ e. m.0 (sym e))),
  )

  pub last-there :
      (n : ℕ → Option (Entry K V)) (prev : ℕ) (x : Cell K V) (xs : List (Cell K V))
      → Chain n prev (x ∷ xs)
      → last x.addr xs ≢ 0
  last-there n prev x [] (nz, _, _, _) = nz
  last-there n prev x (y ∷ xs) (_, _, _, c) = last-there n x.addr y xs c

  -- The oldest entry of a list before which one is put.
  oldest_after :
      (n : ℕ → Option (Entry K V)) (lru new : ℕ) (xs : List (Cell K V))
      → Chain n 0 xs
      → lru ≡ last 0 xs
      → (if lru == 0 then new else lru) ≡ last new xs
  oldest_after n lru new [] c e = rw e refl
  oldest_after n lru new (x ∷ xs) c e =
      let nz = last-there n 0 x xs c in rw (e, eq_false (last x.addr xs) 0 nz) refl

  -- `Insert` of a key that the cache does not have, while memory is not critical, ends without a fault and returns true:
  -- the cache then holds the new cell before the others.
  pub insert-IsCache :
      (new : ℕ) (k : K) (v : V) (c : LruCache K V) (xs : List (Cell K V))
      → IsCache c xs
      → new ≢ 0
      → Misses new xs
      → dict xs k ≡ none
      → length xs + 1 < 2 ^ 64
      → Returns
          (insert false new k v c)
          λ r. (r.0 ≡ true) × IsCache (r.1) (record { addr = new; key = k; value = v } ∷ xs)
  unfolding insert
  insert-IsCache new k v c xs h nz m absent few =
      let e : Entry K V = record { key = k; value = v; prev = 0; next = first xs } in
      let n1 = store c.nodes new (some e) in
      let (n2, run, (chain, there)) =
        linked n1 0 new xs (Chain-store c.nodes 0 new (some e) xs m h.chain) in
      let (res, entered, (done, models, _)) = insert-Models h.table k new absent in
      rw (h.newest, run, entered, done)
        (
          _,
          refl,
          (
            refl,
            record {
              chain = (nz, there new m ∙ store_at c.nodes new (some e), m, chain);
              newest = refl;
              oldest = oldest_after c.nodes c.lru new xs h.chain h.oldest;
              counted = omega (arith, h.counted);
              table = models;
              unique = (absent, h.unique);
            },
          ),
        )

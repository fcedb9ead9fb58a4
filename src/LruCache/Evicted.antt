-- ===== src/LruCache/Evicted.antt =====
-- `Evict` of ds/cache.h, with other entries left and without.
use panix.Prelude.{
  ℕ, ◌+◌, ◌^◌, ◌<◌, ◌≡◌, ◌≢◌, refl, ◌∙◌, subst, fun_ext, arith, Option, none, some, List, [], ◌∷◌,
  ◌++◌, eq_false, false, length, length-append,
}
use panix.Prelude.Run.{fault, ◌>>=◌, Returns, use_after_free}
use panix.HashMap.{Key}
use panix.HashMap.Valid.{Models}
use panix.HashMap.Delete.{delete-Models}
use panix.LruCache.{Entry, LruCache, load, store, with_next, insert, evict_one}
use panix.LruCache.Recency.{
  Cell, last, entry_of, store_at, store_other, Chain-store, Chain-last, Chain-cut, dict-without,
  Unique-append,
}
use panix.LruCache.Cached.{IsCache, load-ok, update_some-ok}

module _ {K V : Type 0} ⦃key : Key K⦄ where
  last-append :
      (prev : ℕ) (xs : List (Cell K V)) (z : Cell K V) → last prev (xs ++ (z ∷ [])) ≡ z.addr
  last-append prev [] z = refl
  last-append prev (x ∷ xs) z = last-append x.addr xs z

  -- `Evict` of one entry, where there is another, ends without a fault: the handler gets the key and the value of the cell
  -- that was used the longest time ago, and the cache holds the others, in the same order.
  pub evict_one-IsCache :
      (c : LruCache K V) (y : Cell K V) (ys : List (Cell K V)) (z : Cell K V)
      → IsCache c ((y ∷ ys) ++ (z ∷ []))
      → length ys + 2 < 2 ^ 64
      → Returns
          (evict_one c)
          λ c'. IsCache c' (y ∷ ys) × (c'.evicted ≡ (z.key, z.value) ∷ c.evicted)
  unfolding evict_one
  evict_one-IsCache c y ys z h few =
      let xs = y ∷ ys in
      let all = xs ++ (z ∷ []) in
      let (at, znz, apart) = Chain-last c.nodes 0 xs z h.chain in
      let (e, at', lnz, cut) = Chain-cut c.nodes 0 y ys z h.chain in
      let oldest : c.lru ≡ z.addr = h.oldest ∙ last-append 0 xs z in
      let n1 = store c.nodes (last y.addr ys) (some (with_next 0 e)) in
      let (res, deleted, (_, models, _)) = delete-Models h.table z.key in
      rw
        (
          oldest,
          load-ok c.nodes z.addr (entry_of z (last y.addr ys) 0) znz at,
          update_some-ok (with_next 0) c.nodes (last y.addr ys) e lnz at',
          deleted,
        )
        (
          _,
          refl,
          (
            record {
              chain = Chain-store n1 0 z.addr none xs apart cut;
              newest = h.newest;
              oldest = refl;
              counted = omega (arith, h.counted, length-append xs (z ∷ []));
              table = subst (λ f. Models f (res.0)) (fun_ext (dict-without xs z h.unique)) models;
              unique = Unique-append xs z h.unique;
            },
            refl,
          ),
        )

  load-freed :
      (n : ℕ → Option (Entry K V)) (p : ℕ) → p ≢ 0 → n p ≡ none → load n p ≡ fault use_after_free
  unfolding load
  load-freed n p nz gone = rw (eq_false p 0 nz, gone) refl

  -- Once the last entry was evicted, the next `Insert`, whose new entry is allocated elsewhere, writes to it through the
  -- pointer to the newest entry.
  pub evict_one_dangles :
      (c : LruCache K V) (z : Cell K V) (new : ℕ) (k : K) (v : V)
      → IsCache c (z ∷ [])
      → new ≢ 0
      → new ≢ z.addr
      → (evict_one c >>= insert false new k v) ≡ fault use_after_free
  unfolding evict_one insert
  evict_one_dangles c z new k v h nz ne =
      let (znz, at, _, _) = h.chain in
      let (res, deleted, _) = delete-Models h.table z.key in
      let freed = store c.nodes z.addr none in
      let n : ℕ → Option (Entry K V) =
        store freed new (some (record { key = k; value = v; prev = 0; next = z.addr })) in
      let gone : n z.addr ≡ none =
        store_other freed new z.addr _ ne ∙ store_at c.nodes z.addr none in
      rw
        (
          h.oldest,
          load-ok c.nodes z.addr (entry_of z 0 0) znz at,
          deleted,
          h.newest,
          eq_false z.addr 0 znz,
          load-freed n z.addr znz gone,
        )
        refl

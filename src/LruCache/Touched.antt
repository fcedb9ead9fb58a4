-- ===== src/LruCache/Touched.antt =====
-- The list of ds/cache.h while `Lookup` moves an entry to its front.
use panix.Prelude.{ℕ, ◌≡◌, ◌≢◌, refl, sym, ◌∙◌, Option, some, List, [], ◌∷◌, ◌++◌}
use panix.Prelude.Run.{ok}
use panix.HashMap.{Key}
use panix.LruCache.{Entry, store, update_some, with_prev, with_next}
use panix.LruCache.Recency.{
  Cell, first, last, Misses, entry_of, Chain, store_at, store_other, Chain-store,
}
use panix.LruCache.Cached.{update_some-ok, linked}

module _ {K V : Type 0} ⦃key : Key K⦄ where
  Misses-around :
      (a : ℕ) (xs : List (Cell K V)) (z : Cell K V) (ys : List (Cell K V))
      → Misses a (xs ++ (z ∷ ys))
      → Misses a (xs ++ ys) × (a ≢ z.addr)
  Misses-around a [] z ys (ne, m) = (m, ne)
  Misses-around a (x ∷ xs) z ys (ne, m) =
      let (m', ne') = Misses-around a xs z ys m in ((ne, m'), ne')

  Misses-last :
      (a : ℕ) (x : Cell K V) (xs ys : List (Cell K V))
      → Misses a ((x ∷ xs) ++ ys)
      → a ≢ last x.addr xs
  Misses-last a x [] ys (ne, _) = ne
  Misses-last a x (y ∷ xs) ys (_, m) = Misses-last a y xs ys m

  -- The entry of a cell in the list.
  pub Chain-middle :
      (n : ℕ → Option (Entry K V)) (prev : ℕ) (xs : List (Cell K V)) (z : Cell K V)
      (ys : List (Cell K V))
      → Chain n prev (xs ++ (z ∷ ys))
      → (n z.addr ≡ some (entry_of z (last prev xs) (first ys)))
        × (z.addr ≢ 0)
        × Misses z.addr (xs ++ ys)
  Chain-middle n prev [] z ys (nz, at, miss, c) = (at, nz, miss)
  Chain-middle n prev (x ∷ xs) z ys (nz, at, miss, c) =
      let (at', nz', apart) = Chain-middle n x.addr xs z ys c in
      let (_, ne) = Misses-around x.addr xs z ys miss in (at', nz', ((λ e. ne (sym e)), apart))

  -- The two writes that bridge a cell.
  pub record Bridged (n : ℕ → Option (Entry K V)) (prev : ℕ) (xs : List (Cell K V)) (z : Cell K V)
      (ys : List (Cell K V)) : Type 0 where
    pub between : ℕ → Option (Entry K V)
    pub after : ℕ → Option (Entry K V)
    pub before_run : update_some (with_next (first ys)) (last prev xs) n ≡ ok between
    pub behind_run : update_some (with_prev (last prev xs)) (first ys) between ≡ ok after
    pub chain : Chain after prev (xs ++ ys)
    pub between_same : (a : ℕ) → Misses a (xs ++ ys) → between a ≡ n a
    pub after_same : (a : ℕ) → Misses a (xs ++ ys) → after a ≡ n a

  first-append : (x : Cell K V) (xs ys : List (Cell K V)) → first ((x ∷ xs) ++ ys) ≡ x.addr
  first-append x xs ys = refl

  -- Behind another cell.
  bridge-behind :
      (n : ℕ → Option (Entry K V)) (prev : ℕ) (x : Cell K V) (xs : List (Cell K V)) (z : Cell K V)
      (ys : List (Cell K V))
      → Chain n prev ((x ∷ xs) ++ (z ∷ ys))
      → Bridged n prev (x ∷ xs) z ys
  bridge-behind n prev x [] z ys (nz, at, miss, (znz, zat, zmiss, c)) =
      let n1 = store n x.addr (some (entry_of x prev (first ys))) in
      let (n2, run, (chain, same)) =
        linked n1 z.addr x.addr ys (Chain-store n z.addr x.addr _ ys (miss.1) c) in
      record {
        between = n1;
        after = n2;
        before_run = update_some-ok (with_next (first ys)) n x.addr (entry_of x prev z.addr) nz at;
        behind_run = run;
        chain = (nz, same x.addr (miss.1) ∙ store_at n x.addr _, miss.1, chain);
        between_same = λ a m. store_other n x.addr a _ (λ e. m.0 (sym e));
        after_same = λ a m. same a (m.1) ∙ store_other n x.addr a _ (λ e. m.0 (sym e));
      }
  bridge-behind n prev x (x' ∷ xs) z ys (nz, at, miss, c) =
      let b = bridge-behind n x.addr x' xs z ys c in
      let (m, _) = Misses-around x.addr (x' ∷ xs) z ys miss in
      record {
        between = b.between;
        after = b.after;
        before_run = b.before_run;
        behind_run = b.behind_run;
        chain = (nz, b.after_same x.addr m ∙ at, m, b.chain);
        between_same = λ a o. b.between_same a (o.1);
        after_same = λ a o. b.after_same a (o.1);
      }

  pub bridge :
      (n : ℕ → Option (Entry K V)) (xs : List (Cell K V)) (z : Cell K V) (ys : List (Cell K V))
      → Chain n 0 (xs ++ (z ∷ ys))
      → Bridged n 0 xs z ys
  bridge n [] z ys (nz, at, miss, c) =
      let (n2, run, (chain, same)) = linked n z.addr 0 ys c in
      record {
        between = n;
        after = n2;
        before_run = refl;
        behind_run = run;
        chain = chain;
        between_same = λ a m. refl;
        after_same = same;
      }
  bridge n (x ∷ xs) z ys c = bridge-behind n 0 x xs z ys c

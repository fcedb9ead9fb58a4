-- ===== src/Tests/LruCache.antt =====
-- The theorems on ds/cache.h at an empty cache, and at one that is filled by `Insert`.
use panix.Prelude.{ℕ, ◌≡◌, refl, arith, true, false, none, some, [], ◌∷◌, ◌==◌, ==_iff}
use panix.Prelude.Run.{fault, ◌>>=◌, Returns, use_after_free}
use panix.HashMap.{Key, new}
use panix.HashMap.Valid.{new-Models}
use panix.LruCache.{LruCache, insert, evict_one, lookup}
use panix.LruCache.Cached.{IsCache, insert-IsCache}
use panix.LruCache.Front.{lookup-IsCache}
use panix.LruCache.Evicted.{evict_one-IsCache, evict_one_dangles}

instance abbrev number_key : Key ℕ
number_key = record { same = ◌==◌; hash = λ k. k; same_iff = ==_iff }

abbrev start : LruCache ℕ ℕ
start = record {
  mru = 0;
  lru = 0;
  num_entries = 0;
  entries = new 9;
  nodes = λ a. none;
  evicted = [];
}

start-IsCache : IsCache start []
start-IsCache = record {
  chain = tt;
  newest = refl;
  oldest = refl;
  counted = refl;
  table = new-Models 9 (omega arith);
  unique = tt;
}

insert-IsCache_example :
    Returns
      (insert false 64 5 50 start)
      λ r. (r.0 ≡ true) × IsCache (r.1) (record { addr = 64; key = 5; value = 50 } ∷ [])
insert-IsCache_example =
    insert-IsCache 64 5 50 start [] start-IsCache (ground arith) tt refl (omega arith)

one :
    Returns
      (insert false 64 5 50 start)
      λ r. (r.0 ≡ true) × IsCache (r.1) (record { addr = 64; key = 5; value = 50 } ∷ [])
one = insert-IsCache 64 5 50 start [] start-IsCache (ground arith) tt refl (omega arith)

abbrev one_cell : LruCache ℕ ℕ
one_cell = (one.0).1

two : Returns (insert false 96 6 60 one_cell) λ r.
    (r.0 ≡ true)
    × IsCache
        (r.1)
        (record { addr = 96; key = 6; value = 60 } ∷ record { addr = 64; key = 5; value = 50 } ∷ [])
two =
    insert-IsCache 96 6 60 one_cell (record { addr = 64; key = 5; value = 50 } ∷ []) (one.2.1)
      (ground arith) (ground arith, tt) refl (omega arith)

abbrev two_cells : LruCache ℕ ℕ
two_cells = (two.0).1

evict_one-IsCache_example : Returns (evict_one two_cells) λ c'.
    IsCache c' (record { addr = 96; key = 6; value = 60 } ∷ [])
    × (c'.evicted ≡ (5, 50) ∷ two_cells.evicted)
evict_one-IsCache_example =
    evict_one-IsCache two_cells (record { addr = 96; key = 6; value = 60 }) []
      (record { addr = 64; key = 5; value = 50 }) (two.2.1) (omega arith)

evict_one_dangles_example : (evict_one one_cell >>= insert false 96 6 60) ≡ fault use_after_free
evict_one_dangles_example =
    evict_one_dangles one_cell (record { addr = 64; key = 5; value = 50 }) 96 6 60 (one.2.1)
      (ground arith) (ground arith)

lookup-IsCache_example : Returns (lookup 5 two_cells) λ r.
    (r.0 ≡ some 50)
    × IsCache
        (r.1)
        (record { addr = 64; key = 5; value = 50 } ∷ record { addr = 96; key = 6; value = 60 } ∷ [])
lookup-IsCache_example =
    lookup-IsCache two_cells (record { addr = 96; key = 6; value = 60 } ∷ [])
      (record { addr = 64; key = 5; value = 50 }) [] (two.2.1)

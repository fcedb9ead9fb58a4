-- ===== src/LruCache.antt =====
-- `ds::LRUCache` of ds/cache.h, over the table of ds/hash_map.h, whose values are the addresses of the entries. An
-- address without an entry is `none`, and its use a fault. What the eviction handler is called with is logged.
use panix.Prelude.{
  ℕ, zero, suc, ◌+◌, ◌-◌, ◌%◌, ◌^◌, Bool, true, false, not, ◌&&◌, Option, none, some, List, [], ◌∷◌,
  ltb, ◌==◌, if◌then◌else◌,
}
use panix.Prelude.Run.{Run, ok, fault, ◌>>=◌, expect, null_dereference, use_after_free}
use panix.HashMap.{
  Key, HashMap, insert as table_insert, lookup as table_lookup, delete as table_delete,
}
pub mod Recency
pub mod Cached
pub mod Evicted
pub mod Touched
pub mod Front

-- `LinkedListEntry`
pub record Entry (K V : Type 0) : Type 0 where
  pub key : K
  pub value : V
  pub prev : ℕ
  pub next : ℕ

pub record LruCache (K V : Type 0) : Type 0 where
  pub mru : ℕ
  pub lru : ℕ
  pub num_entries : ℕ
  pub entries : HashMap K ℕ
  pub nodes : ℕ → Option (Entry K V)
  pub evicted : List (K × V)

module _ {K V : Type 0} ⦃key : Key K⦄ where
  -- `entry->...`
  unfoldable pub load : (ℕ → Option (Entry K V)) → ℕ → Run (Entry K V)
  load nodes p = if p == 0 then fault null_dereference else expect use_after_free (nodes p)

  unfoldable pub store : (ℕ → Option (Entry K V)) → ℕ → Option (Entry K V) → ℕ → Option (Entry K V)
  store nodes p e a = if a == p then e else nodes a

  abbrev pub update :
      (Entry K V → Entry K V) → ℕ → (ℕ → Option (Entry K V)) → Run (ℕ → Option (Entry K V))
  update change p nodes = load nodes p >>= λ e. ok (store nodes p (some (change e)))

  -- `if(p) p->... = ...`
  abbrev pub update_some :
      (Entry K V → Entry K V) → ℕ → (ℕ → Option (Entry K V)) → Run (ℕ → Option (Entry K V))
  update_some change p nodes = if p == 0 then ok nodes else (update change p nodes)

  abbrev pub with_prev : ℕ → Entry K V → Entry K V
  with_prev p e = record e { prev = p }

  abbrev pub with_next : ℕ → Entry K V → Entry K V
  with_next p e = record e { next = p }

  -- One round of `Evict`.
  unfoldable pub evict_one : LruCache K V → Run (LruCache K V)
  evict_one c = load c.nodes c.lru >>= λ e. update_some (with_next 0) e.prev c.nodes >>= λ nodes.
      table_delete c.entries e.key >>= λ (entries, deleted). ok (record c {
        lru = e.prev;
        num_entries = (c.num_entries + 2 ^ 64 - 1) % 2 ^ 64;
        entries = entries;
        nodes = store nodes c.lru none;
        evicted = (e.key, e.value) ∷ c.evicted;
      })

  -- `Evict`, with the number that was evicted.
  unfoldable pub evict : ℕ → LruCache K V → Run (ℕ × LruCache K V)
  evict zero c = ok (0, c)
  evict (suc n) c =
      let further = evict_one c >>= evict n >>= λ (i, c'). ok (suc i, c') in
      if c.num_entries == 0 then ok (0, c) else further

  unfoldable pub flush : LruCache K V → Run (LruCache K V)
  flush c = evict c.num_entries c >>= λ (i, c'). ok c'

  -- The entry is linked before the first, then entered in the table.
  abbrev pub push_entry : ℕ → K → V → LruCache K V → Run (Bool × LruCache K V)
  push_entry new k v c =
      update_some (with_prev new) c.mru
        (store c.nodes new (some (record { key = k; value = v; prev = 0; next = c.mru })))
      >>= λ nodes. table_insert c.entries k new >>= λ (entries, done). ok (
        done,
        if done
            then record c {
              nodes = nodes;
              entries = entries;
              mru = new;
              lru = if c.lru == 0 then new else c.lru;
              num_entries = (c.num_entries + 1) % 2 ^ 64;
            }
            else record c { nodes = nodes; entries = entries },
      )

  -- `Insert`, with what `MemCritical` says and the address that the allocator returns.
  unfoldable pub insert : Bool → ℕ → K → V → LruCache K V → Run (Bool × LruCache K V)
  insert critical new k v c =
      let relieved = evict 1 c >>= λ (i, c'). ok c' in
      (if critical then relieved else ok c) >>= push_entry new k v

  -- The entry that was found comes first.
  unfoldable pub touch : ℕ → LruCache K V → Run (V × LruCache K V)
  touch p c = load c.nodes p >>= λ e. update_some (with_next e.next) e.prev c.nodes >>= λ n1.
      load n1 p >>= λ e1. update_some (with_prev e1.prev) e1.next n1 >>= λ n2. load n2 p >>= λ e2.
      (let lru = if ltb 1 c.num_entries && c.lru == p then e2.prev else c.lru in
        update (with_prev 0) p n2 >>= λ n3.
        (if c.mru == p then ok n3 else (update (with_next c.mru) p n3)) >>= λ n4.
        load n4 p >>= λ e4. update_some (with_prev p) e4.next n4 >>= λ n5.
        load n5 p >>= λ e5. ok (e5.value, record c { lru = lru; mru = p; nodes = n5 }))

  abbrev pub touch_found : Option ℕ → LruCache K V → Run (Option V × LruCache K V)
  touch_found none c = ok (none, c)
  touch_found (some p) c = touch p c >>= λ (v, c'). ok (some v, c')

  unfoldable pub lookup : K → LruCache K V → Run (Option V × LruCache K V)
  lookup k c = table_lookup c.entries k >>= λ found. touch_found found c

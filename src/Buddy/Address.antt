-- ===== src/Buddy/Address.antt =====
-- Pages, their entries and their buddies in sys/buddy_allocator.cpp.
use panix.Prelude.{ℕ, zero, suc, ◌%◌, ◌<◌, ◌≤◌, ◌≡◌, refl, ap, ◌∙◌, some, arith, List}
use Prim.Native.Nat.{bit_xor, differ}
use panix.Prelude.Bits.{bit, bit-lt, bit-ext, bit-xor}
use panix.Buddy.State.{MemRange, entry_range, mdata_range, entry_to_addr, addr_to_entry, page_entry}

differ_back : (a b : ℕ) → a < 2 → b < 2 → differ (differ a b) b ≡ a
differ_back zero zero ha hb = refl
differ_back zero (suc zero) ha hb = refl
differ_back (suc zero) zero ha hb = refl
differ_back (suc zero) (suc zero) ha hb = refl
differ_back zero (suc (suc b)) ha hb = absurd (omega arith)
differ_back (suc zero) (suc (suc b)) ha hb = absurd (omega arith)
differ_back (suc (suc a)) b ha hb = absurd (omega arith)

pub xor_back : (x y : ℕ) → bit_xor (bit_xor x y) y ≡ x
xor_back x y = bit-ext _ _ λ i.
    bit-xor i (bit_xor x y) y
    ∙ ap (λ d. differ d (bit y i)) (bit-xor i x y)
    ∙ differ_back (bit x i) (bit y i) (bit-lt x i) (bit-lt y i)

-- The entries begin with the metadata, and there is room for one for each page.
pub record IsLaidOut (r : MemRange) : Type 0 where
  pub entries_first : r.page_entries ≡ r.mdata_base
  pub whole_pages : r.base % 4096 ≡ 0

-- The entry of a page in a range leads back to the page, where the entry is looked up in the same range.
pub entry_to_addr-addr_to_entry :
    (ranges : List MemRange) (r : MemRange) (addr : ℕ)
    → IsLaidOut r
    → addr % 4096 ≡ 0
    → r.base ≤ addr
    → entry_range ranges addr ≡ some r
    → mdata_range ranges (page_entry (some r) addr) ≡ some r
    → entry_to_addr ranges (addr_to_entry ranges addr) ≡ addr
unfolding entry_to_addr addr_to_entry
entry_to_addr-addr_to_entry ranges r addr laid aligned le at_page at_entry =
    rw (at_page, at_entry) (omega (arith, laid.entries_first, laid.whole_pages))

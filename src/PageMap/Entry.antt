-- ===== src/PageMap/Entry.antt =====
-- What the bit operations of sys/page_map.cpp come to on entries, flags and virtual addresses.
use panix.Prelude.{
  ℕ, zero, suc, ◌+◌, ◌-◌, ◌*◌, ◌/◌, ◌%◌, ◌^◌, ◌≤◌, ◌<◌, ◌≡◌, refl, sym, ◌∙◌, none, some, arith, ◌≢◌,
}
use Prim.Native.Nat.{bit_and, bit_or}
use panix.Prelude.Masks.{bit_and-mask, bit_and-high_mask, bit_or-add}
use panix.PageMap.{
  Words, to_high_mem, vaddr_index, get_page_flag, get_page_table, tab_addr_mask, entry, write,
}

pub vaddr_index-mod :
    (vaddr level : ℕ) → vaddr_index vaddr level ≡ vaddr / 2 ^ (12 + 9 * (level - 1)) % 512
unfolding vaddr_index
vaddr_index-mod vaddr level = bit_and-mask 9 _

pub vaddr_index-lt : (vaddr level : ℕ) → vaddr_index vaddr level < 512
vaddr_index-lt vaddr level = omega (arith, vaddr_index-mod vaddr level)

-- The flags of an entry: a set PRESENT bit, and none above bit 8.
abbrev pub IsFlags : ℕ → Type 0
IsFlags flags = (flags % 2 ≡ 1) × (flags < 2 ^ 9)

pub masked : (page : ℕ) → page < 2 ^ 64 → bit_and page tab_addr_mask ≡ page - page % 2 ^ 9
masked page h = bit_and-high_mask 64 9 page h (omega arith)

pub masked_zero : bit_and 0 tab_addr_mask ≡ 0
masked_zero = masked 0 (omega arith)

module _ (paddr flags : ℕ) (aligned : paddr % 2 ^ 9 ≡ 0) (small : flags < 2 ^ 9) where
  pub entry-add : bit_or paddr flags ≡ paddr + flags
  entry-add = bit_or-add 9 paddr flags aligned small

  pub entry-lt : paddr < 2 ^ 64 → bit_or paddr flags < 2 ^ 64
  entry-lt h = rw entry-add (omega arith)

  pub masked-entry : paddr < 2 ^ 64 → bit_and (bit_or paddr flags) tab_addr_mask ≡ paddr
  masked-entry h = masked (bit_or paddr flags) (entry-lt h) ∙ rw entry-add (omega arith)

present-mod : (page : ℕ) → bit_and page 1 ≡ page % 2
present-mod page = bit_and-mask 1 page

pub get_page_table_even :
    (words : Words) (t i : ℕ) → words (entry t i) % 2 ≡ 0 → get_page_table words t i ≡ none
unfolding get_page_table get_page_flag
get_page_table_even words t i h = ground (arith, present-mod (words (entry t i)))

pub get_page_table_entry :
    (words : Words) (t i paddr flags : ℕ)
    → paddr % 2 ^ 9 ≡ 0
    → IsFlags flags
    → paddr < 2 ^ 64
    → words (entry t i) ≡ bit_or paddr flags
    → get_page_table words t i ≡ some (to_high_mem paddr)
unfolding get_page_table get_page_flag
get_page_table_entry words t i paddr flags a (odd, small) h e =
    let set : bit_and (bit_or paddr flags) 1 ≡ 1 =
      present-mod (bit_or paddr flags) ∙ rw (entry-add paddr flags a small) (omega arith) in
    rw (e, set, masked-entry paddr flags a small h) refl

pub get_page_table_same :
    (w words : Words) (t i : ℕ)
    → w (entry t i) ≡ words (entry t i)
    → get_page_table w t i ≡ get_page_table words t i
unfolding get_page_table
get_page_table_same w words t i e = rw e refl

pub write_at : (words : Words) (p v : ℕ) → write words p v p ≡ v
unfolding write
write_at words p v = ground arith

pub write_other : (words : Words) (p v a : ℕ) → a ≢ p → write words p v a ≡ words a
unfolding write
write_other words p v a h = ground arith

-- Words of tables at page boundaries are apart.
pub entry-injective :
    (t u i j : ℕ)
    → t % 4096 ≡ 0
    → u % 4096 ≡ 0
    → i < 512
    → j < 512
    → entry t i ≡ entry u j
    → (t ≡ u) × (i ≡ j)
entry-injective t u i j at au hi hj e = (omega arith, omega arith)

pub to_high_mem-mod : (f : ℕ) → f % 4096 ≡ 0 → to_high_mem f % 4096 ≡ 0
unfolding to_high_mem
to_high_mem-mod f h = omega arith

pub to_high_mem-injective :
    (f g : ℕ) → f < 2 ^ 47 → g < 2 ^ 47 → to_high_mem f ≡ to_high_mem g → f ≡ g
unfolding to_high_mem
to_high_mem-injective f g hf hg e = omega arith

-- The page number of a virtual address, of which translation reads 36 bits.
abbrev pub page : ℕ → ℕ
page vaddr = vaddr / 4096 % 2 ^ 36

pub page-index :
    (v v' level : ℕ)
    → page v ≡ page v'
    → 1 ≤ level
    → level ≤ 4
    → vaddr_index v level ≡ vaddr_index v' level
page-index v v' zero e lo hi = absurd (omega arith)
page-index v v' (suc zero) e lo hi = vaddr_index-mod v 1 ∙ omega arith ∙ sym (vaddr_index-mod v' 1)
page-index v v' (suc (suc zero)) e lo hi =
    vaddr_index-mod v 2 ∙ omega arith ∙ sym (vaddr_index-mod v' 2)
page-index v v' (suc (suc (suc zero))) e lo hi =
    vaddr_index-mod v 3 ∙ omega arith ∙ sym (vaddr_index-mod v' 3)
page-index v v' (suc (suc (suc (suc zero)))) e lo hi =
    vaddr_index-mod v 4 ∙ omega arith ∙ sym (vaddr_index-mod v' 4)
page-index v v' (suc (suc (suc (suc (suc l))))) e lo hi = absurd (omega arith)

pub page-ext :
    (v v' : ℕ)
    → vaddr_index v 1 ≡ vaddr_index v' 1
    → vaddr_index v 2 ≡ vaddr_index v' 2
    → vaddr_index v 3 ≡ vaddr_index v' 3
    → vaddr_index v 4 ≡ vaddr_index v' 4
    → page v ≡ page v'
page-ext v v' a b c d = omega (
  arith,
  sym (vaddr_index-mod v 1) ∙ a ∙ vaddr_index-mod v' 1,
  sym (vaddr_index-mod v 2) ∙ b ∙ vaddr_index-mod v' 2,
  sym (vaddr_index-mod v 3) ∙ c ∙ vaddr_index-mod v' 3,
  sym (vaddr_index-mod v 4) ∙ d ∙ vaddr_index-mod v' 4,
)

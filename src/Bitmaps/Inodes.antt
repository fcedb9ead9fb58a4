-- ===== src/Bitmaps/Inodes.antt =====
-- `Ext2Mount::AllocVNode` and `DeleteINode` on the inode bitmaps.
use panix.Prelude.{
  ℕ, zero, suc, ◌+◌, ◌-◌, ◌*◌, ◌/◌, ◌%◌, ◌^◌, ◌<◌, ◌≤◌, ◌≡◌, ◌≢◌, refl, ap, sym, ◌∙◌, Option, none,
  some, arith, List, [], ◌∷◌, true, false, ◌==◌, Bool-cases, inl, inr, get_elem?, set, length, map,
  get_elem?-lt, lt_of_get_elem?, get_elem?-set_self, Option-cases,
}
use native.Mathlib.Nat.{
  add-mul-mod_self_right, mul-add-div_right, mod-eq_of_lt, mul-le-mul_right, div-eq_of_lt,
}
use panix.Prelude.Run.{Run, Returns}
use panix.Bitmaps.{
  Group, Mount, alloc_inode, alloc_inode_from, take_inode, with_inode, with_groups, delete_inode,
}
use panix.Bitmaps.Words.{IsBitmap, Marks, clear_bit-Marks}
use panix.Bitmaps.Scan.{IsOpen, Scanned, full, marked, scan-Scanned}

-- A bitmap that is read has a bit for each inode of its group, in a block of its own; and the first group
-- does not have bit 0 alone left in its first word.
pub record IsGroup (m : Mount) (i : ℕ) (words : List ℕ) : Type 0 where
  pub bounded : IsBitmap words
  pub whole_block : length words ≡ m.block_size / 8
  pub every_inode : 64 * length words ≡ m.inodes_per_group
  pub usable : (w : ℕ) → get_elem? words 0 ≡ some w → IsOpen (i == 0) 0 w

pub record IsMount (m : Mount) : Type 0 where
  pub bitmaps :
      (i : ℕ) (g : Group) (words : List ℕ)
      → get_elem? m.groups i ≡ some g
      → g.inode_bitmap ≡ some words
      → IsGroup m i words
  pub inodes : length m.groups * m.inodes_per_group < 2 ^ 32
  pub some_blocks : m.blocks_per_group ≢ 0
  pub described : m.blocks_count / m.blocks_per_group ≤ length m.groups

-- What AllocVNode leaves: the same mount where it finds no inode, else one with one more bit in the bitmap
-- of the inode's group, which was 0.
pub data Allocated (m : Mount) : Option ℕ × Mount → Type 0 where
  exhausted : Allocated m (none, m)
  allocated :
      (i n : ℕ) (g : Group) (words after : List ℕ)
      → get_elem? m.groups i ≡ some g
      → g.inode_bitmap ≡ some words
      → Marks words n after
      → n < m.inodes_per_group
      → Allocated m (
        some ((i * m.inodes_per_group + suc n) % 2 ^ 32),
        with_groups m
            (set m.groups i (with_inode after g))
            ((m.free_inodes_count + 2 ^ 32 - 1) % 2 ^ 32),
      )

-- The group `i`, once its bitmap is searched.
taken_inode :
    (m : Mount) (i : ℕ) (g : Group) (words : List ℕ) (rest : Run (Option ℕ × Mount))
    → get_elem? m.groups i ≡ some g
    → g.inode_bitmap ≡ some words
    → IsGroup m i words
    → Returns rest (Allocated m)
    → (r : Option (ℕ × List ℕ)) → Scanned words 0 r
    → Returns (take_inode m i g rest r) (Allocated m)
taken_inode m i g words rest at read group later none (full e) = later
taken_inode m i g words rest at read group later (some _) (marked n after marks) = (
  _,
  refl,
  allocated i n g words after at read marks
      (omega (arith, lt_of_get_elem? words (n / 64) marks.there, group.every_inode)),
)

alloc_inode_from-Allocated :
    (rounds i : ℕ) (m : Mount)
    → IsMount m
    → rounds + i ≤ length m.groups
    → Returns (alloc_inode_from rounds i m) (Allocated m)
unfolding alloc_inode_from
alloc_inode_from-Allocated zero i m valid le = ((none, m), refl, exhausted)
alloc_inode_from-Allocated (suc rounds) i m valid le =
    let (g, at) = get_elem?-lt m.groups i (omega arith) in
    let later = alloc_inode_from-Allocated rounds (i + 1) m valid (omega arith) in
    elim (Bool-cases (g.free_inodes == 0)) [
      | inl used_up ↦ rw (at, used_up) later
      | inr some_left ↦ elim (Option-cases g.inode_bitmap) [
        | inl unread ↦ rw (at, some_left, unread) later
        | inr (words, read) ↦
            let group = valid.bitmaps i g words at read in
            let (r, run, found) =
              scan-Scanned (m.block_size / 8) 0 (i == 0) words group.bounded group.usable
                (omega (arith, group.whole_block)) in
            rw (at, some_left, read, run) (taken_inode m i g words _ at read group later r found)
      ]
    ]

-- AllocVNode ends without a fault: it returns a null pointer and changes nothing, or the number of an inode
-- whose bit was 0 and now is 1, all other bits of the bitmaps being the same.
pub alloc_inode-Allocated : (m : Mount) → IsMount m → Returns (alloc_inode m) (Allocated m)
unfolding alloc_inode
alloc_inode-Allocated m valid =
    let some_blocks : (m.blocks_per_group == 0) ≡ false = ground (arith, valid.some_blocks) in
    rw some_blocks (
      alloc_inode_from-Allocated (m.blocks_count / m.blocks_per_group) 0 m valid
        (omega (arith, valid.described)))

-- The inode bitmaps of all groups.
abbrev pub inode_bitmaps : Mount → List (Option (List ℕ))
inode_bitmaps m = map (λ (g : Group). g.inode_bitmap) m.groups

-- Deleting the inode that was found restores the bitmaps.
abbrev pub Undone : Mount → Option ℕ × Mount → Type 0
Undone m (none, next) = next ≡ m
Undone m (some ino, next) =
    Returns (delete_inode ino next) λ d. (d.0 ≡ true) × (inode_bitmaps (d.1) ≡ inode_bitmaps m)

map-set_twice :
    (gs : List Group) (i : ℕ) (g a b : Group)
    → get_elem? gs i ≡ some g
    → b.inode_bitmap ≡ g.inode_bitmap
    → map (λ (g : Group). g.inode_bitmap) (set (set gs i a) i b)
      ≡ map (λ (g : Group). g.inode_bitmap) gs
map-set_twice [] i g a b at e = refl
map-set_twice (x ∷ gs) zero g a b at e =
    let xg : x ≡ g = cc in
    let same : b.inode_bitmap ≡ x.inode_bitmap = e ∙ ap (λ (r : Group). r.inode_bitmap) (sym xg) in
    ap (λ t. t ∷ map (λ (g : Group). g.inode_bitmap) gs) same
map-set_twice (x ∷ gs) (suc i) g a b at e =
    ap (λ t. x.inode_bitmap ∷ t) (map-set_twice gs i g a b at e)

-- The group and the bit of an inode number.
module _ (i n p groups : ℕ) (small : n < p) (within : i < groups)
    (total : groups * p < 2 ^ 32) where
  number_fits : i * p + p ≤ groups * p
  number_fits =
      let grow : suc i * p ≤ groups * p = mul-le-mul_right p within in
      let split : suc i * p ≡ i * p + p = omega arith in rw split at grow

  index_of : ((i * p + suc n) % 2 ^ 32 + 2 ^ 32 - 1) % 2 ^ 32 ≡ i * p + n
  index_of = omega (arith, number_fits)

  group_of : ((i * p + suc n) % 2 ^ 32 + 2 ^ 32 - 1) % 2 ^ 32 / p ≡ i
  group_of =
      let none_more : n / p ≡ 0 = div-eq_of_lt small in
      rw index_of (mul-add-div_right (omega arith) i n ∙ rw none_more (omega arith))

  bit_of : ((i * p + suc n) % 2 ^ 32 + 2 ^ 32 - 1) % 2 ^ 32 % p ≡ n
  bit_of =
      let turned : i * p + n ≡ n + i * p = omega arith in
      rw (index_of, turned) (add-mul-mod_self_right n i p ∙ mod-eq_of_lt small)

undo-Allocated : (m : Mount) → IsMount m → (r : Option ℕ × Mount) → Allocated m r → Undone m r
unfolding delete_inode
undo-Allocated m valid _ exhausted = refl
undo-Allocated m valid _ (allocated i n g words after at read marks small) =
    let lt = lt_of_get_elem? m.groups i at in
    let some_inodes : (m.inodes_per_group == 0) ≡ false = ground arith in
    let here = get_elem?-set_self m.groups i (with_inode after g) lt in
    let back = clear_bit-Marks words after n (valid.bitmaps i g words at read).bounded marks in
    rw
      (
        some_inodes,
        group_of i n m.inodes_per_group (length m.groups) small lt valid.inodes,
        bit_of i n m.inodes_per_group (length m.groups) small lt valid.inodes,
        here,
        back,
      )
      (_, refl, (refl, map-set_twice m.groups i g _ _ at (sym read)))

-- AllocVNode ends without a fault. If it returns an inode, DeleteINode of this inode's number returns true,
-- and every inode bitmap is as it was before; else the mount is.
pub alloc_inode-delete_inode : (m : Mount) → IsMount m → Returns (alloc_inode m) (Undone m)
alloc_inode-delete_inode m valid =
    let (r, run, made) = alloc_inode-Allocated m valid in (r, run, undo-Allocated m valid r made)

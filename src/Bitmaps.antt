-- ===== src/Bitmaps.antt =====
-- The allocation bitmaps of sys/fs/ext2_mount.cpp: AllocVNode, AllocBlock, DeleteINode and FreeBlock. A
-- group's bitmap is the list of words in the buffer that the bitmap cache shares, or none where
-- ReadINodeBitmap or ReadBlockBitmap fails. Writing back to the disk is not modelled, and of the vnode that
-- AllocVNode makes, its number.
pub mod Words
pub mod Scan
pub mod Inodes
use panix.Prelude.{
  ℕ, zero, suc, ◌+◌, ◌-◌, ◌*◌, ◌/◌, ◌%◌, ◌^◌, Bool, true, false, ◌&&◌, Option, none, some, List, [],
  ◌∷◌, ◌==◌, if◌then◌else◌, get_elem?, set,
}
use Prim.Native.Nat.{bit_and, bit_or}
use panix.Prelude.Run.{Run, ok, fault, ◌>>=◌, expect, out_of_bounds, division_by_zero, bad_shift}

pub record Group : Type 0 where
  pub free_inodes : ℕ
  pub free_blocks : ℕ
  pub inode_bitmap : Option (List ℕ)
  pub block_bitmap : Option (List ℕ)

pub record Mount : Type 0 where
  pub groups : List Group
  pub blocks_count : ℕ
  pub blocks_per_group : ℕ
  pub inodes_per_group : ℕ
  pub free_inodes_count : ℕ
  pub block_size : ℕ

-- `__builtin_ffsll`: one more than the index of the lowest bit that is 1, and 0 where there is none.
unfoldable pub ffs_from : ℕ → ℕ → ℕ → ℕ
ffs_from zero i x = 0
ffs_from (suc bits) i x =
    let rest = ffs_from bits (i + 1) (x / 2) in if x % 2 == 1 then i + 1 else rest

unfoldable pub ffs : ℕ → ℕ
ffs x = ffs_from 64 0 x

-- Bit 0 of the first word stands for inode 1, and for block 1.
abbrev pub taken : Bool → ℕ → ℕ → ℕ
taken first j w = if first && (j == 0) then bit_or w 1 else w

-- `bmap[j] |= (1ULL << (unset - 1))`; the result is `(j * 64) + unset`.
abbrev pub mark_bit : List ℕ → ℕ → ℕ → ℕ → Run (Option (ℕ × List ℕ))
mark_bit words j w zero = fault bad_shift
mark_bit words j w (suc unset) = ok (some (j * 64 + suc unset, set words j (bit_or w (2 ^ unset))))

-- `for(uint32_t j = 0; j < block_size_ / 8; ++j)`, with the rounds that are left
unfoldable pub scan : ℕ → ℕ → Bool → List ℕ → Run (Option (ℕ × List ℕ))
scan zero j first words = ok none
scan (suc rounds) j first words =
    let rest = scan rounds (j + 1) first words in
    expect out_of_bounds (get_elem? words j) >>= λ w.
    if w == 2 ^ 64 - 1 then rest else mark_bit words j w (ffs (2 ^ 64 - 1 - taken first j w))

-- A group whose bitmap has one more bit.
abbrev pub with_inode : List ℕ → Group → Group
with_inode words g = record {
  free_inodes = (g.free_inodes + 2 ^ 16 - 1) % 2 ^ 16;
  free_blocks = g.free_blocks;
  inode_bitmap = some words;
  block_bitmap = g.block_bitmap;
}

abbrev pub with_block : List ℕ → Group → Group
with_block words g = record {
  free_inodes = g.free_inodes;
  free_blocks = (g.free_blocks + 2 ^ 16 - 1) % 2 ^ 16;
  inode_bitmap = g.inode_bitmap;
  block_bitmap = some words;
}

abbrev pub with_groups : Mount → List Group → ℕ → Mount
with_groups m groups free_inodes_count = record {
  groups = groups;
  blocks_count = m.blocks_count;
  blocks_per_group = m.blocks_per_group;
  inodes_per_group = m.inodes_per_group;
  free_inodes_count = free_inodes_count;
  block_size = m.block_size;
}

-- What the loop of AllocVNode does with the scan of group `i`; `rest` are the later groups.
abbrev pub take_inode :
    Mount → ℕ → Group → Run (Option ℕ × Mount) → Option (ℕ × List ℕ) → Run (Option ℕ × Mount)
take_inode m i g rest none = rest
take_inode m i g rest (some (found, words)) = ok (
  some ((i * m.inodes_per_group + found) % 2 ^ 32),
  with_groups m (set m.groups i (with_inode words g)) ((m.free_inodes_count + 2 ^ 32 - 1) % 2 ^ 32),
)

abbrev pub scan_bitmap : ℕ → ℕ → Option (List ℕ) → Run (Option (ℕ × List ℕ))
scan_bitmap rounds i none = ok none
scan_bitmap rounds i (some words) = scan rounds 0 (i == 0) words

unfoldable pub alloc_inode_from : ℕ → ℕ → Mount → Run (Option ℕ × Mount)
alloc_inode_from zero i m = ok (none, m)
alloc_inode_from (suc rounds) i m =
    let rest = alloc_inode_from rounds (i + 1) m in
    expect out_of_bounds (get_elem? m.groups i) >>= λ g.
    if g.free_inodes == 0
    then rest
    else (scan_bitmap (m.block_size / 8) i g.inode_bitmap >>= take_inode m i g rest)

abbrev pub no_bgroups : Mount → Run ℕ
no_bgroups m =
    if m.blocks_per_group == 0
    then fault division_by_zero
    else ok (m.blocks_count / m.blocks_per_group)

-- The number that `AllocVNode` finds, or none for its null pointer.
unfoldable pub alloc_inode : Mount → Run (Option ℕ × Mount)
alloc_inode m = no_bgroups m >>= λ n. alloc_inode_from n 0 m

abbrev pub take_block :
    Mount → ℕ → Group → Run (Option ℕ × Mount) → Option (ℕ × List ℕ) → Run (Option ℕ × Mount)
take_block m i g rest none = rest
take_block m i g rest (some (found, words)) = ok (
  some ((i * m.blocks_per_group + found + 1) % 2 ^ 32),
  with_groups m (set m.groups i (with_block words g)) m.free_inodes_count,
)

unfoldable pub alloc_block_from : ℕ → ℕ → Mount → Run (Option ℕ × Mount)
alloc_block_from zero i m = ok (none, m)
alloc_block_from (suc rounds) i m =
    let rest = alloc_block_from rounds (i + 1) m in
    expect out_of_bounds (get_elem? m.groups i) >>= λ g.
    if g.free_blocks == 0
    then rest
    else (scan_bitmap (m.block_size / 8) i g.block_bitmap >>= take_block m i g rest)

-- `AllocBlock`
unfoldable pub alloc_block : Mount → Run (Option ℕ × Mount)
alloc_block m = no_bgroups m >>= λ n. alloc_block_from n 0 m

-- `bmap[local_ind / 64] &= ~(1ULL << (local_ind % 64))`
unfoldable pub clear_bit : List ℕ → ℕ → Run (List ℕ)
clear_bit words local_ind = expect out_of_bounds (get_elem? words (local_ind / 64)) >>= λ w.
    ok (set words (local_ind / 64) (bit_and w (2 ^ 64 - 1 - 2 ^ (local_ind % 64))))

abbrev pub clear_in : Option (List ℕ) → ℕ → Run (Option (List ℕ))
clear_in none local_ind = ok none
clear_in (some words) local_ind = clear_bit words local_ind >>= λ cleared. ok (some cleared)

abbrev pub is_read : Option (List ℕ) → Bool
is_read none = false
is_read (some words) = true

-- `DeleteINode`
unfoldable pub delete_inode : ℕ → Mount → Run (Bool × Mount)
delete_inode ino m =
    let ind = (ino + 2 ^ 32 - 1) % 2 ^ 32 in
    if m.inodes_per_group == 0
    then fault division_by_zero
    else (expect out_of_bounds (get_elem? m.groups (ind / m.inodes_per_group)) >>= λ g.
        clear_in g.inode_bitmap (ind % m.inodes_per_group) >>= λ bitmap. ok (
          is_read bitmap,
          with_groups m
              (set m.groups (ind / m.inodes_per_group) (record {
                free_inodes = g.free_inodes;
                free_blocks = g.free_blocks;
                inode_bitmap = bitmap;
                block_bitmap = g.block_bitmap;
              }))
              m.free_inodes_count,
        ))

-- `FreeBlock`
unfoldable pub free_block : ℕ → Mount → Run (Bool × Mount)
free_block block_no m =
    let ind = (block_no + 2 ^ 32 - 1) % 2 ^ 32 in
    if m.blocks_per_group == 0
    then fault division_by_zero
    else (expect out_of_bounds (get_elem? m.groups (ind / m.blocks_per_group)) >>= λ g.
        clear_in g.block_bitmap (ind % m.blocks_per_group) >>= λ bitmap. ok (
          is_read bitmap,
          with_groups m
              (set m.groups (ind / m.blocks_per_group) (record {
                free_inodes = g.free_inodes;
                free_blocks = g.free_blocks;
                inode_bitmap = g.inode_bitmap;
                block_bitmap = bitmap;
              }))
              m.free_inodes_count,
        ))

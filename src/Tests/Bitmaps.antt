-- ===== src/Tests/Bitmaps.antt =====
-- Runs of the bitmaps of sys/fs/ext2_mount.cpp, and the theorems at one group of 64 inodes.
use panix.Prelude.{ℕ, zero, suc, ◌≡◌, refl, Option, some, List, [], ◌∷◌, arith, get_elem?, map}
use panix.Prelude.Run.{Run, ok, Returns, ◌>>=◌}
use panix.Bitmaps.{
  Group, Mount, alloc_inode, alloc_inode_from, alloc_block, alloc_block_from, free_block, scan, ffs,
  ffs_from, clear_bit,
}
use panix.Bitmaps.Inodes.{
  IsGroup, IsMount, Allocated, Undone, alloc_inode-Allocated, alloc_inode-delete_inode,
}

abbrev one_used : List ℕ
one_used = 1 ∷ []

abbrev group : Group
group = record {
  free_inodes = 63;
  free_blocks = 63;
  inode_bitmap = some one_used;
  block_bitmap = some one_used;
}

abbrev mount : Mount
mount = record {
  groups = group ∷ [];
  blocks_count = 64;
  blocks_per_group = 64;
  inodes_per_group = 64;
  free_inodes_count = 63;
  block_size = 8;
}

-- The words of the bitmap of one word.
one_word : (j w : ℕ) → get_elem? one_used j ≡ some w → w ≡ 1
one_word zero w h = ground arith
one_word (suc j) w h = cc

one_group : (i : ℕ) (g : Group) → get_elem? mount.groups i ≡ some g → g ≡ group
one_group zero g h = cc
one_group (suc i) g h = cc

mount-IsGroup : (i : ℕ) (words : List ℕ) → some one_used ≡ some words → IsGroup mount i words
mount-IsGroup i words h =
    let e : words ≡ one_used = cc in
    rw e (record {
      bounded = λ j w at. omega (arith, one_word j w at);
      whole_block = refl;
      every_inode = refl;
      usable = λ w at first z full. absurd (omega (arith, one_word 0 w at));
    })

mount-IsMount : IsMount mount
mount-IsMount = record {
  bitmaps = λ i g words at read. let e = one_group i g at in mount-IsGroup i words (rw e at read);
  inodes = omega arith;
  some_blocks = λ e. absurd (omega arith);
  described = omega arith;
}

alloc_inode-Allocated_example : Returns (alloc_inode mount) (Allocated mount)
alloc_inode-Allocated_example = alloc_inode-Allocated mount mount-IsMount

alloc_inode-delete_inode_example : Returns (alloc_inode mount) (Undone mount)
alloc_inode-delete_inode_example = alloc_inode-delete_inode mount mount-IsMount

-- Inode 2 is the first that is free.
second_inode : (alloc_inode mount >>= λ r. ok (r.0)) ≡ ok (some 2)
unfolding alloc_inode alloc_inode_from scan ffs ffs_from
second_inode = refl

-- The number that AllocBlock returns, and the block bitmaps once FreeBlock is called with it.
abbrev leak : Run (Option ℕ × List (Option (List ℕ)))
leak = alloc_block mount >>= λ r.
    free_block 3 (r.1) >>= λ d. ok (r.0, map (λ (g : Group). g.block_bitmap) (d.1).groups)

-- The block with bit 1 is called 3, and freeing block 3 clears bit 2.
block_leaked : leak ≡ ok (some 3, some (3 ∷ []) ∷ [])
unfolding alloc_block alloc_block_from scan ffs ffs_from free_block clear_bit
block_leaked = refl

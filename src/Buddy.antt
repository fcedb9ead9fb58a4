-- ===== src/Buddy.antt =====
-- sys/buddy_allocator.cpp: page frames in blocks of powers of two. `entries` holds the `FreeListEntry` at
-- each address, and 0 is the null pointer; `free_lists` is indexed from order 12.
pub mod State
pub mod Lists
pub mod Blocks
pub mod Powers
pub mod Address
pub mod FreeLists
pub mod Unlink
pub mod Remove

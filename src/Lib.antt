-- ===== src/Lib.antt =====
-- Panix, a small x86-64 kernel in C++: a model of its data structures, string routines and memory
-- management, and what holds of them.
--
-- The program. sys/entry.cpp starts the machine from the tags of the stivale2 boot protocol: it sets up the
-- buddy allocator of page frames (sys/buddy_allocator.cpp), the kernel's page map (sys/page_map.cpp), the
-- heap (sys/kheap.cpp), the interrupts and the PCIe tree, and then mounts an ext2 file system (sys/fs) over a
-- SATA port (sys/sata_port.cpp). The page map takes its tables from the buddy allocator; the heap takes its
-- chunks from it; the file system keeps its state in the containers of ds, which take their memory from the
-- heap and clear and copy it with libc/string.cpp.
--
-- The files.
-- - Prelude: Boolean tests, lists with native indices, bits of numbers, and `Run`, the outcome of code that may
--   fault or run out of fuel.
-- - HashMap: `ds::HashMap` and `MurmurHasher` of ds/hash_map.h. Insert, Lookup, Contains, Delete, Len, Find,
--   Rehash, operator[] and the copy constructor are `insert`, `lookup`, `contains`, `delete`, `len`, `find`,
--   `rehash`, `subscript` and `copy`. The keys' `operator==` and the hasher are the interface `Key`.
-- - DynArray: `ds::DynArray` of ds/dyn_array.h. Append, Lookup, operator[], Back, Size, operator= and the
--   constructors are `append`, `lookup`, `subscript`, `back`, `size`, `assign`, `empty_array`, `sized_array` and
--   `copy_array`.
-- - Libc: libc/string.cpp, with its names, over a memory of bytes.
-- - Buddy: sys/buddy_allocator.cpp. Allocate and Free are `allocate` and `free`; CeilLog2, RoundUp, EntryRange,
--   EntryToAddr, AddrToEntry, BuddyOf, Split, Merge, Mergeable, PushFront, PopFront and Remove have their names
--   in lower case, where the overload of EntryRange for entries is `mdata_range`. The static variables are the
--   record `Allocator`. Buddy/State has the state and the addresses, Buddy/Lists the free lists, Buddy/Blocks what
--   is done with blocks.
-- - KHeap: sys/kheap.cpp. Init, Allocate, Reallocate, Free, ToPAddr, ToVAddr and SetSizeLimit are `init`, `allocate`,
--   `reallocate`, `free`, `to_paddr`, `to_vaddr` and `set_size_limit`; BinIndex, PopFront, PushFront, Remove, FindEntry,
--   Split, SplitAndPush, MergeWithNeighbors, GrowHeap and Verify have their names in lower case. The static variables
--   are the record `Heap`; what is called of the buddy allocator and of the page map is the interface `Backing`.
-- - RbTree: ds/rb_tree.h. Insert, Read, Update and Delete are `insert`, `read`, `update_key` and `delete`; Min and Max are
--   `outermost`; the others have their names in lower case, and the cases of the two loops names of their own.
-- - RefCntPtr: ds/ref_cnt_ptr.h. A `World` has the variables and the counters; the constructors, the assignments and the
--   destructor are `construct`, `copy_construct`, `move_construct`, `assign`, `move_assign` and `destroy`.
-- - LruCache: `ds::LRUCache` of ds/cache.h over HashMap. Insert, Lookup, Evict and Flush are `insert`, `lookup`, `evict` and
--   `flush`; `evict_one` is a round of the loop of Evict, `touch` what Lookup does to the entry it finds.
-- - Optional: `ds::Optional` of ds/optional.h. The operators = are `assign_value`, `assign_null` and `assign_optional`, and the
--   destructor is `destroy_held`; what is called of the value's type is the interface `Object`.
-- - Strings: `ds::BaseString` of ds/string.h over the memory of Libc. The constructors are `of_length`, `of_text`, `of_chars`
--   and `copy`; operator=, Substr, operator== and operator!= are `assign`, `substr`, `equal` and `differs`; the operators []
--   are `slot`, for the address, and `get`.
-- - Vfs: DecomposePath of sys/fs/vfs.cpp is `decompose_path`, its loop `last_slash`. Vfs/Handle has FileHandle: the constructor, Seek, Read, Write
--   and SuspendIO are `open_handle`, `seek`, `read`, `write` and `suspend_io`; the node is the interface `VNode`.
-- - Bitmaps: the allocation bitmaps of sys/fs/ext2_mount.cpp. AllocVNode, AllocBlock, DeleteINode and FreeBlock
--   are `alloc_inode`, `alloc_block`, `delete_inode` and `free_block`.
-- - PageMap: sys/page_map.cpp over a memory of 64-bit words, with the frames that Allocate hands out as a list.
--   Map, MapRange, Remap, RemapRange, Unmap, UnmapRange and VAddrToPAddr are `map_page`, `map_range`, `remap`,
--   `remap_range`, `unmap`, `unmap_range` and `vaddr_to_paddr`; the loops of GetPage and CreatePage are `walk`
--   and `create_walk`.
-- - Tests: runs, and the theorems at concrete inputs.
--
-- Conventions. Numbers are unbounded; where the code's arithmetic may leave its type, the wrap-around is
-- written out. A constructor of the code that allocates is taken to get the memory, except in Buddy and PageMap,
-- where a failure is a value. Pointers are addresses, and 0 is the null pointer. The slots of
-- the hash map, which its loops count in 32 bits, are taken to be fewer than 2 ^ 32.
--
-- Fuel. The probes of the hash map have `capacity + 1` rounds, one for each slot and one to stop, since the load
-- factor leaves an empty slot. The text loops, MapRange and its kin, and the merging in Free take their rounds as
-- an argument: a text needs one more than its bytes, a range one more than its pages, and merging one for each
-- order.
--
-- The search of a free list and Verify take as many rounds as there are entries or chunks and one more, the walks
-- of a red-black tree as many as it has levels.
--
-- Not modelled: the file system but for its bitmaps, FileHandle and DecomposePath, the disk driver, the interrupt controllers, ACPI, PCIe and the
-- entry code; ds/owning_ptr.h; in the modelled files the members
-- that only log or that are instructions of the processor (`invlpg`, CR3), the destructors of the containers and of the strings, the deep copy and
-- release of a page map, its constructor from the boot tags, and Realloc and the set-up of the buddy allocator.
pub mod Bitmaps
pub mod Buddy
pub mod DynArray
pub mod HashMap
pub mod KHeap
pub mod Libc
pub mod LruCache
pub mod Optional
pub mod PageMap
pub mod Prelude
pub mod RbTree
pub mod RefCntPtr
pub mod Strings
pub mod Tests
pub mod Vfs

-- ===== src/KHeap.antt =====
-- The kernel heap of sys/kheap.cpp.
pub mod State
pub mod FreeLists
pub mod Bins
pub mod Chunks
pub mod Verify
pub mod Layout
pub mod Checked
pub mod Methods
pub mod Shave
pub mod Release
pub mod RoundTrip
pub mod Search
pub mod Address
pub mod Realloc

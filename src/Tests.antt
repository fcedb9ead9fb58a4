-- ===== src/Tests.antt =====
-- Runs of the models, and the theorems at concrete inputs.
mod HashMap
mod Libc
mod PageMap
mod DynArray
mod Buddy
mod Bitmaps
mod KHeap
mod RbTree
mod RefCntPtr
mod Strings
mod Optional
mod Vfs
mod LruCache

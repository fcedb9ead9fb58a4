-- ===== src/RbTree.antt =====
-- The red-black tree of ds/rb_tree.h.
pub mod State
pub mod Shape
pub mod Find
pub mod Methods
pub mod Sides
pub mod Rotated
pub mod Rotate
pub mod Leaf
pub mod Grow
pub mod Keys
pub mod Delete

-- ===== src/Vfs/Handle.antt =====
-- `FileHandle` of sys/fs/vfs.cpp over the node that it has and the memory.
use panix.Prelude.{ℕ, ◌+◌, ◌%◌, ◌^◌, Bool, true, false, ◌&&◌, if◌then◌else◌, Option, none, some}
use panix.Libc.{Memory}
use panix.Strings.{BaseString, of_chars}

-- The node's file, and the memory that its calls read and write.
pub record Machine (Node : Type 0) : Type 0 where
  pub node : Node
  pub memory : Memory

-- What the code calls of `VNode`: `Read` and `Write` take a buffer, an offset and a length.
pub record VNode (Node : Type 0) : Type 0 where
  pub read : ℕ → ℕ → ℕ → Machine Node → Bool × Machine Node
  pub write : ℕ → ℕ → ℕ → Machine Node → Bool × Machine Node
  pub unpin : Machine Node → Machine Node

pub record FileHandle : Type 0 where
  pub path : BaseString
  pub offset : ℕ
  pub readable : Bool
  pub writeable : Bool
  pub valid : Bool

-- `FileHandle(vnode, path, readable, writeable)`
unfoldable pub open_handle : BaseString → Bool → Bool → FileHandle
open_handle path readable writeable = record {
  path = path;
  offset = 0;
  readable = readable;
  writeable = writeable;
  valid = true;
}

unfoldable pub seek : ℕ → FileHandle → FileHandle
seek offset h = record h { offset = offset }

-- `offset_ += len`
unfoldable pub advance : ℕ → FileHandle → FileHandle
advance len h = record h { offset = (h.offset + len) % 2 ^ 64 }

module _ {Node : Type 0} (vnode : VNode Node) where
  -- `buff` and `at` are what the two calls of `Allocate` return.
  unfoldable pub read :
      ℕ → ℕ → ℕ → FileHandle → Machine Node → Option BaseString × FileHandle × Machine Node
  read buff at len h s =
      if h.valid && h.readable
      then (let (good, s1) = vnode.read buff h.offset len s in
          let (text, m) = of_chars at buff len s1.memory in
          if good then (some text, advance len h, record s1 { memory = m }) else (none, h, s1))
      else (none, h, s)

  unfoldable pub write :
      BaseString → ℕ → FileHandle → Machine Node → Bool × FileHandle × Machine Node
  write buff_str len h s =
      if h.valid && h.writeable
      then (let (good, s1) = vnode.write buff_str.chars h.offset len s in
          if good then (true, advance len h, s1) else (false, h, s1))
      else (false, h, s)

  unfoldable pub suspend_io : FileHandle → Machine Node → FileHandle × Machine Node
  suspend_io h s = (record h { valid = false }, vnode.unpin s)

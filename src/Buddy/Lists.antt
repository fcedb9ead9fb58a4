-- ===== src/Buddy/Lists.antt =====
-- `PushFront`, `PopFront` and `Remove` of sys/buddy_allocator.cpp.
use panix.Prelude.{ℕ, Bool, leb, ◌==◌, if◌then◌else◌}
use panix.Prelude.Run.{Run, ok, ◌>>=◌}
use panix.Buddy.State.{FreeListEntry, Allocator, min_order, load, save, list_head, set_head}

abbrev pub with_forward : ℕ → FreeListEntry → FreeListEntry
with_forward p e = record { forward = p; backward = e.backward; order = e.order; free = e.free }

abbrev pub with_backward : ℕ → FreeListEntry → FreeListEntry
with_backward p e = record { forward = e.forward; backward = p; order = e.order; free = e.free }

abbrev pub with_order : ℕ → FreeListEntry → FreeListEntry
with_order n e = record { forward = e.forward; backward = e.backward; order = n; free = e.free }

abbrev pub with_free : Bool → FreeListEntry → FreeListEntry
with_free b e = record { forward = e.forward; backward = e.backward; order = e.order; free = b }

-- `entry->field = ...`
unfoldable pub update : (FreeListEntry → FreeListEntry) → ℕ → Allocator → Run Allocator
update change entry s = load s entry >>= λ e. save s entry (change e)

-- The same where the pointer is not null.
unfoldable pub update_some : (FreeListEntry → FreeListEntry) → ℕ → Allocator → Run Allocator
update_some change entry s =
    let changed = update change entry s in if entry == 0 then ok s else changed

unfoldable pub push_front : ℕ → ℕ → Allocator → Run Allocator
push_front order entry s = update (with_order order) entry s >>= λ s1.
    list_head s1 order >>= λ head. update (with_forward head) entry s1 >>= λ s2.
    update_some (with_backward entry) head s2 >>= λ s3. ok (set_head s3 order entry)

unfoldable pub pop_front : ℕ → Allocator → Run (ℕ × Allocator)
pop_front order s = list_head s order >>= λ head. load s head >>= λ e.
    update_some (with_backward 0) e.forward (set_head s order e.forward) >>= λ s1. ok (head, s1)

-- Where the entry is the head of its list, the list then starts behind it.
unfoldable pub drop_head : ℕ → FreeListEntry → Allocator → Run Allocator
drop_head entry e s =
    let dropped = list_head s e.order >>= λ head.
    if head == entry then ok (set_head s e.order e.forward) else ok s in
    if leb min_order e.order then dropped else ok s

unfoldable pub remove : ℕ → Allocator → Run Allocator
remove entry s = load s entry >>= λ e. update_some (with_backward e.backward) e.forward s >>= λ s1.
    load s1 entry >>= λ e1. update_some (with_forward e1.forward) e1.backward s1 >>= λ s2.
    load s2 entry >>= λ e2. drop_head entry e2 s2 >>= λ s3.
    update (with_forward 0) entry s3 >>= λ s4. update (with_backward 0) entry s4

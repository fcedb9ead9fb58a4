-- ===== src/RefCntPtr.antt =====
-- `ds::RefCntPtr` of ds/ref_cnt_ptr.h: variables that hold such pointers, and the counters they share. A counter
-- that is not allocated is `none`; a read or a write of it is a fault.
use panix.Prelude.{
  ℕ, ◌+◌, ◌-◌, ◌%◌, ◌^◌, Bool, true, false, not, Option, none, some, List, [], ◌∷◌, ◌++◌, ◌==◌,
  if◌then◌else◌, get_elem?, set,
}
use panix.Prelude.Run.{
  Run, ok, fault, ◌>>=◌, expect, null_dereference, use_after_free, out_of_bounds,
}
pub mod Counted
pub mod Reach
pub mod Freed

-- Null pointers are 0.
pub record RefCntPtr : Type 0 where
  pub raw_ptr : ℕ
  pub refs : ℕ

pub record World : Type 0 where
  pub vars : List RefCntPtr
  -- `*refs_`
  pub counters : ℕ → Option ℕ
  -- The objects that were freed, the last one first.
  pub freed : List ℕ

abbrev pub null : RefCntPtr
null = record { raw_ptr = 0; refs = 0 }

unfoldable pub store : (ℕ → Option ℕ) → ℕ → Option ℕ → ℕ → Option ℕ
store counters refs v c = if c == refs then v else counters c

-- `++(*refs_)`
unfoldable pub retain : ℕ → World → Run World
retain refs w =
    if refs == 0
    then fault null_dereference
    else (expect use_after_free (w.counters refs) >>= λ n.
        ok (record w { counters = store w.counters refs (some ((n + 1) % 2 ^ 64)) }))

-- `Free(refs_)`, and `Free(raw_ptr_)` where that is not null.
abbrev pub free_both : RefCntPtr → World → World
free_both p w = record w {
  counters = store w.counters p.refs none;
  freed = if p.raw_ptr == 0 then w.freed else p.raw_ptr ∷ w.freed;
}

-- `--(*refs_)`, and what follows where nothing is left.
abbrev pub drop_one : RefCntPtr → World → ℕ → World
drop_one p w n =
    let left = (n + 2 ^ 64 - 1) % 2 ^ 64 in
    if left == 0 then free_both p w else record w { counters = store w.counters p.refs (some left) }

-- `if(refs_) { ... }`, as the destructor and both assignments have it.
unfoldable pub release : RefCntPtr → World → Run World
release p w =
    if p.refs == 0
    then ok w
    else (expect use_after_free (w.counters p.refs) >>= λ n. ok (drop_one p w n))

abbrev pub variable : ℕ → World → Run RefCntPtr
variable i w = expect out_of_bounds (get_elem? w.vars i)

abbrev pub put : ℕ → RefCntPtr → World → World
put i p w = record w { vars = set w.vars i p }

abbrev pub declare : RefCntPtr → World → World
declare p w = record w { vars = w.vars ++ (p ∷ []) }

-- `RefCntPtr()`
unfoldable pub construct_null : World → World
construct_null w = declare null w

-- `RefCntPtr(T *ptr)`, with the counter that the allocator returns.
unfoldable pub construct : ℕ → ℕ → World → Run World
construct raw refs w =
    if refs == 0
    then fault null_dereference
    else ok (
        declare (record { raw_ptr = raw; refs = refs })
          (record w { counters = store w.counters refs (some 1) }))

-- `RefCntPtr(const RefCntPtr &)`
unfoldable pub copy_construct : ℕ → World → Run World
copy_construct j w = variable j w >>= λ p. retain p.refs (declare p w)

-- `operator=(const RefCntPtr &)`
unfoldable pub assign : ℕ → ℕ → World → Run World
assign i j w =
    let assigned = variable i w >>= λ p.
    variable j w >>= λ q. release p w >>= λ w1. retain q.refs (put i q w1) in
    if i == j then ok w else assigned

-- `RefCntPtr(RefCntPtr &&)`
unfoldable pub move_construct : ℕ → World → Run World
move_construct j w = variable j w >>= λ p. ok (put j null (declare p w))

-- `operator=(RefCntPtr &&)`, which does not ask whether the two are the same.
unfoldable pub move_assign : ℕ → ℕ → World → Run World
move_assign i j w =
    variable i w >>= λ p. variable j w >>= λ q. release p w >>= λ w1. ok (put j null (put i q w1))

-- `~RefCntPtr()`; the variable is null from then on.
unfoldable pub destroy : ℕ → World → Run World
destroy i w = variable i w >>= λ p. release p w >>= λ w1. ok (put i null w1)

-- `operator bool` and `operator==`
unfoldable pub is_set : RefCntPtr → Bool
is_set p = not (p.raw_ptr == 0)

unfoldable pub same_object : RefCntPtr → RefCntPtr → Bool
same_object p q = p.raw_ptr == q.raw_ptr

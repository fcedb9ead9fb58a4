-- ===== src/Optional/Shared.antt =====
-- `ds::Optional` of ds/optional.h over the pointers of ds/ref_cnt_ptr.h, as sys/fs/vfs.cpp uses it.
use panix.Prelude.{◌≡◌, ◌≢◌, refl, true, false, some, eq_true, eq_false}
use panix.Prelude.Run.{ok, fault, ◌>>=◌, Returns, use_after_free}
use panix.RefCntPtr.{RefCntPtr, World, null, store, free_both, retain, release}
use panix.Optional.{
  Object, set_value, destroy_held, assign_optional, assign_value, assign_null, has_value,
}

-- The members of `RefCntPtr` on the bytes that an optional has.
abbrev pub shared : (RefCntPtr → RefCntPtr) → Object World RefCntPtr
shared clear_first = record {
  zeroed = null;
  clear_first = clear_first;
  copy = λ p w. retain p.refs w >>= λ w1. ok (p, w1);
  assign = λ old p w. release old w >>= λ w1. retain p.refs w1 >>= λ w2. ok (p, w2);
  destroy = release;
}

last_release :
    (p : RefCntPtr) (w : World)
    → p.refs ≢ 0
    → w.counters p.refs ≡ some 1
    → release p w ≡ ok (free_both p w)
unfolding release
last_release p w nz one = rw (eq_false (p.refs) 0 nz, one) refl

release-freed :
    (p : RefCntPtr) (w : World) → p.refs ≢ 0 → release p (free_both p w) ≡ fault use_after_free
unfolding release store
release-freed p w nz = rw (eq_false (p.refs) 0 nz, eq_true (p.refs) (p.refs) refl) refl

-- An optional that is full, and whose pointer has the counter alone, is assigned another optional or a pointer, or is
-- emptied: the first two drop its pointer twice and so read the counter that they have freed, if what is assigned is a pointer,
-- and the last keeps the counter as it is.
pub assign_optional_dangles :
    (clear_first : RefCntPtr → RefCntPtr) (p q : RefCntPtr) (w : World)
    → p.refs ≢ 0
    → w.counters p.refs ≡ some 1
    → (assign_optional
          (shared clear_first)
          false
          (record { has_val = true; val = p })
          (record { has_val = true; val = q })
          w
        ≡ fault use_after_free)
      × (assign_value (shared clear_first) q (record { has_val = true; val = p }) w
          ≡ fault use_after_free)
      × Returns
          (assign_null (shared clear_first) (record { has_val = true; val = p }) w)
          λ r. (has_value (r.0) ≡ false) × ((r.1).counters p.refs ≡ some 1)
unfolding assign_optional assign_value assign_null destroy_held set_value has_value
assign_optional_dangles clear_first p q w nz one = (
  rw (last_release p w nz one, release-freed p w nz) refl,
  rw (last_release p w nz one, release-freed p w nz) refl,
  (_, refl, (refl, one)),
)

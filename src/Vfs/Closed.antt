-- ===== src/Vfs/Closed.antt =====
-- The calls of a `FileHandle` of sys/fs/vfs.cpp in any order.
use panix.Prelude.{
  ℕ, suc, ◌≡◌, refl, arith, sym, ap, ◌∙◌, subst, Bool, true, false, if◌then◌else◌, none, some,
}
use panix.Strings.{BaseString}
use panix.Vfs.Handle.{Machine, VNode, FileHandle, seek, read, write, suspend_io}

module _ {Node : Type 0} (vnode : VNode Node) where
  -- A call of a handle, and whether it gives or takes data.
  pub data Step : Bool → FileHandle × Machine Node → FileHandle × Machine Node → Type 0 where
    sought : (offset : ℕ) {h : FileHandle} {s : Machine Node} → Step false (h, s) (seek offset h, s)
    read_some :
        (buff at len : ℕ) (text : BaseString) {h h' : FileHandle} {s s' : Machine Node}
        → read vnode buff at len h s ≡ (some text, h', s')
        → Step true (h, s) (h', s')
    read_none :
        (buff at len : ℕ) {h h' : FileHandle} {s s' : Machine Node}
        → read vnode buff at len h s ≡ (none, h', s')
        → Step false (h, s) (h', s')
    written :
        (buff_str : BaseString) (len : ℕ) (good : Bool) {h h' : FileHandle} {s s' : Machine Node}
        → write vnode buff_str len h s ≡ (good, h', s')
        → Step good (h, s) (h', s')
    suspended : {h : FileHandle} {s : Machine Node} → Step false (h, s) (suspend_io vnode h s)

  -- Calls in a row, with the number of those that give or take data.
  pub data Calls : ℕ → FileHandle × Machine Node → FileHandle × Machine Node → Type 0 where
    done : {p : FileHandle × Machine Node} → Calls 0 p p
    call :
        (moved : Bool) {n : ℕ} {p q r : FileHandle × Machine Node}
        → Step moved p q
        → Calls n q r
        → Calls (if moved then suc n else n) p r

  read-closed :
      (buff at len : ℕ) (h : FileHandle) (s : Machine Node)
      → h.valid ≡ false
      → read vnode buff at len h s ≡ (none, h, s)
  unfolding read
  read-closed buff at len h s closed = rw closed refl

  write-closed :
      (buff_str : BaseString) (len : ℕ) (h : FileHandle) (s : Machine Node)
      → h.valid ≡ false
      → write vnode buff_str len h s ≡ (false, h, s)
  unfolding write
  write-closed buff_str len h s closed = rw closed refl

  module _ (Kept : Machine Node → Type 0)
      (unpin_kept : (s : Machine Node) → Kept s → Kept (vnode.unpin s)) where
    Step-closed :
        (moved : Bool) (p q : FileHandle × Machine Node)
        → Step moved p q
        → (p.0).valid ≡ false
        → Kept (p.1)
        → (moved ≡ false) × ((q.0).valid ≡ false) × Kept (q.1)
    unfolding seek suspend_io
    Step-closed moved p q (sought offset) closed kept = (refl, closed, kept)
    Step-closed moved p q (suspended {h} {s}) closed kept = (refl, refl, unpin_kept s kept)
    Step-closed moved p q (read_some buff at len text {h} {h'} {s} {s'} e) closed kept =
        let same = sym (read-closed buff at len h s closed) ∙ e in
        let clash : none ≡ some text = ap (λ r. r.0) same in absurd (ground arith)
    Step-closed moved p q (read_none buff at len {h} {h'} {s} {s'} e) closed kept =
        let same = sym (read-closed buff at len h s closed) ∙ e in
        (
          refl,
          subst (λ (g : FileHandle). g.valid ≡ false) (ap (λ r. r.1) same) closed,
          subst Kept (ap (λ r. r.2) same) kept,
        )
    Step-closed moved p q (written buff_str len good {h} {h'} {s} {s'} e) closed kept =
        let same = sym (write-closed buff_str len h s closed) ∙ e in
        (
          sym (ap (λ r. r.0) same),
          subst (λ (g : FileHandle). g.valid ≡ false) (ap (λ r. r.1) same) closed,
          subst Kept (ap (λ r. r.2) same) kept,
        )

    -- On a handle whose input and output is suspended no calls, in any order, give or take data: the handle stays suspended,
    -- and what `Unpin` keeps of the node and the memory is kept.
    pub Calls-closed :
        {n : ℕ} {p r : FileHandle × Machine Node}
        → Calls n p r
        → (p.0).valid ≡ false
        → Kept (p.1)
        → (n ≡ 0) × ((r.0).valid ≡ false) × Kept (r.1)
    Calls-closed done closed kept = (refl, closed, kept)
    Calls-closed (call moved {n} {p} {q} {r} step calls) closed kept =
        let (still, closed', kept') = Step-closed moved p q step closed kept in
        let (few, closed_end, kept_end) = Calls-closed calls closed' kept' in
        (rw still few, closed_end, kept_end)

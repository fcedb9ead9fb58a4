-- ===== src/DynArray/Append.antt =====
-- `ds::DynArray::Append`, the copy constructor and `operator=`.
use panix.Prelude.{
  subst, ℕ, zero, suc, ◌+◌, ◌-◌, ◌%◌, ◌^◌, ◌<◌, ◌≤◌, ◌≡◌, ◌≢◌, refl, ap, sym, ◌∙◌, some, List, [],
  ◌∷◌, ◌++◌, length, get_elem?, arith, length-append, length-replicate, length-set, replicate, set,
  take, true, false, ltb, ◌==◌, Bool-cases, inl, inr, ==_iff, get_elem?-lt,
}
use panix.Prelude.Run.{ok, fault, Returns, ◌>>=◌, use_after_free}
use panix.DynArray.{
  DynArray, Block, null, live, freed, write_at, reserve, append, next_capacity, copy_elements,
  copy_array, allocated_for, assign, enlarge, release,
}
use panix.DynArray.Holds.{Holds, Contents, nothing, allocated, read-Contents}

next_index : (i : ℕ) → suc i ≡ i + 1
next_index i = omega arith

room_ne : (a b : ℕ) → (a == b) ≡ false → a ≢ b
room_ne a b h = ground arith

module _ {ℓ} {T : Type ℓ} where
  set_behind : (xs ys : List T) (x y : T) → set (xs ++ (y ∷ ys)) (length xs) x ≡ xs ++ (x ∷ ys)
  set_behind [] ys x y = refl
  set_behind (z ∷ xs) ys x y = ap (λ t. z ∷ t) (set_behind xs ys x y)

  take_all : (xs : List T) → take (length xs) xs ≡ xs
  take_all [] = refl
  take_all (x ∷ xs) = ap (λ t. x ∷ t) (take_all xs)

  append_assoc : (xs ys zs : List T) → (xs ++ ys) ++ zs ≡ xs ++ (ys ++ zs)
  append_assoc [] ys zs = refl
  append_assoc (x ∷ xs) ys zs = ap (λ t. x ∷ t) (append_assoc xs ys zs)

  append_nil : (xs : List T) → xs ++ [] ≡ xs
  append_nil [] = refl
  append_nil (x ∷ xs) = ap (λ t. x ∷ t) (append_nil xs)

  nil_of_length : (xs : List T) → length xs ≡ 0 → xs ≡ []
  nil_of_length [] h = refl
  nil_of_length (x ∷ xs) h = absurd (omega arith)

  -- Storing behind the elements, where there is room.
  write_at-Contents :
      {b : Block T} {capacity : ℕ} {els : List T} (x : T)
      → Contents b capacity els
      → length els < capacity
      → Returns (write_at b (length els) x) λ b'. Contents b' capacity (els ++ (x ∷ []))
  unfolding write_at
  write_at-Contents x nothing lt = absurd (omega arith)
  write_at-Contents x (allocated ys els [] capacity e len) lt =
      absurd (omega (arith, len, ap length e, length-append els []))
  write_at-Contents x (allocated ys els (y ∷ spare) capacity e len) lt =
      let fits : ltb (length els) (length ys) ≡ true = ground arith in
      let stored : set ys (length els) x ≡ els ++ (x ∷ spare) =
        ap (λ t. set t (length els) x) e ∙ set_behind els spare x y in
      rw fits (
        live (set ys (length els) x),
        refl,
        allocated (set ys (length els) x) (els ++ (x ∷ [])) spare capacity
            (stored ∙ sym (append_assoc els (x ∷ []) spare)) (length-set ys (length els) x ∙ len),
      )

  -- `capacity_ == slots_used_` is the size of the allocation, so all of it is kept.
  enlarge-Contents :
      (zeroed : T) {b : Block T} {capacity bigger : ℕ} {els : List T}
      → Contents b capacity els
      → length els ≡ capacity
      → capacity < bigger
      → Returns (enlarge zeroed (length els) bigger b) λ b'. Contents b' bigger els
  enlarge-Contents zeroed {bigger} nothing full lt = (
    live (replicate bigger zeroed),
    refl,
    allocated (replicate bigger zeroed) [] (replicate bigger zeroed) bigger refl
        (length-replicate bigger zeroed),
  )
  enlarge-Contents zeroed {bigger} (allocated ys els spare capacity e len) full lt =
      let none_spare =
        nil_of_length spare (omega (arith, len, full, ap length e, length-append els spare)) in
      let same : ys ≡ els = e ∙ ap (λ t. els ++ t) none_spare ∙ append_nil els in
      let kept : take (length els) ys ≡ els = ap (take (length els)) same ∙ take_all els in
      let tail = replicate (bigger - length els) zeroed in
      (
        live (take (length els) ys ++ tail),
        refl,
        allocated (take (length els) ys ++ tail) els tail bigger (ap (λ t. t ++ tail) kept) (
            ap (λ t. length (t ++ tail)) kept
            ∙ length-append els tail
            ∙ omega (arith, length-replicate (bigger - length els) zeroed)),
      )

  held_le :
      {b : Block T} {capacity : ℕ} {els : List T} → Contents b capacity els → length els ≤ capacity
  held_le nothing = omega arith
  held_le (allocated ys els spare capacity e len) =
      omega (arith, len, ap length e, length-append els spare)

  reserve-Holds :
      (zeroed : T) (d : DynArray T) (els : List T)
      → Holds d els
      → length els < 2 ^ 63
      → Returns (reserve zeroed d) λ d'. Holds d' els × (length els < d'.capacity)
  unfolding reserve next_capacity
  reserve-Holds zeroed d els h small = elim (Bool-cases (d.slots_used == d.capacity)) [
    | inl full ↦
        let e = (==_iff _ _).0 full in
        let (b, run, holds) =
          enlarge-Contents zeroed {bigger = next_capacity d.capacity} h.block
            (omega (arith, h.used)) (ground (arith, h.used)) in
        rw (full, h.used, run)
          (_, refl, (record { used = refl; block = holds }, ground (arith, h.used)))
    | inr room ↦
        rw room (
          d,
          refl,
          (h, omega (arith, held_le h.block, room_ne d.slots_used d.capacity room, h.used)),
        )
  ]

  -- `Append` to an array that stands for a list of fewer than 2 ^ 63 elements ends without a fault, and the
  -- array then stands for the list with the element behind it.
  pub append-Holds :
      (zeroed : T) (d : DynArray T) (els : List T) (el : T)
      → Holds d els
      → length els < 2 ^ 63
      → Returns (append zeroed d el) λ d'. Holds d' (els ++ (el ∷ []))
  unfolding append
  append-Holds zeroed d els el h small =
      let (roomy, run, (h', lt)) = reserve-Holds zeroed d els h small in
      let (b, run', holds) = write_at-Contents el h'.block lt in
      let next : (length els + 1) % 2 ^ 64 ≡ length (els ++ (el ∷ [])) =
        omega (arith, length-append els (el ∷ [])) in
      rw (run, h'.used, run') (_, refl, record { used = next; block = holds })

  take-suc :
      (xs : List T) (i : ℕ) (x : T)
      → get_elem? xs i ≡ some x
      → take (suc i) xs ≡ take i xs ++ (x ∷ [])
  take-suc [] i x h = cc
  take-suc (y ∷ xs) zero x h = let e : y ≡ x = cc in rw e refl
  take-suc (y ∷ xs) (suc i) x h = ap (λ t. y ∷ t) (take-suc xs i x h)

  length-take : (xs : List T) (i : ℕ) → i ≤ length xs → length (take i xs) ≡ i
  length-take xs zero h = refl
  length-take [] (suc i) h = absurd (omega arith)
  length-take (x ∷ xs) (suc i) h = ap suc (length-take xs i (omega arith))

  released :
      {b : Block T} {capacity : ℕ} {els : List T}
      → Contents b capacity els
      → (old : Block T) × (release b ≡ ok old)
  released nothing = (null, refl)
  released (allocated ys els spare capacity e len) = (freed, refl)

  copy_elements-Contents :
      (rounds i : ℕ) {source target : Block T} {capacity room : ℕ} {els : List T}
      → Contents source capacity els
      → Contents target room (take i els)
      → rounds + i ≡ length els
      → length els ≤ room
      → Returns (copy_elements rounds i source target) λ b. Contents b room els
  unfolding copy_elements
  copy_elements-Contents zero i {target} {room} {els} s t all le =
      let place : i ≡ length els = omega arith in
      let whole : take i els ≡ els = ap (λ k. take k els) place ∙ take_all els in
      (target, refl, subst (λ xs. Contents target room xs) whole t)
  copy_elements-Contents (suc rounds) i {target} {room} {els} s t all le =
      let (x, e) = get_elem?-lt els i (omega arith) in
      let len = length-take els i (omega arith) in
      let (b, run, holds) = write_at-Contents x t (omega (arith, len)) in
      let run' = ap (λ j. write_at target j x) (sym len) ∙ run in
      let holds' =
        subst (λ xs. Contents b room xs)
          (sym (take-suc els i x e) ∙ ap (λ k. take k els) (next_index i)) holds in
      rw (read-Contents s i (omega arith), e, run')
        (copy_elements-Contents rounds (i + 1) s holds' (omega arith) le)

  allocated_for-Contents :
      (zeroed : T) (capacity : ℕ) → Contents (allocated_for zeroed capacity) capacity []
  allocated_for-Contents zeroed capacity = elim (Bool-cases (capacity == 0)) [
    | inl no_bytes ↦
        let e = (==_iff capacity 0).0 no_bytes in
        rw no_bytes (subst (λ n. Contents {T = T} null n []) (sym e) nothing)
    | inr some_bytes ↦
        let zeros = replicate capacity zeroed in
        rw some_bytes (allocated zeros [] zeros capacity refl (length-replicate capacity zeroed))
  ]

  -- A copy of an array stands for the same list, in an allocation of its own.
  pub copy_array-Holds :
      (zeroed : T) (rhs : DynArray T) (els : List T)
      → Holds rhs els
      → Returns (copy_array zeroed rhs) λ d. Holds d els × (d.capacity ≡ rhs.capacity)
  unfolding copy_array
  copy_array-Holds zeroed rhs els h =
      let (b, run, holds) =
        copy_elements-Contents (length els) 0 h.block (allocated_for-Contents zeroed rhs.capacity)
          (omega arith) (held_le h.block) in
      rw (h.used, run) (_, refl, (record { used = refl; block = holds }, refl))

  -- Where the right side has a capacity, `operator=` makes the left side stand for the same list.
  pub assign-Holds :
      (zeroed : T) (this rhs : DynArray T) (els old : List T)
      → Holds this old
      → Holds rhs els
      → rhs.capacity ≢ 0
      → Returns (assign zeroed this rhs) λ d. Holds d els × (d.capacity ≡ rhs.capacity)
  unfolding assign
  assign-Holds zeroed this rhs els old t h some_room =
      let (b, run) = released t.block in
      let room : (rhs.capacity == 0) ≡ false = ground arith in
      rw (run, room) (copy_array-Holds zeroed rhs els h)

  -- Where the left side has an allocation and the right side none, `operator=` leaves a pointer to the
  -- freed allocation, which the next `Append` uses.
  pub assign_dangles :
      (zeroed el : T) (this rhs : DynArray T) (ys : List T)
      → this.arr ≡ live ys
      → Holds rhs []
      → rhs.capacity ≡ 0
      → (assign zeroed this rhs >>= λ d. append zeroed d el) ≡ fault use_after_free
  unfolding assign append reserve next_capacity
  assign_dangles zeroed el this rhs ys e h no_room = rw (e, no_room, h.used) refl

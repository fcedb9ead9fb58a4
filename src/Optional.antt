-- ===== src/Optional.antt =====
-- ds/optional.h: `ds::Optional` over a type whose constructor, assignment and destructor may change a state.
pub mod Shared
use panix.Prelude.{Bool, true, false, if◌then◌else◌, Option, none, some}
use panix.Prelude.Run.{Run, ok, ◌>>=◌}

-- What the code calls of `T`. The bytes of an object outlive its destructor.
pub record Object (State T : Type 0) : Type 0 where
  -- The bytes after `memset(&val_, 0, sizeof(T))`
  pub zeroed : T
  -- `dummy_ = 0` on the first byte
  pub clear_first : T → T
  -- `T(const T &)`
  pub copy : T → State → Run (T × State)
  -- `operator=` of the first to the second
  pub assign : T → T → State → Run (T × State)
  -- `~T()`
  pub destroy : T → State → Run State

pub record Optional (T : Type 0) : Type 0 where
  pub has_val : Bool
  pub val : T

module _ {State T : Type 0} (object : Object State T) where
  -- `Optional()` and `Optional(nullopt_t)`
  unfoldable pub no_value : Optional T
  no_value = record { has_val = false; val = object.zeroed }

  -- `Optional(const T &obj)`
  unfoldable pub of_value : T → State → Run (Optional T × State)
  of_value obj s = object.copy obj s >>= λ (val, s1). ok (record { has_val = true; val = val }, s1)

  -- `val_ = source` where the optional is full
  unfoldable pub set_value : Bool → T → T → State → Run (Optional T × State)
  set_value has_val target source s =
      if has_val
      then (object.assign target source s >>= λ (val, s1).
          ok (record { has_val = true; val = val }, s1))
      else ok (record { has_val = false; val = target }, s)

  -- `Optional(const Optional &rhs)`
  unfoldable pub copy_optional : Optional T → State → Run (Optional T × State)
  copy_optional rhs s = set_value rhs.has_val object.zeroed rhs.val s

  -- `operator=(const T &val)`, which destroys what the bytes are, full or not.
  unfoldable pub assign_value : T → Optional T → State → Run (Optional T × State)
  assign_value source this s = object.destroy this.val s >>= set_value true this.val source

  -- `operator=(nullopt_t)`, which tests `has_val_` when it is already false.
  unfoldable pub assign_null : Optional T → State → Run (Optional T × State)
  assign_null this s = ok (record { has_val = false; val = object.clear_first this.val }, s)

  -- `if(has_val_) val_.~T()`, which is also the destructor
  unfoldable pub destroy_held : Optional T → State → Run State
  destroy_held this s = if this.has_val then object.destroy this.val s else ok s

  -- `operator=(const Optional &rhs)`, and whether the two are one object
  unfoldable pub assign_optional : Bool → Optional T → Optional T → State → Run (Optional T × State)
  assign_optional true this rhs s = ok (this, s)
  assign_optional false this rhs s = destroy_held this s >>= set_value rhs.has_val this.val rhs.val

  -- `Value()` and `operator *`, which do not test `has_val_`.
  unfoldable pub value : Optional T → State → Run (T × State)
  value this s = object.copy this.val s

-- `HasValue()` and `operator bool`
unfoldable pub has_value : {T : Type 0} → Optional T → Bool
has_value this = this.has_val

-- `operator ->`
unfoldable pub pointer : {T : Type 0} → Optional T → Option T
pointer this = if this.has_val then some this.val else none

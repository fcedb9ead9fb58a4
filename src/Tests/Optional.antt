-- ===== src/Tests/Optional.antt =====
-- The theorem on ds/optional.h at a pointer that is the only one with its counter.
use panix.Prelude.{◌≡◌, refl, arith, false, true, none, some, [], ◌∷◌, ◌==◌, if◌then◌else◌}
use panix.Prelude.Run.{fault, Returns, use_after_free}
use panix.RefCntPtr.{RefCntPtr, World}
use panix.Optional.{assign_optional, assign_value, assign_null, has_value}
use panix.Optional.Shared.{shared, assign_optional_dangles}

abbrev alone : RefCntPtr
alone = record { raw_ptr = 100; refs = 8 }

abbrev other : RefCntPtr
other = record { raw_ptr = 200; refs = 16 }

abbrev counted : World
counted = record {
  vars = alone ∷ other ∷ [];
  counters = λ c. if c == 8 then some 1 else if c == 16 then some 1 else none;
  freed = [];
}

assign_optional_dangles_example :
    (assign_optional
        (shared (λ p. p))
        false
        (record { has_val = true; val = alone })
        (record { has_val = true; val = other })
        counted
      ≡ fault use_after_free)
    × (assign_value (shared (λ p. p)) other (record { has_val = true; val = alone }) counted
        ≡ fault use_after_free)
    × Returns
        (assign_null (shared (λ p. p)) (record { has_val = true; val = alone }) counted)
        λ r. (has_value (r.0) ≡ false) × ((r.1).counters 8 ≡ some 1)
assign_optional_dangles_example =
    assign_optional_dangles (λ p. p) alone other counted (omega arith) refl

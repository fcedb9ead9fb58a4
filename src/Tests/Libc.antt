-- ===== src/Tests/Libc.antt =====
-- Runs of libc/string.cpp, and the theorems on it at a memory with two texts.
use panix.Prelude.{ℕ, ◌+◌, ◌≡◌, refl, inl, arith, List, [], ◌∷◌, ◌++◌, ◌==◌, if◌then◌else◌}
use panix.Prelude.Int.{pos, negsuc}
use panix.Prelude.Run.{ok, Returns}
use panix.Libc.{
  Memory, write, copy_up, memcpy, copy_down, rounds_down, memmove, fill_up, memset, len_from,
  strlen, cat_from, strcat, strncat, strcmp, compare_up_to, strncmp, memcmp,
}
use panix.Libc.Copy.{memmove_smears}
use panix.Libc.Text.{IsText}
use panix.Libc.Cat.{strcat-append}

-- "ab" at 10 and "ac" at 20.
abbrev memory : Memory
memory a =
    if a == 10
    then b'a'
    else if a == 11
    then b'b'
    else if a == 20
    then b'a'
    else if a == 21
    then b'c'
    else 0

program : Unit {0}
unfolding write copy_up memcpy copy_down rounds_down memmove fill_up memset len_from strlen cat_from
    strcat strncat strcmp compare_up_to strncmp memcmp
program = tt

strlen_two : strlen 5 memory 10 ≡ ok 2
unfolding program
strlen_two = refl

strcmp_less : strcmp 5 memory 10 20 ≡ ok (negsuc 0)
unfolding program
strcmp_less = refl

memcmp_same : memcmp memory 10 20 1 ≡ pos 0
unfolding program
memcmp_same = refl

moved_down : (memmove 10 11 2 memory).1 10 ≡ 0
unfolding program
moved_down = refl

abbrev ab : List ℕ
ab = b'a' ∷ b'b' ∷ []

abbrev ac : List ℕ
ac = b'a' ∷ b'c' ∷ []

ab-IsText : IsText memory 10 ab
ab-IsText = (refl, omega arith, (refl, omega arith, refl))

ac-IsText : IsText memory 20 ac
ac-IsText = (refl, omega arith, (refl, omega arith, refl))

memmove_smears_example : (memmove 10 (10 + 1) 2 memory).1 10 ≡ memory (10 + 2)
memmove_smears_example = memmove_smears 10 2 memory 10 (omega arith) (omega arith) (omega arith)

strcat-append_example : Returns (strcat 5 10 20 memory) λ (p, m). (p ≡ 10) × IsText m 10 (ab ++ ac)
strcat-append_example =
    strcat-append 5 10 20 memory ab ac ab-IsText ac-IsText (inl (omega arith)) (omega arith)
      (omega arith)

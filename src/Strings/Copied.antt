-- ===== src/Strings/Copied.antt =====
-- The copy constructor of ds/string.h.
use panix.Prelude.{ℕ, ◌+◌, ◌-◌, ◌<◌, ◌≤◌, ◌≡◌, ◌≢◌, ◌⊎◌, ap, ◌∙◌, subst, arith, List, length}
use panix.Libc.{Memory, copy_up}
use panix.Libc.Text.{IsText, IsText-take, IsText-frame, take-length}
use panix.Libc.Copy.{copy_up-copied}
use panix.Strings.{BaseString, copy}
use panix.Strings.Same.{IsString}
use panix.Strings.Part.{IsText-end}

module _ (at : ℕ) (s : BaseString) (m : Memory)
    (apart : (at + s.len ≤ s.chars) ⊎ (s.chars + s.len ≤ at)) where
  sub_at : (j : ℕ) → s.chars + (at + j - at) ≡ s.chars + j
  sub_at j = omega arith

  copied-at : (j : ℕ) → j < s.len → copy_up s.len 0 at s.chars m (at + j) ≡ m (s.chars + j)
  copied-at j lt =
      ground (arith, copy_up-copied s.len 0 at s.chars m (omega arith) (at + j), ap m (sub_at j))

  copied-other : (a : ℕ) → (a < at) ⊎ (at + s.len ≤ a) → copy_up s.len 0 at s.chars m a ≡ m a
  copied-other a far = ground (arith, copy_up-copied s.len 0 at s.chars m (omega arith) a)

  -- The copy holds the text.
  pub copy-IsString :
      (xs : List ℕ) → IsString m s xs → at ≢ 0 → IsString ((copy at s m).1) ((copy at s m).0) xs
  unfolding copy
  copy-IsString xs h owned =
      let size = h.size in
      let new = copy_up s.len 0 at s.chars m in
      let end : new (at + length xs) ≡ 0 =
        copied-at (length xs) (omega arith) ∙ IsText-end m s.chars xs h.text in
      record {
        text =
            subst (λ t. IsText new at t) (take-length xs)
              (IsText-take (length xs) m new s.chars at xs h.text (omega arith)
                (λ j lt. copied-at j (omega arith)) end);
        size = h.size;
        owned = owned;
      }

  -- A string apart from the new block keeps its text.
  pub copy-keeps :
      (t : BaseString) (zs : List ℕ)
      → IsString m t zs
      → (at + s.len ≤ t.chars) ⊎ (t.chars + t.len ≤ at)
      → IsString ((copy at s m).1) t zs
  unfolding copy
  copy-keeps t zs g far =
      let size = g.size in
      record {
        text =
            IsText-frame m (copy_up s.len 0 at s.chars m) t.chars zs
              (λ a lo hi. copied-other a (omega arith)) g.text;
        size = g.size;
        owned = g.owned;
      }

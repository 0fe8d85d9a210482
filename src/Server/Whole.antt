-- ===== src/Server/Whole.antt =====
-- What `set_char_zero` keeps: the characters that are there whole.
use event_server.Base.{ℕ, suc, ◌+◌, ◌<◌, ◌≡◌, some, List, [], ◌∷◌, ◌++◌, length, replicate}
use event_server.Server.{char_size, skip_chars}

-- A text of whole characters, by their first bytes.
pub data Whole : List ℕ → Type 0 where
  no_more : Whole []
  next :
      (a : ℕ) (char rest : List ℕ)
      → suc (length char) ≡ char_size a
      → Whole rest
      → Whole (a ∷ (char ++ rest))

-- The start of a character that is not whole, or nothing.
unfoldable pub Partial : List ℕ → Type 0
Partial [] = Unit
Partial (a ∷ rest) = suc (length rest) < char_size a

-- What the loop makes of `rest`, from the place behind `before` on.
record Kept (fuel : ℕ) (before rest tail : List ℕ) : Type 0 where
  kept : List ℕ
  dropped : List ℕ
  parts : rest ≡ kept ++ dropped
  whole : Whole kept
  partial : Partial dropped
  run :
      skip_chars fuel (length before) (length before + length rest) (before ++ (rest ++ tail))
      ≡ some
          (length before + length kept, before ++ (kept ++ (replicate (length dropped) 0 ++ tail)))

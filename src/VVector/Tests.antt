-- ===== src/VVector/Tests.antt =====
-- An element pushed on a full vector of two, and one taken out of a vector with a free cell.
use event_server.Base.{
  ℕ, ◌<◌, ◌≡◌, refl, ◌⊎◌, [], ◌∷◌, ◌++◌, some, none, replicate, length-replicate, arith,
}
use event_server.VVector.{VVector, next_limit, push_back, erase, contents}
use event_server.VVector.Holds.{IsValid, push_back_lem}
use event_server.VVector.Edges.{without, erase_lem}

abbrev full : VVector ℕ
full = record { cells = 7 ∷ 8 ∷ []; used = 2; limit = 2; step = 0 }

full-IsValid : IsValid full
full-IsValid = record { room = refl; within = omega arith }

abbrev roomy : VVector ℕ
roomy = record { cells = 7 ∷ 8 ∷ 9 ∷ 0 ∷ []; used = 3; limit = 4; step = 0 }

roomy-IsValid : IsValid roomy
roomy-IsValid = record { room = refl; within = omega arith }

push_back_example :
    (w : VVector ℕ) × (push_back (λ n. replicate n 0) 9 full ≡ some w)
    × IsValid w
    × (contents w ≡ contents full ++ 9 ∷ [])
unfolding next_limit
push_back_example =
    push_back_lem (λ n. replicate n 0) (λ n. length-replicate n 0) 9 full full-IsValid (omega arith)

erase_example :
    ((roomy.used < roomy.limit)
      × (w : VVector ℕ) × (erase 1 roomy ≡ some w)
      × IsValid w
      × (contents w ≡ without 1 (contents roomy)))
    ⊎ ((roomy.used ≡ roomy.limit) × (erase 1 roomy ≡ none))
erase_example = erase_lem 1 roomy roomy-IsValid (omega arith)

-- ===== src/Random/Tests.antt =====
-- Shuffles with concrete draws.
use librave.Base.{ℕ, ◌+◌, ◌-◌, ◌≡◌, refl, List, [], ◌∷◌, Perm, length, ok, arith}
use librave.Base.Slots.{read, write}
use librave.Random.{Draws, shuffle}
use librave.Random.Shuffles.{shuffle-perm}
use librave.Random.Reaches.{shuffle-reaches}
use mathlib.Core.List.Perm

abbrev draws : Draws
draws k = k + 2

abbrev slots : List ℕ
slots = 0 ∷ 1 ∷ 2 ∷ 3 ∷ []

-- 2 % 4, 3 % 3 and 4 % 2 choose the slots 2, 1 and 2.
shuffled : shuffle draws slots 4 0 ≡ ok (2 ∷ 1 ∷ 0 ∷ 3 ∷ [], 3)
unfolding shuffle read write
shuffled = refl

shuffle-perm_example :
    (out : List ℕ) × (shuffle draws slots 4 7 ≡ ok (out, 7 + (4 - 1)))
    × Perm out slots
    × (length out ≡ 4)
shuffle-perm_example = shuffle-perm draws slots 4 7 refl (omega arith) (omega arith)

shuffle-reaches_example :
    (rand : Draws) × (shuffle rand slots 4 7 ≡ ok (1 ∷ 0 ∷ 2 ∷ 3 ∷ [], 7 + (4 - 1)))
shuffle-reaches_example =
    shuffle-reaches slots (1 ∷ 0 ∷ 2 ∷ 3 ∷ []) 4 7 refl (omega arith) (omega arith)
      (Perm.swap 0 1 (2 ∷ 3 ∷ []))

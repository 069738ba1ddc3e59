-- ===== src/Random.antt =====
-- src/random.h and src/random.c: the shuffle of an array of `int`. The values of `rand` are a
-- sequence, and the state of the generator is how many of them have been drawn.
pub mod Shuffles
pub mod Reaches
mod Tests
use librave.Base.{
  ℕ, zero, suc, ◌+◌, ◌%◌, List, true, false, ◌==◌, Outcome, ok, fault, ◌>>=◌, add64, sub64, to_int,
  sign_extend,
}
use librave.Base.Slots.{read, write}

-- The value of each call of `rand`, by its number.
abbrev pub Draws : Type 0
Draws = ℕ → ℕ

unfoldable pub swap : List ℕ → ℕ → ℕ → Outcome (List ℕ)
swap arr a b = do tmp ← read arr a; other ← read arr b; arr' ← write arr a other; write arr' b tmp

-- `rounds` is what is left of `nmemb - 1 - i`. A remainder by zero is a fault.
unfoldable pub shuffle_loop : Draws → ℕ → ℕ → ℕ → List ℕ → ℕ → Outcome (List ℕ × ℕ)
unfolding swap
shuffle_loop rand zero i nmemb arr drawn = ok (arr, drawn)
shuffle_loop rand (suc rounds) i nmemb arr drawn = elim (sub64 nmemb i == 0) [
  | true ↦ fault
  | false ↦ swap arr i (sign_extend (to_int (add64 i (rand drawn % sub64 nmemb i)))) >>= λ arr'.
      shuffle_loop rand rounds (i + 1) nmemb arr' (drawn + 1)
]

-- `nmemb - 1` wraps for an empty array.
unfoldable pub shuffle : Draws → List ℕ → ℕ → ℕ → Outcome (List ℕ × ℕ)
unfolding shuffle_loop
shuffle rand arr nmemb drawn = shuffle_loop rand (sub64 nmemb 1) 0 nmemb arr drawn

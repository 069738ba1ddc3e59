-- ===== src/Random/Shuffles.antt =====
-- The shuffle permutes a non-empty array, and an empty one is out of its reach.
use mathlib.Core.List.Perm
use native.Mathlib.Nat.{mod-lt}
use librave.Base.{
  ℕ, zero, suc, ◌+◌, ◌-◌, ◌%◌, ◌^◌, ◌≤◌, ◌<◌, ◌≡◌, refl, false, List, Perm, arith, length,
  get_elem?, set, get_elem?-some, length-set, ◌==◌, sub64, add64, to_int, sign_extend, ok, fault,
  some,
}
use librave.Base.Slots.{read-ok, write-ok, set-set-perm}
use librave.Random.{Draws, swap, shuffle_loop, shuffle}

-- Swapping two entries in range exchanges them.
pub swap_lem :
    (arr : List ℕ) (i j a b : ℕ)
    → i < length arr
    → j < length arr
    → get_elem? arr i ≡ some a
    → get_elem? arr j ≡ some b
    → swap arr i j ≡ ok (set (set arr i b) j a)
unfolding swap
swap_lem arr i j a b hi hj ei ej =
    rw (read-ok arr i ei, read-ok arr j ej, write-ok arr i b hi)
      (write-ok (set arr i b) j a (omega (arith, length-set arr i b)))

abbrev pub slot : Draws → ℕ → ℕ → ℕ → ℕ
slot rand drawn i nmemb = sign_extend (to_int (add64 i (rand drawn % sub64 nmemb i)))

-- The other slot lies in range, since `int` holds every index.
slot_bound :
    (rand : Draws) (drawn i nmemb : ℕ)
    → i < nmemb
    → nmemb ≤ 2 ^ 31
    → slot rand drawn i nmemb < nmemb
slot_bound rand drawn i nmemb h small =
    let span : sub64 nmemb i ≡ nmemb - i = omega arith in
    let fits : rand drawn % (nmemb - i) < nmemb - i = mod-lt _ (omega arith) in
    rw span (ground arith)

shuffle_loop-perm :
    (rand : Draws) (rounds i nmemb : ℕ) (arr : List ℕ) (drawn end : ℕ)
    → length arr ≡ nmemb
    → nmemb ≤ 2 ^ 31
    → i + rounds + 1 ≡ nmemb
    → drawn + rounds ≡ end
    → (out : List ℕ) × (shuffle_loop rand rounds i nmemb arr drawn ≡ ok (out, end))
      × Perm out arr
      × (length out ≡ nmemb)
unfolding shuffle_loop
shuffle_loop-perm rand zero i nmemb arr drawn end size small left total =
    let none_drawn : drawn ≡ end = omega arith in (arr, rw none_drawn, Perm.rfl, size)
shuffle_loop-perm rand (suc rounds) i nmemb arr drawn end size small left total =
    let j = slot rand drawn i nmemb in
    let j_fits = slot_bound rand drawn i nmemb (omega arith) small in
    let (a, ea) = get_elem?-some arr i (omega arith) in
    let (b, eb) = get_elem?-some arr j (omega arith) in
    let arr' = set (set arr i b) j a in
    let (out, run, perm, whole) =
      shuffle_loop-perm rand rounds (i + 1) nmemb arr' (drawn + 1) end
        (omega (arith, length-set (set arr i b) j a, length-set arr i b)) small (omega arith)
        (omega arith) in
    let spread : (sub64 nmemb i == 0) ≡ false = ground arith in
    (
      out,
      rw (spread, shuffle_loop, swap_lem arr i j a b (omega arith) (omega arith) ea eb) run,
      Perm.trans perm (set-set-perm arr i j a b ea eb),
      whole,
    )

-- Shuffling a non-empty array of at most `2 ^ 31` entries returns, without an access out of bounds,
-- a permutation of it with as many entries, and draws one value fewer than there are entries, whatever `rand` yields.
pub shuffle-perm :
    (rand : Draws) (arr : List ℕ) (nmemb drawn : ℕ)
    → length arr ≡ nmemb
    → 0 < nmemb
    → nmemb ≤ 2 ^ 31
    → (out : List ℕ) × (shuffle rand arr nmemb drawn ≡ ok (out, drawn + (nmemb - 1)))
      × Perm out arr
      × (length out ≡ nmemb)
unfolding shuffle
shuffle-perm rand arr nmemb drawn size some_left small =
    let rounds : sub64 nmemb 1 ≡ nmemb - 1 = omega arith in
    rw rounds (
      shuffle_loop-perm rand (nmemb - 1) 0 nmemb arr drawn (drawn + (nmemb - 1)) size small
        (omega arith) refl)

-- On an empty array the bound `nmemb - 1` wraps, and the first round divides by zero.
pub shuffle-empty : (rand : Draws) (arr : List ℕ) (drawn : ℕ) → shuffle rand arr 0 drawn ≡ fault
unfolding shuffle
shuffle-empty rand arr drawn = refl

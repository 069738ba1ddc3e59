-- ===== src/Random/Reaches.antt =====
-- Every permutation of an array comes out of the shuffle for some draws.
use mathlib.Core.List.Perm
use mathlib.Core.List.{append_assoc, mem-cons_self}
use native.Mathlib.Nat.{mod-eq_of_lt}
use librave.Base.{
  ℕ, zero, suc, ◌+◌, ◌-◌, ◌%◌, ◌^◌, ◌≤◌, ◌<◌, ◌≡◌, refl, sym, ap, ◌∙◌, subst, false, List, [], ◌∷◌,
  ◌++◌, Perm, arith, length, length-append, get_elem?, set, lt_of_get_elem?, length-set, ◌==◌,
  if◌then◌else◌, sub64, ok, ◌>>=◌, bind-ext, some, inl, inr, Bool-cases,
}
use librave.Base.Orders.{position, get_elem?-position}
use librave.Base.Slots.{set-set-perm}
use librave.Random.{Draws, swap, shuffle_loop, shuffle}
use librave.Random.Shuffles.{swap_lem, slot}

set-behind :
    (done xs : List ℕ) (k v : ℕ) → set (done ++ xs) (length done + k) v ≡ done ++ set xs k v
set-behind [] xs k v = let same : 0 + k ≡ k = omega arith in ap (λ i. set xs i v) same
set-behind (d ∷ done) xs k v =
    let same : suc (length done) + k ≡ suc (length done + k) = omega arith in
    ap (λ i. set (d ∷ done ++ xs) i v) same ∙ ap (d ∷◌) (set-behind done xs k v)

get_elem?-behind :
    (done xs : List ℕ) (k : ℕ) → get_elem? (done ++ xs) (length done + k) ≡ get_elem? xs k
get_elem?-behind [] xs k = let same : 0 + k ≡ k = omega arith in ap (get_elem? xs) same
get_elem?-behind (d ∷ done) xs k =
    let same : suc (length done) + k ≡ suc (length done + k) = omega arith in
    ap (get_elem? (d ∷ done ++ xs)) same ∙ get_elem?-behind done xs k

-- Bringing an entry to the front.
fronted :
    (r : ℕ) (rs : List ℕ) (k g : ℕ)
    → get_elem? (r ∷ rs) k ≡ some g
    → (rest : List ℕ) × (set (set (r ∷ rs) 0 g) k r ≡ g ∷ rest) × (length rest ≡ length rs)
fronted r rs zero g e = let same : r ≡ g = cc in (rs, ap (λ x. x ∷ rs) same, refl)
fronted r rs (suc k) g e = (set rs k r, refl, length-set rs k r)

-- Only the draws from a number on count.
shuffle_loop-ext :
    (rand rand' : Draws) (rounds i nmemb : ℕ) (arr : List ℕ) (drawn : ℕ)
    → ((k : ℕ) → drawn ≤ k → rand k ≡ rand' k)
    → shuffle_loop rand rounds i nmemb arr drawn ≡ shuffle_loop rand' rounds i nmemb arr drawn
unfolding shuffle_loop
shuffle_loop-ext rand rand' zero i nmemb arr drawn same = refl
shuffle_loop-ext rand rand' (suc rounds) i nmemb arr drawn same =
    elim (Bool-cases (sub64 nmemb i == 0)) [
      | inl t ↦ rw (t, shuffle_loop) refl
      | inr t ↦
          rw (t, shuffle_loop, same drawn (omega arith))
            (bind-ext (swap arr i (slot rand' drawn i nmemb)) _ _ (λ arr'.
              shuffle_loop-ext rand rand' rounds (i + 1) nmemb arr' (drawn + 1)
                (λ k h. same k (omega arith))))
    ]

-- One round, by the slot that it draws.
shuffle_loop-suc :
    (rand : Draws) (rounds i nmemb : ℕ) (arr : List ℕ) (drawn j : ℕ)
    → i < nmemb
    → nmemb ≤ 2 ^ 31
    → slot rand drawn i nmemb ≡ j
    → shuffle_loop rand (suc rounds) i nmemb arr drawn
      ≡ (swap arr i j >>= λ arr'. shuffle_loop rand rounds (i + 1) nmemb arr' (drawn + 1))
unfolding shuffle_loop
shuffle_loop-suc rand rounds i nmemb arr drawn j h small e =
    let spread : (sub64 nmemb i == 0) ≡ false = ground arith in
    rw (spread, shuffle_loop)
      (ap (λ k. swap arr i k >>= λ arr'. shuffle_loop rand rounds (i + 1) nmemb arr' (drawn + 1)) e)

-- A draw that is the distance to a slot chooses it.
slot_lem :
    (rand : Draws) (drawn i nmemb k : ℕ)
    → rand drawn ≡ k
    → i + k < nmemb
    → nmemb ≤ 2 ^ 31
    → slot rand drawn i nmemb ≡ i + k
slot_lem rand drawn i nmemb k e h small =
    let span : sub64 nmemb i ≡ nmemb - i = omega arith in
    let fits : k % (nmemb - i) ≡ k = mod-eq_of_lt (omega arith) in rw (e, span, fits) (ground arith)

-- A draw before the others.
abbrev first : ℕ → ℕ → Draws → Draws
first drawn k rand n = if n == drawn then k else rand n

-- The entry that comes first in a permutation, brought to the front.
front :
    (r : ℕ) (rs : List ℕ) (g : ℕ) (gs : List ℕ)
    → Perm (g ∷ gs) (r ∷ rs)
    → (k : ℕ) × (rest : List ℕ) × (get_elem? (r ∷ rs) k ≡ some g)
      × (set (set (r ∷ rs) 0 g) k r ≡ g ∷ rest)
      × (length rest ≡ length rs)
      × Perm gs rest
front r rs g gs p =
    let k = position g (r ∷ rs) in
    let here = get_elem?-position g (r ∷ rs) ((Perm.mem_iff p).0 mem-cons_self) in
    let (rest, moved, sized) = fronted r rs k g here in
    let exchanged = subst (λ l. Perm l (r ∷ rs)) moved (set-set-perm (r ∷ rs) 0 k r g refl here) in
    (k, rest, here, moved, sized, Perm.cons_inv (Perm.trans p (Perm.symm exchanged)))

nil_of_length : {A : Type 0} (xs : List A) → length xs ≡ 0 → xs ≡ []
nil_of_length [] e = refl
nil_of_length (x ∷ xs) e = absurd (omega arith)

only : (r g : ℕ) (gs : List ℕ) → Perm (g ∷ gs) (r ∷ []) → r ∷ [] ≡ g ∷ gs
only r g gs p =
    let (k, rest, here, moved, sized, left) = front r [] g gs p in
    let below = lt_of_get_elem? (r ∷ []) k here in
    let zeroth : k ≡ 0 = omega arith in
    let there : get_elem? (r ∷ []) 0 ≡ some g =
      subst (λ k. get_elem? (r ∷ []) k ≡ some g) zeroth here in
    let same : r ≡ g = cc in
    let none_left : gs ≡ [] = Perm.eq-nil (subst (Perm gs) (nil_of_length rest sized) left) in cc

shuffle_loop-zero :
    (done rest goal : List ℕ) (nmemb drawn : ℕ)
    → rest ≡ goal
    → shuffle_loop (λ n. 0) 0 (length done) nmemb (done ++ rest) drawn
      ≡ ok (done ++ goal, drawn + 0)
unfolding shuffle_loop
shuffle_loop-zero done rest goal nmemb drawn same =
    ap (λ l. ok (done ++ l, drawn)) same ∙ ap (λ n. ok (done ++ goal, n)) (omega arith)

-- The exchange of a round.
swap-behind :
    (done : List ℕ) (r : ℕ) (rs : List ℕ) (k g : ℕ) (rest : List ℕ)
    → get_elem? (r ∷ rs) k ≡ some g
    → set (set (r ∷ rs) 0 g) k r ≡ g ∷ rest
    → swap (done ++ r ∷ rs) (length done) (length done + k) ≡ ok (done ++ g ∷ rest)
swap-behind done r rs k g rest here moved =
    let i = length done in
    let sized = length-append done (r ∷ rs) in
    let below = lt_of_get_elem? (r ∷ rs) k here in
    let start : i + 0 ≡ i = omega arith in
    let first_there : get_elem? (done ++ r ∷ rs) i ≡ some r =
      subst (λ j. get_elem? (done ++ r ∷ rs) j ≡ some r) start (get_elem?-behind done (r ∷ rs) 0) in
    let first_set : set (done ++ r ∷ rs) i g ≡ done ++ set (r ∷ rs) 0 g =
      subst (λ j. set (done ++ r ∷ rs) j g ≡ done ++ set (r ∷ rs) 0 g) start
        (set-behind done (r ∷ rs) 0 g) in
    swap_lem (done ++ r ∷ rs) i (i + k) r g (omega (arith, sized)) (omega (arith, sized, below))
      first_there (get_elem?-behind done (r ∷ rs) k ∙ here)
    ∙ ap ok (
        ap (λ l. set l (i + k) r) first_set
        ∙ set-behind done (set (r ∷ rs) 0 g) k r
        ∙ ap (done ++◌) moved)

shuffle_loop-reaches :
    (rounds nmemb : ℕ) (done rest goal : List ℕ) (drawn : ℕ)
    → length done + length rest ≡ nmemb
    → length rest ≡ rounds + 1
    → nmemb ≤ 2 ^ 31
    → Perm goal rest
    → (rand : Draws) × (shuffle_loop rand rounds (length done) nmemb (done ++ rest) drawn
        ≡ ok (done ++ goal, drawn + rounds))
shuffle_loop-reaches rounds nmemb done [] goal drawn whole size small p = absurd (omega arith)
shuffle_loop-reaches rounds nmemb done (r ∷ rs) [] drawn whole size small p =
    let same : [] ≡ r ∷ rs = Perm.nil-eq p in absurd (cc)
shuffle_loop-reaches zero nmemb done (r ∷ []) (g ∷ gs) drawn whole size small p =
    ((λ n. 0), shuffle_loop-zero done (r ∷ []) (g ∷ gs) nmemb drawn (only r g gs p))
shuffle_loop-reaches zero nmemb done (r ∷ q ∷ rs) (g ∷ gs) drawn whole size small p =
    absurd (omega arith)
shuffle_loop-reaches (suc rounds) nmemb done (r ∷ rs) (g ∷ gs) drawn whole size small p =
    let i = length done in
    let (k, rest, here, moved, sized, left) = front r rs g gs p in
    let below = lt_of_get_elem? (r ∷ rs) k here in
    let joined = length-append done (g ∷ []) in
    let (rand, run) =
      shuffle_loop-reaches rounds nmemb (done ++ g ∷ []) rest gs (drawn + 1)
        (omega (arith, joined, sized, whole)) (omega (arith, sized, size)) small left in
    let draws = first drawn k rand in
    let next : length (done ++ g ∷ []) ≡ i + 1 = omega (arith, joined) in
    (
      draws,
      shuffle_loop-suc draws rounds i nmemb (done ++ r ∷ rs) drawn (i + k) (omega (arith, whole))
            small
            (slot_lem draws drawn i nmemb k (ground arith) (omega (arith, whole, below)) small)
          ∙ ap (λ o. o >>= λ arr'. shuffle_loop draws rounds (i + 1) nmemb arr' (drawn + 1))
              (swap-behind done r rs k g rest here moved)
          ∙ shuffle_loop-ext draws rand rounds (i + 1) nmemb (done ++ g ∷ rest) (drawn + 1)
              (λ n h. ground arith)
          ∙ ap (λ l. shuffle_loop rand rounds (i + 1) nmemb l (drawn + 1))
              (sym (append_assoc done (g ∷ []) rest))
          ∙ ap (λ j. shuffle_loop rand rounds j nmemb (done ++ g ∷ [] ++ rest) (drawn + 1))
              (sym next)
          ∙ run
          ∙ ap (λ l. ok (l, drawn + 1 + rounds)) (append_assoc done (g ∷ []) gs)
          ∙ ap (λ n. ok (done ++ g ∷ gs, n)) (omega arith),
    )

-- Every permutation of a non-empty array of at most `2 ^ 31` entries is what the shuffle makes of the
-- array for some draws, one fewer than there are entries.
pub shuffle-reaches :
    (arr goal : List ℕ) (nmemb drawn : ℕ)
    → length arr ≡ nmemb
    → 0 < nmemb
    → nmemb ≤ 2 ^ 31
    → Perm goal arr
    → (rand : Draws) × (shuffle rand arr nmemb drawn ≡ ok (goal, drawn + (nmemb - 1)))
unfolding shuffle
shuffle-reaches arr goal nmemb drawn size some_left small p =
    let rounds : sub64 nmemb 1 ≡ nmemb - 1 = omega arith in
    rw (rounds)
      (shuffle_loop-reaches (nmemb - 1) nmemb [] arr goal drawn (omega arith) (omega arith) small p)

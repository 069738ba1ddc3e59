-- ===== src/Transform/Data/Identity.antt =====
-- The first order of a function counts its slots.
use mathlib.Core.List.{append_assoc}
use librave.Base.{
  ℕ, zero, suc, ◌+◌, ◌^◌, ◌≤◌, ◌≡◌, refl, ap, subst, set, ◌∙◌, List, [], ◌∷◌, ◌++◌, map, arith,
  length, length-append, replicate, to_int, ok,
}
use mathlib.Core.Path.{ap₂}
use librave.Base.Slots.{write-ok, set-append}
use librave.Base.Orders.{count_up}
use librave.Transform.Data.{identity_order}

identity_order-append :
    (rounds i : ℕ) (before : List ℕ)
    → length before ≡ i
    → identity_order rounds i (before ++ replicate rounds 0)
      ≡ ok (before ++ map to_int (count_up i rounds))
unfolding identity_order count_up
identity_order-append zero i before size = refl
identity_order-append (suc rounds) i before size =
    let room = length-append {0} before (0 ∷ replicate rounds 0) in
    let written = write-ok (before ++ 0 ∷ replicate rounds 0) i (to_int i) (omega (arith, room)) in
    let placed = set-append before (replicate rounds 0) 0 (to_int i) in
    let ih =
      identity_order-append rounds (i + 1) (before ++ to_int i ∷ [])
        (omega (arith, length-append {0} before (to_int i ∷ []))) in
    let placed' : set (before ++ 0 ∷ replicate rounds 0) i (to_int i)
        ≡ (before ++ to_int i ∷ []) ++ replicate rounds 0 =
      subst
        (λ k.
          set (before ++ 0 ∷ replicate rounds 0) k (to_int i)
          ≡ (before ++ to_int i ∷ []) ++ replicate rounds 0)
        size placed in
    rw (written) (
      ap (identity_order rounds (i + 1)) placed'
      ∙ ih
      ∙ ap ok (append_assoc before (to_int i ∷ []) (map to_int (count_up (i + 1) rounds))))

ints_small : (i n : ℕ) → i + n ≤ 2 ^ 32 → map to_int (count_up i n) ≡ count_up i n
unfolding count_up
ints_small i zero h = refl
ints_small i (suc n) h =
    let same : to_int i ≡ i = omega arith in ap₂ ◌∷◌ same (ints_small (i + 1) n (omega arith))

pub identity_order_lem :
    (n : ℕ) → identity_order n 0 (replicate n 0) ≡ ok (map to_int (count_up 0 n))
identity_order_lem n = identity_order-append n 0 [] refl

pub ints-count_up : (n : ℕ) → n ≤ 2 ^ 32 → map to_int (count_up 0 n) ≡ count_up 0 n
ints-count_up n h = ints_small 0 n (omega arith)

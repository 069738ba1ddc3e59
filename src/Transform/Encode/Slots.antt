-- ===== src/Transform/Encode/Slots.antt =====
-- Slots that all hold an instruction are a permutation of the set.
use mathlib.Core.List
use mathlib.Core.List.Perm
use librave.Base.{
  ℕ, suc, ◌<◌, ◌≤◌, ◌^◌, ◌≡◌, refl, ap, subst, ◌∙◌, Option, none, some, List, [], ◌∷◌, map, Perm,
  arith, length, replicate, get_elem?, get_elem?-some, lt_of_get_elem?, ok,
}
use librave.Base.Orders.{IsOrder}
use librave.Transform.Dr.{Dr}
use librave.Transform.Encode.{arrange}
use librave.Transform.Encode.Arrange.{arrange_lem}

-- The entries that are not `none`.
abbrev pub somes {ℓ} : {A : Type ℓ} → List (Option A) → List A
somes = List.filter_map (λ o. o)

pub somes-map {ℓ} : {A : Type ℓ} (xs : List A) → somes (map some xs) ≡ xs
unfolding List.filter_map
somes-map [] = refl
somes-map (x ∷ xs) = ap (x ∷◌) (somes-map xs)

map-somes {ℓ} :
    {A : Type ℓ} (xs : List (Option A))
    → ((j : ℕ) → j < length xs → (x : A) × (get_elem? xs j ≡ some (some x)))
    → xs ≡ map some (somes xs)
unfolding List.filter_map
map-somes [] h = refl
map-somes (none ∷ xs) h = let (x, e) = h 0 (omega arith) in absurd (cc)
map-somes (some x ∷ xs) h = ap (some x ∷◌) (map-somes xs (λ j below. h (suc j) (omega arith)))

module _ (dr : Dr) (n : ℕ) (order : List ℕ) (is_order : IsOrder n order) (small : n ≤ 2 ^ 31) where
  pub arrange-somes :
      (is : List dr.Instr)
      → length is ≡ n
      → (js : List dr.Instr) × (arrange dr is order 0 (replicate n none) ≡ ok (map some js))
        × Perm js is
  arrange-somes is size =
      let (out, e, whole, at, perm) = arrange_lem dr n order is_order small is size in
      let full = map-somes out (λ j below.
        let (i, hit) = is_order.hit j (omega (arith, whole)) in
        let (x, has) =
          get_elem?-some is i (omega (arith, lt_of_get_elem? order i hit, is_order.size)) in
        (x, at i j x has hit)) in
      (
        somes out,
        e ∙ ap ok full,
        subst (Perm (somes out)) (somes-map is) (Perm.filter_map (λ o. o) perm),
      )

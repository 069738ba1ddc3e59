-- ===== src/Base/Slots.antt =====
-- Arrays as lists, read and written with a fault out of bounds, and the exchange of two entries.
use Prim.Native.Nat.{ℕ, zero, suc, ◌<◌}
use mathlib.Core.Path.{refl, ap, ◌≡◌, subst, ◌∙◌}
use mathlib.Core.Option.{none, some}
use mathlib.Core.List.{◌++◌, List, [], ◌∷◌, Perm}
use mathlib.Core.List.Perm
use native.Mathlib.Omega.{arith}
use native.Mathlib.Decide.{ℕ_discrete}
use librave.Base.Tests.{ltb, if◌then◌else◌}
use librave.Base.Lists.{
  length, get_elem?, set, lt_of_get_elem?, get_elem?-set_self, get_elem?-set_ne,
}
use librave.Base.Faults.{Outcome, ok, fault}

module _ {ℓ} {A : Type ℓ} where
  unfoldable pub read : List A → ℕ → Outcome A
  read xs i = elim (get_elem? xs i) [ none ↦ fault | some x ↦ ok x ]

  unfoldable pub write : List A → ℕ → A → Outcome (List A)
  write xs i x = if ltb i (length xs) then ok (set xs i x) else fault

  pub read-ok : (xs : List A) (i : ℕ) {x : A} → get_elem? xs i ≡ some x → read xs i ≡ ok x
  unfolding read
  read-ok xs i e = rw (e, read)

  pub write-ok : (xs : List A) (i : ℕ) (x : A) → i < length xs → write xs i x ≡ ok (set xs i x)
  unfolding write
  write-ok xs i x h = ground arith

  -- Overwriting `a` by `v` trades one for the other.
  pub set-perm :
      (xs : List A) (i : ℕ) (a v : A) → get_elem? xs i ≡ some a → Perm (a ∷ set xs i v) (v ∷ xs)
  set-perm [] i a v e = absurd (cc)
  set-perm (x ∷ xs) zero a v e =
      Perm.trans (Perm.swap v a xs) (Perm.cons v (Perm.cons' (cc) Perm.rfl))
  set-perm (x ∷ xs) (suc i) a v e =
      Perm.trans (Perm.swap x a (set xs i v))
        (Perm.trans (Perm.cons x (set-perm xs i a v e)) (Perm.swap v x xs))

  get_elem?-set :
      (xs : List A) (i j : ℕ) (a b : A)
      → get_elem? xs i ≡ some a
      → get_elem? xs j ≡ some b
      → get_elem? (set xs i b) j ≡ some b
  get_elem?-set xs i j a b ei ej = elim (ℕ_discrete i j) [
    | yes same ↦
        subst (λ k. get_elem? (set xs i b) k ≡ some b) same
          (get_elem?-set_self xs i b (lt_of_get_elem? xs i ei))
    | no ne ↦ get_elem?-set_ne xs b ne ∙ ej
  ]

  -- Exchanging two entries permutes the array.
  pub set-set-perm :
      (xs : List A) (i j : ℕ) (a b : A)
      → get_elem? xs i ≡ some a
      → get_elem? xs j ≡ some b
      → Perm (set (set xs i b) j a) xs
  set-set-perm xs i j a b ei ej = Perm.cons_inv (
      Perm.trans (set-perm (set xs i b) j b a (get_elem?-set xs i j a b ei ej))
        (set-perm xs i a b ei))

-- Writing behind a list.
pub set-append :
    (done rest : List ℕ) (r v : ℕ)
    → set (done ++ r ∷ rest) (length done) v ≡ (done ++ v ∷ []) ++ rest
set-append [] rest r v = refl
set-append (d ∷ done) rest r v = ap (d ∷◌) (set-append done rest r v)

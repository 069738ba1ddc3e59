-- ===== src/Base/Orders.antt =====
-- Orders of `n` slots: lists that name every number below `n` once. A permutation of 0, 1, …,
-- `n` - 1 is one.
use mathlib.Core.Logic.Or
use mathlib.Core.List.{
  Mem, Nodup, Nodup-cons, Nodup-nil, mem-cons, mem-cons_self, mem-cons_of_mem, not-mem-nil,
}
use mathlib.Core.List.Perm
use native.Mathlib.Bridge.{le_prop}
use native.Mathlib.Decide.{ℕ_discrete}
use librave.Base.{
  ℕ, zero, suc, ◌+◌, ◌<◌, ◌≤◌, ◌≡◌, refl, ap, List, [], ◌∷◌, Perm, Option, some, arith, length,
  get_elem?, ◌==◌, if◌then◌else◌,
}

pub record IsOrder (n : ℕ) (order : List ℕ) : Type 0 where
  pub size : length order ≡ n
  pub below : (i o : ℕ) → get_elem? order i ≡ some o → o < n
  pub distinct : (i j o : ℕ) → get_elem? order i ≡ some o → get_elem? order j ≡ some o → i ≡ j
  pub hit : (o : ℕ) → o < n → (i : ℕ) × (get_elem? order i ≡ some o)

-- i, i + 1, … in `n` entries.
unfoldable pub count_up : ℕ → ℕ → List ℕ
count_up i zero = []
count_up i (suc n) = i ∷ count_up (i + 1) n

pub length-count_up : (i n : ℕ) → length (count_up i n) ≡ n
unfolding count_up
length-count_up i zero = refl
length-count_up i (suc n) = ap suc (length-count_up (i + 1) n)

-- The first place of a number, or the length.
pub position : ℕ → List ℕ → ℕ
position o [] = 0
position o (x ∷ xs) = if x == o then 0 else suc (position o xs)

pub get_elem?-position : (o : ℕ) (xs : List ℕ) → Mem o xs → get_elem? xs (position o xs) ≡ some o
unfolding position
get_elem?-position o [] m = absurd (not-mem-nil m)
get_elem?-position o (x ∷ xs) m =
    Or.elim (option_set _ _) (mem-cons.0 m) (λ e. ground arith)
      (λ m'. ground (arith, get_elem?-position o xs m'))
  where
    option_set : IsSet (Option ℕ)
    option_set = hlevel ℕ_discrete

mem-get_elem? : (xs : List ℕ) (i o : ℕ) → get_elem? xs i ≡ some o → Mem o xs
mem-get_elem? [] i o e = absurd (cc)
mem-get_elem? (x ∷ xs) zero o e = let same : o ≡ x = cc in rw same mem-cons_self
mem-get_elem? (x ∷ xs) (suc i) o e = mem-cons_of_mem x (mem-get_elem? xs i o e)

distinct-Nodup :
    (xs : List ℕ)
    → Nodup xs
    → (i j o : ℕ) → get_elem? xs i ≡ some o
    → get_elem? xs j ≡ some o
    → i ≡ j
distinct-Nodup [] d i j o ei ej = absurd (cc)
distinct-Nodup (x ∷ xs) d zero zero o ei ej = refl
distinct-Nodup (x ∷ xs) d zero (suc j) o ei ej =
    let same : x ≡ o = cc in absurd ((Nodup-cons.0 d).0 (rw same (mem-get_elem? xs j o ej)))
distinct-Nodup (x ∷ xs) d (suc i) zero o ei ej =
    let same : x ≡ o = cc in absurd ((Nodup-cons.0 d).0 (rw same (mem-get_elem? xs i o ei)))
distinct-Nodup (x ∷ xs) d (suc i) (suc j) o ei ej =
    ap suc (distinct-Nodup xs (Nodup-cons.0 d).1 i j o ei ej)

mem-count_up : (i n o : ℕ) → i ≤ o → o < i + n → Mem o (count_up i n)
unfolding count_up
mem-count_up i zero o h g = absurd (omega arith)
mem-count_up i (suc n) o h g = elim (ℕ_discrete o i) [
  | yes same ↦ rw same mem-cons_self
  | no ne ↦ mem-cons_of_mem i (mem-count_up (i + 1) n o (omega arith) (omega arith))
]

count_up-lt : (i n o : ℕ) → Mem o (count_up i n) → o < i + n
unfolding count_up
count_up-lt i zero o m = absurd (not-mem-nil m)
count_up-lt i (suc n) o m =
    Or.elim le_prop (mem-cons.0 m) (λ e. omega arith)
      (λ m'. omega (arith, count_up-lt (i + 1) n o m'))

count_up-ge : (i n o : ℕ) → Mem o (count_up i n) → i ≤ o
unfolding count_up
count_up-ge i zero o m = absurd (not-mem-nil m)
count_up-ge i (suc n) o m =
    Or.elim le_prop (mem-cons.0 m) (λ e. omega arith)
      (λ m'. omega (arith, count_up-ge (i + 1) n o m'))

count_up-Nodup : (i n : ℕ) → Nodup (count_up i n)
unfolding count_up
count_up-Nodup i zero = Nodup-nil
count_up-Nodup i (suc n) =
    Nodup-cons.1
      ((λ m. absurd (omega (arith, count_up-ge (i + 1) n i m))), count_up-Nodup (i + 1) n)

pub perm-IsOrder :
    (n : ℕ) (order : List ℕ) → Perm order (count_up 0 n) → length order ≡ n → IsOrder n order
perm-IsOrder n order p size = record {
  size = size;
  below =
      λ i o e. omega (arith, count_up-lt 0 n o ((Perm.mem_iff p).0 (mem-get_elem? order i o e)));
  distinct = distinct-Nodup order (Perm.nodup (Perm.symm p) (count_up-Nodup 0 n));
  hit = λ o h. (
    position o order,
    get_elem?-position o order
        ((Perm.mem_iff p).1 (mem-count_up 0 n o (omega arith) (omega arith))),
  );
}

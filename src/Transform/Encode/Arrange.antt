-- ===== src/Transform/Encode/Arrange.antt =====
-- The scatter `instrs[order[i]] = instr`: every slot is filled, with the instruction whose place in
-- the order is that slot.
use mathlib.Core.List.{perm_middle, perm_append_comm, perm-append_left_iff}
use mathlib.Core.List.Perm
use librave.Base.{
  ℕ, zero, suc, ◌+◌, ◌<◌, ◌≤◌, ◌^◌, ◌≡◌, ◌≢◌, refl, ◌∙◌, subst, Option, none, some, List, [], ◌∷◌,
  ◌++◌, map, Perm, arith, length, length-set, length-replicate, replicate, get_elem?-replicate,
  get_elem?, get_elem?-some, set, get_elem?-set_self, get_elem?-set_ne, sign_extend, ok,
}
use librave.Base.Slots.{read-ok, write-ok, set-perm}
use librave.Base.Orders.{IsOrder}
use librave.Transform.Encode.{arrange}
use librave.Transform.Dr.{Dr}

-- A list that holds, at each place that the order gives from `i` on, the instruction with that
-- number, and is as before at the other places.
pub record Placed {I : Type 0} (is : List I) (order : List ℕ) (i : ℕ) (before out : List (Option I))
    : Type 0 where
  pub size : length out ≡ length before
  pub placed :
      (k o : ℕ) (x : I)
      → get_elem? is k ≡ some x
      → get_elem? order (i + k) ≡ some o
      → get_elem? out o ≡ some (some x)
  pub others :
      (o : ℕ)
      → ((k : ℕ) → k < length is → get_elem? order (i + k) ≢ some o)
      → get_elem? out o ≡ get_elem? before o

-- The slots that are still to be written hold nothing yet.
abbrev pub IsFree : {I : Type 0} → ℕ → List ℕ → ℕ → List (Option I) → Type 0
IsFree m order i instrs =
    (k o : ℕ) → k < m → get_elem? order (i + k) ≡ some o → get_elem? instrs o ≡ some none

module _ {I : Type 0} (x : I) (is : List I) (order : List ℕ) (i o : ℕ)
    (eo : get_elem? order i ≡ some o) where
  Placed-cons :
      (before out : List (Option I))
      → get_elem? out o ≡ some (some x)
      → Placed is order (i + 1) before out
      → (k o' : ℕ) (y : I) → get_elem? (x ∷ is) k ≡ some y
      → get_elem? order (i + k) ≡ some o'
      → get_elem? out o' ≡ some (some y)
  Placed-cons before out here p zero o' y ey eo' =
      let at : i + 0 ≡ i = omega arith in
      let again : get_elem? order i ≡ some o' = rw at at eo' in
      let same : o' ≡ o = cc in let same_instr : y ≡ x = cc in rw (same, same_instr) here
  Placed-cons before out here p (suc k) o' y ey eo' =
      let at : i + suc k ≡ i + 1 + k = omega arith in p.placed k o' y ey (rw at at eo')

  others_cons :
      (before out : List (Option I))
      → Placed is order (i + 1) (set before o (some x)) out
      → (o' : ℕ) → ((k : ℕ) → k < suc (length is) → get_elem? order (i + k) ≢ some o')
      → get_elem? out o' ≡ get_elem? before o'
  others_cons before out p o' h =
      p.others o' (λ k hk e.
        let at : i + suc k ≡ i + 1 + k = omega arith in h (suc k) (omega arith) (rw at e))
      ∙ get_elem?-set_ne before (some x)
          (λ same. let at : i + 0 ≡ i = omega arith in h 0 (omega arith) (rw (at, eo, same) refl))

  perm_cons :
      (before out : List (Option I))
      → get_elem? before o ≡ some none
      → Perm (replicate (length is) none ++ out) (map some is ++ set before o (some x))
      → Perm (none ∷ replicate (length is) none ++ out) (some x ∷ map some is ++ before)
  perm_cons before out free p = Perm.trans (Perm.cons none p) (
      Perm.trans (Perm.symm (perm_middle (map some is) (set before o (some x)))) (
        Perm.trans (Perm.append_left (map some is) (set-perm before o none (some x) free))
          (perm_middle (map some is) before)))

arrange_round :
    (dr : Dr) (x : dr.Instr) (is : List dr.Instr) (order : List ℕ) (i o : ℕ)
    (instrs : List (Option dr.Instr))
    → get_elem? order i ≡ some o
    → o < length instrs
    → o < 2 ^ 31
    → arrange dr (x ∷ is) order i instrs ≡ arrange dr is order (i + 1) (set instrs o (some x))
unfolding arrange
arrange_round dr x is order i o instrs eo inside small =
    let index : sign_extend o ≡ o = ground arith in
    rw (read-ok order i eo, index, write-ok instrs o (some x) inside)

module _ (dr : Dr) (n : ℕ) (order : List ℕ) (is_order : IsOrder n order) (small : n ≤ 2 ^ 31) where
  arrange_from :
      (is : List dr.Instr) (i : ℕ) (instrs : List (Option dr.Instr))
      → i + length is ≡ n
      → length instrs ≡ n
      → IsFree (length is) order i instrs
      → (out : List (Option dr.Instr)) × (arrange dr is order i instrs ≡ ok out)
        × Placed is order i instrs out
        × Perm (replicate (length is) none ++ out) (map some is ++ instrs)
  unfolding arrange
  arrange_from [] i instrs e size free = (
    instrs,
    refl,
    record { size = refl; placed = λ k o x ex eo. absurd (cc); others = λ o h. refl },
    Perm.rfl,
  )
  arrange_from (x ∷ is) i instrs e size free =
      let (o, eo) = get_elem?-some order i (omega (arith, is_order.size)) in
      let inside = is_order.below i o eo in
      let filled = set instrs o (some x) in
      let later : (k o' : ℕ) → get_elem? order (i + 1 + k) ≡ some o' → o ≢ o' =
        λ k o' e' same. absurd (omega (arith, is_order.distinct i (i + 1 + k) o eo (rw same e'))) in
      let (out, run, p, perm) =
        arrange_from is (i + 1) filled (omega arith) (omega (arith, length-set instrs o (some x)))
          (λ k o' h e'.
            let at : i + suc k ≡ i + 1 + k = omega arith in
            get_elem?-set_ne instrs (some x) (later k o' e')
            ∙ free (suc k) o' (omega arith) (rw at e')) in
      let here : get_elem? out o ≡ some (some x) =
        p.others o (λ k h e'. later k o e' refl)
        ∙ get_elem?-set_self instrs o (some x) (omega arith) in
      let at : i + 0 ≡ i = omega arith in
      (
        out,
        arrange_round dr x is order i o instrs eo (omega arith) (omega arith) ∙ run,
        record {
          size = omega (arith, p.size, length-set instrs o (some x));
          placed = Placed-cons x is order i o eo filled out here p;
          others = others_cons x is order i o eo instrs out p;
        },
        perm_cons x is order i o eo instrs out (free 0 o (omega arith) (rw at eo)) perm,
      )

  -- The whole scatter, over slots that hold nothing.
  pub arrange_lem :
      (is : List dr.Instr)
      → length is ≡ n
      → (out : List (Option dr.Instr)) × (arrange dr is order 0 (replicate n none) ≡ ok out)
        × (length out ≡ n)
        × ((k o : ℕ) (x : dr.Instr)
            → get_elem? is k ≡ some x
            → get_elem? order k ≡ some o
            → get_elem? out o ≡ some (some x))
        × Perm out (map some is)
  arrange_lem is size =
      let (out, run, p, perm) =
        arrange_from is 0 (replicate n none) (omega arith) (length-replicate n none)
          (λ k o h e. get_elem?-replicate n none o (is_order.below k o (ground arith))) in
      let sized : length is ≡ n = size in
      (
        out,
        run,
        omega (arith, p.size, length-replicate {A = Option dr.Instr} n none),
        (λ k o x ex eo. p.placed k o x ex (let z : 0 + k ≡ k = omega arith in rw z eo)),
        (perm-append_left_iff (replicate n none)).0 (
            Perm.trans
              (subst (λ m. Perm (replicate m none ++ out) (map some is ++ replicate n none)) sized
                perm)
              (perm_append_comm (map some is) (replicate n none))),
      )

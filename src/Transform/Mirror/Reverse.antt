-- ===== src/Transform/Mirror/Reverse.antt =====
-- `is_epilogue` decides whether the popped registers are the pushed ones in reverse.
use mathlib.Core.List.{append_assoc, append-nil, reverse-cons, reverse-reverse}
use mathlib.Core.Path.{ap₂, subst₂}
use librave.Base.{
  ℕ, ◌+◌, ◌<◌, ◌≡◌, ◌↔◌, refl, sym, ap, ◌∙◌, subst, Bool, true, false, List, [], ◌∷◌, ◌++◌, map,
  some, reverse, arith, length, length-map, length-reverse, length-append, length-replicate,
  replicate, get_elem?, set, ◌==◌, ok, Bool-cases, inl, inr,
}
use librave.Base.Slots.{set-append, read, read-ok, write-ok}
use librave.Transform.Dr.{Dr}
use librave.Transform.Sets.{InstrSet}
use librave.Transform.Mirror.{push_regs, pop_regs, is_epilogue}

-- The count of a set is that of its instructions.
abbrev pub IsCounted : {I : Type 0} → InstrSet I → Type 0
IsCounted set = set.nr_instrs ≡ length set.instrs

-- What a set pushes, and what it pops, in order.
abbrev pub pushed : (dr : Dr) → InstrSet dr.Instr → List ℕ
pushed dr set = map dr.src_reg set.instrs

abbrev pub popped : (dr : Dr) → InstrSet dr.Instr → List ℕ
popped dr set = map dr.dst_reg set.instrs

get_elem?-append_at :
    (done rest : List ℕ) (r : ℕ) → get_elem? (done ++ r ∷ rest) (length done) ≡ some r
get_elem?-append_at [] rest r = refl
get_elem?-append_at (d ∷ done) rest r = get_elem?-append_at done rest r

module _ (dr : Dr) where
  push_regs_lem :
      (is : List dr.Instr) (done rest : List ℕ) (reg end : ℕ)
      → length rest ≡ length is
      → reg ≡ length done
      → end ≡ reg + length is
      → push_regs dr is (done ++ rest) reg ≡ ok (done ++ map dr.src_reg is, end)
  unfolding push_regs
  push_regs_lem [] done [] reg end e er ee = let ended : reg ≡ end = omega arith in rw ended
  push_regs_lem [] done (r ∷ rest) reg end e er ee = absurd (omega arith)
  push_regs_lem (i ∷ is) done [] reg end e er ee = absurd (omega arith)
  push_regs_lem (i ∷ is) done (r ∷ rest) reg end e er ee =
      let v = dr.src_reg i in
      let longer = length-append {0} done (v ∷ []) in
      let inside : length done < length (done ++ r ∷ rest) =
        omega (arith, length-append {0} done (r ∷ rest)) in
      rw (er, write-ok (done ++ r ∷ rest) (length done) v inside, set-append done rest r v)
        (push_regs_lem is (done ++ v ∷ []) rest (length done + 1) end (omega arith)
            (omega (arith, longer)) (omega arith)
          ∙ ap (λ l. ok (l, end)) (append_assoc done (v ∷ []) (map dr.src_reg is)))

  pop_regs_lem :
      (es : List dr.Instr) (qs tail : List ℕ)
      → length es ≡ length qs
      → (b : Bool) × (pop_regs dr es (reverse qs ++ tail) (length qs) ≡ ok b)
        × ((b ≡ true) ↔ (map dr.dst_reg es ≡ qs))
  unfolding pop_regs
  pop_regs_lem [] [] tail e = (true, refl, ((λ _. refl), (λ _. refl)))
  pop_regs_lem [] (q ∷ qs) tail e = absurd (omega arith)
  pop_regs_lem (i ∷ is) [] tail e = absurd (omega arith)
  pop_regs_lem (i ∷ is) (q ∷ qs) tail e =
      let regs_eq : reverse (q ∷ qs) ++ tail ≡ reverse qs ++ q ∷ tail =
        ap (λ l. l ++ tail) (reverse-cons q qs) ∙ append_assoc (reverse qs) (q ∷ []) tail in
      let at : read (reverse qs ++ q ∷ tail) (length qs) ≡ ok q = read-ok _ (length qs) (
        subst (λ n. get_elem? (reverse qs ++ q ∷ tail) n ≡ some q) (length-reverse qs)
          (get_elem?-append_at (reverse qs) tail q)) in
      let (b, run, iff) = pop_regs_lem is qs (q ∷ tail) (omega arith) in
      elim (Bool-cases (q == dr.dst_reg i)) [
        | inl same ↦ (
          b,
          rw (regs_eq, at, same) run,
          ((λ h. ap₂ ◌∷◌ (ground arith) (iff.0 h)), (λ h. iff.1 (cc))),
        )
        | inr differ ↦
            (false, rw (regs_eq, at, differ) refl, ((λ h. cc), (λ h. absurd (ground arith))))
      ]

-- For a prologue and a candidate whose counts are those of their instructions, `is_epilogue`
-- returns, without an access out of bounds, and says yes exactly when the registers that the
-- candidate pops, in order, are the registers that the prologue pushes, in reverse.
pub is_epilogue_iff :
    (dr : Dr) (pro epi : InstrSet dr.Instr)
    → IsCounted pro
    → IsCounted epi
    → (b : Bool) × (is_epilogue dr pro epi ≡ ok b)
      × ((b ≡ true) ↔ (popped dr epi ≡ reverse (pushed dr pro)))
unfolding is_epilogue
is_epilogue_iff dr pro epi cp ce =
    let ps = pushed dr pro in
    let n = pro.nr_instrs in
    elim (Bool-cases (n == epi.nr_instrs)) [
      | inr differ ↦ (
        false,
        rw differ refl,
        (
          (λ h. cc),
          (λ h. absurd (
              ground (
                arith,
                ap length h,
                length-map dr.src_reg pro.instrs,
                length-map dr.dst_reg epi.instrs,
                length-reverse ps,
              ))),
        ),
      )
      | inl same ↦
          let size : n ≡ length (reverse ps) =
            omega (arith, length-map dr.src_reg pro.instrs, length-reverse ps) in
          let (b, run, iff) =
            pop_regs_lem dr epi.instrs (reverse ps) []
              (ground (arith, length-map dr.src_reg pro.instrs, length-reverse ps)) in
          let pushes =
            push_regs_lem dr pro.instrs [] (replicate n 0) 0 n
              (omega (arith, length-replicate {A = ℕ} n 0)) refl (omega arith) in
          let regs : reverse (reverse ps) ++ [] ≡ ps = simp (reverse-reverse, append-nil) in
          let run' = subst₂ (λ rs k. pop_regs dr epi.instrs rs k ≡ ok b) regs (sym size) run in
          (b, rw (same, pushes) run', iff)
    ]

-- ===== src/Transform/Mirror.antt =====
-- `is_epilogue`: whether a set pops the registers that the prologue pushes, in reverse.
pub mod Reverse
use librave.Base.{
  ℕ, zero, suc, ◌+◌, Bool, true, false, not, List, [], ◌∷◌, replicate, ◌==◌, if◌then◌else◌, Outcome,
  ok, fault, ◌>>=◌,
}
use librave.Base.Slots.{read, write}
use librave.Transform.Dr.{Dr}
use librave.Transform.Sets.{InstrSet}

module _ (dr : Dr) where
  -- The first loop: `*reg++ = …` from index `reg` on.
  unfoldable pub push_regs : List dr.Instr → List ℕ → ℕ → Outcome (List ℕ × ℕ)
  push_regs [] regs reg = ok (regs, reg)
  push_regs (iter ∷ rest) regs reg =
      write regs reg (dr.src_reg iter) >>= λ regs'. push_regs rest regs' (reg + 1)

  -- The second loop: `reg` points one entry below the index `above`, at first the last one that
  -- was written.
  unfoldable pub pop_regs : List dr.Instr → List ℕ → ℕ → Outcome Bool
  pop_regs [] regs above = ok true
  pop_regs (iter ∷ rest) regs zero = fault
  pop_regs (iter ∷ rest) regs (suc reg) = read regs reg >>= λ r.
      let more = pop_regs rest regs reg in if not (r == dr.dst_reg iter) then ok false else more

  unfoldable pub is_epilogue : InstrSet dr.Instr → InstrSet dr.Instr → Outcome Bool
  unfolding push_regs pop_regs
  is_epilogue pro epi =
      if not (pro.nr_instrs == epi.nr_instrs)
      then ok false
      else (push_regs pro.instrs (replicate pro.nr_instrs 0) 0 >>= λ (regs, reg).
          pop_regs epi.instrs regs reg)

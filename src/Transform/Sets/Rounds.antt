-- ===== src/Transform/Sets/Rounds.antt =====
-- One round of the loop of `next_set`, case by case.
use librave.Base.{ℕ, suc, ◌≡◌, Bool, true, false, Option, none, some, ltb, add64, ok}
use librave.Errno.{Errno, success, etransform}
use librave.Transform.Dr.{Dr, Bytes}
use librave.Transform.Store.{destroy_instrs}
use librave.Transform.Sets.{
  Cursor, again, done, scanned, wanted, abandon, keep, pass, next_step, next_set_loop,
}

-- The cursor behind a decoded instruction.
abbrev pub moved : (dr : Dr) → Cursor dr.Instr → ℕ → dr.Instr → Cursor dr.Instr
moved dr c next instr = record c { walk = next; orig = add64 c.orig (dr.instr_length instr) }

module _ (dr : Dr) (bytes : Bytes) (max : ℕ) (test : Option (dr.Instr → Bool)) where
  pub loop_end :
      (fuel : ℕ) (c : Cursor dr.Instr)
      → ltb c.walk max ≡ false
      → next_set_loop dr (suc fuel) bytes max test c
        ≡ ok (scanned success (record c { store = destroy_instrs 1 c.store }))
  unfolding next_set_loop
  loop_end fuel c e = rw (e, next_set_loop)

  pub loop_done :
      (fuel : ℕ) (c c' : Cursor dr.Instr) (rc : Errno)
      → ltb c.walk max ≡ true
      → next_step dr bytes test c ≡ done rc c'
      → next_set_loop dr (suc fuel) bytes max test c ≡ ok (scanned rc c')
  unfolding next_set_loop
  loop_done fuel c c' rc e s = rw (e, next_set_loop, s)

  pub loop_again :
      (fuel : ℕ) (c c' : Cursor dr.Instr)
      → ltb c.walk max ≡ true
      → next_step dr bytes test c ≡ again c'
      → next_set_loop dr (suc fuel) bytes max test c ≡ next_set_loop dr fuel bytes max test c'
  unfolding next_set_loop
  loop_again fuel c c' e s = rw (e, next_set_loop, s)

  pub step_invalid :
      (c : Cursor dr.Instr)
      → dr.decode bytes c.walk c.orig ≡ none
      → next_step dr bytes test c ≡ done etransform (abandon dr true (record c { walk = 0 }))
  unfolding next_step
  step_invalid c e = rw (e, next_step)

  pub step_keep :
      (c : Cursor dr.Instr) (next : ℕ) (instr : dr.Instr)
      → dr.decode bytes c.walk c.orig ≡ some (next, instr)
      → wanted dr test instr ≡ true
      → next_step dr bytes test c ≡ keep dr instr (moved dr c next instr)
  unfolding next_step
  step_keep c next instr e t = rw (e, next_step, t)

  pub step_pass :
      (c : Cursor dr.Instr) (next : ℕ) (instr : dr.Instr)
      → dr.decode bytes c.walk c.orig ≡ some (next, instr)
      → wanted dr test instr ≡ false
      → next_step dr bytes test c ≡ pass dr (moved dr c next instr)
  unfolding next_step
  step_pass c next instr e t = rw (e, next_step, t)

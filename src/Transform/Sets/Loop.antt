-- ===== src/Transform/Sets/Loop.antt =====
-- `next_set` meets its specification, with fuel to spare.
use librave.Base.{
  ℕ, zero, suc, ◌-◌, ◌^◌, ◌<◌, ◌≡◌, refl, inl, inr, true, [], arith, ltb, Returns, Bool-cases,
  Option-cases, ◌==◌, ltb→lt, Returns-inv,
}
use mathlib.Core.Path.{◌∙◌}
use librave.Errno.{Errno, success, etransform, enomem}
use librave.Transform.Dr.{Dr, Bytes, Decodes}
use librave.Transform.Sets.{
  next_set_loop, Cursor, scanned, Step, again, done, wanted, abandon, next_step, next_set,
  instr_set_init,
}
use librave.Transform.Sets.Checked.{settled-lingers}
use librave.Transform.Store.{granted, with_instr}
use librave.Transform.Code.{none_yet}
use librave.Transform.Sets.Rounds.{
  loop_end, loop_done, loop_again, step_invalid, step_keep, step_pass,
}
use librave.Transform.Sets.Runs.{Test, at_end, Found, found, failed, not_started}
use librave.Transform.Sets.Branches.{Inv, keep-Inv, keep-failed, pass-Inv, pass-Found}

module _ (dr : Dr) (laws : Decodes dr) (bytes : Bytes) (max : ℕ) (small : max < 2 ^ 64)
    (test : Test dr) (w o held blocks : ℕ) where
  invalid-Found :
      (c : Cursor dr.Instr)
      → Inv dr laws bytes max small test w o held blocks c
      → Found dr bytes max test w o held blocks
          (scanned etransform (abandon dr true (record c { walk = 0 })))
  unfolding abandon
  invalid-Found c v = failed (λ e. cc) refl (omega (arith, v.holds)) v.kept

  abbrev Goal : ℕ → Cursor dr.Instr → Type 0
  Goal fuel c =
      Returns (Found dr bytes max test w o held blocks) (next_set_loop dr fuel bytes max test c)

  -- A round that goes on: the rest of the loop decides.
  round-again :
      (fuel : ℕ) (c c' : Cursor dr.Instr) (s : Step dr.Instr)
      → ltb c.walk max ≡ true
      → next_step dr bytes test c ≡ s
      → s ≡ again c'
      → Goal fuel c'
      → Goal (suc fuel) c
  round-again fuel c c' s more e1 e2 rest =
      rw (loop_again dr bytes max test fuel c c' more (e1 ∙ e2)) rest

  round-done :
      (fuel : ℕ) (c c' : Cursor dr.Instr) (rc : Errno) (s : Step dr.Instr)
      → ltb c.walk max ≡ true
      → next_step dr bytes test c ≡ s
      → s ≡ done rc c'
      → Found dr bytes max test w o held blocks (scanned rc c')
      → Goal (suc fuel) c
  round-done fuel c c' rc s more e1 e2 post =
      rw (loop_done dr bytes max test fuel c c' rc more (e1 ∙ e2)) post

  loop-Found :
      (fuel : ℕ) (c : Cursor dr.Instr)
      → Inv dr laws bytes max small test w o held blocks c
      → max - c.walk < fuel
      → Goal fuel c
  loop-Found zero c v enough = elim enough [ ]
  loop-Found (suc fuel) c v enough = elim (Bool-cases (ltb c.walk max)) [
    | inr over ↦ rw (loop_end dr bytes max test fuel c over) (
        found c.walk c.orig v.run (at_end (ground arith) refl refl) (omega (arith, v.holds)) v.kept)
    | inl more ↦ elim (Option-cases (dr.decode bytes c.walk c.orig)) [
      | inl bad ↦
          round-done fuel c _ etransform _ more (step_invalid dr bytes max test c bad) refl
            (invalid-Found c v)
      | inr ((next, instr), e) ↦
          let h = ltb→lt c.walk max more in
          let moves = laws.advances bytes c.walk c.orig next instr e in
          let takes = laws.nonempty bytes c.walk c.orig next instr e in
          elim (Bool-cases (wanted dr test instr)) [
            | inl t ↦
                let e1 = step_keep dr bytes max test c next instr e t in
                elim (Bool-cases (granted c.store)) [
                  | inl g ↦
                      let (c', e2, v', at) =
                        keep-Inv dr laws bytes max small test w o held blocks c next instr v h e t
                          g in
                      round-again fuel c c' _ more e1 e2
                        (loop-Found fuel c' v' (omega (arith, moves, takes)))
                  | inr g ↦
                      let (c', e2, post) =
                        keep-failed dr laws bytes max small test w o held blocks c next instr v g in
                      round-done fuel c c' enomem _ more e1 e2 post
                ]
            | inr t ↦
                let e1 = step_pass dr bytes max test c next instr e t in
                elim (Bool-cases (c.set.nr_instrs == 0)) [
                  | inl z ↦
                      let (c', e2, v', at) =
                        pass-Inv dr laws bytes max small test w o held blocks c next instr v e t
                          z in
                      round-again fuel c c' _ more e1 e2
                        (loop-Found fuel c' v' (omega (arith, moves, takes)))
                  | inr z ↦
                      let (c', e2, post) =
                        pass-Found dr laws bytes max small test w o held blocks c next instr v h e t
                          z in
                      round-done fuel c c' success _ more e1 e2 post
                ]
          ]
    ]
  ]

-- `next_set` always ends, with fuel to spare. On success the set is the first run of consecutive
-- instructions that pass the test, as long as it can be within the bytes, with its count and its
-- addresses; the cursor stands at the end of the bytes or behind the one instruction that ended the
-- run; and the objects that are held are those of the set. On failure, at an instruction that does
-- not decode or a request for memory that is refused, the set holds no instruction and every object
-- is given back; if it is the first request that is refused, the set is not touched. The links of
-- destroyed instructions can still be read.
pub next_set-Found :
    (dr : Dr) (laws : Decodes dr) (bytes : Bytes) (max : ℕ) (test : Test dr) (c : Cursor dr.Instr)
    → max < 2 ^ 64
    → Returns
        (Found dr bytes max test c.walk c.orig c.store.instrs c.store.blocks)
        (next_set dr bytes max test c)
unfolding next_set instr_set_init
next_set-Found dr laws bytes max test c small = elim (Bool-cases (granted c.store)) [
  | inr g ↦ rw (g) (not_started refl refl)
  | inl g ↦
      let start = record c { set = instr_set_init c.set c.orig; store = with_instr c.store } in
      let (r, e, f) =
        Returns-inv (Found dr bytes max test c.walk c.orig c.store.instrs c.store.blocks)
          (next_set_loop dr (suc (max - c.walk)) bytes max test start)
          (loop-Found dr laws bytes max small test c.walk c.orig c.store.instrs c.store.blocks
            (suc (max - c.walk)) start
            (record {
              run = record {
                skipped = [];
                w₁ = c.walk;
                before = none_yet;
                fails = tt;
                run = none_yet;
                passes = tt;
                counted = refl;
                ends = refl;
              };
              holds = omega arith;
              kept = refl;
            })
            (omega arith)) in
      rw (g, e, settled-lingers dr c.store r laws.lingers) f
]

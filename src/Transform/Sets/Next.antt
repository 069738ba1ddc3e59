-- ===== src/Transform/Sets/Next.antt =====
-- What the callers of `next_set` use of it.
use librave.Base.{
  ℕ, ◌+◌, ◌-◌, ◌<◌, ◌≤◌, ◌^◌, ◌≡◌, ◌≢◌, inl, inr, sym, subst, false, length, arith, ok, Returns-inv,
}
use librave.Errno.{Errno, success}
use librave.Transform.Dr.{Dr, Bytes, Decodes}
use librave.Transform.Store.{granted, refused}
use librave.Transform.Code.{Code-length, Code-total}
use librave.Transform.Sets.{InstrSet, Cursor, Scan, unstarted, scanned, next_set}
use librave.Transform.Sets.Runs.{Test, IsRun, Stops, at_end, at_other, Found, found, failed}
use librave.Transform.Sets.Loop.{next_set-Found}
use librave.Transform.Sets.Grants.{next_set-grants}
use librave.Transform.Mirror.Reverse.{IsCounted}

-- A set that stands between two addresses, with a byte or more for each instruction.
pub record IsWithin {I : Type 0} (low high : ℕ) (set : InstrSet I) : Type 0 where
  pub starts : low ≤ set.start
  pub sized : set.start + set.nr_instrs ≤ set.end
  pub ends : set.end ≤ high

module _ (dr : Dr) where
  -- The addresses that a cursor has passed, unless they wrap, hold its set.
  abbrev pub Passing : Cursor dr.Instr → Cursor dr.Instr → Type 0
  Passing c c' =
      c.orig + (c'.walk - c.walk) < 2 ^ 64 → IsWithin c.orig (c.orig + (c'.walk - c.walk)) c'.set

  -- Either the first request is refused; or the cursor moves on, by more bytes than the set has
  -- instructions, which stand in the addresses passed; or the search fails. What is granted does not
  -- change.
  pub data Next (c : Cursor dr.Instr) : Scan dr.Instr → Type 0 where
    unasked : granted c.store ≡ false → Next c (unstarted (refused c.store))
    run :
        {c' : Cursor dr.Instr}
        → IsCounted c'.set
        → c.walk < c'.walk
        → c.walk + length c'.set.instrs ≤ c'.walk
        → Passing c c'
        → c'.store.grants ≡ c.store.grants
        → Next c (scanned success c')
    stopped :
        {rc : Errno} {c' : Cursor dr.Instr}
        → rc ≢ success
        → c'.store.grants ≡ c.store.grants
        → Next c (scanned rc c')

module _ (dr : Dr) (laws : Decodes dr) (bytes : Bytes) (max : ℕ) (test : Test dr) where
  advanced :
      (c c' : Cursor dr.Instr) (w₂ o₂ : ℕ)
      → c.walk < max
      → IsRun dr bytes test c.walk c.orig c'.set w₂ o₂
      → Stops dr bytes max test c'.set w₂ o₂ c'.walk c'.orig
      → (c.walk < c'.walk) × (c.walk + length c'.set.instrs ≤ c'.walk)
  advanced c c' w₂ o₂ h r (at_end e w o) =
      let before = Code-length dr laws bytes r.before in
      let behind = Code-length dr laws bytes r.run in
      (omega (arith, before, behind, w), omega (arith, before, behind, w))
  advanced c c' w₂ o₂ h r (at_other instr below e o fails some_run) =
      let before = Code-length dr laws bytes r.before in
      let behind = Code-length dr laws bytes r.run in
      let step = laws.advances bytes w₂ o₂ c'.walk instr e in
      (omega (arith, before, behind, step, some_run), omega (arith, before, behind, step))

  stopped_behind :
      (c' : Cursor dr.Instr) (w₂ o₂ : ℕ)
      → Stops dr bytes max test c'.set w₂ o₂ c'.walk c'.orig
      → w₂ ≤ c'.walk
  stopped_behind c' w₂ o₂ (at_end e w o) = omega (arith, w)
  stopped_behind c' w₂ o₂ (at_other instr below e o fails some_run) =
      omega (arith, laws.advances bytes w₂ o₂ c'.walk instr e)

  passing :
      (c c' : Cursor dr.Instr) (w₂ o₂ : ℕ)
      → IsRun dr bytes test c.walk c.orig c'.set w₂ o₂
      → Stops dr bytes max test c'.set w₂ o₂ c'.walk c'.orig
      → Passing dr c c'
  passing c c' w₂ o₂ r s short =
      let (walked, started) = Code-total dr laws bytes (omega arith) r.before in
      let (walked', ended) = Code-total dr laws bytes (omega (arith, started)) r.run in
      let behind = stopped_behind c' w₂ o₂ s in
      let each = Code-length dr laws bytes r.run in
      record {
        starts = omega (arith, walked, walked', started, behind);
        sized = omega (arith, walked, walked', started, ended, behind, each, r.counted, r.ends);
        ends = omega (arith, walked, walked', started, ended, behind, r.ends);
      }

  started-Next :
      (c c' : Cursor dr.Instr) (rc : Errno)
      → c.walk < max
      → Found dr bytes max test c.walk c.orig c.store.instrs c.store.blocks (scanned rc c')
      → c'.store.grants ≡ c.store.grants
      → Next dr c (scanned rc c')
  started-Next c c' rc h (found w₂ o₂ r s i b) grants =
      let (moved, sized) = advanced c c' w₂ o₂ h r s in
      run r.counted moved sized (passing c c' w₂ o₂ r s) grants
  started-Next c c' rc h (failed ne n i b) grants = stopped ne grants

  pub next_set-Next :
      (c : Cursor dr.Instr)
      → max < 2 ^ 64
      → c.walk < max
      → (r : Scan dr.Instr) × (next_set dr bytes max test c ≡ ok r) × Next dr c r
  next_set-Next c small h =
      let (r, e, f) =
        Returns-inv (Found dr bytes max test c.walk c.orig c.store.instrs c.store.blocks)
          (next_set dr bytes max test c) (next_set-Found dr laws bytes max test c small) in
      (
        r,
        e,
        elim (next_set-grants dr bytes max test c r e) [
          | inl (g, same) ↦ subst (Next dr c) (sym same) (unasked g)
          | inr (rc, c', same, grants) ↦ subst (Next dr c) (sym same) (
              started-Next c c' rc h
                (subst (Found dr bytes max test c.walk c.orig c.store.instrs c.store.blocks) same f)
                grants)
        ],
      )

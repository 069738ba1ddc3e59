-- ===== src/Transform/Add/Drift.antt =====
-- How far the original address runs ahead of the walk in the search for epilogues.
use librave.Base.{
  ℕ, ◌+◌, ◌%◌, ◌<◌, ◌^◌, ◌≡◌, refl, inl, inr, Bool, true, false, some, arith, ok, Returns-inv,
  bind-inv, Bool-cases, add64, sub64,
}
use librave.Errno.{success, is_success, is_success_iff}
use librave.Transform.Dr.{Dr, Bytes, Decodes}
use librave.Transform.Chains.{Chains}
use librave.Transform.Store.{granted}
use librave.Transform.Code.{total, Code-total}
use librave.Transform.Sets.{
  InstrSet, instr_set_close, Cursor, Scan, unstarted, scanned, test_instr_epilogue, next_set,
}
use librave.Transform.Sets.Runs.{IsRun, Stops, at_end, at_other, Found, found, failed, not_started}
use librave.Transform.Sets.Loop.{next_set-Found}
use librave.Transform.Mirror.{is_epilogue}
use librave.Transform.Add.{holding, content, Search, again, judge, after_scan, search_step}

-- The original address is `d` bytes ahead of where the walk stands in a function whose original
-- addresses are `base` above the local ones.
abbrev pub Ahead : {I : Type 0} {Head : Type 0 → Type 0} → ℕ → ℕ → Search I Head → Type 0
Ahead base d s = s.orig ≡ (base + s.walk + d) % 2 ^ 64

forward :
    (b d w o k w' o' : ℕ)
    → o ≡ (b + w + d) % 2 ^ 64
    → w' ≡ w + k
    → o' ≡ (o + k) % 2 ^ 64
    → o' ≡ (b + w' + d) % 2 ^ 64
forward b d w o k w' o' e moved jumped = omega arith

span : (a t : ℕ) → a < 2 ^ 64 → sub64 ((a + t) % 2 ^ 64) a ≡ t % 2 ^ 64
span a t h = omega arith

twice :
    (b w d t o : ℕ) → o ≡ (b + w + d) % 2 ^ 64 → add64 o (t % 2 ^ 64) ≡ (b + w + (d + t)) % 2 ^ 64
twice b w d t o e = omega arith

module _ (dr : Dr) (laws : Decodes dr) (chains : Chains) (bytes : Bytes) (end : ℕ)
    (pro : InstrSet dr.Instr) where
  -- Judging a set moves nothing.
  judge_still :
      (b : Bool) (set : InstrSet dr.Instr) (s s' : Search dr.Instr chains.Head)
      → judge dr chains b set s ≡ again s'
      → (s'.walk ≡ s.walk) × (s'.orig ≡ s.orig)
  unfolding judge instr_set_close
  judge_still false set s s' e = (cc, cc)
  judge_still true set s s' e = elim (Bool-cases (granted s.store)) [
    | inl g ↦ let e' = rw (g) at e in (cc, cc)
    | inr g ↦ let e' = rw (g) at e in absurd (cc)
  ]

  stopped_at :
      (c : Cursor dr.Instr) (w₂ o₂ base d : ℕ)
      → o₂ ≡ (base + w₂ + d) % 2 ^ 64
      → Stops dr bytes end (some (test_instr_epilogue dr)) c.set w₂ o₂ c.walk c.orig
      → c.orig ≡ (base + c.walk + d) % 2 ^ 64
  stopped_at c w₂ o₂ base d last (at_end e w o) = omega (arith, w, o, last)
  stopped_at c w₂ o₂ base d last (at_other instr below e o fails some_run) =
      forward base d w₂ o₂ (dr.instr_length instr) c.walk c.orig last
        (laws.advances bytes w₂ o₂ c.walk instr e) o

  -- The walk and the address behind a run that was found.
  run_moved :
      (s : Search dr.Instr chains.Head) (c : Cursor dr.Instr) (base d w₂ o₂ : ℕ)
      → Ahead base d s
      → IsRun dr bytes (some (test_instr_epilogue dr)) s.walk s.orig c.set w₂ o₂
      → Stops dr bytes end (some (test_instr_epilogue dr)) c.set w₂ o₂ c.walk c.orig
      → add64 c.orig (sub64 c.set.end c.set.start)
        ≡ (base + c.walk + (d + total dr c.set.instrs)) % 2 ^ 64
  run_moved s c base d w₂ o₂ ahead r stops =
      let (walked, started) = Code-total dr laws bytes (omega arith) r.before in
      let (walked', ended) = Code-total dr laws bytes (omega arith) r.run in
      let k = total dr r.skipped in
      let t = total dr c.set.instrs in
      let first = forward base d s.walk s.orig k r.w₁ c.set.start ahead walked started in
      let last = forward base d r.w₁ c.set.start t w₂ o₂ first walked' ended in
      let size : sub64 c.set.end c.set.start ≡ t % 2 ^ 64 =
        rw (r.ends, ended) (span c.set.start t (omega (arith, started))) in
      rw size (twice base c.walk d t c.orig (stopped_at c w₂ o₂ base d last stops))

  after_scan-Ahead :
      (s s' : Search dr.Instr chains.Head) (base d : ℕ) (r : Scan dr.Instr)
      → Ahead base d s
      → Found dr bytes end
          (some (test_instr_epilogue dr))
          s.walk
          s.orig
          s.store.instrs
          s.store.blocks
          r
      → after_scan dr chains pro s r ≡ ok (again s')
      → (set : InstrSet dr.Instr) × (w₂ o₂ o₃ : ℕ) × IsRun dr bytes
          (some (test_instr_epilogue dr))
          s.walk
          s.orig
          set
          w₂
          o₂
        × Stops dr bytes end (some (test_instr_epilogue dr)) set w₂ o₂ s'.walk o₃
        × Ahead base (d + total dr set.instrs) s'
  unfolding after_scan
  after_scan-Ahead s s' base d (unstarted store) ahead (not_started i b) e = absurd (cc)
  after_scan-Ahead s s' base d (scanned rc c) ahead (failed ne n i b) e =
      elim (Bool-cases (is_success rc)) [
        | inl t ↦ absurd (ne ((is_success_iff rc).0 t))
        | inr t ↦ let e' = rw (t) at e in absurd (cc)
      ]
  after_scan-Ahead s s' base d (scanned success c) ahead (found w₂ o₂ run stops i b) e =
      let s'' : Search dr.Instr chains.Head = record {
        walk = c.walk;
        orig = add64 c.orig (sub64 c.set.end c.set.start);
        set = holding c.set;
        epilogues = s.epilogues;
        store = c.store;
      } in
      let (verdict, said, judged) =
        bind-inv (is_epilogue dr pro c.set) (λ v. ok (judge dr chains v c.set s''))
          (rw ((is_success_iff success).1 refl) at e) in
      let (walk, orig) = judge_still verdict c.set s'' s' (cc) in
      let ahead' = run_moved s c base d w₂ o₂ ahead run stops in
      (c.set, w₂, o₂, c.orig, run, rw (walk) stops, rw (orig, walk) ahead')

  -- From an address that is `d` bytes ahead of the walk, a round that goes on has found the maximal
  -- run of instructions that stops where the walk now stands, and leaves the address ahead by the
  -- bytes of that run besides.
  -- The links of destroyed instructions can still be read.
  pub search_step-Ahead :
      (s s' : Search dr.Instr chains.Head) (base d : ℕ)
      → end < 2 ^ 64
      → Ahead base d s
      → search_step dr chains bytes end pro s ≡ ok (again s')
      → (set : InstrSet dr.Instr) × (w₂ o₂ o₃ : ℕ) × IsRun dr bytes
          (some (test_instr_epilogue dr))
          s.walk
          s.orig
          set
          w₂
          o₂
        × Stops dr bytes end (some (test_instr_epilogue dr)) set w₂ o₂ s'.walk o₃
        × Ahead base (d + total dr set.instrs) s'
  unfolding search_step
  search_step-Ahead s s' base d small ahead e =
      let c : Cursor dr.Instr = record {
        walk = s.walk;
        orig = s.orig;
        set = content s.set;
        store = s.store;
      } in
      let (r, scan, f) =
        Returns-inv
          (Found dr bytes end (some (test_instr_epilogue dr)) c.walk c.orig c.store.instrs
            c.store.blocks)
          (next_set dr bytes end (some (test_instr_epilogue dr)) c)
          (next_set-Found dr laws bytes end (some (test_instr_epilogue dr)) c small) in
      after_scan-Ahead s s' base d r ahead f (rw (scan) at e)

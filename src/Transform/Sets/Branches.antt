-- ===== src/Transform/Sets/Branches.antt =====
-- The invariant of the loop of `next_set`, through the branches of its body.
use librave.Base.{
  ℕ, ◌+◌, ◌^◌, ◌<◌, ◌≤◌, ◌≡◌, refl, true, false, some, [], ◌∷◌, ◌++◌, arith, length, length-append,
  All-append, add64, ◌==◌,
}
use mathlib.Core.Path.{subst₂, sym}
use librave.Errno.{success, enomem}
use librave.Transform.Dr.{Dr, Bytes, Decodes}
use librave.Transform.Store.{granted, refused, with_instr, destroy_instrs, destroy_list}
use librave.Transform.Code.{Code, then_one, Code-length, Code-nil, Code-of_none}
use librave.Transform.Sets.{Cursor, scanned, again, done, wanted, keep, pass}
use librave.Transform.Sets.Rounds.{moved}
use librave.Transform.Sets.Runs.{Test, IsRun, at_other, Found, found, failed}

module _ (dr : Dr) (laws : Decodes dr) (bytes : Bytes) (max : ℕ) (small : max < 2 ^ 64)
    (test : Test dr) (w o held blocks : ℕ) where
  -- What holds before each round, with the object for the next instruction in hand.
  pub record Inv (c : Cursor dr.Instr) : Type 0 where
    pub run : IsRun dr bytes test w o c.set c.walk c.orig
    pub holds : c.store.instrs ≡ held + length c.set.instrs + 1
    pub kept : c.store.blocks ≡ blocks

  run_length : {c : Cursor dr.Instr} → Inv c → length c.set.instrs ≤ c.walk
  run_length v = omega (arith, Code-length dr laws bytes v.run.run)

  pub keep-Inv :
      (c : Cursor dr.Instr) (next : ℕ) (instr : dr.Instr)
      → Inv c
      → c.walk < max
      → dr.decode bytes c.walk c.orig ≡ some (next, instr)
      → wanted dr test instr ≡ true
      → granted c.store ≡ true
      → (c' : Cursor dr.Instr) × (keep dr instr (moved dr c next instr) ≡ again c')
        × Inv c'
        × (c'.walk ≡ next)
  unfolding keep
  keep-Inv c next instr v h e t g =
      let is = c.set.instrs in
      (
        record {
          walk = next;
          orig = add64 c.orig (dr.instr_length instr);
          set = record {
            start = c.set.start;
            end = add64 c.orig (dr.instr_length instr);
            nr_instrs = add64 c.set.nr_instrs 1;
            instrs = is ++ instr ∷ [];
          };
          store = with_instr c.store;
        },
        rw g,
        record {
          run = record {
            skipped = v.run.skipped;
            w₁ = v.run.w₁;
            before = v.run.before;
            fails = v.run.fails;
            run = then_one instr v.run.run e refl refl;
            passes = All-append _ is (instr ∷ []) v.run.passes (t, tt);
            counted = omega (arith, v.run.counted, length-append {0} is (instr ∷ []), run_length v);
            ends = refl;
          };
          holds = omega (arith, v.holds, length-append {0} is (instr ∷ []));
          kept = v.kept;
        },
        refl,
      )

  pub keep-failed :
      (c : Cursor dr.Instr) (next : ℕ) (instr : dr.Instr)
      → Inv c
      → granted c.store ≡ false
      → (c' : Cursor dr.Instr) × (keep dr instr (moved dr c next instr) ≡ done enomem c')
        × Found dr bytes max test w o held blocks (scanned enomem c')
  unfolding keep
  keep-failed c next instr v g =
      let is = c.set.instrs in
      (
        record {
          walk = next;
          orig = add64 c.orig (dr.instr_length instr);
          set = record {
            start = c.set.start;
            end = add64 c.orig (dr.instr_length instr);
            nr_instrs = add64 c.set.nr_instrs 1;
            instrs = [];
          };
          store = destroy_list (length (is ++ instr ∷ [])) (refused c.store);
        },
        rw g,
        failed (λ e. cc) refl (omega (arith, v.holds, length-append {0} is (instr ∷ []))) v.kept,
      )

  -- An instruction that fails the test before the run has begun is skipped.
  pub pass-Inv :
      (c : Cursor dr.Instr) (next : ℕ) (instr : dr.Instr)
      → Inv c
      → dr.decode bytes c.walk c.orig ≡ some (next, instr)
      → wanted dr test instr ≡ false
      → (c.set.nr_instrs == 0) ≡ true
      → (c' : Cursor dr.Instr) × (pass dr (moved dr c next instr) ≡ again c')
        × Inv c'
        × (c'.walk ≡ next)
  unfolding pass
  pass-Inv c next instr v e t empty =
      let o' = add64 c.orig (dr.instr_length instr) in
      let none_kept : length c.set.instrs ≡ 0 = ground (arith, v.run.counted) in
      let (same_walk, same_orig) = Code-nil v.run.run none_kept in
      let reached =
        subst₂ (λ w' o'. Code dr bytes w o v.run.skipped w' o') (sym same_walk) (sym same_orig)
          v.run.before in
      (
        record {
          walk = next;
          orig = o';
          set = record (c.set) { start = o'; end = o' };
          store = c.store;
        },
        rw empty,
        record {
          run = record {
            skipped = v.run.skipped ++ instr ∷ [];
            w₁ = next;
            before = then_one instr reached e refl refl;
            fails = All-append _ v.run.skipped (instr ∷ []) v.run.fails (t, tt);
            run = Code-of_none c.set.instrs none_kept;
            passes = v.run.passes;
            counted = v.run.counted;
            ends = refl;
          };
          holds = v.holds;
          kept = v.kept;
        },
        refl,
      )

  pub pass-Found :
      (c : Cursor dr.Instr) (next : ℕ) (instr : dr.Instr)
      → Inv c
      → c.walk < max
      → dr.decode bytes c.walk c.orig ≡ some (next, instr)
      → wanted dr test instr ≡ false
      → (c.set.nr_instrs == 0) ≡ false
      → (c' : Cursor dr.Instr) × (pass dr (moved dr c next instr) ≡ done success c')
        × Found dr bytes max test w o held blocks (scanned success c')
  unfolding pass
  pass-Found c next instr v h e t some_kept = (
    record (moved dr c next instr) { store = destroy_instrs 1 c.store },
    rw some_kept,
    found c.walk c.orig v.run (at_other instr h e refl t (ground (arith, v.run.counted)))
        (omega (arith, v.holds)) v.kept,
  )

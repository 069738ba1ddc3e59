-- ===== src/Transform/Sets/Runs.antt =====
-- What a search for a run of instructions finds: the specification of `next_set`.
use librave.Base.{
  ℕ, ◌+◌, ◌<◌, ◌≤◌, ◌≡◌, ◌≢◌, Bool, true, false, Option, some, List, [], length, All, add64,
}
use librave.Errno.{Errno, success}
use librave.Transform.Dr.{Dr, Bytes}
use librave.Transform.Store.{Store}
use librave.Transform.Code.{Code}
use librave.Transform.Sets.{InstrSet, Cursor, Scan, unstarted, scanned, wanted}

abbrev pub Test : Dr → Type 0
Test dr = Option (dr.Instr → Bool)

abbrev pub Passes : (dr : Dr) → Test dr → List dr.Instr → Type 0
Passes dr test = All (λ i. wanted dr test i ≡ true)

abbrev pub Fails : (dr : Dr) → Test dr → List dr.Instr → Type 0
Fails dr test = All (λ i. wanted dr test i ≡ false)

-- From pointer `w` and address `o`, instructions that fail the test lead to `(w₁, o₁)`, and then
-- instructions that pass it, which are those of the set, lead to `(w₂, o₂)`. The set holds their
-- count and their addresses.
pub record IsRun (dr : Dr) (bytes : Bytes) (test : Test dr) (w o : ℕ) (set : InstrSet dr.Instr)
    (w₂ o₂ : ℕ) : Type 0 where
  pub skipped : List dr.Instr
  pub w₁ : ℕ
  pub before : Code dr bytes w o skipped w₁ set.start
  pub fails : Fails dr test skipped
  pub run : Code dr bytes w₁ set.start set.instrs w₂ o₂
  pub passes : Passes dr test set.instrs
  pub counted : set.nr_instrs ≡ length set.instrs
  pub ends : set.end ≡ o₂

-- How the search stops behind a run: at the end of the bytes, or at an instruction that fails the
-- test and is passed over, which needs a run that is not empty.
pub data Stops (dr : Dr) (bytes : Bytes) (max : ℕ) (test : Test dr) (set : InstrSet dr.Instr)
    (w₂ o₂ w' o' : ℕ) : Type 0 where
  at_end : max ≤ w₂ → w' ≡ w₂ → o' ≡ o₂ → Stops dr bytes max test set w₂ o₂ w' o'
  at_other :
      (instr : dr.Instr)
      → w₂ < max
      → dr.decode bytes w₂ o₂ ≡ some (w', instr)
      → o' ≡ add64 o₂ (dr.instr_length instr)
      → wanted dr test instr ≡ false
      → 0 < length set.instrs
      → Stops dr bytes max test set w₂ o₂ w' o'

-- Success: a maximal run, whose objects are all that the search still holds. Failure: nothing held.
pub data Found (dr : Dr) (bytes : Bytes) (max : ℕ) (test : Test dr) (w o held blocks : ℕ)
    : Scan dr.Instr → Type 0 where
  found :
      {c : Cursor dr.Instr} (w₂ o₂ : ℕ)
      → IsRun dr bytes test w o c.set w₂ o₂
      → Stops dr bytes max test c.set w₂ o₂ c.walk c.orig
      → c.store.instrs ≡ held + length c.set.instrs
      → c.store.blocks ≡ blocks
      → Found dr bytes max test w o held blocks (scanned success c)
  failed :
      {rc : Errno} {c : Cursor dr.Instr}
      → rc ≢ success
      → c.set.instrs ≡ []
      → c.store.instrs ≡ held
      → c.store.blocks ≡ blocks
      → Found dr bytes max test w o held blocks (scanned rc c)
  not_started :
      {store : Store}
      → store.instrs ≡ held
      → store.blocks ≡ blocks
      → Found dr bytes max test w o held blocks (unstarted store)

-- ===== src/Transform/Sets.antt =====
-- `struct instr_set`, and `next_set`: the next run of consecutive instructions that pass a test.
-- `test_instr_prologue` and `test_instr_epilogue` are the tests.
pub mod Rounds
pub mod Runs
pub mod Branches
pub mod Loop
pub mod Grants
pub mod Next
pub mod Checked
use librave.Base.{
  ℕ, zero, suc, ◌-◌, Bool, true, false, not, Option, none, some, List, [], ◌∷◌, ◌++◌, length, ltb,
  ◌==◌, if◌then◌else◌, add64, Outcome, ok, fault, out_of_fuel, ◌>>=◌,
}
use librave.Errno.{Errno, success, etransform, enomem}
use librave.Transform.Dr.{Dr, Bytes}
use librave.Transform.Store.{Store, granted, refused, with_instr, destroy_instrs, destroy_list}

-- The list node of the C struct is the list's affair.
pub record InstrSet (I : Type 0) : Type 0 where
  pub start : ℕ
  pub end : ℕ
  pub nr_instrs : ℕ
  pub instrs : List I

unfoldable pub instr_set_init : {I : Type 0} → InstrSet I → ℕ → InstrSet I
instr_set_init self orig = record self { start = orig; end = orig; nr_instrs = 0; instrs = [] }

-- Destroys each instruction before it reads where the next one is; the count of them stays.
unfoldable pub instr_set_close : {I : Type 0} → InstrSet I → Store → InstrSet I × Store
instr_set_close self store = (record self { instrs = [] }, destroy_list (length self.instrs) store)

-- The variables of `next_set` behind its pointers, while `instr` is a live object.
pub record Cursor (I : Type 0) : Type 0 where
  pub walk : ℕ
  pub orig : ℕ
  pub set : InstrSet I
  pub store : Store

-- One round of the loop either goes on or leaves with a code.
pub data Step (I : Type 0) : Type 0 where
  again : Cursor I → Step I
  done : Errno → Cursor I → Step I

-- What `next_set` comes back with: either the very first request for memory was refused, and nothing
-- behind its pointers is touched, or a code and the variables.
pub data Scan (I : Type 0) : Type 0 where
  unstarted : Store → Scan I
  scanned : Errno → Cursor I → Scan I

-- A call, from one store to another, that may have read the links of destroyed instructions. The
-- outcome of such a read is `fault`, unless the machine lets it through.
unfoldable pub checked : {A : Type 0} → Dr → Store → Store → A → Outcome A
checked dr before after result =
    if dr.lingers then ok result else if after.stale == before.stale then ok result else fault

-- `next_set`, back at its caller.
abbrev pub settled : (dr : Dr) → Store → Scan dr.Instr → Outcome (Scan dr.Instr)
settled dr before (unstarted store) = ok (unstarted store)
settled dr before (scanned rc c) = checked dr before c.store (scanned rc c)

module _ (dr : Dr) where
  unfoldable pub test_instr_prologue : dr.Instr → Bool
  test_instr_prologue instr =
      if not (dr.get_opcode instr == dr.op_push)
      then false
      else if dr.src_reg instr == dr.reg_rbp
      then false
      else true

  unfoldable pub test_instr_epilogue : dr.Instr → Bool
  test_instr_epilogue instr =
      if not (dr.get_opcode instr == dr.op_pop)
      then false
      else if dr.dst_reg instr == dr.reg_rbp
      then false
      else true

  -- `NULL == test_instr || test_instr(instr)`
  abbrev pub wanted : Option (dr.Instr → Bool) → dr.Instr → Bool
  wanted none instr = true
  wanted (some test_instr) instr = test_instr instr

  -- The label `err`: `instr` is destroyed unless it is NULL, and the set is closed.
  unfoldable pub abandon : Bool → Cursor dr.Instr → Cursor dr.Instr
  unfolding instr_set_close
  abandon has_instr c =
      let freed = if has_instr then destroy_instrs 1 c.store else c.store in
      let (set, store) = instr_set_close c.set freed in record c { set = set; store = store }

  -- The instruction joins the set, and a new object takes its place.
  unfoldable pub keep : dr.Instr → Cursor dr.Instr → Step dr.Instr
  unfolding abandon
  keep instr c =
      let set = record (c.set) {
        nr_instrs = add64 c.set.nr_instrs 1;
        end = c.orig;
        instrs = c.set.instrs ++ instr ∷ [];
      } in
      if granted c.store
      then again (record c { set = set; store = with_instr c.store })
      else done enomem (abandon false (record c { set = set; store = refused c.store }))

  -- The instruction does not join: leave, unless the set is still empty.
  unfoldable pub pass : Cursor dr.Instr → Step dr.Instr
  pass c =
      if not (c.set.nr_instrs == 0)
      then done success (record c { store = destroy_instrs 1 c.store })
      else again (record c { set = record (c.set) { start = c.orig; end = c.orig } })

  unfoldable pub next_step : Bytes → Option (dr.Instr → Bool) → Cursor dr.Instr → Step dr.Instr
  unfolding keep pass abandon
  next_step bytes test_instr c = elim (dr.decode bytes c.walk c.orig) [
    | none ↦ done etransform (abandon true (record c { walk = 0 }))
    | some (next, instr) ↦
        let c' = record c { walk = next; orig = add64 c.orig (dr.instr_length instr) } in
        if wanted test_instr instr then keep instr c' else pass c'
  ]

  unfoldable pub next_set_loop :
      ℕ → Bytes → ℕ → Option (dr.Instr → Bool) → Cursor dr.Instr → Outcome (Scan dr.Instr)
  unfolding next_step
  next_set_loop zero bytes max test_instr c = out_of_fuel
  next_set_loop (suc fuel) bytes max test_instr c = elim (ltb c.walk max) [
    | false ↦ ok (scanned success (record c { store = destroy_instrs 1 c.store }))
    | true ↦ elim (next_step bytes test_instr c) [
      | done rc c' ↦ ok (scanned rc c')
      | again c' ↦ next_set_loop fuel bytes max test_instr c'
    ]
  ]

  -- A round takes a byte at least, so one more round than there are bytes is enough.
  unfoldable pub next_set :
      Bytes → ℕ → Option (dr.Instr → Bool) → Cursor dr.Instr → Outcome (Scan dr.Instr)
  unfolding next_set_loop instr_set_init checked
  next_set bytes max test_instr c =
      if granted c.store
      then (next_set_loop (suc (max - c.walk)) bytes max test_instr
            (record c { set = instr_set_init c.set c.orig; store = with_instr c.store })
          >>= settled dr c.store)
      else ok (unstarted (refused c.store))

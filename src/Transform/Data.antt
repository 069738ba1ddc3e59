-- ===== src/Transform/Data.antt =====
-- `struct function`, `struct transformable`, and how a transformable is made and unmade.
pub mod Identity
use librave.Base.{ℕ, zero, suc, ◌+◌, Option, none, some, List, [], ◌∷◌, Outcome, ok, ◌>>=◌, to_int}
use librave.Base.Slots.{write}
use librave.Transform.Chains.{Chains}
use librave.Transform.Store.{Store, free_block}
use librave.Transform.Sets.{InstrSet, instr_set_init, instr_set_close}

-- src/function.h
pub record Function : Type 0 where
  pub addr : ℕ
  pub len : ℕ

pub record Transformable (I : Type 0) (Head : Type 0 → Type 0) : Type 0 where
  pub function : Function
  pub prologue : InstrSet I
  pub epilogues : Head (InstrSet I)
  -- `none` is NULL.
  pub order : Option (List ℕ)

-- A `struct instr_set` that `rave_malloc` has just returned; its content is never read before
-- `instr_set_init` has written it.
abbrev pub blank : (I : Type 0) → InstrSet I
blank I = record { start = 0; end = 0; nr_instrs = 0; instrs = [] }

module _ (chains : Chains) (I : Type 0) where
  unfoldable pub transformable_init : Function → Transformable I chains.Head
  transformable_init function = record {
    function = function;
    prologue = instr_set_init (blank I) function.addr;
    epilogues = chains.init;
    order = none;
  }

  -- `instr_set_close` and `instr_set_destroy` of each set in turn.
  unfoldable pub close_sets : List (InstrSet I) → Store → Store
  unfolding instr_set_close
  close_sets [] store = store
  close_sets (set ∷ sets) store = close_sets sets (free_block (instr_set_close set store).1)

  -- `rave_free` of the order, if there is one.
  abbrev pub free_order : Option (List ℕ) → Store → Store
  free_order none store = store
  free_order (some order) store = free_block store

  -- What a close gives back. The fields are not used again.
  unfoldable pub transformable_close : Transformable I chains.Head → Store → Store
  unfolding instr_set_close close_sets
  transformable_close self store =
      free_order self.order
        (close_sets (chains.entries self.epilogues) (instr_set_close self.prologue store).1)

-- `for (i = 0; i < nr_instrs; i++) order[i] = i`
unfoldable pub identity_order : ℕ → ℕ → List ℕ → Outcome (List ℕ)
identity_order zero i order = ok order
identity_order (suc rounds) i order =
    write order i (to_int i) >>= λ order'. identity_order rounds (i + 1) order'

-- ===== src/Transform/Store.antt =====
-- src/memory.h, and the objects of DynamoRIO: how many requests have been made and which of them
-- are granted, and how many blocks and instruction objects are held.
use librave.Base.{ℕ, ◌+◌, ◌-◌, Bool}

pub record Store : Type 0 where
  pub grants : ℕ → Bool
  pub asked : ℕ
  pub blocks : ℕ
  pub instrs : ℕ
  -- How many links have been read of instructions that had been destroyed.
  pub stale : ℕ

-- Whether the next request is granted.
abbrev pub granted : Store → Bool
granted s = s.grants s.asked

-- `rave_malloc`, if granted or refused.
abbrev pub with_block : Store → Store
with_block s = record s { asked = s.asked + 1; blocks = s.blocks + 1 }

abbrev pub refused : Store → Store
refused s = record s { asked = s.asked + 1 }

-- `rave_free` of one block.
abbrev pub free_block : Store → Store
free_block s = record s { blocks = s.blocks - 1 }

-- `instr_create`, if granted.
abbrev pub with_instr : Store → Store
with_instr s = record s { asked = s.asked + 1; instrs = s.instrs + 1 }

-- `instr_destroy` of a number of objects.
abbrev pub destroy_instrs : ℕ → Store → Store
destroy_instrs n s = record s { instrs = s.instrs - n }

-- `instr_destroy` of each instruction of a list, and then `instr_get_next` of the same one.
abbrev pub destroy_list : ℕ → Store → Store
destroy_list n s = record s { instrs = s.instrs - n; stale = s.stale + n }

-- ===== src/Metadata/Libdwarf.antt =====
-- What the code takes from libdwarf, which is not part of the repository: a reader that stands at
-- a compilation unit, and entries with their attributes.
use librave.Base.{ℕ, Bool, Option}
use librave.Elf.Libelf.{Libelf}

-- `DW_DLV_OK` with a value, `DW_DLV_NO_ENTRY`, and `DW_DLV_ERROR`.
pub data Answer (A : Type 0) : Type 0 where
  got : A → Answer A
  no_entry : Answer A
  error : Answer A

pub record Libdwarf (lib : Libelf) : Type 1 where
  pub Dbg : Type 0
  pub Die : Type 0
  -- `dwarf_elf_init` and `dwarf_finish`: whether they succeed
  pub elf_init : Option lib.Elf → Option Dbg
  pub finish : Dbg → Bool
  -- `dwarf_next_cu_header_d`: the reader stands at the next unit behind it
  pub next_cu_header : Dbg → Answer (Unit {0}) × Dbg
  -- `dwarf_siblingof_b`; `none` asks for the entry of the unit
  pub siblingof : Dbg → Option Die → Answer Die
  -- `dwarf_child`, `dwarf_tag`, `dwarf_lowpc`
  pub child : Die → Answer Die
  pub tag : Die → Answer ℕ
  pub lowpc : Die → Answer ℕ
  -- `dwarf_highpc_b`: the value, and the class of its form
  pub highpc : Die → Answer (ℕ × ℕ)

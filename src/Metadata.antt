-- ===== src/Metadata.antt =====
-- src/metadata.h: where the functions of a binary come from. `Dwarf` is the source that
-- src/metadata_dwarf.c implements.
pub mod Libdwarf
pub mod Laws
pub mod Dwarf
pub mod Sample
mod Tests
use librave.Base.{Outcome}
use librave.Errno.{Errno}
use librave.Memory.{Pointer}
use librave.Elf.Libelf.{Libelf}
use librave.Elf.Binary.{Binary}
use librave.Transform.Store.{Store}
use librave.Transform.Data.{Function}

-- `foreach_function_cb`, on whatever state its argument points to.
abbrev pub Callback : Type 0 → Type 0
Callback S = Function → S → Outcome (Errno × S)

-- `struct metadata_op`. A walk changes the metadata too, by where the reader stands.
pub record MetadataOp (lib : Libelf) : Type 1 where
  pub Metadata : Type 0
  pub create : Store → Pointer Metadata × Store
  pub destroy : Pointer Metadata → Store → Outcome Store
  pub init : Pointer Metadata → Binary lib → Outcome (Errno × Pointer Metadata)
  pub close : Pointer Metadata → Outcome (Errno × Pointer Metadata)
  pub foreach_function :
      {S : Type 0} → Pointer Metadata → Callback S → S → Outcome (Errno × Pointer Metadata × S)

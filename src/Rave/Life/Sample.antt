-- ===== src/Rave/Life/Sample.antt =====
-- A handle over the sample debug information: before it is loaded, and with one function loaded.
use librave.Base.{refl, none, some, [], ◌∷◌, arith}
use librave.Base.Orders.{count_up}
use librave.Memory.{at, fresh}
use librave.Window.{Window}
use librave.Elf.Binary.{Binary}
use librave.Metadata.{MetadataOp}
use librave.Transform.Held.{objects}
use librave.Transform.Life.Closed.{Owned, all_parts, all_instrs}
use librave.Metadata.Dwarf.{metadata_dwarf}
use librave.Metadata.Sample.{two_units}
use librave.Rave.Handle.Kept.{IsServed, Kept}
use librave.Elf.Sample.{small}
use librave.Transform.Sample.{permutable, sample, lists, plenty}
use librave.Rave.Handle.{Machine, Handle, unwritten}
use librave.Rave.Sample.{code, machine}

abbrev pub dwarf : MetadataOp small
dwarf = metadata_dwarf two_units 4 3

abbrev pub file : Binary small
file = record { elf = some 7; header = none; mapping = 0x5000; file_size = 0x2000 }

abbrev pub opened_handle : Handle small sample lists dwarf
opened_handle = record (unwritten small sample lists dwarf) {
  binary = some file;
  metadata = fresh;
  transform = fresh;
}

abbrev pub function_text : Window
function_text = record { orig = 0x400000; data_ptr = 0x70000; length = 0x100 }

abbrev pub loaded_handle : Handle small sample lists dwarf
loaded_handle = record opened_handle {
  metadata = at (record { dbg = 0; dies = 0 });
  transform = at (permutable ∷ []);
  segment = some code;
  text = some function_text;
}

-- The pages, the metadata and the transform, and the machine with a function besides.
abbrev pub before : Machine
before = record machine { store = record plenty { blocks = 3 } }

abbrev pub behind : Machine
behind = record machine { store = record plenty { blocks = 6; instrs = 4 } }

pub permutable-IsServed : IsServed sample lists function_text permutable
unfolding count_up
permutable-IsServed = record {
  randomizable = record {
    about = refl;
    counted = refl;
    enough = omega arith;
    within = λ short. record { starts = omega arith; sized = omega arith; ends = omega arith };
    order = refl;
    leaves = refl;
    mirrored = (record { counted = refl; reversed = refl }, tt);
  };
  starts = omega arith;
  ends = omega arith;
}

pub behind-Owned : Owned sample lists 3 0 (permutable ∷ []) behind.store
unfolding all_parts all_instrs objects
behind-Owned = record { blocks_held = refl; instrs_held = refl }

abbrev pub loaded :
    Kept small sample lists dwarf function_text loaded_handle before (loaded_handle, behind)
loaded = record {
  text = refl;
  segment = refl;
  binary = refl;
  world = refl;
  same = refl;
  self = permutable ∷ [];
  transform = refl;
  served = (permutable-IsServed, tt);
  lost = 0;
  held = behind-Owned;
}

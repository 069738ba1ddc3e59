-- ===== src/Rave/Life/Tests.antt =====
-- A handle over the sample debug information, over the theorems of its life.
use librave.Base.{ℕ, ◌+◌, ◌≡◌, refl, some, ok, arith}
use librave.Errno.{success}
use librave.Memory.{at, fresh, release}
use librave.Window.Range.{IsBacked}
use librave.Metadata.Laws.{MetadataLaws}
use librave.Transform.Store.{Store, free_block}
use librave.Rave.Life.{rave_close}
use librave.Rave.Life.Closing.{rave_close-Kept}
use librave.Metadata.Dwarf.{init, close, destroy}
use librave.Metadata.Sample.{two_units, two_units-DwarfLaws}
use librave.Elf.Sample.{small, no_file}
use librave.Transform.Sample.{sample, lists}
use librave.Rave.Handle.{Machine, Handle}
use librave.Rave.Life.Sample.{dwarf, file, function_text, loaded_handle, before, behind, loaded}
use librave.Rave.Sample.{code}
use librave.Metadata.Dwarf.Implements.{metadata_dwarf-MetadataLaws}

abbrev two_units_laws : MetadataLaws dwarf
two_units_laws = metadata_dwarf-MetadataLaws two_units 4 3 two_units-DwarfLaws

dwarf_opens : dwarf.init fresh file ≡ ok (success, at (record { dbg = 2; dies = 0 }))
unfolding init
dwarf_opens = refl

loaded_text-IsBacked : IsBacked (record { orig = 0x1010; data_ptr = 0x70010; length = 0x100 })
loaded_text-IsBacked = record { below_end = omega arith; buffer_below_end = omega arith }

dwarf_closes : dwarf.close (at (record { dbg = 0; dies = 0 })) ≡ ok (success, fresh)
unfolding close
dwarf_closes = refl

dwarf_destroys : (store : Store) → dwarf.destroy fresh store ≡ ok (free_block store)
unfolding destroy release
dwarf_destroys store = refl

rave_close-Kept_example :
    (k : ℕ) × (h' : Handle small sample lists dwarf) × (m' : Machine) × (rave_close small no_file
        sample lists dwarf
        (λ _. 0x70000)
        (some loaded_handle)
        behind
      ≡ ok (k, some h', m'))
    × (m'.store.blocks + 3 ≡ 4)
    × (m'.store.instrs ≡ 0)
rave_close-Kept_example =
    rave_close-Kept no_file refl (λ _. 0x70000) function_text code file loaded_handle loaded_handle
      before behind success fresh loaded refl refl refl dwarf_closes dwarf_destroys (omega arith)

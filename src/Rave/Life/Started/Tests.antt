-- ===== src/Rave/Life/Started/Tests.antt =====
-- `rave_init` over the sample file and the sample debug information.
use librave.Base.{Settles, ◌≡◌, refl, Bool, true, false, some, arith, Outcome, ok, ◌>>=◌}
use librave.Errno.{Errno, success, is_success}
use librave.Memory.{at, fresh, allocate}
use librave.Window.Range.{IsBacked}
use librave.Elf.Section.{Section, section_address, section_offset, section_size}
use librave.Elf.Segment.{segment_contains, segment_offset, segment_filesz, segment_memsz}
use librave.Elf.Binary.{
  Binary, binary_init, binary_find_section, binary_find_segment, strncmp_zero, strncmp_equal,
}
use librave.Elf.Sample.{small, executable, no_file, one_file}
use librave.Metadata.{MetadataOp}
use librave.Metadata.Dwarf.{create, init, metadata_dwarf}
use librave.Metadata.Dwarf.Implements.{metadata_dwarf-MetadataLaws}
use librave.Metadata.Sample.{two_units, two_units-DwarfLaws}
use librave.Transform.Add.Rounds.{Refuses}
use librave.Transform.Life.{transform_create}
use librave.Transform.Store.{Store, with_block}
use librave.Transform.Sample.{sample, sample-Decodes, lists, lists-ChainLaws, plenty}
use librave.Rave.Handle.{Machine, Handle, unwritten}
use librave.Rave.Handle.Kept.{Kept}
use librave.Rave.Life.{text_name, is_null, rave_init}
use librave.Util.{page_up}
use librave.Rave.Pages.{in_mapping}
use librave.Rave.Life.Copies.{with_pages, with_copy}
use librave.Rave.Life.Opened.{Opened, rave_init-Opened}
use librave.Rave.Life.Started.{IsFound, IsCopied, with_parts, rave_init-Kept}
use librave.Rave.Sample.{machine, segment, loads, rounded}

abbrev dwarf : MetadataOp small
dwarf = metadata_dwarf two_units 4 3

abbrev file : Binary small
file = record { elf = some 7; header = some executable; mapping = 0x5000; file_size = 0x2000 }

abbrev text : Section small
text = record {
  elf = 7;
  header = record { sh_name = 2; sh_addr = 0x1010; sh_offset = 0x1010; sh_size = 0x100 };
  data_ptr = some 2;
  name = text_name;
}

file-IsFound : IsFound small one_file false 5 file text segment
unfolding binary_init binary_find_section binary_find_segment section_address is_success
    strncmp_equal strncmp_zero segment_contains
file-IsFound = record {
  elf = 7;
  header = executable;
  initialized' = true;
  accepted = refl;
  opened = refl;
  headed = refl;
  section = refl;
  holds = refl;
}

text-IsBacked : IsBacked (record { orig = 0x1010; data_ptr = 0x70010; length = 0x100 })
text-IsBacked = record { below_end = omega arith; buffer_below_end = omega arith }

in_file : in_mapping file 0x1000 0x300 ≡ true
unfolding page_up
in_file = refl

text-IsCopied : IsCopied (λ _. 0x70000) file text segment (with_block (with_block plenty))
unfolding section_address section_offset section_size segment_offset segment_filesz segment_memsz
text-IsCopied = record {
  loads = loads;
  fits = rw (rounded) (omega arith);
  held = in_file;
  backed = text-IsBacked;
  small = omega arith;
}

dwarf_creates : dwarf.create plenty ≡ (fresh, with_block plenty)
unfolding create allocate
dwarf_creates = refl

dwarf_opens : dwarf.init fresh file ≡ ok (success, at (record { dbg = 2; dies = 0 }))
unfolding init
dwarf_opens = refl

-- The handle with its parts, and the machine behind the two requests.
abbrev parts : Handle small sample lists dwarf
parts =
    with_parts one_file sample-Decodes lists-ChainLaws
      (metadata_dwarf-MetadataLaws two_units 4 3 two_units-DwarfLaws) (λ _. 0x70000) fresh file

abbrev pair_of_blocks : Store
pair_of_blocks = with_block (with_block plenty)

rave_init-Kept_example :
    Settles
      (Refuses (λ _. true))
      (λ (rc, initialized', h', m').
        (h : Handle small sample lists dwarf) × (h' ≡ some h)
        × Kept small sample lists dwarf
            (record { orig = 0x1010; data_ptr = 0x70010; length = 0x100 })
            (with_pages (λ _. 0x70000) text segment parts pair_of_blocks)
            (with_copy (λ _. 0x70000) segment file (record machine { store = pair_of_blocks }))
            (h, m'))
      (rave_init small one_file sample lists dwarf
        (λ _. 0x70000)
        false
        (some (unwritten small sample lists dwarf))
        5
        machine)
unfolding section_address section_offset section_size segment_offset segment_filesz segment_memsz
rave_init-Kept_example =
    rave_init-Kept one_file sample-Decodes lists-ChainLaws
      (metadata_dwarf-MetadataLaws two_units 4 3 two_units-DwarfLaws) (λ _. 0x70000) false 5 machine
      fresh (at (record { dbg = 2; dies = 0 })) (with_block plenty) file text segment file-IsFound
      dwarf_creates refl refl refl dwarf_opens refl text-IsCopied

metadata_granted : is_null (dwarf.create plenty).0 ≡ false
unfolding create allocate
metadata_granted = refl

transform_granted : is_null (transform_create sample lists (dwarf.create plenty).1).0 ≡ false
unfolding create allocate transform_create
transform_granted = refl

rave_init-Opened_example :
    (r : Outcome (Errno × Bool × Handle small sample lists dwarf × Machine)) × Opened small no_file
      sample lists dwarf
      (λ _. 0x70000)
      false
      5
      (record (unwritten small sample lists dwarf) {
        metadata = (dwarf.create plenty).0;
        transform = (transform_create sample lists (dwarf.create plenty).1).0;
      })
      (record machine { store = (transform_create sample lists (dwarf.create plenty).1).1 })
      r
    × (rave_init small no_file sample lists dwarf
          (λ _. 0x70000)
          false
          (some (unwritten small sample lists dwarf))
          5
          machine
        ≡ (r >>= λ (rc, initialized', h, m'). ok (rc, initialized', some h, m')))
rave_init-Opened_example =
    rave_init-Opened small no_file sample lists dwarf (λ _. 0x70000) false 5 machine
      metadata_granted transform_granted

-- ===== src/Elf/Tests.antt =====
-- The sample library, over the theorems of the ELF files.
use librave.Base.{
  ℕ, ◌-◌, ◌^◌, ◌≤◌, ◌<◌, ◌≡◌, ◌↔◌, ◌⊎◌, refl, true, false, none, some, List, [], ◌∷◌, ◌++◌, arith,
  sign_extend,
}
use librave.Errno.{success, is_success}
use librave.Elf.Files.{map_failed}
use librave.Elf.Section.{Section, section_address}
use librave.Elf.Section.Address.{section_address_iff}
use librave.Elf.Segment.{Segment}
use librave.Elf.Binary.{
  Binary, binary_init, strncmp_equal, binary_find_section, binary_find_segment,
}
use librave.Elf.Binary.Find.{
  Finds, Segments, strncmp_equal_iff, binary_find_section-Finds, binary_find_segment-Segments,
}
use librave.Elf.Binary.Accepts.{IsAccepted, binary_init-IsAccepted}
use librave.Elf.Sample.{executable, small, no_memory}

abbrev opened : Binary small
opened = record { elf = some 7; header = some executable; mapping = map_failed; file_size = 0x2000 }

init_small : binary_init small no_memory false 5 ≡ (success, opened, true)
unfolding binary_init is_success
init_small = refl

binary_init-IsAccepted_example : IsAccepted small opened
binary_init-IsAccepted_example =
    binary_init-IsAccepted small no_memory false true 5 opened init_small

strncmp_equal_iff_example :
    (strncmp_equal (46 ∷ 116 ∷ []) (46 ∷ 116 ∷ 101 ∷ []) ≡ true)
    ↔ ((rest : List ℕ) × (◌≡◌ {A = List ℕ} (46 ∷ 116 ∷ 101 ∷ []) ((46 ∷ 116 ∷ []) ++ rest)))
strncmp_equal_iff_example = strncmp_equal_iff (46 ∷ 116 ∷ []) (46 ∷ 116 ∷ 101 ∷ [])

binary_find_section-Finds_example :
    Finds small 7 9
      (46 ∷ 116 ∷ 101 ∷ [])
      (1 ∷ 2 ∷ [])
      (binary_find_section small 7 executable (46 ∷ 116 ∷ 101 ∷ []))
binary_find_section-Finds_example =
    binary_find_section-Finds small 7 executable (46 ∷ 116 ∷ 101 ∷ [])

binary_find_segment-Segments_example :
    Segments small 7 0x1010 2 0 none (binary_find_segment small 7 executable 0x1010)
binary_find_segment-Segments_example = binary_find_segment-Segments small 7 executable 0x1010

abbrev code_segment : Segment small
code_segment = record {
  elf = 7;
  header = record {
    p_type = 1;
    p_offset = 0x1000;
    p_vaddr = 0x1000;
    p_filesz = 0x300;
    p_memsz = 0x400;
  };
}

abbrev high_section : Section small
high_section = record {
  elf = 7;
  header = record { sh_name = 2; sh_addr = 0x1_0000_1000; sh_offset = 0x1000; sh_size = 0x100 };
  data_ptr = none;
  name = [];
}

-- The address 0x100001000 comes back as 0x1000.
high_address : section_address high_section ≡ 0x1000
unfolding section_address
high_address = refl

section_address_iff_example :
    (sign_extend (section_address high_section) ≡ 0x1_0000_1000)
    ↔ ((0x1_0000_1000 < 2 ^ 31) ⊎ (2 ^ 64 - 2 ^ 31 ≤ 0x1_0000_1000))
section_address_iff_example = section_address_iff high_section (omega arith)

-- ===== src/Elf/Sample.antt =====
-- A library of two sections and two segments, a system that cannot map its file, one that has no
-- file, and one that maps its file.
use librave.Base.{ℕ, zero, suc, true, false, Option, none, some, List, [], ◌∷◌}
use librave.Elf.Libelf.{Libelf, FileHeader, ProgramHeader}
use librave.Elf.Files.{Files, map_failed}
use librave.Elf.Binary.{Binary}

abbrev pub executable : FileHeader
executable = record { e_type = 2; e_machine = 62; e_phnum = 2; e_shstrndx = 9 }

-- ".t" and ".text" as bytes, under the numbers 1 and 2.
abbrev pub names : ℕ → Option (List ℕ)
names zero = none
names (suc zero) = some (46 ∷ 116 ∷ [])
names (suc (suc n)) = some (46 ∷ 116 ∷ 101 ∷ 120 ∷ 116 ∷ [])

abbrev pub segments : ℕ → Option ProgramHeader
segments zero =
    some (record { p_type = 6; p_offset = 0; p_vaddr = 0x40; p_filesz = 0x40; p_memsz = 0x40 })
segments (suc zero) =
    some (record {
      p_type = 1;
      p_offset = 0x1000;
      p_vaddr = 0x1000;
      p_filesz = 0x300;
      p_memsz = 0x400;
    })
segments (suc (suc n)) = none

abbrev pub small : Libelf
small = record {
  Elf = ℕ;
  Scn = ℕ;
  Data = ℕ;
  version_ok = true;
  elf_memory = λ mapping size. some 7;
  elf_kind = λ _. 3;
  gelf_getclass = λ _. 1;
  gelf_getehdr = λ _. some executable;
  sections = λ _. 1 ∷ 2 ∷ [];
  gelf_getshdr =
      λ scn. some (record { sh_name = scn; sh_addr = 0x1010; sh_offset = 0x1010; sh_size = 0x100 });
  elf_strptr = λ _ _ name. names name;
  elf_getdata = λ scn. some scn;
  gelf_getphdr = λ _ i. segments i;
}

abbrev pub no_memory : Files
no_memory = record {
  Name = ℕ;
  open_file = λ _. some 3;
  fstat = λ _. some 0x2000;
  mmap = λ size fd. map_failed;
  close_file = λ _. true;
  munmap = λ p size. false;
}

abbrev pub blank : Binary small
blank = record { elf = none; header = none; mapping = 0; file_size = 0 }

abbrev pub no_file : Files
no_file = record no_memory { open_file = λ _. none }

abbrev pub one_file : Files
one_file = record no_memory { mmap = λ size fd. 0x5000 }

-- ===== src/Elf/Libelf.antt =====
-- What the code takes from libelf, which is not part of the repository: the headers with the fields
-- that the code reads, and the calls, each with `none` for the error value that the code tests.
use librave.Base.{ℕ, Bool, Option, List}

-- `GElf_Ehdr`
pub record FileHeader : Type 0 where
  pub e_type : ℕ
  pub e_machine : ℕ
  pub e_phnum : ℕ
  pub e_shstrndx : ℕ

-- `GElf_Shdr`
pub record SectionHeader : Type 0 where
  pub sh_name : ℕ
  pub sh_addr : ℕ
  pub sh_offset : ℕ
  pub sh_size : ℕ

-- `GElf_Phdr`
pub record ProgramHeader : Type 0 where
  pub p_type : ℕ
  pub p_offset : ℕ
  pub p_vaddr : ℕ
  pub p_filesz : ℕ
  pub p_memsz : ℕ

pub record Libelf : Type 1 where
  pub Elf : Type 0
  pub Scn : Type 0
  pub Data : Type 0
  -- whether `elf_version(EV_CURRENT)` is not `EV_NONE`
  pub version_ok : Bool
  pub elf_memory : ℕ → ℕ → Option Elf
  pub elf_kind : Elf → ℕ
  pub gelf_getclass : Elf → ℕ
  pub gelf_getehdr : Elf → Option FileHeader
  -- the sections that `elf_nextscn` yields in turn
  pub sections : Elf → List Scn
  pub gelf_getshdr : Scn → Option SectionHeader
  -- a name as its bytes, without the NUL that ends it
  pub elf_strptr : Elf → ℕ → ℕ → Option (List ℕ)
  pub elf_getdata : Scn → Option Data
  pub gelf_getphdr : Elf → ℕ → Option ProgramHeader

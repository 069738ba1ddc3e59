-- ===== src/Elf/Section.antt =====
-- src/section.c
pub mod Address
use librave.Base.{ℕ, Option, none, some, List, to_int}
use librave.Errno.{Errno, success, esection_data}
use librave.Elf.Libelf.{Libelf, SectionHeader}

-- `data_ptr` is `none` for NULL.
pub record Section (lib : Libelf) : Type 0 where
  pub elf : lib.Elf
  pub header : SectionHeader
  pub data_ptr : Option lib.Data
  pub name : List ℕ

module _ (lib : Libelf) where
  abbrev pub loaded : Option lib.Data → Errno
  loaded none = esection_data
  loaded (some d) = success

  unfoldable pub section_init : lib.Elf → SectionHeader → List ℕ → lib.Scn → Errno × Section lib
  section_init elf header name scn =
      let d = lib.elf_getdata scn in
      (loaded d, record { elf = elf; header = header; data_ptr = d; name = name })

-- The result is an `int`.
unfoldable pub section_address : {lib : Libelf} → Section lib → ℕ
section_address self = to_int self.header.sh_addr

unfoldable pub section_offset : {lib : Libelf} → Section lib → ℕ
section_offset self = self.header.sh_offset

unfoldable pub section_size : {lib : Libelf} → Section lib → ℕ
section_size self = self.header.sh_size

-- ===== src/Elf/Segment.antt =====
-- src/segment.c
pub mod Range
use librave.Base.{ℕ, Bool, not, ◌&&◌, leb, ltb, ◌==◌, add64, bit_and}
use librave.Errno.{Errno, success}
use librave.Elf.Libelf.{Libelf, ProgramHeader}

pub record Segment (lib : Libelf) : Type 0 where
  pub elf : lib.Elf
  pub header : ProgramHeader

abbrev pub pt_load : ℕ
pt_load = 1

module _ {lib : Libelf} where
  unfoldable pub segment_init : lib.Elf → ProgramHeader → Errno × Segment lib
  segment_init elf header = (success, record { elf = elf; header = header })

  unfoldable pub segment_vaddr : Segment lib → ℕ
  segment_vaddr self = self.header.p_vaddr

  unfoldable pub segment_offset : Segment lib → ℕ
  segment_offset self = self.header.p_offset

  unfoldable pub segment_filesz : Segment lib → ℕ
  segment_filesz self = self.header.p_filesz

  unfoldable pub segment_memsz : Segment lib → ℕ
  segment_memsz self = self.header.p_memsz

  -- `!!(p_type & PT_LOAD)`
  unfoldable pub segment_loadable : Segment lib → Bool
  segment_loadable self = not (bit_and self.header.p_type pt_load == 0)

  unfoldable pub segment_contains : Segment lib → ℕ → Bool
  segment_contains self address =
      leb self.header.p_vaddr address && ltb address (add64 self.header.p_vaddr self.header.p_memsz)

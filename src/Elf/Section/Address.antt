-- ===== src/Elf/Section/Address.antt =====
-- The address of a section goes through an `int`.
use librave.Base.{◌-◌, ◌^◌, ◌≤◌, ◌<◌, ◌≡◌, ◌↔◌, ◌⊎◌, arith, sign_extend}
use librave.Elf.Libelf.{Libelf}
use librave.Elf.Section.{Section, section_address}

-- As the code uses it, converted back to 64 bits, the address of a section is that of its header
-- exactly when the header's address lies in the first or in the last two gigabytes of the address
-- space.
pub section_address_iff :
    {lib : Libelf} (self : Section lib)
    → self.header.sh_addr < 2 ^ 64
    → (sign_extend (section_address self) ≡ self.header.sh_addr)
      ↔ ((self.header.sh_addr < 2 ^ 31) ⊎ (2 ^ 64 - 2 ^ 31 ≤ self.header.sh_addr))
unfolding section_address
section_address_iff self h = grind arith

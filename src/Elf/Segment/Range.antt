-- ===== src/Elf/Segment/Range.antt =====
-- Which segments count as loadable, and which addresses a segment holds.
use librave.Base.{ℕ, ◌+◌, ◌%◌, ◌^◌, ◌≤◌, ◌<◌, ◌≡◌, ◌↔◌, true, arith}
use librave.Base.Masks.{bit_and-one}
use librave.Elf.Libelf.{Libelf}
use librave.Elf.Segment.{Segment, segment_loadable, segment_contains}

module _ {lib : Libelf} (self : Segment lib) where
  -- A segment counts as loadable exactly when its type is odd, not only when it is `PT_LOAD`.
  pub segment_loadable_iff : (segment_loadable self ≡ true) ↔ (self.header.p_type % 2 ≡ 1)
  unfolding segment_loadable
  segment_loadable_iff = grind (arith, bit_and-one self.header.p_type)

  -- The addresses that a segment holds, where its end does not wrap, are those from its start up
  -- to, not including, the start plus its size in memory.
  pub segment_contains_iff :
      (address : ℕ)
      → self.header.p_vaddr + self.header.p_memsz < 2 ^ 64
      → (segment_contains self address ≡ true)
        ↔ ((self.header.p_vaddr ≤ address) × (address < self.header.p_vaddr + self.header.p_memsz))
  unfolding segment_contains
  segment_contains_iff address h = grind arith

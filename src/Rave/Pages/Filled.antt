-- ===== src/Rave/Pages/Filled.antt =====
-- What the copied code segment holds.
use librave.Base.{
  ℕ, ◌+◌, ◌-◌, ◌%◌, ◌^◌, ◌≤◌, ◌<◌, ◌≡◌, ◌⊎◌, refl, true, false, not, some, Outcome, ok, arith, ltb,
  if◌then◌else◌, sub64, sign_extend,
}
use librave.Errno.{Errno, success}
use librave.Util.{page_up, offset}
use librave.Util.Pages.{page_up_least}
use librave.Window.{window_init}
use librave.Elf.Libelf.{Libelf}
use librave.Elf.Section.{Section, section_address, section_offset, section_size}
use librave.Elf.Segment.{
  Segment, segment_loadable, segment_vaddr, segment_offset, segment_filesz, segment_memsz,
}
use librave.Elf.Binary.{Binary}
use librave.Transform.Dr.{Dr, Bytes}
use librave.Transform.Chains.{Chains}
use librave.Transform.Store.{Store, granted, with_block}
use librave.Metadata.{MetadataOp}
use librave.Rave.Handle.{Machine, Handle}
use librave.Rave.Pages.{in_range, in_mapping, clear, memcpy, fill_pages, map_code_pages}

-- A block that is cleared and then filled with a copy of a file that lies elsewhere holds the bytes
-- of the file and, behind them, zeros; no other byte changes.
filled :
    (bytes : Bytes) (mapping src size length q : ℕ)
    → size ≤ length
    → (mapping + length ≤ src) ⊎ (src + size ≤ mapping)
    → memcpy mapping src size (clear mapping length bytes) q ≡ (
        if not (in_range mapping length q)
        then bytes q
        else if ltb (q - mapping) size
        then bytes (src + (q - mapping))
        else 0)
unfolding memcpy clear
filled bytes mapping src size length q fits apart = ground arith

-- A copy of `size` bytes of a file at `src`, in a block of `length` bytes at `mapping`.
abbrev pub copy_of : Bytes → ℕ → ℕ → ℕ → ℕ → Bytes
copy_of bytes mapping src size length q =
    if not (in_range mapping length q)
    then bytes q
    else if ltb (q - mapping) size
    then bytes (src + (q - mapping))
    else 0

module _ {lib : Libelf} {dr : Dr} {chains : Chains} {mop : MetadataOp lib}
    (calloc_at : Store → ℕ) where
  -- The tests of `map_code_pages`, in turn.
  pub onto :
      (h : Handle lib dr chains mop) (text : Section lib) (segment : Segment lib) (m : Machine)
      {binary : Binary lib} {r : Outcome (Errno × Handle lib dr chains mop × Machine)}
      → segment_loadable segment ≡ true
      → granted m.store ≡ true
      → h.binary ≡ some binary
      → fill_pages lib dr chains mop calloc_at h text segment
          (page_up (segment_memsz segment))
          binary
          m
        ≡ r
      → map_code_pages lib dr chains mop calloc_at h text segment m ≡ r
  unfolding map_code_pages
  onto h text segment m loads grant e filling = rw (loads, grant, e) filling

  -- Mapping a loadable segment that is no larger in the file than in memory, when the file is mapped
  -- and has its bytes, memory is granted and the block lies apart from the file, succeeds. The new block is the segment's window,
  -- has whole pages with room for the segment, and holds the bytes of the file and zeros behind
  -- them; no byte outside the block changes. Neither the size, rounded up
  -- to pages, nor the place in the file wraps.
  pub map_code_pages-copy_of :
      (h : Handle lib dr chains mop) (text : Section lib) (segment : Segment lib) (m : Machine)
      (binary : Binary lib)
      → h.binary ≡ some binary
      → segment_loadable segment ≡ true
      → granted m.store ≡ true
      → segment.header.p_memsz + 4095 < 2 ^ 64
      → segment.header.p_filesz ≤ segment.header.p_memsz
      → in_mapping binary segment.header.p_offset segment.header.p_filesz ≡ true
      → binary.mapping + segment.header.p_offset < 2 ^ 64
      → (calloc_at m.store + page_up segment.header.p_memsz
          ≤ binary.mapping + segment.header.p_offset)
        ⊎ (binary.mapping + segment.header.p_offset + segment.header.p_filesz ≤ calloc_at m.store)
      → (h' : Handle lib dr chains mop) × (m' : Machine) × (length : ℕ) × (map_code_pages lib dr
            chains mop calloc_at h text segment m
          ≡ ok (success, h', m'))
        × (h'.segment
            ≡ some (record {
              orig = segment.header.p_vaddr;
              data_ptr = calloc_at m.store;
              length = length;
            }))
        × (length % 4096 ≡ 0)
        × (segment.header.p_memsz ≤ length)
        × (length < segment.header.p_memsz + 4096)
        × ((q : ℕ)
            → m'.world.bytes q
              ≡ copy_of m.world.bytes
                  (calloc_at m.store)
                  (binary.mapping + segment.header.p_offset)
                  segment.header.p_filesz
                  length
                  q)
  unfolding fill_pages segment_memsz segment_filesz segment_offset segment_vaddr window_init
  map_code_pages-copy_of h text segment m binary e loads grant small le held fits apart =
      let length = page_up segment.header.p_memsz in
      let (whole, room, tight) = page_up_least segment.header.p_memsz small in
      let src : offset binary.mapping segment.header.p_offset
          ≡ binary.mapping + segment.header.p_offset =
        omega arith in
      let enough : ltb length segment.header.p_filesz ≡ false = ground arith in
      let mapping = calloc_at m.store in
      let copied =
        memcpy mapping (offset binary.mapping segment.header.p_offset) segment.header.p_filesz
          (clear mapping length m.world.bytes) in
      let h' : Handle lib dr chains mop = record h {
        segment =
            some (record { orig = segment.header.p_vaddr; data_ptr = mapping; length = length });
        text = some (record {
          orig = sign_extend (section_address text);
          data_ptr = offset mapping (sub64 (section_offset text) segment.header.p_offset);
          length = section_size text;
        });
      } in
      let m' : Machine = record {
        world = record m.world { bytes = copied };
        store = with_block m.store;
      } in
      (
        h',
        m',
        length,
        onto h text segment m loads grant e (rw (enough, held) refl),
        refl,
        whole,
        room,
        tight,
        λ q. rw src (
            filled m.world.bytes (calloc_at m.store) (binary.mapping + segment.header.p_offset)
              segment.header.p_filesz length q (omega arith) apart),
      )

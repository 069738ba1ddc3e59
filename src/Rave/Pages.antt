-- ===== src/Rave/Pages.antt =====
-- `map_code_pages`: the copy of the code segment in local memory.
pub mod Filled
pub mod Views
use librave.Base.{
  ℕ, ◌+◌, ◌-◌, Bool, not, ◌&&◌, ◌||◌, Option, none, some, Outcome, ok, fault, if◌then◌else◌, sub64,
  sign_extend, ltb, leb, ◌==◌,
}
use librave.Errno.{Errno, success, eseg_not_loadable, enomem}
use librave.Util.{page_up, offset}
use librave.Window.{Window, window_init}
use librave.Elf.Files.{map_failed}
use librave.Elf.Libelf.{Libelf}
use librave.Elf.Section.{Section, section_address, section_offset, section_size}
use librave.Elf.Segment.{
  Segment, segment_loadable, segment_vaddr, segment_offset, segment_filesz, segment_memsz,
}
use librave.Elf.Binary.{Binary}
use librave.Transform.Dr.{Dr, Bytes}
use librave.Transform.Chains.{Chains}
use librave.Transform.Store.{Store, granted, with_block, refused}
use librave.Transform.Permute.{World}
use librave.Metadata.{MetadataOp}
use librave.Rave.Handle.{Machine, Handle}

abbrev pub in_range : ℕ → ℕ → ℕ → Bool
in_range p size q = leb p q && ltb q (p + size)

-- `calloc` clears the block, `memcpy` copies between blocks that do not overlap.
unfoldable pub clear : ℕ → ℕ → Bytes → Bytes
clear p size bytes q = if in_range p size q then 0 else bytes q

unfoldable pub memcpy : ℕ → ℕ → ℕ → Bytes → Bytes
memcpy dst src size bytes q = if in_range dst size q then bytes (src + (q - dst)) else bytes q

-- A `struct window` before `window_init`.
abbrev pub unwritten_window : Window
unwritten_window = record { orig = 0; data_ptr = 0; length = 0 }

-- Whether `memcpy` finds the bytes of a segment: the file is mapped, and in as many pages.
abbrev pub in_mapping : {lib : Libelf} → Binary lib → ℕ → ℕ → Bool
in_mapping binary at size =
    size == 0
    || not (binary.mapping == map_failed)
      && leb (at + size) (page_up (sign_extend binary.file_size))

-- `calloc_at` is the address of the block that a request is granted.
module _ (lib : Libelf) (dr : Dr) (chains : Chains) (mop : MetadataOp lib)
    (calloc_at : Store → ℕ) where
  -- Behind `rave_calloc`. The copy must not write past the block, nor read past the file.
  unfoldable pub fill_pages :
      Handle lib dr chains mop
      → Section lib
      → Segment lib
      → ℕ
      → Binary lib
      → Machine
      → Outcome (Errno × Handle lib dr chains mop × Machine)
  unfolding clear memcpy window_init segment_filesz segment_offset segment_vaddr section_address
      section_offset section_size
  fill_pages self text segment length binary m =
      let mapping = calloc_at m.store in
      let copy_src = offset binary.mapping (segment_offset segment) in
      let copy_size = segment_filesz segment in
      let bytes = memcpy mapping copy_src copy_size (clear mapping length m.world.bytes) in
      let code = (window_init (some unwritten_window) (segment_vaddr segment) mapping length).1 in
      let inner =
        (window_init (some unwritten_window) (sign_extend (section_address text))
          (offset mapping (sub64 (section_offset text) (segment_offset segment)))
          (section_size text)).1 in
      if ltb length copy_size || not (in_mapping binary (segment_offset segment) copy_size)
      then fault
      else ok (
        success,
        record self { segment = code; text = inner },
        record { world = record m.world { bytes = bytes }; store = with_block m.store },
      )

  unfoldable pub map_code_pages :
      Handle lib dr chains mop
      → Section lib
      → Segment lib
      → Machine
      → Outcome (Errno × Handle lib dr chains mop × Machine)
  unfolding fill_pages segment_loadable segment_memsz page_up
  map_code_pages self text segment m =
      if not (segment_loadable segment)
      then ok (eseg_not_loadable, self, m)
      else if not (granted m.store)
      then ok (enomem, self, record m { store = refused m.store })
      else elim self.binary [
        | none ↦ fault
        | some binary ↦ fill_pages self text segment (page_up (segment_memsz segment)) binary m
      ]

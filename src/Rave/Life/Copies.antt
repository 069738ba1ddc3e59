-- ===== src/Rave/Life/Copies.antt =====
-- The handle and the machine behind the copy of the segment.
use librave.Base.{ℕ, ◌≤◌, ◌≡◌, refl, true, false, some, ok, arith, ltb, sub64, sign_extend}
use librave.Errno.{success}
use librave.Util.{page_up, offset}
use librave.Window.{Window, window_init}
use librave.Elf.Libelf.{Libelf}
use librave.Elf.Section.{Section, section_address, section_offset, section_size}
use librave.Elf.Segment.{
  Segment, segment_loadable, segment_vaddr, segment_offset, segment_filesz, segment_memsz,
}
use librave.Elf.Binary.{Binary}
use librave.Transform.Dr.{Dr}
use librave.Transform.Chains.{Chains}
use librave.Transform.Store.{Store, granted, with_block}
use librave.Metadata.{MetadataOp}
use librave.Rave.Handle.{Machine, Handle}
use librave.Rave.Pages.{in_mapping, clear, memcpy, fill_pages, map_code_pages}
use librave.Rave.Pages.Filled.{onto}

module _ {lib : Libelf} (calloc_at : Store → ℕ) where
  -- The text as the copy of the segment shows it.
  abbrev pub text_copy : Section lib → Segment lib → Store → Window
  text_copy text segment store = record {
    orig = sign_extend (section_address text);
    data_ptr = offset (calloc_at store) (sub64 (section_offset text) (segment_offset segment));
    length = section_size text;
  }

  -- The handle and the machine behind the copy of the segment.
  abbrev pub code_copy : Segment lib → Store → Window
  code_copy segment store = record {
    orig = segment_vaddr segment;
    data_ptr = calloc_at store;
    length = page_up (segment_memsz segment);
  }

  abbrev pub with_pages :
      {dr : Dr} {chains : Chains} {mop : MetadataOp lib}
      → Section lib
      → Segment lib
      → Handle lib dr chains mop
      → Store
      → Handle lib dr chains mop
  with_pages text segment h store = record h {
    segment = some (code_copy segment store);
    text = some (text_copy text segment store);
  }

  abbrev pub with_copy : Segment lib → Binary lib → Machine → Machine
  with_copy segment binary m = record {
    world = record m.world {
      bytes =
          memcpy (calloc_at m.store) (offset binary.mapping (segment_offset segment))
            (segment_filesz segment)
            (clear (calloc_at m.store) (page_up (segment_memsz segment)) m.world.bytes);
    };
    store = with_block m.store;
  }

module _ {lib : Libelf} {dr : Dr} {chains : Chains} {mop : MetadataOp lib}
    (calloc_at : Store → ℕ) where
  pub map_code_pages_lem :
      (text : Section lib) (segment : Segment lib) (binary : Binary lib)
      (h : Handle lib dr chains mop) (m : Machine)
      → h.binary ≡ some binary
      → segment_loadable segment ≡ true
      → granted m.store ≡ true
      → segment_filesz segment ≤ page_up (segment_memsz segment)
      → in_mapping binary (segment_offset segment) (segment_filesz segment) ≡ true
      → map_code_pages lib dr chains mop calloc_at h text segment m
        ≡ ok (
          success,
          with_pages calloc_at text segment h m.store,
          with_copy calloc_at segment binary m,
        )
  unfolding fill_pages window_init
  map_code_pages_lem text segment binary h m e loads grant fits held =
      let enough : ltb (page_up (segment_memsz segment)) (segment_filesz segment) ≡ false =
        ground arith in
      onto calloc_at h text segment m loads grant e (rw (enough, held) refl)

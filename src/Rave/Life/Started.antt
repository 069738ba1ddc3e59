-- ===== src/Rave/Life/Started.antt =====
-- What `rave_init` leaves in a new handle.
mod Tests
use librave.Base.{
  ℕ, ◌^◌, ◌≤◌, ◌≡◌, refl, sym, subst, Bool, true, false, Option, some, ok, Settles, Settles-bind,
  Settles-renamed,
}
use librave.Errno.{Errno, success, is_success_iff}
use librave.Memory.{Pointer, fresh, allocate}
use librave.Util.{page_up}
use librave.Window.Range.{IsBacked}
use librave.Elf.Libelf.{Libelf, FileHeader}
use librave.Elf.Files.{Files}
use librave.Elf.Section.{Section, section_size}
use librave.Elf.Segment.{Segment, segment_loadable, segment_filesz, segment_memsz, segment_offset}
use librave.Rave.Pages.{in_mapping}
use librave.Elf.Binary.{Binary, binary_init}
use librave.Elf.Binary.Accepts.{IsAccepted, binary_init-IsAccepted}
use librave.Transform.Dr.{Dr, Decodes}
use librave.Transform.Chains.{Chains, ChainLaws}
use librave.Transform.Store.{Store, granted, with_block}
use librave.Transform.Add.Rounds.{Refuses}
use librave.Transform.Life.{transform_create}
use librave.Metadata.{MetadataOp}
use librave.Metadata.Laws.{MetadataLaws}
use librave.Rave.Handle.{Machine, Handle, unwritten}
use librave.Rave.Handle.Kept.{Kept}
use librave.Rave.Life.{is_null, start_parts, locate, open_binary, rave_init}
use librave.Rave.Life.Copies.{text_copy, with_pages, with_copy}
use librave.Rave.Life.Loaded.{start_parts-Kept}
use librave.Rave.Life.Located.{text_of, segment_of, located_lem}

-- A file that is accepted, with its section of the text and the segment that holds its start.
pub record IsFound (lib : Libelf) (files : Files) (initialized : Bool) (filename : files.Name)
    (binary : Binary lib) (text : Section lib) (segment : Segment lib) : Type 0 where
  pub elf : lib.Elf
  pub header : FileHeader
  pub initialized' : Bool
  pub accepted : binary_init lib files initialized filename ≡ (success, binary, initialized')
  pub opened : binary.elf ≡ some elf
  pub headed : binary.header ≡ some header
  pub section : text_of lib elf header ≡ (success, some text)
  pub holds : segment_of lib elf header text ≡ (success, some segment)

-- Of which the copy can be made and scanned: the segment is loadable, no larger in the file than its
-- pages, and in the file, which is mapped, and the windows of the text do not wrap and have at most 4 GB.
pub record IsCopied {lib : Libelf} (calloc_at : Store → ℕ) (binary : Binary lib)
    (text : Section lib) (segment : Segment lib) (store : Store) : Type 0 where
  pub loads : segment_loadable segment ≡ true
  pub fits : segment_filesz segment ≤ page_up (segment_memsz segment)
  pub held : in_mapping binary (segment_offset segment) (segment_filesz segment) ≡ true
  pub backed : IsBacked (text_copy calloc_at text segment store)
  pub small : section_size text ≤ 2 ^ 32

module _ {lib : Libelf} (files : Files) {dr : Dr} (laws : Decodes dr) {chains : Chains}
    (chain_laws : ChainLaws chains) {mop : MetadataOp lib} (metadata_laws : MetadataLaws mop)
    (calloc_at : Store → ℕ) where
  -- The handle with its parts.
  abbrev pub with_parts : Pointer mop.Metadata → Binary lib → Handle lib dr chains mop
  with_parts p binary = record (unwritten lib dr chains mop) {
    metadata = p;
    transform = fresh;
    binary = some binary;
  }

  -- On a file that is accepted, with a section of the text and a loadable segment that holds its
  -- start, is no larger in the file than its pages, and is in the file, which is mapped, with metadata that can be initialised, and
  -- with the two objects and the pages granted, `rave_init` of a new handle ends, and faults only if
  -- some request for memory is refused. Whatever code it ends with, the pages hold the copy of the
  -- segment, the windows are those of the segment and of the text in it, each function of the
  -- transform has an order that counts a prologue of two instructions or more and an epilogue or more
  -- that mirror it, and lies in the text before its last byte, and the memory held is that
  -- before with the two objects, the pages, the functions' blocks, orders and sets, and some blocks
  -- that are lost. The links of destroyed instructions can still be read. The text has at most 4 GB and its two windows do not wrap.
  pub rave_init-Kept :
      (initialized : Bool) (filename : files.Name) (m : Machine) (p p' : Pointer mop.Metadata)
      (store : Store) (binary : Binary lib) (text : Section lib) (segment : Segment lib)
      → IsFound lib files initialized filename binary text segment
      → mop.create m.store ≡ (p, store)
      → is_null p ≡ false
      → granted store ≡ true
      → granted (with_block store) ≡ true
      → mop.init p binary ≡ ok (success, p')
      → dr.set_isa_mode ≡ true
      → IsCopied calloc_at binary text segment (with_block store)
      → Settles
          (Refuses store.grants)
          (λ (rc, initialized', h', m').
            (h : Handle lib dr chains mop) × (h' ≡ some h)
            × Kept lib dr chains mop
                (text_copy calloc_at text segment (with_block store))
                (with_pages calloc_at text segment (with_parts p binary) (with_block store))
                (with_copy calloc_at segment binary (record m { store = with_block store }))
                (h, m'))
          (rave_init lib files dr chains mop calloc_at initialized
            (some (unwritten lib dr chains mop))
            filename
            m)
  unfolding rave_init open_binary transform_create allocate
  rave_init-Kept initialized filename m p p' store binary text segment f creates not_null grant
        grant' opens mode c =
      let D = Refuses store.grants in
      let h : Handle lib dr chains mop = with_parts p binary in
      let m' : Machine = record m { store = with_block store } in
      let P : Handle lib dr chains mop × Machine → Type 0 =
        Kept lib dr chains mop (text_copy calloc_at text segment m'.store)
          (with_pages calloc_at text segment h m'.store) (with_copy calloc_at segment binary m') in
      let started =
        start_parts-Kept files laws chain_laws metadata_laws calloc_at text segment binary p' h m'
          opens refl mode refl c.loads grant' c.fits c.held c.backed c.small in
      let Q : Errno × Bool × Option (Handle lib dr chains mop) × Machine → Type 0 =
        λ (rc, i, h', m''). (h'' : Handle lib dr chains mop) × (h' ≡ some h'') × P (h'', m'') in
      let located =
        subst (Settles D (λ (rc, h', m''). P (h', m'')))
          (sym (
            located_lem lib files dr chains mop calloc_at binary h m' f.elf f.header f.opened
              f.headed text segment f.section f.holds))
          started in
      rw (creates, not_null, grant, f.accepted, (is_success_iff success).1 refl)
        (Settles-renamed D Q (λ (rc, i, h', m''). (rc, i, some h', m'')) _
          (Settles-bind D (λ (rc, h', m''). P (h', m''))
            (λ (rc, i, h', m''). Q (rc, i, some h', m''))
            (locate lib files dr chains mop calloc_at binary h m')
            (λ (rc, h', m''). ok (rc, f.initialized', h', m'')) located
            (λ (rc, h', m'') k. (h', refl, k))))

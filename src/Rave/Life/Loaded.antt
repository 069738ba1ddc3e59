-- ===== src/Rave/Life/Loaded.antt =====
-- What `rave_init` leaves behind the search for the section and the segment.
use librave.Base.{
  ℕ, ◌^◌, ◌≤◌, ◌≡◌, refl, ◌∙◌, true, some, ok, Settles, Settles-bind, Settles-weaken,
}
use librave.Errno.{success, is_success_iff}
use librave.Memory.{Pointer, fresh, at}
use librave.Util.{page_up}
use librave.Window.{Window}
use librave.Window.Range.{IsBacked}
use librave.Elf.Libelf.{Libelf}
use librave.Elf.Files.{Files}
use librave.Elf.Section.{Section, section_size}
use librave.Elf.Segment.{Segment, segment_loadable, segment_filesz, segment_memsz}
use librave.Elf.Binary.{Binary}
use librave.Transform.Dr.{Dr, Decodes}
use librave.Transform.Chains.{Chains, ChainLaws}
use librave.Transform.Store.{Store, granted}
use librave.Transform.Data.{Transformable}
use librave.Transform.Add.Rounds.{Refuses}
use librave.Transform.Life.Closed.{none_owned}
use librave.Transform.Life.{transform_init}
use librave.Metadata.{MetadataOp}
use librave.Metadata.Laws.{MetadataLaws}
use librave.Rave.Handle.{Machine, Handle, process_function}
use librave.Rave.Handle.Kept.{Kept, After, process_function-Kept}
use librave.Elf.Segment.{segment_offset}
use librave.Rave.Pages.{in_mapping, map_code_pages}
use librave.Rave.Life.{load, start_parts}
use librave.Rave.Life.Copies.{text_copy, with_pages, with_copy, map_code_pages_lem}

module _ {lib : Libelf} (files : Files) {dr : Dr} (laws : Decodes dr) {chains : Chains}
    (chain_laws : ChainLaws chains) {mop : MetadataOp lib} (metadata_laws : MetadataLaws mop)
    (calloc_at : Store → ℕ) where
  -- The metadata is not looked at.
  renewed :
      (w : Window) (h₁ : Handle lib dr chains mop) (m₁ : Machine) (h : Handle lib dr chains mop)
      (m : Machine) (p : Pointer mop.Metadata)
      → Kept lib dr chains mop w h₁ m₁ (h, m)
      → Kept lib dr chains mop w h₁ m₁ (record h { metadata = p }, m)
  renewed w h₁ m₁ h m p kept = record {
    text = kept.text;
    segment = kept.segment;
    binary = kept.binary;
    world = kept.world;
    same = kept.same;
    self = kept.self;
    transform = kept.transform;
    served = kept.served;
    lost = kept.lost;
    held = kept.held;
  }

  load-Kept :
      (text : Section lib) (segment : Segment lib) (h h₁ : Handle lib dr chains mop)
      (m m₁ : Machine) (w : Window)
      → map_code_pages lib dr chains mop calloc_at h text segment m ≡ ok (success, h₁, m₁)
      → h₁.text ≡ some w
      → IsBacked w
      → w.length ≤ 2 ^ 32
      → h₁.transform ≡ at chains.init
      → metadata_laws.Ready h₁.metadata
      → Settles
          (Refuses m₁.store.grants)
          (λ (rc, h', m'). Kept lib dr chains mop w h₁ m₁ (h', m'))
          (load lib files dr chains mop calloc_at text segment h m)
  unfolding load
  load-Kept text segment h h₁ m m₁ w e at_text b small unused ready =
      rw (e, (is_success_iff success).1 refl)
        (Settles-bind (Refuses m₁.store.grants) (λ (rc, p, s). Kept lib dr chains mop w h₁ m₁ s)
          (λ (rc, h', m'). Kept lib dr chains mop w h₁ m₁ (h', m')) _ _
          (metadata_laws.foreach_function-Settles (process_function lib dr chains mop)
            (Refuses m₁.store.grants) (Kept lib dr chains mop w h₁ m₁)
            (λ f s words kept.
              Settles-weaken (Refuses m₁.store.grants)
                (After lib dr laws chains chain_laws mop w h₁ m₁)
                (λ (rc, s'). Kept lib dr chains mop w h₁ m₁ s') _
                (process_function-Kept lib dr laws chains chain_laws mop w h₁ m₁ b small f words s
                  kept)
                (λ (rc, s') (e', kept'). kept'))
            h₁.metadata (h₁, m₁) ready
            (record {
              text = at_text;
              segment = refl;
              binary = refl;
              world = refl;
              same = refl;
              self = chains.init;
              transform = unused;
              served = rw (chain_laws.entries-init (Transformable dr.Instr chains.Head)) tt;
              lost = 0;
              held =
                  rw (chain_laws.entries-init (Transformable dr.Instr chains.Head))
                    (none_owned dr chains m₁.store);
            }))
          (λ (rc, p, (h', m')) kept. renewed w h₁ m₁ h' m' p kept))

  -- Only the segment and the binary of the handle before are looked at.
  rebased :
      (w : Window) (h₁ h₂ : Handle lib dr chains mop) (m₁ : Machine)
      (s : Handle lib dr chains mop × Machine)
      → h₁.segment ≡ h₂.segment
      → h₁.binary ≡ h₂.binary
      → Kept lib dr chains mop w h₁ m₁ s
      → Kept lib dr chains mop w h₂ m₁ s
  rebased w h₁ h₂ m₁ s segment binary kept = record {
    text = kept.text;
    segment = kept.segment ∙ segment;
    binary = kept.binary ∙ binary;
    world = kept.world;
    same = kept.same;
    self = kept.self;
    transform = kept.transform;
    served = kept.served;
    lost = kept.lost;
    held = kept.held;
  }

  transform_init_lem :
      (h : Handle lib dr chains mop)
      → h.transform ≡ fresh
      → dr.set_isa_mode ≡ true
      → transform_init dr chains h.transform ≡ ok (success, at chains.init)
  unfolding transform_init
  transform_init_lem h unwritten mode = rw (unwritten, transform_init, mode) refl

  -- With metadata that can be initialised, a transform that has not been written, a loadable
  -- segment that fits into its pages and that the file holds, granted pages, and a text of at most 4 GB whose two windows
  -- do not wrap, `rave_init` ends behind the search for the section and the segment, and faults only
  -- if some request for memory is refused. Whatever code it ends with, the pages hold the copy of
  -- the segment, the windows are those of the segment and of the text in it, each function of the
  -- transform has an order and epilogues that mirror its prologue and lies in the text before its last byte, and the memory held is that
  -- before with the pages, the functions' blocks, orders and sets, and some blocks that are lost.
  pub start_parts-Kept :
      (text : Section lib) (segment : Segment lib) (binary : Binary lib) (p : Pointer mop.Metadata)
      (h : Handle lib dr chains mop) (m : Machine)
      → mop.init h.metadata binary ≡ ok (success, p)
      → h.transform ≡ fresh
      → dr.set_isa_mode ≡ true
      → h.binary ≡ some binary
      → segment_loadable segment ≡ true
      → granted m.store ≡ true
      → segment_filesz segment ≤ page_up (segment_memsz segment)
      → in_mapping binary (segment_offset segment) (segment_filesz segment) ≡ true
      → IsBacked (text_copy calloc_at text segment m.store)
      → section_size text ≤ 2 ^ 32
      → Settles
          (Refuses m.store.grants)
          (λ (rc, h', m').
            Kept lib dr chains mop
              (text_copy calloc_at text segment m.store)
              (with_pages calloc_at text segment h m.store)
              (with_copy calloc_at segment binary m)
              (h', m'))
          (start_parts lib files dr chains mop calloc_at binary text segment h m)
  unfolding start_parts transform_init
  start_parts-Kept text segment binary p h m opens unwritten mode e loads grant fits held b small =
      let h₁ : Handle lib dr chains mop = record h { metadata = p; transform = at chains.init } in
      let w = text_copy calloc_at text segment m.store in
      let copy = with_copy calloc_at segment binary m in
      rw
        (
          opens,
          (is_success_iff success).1 refl,
          transform_init_lem h unwritten mode,
          (is_success_iff success).1 refl,
        )
        (Settles-weaken (Refuses m.store.grants)
          (λ (rc, h', m').
            Kept lib dr chains mop w (with_pages calloc_at text segment h₁ m.store) copy (h', m'))
          (λ (rc, h', m').
            Kept lib dr chains mop w (with_pages calloc_at text segment h m.store) copy (h', m'))
          _
          (load-Kept text segment h₁ (with_pages calloc_at text segment h₁ m.store) m copy w
            (map_code_pages_lem calloc_at text segment binary h₁ m e loads grant fits held) refl b
            small refl (metadata_laws.init-Ready h.metadata p binary opens))
          (λ (rc, h', m').
            rebased w (with_pages calloc_at text segment h₁ m.store)
              (with_pages calloc_at text segment h m.store) copy (h', m') refl refl))

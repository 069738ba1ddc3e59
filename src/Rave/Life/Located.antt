-- ===== src/Rave/Life/Located.antt =====
-- The search for the section of the text and for the segment that holds its start.
use librave.Base.{
  ℕ, ◌+◌, List, false, none, some, Option, Outcome, ok, fault, ◌≡◌, ◌≢◌, refl, sym, subst, inl, inr,
  Bool-cases, sign_extend,
}
use librave.Errno.{Errno, success, is_success, is_success_iff, failing}
use librave.Elf.Libelf.{Libelf, FileHeader}
use librave.Elf.Files.{Files}
use librave.Elf.Section.{Section, section_address}
use librave.Elf.Segment.{Segment}
use librave.Elf.Binary.{Binary, binary_find_section, binary_find_segment}
use librave.Elf.Binary.Accepts.{IsAccepted}
use librave.Elf.Binary.Find.{
  Finds, none_left, unreadable, hit, passed, binary_find_section-Finds, Segments, no_more,
  no_header, holds, lacks, binary_find_segment-Segments,
}
use librave.Transform.Dr.{Dr}
use librave.Transform.Chains.{Chains}
use librave.Transform.Store.{Store}
use librave.Metadata.{MetadataOp}
use librave.Rave.Handle.{Machine, Handle, unwritten}
use librave.Rave.Life.{text_name, close_parts, abort, start_parts, locate}

module _ (lib : Libelf) (elf : lib.Elf) where
  -- A search that succeeds has written what it looked for.
  Finds-some :
      (shstrndx : ℕ) (target : List ℕ) (scns : List lib.Scn) (r : Errno × Option (Section lib))
      → Finds lib elf shstrndx target scns r
      → r.0 ≡ success
      → (text : Section lib) × (r.1 ≡ some text)
  Finds-some shstrndx target scns r none_left e = absurd (cc)
  Finds-some shstrndx target scns r (unreadable e') e = absurd (cc)
  Finds-some shstrndx target scns r (hit e' named same) e = (_, refl)
  Finds-some shstrndx target scns r (passed {scns = rest} here there) e =
      Finds-some shstrndx target rest r there e

  Segments-some :
      (address left i : ℕ) (last : Option (Segment lib)) (r : Errno × Option (Segment lib))
      → Segments lib elf address left i last r
      → r.0 ≡ success
      → (segment : Segment lib) × (r.1 ≡ some segment)
  Segments-some address left i last r no_more e = absurd (cc)
  Segments-some address left i last r (no_header e') e = absurd (cc)
  Segments-some address left i last r (holds header e' contained) e = (_, refl)
  Segments-some address left i last r (lacks {left = left'} header e' out there) e =
      Segments-some address left' (i + 1) _ r there e

-- The searches for the section of the text, and for the segment that holds its start.
module _ (lib : Libelf) where
  abbrev pub text_of : lib.Elf → FileHeader → Errno × Option (Section lib)
  text_of elf header = binary_find_section lib elf header text_name

  abbrev pub segment_of : lib.Elf → FileHeader → Section lib → Errno × Option (Segment lib)
  segment_of elf header text =
      binary_find_segment lib elf header (sign_extend (section_address text))

module _ (lib : Libelf) (files : Files) (dr : Dr) (chains : Chains) (mop : MetadataOp lib)
    (calloc_at : Store → ℕ) where
  abbrev pub Rave : Type 0
  Rave = Handle lib dr chains mop

  abbrev pub After : Type 0
  After = Outcome (Errno × Rave × Machine)

  -- Behind `binary_init`, where the file is accepted.
  pub data Located (binary : Binary lib) (h : Rave) (m : Machine) : After → Type 0 where
    no_section :
        (elf : lib.Elf) (header : FileHeader)
        → binary.elf ≡ some elf
        → binary.header ≡ some header
        → (text_of lib elf header).0 ≢ success
        → Located binary h m fault
    no_segment :
        (elf : lib.Elf) (header : FileHeader) (text : Section lib) {rc : Errno}
        → binary.elf ≡ some elf
        → binary.header ≡ some header
        → text_of lib elf header ≡ (success, some text)
        → (segment_of lib elf header text).0 ≡ rc
        → rc ≢ success
        → Located binary h m (ok (rc, h, m))
    located :
        (elf : lib.Elf) (header : FileHeader) (text : Section lib) (segment : Segment lib)
        → binary.elf ≡ some elf
        → binary.header ≡ some header
        → text_of lib elf header ≡ (success, some text)
        → segment_of lib elf header text ≡ (success, some segment)
        → Located binary h m (start_parts lib files dr chains mop calloc_at binary text segment h m)

  pub abort-fault :
      (rc : Errno) (h : Rave) (m : Machine)
      → h.segment ≡ none
      → abort lib files dr chains mop calloc_at rc h m ≡ fault
  unfolding abort close_parts
  abort-fault rc h m e = rw (e) refl

  module _ (binary : Binary lib) (h : Rave) (m : Machine) (elf : lib.Elf) (header : FileHeader)
      (opened : binary.elf ≡ some elf) (headed : binary.header ≡ some header) where
    no_section_lem :
        is_success (text_of lib elf header).0 ≡ false
        → h.segment ≡ none
        → locate lib files dr chains mop calloc_at binary h m ≡ fault
    unfolding locate
    no_section_lem t unwritten =
        rw (opened, headed, t, abort-fault (text_of lib elf header).0 h m unwritten) refl

    no_segment_lem :
        (text : Section lib)
        → text_of lib elf header ≡ (success, some text)
        → is_success (segment_of lib elf header text).0 ≡ false
        → locate lib files dr chains mop calloc_at binary h m
          ≡ ok ((segment_of lib elf header text).0, h, m)
    unfolding locate
    no_segment_lem text e t = rw (opened, headed, e, (is_success_iff success).1 refl, t) refl

    pub located_lem :
        (text : Section lib) (segment : Segment lib)
        → text_of lib elf header ≡ (success, some text)
        → segment_of lib elf header text ≡ (success, some segment)
        → locate lib files dr chains mop calloc_at binary h m
          ≡ start_parts lib files dr chains mop calloc_at binary text segment h m
    unfolding locate
    located_lem text segment e e' =
        rw (opened, headed, e, (is_success_iff success).1 refl, e', (is_success_iff success).1 refl)
          refl

  pub locate-Located :
      (binary : Binary lib) (h : Rave) (m : Machine)
      → IsAccepted lib binary
      → h.segment ≡ none
      → Located binary h m (locate lib files dr chains mop calloc_at binary h m)
  locate-Located binary h m a unwritten =
      let sections = text_of lib a.elf a.header in
      elim (Bool-cases (is_success sections.0)) [
        | inr t ↦
            subst (Located binary h m)
              (sym (no_section_lem binary h m a.elf a.header a.opened a.headed t unwritten))
              (no_section a.elf a.header a.opened a.headed (failing sections.0 t))
        | inl t ↦
            let found = (is_success_iff sections.0).0 t in
            let (text, at_text) =
              Finds-some lib a.elf a.header.e_shstrndx text_name (lib.sections a.elf) sections
                (binary_find_section-Finds lib a.elf a.header text_name) found in
            let segments = segment_of lib a.elf a.header text in
            let e : sections ≡ (success, some text) = λ i. (found i, at_text i) in
            elim (Bool-cases (is_success segments.0)) [
              | inr t' ↦
                  subst (Located binary h m)
                    (sym (no_segment_lem binary h m a.elf a.header a.opened a.headed text e t'))
                    (no_segment a.elf a.header text a.opened a.headed e refl
                      (failing segments.0 t'))
              | inl t' ↦
                  let found' = (is_success_iff segments.0).0 t' in
                  let (segment, at_segment) =
                    Segments-some lib a.elf (sign_extend (section_address text)) a.header.e_phnum 0
                      none segments
                      (binary_find_segment-Segments lib a.elf a.header
                        (sign_extend (section_address text)))
                      found' in
                  let e' : segments ≡ (success, some segment) = λ i. (found' i, at_segment i) in
                  subst (Located binary h m)
                    (sym
                      (located_lem binary h m a.elf a.header a.opened a.headed text segment e e'))
                    (located a.elf a.header text segment a.opened a.headed e e')
            ]
      ]

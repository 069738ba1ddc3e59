-- ===== src/Elf/Binary/Find.antt =====
-- Which section and which segment are found.
use mathlib.Core.Path.{ap₂}
use librave.Base.{
  ℕ, zero, suc, ◌+◌, ◌≡◌, ◌↔◌, inl, inr, refl, true, false, Option, none, some, List, [], ◌∷◌, ◌++◌,
  arith, Bool-cases, Option-cases,
}
use librave.Errno.{
  Errno, success, esection_header, eno_section, eno_segment, eprogram_header, is_success,
}
use librave.Elf.Libelf.{Libelf, FileHeader, SectionHeader, ProgramHeader}
use librave.Elf.Section.{Section, loaded}
use librave.Elf.Segment.{Segment, segment_contains}
use librave.Elf.Binary.{
  strncmp_zero, strncmp_equal, find_section_loop, binary_find_section, find_segment_loop,
  binary_find_segment,
}

-- The comparison accepts exactly the names that begin with the target.
pub strncmp_equal_iff :
    (target iter : List ℕ)
    → (strncmp_equal target iter ≡ true) ↔ ((rest : List ℕ) × (iter ≡ target ++ rest))
unfolding strncmp_equal strncmp_zero
strncmp_equal_iff [] iter = ((λ h. (iter, refl)), (λ h. refl))
strncmp_equal_iff (t ∷ target) [] = ((λ h. absurd (cc)), (λ (rest, e). absurd (cc)))
strncmp_equal_iff (t ∷ target) (c ∷ iter) =
    let ih = strncmp_equal_iff target iter in
    (
      (λ h.
          let (rest, e) = ih.0 (ground arith) in
          let same : c ≡ t = ground arith in (rest, ap₂ ◌∷◌ same e)),
      (λ (rest, e).
          let tails : iter ≡ target ++ rest = cc in
          let same : t ≡ c = cc in let found = ih.1 (rest, tails) in ground arith),
    )

module _ (lib : Libelf) (elf : lib.Elf) (shstrndx : ℕ) (target : List ℕ) where
  -- A section that the search passes over: its header can be read, and it has no name or one that
  -- does not begin with the target.
  pub data Passed (scn : lib.Scn) : Type 0 where
    unnamed :
        {header : SectionHeader}
        → lib.gelf_getshdr scn ≡ some header
        → lib.elf_strptr elf shstrndx header.sh_name ≡ none
        → Passed scn
    other :
        {header : SectionHeader} {name : List ℕ}
        → lib.gelf_getshdr scn ≡ some header
        → lib.elf_strptr elf shstrndx header.sh_name ≡ some name
        → strncmp_equal target name ≡ false
        → Passed scn

  -- What the search over some sections comes back with.
  pub data Finds : List lib.Scn → Errno × Option (Section lib) → Type 0 where
    none_left : Finds [] (eno_section, none)
    unreadable :
        {scn : lib.Scn} {scns : List lib.Scn}
        → lib.gelf_getshdr scn ≡ none
        → Finds (scn ∷ scns) (esection_header, none)
    hit :
        {scn : lib.Scn} {scns : List lib.Scn} {header : SectionHeader} {name : List ℕ}
        → lib.gelf_getshdr scn ≡ some header
        → lib.elf_strptr elf shstrndx header.sh_name ≡ some name
        → strncmp_equal target name ≡ true
        → Finds (scn ∷ scns) (
          loaded lib (lib.elf_getdata scn),
          some (record { elf = elf; header = header; data_ptr = lib.elf_getdata scn; name = name }),
        )
    passed :
        {scn : lib.Scn} {scns : List lib.Scn} {r : Errno × Option (Section lib)}
        → Passed scn
        → Finds scns r
        → Finds (scn ∷ scns) r

  find_section_loop-Finds :
      (scns : List lib.Scn) → Finds scns (find_section_loop lib elf shstrndx target scns)
  unfolding find_section_loop
  find_section_loop-Finds [] = none_left
  find_section_loop-Finds (scn ∷ scns) =
      let rest = find_section_loop-Finds scns in
      elim (Option-cases (lib.gelf_getshdr scn)) [
        | inl e ↦ rw (e, find_section_loop) (unreadable e)
        | inr (header, e) ↦ elim (Option-cases (lib.elf_strptr elf shstrndx header.sh_name)) [
          | inl e' ↦ rw (e, find_section_loop, e') (passed (unnamed e e') rest)
          | inr (name, e') ↦ elim (Bool-cases (strncmp_equal target name)) [
            | inl t ↦ rw (e, find_section_loop, e', t) (hit e e' t)
            | inr t ↦ rw (e, find_section_loop, e', t) (passed (other e e' t) rest)
          ]
        ]
      ]

-- The search for a section passes over those that have no name or whose name does not begin with
-- the target, and ends at the first whose header cannot be read, at the first whose name begins
-- with the target, which it returns with its header, its name and its data, or at the end.
pub binary_find_section-Finds :
    (lib : Libelf) (elf : lib.Elf) (header : FileHeader) (target : List ℕ)
    → Finds lib elf header.e_shstrndx target
        (lib.sections elf)
        (binary_find_section lib elf header target)
unfolding binary_find_section
binary_find_section-Finds lib elf header target =
    find_section_loop-Finds lib elf header.e_shstrndx target (lib.sections elf)

module _ (lib : Libelf) (elf : lib.Elf) (address : ℕ) where
  -- What the search over `left` program headers from number `i` on comes back with.
  pub data Segments : ℕ → ℕ → Option (Segment lib) → Errno × Option (Segment lib) → Type 0 where
    no_more : {i : ℕ} {last : Option (Segment lib)} → Segments 0 i last (eno_segment, last)
    no_header :
        {left i : ℕ} {last : Option (Segment lib)}
        → lib.gelf_getphdr elf i ≡ none
        → Segments (suc left) i last (eprogram_header, last)
    holds :
        {left i : ℕ} {last : Option (Segment lib)} (header : ProgramHeader)
        → lib.gelf_getphdr elf i ≡ some header
        → segment_contains {lib = lib} (record { elf = elf; header = header }) address ≡ true
        → Segments (suc left) i last (success, some (record { elf = elf; header = header }))
    lacks :
        {left i : ℕ} {last : Option (Segment lib)} {r : Errno × Option (Segment lib)}
        (header : ProgramHeader)
        → lib.gelf_getphdr elf i ≡ some header
        → segment_contains {lib = lib} (record { elf = elf; header = header }) address ≡ false
        → Segments left (i + 1) (some (record { elf = elf; header = header })) r
        → Segments (suc left) i last r

  find_segment_loop-Segments :
      (left i : ℕ) (last : Option (Segment lib))
      → Segments left i last (find_segment_loop lib elf address left i last)
  unfolding find_segment_loop is_success
  find_segment_loop-Segments zero i last = no_more
  find_segment_loop-Segments (suc left) i last = elim (Option-cases (lib.gelf_getphdr elf i)) [
    | inl e ↦ rw (e, find_segment_loop) (no_header e)
    | inr (header, e) ↦
        let here : Segment lib = record { elf = elf; header = header } in
        let rest = find_segment_loop-Segments left (i + 1) (some here) in
        elim (Bool-cases (segment_contains here address)) [
          | inl t ↦ rw (e, find_segment_loop, t) (holds header e t)
          | inr t ↦ rw (e, find_segment_loop, t) (lacks header e t rest)
        ]
  ]

-- The search for a segment tries the program headers by number: it ends with success at the first
-- that holds the address, with an error at the first that cannot be read, or behind the last.
pub binary_find_segment-Segments :
    (lib : Libelf) (elf : lib.Elf) (header : FileHeader) (address : ℕ)
    → Segments lib elf address header.e_phnum 0 none (binary_find_segment lib elf header address)
unfolding binary_find_segment
binary_find_segment-Segments lib elf header address =
    find_segment_loop-Segments lib elf address header.e_phnum 0 none

-- ===== src/Elf/Binary.antt =====
-- src/binary.c
pub mod Find
pub mod Accepts
use librave.Base.{
  ℕ, zero, suc, ◌+◌, ◌-◌, Bool, true, false, not, ◌&&◌, ◌||◌, Option, none, some, List, [], ◌∷◌,
  length, ◌==◌, if◌then◌else◌, to_int, sign_extend,
}
use librave.Errno.{
  Errno, success, eelf_init, eelf_memory, eelf_not_supported, eelf_header, efile_open, efile_stat,
  emapping, efile_close, esection_header, eno_section, eno_segment, eprogram_header, is_success,
}
use librave.Elf.Libelf.{Libelf, FileHeader}
use librave.Elf.Files.{Files}
use librave.Elf.Section.{Section, section_init}
use librave.Elf.Segment.{Segment, segment_init, segment_contains}

-- `none` is NULL in `elf`, and an indeterminate header; 0 is NULL in `mapping`.
pub record Binary (lib : Libelf) : Type 0 where
  pub elf : Option lib.Elf
  pub header : Option FileHeader
  pub mapping : ℕ
  pub file_size : ℕ

-- The constants of elf.h and libelf.h.
abbrev pub elf_k_elf : ℕ
elf_k_elf = 3

abbrev pub elf_class_64 : ℕ
elf_class_64 = 2

abbrev pub et_exec : ℕ
et_exec = 2

abbrev pub et_dyn : ℕ
et_dyn = 3

abbrev pub em_x86_64 : ℕ
em_x86_64 = 62

unfoldable pub check_arch : ℕ → Bool
check_arch arch = arch == em_x86_64

-- The checks of the header.
unfoldable pub check_header : FileHeader → Errno
unfolding check_arch
check_header header =
    if not (header.e_type == et_exec) && not (header.e_type == et_dyn)
    then eelf_not_supported
    else if not (check_arch header.e_machine)
    then eelf_not_supported
    else success

module _ (lib : Libelf) (files : Files) where
  -- The static variable `initialized` is set before the library is asked, and is never cleared.
  unfoldable pub init_libelf : Bool → Errno × Bool
  init_libelf true = (success, true)
  init_libelf false = ((if lib.version_ok then success else eelf_init), true)

  -- Behind `fstat`.
  unfoldable pub map_open : Binary lib → ℕ → ℕ → Errno × Binary lib
  map_open self fd size =
      let file_size = to_int size in
      let mapping = files.mmap (sign_extend file_size) fd in
      let self' = record self { file_size = file_size; mapping = mapping } in
      if mapping == 0
      then (emapping, self')
      else if not (files.close_file fd)
      then (efile_close, self')
      else (success, self')

  unfoldable pub map_file : Binary lib → files.Name → Errno × Binary lib
  unfolding map_open
  map_file self filename = elim (files.open_file filename) [
    | none ↦ (efile_open, self)
    | some fd ↦ elim (files.fstat fd) [
      | none ↦ (efile_stat, self)
      | some size ↦ map_open self fd size
    ]
  ]

  -- Behind `elf_memory`.
  unfoldable pub check_elf : Binary lib → lib.Elf → Errno × Binary lib
  unfolding check_header
  check_elf self elf =
      let opened = record self { elf = some elf } in
      if not (lib.elf_kind elf == elf_k_elf) && not (lib.gelf_getclass elf == elf_class_64)
      then (eelf_not_supported, opened)
      else elim (lib.gelf_getehdr elf) [
        | none ↦ (eelf_header, opened)
        | some header ↦ (check_header header, record opened { header = some header })
      ]

  -- The content of `self` before the call is written over.
  unfoldable pub binary_init : Bool → files.Name → Errno × Binary lib × Bool
  unfolding init_libelf map_file check_elf
  binary_init initialized filename =
      let blank : Binary lib = record { elf = none; header = none; mapping = 0; file_size = 0 } in
      let (rc, initialized') = init_libelf initialized in
      let (rc', mapped) = map_file blank filename in
      if not (is_success rc)
      then (rc, blank, initialized')
      else if not (is_success rc')
      then (rc', mapped, initialized')
      else elim (lib.elf_memory mapped.mapping (sign_extend mapped.file_size)) [
        | none ↦ (eelf_memory, mapped, initialized')
        | some elf ↦ let (rc'', self) = check_elf mapped elf in (rc'', self, initialized')
      ]

  -- A mapping that cannot be unmapped stays. `none` is NULL.
  unfoldable pub binary_close : Option (Binary lib) → Errno × Option (Binary lib)
  binary_close none = (success, none)
  binary_close (some self) =
      let ended = record self { elf = none } in
      if not (self.mapping == 0) && files.munmap self.mapping (sign_extend self.file_size)
      then (success, some (record ended { mapping = 0 }))
      else (success, some ended)

-- `strncmp(s, t, n) == 0`, of strings without their ends: at most `n` characters are compared, and no
-- more behind the end of a string.
unfoldable pub strncmp_zero : ℕ → List ℕ → List ℕ → Bool
strncmp_zero zero s t = true
strncmp_zero (suc n) [] [] = true
strncmp_zero (suc n) [] (d ∷ t) = false
strncmp_zero (suc n) (c ∷ s) [] = false
strncmp_zero (suc n) (c ∷ s) (d ∷ t) = c == d && strncmp_zero n s t

-- `strncmp(target, iter, strlen(target)) == 0`
unfoldable pub strncmp_equal : List ℕ → List ℕ → Bool
unfolding strncmp_zero
strncmp_equal target iter = strncmp_zero (length target) target iter

module _ (lib : Libelf) where
  -- The loop over the sections. A section with no name is passed over; the variable of the caller
  -- is only written when a section is found.
  unfoldable pub find_section_loop :
      lib.Elf → ℕ → List ℕ → List lib.Scn → Errno × Option (Section lib)
  unfolding section_init
  find_section_loop elf shstrndx target [] = (eno_section, none)
  find_section_loop elf shstrndx target (scn ∷ scns) =
      let rest = find_section_loop elf shstrndx target scns in
      elim (lib.gelf_getshdr scn) [
        | none ↦ (esection_header, none)
        | some shdr ↦ elim (lib.elf_strptr elf shstrndx shdr.sh_name) [
          | none ↦ rest
          | some iter ↦
              if strncmp_equal target iter
              then (let (rc, section) = section_init lib elf shdr iter scn in (rc, some section))
              else rest
        ]
      ]

  unfoldable pub binary_find_section : lib.Elf → FileHeader → List ℕ → Errno × Option (Section lib)
  unfolding find_section_loop
  binary_find_section elf header target =
      find_section_loop elf header.e_shstrndx target (lib.sections elf)

  -- The loop over the program headers, with `left` of them to go; the variable of the caller keeps
  -- the last segment that was looked at.
  unfoldable pub find_segment_loop :
      lib.Elf → ℕ → ℕ → ℕ → Option (Segment lib) → Errno × Option (Segment lib)
  unfolding segment_init
  find_segment_loop elf address zero i segment = (eno_segment, segment)
  find_segment_loop elf address (suc left) i segment = elim (lib.gelf_getphdr elf i) [
    | none ↦ (eprogram_header, segment)
    | some phdr ↦
        let (rc, here) = segment_init elf phdr in
        let rest = find_segment_loop elf address left (i + 1) (some here) in
        if not (is_success rc)
        then rest
        else if segment_contains here address
        then (success, some here)
        else rest
  ]

  unfoldable pub binary_find_segment : lib.Elf → FileHeader → ℕ → Errno × Option (Segment lib)
  unfolding find_segment_loop
  binary_find_segment elf header address = find_segment_loop elf address header.e_phnum 0 none

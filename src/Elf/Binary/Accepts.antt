-- ===== src/Elf/Binary/Accepts.antt =====
-- Which files `binary_init` accepts.
use librave.Base.{
  ap, ℕ, ◌≡◌, ◌⊎◌, inl, inr, Bool, true, false, not, ◌&&◌, none, some, arith, ◌==◌, Bool-cases,
  Option-cases, sign_extend, to_int,
}
use librave.Errno.{success, is_success, is_success_iff}
use librave.Elf.Libelf.{Libelf, FileHeader}
use librave.Elf.Files.{Files, map_failed}
use librave.Elf.Binary.{
  Binary, elf_k_elf, elf_class_64, et_exec, et_dyn, em_x86_64, check_header, check_elf, init_libelf,
  map_file, binary_init,
}

-- What an accepted file has.
pub record IsAccepted (lib : Libelf) (self : Binary lib) : Type 0 where
  pub elf : lib.Elf
  pub header : FileHeader
  pub opened : self.elf ≡ some elf
  pub headed : self.header ≡ some header
  pub read : lib.gelf_getehdr elf ≡ some header
  pub kind : (lib.elf_kind elf ≡ elf_k_elf) ⊎ (lib.gelf_getclass elf ≡ elf_class_64)
  pub type : (header.e_type ≡ et_exec) ⊎ (header.e_type ≡ et_dyn)
  pub machine : header.e_machine ≡ em_x86_64

check_header_lem :
    (header : FileHeader)
    → check_header header ≡ success
    → ((header.e_type ≡ et_exec) ⊎ (header.e_type ≡ et_dyn)) × (header.e_machine ≡ em_x86_64)
unfolding check_header
check_header_lem header h = grind arith

module _ (lib : Libelf) (files : Files) where
  accepted :
      (self self' : Binary lib) (elf : lib.Elf) (header : FileHeader)
      → lib.gelf_getehdr elf ≡ some header
      → (not (lib.elf_kind elf == elf_k_elf) && not (lib.gelf_getclass elf == elf_class_64)) ≡ false
      → check_header header ≡ success
      → record self { elf = some elf; header = some header } ≡ self'
      → IsAccepted lib self'
  accepted self self' elf header e kinds ok_header same =
      let checked = check_header_lem header ok_header in
      record {
        elf = elf;
        header = header;
        opened = cc;
        headed = cc;
        read = e;
        kind = grind arith;
        type = checked.0;
        machine = checked.1;
      }

  check_elf-IsAccepted :
      (self self' : Binary lib) (elf : lib.Elf)
      → check_elf lib files self elf ≡ (success, self')
      → IsAccepted lib self'
  unfolding check_elf
  check_elf-IsAccepted self self' elf h =
      elim (Bool-cases
        (not (lib.elf_kind elf == elf_k_elf) && not (lib.gelf_getclass elf == elf_class_64))) [
          | inl bad ↦ absurd (cc (rw (check_elf, bad) at h))
          | inr kinds ↦ elim (Option-cases (lib.gelf_getehdr elf)) [
            | inl e ↦ absurd (cc (rw (check_elf, kinds, e) at h))
            | inr (header, e) ↦
                let h' = rw (check_elf, kinds, e) at h in
                accepted self self' elf header e kinds (ap (λ p. p.0) h') (ap (λ p. p.1) h')
          ]
        ]

  -- Whatever file `binary_init` accepts was opened by libelf, has a header that could be read, says
  -- that it is an executable or a shared object for x86-64, and is of the ELF kind or of the 64-bit
  -- class (the code does not ask for both).
  pub binary_init-IsAccepted :
      (initialized initialized' : Bool) (filename : files.Name) (self : Binary lib)
      → binary_init lib files initialized filename ≡ (success, self, initialized')
      → IsAccepted lib self
  unfolding binary_init
  binary_init-IsAccepted initialized initialized' filename self h =
      let blank : Binary lib = record { elf = none; header = none; mapping = 0; file_size = 0 } in
      let rc = (init_libelf lib files initialized).0 in
      let rc' = (map_file lib files blank filename).0 in
      let mapped = (map_file lib files blank filename).1 in
      elim (Bool-cases (is_success rc)) [
        | inr bad ↦
            let e = rw (binary_init, bad) at h in
            absurd (ground (arith, is_success_iff rc, ap (λ p. p.0) e))
        | inl good ↦ elim (Bool-cases (is_success rc')) [
          | inr bad ↦
              let e = rw (binary_init, good, bad) at h in
              absurd (ground (arith, is_success_iff rc', ap (λ p. p.0) e))
          | inl good' ↦
              elim (Option-cases (lib.elf_memory mapped.mapping (sign_extend mapped.file_size))) [
                | inl e ↦ absurd (cc (rw (binary_init, good, good', e) at h))
                | inr (elf, e) ↦
                    let h' = rw (binary_init, good, good', e) at h in
                    let r = check_elf lib files mapped elf in
                    let checked : r ≡ (success, self) = λ i. ((h' i).0, (h' i).1) in
                    check_elf-IsAccepted mapped self elf checked
              ]
        ]
      ]

  -- A 32-bit ELF file whose header is that of an x86-64 executable passes every check.
  pub check_elf-class_32 :
      (self : Binary lib) (elf : lib.Elf) (header : FileHeader)
      → lib.elf_kind elf ≡ elf_k_elf
      → lib.gelf_getclass elf ≡ 1
      → lib.gelf_getehdr elf ≡ some header
      → header.e_type ≡ et_exec
      → header.e_machine ≡ em_x86_64
      → check_elf lib files self elf
        ≡ (success, record self { elf = some elf; header = some header })
  unfolding check_elf
  check_elf-class_32 self elf header kind class e type machine =
      rw (check_elf, kind, e, type, machine)

  -- If `mmap` fails, which it reports by `MAP_FAILED` and not by NULL, `map_file` still reports
  -- success, and the binary keeps that pointer as its mapping.
  pub map_file-map_failed :
      (self : Binary lib) (filename : files.Name) (fd size : ℕ)
      → files.open_file filename ≡ some fd
      → files.fstat fd ≡ some size
      → files.mmap (sign_extend (to_int size)) fd ≡ map_failed
      → files.close_file fd ≡ true
      → map_file lib files self filename
        ≡ (success, record self { mapping = map_failed; file_size = to_int size })
  unfolding map_file
  map_file-map_failed self filename fd size opened sized failed closed =
      rw (map_file, opened, sized, failed, closed)

-- ===== src/Rave/Life/Failures.antt =====
-- What `rave_init` does when it cannot open the file.
use librave.Base.{ℕ, Bool, false, some, fault, ◌≡◌, refl}
use librave.Errno.{is_success}
use librave.Elf.Libelf.{Libelf}
use librave.Elf.Files.{Files}
use librave.Elf.Binary.{binary_init}
use librave.Transform.Dr.{Dr}
use librave.Transform.Chains.{Chains}
use librave.Transform.Store.{Store}
use librave.Transform.Life.{transform_create}
use librave.Metadata.{MetadataOp}
use librave.Rave.Handle.{Machine, unwritten}
use librave.Rave.Life.{is_null, close_parts, abort, open_binary, rave_init}

module _ (lib : Libelf) (files : Files) (dr : Dr) (chains : Chains) (mop : MetadataOp lib)
    (calloc_at : Store → ℕ) where
  -- When both objects are granted and the file cannot be opened, `rave_init` of a new handle closes
  -- fields that it has not written yet: it frees an indeterminate pointer.
  pub rave_init-fault :
      (initialized : Bool) (filename : files.Name) (m : Machine)
      → is_null (mop.create m.store).0 ≡ false
      → is_null (transform_create dr chains (mop.create m.store).1).0 ≡ false
      → is_success (binary_init lib files initialized filename).0 ≡ false
      → rave_init lib files dr chains mop calloc_at initialized
          (some (unwritten lib dr chains mop))
          filename
          m
        ≡ fault
  unfolding rave_init open_binary abort close_parts
  rave_init-fault initialized filename m metadata transform unopened =
      rw (metadata, transform, unopened) (refl)

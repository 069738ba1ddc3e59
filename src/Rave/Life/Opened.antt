-- ===== src/Rave/Life/Opened.antt =====
-- The ways that `rave_init` takes through the file.
use librave.Base.{
  ℕ, Bool, false, none, some, Outcome, ok, fault, ◌>>=◌, ◌≡◌, ◌≢◌, refl, inl, inr, Bool-cases,
}
use librave.Errno.{Errno, success, is_success, is_success_iff, failing}
use librave.Elf.Libelf.{Libelf}
use librave.Elf.Files.{Files}
use librave.Elf.Binary.{Binary, binary_init}
use librave.Elf.Binary.Accepts.{IsAccepted, binary_init-IsAccepted}
use librave.Transform.Dr.{Dr}
use librave.Transform.Chains.{Chains}
use librave.Transform.Store.{Store}
use librave.Transform.Life.{transform_create}
use librave.Metadata.{MetadataOp}
use librave.Rave.Handle.{Machine, Handle, unwritten}
use librave.Rave.Life.{is_null, open_binary, rave_init}
use librave.Rave.Life.Located.{Located, abort-fault, locate-Located}

module _ (lib : Libelf) (files : Files) (dr : Dr) (chains : Chains) (mop : MetadataOp lib)
    (calloc_at : Store → ℕ) where
  abbrev Rave : Type 0
  Rave = Handle lib dr chains mop

  abbrev After : Type 0
  After = Outcome (Errno × Rave × Machine)

  abbrev with_binary : Binary lib → Rave → Rave
  with_binary binary h = record h { binary = some binary }

  -- From a handle whose windows have not been written.
  pub data Opened (initialized : Bool) (filename : files.Name) (h : Rave) (m : Machine)
      : Outcome (Errno × Bool × Rave × Machine) → Type 0 where
    unopened :
        (binary_init lib files initialized filename).0 ≢ success
        → Opened initialized filename h m fault
    accepted :
        {r : After} (binary : Binary lib) (initialized' : Bool)
        → binary_init lib files initialized filename ≡ (success, binary, initialized')
        → IsAccepted lib binary
        → Located lib files dr chains mop calloc_at binary (with_binary binary h) m r
        → Opened initialized filename h m (r >>= λ (rc, h', m'). ok (rc, initialized', h', m'))

  open_binary-Opened :
      (initialized : Bool) (filename : files.Name) (h : Rave) (m : Machine)
      → h.segment ≡ none
      → Opened initialized filename h m
          (open_binary lib files dr chains mop calloc_at initialized filename h m)
  unfolding open_binary
  open_binary-Opened initialized filename h m unwritten =
      let r = binary_init lib files initialized filename in
      let h' = with_binary r.1 h in
      elim (Bool-cases (is_success r.0)) [
        | inr t ↦
            rw (t, abort-fault lib files dr chains mop calloc_at r.0 h' m unwritten)
              (unopened (failing r.0 t))
        | inl t ↦
            let good : binary_init lib files initialized filename ≡ (success, r.1, r.2) =
              λ i. ((is_success_iff r.0).0 t i, r.1, r.2) in
            let a = binary_init-IsAccepted lib files initialized r.2 filename r.1 good in
            rw (t) (
              accepted r.1 r.2 good a
                (locate-Located lib files dr chains mop calloc_at r.1 h' m a unwritten))
      ]

  -- When both objects are granted, `rave_init` of a new handle faults if the file is not accepted or
  -- has no section of the text that can be read, since it closes fields that it has not written yet.
  -- If no segment holds the start of the text, it returns the code of that search and closes
  -- nothing: the file that it has opened stays in the handle. Otherwise it goes on with the section
  -- and the segment found.
  pub rave_init-Opened :
      (initialized : Bool) (filename : files.Name) (m : Machine)
      → is_null (mop.create m.store).0 ≡ false
      → is_null (transform_create dr chains (mop.create m.store).1).0 ≡ false
      → (r : Outcome (Errno × Bool × Rave × Machine)) × Opened initialized filename
          (record (unwritten lib dr chains mop) {
            metadata = (mop.create m.store).0;
            transform = (transform_create dr chains (mop.create m.store).1).0;
          })
          (record m { store = (transform_create dr chains (mop.create m.store).1).1 })
          r
        × (rave_init lib files dr chains mop calloc_at initialized
              (some (unwritten lib dr chains mop))
              filename
              m
            ≡ (r >>= λ (rc, initialized', h, m'). ok (rc, initialized', some h, m')))
  unfolding rave_init
  rave_init-Opened initialized filename m metadata transform =
      let h : Rave = record (unwritten lib dr chains mop) {
        metadata = (mop.create m.store).0;
        transform = (transform_create dr chains (mop.create m.store).1).0;
      } in
      let m' : Machine = record m {
        store = (transform_create dr chains (mop.create m.store).1).1;
      } in
      (
        open_binary lib files dr chains mop calloc_at initialized filename h m',
        open_binary-Opened initialized filename h m' refl,
        rw (metadata, transform) refl,
      )

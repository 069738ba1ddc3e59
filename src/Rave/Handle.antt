-- ===== src/Rave/Handle.antt =====
-- `struct rave_handle`, and the functions that the metadata hands to the transformation.
pub mod Bounds
pub mod Local
pub mod Kept
use librave.Base.{
  ℕ, ◌+◌, Bool, not, ◌||◌, Option, none, some, Outcome, ok, fault, ◌>>=◌, if◌then◌else◌, add64,
}
use librave.Errno.{Errno, success}
use librave.Memory.{Pointer, wild, null_pointer, fresh, at, allocate, release}
use librave.Window.{Window, window_contains, window_view}
use librave.Elf.Libelf.{Libelf}
use librave.Elf.Binary.{Binary}
use librave.Metadata.{MetadataOp}
use librave.Transform.Dr.{Dr}
use librave.Transform.Chains.{Chains}
use librave.Transform.Store.{Store}
use librave.Transform.Data.{Function}
use librave.Transform.Add.{transform_add_function}
use librave.Transform.Life.{Transform}
use librave.Transform.Permute.{World}

-- What the calls change outside the handle.
pub record Machine : Type 0 where
  pub world : World
  pub store : Store

module _ (lib : Libelf) (dr : Dr) (chains : Chains) (mop : MetadataOp lib) where
  -- `none` is a field that has not been written yet.
  pub record Handle : Type 0 where
    pub binary : Option (Binary lib)
    pub metadata : Pointer mop.Metadata
    pub transform : Pointer (Transform dr chains)
    pub segment : Option Window
    pub text : Option Window
    pub reloc_offset : Option ℕ

  -- The content of a handle that `rave_malloc` has just returned.
  abbrev pub unwritten : Handle
  unwritten = record {
    binary = none;
    metadata = wild;
    transform = wild;
    segment = none;
    text = none;
    reloc_offset = none;
  }

  unfoldable pub rave_create : Store → Pointer Handle × Store
  unfolding allocate
  rave_create store = allocate store

  unfoldable pub rave_destroy : Pointer Handle → Store → Outcome Store
  unfolding release
  rave_destroy self store = release self store

  -- Behind the tests of `process_function`: a function that cannot be transformed is passed over.
  abbrev pub offer : Function → Window → Handle → Machine → Outcome (Errno × (Handle × Machine))
  offer function text h m = elim h.transform [
    | at self ↦
        transform_add_function dr chains m.world.bytes self function
          (window_view (some text) function.addr none).0 m.store
        >>= λ (rc, self', store').
            ok (success, (record h { transform = at self' }, record m { store = store' }))
    | _ ↦ fault
  ]

  abbrev pub test_bounds :
      Option Window → Function → Handle → Machine → Outcome (Errno × (Handle × Machine))
  test_bounds none function h m = fault
  test_bounds (some text) function h m =
      if not (window_contains (some text) function.addr)
        || not (window_contains (some text) (add64 function.addr function.len))
      then ok (success, (h, m))
      else offer function text h m

  unfoldable pub process_function :
      Function → Handle × Machine → Outcome (Errno × (Handle × Machine))
  process_function function (h, m) = test_bounds h.text function h m

-- ===== src/Memory.antt =====
-- src/memory.h: the pointers that a handle keeps, from `rave_malloc` to `rave_free`.
use librave.Base.{Outcome, ok, fault, if◌then◌else◌}
use librave.Transform.Store.{Store, granted, with_block, refused, free_block}

-- A pointer that has not been written, NULL, a block whose content has not been written, and a
-- block with its content.
pub data Pointer (A : Type 0) : Type 0 where
  wild : Pointer A
  null_pointer : Pointer A
  fresh : Pointer A
  at : A → Pointer A

module _ {A : Type 0} where
  -- `rave_malloc(sizeof(...))`
  unfoldable pub allocate : Store → Pointer A × Store
  allocate store =
      if granted store then (fresh, with_block store) else (null_pointer, refused store)

  -- `if (NULL != self) rave_free(self)`
  unfoldable pub release : Pointer A → Store → Outcome Store
  release wild store = fault
  release null_pointer store = ok store
  release fresh store = ok (free_block store)
  release (at a) store = ok (free_block store)

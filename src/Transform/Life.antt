-- ===== src/Transform/Life.antt =====
-- How a `struct transform` is made and unmade: `transform_create`, `transform_destroy`,
-- `transform_init` and `transform_close`.
pub mod Closed
use librave.Base.{not, List, [], ◌∷◌, Outcome, ok, fault, if◌then◌else◌}
use librave.Errno.{Errno, success, einval, etransform}
use librave.Memory.{Pointer, wild, null_pointer, fresh, at, allocate, release}
use librave.Transform.Dr.{Dr}
use librave.Transform.Chains.{Chains}
use librave.Transform.Store.{Store}
use librave.Transform.Data.{Transformable, transformable_close}
use librave.Transform.Sets.{checked}

module _ (dr : Dr) (chains : Chains) where
  -- The list of transformables, which is all that a `struct transform` has.
  abbrev pub Transform : Type 0
  Transform = chains.Head (Transformable dr.Instr chains.Head)

  unfoldable pub transform_create : Store → Pointer Transform × Store
  unfolding allocate
  transform_create store = allocate store

  unfoldable pub transform_destroy : Pointer Transform → Store → Outcome Store
  unfolding release
  transform_destroy self store = release self store

  abbrev pub emptied : Errno × Pointer Transform
  emptied = if not dr.set_isa_mode then (etransform, fresh) else (success, at chains.init)

  -- Writing through a pointer that has not been written is a fault.
  unfoldable pub transform_init : Pointer Transform → Outcome (Errno × Pointer Transform)
  transform_init wild = fault
  transform_init null_pointer = ok (einval, null_pointer)
  transform_init fresh = ok emptied
  transform_init (at self) =
      ok (if not dr.set_isa_mode then (etransform, at self) else (success, at chains.init))

  -- `list_del` and `transformable_close` of each; the transformable itself is not given back.
  unfoldable pub close_each : List (Transformable dr.Instr chains.Head) → Store → Store
  unfolding transformable_close
  close_each [] store = store
  close_each (tf ∷ tfs) store = close_each tfs (transformable_close chains dr.Instr tf store)

  -- A list whose head has not been written cannot be walked.
  unfoldable pub transform_close :
      Pointer Transform → Store → Outcome (Errno × Pointer Transform × Store)
  unfolding close_each checked
  transform_close wild store = fault
  transform_close null_pointer store = ok (einval, null_pointer, store)
  transform_close fresh store = fault
  transform_close (at self) store =
      let store' = close_each (chains.entries self) store in
      checked dr store store' (success, at chains.init, store')

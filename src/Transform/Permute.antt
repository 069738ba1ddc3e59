-- ===== src/Transform/Permute.antt =====
-- `permute` and `transform_permute_all`: a new order for the slots of each function, written over
-- its prologue and, mirrored, over its epilogues.
pub mod Eorder
pub mod Mirrored
pub mod Safe
pub mod Every
pub mod Strays
pub mod Balanced
mod Tests
use librave.Base.{
  ℕ, zero, suc, ◌+◌, ◌-◌, not, Bool, Option, none, some, List, [], ◌∷◌, ◌++◌, length, replicate,
  map, ◌==◌, if◌then◌else◌, sub64, add64, to_int, Outcome, ok, fault, ◌>>=◌,
}
use librave.Base.Slots.{read, write}
use librave.Errno.{Errno, success, einval, is_success}
use librave.Random.{Draws, shuffle}
use librave.Window.{Window, window_init, window_view}
use librave.Transform.Dr.{Dr, Bytes}
use librave.Transform.Chains.{Chains}
use librave.Transform.Sets.{InstrSet}
use librave.Transform.Data.{Function, Transformable}
use librave.Transform.Encode.{Pen, instr_set_encode_order}

-- `eorder[i] = (nr_slots - 1) - order[(nr_slots - 1) - i]`
unfoldable pub mirror_loop : ℕ → ℕ → ℕ → List ℕ → List ℕ → Outcome (List ℕ)
mirror_loop zero i nr_slots order eorder = ok eorder
mirror_loop (suc rounds) i nr_slots order eorder = read order (sub64 (sub64 nr_slots 1) i) >>= λ o.
    write eorder i (to_int (sub64 (sub64 nr_slots 1) o)) >>= λ eorder'.
    mirror_loop rounds (i + 1) nr_slots order eorder'

unfoldable pub mirror_order : ℕ → List ℕ → Outcome (List ℕ)
unfolding mirror_loop
mirror_order nr_slots order = mirror_loop nr_slots 0 nr_slots order (replicate nr_slots 0)

-- What the permutation changes: the memory behind the text, and how many values are drawn.
pub record World : Type 0 where
  pub bytes : Bytes
  pub drawn : ℕ

module _ (dr : Dr) (chains : Chains) (rand : Draws) where
  abbrev pub Tf : Type 0
  Tf = Transformable dr.Instr chains.Head

  -- The loop over the epilogues: it stops at the first that cannot be encoded.
  unfoldable pub encode_epilogues :
      List (InstrSet dr.Instr) → Option Window → List ℕ → Bytes → Outcome (Errno × Bytes)
  encode_epilogues [] fw eorder bytes = ok (success, bytes)
  encode_epilogues (set ∷ sets) fw eorder bytes =
      instr_set_encode_order dr set (window_view fw set.start none).0 eorder bytes >>= λ (rc, pen).
      let rest = encode_epilogues sets fw eorder pen.bytes in
      if not (is_success rc) then ok (rc, pen.bytes) else rest

  -- A NULL order is read by `shuffle`.
  abbrev pub order_of : Option (List ℕ) → Outcome (List ℕ)
  order_of none = fault
  order_of (some order) = ok order

  -- Behind the prologue: the epilogues, in the mirrored order.
  unfoldable pub permute_epilogues : Tf → Option Window → List ℕ → Bytes → Outcome (Errno × Bytes)
  unfolding encode_epilogues mirror_order
  permute_epilogues tf fw order bytes = mirror_order tf.prologue.nr_instrs order >>= λ eorder.
      encode_epilogues (chains.entries tf.epilogues) fw eorder bytes

  unfoldable pub permute : Tf → Option Window → World → Outcome (Errno × Tf × World)
  unfolding permute_epilogues
  permute tf fw world = do
    old ← order_of tf.order
    (order, drawn) ← shuffle rand old tf.prologue.nr_instrs world.drawn
    (rc, pen) ←
        instr_set_encode_order dr tf.prologue (window_view fw tf.prologue.start none).0 order
          world.bytes
    (rc', bytes) ←
        (if not (is_success rc)
          then ok (rc, pen.bytes)
          else permute_epilogues tf fw order pen.bytes)
    ok (rc', record tf { order = some order }, record { bytes = bytes; drawn = drawn })

  -- The local `struct window fw`, before `window_init`.
  abbrev pub unset : Window
  unset = record { orig = 0; data_ptr = 0; length = 0 }

  -- The window of one function inside the text.
  abbrev pub function_window : Option Window → Function → Option Window
  function_window text function =
      (window_init (some unset) function.addr (window_view text function.addr none).0
        function.len).1

  -- The loop over the functions, which are changed in place: those behind a failure stay.
  unfoldable pub permute_each : List Tf → Option Window → World → Outcome (Errno × List Tf × World)
  unfolding permute
  permute_each [] text world = ok (success, [], world)
  permute_each (tf ∷ tfs) text world =
      permute tf (function_window text tf.function) world >>= λ (rc, tf', world').
      let rest = permute_each tfs text world' >>= λ (rc', tfs', w). ok (rc', tf' ∷ tfs', w) in
      if not (is_success rc) then ok (rc, tf' ∷ tfs, world') else rest

  -- `none` is NULL.
  unfoldable pub transform_permute_all :
      Option (chains.Head Tf)
      → Option Window
      → World
      → Outcome (Errno × Option (chains.Head Tf) × World)
  unfolding permute_each
  transform_permute_all none text world = ok (einval, none, world)
  transform_permute_all (some self) none world = ok (einval, some self, world)
  transform_permute_all (some self) (some text) world = do
    (rc, tfs, world') ← permute_each (chains.entries self) (some text) world
    ok (rc, some (chains.updated tfs self), world')

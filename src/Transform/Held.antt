-- ===== src/Transform/Held.antt =====
-- The blocks and the instruction objects that sets and functions hold, and what closing them gives
-- back.
use librave.Base.{ℕ, ◌+◌, ◌≡◌, refl, Option, none, some, List, [], ◌∷◌, ◌++◌, length, arith}
use librave.Transform.Chains.{Chains}
use librave.Transform.Store.{Store, free_block}
use librave.Transform.Sets.{InstrSet, instr_set_close}
use librave.Transform.Data.{Transformable, close_sets, free_order, transformable_close}

-- The instruction objects of some sets.
unfoldable pub objects : {I : Type 0} → List (InstrSet I) → ℕ
objects [] = 0
objects (set ∷ sets) = length set.instrs + objects sets

pub objects-append :
    {I : Type 0} (xs ys : List (InstrSet I)) → objects (xs ++ ys) ≡ objects xs + objects ys
unfolding objects
objects-append [] ys = omega arith
objects-append (x ∷ xs) ys = omega (arith, objects-append xs ys)

-- The block of the order.
abbrev pub order_block : Option (List ℕ) → ℕ
order_block none = 0
order_block (some order) = 1

-- What is held, against what was held before.
pub record Holding (blocks instrs : ℕ) (store : Store) : Type 0 where
  pub blocks_held : store.blocks ≡ blocks
  pub instrs_held : store.instrs ≡ instrs

module _ (chains : Chains) (I : Type 0) where
  -- The blocks of a function, without its own, and its instruction objects.
  abbrev pub parts : Transformable I chains.Head → ℕ
  parts tf = order_block tf.order + length (chains.entries tf.epilogues)

  abbrev pub instrs_of : Transformable I chains.Head → ℕ
  instrs_of tf = length tf.prologue.instrs + objects (chains.entries tf.epilogues)

  close_sets-Holding :
      (sets : List (InstrSet I)) (store : Store) (b n : ℕ)
      → Holding (b + length sets) (n + objects sets) store
      → Holding b n (close_sets chains I sets store)
  unfolding close_sets instr_set_close objects
  close_sets-Holding [] store b n h = record {
    blocks_held = omega (arith, h.blocks_held);
    instrs_held = omega (arith, h.instrs_held);
  }
  close_sets-Holding (set ∷ sets) store b n h =
      close_sets-Holding sets (free_block (instr_set_close set store).1) b n (record {
        blocks_held = omega (arith, h.blocks_held);
        instrs_held = omega (arith, h.instrs_held);
      })

  free_order-Holding :
      (order : Option (List ℕ)) (store : Store) (b n : ℕ)
      → Holding (b + order_block order) n store
      → Holding b n (free_order chains I order store)
  free_order-Holding none store b n h = record {
    blocks_held = omega (arith, h.blocks_held);
    instrs_held = h.instrs_held;
  }
  free_order-Holding (some order) store b n h = record {
    blocks_held = omega (arith, h.blocks_held);
    instrs_held = h.instrs_held;
  }

  pub transformable_close-Holding :
      (tf : Transformable I chains.Head) (store : Store) (b n : ℕ)
      → Holding (b + parts tf) (n + instrs_of tf) store
      → Holding b n (transformable_close chains I tf store)
  unfolding transformable_close instr_set_close
  transformable_close-Holding tf store b n h = free_order-Holding tf.order _ b n (
      close_sets-Holding (chains.entries tf.epilogues) (instr_set_close tf.prologue store).1
        (b + order_block tf.order) n
        (record {
          blocks_held = omega (arith, h.blocks_held);
          instrs_held = omega (arith, h.instrs_held);
        }))

  -- Closing reads as many links of destroyed instructions as there are instructions.
  close_sets-stale :
      (sets : List (InstrSet I)) (store : Store)
      → (close_sets chains I sets store).stale ≡ store.stale + objects sets
  unfolding close_sets instr_set_close objects
  close_sets-stale [] store = omega arith
  close_sets-stale (set ∷ sets) store =
      omega (arith, close_sets-stale sets (free_block (instr_set_close set store).1))

  free_order-stale :
      (order : Option (List ℕ)) (store : Store)
      → (free_order chains I order store).stale ≡ store.stale
  free_order-stale none store = refl
  free_order-stale (some order) store = refl

  pub transformable_close-stale :
      (tf : Transformable I chains.Head) (store : Store)
      → (transformable_close chains I tf store).stale ≡ store.stale + instrs_of tf
  unfolding transformable_close instr_set_close
  transformable_close-stale tf store = omega (
    arith,
    free_order-stale tf.order _,
    close_sets-stale (chains.entries tf.epilogues) (instr_set_close tf.prologue store).1,
  )

-- ===== src/Transform/Life/Closed.antt =====
-- What `transform_close` gives back.
use librave.Base.{
  ℕ, ◌+◌, ◌≡◌, List, [], ◌∷◌, ◌++◌, length, arith, ok, true, false, fault, ◌<◌, ◌==◌, refl,
}
use librave.Errno.{success}
use librave.Memory.{at}
use librave.Transform.Dr.{Dr}
use librave.Transform.Chains.{Chains}
use librave.Transform.Store.{Store}
use librave.Transform.Data.{Transformable, transformable_close}
use librave.Transform.Sets.Checked.{checked-lingers}
use librave.Transform.Sets.{checked}
use librave.Transform.Held.{
  transformable_close-stale, Holding, parts, instrs_of, transformable_close-Holding,
}
use librave.Transform.Life.{Transform, close_each, transform_close}

module _ (dr : Dr) (chains : Chains) where
  -- The blocks of some functions without their own, and their instruction objects.
  unfoldable pub all_parts : List (Transformable dr.Instr chains.Head) → ℕ
  all_parts [] = 0
  all_parts (tf ∷ tfs) = parts chains dr.Instr tf + all_parts tfs

  unfoldable pub all_instrs : List (Transformable dr.Instr chains.Head) → ℕ
  all_instrs [] = 0
  all_instrs (tf ∷ tfs) = instrs_of chains dr.Instr tf + all_instrs tfs

  pub all_parts-append :
      (xs ys : List (Transformable dr.Instr chains.Head))
      → all_parts (xs ++ ys) ≡ all_parts xs + all_parts ys
  unfolding all_parts
  all_parts-append [] ys = omega arith
  all_parts-append (x ∷ xs) ys = omega (arith, all_parts-append xs ys)

  pub all_instrs-append :
      (xs ys : List (Transformable dr.Instr chains.Head))
      → all_instrs (xs ++ ys) ≡ all_instrs xs + all_instrs ys
  unfolding all_instrs
  all_instrs-append [] ys = omega arith
  all_instrs-append (x ∷ xs) ys = omega (arith, all_instrs-append xs ys)

  -- What some functions hold with their own blocks, besides `b` blocks and `n` instruction objects.
  abbrev pub Owned : ℕ → ℕ → List (Transformable dr.Instr chains.Head) → Store → Type 0
  Owned b n tfs = Holding (b + length tfs + all_parts tfs) (n + all_instrs tfs)

  pub none_owned : (store : Store) → Owned (store.blocks + 0) store.instrs [] store
  unfolding all_parts all_instrs
  none_owned store = record { blocks_held = omega arith; instrs_held = omega arith }

  pub close_each-Holding :
      (tfs : List (Transformable dr.Instr chains.Head)) (store : Store) (b n : ℕ)
      → Holding (b + all_parts tfs) (n + all_instrs tfs) store
      → Holding b n (close_each dr chains tfs store)
  unfolding close_each all_parts all_instrs
  close_each-Holding [] store b n h = record {
    blocks_held = omega (arith, h.blocks_held);
    instrs_held = omega (arith, h.instrs_held);
  }
  close_each-Holding (tf ∷ tfs) store b n h =
      close_each-Holding tfs (transformable_close chains dr.Instr tf store) b n (
        transformable_close-Holding chains dr.Instr tf store (b + all_parts tfs)
          (n + all_instrs tfs)
          (record {
            blocks_held = omega (arith, h.blocks_held);
            instrs_held = omega (arith, h.instrs_held);
          }))

  close_each-stale :
      (tfs : List (Transformable dr.Instr chains.Head)) (store : Store)
      → (close_each dr chains tfs store).stale ≡ store.stale + all_instrs tfs
  unfolding close_each all_instrs
  close_each-stale [] store = omega arith
  close_each-stale (tf ∷ tfs) store = omega (
    arith,
    close_each-stale tfs (transformable_close chains dr.Instr tf store),
    transformable_close-stale chains dr.Instr tf store,
  )

  -- Where it cannot, closing a transform that holds an instruction is a fault.
  transform_close-trapped :
      (trapped : dr.lingers ≡ false) (self : Transform dr chains) (store : Store)
      → 0 < all_instrs (chains.entries self)
      → transform_close dr chains (at self) store ≡ fault
  unfolding transform_close checked
  transform_close-trapped trapped self store some_instrs =
      let functions = chains.entries self in
      let moved : ((close_each dr chains functions store).stale == store.stale) ≡ false =
        ground (arith, close_each-stale functions store) in
      rw (trapped, moved) refl

  -- Where the link of a destroyed instruction can still be read, closing a transform whose functions hold a block each, their orders and their sets, besides `b`
  -- blocks and `n` instruction objects, succeeds, empties the list and gives back the orders and the
  -- sets with all their instructions, after reading a link of each of them that has been destroyed;
  -- the functions' own blocks stay.
  pub transform_close-Holding :
      (lingers : dr.lingers ≡ true) (self : Transform dr chains) (store : Store) (b n : ℕ)
      → Owned b n (chains.entries self) store
      → (store' : Store) × (transform_close dr chains (at self) store
          ≡ ok (success, at chains.init, store'))
        × Holding (b + length (chains.entries self)) n store'
        × (store'.stale ≡ store.stale + all_instrs (chains.entries self))
  unfolding transform_close
  transform_close-Holding lingers self store b n h = (
    close_each dr chains (chains.entries self) store,
    checked-lingers dr store (close_each dr chains (chains.entries self) store)
        (success, at chains.init, close_each dr chains (chains.entries self) store) lingers,
    close_each-Holding (chains.entries self) store (b + length (chains.entries self)) n h,
    close_each-stale (chains.entries self) store,
  )

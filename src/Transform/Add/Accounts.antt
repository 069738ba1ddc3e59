-- ===== src/Transform/Add/Accounts.antt =====
-- What `transform_add_function` holds and gives back behind the prologue.
use librave.Base.{
  ℕ, suc, ◌+◌, ◌-◌, ◌<◌, ◌^◌, ◌≡◌, ◌≢◌, refl, ap, ◌∙◌, inl, inr, ◌⊎◌, none, some, length, map,
  arith, subst, ltb, ◌==◌, ok, bind-inv, to_int, Bool-cases, ok-injective,
}
use librave.Base.Orders.{count_up}
use librave.Errno.{Errno, success, enomem, etransform, is_success, is_success_iff}
use librave.Transform.Dr.{Dr, Bytes, Decodes}
use librave.Transform.Chains.{Chains, ChainLaws}
use librave.Transform.Store.{Store, granted, refused, with_block, free_block}
use librave.Transform.Sets.{InstrSet, instr_set_close, Cursor}
use librave.Transform.Mirror.Reverse.{IsCounted}
use librave.Transform.Data.{Transformable}
use librave.Transform.Data.Identity.{identity_order_lem}
use librave.Transform.Held.{
  objects, order_block, Holding, parts, instrs_of, transformable_close-Holding,
}
use librave.Transform.Add.{
  Slot, absent, raw, holding, Search, Self, drop_set, give_up, conclude, with_prologue, search_loop,
}
use librave.Transform.Add.Balance.{slot_block, IsClean, Balanced, search_loop-Balanced}

module _ (dr : Dr) (chains : Chains) where
  -- What an offer has changed in the memory that is held: a function that joins the list holds its
  -- own block, its order and its sets; a failure gives everything back.
  pub data Accounts (self : Self dr chains) (b n : ℕ)
      : Errno × Self dr chains × Store → Type 0 where
    owned :
        {store : Store} (tf : Transformable dr.Instr chains.Head)
        → Holding (b + 1 + parts chains dr.Instr tf) (n + instrs_of chains dr.Instr tf) store
        → Accounts self b n (success, chains.add_tail tf self, store)
    settled :
        {rc : Errno} {store : Store}
        → rc ≢ success
        → Holding b n store
        → Accounts self b n (rc, self, store)

  give_up-Accounts :
      (rc : Errno) (self : Self dr chains) (set : Slot dr.Instr)
      (tf : Transformable dr.Instr chains.Head) (store : Store) (b n : ℕ)
      (r : Errno × Self dr chains × Store)
      → rc ≢ success
      → IsClean set
      → Holding
          (b + 1 + parts chains dr.Instr tf + slot_block set)
          (n + instrs_of chains dr.Instr tf)
          store
      → give_up dr chains rc self set tf store ≡ ok r
      → Accounts self b n r
  unfolding give_up drop_set instr_set_close
  give_up-Accounts rc self raw tf store b n r ne clean h e = absurd (cc)
  give_up-Accounts rc self absent tf store b n r ne clean h e =
      let closed =
        transformable_close-Holding chains dr.Instr tf store (b + 1) n
          (record { blocks_held = omega (arith, h.blocks_held); instrs_held = h.instrs_held }) in
      subst (Accounts self b n) (ok-injective e) (
        settled ne (record {
          blocks_held = omega (arith, closed.blocks_held);
          instrs_held = closed.instrs_held;
        }))
  give_up-Accounts rc self (holding set) tf store b n r ne clean h e =
      let none_held = ap length clean in
      let closed =
        transformable_close-Holding chains dr.Instr tf (free_block (instr_set_close set store).1)
          (b + 1) n
          (record {
            blocks_held = omega (arith, h.blocks_held);
            instrs_held = omega (arith, h.instrs_held, none_held);
          }) in
      subst (Accounts self b n) (ok-injective e) (
        settled ne (record {
          blocks_held = omega (arith, closed.blocks_held);
          instrs_held = closed.instrs_held;
        }))

  -- Behind the search.
  conclude-Accounts :
      (end : ℕ) (self : Self dr chains) (tf : Transformable dr.Instr chains.Head) (rc : Errno)
      (s : Search dr.Instr chains.Head) (b n : ℕ) (r : Errno × Self dr chains × Store)
      → Balanced dr chains (b + 1 + order_block tf.order) (n + length tf.prologue.instrs) s
      → (rc ≢ success) ⊎ (slot_block s.set ≡ 1)
      → conclude dr chains end self tf (rc, s) ≡ ok r
      → Accounts self b n r
  unfolding conclude
  conclude-Accounts end self tf rc s b n r bal left e =
      let found : Transformable dr.Instr chains.Head = record tf { epilogues = s.epilogues } in
      elim (Bool-cases (is_success rc)) [
        | inr t ↦
            give_up-Accounts rc self s.set found s.store b n r
              (λ same. let yes' = (is_success_iff rc).1 same in absurd (cc)) bal.clean
              (record {
                blocks_held = omega (arith, bal.blocks_held);
                instrs_held = omega (arith, bal.instrs_held);
              })
              (rw (t) at e)
        | inl t ↦ elim left [
          | inl ne ↦ absurd (ne ((is_success_iff rc).0 t))
          | inr taken ↦
              let destroyed : Holding (b + 1 + parts chains dr.Instr found)
                  (n + instrs_of chains dr.Instr found) (free_block s.store) =
                record {
                  blocks_held = omega (arith, bal.blocks_held, taken);
                  instrs_held = omega (arith, bal.instrs_held);
                } in
              let refuse =
                give_up-Accounts etransform self absent found (free_block s.store) b n r (λ e'. cc)
                  tt
                  (record {
                    blocks_held = omega (arith, destroyed.blocks_held);
                    instrs_held = destroyed.instrs_held;
                  }) in
              elim (Bool-cases (s.walk == end)) [
                | inr t' ↦ refuse (rw (t, t') at e)
                | inl t' ↦ elim (Bool-cases (chains.is_empty s.epilogues)) [
                  | inl t'' ↦ refuse (rw (t, t', t'') at e)
                  | inr t'' ↦
                      subst (Accounts self b n) (ok-injective (rw (t, t', t'') at e))
                        (owned found destroyed)
                ]
              ]
        ]
      ]

module _ (dr : Dr) (laws : Decodes dr) (chains : Chains) (chain_laws : ChainLaws chains)
    (bytes : Bytes) (end : ℕ) (small : end < 2 ^ 64) (self : Self dr chains) where
  -- Behind the prologue.
  pub with_prologue-Accounts :
      (tf : Transformable dr.Instr chains.Head) (c : Cursor dr.Instr) (b n : ℕ)
      (r : Errno × Self dr chains × Store)
      → tf.epilogues ≡ chains.init
      → tf.order ≡ none
      → IsCounted tf.prologue
      → Holding (b + 1) (n + length tf.prologue.instrs) c.store
      → with_prologue dr chains bytes end self tf c ≡ ok r
      → Accounts dr chains self b n r
  unfolding with_prologue objects
  with_prologue-Accounts tf c b n r none_yet no_order counted h e =
      let k = tf.prologue.nr_instrs in
      let order = map to_int (count_up 0 k) in
      let tf' : Transformable dr.Instr chains.Head = record tf { order = some order } in
      let bare = ap chains.entries none_yet ∙ chain_laws.entries-init (InstrSet dr.Instr) in
      let no_sets : length (chains.entries tf.epilogues) ≡ 0 = ap length bare in
      let no_objects : objects (chains.entries tf.epilogues) ≡ 0 = ap objects bare in
      let no_block : order_block tf.order ≡ 0 = ap order_block no_order in
      let refuse =
        λ (rc : Errno) (ne : rc ≢ success) (store : Store) (blocks : store.blocks ≡ b + 1)
            (instrs : store.instrs ≡ n + length tf.prologue.instrs)
            (e : give_up dr chains rc self absent tf store ≡ ok r).
          give_up-Accounts dr chains rc self absent tf store b n r ne tt
            (record {
              blocks_held = omega (arith, blocks, no_sets, no_block);
              instrs_held = omega (arith, instrs, no_objects);
            })
            e in
      elim (Bool-cases (ltb k 2)) [
        | inl t ↦ refuse etransform (λ e'. cc) c.store h.blocks_held h.instrs_held (rw (t) at e)
        | inr t ↦ elim (Bool-cases (granted c.store)) [
          | inr g ↦
              refuse enomem (λ e'. cc) (refused c.store) h.blocks_held h.instrs_held
                (rw (t, g) at e)
          | inl g ↦ elim (Bool-cases (granted (with_block c.store))) [
            | inr g' ↦
                give_up-Accounts dr chains enomem self absent tf' (refused (with_block c.store)) b n
                  r (λ e'. cc) tt
                  (record {
                    blocks_held = omega (arith, h.blocks_held, no_sets);
                    instrs_held = omega (arith, h.instrs_held, no_objects);
                  })
                  (rw (t, g, identity_order_lem k, g') at e)
            | inl g' ↦
                let s : Search dr.Instr chains.Head = record {
                  walk = c.walk;
                  orig = c.orig;
                  set = raw;
                  epilogues = tf.epilogues;
                  store = with_block (with_block c.store);
                } in
                let bal : Balanced dr chains (b + 1 + 1) (n + length tf.prologue.instrs) s =
                  record {
                    blocks_held = omega (arith, h.blocks_held, no_sets);
                    instrs_held = omega (arith, h.instrs_held, no_objects);
                    clean = tt;
                  } in
                let ((rc, s'), searched, after) =
                  bind-inv (search_loop dr chains (suc (end - c.walk)) bytes end tf.prologue s)
                    (conclude dr chains end self tf') (rw (t, g, identity_order_lem k, g') at e) in
                let (bal', left) =
                  search_loop-Balanced dr laws chains chain_laws bytes end small tf.prologue counted
                    (b + 1 + 1) (n + length tf.prologue.instrs) (suc (end - c.walk)) s rc s' bal
                    refl searched in
                conclude-Accounts dr chains end self tf' rc s' b n r bal' left after
          ]
        ]
      ]

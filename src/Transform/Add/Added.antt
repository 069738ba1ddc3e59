-- ===== src/Transform/Add/Added.antt =====
-- What `transform_add_function` adds.
use librave.Base.{
  ℕ, suc, ◌+◌, ◌-◌, ◌<◌, ◌≤◌, ◌^◌, ◌≡◌, ◌≢◌, refl, ap, ◌∙◌, inl, inr, Bool, false, Option, none,
  some, List, [], ◌∷◌, map, arith, All, ltb, ◌==◌, ==_iff, to_int, Settles, Returns-inv, Bool-cases,
}
use librave.Base.Orders.{count_up}
use librave.Errno.{Errno, success, enomem, etransform, is_success, is_success_iff}
use librave.Transform.Dr.{Dr, Bytes, Decodes}
use librave.Transform.Chains.{Chains, ChainLaws}
use librave.Transform.Store.{Store, granted, refused, with_block, free_block}
use librave.Transform.Sets.{InstrSet, instr_set_close, Cursor}
use librave.Transform.Sets.Next.{IsWithin}
use librave.Transform.Mirror.Reverse.{IsCounted}
use librave.Transform.Data.{Function, Transformable, close_sets, free_order, transformable_close}
use librave.Transform.Data.Identity.{identity_order_lem, ints-count_up}
use librave.Transform.Add.{
  Slot, absent, raw, holding, Search, Self, drop_set, give_up, conclude, with_prologue, search_loop,
}
use librave.Transform.Add.Rounds.{Mirrors, Refuses, Sound, Ended, ended, broken}
use librave.Transform.Add.Loop.{search_loop-Ended}

-- A function of the list: its prologue has two instructions or more, the order counts
-- them, it stands in the function, unless that wraps, and there is an epilogue and each one mirrors
-- the prologue.
pub record IsRandomizable (dr : Dr) (chains : Chains) (function : Function)
    (tf : Transformable dr.Instr chains.Head) : Type 0 where
  pub about : tf.function ≡ function
  pub counted : IsCounted tf.prologue
  pub enough : 2 ≤ tf.prologue.nr_instrs
  pub within :
      function.addr + function.len < 2 ^ 64
      → IsWithin function.addr (function.addr + function.len) tf.prologue
  pub order : tf.order ≡ some (count_up 0 tf.prologue.nr_instrs)
  pub leaves : chains.is_empty tf.epilogues ≡ false
  pub mirrored : All (Mirrors dr tf.prologue) (chains.entries tf.epilogues)

module _ (dr : Dr) (chains : Chains) where
  -- Success adds such a function behind the others, and a failure changes nothing. What is granted
  -- does not change.
  pub data Added (function : Function) (self : Self dr chains) (grants : ℕ → Bool)
      : Errno × Self dr chains × Store → Type 0 where
    added :
        {store : Store} (tf : Transformable dr.Instr chains.Head)
        → IsRandomizable dr chains function tf
        → store.grants ≡ grants
        → Added function self grants (success, chains.add_tail tf self, store)
    left :
        {rc : Errno} {store : Store}
        → rc ≢ success
        → store.grants ≡ grants
        → Added function self grants (rc, self, store)

  -- A failure that changes nothing.
  abbrev pub Left : Self dr chains → (ℕ → Bool) → Errno × Self dr chains × Store → Type 0
  Left self grants (rc, self', store) = (rc ≢ success) × (self' ≡ self) × (store.grants ≡ grants)

  close_sets-grants :
      (sets : List (InstrSet dr.Instr)) (store : Store)
      → (close_sets chains dr.Instr sets store).grants ≡ store.grants
  unfolding close_sets instr_set_close
  close_sets-grants [] store = refl
  close_sets-grants (set ∷ sets) store =
      close_sets-grants sets (free_block (instr_set_close set store).1)

  free_order-grants :
      (order : Option (List ℕ)) (store : Store)
      → (free_order chains dr.Instr order store).grants ≡ store.grants
  free_order-grants none store = refl
  free_order-grants (some order) store = refl

  pub transformable_close-grants :
      (tf : Transformable dr.Instr chains.Head) (store : Store)
      → (transformable_close chains dr.Instr tf store).grants ≡ store.grants
  unfolding transformable_close instr_set_close
  transformable_close-grants tf store =
      free_order-grants tf.order _
      ∙ close_sets-grants (chains.entries tf.epilogues) (instr_set_close tf.prologue store).1

  give_up-Added :
      (D : Type 0) (function : Function) (rc : Errno) (self : Self dr chains) (set : Slot dr.Instr)
      (tf : Transformable dr.Instr chains.Head) (store : Store) (grants : ℕ → Bool)
      → rc ≢ success
      → (set ≡ raw → D)
      → store.grants ≡ grants
      → Settles D (Added function self grants) (give_up dr chains rc self set tf store)
  unfolding give_up drop_set instr_set_close
  give_up-Added D function rc self absent tf store grants ne h same =
      left ne (transformable_close-grants tf store ∙ same)
  give_up-Added D function rc self raw tf store grants ne h same = h refl
  give_up-Added D function rc self (holding set) tf store grants ne h same =
      left ne (transformable_close-grants tf _ ∙ same)

module _ (dr : Dr) (laws : Decodes dr) (chains : Chains) (chain_laws : ChainLaws chains)
    (function : Function) (self : Self dr chains) (low end : ℕ) (grants : ℕ → Bool) where
  abbrev Standing : InstrSet dr.Instr → Type 0
  Standing set =
      function.addr + function.len < 2 ^ 64
      → IsWithin function.addr (function.addr + function.len) set

  -- Behind the search.
  conclude-Added :
      (tf : Transformable dr.Instr chains.Head) (rc : Errno) (s : Search dr.Instr chains.Head)
      → tf.function ≡ function
      → IsCounted tf.prologue
      → 2 ≤ tf.prologue.nr_instrs
      → tf.order ≡ some (map to_int (count_up 0 tf.prologue.nr_instrs))
      → (low ≤ end → (tf.prologue.nr_instrs ≤ 2 ^ 32) × Standing tf.prologue)
      → Ended dr chains tf.prologue low grants rc s
      → Settles
          (Refuses grants)
          (Added dr chains function self grants)
          (conclude dr chains end self tf (rc, s))
  unfolding conclude
  conclude-Added tf rc s about counted enough order sized (broken ne unwritten same) =
      elim (Bool-cases (is_success rc)) [
        | inl t ↦ absurd (ne ((is_success_iff rc).0 t))
        | inr t ↦ rw (t) (
            give_up-Added dr chains (Refuses grants) function rc self s.set
              (record tf { epilogues = s.epilogues }) s.store grants ne unwritten same)
      ]
  conclude-Added tf success s about counted enough order sized (ended sound) =
      let found = record tf { epilogues = s.epilogues } in
      let refuse =
        give_up-Added dr chains (Refuses grants) function etransform self absent found
          (free_block s.store) grants (λ e. cc) (λ e. cc) sound.same in
      rw ((is_success_iff success).1 refl) (elim (Bool-cases (s.walk == end)) [
        | inr t ↦ rw (t) refuse
        | inl t ↦ elim (Bool-cases (chains.is_empty s.epilogues)) [
          | inl t' ↦ rw (t, t') refuse
          | inr t' ↦
              let reached = (==_iff s.walk end).0 t in
              let (few, standing) = sized (omega (arith, sound.forward, reached)) in
              rw (t, t')
                (added found
                  (record {
                    about = about;
                    counted = counted;
                    enough = enough;
                    within = standing;
                    order = order ∙ ap some (ints-count_up tf.prologue.nr_instrs few);
                    leaves = t';
                    mirrored = sound.mirrored;
                  })
                  sound.same)
        ]
      ])

  -- Behind the prologue.
  pub with_prologue-Added :
      (bytes : Bytes) (tf : Transformable dr.Instr chains.Head) (c : Cursor dr.Instr)
      → end < 2 ^ 64
      → tf.function ≡ function
      → IsCounted tf.prologue
      → tf.epilogues ≡ chains.init
      → (low ≤ end → (tf.prologue.nr_instrs ≤ 2 ^ 32) × Standing tf.prologue)
      → c.walk ≡ low
      → c.store.grants ≡ grants
      → Settles
          (Refuses grants)
          (Added dr chains function self grants)
          (with_prologue dr chains bytes end self tf c)
  unfolding with_prologue
  with_prologue-Added bytes tf c small about counted none_yet sized at_low same =
      let n = tf.prologue.nr_instrs in
      let order = map to_int (count_up 0 n) in
      let tf' : Transformable dr.Instr chains.Head = record tf { order = some order } in
      let refuse =
        λ (rc : Errno) (tf'' : Transformable dr.Instr chains.Head) (store : Store)
            (ne : rc ≢ success) (kept : store.grants ≡ grants).
          give_up-Added dr chains (Refuses grants) function rc self absent tf'' store grants ne
            (λ e. cc) kept in
      elim (Bool-cases (ltb n 2)) [
        | inl t ↦ rw (t) (refuse etransform tf c.store (λ e. cc) same)
        | inr t ↦ elim (Bool-cases (granted c.store)) [
          | inr g ↦ rw (t, g) (refuse enomem tf (refused c.store) (λ e. cc) same)
          | inl g ↦ elim (Bool-cases (granted (with_block c.store))) [
            | inr g' ↦
                rw (t, g, identity_order_lem n, g')
                  (refuse enomem tf' (refused (with_block c.store)) (λ e. cc) same)
            | inl g' ↦
                let s : Search dr.Instr chains.Head = record {
                  walk = c.walk;
                  orig = c.orig;
                  set = raw;
                  epilogues = tf.epilogues;
                  store = with_block (with_block c.store);
                } in
                let sound : Sound dr chains tf.prologue low grants s = record {
                  mirrored = rw (none_yet, chain_laws.entries-init (InstrSet dr.Instr)) tt;
                  forward = omega (arith, at_low);
                  same = same;
                } in
                let (r, e, over) =
                  Returns-inv (λ (rc, s'). Ended dr chains tf.prologue low grants rc s')
                    (search_loop dr chains (suc (end - c.walk)) bytes end tf.prologue s)
                    (search_loop-Ended dr laws chains chain_laws bytes end small tf.prologue counted
                      low grants (suc (end - c.walk)) s sound (omega arith)) in
                rw (t, g, identity_order_lem n, g', e)
                  (conclude-Added tf' r.0 r.1 about counted (ground arith) refl sized over)
          ]
        ]
      ]

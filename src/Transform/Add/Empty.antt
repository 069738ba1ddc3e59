-- ===== src/Transform/Add/Empty.antt =====
-- `transform_add_function` of a function that is empty.
use librave.Base.{
  ℕ, ◌≤◌, ◌≡◌, refl, inl, inr, true, false, ok, some, arith, Bool-cases, ltb, Returns,
}
use librave.Errno.{success, is_success_iff}
use librave.Util.{offset}
use librave.Transform.Dr.{Dr, Bytes}
use librave.Transform.Chains.{Chains, ChainLaws}
use librave.Transform.Store.{Store, granted, with_block, with_instr, destroy_instrs}
use librave.Transform.Sets.{
  Cursor, scanned, instr_set_init, next_set, next_set_loop, test_instr_prologue, InstrSet,
  instr_set_close,
}
use librave.Transform.Sets.Runs.{Test}
use librave.Transform.Data.{Function, transformable_init, transformable_close, close_sets}
use librave.Transform.Add.{Self, drop_set, give_up, with_prologue, after_prologue, add_function}
use librave.Transform.Sets.Checked.{checked-same}
use librave.Transform.Add.Added.{Left, transformable_close-grants}

-- A walk that is at the end already finds no instruction.
next_set-nothing :
    (dr : Dr) (bytes : Bytes) (max : ℕ) (test : Test dr) (c : Cursor dr.Instr)
    → granted c.store ≡ true
    → ltb c.walk max ≡ false
    → next_set dr bytes max test c
      ≡ ok (
          scanned success (record c {
            set = instr_set_init c.set c.orig;
            store = destroy_instrs 1 (with_instr c.store);
          }))
unfolding next_set next_set_loop
next_set-nothing dr bytes max test c g done =
    let last : Cursor dr.Instr = record c {
      set = instr_set_init c.set c.orig;
      store = destroy_instrs 1 (with_instr c.store);
    } in
    rw (g, next_set_loop, done) (checked-same dr c.store last.store (scanned success last) refl)

module _ (dr : Dr) (chains : Chains) (chain_laws : ChainLaws chains) (function : Function)
    (self : Self dr chains) (bytes : Bytes) where
  -- Closing a function without instructions reads no link.
  nothing_stale :
      (set : InstrSet dr.Instr) (store : Store)
      → (transformable_close chains dr.Instr
          (record (transformable_init chains dr.Instr function) {
            prologue = instr_set_init set function.addr;
          })
          store).stale
        ≡ store.stale
  unfolding transformable_close transformable_init instr_set_init instr_set_close close_sets
  nothing_stale set store = rw (chain_laws.entries-init (InstrSet dr.Instr)) (omega arith)

  -- Without the check of the reads of destroyed instructions.
  pub add_function-Left :
      (ptr : ℕ) (store : Store)
      → offset ptr function.len ≤ ptr
      → Returns
          (λ (rc, self', store').
            Left dr chains self store.grants (rc, self', store') × (store'.stale ≡ store.stale))
          (add_function dr chains bytes self function ptr store)
  unfolding add_function transformable_init after_prologue with_prologue next_set instr_set_init
      give_up drop_set
  add_function-Left ptr store over = elim (Bool-cases (granted store)) [
    | inr g ↦ rw (g) (((λ e. cc), refl, refl), refl)
    | inl g ↦ elim (Bool-cases (granted (with_block store))) [
      | inr g' ↦ rw (g) (rw (next_set, g') (((λ e. cc), refl, refl), refl))
      | inl g' ↦
          let c : Cursor dr.Instr = record {
            walk = ptr;
            orig = function.addr;
            set = (transformable_init chains dr.Instr function).prologue;
            store = with_block store;
          } in
          let done : ltb ptr (offset ptr function.len) ≡ false = ground arith in
          rw
            (
              g,
              next_set-nothing dr bytes (offset ptr function.len) (some (test_instr_prologue dr)) c
                  g' done,
              (is_success_iff success).1 refl,
            )
            (
              (
                (λ e. cc),
                refl,
                transformable_close-grants dr chains
                    (record (transformable_init chains dr.Instr function) {
                      prologue = instr_set_init c.set function.addr;
                    })
                    (destroy_instrs 1 (with_instr (with_block store))),
              ),
              nothing_stale c.set (destroy_instrs 1 (with_instr (with_block store))),
            )
    ]
  ]

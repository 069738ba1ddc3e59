-- ===== src/Transform/Add/Ledger.antt =====
-- What `transform_add_function` as a whole holds and gives back.
use librave.Base.{
  ℕ, ◌+◌, ◌^◌, ◌≡◌, ◌≢◌, refl, inl, inr, ◌⊎◌, some, arith, subst, ok, bind-inv, Returns, Bool-cases,
  ok-injective, Settles, Settles-ok, ◌≤◌, sym, ◌∙◌,
}
use librave.Errno.{Errno, success, is_success, is_success_iff}
use librave.Util.{offset}
use librave.Transform.Dr.{Dr, Bytes, Decodes}
use librave.Transform.Chains.{Chains, ChainLaws}
use librave.Transform.Store.{Store, granted, with_block}
use librave.Transform.Sets.{Cursor, Scan, unstarted, scanned, next_set, test_instr_prologue}
use librave.Transform.Sets.Runs.{Found, found, failed, not_started}
use librave.Transform.Sets.Loop.{next_set-Found}
use librave.Transform.Data.{Function, transformable_init}
use librave.Transform.Held.{Holding}
use librave.Transform.Add.{Self, after_prologue, add_function, transform_add_function}
use librave.Transform.Add.Rounds.{Refuses}
use librave.Transform.Add.Added.{Added}
use librave.Transform.Add.Whole.{transform_add_function-Added, let_through}
use librave.Transform.Add.Accounts.{Accounts, settled, with_prologue-Accounts}

module _ (dr : Dr) (chains : Chains) (bytes : Bytes) (function : Function) (ptr : ℕ) where
  -- The variables at the search for the prologue.
  abbrev pub first_cursor : Store → Cursor dr.Instr
  first_cursor store = record {
    walk = ptr;
    orig = function.addr;
    set = (transformable_init chains dr.Instr function).prologue;
    store = with_block store;
  }

  abbrev pub Fails : Scan dr.Instr → Type 0
  Fails (unstarted store) = Unit
  Fails (scanned rc c) = rc ≢ success

  -- Where the search for the prologue fails, the block of the function is lost.
  pub data Leaked (self : Self dr chains) (store : Store)
      : Errno × Self dr chains × Store → Type 0 where
    leaked :
        {rc : Errno} {store' : Store} (scan : Scan dr.Instr)
        → next_set dr bytes
            (offset ptr function.len)
            (some (test_instr_prologue dr))
            (first_cursor store)
          ≡ ok scan
        → Fails scan
        → rc ≢ success
        → Holding (store.blocks + 1) store.instrs store'
        → Leaked self store (rc, self, store')

  abbrev pub Ledger : Self dr chains → Store → Errno × Self dr chains × Store → Type 0
  Ledger self store r = Accounts dr chains self store.blocks store.instrs r ⊎ Leaked self store r

module _ (dr : Dr) (laws : Decodes dr) (chains : Chains) (chain_laws : ChainLaws chains)
    (function : Function) (self : Self dr chains) (bytes : Bytes) (ptr : ℕ) (store : Store) where
  after_prologue-Ledger :
      (scan : Scan dr.Instr) (r : Errno × Self dr chains × Store)
      → next_set dr bytes
          (offset ptr function.len)
          (some (test_instr_prologue dr))
          (first_cursor dr chains bytes function ptr store)
        ≡ ok scan
      → Found dr bytes
          (offset ptr function.len)
          (some (test_instr_prologue dr))
          ptr
          function.addr
          store.instrs
          (store.blocks + 1)
          scan
      → after_prologue dr chains bytes
          (offset ptr function.len)
          self
          (transformable_init chains dr.Instr function)
          scan
        ≡ ok r
      → Ledger dr chains bytes function ptr self store r
  unfolding after_prologue transformable_init
  after_prologue-Ledger (unstarted store') r e (not_started instrs blocks) e' = inr (
      subst (Leaked dr chains bytes function ptr self store) (ok-injective e') (
        leaked (unstarted store') e tt (λ e''. cc)
          (record { blocks_held = blocks; instrs_held = instrs })))
  after_prologue-Ledger (scanned rc c) r e (failed ne none_held instrs blocks) e' =
      elim (Bool-cases (is_success rc)) [
        | inl t ↦ absurd (ne ((is_success_iff rc).0 t))
        | inr t ↦ inr (
            subst (Leaked dr chains bytes function ptr self store) (ok-injective (rw (t) at e')) (
              leaked (scanned rc c) e ne ne
                (record { blocks_held = blocks; instrs_held = instrs })))
      ]
  after_prologue-Ledger (scanned success c) r e (found w₂ o₂ run stops instrs blocks) e' = inl (
      with_prologue-Accounts dr laws chains chain_laws bytes (offset ptr function.len) (omega arith)
        self (record (transformable_init chains dr.Instr function) { prologue = c.set }) c
        store.blocks store.instrs r refl refl run.counted
        (record { blocks_held = blocks; instrs_held = instrs })
        (rw ((is_success_iff success).1 refl) at e'))

  add-Ledger :
      (r : Errno × Self dr chains × Store)
      → add_function dr chains bytes self function ptr store ≡ ok r
      → Ledger dr chains bytes function ptr self store r
  unfolding add_function
  add-Ledger r e = elim (Bool-cases (granted store)) [
    | inr g ↦ inl (
        subst (Accounts dr chains self store.blocks store.instrs) (ok-injective (rw (g) at e))
          (settled (λ e'. cc) (record { blocks_held = refl; instrs_held = refl })))
    | inl g ↦
        let c = first_cursor dr chains bytes function ptr store in
        let end = offset ptr function.len in
        let test = some (test_instr_prologue dr) in
        let (scan, searched, after) = bind-inv (next_set dr bytes end test c) _ (rw (g) at e) in
        after_prologue-Ledger scan r searched
          (subst
            (Returns (Found dr bytes end test ptr function.addr store.instrs (store.blocks + 1)))
            searched (next_set-Found dr laws bytes end test c (omega arith)))
          after
  ]

  pub adds-Ledger :
      (r : Errno × Self dr chains × Store)
      → transform_add_function dr chains bytes self function ptr store ≡ ok r
      → Ledger dr chains bytes function ptr self store r
  adds-Ledger r e =
      add-Ledger r (sym (let_through dr laws chains bytes self function ptr store) ∙ e)

  -- Offering a function of at most 4 GB of code ends, and faults only if some request for memory is
  -- refused. If it joins the list, exactly its own block, the block of its order, a block for each
  -- epilogue, and the instruction objects of its sets are held besides. If it does not, no more is
  -- held than before, unless the search for the prologue fails: then one block is lost.
  -- The links of destroyed instructions can still be read.
  pub transform_add_function-Ledger :
      offset ptr function.len ≤ ptr + 2 ^ 32
      → Settles
          (Refuses store.grants)
          (Ledger dr chains bytes function ptr self store)
          (transform_add_function dr chains bytes self function ptr store)
  transform_add_function-Ledger near =
      Settles-ok (Refuses store.grants) (Added dr chains function self store.grants) _ _
        (transform_add_function-Added dr laws chains chain_laws function self bytes ptr store near)
        adds-Ledger

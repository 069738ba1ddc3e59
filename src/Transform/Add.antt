-- ===== src/Transform/Add.antt =====
-- `transform_add_function`: the prologue of a function, and every set behind it that mirrors the
-- prologue.
pub mod Rounds
pub mod Loop
pub mod Added
pub mod Empty
pub mod Whole
pub mod Drift
pub mod Balance
pub mod Accounts
pub mod Ledger
pub mod Owned
use librave.Base.{
  ℕ, zero, suc, ◌-◌, Bool, true, false, not, some, replicate, ltb, ◌==◌, if◌then◌else◌, add64,
  sub64, Outcome, ok, fault, out_of_fuel, ◌>>=◌,
}
use librave.Errno.{Errno, success, etransform, enomem, is_success}
use librave.Util.{offset}
use librave.Transform.Dr.{Dr, Bytes}
use librave.Transform.Chains.{Chains}
use librave.Transform.Store.{Store, granted, refused, with_block, free_block}
use librave.Transform.Sets.{
  InstrSet, instr_set_close, Cursor, Scan, unstarted, scanned, test_instr_prologue,
  test_instr_epilogue, next_set, checked,
}
use librave.Transform.Mirror.{is_epilogue}
use librave.Transform.Data.{
  Function, Transformable, blank, transformable_init, transformable_close, identity_order,
}

-- The variable `set`: NULL, a block whose content is still indeterminate, or a set.
pub data Slot (I : Type 0) : Type 0 where
  absent : Slot I
  raw : Slot I
  holding : InstrSet I → Slot I

abbrev pub content : {I : Type 0} → Slot I → InstrSet I
content {I} (holding set) = set
content {I} _ = blank I

-- The variables of the search for epilogues.
pub record Search (I : Type 0) (Head : Type 0 → Type 0) : Type 0 where
  pub walk : ℕ
  pub orig : ℕ
  pub set : Slot I
  pub epilogues : Head (InstrSet I)
  pub store : Store

pub data Round (I : Type 0) (Head : Type 0 → Type 0) : Type 0 where
  again : Search I Head → Round I Head
  leave : Errno → Search I Head → Round I Head

module _ (dr : Dr) (chains : Chains) where
  -- A candidate that mirrors the prologue is spun off and a new set is asked for; any other is
  -- closed, and its block serves again.
  unfoldable pub judge :
      Bool → InstrSet dr.Instr → Search dr.Instr chains.Head → Round dr.Instr chains.Head
  unfolding instr_set_close
  judge false set s =
      let (closed, store) = instr_set_close set s.store in
      again (record s { set = holding closed; store = store })
  judge true set s =
      let epilogues = chains.add_tail set s.epilogues in
      if granted s.store
      then again (record s { set = raw; epilogues = epilogues; store = with_block s.store })
      else leave enomem (record s { set = absent; epilogues = epilogues; store = refused s.store })

  -- `orig` is moved by the size of the set, although `next_set` has moved it already.
  unfoldable pub after_scan :
      InstrSet dr.Instr
      → Search dr.Instr chains.Head
      → Scan dr.Instr
      → Outcome (Round dr.Instr chains.Head)
  unfolding judge
  after_scan pro s (unstarted store) = ok (leave enomem (record s { store = store }))
  after_scan pro s (scanned rc c) =
      let s' : Search dr.Instr chains.Head = record {
        walk = c.walk;
        orig = c.orig;
        set = holding c.set;
        epilogues = s.epilogues;
        store = c.store;
      } in
      let moved = record s' { orig = add64 c.orig (sub64 c.set.end c.set.start) } in
      if not (is_success rc)
      then ok (leave rc s')
      else (is_epilogue dr pro c.set >>= λ b. ok (judge b c.set moved))

  unfoldable pub search_step :
      Bytes
      → ℕ
      → InstrSet dr.Instr
      → Search dr.Instr chains.Head
      → Outcome (Round dr.Instr chains.Head)
  unfolding after_scan
  search_step bytes end pro s =
      next_set dr bytes end (some (test_instr_epilogue dr))
        (record { walk = s.walk; orig = s.orig; set = content s.set; store = s.store })
      >>= after_scan pro s

  -- The loop: how it is left, by its test with `success`, or with the code of a failure.
  unfoldable pub search_loop :
      ℕ
      → Bytes
      → ℕ
      → InstrSet dr.Instr
      → Search dr.Instr chains.Head
      → Outcome (Errno × Search dr.Instr chains.Head)
  unfolding search_step
  search_loop zero bytes end pro s = out_of_fuel
  search_loop (suc fuel) bytes end pro s = elim (ltb s.walk end) [
    | false ↦ ok (success, s)
    | true ↦ search_step bytes end pro s >>= λ r. elim r [
      | leave rc s' ↦ ok (rc, s')
      | again s' ↦ search_loop fuel bytes end pro s'
    ]
  ]

  abbrev pub Self : Type 0
  Self = chains.Head (Transformable dr.Instr chains.Head)

  -- `instr_set_close(set)` and `instr_set_destroy(set)`. Closing a block whose content is
  -- indeterminate follows an indeterminate pointer.
  unfoldable pub drop_set : Slot dr.Instr → Store → Outcome Store
  unfolding instr_set_close
  drop_set absent store = ok store
  drop_set raw store = fault
  drop_set (holding set) store = ok (free_block (instr_set_close set store).1)

  -- The label `err`.
  unfoldable pub give_up :
      Errno
      → Self
      → Slot dr.Instr
      → Transformable dr.Instr chains.Head
      → Store
      → Outcome (Errno × Self × Store)
  unfolding drop_set transformable_close
  give_up ret self set tf store = drop_set set store >>= λ store'.
      ok (ret, self, free_block (transformable_close chains dr.Instr tf store'))

  -- Behind the search.
  unfoldable pub conclude :
      ℕ
      → Self
      → Transformable dr.Instr chains.Head
      → Errno × Search dr.Instr chains.Head
      → Outcome (Errno × Self × Store)
  unfolding give_up
  conclude end self tf (rc, s) =
      let found = record tf { epilogues = s.epilogues } in
      let destroyed = free_block s.store in
      if not (is_success rc)
      then give_up rc self s.set found s.store
      else if not (s.walk == end)
      then give_up etransform self absent found destroyed
      else if chains.is_empty s.epilogues
      then give_up etransform self absent found destroyed
      else ok (success, chains.add_tail found self, destroyed)

  -- Behind the prologue: the order, the first set, and the search.
  unfoldable pub with_prologue :
      Bytes
      → ℕ
      → Self
      → Transformable dr.Instr chains.Head
      → Cursor dr.Instr
      → Outcome (Errno × Self × Store)
  unfolding conclude search_loop identity_order
  with_prologue bytes end self tf c =
      let n = tf.prologue.nr_instrs in
      let ordered = with_block c.store in
      if ltb n 2
      then give_up etransform self absent tf c.store
      else if not (granted c.store)
      then give_up enomem self absent tf (refused c.store)
      else (identity_order n 0 (replicate n 0) >>= λ order.
          let tf' = record tf { order = some order } in
          if not (granted ordered)
          then give_up enomem self absent tf' (refused ordered)
          else (search_loop (suc (end - c.walk)) bytes end tf.prologue (record {
            walk = c.walk;
            orig = c.orig;
            set = raw;
            epilogues = tf.epilogues;
            store = with_block ordered;
          })
              >>= conclude end self tf'))

  -- A failure before the prologue is known returns at once, without the label `err`.
  unfoldable pub after_prologue :
      Bytes
      → ℕ
      → Self
      → Transformable dr.Instr chains.Head
      → Scan dr.Instr
      → Outcome (Errno × Self × Store)
  unfolding with_prologue
  after_prologue bytes end self tf (unstarted store) = ok (enomem, self, store)
  after_prologue bytes end self tf (scanned rc c) =
      if not (is_success rc)
      then ok (rc, self, c.store)
      else with_prologue bytes end self (record tf { prologue = c.set }) c

  -- `transform_add_function`, with the reads of destroyed instructions counted.
  unfoldable pub add_function : Bytes → Self → Function → ℕ → Store → Outcome (Errno × Self × Store)
  unfolding after_prologue transformable_init
  add_function bytes self function ptr store =
      let end = offset ptr function.len in
      let tf = transformable_init chains dr.Instr function in
      if not (granted store)
      then ok (enomem, self, refused store)
      else (next_set dr bytes end (some (test_instr_prologue dr)) (record {
        walk = ptr;
        orig = function.addr;
        set = tf.prologue;
        store = with_block store;
      })
          >>= after_prologue bytes end self tf)

  unfoldable pub transform_add_function :
      Bytes → Self → Function → ℕ → Store → Outcome (Errno × Self × Store)
  unfolding add_function checked
  transform_add_function bytes self function ptr store =
      add_function bytes self function ptr store >>= λ (rc, self', store').
      checked dr store store' (rc, self', store')

-- ===== src/Transform/Add/Whole.antt =====
-- `transform_add_function` as a whole.
use librave.Base.{
  ℕ, ◌+◌, ◌-◌, ◌<◌, ◌≤◌, ◌^◌, ◌≡◌, refl, ◌∙◌, inl, inr, Bool, ok, some, arith, Settles, Bool-cases,
  ltb, ltb→lt, Returns, Returns-inv, Returns-Settles, subst, sym, bind-ext,
}
use librave.Errno.{Errno, success, is_success, is_success_iff}
use librave.Util.{offset}
use librave.Transform.Dr.{Dr, Bytes, Decodes}
use librave.Transform.Chains.{Chains, ChainLaws}
use librave.Transform.Store.{Store, granted, with_block}
use librave.Transform.Sets.{Cursor, Scan, test_instr_prologue}
use librave.Transform.Sets.Next.{IsWithin, Next, unasked, run, stopped, next_set-Next}
use librave.Transform.Data.{Function, Transformable, transformable_init}
use librave.Transform.Add.{Self, after_prologue, add_function, transform_add_function}
use librave.Transform.Sets.Checked.{checked-same, checked-lingers, bind_ok}
use librave.Transform.Add.Rounds.{Refuses}
use librave.Transform.Add.Empty.{add_function-Left}
use librave.Transform.Add.Added.{Added, left, Left, with_prologue-Added}

module _ (dr : Dr) (chains : Chains) (chain_laws : ChainLaws chains) (function : Function)
    (self : Self dr chains) (bytes : Bytes) where
  -- Offering a function that is empty, or whose end wraps to its start or below, ends by a failure
  -- without a fault; the list of functions is as it was.
  pub transform_add_function-Left :
      (ptr : ℕ) (store : Store)
      → offset ptr function.len ≤ ptr
      → Returns
          (Left dr chains self store.grants)
          (transform_add_function dr chains bytes self function ptr store)
  unfolding transform_add_function
  transform_add_function-Left ptr store over =
      let ((rc, self', store'), e, (as_it_was, same)) =
        Returns-inv
          (λ (rc, self', store').
            Left dr chains self store.grants (rc, self', store') × (store'.stale ≡ store.stale))
          (add_function dr chains bytes self function ptr store)
          (add_function-Left dr chains chain_laws function self bytes ptr store over) in
      rw
        (
          e,
          checked-same {A = Errno × Self dr chains × Store} dr store store' (rc, self', store')
              same,
        )
        as_it_was

-- Where the reads of destroyed instructions are let through, only what the call comes to counts.
pub let_through :
    (dr : Dr) (laws : Decodes dr) (chains : Chains) (bytes : Bytes) (self : Self dr chains)
    (function : Function) (ptr : ℕ) (store : Store)
    → transform_add_function dr chains bytes self function ptr store
      ≡ add_function dr chains bytes self function ptr store
unfolding transform_add_function
let_through dr laws chains bytes self function ptr store =
    bind-ext (add_function dr chains bytes self function ptr store) _ (λ r. ok r)
      (λ (rc, self', store').
        checked-lingers {A = Errno × Self dr chains × Store} dr store store' (rc, self', store')
          laws.lingers)
    ∙ bind_ok (add_function dr chains bytes self function ptr store)

module _ (dr : Dr) (laws : Decodes dr) (chains : Chains) (chain_laws : ChainLaws chains)
    (function : Function) (self : Self dr chains) (bytes : Bytes) where
  wider :
      (c c' : Cursor dr.Instr)
      → c'.walk - c.walk ≤ function.len
      → c.orig ≡ function.addr
      → IsWithin c.orig (c.orig + (c'.walk - c.walk)) c'.set
      → IsWithin function.addr (function.addr + function.len) c'.set
  wider c c' long at within = record {
    starts = omega (arith, at, within.starts);
    sized = within.sized;
    ends = omega (arith, at, within.ends);
  }

  after_prologue-Added :
      (end : ℕ) (tf : Transformable dr.Instr chains.Head) (c : Cursor dr.Instr) (r : Scan dr.Instr)
      (grants : ℕ → Bool)
      → end < 2 ^ 64
      → end ≤ c.walk + 2 ^ 32
      → end ≤ c.walk + function.len
      → c.orig ≡ function.addr
      → tf.function ≡ function
      → tf.epilogues ≡ chains.init
      → c.store.grants ≡ grants
      → Next dr c r
      → Settles
          (Refuses grants)
          (Added dr chains function self grants)
          (after_prologue dr chains bytes end self tf r)
  unfolding after_prologue
  after_prologue-Added end tf c r grants small near long at about none_yet same (unasked g) =
      left (λ e. cc) same
  after_prologue-Added end tf c r grants small near long at about none_yet same
        (stopped {rc} ne kept) =
      elim (Bool-cases (is_success rc)) [
        | inl t ↦ absurd (ne ((is_success_iff rc).0 t))
        | inr t ↦ rw (t) (left ne (kept ∙ same))
      ]
  after_prologue-Added end tf c r grants small near long at about none_yet same
        (run {c'} counted moved sized passing kept) =
      rw ((is_success_iff success).1 refl) (
        with_prologue-Added dr laws chains chain_laws function self c'.walk end grants bytes
          (record tf { prologue = c'.set }) c' small about counted none_yet
          (λ h. (
            omega (arith, counted),
            λ short. wider c c' (omega (arith, long)) at (passing (omega (arith, at, long))),
          ))
          refl (kept ∙ same))

  pub add_function-Added :
      (ptr : ℕ) (store : Store)
      → offset ptr function.len ≤ ptr + 2 ^ 32
      → Settles
          (Refuses store.grants)
          (Added dr chains function self store.grants)
          (add_function dr chains bytes self function ptr store)
  unfolding add_function transformable_init
  add_function-Added ptr store near = elim (Bool-cases (granted store)) [
    | inr g ↦ rw (g) (left (λ e. cc) refl)
    | inl g ↦ elim (Bool-cases (ltb ptr (offset ptr function.len))) [
      | inr done ↦
          Returns-Settles (Refuses store.grants)
            (λ (rc, self', store').
              Left dr chains self store.grants (rc, self', store') × (store'.stale ≡ store.stale))
            _ _
            (add_function-Left dr chains chain_laws function self bytes ptr store (ground arith))
            (λ (rc, self', store') ((ne, same, kept), still).
              subst (λ x. Added dr chains function self store.grants (rc, x, store')) (sym same)
                (left ne kept))
      | inl going ↦
          let below = ltb→lt ptr (offset ptr function.len) going in
          let end = offset ptr function.len in
          let tf = transformable_init chains dr.Instr function in
          let c : Cursor dr.Instr = record {
            walk = ptr;
            orig = function.addr;
            set = tf.prologue;
            store = with_block store;
          } in
          let (r, e, next) =
            next_set-Next dr laws bytes end (some (test_instr_prologue dr)) c (omega arith) below in
          rw (g, e)
            (after_prologue-Added end tf c r store.grants (omega arith) (omega arith) (omega arith)
              refl refl refl refl next)
    ]
  ]

  -- Offering a function of at most 4 GB of code always ends, and it faults only if some request for
  -- memory is refused. Success adds to the end of the list the function with a prologue of two
  -- instructions or more, which stands in the function unless that wraps, the order that counts
  -- them, and one epilogue or more, each with as many pops as the prologue has pushes and of the
  -- same registers in reverse; a failure leaves the list as it was. The function may be empty, and its end may wrap.
  -- The links of destroyed instructions can still be read.
  pub transform_add_function-Added :
      (ptr : ℕ) (store : Store)
      → offset ptr function.len ≤ ptr + 2 ^ 32
      → Settles
          (Refuses store.grants)
          (Added dr chains function self store.grants)
          (transform_add_function dr chains bytes self function ptr store)
  transform_add_function-Added ptr store near =
      rw (let_through dr laws chains bytes self function ptr store)
        (add_function-Added ptr store near)

-- ===== src/Transform/Permute/Every.antt =====
-- `transform_permute_all` on functions that can be randomized.
use librave.Base.{
  ℕ, suc, ◌<◌, ◌≤◌, ◌^◌, ◌≡◌, refl, sym, ap, subst, inl, inr, Option, some, List, [], ◌∷◌, All,
  length, true, ◌∙◌, All-map, Returns, Returns-inv, Bool-cases,
}
use librave.Errno.{Errno, is_success}
use librave.Random.{Draws}
use librave.Window.{Window}
use librave.Transform.Dr.{Dr}
use librave.Transform.Chains.{Chains, ChainLaws}
use librave.Transform.Held.{order_block}
use librave.Transform.Encode.Rewritten.{IsEncodable}
use librave.Transform.Permute.{
  World, Tf, function_window, permute, permute_each, transform_permute_all,
}
use librave.Transform.Permute.Safe.{
  Outside, Outside-success, IsPlaced, Permutes, Reordered, permute-Reordered,
}

module _ (dr : Dr) (chains : Chains) (rand : Draws) (text : Option Window) where
  -- A function with an order of its slots, whose sets lie in its window with room behind them.
  pub record IsReady (tf : Tf dr chains rand) : Type 0 where
    pub old : List ℕ
    pub has : tf.order ≡ some old
    pub permutes : Permutes tf.prologue.nr_instrs old
    pub some_slots : 0 < tf.prologue.nr_instrs
    pub few : tf.prologue.nr_instrs ≤ 2 ^ 31
    pub placed :
        IsPlaced dr
          (function_window dr chains rand text tf.function)
          tf.prologue.nr_instrs
          tf.prologue
    pub each :
        All
          (IsPlaced dr (function_window dr chains rand text tf.function) tf.prologue.nr_instrs)
          (chains.entries tf.epilogues)

  reordered-IsReady :
      (tf : Tf dr chains rand) (new : List ℕ)
      → IsReady tf
      → Permutes tf.prologue.nr_instrs new
      → IsReady (record tf { order = some new })
  reordered-IsReady tf new r p = record {
    old = new;
    has = refl;
    permutes = p;
    some_slots = r.some_slots;
    few = r.few;
    placed = r.placed;
    each = r.each;
  }

  -- A byte outside the sets of a function.
  pub record Spared (rc : Errno) (q : ℕ) (tf : Tf dr chains rand) : Type 0 where
    pub prologue : Outside (function_window dr chains rand text tf.function) rc q tf.prologue
    pub epilogues :
        All
          (Outside (function_window dr chains rand text tf.function) rc q)
          (chains.entries tf.epilogues)

  -- The same functions, with other orders: none appears where there was none, or goes.
  pub data Reorders : List (Tf dr chains rand) → List (Tf dr chains rand) → Type 0 where
    no_more : Reorders [] []
    one_more :
        {tfs tfs' : List (Tf dr chains rand)} (tf : Tf dr chains rand) (order : Option (List ℕ))
        → order_block order ≡ order_block tf.order
        → Reorders tfs tfs'
        → Reorders (tf ∷ tfs) (record tf { order = order } ∷ tfs')

  pub Reorders-refl : (tfs : List (Tf dr chains rand)) → Reorders tfs tfs
  Reorders-refl [] = no_more
  Reorders-refl (tf ∷ tfs) = one_more tf tf.order refl (Reorders-refl tfs)

  pub Reorders-trans :
      (tfs tfs' tfs'' : List (Tf dr chains rand))
      → Reorders tfs tfs'
      → Reorders tfs' tfs''
      → Reorders tfs tfs''
  Reorders-trans tfs tfs' tfs'' no_more r = r
  Reorders-trans tfs tfs' tfs'' (one_more {tfs = us} {tfs' = us'} tf order b r)
        (one_more {tfs' = us''} tf' order' b' r') =
      one_more tf order' (b' ∙ b) (Reorders-trans us us' us'' r r')

  pub Reorders-length :
      (tfs tfs' : List (Tf dr chains rand)) → Reorders tfs tfs' → length tfs' ≡ length tfs
  Reorders-length tfs tfs' no_more = refl
  Reorders-length tfs tfs' (one_more {tfs = rest} {tfs' = rest'} tf order b r) =
      ap suc (Reorders-length rest rest' r)

  -- The same functions with other orders, all ready, and no byte changed outside their sets.
  abbrev pub Kept :
      List (Tf dr chains rand) → World → Errno × List (Tf dr chains rand) × World → Type 0
  Kept tfs world (rc, tfs', world') =
      Reorders tfs tfs'
      × All IsReady tfs'
      × ((q : ℕ) → All (Spared rc q) tfs → world'.bytes q ≡ world.bytes q)

  -- Behind a success, whatever code comes next.
  Spared-success :
      (rc rc' : Errno) (q : ℕ) (tf : Tf dr chains rand)
      → is_success rc ≡ true
      → Spared rc' q tf
      → Spared rc q tf
  Spared-success rc rc' q tf t s =
      let fw = function_window dr chains rand text tf.function in
      record {
        prologue = Outside-success fw rc rc' q tf.prologue t s.prologue;
        epilogues =
            All-map (λ set. Outside-success fw rc rc' q set t) (chains.entries tf.epilogues)
              s.epilogues;
      }

  pub permute_each-Kept :
      (short : IsEncodable dr) (tfs : List (Tf dr chains rand)) (world : World)
      → All IsReady tfs
      → Returns (Kept tfs world) (permute_each dr chains rand tfs text world)
  unfolding permute_each
  permute_each-Kept short [] world ready = (no_more, tt, λ q spared. refl)
  permute_each-Kept short (tf ∷ tfs) world (r, ready) =
      let fw = function_window dr chains rand text tf.function in
      let ((rc, tf', world'), e, ((new, same, p), drawn, spares)) =
        Returns-inv (Reordered dr short fw chains rand tf world)
          (permute dr chains rand tf fw world)
          (permute-Reordered dr short fw chains rand tf r.old world r.has r.permutes r.some_slots
            r.few r.placed r.each) in
      let ((rc', tfs', world''), e', (again, all, spares')) =
        Returns-inv (Kept tfs world') (permute_each dr chains rand tfs text world')
          (permute_each-Kept short tfs world' ready) in
      let here : IsReady tf' = subst IsReady (sym same) (reordered-IsReady tf new r p) in
      let head = λ (us vs : List (Tf dr chains rand)) (k : Reorders us vs).
        subst (λ f. Reorders (tf ∷ us) (f ∷ vs)) (sym same)
          (one_more tf (some new) (rw (r.has) refl) k) in
      elim (Bool-cases (is_success rc)) [
        | inl t ↦
            rw (e, e', t)
              (
                head tfs tfs' again,
                (here, all),
                λ q (first, rest).
                    let ahead = Spared-success rc rc' q tf t first in
                    spares' q rest ∙ spares q ahead.prologue ahead.epilogues,
              )
        | inr t ↦
            rw (e, t)
              (
                head tfs tfs (Reorders-refl tfs),
                (here, ready),
                λ q (first, rest). spares q first.prologue first.epilogues,
              )
      ]

-- Permuting a list of functions that are ready returns without a fault, whatever is drawn and
-- whether or not the code can be encoded. It leaves the same functions with other orders, all ready
-- again, and changes no byte outside the places of their sets, but for 17 bytes behind each of them if
-- the code cannot be encoded. A function is ready if its order permutes its slots, its prologue and
-- its epilogues have one number of instructions, from one to `2 ^ 31`, and its window in the text
-- shows each of them at a place with room behind it. An encoding has at most 17 bytes.
-- The machine lets a read of the entry behind an array through.
pub transform_permute_all-IsReady :
    (dr : Dr) (short : IsEncodable dr) (chains : Chains) (chain_laws : ChainLaws chains)
    (rand : Draws) (self : chains.Head (Tf dr chains rand)) (text : Window) (world : World)
    → All (IsReady dr chains rand (some text)) (chains.entries self)
    → Returns
        (λ (rc, self', world').
          (h : chains.Head (Tf dr chains rand)) × (self' ≡ some h)
          × Kept dr chains rand
              (some text)
              (chains.entries self)
              world
              (rc, chains.entries h, world'))
        (transform_permute_all dr chains rand (some self) (some text) world)
unfolding transform_permute_all
transform_permute_all-IsReady dr short chains chain_laws rand self text world ready =
    let ((rc, tfs, world'), e, (again, all, spares)) =
      Returns-inv (Kept dr chains rand (some text) (chains.entries self) world)
        (permute_each dr chains rand (chains.entries self) (some text) world)
        (permute_each-Kept dr chains rand (some text) short (chains.entries self) world ready) in
    let same =
      chain_laws.entries-updated tfs self
        (Reorders-length dr chains rand (some text) (chains.entries self) tfs again) in
    rw (e) (chains.updated tfs self, refl, rw (same) (again, all, spares))

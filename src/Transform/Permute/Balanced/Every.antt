-- ===== src/Transform/Permute/Balanced/Every.antt =====
-- All functions: none writes over another.
use librave.Base.{
  ℕ, ◌+◌, ◌-◌, ◌<◌, ◌≤◌, ◌≡◌, refl, subst, inl, inr, Option, some, List, [], ◌∷◌, All, All-map,
  All-both, Returns, Returns-inv, Returns-both, Bool-cases,
}
use librave.Errno.{Errno, success, is_success, is_success_iff, failing}
use librave.Random.{Draws}
use librave.Window.{Window}
use librave.Transform.Dr.{Dr, Bytes, Decodes}
use librave.Transform.Chains.{Chains}
use librave.Transform.Sets.{InstrSet}
use librave.Transform.Add.Rounds.{Mirrors}
use librave.Transform.Encode.Rewritten.{IsEncodable}
use librave.Transform.Encode.Decoded.{Inverts}
use librave.Transform.Encode.Lasting.{Same}
use librave.Transform.Encode.Rigid.{IsRigid}
use librave.Transform.Permute.{
  World, Tf, function_window, permute, permute_each, transform_permute_all,
}
use librave.Transform.Permute.Every.{IsReady, Spared, Kept, permute_each-Kept}
use librave.Transform.Permute.Balanced.Epilogues.{place, Parted, Parted-Clear, AllDisjoint}
use librave.Transform.Permute.Balanced.Whole.{
  Rewrites, Rewrites-Same, Rewrites-Balanced, Balanced, permute-Rewrites,
}

module _ (dr : Dr) (chains : Chains) (rand : Draws) (text : Option Window) where
  abbrev pub window_of : Tf dr chains rand → Option Window
  window_of tf = function_window dr chains rand text tf.function

  abbrev pub sets_of : Tf dr chains rand → List (InstrSet dr.Instr)
  sets_of tf = tf.prologue ∷ chains.entries tf.epilogues

  -- A function that is ready, whose epilogues mirror its prologue, all at places of their own.
  pub record IsPaired (tf : Tf dr chains rand) : Type 0 where
    pub ready : IsReady dr chains rand text tf
    pub mirrors : All (Mirrors dr tf.prologue) (chains.entries tf.epilogues)
    pub disjoint : AllDisjoint (window_of tf) (sets_of tf)

  -- A set that shares no byte with the sets of a function.
  abbrev pub ApartFrom : ℕ → InstrSet dr.Instr → Tf dr chains rand → Type 0
  ApartFrom p s tf = All (λ t. Parted p s (place (window_of tf) t) t) (sets_of tf)

  -- No set of one function shares a byte with a set of another.
  abbrev pub AllSeparate : List (Tf dr chains rand) → Type 0
  AllSeparate [] = Unit
  AllSeparate (tf ∷ tfs) =
      All (λ s. All (ApartFrom (place (window_of tf) s) s) tfs) (sets_of tf) × AllSeparate tfs

  -- All sets of some functions can be encoded in any order.
  abbrev pub AllRigid : List (Tf dr chains rand) → Type 0
  AllRigid = All (λ tf. All (IsRigid dr) (sets_of tf))

  -- What a success leaves of some functions.
  abbrev pub AllRewrite : Bytes → List (Tf dr chains rand) → Type 0
  AllRewrite bytes =
      All (λ tf. Rewrites dr (window_of tf) bytes tf.prologue (chains.entries tf.epilogues))

  abbrev pub Leaves : List (Tf dr chains rand) → Errno × List (Tf dr chains rand) × World → Type 0
  Leaves tfs (rc, tfs', world') =
      (rc ≡ success → AllRewrite world'.bytes tfs) × (AllRigid tfs → rc ≡ success)

  ApartFrom-Spared :
      (p : ℕ) (s : InstrSet dr.Instr) (q : ℕ) (tf : Tf dr chains rand)
      → p ≤ q
      → q < p + (s.end - s.start)
      → ApartFrom p s tf
      → Spared dr chains rand text success q tf
  ApartFrom-Spared p s q tf low high (here, there) =
      let clear = λ (t : InstrSet dr.Instr) (apart : Parted p s (place (window_of tf) t) t).
        Parted-Clear p s (place (window_of tf) t) t q apart low high in
      record {
        prologue = clear tf.prologue here;
        epilogues = All-map clear (chains.entries tf.epilogues) there;
      }

  -- Permuting other functions leaves the places of a function alone.
  Separate-Same :
      (tf : Tf dr chains rand) (tfs : List (Tf dr chains rand)) (bytes bytes' : Bytes)
      → All (λ s. All (ApartFrom (place (window_of tf) s) s) tfs) (sets_of tf)
      → ((q : ℕ) → All (Spared dr chains rand text success q) tfs → bytes' q ≡ bytes q)
      → All (λ set. Same (place (window_of tf) set) set bytes bytes') (sets_of tf)
  Separate-Same tf tfs bytes bytes' apart spares =
      All-map
        (λ s from q low high. spares q (
          All-map (λ tf' a. ApartFrom-Spared (place (window_of tf) s) s q tf' low high a) tfs from))
        (sets_of tf) apart

  permute_each-Leaves :
      (short : IsEncodable dr) (tfs : List (Tf dr chains rand)) (world : World)
      → All IsPaired tfs
      → AllSeparate tfs
      → Returns (Leaves tfs) (permute_each dr chains rand tfs text world)
  unfolding permute_each
  permute_each-Leaves short [] world paired apart = (λ good. tt, λ rigid. refl)
  permute_each-Leaves short (tf ∷ tfs) world (p, paired) (apart, separate) =
      let fw = window_of tf in
      let r = p.ready in
      let ((rc, tf', world'), e, (rewrites, certain)) =
        Returns-inv _ (permute dr chains rand tf fw world) (
          permute-Rewrites dr short fw chains rand tf r.old world r.has r.permutes r.some_slots
            r.few r.placed r.each p.mirrors p.disjoint) in
      let rest = permute_each dr chains rand tfs text world' in
      let ((rc', tfs', world''), e', ((again, all, spares), (leaves, sure))) = Returns-inv _ rest (
        Returns-both (Kept dr chains rand text tfs world') (Leaves tfs) rest
          (permute_each-Kept dr chains rand text short tfs world'
            (All-map (λ f (q : IsPaired f). q.ready) tfs paired))
          (permute_each-Leaves short tfs world' paired separate)) in
      elim (Bool-cases (is_success rc)) [
        | inr t ↦ rw (e, t) (λ good. absurd (failing rc t good), λ (first, others). certain first)
        | inl t ↦
            rw (e, e', t)
              (
                λ good. (
                  Rewrites-Same dr fw world'.bytes world''.bytes tf.prologue
                      (chains.entries tf.epilogues)
                      (Separate-Same tf tfs world'.bytes world''.bytes apart (
                        subst
                          (λ c.
                            (q : ℕ)
                            → All (Spared dr chains rand text c q) tfs
                            → world''.bytes q ≡ world'.bytes q)
                          good spares))
                      (rewrites ((is_success_iff rc).0 t)),
                  leaves good,
                ),
                λ (first, others). sure others,
              )
      ]

-- Permuting a list of functions that are ready, whose epilogues mirror their prologues and whose sets
-- are at places of their own, returns without a fault. If it succeeds, each function is balanced: its prologue decodes to a permutation of its own
-- instructions, and each of its epilogues to a permutation of its own instructions, which pop what
-- the new prologue pushes, in reverse. The decoder inverts the encoder, an encoding has at most 17
-- bytes, and no two sets of the functions share a byte of the text.
-- The machine lets a read of the entry behind an array through.
pub transform_permute_all-Balanced :
    (dr : Dr) (laws : Decodes dr) (inverts : Inverts dr) (short : IsEncodable dr) (chains : Chains)
    (rand : Draws) (self : chains.Head (Tf dr chains rand)) (text : Window) (world : World)
    → All (IsPaired dr chains rand (some text)) (chains.entries self)
    → AllSeparate dr chains rand (some text) (chains.entries self)
    → Returns
        (λ (rc, self', world').
          rc ≡ success
          → All
              (λ tf.
                Balanced dr
                  (window_of dr chains rand (some text) tf)
                  world'.bytes
                  tf.prologue
                  (chains.entries tf.epilogues))
              (chains.entries self))
        (transform_permute_all dr chains rand (some self) (some text) world)
unfolding transform_permute_all
transform_permute_all-Balanced dr laws inverts short chains rand self text world paired separate =
    let tfs = chains.entries self in
    let ((rc, tfs', world'), e, (leaves, sure)) =
      Returns-inv (Leaves dr chains rand (some text) tfs)
        (permute_each dr chains rand tfs (some text) world)
        (permute_each-Leaves dr chains rand (some text) short tfs world paired separate) in
    rw (e) (λ good.
      All-both
        (λ tf (p : IsPaired dr chains rand (some text) tf) r.
          Rewrites-Balanced dr (window_of dr chains rand (some text) tf) laws inverts world'.bytes
            tf.prologue.nr_instrs tf.prologue (chains.entries tf.epilogues)
            (p.ready.placed, p.ready.each) r)
        tfs paired (leaves good))

-- It succeeds if all sets can be encoded in any order.
pub transform_permute_all-success :
    (dr : Dr) (short : IsEncodable dr) (chains : Chains) (rand : Draws)
    (self : chains.Head (Tf dr chains rand)) (text : Window) (world : World)
    → All (IsPaired dr chains rand (some text)) (chains.entries self)
    → AllSeparate dr chains rand (some text) (chains.entries self)
    → AllRigid dr chains rand (some text) (chains.entries self)
    → Returns
        (λ (rc, self', world'). rc ≡ success)
        (transform_permute_all dr chains rand (some self) (some text) world)
unfolding transform_permute_all
transform_permute_all-success dr short chains rand self text world paired separate rigid =
    let tfs = chains.entries self in
    let ((rc, tfs', world'), e, (leaves, sure)) =
      Returns-inv (Leaves dr chains rand (some text) tfs)
        (permute_each dr chains rand tfs (some text) world)
        (permute_each-Leaves dr chains rand (some text) short tfs world paired separate) in
    rw (e) (sure rigid)

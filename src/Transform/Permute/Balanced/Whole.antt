-- ===== src/Transform/Permute/Balanced/Whole.antt =====
-- The whole function: its prologue in a new order, and its epilogues in the mirrored one.
use mathlib.Core.List.Perm
use librave.Base.{
  ℕ, ◌+◌, ◌<◌, ◌≤◌, ◌^◌, ◌≡◌, sym, ap, subst, inl, inr, Option, some, List, ◌∷◌, map, reverse, Perm,
  All, All-both, arith, Returns, Returns-inv, Returns-step, Bool-cases,
}
use librave.Errno.{Errno, success, is_success, is_success_iff, failing}
use librave.Random.{Draws}
use librave.Random.Shuffles.{shuffle-perm}
use librave.Window.{Window}
use librave.Transform.Dr.{Dr, Bytes, Decodes}
use librave.Transform.Chains.{Chains}
use librave.Transform.Sets.{InstrSet}
use librave.Transform.Code.{Code, total}
use librave.Transform.Add.Rounds.{Mirrors}
use librave.Transform.Encode.{instr_set_encode_order}
use librave.Transform.Encode.Slots.{arrange-somes}
use librave.Transform.Encode.Rewritten.{IsEncodable, Rewritten, encode-arranged}
use librave.Transform.Encode.Decoded.{Inverts}
use librave.Transform.Encode.Rigid.{IsRigid, arranged-succeeds}
use librave.Transform.Encode.Lasting.{Written, Same, Rewritten-Written, Written-Same, Written-Code}
use librave.Transform.Permute.{World, Tf, order_of, encode_epilogues, permute_epilogues, permute}
use librave.Transform.Permute.Eorder.{mirror_order_lem}
use librave.Transform.Permute.Safe.{Outside, IsPlaced, Permutes, Permutes-IsOrder}
use librave.Transform.Permute.Balanced.Epilogues.{
  place, AllDisjoint, Disjoint-Same, Pops, Popping, epilogues-Popping,
}

module _ (dr : Dr) (fw : Option Window) where
  -- The bytes in the place of a set decode to some instructions, over the length of the set's own.
  abbrev pub Reads : Bytes → InstrSet dr.Instr → List dr.Instr → Type 0
  Reads bytes set is =
      Code dr bytes (place fw set) set.start is (place fw set + total dr set.instrs)
        (set.start + total dr set.instrs)

  -- An epilogue that pops what some instructions push, in reverse.
  pub record Undoes (bytes : Bytes) (is : List dr.Instr) (epi : InstrSet dr.Instr) : Type 0 where
    pub es : List dr.Instr
    pub perm : Perm es epi.instrs
    pub reads : Reads bytes epi es
    pub mirrors : map dr.dst_reg es ≡ reverse (map dr.src_reg is)

  -- The prologue reads as a permutation of its instructions, and each epilogue as a permutation of
  -- its own that undoes it.
  pub record Balanced (bytes : Bytes) (pro : InstrSet dr.Instr) (epis : List (InstrSet dr.Instr))
      : Type 0 where
    pub is : List dr.Instr
    pub perm : Perm is pro.instrs
    pub reads : Reads bytes pro is
    pub undone : All (Undoes bytes is) epis

  -- Such code has been written.
  pub record Rewrites (bytes : Bytes) (pro : InstrSet dr.Instr) (epis : List (InstrSet dr.Instr))
      : Type 0 where
    pub is : List dr.Instr
    pub perm : Perm is pro.instrs
    pub written : Written dr bytes (place fw pro) pro is
    pub pops : All (Pops dr fw bytes is) epis

  pub Rewrites-Same :
      (bytes bytes' : Bytes) (pro : InstrSet dr.Instr) (epis : List (InstrSet dr.Instr))
      → All (λ set. Same (place fw set) set bytes bytes') (pro ∷ epis)
      → Rewrites bytes pro epis
      → Rewrites bytes' pro epis
  Rewrites-Same bytes bytes' pro epis (here, there) r = record {
    is = r.is;
    perm = r.perm;
    written = Written-Same dr (place fw pro) pro r.is bytes bytes' here r.written;
    pops =
        All-both
          (λ epi same p. record {
            es = p.es;
            perm = p.perm;
            written = Written-Same dr (place fw epi) epi p.es bytes bytes' same p.written;
            mirrors = p.mirrors;
          })
          epis there r.pops;
  }

  module _ (laws : Decodes dr) (inverts : Inverts dr) where
    Pops-Undoes :
        (bytes : Bytes) (is : List dr.Instr) (n : ℕ) (epi : InstrSet dr.Instr)
        → IsPlaced dr fw n epi
        → Pops dr fw bytes is epi
        → Undoes bytes is epi
    Pops-Undoes bytes is n epi p w = record {
      es = w.es;
      perm = w.perm;
      reads =
          Written-Code dr (place fw epi) epi w.es bytes laws inverts (omega (arith, p.small)) w.perm
            w.written;
      mirrors = w.mirrors;
    }

    pub Rewrites-Balanced :
        (bytes : Bytes) (n : ℕ) (pro : InstrSet dr.Instr) (epis : List (InstrSet dr.Instr))
        → All (IsPlaced dr fw n) (pro ∷ epis)
        → Rewrites bytes pro epis
        → Balanced bytes pro epis
    Rewrites-Balanced bytes n pro epis (placed, each) r = record {
      is = r.is;
      perm = r.perm;
      reads =
          Written-Code dr (place fw pro) pro r.is bytes laws inverts (omega (arith, placed.small))
            r.perm r.written;
      undone = All-both (Pops-Undoes bytes r.is n) epis each r.pops;
    }

module _ (dr : Dr) (short : IsEncodable dr) (fw : Option Window) (chains : Chains)
    (rand : Draws) where
  -- What a permutation that succeeds leaves of a function, and that it succeeds if its sets are rigid.
  abbrev pub Leaves : Tf dr chains rand → Errno × Tf dr chains rand × World → Type 0
  Leaves tf (rc, tf', world') =
      (rc ≡ success → Rewrites dr fw world'.bytes tf.prologue (chains.entries tf.epilogues))
      × (All (IsRigid dr) (tf.prologue ∷ chains.entries tf.epilogues) → rc ≡ success)

  pub permute-Rewrites :
      (tf : Tf dr chains rand) (old : List ℕ) (world : World)
      → tf.order ≡ some old
      → Permutes tf.prologue.nr_instrs old
      → 0 < tf.prologue.nr_instrs
      → tf.prologue.nr_instrs ≤ 2 ^ 31
      → IsPlaced dr fw tf.prologue.nr_instrs tf.prologue
      → All (IsPlaced dr fw tf.prologue.nr_instrs) (chains.entries tf.epilogues)
      → All (Mirrors dr tf.prologue) (chains.entries tf.epilogues)
      → AllDisjoint fw (tf.prologue ∷ chains.entries tf.epilogues)
      → Returns (Leaves tf) (permute dr chains rand tf fw world)
  unfolding permute permute_epilogues
  permute-Rewrites tf old world has p some_slots few placed each mirrors (apart, disjoint) =
      let pro = tf.prologue in
      let n = pro.nr_instrs in
      let epis = chains.entries tf.epilogues in
      let (order, shuffled, perm, whole) =
        shuffle-perm rand old n world.drawn p.whole some_slots few in
      let permutes : Permutes n order = record { whole = whole; perm = Perm.trans perm p.perm } in
      let is_order = Permutes-IsOrder n order permutes in
      let (eorder, mirrored, is_eorder, _) = mirror_order_lem n order is_order few in
      let (is, arranged, perm') =
        arrange-somes dr n order is_order few pro.instrs (sym placed.counted) in
      let ((rc, pen), e, h) =
        Returns-inv (Rewritten dr world.bytes (place fw pro) pro.start pro.end is)
          (instr_set_encode_order dr pro (place fw pro) order world.bytes)
          (encode-arranged dr pro (place fw pro) order world.bytes is short arranged placed.le
            placed.small placed.positive placed.room) in
      let certain = λ (rigid : IsRigid dr pro). subst (Returns (λ (c, w). c ≡ success)) e (
        arranged-succeeds dr short.through pro (place fw pro) order world.bytes is rigid perm'
          arranged (omega (arith, placed.small)) placed.positive (omega (arith, placed.room))) in
      let ((rc', bytes), e', (leaves, written, sure)) =
        Returns-inv
          (Popping dr short fw chains rand n order eorder is_order is_eorder few mirrored pro
            (sym placed.counted) is arranged pen.bytes epis)
          (encode_epilogues dr chains rand epis fw eorder pen.bytes)
          (epilogues-Popping dr short fw chains rand n order eorder is_order is_eorder few mirrored
            pro (sym placed.counted) is arranged epis pen.bytes each mirrors disjoint) in
      Returns-step (Leaves tf) _ _ (ap (order_of dr chains rand) has) (
        Returns-step (Leaves tf) _ _ shuffled (
          Returns-step (Leaves tf) _ _ e (elim (Bool-cases (is_success rc)) [
            | inr t ↦ rw (t) (λ good. absurd (failing rc t good), λ (first, rest). certain first)
            | inl t ↦
                rw (t, mirrored, e')
                  (
                    λ good.
                        let same = Disjoint-Same fw pro epis pen.bytes bytes apart (
                          subst (λ c. (q : ℕ) → All (Outside fw c q) epis → bytes q ≡ pen.bytes q)
                            good leaves) in
                        let kept = Written-Same dr (place fw pro) pro is pen.bytes bytes same (
                          Rewritten-Written dr world.bytes (place fw pro) pro is rc pen h
                            ((is_success_iff rc).0 t)) in
                        record { is = is; perm = perm'; written = kept; pops = written good },
                    λ (first, rest). sure rest,
                  )
          ])))

-- ===== src/Transform/Permute/Balanced/Epilogues.antt =====
-- The epilogues of a function, behind its prologue.
use librave.Base.{
  ℕ, ◌+◌, ◌-◌, ◌<◌, ◌≤◌, ◌^◌, ◌≡◌, ◌⊎◌, inl, inr, refl, sym, ◌∙◌, subst, Option, none, some, List,
  [], ◌∷◌, map, reverse, Perm, All, All-map, arith, length, replicate, ok, Returns, Returns-inv,
  Returns-weaken, Bool-cases,
}
use librave.Base.Orders.{IsOrder}
use librave.Errno.{Errno, success, is_success, is_success_iff, failing}
use librave.Random.{Draws}
use librave.Window.{Window, window_view}
use librave.Transform.Dr.{Dr, Bytes}
use librave.Transform.Chains.{Chains}
use librave.Transform.Sets.{InstrSet}
use librave.Transform.Add.Rounds.{Mirrors}
use librave.Transform.Encode.{arrange, instr_set_encode_order}
use librave.Transform.Encode.Rigid.{IsRigid, arranged-succeeds}
use librave.Transform.Encode.Outside.{slack, Clear, Rewritten-outside}
use librave.Transform.Encode.Rewritten.{IsEncodable, Rewritten, encode-arranged}
use librave.Transform.Encode.Lasting.{Written, Rewritten-Written, Same, Written-Same}
use librave.Transform.Permute.{mirror_order, encode_epilogues}
use librave.Transform.Permute.Safe.{Outside, Outside-success, IsPlaced}
use librave.Transform.Permute.Balanced.{epilogue_in}

-- Two sets at two pointers have no byte in common.
abbrev pub Parted : {I : Type 0} → ℕ → InstrSet I → ℕ → InstrSet I → Type 0
Parted p s q t = (p + (s.end - s.start) ≤ q) ⊎ (q + (t.end - t.start) ≤ p)

pub Parted-Clear :
    {I : Type 0} (p : ℕ) (s : InstrSet I) (p' : ℕ) (t : InstrSet I) (q : ℕ)
    → Parted p s p' t
    → p ≤ q
    → q < p + (s.end - s.start)
    → Clear (slack success) p' t q
Parted-Clear p s p' t q apart low high =
    rw ((is_success_iff success).1 refl)
      (elim apart [ inl h ↦ inl (omega arith) | inr h ↦ inr (omega arith) ])

module _ (fw : Option Window) where
  -- Where the window shows a set.
  abbrev pub place : {I : Type 0} → InstrSet I → ℕ
  place set = (window_view fw set.start none).0

  -- The places of two sets have no byte in common.
  abbrev pub Disjoint : {I : Type 0} → InstrSet I → InstrSet I → Type 0
  Disjoint s t = Parted (place s) s (place t) t

  -- Nor have any two of some.
  abbrev pub AllDisjoint : {I : Type 0} → List (InstrSet I) → Type 0
  AllDisjoint [] = Unit
  AllDisjoint (s ∷ ss) = All (Disjoint s) ss × AllDisjoint ss

  -- Writing some sets leaves the place of one that is apart from them.
  pub Disjoint-Same :
      {I : Type 0} (s : InstrSet I) (ts : List (InstrSet I)) (bytes bytes' : Bytes)
      → All (Disjoint s) ts
      → ((q : ℕ) → All (Outside fw success q) ts → bytes' q ≡ bytes q)
      → Same (place s) s bytes bytes'
  Disjoint-Same s ts bytes bytes' apart leaves q low high =
      leaves q (All-map (λ t d. Parted-Clear (place s) s (place t) t q d low high) ts apart)

module _ (dr : Dr) (fw : Option Window) where
  -- An epilogue that has been written, and pops what some instructions push, in reverse.
  pub record Pops (bytes : Bytes) (is : List dr.Instr) (epi : InstrSet dr.Instr) : Type 0 where
    pub es : List dr.Instr
    pub perm : Perm es epi.instrs
    pub written : Written dr bytes (place fw epi) epi es
    pub mirrors : map dr.dst_reg es ≡ reverse (map dr.src_reg is)

module _ (dr : Dr) (short : IsEncodable dr) (fw : Option Window) (chains : Chains) (rand : Draws)
    (n : ℕ) (order eorder : List ℕ) (is_order : IsOrder n order) (is_eorder : IsOrder n eorder)
    (few : n ≤ 2 ^ 31) (mirrored : mirror_order n order ≡ ok eorder) (pro : InstrSet dr.Instr)
    (sizep : length pro.instrs ≡ n) (is : List dr.Instr)
    (arranged : arrange dr pro.instrs order 0 (replicate n none) ≡ ok (map some is)) where
  -- No byte outside the sets changes, success has written all of them, and it is certain if they are
  -- rigid.
  abbrev pub Popping : Bytes → List (InstrSet dr.Instr) → Errno × Bytes → Type 0
  Popping bytes sets (rc, bytes') =
      ((q : ℕ) → All (Outside fw rc q) sets → bytes' q ≡ bytes q)
      × (rc ≡ success → All (Pops dr fw bytes' is) sets)
      × (All (IsRigid dr) sets → rc ≡ success)

  pub epilogues-Popping :
      (sets : List (InstrSet dr.Instr)) (bytes : Bytes)
      → All (IsPlaced dr fw n) sets
      → All (Mirrors dr pro) sets
      → AllDisjoint fw sets
      → Returns (Popping bytes sets) (encode_epilogues dr chains rand sets fw eorder bytes)
  unfolding encode_epilogues
  epilogues-Popping [] bytes ps ms ds = (λ q apart. refl, λ e. tt, λ rigid. refl)
  epilogues-Popping (set ∷ sets) bytes (p, ps) (m, ms) (d, ds) =
      let (es, arranged', perm, same) =
        epilogue_in dr n order eorder is_order is_eorder few mirrored pro set sizep
          (omega (arith, p.counted, p.size)) m.reversed is arranged in
      let ((rc, pen), e, h) =
        Returns-inv (Rewritten dr bytes (place fw set) set.start set.end es)
          (instr_set_encode_order dr set (place fw set) eorder bytes)
          (encode-arranged dr set (place fw set) eorder bytes es short
            (subst (λ k. arrange dr set.instrs eorder 0 (replicate k none) ≡ ok (map some es))
              (sym p.size) arranged')
            p.le p.small p.positive p.room) in
      let certain = λ (rigid : IsRigid dr set). subst (Returns (λ (c, w). c ≡ success)) e (
        arranged-succeeds dr short.through set (place fw set) eorder bytes es rigid perm
          (subst (λ k. arrange dr set.instrs eorder 0 (replicate k none) ≡ ok (map some es))
            (sym p.size) arranged')
          (omega (arith, p.small)) p.positive (omega (arith, p.room))) in
      let here = λ (q : ℕ) (apart : Outside fw rc q set).
        Rewritten-outside dr bytes (place fw set) set es rc pen q h apart in
      elim (Bool-cases (is_success rc)) [
        | inr t ↦
            rw (e, t)
              (
                λ q (first, rest). here q first,
                λ good. absurd (failing rc t good),
                λ (first, rest). certain first,
              )
        | inl t ↦
            rw (e, t)
              (Returns-weaken (Popping pen.bytes sets) (Popping bytes (set ∷ sets)) _
                (epilogues-Popping sets pen.bytes ps ms ds)
                (λ (rc', bytes') (leaves, written, sure). (
                  λ q (first, rest).
                      leaves q rest ∙ here q (Outside-success fw rc rc' q set t first),
                  λ good. (
                    record {
                      es = es;
                      perm = perm;
                      written =
                          Written-Same dr (place fw set) set es pen.bytes bytes'
                            (Disjoint-Same fw set sets pen.bytes bytes' d (
                              subst
                                (λ c. (q : ℕ) → All (Outside fw c q) sets → bytes' q ≡ pen.bytes q)
                                good leaves))
                            (Rewritten-Written dr bytes (place fw set) set es rc pen h
                              ((is_success_iff rc).0 t));
                      mirrors = same;
                    },
                    written good,
                  ),
                  λ (first, rest). sure rest,
                )))
      ]

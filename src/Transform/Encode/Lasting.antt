-- ===== src/Transform/Encode/Lasting.antt =====
-- What has been written stays while no byte of it changes, and decodes.
use librave.Base.{
  ℕ, ◌+◌, ◌-◌, ◌<◌, ◌≤◌, ◌^◌, ◌≡◌, sym, ◌∙◌, subst, List, [], ◌∷◌, Perm, arith, length,
}
use librave.Errno.{Errno, success}
use librave.Transform.Dr.{Dr, Bytes, Decodes}
use librave.Transform.Sets.{InstrSet}
use librave.Transform.Code.{Code, total, none_yet}
use librave.Transform.Encode.{Pen}
use librave.Transform.Encode.Rewritten.{Encoding, Rewritten, whole, part}
use librave.Transform.Encode.Decoded.{Holds, Inverts, store_bytes-Holds, Encoding-Code, total-perm}

-- The encodings of some instructions stand in the place of a set.
pub record Written (dr : Dr) (bytes : Bytes) (target : ℕ) (set : InstrSet dr.Instr)
    (is : List dr.Instr) : Type 0 where
  pub code : List ℕ
  pub encoding : Encoding dr set.start is code
  pub holds : Holds bytes target code
  pub fits : set.start + length code ≤ set.end

pub Rewritten-Written :
    (dr : Dr) (bytes : Bytes) (target : ℕ) (set : InstrSet dr.Instr) (is : List dr.Instr)
    (rc : Errno) (pen : Pen)
    → Rewritten dr bytes target set.start set.end is (rc, pen)
    → rc ≡ success
    → Written dr pen.bytes target set is
Rewritten-Written dr bytes target set is rc pen (part bs ne wrote fits) e = absurd (ne e)
Rewritten-Written dr bytes target set is rc pen (whole bs enc wrote fits) e = record {
  code = bs;
  encoding = enc;
  holds = subst (λ b. Holds b target bs) (sym wrote) (store_bytes-Holds bytes target bs);
  fits = fits;
}

-- The bytes of the place of a set are the same.
abbrev pub Same : {I : Type 0} → ℕ → InstrSet I → Bytes → Bytes → Type 0
Same target set bytes bytes' =
    (q : ℕ) → target ≤ q → q < target + (set.end - set.start) → bytes' q ≡ bytes q

Holds-Same :
    (bytes bytes' : Bytes) (p : ℕ) (bs : List ℕ)
    → ((q : ℕ) → p ≤ q → q < p + length bs → bytes' q ≡ bytes q)
    → Holds bytes p bs
    → Holds bytes' p bs
Holds-Same bytes bytes' p [] same h = tt
Holds-Same bytes bytes' p (b ∷ bs) same (here, h) = (
  same p (omega arith) (omega arith) ∙ here,
  Holds-Same bytes bytes' (p + 1) bs (λ q low high. same q (omega arith) (omega arith)) h,
)

module _ (dr : Dr) (target : ℕ) (set : InstrSet dr.Instr) (is : List dr.Instr) where
  pub Written-Same :
      (bytes bytes' : Bytes)
      → Same target set bytes bytes'
      → Written dr bytes target set is
      → Written dr bytes' target set is
  Written-Same bytes bytes' same w = record {
    code = w.code;
    encoding = w.encoding;
    holds =
        Holds-Same bytes bytes' target w.code
          (λ q low high. same q low (omega (arith, w.fits, high))) w.holds;
    fits = w.fits;
  }

  -- Encodings of a permutation of the instructions of the set decode to it.
  pub Written-Code :
      (bytes : Bytes)
      → Decodes dr
      → Inverts dr
      → set.end < 2 ^ 64
      → Perm is set.instrs
      → Written dr bytes target set is
      → Code dr bytes target set.start is
          (target + total dr set.instrs)
          (set.start + total dr set.instrs)
  Written-Code bytes laws inverts small perm w =
      let (code, sized) =
        Encoding-Code dr laws inverts bytes target set.start target set.start [] is w.code none_yet
          w.encoding w.holds (omega (arith, w.fits)) in
      subst (λ n. Code dr bytes target set.start is (target + n) (set.start + n))
        (sized ∙ total-perm dr perm) code

-- ===== src/Transform/Encode/Decoded.antt =====
-- What `instr_set_encode_order` has written, read back.
use mathlib.Core.List.{foldr, append_assoc, append-nil}
use mathlib.Core.List.Perm
use mathlib.Core.Path.{subst₂}
use native.Mathlib.Nat.{ℕ_set}
use librave.Base.{
  ℕ, suc, ◌+◌, ◌-◌, ◌<◌, ◌≤◌, ◌^◌, ◌≡◌, ◌≢◌, refl, sym, ap, ◌∙◌, some, List, [], ◌∷◌, ◌++◌, Perm,
  arith, length, length-append, ◌==◌, if◌then◌else◌, add64, subst, Returns, Returns-weaken,
}
use librave.Base.Orders.{IsOrder}
use librave.Errno.{Errno, success}
use librave.Transform.Dr.{Dr, Bytes, Decodes}
use librave.Transform.Sets.{InstrSet}
use librave.Transform.Code.{Code, total, none_yet, then_one}
use librave.Transform.Mirror.Reverse.{IsCounted}
use librave.Transform.Encode.{store_bytes, Pen, instr_set_encode_order}
use librave.Transform.Encode.Rewritten.{
  IsEncodable, Encoding, nothing_left, encoded, Rewritten, whole, part,
  instr_set_encode_order-Rewritten,
}

-- Some bytes stand at a pointer.
abbrev pub Holds : Bytes → ℕ → List ℕ → Type 0
Holds bytes p [] = Unit
Holds bytes p (b ∷ bs) = (bytes p ≡ b) × Holds bytes (p + 1) bs

-- What DynamoRIO documents of its encoder and its decoder together: the bytes of an encoded
-- instruction decode, at the same address, to the instruction.
abbrev pub Inverts : Dr → Type 0
Inverts dr =
    (bytes : Bytes) (w o : ℕ) (instr : dr.Instr) (bs : List ℕ)
    → dr.encode instr o ≡ some bs
    → Holds bytes w bs
    → dr.decode bytes w o ≡ some (w + length bs, instr)

store_bytes-before :
    (bytes : Bytes) (p q : ℕ) (bs : List ℕ) → q < p → store_bytes bytes p bs q ≡ bytes q
unfolding store_bytes
store_bytes-before bytes p q [] h = refl
store_bytes-before bytes p q (b ∷ bs) h =
    store_bytes-before (λ r. if r == p then b else bytes r) (p + 1) q bs (omega arith)
    ∙ ground arith

pub store_bytes-Holds : (bytes : Bytes) (p : ℕ) (bs : List ℕ) → Holds (store_bytes bytes p bs) p bs
unfolding store_bytes
store_bytes-Holds bytes p [] = tt
store_bytes-Holds bytes p (b ∷ bs) = (
  store_bytes-before (λ r. if r == p then b else bytes r) (p + 1) p bs (omega arith) ∙ ground arith,
  store_bytes-Holds (λ r. if r == p then b else bytes r) (p + 1) bs,
)

Holds-append :
    (bytes : Bytes) (p : ℕ) (bs cs : List ℕ)
    → Holds bytes p (bs ++ cs)
    → Holds bytes p bs × Holds bytes (p + length bs) cs
Holds-append bytes p [] cs h =
    (tt, let same : p ≡ p + 0 = omega arith in subst (λ q. Holds bytes q cs) same h)
Holds-append bytes p (b ∷ bs) cs (here, h) =
    let (first, second) = Holds-append bytes (p + 1) bs cs h in
    let same : p + 1 + length bs ≡ p + suc (length bs) = omega arith in
    ((here, first), subst (λ q. Holds bytes q cs) same second)

module _ (dr : Dr) where
  abbrev plus : dr.Instr → ℕ → ℕ
  plus i n = dr.instr_length i + n

  foldr-plus : (xs : List dr.Instr) → total dr xs ≡ foldr plus 0 xs
  unfolding total
  foldr-plus [] = refl
  foldr-plus (x ∷ xs) = ap (plus x) (foldr-plus xs)

  -- The length of code does not depend on the order of its instructions.
  pub total-perm : {xs ys : List dr.Instr} → Perm xs ys → total dr xs ≡ total dr ys
  total-perm {xs} {ys} p =
      foldr-plus xs ∙ (Perm.foldr-eq ℕ_set plus (λ a b x. omega arith) p 0 ∙ sym (foldr-plus ys))

module _ (dr : Dr) (laws : Decodes dr) (inverts : Inverts dr) (bytes : Bytes) where
  -- Encoded instructions behind some code continue it.
  pub Encoding-Code :
      (w₀ o₀ w o : ℕ) (js is : List dr.Instr) (bs : List ℕ)
      → Code dr bytes w₀ o₀ js w o
      → Encoding dr o is bs
      → Holds bytes w bs
      → o + length bs < 2 ^ 64
      → Code dr bytes w₀ o₀ (js ++ is) (w + length bs) (o + length bs) × (length bs ≡ total dr is)
  unfolding total
  Encoding-Code w₀ o₀ w o js ks ds c nothing_left holds fits = (
    subst (λ xs. Code dr bytes w₀ o₀ xs (w + 0) (o + 0)) (sym (append-nil js))
        (subst₂ (λ q r. Code dr bytes w₀ o₀ js q r) (omega arith) (omega arith) c),
    refl,
  )
  Encoding-Code w₀ o₀ w o js ks ds c (encoded {i} {is} {bs} {rest} e enc) holds fits =
      let (first, second) = Holds-append bytes w bs rest holds in
      let decoded = inverts bytes w o i bs e first in
      let step = laws.advances bytes w o (w + length bs) i decoded in
      let sized = length-append {0} bs rest in
      let moved : o + length bs ≡ add64 o (dr.instr_length i) = omega (arith, step, sized) in
      let (code, same) =
        Encoding-Code w₀ o₀ (w + length bs) (o + length bs) (js ++ i ∷ []) is rest
          (then_one i c decoded moved refl) enc second (omega (arith, sized)) in
      (
        subst (λ xs. Code dr bytes w₀ o₀ xs (w + length (bs ++ rest)) (o + length (bs ++ rest)))
            (append_assoc js (i ∷ []) is)
            (subst₂ (λ q r. Code dr bytes w₀ o₀ (js ++ i ∷ [] ++ is) q r) (omega (arith, sized))
              (omega (arith, sized)) code),
        omega (arith, same, step, sized),
      )

-- Success has written code that reads as some instructions, `size` bytes from the target and from
-- the address on.
pub data Readable (dr : Dr) (target start size : ℕ) (is : List dr.Instr)
    : Errno × Pen → Type 0 where
  readable :
      {pen : Pen}
      → Code dr pen.bytes target start is (target + size) (start + size)
      → Readable dr target start size is (success, pen)
  unwritten : {rc : Errno} {pen : Pen} → rc ≢ success → Readable dr target start size is (rc, pen)

module _ (dr : Dr) (laws : Decodes dr) (inverts : Inverts dr) (bytes : Bytes) where
  read_back :
      (target start end : ℕ) (is js : List dr.Instr) (r : Errno × Pen)
      → end < 2 ^ 64
      → Perm is js
      → Rewritten dr bytes target start end is r
      → Readable dr target start (total dr js) is r
  read_back target start end is js r small perm (part {rc} {pen} bs ne wrote fits) = unwritten ne
  read_back target start end is js r small perm (whole {pen} bs enc wrote fits) =
      let holds = subst (λ b. Holds b target bs) (sym wrote) (store_bytes-Holds bytes target bs) in
      let (code, sized) =
        Encoding-Code dr laws inverts pen.bytes target start target start [] is bs none_yet enc
          holds (omega (arith, fits)) in
      readable (
        subst (λ n. Code dr pen.bytes target start is (target + n) (start + n))
          (sized ∙ total-perm dr perm) code)

  -- For a counted set and an order of its slots, with room behind the target, and an encoder that the
  -- decoder inverts, `instr_set_encode_order` returns without a fault. Where it succeeds, what it has
  -- written decodes, from the target on and for the addresses of the set, to a permutation of the
  -- set's instructions, which ends as many bytes behind as the instructions of the set have. An
  -- encoding has at most 17 bytes, and the set does not stand at the end of the address space.
  -- The machine lets a read of the entry behind an array through.
  pub instr_set_encode_order-Readable :
      (set : InstrSet dr.Instr) (target : ℕ) (order : List ℕ)
      → IsEncodable dr
      → IsCounted set
      → IsOrder set.nr_instrs order
      → set.nr_instrs ≤ 2 ^ 31
      → set.start ≤ set.end
      → set.end + 17 < 2 ^ 64
      → 0 < target
      → target + (set.end - set.start) + 17 < 2 ^ 64
      → (is : List dr.Instr) × Perm is set.instrs
        × Returns
            (Readable dr target set.start (total dr set.instrs) is)
            (instr_set_encode_order dr set target order bytes)
  instr_set_encode_order-Readable set target order short counted is_order few le small positive
        room =
      let (is, perm, rewritten) =
        instr_set_encode_order-Rewritten dr set target order bytes short counted is_order few le
          small positive room in
      (
        is,
        perm,
        Returns-weaken (Rewritten dr bytes target set.start set.end is)
            (Readable dr target set.start (total dr set.instrs) is)
            (instr_set_encode_order dr set target order bytes) rewritten
            (λ r w. read_back target set.start set.end is set.instrs r (omega arith) perm w),
      )

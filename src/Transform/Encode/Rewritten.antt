-- ===== src/Transform/Encode/Rewritten.antt =====
-- What `instr_set_encode_order` writes.
use librave.Base.{
  ℕ, suc, ◌+◌, ◌-◌, ◌<◌, ◌≤◌, ◌^◌, ◌≡◌, ◌≢◌, refl, sym, ap, ◌∙◌, inl, inr, true, false, some, List,
  [], ◌∷◌, ◌++◌, map, Perm, none, ok, replicate, arith, length, length-append, ltb, ◌==◌,
  if◌then◌else◌, add64, sub64, Returns, Returns-weaken, Bool-cases, Option-cases,
}
use librave.Base.Orders.{IsOrder}
use librave.Errno.{Errno, success}
use librave.Transform.Dr.{Dr, Bytes}
use librave.Transform.Sets.{InstrSet}
use librave.Transform.Mirror.Reverse.{IsCounted}
use librave.Transform.Encode.{
  store_bytes, Pen, arrange, encode_instr, encode_slots, instr_set_encode_order,
}
use librave.Transform.Encode.Slots.{arrange-somes}

-- What DynamoRIO documents of an encoding: it has at most `MAX_INSTR_LENGTH` bytes.
abbrev pub max_instr_length : ℕ
max_instr_length = 17

-- What an encoding relies on: the bound of DynamoRIO, and a machine that lets a read of the entry
-- behind an array through.
pub record IsEncodable (dr : Dr) : Type 0 where
  pub short :
      (instr : dr.Instr) (pc : ℕ) (bs : List ℕ)
      → dr.encode instr pc ≡ some bs
      → length bs ≤ max_instr_length
  pub through : dr.overreads ≡ true

-- The bytes of some instructions, one behind the other from an address on.
pub data Encoding (dr : Dr) : ℕ → List dr.Instr → List ℕ → Type 0 where
  nothing_left : {o : ℕ} → Encoding dr o [] []
  encoded :
      {o : ℕ} {i : dr.Instr} {is : List dr.Instr} {bs rest : List ℕ}
      → dr.encode i o ≡ some bs
      → Encoding dr (o + length bs) is rest
      → Encoding dr o (i ∷ is) (bs ++ rest)

store_bytes-append :
    (bytes : Bytes) (p : ℕ) (bs cs : List ℕ)
    → store_bytes (store_bytes bytes p bs) (p + length bs) cs ≡ store_bytes bytes p (bs ++ cs)
unfolding store_bytes
store_bytes-append bytes p [] cs =
    let same : p + 0 ≡ p = omega arith in ap (λ q. store_bytes bytes q cs) same
store_bytes-append bytes p (b ∷ bs) cs =
    let same : p + suc (length bs) ≡ p + 1 + length bs = omega arith in
    let bytes' : Bytes = λ q. if q == p then b else bytes q in
    ap (λ q. store_bytes (store_bytes bytes' (p + 1) bs) q cs) same
    ∙ store_bytes-append bytes' (p + 1) bs cs

-- Success has written the encoding of the instructions from the address on, which ends at `end` at
-- the latest; a failure has written at most one instruction behind `end`. Nothing else changes.
pub data Rewritten (dr : Dr) (bytes : Bytes) (target o end : ℕ) (is : List dr.Instr)
    : Errno × Pen → Type 0 where
  whole :
      {pen : Pen} (bs : List ℕ)
      → Encoding dr o is bs
      → pen.bytes ≡ store_bytes bytes target bs
      → o + length bs ≤ end
      → Rewritten dr bytes target o end is (success, pen)
  part :
      {rc : Errno} {pen : Pen} (bs : List ℕ)
      → rc ≢ success
      → pen.bytes ≡ store_bytes bytes target bs
      → o + length bs ≤ end + max_instr_length
      → Rewritten dr bytes target o end is (rc, pen)

module _ (dr : Dr) (short : IsEncodable dr) (end : ℕ) (small : end + 17 < 2 ^ 64) where
  -- One more instruction in front.
  longer :
      {bytes : Bytes} {p o : ℕ} {i : dr.Instr} {is : List dr.Instr} {r : Errno × Pen} (bs : List ℕ)
      → dr.encode i o ≡ some bs
      → Rewritten dr (store_bytes bytes p bs) (p + length bs) (o + length bs) end is r
      → Rewritten dr bytes p o end (i ∷ is) r
  longer {bytes} {p} {o} bs e (whole {pen} cs enc wrote fits) =
      whole (bs ++ cs) (encoded e enc) (wrote ∙ store_bytes-append bytes p bs cs)
        (omega (arith, fits, length-append {0} bs cs))
  longer {bytes} {p} {o} bs e (part {rc} {pen} cs ne wrote fits) =
      part (bs ++ cs) ne (wrote ∙ store_bytes-append bytes p bs cs)
        (omega (arith, fits, length-append {0} bs cs))

  encode_slots-Rewritten :
      (is : List dr.Instr) (p : Pen)
      → 0 < p.walk
      → p.orig ≤ end
      → p.walk + (end - p.orig) + 17 < 2 ^ 64
      → Returns (Rewritten dr p.bytes p.walk p.orig end is) (encode_slots dr end (map some is) p)
  unfolding encode_slots encode_instr store_bytes
  encode_slots-Rewritten [] p positive below room =
      rw (short.through) (whole [] nothing_left refl (omega arith))
  encode_slots-Rewritten (i ∷ is) p positive below room =
      let not_null : (p.walk == 0) ≡ false = ground arith in
      elim (Option-cases (dr.encode i p.orig)) [
        | inl e ↦ rw (not_null, e) (part [] (λ e'. cc) refl (omega arith))
        | inr (bs, e) ↦
            let sized = short.short i p.orig bs e in
            let walked : add64 p.walk (length bs) ≡ p.walk + length bs = omega arith in
            let moved : add64 p.orig (sub64 (p.walk + length bs) p.walk) ≡ p.orig + length bs =
              omega arith in
            elim (Bool-cases (ltb end (p.orig + length bs))) [
              | inl t ↦ rw (not_null, e, walked, moved, t) (part bs (λ e'. cc) refl (omega arith))
              | inr t ↦
                  let p' : Pen = record {
                    walk = p.walk + length bs;
                    orig = p.orig + length bs;
                    bytes = store_bytes p.bytes p.walk bs;
                  } in
                  let fits : p.orig + length bs ≤ end = ground arith in
                  rw (not_null, e, walked, moved, t)
                    (Returns-weaken (Rewritten dr p'.bytes p'.walk p'.orig end is)
                      (Rewritten dr p.bytes p.walk p.orig end (i ∷ is))
                      (encode_slots dr end (map some is) p')
                      (encode_slots-Rewritten is p' (omega arith) fits (omega arith))
                      (λ r. longer bs e))
            ]
      ]

-- With the slots that the scatter has filled.
pub encode-arranged :
    (dr : Dr) (set : InstrSet dr.Instr) (target : ℕ) (order : List ℕ) (bytes : Bytes)
    (is : List dr.Instr)
    → IsEncodable dr
    → arrange dr set.instrs order 0 (replicate set.nr_instrs none) ≡ ok (map some is)
    → set.start ≤ set.end
    → set.end + 17 < 2 ^ 64
    → 0 < target
    → target + (set.end - set.start) + 17 < 2 ^ 64
    → Returns
        (Rewritten dr bytes target set.start set.end is)
        (instr_set_encode_order dr set target order bytes)
unfolding instr_set_encode_order
encode-arranged dr set target order bytes is short e le small positive room = rw (e) (
    encode_slots-Rewritten dr short set.end small is
      (record { walk = target; orig = set.start; bytes = bytes }) positive le room)

-- For a counted set and an order of its slots, with room behind the target, `instr_set_encode_order`
-- returns without a fault. Success has written, from the target on, the encodings of a permutation
-- of the set's instructions, each for the address at which it stands, in no more bytes than the set
-- had; a failure has written at most one instruction more than fits. No other byte changes. An
-- encoding has at most 17 bytes, and the set does not stand at the end of the address space.
-- The machine lets a read of the entry behind an array through.
pub instr_set_encode_order-Rewritten :
    (dr : Dr) (set : InstrSet dr.Instr) (target : ℕ) (order : List ℕ) (bytes : Bytes)
    → IsEncodable dr
    → IsCounted set
    → IsOrder set.nr_instrs order
    → set.nr_instrs ≤ 2 ^ 31
    → set.start ≤ set.end
    → set.end + 17 < 2 ^ 64
    → 0 < target
    → target + (set.end - set.start) + 17 < 2 ^ 64
    → (is : List dr.Instr) × Perm is set.instrs
      × Returns
          (Rewritten dr bytes target set.start set.end is)
          (instr_set_encode_order dr set target order bytes)
instr_set_encode_order-Rewritten dr set target order bytes short counted is_order few le small
      positive room =
    let (is, e, perm) =
      arrange-somes dr set.nr_instrs order is_order few set.instrs (sym counted) in
    (is, perm, encode-arranged dr set target order bytes is short e le small positive room)

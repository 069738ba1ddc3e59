-- ===== src/Transform/Encode/Overread.antt =====
-- The read of the entry behind the array, on a machine that does not let it through.
use librave.Base.{
  ℕ, ◌≡◌, ◌≢◌, false, none, some, Option, List, [], ◌∷◌, inl, inr, replicate, ltb, ◌==◌, add64,
  sub64, length, Bool-cases, Option-cases, Yields, Yields-then,
}
use librave.Errno.{success}
use librave.Transform.Dr.{Dr, Bytes}
use librave.Transform.Sets.{InstrSet}
use librave.Transform.Encode.{
  Pen, arrange, encode_instr, encode_slots, store_bytes, instr_set_encode_order,
}

module _ (dr : Dr) (trapped : dr.overreads ≡ false) where
  encode_slots-trapped :
      (end : ℕ) (slots : List (Option dr.Instr)) (p : Pen)
      → Yields (λ (rc, pen). rc ≢ success) (encode_slots dr end slots p)
  unfolding encode_slots encode_instr
  encode_slots-trapped end [] p = rw (trapped) tt
  encode_slots-trapped end (none ∷ slots) p = tt
  encode_slots-trapped end (some i ∷ slots) p = elim (Bool-cases (p.walk == 0)) [
    | inl n ↦ rw (n) tt
    | inr n ↦ elim (Option-cases (dr.encode i p.orig)) [
      | inl e ↦ rw (n, e) (λ same. cc)
      | inr (bs, e) ↦
          let walk' = add64 p.walk (length bs) in
          let orig' = add64 p.orig (sub64 walk' p.walk) in
          elim (Bool-cases (ltb end orig')) [
            | inl t ↦ rw (n, e, t) (λ same. cc)
            | inr t ↦
                rw (n, e, t)
                  (encode_slots-trapped end slots
                    (record { walk = walk'; orig = orig'; bytes = store_bytes p.bytes p.walk bs }))
          ]
    ]
  ]

  -- On a machine that does not let a read of the entry behind an array through, no set is encoded
  -- successfully, whatever its instructions and the order are: `instr_set_encode_order` fails or faults.
  pub instr_set_encode_order-trapped :
      (set : InstrSet dr.Instr) (target : ℕ) (order : List ℕ) (bytes : Bytes)
      → Yields (λ (rc, pen). rc ≢ success) (instr_set_encode_order dr set target order bytes)
  unfolding instr_set_encode_order
  instr_set_encode_order-trapped set target order bytes =
      Yields-then (λ (rc, pen). rc ≢ success)
        (arrange dr set.instrs order 0 (replicate set.nr_instrs none)) _
        (λ slots.
          encode_slots-trapped set.end slots
            (record { walk = target; orig = set.start; bytes = bytes }))

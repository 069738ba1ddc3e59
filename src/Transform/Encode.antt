-- ===== src/Transform/Encode.antt =====
-- Writing instructions back: `instr_set_encode` and `instr_set_encode_order`.
pub mod Arrange
pub mod Slots
pub mod Rewritten
pub mod Decoded
pub mod Outside
pub mod Lasting
pub mod Rigid
pub mod Overread
use librave.Base.{
  ℕ, zero, suc, ◌+◌, Option, none, some, List, [], ◌∷◌, length, replicate, get_elem?, ltb, ◌==◌,
  if◌then◌else◌, add64, sub64, sign_extend, Outcome, ok, fault, ◌>>=◌, true, false,
}
use librave.Base.Slots.{read, write}
use librave.Errno.{Errno, success, etransform}
use librave.Transform.Dr.{Dr, Bytes}
use librave.Transform.Sets.{InstrSet}

-- Bytes stored from a pointer on.
unfoldable pub store_bytes : Bytes → ℕ → List ℕ → Bytes
store_bytes bytes p [] = bytes
store_bytes bytes p (b ∷ bs) = store_bytes (λ q. if q == p then b else bytes q) (p + 1) bs

-- The variables of the encoding loops, and the memory that they write.
pub record Pen : Type 0 where
  pub walk : ℕ
  pub orig : ℕ
  pub bytes : Bytes

-- One round either goes on or returns a code.
pub data Written : Type 0 where
  next : Pen → Written
  stop : Errno → Pen → Written

module _ (dr : Dr) where
  -- The body of both loops. The encoder writes through `walk`, so NULL is a fault; on failure it
  -- returns NULL and leaves the memory alone.
  unfoldable pub encode_instr : ℕ → dr.Instr → Pen → Outcome Written
  unfolding store_bytes
  encode_instr end instr p = if p.walk == 0 then fault else elim (dr.encode instr p.orig) [
    | none ↦ ok (stop etransform (record p { walk = 0 }))
    | some bs ↦
        let walk' = add64 p.walk (length bs) in
        let p' : Pen = record {
          walk = walk';
          orig = add64 p.orig (sub64 walk' p.walk);
          bytes = store_bytes p.bytes p.walk bs;
        } in
        if ltb end p'.orig then ok (stop etransform p') else ok (next p')
  ]

  unfoldable pub encode_all : ℕ → List dr.Instr → Pen → Outcome (Errno × Pen)
  unfolding encode_instr
  encode_all end [] p = ok (success, p)
  encode_all end (instr ∷ rest) p = encode_instr end instr p >>= λ w. elim w [
    | stop rc p' ↦ ok (rc, p')
    | next p' ↦ encode_all end rest p'
  ]

  -- `instr_set_encode`, which nothing calls: in the order of the set.
  unfoldable pub instr_set_encode : InstrSet dr.Instr → ℕ → Bytes → Outcome (Errno × Pen)
  unfolding encode_all
  instr_set_encode set target bytes =
      encode_all set.end set.instrs (record { walk = target; orig = set.start; bytes = bytes })

  -- `instrs[order[i]] = instr` for each instruction. An entry that is not written stays `none`, an
  -- indeterminate pointer.
  unfoldable pub arrange :
      List dr.Instr → List ℕ → ℕ → List (Option dr.Instr) → Outcome (List (Option dr.Instr))
  arrange [] order i instrs = ok instrs
  arrange (instr ∷ rest) order i instrs = read order i >>= λ slot.
      write instrs (sign_extend slot) (some instr) >>= λ instrs'. arrange rest order (i + 1) instrs'

  -- The second loop over the slots. The increment of the last round reads the entry behind the array,
  -- as the start of the loop does if there is no slot.
  unfoldable pub encode_slots : ℕ → List (Option dr.Instr) → Pen → Outcome (Errno × Pen)
  unfolding encode_instr
  encode_slots end [] p = if dr.overreads then ok (success, p) else fault
  encode_slots end (none ∷ rest) p = fault
  encode_slots end (some instr ∷ rest) p = encode_instr end instr p >>= λ w. elim w [
    | stop rc p' ↦ ok (rc, p')
    | next p' ↦ encode_slots end rest p'
  ]

  unfoldable pub instr_set_encode_order :
      InstrSet dr.Instr → ℕ → List ℕ → Bytes → Outcome (Errno × Pen)
  unfolding arrange encode_slots
  instr_set_encode_order set target order bytes =
      arrange set.instrs order 0 (replicate set.nr_instrs none) >>= λ instrs.
      encode_slots set.end instrs (record { walk = target; orig = set.start; bytes = bytes })

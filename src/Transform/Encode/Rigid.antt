-- ===== src/Transform/Encode/Rigid.antt =====
-- Sets that can be encoded in any order.
use mathlib.Core.List.{Mem, mem-cons_self, mem-cons_of_mem, not-mem-nil, forall_mem-cons}
use mathlib.Core.HLevel.{Π_prop}
use native.Mathlib.Decide.{ℕ_discrete}
use mathlib.Core.Option
use mathlib.Core.List.Perm
use librave.Base.{
  ℕ, ◌+◌, ◌-◌, ◌<◌, ◌≤◌, ◌^◌, ◌≡◌, refl, false, Option, none, some, All, List, [], ◌∷◌, map, Perm,
  arith, length, replicate, ok, ltb, ◌==◌, add64, sub64, Returns,
}
use librave.Base.{true}
use librave.Errno.{success}
use librave.Transform.Dr.{Dr, Bytes}
use librave.Transform.Sets.{InstrSet}
use librave.Transform.Code.{total}
use librave.Transform.Encode.{
  store_bytes, Pen, arrange, encode_instr, encode_slots, instr_set_encode_order,
}
use librave.Transform.Encode.Decoded.{total-perm}

All-mem :
    {A : Type 0} (P : A → Type 0)
    → ((x : A) → IsProp (P x))
    → (xs : List A) → All P xs
    → (x : A) → Mem x xs
    → P x
All-mem P prop [] h x m = absurd (not-mem-nil m)
All-mem P prop (y ∷ ys) (h, hs) x m = (forall_mem-cons prop).1 (h, All-mem P prop ys hs) x m

map-some_inv :
    {A B : Type 0} (f : A → B) (o : Option A) {b : B}
    → Option.map f o ≡ some b
    → (a : A) × (o ≡ some a) × (f a ≡ b)
map-some_inv f none e = absurd (cc)
map-some_inv f (some a) e = (a, refl, Option.some-injective _ _ e)

module _ (dr : Dr) where
  -- An instruction that is encoded at any address in as many bytes as it had, such as a push or a pop
  -- of a register.
  abbrev pub IsSteady : dr.Instr → Type 0
  IsSteady i = (pc : ℕ) → Option.map length (dr.encode i pc) ≡ some (dr.instr_length i)

  IsSteady-IsProp : (i : dr.Instr) → IsProp (IsSteady i)
  IsSteady-IsProp i = Π_prop (λ pc. option_set (Option.map length (dr.encode i pc)) _)
    where
      option_set : IsSet (Option ℕ)
      option_set = hlevel ℕ_discrete

  -- A set of such instructions, with room for all of them.
  pub record IsRigid (set : InstrSet dr.Instr) : Type 0 where
    pub steady : All IsSteady set.instrs
    pub room : set.start + total dr set.instrs ≤ set.end

  encode_slots-succeeds :
      (through : dr.overreads ≡ true) (end : ℕ) (is : List dr.Instr) (p : Pen)
      → ((i : dr.Instr) → Mem i is → IsSteady i)
      → end < 2 ^ 64
      → 0 < p.walk
      → p.orig + total dr is ≤ end
      → p.walk + total dr is < 2 ^ 64
      → Returns (λ (rc, pen). rc ≡ success) (encode_slots dr end (map some is) p)
  unfolding encode_slots encode_instr total
  encode_slots-succeeds through end [] p steady small positive room fits = rw (through) refl
  encode_slots-succeeds through end (i ∷ is) p steady small positive room fits =
      let not_null : (p.walk == 0) ≡ false = ground arith in
      let (bs, e, sized) =
        map-some_inv length (dr.encode i p.orig) (steady i mem-cons_self p.orig) in
      let walked : add64 p.walk (length bs) ≡ p.walk + length bs = omega arith in
      let moved : add64 p.orig (sub64 (p.walk + length bs) p.walk) ≡ p.orig + length bs =
        omega arith in
      let inside : ltb end (p.orig + length bs) ≡ false = ground arith in
      rw (not_null, e, walked, moved, inside)
        (encode_slots-succeeds through end is
          (record {
            walk = p.walk + length bs;
            orig = p.orig + length bs;
            bytes = store_bytes p.bytes p.walk bs;
          })
          (λ j m. steady j (mem-cons_of_mem i m)) small (omega arith) (omega arith) (omega arith))

  -- With the slots that the scatter has filled.
  pub arranged-succeeds :
      (through : dr.overreads ≡ true) (set : InstrSet dr.Instr) (target : ℕ) (order : List ℕ)
      (bytes : Bytes) (is : List dr.Instr)
      → IsRigid set
      → Perm is set.instrs
      → arrange dr set.instrs order 0 (replicate set.nr_instrs none) ≡ ok (map some is)
      → set.end < 2 ^ 64
      → 0 < target
      → target + (set.end - set.start) < 2 ^ 64
      → Returns (λ (rc, pen). rc ≡ success) (instr_set_encode_order dr set target order bytes)
  unfolding instr_set_encode_order
  arranged-succeeds through set target order bytes is rigid perm e small positive room =
      let same = total-perm dr perm in
      rw (e) (
        encode_slots-succeeds through set.end is
          (record { walk = target; orig = set.start; bytes = bytes })
          (λ i m.
            All-mem IsSteady IsSteady-IsProp set.instrs rigid.steady i ((Perm.mem_iff perm).0 m))
          small positive (omega (arith, same, rigid.room)) (omega (arith, same, rigid.room)))

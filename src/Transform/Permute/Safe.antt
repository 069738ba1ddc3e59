-- ===== src/Transform/Permute/Safe.antt =====
-- `permute` on a function that can be randomized.
use mathlib.Core.List.Perm
use librave.Base.{
  ℕ, ◌+◌, ◌-◌, ◌<◌, ◌≤◌, ◌^◌, ◌≡◌, refl, ap, ◌∙◌, true, inl, inr, Option, none, some, List, [], ◌∷◌,
  Perm, All, arith, length, Returns, Returns-inv, Returns-weaken, Returns-step, Bool-cases,
}
use librave.Base.Orders.{IsOrder, count_up, perm-IsOrder}
use librave.Errno.{Errno, is_success}
use librave.Random.{Draws}
use librave.Random.Shuffles.{shuffle-perm}
use librave.Window.{Window, window_view}
use librave.Transform.Dr.{Dr, Bytes}
use librave.Transform.Chains.{Chains}
use librave.Transform.Sets.{InstrSet}
use librave.Transform.Mirror.Reverse.{IsCounted}
use librave.Transform.Encode.{instr_set_encode_order}
use librave.Transform.Encode.Outside.{slack, Clear, Clear-slack, Rewritten-outside}
use librave.Transform.Encode.Rewritten.{IsEncodable, Rewritten, instr_set_encode_order-Rewritten}
use librave.Transform.Permute.{World, Tf, order_of, encode_epilogues, permute_epilogues, permute}
use librave.Transform.Permute.Eorder.{mirror_order_lem}

-- A set of `n` instructions with room behind the place at which the window shows it.
pub record IsPlaced (dr : Dr) (fw : Option Window) (n : ℕ) (set : InstrSet dr.Instr) : Type 0 where
  pub counted : IsCounted set
  pub size : set.nr_instrs ≡ n
  pub le : set.start ≤ set.end
  pub small : set.end + 17 < 2 ^ 64
  pub positive : 0 < (window_view fw set.start none).0
  pub room : (window_view fw set.start none).0 + (set.end - set.start) + 17 < 2 ^ 64

-- A permutation of the first `n` numbers in an array of `n` entries.
pub record Permutes (n : ℕ) (order : List ℕ) : Type 0 where
  pub whole : length order ≡ n
  pub perm : Perm order (count_up 0 n)

pub Permutes-IsOrder : (n : ℕ) (order : List ℕ) → Permutes n order → IsOrder n order
Permutes-IsOrder n order p = perm-IsOrder n order p.perm p.whole

-- A byte that is not in the place of a set, nor just behind it where writing fails.
abbrev pub Outside : {I : Type 0} → Option Window → Errno → ℕ → InstrSet I → Type 0
Outside fw rc q set = Clear (slack rc) (window_view fw set.start none).0 set q

-- Behind a success, whatever code comes next.
pub Outside-success :
    {I : Type 0} (fw : Option Window) (rc rc' : Errno) (q : ℕ) (set : InstrSet I)
    → is_success rc ≡ true
    → Outside fw rc' q set
    → Outside fw rc q set
Outside-success fw rc rc' q set t apart =
    rw (t) (Clear-slack rc' (window_view fw set.start none).0 set q apart)

module _ (dr : Dr) (short : IsEncodable dr) (fw : Option Window) (n : ℕ) (few : n ≤ 2 ^ 31) where
  -- Writing a set changes no byte outside it.
  abbrev Leaves : Bytes → Errno → InstrSet dr.Instr → Bytes → Type 0
  Leaves bytes rc set bytes' = (q : ℕ) → Outside fw rc q set → bytes' q ≡ bytes q

  set-Returns :
      (set : InstrSet dr.Instr) (order : List ℕ) (bytes : Bytes)
      → IsPlaced dr fw n set
      → IsOrder n order
      → Returns
          (λ (rc, pen). Leaves bytes rc set pen.bytes)
          (instr_set_encode_order dr set (window_view fw set.start none).0 order bytes)
  set-Returns set order bytes p is_order =
      let (is, perm, done) =
        instr_set_encode_order-Rewritten dr set (window_view fw set.start none).0 order bytes short
          p.counted (rw p.size is_order) (omega (arith, p.size)) p.le p.small p.positive p.room in
      Returns-weaken (Rewritten dr bytes (window_view fw set.start none).0 set.start set.end is)
        (λ (rc, pen). Leaves bytes rc set pen.bytes) _ done
        (λ (rc, pen) h q clear.
          Rewritten-outside dr bytes (window_view fw set.start none).0 set is rc pen q h clear)

  module _ (chains : Chains) (rand : Draws) where
    abbrev LeavesAll : Bytes → List (InstrSet dr.Instr) → Errno × Bytes → Type 0
    LeavesAll bytes sets (rc, bytes') = (q : ℕ) → All (Outside fw rc q) sets → bytes' q ≡ bytes q

    epilogues-Returns :
        (sets : List (InstrSet dr.Instr)) (eorder : List ℕ) (bytes : Bytes)
        → All (IsPlaced dr fw n) sets
        → IsOrder n eorder
        → Returns (LeavesAll bytes sets) (encode_epilogues dr chains rand sets fw eorder bytes)
    unfolding encode_epilogues
    epilogues-Returns [] eorder bytes ps is_order = λ q apart. refl
    epilogues-Returns (set ∷ sets) eorder bytes ps is_order =
        let ((rc, pen), e, h) =
          Returns-inv (λ (rc, pen). Leaves bytes rc set pen.bytes)
            (instr_set_encode_order dr set (window_view fw set.start none).0 eorder bytes)
            (set-Returns set eorder bytes ps.0 is_order) in
        elim (Bool-cases (is_success rc)) [
          | inl t ↦
              rw (e, t)
                (Returns-weaken (LeavesAll pen.bytes sets) (LeavesAll bytes (set ∷ sets)) _
                  (epilogues-Returns sets eorder pen.bytes ps.1 is_order)
                  (λ (rc', bytes') rest q (here, there).
                    rest q there ∙ h q (Outside-success fw rc rc' q set t here)))
          | inr t ↦ rw (e, t) (λ q (here, there). h q here)
        ]

module _ (dr : Dr) (short : IsEncodable dr) (fw : Option Window) (chains : Chains)
    (rand : Draws) where
  -- No byte changes outside the sets of a function.
  abbrev pub Spares : Tf dr chains rand → Errno → World → World → Type 0
  Spares tf rc world world' =
      (q : ℕ)
      → Outside fw rc q tf.prologue
      → All (Outside fw rc q) (chains.entries tf.epilogues)
      → world'.bytes q ≡ world.bytes q

  -- What a permutation leaves of a function: all but its order, which is another permutation.
  abbrev pub Reordered : Tf dr chains rand → World → Errno × Tf dr chains rand × World → Type 0
  Reordered tf world (rc, tf', world') =
      ((new : List ℕ) × (tf' ≡ record tf { order = some new }) × Permutes tf.prologue.nr_instrs new)
      × (world'.drawn ≡ world.drawn + (tf.prologue.nr_instrs - 1))
      × Spares tf rc world world'

  -- The permutation of a function whose prologue and epilogues have `n` instructions each, with an
  -- order that permutes `n` slots, returns without a fault, whatever is drawn and whether or not
  -- the code can be encoded. It leaves all of the function but its order, which permutes the slots
  -- again, and draws `n - 1` values. No byte changes outside the places of its sets, but for 17 bytes
  -- behind each of them if the code cannot be encoded. `n` is between one and `2 ^ 31`, an encoding has at most 17
  -- bytes, and the function's window shows each set at a place with room behind it.
  -- The machine lets a read of the entry behind an array through.
  pub permute-Reordered :
      (tf : Tf dr chains rand) (old : List ℕ) (world : World)
      → tf.order ≡ some old
      → Permutes tf.prologue.nr_instrs old
      → 0 < tf.prologue.nr_instrs
      → tf.prologue.nr_instrs ≤ 2 ^ 31
      → IsPlaced dr fw tf.prologue.nr_instrs tf.prologue
      → All (IsPlaced dr fw tf.prologue.nr_instrs) (chains.entries tf.epilogues)
      → Returns (Reordered tf world) (permute dr chains rand tf fw world)
  unfolding permute permute_epilogues
  permute-Reordered tf old world has p some_slots few placed each =
      let pro = tf.prologue in
      let n = pro.nr_instrs in
      let (new, shuffled, perm, whole) =
        shuffle-perm rand old n world.drawn p.whole some_slots few in
      let permutes : Permutes n new = record { whole = whole; perm = Perm.trans perm p.perm } in
      let is_order = Permutes-IsOrder n new permutes in
      let (eorder, mirrored, is_eorder, _) = mirror_order_lem n new is_order few in
      let ((rc, pen), e, h) =
        Returns-inv (λ (rc, pen). Leaves dr short fw n few world.bytes rc pro pen.bytes)
          (instr_set_encode_order dr pro (window_view fw pro.start none).0 new world.bytes)
          (set-Returns dr short fw n few pro new world.bytes placed is_order) in
      let ((rc', bytes), e', h') =
        Returns-inv
          (LeavesAll dr short fw n few chains rand pen.bytes (chains.entries tf.epilogues))
          (encode_epilogues dr chains rand (chains.entries tf.epilogues) fw eorder pen.bytes)
          (epilogues-Returns dr short fw n few chains rand (chains.entries tf.epilogues) eorder
            pen.bytes each is_eorder) in
      Returns-step (Reordered tf world) _ _ (ap (order_of dr chains rand) has) (
        Returns-step (Reordered tf world) _ _ shuffled (
          Returns-step (Reordered tf world) _ _ e (elim (Bool-cases (is_success rc)) [
            | inl t ↦
                rw (t, mirrored, e')
                  (
                    (new, refl, permutes),
                    refl,
                    λ q here there. h' q there ∙ h q (Outside-success fw rc rc' q pro t here),
                  )
            | inr t ↦ rw (t) ((new, refl, permutes), refl, λ q here there. h q here)
          ])))

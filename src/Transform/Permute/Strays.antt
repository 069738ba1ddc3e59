-- ===== src/Transform/Permute/Strays.antt =====
-- A set that the window of its function does not show: it is written through NULL.
use librave.Base.{
  ℕ, ◌+◌, ◌<◌, ◌≡◌, ◌≢◌, refl, subst, inl, inr, Option, none, some, List, [], ◌∷◌, ◌++◌, length,
  length-set, length-replicate, replicate, arith, ltb, set, sign_extend, fault, Yields, Yields-bind,
  Yields-then, Bool-cases,
}
use librave.Base.Slots.{read, write}
use librave.Errno.{Errno, success, is_success, is_success_iff, failing}
use librave.Random.{Draws, shuffle}
use librave.Window.{Window, null, window_view}
use librave.Transform.Dr.{Dr, Bytes}
use librave.Transform.Chains.{Chains}
use librave.Transform.Sets.{InstrSet}
use librave.Transform.Encode.{encode_instr, arrange, encode_slots, instr_set_encode_order}
use librave.Transform.Permute.{
  World, Tf, mirror_order, order_of, function_window, encode_epilogues, permute_epilogues, permute,
  permute_each,
}

module _ {A : Type 0} where
  write-length : (xs : List A) (i : ℕ) (x : A) → Yields (λ ys. length ys ≡ length xs) (write xs i x)
  unfolding write
  write-length xs i x = elim (Bool-cases (ltb i (length xs))) [
    | inl t ↦ rw (t) (length-set xs i x)
    | inr t ↦ rw (t) tt
  ]

module _ (dr : Dr) where
  arrange-length :
      (is : List dr.Instr) (order : List ℕ) (i : ℕ) (instrs : List (Option dr.Instr))
      → Yields (λ out. length out ≡ length instrs) (arrange dr is order i instrs)
  unfolding arrange
  arrange-length [] order i instrs = refl
  arrange-length (x ∷ is) order i instrs =
      let P : List (Option dr.Instr) → Type 0 = λ out. length out ≡ length instrs in
      Yields-then P (read order i) _ (λ slot.
        Yields-bind P P (write instrs (sign_extend slot) (some x)) (arrange dr is order (i + 1))
          (write-length instrs (sign_extend slot) (some x))
          (λ instrs' same.
            subst (λ n. Yields (λ out. length out ≡ n) (arrange dr is order (i + 1) instrs')) same
              (arrange-length is order (i + 1) instrs')))

  slots_at_null :
      (end o : ℕ) (bytes : Bytes) (out : List (Option dr.Instr))
      → 0 < length out
      → encode_slots dr end out (record { walk = null; orig = o; bytes = bytes }) ≡ fault
  unfolding encode_slots encode_instr
  slots_at_null end o bytes [] some_slots = absurd (omega arith)
  slots_at_null end o bytes (none ∷ out) some_slots = refl
  slots_at_null end o bytes (some i ∷ out) some_slots = refl

  -- Writing a set through NULL does not return.
  at_null :
      (set : InstrSet dr.Instr) (order : List ℕ) (bytes : Bytes)
      → 0 < set.nr_instrs
      → Yields (λ r. ⊥) (instr_set_encode_order dr set null order bytes)
  unfolding instr_set_encode_order
  at_null set order bytes some_slots =
      let blank : List (Option dr.Instr) = replicate set.nr_instrs none in
      Yields-bind (λ out. length out ≡ length blank) (λ r. ⊥) (arrange dr set.instrs order 0 blank)
        _ (arrange-length set.instrs order 0 blank)
        (λ out size.
          let full = length-replicate {A = Option dr.Instr} set.nr_instrs none in
          rw (slots_at_null set.end set.start bytes out (omega (arith, size, full))) tt)

-- A code other than success.
abbrev pub Fails : {A : Type 0} → Errno × A → Type 0
Fails (rc, a) = rc ≢ success

abbrev pub Fails3 : {A B : Type 0} → Errno × A × B → Type 0
Fails3 (rc, a, b) = rc ≢ success

module _ (dr : Dr) (chains : Chains) (rand : Draws) where
  epilogues_stray :
      (fw : Option Window) (eorder : List ℕ) (xs ys : List (InstrSet dr.Instr))
      (epi : InstrSet dr.Instr) (bytes : Bytes)
      → 0 < epi.nr_instrs
      → (window_view fw epi.start none).0 ≡ null
      → Yields Fails (encode_epilogues dr chains rand (xs ++ epi ∷ ys) fw eorder bytes)
  unfolding encode_epilogues
  epilogues_stray fw eorder [] ys epi bytes some_slots unseen = rw (unseen) (
      Yields-bind (λ r. ⊥) Fails (instr_set_encode_order dr epi null eorder bytes) _
        (at_null dr epi eorder bytes some_slots) (λ r h. absurd h))
  epilogues_stray fw eorder (x ∷ xs) ys epi bytes some_slots unseen =
      Yields-then Fails (instr_set_encode_order dr x (window_view fw x.start none).0 eorder bytes) _
        (λ (rc, pen). elim (Bool-cases (is_success rc)) [
          | inl t ↦ rw (t) (epilogues_stray fw eorder xs ys epi pen.bytes some_slots unseen)
          | inr t ↦ rw (t) (failing rc t)
        ])

  -- A function with an epilogue that its window in the text does not show.
  pub record Strays (text : Option Window) (tf : Tf dr chains rand) : Type 0 where
    pub before : List (InstrSet dr.Instr)
    pub stray : InstrSet dr.Instr
    pub behind : List (InstrSet dr.Instr)
    pub among : chains.entries tf.epilogues ≡ before ++ stray ∷ behind
    pub some_slots : 0 < stray.nr_instrs
    pub unseen :
        (window_view (function_window dr chains rand text tf.function) stray.start none).0 ≡ null

  permute-Fails :
      (text : Option Window) (tf : Tf dr chains rand) (world : World)
      → Strays text tf
      → Yields
          (Fails3 {A = Tf dr chains rand} {B = World})
          (permute dr chains rand tf (function_window dr chains rand text tf.function) world)
  unfolding permute permute_epilogues
  permute-Fails text tf world s =
      let fw = function_window dr chains rand text tf.function in
      let A : Type 0 = Tf dr chains rand in
      Yields-then (Fails3 {A = A} {B = World}) (order_of dr chains rand tf.order) _ (λ old.
        Yields-then (Fails3 {A = A} {B = World})
          (shuffle rand old tf.prologue.nr_instrs world.drawn) _
          (λ (order, drawn).
            Yields-then (Fails3 {A = A} {B = World})
              (instr_set_encode_order dr tf.prologue (window_view fw tf.prologue.start none).0 order
                world.bytes)
              _
              (λ (rc, pen). elim (Bool-cases (is_success rc)) [
                | inr t ↦ rw (t) (failing rc t)
                | inl t ↦ rw (t) (
                    Yields-bind (Fails {A = Bytes}) (Fails3 {A = A} {B = World})
                      (permute_epilogues dr chains rand tf fw order pen.bytes) _
                      (Yields-then (Fails {A = Bytes}) (mirror_order tf.prologue.nr_instrs order) _
                        (λ eorder. rw (s.among) (
                          epilogues_stray fw eorder s.before s.behind s.stray pen.bytes s.some_slots
                            s.unseen)))
                      (λ (rc', bytes) fails. fails))
              ])))

  pub each_stray :
      (text : Option Window) (us vs : List (Tf dr chains rand)) (tf : Tf dr chains rand)
      (world : World)
      → Strays text tf
      → Yields
          (Fails3 {A = List (Tf dr chains rand)} {B = World})
          (permute_each dr chains rand (us ++ tf ∷ vs) text world)
  unfolding permute_each
  each_stray text [] vs tf world s =
      let A : Type 0 = List (Tf dr chains rand) in
      Yields-bind (Fails3 {A = Tf dr chains rand} {B = World}) (Fails3 {A = A} {B = World})
        (permute dr chains rand tf (function_window dr chains rand text tf.function) world) _
        (permute-Fails text tf world s)
        (λ (rc, tf', world') fails. elim (Bool-cases (is_success rc)) [
          | inl t ↦ absurd (fails ((is_success_iff rc).0 t))
          | inr t ↦ rw (t) fails
        ])
  each_stray text (u ∷ us) vs tf world s =
      let A : Type 0 = List (Tf dr chains rand) in
      Yields-then (Fails3 {A = A} {B = World})
        (permute dr chains rand u (function_window dr chains rand text u.function) world) _
        (λ (rc, u', world'). elim (Bool-cases (is_success rc)) [
          | inl t ↦ rw (t) (
              Yields-bind (Fails3 {A = A} {B = World}) (Fails3 {A = A} {B = World})
                (permute_each dr chains rand (us ++ tf ∷ vs) text world') _
                (each_stray text us vs tf world' s) (λ (rc', tfs', w) fails. fails))
          | inr t ↦ rw (t) (failing rc t)
        ])

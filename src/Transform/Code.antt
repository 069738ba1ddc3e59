-- ===== src/Transform/Code.antt =====
-- Straight-line code as the disassembler reads it: the instructions from one pointer to another,
-- with the original addresses at which they stand. It is the meaning of what `next_set` walks over.
use librave.Base.{
  ℕ, ◌+◌, ◌%◌, ◌^◌, ◌<◌, ◌≤◌, ◌≡◌, refl, ap, List, [], ◌∷◌, ◌++◌, some, arith, add64, length,
  length-append,
}
use librave.Transform.Dr.{Dr, Bytes, Decodes}

module _ (dr : Dr) where
  unfoldable pub total : List dr.Instr → ℕ
  total [] = 0
  total (i ∷ is) = dr.instr_length i + total is

  pub total-append : (xs ys : List dr.Instr) → total (xs ++ ys) ≡ total xs + total ys
  unfolding total
  total-append [] ys = omega arith
  total-append (x ∷ xs) ys = omega (arith, total-append xs ys)

  -- From pointer `w` and address `o` the instructions lead to a pointer and an address.
  pub data Code (bytes : Bytes) (w o : ℕ) : List dr.Instr → ℕ → ℕ → Type 0 where
    none_yet : Code bytes w o [] w o
    then_one :
        {is js : List dr.Instr} {w' o' next o'' : ℕ} (instr : dr.Instr)
        → Code bytes w o is w' o'
        → dr.decode bytes w' o' ≡ some (next, instr)
        → o'' ≡ add64 o' (dr.instr_length instr)
        → js ≡ is ++ instr ∷ []
        → Code bytes w o js next o''

module _ (dr : Dr) (laws : Decodes dr) (bytes : Bytes) where
  -- The pointer and the address advance by the length of the code.
  pub Code-total :
      {w o w' o' : ℕ} {is : List dr.Instr}
      → o < 2 ^ 64
      → Code dr bytes w o is w' o'
      → (w' ≡ w + total dr is) × (o' ≡ (o + total dr is) % 2 ^ 64)
  unfolding total
  Code-total h none_yet = (omega arith, omega arith)
  Code-total h (then_one {is} {w'} {o'} {next} instr c e eo ej) =
      let (walked, addressed) = Code-total h c in
      let step = laws.advances bytes w' o' next instr e in
      let sum = total-append dr is (instr ∷ []) in
      rw ej (
        omega (arith, walked, addressed, step, sum, eo),
        omega (arith, walked, addressed, step, sum, eo),
      )

  pub Code-length :
      {w o w' o' : ℕ} {is : List dr.Instr} → Code dr bytes w o is w' o' → w + length is ≤ w'
  Code-length none_yet = omega arith
  Code-length (then_one {is} {w'} {o'} {next} instr c e eo ej) =
      let step = laws.advances bytes w' o' next instr e in
      let some_bytes = laws.nonempty bytes w' o' next instr e in
      rw ej (omega (arith, Code-length c, step, some_bytes, length-append {0} is (instr ∷ [])))

module _ {dr : Dr} {bytes : Bytes} where
  -- No instructions lead nowhere.
  pub Code-nil :
      {w o w' o' : ℕ} {is : List dr.Instr}
      → Code dr bytes w o is w' o'
      → length is ≡ 0
      → (w' ≡ w) × (o' ≡ o)
  Code-nil none_yet e = (refl, refl)
  Code-nil (then_one {is} instr c e eo ej) none =
      absurd (omega (arith, ap length ej, length-append {0} is (instr ∷ [])))

  pub Code-of_none : (is : List dr.Instr) {w o : ℕ} → length is ≡ 0 → Code dr bytes w o is w o
  Code-of_none [] none = none_yet
  Code-of_none (i ∷ is) none = absurd (omega arith)

-- ===== src/Transform/Encode/Outside.antt =====
-- The bytes that `instr_set_encode_order` leaves alone.
use librave.Base.{
  ℕ, ◌+◌, ◌-◌, ◌<◌, ◌≤◌, ◌≡◌, ◌⊎◌, inl, inr, refl, ◌∙◌, ap, Bool, List, [], ◌∷◌, length, arith,
  ◌==◌, if◌then◌else◌, Bool-cases,
}
use librave.Errno.{Errno, success, is_success, is_success_iff}
use librave.Transform.Dr.{Dr, Bytes}
use librave.Transform.Sets.{InstrSet}
use librave.Transform.Encode.{store_bytes, Pen}
use librave.Transform.Encode.Rewritten.{max_instr_length, Rewritten, whole, part}

-- How far behind a set a code is written: a failure may write one instruction too many.
abbrev pub slack : Errno → ℕ
slack rc = if is_success rc then 0 else max_instr_length

-- A byte in front of a set that is shown at `target`, or `k` bytes or more behind it.
abbrev pub Clear : {I : Type 0} → ℕ → ℕ → InstrSet I → ℕ → Type 0
Clear k target set q = (q < target) ⊎ (target + (set.end - set.start) + k ≤ q)

store_bytes-outside :
    (bytes : Bytes) (p : ℕ) (bs : List ℕ) (q : ℕ)
    → (q < p) ⊎ (p + length bs ≤ q)
    → store_bytes bytes p bs q ≡ bytes q
unfolding store_bytes
store_bytes-outside bytes p [] q h = refl
store_bytes-outside bytes p (b ∷ bs) q h =
    let bytes' : Bytes = λ r. if r == p then b else bytes r in
    let apart : (q == p) ≡ Bool.false = ground arith in
    let rest : (q < p + 1) ⊎ (p + 1 + length bs ≤ q) = ground arith in
    store_bytes-outside bytes' (p + 1) bs q rest ∙ rw (apart) refl

pub Clear-slack :
    {I : Type 0} (rc : Errno) (target : ℕ) (set : InstrSet I) (q : ℕ)
    → Clear (slack rc) target set q
    → Clear 0 target set q
Clear-slack rc target set q (inl h) = inl h
Clear-slack rc target set q (inr h) = inr (omega arith)

pub Rewritten-outside :
    (dr : Dr) (bytes : Bytes) (target : ℕ) (set : InstrSet dr.Instr) (is : List dr.Instr)
    (rc : Errno) (pen : Pen) (q : ℕ)
    → Rewritten dr bytes target set.start set.end is (rc, pen)
    → Clear (slack rc) target set q
    → pen.bytes q ≡ bytes q
Rewritten-outside dr bytes target set is success pen q (whole bs enc wrote fits) clear =
    let clear' = Clear-slack success target set q clear in
    let apart : (q < target) ⊎ (target + length bs ≤ q) = ground arith in
    ap (λ b. b q) wrote ∙ store_bytes-outside bytes target bs q apart
Rewritten-outside dr bytes target set is rc pen q (part bs ne wrote fits) clear =
    let failed = is_success_iff rc in
    let apart : (q < target) ⊎ (target + length bs ≤ q) = elim (Bool-cases (is_success rc)) [
      | inl t ↦ absurd (ne (failed.0 t))
      | inr t ↦ let clear' = rw (t) at clear in ground arith
    ] in
    ap (λ b. b q) wrote ∙ store_bytes-outside bytes target bs q apart

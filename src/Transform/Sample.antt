-- ===== src/Transform/Sample.antt =====
-- A disassembler of one-byte instructions and lists as plain lists, on which the theorems are tried:
-- 0x50 + r pushes and 0x58 + r pops register r, 0x06 is invalid, and any other byte does neither.
use librave.Base.{
  ℕ, zero, suc, ◌+◌, ◌-◌, ◌%◌, ◌≡◌, ◌↔◌, refl, Bool, true, false, ◌&&◌, Option, none, some, List,
  [], ◌∷◌, ◌++◌, arith, leb, ltb, length, subst, sym, ap, Bool-cases, inl, inr, ◌≤◌, ◌==◌,
  if◌then◌else◌,
}
use librave.Transform.Dr.{Dr, Bytes, Decodes}
use librave.Transform.Chains.{Chains, ChainLaws}
use librave.Transform.Store.{Store}
use librave.Transform.Sets.{InstrSet}
use librave.Transform.Data.{Function, Transformable}
use librave.Transform.Encode.Rewritten.{IsEncodable}
use librave.Transform.Encode.Decoded.{Holds, Inverts}

abbrev opcode : ℕ → ℕ
opcode b = if leb 0x50 b && ltb b 0x58 then 1 else if leb 0x58 b && ltb b 0x60 then 2 else 0

abbrev decode_byte : Bytes → ℕ → ℕ → Option (ℕ × ℕ)
decode_byte bytes walk orig = if bytes walk == 6 then none else some (walk + 1, bytes walk)

abbrev encode_byte : ℕ → Option (List ℕ)
encode_byte b = if b == 6 then none else some (b ∷ [])

abbrev pub sample : Dr
sample = record {
  Instr = ℕ;
  op_push = 1;
  op_pop = 2;
  reg_rbp = 5;
  set_isa_mode = true;
  decode = decode_byte;
  instr_length = λ _. 1;
  get_opcode = opcode;
  src_reg = λ b. b % 8;
  dst_reg = λ b. b % 8;
  encode = λ b pc. encode_byte b;
  lingers = true;
  overreads = true;
}

decode_byte-next :
    (bytes : Bytes) (walk orig next instr : ℕ)
    → decode_byte bytes walk orig ≡ some (next, instr)
    → next ≡ walk + 1
decode_byte-next bytes walk orig next instr e = ground arith

pub sample-Decodes : Decodes sample
sample-Decodes = record {
  advances = decode_byte-next;
  nonempty = λ bytes walk orig next instr e. omega arith;
  lingers = refl;
}

encode_byte-some :
    (b : ℕ) (bs : List ℕ) → encode_byte b ≡ some bs → ((b == 6) ≡ false) × (b ∷ [] ≡ bs)
encode_byte-some b bs e = elim (Bool-cases (b == 6)) [
  | inl t ↦ let e' = rw (t) at e in absurd (cc)
  | inr t ↦ let e' = rw (t) at e in (t, cc)
]

one_byte : (b pc : ℕ) (bs : List ℕ) → sample.encode b pc ≡ some bs → length bs ≤ 17
one_byte b pc bs e =
    let (valid, same) = encode_byte-some b bs e in subst (λ l. length l ≤ 17) same (omega arith)

decode_byte-encode_byte :
    (bytes : Bytes) (walk orig b : ℕ) (bs : List ℕ)
    → encode_byte b ≡ some bs
    → Holds bytes walk bs
    → decode_byte bytes walk orig ≡ some (walk + length bs, b)
decode_byte-encode_byte bytes walk orig b bs e h =
    let (valid, same) = encode_byte-some b bs e in
    let (stored, rest) = subst (Holds bytes walk) (sym same) h in
    let sized : length bs ≡ 1 = ap length (sym same) in rw (stored, valid, sized) refl

pub sample-Inverts : Inverts sample
sample-Inverts = decode_byte-encode_byte

pub sample-IsEncodable : IsEncodable sample
sample-IsEncodable = record { short = one_byte; through = refl }

abbrev empty_list : {A : Type 0} → List A → Bool
empty_list [] = true
empty_list (x ∷ xs) = false

empty_list_iff : {A : Type 0} (xs : List A) → (empty_list xs ≡ true) ↔ (xs ≡ [])
empty_list_iff [] = ((λ _. refl), (λ _. refl))
empty_list_iff (x ∷ xs) = ((λ h. cc), (λ h. cc))

abbrev pub lists : Chains
lists = record {
  Head = λ A. List A;
  init = [];
  add_tail = λ a h. h ++ a ∷ [];
  is_empty = empty_list;
  entries = λ h. h;
  updated = λ xs h. xs;
}

pub lists-ChainLaws : ChainLaws lists
lists-ChainLaws = record {
  entries-init = λ A. refl;
  entries-add_tail = λ a h. refl;
  is_empty_iff = empty_list_iff;
  entries-updated = λ xs h e. refl;
}

-- Memory that grants every request.
abbrev pub plenty : Store
plenty = record { grants = λ _. true; asked = 0; blocks = 0; instrs = 0; stale = 0 }

-- A list of bytes at a pointer, and 0x90 elsewhere.
abbrev pub byte_at : List ℕ → ℕ → ℕ
byte_at [] i = 0x90
byte_at (b ∷ bs) zero = b
byte_at (b ∷ bs) (suc i) = byte_at bs i

-- push rbp; push r3; push r4; nop; pop r4; pop r3; pop rbp; ret, at 0x1000.
abbrev pub one_exit : Bytes
one_exit p = byte_at (0x55 ∷ 0x53 ∷ 0x54 ∷ 0x90 ∷ 0x5c ∷ 0x5b ∷ 0x5d ∷ 0xc3 ∷ []) (p - 0x1000)

-- The pushes of r3 and r4; `nop` ends the run.
abbrev pub prologue : InstrSet ℕ
prologue = record { start = 0x400001; end = 0x400003; nr_instrs = 2; instrs = 0x53 ∷ 0x54 ∷ [] }

abbrev pub epilogue : InstrSet ℕ
epilogue = record { start = 0x400004; end = 0x400006; nr_instrs = 2; instrs = 0x5c ∷ 0x5b ∷ [] }

abbrev pub function : Function
function = record { addr = 0x400000; len = 8 }

abbrev pub permutable : Transformable ℕ (λ A. List A)
permutable = record {
  function = function;
  prologue = prologue;
  epilogues = epilogue ∷ [];
  order = some (0 ∷ 1 ∷ []);
}

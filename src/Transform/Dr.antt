-- ===== src/Transform/Dr.antt =====
-- The disassembler that src/transform.c calls: DynamoRIO, which is not part of the repository. An
-- instruction is a value, and the links that the code gives it (`instr_set_next`) are the order of
-- a list. Registers and opcodes are numbers.
use librave.Base.{ℕ, ◌+◌, ◌<◌, ◌≡◌, Bool, true, Option, some, List}

-- Local memory, by address.
abbrev pub Bytes : Type 0
Bytes = ℕ → ℕ

pub record Dr : Type 1 where
  pub Instr : Type 0
  pub op_push : ℕ
  pub op_pop : ℕ
  pub reg_rbp : ℕ
  -- `dr_set_isa_mode`: whether the mode could be set.
  pub set_isa_mode : Bool
  -- `decode_from_copy` at a local pointer, for an instruction that stands at an original address:
  -- the pointer behind the instruction and the instruction, or `none` where it is invalid.
  pub decode : Bytes → ℕ → ℕ → Option (ℕ × Instr)
  pub instr_length : Instr → ℕ
  pub get_opcode : Instr → ℕ
  -- `opnd_get_reg` of `instr_get_src (…, 0)` and of `instr_get_dst (…, 0)`.
  pub src_reg : Instr → ℕ
  pub dst_reg : Instr → ℕ
  -- `instr_encode_to_copy` for an original address: the bytes written, or `none` if it fails.
  pub encode : Instr → ℕ → Option (List ℕ)
  -- Two reads that C leaves undefined, and whether the machine lets them through with what the memory
  -- still held: of the link of an instruction that `instr_destroy` has just given back, and of the
  -- entry behind the end of an array on the stack.
  pub lingers : Bool
  pub overreads : Bool

-- What the code relies on: the pointer that is returned for a decoded instruction is the next byte, an
-- instruction takes at least one, and the link of a destroyed instruction can still be read.
pub record Decodes (dr : Dr) : Type 0 where
  pub advances :
      (bytes : Bytes) (walk orig next : ℕ) (instr : dr.Instr)
      → dr.decode bytes walk orig ≡ some (next, instr)
      → next ≡ walk + dr.instr_length instr
  pub nonempty :
      (bytes : Bytes) (walk orig next : ℕ) (instr : dr.Instr)
      → dr.decode bytes walk orig ≡ some (next, instr)
      → 0 < dr.instr_length instr
  pub lingers : dr.lingers ≡ true

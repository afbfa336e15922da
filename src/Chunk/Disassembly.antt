-- ===== src/Chunk/Disassembly.antt =====
-- The walk over the bytecode in `operator<<(std::ostream&, const Chunk&)` of src/chunk.cpp: the
-- instruction that begins at a byte, with the operands that the `switch` reads. The text that is
-- printed for it is not modelled. A read behind the end of the bytecode is no value.
use cpplox.Opcode.{Opcode, byte_opcode}
use cpplox.Prelude.{ℕ, zero, suc, ◌+◌, ◌*◌, Option, none, some, List, [], ◌∷◌}

-- The groups of cases of the `switch`; `unexpected` is its `default`.
pub data Operands : Type 0 where
  bare lookup arguments captures distance unexpected : Operands

unfoldable pub operands : Opcode → Operands
operands Opcode.constant = lookup
operands Opcode.nil = bare
operands Opcode.true_ = bare
operands Opcode.false_ = bare
operands Opcode.pop = bare
operands Opcode.get_local = lookup
operands Opcode.set_local = lookup
operands Opcode.get_global = lookup
operands Opcode.define_global = lookup
operands Opcode.set_global = lookup
operands Opcode.get_upvalue = lookup
operands Opcode.set_upvalue = lookup
operands Opcode.get_property = lookup
operands Opcode.set_property = lookup
operands Opcode.get_super = lookup
operands Opcode.equal = bare
operands Opcode.greater = bare
operands Opcode.less = bare
operands Opcode.add = bare
operands Opcode.subtract = bare
operands Opcode.multiply = bare
operands Opcode.divide = bare
operands Opcode.not_ = bare
operands Opcode.negate = bare
operands Opcode.print = bare
operands Opcode.jump = distance
operands Opcode.jump_if_false = distance
operands Opcode.loop = distance
operands Opcode.call = arguments
operands Opcode.invoke = unexpected
operands Opcode.super_invoke = unexpected
operands Opcode.closure = captures
operands Opcode.close_upvalue = bare
operands Opcode.return_ = bare
operands Opcode.class_ = lookup
operands Opcode.inherit = bare
operands Opcode.method = lookup

pub data Instruction : Type 0 where
  alone : Opcode → Instruction
  at_index : Opcode → ℕ → Instruction
  call_with : ℕ → Instruction
  -- The function's constant, and for each capture the byte that says whether it is direct and
  -- the index.
  make_closure : ℕ → List (ℕ × ℕ) → Instruction
  jump_by : Opcode → ℕ → Instruction

-- The loop over the tracked upvalues of a closure.
unfoldable pub read_captures : ℕ → List ℕ → Option (List (ℕ × ℕ) × List ℕ)
read_captures zero bytes = some ([], bytes)
read_captures (suc n) (is_direct ∷ index ∷ bytes) = elim (read_captures n bytes) [
  | none ↦ none
  | some (us, rest) ↦ some ((is_direct, index) ∷ us, rest)
]
read_captures (suc n) _ = none

unfoldable pub read_operands : Operands → Opcode → List ℕ → Option (Instruction × List ℕ)
read_operands bare o bytes = some (alone o, bytes)
read_operands lookup o (i ∷ bytes) = some (at_index o i, bytes)
read_operands arguments o (n ∷ bytes) = some (call_with n, bytes)
read_operands captures o (fn ∷ n ∷ bytes) = elim (read_captures n bytes) [
  | none ↦ none
  | some (us, rest) ↦ some (make_closure fn us, rest)
]
read_operands distance o (high ∷ low ∷ bytes) = some (jump_by o (high * 256 + low), bytes)
read_operands _ o bytes = none

-- The instruction at the front of the bytes, and the bytes behind it.
unfoldable pub read_instruction : List ℕ → Option (Instruction × List ℕ)
read_instruction [] = none
read_instruction (b ∷ bytes) = elim (byte_opcode b) [
  | none ↦ none
  | some o ↦ read_operands (operands o) o bytes
]

-- The loop of `operator<<`; a chunk of n bytes has at most n instructions.
unfoldable pub disassemble : ℕ → List ℕ → Option (List Instruction)
disassemble fuel [] = some []
disassemble zero (b ∷ bytes) = none
disassemble (suc fuel) (b ∷ bytes) = elim (read_instruction (b ∷ bytes)) [
  | none ↦ none
  | some (i, rest) ↦ elim (disassemble fuel rest) [ none ↦ none | some is ↦ some (i ∷ is) ]
]

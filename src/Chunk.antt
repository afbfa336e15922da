-- ===== src/Chunk.antt =====
-- The bytecode writer: class Chunk of src/chunk.hpp and src/chunk.cpp. A method that changes the
-- chunk returns the new chunk, and `Jump_backpatch` is the index that it remembers.
pub mod Constants
pub mod WellFormed
pub mod Jumps
pub mod Loops
pub mod Disassembly
pub mod RoundTrip
use cpplox.Opcode.{Opcode, opcode_byte, constant, call, closure, jump, jump_if_false, loop}
use cpplox.Prelude.{
  ℕ, zero, suc, ◌+◌, ◌-◌, ◌*◌, ◌/◌, ◌%◌, Bool, true, false, Option, none, some, List, [], ◌∷◌, ◌++◌,
  length, get_elem?, set, size_sub, ltb, if◌then◌else◌, Bytes,
}
use cpplox.Result.{Result, ok, err, ◌>>=◌, narrowing_error, out_of_range}
use cpplox.Value.{Double, Value, string, function, value_eq}

pub record SourceMapToken : Type 0 where
  pub lexeme : Bytes
  pub line : ℕ

pub data TrackedUpvalue : Type 0 where
  upvalue_index : ℕ → TrackedUpvalue
  upupvalue_index : ℕ → TrackedUpvalue

pub record Chunk (D : Type 0) : Type 0 where
  pub bytecode : List ℕ
  pub constants : List (Value D)
  pub source_map_tokens : List SourceMapToken

abbrev pub empty_chunk : {D : Type 0} → Chunk D
empty_chunk = record { bytecode = []; constants = []; source_map_tokens = [] }

-- `gsl::narrow<std::uint8_t>` and `gsl::narrow<std::uint16_t>`
unfoldable pub narrow8 : ℕ → Result ℕ
narrow8 n = if ltb n 256 then ok n else err narrowing_error

unfoldable pub narrow16 : ℕ → Result ℕ
narrow16 n = if ltb n 65536 then ok n else err narrowing_error

-- The two bytes of `native_to_big(distance)`, written over those at `index`.
unfoldable pub write_big_endian : ℕ → ℕ → List ℕ → List ℕ
write_big_endian index distance bytes =
    set (set bytes index (distance / 256)) (index + 1) (distance % 256)

-- `big_to_native` of the two bytes at `index`; a read behind the end is no value.
unfoldable pub read_big_endian : ℕ → List ℕ → Option ℕ
read_big_endian index bytes = elim (get_elem? bytes index) [
  | none ↦ none
  | some high ↦ elim (get_elem? bytes (index + 1)) [
    | none ↦ none
    | some low ↦ some (high * 256 + low)
  ]
]

-- Jump_backpatch::to_next_opcode, on the bytecode and jump_begin_index_.
unfoldable pub patch_to_next_opcode : ℕ → List ℕ → Result (List ℕ)
patch_to_next_opcode jump_begin_index bytes = do
  distance ← narrow16 (size_sub (length bytes) jump_begin_index)
  let index = size_sub jump_begin_index 2
  if ltb index (length bytes) then ok (write_big_endian index distance bytes) else err out_of_range

module _ {D : Type 0} where
  unfoldable pub to_next_opcode : ℕ → Chunk D → Result (Chunk D)
  to_next_opcode jump_begin_index c = do
    bytes ← patch_to_next_opcode jump_begin_index c.bytecode
    ok (record c { bytecode = bytes })

  -- `std::find` in the constants: the index of the first that is equal.
  unfoldable pub find_constant : ⦃d : Double D⦄ → Value D → List (Value D) → Option ℕ
  find_constant v [] = none
  find_constant v (w ∷ ws) =
      let later = find_constant v ws in
      if value_eq w v then some 0 else elim later [ none ↦ none | some i ↦ some (suc i) ]

  unfoldable pub insert_constant : ⦃d : Double D⦄ → Value D → Chunk D → ℕ × Chunk D
  insert_constant v c = elim (find_constant v c.constants) [
    | some i ↦ (i, c)
    | none ↦ (length c.constants, record c { constants = c.constants ++ v ∷ [] })
  ]

  unfoldable pub emit_byte : ℕ → SourceMapToken → Chunk D → Chunk D
  emit_byte byte token c = record c {
    bytecode = c.bytecode ++ byte ∷ [];
    source_map_tokens = c.source_map_tokens ++ token ∷ [];
  }

  -- `emit(gsl::narrow<std::uint8_t>(n), token)`
  unfoldable pub emit_narrowed : ℕ → SourceMapToken → Chunk D → Result (Chunk D)
  emit_narrowed n token c = do byte ← narrow8 n; ok (emit_byte byte token c)

  -- `emit<opcode>(token)`
  unfoldable pub emit : Opcode → SourceMapToken → Chunk D → Result (Chunk D)
  emit opcode token c = emit_narrowed (opcode_byte opcode) token c

  -- `emit<opcode>(index, token)`
  unfoldable pub emit_index : Opcode → ℕ → SourceMapToken → Chunk D → Result (Chunk D)
  emit_index opcode index token c = do
    c₁ ← emit_narrowed (opcode_byte opcode) token c
    emit_narrowed index token c₁

  unfoldable pub emit_call : ℕ → SourceMapToken → Chunk D → Result (Chunk D)
  emit_call arg_count token c = do
    c₁ ← emit_narrowed (opcode_byte call) token c
    emit_narrowed arg_count token c₁

  -- The loop of `emit_closure`.
  unfoldable pub emit_upvalues : List TrackedUpvalue → SourceMapToken → Chunk D → Result (Chunk D)
  emit_upvalues [] token c = ok c
  emit_upvalues (upvalue_index i ∷ us) token c = do
    c₁ ← emit_narrowed i token (emit_byte 1 token c)
    emit_upvalues us token c₁
  emit_upvalues (upupvalue_index i ∷ us) token c = do
    c₁ ← emit_narrowed i token (emit_byte 0 token c)
    emit_upvalues us token c₁

  -- A jump's opcode and its two dummy bytes.
  unfoldable pub emit_dummy : Opcode → SourceMapToken → Chunk D → Result (Chunk D)
  emit_dummy opcode token c = do
    c₁ ← emit_narrowed (opcode_byte opcode) token c
    ok (emit_byte 0 token (emit_byte 0 token c₁))

  unfoldable pub emit_jump : SourceMapToken → Chunk D → Result (ℕ × Chunk D)
  emit_jump token c = do c₁ ← emit_dummy jump token c; ok (length c₁.bytecode, c₁)

  unfoldable pub emit_jump_if_false : SourceMapToken → Chunk D → Result (ℕ × Chunk D)
  emit_jump_if_false token c = do c₁ ← emit_dummy jump_if_false token c; ok (length c₁.bytecode, c₁)

  unfoldable pub emit_loop : ℕ → SourceMapToken → Chunk D → Result (Chunk D)
  emit_loop loop_begin token c = do
    c₁ ← emit_dummy loop token c
    distance ← narrow16 (size_sub (length c₁.bytecode) loop_begin)
    ok (record c₁ { bytecode = write_big_endian (length c₁.bytecode - 2) distance c₁.bytecode })

module _ {D : Type 0} ⦃d : Double D⦄ where
  -- `emit<opcode>(identifier_name, token)`
  unfoldable pub emit_name : Opcode → Bytes → SourceMapToken → Chunk D → Result (Chunk D)
  emit_name opcode name token c = do
    let (i, c₁) = insert_constant (string name) c
    c₂ ← emit_narrowed (opcode_byte opcode) token c₁
    emit_narrowed i token c₂

  unfoldable pub emit_constant : Value D → SourceMapToken → Chunk D → Result (Chunk D)
  emit_constant v token c = do
    let (i, c₁) = insert_constant v c
    c₂ ← emit_narrowed (opcode_byte constant) token c₁
    emit_narrowed i token c₂

  unfoldable pub emit_closure :
      ℕ → List TrackedUpvalue → SourceMapToken → Chunk D → Result (Chunk D)
  emit_closure fn upvalues token c = do
    let (i, c₁) = insert_constant (function fn) c
    c₂ ← emit_narrowed (opcode_byte closure) token c₁
    c₃ ← emit_narrowed i token c₂
    c₄ ← emit_narrowed (length upvalues) token c₃
    emit_upvalues upvalues token c₄

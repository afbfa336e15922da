-- ===== src/Chunk/RoundTrip.antt =====
-- What the writer appends is read back by the walk of `operator<<` as the call that wrote it.
use cpplox.Chunk.Constants.{insert_constant-Inserted}
use cpplox.Chunk.Disassembly.{
  Instruction, at_index, make_closure, lookup, operands, read_captures, read_operands,
  read_instruction,
}
use cpplox.Chunk.{
  Chunk, SourceMapToken, TrackedUpvalue, upvalue_index, upupvalue_index, narrow8, insert_constant,
  emit_byte, emit_narrowed, emit_name, emit_upvalues, emit_closure,
}
use cpplox.Opcode.{Opcode, opcode_byte, byte_opcode-opcode_byte}
use cpplox.Prelude.{
  ℕ, ◌<◌, true, some, ◌⊎◌, get_elem?, List, [], ◌∷◌, ◌++◌, ◌≡◌, ◌∙◌, refl, ap, length, arith,
  append_assoc, append-nil, Bytes,
}
use cpplox.Result.{ok, ◌>>=◌, bind-eq-ok}
use cpplox.Value.{Double, Value, string, function, value_eq}

-- The bytes that were appended read as `i`, whatever follows them.
pub record Appends {D : Type 0} (i : Instruction) (c c' : Chunk D) : Type 0 where
  pub bytes : List ℕ
  pub appended : c'.bytecode ≡ c.bytecode ++ bytes
  pub reads_back : (rest : List ℕ) → read_instruction (bytes ++ rest) ≡ some (i, rest)

emit_narrowed-ok :
    {D : Type 0} (n : ℕ) (t : SourceMapToken) (c : Chunk D) {c' : Chunk D}
    → emit_narrowed n t c ≡ ok c'
    → (n < 256) × (c'.bytecode ≡ c.bytecode ++ n ∷ []) × (c'.constants ≡ c.constants)
unfolding emit_narrowed narrow8 emit_byte
emit_narrowed-ok n t c h = ground arith

read_instruction-opcode :
    (o : Opcode) (rest : List ℕ)
    → read_instruction (opcode_byte o ∷ rest) ≡ read_operands (operands o) o rest
unfolding read_instruction
read_instruction-opcode o rest = rw (byte_opcode-opcode_byte o, read_instruction)

-- The bytes of a closure's captures.
abbrev pub captures_of : List TrackedUpvalue → List (ℕ × ℕ)
captures_of [] = []
captures_of (upvalue_index i ∷ us) = (1, i) ∷ captures_of us
captures_of (upupvalue_index i ∷ us) = (0, i) ∷ captures_of us

abbrev capture_bytes : List (ℕ × ℕ) → List ℕ
capture_bytes [] = []
capture_bytes ((k, i) ∷ us) = k ∷ i ∷ capture_bytes us

read_captures-bytes :
    (us : List TrackedUpvalue) (rest : List ℕ)
    → read_captures (length us) (capture_bytes (captures_of us) ++ rest)
      ≡ some (captures_of us, rest)
unfolding read_captures
read_captures-bytes [] rest = refl
read_captures-bytes (upvalue_index i ∷ us) rest = rw (read_captures-bytes us rest)
read_captures-bytes (upupvalue_index i ∷ us) rest = rw (read_captures-bytes us rest)

-- Two bytes written one after the other.
module _ {D : Type 0} where
  pair-ok :
      (a b : ℕ) (t : SourceMapToken) (c : Chunk D) {c' : Chunk D}
      → (emit_narrowed a t c >>= emit_narrowed b t) ≡ ok c'
      → (c'.bytecode ≡ c.bytecode ++ a ∷ b ∷ []) × (c'.constants ≡ c.constants)
  pair-ok a b t c h =
      let (c₁, e₁, e₂) = bind-eq-ok (emit_narrowed a t c) (emit_narrowed b t) h in
      let (_, code₁, constants₁) = emit_narrowed-ok a t c e₁ in
      let (_, code₂, constants₂) = emit_narrowed-ok b t c₁ e₂ in
      (
        code₂ ∙ ap (λ l. l ++ b ∷ []) code₁ ∙ append_assoc c.bytecode (a ∷ []) (b ∷ []),
        constants₂ ∙ constants₁,
      )

  emit_upvalues-ok :
      (us : List TrackedUpvalue) (t : SourceMapToken) (c : Chunk D) {c' : Chunk D}
      → emit_upvalues us t c ≡ ok c'
      → (c'.bytecode ≡ c.bytecode ++ capture_bytes (captures_of us)) × (c'.constants ≡ c.constants)
  unfolding emit_upvalues emit_byte
  emit_upvalues-ok [] t c h = (ground (arith, append-nil c.bytecode), ground arith)
  emit_upvalues-ok (upvalue_index i ∷ us) t c h =
      let (c₁, e₁, e₂) = bind-eq-ok (emit_narrowed i t (emit_byte 1 t c)) (emit_upvalues us t) h in
      let (_, code₁, constants₁) = emit_narrowed-ok i t (emit_byte 1 t c) e₁ in
      let (code₂, constants₂) = emit_upvalues-ok us t c₁ e₂ in
      (
        code₂ ∙ ap (λ l. l ++ capture_bytes (captures_of us)) code₁ ∙ simp append_assoc,
        constants₂ ∙ constants₁,
      )
  emit_upvalues-ok (upupvalue_index i ∷ us) t c h =
      let (c₁, e₁, e₂) = bind-eq-ok (emit_narrowed i t (emit_byte 0 t c)) (emit_upvalues us t) h in
      let (_, code₁, constants₁) = emit_narrowed-ok i t (emit_byte 0 t c) e₁ in
      let (code₂, constants₂) = emit_upvalues-ok us t c₁ e₂ in
      (
        code₂ ∙ ap (λ l. l ++ capture_bytes (captures_of us)) code₁ ∙ simp append_assoc,
        constants₂ ∙ constants₁,
      )

  -- An opcode with an index behind it.
  pair-Appends :
      (o : Opcode) (b : ℕ) (t : SourceMapToken) (c c₀ : Chunk D) {c' : Chunk D} (i : Instruction)
      → c₀.bytecode ≡ c.bytecode
      → ((rest : List ℕ) → read_operands (operands o) o (b ∷ rest) ≡ some (i, rest))
      → (emit_narrowed (opcode_byte o) t c₀ >>= emit_narrowed b t) ≡ ok c'
      → Appends i c c'
  pair-Appends o b t c c₀ i same reads h = record {
    bytes = opcode_byte o ∷ b ∷ [];
    appended = (pair-ok (opcode_byte o) b t c₀ h).0 ∙ ap (λ l. l ++ opcode_byte o ∷ b ∷ []) same;
    reads_back = λ rest. read_instruction-opcode o (b ∷ rest) ∙ reads rest;
  }

module _ {D : Type 0} ⦃d : Double D⦄ where
  -- The chunk holds, at the index, the value or one equal to it.
  abbrev pub Holds : Chunk D → ℕ → Value D → Type 0
  Holds c i v =
      (w : Value D) × (get_elem? c.constants i ≡ some w) × ((value_eq w v ≡ true) ⊎ (w ≡ v))

  -- `emit<opcode>(name, token)` appends an instruction that reads back as the opcode with an index,
  -- and the constant at that index is the name, or one equal to it.
  pub emit_name-reads_back :
      (o : Opcode) (name : Bytes) (t : SourceMapToken) (c c' : Chunk D)
      → operands o ≡ lookup
      → emit_name o name t c ≡ ok c'
      → (i : ℕ) × Appends (at_index o i) c c' × Holds c' i (string name)
  unfolding emit_name read_operands
  emit_name-reads_back o name t c c' l h =
      let ins = insert_constant-Inserted (string name) c in
      let (i, c₁) = insert_constant (string name) c in
      let (w, at_i, same) = ins.found in
      (
        i,
        pair-Appends o i t c c₁ (at_index o i) ins.code (λ rest. rw (l, read_operands)) h,
        (w, ap (λ l. get_elem? l i) (pair-ok (opcode_byte o) i t c₁ h).1 ∙ at_i, same),
      )

  -- `emit_closure` appends an instruction that reads back as the closure opcode with the
  -- function's constant and the captures in order, each marked 1 for a local of the enclosing
  -- function and 0 for an upvalue of it.
  pub emit_closure-reads_back :
      (fn : ℕ) (us : List TrackedUpvalue) (t : SourceMapToken) (c c' : Chunk D)
      → emit_closure fn us t c ≡ ok c'
      → (i : ℕ) × Appends (make_closure i (captures_of us)) c c' × Holds c' i (function fn)
  unfolding emit_closure operands read_operands
  emit_closure-reads_back fn us t c c' h =
      let ins = insert_constant-Inserted (function fn) c in
      let (i, c₁) = insert_constant (function fn) c in
      let (w, at_i, same) = ins.found in
      let (c₂, e₂, h₂) = bind-eq-ok (emit_narrowed (opcode_byte Opcode.closure) t c₁) _ h in
      let (c₃, e₃, h₃) = bind-eq-ok (emit_narrowed i t c₂) _ h₂ in
      let (c₄, e₄, h₄) = bind-eq-ok (emit_narrowed (length us) t c₃) _ h₃ in
      let (_, b₂, k₂) = emit_narrowed-ok (opcode_byte Opcode.closure) t c₁ e₂ in
      let (_, b₃, k₃) = emit_narrowed-ok i t c₂ e₃ in
      let (_, b₄, k₄) = emit_narrowed-ok (length us) t c₃ e₄ in
      let (b₅, k₅) = emit_upvalues-ok us t c₄ h₄ in
      (
        i,
        record {
          bytes = opcode_byte Opcode.closure ∷ i ∷ length us ∷ capture_bytes (captures_of us);
          appended = b₅ ∙ rw (b₄, b₃, b₂, ins.code) (simp append_assoc);
          reads_back = λ rest.
              read_instruction-opcode Opcode.closure _
              ∙ rw (read_captures-bytes us rest, read_operands) refl;
        },
        (w, ap (λ l. get_elem? l i) (k₅ ∙ k₄ ∙ k₃ ∙ k₂) ∙ at_i, same),
      )

-- ===== src/Chunk/WellFormed.antt =====
-- Any sequence of calls of the chunk writer leaves a well-formed chunk.
use cpplox.Chunk.Constants.{Distinct, insert_constant-Inserted}
use cpplox.Chunk.{
  Chunk, SourceMapToken, TrackedUpvalue, upvalue_index, upupvalue_index, narrow8, narrow16,
  write_big_endian, patch_to_next_opcode, to_next_opcode, insert_constant, emit_byte, emit_narrowed,
  emit, emit_name, emit_index, emit_call, emit_constant, emit_upvalues, emit_closure, emit_dummy,
  emit_jump, emit_jump_if_false, emit_loop,
}
use cpplox.Opcode.{Opcode, jump, jump_if_false}
use cpplox.Prelude.{
  size_sub, ℕ, ◌+◌, ◌-◌, ◌/◌, ◌%◌, ◌<◌, List, [], ◌∷◌, ◌≡◌, ◌∙◌, subst, All, All-append, All-set,
  length, length-append, length-set, set, arith, Bytes,
}
use cpplox.Result.{Result, ok, err, ◌>>=◌, bind-eq-ok}
use cpplox.Value.{Double, Value, function, string}

-- A call of the writer.
pub data Emission (D : Type 0) : Type 0 where
  plain : Opcode → Emission D
  named : Opcode → Bytes → Emission D
  indexed : Opcode → ℕ → Emission D
  calls : ℕ → Emission D
  constants : Value D → Emission D
  closes : ℕ → List TrackedUpvalue → Emission D
  jumps jumps_if_false : Emission D
  loops patches : ℕ → Emission D

abbrev second : {D : Type 0} → Result (ℕ × Chunk D) → Result (Chunk D)
second m = m >>= λ (_, c). ok c

module _ {D : Type 0} ⦃d : Double D⦄ where
  -- Each byte is a byte and has its place in the source; no constant is stored twice.
  pub record IsWellFormed (c : Chunk D) : Type 0 where
    pub bytes : All (λ b. b < 256) c.bytecode
    pub mapped : length c.bytecode ≡ length c.source_map_tokens
    pub distinct : Distinct c.constants

  abbrev Keeps : Result (Chunk D) → Type 0
  Keeps (ok c) = IsWellFormed c
  Keeps (err e) = Unit

  Keeps-bind :
      (m : Result (Chunk D)) (f : Chunk D → Result (Chunk D))
      → Keeps m
      → ((c : Chunk D) → IsWellFormed c → Keeps (f c))
      → Keeps (m >>= f)
  Keeps-bind (ok c) f h k = k c h
  Keeps-bind (err e) f h k = tt

  emit_byte-IsWellFormed :
      (b : ℕ) (t : SourceMapToken) (c : Chunk D)
      → b < 256
      → IsWellFormed c
      → IsWellFormed (emit_byte b t c)
  unfolding emit_byte
  emit_byte-IsWellFormed b t c lt h = record {
    bytes = All-append (λ b. b < 256) c.bytecode (b ∷ []) h.bytes (lt, tt);
    mapped = omega (
      arith,
      h.mapped,
      length-append {0} c.bytecode (b ∷ []),
      length-append {0} c.source_map_tokens (t ∷ []),
    );
    distinct = h.distinct;
  }

  emit_narrowed-Keeps :
      (n : ℕ) (t : SourceMapToken) (c : Chunk D) → IsWellFormed c → Keeps (emit_narrowed n t c)
  unfolding emit_narrowed narrow8
  emit_narrowed-Keeps n t c h = ground (arith, emit_byte-IsWellFormed n t c)

  insert_constant-IsWellFormed :
      (v : Value D) (c : Chunk D) → IsWellFormed c → IsWellFormed (insert_constant v c).1
  insert_constant-IsWellFormed v c h =
      let i = insert_constant-Inserted v c in
      record {
        bytes = rw i.code h.bytes;
        mapped = rw i.code (rw i.tokens h.mapped);
        distinct = i.distinct h.distinct;
      }

  write_big_endian-IsWellFormed :
      (index distance : ℕ) (c : Chunk D)
      → distance < 65536
      → IsWellFormed c
      → IsWellFormed (record c { bytecode = write_big_endian index distance c.bytecode })
  unfolding write_big_endian
  write_big_endian-IsWellFormed index distance c lt h = record {
    bytes =
        All-set (λ b. b < 256) _ (index + 1) _
          (All-set (λ b. b < 256) c.bytecode index _ h.bytes (omega arith)) (omega arith);
    mapped =
        length-set (set c.bytecode index (distance / 256)) (index + 1) (distance % 256)
        ∙ length-set c.bytecode index (distance / 256)
        ∙ h.mapped;
    distinct = h.distinct;
  }

  unfoldable pub perform : Emission D → SourceMapToken → Chunk D → Result (Chunk D)
  perform (plain o) t c = emit o t c
  perform (named o name) t c = emit_name o name t c
  perform (indexed o i) t c = emit_index o i t c
  perform (calls n) t c = emit_call n t c
  perform (constants v) t c = emit_constant v t c
  perform (closes fn us) t c = emit_closure fn us t c
  perform jumps t c = second (emit_jump t c)
  perform jumps_if_false t c = second (emit_jump_if_false t c)
  perform (loops begin) t c = emit_loop begin t c
  perform (patches jump_begin) t c = to_next_opcode jump_begin c

  unfoldable pub perform_all : List (Emission D × SourceMapToken) → Chunk D → Result (Chunk D)
  perform_all [] c = ok c
  perform_all ((e, t) ∷ es) c = do c₁ ← perform e t c; perform_all es c₁

  emit_upvalues-Keeps :
      (us : List TrackedUpvalue) (t : SourceMapToken) (c : Chunk D)
      → IsWellFormed c
      → Keeps (emit_upvalues us t c)
  unfolding emit_upvalues
  emit_upvalues-Keeps [] t c h = h
  emit_upvalues-Keeps (upvalue_index i ∷ us) t c h =
      Keeps-bind (emit_narrowed i t (emit_byte 1 t c)) _
        (emit_narrowed-Keeps i t _ (emit_byte-IsWellFormed 1 t c (omega arith) h))
        (emit_upvalues-Keeps us t)
  emit_upvalues-Keeps (upupvalue_index i ∷ us) t c h =
      Keeps-bind (emit_narrowed i t (emit_byte 0 t c)) _
        (emit_narrowed-Keeps i t _ (emit_byte-IsWellFormed 0 t c (omega arith) h))
        (emit_upvalues-Keeps us t)

  emit_dummy-Keeps :
      (o : Opcode) (t : SourceMapToken) (c : Chunk D) → IsWellFormed c → Keeps (emit_dummy o t c)
  unfolding emit_dummy
  emit_dummy-Keeps o t c h = Keeps-bind _ _ (emit_narrowed-Keeps _ t c h) λ c₁ h₁.
      emit_byte-IsWellFormed 0 t (emit_byte 0 t c₁) (omega arith)
        (emit_byte-IsWellFormed 0 t c₁ (omega arith) h₁)

  to_next_opcode-Keeps :
      (jump_begin : ℕ) (c : Chunk D) → IsWellFormed c → Keeps (to_next_opcode jump_begin c)
  unfolding to_next_opcode patch_to_next_opcode narrow16
  to_next_opcode-Keeps jump_begin c h = ground (
    arith,
    write_big_endian-IsWellFormed (size_sub jump_begin 2) (size_sub (length c.bytecode) jump_begin)
        c,
  )

  two-Keeps :
      (n m : ℕ) (t : SourceMapToken) (c : Chunk D)
      → IsWellFormed c
      → Keeps (emit_narrowed n t c >>= emit_narrowed m t)
  two-Keeps n m t c h =
      Keeps-bind (emit_narrowed n t c) _ (emit_narrowed-Keeps n t c h) (emit_narrowed-Keeps m t)

  second-Keeps :
      (m : Result (Chunk D)) → Keeps m → Keeps (second (m >>= λ c. ok (length c.bytecode, c)))
  second-Keeps (ok c) h = h
  second-Keeps (err e) h = tt

  perform-Keeps :
      (e : Emission D) (t : SourceMapToken) (c : Chunk D) → IsWellFormed c → Keeps (perform e t c)
  unfolding perform emit emit_name emit_index emit_call emit_constant emit_closure emit_jump
      emit_jump_if_false emit_loop narrow16
  perform-Keeps (plain o) t c h = emit_narrowed-Keeps _ t c h
  perform-Keeps (named o name) t c h =
      two-Keeps _ _ t _ (insert_constant-IsWellFormed (string name) c h)
  perform-Keeps (indexed o i) t c h = two-Keeps _ _ t c h
  perform-Keeps (calls n) t c h = two-Keeps _ _ t c h
  perform-Keeps (constants v) t c h = two-Keeps _ _ t _ (insert_constant-IsWellFormed v c h)
  perform-Keeps (closes fn us) t c h =
      Keeps-bind _ _ (emit_narrowed-Keeps _ t _ (insert_constant-IsWellFormed (function fn) c h))
        λ c₂ h₂. Keeps-bind _ _ (emit_narrowed-Keeps _ t c₂ h₂) λ c₃ h₃.
          Keeps-bind _ _ (emit_narrowed-Keeps _ t c₃ h₃) λ c₄ h₄. emit_upvalues-Keeps us t c₄ h₄
  perform-Keeps jumps t c h = second-Keeps (emit_dummy jump t c) (emit_dummy-Keeps _ t c h)
  perform-Keeps jumps_if_false t c h =
      second-Keeps (emit_dummy jump_if_false t c) (emit_dummy-Keeps _ t c h)
  perform-Keeps (loops begin) t c h = Keeps-bind _ _ (emit_dummy-Keeps _ t c h) λ c₁ h₁. ground (
    arith,
    write_big_endian-IsWellFormed (length c₁.bytecode - 2) (size_sub (length c₁.bytecode) begin) c₁,
  )
  perform-Keeps (patches jump_begin) t c h = to_next_opcode-Keeps jump_begin c h

  -- After any sequence of calls of the writer, on a chunk that was well formed, that throws no
  -- exception: every element of the bytecode is a byte, each has its entry in the source map,
  -- and no two constants are equal.
  pub perform_all-IsWellFormed :
      (es : List (Emission D × SourceMapToken)) (c : Chunk D) {c' : Chunk D}
      → IsWellFormed c
      → perform_all es c ≡ ok c'
      → IsWellFormed c'
  unfolding perform_all
  perform_all-IsWellFormed [] c h e = subst Keeps e h
  perform_all-IsWellFormed ((em, t) ∷ es) c h e =
      let (c₁, e₁, rest) = bind-eq-ok (perform em t c) (perform_all es) e in
      perform_all-IsWellFormed es c₁ (subst Keeps e₁ (perform-Keeps em t c h)) rest

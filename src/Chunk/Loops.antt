-- ===== src/Chunk/Loops.antt =====
-- Backward jumps: `emit_loop`.
use cpplox.Chunk.Jumps.{length-write_big_endian, read-write_big_endian, get_elem?-write_big_endian}
use cpplox.Chunk.{
  Chunk, SourceMapToken, narrow8, narrow16, read_big_endian, emit_byte, emit_narrowed, emit_dummy,
  emit_loop,
}
use cpplox.Opcode.{Opcode, opcode_byte, opcode_byte-lt, loop}
use cpplox.Prelude.{
  size_sub_le, ℕ, ◌+◌, ◌-◌, ◌<◌, ◌≤◌, true, inl, inr, some, [], ◌∷◌, ◌++◌, ◌≡◌, ◌∙◌, refl, length,
  get_elem?, length-append, get_elem?-append, get_elem?-length, Bool-cases, arith, ltb,
  append_assoc,
}
use cpplox.Result.{Result, ok, err, narrowing_error}

module _ {D : Type 0} where
  -- The chunk behind a jump's opcode and its dummy bytes.
  abbrev pub with_dummy : Opcode → SourceMapToken → Chunk D → Chunk D
  with_dummy o t c = record {
    bytecode = c.bytecode ++ (opcode_byte o ∷ 0 ∷ 0 ∷ []);
    constants = c.constants;
    source_map_tokens = c.source_map_tokens ++ (t ∷ t ∷ t ∷ []);
  }

  pub emit_dummy-eq :
      (o : Opcode) (t : SourceMapToken) (c : Chunk D) → emit_dummy o t c ≡ ok (with_dummy o t c)
  unfolding emit_dummy emit_narrowed narrow8 emit_byte
  emit_dummy-eq o t c =
      let lt : ltb (opcode_byte o) 256 ≡ true = ground (arith, opcode_byte-lt o) in
      rw lt (simp append_assoc)

  -- A chunk that jumps back to `loop_begin`, or the failure to write one.
  abbrev pub LoopsBack : ℕ → Chunk D → Result (Chunk D) → Type 0
  LoopsBack loop_begin c (ok c') =
      (distance : ℕ) × (get_elem? c'.bytecode (length c.bytecode) ≡ some (opcode_byte loop))
      × (read_big_endian (length c.bytecode + 1) c'.bytecode ≡ some distance)
      × (loop_begin + distance ≡ length c.bytecode + 3)
      × (length c'.bytecode ≡ length c.bytecode + 3)
      × ((k : ℕ) → k < length c.bytecode → get_elem? c'.bytecode k ≡ get_elem? c.bytecode k)
  LoopsBack loop_begin c (err e) =
      (e ≡ narrowing_error) × (65536 ≤ length c.bytecode + 3 - loop_begin)

  -- `emit_loop` appends the opcode and the distance that leads from behind it back to
  -- `loop_begin`, and keeps the bytes before; it throws only when the distance does not fit
  -- 16 bits.
  pub emit_loop-LoopsBack :
      (loop_begin : ℕ) (t : SourceMapToken) (c : Chunk D)
      → loop_begin ≤ length c.bytecode
      → LoopsBack loop_begin c (emit_loop loop_begin t c)
  unfolding emit_loop narrow16
  emit_loop-LoopsBack loop_begin t c h =
      let bytes = c.bytecode ++ (opcode_byte loop ∷ 0 ∷ 0 ∷ []) in
      let size : length bytes ≡ length c.bytecode + 3 =
        omega (arith, length-append {0} c.bytecode (opcode_byte loop ∷ 0 ∷ 0 ∷ [])) in
      let distance = length c.bytecode + 3 - loop_begin in
      let index : length c.bytecode + 3 - 2 ≡ length c.bytecode + 1 = omega arith in
      rw (emit_dummy-eq loop t c, emit_loop)
        (rw (size_sub_le (length bytes) loop_begin (omega arith)) (
          rw size (
            rw index (elim (Bool-cases (ltb distance 65536)) [
              | inl e ↦ rw e (
                distance,
                get_elem?-write_big_endian (length c.bytecode + 1) distance bytes
                      (length c.bytecode) (λ e'. absurd (omega arith)) (λ e'. absurd (omega arith))
                    ∙ get_elem?-length c.bytecode (opcode_byte loop) (0 ∷ 0 ∷ []),
                read-write_big_endian (length c.bytecode + 1) distance bytes (omega arith),
                omega arith,
                length-write_big_endian (length c.bytecode + 1) distance bytes ∙ size,
                λ k lt.
                    get_elem?-write_big_endian (length c.bytecode + 1) distance bytes k
                      (λ e'. absurd (omega arith)) (λ e'. absurd (omega arith))
                    ∙ get_elem?-append c.bytecode (opcode_byte loop ∷ 0 ∷ 0 ∷ []) k lt,
              )
              | inr e ↦ rw e (refl, ground arith)
            ]))))

-- ===== src/Vm/Emitted/Locals.antt =====
-- The instruction that reads a local variable, from the writer of src/chunk.cpp to VM::run of
-- src/vm.cpp.
use cpplox.Chunk.{Chunk, SourceMapToken, emit_byte, emit_index, emit_narrowed, narrow8}
use cpplox.Objects.{Object, stack_at}
use cpplox.Opcode.{Opcode, opcode_byte, opcode_byte-lt}
use cpplox.Prelude.{
  ℕ, ◌+◌, ◌<◌, ◌≤◌, ◌≡◌, ◌∙◌, refl, ap, true, Bool-cases, Option-cases, none, some, inl, inr, ◌∷◌,
  length, get_elem?, ltb, arith,
}
use cpplox.Result.{Result, ok, err, narrowing_error}
use cpplox.Value.{Double}
use cpplox.Vm.Calls.{Next, continue_at}
use cpplox.Vm.Captures.{Frame, operand}
use cpplox.Vm.Emitted.{
  Extends-refl, IsMapped, emit_narrowed-Pair, pair-length, pair-opcode, pair-operand, pair-token,
  round-fetched,
}
use cpplox.Vm.Instructions.{instruction}
use cpplox.Vm.Operators.{get_local_at}
use cpplox.Vm.Run.{round}
use cpplox.Vm.State.{Vm, Outcome, done, threw, pure, push, ◌>>◌, ◌>>=◌, undefined_behaviour}

module _ {D : Type 0} ⦃d : Double D⦄ (size_of : Object D → ℕ) (clock : ℕ → D) where
  -- A read of the stack index `i`.
  abbrev pub local_read : ℕ → ℕ → Vm D → Outcome D Next
  local_read i ip s = elim (stack_at i s.stack) [
    | some v ↦ done (continue_at ip) (record s { stack = v ∷ s.stack })
    | none ↦ threw undefined_behaviour s
  ]

  -- What `emit<get_local>(index, token)` gives: an exception, or an instruction that reads the local.
  abbrev pub ReadsLocal : ℕ → Frame D → Vm D → Chunk D → Result (Chunk D) → Type 0
  ReadsLocal index frame s c (ok c') =
      (index < 256)
      × (round size_of clock (record frame { chunk = c' }) (length c.bytecode) s
          ≡ local_read (frame.stack_begin_index + index) (length c'.bytecode) s)
  ReadsLocal index frame s c (err e) = (256 ≤ index) × (e ≡ narrowing_error)

  get_local_at-eq :
      (frame : Frame D) (ip index n : ℕ) (s : Vm D)
      → get_elem? frame.chunk.bytecode ip ≡ some index
      → (get_local_at frame ip >> pure (continue_at n)) s
        ≡ local_read (frame.stack_begin_index + index) n s
  unfolding get_local_at operand push
  get_local_at-eq frame ip index n s at_ip =
      elim (Option-cases (stack_at (frame.stack_begin_index + index) s.stack)) [
        | inl e ↦ rw (at_ip, get_local_at, operand, ◌>>◌, ◌>>=◌) (rw (e, local_read) refl)
        | inr (v, e) ↦ rw (at_ip, get_local_at, operand, ◌>>◌, ◌>>=◌) (rw (e, local_read) refl)
      ]

  -- On a chunk with each byte in the source map, `emit<get_local>(index, token)` throws
  -- narrowing_error exactly for an index that does not fit a byte; any other index reaches the
  -- virtual machine as it is: one round of the instruction pushes the value at that index of the
  -- activation's part of the stack and goes on behind the instruction, and is undefined behaviour
  -- only where the stack has no such index.
  pub emit_index-ReadsLocal :
      (index : ℕ) (t : SourceMapToken) (c : Chunk D) (frame : Frame D) (s : Vm D)
      → IsMapped c
      → ReadsLocal index frame s c (emit_index Opcode.get_local index t c)
  unfolding emit_index emit_narrowed narrow8 instruction
  emit_index-ReadsLocal index t c frame s mapped =
      let opcode_fits : ltb (opcode_byte Opcode.get_local) 256 ≡ true =
        ground (arith, opcode_byte-lt Opcode.get_local) in
      elim (Bool-cases (ltb index 256)) [
        | inr e ↦ rw (opcode_fits, e) (ground arith, refl)
        | inl e ↦
            let c' = emit_byte index t (emit_byte (opcode_byte Opcode.get_local) t c) in
            let running = record frame { chunk = c' } in
            let emits : emit_index Opcode.get_local index t c ≡ ok c' =
              rw (opcode_fits, emit_index) (rw e refl) in
            let pair = (emit_narrowed-Pair (opcode_byte Opcode.get_local) index t c emits).0 in
            let extends = Extends-refl c' in
            let reads =
              pair-operand size_of clock Opcode.get_local index t c c' running pair mapped
                extends in
            let next : length c.bytecode + 1 + 1 ≡ length c'.bytecode = omega (
              arith,
              pair-length size_of clock Opcode.get_local index t c c' running pair mapped extends,
            ) in
            rw (opcode_fits, e)
              (
                ground arith,
                round-fetched size_of clock running (length c.bytecode) t Opcode.get_local s
                      (pair-token size_of clock Opcode.get_local index t c c' running pair mapped
                        extends)
                      (pair-opcode size_of clock Opcode.get_local index t c c' running pair mapped
                        extends)
                    ∙ get_local_at-eq running (length c.bytecode + 1) index
                        (length c.bytecode + 1 + 1) s reads
                    ∙ ap (λ n. local_read (frame.stack_begin_index + index) n s) next,
              )
      ]

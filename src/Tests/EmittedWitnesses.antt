-- ===== src/Tests/EmittedWitnesses.antt =====
-- The theorems on emitted instructions at concrete inputs.
use cpplox.Chunk.{
  Chunk, find_constant, insert_constant, emit_byte, emit_constant, emit_dummy, emit_loop, emit_name,
  emit_narrowed, narrow8, narrow16, patch_to_next_opcode, to_next_opcode, write_big_endian,
}
use cpplox.Opcode.{Opcode, opcode_byte}
use cpplox.Prelude.{ℕ, ◌≡◌, ◌⊎◌, refl, true, [], ◌∷◌, arith, size_sub}
use cpplox.Result.{ok}
use cpplox.Tests.Sources.{token, vm_with, codes, whole_numbers}
use cpplox.Value.{Value, value_eq}
use cpplox.Vm.Emitted.Locals.{ReadsLocal, emit_index-ReadsLocal}
use cpplox.Chunk.{emit_index}
use cpplox.Vm.Calls.{continue_at}
use cpplox.Vm.Captures.{Frame}
use cpplox.Vm.Emitted.Globals.{accessed, reads, emit_name-accessed}
use cpplox.Vm.Emitted.Jumps.{if_false, jumped, emit_loop-jumped, to_next_opcode-jumped}
use cpplox.Vm.Emitted.{Extends-refl, emit_constant-Pushes}
use cpplox.Vm.Run.{round}
use cpplox.Vm.State.{Vm, done}
use cpplox.Tests.Sources.{token, vm_with, size, seconds, start}

abbrev chunk_frame : Chunk ℕ → Frame ℕ
chunk_frame c = record { closure_pointer = 0; stack_begin_index = 0; chunk = c }

abbrev reading : Chunk ℕ
reading = record {
  bytecode = 7 ∷ 0 ∷ [];
  constants = Value.string (codes "x") ∷ [];
  source_map_tokens = token ∷ token ∷ [];
}

emit_name-reading :
    emit_name Opcode.get_global
      (codes "x")
      token
      (record { bytecode = []; constants = []; source_map_tokens = [] })
    ≡ ok reading
unfolding emit_name insert_constant find_constant emit_narrowed narrow8 emit_byte opcode_byte
emit_name-reading = refl

emit_name-accessed_example :
    round size seconds (chunk_frame reading) 0 start
    ≡ accessed size seconds reads token (codes "x") 2 start
emit_name-accessed_example =
    emit_name-accessed size seconds reads (codes "x") token
      (record { bytecode = []; constants = []; source_map_tokens = [] }) reading
      (chunk_frame reading) start refl emit_name-reading (Extends-refl reading)

abbrev pushing : Chunk ℕ
pushing = record reading {
  bytecode = 7 ∷ 0 ∷ 0 ∷ 1 ∷ [];
  constants = Value.string (codes "x") ∷ Value.number 3 ∷ [];
  source_map_tokens = token ∷ token ∷ token ∷ token ∷ [];
}

emit_constant-pushing : emit_constant (Value.number 3) token reading ≡ ok pushing
unfolding emit_constant insert_constant find_constant value_eq emit_narrowed narrow8 emit_byte
    opcode_byte
emit_constant-pushing = refl

emit_constant-Pushes_example :
    (w : Value ℕ) × ((value_eq w (Value.number 3) ≡ true) ⊎ (w ≡ Value.number 3))
    × (round size seconds (chunk_frame pushing) 2 start
        ≡ done (continue_at 4) (record start { stack = w ∷ start.stack }))
emit_constant-Pushes_example =
    emit_constant-Pushes size seconds (Value.number 3) token reading pushing (chunk_frame pushing)
      start refl emit_constant-pushing (Extends-refl pushing)

abbrev looping : Chunk ℕ
looping = record reading {
  bytecode = 7 ∷ 0 ∷ 27 ∷ 0 ∷ 5 ∷ [];
  source_map_tokens = token ∷ token ∷ token ∷ token ∷ token ∷ [];
}

emit_loop-looping : emit_loop 0 token reading ≡ ok looping
unfolding emit_loop emit_dummy emit_narrowed narrow8 narrow16 emit_byte opcode_byte write_big_endian
    size_sub
emit_loop-looping = refl

emit_loop-jumped_example :
    round size seconds (chunk_frame looping) 2 start ≡ done (continue_at 0) start
emit_loop-jumped_example =
    emit_loop-jumped size seconds 0 token reading looping (chunk_frame looping) start refl
      (omega arith) emit_loop-looping (Extends-refl looping)

abbrev branching : ℕ → Chunk ℕ
branching distance = record {
  bytecode = 26 ∷ 0 ∷ distance ∷ 1 ∷ [];
  constants = [];
  source_map_tokens = token ∷ token ∷ token ∷ token ∷ [];
}

to_next_opcode-branching : to_next_opcode 3 (branching 0) ≡ ok (branching 1)
unfolding to_next_opcode patch_to_next_opcode narrow16 write_big_endian size_sub
to_next_opcode-branching = refl

abbrev falsey : Vm ℕ
falsey = vm_with (Value.nil ∷ []) []

to_next_opcode-jumped_example :
    round size seconds (chunk_frame (branching 1)) 0 falsey ≡ jumped if_false 3 4 falsey
unfolding opcode_byte
to_next_opcode-jumped_example =
    to_next_opcode-jumped size seconds if_false 3 token (branching 0) (branching 1)
      (chunk_frame (branching 1)) falsey (omega arith) (omega arith) refl refl
      to_next_opcode-branching (Extends-refl (branching 1))

emit_index-ReadsLocal_example :
    ReadsLocal size seconds 1
      (chunk_frame reading)
      start
      reading
      (emit_index Opcode.get_local 1 token reading)
emit_index-ReadsLocal_example =
    emit_index-ReadsLocal size seconds 1 token reading (chunk_frame reading) start refl

-- ===== src/Tests/Witnesses.antt =====
-- Each theorem with hypotheses or arguments at a concrete input.
use cpplox.Chunk.Constants.{Inserted, insert_constant-Inserted}
use cpplox.Chunk.Disassembly.{operands, at_index, make_closure}
use cpplox.Chunk.Jumps.{Patched, patch_to_next_opcode-Patched}
use cpplox.Chunk.Loops.{LoopsBack, emit_loop-LoopsBack}
use cpplox.Chunk.RoundTrip.{
  Appends, Holds, captures_of, emit_name-reads_back, emit_closure-reads_back,
}
use cpplox.Chunk.WellFormed.{
  IsWellFormed, Emission, plain, named, jumps, patches, perform, perform_all,
  perform_all-IsWellFormed,
}
use cpplox.Chunk.{
  Chunk, SourceMapToken, TrackedUpvalue, upvalue_index, upupvalue_index, empty_chunk, narrow8,
  narrow16, write_big_endian, patch_to_next_opcode, to_next_opcode, find_constant, insert_constant,
  emit_byte, emit_narrowed, emit, emit_name, emit_upvalues, emit_closure, emit_dummy, emit_jump,
  emit_loop,
}
use cpplox.Compiler.Capture.{Tracked, track_upvalue_in-Tracked}
use cpplox.Compiler.Declared.{Tracks, track_local-Tracks}
use cpplox.Compiler.Resolution.{Resolved, emit_getter_setter-Resolved}
use cpplox.Compiler.Scopes.{IsScoped, Leaves, compiling, pop_top_scope_depth-Leaves}
use cpplox.Compiler.State.{TrackedLocal, FunctionChunk, Compiler, empty_function_chunk}
use cpplox.Compiler.Variables.{
  emit_getter_setter, track_local, pop_top_scope_depth, track_upvalue_in,
}
use cpplox.Memory.Allocate.{Allocated, make-Allocated}
use cpplox.Memory.Marking.{is_marked, flag_of}
use cpplox.Memory.Sweep.{IsIdle, Collected, collect_garbage-Collected}
use cpplox.Memory.{ControlBlock, GcHeap, find_block, make, collect_garbage}
use cpplox.Opcode.{opcode_byte, nil, get_local, get_upvalue, get_global}
use cpplox.Prelude.{
  ℕ, suc, ◌≡◌, ◌↔◌, refl, true, false, Option, none, some, List, [], ◌∷◌, length, arith, size_sub,
  Bytes,
}
use cpplox.Result.{ok}
use cpplox.Scanner.Correct.{ScanSpec, scan_token-ScanSpec}
use cpplox.Scanner.Keywords.{spelling, keyword_type_iff}
use cpplox.Scanner.{Cursor, scan_token, keyword_type}
use cpplox.Tests.Sources.{codes, whole_numbers}
use cpplox.Token.{TokenType}
use cpplox.Value.{string, function, value_eq}

abbrev cursor : Bytes → Cursor
cursor s = record { token_begin = s; token_end = s; line = 1 }

abbrev source : Bytes
source = codes "// note\n  <= b"

scan_token-ScanSpec_example : ScanSpec source 1 (scan_token (cursor source))
scan_token-ScanSpec_example = scan_token-ScanSpec (cursor source)

keyword_type_iff_example :
    (keyword_type (codes "while") ≡ TokenType.while_)
    ↔ (spelling TokenType.while_ ≡ some (codes "while"))
unfolding spelling
keyword_type_iff_example = keyword_type_iff (codes "while") TokenType.while_ (λ e. cc)

abbrev token : SourceMapToken
token = record { lexeme = codes "x"; line = 1 }

abbrev writing : List (Emission ℕ × SourceMapToken)
writing =
    (named get_global (codes "x"), token)
    ∷ (jumps, token)
    ∷ (plain nil, token)
    ∷ (patches 5, token)
    ∷ []

abbrev written : Chunk ℕ
written = record {
  bytecode = 7 ∷ 0 ∷ 25 ∷ 0 ∷ 1 ∷ 1 ∷ [];
  constants = string (codes "x") ∷ [];
  source_map_tokens = token ∷ token ∷ token ∷ token ∷ token ∷ token ∷ [];
}

perform_all-writing : perform_all writing empty_chunk ≡ ok written
unfolding perform_all perform emit_name emit emit_jump emit_dummy emit_narrowed emit_byte narrow8
    narrow16 insert_constant find_constant opcode_byte to_next_opcode patch_to_next_opcode
    write_big_endian size_sub
perform_all-writing = refl

perform_all-IsWellFormed_example : IsWellFormed written
perform_all-IsWellFormed_example =
    perform_all-IsWellFormed writing empty_chunk
      (record { bytes = tt; mapped = refl; distinct = tt }) perform_all-writing

patch_to_next_opcode-Patched_example :
    Patched 3 (25 ∷ 0 ∷ 0 ∷ 1 ∷ 4 ∷ []) (patch_to_next_opcode 3 (25 ∷ 0 ∷ 0 ∷ 1 ∷ 4 ∷ []))
patch_to_next_opcode-Patched_example =
    patch_to_next_opcode-Patched 3 (25 ∷ 0 ∷ 0 ∷ 1 ∷ 4 ∷ []) (omega arith) (omega arith)

emit_loop-LoopsBack_example : LoopsBack 2 written (emit_loop 2 token written)
emit_loop-LoopsBack_example = emit_loop-LoopsBack 2 token written (omega arith)

insert_constant-Inserted_example :
    Inserted
      (string (codes "x"))
      written
      (insert_constant (string (codes "x")) written).0
      (insert_constant (string (codes "x")) written).1
insert_constant-Inserted_example = insert_constant-Inserted (string (codes "x")) written

abbrev named_chunk : Chunk ℕ
named_chunk = record written {
  bytecode = 7 ∷ 0 ∷ 25 ∷ 0 ∷ 1 ∷ 1 ∷ 7 ∷ 0 ∷ [];
  source_map_tokens = token ∷ token ∷ token ∷ token ∷ token ∷ token ∷ token ∷ token ∷ [];
}

emit_name-written : emit_name get_global (codes "x") token written ≡ ok named_chunk
unfolding emit_name emit_narrowed emit_byte narrow8 insert_constant find_constant opcode_byte
    value_eq
emit_name-written = refl

emit_name-reads_back_example :
    (i : ℕ) × Appends (at_index get_global i) written named_chunk
    × Holds named_chunk i (string (codes "x"))
unfolding operands
emit_name-reads_back_example =
    emit_name-reads_back get_global (codes "x") token written named_chunk refl emit_name-written

abbrev captured : List TrackedUpvalue
captured = upvalue_index 1 ∷ upupvalue_index 0 ∷ []

abbrev closed_chunk : Chunk ℕ
closed_chunk = record {
  bytecode = 31 ∷ 0 ∷ 2 ∷ 1 ∷ 1 ∷ 0 ∷ 0 ∷ [];
  constants = function 4 ∷ [];
  source_map_tokens = token ∷ token ∷ token ∷ token ∷ token ∷ token ∷ token ∷ [];
}

emit_closure-empty : emit_closure 4 captured token empty_chunk ≡ ok closed_chunk
unfolding emit_closure emit_upvalues emit_narrowed emit_byte narrow8 insert_constant find_constant
    opcode_byte
emit_closure-empty = refl

emit_closure-reads_back_example :
    (i : ℕ) × Appends (make_closure i (captures_of captured)) empty_chunk closed_chunk
    × Holds closed_chunk i (function 4)
emit_closure-reads_back_example =
    emit_closure-reads_back 4 captured token empty_chunk closed_chunk emit_closure-empty

-- A block is the list of its pointers. Blocks 0 and 1 refer to one another, and so does 2 to 0.
abbrev three_blocks : GcHeap (List (Option ℕ))
three_blocks = record {
  all_ptrs =
      record { address = 0; marked = false; value = some 1 ∷ none ∷ [] }
      ∷ record { address = 1; marked = false; value = some 0 ∷ [] }
      ∷ record { address = 2; marked = false; value = some 0 ∷ [] }
      ∷ [];
  gray_worklist = [];
  n_allocated_bytes = 7;
  next_address = 3;
}

abbrev pointers : List (Option ℕ) → List (Option ℕ)
pointers ps = ps

abbrev block_size : List (Option ℕ) → ℕ
block_size ps = suc (length ps)

three_blocks-IsIdle : IsIdle block_size three_blocks
unfolding is_marked find_block flag_of
three_blocks-IsIdle = record {
  clean = λ x. ground arith;
  no_grays = refl;
  distinct = (refl, (refl, (refl, tt)));
  accounted = refl;
}

collect_garbage-Collected_example :
    (h' : GcHeap (List (Option ℕ))) × (destroyed : List (ControlBlock (List (Option ℕ))))
    × (collect_garbage pointers block_size (some 1 ∷ []) three_blocks ≡ ok (h', destroyed))
    × Collected pointers block_size (some 1 ∷ []) three_blocks h' destroyed
collect_garbage-Collected_example =
    collect_garbage-Collected pointers block_size (some 1 ∷ []) three_blocks three_blocks-IsIdle

abbrev local : Bytes → ℕ → TrackedLocal
local name depth = record { name = name; depth = depth; initialized = true; is_captured = false }

-- A function with a local `a`, and another `a` in a block of it.
abbrev shadowing : FunctionChunk ℕ
shadowing = record empty_function_chunk {
  tracked_locals = local (codes "a") 2 ∷ local (codes "a") 1 ∷ local (codes "f") 1 ∷ [];
}

-- Two functions within it.
abbrev nested : List (FunctionChunk ℕ)
nested = empty_function_chunk ∷ empty_function_chunk ∷ shadowing ∷ []

track_upvalue_in-Tracked_example : Tracked (codes "a") nested (track_upvalue_in (codes "a") nested)
track_upvalue_in-Tracked_example = track_upvalue_in-Tracked (codes "a") nested

abbrev compiler : Compiler ℕ
compiler = record {
  functions = [];
  token_iter = record {
    cursor = cursor [];
    token = record { type = TokenType.eof; lexeme = []; line = 1 };
  };
  scope_depth = 2;
  function_chunks = [];
}

shadowing-IsScoped : IsScoped 2 shadowing.tracked_locals
shadowing-IsScoped = (
  omega arith,
  (omega arith, (omega arith, tt, tt), (λ _ e. ground arith, tt)),
  (λ e. absurd (omega arith), (λ e. absurd (omega arith), tt)),
)

pop_top_scope_depth-Leaves_example :
    (g : FunctionChunk ℕ) × (pop_top_scope_depth token (compiling compiler shadowing [])
      ≡ ok (tt, compiling (record compiler { scope_depth = 1 }) g []))
    × Leaves 2 shadowing.tracked_locals shadowing g
    × IsScoped 1 g.tracked_locals
pop_top_scope_depth-Leaves_example =
    pop_top_scope_depth-Leaves token compiler shadowing [] (omega arith) shadowing-IsScoped

track_local-Tracks_example :
    Tracks token true compiler shadowing []
      (track_local token true (compiling compiler shadowing []))
track_local-Tracks_example =
    track_local-Tracks token true compiler shadowing [] (omega arith) shadowing-IsScoped

abbrev token_a : SourceMapToken
token_a = record { lexeme = codes "a"; line = 3 }

emit_getter_setter-Resolved_example :
    Resolved get_local get_upvalue get_global token_a compiler empty_function_chunk
      (empty_function_chunk ∷ shadowing ∷ [])
      (emit_getter_setter get_local get_upvalue get_global token_a
        (compiling compiler empty_function_chunk (empty_function_chunk ∷ shadowing ∷ [])))
emit_getter_setter-Resolved_example =
    emit_getter_setter-Resolved get_local get_upvalue get_global token_a compiler
      empty_function_chunk (empty_function_chunk ∷ shadowing ∷ [])

make-Allocated_example :
    Allocated block_size
      (some 2 ∷ [])
      three_blocks
      (make block_size (some 2 ∷ []) three_blocks).0
      (make block_size (some 2 ∷ []) three_blocks).1
make-Allocated_example =
    make-Allocated block_size (some 2 ∷ []) three_blocks three_blocks-IsIdle
      (omega arith, (omega arith, (omega arith, tt)))

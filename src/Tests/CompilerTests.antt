-- ===== src/Tests/CompilerTests.antt =====
-- The compiler on concrete sources: the chunks of the functions, in the order of their completion.
use cpplox.Chunk
use cpplox.Compiler.State
use cpplox.Compiler.Variables
use cpplox.Compiler.Functions
use cpplox.Compiler.Expressions
use cpplox.Compiler.Declarations
use cpplox.Compiler.Statements
use cpplox.Opcode
use cpplox.Value
use cpplox.Scanner
use cpplox.Compiler.Statements.{compile}
use cpplox.Prelude.{ℕ, List, [], ◌∷◌, map, ◌≡◌, refl, Bytes, bytes_eq, size_sub}
use cpplox.Token.{type_eq}
use cpplox.Result.{Result, ok, err, already_declared}
use cpplox.Tests.Sources.{codes, whole_numbers}

chunks_of : Bytes → Result (List (List ℕ))
unfolding Scanner.at Scanner.drop_one Scanner.scan_if_match Scanner.keyword_type
    Scanner.scan_identifier_token Scanner.at_fraction Scanner.skip_fraction
    Scanner.scan_number_token Scanner.string_loop Scanner.close_string Scanner.scan_string_token
    Scanner.scan_operator Scanner.scan_slash Scanner.scan_symbol Scanner.scan_round
    Scanner.scan_loop Scanner.scan_token Scanner.advance Scanner.begin Chunk.narrow8 Chunk.narrow16
    Chunk.write_big_endian Chunk.patch_to_next_opcode Chunk.to_next_opcode Chunk.find_constant
    Chunk.insert_constant Chunk.emit_byte Chunk.emit_narrowed Chunk.emit Chunk.emit_index
    Chunk.emit_call Chunk.emit_upvalues Chunk.emit_dummy Chunk.emit_jump Chunk.emit_jump_if_false
    Chunk.emit_loop Chunk.emit_name Chunk.emit_constant Chunk.emit_closure Opcode.opcode_byte
    Value.value_eq type_eq bytes_eq size_sub State.next State.back State.set_back State.on_chunk
    State.jump_on_chunk State.patch State.bytecode_size State.enter_scope State.ensure_token_is
    State.expect_next State.expect_then_next State.advance_if_match State.begin_function
    State.end_function Variables.find_last_local Variables.find_first_local Variables.set_captured
    Variables.upvalue_eq Variables.find_upvalue Variables.add_upvalue Variables.is_declared
    Variables.capture Variables.track_upvalue_in Variables.track_upvalue Variables.track_local
    Variables.pop_locals Variables.pop_top_scope_depth Variables.emit_found
    Variables.emit_getter_setter Variables.emit_getter Variables.emit_setter
    Functions.trim_quote_marks Functions.peek_properties Functions.emit_op Functions.emit_named
    Functions.emit_default_return Functions.emit_set_properties Functions.emit_assignment
    Functions.compile_parameters Functions.compile_block Functions.compile_function_rest
    Expressions.compile_primary Expressions.compile_arguments Expressions.call_arguments
    Expressions.call_loop Expressions.call_round Expressions.compile_call Expressions.compile_unary
    Expressions.compile_multiplication Expressions.multiplication_loop Expressions.compile_addition
    Expressions.addition_loop Expressions.compile_comparison Expressions.comparison_loop
    Expressions.compile_equality Expressions.equality_loop Expressions.compile_and
    Expressions.and_loop Expressions.compile_or Expressions.or_loop Expressions.compile_target
    Expressions.compile_assignment Declarations.push_placeholder Declarations.pop_placeholder
    Declarations.initialize_last Declarations.define_or Declarations.begin_superclass
    Declarations.end_superclass Declarations.compile_expression_statement Declarations.compile_print
    Declarations.compile_return_value Declarations.compile_return Declarations.compile_methods
    Declarations.compile_class_body Declarations.compile_class Declarations.compile_fun
    Declarations.compile_var Statements.compile_declarations Statements.compile
    Statements.compile_if Statements.for_initializer Statements.for_condition
    Statements.for_increment Statements.compile_for Statements.compile_braces
    Statements.compile_while Statements.compile_statement Statements.compile_declaration
    Scanner.isalpha Scanner.isdigit Scanner.slice Scanner.isalnum Scanner.skip_while
chunks_of source = elim (compile {D = ℕ} 60 source) [
  | ok (_, fs) ↦ ok (map (λ f. f.chunk.bytecode) fs)
  | err e ↦ err e
]

while_loop :
    chunks_of (codes "x = 42; while (x > 0) x = x - 1;")
    ≡ ok (
        (0 ∷ 0 ∷ 9 ∷ 1 ∷ 4 ∷ 7 ∷ 1 ∷ 0 ∷ 2 ∷ 16 ∷ 26 ∷ 0 ∷ 12 ∷ 4 ∷ 7 ∷ 1 ∷ 0 ∷ 3 ∷ 19 ∷ 9 ∷ 1 ∷ 4
          ∷ 27 ∷ 0 ∷ 20 ∷ 4 ∷ [])
        ∷ [])
unfolding chunks_of
while_loop = refl

-- The closure captures local 1, the outer `a`.
shadowed_capture :
    chunks_of (codes "fun f() { var a = 1; { var a = 2; fun g() { return a; } } }")
    ≡ ok (
        (10 ∷ 0 ∷ 33 ∷ 1 ∷ 33 ∷ [])
        ∷ (0 ∷ 0 ∷ 0 ∷ 1 ∷ 31 ∷ 2 ∷ 1 ∷ 1 ∷ 1 ∷ 4 ∷ 4 ∷ 1 ∷ 33 ∷ [])
        ∷ (31 ∷ 0 ∷ 0 ∷ 8 ∷ 1 ∷ [])
        ∷ [])
unfolding chunks_of
shadowed_capture = refl

redeclared : chunks_of (codes "{ var a = 1;\n var a = 2; }") ≡ err (already_declared 2 (codes "a"))
unfolding chunks_of
redeclared = refl

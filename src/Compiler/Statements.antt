-- ===== src/Compiler/Statements.antt =====
-- compile_statement and compile_declaration of src/compiler.cpp, and `compile`. They recur on
-- fuel, which bounds the depth of the calls.
use cpplox.Chunk
use cpplox.Chunk.{Chunk, SourceMapToken}
use cpplox.Compiler.Declarations.{
  compile_expression_statement, compile_print, compile_return, compile_class, compile_fun,
  compile_var,
}
use cpplox.Compiler.Expressions.{compile_assignment}
use cpplox.Compiler.Functions.{emit_op, compile_block}
use cpplox.Compiler.State.{
  M, ◌>>=◌, ◌>>◌, skip, peek, next, on_chunk, jump_on_chunk, patch, bytecode_size, enter_scope,
  expect_next, expect_then_next, advance_if_match, source_map_token, empty_function_chunk,
}
use cpplox.Compiler.Variables.{pop_top_scope_depth}
use cpplox.Opcode.{true_, pop}
use cpplox.Objects.{Function}
use cpplox.Prelude.{ℕ, zero, suc, true, false, List, [], ◌∷◌, ◌++◌, length, Bytes}
use cpplox.Result.{Result, ok, err, out_of_fuel, out_of_range}
use cpplox.Scanner
use cpplox.Token.{TokenType}
use cpplox.Value.{Double}

module _ {D : Type 0} ⦃d : Double D⦄ where
  unfoldable mutual
    pub compile_if : ℕ → M D (Unit {0})
    compile_if zero s = err out_of_fuel
    compile_if (suc n) s =
        (do
          t ← next
          let if_token = source_map_token t
          expect_next TokenType.left_paren
          compile_assignment (compile_declaration n) n
          expect_next TokenType.right_paren
          to_else ← jump_on_chunk (Chunk.emit_jump_if_false if_token)
          emit_op pop if_token
          compile_statement n
          to_end ← jump_on_chunk (Chunk.emit_jump if_token)
          patch to_else
          emit_op pop if_token
          has_else ← advance_if_match TokenType.else_
          elim has_else [ true ↦ compile_statement n | false ↦ skip ]
          patch to_end)
          s

    -- The initializer of a `for`, behind the left parenthesis.
    pub for_initializer : ℕ → M D (Unit {0})
    for_initializer zero s = err out_of_fuel
    for_initializer (suc n) s =
        (do
          none_given ← advance_if_match TokenType.semicolon
          t ← peek
          elim none_given [
            | true ↦ skip
            | false ↦ elim t.type [
              | TokenType.var ↦ compile_declaration n
              | _ ↦ compile_expression_statement (compile_declaration n) n
            ]
          ])
          s

    pub for_condition : ℕ → SourceMapToken → M D (Unit {0})
    for_condition zero for_token s = err out_of_fuel
    for_condition (suc n) for_token s =
        (do
          none_given ← advance_if_match TokenType.semicolon
          elim none_given [
            | true ↦ emit_op true_ for_token
            | false ↦ (do
              compile_assignment (compile_declaration n) n
              expect_next TokenType.semicolon)
          ])
          s

    pub for_increment : ℕ → SourceMapToken → M D (Unit {0})
    for_increment zero for_token s = err out_of_fuel
    for_increment (suc n) for_token s =
        (do
          t ← peek
          elim t.type [
            | TokenType.right_paren ↦ skip
            | _ ↦ (do compile_assignment (compile_declaration n) n; emit_op pop for_token)
          ]
          expect_next TokenType.right_paren)
          s

    pub compile_for : ℕ → M D (Unit {0})
    compile_for zero s = err out_of_fuel
    compile_for (suc n) s =
        (do
          t ← next
          let for_token = source_map_token t
          enter_scope
          expect_next TokenType.left_paren
          for_initializer n
          condition_begin ← bytecode_size
          for_condition n for_token
          to_end ← jump_on_chunk (Chunk.emit_jump_if_false for_token)
          to_body ← jump_on_chunk (Chunk.emit_jump for_token)
          increment_begin ← bytecode_size
          for_increment n for_token
          on_chunk (Chunk.emit_loop condition_begin for_token)
          patch to_body
          emit_op pop for_token
          compile_statement n
          on_chunk (Chunk.emit_loop increment_begin for_token)
          patch to_end
          emit_op pop for_token
          pop_top_scope_depth for_token)
          s

    -- `case Token_type::left_brace`
    pub compile_braces : ℕ → M D (Unit {0})
    compile_braces zero s = err out_of_fuel
    compile_braces (suc n) s =
        (do
          _ ← next
          enter_scope
          compile_block (compile_declaration n) n
          t ← expect_then_next TokenType.right_brace
          pop_top_scope_depth (source_map_token t))
          s

    pub compile_while : ℕ → M D (Unit {0})
    compile_while zero s = err out_of_fuel
    compile_while (suc n) s =
        (do
          t ← next
          let while_token = source_map_token t
          loop_begin ← bytecode_size
          expect_next TokenType.left_paren
          compile_assignment (compile_declaration n) n
          expect_next TokenType.right_paren
          to_end ← jump_on_chunk (Chunk.emit_jump_if_false while_token)
          emit_op pop while_token
          compile_statement n
          on_chunk (Chunk.emit_loop loop_begin while_token)
          patch to_end
          emit_op pop while_token)
          s

    pub compile_statement : ℕ → M D (Unit {0})
    compile_statement zero s = err out_of_fuel
    compile_statement (suc n) s = elim s.token_iter.token.type [
      | TokenType.if_ ↦ compile_if n s
      | TokenType.for_ ↦ compile_for n s
      | TokenType.left_brace ↦ compile_braces n s
      | TokenType.print ↦ compile_print (compile_declaration n) n s
      | TokenType.return_ ↦ compile_return (compile_declaration n) n s
      | TokenType.while_ ↦ compile_while n s
      | _ ↦ compile_expression_statement (compile_declaration n) n s
    ]

    pub compile_declaration : ℕ → M D (Unit {0})
    compile_declaration zero s = err out_of_fuel
    compile_declaration (suc n) s = elim s.token_iter.token.type [
      | TokenType.class_ ↦ compile_class (compile_declaration n) n s
      | TokenType.fun ↦ compile_fun (compile_declaration n) n s
      | TokenType.var ↦ compile_var (compile_declaration n) n s
      | _ ↦ compile_statement n s
    ]

  -- `while (token_iter != token_iter_end)` of Compiler::compile
  unfoldable pub compile_declarations : ℕ → ℕ → M D (Unit {0})
  compile_declarations depth zero s = err out_of_fuel
  compile_declarations depth (suc n) s = elim s.token_iter.token.type [
    | TokenType.eof ↦ ok (tt, s)
    | _ ↦ (compile_declaration depth >> compile_declarations depth n) s
  ]

  -- The address of the root script function, and all functions, that one last.
  unfoldable pub compile : ℕ → Bytes → Result (ℕ × List (Function D))
  unfolding compile_declarations
  compile fuel source = elim (Scanner.begin source) [
    | err e ↦ err e
    | ok it ↦
        elim (compile_declarations fuel fuel (record {
          functions = [];
          token_iter = it;
          scope_depth = 0;
          function_chunks = empty_function_chunk ∷ [];
        })) [
          | err e ↦ err e
          | ok (_, s) ↦ elim s.function_chunks [
            | [] ↦ err out_of_range
            | root ∷ _ ↦ ok (
              length s.functions,
              s.functions ++ record { name = []; arity = 0; chunk = root.chunk } ∷ [],
            )
          ]
        ]
  ]

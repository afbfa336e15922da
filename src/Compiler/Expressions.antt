-- ===== src/Compiler/Expressions.antt =====
-- Expressions: compile_primary_expression to compile_assignment_precedence_expression and
-- compile_function_rest of src/compiler.cpp. A function chunk's body is a list of declarations;
-- `compile_declaration` is the section's parameter.
use cpplox.Chunk
use cpplox.Chunk.{SourceMapToken}
use cpplox.Compiler.Functions.{
  this_token, trim_quote_marks, peek_properties, emit_op, emit_named, emit_assignment,
  compile_function_rest,
}
use cpplox.Compiler.State.{
  M, ◌>>=◌, ◌>>◌, pure, skip, peek, next, on_chunk, jump_on_chunk, patch, expect_next,
  expect_then_next, advance_if_match, begin_function, end_function, source_map_token,
}
use cpplox.Compiler.Variables.{emit_getter}
use cpplox.Opcode.{
  nil, true_, false_, pop, get_property, get_super, equal, greater, less, add, subtract, multiply,
  divide, not_, negate,
}
use cpplox.Prelude.{ℕ, zero, suc, ◌+◌, true, false, none, some, []}
use cpplox.Result.{ok, err, bad_lexical_cast, unexpected_token, out_of_fuel}
use cpplox.Scanner
use cpplox.Scanner.{TokenIterator}
use cpplox.Token.{TokenType}
use cpplox.Value.{Double, number, string}

module _ {D : Type 0} ⦃d : Double D⦄ (compile_declaration : M D (Unit {0})) where
  unfoldable mutual
    pub compile_primary : ℕ → M D (Unit {0})
    compile_primary zero s = err out_of_fuel
    compile_primary (suc n) s = elim s.token_iter.token.type [
      | TokenType.false_ ↦ (next >>= λ t. emit_op false_ (source_map_token t)) s
      | TokenType.fun ↦
          (do
            fun_token ← next
            begin_function false
            param_count ← compile_function_rest compile_declaration n (source_map_token fun_token)
            end_function [] param_count (source_map_token fun_token))
            s
      | TokenType.identifier ↦ (next >>= λ t. emit_getter (source_map_token t)) s
      | TokenType.this_ ↦ (next >>= λ t. emit_getter (source_map_token t)) s
      | TokenType.left_paren ↦
          (do _ ← next; compile_assignment n; expect_next TokenType.right_paren) s
      | TokenType.nil ↦ (next >>= λ t. emit_op nil (source_map_token t)) s
      | TokenType.number ↦ elim (d.parse s.token_iter.token.lexeme) [
        | none ↦ err bad_lexical_cast
        | some x ↦ (next >>= λ t. on_chunk (Chunk.emit_constant (number x) (source_map_token t))) s
      ]
      | TokenType.string ↦
          (next >>= λ t.
          on_chunk (Chunk.emit_constant (string (trim_quote_marks t.lexeme)) (source_map_token t)))
            s
      | TokenType.super ↦
          (do
            super_token ← next
            emit_getter (this_token super_token.line)
            emit_getter (source_map_token super_token)
            expect_next TokenType.dot
            method_name ← expect_then_next TokenType.identifier
            emit_named get_super (source_map_token method_name))
            s
      | TokenType.true_ ↦ (next >>= λ t. emit_op true_ (source_map_token t)) s
      | _ ↦ err (unexpected_token s.token_iter.token.line s.token_iter.token.lexeme)
    ]

    -- The arguments of a call, up to the right parenthesis.
    pub compile_arguments : ℕ → ℕ → M D ℕ
    compile_arguments zero count s = err out_of_fuel
    compile_arguments (suc n) count s =
        (do
          compile_assignment n
          more ← advance_if_match TokenType.comma
          elim more [ true ↦ compile_arguments n (count + 1) | false ↦ pure (count + 1) ])
          s

    -- `if (advance_if_match(Token_type::left_paren))`
    pub call_arguments : ℕ → SourceMapToken → M D (Unit {0})
    call_arguments zero callee s = err out_of_fuel
    call_arguments (suc n) callee s =
        (do
          called ← advance_if_match TokenType.left_paren
          elim called [
            | false ↦ skip
            | true ↦ (do
              empty ← advance_if_match TokenType.right_paren
              arg_count ← elim empty [
                | true ↦ pure 0
                | false ↦
                    (compile_arguments n 0 >>= λ count.
                    expect_next TokenType.right_paren >> pure count)
              ]
              on_chunk (Chunk.emit_call arg_count callee))
          ])
          s

    pub call_loop : ℕ → SourceMapToken → M D (Unit {0})
    call_loop zero callee s = err out_of_fuel
    call_loop (suc n) callee s = elim s.token_iter.token.type [
      | TokenType.left_paren ↦ call_round n callee s
      | TokenType.dot ↦ call_round n callee s
      | _ ↦ ok (tt, s)
    ]

    -- The body of the loop, and the rounds that follow it.
    pub call_round : ℕ → SourceMapToken → M D (Unit {0})
    call_round zero callee s = err out_of_fuel
    call_round (suc n) callee s =
        (do
          call_arguments n callee
          dotted ← advance_if_match TokenType.dot
          elim dotted [
            | false ↦ call_loop n callee
            | true ↦ (do
              property_name ← expect_then_next TokenType.identifier
              emit_named get_property (source_map_token property_name)
              call_loop n (source_map_token property_name))
          ])
          s

    pub compile_call : ℕ → M D (Unit {0})
    compile_call zero s = err out_of_fuel
    compile_call (suc n) s =
        (do callee ← peek; compile_primary n; call_loop n (source_map_token callee)) s

    pub compile_unary : ℕ → M D (Unit {0})
    compile_unary zero s = err out_of_fuel
    compile_unary (suc n) s = elim s.token_iter.token.type [
      | TokenType.minus ↦ (do op ← next; compile_unary n; emit_op negate (source_map_token op)) s
      | TokenType.bang ↦ (do op ← next; compile_unary n; emit_op not_ (source_map_token op)) s
      | _ ↦ compile_call n s
    ]

    pub compile_multiplication : ℕ → M D (Unit {0})
    compile_multiplication zero s = err out_of_fuel
    compile_multiplication (suc n) s = (compile_unary n >> multiplication_loop n) s

    pub multiplication_loop : ℕ → M D (Unit {0})
    multiplication_loop zero s = err out_of_fuel
    multiplication_loop (suc n) s = elim s.token_iter.token.type [
      | TokenType.star ↦
          (do
            op ← next
            compile_unary n
            emit_op multiply (source_map_token op)
            multiplication_loop n)
            s
      | TokenType.slash ↦
          (do
            op ← next
            compile_unary n
            emit_op divide (source_map_token op)
            multiplication_loop n)
            s
      | _ ↦ ok (tt, s)
    ]

    pub compile_addition : ℕ → M D (Unit {0})
    compile_addition zero s = err out_of_fuel
    compile_addition (suc n) s = (compile_multiplication n >> addition_loop n) s

    pub addition_loop : ℕ → M D (Unit {0})
    addition_loop zero s = err out_of_fuel
    addition_loop (suc n) s = elim s.token_iter.token.type [
      | TokenType.plus ↦
          (do
            op ← next
            compile_multiplication n
            emit_op add (source_map_token op)
            addition_loop n)
            s
      | TokenType.minus ↦
          (do
            op ← next
            compile_multiplication n
            emit_op subtract (source_map_token op)
            addition_loop n)
            s
      | _ ↦ ok (tt, s)
    ]

    pub compile_comparison : ℕ → M D (Unit {0})
    compile_comparison zero s = err out_of_fuel
    compile_comparison (suc n) s = (compile_addition n >> comparison_loop n) s

    pub comparison_loop : ℕ → M D (Unit {0})
    comparison_loop zero s = err out_of_fuel
    comparison_loop (suc n) s = elim s.token_iter.token.type [
      | TokenType.less ↦
          (do op ← next; compile_addition n; emit_op less (source_map_token op); comparison_loop n)
            s
      | TokenType.less_equal ↦
          (do
            op ← next
            compile_addition n
            emit_op greater (source_map_token op)
            emit_op not_ (source_map_token op)
            comparison_loop n)
            s
      | TokenType.greater ↦
          (do
            op ← next
            compile_addition n
            emit_op greater (source_map_token op)
            comparison_loop n)
            s
      | TokenType.greater_equal ↦
          (do
            op ← next
            compile_addition n
            emit_op less (source_map_token op)
            emit_op not_ (source_map_token op)
            comparison_loop n)
            s
      | _ ↦ ok (tt, s)
    ]

    pub compile_equality : ℕ → M D (Unit {0})
    compile_equality zero s = err out_of_fuel
    compile_equality (suc n) s = (compile_comparison n >> equality_loop n) s

    pub equality_loop : ℕ → M D (Unit {0})
    equality_loop zero s = err out_of_fuel
    equality_loop (suc n) s = elim s.token_iter.token.type [
      | TokenType.equal_equal ↦
          (do op ← next; compile_comparison n; emit_op equal (source_map_token op); equality_loop n)
            s
      | TokenType.bang_equal ↦
          (do
            op ← next
            compile_comparison n
            emit_op equal (source_map_token op)
            emit_op not_ (source_map_token op)
            equality_loop n)
            s
      | _ ↦ ok (tt, s)
    ]

    pub compile_and : ℕ → M D (Unit {0})
    compile_and zero s = err out_of_fuel
    compile_and (suc n) s = (compile_equality n >> and_loop n) s

    pub and_loop : ℕ → M D (Unit {0})
    and_loop zero s = err out_of_fuel
    and_loop (suc n) s = elim s.token_iter.token.type [
      | TokenType.and_ ↦
          (do
            and_token ← next
            short_circuit ← jump_on_chunk (Chunk.emit_jump_if_false (source_map_token and_token))
            emit_op pop (source_map_token and_token)
            compile_equality n
            patch short_circuit
            and_loop n)
            s
      | _ ↦ ok (tt, s)
    ]

    pub compile_or : ℕ → M D (Unit {0})
    compile_or zero s = err out_of_fuel
    compile_or (suc n) s = (compile_and n >> or_loop n) s

    pub or_loop : ℕ → M D (Unit {0})
    or_loop zero s = err out_of_fuel
    or_loop (suc n) s = elim s.token_iter.token.type [
      | TokenType.or_ ↦
          (do
            or_token ← next
            to_rhs ← jump_on_chunk (Chunk.emit_jump_if_false (source_map_token or_token))
            to_end ← jump_on_chunk (Chunk.emit_jump (source_map_token or_token))
            patch to_rhs
            emit_op pop (source_map_token or_token)
            compile_and n
            patch to_end
            or_loop n)
            s
      | _ ↦ ok (tt, s)
    ]

    -- An identifier or `this` with the properties behind it may be an assignment's target.
    pub compile_target : ℕ → M D (Unit {0})
    compile_target zero s = err out_of_fuel
    compile_target (suc n) s = elim (Scanner.advance s.token_iter) [
      | err e ↦ err e
      | ok ahead ↦ elim (peek_properties n ahead) [
        | err e ↦ err e
        | ok (properties, it) ↦ elim it.token.type [
          | TokenType.equal ↦
              (do
                equal_token ← next
                compile_assignment n
                emit_assignment s.token_iter.token equal_token.line properties)
                (record s { token_iter = it })
          | _ ↦ compile_or n s
        ]
      ]
    ]

    pub compile_assignment : ℕ → M D (Unit {0})
    compile_assignment zero s = err out_of_fuel
    compile_assignment (suc n) s = elim s.token_iter.token.type [
      | TokenType.identifier ↦ compile_target n s
      | TokenType.this_ ↦ compile_target n s
      | _ ↦ compile_or n s
    ]

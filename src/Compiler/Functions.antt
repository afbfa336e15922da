-- ===== src/Compiler/Functions.antt =====
-- Below the expressions of src/compiler.cpp: the opcodes of an assignment, the lookahead over
-- properties, blocks and function bodies. What compiles a declaration is a parameter.
use cpplox.Chunk
use cpplox.Chunk.{SourceMapToken}
use cpplox.Compiler.State.{
  M, ◌>>=◌, ◌>>◌, pure, throw, skip, back, on_chunk, expect_next, expect_then_next,
  advance_if_match, source_map_token,
}
use cpplox.Compiler.Variables.{track_local, emit_getter, emit_setter}
use cpplox.Opcode.{Opcode, nil, get_local, get_property, set_property, return_}
use cpplox.Prelude.{
  ℕ, zero, suc, ◌+◌, ◌-◌, true, false, List, [], ◌∷◌, if◌then◌else◌, Bytes, bytes_eq, length, take,
}
use cpplox.Result.{Result, ok, err, expected_token, invalid_assignment_target, out_of_fuel}
use cpplox.Scanner
use cpplox.Scanner.{TokenIterator}
use cpplox.Token.{Token, TokenType}
use cpplox.Value.{Double}

abbrev pub word_this : Bytes
word_this = b't' ∷ b'h' ∷ b'i' ∷ b's' ∷ []

-- `source_map_token(Token{Token_type::this_, "this", line})`
abbrev pub this_token : ℕ → SourceMapToken
this_token line = record { lexeme = word_this; line = line }

-- `{lexeme.cbegin() + 1, lexeme.cend() - 1}`
unfoldable pub trim_quote_marks : Bytes → Bytes
trim_quote_marks [] = []
trim_quote_marks (_ ∷ cs) = take (length cs - 1) cs

-- The look-ahead of compile_assignment_precedence_expression: the property names behind an
-- identifier, and the iterator behind them.
unfoldable pub peek_properties : ℕ → TokenIterator → Result (List Token × TokenIterator)
peek_properties zero it = err out_of_fuel
peek_properties (suc n) it = elim it.token.type [
  | TokenType.dot ↦ elim (Scanner.advance it) [
    | err e ↦ err e
    | ok name ↦ elim name.token.type [
      | TokenType.identifier ↦ elim (Scanner.advance name) [
        | err e ↦ err e
        | ok behind ↦ elim (peek_properties n behind) [
          | err e ↦ err e
          | ok (names, last) ↦ ok (name.token ∷ names, last)
        ]
      ]
      | _ ↦ err (expected_token name.token.line name.token.lexeme TokenType.identifier)
    ]
  ]
  | _ ↦ ok ([], it)
]

module _ {D : Type 0} ⦃d : Double D⦄ where
  unfoldable pub emit_op : Opcode → SourceMapToken → M D (Unit {0})
  unfolding on_chunk
  emit_op opcode token = on_chunk (Chunk.emit opcode token)

  -- `emit<opcode>(token.lexeme, token)`
  unfoldable pub emit_named : Opcode → SourceMapToken → M D (Unit {0})
  unfolding on_chunk
  emit_named opcode token = on_chunk (Chunk.emit_name opcode token.lexeme token)

  -- The value that a function returns where its source names none.
  unfoldable pub emit_default_return : SourceMapToken → M D (Unit {0})
  unfolding on_chunk emit_op back
  emit_default_return token = do
    f ← back
    if f.is_class_init_method
        then on_chunk (Chunk.emit_index get_local 0 (this_token token.line))
        else emit_op nil token

  -- `get_property` for all names but the last, `set_property` for that one.
  unfoldable pub emit_set_properties : List Token → M D (Unit {0})
  unfolding emit_named
  emit_set_properties [] = skip
  emit_set_properties (t ∷ []) = emit_named set_property (source_map_token t)
  emit_set_properties (t ∷ u ∷ ts) =
      emit_named get_property (source_map_token t) >> emit_set_properties (u ∷ ts)

  -- The end of an assignment, behind its right-hand side.
  unfoldable pub emit_assignment : Token → ℕ → List Token → M D (Unit {0})
  unfolding emit_getter emit_setter emit_set_properties bytes_eq
  emit_assignment variable equal_line [] =
      if bytes_eq variable.lexeme word_this
      then throw (invalid_assignment_target equal_line)
      else emit_setter (source_map_token variable)
  emit_assignment variable equal_line (t ∷ ts) =
      emit_getter (source_map_token variable) >> emit_set_properties (t ∷ ts)

  -- The parameters, up to the right parenthesis; the count grows with each.
  unfoldable pub compile_parameters : ℕ → ℕ → M D ℕ
  unfolding expect_then_next track_local advance_if_match
  compile_parameters zero count s = err out_of_fuel
  compile_parameters (suc n) count s =
      (do
        t ← expect_then_next TokenType.identifier
        track_local (source_map_token t) true
        more ← advance_if_match TokenType.comma
        elim more [ true ↦ compile_parameters n (count + 1) | false ↦ pure (count + 1) ])
        s

  -- `while (token_iter != token_iter_end && token_iter->type != Token_type::right_brace)`
  unfoldable pub compile_block : M D (Unit {0}) → ℕ → M D (Unit {0})
  compile_block compile_declaration zero s = err out_of_fuel
  compile_block compile_declaration (suc n) s = elim s.token_iter.token.type [
    | TokenType.eof ↦ ok (tt, s)
    | TokenType.right_brace ↦ ok (tt, s)
    | _ ↦ (compile_declaration >> compile_block compile_declaration n) s
  ]

  unfoldable pub compile_function_rest : M D (Unit {0}) → ℕ → SourceMapToken → M D ℕ
  unfolding expect_next advance_if_match compile_parameters compile_block emit_default_return
      emit_op
  compile_function_rest compile_declaration n fun_token = do
    expect_next TokenType.left_paren
    empty ← advance_if_match TokenType.right_paren
    param_count ← elim empty [
      | true ↦ pure 0
      | false ↦
          (compile_parameters n 0 >>= λ count. expect_next TokenType.right_paren >> pure count)
    ]
    expect_next TokenType.left_brace
    compile_block compile_declaration n
    expect_next TokenType.right_brace
    emit_default_return fun_token
    emit_op return_ fun_token
    pure param_count

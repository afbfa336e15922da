-- ===== src/Compiler/Declarations.antt =====
-- Expression statements, `print`, `return`, classes, functions and variables, of compile_statement
-- and compile_declaration in src/compiler.cpp. `compile_declaration` is a parameter here.
use cpplox.Chunk
use cpplox.Chunk.{Chunk, SourceMapToken}
use cpplox.Compiler.Expressions.{compile_assignment}
use cpplox.Compiler.Functions.{
  this_token, emit_op, emit_named, emit_default_return, compile_function_rest,
}
use cpplox.Compiler.State.{
  TrackedLocal, M, ◌>>=◌, ◌>>◌, pure, throw, skip, get, peek, next, back, set_back, on_chunk,
  enter_scope, ensure_token_is, expect_next, expect_then_next, advance_if_match, begin_function,
  end_function, source_map_token,
}
use cpplox.Compiler.Variables.{track_local, emit_getter, pop_top_scope_depth}
use cpplox.Opcode.{nil, pop, define_global, print, return_, class_, inherit, method}
use cpplox.Prelude.{
  ℕ, zero, suc, true, false, [], ◌∷◌, if◌then◌else◌, ltb, ◌==◌, Bytes, bytes_eq, length,
}
use cpplox.Result.{
  ok, err, invalid_assignment_target, top_level_return, initializer_return, inherits_from_itself,
  out_of_fuel,
}
use cpplox.Token.{TokenType}
use cpplox.Value.{Double}

abbrev word_super : Bytes
word_super = b's' ∷ b'u' ∷ b'p' ∷ b'e' ∷ b'r' ∷ []

abbrev word_init : Bytes
word_init = b'i' ∷ b'n' ∷ b'i' ∷ b't' ∷ []

abbrev super_token : ℕ → SourceMapToken
super_token line = record { lexeme = word_super; line = line }

-- Tracked_local{}
abbrev placeholder : TrackedLocal
placeholder = record { name = []; depth = 0; initialized = true; is_captured = false }

module _ {D : Type 0} where
  -- `function_chunks.back()->tracked_locals.push_back({})`
  unfoldable pub push_placeholder : M D (Unit {0})
  unfolding back set_back
  push_placeholder = do
    f ← back
    set_back (record f { tracked_locals = placeholder ∷ f.tracked_locals })

  unfoldable pub pop_placeholder : M D (Unit {0})
  unfolding back set_back
  pop_placeholder s = elim s.function_chunks [
    | [] ↦ ok (tt, s)
    | f ∷ fs ↦ elim f.tracked_locals [
      | [] ↦ ok (tt, s)
      | _ ∷ ls ↦ ok (tt, record s { function_chunks = record f { tracked_locals = ls } ∷ fs })
    ]
  ]

  -- `tracked_locals.back().initialized = true`
  unfoldable pub initialize_last : M D (Unit {0})
  initialize_last s = elim s.function_chunks [
    | [] ↦ ok (tt, s)
    | f ∷ fs ↦ elim f.tracked_locals [
      | [] ↦ ok (tt, s)
      | l ∷ ls ↦ ok (
        tt,
        record s {
          function_chunks = record f { tracked_locals = record l { initialized = true } ∷ ls } ∷ fs;
        },
      )
    ]
  ]

module _ {D : Type 0} ⦃d : Double D⦄ where
  -- On the global scope a variable is defined by name.
  unfoldable pub define_or : SourceMapToken → SourceMapToken → M D (Unit {0}) → M D (Unit {0})
  unfolding on_chunk
  define_or name token local s =
      if s.scope_depth == 0
      then on_chunk (Chunk.emit_name define_global name.lexeme token) s
      else local s

  -- The part of a class declaration between its name and its body, where it has a superclass.
  unfoldable pub begin_superclass : SourceMapToken → M D SourceMapToken
  unfolding expect_then_next push_placeholder enter_scope emit_getter track_local emit_op
  begin_superclass class_name = do
    t ← expect_then_next TokenType.identifier
    let superclass_name = source_map_token t
    if bytes_eq superclass_name.lexeme class_name.lexeme
        then throw (inherits_from_itself superclass_name.line)
        else skip
    s ← get
    if s.scope_depth == 0 then push_placeholder else skip
    enter_scope
    emit_getter superclass_name
    track_local (super_token superclass_name.line) true
    emit_op inherit superclass_name
    pure superclass_name

  -- maybe_pop_superclass_scope
  unfoldable pub end_superclass : SourceMapToken → M D (Unit {0})
  unfolding emit_op pop_top_scope_depth pop_placeholder
  end_superclass superclass_name = do
    emit_op pop superclass_name
    pop_top_scope_depth (super_token superclass_name.line)
    s ← get
    if s.scope_depth == 0 then pop_placeholder else skip

module _ {D : Type 0} ⦃d : Double D⦄ (compile_declaration : M D (Unit {0})) where
  -- compile_assignment_precedence_expression
  abbrev expression : ℕ → M D (Unit {0})
  expression n = compile_assignment compile_declaration n

  unfoldable pub compile_expression_statement : ℕ → M D (Unit {0})
  unfolding next ensure_token_is emit_op
  compile_expression_statement n = do
    expression n
    t ← peek
    elim t.type [ TokenType.equal ↦ throw (invalid_assignment_target t.line) | _ ↦ skip ]
    ensure_token_is t TokenType.semicolon
    semicolon ← next
    emit_op pop (source_map_token semicolon)

  unfoldable pub compile_print : ℕ → M D (Unit {0})
  unfolding next expect_next emit_op
  compile_print n = do
    print_token ← next
    expression n
    expect_next TokenType.semicolon
    emit_op print (source_map_token print_token)

  unfoldable pub compile_return_value : ℕ → M D (Unit {0})
  unfolding back expect_next
  compile_return_value n = do
    f ← back
    t ← peek
    if f.is_class_init_method then throw (initializer_return t.line) else skip
    expression n
    expect_next TokenType.semicolon

  unfoldable pub compile_return : ℕ → M D (Unit {0})
  unfolding next advance_if_match emit_default_return compile_return_value emit_op
  compile_return n = do
    s ← get
    if length s.function_chunks == 1 then throw (top_level_return s.token_iter.token.line) else skip
    return_token ← next
    empty ← advance_if_match TokenType.semicolon
    elim empty [
      | true ↦ emit_default_return (source_map_token return_token)
      | false ↦ compile_return_value n
    ]
    emit_op return_ (source_map_token return_token)

  -- The methods of a class, up to the right brace.
  unfoldable pub compile_methods : ℕ → M D (Unit {0})
  unfolding next begin_function track_local compile_function_rest end_function emit_named
  compile_methods zero s = err out_of_fuel
  compile_methods (suc n) s = elim s.token_iter.token.type [
    | TokenType.identifier ↦
        (do
          t ← next
          let method_name = source_map_token t
          begin_function (bytes_eq method_name.lexeme word_init)
          track_local (this_token method_name.line) true
          param_count ← compile_function_rest compile_declaration n method_name
          end_function method_name.lexeme param_count method_name
          emit_named method method_name
          compile_methods n)
          s
    | _ ↦ ok (tt, s)
  ]

  unfoldable pub compile_class_body : ℕ → M D (Unit {0})
  unfolding expect_next compile_methods
  compile_class_body n = do
    expect_next TokenType.left_brace
    compile_methods n
    expect_next TokenType.right_brace

  unfoldable pub compile_class : ℕ → M D (Unit {0})
  unfolding next expect_then_next on_chunk track_local advance_if_match begin_superclass
      compile_class_body end_superclass define_or
  compile_class n = do
    t ← next
    let class_token = source_map_token t
    u ← expect_then_next TokenType.identifier
    let class_name = source_map_token u
    on_chunk (Chunk.emit_name class_ class_name.lexeme class_token)
    s ← get
    if ltb 0 s.scope_depth then track_local class_name true else skip
    inherits ← advance_if_match TokenType.less
    elim inherits [
      | true ↦ (do
        superclass_name ← begin_superclass class_name
        compile_class_body n
        end_superclass superclass_name)
      | false ↦ compile_class_body n
    ]
    define_or class_name class_token skip

  unfoldable pub compile_fun : ℕ → M D (Unit {0})
  unfolding next expect_then_next begin_function track_local compile_function_rest end_function
      define_or
  compile_fun n = do
    t ← next
    let fun_token = source_map_token t
    u ← expect_then_next TokenType.identifier
    let fun_name = source_map_token u
    begin_function false
    track_local fun_name true
    param_count ← compile_function_rest compile_declaration n fun_token
    end_function fun_name.lexeme param_count fun_token
    define_or fun_name fun_token (track_local fun_name true)

  unfoldable pub compile_var : ℕ → M D (Unit {0})
  unfolding next expect_then_next track_local advance_if_match emit_op expect_next define_or
      initialize_last
  compile_var n = do
    t ← next
    let var_token = source_map_token t
    u ← expect_then_next TokenType.identifier
    let variable_name = source_map_token u
    s ← get
    if ltb 0 s.scope_depth then track_local variable_name false else skip
    initialized ← advance_if_match TokenType.equal
    elim initialized [ true ↦ expression n | false ↦ emit_op nil var_token ]
    expect_next TokenType.semicolon
    define_or variable_name var_token initialize_last

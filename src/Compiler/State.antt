-- ===== src/Compiler/State.antt =====
-- The state of struct Compiler in src/compiler.cpp, and its operations as a monad: a value of
-- `M D A` takes the compiler and returns a result with the compiler behind it, or an exception.
use cpplox.Chunk
use cpplox.Chunk.{Chunk, SourceMapToken, TrackedUpvalue, empty_chunk}
use cpplox.Objects.{Function}
use cpplox.Prelude.{
  ℕ, ◌+◌, ◌-◌, Bool, true, false, List, [], ◌∷◌, ◌++◌, length, if◌then◌else◌, Bytes,
}
use cpplox.Result.{Result, ok, err, Error, expected_token, out_of_range}
use cpplox.Scanner
use cpplox.Scanner.{TokenIterator}
use cpplox.Token.{Token, TokenType, type_eq}
use cpplox.Value.{Double}

pub record TrackedLocal : Type 0 where
  pub name : Bytes
  pub depth : ℕ
  pub initialized : Bool
  pub is_captured : Bool

-- The back of tracked_locals stands first, so that the index of a local is the number of those
-- behind it in the list; tracked_upvalues stands in order.
pub record FunctionChunk (D : Type 0) : Type 0 where
  pub chunk : Chunk D
  pub tracked_locals : List TrackedLocal
  pub tracked_upvalues : List TrackedUpvalue
  pub is_class_init_method : Bool

abbrev pub empty_function_chunk : {D : Type 0} → FunctionChunk D
empty_function_chunk = record {
  chunk = empty_chunk;
  tracked_locals = [];
  tracked_upvalues = [];
  is_class_init_method = false;
}

-- `functions` are the functions that `gc_heap.make` was given; the address of one is its index.
-- The back of function_chunks, the function that is being compiled, stands first.
pub record Compiler (D : Type 0) : Type 0 where
  pub functions : List (Function D)
  pub token_iter : TokenIterator
  pub scope_depth : ℕ
  pub function_chunks : List (FunctionChunk D)

abbrev pub M : Type 0 → Type 0 → Type 0
M D A = Compiler D → Result (A × Compiler D)

infixl 5 ◌>>=◌ ◌>>◌
abbrev pub ◌>>=◌ : {D A B : Type 0} → M D A → (A → M D B) → M D B
◌>>=◌ m f s = elim (m s) [ ok (a, s') ↦ f a s' | err e ↦ err e ]

abbrev pub ◌>>◌ : {D B : Type 0} → M D (Unit {0}) → M D B → M D B
m >> k = m >>= λ _. k

abbrev pub pure : {D A : Type 0} → A → M D A
pure a s = ok (a, s)

abbrev pub throw : {D A : Type 0} → Error → M D A
throw e s = err e

abbrev pub skip : {D : Type 0} → M D (Unit {0})
skip s = ok (tt, s)

abbrev pub get : {D : Type 0} → M D (Compiler D)
get s = ok (s, s)

module _ {D : Type 0} where
  -- `*token_iter`
  abbrev pub peek : M D Token
  peek s = ok (s.token_iter.token, s)

  -- `*token_iter++`
  unfoldable pub next : M D Token
  next s = elim (Scanner.advance s.token_iter) [
    | ok it ↦ ok (s.token_iter.token, record s { token_iter = it })
    | err e ↦ err e
  ]

  -- `function_chunks.back()`, which is never empty while something is compiled.
  unfoldable pub back : M D (FunctionChunk D)
  back s = elim s.function_chunks [ [] ↦ err out_of_range | f ∷ _ ↦ ok (f, s) ]

  unfoldable pub set_back : FunctionChunk D → M D (Unit {0})
  set_back f s = elim s.function_chunks [
    | [] ↦ err out_of_range
    | _ ∷ fs ↦ ok (tt, record s { function_chunks = f ∷ fs })
  ]

  -- A call of a method of `function_chunks.back()->chunk`.
  unfoldable pub on_chunk : (Chunk D → Result (Chunk D)) → M D (Unit {0})
  unfolding back set_back
  on_chunk emission = do
    f ← back
    c ← λ s. elim (emission f.chunk) [ ok c ↦ ok (c, s) | err e ↦ err e ]
    set_back (record f { chunk = c })

  -- A jump is emitted: the index that its Jump_backpatch remembers.
  unfoldable pub jump_on_chunk : (Chunk D → Result (ℕ × Chunk D)) → M D ℕ
  unfolding back set_back
  jump_on_chunk emission = do
    f ← back
    (i, c) ← λ s. elim (emission f.chunk) [ ok r ↦ ok (r, s) | err e ↦ err e ]
    set_back (record f { chunk = c })
    pure i

  unfoldable pub patch : ℕ → M D (Unit {0})
  unfolding on_chunk
  patch jump_begin = on_chunk (Chunk.to_next_opcode jump_begin)

  -- `function_chunks.back()->chunk.bytecode().size()`
  unfoldable pub bytecode_size : M D ℕ
  unfolding back
  bytecode_size = do f ← back; pure (length f.chunk.bytecode)

  unfoldable pub enter_scope : M D (Unit {0})
  enter_scope s = ok (tt, record s { scope_depth = s.scope_depth + 1 })

  unfoldable pub ensure_token_is : Token → TokenType → M D (Unit {0})
  unfolding type_eq
  ensure_token_is t expected =
      if type_eq t.type expected then skip else throw (expected_token t.line t.lexeme expected)

  -- `ensure_token_is(*token_iter++, expected)`
  unfoldable pub expect_next : TokenType → M D (Unit {0})
  unfolding next ensure_token_is
  expect_next expected = do t ← next; ensure_token_is t expected

  -- `ensure_token_is(*token_iter, expected)`, then `*token_iter++`
  unfoldable pub expect_then_next : TokenType → M D Token
  unfolding next ensure_token_is
  expect_then_next expected = do t ← peek; ensure_token_is t expected; next

  unfoldable pub advance_if_match : TokenType → M D Bool
  unfolding next type_eq
  advance_if_match type = do
    t ← peek
    if type_eq t.type type then (next >>= λ _. pure true) else pure false

  -- A function chunk is pushed, and its scope is entered.
  unfoldable pub begin_function : Bool → M D (Unit {0})
  begin_function is_init s = ok (
    tt,
    record s {
      scope_depth = s.scope_depth + 1;
      function_chunks =
          record empty_function_chunk { is_class_init_method = is_init } ∷ s.function_chunks;
    },
  )

-- `Source_map_token source_map_token(const Token&)`
abbrev pub source_map_token : Token → SourceMapToken
source_map_token t = record { lexeme = t.lexeme; line = t.line }

module _ {D : Type 0} ⦃d : Double D⦄ where
  -- The enclosing chunk gets the closure of the function that was compiled, and the function's
  -- chunk is popped with its scope.
  unfoldable pub end_function : Bytes → ℕ → SourceMapToken → M D (Unit {0})
  unfolding on_chunk
  end_function name arity token s = elim s.function_chunks [
    | [] ↦ err out_of_range
    | f ∷ fs ↦
        on_chunk (Chunk.emit_closure (length s.functions) f.tracked_upvalues token) (record s {
          functions = s.functions ++ record { name = name; arity = arity; chunk = f.chunk } ∷ [];
          scope_depth = s.scope_depth - 1;
          function_chunks = fs;
        })
  ]

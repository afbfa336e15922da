-- ===== src/Compiler/Variables.antt =====
-- Locals, upvalues and globals: emit_getter_setter, pop_top_scope_depth, track_local and
-- track_upvalue of src/compiler.cpp.
use cpplox.Chunk
use cpplox.Chunk.{SourceMapToken, TrackedUpvalue, upvalue_index, upupvalue_index}
use cpplox.Compiler.State.{
  TrackedLocal, FunctionChunk, M, ◌>>=◌, ◌>>◌, throw, skip, get, back, set_back, on_chunk,
}
use cpplox.Opcode.{
  Opcode, pop, close_upvalue, get_local, set_local, get_upvalue, set_upvalue, get_global,
  set_global,
}
use cpplox.Prelude.{
  ℕ, suc, ◌-◌, ltb, Bool, true, false, not, ◌&&◌, Option, none, some, List, [], ◌∷◌, ◌++◌, length,
  ◌==◌, if◌then◌else◌, Bytes, bytes_eq,
}
use cpplox.Result.{ok, uninitialized_local, already_declared, assertion_failed}
use cpplox.Value.{Double}

-- `--scope_depth`, of an `unsigned int` of 32 bits.
abbrev pub one_less : ℕ → ℕ
one_less depth = if depth == 0 then 4294967295 else depth - 1

-- `std::find_if` from the back of tracked_locals: the index of the local, and the local.
unfoldable pub find_last_local : Bytes → List TrackedLocal → Option (ℕ × TrackedLocal)
unfolding bytes_eq
find_last_local name [] = none
find_last_local name (l ∷ ls) =
    if bytes_eq l.name name then some (length ls, l) else find_last_local name ls

-- `std::find_if` from the front of tracked_locals.
unfoldable pub find_first_local : Bytes → List TrackedLocal → Option ℕ
unfolding bytes_eq
find_first_local name [] = none
find_first_local name (l ∷ ls) = elim (find_first_local name ls) [
  | some i ↦ some i
  | none ↦ if bytes_eq l.name name then some (length ls) else none
]

-- `is_captured = true` for the local at an index.
unfoldable pub set_captured : ℕ → List TrackedLocal → List TrackedLocal
set_captured i [] = []
set_captured i (l ∷ ls) =
    if length ls == i then record l { is_captured = true } ∷ ls else l ∷ set_captured i ls

unfoldable pub upvalue_eq : TrackedUpvalue → TrackedUpvalue → Bool
upvalue_eq (upvalue_index i) (upvalue_index j) = i == j
upvalue_eq (upupvalue_index i) (upupvalue_index j) = i == j
upvalue_eq _ _ = false

unfoldable pub find_upvalue : TrackedUpvalue → List TrackedUpvalue → Option ℕ
unfolding upvalue_eq
find_upvalue u [] = none
find_upvalue u (v ∷ vs) =
    let later = find_upvalue u vs in
    if upvalue_eq v u then some 0 else elim later [ none ↦ none | some i ↦ some (suc i) ]

-- `std::find` in tracked_upvalues, and `push_back` where it finds none.
unfoldable pub add_upvalue : TrackedUpvalue → List TrackedUpvalue → ℕ × List TrackedUpvalue
unfolding find_upvalue
add_upvalue u us = elim (find_upvalue u us) [ some i ↦ (i, us) | none ↦ (length us, us ++ u ∷ []) ]

-- A local of this name at this depth is declared.
unfoldable pub is_declared : ℕ → Bytes → List TrackedLocal → Bool
unfolding bytes_eq
is_declared depth name [] = false
is_declared depth name (l ∷ ls) =
    if l.depth == depth && bytes_eq l.name name then true else is_declared depth name ls

module _ {D : Type 0} where
  unfoldable pub capture : TrackedUpvalue → FunctionChunk D → ℕ × FunctionChunk D
  unfolding add_upvalue
  capture u f =
      let (i, us) = add_upvalue u f.tracked_upvalues in (i, record f { tracked_upvalues = us })

  -- The loops of track_upvalue, on the function chunks from the one that captures outwards. The
  -- search goes out until a function has the local; the function inside it captures it directly,
  -- and on the way back each further one captures the upvalue of the one around it.
  unfoldable pub track_upvalue_in :
      Bytes → List (FunctionChunk D) → Option (ℕ × List (FunctionChunk D))
  unfolding find_first_local set_captured capture
  track_upvalue_in name [] = none
  track_upvalue_in name (f ∷ []) = none
  track_upvalue_in name (f ∷ g ∷ fs) =
      let further = track_upvalue_in name (g ∷ fs) in
      elim (find_first_local name g.tracked_locals) [
        | some local ↦
            let (i, f') = capture (upvalue_index local) f in
            some (i, f' ∷ record g { tracked_locals = set_captured local g.tracked_locals } ∷ fs)
        | none ↦ elim further [
          | none ↦ none
          | some (up, gs) ↦ let (i, f') = capture (upupvalue_index up) f in some (i, f' ∷ gs)
        ]
      ]

  -- The index of the upvalue in the back function's tracked_upvalues; `none` for `cend()`.
  unfoldable pub track_upvalue : Bytes → M D (Option ℕ)
  unfolding track_upvalue_in
  track_upvalue name s = elim (track_upvalue_in name s.function_chunks) [
    | none ↦ ok (none, s)
    | some (i, fs) ↦ ok (some i, record s { function_chunks = fs })
  ]

  unfoldable pub track_local : SourceMapToken → Bool → M D (Unit {0})
  unfolding is_declared back set_back
  track_local token initialized = do
    s ← get
    if ltb 0 s.scope_depth then skip else throw assertion_failed
    f ← back
    if is_declared s.scope_depth token.lexeme f.tracked_locals
        then throw (already_declared token.line token.lexeme)
        else set_back (record f {
          tracked_locals =
              record {
                name = token.lexeme;
                depth = s.scope_depth;
                initialized = initialized;
                is_captured = false;
              }
              ∷ f.tracked_locals;
        })

  -- The loop of pop_top_scope_depth, over tracked_locals from the back.
  unfoldable pub pop_locals : ℕ → SourceMapToken → List TrackedLocal → M D (Unit {0})
  unfolding on_chunk back set_back
  pop_locals depth token [] = skip
  pop_locals depth token (l ∷ ls) =
      let popped : M D (Unit {0}) = do
        on_chunk (Chunk.emit (if l.is_captured then close_upvalue else pop) token)
        f ← back
        set_back (record f { tracked_locals = ls })
        pop_locals depth token ls
      in if l.depth == depth then popped else skip

  unfoldable pub pop_top_scope_depth : SourceMapToken → M D (Unit {0})
  unfolding pop_locals back
  pop_top_scope_depth token = do
    s ← get
    f ← back
    pop_locals s.scope_depth token f.tracked_locals
    λ s'. ok (tt, record s' { scope_depth = one_less s'.scope_depth })

module _ {D : Type 0} ⦃d : Double D⦄ where
  -- The branches of emit_getter_setter, on what the search in tracked_locals found.
  unfoldable pub emit_found :
      Opcode → Opcode → Opcode → SourceMapToken → Option (ℕ × TrackedLocal) → M D (Unit {0})
  unfolding track_upvalue on_chunk
  emit_found local_opcode upvalue_opcode global_opcode token (some (i, local)) =
      if not local.initialized
      then throw (uninitialized_local token.line token.lexeme)
      else on_chunk (Chunk.emit_index local_opcode i token)
  emit_found local_opcode upvalue_opcode global_opcode token none = do
    maybe_upvalue ← track_upvalue token.lexeme
    elim maybe_upvalue [
      | some i ↦ on_chunk (Chunk.emit_index upvalue_opcode i token)
      | none ↦ on_chunk (Chunk.emit_name global_opcode token.lexeme token)
    ]

  unfoldable pub emit_getter_setter : Opcode → Opcode → Opcode → SourceMapToken → M D (Unit {0})
  unfolding find_last_local emit_found back
  emit_getter_setter local_opcode upvalue_opcode global_opcode token = do
    f ← back
    emit_found local_opcode upvalue_opcode global_opcode token
        (find_last_local token.lexeme f.tracked_locals)

  unfoldable pub emit_getter : SourceMapToken → M D (Unit {0})
  unfolding emit_getter_setter
  emit_getter = emit_getter_setter get_local get_upvalue get_global

  unfoldable pub emit_setter : SourceMapToken → M D (Unit {0})
  unfolding emit_getter_setter
  emit_setter = emit_getter_setter set_local set_upvalue set_global

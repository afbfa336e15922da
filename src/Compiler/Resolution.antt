-- ===== src/Compiler/Resolution.antt =====
-- What a name stands for where it is used: emit_getter_setter of src/compiler.cpp.
use cpplox.Chunk
use cpplox.Chunk.{SourceMapToken}
use cpplox.Compiler.Capture.{Tracked, IsFree, track_upvalue_in-Tracked}
use cpplox.Compiler.Named.{HasNone}
use cpplox.Compiler.Scopes.{compiling, bind-eq}
use cpplox.Compiler.State.{TrackedLocal, FunctionChunk, Compiler, on_chunk, back}
use cpplox.Compiler.Variables.{
  find_last_local, track_upvalue, track_upvalue_in, emit_found, emit_getter_setter,
}
use cpplox.Opcode.{Opcode}
use cpplox.Prelude.{
  ℕ, ◌≡◌, ◌≢◌, refl, subst, true, false, Bool-cases, Option-cases, inl, inr, Option, none, some,
  List, [], ◌∷◌, length, Bytes, bytes_eq, bytes_eq_iff,
}
use cpplox.Result.{Result, ok, err, uninitialized_local}
use cpplox.Value.{Double}

-- The local at the index has the name, and no local declared after it has.
pub data IsLast (name : Bytes) : List TrackedLocal → ℕ → TrackedLocal → Type 0 where
  found :
      (l : TrackedLocal) (ls : List TrackedLocal)
      → l.name ≡ name
      → IsLast name (l ∷ ls) (length ls) l
  after :
      (m : TrackedLocal) {ls : List TrackedLocal} {i : ℕ} {l : TrackedLocal}
      → m.name ≢ name
      → IsLast name ls i l
      → IsLast name (m ∷ ls) i l

abbrev LastFound : Bytes → List TrackedLocal → Option (ℕ × TrackedLocal) → Type 0
LastFound name ls none = HasNone name ls
LastFound name ls (some (i, l)) = IsLast name ls i l

find_last_local-LastFound :
    (name : Bytes) (ls : List TrackedLocal) → LastFound name ls (find_last_local name ls)
unfolding find_last_local
find_last_local-LastFound name [] = tt
find_last_local-LastFound name (l ∷ ls) =
    let ih = find_last_local-LastFound name ls in
    elim (Bool-cases (bytes_eq l.name name)) [
      | inl t ↦ rw (t, find_last_local) (found l ls ((bytes_eq_iff l.name name).0 t))
      | inr n ↦
          let differs : l.name ≢ name = λ q. let same = (bytes_eq_iff l.name name).1 q in cc in
          elim (Option-cases (find_last_local name ls)) [
            | inl e ↦ rw (n, find_last_local, e) (differs, subst (LastFound name ls) e ih)
            | inr ((i, m), e) ↦
                rw (n, find_last_local, e) (after l differs (subst (LastFound name ls) e ih))
          ]
    ]

module _ {D : Type 0} (s : Compiler D) (f : FunctionChunk D) (fs : List (FunctionChunk D)) where
  track_upvalue-none :
      (name : Bytes)
      → track_upvalue_in name (f ∷ fs) ≡ none
      → track_upvalue name (compiling s f fs) ≡ ok (none, compiling s f fs)
  unfolding track_upvalue
  track_upvalue-none name e = rw (e, track_upvalue) refl

  track_upvalue-some :
      (name : Bytes) {i : ℕ} {gs : List (FunctionChunk D)}
      → track_upvalue_in name (f ∷ fs) ≡ some (i, gs)
      → track_upvalue name (compiling s f fs) ≡ ok (some i, record s { function_chunks = gs })
  unfolding track_upvalue
  track_upvalue-some name e = rw (e, track_upvalue) refl

module _ {D : Type 0} ⦃d : Double D⦄ (local_opcode upvalue_opcode global_opcode : Opcode)
    (token : SourceMapToken) (s : Compiler D) (f : FunctionChunk D)
    (fs : List (FunctionChunk D)) where
  -- What using the token's name in the function `f` does.
  pub data Resolved (r : Result (Unit {0} × Compiler D)) : Type 0 where
    uninitialized :
        (i : ℕ) (l : TrackedLocal)
        → IsLast token.lexeme f.tracked_locals i l
        → l.initialized ≡ false
        → r ≡ err (uninitialized_local token.line token.lexeme)
        → Resolved r
    local :
        (i : ℕ) (l : TrackedLocal)
        → IsLast token.lexeme f.tracked_locals i l
        → l.initialized ≡ true
        → r ≡ on_chunk (Chunk.emit_index local_opcode i token) (compiling s f fs)
        → Resolved r
    captured :
        (i : ℕ) (gs : List (FunctionChunk D))
        → HasNone token.lexeme f.tracked_locals
        → Tracked token.lexeme (f ∷ fs) (some (i, gs))
        → r ≡ on_chunk (Chunk.emit_index upvalue_opcode i token) (record s { function_chunks = gs })
        → Resolved r
    global :
        HasNone token.lexeme f.tracked_locals
        → IsFree token.lexeme (f ∷ fs)
        → r ≡ on_chunk (Chunk.emit_name global_opcode token.lexeme token) (compiling s f fs)
        → Resolved r

  -- A name stands for the last local so named, of which a use before it is initialized throws, with
  -- the token's line and name; without such a local for the capture that track_upvalue makes; and
  -- for a global when no enclosing function has a local of the name. The instruction has the index
  -- of the local, the index of the upvalue, or the name.
  pub emit_getter_setter-Resolved :
      Resolved
        (emit_getter_setter local_opcode upvalue_opcode global_opcode token (compiling s f fs))
  unfolding emit_getter_setter emit_found back track_upvalue
  emit_getter_setter-Resolved =
      let name = token.lexeme in
      let last = find_last_local-LastFound name f.tracked_locals in
      elim (Option-cases (find_last_local name f.tracked_locals)) [
        | inr ((i, l), e) ↦
            let is_last : IsLast name f.tracked_locals i l =
              subst (LastFound name f.tracked_locals) e last in
            elim (Bool-cases l.initialized) [
              | inl t ↦ local i l is_last t (rw (e, emit_getter_setter, t) refl)
              | inr n ↦ uninitialized i l is_last n (rw (e, emit_getter_setter, n) refl)
            ]
        | inl e ↦
            let has_none : HasNone name f.tracked_locals =
              subst (LastFound name f.tracked_locals) e last in
            let tracked = track_upvalue_in-Tracked name (f ∷ fs) in
            elim (Option-cases (track_upvalue_in name (f ∷ fs))) [
              | inl free ↦ global has_none (subst (Tracked name (f ∷ fs)) free tracked) (
                  rw (e, emit_getter_setter)
                    (bind-eq (track_upvalue name) _ (compiling s f fs)
                      (track_upvalue-none s f fs name free)))
              | inr ((i, gs), at) ↦
                  captured i gs has_none (subst (Tracked name (f ∷ fs)) at tracked) (
                    rw (e, emit_getter_setter)
                      (bind-eq (track_upvalue name) _ (compiling s f fs)
                        (track_upvalue-some s f fs name at)))
            ]
      ]

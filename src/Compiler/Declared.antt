-- ===== src/Compiler/Declared.antt =====
-- Declaring a local: track_local of src/compiler.cpp.
use cpplox.Chunk.{SourceMapToken}
use cpplox.Compiler.Scopes.{Differs, IsScoped, compiling}
use cpplox.Compiler.State.{TrackedLocal, FunctionChunk, Compiler, back, set_back}
use cpplox.Compiler.Variables.{is_declared, track_local}
use cpplox.Prelude.{
  ℕ, suc, ◌≡◌, ◌<◌, ltb, refl, true, false, Bool, Bool-cases, inl, inr, some, List, [], ◌∷◌, All,
  get_elem?, arith, Bytes, ◌==◌, ◌&&◌, bytes_eq, bytes_eq_iff,
}
use cpplox.Result.{Result, ok, err, already_declared}

-- A local of this name at this depth.
abbrev pub Declares : ℕ → Bytes → List TrackedLocal → Type 0
Declares depth name ls =
    (i : ℕ) × (l : TrackedLocal) × (get_elem? ls i ≡ some l) × (l.depth ≡ depth) × (l.name ≡ name)

is_declared-Declares :
    (depth : ℕ) (name : Bytes) (ls : List TrackedLocal)
    → is_declared depth name ls ≡ true
    → Declares depth name ls
unfolding is_declared
is_declared-Declares depth name [] h = cc
is_declared-Declares depth name (l ∷ ls) h =
    elim (Bool-cases (l.depth == depth && bytes_eq l.name name)) [
      | inl t ↦ (0, l, refl, ground arith, (bytes_eq_iff l.name name).0 (ground arith))
      | inr n ↦
          let (i, m, at_i, same_depth, same_name) =
            is_declared-Declares depth name ls (ground arith) in
          (suc i, m, at_i, same_depth, same_name)
    ]

is_declared-Differs :
    (new : TrackedLocal) (ls : List TrackedLocal)
    → is_declared new.depth new.name ls ≡ false
    → All (Differs new) ls
unfolding is_declared
is_declared-Differs new [] h = tt
is_declared-Differs new (l ∷ ls) h = (
  λ same_depth same_name. let same = (bytes_eq_iff l.name new.name).1 same_name in ground arith,
  is_declared-Differs new ls (ground arith),
)

module _ {D : Type 0} where
  -- What track_local gives for a token in the scope that is being compiled.
  abbrev pub Tracks :
      SourceMapToken
      → Bool
      → Compiler D
      → FunctionChunk D
      → List (FunctionChunk D)
      → Result (Unit {0} × Compiler D)
      → Type 0
  Tracks token initialized s f fs (err e) =
      (e ≡ already_declared token.line token.lexeme)
      × Declares s.scope_depth token.lexeme f.tracked_locals
  Tracks token initialized s f fs (ok (_, s')) =
      (l : TrackedLocal) × (l.name ≡ token.lexeme)
      × (l.initialized ≡ initialized)
      × (l.is_captured ≡ false)
      × (s' ≡ compiling s (record f { tracked_locals = l ∷ f.tracked_locals }) fs)
      × IsScoped s.scope_depth (l ∷ f.tracked_locals)

  -- Inside a scope of a function whose locals are in the order of their scopes with no name twice
  -- in one, a new local is put behind them, of the token's name, initialized as asked for and not
  -- captured, and the locals are so again, with nothing else changed; an error is thrown, with the
  -- token's line and name, only for a name that the scope has a local of.
  pub track_local-Tracks :
      (token : SourceMapToken) (initialized : Bool) (s : Compiler D) (f : FunctionChunk D)
      (fs : List (FunctionChunk D))
      → 0 < s.scope_depth
      → IsScoped s.scope_depth f.tracked_locals
      → Tracks token initialized s f fs (track_local token initialized (compiling s f fs))
  unfolding track_local back set_back
  track_local-Tracks token initialized s f fs inside_one w =
      let asserted : ltb 0 s.scope_depth ≡ true = ground arith in
      elim (Bool-cases (is_declared s.scope_depth token.lexeme f.tracked_locals)) [
        | inl t ↦
            rw (asserted, t, track_local)
              (refl, is_declared-Declares s.scope_depth token.lexeme f.tracked_locals t)
        | inr n ↦
            let new : TrackedLocal = record {
              name = token.lexeme;
              depth = s.scope_depth;
              initialized = initialized;
              is_captured = false;
            } in
            rw (asserted, n, track_local)
              (
                new,
                refl,
                refl,
                refl,
                refl,
                (omega arith, w, is_declared-Differs new f.tracked_locals n),
              )
      ]

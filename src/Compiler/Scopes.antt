-- ===== src/Compiler/Scopes.antt =====
-- The locals of a function stand in the order of their scopes, with no name twice in one: what
-- pop_top_scope_depth of src/compiler.cpp does to them.
use cpplox.Chunk.{Chunk, SourceMapToken, emit, emit_byte, emit_narrowed, narrow8}
use cpplox.Compiler.State.{
  TrackedLocal, FunctionChunk, Compiler, M, on_chunk, back, set_back, ◌>>=◌,
}
use cpplox.Compiler.Variables.{one_less, pop_locals, pop_top_scope_depth}
use cpplox.Opcode.{Opcode, opcode_byte, opcode_byte-lt, pop, close_upvalue}
use cpplox.Prelude.{
  ℕ, ◌-◌, ◌≤◌, ◌<◌, ◌≡◌, ◌≢◌, ◌∙◌, refl, ap, sym, subst, true, false, Bool-cases, if_cases, inl,
  inr, List, [], ◌∷◌, ◌++◌, append_assoc, append-nil, All, arith, ◌==◌, if◌then◌else◌, ltb,
}
use cpplox.Result.{Result, ok, err}

-- Another scope, or another name.
abbrev pub Differs : TrackedLocal → TrackedLocal → Type 0
Differs l m = (m.depth ≡ l.depth) → m.name ≢ l.name

-- From the back on no scope is deeper than the one before, and none has a name twice.
abbrev pub IsScoped : ℕ → List TrackedLocal → Type 0
IsScoped depth [] = Unit
IsScoped depth (l ∷ ls) = (l.depth ≤ depth) × IsScoped l.depth ls × All (Differs l) ls

-- The locals of a scope, and those of the scopes around it.
unfoldable pub inside : ℕ → List TrackedLocal → List TrackedLocal
inside depth [] = []
inside depth (l ∷ ls) = if ltb l.depth depth then inside depth ls else l ∷ inside depth ls

unfoldable pub outside : ℕ → List TrackedLocal → List TrackedLocal
outside depth [] = []
outside depth (l ∷ ls) = if ltb l.depth depth then l ∷ outside depth ls else outside depth ls

-- What takes a local off the virtual machine's stack.
unfoldable pub exits : List TrackedLocal → List ℕ
exits [] = []
exits (l ∷ ls) = opcode_byte (if l.is_captured then close_upvalue else pop) ∷ exits ls

IsScoped-le :
    (depth depth' : ℕ) (ls : List TrackedLocal)
    → depth ≤ depth'
    → IsScoped depth ls
    → IsScoped depth' ls
IsScoped-le depth depth' [] h w = tt
IsScoped-le depth depth' (l ∷ ls) h w = (omega arith, w.1, w.2)

-- A scope that is shallower than the one being left has no local of it.
outside-shallow :
    (depth : ℕ) (e : ℕ) (ls : List TrackedLocal)
    → e < depth
    → IsScoped e ls
    → (outside depth ls ≡ ls) × (inside depth ls ≡ [])
unfolding outside inside
outside-shallow depth e [] h w = (refl, refl)
outside-shallow depth e (l ∷ ls) h w =
    let ih = outside-shallow depth l.depth ls (omega arith) w.1 in ground arith

All-outside :
    (P : TrackedLocal → Type 0) (depth : ℕ) (ls : List TrackedLocal)
    → All P ls
    → All P (outside depth ls)
unfolding outside
All-outside P depth [] h = tt
All-outside P depth (l ∷ ls) h =
    if_cases (All P) (ltb l.depth depth) (λ _. (h.0, All-outside P depth ls h.1))
      λ _. All-outside P depth ls h.1

outside-IsScoped :
    (depth : ℕ) (e : ℕ) (ls : List TrackedLocal)
    → IsScoped e ls
    → IsScoped (depth - 1) (outside depth ls)
unfolding outside
outside-IsScoped depth e [] w = tt
outside-IsScoped depth e (l ∷ ls) w =
    if_cases (IsScoped (depth - 1)) (ltb l.depth depth)
      (λ t.
        let (kept, _) = outside-shallow depth l.depth ls (ground arith) w.1 in
        (
          ground arith,
          subst (IsScoped l.depth) (sym kept) w.1,
          All-outside (Differs l) depth ls w.2,
        ))
      λ _. outside-IsScoped depth l.depth ls w.1

module _ {D : Type 0} where
  emit-eq :
      (op : Opcode) (token : SourceMapToken) (c : Chunk D)
      → emit op token c ≡ ok (emit_byte (opcode_byte op) token c)
  unfolding emit emit_narrowed narrow8
  emit-eq op token c = elim (Bool-cases (ltb (opcode_byte op) 256)) [
    | inl e ↦ rw (e, emit, emit_narrowed, narrow8) refl
    | inr n ↦ let small = opcode_byte-lt op in absurd (ground arith)
  ]

  -- The compiler `s` with the function `f` at the back.
  abbrev pub compiling : Compiler D → FunctionChunk D → List (FunctionChunk D) → Compiler D
  compiling s f fs = record s { function_chunks = f ∷ fs }

  on_chunk-eq :
      (emission : Chunk D → Result (Chunk D)) (s : Compiler D) (f : FunctionChunk D)
      (fs : List (FunctionChunk D)) {c : Chunk D}
      → emission f.chunk ≡ ok c
      → on_chunk emission (compiling s f fs) ≡ ok (tt, compiling s (record f { chunk = c }) fs)
  unfolding on_chunk back set_back
  on_chunk-eq emission s f fs e = rw (e, on_chunk) refl

  exit_of : TrackedLocal → SourceMapToken → FunctionChunk D → List TrackedLocal → FunctionChunk D
  exit_of l token f ls = record f {
    chunk = emit_byte (opcode_byte (if l.is_captured then close_upvalue else pop)) token f.chunk;
    tracked_locals = ls;
  }

  pub bind-eq :
      {A B : Type 0} (m : M D A) (f : A → M D B) (s : Compiler D) {a : A} {s' : Compiler D}
      → m s ≡ ok (a, s')
      → (m >>= f) s ≡ f a s'
  bind-eq m f s e = ap (λ r. elim r [ ok (a, t) ↦ f a t | err x ↦ err x ]) e

  pop_locals-step :
      (depth : ℕ) (token : SourceMapToken) (l : TrackedLocal) (ls : List TrackedLocal)
      (s : Compiler D) (f : FunctionChunk D) (fs : List (FunctionChunk D))
      → (l.depth == depth) ≡ true
      → pop_locals depth token (l ∷ ls) (compiling s f fs)
        ≡ pop_locals depth token ls (compiling s (exit_of l token f ls) fs)
  unfolding pop_locals back set_back exit_of
  pop_locals-step depth token l ls s f fs e =
      let op = if l.is_captured then close_upvalue else pop in
      rw (e, pop_locals)
        (bind-eq (on_chunk (emit op token)) _ (compiling s f fs)
          (on_chunk-eq (emit op token) s f fs (emit-eq op token f.chunk)))

  -- What leaving a scope does to the function at the back, whose locals are `ls`.
  pub record Leaves (depth : ℕ) (ls : List TrackedLocal) (f g : FunctionChunk D) : Type 0 where
    pub locals : g.tracked_locals ≡ outside depth ls
    pub code : g.chunk.bytecode ≡ f.chunk.bytecode ++ exits (inside depth ls)
    pub constants : g.chunk.constants ≡ f.chunk.constants
    pub upvalues : g.tracked_upvalues ≡ f.tracked_upvalues

  Leaves-none :
      (depth : ℕ) (ls : List TrackedLocal) (f : FunctionChunk D)
      → f.tracked_locals ≡ outside depth ls
      → inside depth ls ≡ []
      → Leaves depth ls f f
  unfolding exits
  Leaves-none depth ls f h none_inside = record {
    locals = h;
    code = rw (none_inside, exits) (sym (append-nil f.chunk.bytecode));
    constants = refl;
    upvalues = refl;
  }

  Leaves-one :
      (depth : ℕ) (token : SourceMapToken) (l : TrackedLocal) (ls : List TrackedLocal)
      (f g : FunctionChunk D)
      → ltb l.depth depth ≡ false
      → Leaves depth ls (exit_of l token f ls) g
      → Leaves depth (l ∷ ls) f g
  unfolding exits exit_of emit_byte outside inside
  Leaves-one depth token l ls f g n h = record {
    locals = rw (n, outside) h.locals;
    code =
        rw (n, inside, exits)
          (h.code ∙ append_assoc f.chunk.bytecode (_ ∷ []) (exits (inside depth ls)));
    constants = h.constants;
    upvalues = h.upvalues;
  }

  pop_locals-Leaves :
      (depth : ℕ) (token : SourceMapToken) (ls : List TrackedLocal) (s : Compiler D)
      (f : FunctionChunk D) (fs : List (FunctionChunk D))
      → f.tracked_locals ≡ ls
      → IsScoped depth ls
      → (g : FunctionChunk D) × (pop_locals depth token ls (compiling s f fs)
          ≡ ok (tt, compiling s g fs))
        × Leaves depth ls f g
  unfolding pop_locals outside inside exit_of
  pop_locals-Leaves depth token [] s f fs h w = (f, refl, Leaves-none depth [] f h refl)
  pop_locals-Leaves depth token (l ∷ ls) s f fs h w = elim (Bool-cases (l.depth == depth)) [
    | inl e ↦
        let (g, runs, leaves) =
          pop_locals-Leaves depth token ls s (exit_of l token f ls) fs refl
            (IsScoped-le l.depth depth ls w.0 w.1) in
        (
          g,
          pop_locals-step depth token l ls s f fs e ∙ runs,
          Leaves-one depth token l ls f g (ground arith) leaves,
        )
    | inr n ↦
        let (kept, none_inside) =
          outside-shallow depth l.depth (l ∷ ls) (ground arith) (omega arith, w.1, w.2) in
        (f, rw (n, pop_locals) refl, Leaves-none depth (l ∷ ls) f (h ∙ sym kept) none_inside)
  ]

  -- Inside a scope, where the locals stand in the order of their scopes with no name twice in one,
  -- leaving a scope throws nothing and goes one scope out: the locals of the scope are dropped, the
  -- last one first, with one instruction each, which closes a captured local and pops another; the
  -- constants and upvalues of the function and the functions around it stay; and the locals left
  -- are those of the scopes around it, again in order and with no name twice in a scope.
  pub pop_top_scope_depth-Leaves :
      (token : SourceMapToken) (s : Compiler D) (f : FunctionChunk D) (fs : List (FunctionChunk D))
      → 0 < s.scope_depth
      → IsScoped s.scope_depth f.tracked_locals
      → (g : FunctionChunk D) × (pop_top_scope_depth token (compiling s f fs)
          ≡ ok (tt, compiling (record s { scope_depth = s.scope_depth - 1 }) g fs))
        × Leaves s.scope_depth f.tracked_locals f g
        × IsScoped (s.scope_depth - 1) g.tracked_locals
  unfolding pop_top_scope_depth back
  pop_top_scope_depth-Leaves token s f fs inside_one w =
      let (g, runs, leaves) =
        pop_locals-Leaves s.scope_depth token f.tracked_locals s f fs refl w in
      let outer : one_less s.scope_depth ≡ s.scope_depth - 1 = ground arith in
      (
        g,
        bind-eq (pop_locals s.scope_depth token f.tracked_locals) _ (compiling s f fs) runs
            ∙ ap (λ n. ok (tt, compiling (record s { scope_depth = n }) g fs)) outer,
        leaves,
        subst (IsScoped (s.scope_depth - 1)) (sym leaves.locals)
            (outside-IsScoped s.scope_depth s.scope_depth f.tracked_locals w),
      )

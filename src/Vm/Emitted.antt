-- ===== src/Vm/Emitted.antt =====
-- What the writer of src/chunk.cpp emits, as VM::run of src/vm.cpp runs it.
pub mod Globals
pub mod Jumps
pub mod Locals
use cpplox.Chunk.Constants.{Inserted, insert_constant-Inserted}
use cpplox.Chunk.Jumps.{Patched, patch_to_next_opcode-Patched}
use cpplox.Chunk.Loops.{LoopsBack, emit_loop-LoopsBack, emit_dummy-eq, with_dummy}
use cpplox.Chunk.{
  Chunk, SourceMapToken, narrow8, read_big_endian, insert_constant, emit_byte, emit_narrowed,
  emit_name, emit_constant, emit_loop, patch_to_next_opcode, to_next_opcode,
}
use cpplox.Objects.{Object}
use cpplox.Opcode.{Opcode, opcode_byte, byte_opcode-opcode_byte}
use cpplox.Prelude.{
  ℕ, suc, ◌+◌, ◌-◌, ◌<◌, ◌≤◌, ◌≡◌, ◌≢◌, ◌⊎◌, ◌∙◌, refl, sym, ap, subst, true, false, not, Option,
  none, some, List, [], ◌∷◌, ◌++◌, get_elem?, get_elem?-length, get_elem?-append, length,
  length-append, append_assoc, arith, Bytes, bytes_eq, bytes_eq_iff, if◌then◌else◌, inl, inr,
  Option-cases, ltb, Bool-cases,
}
use cpplox.Result.{Result, ok, err, bind-eq-ok, ◌>>=◌}
use cpplox.Table.{lookup, assign}
use cpplox.Value.{Double, Value, value_eq, is_truthy}
use cpplox.Vm.Calls.{Next, continue_at}
use cpplox.Vm.Captures.{Frame, operand, constant_at}
use cpplox.Vm.Instructions.{distance_at, instruction, jump_at, jump_if_false_at, loop_at}
use cpplox.Vm.Keeps.{bind-done, bind-threw}
use cpplox.Vm.Operators
use cpplox.Vm.Run.{round}
use cpplox.Vm.State
use cpplox.Vm.State.{
  Vm, M, Outcome, done, threw, undefined_variable, undefined_behaviour, peek, pop_back, push,
  require, pure, assign_global,
}

get_elem?-second :
    {A : Type 0} (xs : List A) (x y : A) (ys : List A)
    → get_elem? (xs ++ x ∷ y ∷ ys) (length xs + 1) ≡ some y
get_elem?-second [] x y ys = refl
get_elem?-second (z ∷ xs) x y ys =
    let next : length (z ∷ xs) + 1 ≡ suc (length xs + 1) = omega arith in
    rw next (get_elem?-second xs x y ys)

module _ {D : Type 0} where
  -- The second chunk has what the first one has, where it has it: a chunk that more is emitted to.
  pub record Extends (c c' : Chunk D) : Type 0 where
    pub bytes : (i b : ℕ) → get_elem? c.bytecode i ≡ some b → get_elem? c'.bytecode i ≡ some b
    pub tokens :
        (i : ℕ) (t : SourceMapToken)
        → get_elem? c.source_map_tokens i ≡ some t
        → get_elem? c'.source_map_tokens i ≡ some t
    pub constants :
        (i : ℕ) (v : Value D) → get_elem? c.constants i ≡ some v → get_elem? c'.constants i ≡ some v

  pub Extends-refl : (c : Chunk D) → Extends c c
  Extends-refl c = record { bytes = λ i b e. e; tokens = λ i t e. e; constants = λ i v e. e }

  -- A chunk with each byte in the source map.
  abbrev pub IsMapped : Chunk D → Type 0
  IsMapped c = length c.bytecode ≡ length c.source_map_tokens

  -- An opcode of a token with one byte behind it.
  pub record Pair (o b : ℕ) (t : SourceMapToken) (c c' : Chunk D) : Type 0 where
    pub code : c'.bytecode ≡ c.bytecode ++ o ∷ b ∷ []
    pub mapped : c'.source_map_tokens ≡ c.source_map_tokens ++ t ∷ t ∷ []

  emit_narrowed-ok :
      (n : ℕ) (t : SourceMapToken) (c : Chunk D) {c' : Chunk D}
      → emit_narrowed n t c ≡ ok c'
      → c' ≡ emit_byte n t c
  unfolding emit_narrowed narrow8
  emit_narrowed-ok n t c h = ground arith

  emit_narrowed-Pair :
      (o b : ℕ) (t : SourceMapToken) (c : Chunk D) {c' : Chunk D}
      → (emit_narrowed o t c >>= emit_narrowed b t) ≡ ok c'
      → Pair o b t c c' × (c'.constants ≡ c.constants)
  unfolding emit_byte
  emit_narrowed-Pair o b t c {c'} h =
      let (c₁, e₁, e₂) = bind-eq-ok (emit_narrowed o t c) (emit_narrowed b t) h in
      let q₁ = emit_narrowed-ok o t c e₁ in
      let q₂ = emit_narrowed-ok b t c₁ e₂ in
      let q = q₂ ∙ ap (emit_byte b t) q₁ in
      (
        record {
          code = ap (λ k. k.bytecode) q ∙ append_assoc c.bytecode (o ∷ []) (b ∷ []);
          mapped =
              ap (λ k. k.source_map_tokens) q ∙ append_assoc c.source_map_tokens (t ∷ []) (t ∷ []);
        },
        ap (λ k. k.constants) q,
      )

module _ {D : Type 0} ⦃d : Double D⦄ (size_of : Object D → ℕ) (clock : ℕ → D) where
  -- The round at an opcode that stands in the chunk is its instruction.
  pub round-fetched :
      (frame : Frame D) (ip : ℕ) (t : SourceMapToken) (opcode : Opcode) (s : Vm D)
      → get_elem? frame.chunk.source_map_tokens ip ≡ some t
      → get_elem? frame.chunk.bytecode ip ≡ some (opcode_byte opcode)
      → round size_of clock frame ip s ≡ instruction size_of clock frame t opcode (ip + 1) s
  unfolding round operand
  round-fetched frame ip t opcode s at_t at_o =
      rw (at_t, at_o, byte_opcode-opcode_byte opcode, round, operand) refl

  module _ (opcode : Opcode) (b : ℕ) (t : SourceMapToken) (c c' : Chunk D) (frame : Frame D)
      (pair : Pair (opcode_byte opcode) b t c c') (mapped : IsMapped c)
      (extends : Extends c' frame.chunk) where
    pub pair-opcode : get_elem? frame.chunk.bytecode (length c.bytecode) ≡ some (opcode_byte opcode)
    pair-opcode =
        extends.bytes (length c.bytecode) (opcode_byte opcode)
          (rw pair.code (get_elem?-length c.bytecode (opcode_byte opcode) (b ∷ [])))

    pub pair-operand : get_elem? frame.chunk.bytecode (length c.bytecode + 1) ≡ some b
    pair-operand =
        extends.bytes (length c.bytecode + 1) b
          (rw pair.code (get_elem?-second c.bytecode (opcode_byte opcode) b []))

    pub pair-token : get_elem? frame.chunk.source_map_tokens (length c.bytecode) ≡ some t
    pair-token =
        extends.tokens (length c.bytecode) t
          (rw pair.mapped (rw mapped (get_elem?-length c.source_map_tokens t (t ∷ []))))

    pub pair-length : length c'.bytecode ≡ length c.bytecode + 2
    pair-length = rw pair.code (length-append {0} c.bytecode (opcode_byte opcode ∷ b ∷ []))

  -- An instruction with a constant: the index of its operand, and the pair of bytes.
  abbrev pub Constant : Opcode → Value D → SourceMapToken → Chunk D → Chunk D → Type 0
  Constant opcode v t c c' =
      (i : ℕ) × Pair (opcode_byte opcode) i t c c'
      × (w : Value D) × (get_elem? c'.constants i ≡ some w)
      × ((value_eq w v ≡ true) ⊎ (w ≡ v))

  pub emit_narrowed-Constant :
      (opcode : Opcode) (v : Value D) (t : SourceMapToken) (c c' : Chunk D)
      → (emit_narrowed (opcode_byte opcode) t (insert_constant v c).1
          >>= emit_narrowed (insert_constant v c).0 t)
        ≡ ok c'
      → Constant opcode v t c c'
  emit_narrowed-Constant opcode v t c c' h =
      let ins = insert_constant-Inserted v c in
      let (w, at_i, same) = ins.found in
      let (pair, constants) =
        emit_narrowed-Pair (opcode_byte opcode) (insert_constant v c).0 t (insert_constant v c).1
          h in
      (
        (insert_constant v c).0,
        record {
          code =
              pair.code ∙ ap (λ l. l ++ opcode_byte opcode ∷ (insert_constant v c).0 ∷ []) ins.code;
          mapped = pair.mapped ∙ ap (λ l. l ++ t ∷ t ∷ []) ins.tokens;
        },
        w,
        ap (λ l. get_elem? l (insert_constant v c).0) constants ∙ at_i,
        same,
      )

  push_constant-eq :
      (frame : Frame D) (ip i : ℕ) (w : Value D) (s : Vm D)
      → get_elem? frame.chunk.bytecode ip ≡ some i
      → get_elem? frame.chunk.constants i ≡ some w
      → Operators.push_constant frame ip s ≡ done tt (record s { stack = w ∷ s.stack })
  unfolding Operators.push_constant operand constant_at push
  push_constant-eq frame ip i w s at_ip at_i =
      rw (at_ip, Operators.push_constant, operand) (rw (at_i, constant_at) refl)

  -- For the instruction that `emit_constant` writes behind a chunk with each byte in the source
  -- map, wherever the chunk that is run goes on behind it: one round pushes the constant, or one
  -- equal to it, changes nothing else, and goes on behind the instruction.
  pub emit_constant-Pushes :
      (v : Value D) (t : SourceMapToken) (c c' : Chunk D) (frame : Frame D) (s : Vm D)
      → IsMapped c
      → emit_constant v t c ≡ ok c'
      → Extends c' frame.chunk
      → (w : Value D) × ((value_eq w v ≡ true) ⊎ (w ≡ v))
        × (round size_of clock frame (length c.bytecode) s
            ≡ done (continue_at (length c'.bytecode)) (record s { stack = w ∷ s.stack }))
  unfolding emit_constant instruction
  emit_constant-Pushes v t c c' frame s mapped h extends =
      let (i, pair, w, at_i, same) = emit_narrowed-Constant Opcode.constant v t c c' h in
      let fetched =
        round-fetched frame (length c.bytecode) t Opcode.constant s
          (pair-token Opcode.constant i t c c' frame pair mapped extends)
          (pair-opcode Opcode.constant i t c c' frame pair mapped extends) in
      let reads = pair-operand Opcode.constant i t c c' frame pair mapped extends in
      let constant = extends.constants i w at_i in
      let next : length c.bytecode + 1 + 1 ≡ length c'.bytecode =
        omega (arith, pair-length Opcode.constant i t c c' frame pair mapped extends) in
      (
        w,
        same,
        fetched
            ∙ bind-done (Operators.push_constant frame (length c.bytecode + 1)) _ s _ tt
                (push_constant-eq frame (length c.bytecode + 1) i w s reads constant)
            ∙ ap (λ ip. done (continue_at ip) (record s { stack = w ∷ s.stack })) next,
      )

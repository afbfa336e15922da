-- ===== src/Vm/Emitted/Globals.antt =====
-- The instructions on global variables that the writer of src/chunk.cpp emits, as VM::run of
-- src/vm.cpp runs them.
use cpplox.Chunk.{Chunk, SourceMapToken, emit_name}
use cpplox.Objects.{Object}
use cpplox.Opcode.{Opcode}
use cpplox.Prelude.{
  ℕ, ◌+◌, ◌≡◌, ◌⊎◌, ◌∙◌, refl, ap, true, none, some, List, [], ◌∷◌, get_elem?, length, arith, Bytes,
  bytes_eq, bytes_eq_iff, inl, inr, Option-cases,
}
use cpplox.Result.{ok}
use cpplox.Table.{lookup, assign}
use cpplox.Value.{Double, Value, value_eq}
use cpplox.Vm.Calls.{Next, continue_at}
use cpplox.Vm.Captures.{Frame, operand, constant_at}
use cpplox.Vm.Instructions.{instruction}
use cpplox.Vm.Operators
use cpplox.Vm.Run.{round}
use cpplox.Vm.State.{
  ◌>>◌, ◌>>=◌, Vm, Outcome, done, threw, undefined_variable, undefined_behaviour, peek, pop_back,
  push, pure, assign_global,
}
use cpplox.Vm.Emitted.{
  Extends, IsMapped, emit_narrowed-Constant, pair-length, pair-opcode, pair-operand, pair-token,
  round-fetched,
}

pub data Access : Type 0 where
  reads defines assigns : Access

abbrev pub opcode_of : Access → Opcode
opcode_of reads = Opcode.get_global
opcode_of defines = Opcode.define_global
opcode_of assigns = Opcode.set_global

module _ {D : Type 0} ⦃d : Double D⦄ (size_of : Object D → ℕ) (clock : ℕ → D) where
  -- A value equal to a string is the string.
  as_text-eq :
      (w : Value D) (name : Bytes)
      → (value_eq w (Value.string name) ≡ true) ⊎ (w ≡ Value.string name)
      → Operators.as_text w ≡ some name
  unfolding value_eq
  as_text-eq w name (inr e) = rw e refl
  as_text-eq (Value.string text) name (inl e) = ap some ((bytes_eq_iff text name).0 e)
  as_text-eq _ name (inl e) = ground arith

  name_operand-eq :
      (frame : Frame D) (ip i : ℕ) (w : Value D) (name : Bytes) (s : Vm D)
      → get_elem? frame.chunk.bytecode ip ≡ some i
      → get_elem? frame.chunk.constants i ≡ some w
      → Operators.as_text w ≡ some name
      → Operators.name_operand frame ip s ≡ done name s
  unfolding Operators.name_operand operand constant_at
  name_operand-eq frame ip i w name s at_ip at_i is_text =
      rw (at_ip, Operators.name_operand, operand) (rw (at_i, constant_at) (rw is_text refl))

  -- A read of a global variable: its value on the stack, or the error with the token's line.
  abbrev global_read : SourceMapToken → Bytes → ℕ → Vm D → Outcome D Next
  global_read t name ip s = elim (lookup bytes_eq name s.globals) [
    | some v ↦ done (continue_at ip) (record s { stack = v ∷ s.stack })
    | none ↦ threw (undefined_variable t.line name) s
  ]

  -- The definition of a global variable by the value on the stack.
  abbrev global_definition : Bytes → ℕ → Vm D → Outcome D Next
  global_definition name ip s = elim s.stack [
    | v ∷ vs ↦
        done (continue_at ip) (record s { stack = vs; globals = assign bytes_eq name v s.globals })
    | [] ↦ threw undefined_behaviour s
  ]

  abbrev global_top_assignment : Bytes → ℕ → Vm D → Outcome D Next
  global_top_assignment name ip s = elim s.stack [
    | v ∷ vs ↦ done (continue_at ip) (record s { globals = assign bytes_eq name v s.globals })
    | [] ↦ threw undefined_behaviour s
  ]

  -- An assignment to a global variable, which leaves the value on the stack.
  abbrev global_assignment : SourceMapToken → Bytes → ℕ → Vm D → Outcome D Next
  global_assignment t name ip s = elim (lookup bytes_eq name s.globals) [
    | some _ ↦ global_top_assignment name ip s
    | none ↦ threw (undefined_variable t.line name) s
  ]

  abbrev pub accessed : Access → SourceMapToken → Bytes → ℕ → Vm D → Outcome D Next
  accessed reads = global_read
  accessed defines = λ t. global_definition
  accessed assigns = global_assignment

  -- The definition and the assignment by the value on a stack.
  define_top-eq :
      (name : Bytes) (n : ℕ) (s : Vm D) (vs : List (Value D))
      → ((peek 0 >>= λ v. assign_global name v >> pop_back) >> pure (continue_at n))
          (record s { stack = vs })
        ≡ global_definition name n (record s { stack = vs })
  unfolding peek pop_back assign_global
  define_top-eq name n s [] = refl
  define_top-eq name n s (v ∷ vs) = refl

  assign_top-eq :
      (name : Bytes) (n : ℕ) (s : Vm D) (vs : List (Value D))
      → ((peek 0 >>= λ v. assign_global name v) >> pure (continue_at n)) (record s { stack = vs })
        ≡ global_top_assignment name n (record s { stack = vs })
  unfolding peek assign_global
  assign_top-eq name n s [] = refl
  assign_top-eq name n s (v ∷ vs) = refl

  module _ (frame : Frame D) (t : SourceMapToken) (name : Bytes) (ip n : ℕ) (s : Vm D)
      (named : Operators.name_operand frame ip s ≡ done name s) where
    reads-eq :
        (Operators.get_global_at frame t ip >> pure (continue_at n)) s ≡ global_read t name n s
    unfolding Operators.get_global_at push
    reads-eq = elim (Option-cases (lookup bytes_eq name s.globals)) [
      | inl e ↦ rw (named, Operators.get_global_at, ◌>>◌, ◌>>=◌) (rw (e, global_read) refl)
      | inr (v, e) ↦ rw (named, Operators.get_global_at, ◌>>◌, ◌>>=◌) (rw (e, global_read) refl)
    ]

    defines-eq :
        (Operators.define_global_at frame ip >> pure (continue_at n)) s ≡ global_definition name n s
    unfolding Operators.define_global_at
    defines-eq =
        rw (named, Operators.define_global_at, ◌>>◌, ◌>>=◌) (define_top-eq name n s s.stack)

    assigns-eq :
        (Operators.set_global_at frame t ip >> pure (continue_at n)) s
        ≡ global_assignment t name n s
    unfolding Operators.set_global_at
    assigns-eq = elim (Option-cases (lookup bytes_eq name s.globals)) [
      | inl e ↦ rw (named, Operators.set_global_at, ◌>>◌, ◌>>=◌) (rw (e, global_assignment) refl)
      | inr (v, e) ↦
          rw (named, Operators.set_global_at, ◌>>◌, ◌>>=◌)
            (rw (e, global_assignment) (assign_top-eq name n s s.stack))
    ]

  accessed-eq :
      (access : Access) (frame : Frame D) (t : SourceMapToken) (name : Bytes) (ip : ℕ) (s : Vm D)
      → Operators.name_operand frame ip s ≡ done name s
      → instruction size_of clock frame t (opcode_of access) ip s
        ≡ accessed access t name (ip + 1) s
  unfolding instruction
  accessed-eq reads frame t name ip s named = reads-eq frame t name ip (ip + 1) s named
  accessed-eq defines frame t name ip s named = defines-eq frame t name ip (ip + 1) s named
  accessed-eq assigns frame t name ip s named = assigns-eq frame t name ip (ip + 1) s named

  -- For the instruction on a global variable that `emit<opcode>(name, token)` writes behind a chunk
  -- with each byte in the source map, wherever the chunk that is run goes on behind it: one round
  -- reads, defines or assigns the variable of that name and goes on behind the instruction, or
  -- throws that it is undefined, with the line of the token; only where the stack is empty a
  -- definition or an assignment is undefined behaviour.
  pub emit_name-accessed :
      (access : Access) (name : Bytes) (t : SourceMapToken) (c c' : Chunk D) (frame : Frame D)
      (s : Vm D)
      → IsMapped c
      → emit_name (opcode_of access) name t c ≡ ok c'
      → Extends c' frame.chunk
      → round size_of clock frame (length c.bytecode) s
        ≡ accessed access t name (length c'.bytecode) s
  unfolding emit_name
  emit_name-accessed access name t c c' frame s mapped h extends =
      let opcode = opcode_of access in
      let (i, pair, w, at_i, same) =
        emit_narrowed-Constant size_of clock opcode (Value.string name) t c c' h in
      let fetched =
        round-fetched size_of clock frame (length c.bytecode) t opcode s
          (pair-token size_of clock opcode i t c c' frame pair mapped extends)
          (pair-opcode size_of clock opcode i t c c' frame pair mapped extends) in
      let named =
        name_operand-eq frame (length c.bytecode + 1) i w name s
          (pair-operand size_of clock opcode i t c c' frame pair mapped extends)
          (extends.constants i w at_i) (as_text-eq w name same) in
      let next : length c.bytecode + 1 + 1 ≡ length c'.bytecode =
        omega (arith, pair-length size_of clock opcode i t c c' frame pair mapped extends) in
      fetched
      ∙ accessed-eq access frame t name (length c.bytecode + 1) s named
      ∙ ap (λ n. accessed access t name n s) next

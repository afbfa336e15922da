-- ===== src/Vm/Instructions.antt =====
-- The `switch` of VM::run in src/vm.cpp.
use cpplox.Chunk.{SourceMapToken, read_big_endian}
use cpplox.Objects.{Object, a_closure}
use cpplox.Opcode.{Opcode}
use cpplox.Prelude.{ℕ, ◌+◌, ◌-◌, true, false, not, Option, none, some, [], ltb, if◌then◌else◌}
use cpplox.Value.{Double, Value, is_truthy}
use cpplox.Vm.Calls.{Next, continue_at, finished, call_at}
use cpplox.Vm.Captures.{
  Frame, operand, constant_at, close_top, return_from, get_upvalue_at, set_upvalue_at, capture_loop,
}
use cpplox.Vm.Operators
use cpplox.Vm.Properties
use cpplox.Vm.State.{
  M, ◌>>=◌, ◌>>◌, pure, throw, require, undefined_behaviour, bad_variant_access, unexpected_opcode,
  peek, push, pop_back, make,
}

module _ {D : Type 0} where
  abbrev as_function : Value D → Option ℕ
  as_function (Value.function a) = some a
  as_function _ = none

  -- The distance of a jump whose operand is at `ip`.
  unfoldable pub distance_at : Frame D → ℕ → M D ℕ
  unfolding read_big_endian
  distance_at frame ip = require undefined_behaviour (read_big_endian ip frame.chunk.bytecode)

  unfoldable pub jump_at : Frame D → ℕ → M D Next
  unfolding distance_at
  jump_at frame ip = do distance ← distance_at frame ip; pure (continue_at (ip + 2 + distance))

  unfoldable pub jump_if_false_at : Frame D → ℕ → M D Next
  unfolding distance_at peek is_truthy
  jump_if_false_at frame ip = do
    distance ← distance_at frame ip
    v ← peek 0
    pure (continue_at (if not (is_truthy v) then ip + 2 + distance else ip + 2))

  -- A distance to before the begin of the bytecode is undefined.
  unfoldable pub loop_at : Frame D → ℕ → M D Next
  unfolding distance_at
  loop_at frame ip = do
    distance ← distance_at frame ip
    if ltb (ip + 2) distance
        then throw undefined_behaviour
        else pure (continue_at (ip + 2 - distance))

  unfoldable pub get_upvalue_operand : Frame D → ℕ → M D (Unit {0})
  unfolding operand get_upvalue_at push
  get_upvalue_operand frame ip = do i ← operand frame ip; v ← get_upvalue_at frame i; push v

  unfoldable pub set_upvalue_operand : Frame D → ℕ → M D (Unit {0})
  unfolding operand peek set_upvalue_at
  set_upvalue_operand frame ip = do i ← operand frame ip; v ← peek 0; set_upvalue_at frame i v

module _ {D : Type 0} (size_of : Object D → ℕ) where
  unfoldable pub closure_at_operand : Frame D → ℕ → M D Next
  unfolding operand constant_at make push capture_loop
  closure_at_operand frame ip = do
    i ← operand frame ip
    v ← constant_at frame i
    function ← require bad_variant_access (as_function v)
    a ←
        make size_of
          (a_closure (record { function_pointer = function; upvalues = []; open_upvalues = [] }))
    push (Value.closure a)
    n_upvalues ← operand frame (ip + 1)
    ip' ← capture_loop size_of frame a n_upvalues (ip + 2)
    pure (continue_at ip')

module _ {D : Type 0} ⦃d : Double D⦄ (size_of : Object D → ℕ) (clock : ℕ → D) where
  -- The instruction of an opcode, whose operands begin at `ip`.
  unfoldable pub instruction : Frame D → SourceMapToken → Opcode → ℕ → M D Next
  unfolding push pop_back call_at Properties.class_at_operand close_top closure_at_operand jump_at
      jump_if_false_at loop_at get_upvalue_operand set_upvalue_operand return_from Operators.add_top
      Operators.binary_numbers Operators.push_constant Operators.equal_top
      Operators.define_global_at Operators.get_global_at Operators.set_global_at
      Operators.get_local_at Operators.set_local_at Operators.negate_top Operators.not_top
      Operators.print_top Properties.get_property_at Properties.set_property_at
      Properties.get_super_at Properties.inherit_top Properties.method_at
  instruction frame token Opcode.add ip = Operators.add_top size_of token >> pure (continue_at ip)
  instruction frame token Opcode.call ip = call_at size_of clock frame token ip
  instruction frame token Opcode.class_ ip =
      Properties.class_at_operand size_of frame ip >> pure (continue_at (ip + 1))
  instruction frame token Opcode.close_upvalue ip = close_top frame >> pure (continue_at ip)
  instruction frame token Opcode.closure ip = closure_at_operand size_of frame ip
  instruction frame token Opcode.constant ip =
      Operators.push_constant frame ip >> pure (continue_at (ip + 1))
  instruction frame token Opcode.divide ip =
      Operators.binary_numbers (λ x y. Value.number (d.divide x y)) token >> pure (continue_at ip)
  instruction frame token Opcode.equal ip = Operators.equal_top >> pure (continue_at ip)
  instruction frame token Opcode.false_ ip = push (Value.boolean false) >> pure (continue_at ip)
  instruction frame token Opcode.define_global ip =
      Operators.define_global_at frame ip >> pure (continue_at (ip + 1))
  instruction frame token Opcode.get_global ip =
      Operators.get_global_at frame token ip >> pure (continue_at (ip + 1))
  instruction frame token Opcode.get_local ip =
      Operators.get_local_at frame ip >> pure (continue_at (ip + 1))
  instruction frame token Opcode.get_property ip =
      Properties.get_property_at size_of frame token ip >> pure (continue_at (ip + 1))
  instruction frame token Opcode.get_super ip =
      Properties.get_super_at size_of frame token ip >> pure (continue_at (ip + 1))
  instruction frame token Opcode.get_upvalue ip =
      get_upvalue_operand frame ip >> pure (continue_at (ip + 1))
  instruction frame token Opcode.greater ip =
      Operators.binary_numbers (λ x y. Value.boolean (d.less y x)) token >> pure (continue_at ip)
  instruction frame token Opcode.inherit ip = Properties.inherit_top token >> pure (continue_at ip)
  instruction frame token Opcode.jump ip = jump_at frame ip
  instruction frame token Opcode.jump_if_false ip = jump_if_false_at frame ip
  instruction frame token Opcode.loop ip = loop_at frame ip
  instruction frame token Opcode.less ip =
      Operators.binary_numbers (λ x y. Value.boolean (d.less x y)) token >> pure (continue_at ip)
  instruction frame token Opcode.method ip =
      Properties.method_at frame ip >> pure (continue_at (ip + 1))
  instruction frame token Opcode.multiply ip =
      Operators.binary_numbers (λ x y. Value.number (d.multiply x y)) token >> pure (continue_at ip)
  instruction frame token Opcode.negate ip = Operators.negate_top token >> pure (continue_at ip)
  instruction frame token Opcode.nil ip = push Value.nil >> pure (continue_at ip)
  instruction frame token Opcode.not_ ip = Operators.not_top >> pure (continue_at ip)
  instruction frame token Opcode.pop ip = pop_back >> pure (continue_at ip)
  instruction frame token Opcode.print ip = Operators.print_top >> pure (continue_at ip)
  instruction frame token Opcode.return_ ip = return_from frame >> pure finished
  instruction frame token Opcode.set_global ip =
      Operators.set_global_at frame token ip >> pure (continue_at (ip + 1))
  instruction frame token Opcode.set_local ip =
      Operators.set_local_at frame ip >> pure (continue_at (ip + 1))
  instruction frame token Opcode.set_property ip =
      Properties.set_property_at frame token ip >> pure (continue_at (ip + 1))
  instruction frame token Opcode.set_upvalue ip =
      set_upvalue_operand frame ip >> pure (continue_at (ip + 1))
  instruction frame token Opcode.subtract ip =
      Operators.binary_numbers (λ x y. Value.number (d.subtract x y)) token >> pure (continue_at ip)
  instruction frame token Opcode.true_ ip = push (Value.boolean true) >> pure (continue_at ip)
  instruction frame token Opcode.invoke ip = throw (unexpected_opcode token.line token.lexeme 29)
  instruction frame token Opcode.super_invoke ip =
      throw (unexpected_opcode token.line token.lexeme 30)

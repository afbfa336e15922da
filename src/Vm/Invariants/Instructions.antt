-- ===== src/Vm/Invariants/Instructions.antt =====
-- The switch of VM::run keeps what every change of a single field keeps.
use cpplox.Chunk.{SourceMapToken}
use cpplox.Objects.{Object}
use cpplox.Opcode.{Opcode}
use cpplox.Prelude.{ℕ, true, false}
use cpplox.Value.{Double, Value}
use cpplox.Vm.Actions.{IsKept, Keeps-pop_back, Keeps-push, kept_rules}
use cpplox.Vm.Calls.{continue_at}
use cpplox.Vm.Captures.{Frame}
use cpplox.Vm.Instructions
use cpplox.Vm.Invariants.Calls.{
  Keeps-call_at, Keeps-class_at_operand, Keeps-get_property_at, Keeps-get_super_at,
  Keeps-inherit_top, Keeps-method_at, Keeps-set_property_at,
}
use cpplox.Vm.Invariants.Captures.{
  Keeps-capture_loop, Keeps-close_top, Keeps-get_upvalue_at, Keeps-return_from,
  Keeps-set_upvalue_at,
}
use cpplox.Vm.Invariants.Operators.{
  Keeps-add_top, Keeps-binary_numbers, Keeps-define_global_at, Keeps-equal_top, Keeps-get_global_at,
  Keeps-get_local_at, Keeps-negate_top, Keeps-not_top, Keeps-print_top, Keeps-push_constant,
  Keeps-set_global_at, Keeps-set_local_at,
}
use cpplox.Vm.Keeps.{Property, Keeps, Keeps-bind, Keeps-pure, Keeps-throw}
use cpplox.Vm.Run.{round}
use cpplox.Vm.State.{M, ◌>>◌, pure, push}

module _ {D : Type 0} ⦃d : Double D⦄ (size_of : Object D → ℕ) (clock : ℕ → D) {P : Property D}
    (kept : IsKept size_of P) where
  Keeps-jump_at : (frame : Frame D) (ip : ℕ) → Keeps P (Instructions.jump_at frame ip)
  unfolding Instructions.jump_at
  Keeps-jump_at frame ip = search (kept_rules) depth 20

  Keeps-jump_if_false_at :
      (frame : Frame D) (ip : ℕ) → Keeps P (Instructions.jump_if_false_at frame ip)
  unfolding Instructions.jump_if_false_at
  Keeps-jump_if_false_at frame ip = search (kept_rules) depth 20

  Keeps-loop_at : (frame : Frame D) (ip : ℕ) → Keeps P (Instructions.loop_at frame ip)
  unfolding Instructions.loop_at
  Keeps-loop_at frame ip = search (kept_rules) depth 20

  Keeps-get_upvalue_operand :
      (frame : Frame D) (ip : ℕ) → Keeps P (Instructions.get_upvalue_operand frame ip)
  unfolding Instructions.get_upvalue_operand
  Keeps-get_upvalue_operand frame ip = search (kept_rules, Keeps-get_upvalue_at) depth 20

  Keeps-set_upvalue_operand :
      (frame : Frame D) (ip : ℕ) → Keeps P (Instructions.set_upvalue_operand frame ip)
  unfolding Instructions.set_upvalue_operand
  Keeps-set_upvalue_operand frame ip = search (kept_rules, Keeps-set_upvalue_at) depth 20

  Keeps-closure_at_operand :
      (frame : Frame D) (ip : ℕ) → Keeps P (Instructions.closure_at_operand size_of frame ip)
  unfolding Instructions.closure_at_operand
  Keeps-closure_at_operand frame ip = search (kept_rules, Keeps-capture_loop) depth 20

  Keeps-then : {A : Type 0} (m : M D (Unit {0})) (a : A) → Keeps P m → Keeps P (m >> pure a)
  Keeps-then m a km = Keeps-bind m _ km λ _. Keeps-pure a

  pub Keeps-instruction :
      (frame : Frame D) (token : SourceMapToken) (opcode : Opcode) (ip : ℕ)
      → Keeps P (Instructions.instruction size_of clock frame token opcode ip)
  unfolding Instructions.instruction
  Keeps-instruction frame token Opcode.add ip =
      Keeps-then _ _ (Keeps-add_top size_of clock kept token)
  Keeps-instruction frame token Opcode.call ip = Keeps-call_at size_of clock kept frame token ip
  Keeps-instruction frame token Opcode.class_ ip =
      Keeps-then _ _ (Keeps-class_at_operand size_of clock kept frame ip)
  Keeps-instruction frame token Opcode.close_upvalue ip =
      Keeps-then _ _ (Keeps-close_top size_of clock kept frame)
  Keeps-instruction frame token Opcode.closure ip = Keeps-closure_at_operand frame ip
  Keeps-instruction frame token Opcode.constant ip =
      Keeps-then _ _ (Keeps-push_constant size_of clock kept frame ip)
  Keeps-instruction frame token Opcode.divide ip =
      Keeps-then _ _ (Keeps-binary_numbers size_of clock kept _ token)
  Keeps-instruction frame token Opcode.equal ip =
      Keeps-then _ _ (Keeps-equal_top size_of clock kept)
  Keeps-instruction frame token Opcode.false_ ip =
      Keeps-then (push (Value.boolean false)) (continue_at ip)
        (Keeps-push kept (Value.boolean false))
  Keeps-instruction frame token Opcode.define_global ip =
      Keeps-then _ _ (Keeps-define_global_at size_of clock kept frame ip)
  Keeps-instruction frame token Opcode.get_global ip =
      Keeps-then _ _ (Keeps-get_global_at size_of clock kept frame token ip)
  Keeps-instruction frame token Opcode.get_local ip =
      Keeps-then _ _ (Keeps-get_local_at size_of clock kept frame ip)
  Keeps-instruction frame token Opcode.get_property ip =
      Keeps-then _ _ (Keeps-get_property_at size_of clock kept frame token ip)
  Keeps-instruction frame token Opcode.get_super ip =
      Keeps-then _ _ (Keeps-get_super_at size_of clock kept frame token ip)
  Keeps-instruction frame token Opcode.get_upvalue ip =
      Keeps-then _ _ (Keeps-get_upvalue_operand frame ip)
  Keeps-instruction frame token Opcode.greater ip =
      Keeps-then _ _ (Keeps-binary_numbers size_of clock kept _ token)
  Keeps-instruction frame token Opcode.inherit ip =
      Keeps-then _ _ (Keeps-inherit_top size_of clock kept token)
  Keeps-instruction frame token Opcode.jump ip = Keeps-jump_at frame ip
  Keeps-instruction frame token Opcode.jump_if_false ip = Keeps-jump_if_false_at frame ip
  Keeps-instruction frame token Opcode.loop ip = Keeps-loop_at frame ip
  Keeps-instruction frame token Opcode.less ip =
      Keeps-then _ _ (Keeps-binary_numbers size_of clock kept _ token)
  Keeps-instruction frame token Opcode.method ip =
      Keeps-then _ _ (Keeps-method_at size_of clock kept frame ip)
  Keeps-instruction frame token Opcode.multiply ip =
      Keeps-then _ _ (Keeps-binary_numbers size_of clock kept _ token)
  Keeps-instruction frame token Opcode.negate ip =
      Keeps-then _ _ (Keeps-negate_top size_of clock kept token)
  Keeps-instruction frame token Opcode.nil ip =
      Keeps-then (push Value.nil) (continue_at ip) (Keeps-push kept Value.nil)
  Keeps-instruction frame token Opcode.not_ ip = Keeps-then _ _ (Keeps-not_top size_of clock kept)
  Keeps-instruction frame token Opcode.pop ip = Keeps-then _ _ (Keeps-pop_back kept)
  Keeps-instruction frame token Opcode.print ip =
      Keeps-then _ _ (Keeps-print_top size_of clock kept)
  Keeps-instruction frame token Opcode.return_ ip =
      Keeps-then _ _ (Keeps-return_from size_of clock kept frame)
  Keeps-instruction frame token Opcode.set_global ip =
      Keeps-then _ _ (Keeps-set_global_at size_of clock kept frame token ip)
  Keeps-instruction frame token Opcode.set_local ip =
      Keeps-then _ _ (Keeps-set_local_at size_of clock kept frame ip)
  Keeps-instruction frame token Opcode.set_property ip =
      Keeps-then _ _ (Keeps-set_property_at size_of clock kept frame token ip)
  Keeps-instruction frame token Opcode.set_upvalue ip =
      Keeps-then _ _ (Keeps-set_upvalue_operand frame ip)
  Keeps-instruction frame token Opcode.subtract ip =
      Keeps-then _ _ (Keeps-binary_numbers size_of clock kept _ token)
  Keeps-instruction frame token Opcode.true_ ip =
      Keeps-then (push (Value.boolean true)) (continue_at ip) (Keeps-push kept (Value.boolean true))
  Keeps-instruction frame token Opcode.invoke ip = Keeps-throw _
  Keeps-instruction frame token Opcode.super_invoke ip = Keeps-throw _

  pub Keeps-round : (frame : Frame D) (ip : ℕ) → Keeps P (round size_of clock frame ip)
  unfolding round
  Keeps-round frame ip = search (kept_rules, Keeps-instruction) depth 20

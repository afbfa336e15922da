-- ===== src/Vm/Operators.antt =====
-- The operators and the variables of VM::run in src/vm.cpp.
use cpplox.Chunk.{SourceMapToken}
use cpplox.Objects.{Object, stack_at}
use cpplox.Prelude.{ℕ, ◌+◌, not, Option, none, some, [], ◌∷◌, ◌++◌, Bytes, bytes_eq}
use cpplox.Table.{lookup}
use cpplox.Value.{Double, Value, value_eq, is_truthy}
use cpplox.Vm.Captures.{Frame, operand, constant_at}
use cpplox.Vm.Print.{show_value}
use cpplox.Vm.State.{
  M, ◌>>=◌, ◌>>◌, throw, get, require, bad_variant_access, undefined_behaviour,
  not_two_numbers_or_strings, not_numbers, not_a_number, undefined_variable, peek, push, pop_back,
  erase_back, intern, store, write, assign_global,
}

module _ {D : Type 0} where
  abbrev pub as_number : Value D → Option D
  as_number (Value.number x) = some x
  as_number _ = none

  abbrev pub as_text : Value D → Option Bytes
  as_text (Value.string s) = some s
  as_text _ = none

  -- An operator on two numbers.
  unfoldable pub binary_numbers : (D → D → Value D) → SourceMapToken → M D (Unit {0})
  unfolding peek erase_back push
  binary_numbers f token = do
    rhs ← peek 0
    lhs ← peek 1
    y ← require (not_numbers token.line token.lexeme) (as_number rhs)
    x ← require (not_numbers token.line token.lexeme) (as_number lhs)
    erase_back 2
    push (f x y)

  unfoldable pub negate_top : ⦃d : Double D⦄ → SourceMapToken → M D (Unit {0})
  unfolding peek pop_back push
  negate_top ⦃d⦄ token = do
    v ← peek 0
    x ← require (not_a_number token.line token.lexeme) (as_number v)
    pop_back
    push (Value.number (d.negate x))

  unfoldable pub not_top : M D (Unit {0})
  unfolding peek pop_back push is_truthy
  not_top = do v ← peek 0; pop_back; push (Value.boolean (not (is_truthy v)))

  unfoldable pub equal_top : ⦃d : Double D⦄ → M D (Unit {0})
  unfolding peek erase_back push value_eq
  equal_top = do rhs ← peek 0; lhs ← peek 1; erase_back 2; push (Value.boolean (value_eq lhs rhs))

  unfoldable pub print_top : ⦃d : Double D⦄ → M D (Unit {0})
  unfolding peek pop_back show_value write
  print_top = do v ← peek 0; text ← show_value v; write (text ++ b'\n' ∷ []); pop_back

  unfoldable pub push_constant : Frame D → ℕ → M D (Unit {0})
  unfolding operand constant_at push
  push_constant frame ip = do i ← operand frame ip; v ← constant_at frame i; push v

  -- `std::get<GC_ptr<const std::string>>(constants[*bytecode_iter++])`
  unfoldable pub name_operand : Frame D → ℕ → M D Bytes
  unfolding operand constant_at
  name_operand frame ip = do
    i ← operand frame ip
    v ← constant_at frame i
    require bad_variant_access (as_text v)

  unfoldable pub define_global_at : Frame D → ℕ → M D (Unit {0})
  unfolding name_operand peek pop_back assign_global
  define_global_at frame ip = do
    name ← name_operand frame ip
    v ← peek 0
    assign_global name v
    pop_back

  unfoldable pub get_global_at : Frame D → SourceMapToken → ℕ → M D (Unit {0})
  unfolding name_operand push lookup bytes_eq
  get_global_at frame token ip = do
    name ← name_operand frame ip
    s ← get
    v ← require (undefined_variable token.line name) (lookup bytes_eq name s.globals)
    push v

  unfoldable pub set_global_at : Frame D → SourceMapToken → ℕ → M D (Unit {0})
  unfolding name_operand peek lookup bytes_eq assign_global
  set_global_at frame token ip = do
    name ← name_operand frame ip
    s ← get
    _ ← require (undefined_variable token.line name) (lookup bytes_eq name s.globals)
    v ← peek 0
    assign_global name v

  -- `stack_[i]`, unchecked
  unfoldable pub get_local_at : Frame D → ℕ → M D (Unit {0})
  unfolding operand push stack_at
  get_local_at frame ip = do
    i ← operand frame ip
    s ← get
    v ← require undefined_behaviour (stack_at (frame.stack_begin_index + i) s.stack)
    push v

  -- `stack_.at(i) = stack_.back()`
  unfoldable pub set_local_at : Frame D → ℕ → M D (Unit {0})
  unfolding operand peek store
  set_local_at frame ip = do i ← operand frame ip; v ← peek 0; store (frame.stack_begin_index + i) v

module _ {D : Type 0} ⦃d : Double D⦄ (size_of : Object D → ℕ) where
  -- `add` on the two values that stand on the stack.
  unfoldable pub add_values : SourceMapToken → Value D → Value D → M D (Unit {0})
  unfolding erase_back push intern
  add_values token (Value.number x) (Value.number y) =
      erase_back 2 >> push (Value.number (d.add x y))
  add_values token (Value.string s) (Value.string t) =
      erase_back 2 >> intern size_of (s ++ t) >> push (Value.string (s ++ t))
  add_values token _ _ = throw (not_two_numbers_or_strings token.line token.lexeme)

  unfoldable pub add_top : SourceMapToken → M D (Unit {0})
  unfolding peek add_values
  add_top token = do rhs ← peek 0; lhs ← peek 1; add_values token lhs rhs

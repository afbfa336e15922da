-- ===== src/Vm/Invariants/Operators.antt =====
-- The operators and variables of VM::run keep what every change of a single field keeps.
use cpplox.Chunk.{SourceMapToken}
use cpplox.Objects.{Object}
use cpplox.Prelude.{ℕ, true, false}
use cpplox.Value.{Double, Value}
use cpplox.Vm.Actions.{IsKept, kept_rules}
use cpplox.Vm.Captures.{Frame}
use cpplox.Vm.Keeps.{Property, Keeps, Keeps-throw}
use cpplox.Vm.Operators
use cpplox.Vm.Print

module _ {D : Type 0} ⦃d : Double D⦄ (size_of : Object D → ℕ) (clock : ℕ → D) {P : Property D}
    (kept : IsKept size_of P) where
  pub Keeps-binary_numbers :
      (f : D → D → Value D) (token : SourceMapToken) → Keeps P (Operators.binary_numbers f token)
  unfolding Operators.binary_numbers
  Keeps-binary_numbers f token = search (kept_rules) depth 20

  pub Keeps-negate_top : (token : SourceMapToken) → Keeps P (Operators.negate_top token)
  unfolding Operators.negate_top
  Keeps-negate_top token = search (kept_rules) depth 20

  pub Keeps-not_top : Keeps P Operators.not_top
  unfolding Operators.not_top
  Keeps-not_top = search (kept_rules) depth 20

  pub Keeps-equal_top : Keeps P Operators.equal_top
  unfolding Operators.equal_top
  Keeps-equal_top = search (kept_rules) depth 20

  pub Keeps-show_function : (a : ℕ) → Keeps P (Print.show_function a)
  unfolding Print.show_function
  Keeps-show_function a = search (kept_rules) depth 20

  pub Keeps-show_closure : (a : ℕ) → Keeps P (Print.show_closure a)
  unfolding Print.show_closure
  Keeps-show_closure a = search (kept_rules, Keeps-show_function) depth 20

  pub Keeps-show_value : (v : Value D) → Keeps P (Print.show_value v)
  unfolding Print.show_value
  Keeps-show_value Value.nil = search (kept_rules) depth 20
  Keeps-show_value (Value.boolean true) = search (kept_rules) depth 20
  Keeps-show_value (Value.boolean false) = search (kept_rules) depth 20
  Keeps-show_value (Value.number x) = search (kept_rules) depth 20
  Keeps-show_value (Value.function a) = search (kept_rules, Keeps-show_function) depth 20
  Keeps-show_value (Value.bound_method a) = search (kept_rules, Keeps-show_closure) depth 20
  Keeps-show_value (Value.class a) = search (kept_rules) depth 20
  Keeps-show_value (Value.closure a) = search (kept_rules, Keeps-show_closure) depth 20
  Keeps-show_value (Value.instance_ a) = search (kept_rules) depth 20
  Keeps-show_value (Value.native_fn a) = search (kept_rules) depth 20
  Keeps-show_value (Value.string s) = search (kept_rules) depth 20

  pub Keeps-print_top : Keeps P Operators.print_top
  unfolding Operators.print_top
  Keeps-print_top = search (kept_rules, Keeps-show_value) depth 20

  pub Keeps-push_constant : (frame : Frame D) (ip : ℕ) → Keeps P (Operators.push_constant frame ip)
  unfolding Operators.push_constant
  Keeps-push_constant frame ip = search (kept_rules) depth 20

  pub Keeps-name_operand : (frame : Frame D) (ip : ℕ) → Keeps P (Operators.name_operand frame ip)
  unfolding Operators.name_operand
  Keeps-name_operand frame ip = search (kept_rules) depth 20

  pub Keeps-define_global_at :
      (frame : Frame D) (ip : ℕ) → Keeps P (Operators.define_global_at frame ip)
  unfolding Operators.define_global_at
  Keeps-define_global_at frame ip = search (kept_rules) depth 20

  pub Keeps-get_global_at :
      (frame : Frame D) (token : SourceMapToken) (ip : ℕ)
      → Keeps P (Operators.get_global_at frame token ip)
  unfolding Operators.get_global_at
  Keeps-get_global_at frame token ip = search (kept_rules) depth 20

  pub Keeps-set_global_at :
      (frame : Frame D) (token : SourceMapToken) (ip : ℕ)
      → Keeps P (Operators.set_global_at frame token ip)
  unfolding Operators.set_global_at
  Keeps-set_global_at frame token ip = search (kept_rules) depth 20

  pub Keeps-get_local_at : (frame : Frame D) (ip : ℕ) → Keeps P (Operators.get_local_at frame ip)
  unfolding Operators.get_local_at
  Keeps-get_local_at frame ip = search (kept_rules) depth 20

  pub Keeps-set_local_at : (frame : Frame D) (ip : ℕ) → Keeps P (Operators.set_local_at frame ip)
  unfolding Operators.set_local_at
  Keeps-set_local_at frame ip = search (kept_rules) depth 20

  pub Keeps-add_values :
      (token : SourceMapToken) (v w : Value D) → Keeps P (Operators.add_values size_of token v w)
  unfolding Operators.add_values
  Keeps-add_values token (Value.number x) (Value.number y) = search (kept_rules) depth 20
  Keeps-add_values token (Value.string t) (Value.string u) = search (kept_rules) depth 20
  Keeps-add_values token _ _ = Keeps-throw _

  pub Keeps-add_top : (token : SourceMapToken) → Keeps P (Operators.add_top size_of token)
  unfolding Operators.add_top
  Keeps-add_top token = search (kept_rules, Keeps-add_values) depth 20

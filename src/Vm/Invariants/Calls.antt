-- ===== src/Vm/Invariants/Calls.antt =====
-- Calls and objects in VM::run keep what every change of a single field keeps.
use cpplox.Chunk.{SourceMapToken}
use cpplox.Objects.{Object}
use cpplox.Prelude.{ℕ, Option, none, some, List, Bytes, bytes_eq}
use cpplox.Table.{assign, insert_all}
use cpplox.Value.{Double, Value}
use cpplox.Vm.Actions.{IsKept, Keeps-write_class, Keeps-write_instance, kept_rules}
use cpplox.Vm.Calls
use cpplox.Vm.Calls.{Next}
use cpplox.Vm.Captures.{Frame}
use cpplox.Vm.Keeps.{Property, Keeps, Keeps-throw}
use cpplox.Vm.Properties

module _ {D : Type 0} ⦃d : Double D⦄ (size_of : Object D → ℕ) (clock : ℕ → D) {P : Property D}
    (kept : IsKept size_of P) where
  pub Keeps-write_field :
      (a : ℕ) (name : Bytes) (v : Value D) → Keeps P (Properties.write_field a name v)
  unfolding Properties.write_field
  Keeps-write_field a name v =
      Keeps-write_instance kept a λ i. record i { fields = assign bytes_eq name v i.fields }

  pub Keeps-insert_methods :
      (child : ℕ) (methods : List (Bytes × ℕ)) → Keeps P (Properties.insert_methods child methods)
  unfolding Properties.insert_methods
  Keeps-insert_methods child methods =
      Keeps-write_class kept child λ c. record c { methods = insert_all bytes_eq methods c.methods }

  pub Keeps-write_method :
      (klass : ℕ) (name : Bytes) (closure : ℕ)
      → Keeps P (Properties.write_method klass name closure)
  unfolding Properties.write_method
  Keeps-write_method klass name closure =
      Keeps-write_class kept klass
        λ k. record k { methods = assign bytes_eq name closure k.methods }

  pub Keeps-set_property_at :
      (frame : Frame D) (token : SourceMapToken) (ip : ℕ)
      → Keeps P (Properties.set_property_at frame token ip)
  unfolding Properties.set_property_at
  Keeps-set_property_at frame token ip = search (kept_rules, Keeps-write_field) depth 20

  pub Keeps-inherit_top : (token : SourceMapToken) → Keeps P (Properties.inherit_top token)
  unfolding Properties.inherit_top
  Keeps-inherit_top token = search (kept_rules, Keeps-insert_methods) depth 20

  pub Keeps-method_at : (frame : Frame D) (ip : ℕ) → Keeps P (Properties.method_at frame ip)
  unfolding Properties.method_at
  Keeps-method_at frame ip = search (kept_rules, Keeps-write_method) depth 20

  pub Keeps-class_at_operand :
      (frame : Frame D) (ip : ℕ) → Keeps P (Properties.class_at_operand size_of frame ip)
  unfolding Properties.class_at_operand
  Keeps-class_at_operand frame ip = search (kept_rules) depth 20

  pub Keeps-push_bound_method : (a : ℕ) (m : ℕ) → Keeps P (Properties.push_bound_method size_of a m)
  unfolding Properties.push_bound_method
  Keeps-push_bound_method a m = search (kept_rules) depth 20

  Keeps-push_method :
      (token : SourceMapToken) (a : ℕ) (name : Bytes) (method : Option ℕ)
      → Keeps P (Properties.push_method size_of token a name method)
  unfolding Properties.push_method
  Keeps-push_method token a name none = Keeps-throw _
  Keeps-push_method token a name (some method) = Keeps-push_bound_method a method

  Keeps-push_property :
      (token : SourceMapToken) (a klass : ℕ) (name : Bytes) (field : Option (Value D))
      → Keeps P (Properties.push_property size_of token a klass name field)
  unfolding Properties.push_property
  Keeps-push_property token a klass name (some w) = search (kept_rules) depth 20
  Keeps-push_property token a klass name none = search (kept_rules, Keeps-push_method) depth 20

  pub Keeps-get_property_at :
      (frame : Frame D) (token : SourceMapToken) (ip : ℕ)
      → Keeps P (Properties.get_property_at size_of frame token ip)
  unfolding Properties.get_property_at
  Keeps-get_property_at frame token ip = search (kept_rules, Keeps-push_property) depth 20

  pub Keeps-get_super_at :
      (frame : Frame D) (token : SourceMapToken) (ip : ℕ)
      → Keeps P (Properties.get_super_at size_of frame token ip)
  unfolding Properties.get_super_at
  Keeps-get_super_at frame token ip = search (kept_rules) depth 20

  pub Keeps-check_arity :
      (token : SourceMapToken) (arity : ℕ) (arg_count : ℕ)
      → Keeps P (Calls.check_arity token arity arg_count)
  unfolding Calls.check_arity
  Keeps-check_arity token arity arg_count = search (kept_rules) depth 20

  pub Keeps-arity_of : (closure : ℕ) → Keeps P (Calls.arity_of closure)
  unfolding Calls.arity_of
  Keeps-arity_of closure = search (kept_rules) depth 20

  Keeps-run_next : (closure arg_count ip : ℕ) → Keeps P (Calls.run_next closure arg_count ip)
  unfolding Calls.run_next
  Keeps-run_next closure arg_count ip = record { at = λ s h. h }

  pub Keeps-call_closure :
      (token : SourceMapToken) (arg_count : ℕ) (ip : ℕ) (a : ℕ)
      → Keeps P (Calls.call_closure token arg_count ip a)
  unfolding Calls.call_closure
  Keeps-call_closure token arg_count ip a =
      search (kept_rules, Keeps-arity_of, Keeps-check_arity, Keeps-run_next) depth 20

  pub Keeps-call_bound_method :
      (token : SourceMapToken) (arg_count : ℕ) (ip : ℕ) (a : ℕ)
      → Keeps P (Calls.call_bound_method token arg_count ip a)
  unfolding Calls.call_bound_method
  Keeps-call_bound_method token arg_count ip a =
      search (kept_rules, Keeps-arity_of, Keeps-check_arity, Keeps-run_next) depth 20

  Keeps-construct :
      (token : SourceMapToken) (arg_count ip klass : ℕ) (init : Option ℕ)
      → Keeps P (Calls.construct size_of clock token arg_count ip klass init)
  unfolding Calls.construct
  Keeps-construct token arg_count ip klass none = search (kept_rules, Keeps-check_arity) depth 20
  Keeps-construct token arg_count ip klass (some init) =
      search (kept_rules, Keeps-arity_of, Keeps-check_arity, Keeps-run_next) depth 20

  pub Keeps-call_class :
      (token : SourceMapToken) (arg_count : ℕ) (ip : ℕ) (a : ℕ)
      → Keeps P (Calls.call_class size_of clock token arg_count ip a)
  unfolding Calls.call_class
  Keeps-call_class token arg_count ip a = search (kept_rules, Keeps-construct) depth 20

  pub Keeps-call_native_fn :
      (arg_count : ℕ) (ip : ℕ) → Keeps P (Calls.call_native_fn size_of clock arg_count ip)
  unfolding Calls.call_native_fn
  Keeps-call_native_fn arg_count ip = search (kept_rules) depth 20

  Keeps-call_value :
      (token : SourceMapToken) (arg_count ip : ℕ) (v : Value D)
      → Keeps P (Calls.call_value size_of clock token arg_count ip v)
  unfolding Calls.call_value
  Keeps-call_value token arg_count ip (Value.closure a) = Keeps-call_closure token arg_count ip a
  Keeps-call_value token arg_count ip (Value.class a) = Keeps-call_class token arg_count ip a
  Keeps-call_value token arg_count ip (Value.bound_method a) =
      Keeps-call_bound_method token arg_count ip a
  Keeps-call_value token arg_count ip (Value.native_fn a) = Keeps-call_native_fn arg_count ip
  Keeps-call_value token arg_count ip _ = Keeps-throw _

  pub Keeps-call_at :
      (frame : Frame D) (token : SourceMapToken) (ip : ℕ)
      → Keeps P (Calls.call_at size_of clock frame token ip)
  unfolding Calls.call_at
  Keeps-call_at frame token ip = search (kept_rules, Keeps-call_value) depth 20

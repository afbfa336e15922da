-- ===== src/Vm/Properties.antt =====
-- Classes, fields and methods in VM::run of src/vm.cpp.
use cpplox.Chunk.{SourceMapToken}
use cpplox.Objects.{Object, a_bound_method, a_class, an_instance}
use cpplox.Prelude.{ℕ, Option, none, some, List, [], Bytes, bytes_eq}
use cpplox.Table.{lookup, assign, insert_all}
use cpplox.Value.{Value}
use cpplox.Vm.Captures.{Frame}
use cpplox.Vm.Operators.{name_operand}
use cpplox.Vm.State.{
  M, ◌>>=◌, ◌>>◌, throw, require, bad_variant_access, not_an_instance, superclass_not_a_class,
  undefined_property, peek, push, pop_back, erase_back, class_at, instance_at, write_object, make,
}

module _ {D : Type 0} where
  abbrev pub as_instance : Value D → Option ℕ
  as_instance (Value.instance_ a) = some a
  as_instance _ = none

  abbrev pub as_class : Value D → Option ℕ
  as_class (Value.class a) = some a
  as_class _ = none

  abbrev pub as_closure : Value D → Option ℕ
  as_closure (Value.closure a) = some a
  as_closure _ = none

  -- `instance->fields[name] = v`
  unfoldable pub write_field : ℕ → Bytes → Value D → M D (Unit {0})
  unfolding instance_at write_object assign bytes_eq
  write_field a name v = do
    i ← instance_at a
    write_object a (an_instance (record i { fields = assign bytes_eq name v i.fields }))

  -- `child->methods.insert(methods.cbegin(), methods.cend())`
  unfoldable pub insert_methods : ℕ → List (Bytes × ℕ) → M D (Unit {0})
  unfolding class_at write_object insert_all bytes_eq
  insert_methods child methods = do
    c ← class_at child
    write_object child (a_class (record c { methods = insert_all bytes_eq methods c.methods }))

  -- `klass->methods[name] = closure`
  unfoldable pub write_method : ℕ → Bytes → ℕ → M D (Unit {0})
  unfolding class_at write_object assign bytes_eq
  write_method klass name closure = do
    k ← class_at klass
    write_object klass (a_class (record k { methods = assign bytes_eq name closure k.methods }))

  unfoldable pub set_property_at : Frame D → SourceMapToken → ℕ → M D (Unit {0})
  unfolding name_operand peek write_field pop_back
  set_property_at frame token ip = do
    field_name ← name_operand frame ip
    v ← peek 0
    a ← require (not_an_instance token.line token.lexeme) (as_instance v)
    w ← peek 1
    write_field a field_name w
    pop_back

  unfoldable pub inherit_top : SourceMapToken → M D (Unit {0})
  unfolding peek class_at push insert_methods
  inherit_top token = do
    v ← peek 0
    parent ← require (superclass_not_a_class token.line token.lexeme) (as_class v)
    w ← peek 1
    child ← require bad_variant_access (as_class w)
    p ← class_at parent
    insert_methods child p.methods
    push (Value.class child)

  unfoldable pub method_at : Frame D → ℕ → M D (Unit {0})
  unfolding name_operand peek write_method pop_back
  method_at frame ip = do
    method_name ← name_operand frame ip
    v ← peek 0
    closure ← require bad_variant_access (as_closure v)
    w ← peek 1
    klass ← require bad_variant_access (as_class w)
    write_method klass method_name closure
    pop_back

module _ {D : Type 0} (size_of : Object D → ℕ) where
  unfoldable pub class_at_operand : Frame D → ℕ → M D (Unit {0})
  unfolding name_operand make push
  class_at_operand frame ip = do
    class_name ← name_operand frame ip
    a ← make size_of (a_class (record { name = class_name; methods = [] }))
    push (Value.class a)

  unfoldable pub push_bound_method : ℕ → ℕ → M D (Unit {0})
  unfolding make push
  push_bound_method instance_pointer method_pointer = do
    a ← make size_of (
        a_bound_method
          (record { instance_pointer = instance_pointer; method_pointer = method_pointer }))
    push (Value.bound_method a)

  unfoldable pub push_method : SourceMapToken → ℕ → Bytes → Option ℕ → M D (Unit {0})
  unfolding push_bound_method
  push_method token a name none = throw (undefined_property token.line name)
  push_method token a name (some method) = push_bound_method a method

  -- The field that was found, or else the method of the class.
  unfoldable pub push_property : SourceMapToken → ℕ → ℕ → Bytes → Option (Value D) → M D (Unit {0})
  unfolding push class_at push_method lookup bytes_eq
  push_property token a klass name (some w) = push w
  push_property token a klass name none = do
    k ← class_at klass
    push_method token a name (lookup bytes_eq name k.methods)

  unfoldable pub get_property_at : Frame D → SourceMapToken → ℕ → M D (Unit {0})
  unfolding name_operand peek pop_back instance_at push_property lookup bytes_eq
  get_property_at frame token ip = do
    field_name ← name_operand frame ip
    v ← peek 0
    a ← require (not_an_instance token.line token.lexeme) (as_instance v)
    pop_back
    i ← instance_at a
    push_property token a i.klass field_name (lookup bytes_eq field_name i.fields)

  unfoldable pub get_super_at : Frame D → SourceMapToken → ℕ → M D (Unit {0})
  unfolding name_operand peek class_at erase_back make push lookup bytes_eq
  get_super_at frame token ip = do
    method_name ← name_operand frame ip
    v ← peek 0
    superclass ← require bad_variant_access (as_class v)
    w ← peek 1
    a ← require bad_variant_access (as_instance w)
    k ← class_at superclass
    method ←
        require (undefined_property token.line method_name) (lookup bytes_eq method_name k.methods)
    m ← make size_of (a_bound_method (record { instance_pointer = a; method_pointer = method }))
    erase_back 2
    push (Value.bound_method m)

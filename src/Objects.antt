-- ===== src/Objects.antt =====
-- The objects of src/object.hpp and src/object.cpp, and what a collection traces from them. They live
-- in the heap of src/memory.hpp, and a GC_ptr to one is its address; a pointer to a string is the
-- string itself, and `address_of` gives the address that a text has in the heap.

use cpplox.Chunk.{Chunk}
use cpplox.Prelude.{
  ℕ, length, ◌==◌, if◌then◌else◌, Option, none, some, List, [], ◌∷◌, ◌++◌, map, Bytes,
}
use cpplox.Value.{Value}

pub record Function (D : Type 0) : Type 0 where
  pub name : Bytes
  pub arity : ℕ
  pub chunk : Chunk D

pub record BoundMethod : Type 0 where
  pub instance_pointer : ℕ
  pub method_pointer : ℕ

pub record Class : Type 0 where
  pub name : Bytes
  pub methods : List (Bytes × ℕ)

pub record Closure : Type 0 where
  pub function_pointer : ℕ
  pub upvalues : List ℕ
  pub open_upvalues : List ℕ

pub record Instance (D : Type 0) : Type 0 where
  pub klass : ℕ
  pub fields : List (Bytes × Value D)

-- The stack of an open upvalue is the virtual machine's.
pub data Upvalue (D : Type 0) : Type 0 where
  open_at : ℕ → Upvalue D
  closed : Value D → Upvalue D

pub data Object (D : Type 0) : Type 0 where
  a_bound_method : BoundMethod → Object D
  a_class : Class → Object D
  a_closure : Closure → Object D
  a_function : Function D → Object D
  an_instance : Instance D → Object D
  a_native_fn : Object D
  a_string : Bytes → Object D
  an_upvalue : Upvalue D → Object D

-- `stack[i]`: the back of a stack stands first, and the bottom has index 0.
unfoldable pub stack_at {ℓ} : {A : Type ℓ} → ℕ → List A → Option A
stack_at i [] = none
stack_at i (v ∷ vs) = if i == length vs then some v else stack_at i vs

-- `stack[i] = v`; nothing changes where `i` is no index.
unfoldable pub stack_set {ℓ} : {A : Type ℓ} → ℕ → A → List A → List A
stack_set i w [] = []
stack_set i w (v ∷ vs) = if i == length vs then w ∷ vs else v ∷ stack_set i w vs

module _ {D : Type 0} where
  -- Upvalue::value; `none` where `at` throws, since the index is not on the stack.
  unfoldable pub upvalue_value : List (Value D) → Upvalue D → Option (Value D)
  unfolding stack_at
  upvalue_value stack (closed v) = some v
  upvalue_value stack (open_at i) = stack_at i stack

  -- Upvalue::close
  unfoldable pub close : List (Value D) → Upvalue D → Option (Upvalue D)
  unfolding upvalue_value
  close stack u = elim (upvalue_value stack u) [ none ↦ none | some v ↦ some (closed v) ]

  -- Upvalue::stack_index; `none` where `std::get<Open>` throws.
  unfoldable pub stack_index : Upvalue D → Option ℕ
  stack_index (open_at i) = some i
  stack_index (closed v) = none

  -- An assignment to the reference that Upvalue::value gives: the stack and the upvalue behind it.
  unfoldable pub assign_upvalue :
      Value D → List (Value D) → Upvalue D → Option (List (Value D) × Upvalue D)
  unfolding stack_at stack_set
  assign_upvalue w stack (closed v) = some (stack, closed w)
  assign_upvalue w stack (open_at i) = elim (stack_at i stack) [
    | none ↦ none
    | some _ ↦ some (stack_set i w stack, open_at i)
  ]

-- `trace_refs_trait` for each type of object: the pointers that it marks, in order, `none` for null
-- or a value that is no pointer. `stack` is the one that an open upvalue refers to.
unfoldable pub trace_methods : (address_of : Bytes → Option ℕ) → List (Bytes × ℕ) → List (Option ℕ)
trace_methods address_of [] = []
trace_methods address_of ((key, method) ∷ methods) =
    address_of key ∷ some method ∷ trace_methods address_of methods

module _ {D : Type 0} (address_of : Bytes → Option ℕ) where
  -- `Mark_objects_visitor`
  unfoldable pub mark_value : Value D → Option ℕ
  mark_value Value.nil = none
  mark_value (Value.boolean b) = none
  mark_value (Value.number x) = none
  mark_value (Value.bound_method a) = some a
  mark_value (Value.class a) = some a
  mark_value (Value.closure a) = some a
  mark_value (Value.function a) = some a
  mark_value (Value.instance_ a) = some a
  mark_value (Value.native_fn a) = some a
  mark_value (Value.string s) = address_of s

  unfoldable pub trace_fields : List (Bytes × Value D) → List (Option ℕ)
  unfolding mark_value
  trace_fields [] = []
  trace_fields ((key, field) ∷ fields) = address_of key ∷ mark_value field ∷ trace_fields fields

  unfoldable pub trace_function : Function D → List (Option ℕ)
  unfolding mark_value
  trace_function f =
      address_of f.name
      ∷ (map mark_value f.chunk.constants
          ++ map (λ t. address_of t.lexeme) f.chunk.source_map_tokens)

  -- Where the upvalue's value cannot be read, nothing is marked here, and `at` throws.
  unfoldable pub trace_refs : List (Value D) → Object D → List (Option ℕ)
  unfolding mark_value trace_methods trace_fields trace_function upvalue_value
  trace_refs stack (a_bound_method m) = some m.instance_pointer ∷ some m.method_pointer ∷ []
  trace_refs stack (a_class k) = address_of k.name ∷ trace_methods address_of k.methods
  trace_refs stack (a_closure c) =
      some c.function_pointer ∷ (map some c.upvalues ++ map some c.open_upvalues)
  trace_refs stack (a_function f) = trace_function f
  trace_refs stack (an_instance i) = some i.klass ∷ trace_fields i.fields
  trace_refs stack a_native_fn = []
  trace_refs stack (a_string s) = []
  trace_refs stack (an_upvalue u) = elim (upvalue_value stack u) [
    | some v ↦ mark_value v ∷ []
    | none ↦ []
  ]

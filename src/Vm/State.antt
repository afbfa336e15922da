-- ===== src/Vm/State.antt =====
-- The state of class VM, and its operations as a monad. An exception leaves the state as it is then,
-- since src/lox.cpp goes on with it in a prompt.
use cpplox.Interned
use cpplox.Interned.{InternedStrings}
use cpplox.Memory
use cpplox.Memory.{ControlBlock, GcHeap, find_block}
use cpplox.Objects.{
  Function, Class, Closure, Instance, BoundMethod, Upvalue, Object, a_bound_method, a_class,
  a_closure, a_function, an_instance, a_string, an_upvalue, stack_set,
}
use cpplox.Prelude.{
  ℕ, zero, suc, ◌+◌, Option, none, some, List, [], ◌∷◌, ◌++◌, length, ltb, ◌==◌, if◌then◌else◌,
  Bytes, bytes_eq, get_elem?, set,
}
use cpplox.Table.{lookup, assign}
use cpplox.Value.{Value}

-- The exceptions that `run` throws: a `runtime_error` by its message with what the message prints,
-- and those of the standard library.
pub data Error : Type 0 where
  unexpected_opcode : ℕ → Bytes → ℕ → Error
  not_two_numbers_or_strings not_numbers not_a_number not_callable : ℕ → Bytes → Error
  not_an_instance superclass_not_a_class : ℕ → Bytes → Error
  wrong_arity : ℕ → Bytes → ℕ → ℕ → Error
  undefined_variable undefined_property : ℕ → Bytes → Error
  -- `std::get`, `vector::at`
  bad_variant_access out_of_range : Error
  -- `std::logic_error`, of `operator<<` on a byte that is no opcode
  logic_error : Error
  -- No exception: the behaviour of the program is undefined.
  undefined_behaviour : Error
  -- No exception: the model's recursion was cut short.
  out_of_fuel : Error

-- The back of stack and of call_frames stands first. `clock_calls` counts the readings of the clock,
-- and `output` is what was written to os_.
pub record Vm (D : Type 0) : Type 0 where
  pub stack : List (Value D)
  pub call_frames : List ℕ
  pub globals : List (Bytes × Value D)
  pub gc_heap : GcHeap (Object D)
  pub interned_strings : InternedStrings
  pub gc_heap_last_collect_size : ℕ
  pub clock_calls : ℕ
  pub output : Bytes

pub data Outcome (D A : Type 0) : Type 0 where
  done : A → Vm D → Outcome D A
  threw : Error → Vm D → Outcome D A

abbrev pub M : Type 0 → Type 0 → Type 0
M D A = Vm D → Outcome D A

infixl 5 ◌>>=◌ ◌>>◌
abbrev pub ◌>>=◌ : {D A B : Type 0} → M D A → (A → M D B) → M D B
◌>>=◌ m f s = elim (m s) [ done a s' ↦ f a s' | threw e s' ↦ threw e s' ]

abbrev pub ◌>>◌ : {D B : Type 0} → M D (Unit {0}) → M D B → M D B
m >> k = m >>= λ _. k

abbrev pub pure : {D A : Type 0} → A → M D A
pure a s = done a s

abbrev pub throw : {D A : Type 0} → Error → M D A
throw e s = threw e s

abbrev pub get : {D : Type 0} → M D (Vm D)
get s = done s s

abbrev pub require : {D A : Type 0} → Error → Option A → M D A
require e none s = threw e s
require e (some a) s = done a s

module _ {D : Type 0} where
  -- `*(stack_.end() - 1 - n)`
  unfoldable pub peek : ℕ → M D (Value D)
  peek n s = require undefined_behaviour (get_elem? s.stack n) s

  unfoldable pub push : Value D → M D (Unit {0})
  push v s = done tt (record s { stack = v ∷ s.stack })

  unfoldable pub pop_back : M D (Unit {0})
  pop_back s = elim s.stack [
    | [] ↦ threw undefined_behaviour s
    | _ ∷ vs ↦ done tt (record s { stack = vs })
  ]

  -- `stack_.erase(stack_.cend() - n, stack_.cend())`
  unfoldable pub erase_back : ℕ → M D (Unit {0})
  unfolding pop_back
  erase_back zero s = done tt s
  erase_back (suc n) s = (pop_back >> erase_back n) s

  -- `*(stack_.end() - 1 - n) = v`
  unfoldable pub set_peek : ℕ → Value D → M D (Unit {0})
  set_peek n v s =
      if ltb n (length s.stack)
      then done tt (record s { stack = set s.stack n v })
      else threw undefined_behaviour s

  -- `stack_.at(i) = v`
  unfoldable pub store : ℕ → Value D → M D (Unit {0})
  unfolding stack_set
  store i v s =
      if ltb i (length s.stack)
      then done tt (record s { stack = stack_set i v s.stack })
      else threw out_of_range s

  -- `globals_[name] = v`
  unfoldable pub assign_global : Bytes → Value D → M D (Unit {0})
  unfolding assign bytes_eq
  assign_global name v s = done tt (record s { globals = assign bytes_eq name v s.globals })

  -- `os_ << text`
  unfoldable pub write : Bytes → M D (Unit {0})
  write text s = done tt (record s { output = s.output ++ text })

  -- The clock is read: the number of the reading.
  unfoldable pub read_clock : M D ℕ
  read_clock s = done s.clock_calls (record s { clock_calls = s.clock_calls + 1 })

  -- The object at an address. No pointer of the program leads to a block of another type.
  unfoldable pub object_at : ℕ → M D (Object D)
  unfolding find_block
  object_at a s = elim (find_block a s.gc_heap.all_ptrs) [
    | none ↦ threw undefined_behaviour s
    | some b ↦ done b.value s
  ]

  abbrev pub as_class : Object D → Option Class
  as_class (a_class k) = some k
  as_class _ = none

  abbrev pub as_closure : Object D → Option Closure
  as_closure (a_closure c) = some c
  as_closure _ = none

  abbrev pub as_function : Object D → Option (Function D)
  as_function (a_function f) = some f
  as_function _ = none

  abbrev pub as_instance : Object D → Option (Instance D)
  as_instance (an_instance i) = some i
  as_instance _ = none

  abbrev pub as_bound_method : Object D → Option BoundMethod
  as_bound_method (a_bound_method m) = some m
  as_bound_method _ = none

  abbrev pub as_upvalue : Object D → Option (Upvalue D)
  as_upvalue (an_upvalue u) = some u
  as_upvalue _ = none

  unfoldable pub class_at : ℕ → M D Class
  unfolding object_at
  class_at a = do o ← object_at a; require undefined_behaviour (as_class o)

  unfoldable pub closure_at : ℕ → M D Closure
  unfolding object_at
  closure_at a = do o ← object_at a; require undefined_behaviour (as_closure o)

  unfoldable pub function_at : ℕ → M D (Function D)
  unfolding object_at
  function_at a = do o ← object_at a; require undefined_behaviour (as_function o)

  unfoldable pub instance_at : ℕ → M D (Instance D)
  unfolding object_at
  instance_at a = do o ← object_at a; require undefined_behaviour (as_instance o)

  unfoldable pub bound_method_at : ℕ → M D BoundMethod
  unfolding object_at
  bound_method_at a = do o ← object_at a; require undefined_behaviour (as_bound_method o)

  unfoldable pub upvalue_at : ℕ → M D (Upvalue D)
  unfolding object_at
  upvalue_at a = do o ← object_at a; require undefined_behaviour (as_upvalue o)

  -- An assignment to the object at an address.
  unfoldable pub write_block :
      ℕ → Object D → List (ControlBlock (Object D)) → List (ControlBlock (Object D))
  write_block a o [] = []
  write_block a o (b ∷ bs) =
      if b.address == a then record b { value = o } ∷ bs else b ∷ write_block a o bs

  unfoldable pub write_object : ℕ → Object D → M D (Unit {0})
  unfolding write_block
  write_object a o s =
      done tt
        (record s { gc_heap = record s.gc_heap { all_ptrs = write_block a o s.gc_heap.all_ptrs } })

  -- The address of the string object of a text; `none` for a text that no pointer has.
  unfoldable pub address_of : Vm D → Bytes → Option ℕ
  unfolding lookup bytes_eq
  address_of s text = lookup bytes_eq text s.interned_strings.strings_by_chars

module _ {D : Type 0} (size_of : Object D → ℕ) where
  -- `gc_heap_.make`
  unfoldable pub make : Object D → M D ℕ
  unfolding Memory.make
  make o s = let (a, heap) = Memory.make size_of o s.gc_heap in done a (record s { gc_heap = heap })

  -- `interned_strings_.get`
  unfoldable pub intern : Bytes → M D (Unit {0})
  unfolding Interned.get
  intern text s =
      let (_, strings, heap) = Interned.get size_of a_string text s.interned_strings s.gc_heap in
      done tt (record s { gc_heap = heap; interned_strings = strings })

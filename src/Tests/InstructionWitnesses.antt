-- ===== src/Tests/InstructionWitnesses.antt =====
-- The theorems on instructions of the virtual machine at concrete inputs.
use cpplox.Memory.Marking.{value_at, value_of}
use cpplox.Memory.{find_block}
use cpplox.Objects.{
  Class, Closure, Function, a_class, a_closure, a_function, an_upvalue, close, closed, open_at,
  stack_at, upvalue_value,
}
use cpplox.Prelude.{ℕ, ◌+◌, ◌≡◌, refl, if◌then◌else◌, ◌==◌, some, List, [], ◌∷◌, length}
use cpplox.Tests.Sources.{token, block, vm_with, codes, whole_numbers}
use cpplox.Value.{Value}
use cpplox.Vm.Assigns.{Assigned, set_upvalue_at-Assigned}
use cpplox.Vm.Shares.{IsOpenAt, capture_local-Shares}
use cpplox.Memory.Marking.{In}
use cpplox.Vm.Captures.{get_upvalue_at, set_upvalue_at}
use cpplox.Prelude.{inl, ◌≢◌}
use cpplox.Vm.Closing.{object_of}
use cpplox.Prelude.{get_elem?}
use cpplox.Objects.{BoundMethod, a_bound_method}
use cpplox.Vm.Called.{call_at-Bound, call_at-Called}
use cpplox.Vm.Calls.{activate, call_at}
use cpplox.Vm.Captures.{
  Frame, capture_local, close_all, close_at, keep_bottom, return_from, return_stack,
}
use cpplox.Vm.Inherits.{Inherited, inherit_top-Inherited}
use cpplox.Vm.Properties.{inherit_top}
use cpplox.Vm.Returns.{Returned, return_from-Recaptures, return_from-Returned}
use cpplox.Vm.State.{
  Vm, bad_variant_access, closure_at, done, object_at, threw, upvalue_at, write_block, write_object,
  wrong_arity,
}
use cpplox.Tests.Sources.{token, block, vm_with, size, seconds}

-- A closure that returns 9, with one open upvalue, to a local that holds 5.
abbrev returning : Closure
returning = record { function_pointer = 0; upvalues = []; open_upvalues = 2 ∷ [] }

abbrev answering : Function ℕ
answering = record {
  name = codes "f";
  arity = 1;
  chunk = record { bytecode = 33 ∷ []; constants = []; source_map_tokens = token ∷ [] };
}

abbrev frame : Frame ℕ
frame = record { closure_pointer = 1; stack_begin_index = 0; chunk = answering.chunk }

abbrev before : Vm ℕ
before = vm_with (Value.number 9 ∷ Value.number 5 ∷ Value.closure 1 ∷ []) (
    block 0 (a_function answering)
    ∷ block 1 (a_closure returning)
    ∷ block 2 (an_upvalue (open_at 1))
    ∷ [])

abbrev after : Vm ℕ
after = vm_with (Value.number 9 ∷ []) (
    block 0 (a_function answering)
    ∷ block 1 (a_closure returning)
    ∷ block 2 (an_upvalue (closed (Value.number 5)))
    ∷ [])

returns : return_from frame before ≡ done tt after
unfolding return_from closure_at close_all close_at upvalue_at object_at find_block close
    upvalue_value stack_at write_object write_block return_stack keep_bottom
returns = refl

return_from-Returned_example : Returned frame returning before after
unfolding value_at value_of find_block
return_from-Returned_example = return_from-Returned frame returning before after refl returns

return_from-Recaptures_example : capture_local size frame 1 1 after ≡ threw bad_variant_access after
unfolding value_at value_of find_block
return_from-Recaptures_example =
    return_from-Recaptures size frame frame returning 2 [] before after after 1 1 refl refl returns
      refl refl refl

abbrev super_class : Class
super_class = record { name = codes "A"; methods = (codes "f", 7) ∷ [] }

abbrev sub_class : Class
sub_class = record { name = codes "B"; methods = [] }

abbrev inheriting : Vm ℕ
inheriting =
    vm_with (Value.class 0 ∷ Value.class 1 ∷ [])
      (block 0 (a_class super_class) ∷ block 1 (a_class sub_class) ∷ [])

inherit_top-Inherited_example :
    (s' : Vm ℕ) × (inherit_top token inheriting ≡ done tt s')
    × Inherited 1 super_class sub_class inheriting s'
unfolding value_at value_of find_block
inherit_top-Inherited_example =
    inherit_top-Inherited token 0 1 super_class sub_class inheriting refl refl refl refl

abbrev calling : Frame ℕ
calling = record frame {
  chunk = record { bytecode = 28 ∷ 1 ∷ []; constants = []; source_map_tokens = token ∷ token ∷ [] };
}

abbrev called : Vm ℕ
called =
    vm_with (Value.number 4 ∷ Value.closure 1 ∷ [])
      (block 0 (a_function answering) ∷ block 1 (a_closure returning) ∷ [])

call_at-Called_example :
    (begin : ℕ) × (stack_at begin called.stack ≡ some (Value.closure 1))
    × (begin + 1 + 1 ≡ length called.stack)
    × (call_at size seconds calling token 1 called ≡ (
        if answering.arity == 1
        then done (activate 1 begin 2) called
        else threw (wrong_arity token.line token.lexeme answering.arity 1) called))
unfolding value_at value_of find_block
call_at-Called_example =
    call_at-Called size seconds calling token 1 1 1 returning answering called refl refl refl refl

-- A closure that has captured the local that the closure below it holds open.
abbrev capturing : Closure
capturing = record { function_pointer = 0; upvalues = 2 ∷ []; open_upvalues = [] }

abbrev sharing : Vm ℕ
sharing = vm_with (Value.number 9 ∷ Value.number 5 ∷ Value.closure 1 ∷ []) (
    block 0 (a_function answering)
    ∷ block 1 (a_closure returning)
    ∷ block 2 (an_upvalue (open_at 1))
    ∷ block 3 (a_closure capturing)
    ∷ [])

abbrev inner : Frame ℕ
inner = record { closure_pointer = 3; stack_begin_index = 2; chunk = answering.chunk }

set_upvalue_at-Assigned_example :
    (s' : Vm ℕ) × (set_upvalue_at inner 0 (Value.number 8) sharing ≡ done tt s')
    × Assigned 2 (open_at 1) (Value.number 8) sharing s'
    × (get_upvalue_at inner 0 s' ≡ done (Value.number 8) s')
unfolding value_at value_of find_block upvalue_value stack_at
set_upvalue_at-Assigned_example =
    set_upvalue_at-Assigned inner inner capturing capturing 0 0 2 (open_at 1) (Value.number 8)
      (Value.number 5) sharing refl refl refl refl refl refl

capture_local-Shares_example :
    (b : ℕ) × (s' : Vm ℕ) × In b (2 ∷ [])
    × IsOpenAt sharing 1 b
    × (capture_local size frame 3 1 sharing ≡ done tt s')
    × (object_of s' 3 ≡ some (a_closure (record capturing { upvalues = 2 ∷ b ∷ [] })))
    × ((x : ℕ) → x ≢ 3 → object_of s' x ≡ object_of sharing x)
    × (s'.stack ≡ sharing.stack)
unfolding value_at value_of find_block
capture_local-Shares_example =
    capture_local-Shares size frame 3 1 2 returning capturing sharing refl refl ((1, refl), tt)
      (inl refl) refl

abbrev bound : BoundMethod
bound = record { instance_pointer = 3; method_pointer = 1 }

abbrev binding : Vm ℕ
binding = vm_with (Value.number 4 ∷ Value.bound_method 2 ∷ []) (
    block 0 (a_function answering)
    ∷ block 1 (a_closure returning)
    ∷ block 2 (a_bound_method bound)
    ∷ [])

call_at-Bound_example :
    (begin : ℕ) × (stack' : List (Value ℕ)) × (stack_at begin stack' ≡ some (Value.instance_ 3))
    × ((k : ℕ) → k ≢ 1 → get_elem? stack' k ≡ get_elem? binding.stack k)
    × (begin + 1 + 1 ≡ length stack')
    × (length stack' ≡ length binding.stack)
    × (call_at size seconds calling token 1 binding ≡ (
        if answering.arity == 1
        then done (activate 1 begin 2) (record binding { stack = stack' })
        else threw (wrong_arity token.line token.lexeme answering.arity 1) binding))
unfolding value_at value_of find_block
call_at-Bound_example =
    call_at-Bound size seconds calling token 1 1 2 bound returning answering binding refl refl refl
      refl refl

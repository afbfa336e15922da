-- ===== src/Tests/VmTests.antt =====
-- Programs compiled and run, one line of a prompt after the other: the failures and the output.
use cpplox.Chunk
use cpplox.Compiler.State
use cpplox.Compiler.Variables
use cpplox.Compiler.Functions
use cpplox.Compiler.Expressions
use cpplox.Compiler.Declarations
use cpplox.Compiler.Statements
use cpplox.Opcode
use cpplox.Value
use cpplox.Scanner
use cpplox.Memory
use cpplox.Interned
use cpplox.Objects
use cpplox.Table
use cpplox.Lox
use cpplox.Vm.State.{
  peek, push, pop_back, erase_back, set_peek, store, assign_global, write, read_clock, object_at,
  class_at, closure_at, function_at, instance_at, bound_method_at, upvalue_at, write_block,
  write_object, address_of, make, intern, Vm, threw, out_of_range, bad_variant_access,
  not_two_numbers_or_strings,
}
use cpplox.Vm.Print.{shown_name, show_function, show_closure, show_value}
use cpplox.Vm.Captures.{
  last_of, without_last, keep_bottom, operand, constant_at, upvalue_stack_index, find_open,
  insert_sorted, push_upvalue, set_open_upvalues, close_at, close_all, close_last, close_top,
  return_stack, return_from, capture_upvalue, get_upvalue_at, assign_upvalue_at, set_upvalue_at,
  capture_found, capture_local, capture_loop,
}
use cpplox.Vm.Operators.{
  binary_numbers, negate_top, not_top, equal_top, print_top, push_constant, name_operand,
  define_global_at, get_global_at, set_global_at, get_local_at, set_local_at, add_values, add_top,
}
use cpplox.Vm.Properties.{
  write_field, insert_methods, write_method, set_property_at, inherit_top, method_at,
  class_at_operand, push_bound_method, push_method, push_property, get_property_at, get_super_at,
}
use cpplox.Vm.Calls.{
  check_arity, arity_of, run_next, call_closure, call_bound_method, construct, call_class,
  call_native_fn, call_value, call_at,
}
use cpplox.Vm.Instructions.{
  distance_at, jump_at, jump_if_false_at, loop_at, get_upvalue_operand, set_upvalue_operand,
  closure_at_operand, instruction,
}
use cpplox.Vm.Run.{
  roots, is_readable, is_readable_at, run_closure, activation, halted, collect, collect_if_due,
  proceed, round, run_loop, run, initial,
}
use cpplox.Lox.{Failure, Leftover, Prompt, at_compile, at_run, waiting, stopped}
use cpplox.Lox.Sessions.{run_prompt-HeapSound, vm_behind}
use cpplox.Result.{unexpected_token}
use cpplox.Vm.HeapSound.Kept.{HeapSound-initial}
use cpplox.Vm.HeapSound.{HeapSound}
use cpplox.Objects.{Object, a_closure, a_native_fn, an_upvalue, open_at}
use cpplox.Memory.{ControlBlock}
use cpplox.Prelude.{
  ℕ, arith, map, true, Option, none, some, List, [], ◌∷◌, ◌≡◌, refl, Bytes, bytes_eq, size_sub,
}
use cpplox.Tests.Sources.{codes, whole_numbers, size, seconds, start, block, vm_with}
use cpplox.Token.{type_eq}

-- The failure that ended a prompt.
abbrev ended_by : Prompt ℕ → Option Failure
ended_by (waiting vm) = none
ended_by (stopped e vm) = some e

-- What a compilation leaves beside its functions, here one text.
abbrev leaves : Bytes → Leftover ℕ
leaves source = record { functions = []; texts = codes "nil" ∷ [] }

-- The failures printed, the one that ended the prompt, and the output.
session : List Bytes → List Failure × Option Failure × Bytes
unfolding Scanner.at Scanner.drop_one Scanner.scan_if_match Scanner.keyword_type
    Scanner.scan_identifier_token Scanner.at_fraction Scanner.skip_fraction
    Scanner.scan_number_token Scanner.string_loop Scanner.close_string Scanner.scan_string_token
    Scanner.scan_operator Scanner.scan_slash Scanner.scan_symbol Scanner.scan_round
    Scanner.scan_loop Scanner.scan_token Scanner.advance Scanner.begin Chunk.narrow8 Chunk.narrow16
    Chunk.write_big_endian Chunk.patch_to_next_opcode Chunk.to_next_opcode Chunk.find_constant
    Chunk.insert_constant Chunk.emit_byte Chunk.emit_narrowed Chunk.emit Chunk.emit_index
    Chunk.emit_call Chunk.emit_upvalues Chunk.emit_dummy Chunk.emit_jump Chunk.emit_jump_if_false
    Chunk.emit_loop Chunk.emit_name Chunk.emit_constant Chunk.emit_closure Opcode.opcode_byte
    Value.value_eq type_eq bytes_eq size_sub State.next State.back State.set_back State.on_chunk
    State.jump_on_chunk State.patch State.bytecode_size State.enter_scope State.ensure_token_is
    State.expect_next State.expect_then_next State.advance_if_match State.begin_function
    State.end_function Variables.find_last_local Variables.find_first_local Variables.set_captured
    Variables.upvalue_eq Variables.find_upvalue Variables.add_upvalue Variables.is_declared
    Variables.capture Variables.track_upvalue_in Variables.track_upvalue Variables.track_local
    Variables.pop_locals Variables.pop_top_scope_depth Variables.emit_found
    Variables.emit_getter_setter Variables.emit_getter Variables.emit_setter
    Functions.trim_quote_marks Functions.peek_properties Functions.emit_op Functions.emit_named
    Functions.emit_default_return Functions.emit_set_properties Functions.emit_assignment
    Functions.compile_parameters Functions.compile_block Functions.compile_function_rest
    Expressions.compile_primary Expressions.compile_arguments Expressions.call_arguments
    Expressions.call_loop Expressions.call_round Expressions.compile_call Expressions.compile_unary
    Expressions.compile_multiplication Expressions.multiplication_loop Expressions.compile_addition
    Expressions.addition_loop Expressions.compile_comparison Expressions.comparison_loop
    Expressions.compile_equality Expressions.equality_loop Expressions.compile_and
    Expressions.and_loop Expressions.compile_or Expressions.or_loop Expressions.compile_target
    Expressions.compile_assignment Declarations.push_placeholder Declarations.pop_placeholder
    Declarations.initialize_last Declarations.define_or Declarations.begin_superclass
    Declarations.end_superclass Declarations.compile_expression_statement Declarations.compile_print
    Declarations.compile_return_value Declarations.compile_return Declarations.compile_methods
    Declarations.compile_class_body Declarations.compile_class Declarations.compile_fun
    Declarations.compile_var Statements.compile_declarations Statements.compile
    Statements.compile_if Statements.for_initializer Statements.for_condition
    Statements.for_increment Statements.compile_for Statements.compile_braces
    Statements.compile_while Statements.compile_statement Statements.compile_declaration
    Scanner.isalpha Scanner.isdigit Scanner.slice Scanner.isalnum Scanner.skip_while
    Memory.find_block Memory.set_marked Memory.mark Memory.mark_all Memory.reached Memory.unreached
    Memory.unmark Memory.make Memory.release Memory.trace_block Memory.trace_loop
    Memory.collect_garbage Interned.get Interned.text_at Interned.on_destroy Interned.on_destroy_all
    Objects.stack_at Objects.stack_set Objects.upvalue_value Objects.close Objects.stack_index
    Objects.assign_upvalue Objects.trace_methods Objects.mark_value Objects.trace_fields
    Objects.trace_function Objects.trace_refs Table.lookup Table.assign Table.erase Table.insert_all
    Lox.is_runtime_error Lox.relocate_value Lox.relocate Lox.intern_values Lox.intern_tokens
    Lox.load_functions Lox.load_strings Lox.intern_texts Lox.run_functions Lox.leave Lox.run_source
    Lox.run_prompt Chunk.read_big_endian Opcode.byte_opcode Value.is_truthy peek push pop_back
    erase_back set_peek store assign_global write read_clock object_at class_at closure_at
    function_at instance_at bound_method_at upvalue_at write_block write_object address_of make
    intern shown_name show_function show_closure show_value last_of without_last keep_bottom operand
    constant_at upvalue_stack_index find_open insert_sorted push_upvalue set_open_upvalues close_at
    close_all close_last close_top return_stack return_from capture_upvalue get_upvalue_at
    assign_upvalue_at set_upvalue_at capture_found capture_local capture_loop binary_numbers
    negate_top not_top equal_top print_top push_constant name_operand define_global_at get_global_at
    set_global_at get_local_at set_local_at add_values add_top write_field insert_methods
    write_method set_property_at inherit_top method_at class_at_operand push_bound_method
    push_method push_property get_property_at get_super_at check_arity arity_of run_next
    call_closure call_bound_method construct call_class call_native_fn call_value call_at
    distance_at jump_at jump_if_false_at loop_at get_upvalue_operand set_upvalue_operand
    closure_at_operand instruction roots is_readable is_readable_at run_closure activation halted
    collect collect_if_due proceed round run_loop run initial
session lines =
    let (printed, end) = Lox.run_prompt size seconds leaves 300 lines start in
    (printed, ended_by end, (vm_behind end).output)

counter :
    session (
      codes
        "fun f() { var i = 0; fun g() { i = i + 1; return i; } return g; } var g = f(); g(); print g();"
      ∷ [])
    ≡ ([], none, 2 ∷ codes "\n")
unfolding session
counter = refl

inheritance :
    session (
      codes
        "class A { init(x) { this.x = x; } get() { return this.x; } } class B < A { get() { return super.get() + 1; } } var b = B(41); print b.get(); print b.get;"
      ∷ [])
    ≡ ([], none, 42 ∷ codes "\n<fn get>\n")
unfolding session
inheritance = refl

loop_of_strings :
    session (codes "for (var i = 0; i < 3; i = i + 1) { print \"a\" + \"b\"; }" ∷ [])
    ≡ ([], none, codes "ab\nab\nab\n")
unfolding session
loop_of_strings = refl

-- The second call of a function that captures a local of its own.
second_capture :
    session (codes "fun f() { var i = 0; fun g() { return i; } return g; } f(); f();" ∷ [])
    ≡ ([], some (at_run bad_variant_access), [])
unfolding session
second_capture = refl

-- What a failed line leaves on the stack is what the locals of the next line read.
leftovers :
    session (codes "{ var a = 1; a + nil; }" ∷ codes "{ var b = 7; print b; }" ∷ [])
    ≡ (at_run (not_two_numbers_or_strings 1 (codes "+")) ∷ [], none, 1 ∷ codes "\n")
unfolding session
leftovers = refl

-- A line that does not compile, one that fails, and one that calls a function.
abbrev lines : List Bytes
lines = codes "var a = ;" ∷ codes "print nil + 1;" ∷ codes "fun f() { return 3; } print f();" ∷ []

answers : session lines ≡ (
  at_compile (unexpected_token 1 (codes ";"))
      ∷ at_run (not_two_numbers_or_strings 1 (codes "+"))
      ∷ [],
  none,
  3 ∷ codes "\n",
)
unfolding session
answers = refl

-- A closure on the stack with an upvalue that is open behind the stack: the collection halts with
-- what the closure refers to marked, and one block still on the worklist.
abbrev closure_and_upvalue : List (ControlBlock (Object ℕ))
closure_and_upvalue =
    block 0 (a_closure (record { function_pointer = 1; upvalues = 2 ∷ []; open_upvalues = [] }))
    ∷ block 1 a_native_fn
    ∷ block 2 (an_upvalue (open_at 5))
    ∷ []

abbrev mark_block : ControlBlock (Object ℕ) → ControlBlock (Object ℕ)
mark_block b = record b { marked = true }

abbrev dangling : Vm ℕ
dangling = vm_with (Value.closure 0 ∷ []) closure_and_upvalue

halts :
    collect size dangling
    ≡ threw out_of_range (record dangling {
      gc_heap = record dangling.gc_heap {
        all_ptrs = map mark_block closure_and_upvalue;
        gray_worklist = 1 ∷ [];
      };
    })
unfolding session
halts = refl

goes_on : ended_by (Lox.run_prompt size seconds leaves 300 lines start).1 ≡ none
unfolding session
goes_on = refl

waits : (r : List Failure × Prompt ℕ) → ended_by r.1 ≡ none → r ≡ (r.0, waiting (vm_behind r.1))
waits (printed, waiting vm) e = refl
waits (printed, stopped x vm) e = absurd (ground arith)

run_prompt-HeapSound_example :
    HeapSound size (vm_behind (Lox.run_prompt size seconds leaves 300 lines start).1)
run_prompt-HeapSound_example =
    run_prompt-HeapSound size seconds leaves 300 lines start (λ o o' same. refl)
      (HeapSound-initial size) (Lox.run_prompt size seconds leaves 300 lines start).0
      (vm_behind (Lox.run_prompt size seconds leaves 300 lines start).1)
      (waits (Lox.run_prompt size seconds leaves 300 lines start) goes_on)

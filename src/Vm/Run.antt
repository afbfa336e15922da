-- ===== src/Vm/Run.antt =====
-- VM::run of src/vm.cpp: the loop over instructions, activations, and when garbage is collected.
use cpplox.Interned
use cpplox.Interned.{no_strings}
use cpplox.Memory
use cpplox.Memory.{ControlBlock, GcHeap, find_block}
use cpplox.Objects.{
  Object, a_closure, a_string, a_native_fn, an_upvalue, upvalue_value, mark_value, trace_fields,
  trace_refs,
}
use cpplox.Opcode.{byte_opcode}
use cpplox.Prelude.{
  ℕ, zero, suc, ◌+◌, Bool, true, false, Option, none, some, List, [], ◌∷◌, ◌++◌, map, length, ltb,
  ◌==◌, if◌then◌else◌, Bytes, bytes_eq, get_elem?, size_sub,
}
use cpplox.Result
use cpplox.Table.{assign}
use cpplox.Value.{Double, Value}
use cpplox.Vm.Calls.{Next, continue_at, activate, finished}
use cpplox.Vm.Captures.{Frame, operand}
use cpplox.Vm.Instructions.{instruction}
use cpplox.Vm.State.{
  Vm, M, Outcome, done, threw, ◌>>=◌, ◌>>◌, pure, require, undefined_behaviour, logic_error,
  out_of_range, out_of_fuel, address_of, closure_at, function_at, make, intern,
}

-- `call_frames_.pop_back()`
abbrev pub without_first : List ℕ → List ℕ
without_first [] = []
without_first (_ ∷ frames) = frames

module _ {D : Type 0} where
  -- What the callback of on_mark_roots marks.
  unfoldable pub roots : Vm D → List (Option ℕ)
  unfolding mark_value trace_fields address_of
  roots s =
      map some s.call_frames
      ++ (map (mark_value (address_of s)) s.stack ++ trace_fields (address_of s) s.globals)

  abbrev pub text_of : Object D → Option Bytes
  text_of (a_string s) = some s
  text_of _ = none

  unfoldable pub is_readable : List (Value D) → Object D → Bool
  unfolding upvalue_value
  is_readable stack (an_upvalue u) = elim (upvalue_value stack u) [ none ↦ false | some _ ↦ true ]
  is_readable stack _ = true

  -- `trace_refs` of the object at an address throws nothing.
  unfoldable pub is_readable_at : List (Value D) → ℕ → GcHeap (Object D) → Bool
  unfolding find_block is_readable
  is_readable_at stack a heap = elim (find_block a heap.all_ptrs) [
    | none ↦ true
    | some b ↦ is_readable stack b.value
  ]

  -- The frame is popped on every way out.
  abbrev pub pop_frame : Outcome D (Unit {0}) → Outcome D (Unit {0})
  pop_frame (done a s) = done a (record s { call_frames = without_first s.call_frames })
  pop_frame (threw e s) = threw e (record s { call_frames = without_first s.call_frames })

  -- The body of `run(closure, stack_begin_index)`, where `loop` runs the instructions of a frame from
  -- an index on.
  unfoldable pub run_closure : (Frame D → ℕ → M D (Unit {0})) → ℕ → ℕ → M D (Unit {0})
  unfolding closure_at function_at
  run_closure loop closure stack_begin_index = do
    c ← closure_at closure
    f ← function_at c.function_pointer
    loop
        (record {
          closure_pointer = closure;
          stack_begin_index = stack_begin_index;
          chunk = f.chunk;
        })
        0

  unfoldable pub activation : (Frame D → ℕ → M D (Unit {0})) → ℕ → ℕ → M D (Unit {0})
  unfolding run_closure
  activation loop closure stack_begin_index s = pop_frame (
      run_closure loop closure stack_begin_index
        (record s { call_frames = closure ∷ s.call_frames }))

-- No block is queued twice, so that the loop of `collect_garbage` goes at most so many rounds.
abbrev pub rounds : {D : Type 0} → GcHeap (Object D) → ℕ
rounds heap = length heap.all_ptrs + length heap.gray_worklist

module _ {D : Type 0} (size_of : Object D → ℕ) where
  -- The loop of `collect_garbage` up to the exception of the first `trace_refs` that throws one, of
  -- an upvalue that cannot be read: the heap as it is then. `none` where there is none.
  unfoldable pub halted : ℕ → Vm D → GcHeap (Object D) → Option (GcHeap (Object D))
  unfolding Memory.trace_block trace_refs address_of is_readable_at
  halted zero s heap = none
  halted (suc fuel) s heap = elim heap.gray_worklist [
    | [] ↦ none
    | a ∷ grays ↦
        let popped = record heap { gray_worklist = grays } in
        let rest =
          halted fuel s (Memory.trace_block (trace_refs (address_of s) s.stack) size_of a popped) in
        if is_readable_at s.stack a heap then rest else some popped
  ]

  -- `gc_heap_.collect_garbage()` with the callbacks of the virtual machine and of the strings. The
  -- exception of an upvalue that cannot be read leaves blocks marked and others on the worklist; it
  -- ends the program, as src/lox.cpp catches no `std::out_of_range`.
  unfoldable pub collect : M D (Unit {0})
  unfolding Memory.mark_all Memory.collect_garbage trace_refs roots address_of halted
      Interned.on_destroy_all
  collect s =
      let rooted = Memory.mark_all (roots s) s.gc_heap in
      elim (halted (rounds rooted) s rooted) [
        | some heap ↦ threw out_of_range (record s { gc_heap = heap })
        | none ↦
            elim (Memory.collect_garbage (trace_refs (address_of s) s.stack) size_of (roots s)
              s.gc_heap) [
                | Result.err e ↦ threw out_of_fuel s
                | Result.ok (heap, destroyed) ↦ done tt (record s {
                  gc_heap = heap;
                  interned_strings =
                      Interned.on_destroy_all text_of s.gc_heap.all_ptrs destroyed
                        s.interned_strings;
                  gc_heap_last_collect_size = heap.n_allocated_bytes;
                })
              ]
      ]

  unfoldable pub collect_if_due : M D (Unit {0})
  unfolding collect size_sub
  collect_if_due s =
      if ltb 4096 (size_sub s.gc_heap.n_allocated_bytes s.gc_heap_last_collect_size)
      then collect s
      else done tt s

  -- What follows an instruction, where `loop` runs the instructions of a frame from one on.
  unfoldable pub proceed : (Frame D → ℕ → M D (Unit {0})) → Frame D → Next → M D (Unit {0})
  unfolding activation collect_if_due
  proceed loop frame (continue_at ip) = collect_if_due >> loop frame ip
  proceed loop frame (activate closure begin ip) =
      activation loop closure begin >> collect_if_due >> loop frame ip
  proceed loop frame finished = pure tt

module _ {D : Type 0} ⦃d : Double D⦄ (size_of : Object D → ℕ) (clock : ℕ → D) where
  -- One round: the instruction at `ip`.
  unfoldable pub round : Frame D → ℕ → M D Next
  unfolding operand byte_opcode instruction
  round frame ip = do
    token ← require undefined_behaviour (get_elem? frame.chunk.source_map_tokens ip)
    byte ← operand frame ip
    opcode ← require logic_error (byte_opcode byte)
    instruction size_of clock frame token opcode (ip + 1)

  unfoldable pub run_loop : ℕ → Frame D → ℕ → M D (Unit {0})
  unfolding round proceed
  run_loop zero frame ip s = threw out_of_fuel s
  run_loop (suc n) frame ip s = elim (ip == length frame.chunk.bytecode) [
    | true ↦ done tt s
    | false ↦ (round frame ip >>= proceed size_of (run_loop n) frame) s
  ]

  -- `run(function)`
  unfoldable pub run : ℕ → ℕ → M D (Unit {0})
  unfolding make activation run_loop
  run fuel function = do
    a ←
        make size_of
          (a_closure (record { function_pointer = function; upvalues = []; open_upvalues = [] }))
    activation (run_loop fuel) a 0

abbrev pub word_clock : Bytes
word_clock = b'c' ∷ b'l' ∷ b'o' ∷ b'c' ∷ b'k' ∷ []

module _ {D : Type 0} (size_of : Object D → ℕ) where
  abbrev pub empty_vm : Vm D
  empty_vm = record {
    stack = [];
    call_frames = [];
    globals = [];
    gc_heap = record { all_ptrs = []; gray_worklist = []; n_allocated_bytes = 0; next_address = 0 };
    interned_strings = no_strings;
    gc_heap_last_collect_size = 0;
    clock_calls = 0;
    output = [];
  }

  -- The constructor of VM, on an empty heap.
  unfoldable pub initial : Outcome D (Unit {0})
  unfolding make intern assign bytes_eq
  initial =
      let construct : M D (Unit {0}) = do
        a ← make size_of a_native_fn
        intern size_of word_clock
        λ s.
            pure tt
              (record s { globals = assign bytes_eq word_clock (Value.native_fn a) s.globals })
      in construct empty_vm

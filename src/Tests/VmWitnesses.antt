-- ===== src/Tests/VmWitnesses.antt =====
-- The theorems on sessions, collections and strings at concrete inputs.
use cpplox.Interned
use cpplox.Interned.Destroy.{IsInterned, pointer_of}
use cpplox.Interned.Identity.{Got, get-Got, collected-IsInterned}
use cpplox.Interned.{on_destroy_all}
use cpplox.Lox.Sessions.{Answers, GoesOn, run_prompt-Evolves, run_prompt-GoesOn, vm_behind}
use cpplox.Lox.{Leftover, run_prompt, run_source}
use cpplox.Memory.{GcHeap}
use cpplox.Memory.Reach.{Reach}
use cpplox.Memory.Sweep.{collect_garbage-Collected}
use cpplox.Objects.{Object, a_string, trace_refs}
use cpplox.Prelude.{ℕ, ◌≡◌, ◌⊎◌, ◌↔◌, refl, Option, some, List, [], ◌∷◌, ◌++◌, Bytes}
use cpplox.Tests.Sources.{codes, whole_numbers}
use cpplox.Vm.Evolves.{Evolves}
use cpplox.Vm.HeapSound.Kept.{HeapSound-initial}
use cpplox.Vm.HeapSound.{Halted, Survives, collect-Survives}
use cpplox.Vm.Run.{collect, roots, text_of}
use cpplox.Vm.State.{Vm, address_of, done, out_of_range, threw}
use cpplox.Tests.Sources.{size, seconds, start}

abbrev lines : List Bytes
lines = codes "var a = 1; print a; fun f() { return a; } print f();" ∷ codes "print a + nil;" ∷ []

-- What a compilation leaves beside its functions, here one text.
abbrev leaves : Bytes → Leftover ℕ
leaves source = record { functions = []; texts = codes "nil" ∷ [] }

run_prompt-Evolves_example :
    Evolves start start.call_frames (vm_behind (run_prompt size seconds leaves 300 lines start).1)
run_prompt-Evolves_example = run_prompt-Evolves size seconds leaves 300 lines start

run_prompt-GoesOn_example :
    Answers
      (run_source size seconds leaves 300 (codes "print a;") start)
      (run_prompt size seconds leaves 300 (codes "print a;" ∷ []) start)
    × GoesOn size seconds leaves 300 lines
        (run_prompt size seconds leaves 300 lines start)
        (run_prompt size seconds leaves 300 (lines ++ lines) start)
run_prompt-GoesOn_example =
    run_prompt-GoesOn size seconds leaves 300 lines (codes "print a;") lines start

collect-Survives_example :
    ((s' : Vm ℕ) × (collect size start ≡ done tt s') × Survives size start s')
    ⊎ ((heap : GcHeap (Object ℕ)) × (collect size start
          ≡ threw out_of_range (record start { gc_heap = heap }))
        × Halted start heap)
collect-Survives_example = collect-Survives size start (HeapSound-initial size)

get-Got_example :
    Got a_string text_of
      (λ s. refl)
      size
      (codes "x")
      start.interned_strings
      start.gc_heap
      (Interned.get size a_string (codes "x") start.interned_strings start.gc_heap).0
      (Interned.get size a_string (codes "x") start.interned_strings start.gc_heap).1
      (Interned.get size a_string (codes "x") start.interned_strings start.gc_heap).2
get-Got_example =
    get-Got a_string text_of (λ s. refl) size (codes "x") start.interned_strings start.gc_heap
      (HeapSound-initial size).interned (HeapSound-initial size).idle (HeapSound-initial size).fresh

abbrev survivors : List (Option ℕ)
survivors = roots start

collected-IsInterned_example :
    let collected =
      collect_garbage-Collected
        (trace_refs {D = ℕ} (address_of start) [])
        size
        survivors
        start.gc_heap
        (HeapSound-initial size).idle in
    IsInterned a_string text_of
      (λ s. refl)
      collected.0.all_ptrs
      (on_destroy_all text_of start.gc_heap.all_ptrs collected.1 start.interned_strings)
    × ((t : Bytes) (a : ℕ)
        → (pointer_of t
              (on_destroy_all text_of start.gc_heap.all_ptrs collected.1 start.interned_strings)
            ≡ some a)
          ↔ ((pointer_of t start.interned_strings ≡ some a)
              × Reach (trace_refs (address_of start) []) survivors start.gc_heap.all_ptrs a))
collected-IsInterned_example =
    let collected =
      collect_garbage-Collected (trace_refs {D = ℕ} (address_of start) []) size survivors
        start.gc_heap (HeapSound-initial size).idle in
    collected-IsInterned a_string text_of (λ s. refl) (trace_refs (address_of start) []) size
      survivors start.gc_heap collected.0 collected.1 start.interned_strings
      (HeapSound-initial size).interned collected.3

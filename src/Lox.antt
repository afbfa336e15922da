-- ===== src/Lox.antt =====
-- The sessions of src/lox.cpp: a source is compiled and run, once for a file, and again for each line
-- of a prompt. Reading the file and the lines is left out: they are given.
pub mod Keeps
pub mod Sessions
use cpplox.Chunk.{Chunk, SourceMapToken}
use cpplox.Compiler.Statements.{compile}
use cpplox.Objects.{Function, Object, a_function}
use cpplox.Prelude.{ℕ, ◌+◌, Bool, true, false, List, [], ◌∷◌, if◌then◌else◌, Bytes, map}
use cpplox.Result
use cpplox.Value.{Double, Value}
use cpplox.Vm.Run.{run}
use cpplox.Vm.State.{Vm, M, Outcome, done, threw, ◌>>=◌, ◌>>◌, pure, make, intern}
use cpplox.Vm.State

-- What run_file or a round of run_prompt ends with.
pub data Failure : Type 0 where
  at_compile : Result.Error → Failure
  at_run : State.Error → Failure

pub data Ended (D : Type 0) : Type 0 where
  succeeded : Vm D → Ended D
  failed : Failure → Vm D → Ended D

abbrev pub ended : {D : Type 0} → Outcome D (Unit {0}) → Ended D
ended (done _ vm) = succeeded vm
ended (threw e vm) = failed (at_run e) vm

-- `catch (const std::runtime_error&)`
unfoldable pub is_runtime_error : Failure → Bool
is_runtime_error (at_compile Result.narrowing_error) = false
is_runtime_error (at_compile Result.out_of_range) = false
is_runtime_error (at_compile Result.bad_lexical_cast) = false
is_runtime_error (at_compile Result.assertion_failed) = false
is_runtime_error (at_compile Result.out_of_fuel) = false
is_runtime_error (at_compile _) = true
is_runtime_error (at_run State.bad_variant_access) = false
is_runtime_error (at_run State.out_of_range) = false
is_runtime_error (at_run State.logic_error) = false
is_runtime_error (at_run State.undefined_behaviour) = false
is_runtime_error (at_run State.out_of_fuel) = false
is_runtime_error (at_run _) = true

module _ {D : Type 0} where
  -- The functions of one compilation are numbered from 0; `base` is the address of the first.
  unfoldable pub relocate_value : ℕ → Value D → Value D
  relocate_value base (Value.function i) = Value.function (base + i)
  relocate_value base v = v

  unfoldable pub relocate : ℕ → Function D → Function D
  unfolding relocate_value
  relocate base f = record f {
    chunk = record f.chunk { constants = map (relocate_value base) f.chunk.constants };
  }

module _ {D : Type 0} (size_of : Object D → ℕ) where
  unfoldable pub intern_values : List (Value D) → M D (Unit {0})
  unfolding intern
  intern_values [] = pure tt
  intern_values (Value.string s ∷ vs) = intern size_of s >> intern_values vs
  intern_values (_ ∷ vs) = intern_values vs

  unfoldable pub intern_tokens : List SourceMapToken → M D (Unit {0})
  unfolding intern
  intern_tokens [] = pure tt
  intern_tokens (t ∷ ts) = intern size_of t.lexeme >> intern_tokens ts

  -- The objects that a compilation made: its functions, at addresses in their order, and the strings
  -- that they refer to.
  unfoldable pub load_functions : ℕ → List (Function D) → M D (Unit {0})
  unfolding make relocate
  load_functions base [] = pure tt
  load_functions base (f ∷ fs) = do
    _ ← make size_of (a_function (relocate base f))
    load_functions base fs

  unfoldable pub load_strings : List (Function D) → M D (Unit {0})
  unfolding intern intern_values intern_tokens
  load_strings [] = pure tt
  load_strings (f ∷ fs) = do
    intern size_of f.name
    intern_values f.chunk.constants
    intern_tokens f.chunk.source_map_tokens
    load_strings fs

  unfoldable pub intern_texts : List Bytes → M D (Unit {0})
  unfolding intern
  intern_texts [] = pure tt
  intern_texts (t ∷ ts) = intern size_of t >> intern_texts ts

-- What a compilation makes that no function refers to that it gives: texts and, if it fails, the
-- functions made by then, numbered from 0.
pub record Leftover (D : Type 0) : Type 0 where
  pub functions : List (Function D)
  pub texts : List Bytes

-- The failure of a compilation, on the virtual machine with its leftover.
abbrev pub failed_compile : {D : Type 0} → Result.Error → Outcome D (Unit {0}) → Ended D
failed_compile e (done _ vm) = failed (at_compile e) vm
failed_compile e (threw x vm) = failed (at_run x) vm

-- A prompt behind the lines that were read: it waits for the next one, or a failure that is not
-- caught has ended it.
pub data Prompt (D : Type 0) : Type 0 where
  waiting : Vm D → Prompt D
  stopped : Failure → Vm D → Prompt D

module _ {D : Type 0} ⦃d : Double D⦄ (size_of : Object D → ℕ) (clock : ℕ → D)
    (leftover : Bytes → Leftover D) (fuel : ℕ) where
  -- `vm.run` of the function that a compilation gives.
  unfoldable pub run_functions : ℕ → List (Function D) → M D (Unit {0})
  unfolding load_functions load_strings run
  run_functions root fs vm =
      let base = vm.gc_heap.next_address in
      (load_functions size_of base fs
          >> load_strings size_of fs
          >> run size_of clock fuel (base + root))
        vm

  -- These objects stay in the heap, until they are collected.
  unfoldable pub leave : Bytes → M D (Unit {0})
  unfolding load_functions load_strings intern_texts
  leave source vm =
      let left = leftover source in
      (load_functions size_of vm.gc_heap.next_address left.functions
          >> load_strings size_of left.functions
          >> intern_texts size_of left.texts)
        vm

  -- `compile`, and `vm.run` of what it gives.
  unfoldable pub run_source : Bytes → Vm D → Ended D
  unfolding compile run_functions leave
  run_source source vm = elim (compile {D = D} fuel source) [
    | Result.err e ↦ failed_compile e (leave source vm)
    | Result.ok (root, fs) ↦ ended ((leave source >> run_functions root fs) vm)
  ]

  -- run_prompt, on the lines that are read: the failures that are printed, and the prompt behind
  -- them. A failure that is not caught ends the program.
  unfoldable pub run_prompt : List Bytes → Vm D → List Failure × Prompt D
  unfolding run_source is_runtime_error
  run_prompt [] vm = ([], waiting vm)
  run_prompt (line ∷ lines) vm = elim (run_source line vm) [
    | succeeded vm' ↦ run_prompt lines vm'
    | failed e vm' ↦ elim (is_runtime_error e) [
      | true ↦ let (es, end) = run_prompt lines vm' in (e ∷ es, end)
      | false ↦ ([], stopped e vm')
    ]
  ]

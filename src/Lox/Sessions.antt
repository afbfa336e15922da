-- ===== src/Lox/Sessions.antt =====
-- Sessions of src/lox.cpp: what holds of the virtual machine behind any lines of a prompt, and which
-- failures it prints.
use cpplox.Lox.Keeps.{StandsIn, Ended-cases, run_prompt-StandsIn}
use cpplox.Lox.{
  Ended, succeeded, failed, Failure, Leftover, Prompt, at_compile, at_run, is_runtime_error,
  run_prompt, run_source, stopped, waiting,
}
use cpplox.Objects.{Object}
use cpplox.Prelude.{
  ℕ, ◌≡◌, ◌≢◌, ap, refl, subst, All, Bool-cases, Option, none, some, true, false, inl, inr, ◌⊎◌,
  List, [], ◌∷◌, ◌++◌, Bytes, arith,
}
use cpplox.Result
use cpplox.Value.{Double}
use cpplox.Vm.Evolves.{Evolves, Evolves-IsRunKept, Evolves-refl, Growth}
use cpplox.Vm.HeapSound.Kept.{HeapInOrder, HeapSound-IsRunKept}
use cpplox.Vm.HeapSound.{HeapSound, SizesByType}
use cpplox.Vm.State
use cpplox.Vm.State.{Vm, out_of_range}

abbrev pub vm_behind : {D : Type 0} → Prompt D → Vm D
vm_behind (waiting vm) = vm
vm_behind (stopped e vm) = vm

module _ {D : Type 0} ⦃d : Double D⦄ (size_of : Object D → ℕ) (clock : ℕ → D)
    (leftover : Bytes → Leftover D) (fuel : ℕ) (lines : List Bytes) (vm : Vm D) where
  Evolves-of_StandsIn :
      (p : Prompt D)
      → StandsIn (Growth size_of vm vm.call_frames) p
      → Evolves vm vm.call_frames (vm_behind p)
  Evolves-of_StandsIn (waiting vm') h = h
  Evolves-of_StandsIn (stopped (at_compile e) vm') h = h
  Evolves-of_StandsIn (stopped (at_run e) vm') h = h tt

  -- Behind any lines of a prompt, failed or not, the activations are those before; what had been
  -- written to the output stands in front of what is written now; every global variable that was
  -- defined is defined; and the clock was not read back.
  pub run_prompt-Evolves :
      Evolves vm vm.call_frames (vm_behind (run_prompt size_of clock leftover fuel lines vm).1)
  run_prompt-Evolves = Evolves-of_StandsIn _ (
      run_prompt-StandsIn size_of clock leftover fuel (Evolves-IsRunKept size_of vm) vm.call_frames
        (λ e caught. tt) lines vm (Evolves-refl vm))

  -- An exception that the prompt catches is no out_of_range.
  caught_in_order : (e : State.Error) → is_runtime_error (at_run e) ≡ true → e ≢ out_of_range
  unfolding is_runtime_error
  caught_in_order e caught is =
      let same : is_runtime_error (at_run out_of_range) ≡ true =
        subst (λ x. is_runtime_error (at_run x) ≡ true) is caught in
      ground arith

  -- Where the type of an object decides the size of its block: if between two instructions no block
  -- is marked, no address is twice in the heap, the byte count is the sum of the sizes, no address
  -- from the next one on was handed out, and the table of strings leads each of its texts to the
  -- object that is the text, then so it is behind any lines of a prompt, of which some may have
  -- failed, as long as the prompt waits for the next line.
  pub run_prompt-HeapSound :
      SizesByType size_of
      → HeapSound size_of vm
      → (printed : List Failure) (vm' : Vm D)
      → run_prompt size_of clock leftover fuel lines vm ≡ (printed, waiting vm')
      → HeapSound size_of vm'
  run_prompt-HeapSound sizes h printed vm' e =
      subst (λ r. StandsIn (HeapInOrder size_of) r.1) e
        (run_prompt-StandsIn size_of clock leftover fuel (HeapSound-IsRunKept size_of sizes)
          vm.call_frames caught_in_order lines vm h)

-- The line that the message of a failure names; none for an exception without such a message.
abbrev pub line_of : Failure → Option ℕ
line_of (at_compile (Result.unexpected_character line c)) = some line
line_of (at_compile (Result.unterminated_string line)) = some line
line_of (at_compile (Result.expected_token line lexeme type)) = some line
line_of (at_compile (Result.unexpected_token line lexeme)) = some line
line_of (at_compile (Result.uninitialized_local line name)) = some line
line_of (at_compile (Result.already_declared line name)) = some line
line_of (at_compile (Result.invalid_assignment_target line)) = some line
line_of (at_compile (Result.top_level_return line)) = some line
line_of (at_compile (Result.initializer_return line)) = some line
line_of (at_compile (Result.inherits_from_itself line)) = some line
line_of (at_compile _) = none
line_of (at_run (State.unexpected_opcode line lexeme byte)) = some line
line_of (at_run (State.not_two_numbers_or_strings line lexeme)) = some line
line_of (at_run (State.not_numbers line lexeme)) = some line
line_of (at_run (State.not_a_number line lexeme)) = some line
line_of (at_run (State.not_callable line lexeme)) = some line
line_of (at_run (State.not_an_instance line lexeme)) = some line
line_of (at_run (State.superclass_not_a_class line lexeme)) = some line
line_of (at_run (State.wrong_arity line lexeme expected given)) = some line
line_of (at_run (State.undefined_variable line name)) = some line
line_of (at_run (State.undefined_property line name)) = some line
line_of (at_run _) = none

abbrev pub NamesLine : Failure → Type 0
NamesLine e = line_of e ≢ none

NamesLine-of_caught : (e : Failure) → is_runtime_error e ≡ true → NamesLine e
unfolding is_runtime_error
NamesLine-of_caught (at_compile e) h = ground arith
NamesLine-of_caught (at_run e) h = ground arith

silent_of_uncaught : (e : Failure) → is_runtime_error e ≡ false → line_of e ≡ none
unfolding is_runtime_error
silent_of_uncaught (at_compile e) h = ground arith
silent_of_uncaught (at_run e) h = ground arith

-- What a prompt does on one line, by how the line ends.
abbrev pub Answers : {D : Type 0} → Ended D → List Failure × Prompt D → Type 0
Answers (succeeded vm) whole = whole ≡ ([], waiting vm)
Answers (failed e vm) whole =
    (NamesLine e × (whole ≡ (e ∷ [], waiting vm)))
    ⊎ ((line_of e ≡ none) × (whole ≡ ([], stopped e vm)))

module _ {D : Type 0} ⦃d : Double D⦄ (size_of : Object D → ℕ) (clock : ℕ → D)
    (leftover : Bytes → Leftover D) (fuel : ℕ) (more : List Bytes) where
  -- How a prompt goes on behind lines, where more lines follow: `whole` is the prompt on all of them.
  abbrev pub GoesOn : List Failure × Prompt D → List Failure × Prompt D → Type 0
  GoesOn (printed, waiting vm) whole =
      All NamesLine printed
      × (whole ≡ (
        printed ++ (run_prompt size_of clock leftover fuel more vm).0,
        (run_prompt size_of clock leftover fuel more vm).1,
      ))
  GoesOn (printed, stopped e vm) whole =
      All NamesLine printed × (line_of e ≡ none) × (whole ≡ (printed, stopped e vm))

  GoesOn-printed :
      (e : Failure) (r whole : List Failure × Prompt D)
      → NamesLine e
      → GoesOn r whole
      → GoesOn (e ∷ r.0, r.1) (e ∷ whole.0, whole.1)
  GoesOn-printed e (printed, waiting vm) whole n (all, same) =
      ((n, all), ap (λ w. (e ∷ w.0, w.1)) same)
  GoesOn-printed e (printed, stopped x vm) whole n (all, silent, same) =
      ((n, all), silent, ap (λ w. (e ∷ w.0, w.1)) same)

  run_prompt-Answers :
      (line : Bytes) (vm : Vm D)
      → Answers
          (run_source size_of clock leftover fuel line vm)
          (run_prompt size_of clock leftover fuel (line ∷ []) vm)
  unfolding run_prompt
  run_prompt-Answers line vm = elim (Ended-cases (run_source size_of clock leftover fuel line vm)) [
    | inl (vm', e) ↦ rw (e, run_prompt) refl
    | inr (x, vm', e) ↦ elim (Bool-cases (is_runtime_error x)) [
      | inl caught ↦ rw (e, run_prompt, caught) (inl (NamesLine-of_caught x caught, refl))
      | inr uncaught ↦ rw (e, run_prompt, uncaught) (inr (silent_of_uncaught x uncaught, refl))
    ]
  ]

  run_prompt-splits :
      (lines : List Bytes) (vm : Vm D)
      → GoesOn
          (run_prompt size_of clock leftover fuel lines vm)
          (run_prompt size_of clock leftover fuel (lines ++ more) vm)
  unfolding run_prompt
  run_prompt-splits [] vm = (tt, refl)
  run_prompt-splits (line ∷ lines) vm =
      elim (Ended-cases (run_source size_of clock leftover fuel line vm)) [
        | inl (vm', e) ↦ rw (e, run_prompt) (run_prompt-splits lines vm')
        | inr (x, vm', e) ↦ elim (Bool-cases (is_runtime_error x)) [
          | inl caught ↦
              rw (e, run_prompt, caught)
                (GoesOn-printed x _ _ (NamesLine-of_caught x caught) (run_prompt-splits lines vm'))
          | inr uncaught ↦ rw (e, run_prompt, uncaught) (tt, silent_of_uncaught x uncaught, refl)
        ]
      ]

  -- On one line a prompt runs it, and waits on the virtual machine that this leaves: it prints
  -- nothing of a run that succeeds, and the failure of one that fails, if that names a line; a
  -- failure that names no line it does not print, and is ended by it. Each failure that a prompt
  -- prints names a line. A prompt that waits behind some lines goes on: on those and more it prints
  -- what it printed for them, then what it prints for the others on the virtual machine that it
  -- had, and ends as it does on the others. A prompt that was ended by a failure, which names no
  -- line, reads no further line.
  pub run_prompt-GoesOn :
      (line : Bytes) (lines : List Bytes) (vm : Vm D)
      → Answers
          (run_source size_of clock leftover fuel line vm)
          (run_prompt size_of clock leftover fuel (line ∷ []) vm)
        × GoesOn
            (run_prompt size_of clock leftover fuel lines vm)
            (run_prompt size_of clock leftover fuel (lines ++ more) vm)
  run_prompt-GoesOn line lines vm = (run_prompt-Answers line vm, run_prompt-splits lines vm)

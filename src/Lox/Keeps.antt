-- ===== src/Lox/Keeps.antt =====
-- The sessions of src/lox.cpp keep what the virtual machine keeps.
use cpplox.Chunk.{SourceMapToken}
use cpplox.Compiler.Statements.{compile}
use cpplox.Lox.{
  Ended, Failure, Leftover, Prompt, at_compile, at_run, failed, failed_compile, intern_texts, leave,
  stopped, succeeded, waiting, is_runtime_error, intern_tokens, intern_values, load_functions,
  load_strings, run_prompt, run_source, run_functions, ended,
}
use cpplox.Objects.{Function, Object}
use cpplox.Prelude.{ℕ, true, ◌+◌, Bool-cases, List, [], ◌∷◌, Bytes, inl, inr, subst, refl, ◌≡◌, ◌⊎◌}
use cpplox.Result
use cpplox.Result.{Result-cases}
use cpplox.Value.{Double, Value}
use cpplox.Vm.Actions.{IsKept, Keeps-intern, Keeps-make}
use cpplox.Vm.Invariants.Runs.{IsRunKept, Keeps-run}
use cpplox.Vm.Keeps.{Ends, Property, Keeps, Keeps-bind, Keeps-pure}
use cpplox.Vm.State
use cpplox.Vm.State.{Outcome, done, threw, Vm}

-- What a source leaves has the property; behind an exception of its run, if that is covered.
abbrev pub EndsIn : {D : Type 0} → Property D → Ended D → Type 0
EndsIn P (succeeded vm) = P.holds vm
EndsIn P (failed (at_compile e) vm) = P.holds vm
EndsIn P (failed (at_run e) vm) = P.covers e → P.holds vm

pub Ended-cases :
    {D : Type 0} (r : Ended D)
    → ((vm : Vm D) × (r ≡ succeeded vm)) ⊎ ((e : Failure) × (vm : Vm D) × (r ≡ failed e vm))
Ended-cases (succeeded vm) = inl (vm, refl)
Ended-cases (failed e vm) = inr (e, vm, refl)

module _ {D : Type 0} (size_of : Object D → ℕ) {P : Property D} (kept : IsKept size_of P) where
  Keeps-intern_values : (vs : List (Value D)) → Keeps P (intern_values size_of vs)
  unfolding intern_values
  Keeps-intern_values [] = Keeps-pure tt
  Keeps-intern_values (Value.string s ∷ vs) = record {
    at = (Keeps-bind _ _ (Keeps-intern kept s) λ _. Keeps-intern_values vs).at;
  }
  Keeps-intern_values (_ ∷ vs) = Keeps-intern_values vs

  Keeps-intern_tokens : (ts : List SourceMapToken) → Keeps P (intern_tokens size_of ts)
  unfolding intern_tokens
  Keeps-intern_tokens [] = Keeps-pure tt
  Keeps-intern_tokens (t ∷ ts) = record {
    at = (Keeps-bind _ _ (Keeps-intern kept t.lexeme) λ _. Keeps-intern_tokens ts).at;
  }

  pub Keeps-load_functions :
      (base : ℕ) (fs : List (Function D)) → Keeps P (load_functions size_of base fs)
  unfolding load_functions
  Keeps-load_functions base [] = Keeps-pure tt
  Keeps-load_functions base (f ∷ fs) = record {
    at = (Keeps-bind _ _ (Keeps-make kept _) λ _. Keeps-load_functions base fs).at;
  }

  pub Keeps-load_strings : (fs : List (Function D)) → Keeps P (load_strings size_of fs)
  unfolding load_strings
  Keeps-load_strings [] = Keeps-pure tt
  Keeps-load_strings (f ∷ fs) = record {
    at =
        (Keeps-bind _ _ (Keeps-intern kept f.name) λ _.
          Keeps-bind _ _ (Keeps-intern_values f.chunk.constants) λ _.
            Keeps-bind _ _ (Keeps-intern_tokens f.chunk.source_map_tokens)
              λ _. Keeps-load_strings fs).at;
  }

  Keeps-intern_texts : (ts : List Bytes) → Keeps P (intern_texts size_of ts)
  unfolding intern_texts
  Keeps-intern_texts [] = Keeps-pure tt
  Keeps-intern_texts (t ∷ ts) = record {
    at = (Keeps-bind _ _ (Keeps-intern kept t) λ _. Keeps-intern_texts ts).at;
  }

-- So does a prompt that waits, and one that a failure ended.
abbrev pub StandsIn : {D : Type 0} → Property D → Prompt D → Type 0
StandsIn P (waiting vm) = P.holds vm
StandsIn P (stopped e vm) = EndsIn P (failed e vm)

module _ {D : Type 0} ⦃d : Double D⦄ (size_of : Object D → ℕ) (clock : ℕ → D)
    (leftover : Bytes → Leftover D) (fuel : ℕ) {Inv : List ℕ → Property D}
    (runs : IsRunKept size_of Inv) (frames : List ℕ)
    (catches : (e : State.Error) → is_runtime_error (at_run e) ≡ true → (Inv frames).covers e) where
  Keeps-run_functions :
      (root : ℕ) (fs : List (Function D))
      → Keeps (Inv frames) (run_functions size_of clock leftover fuel root fs)
  unfolding run_functions
  Keeps-run_functions root fs = record {
    at = λ s h.
        let base = s.gc_heap.next_address in
        let kept = runs.kept frames in
        (Keeps-bind _ _
            (Keeps-bind (load_functions size_of base fs) _
              (Keeps-load_functions size_of kept base fs) λ _. Keeps-load_strings size_of kept fs)
            λ _. Keeps-run size_of clock runs frames fuel (base + root)).at
          s h;
  }

  Keeps-leave : (source : Bytes) → Keeps (Inv frames) (leave size_of clock leftover fuel source)
  unfolding leave
  Keeps-leave source = record {
    at = λ s h.
        let base = s.gc_heap.next_address in
        let left = leftover source in
        let kept = runs.kept frames in
        (Keeps-bind _ _
            (Keeps-bind (load_functions size_of base left.functions) _
              (Keeps-load_functions size_of kept base left.functions)
              λ _. Keeps-load_strings size_of kept left.functions)
            λ _. Keeps-intern_texts size_of kept left.texts).at
          s h;
  }

  EndsIn-ended : (o : Outcome D (Unit {0})) → Ends (Inv frames) o → EndsIn (Inv frames) (ended o)
  EndsIn-ended (done a s) h = h
  EndsIn-ended (threw e s) h = h

  EndsIn-failed_compile :
      (e : Result.Error) (o : Outcome D (Unit {0}))
      → Ends (Inv frames) o
      → EndsIn (Inv frames) (failed_compile e o)
  EndsIn-failed_compile e (done a s) h = h
  EndsIn-failed_compile e (threw x s) h = h

  run_source-EndsIn :
      (source : Bytes) (vm : Vm D)
      → (Inv frames).holds vm
      → EndsIn (Inv frames) (run_source size_of clock leftover fuel source vm)
  unfolding run_source
  run_source-EndsIn source vm h = elim (Result-cases (compile {D = D} fuel source)) [
    | inl ((root, fs), e) ↦
        rw (e, run_source)
          (EndsIn-ended _
            ((Keeps-bind _ _ (Keeps-leave source) λ _. Keeps-run_functions root fs).at vm h))
    | inr (x, e) ↦ rw (e, run_source) (EndsIn-failed_compile x _ ((Keeps-leave source).at vm h))
  ]

  -- A failure that is caught leaves the property.
  holds_of_caught :
      (e : Failure) (vm : Vm D)
      → is_runtime_error e ≡ true
      → EndsIn (Inv frames) (failed e vm)
      → (Inv frames).holds vm
  holds_of_caught (at_compile e) vm caught h = h
  holds_of_caught (at_run e) vm caught h = h (catches e caught)

  pub run_prompt-StandsIn :
      (lines : List Bytes) (vm : Vm D)
      → (Inv frames).holds vm
      → StandsIn (Inv frames) (run_prompt size_of clock leftover fuel lines vm).1
  unfolding run_prompt
  run_prompt-StandsIn [] vm h = h
  run_prompt-StandsIn (line ∷ lines) vm h =
      let kept = run_source-EndsIn line vm h in
      elim (Ended-cases (run_source size_of clock leftover fuel line vm)) [
        | inl (vm', e) ↦
            rw (e, run_prompt)
              (run_prompt-StandsIn lines vm' (subst (λ r. EndsIn (Inv frames) r) e kept))
        | inr (x, vm', e) ↦
            let h' : EndsIn (Inv frames) (failed x vm') =
              subst (λ r. EndsIn (Inv frames) r) e kept in
            elim (Bool-cases (is_runtime_error x)) [
              | inl caught ↦
                  rw (e, run_prompt, caught)
                    (run_prompt-StandsIn lines vm' (holds_of_caught x vm' caught h'))
              | inr uncaught ↦ rw (e, run_prompt, uncaught) h'
            ]
      ]

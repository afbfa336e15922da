-- ===== src/Vm/Called.antt =====
-- The instruction `call` of VM::run in src/vm.cpp, on a closure.
use cpplox.Chunk.{SourceMapToken}
use cpplox.Objects.{
  BoundMethod, a_bound_method, Closure, Function, Object, a_closure, a_function, stack_at,
}
use cpplox.Prelude.{
  sym, ltb, set, length-set, get_elem?-set_self, get_elem?-set_ne, ◌≢◌, ℕ, zero, suc, ◌+◌, ◌-◌, ◌≡◌,
  ◌∙◌, refl, ap, Bool-cases, true, false, inl, inr, some, List, [], ◌∷◌, get_elem?,
  lt-length_of_get_elem?, length, ◌==◌, if◌then◌else◌, size_sub, size_sub_le, arith,
}
use cpplox.Value.{Value}
use cpplox.Vm.Calls.{
  call_bound_method, activate, arity_of, call_at, call_closure, call_value, check_arity, run_next,
}
use cpplox.Vm.Captures.{Frame, operand}
use cpplox.Vm.Closing.{object_of, object_at-eq, closure_at-eq}
use cpplox.Vm.Inherits.{peek-eq}
use cpplox.Vm.Keeps.{bind-done}
use cpplox.Vm.State.{
  bound_method_at, set_peek, Vm, done, threw, closure_at, function_at, object_at, peek, wrong_arity,
}

stack_at-get_elem? :
    {A : Type 0} (xs : List A) (i n : ℕ) (v : A)
    → i + n + 1 ≡ length xs
    → get_elem? xs n ≡ some v
    → stack_at i xs ≡ some v
unfolding stack_at
stack_at-get_elem? [] i n v e h = absurd cc
stack_at-get_elem? (x ∷ xs) i zero v e h =
    let here : (i == length xs) ≡ true = ground arith in rw here h
stack_at-get_elem? (x ∷ xs) i (suc n) v e h =
    let later : (i == length xs) ≡ false = ground arith in
    rw later (stack_at-get_elem? xs i n v (omega arith) h)

module _ {D : Type 0} (size_of : Object D → ℕ) (clock : ℕ → D) where
  function_at-eq :
      (a : ℕ) (f : Function D) (s : Vm D)
      → object_of s a ≡ some (a_function f)
      → function_at a s ≡ done f s
  unfolding function_at
  function_at-eq a f s h =
      bind-done (object_at a) _ s s (a_function f) (object_at-eq a (a_function f) s h)

  -- A call with `n` arguments, where the value below them is a closure, starts the activation whose
  -- part of the stack begins with the closure itself, the arguments above it, or throws that the
  -- number of arguments is not that of the parameters, with the token's line and text; the state
  -- stays as it is.
  pub call_at-Called :
      (frame : Frame D) (t : SourceMapToken) (ip n a : ℕ) (c : Closure) (f : Function D) (s : Vm D)
      → get_elem? frame.chunk.bytecode ip ≡ some n
      → get_elem? s.stack n ≡ some (Value.closure a)
      → object_of s a ≡ some (a_closure c)
      → object_of s c.function_pointer ≡ some (a_function f)
      → (begin : ℕ) × (stack_at begin s.stack ≡ some (Value.closure a))
        × (begin + n + 1 ≡ length s.stack)
        × (call_at size_of clock frame t ip s ≡ (
            if f.arity == n
            then done (activate a begin (ip + 1)) s
            else threw (wrong_arity t.line t.lexeme f.arity n) s))
  unfolding call_at call_value call_closure check_arity arity_of run_next operand
  call_at-Called frame t ip n a c f s at_ip callee at_closure at_function =
      let inside = lt-length_of_get_elem? s.stack n (Value.closure a) callee in
      let begin = length s.stack - n - 1 in
      let begins : size_sub (size_sub (length s.stack) n) 1 ≡ begin =
        ap (λ m. size_sub m 1) (size_sub_le (length s.stack) n (omega arith))
        ∙ size_sub_le (length s.stack - n) 1 (omega arith) in
      let arity : arity_of a s ≡ done f.arity s =
        bind-done (closure_at a) _ s s c (closure_at-eq a c s at_closure)
        ∙ bind-done (function_at c.function_pointer) _ s s f
            (function_at-eq c.function_pointer f s at_function) in
      let fetched : call_at size_of clock frame t ip s ≡ call_closure t n (ip + 1) a s =
        bind-done (operand frame ip) _ s s n (rw (at_ip, operand) refl)
        ∙ bind-done (peek n) _ s s (Value.closure a) (peek-eq n (Value.closure a) s callee) in
      (
        begin,
        stack_at-get_elem? s.stack begin n (Value.closure a) (omega arith) callee,
        omega arith,
        fetched ∙ bind-done (arity_of a) _ s s f.arity arity ∙ elim (Bool-cases (f.arity == n)) [
          | inl e ↦ rw (e, check_arity) (ap (λ b. done (activate a b (ip + 1)) s) begins)
          | inr e ↦ rw (e, check_arity) refl
        ],
      )

  -- A call with `n` arguments, where the value below them is a bound method, starts the activation of
  -- the method with the instance in the place of the bound method, at the begin of its part of the
  -- stack, and every other value where it was; or throws that the number of arguments is not that of
  -- the parameters, with the token's line and text and the stack as it was.
  pub call_at-Bound :
      (frame : Frame D) (t : SourceMapToken) (ip n a : ℕ) (m : BoundMethod) (c : Closure)
      (f : Function D) (s : Vm D)
      → get_elem? frame.chunk.bytecode ip ≡ some n
      → get_elem? s.stack n ≡ some (Value.bound_method a)
      → object_of s a ≡ some (a_bound_method m)
      → object_of s m.method_pointer ≡ some (a_closure c)
      → object_of s c.function_pointer ≡ some (a_function f)
      → (begin : ℕ) × (stack' : List (Value D)) × (stack_at begin stack'
          ≡ some (Value.instance_ m.instance_pointer))
        × ((k : ℕ) → k ≢ n → get_elem? stack' k ≡ get_elem? s.stack k)
        × (begin + n + 1 ≡ length stack')
        × (length stack' ≡ length s.stack)
        × (call_at size_of clock frame t ip s ≡ (
            if f.arity == n
            then done (activate m.method_pointer begin (ip + 1)) (record s { stack = stack' })
            else threw (wrong_arity t.line t.lexeme f.arity n) s))
  unfolding call_at call_value call_bound_method check_arity arity_of run_next operand
      bound_method_at set_peek
  call_at-Bound frame t ip n a m c f s at_ip callee at_method at_closure at_function =
      let this : Value D = Value.instance_ m.instance_pointer in
      let inside = lt-length_of_get_elem? s.stack n (Value.bound_method a) callee in
      let stack' : List (Value D) = set s.stack n this in
      let size : length stack' ≡ length s.stack = length-set s.stack n this in
      let begin = length stack' - n - 1 in
      let begins : size_sub (size_sub (length stack') n) 1 ≡ begin =
        ap (λ m. size_sub m 1) (size_sub_le (length stack') n (omega arith))
        ∙ size_sub_le (length stack' - n) 1 (omega arith) in
      let method : bound_method_at a s ≡ done m s =
        bind-done (object_at a) _ s s (a_bound_method m)
          (object_at-eq a (a_bound_method m) s at_method) in
      let arity : arity_of m.method_pointer s ≡ done f.arity s =
        bind-done (closure_at m.method_pointer) _ s s c
          (closure_at-eq m.method_pointer c s at_closure)
        ∙ bind-done (function_at c.function_pointer) _ s s f
            (function_at-eq c.function_pointer f s at_function) in
      let within : ltb n (length s.stack) ≡ true = ground arith in
      let fetched : call_at size_of clock frame t ip s ≡ call_bound_method t n (ip + 1) a s =
        bind-done (operand frame ip) _ s s n (rw (at_ip, operand) refl)
        ∙ bind-done (peek n) _ s s (Value.bound_method a)
            (peek-eq n (Value.bound_method a) s callee) in
      (
        begin,
        stack',
        stack_at-get_elem? stack' begin n this (omega arith)
            (get_elem?-set_self s.stack n this inside),
        λ k other. get_elem?-set_ne s.stack n k this (λ e. other (sym e)),
        omega arith,
        size,
        fetched
            ∙ bind-done (bound_method_at a) _ s s m method
            ∙ bind-done (arity_of m.method_pointer) _ s s f.arity arity
            ∙ elim (Bool-cases (f.arity == n)) [
              | inl e ↦
                  rw (e, check_arity)
                    (bind-done (set_peek n this) _ s (record s { stack = stack' }) tt
                        (rw (within, set_peek) refl)
                      ∙ ap
                          (λ b.
                            done (activate m.method_pointer b (ip + 1))
                              (record s { stack = stack' }))
                          begins)
              | inr e ↦ rw (e, check_arity) refl
            ],
      )

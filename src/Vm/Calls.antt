-- ===== src/Vm/Calls.antt =====
-- The instruction `call` of VM::run in src/vm.cpp. It ends with the activation that it starts, if any.
use cpplox.Chunk.{SourceMapToken}
use cpplox.Objects.{Object, an_instance}
use cpplox.Prelude.{
  ℕ, ◌+◌, Option, none, some, [], ◌∷◌, length, ◌==◌, if◌then◌else◌, Bytes, bytes_eq, size_sub,
}
use cpplox.Table.{lookup}
use cpplox.Value.{Value}
use cpplox.Vm.Captures.{Frame, operand}
use cpplox.Vm.State.{
  M, ◌>>=◌, ◌>>◌, pure, throw, not_callable, wrong_arity, peek, push, set_peek, erase_back,
  class_at, closure_at, function_at, bound_method_at, make, intern, read_clock,
}

-- What comes after an instruction: the next one, or an activation of a closure on the stack from an
-- index and then the next one, or the end of the activation.
pub data Next : Type 0 where
  continue_at : ℕ → Next
  activate : ℕ → ℕ → ℕ → Next
  finished : Next

abbrev pub word_init : Bytes
word_init = b'i' ∷ b'n' ∷ b'i' ∷ b't' ∷ []

module _ {D : Type 0} where
  unfoldable pub check_arity : SourceMapToken → ℕ → ℕ → M D (Unit {0})
  check_arity token arity arg_count =
      if arity == arg_count
      then pure tt
      else throw (wrong_arity token.line token.lexeme arity arg_count)

  -- `closure->function->arity`
  unfoldable pub arity_of : ℕ → M D ℕ
  unfolding closure_at function_at
  arity_of closure = do c ← closure_at closure; f ← function_at c.function_pointer; pure f.arity

  -- `run(closure, stack_.size() - arg_count - 1)`
  unfoldable pub run_next : ℕ → ℕ → ℕ → M D Next
  unfolding size_sub
  run_next closure arg_count ip s =
      pure (activate closure (size_sub (size_sub (length s.stack) arg_count) 1) ip) s

  unfoldable pub call_closure : SourceMapToken → ℕ → ℕ → ℕ → M D Next
  unfolding arity_of check_arity run_next
  call_closure token arg_count ip closure = do
    arity ← arity_of closure
    check_arity token arity arg_count
    run_next closure arg_count ip

  unfoldable pub call_bound_method : SourceMapToken → ℕ → ℕ → ℕ → M D Next
  unfolding arity_of check_arity run_next bound_method_at set_peek
  call_bound_method token arg_count ip bound_method = do
    m ← bound_method_at bound_method
    arity ← arity_of m.method_pointer
    check_arity token arity arg_count
    set_peek arg_count (Value.instance_ m.instance_pointer)
    run_next m.method_pointer arg_count ip

-- `clock` gives the seconds of each reading of the system clock.
module _ {D : Type 0} (size_of : Object D → ℕ) (clock : ℕ → D) where
  -- An instance of the class, on what the search for the method `init` found.
  unfoldable pub construct : SourceMapToken → ℕ → ℕ → ℕ → Option ℕ → M D Next
  unfolding arity_of check_arity make set_peek run_next
  construct token arg_count ip klass none = do
    check_arity token 0 arg_count
    a ← make size_of (an_instance (record { klass = klass; fields = [] }))
    set_peek arg_count (Value.instance_ a)
    pure (continue_at ip)
  construct token arg_count ip klass (some init) = do
    arity ← arity_of init
    check_arity token arity arg_count
    a ← make size_of (an_instance (record { klass = klass; fields = [] }))
    set_peek arg_count (Value.instance_ a)
    run_next init arg_count ip

  unfoldable pub call_class : SourceMapToken → ℕ → ℕ → ℕ → M D Next
  unfolding class_at intern lookup bytes_eq construct
  call_class token arg_count ip klass = do
    k ← class_at klass
    intern size_of word_init
    construct token arg_count ip klass (lookup bytes_eq word_init k.methods)

  -- clock_native, the one native function, ignores its arguments.
  unfoldable pub call_native_fn : ℕ → ℕ → M D Next
  unfolding read_clock erase_back push
  call_native_fn arg_count ip = do
    reading ← read_clock
    erase_back (arg_count + 1)
    push (Value.number (clock reading))
    pure (continue_at ip)

  unfoldable pub call_value : SourceMapToken → ℕ → ℕ → Value D → M D Next
  unfolding call_closure call_class call_bound_method call_native_fn
  call_value token arg_count ip (Value.closure a) = call_closure token arg_count ip a
  call_value token arg_count ip (Value.class a) = call_class token arg_count ip a
  call_value token arg_count ip (Value.bound_method a) = call_bound_method token arg_count ip a
  call_value token arg_count ip (Value.native_fn a) = call_native_fn arg_count ip
  call_value token arg_count ip _ = throw (not_callable token.line token.lexeme)

  unfoldable pub call_at : Frame D → SourceMapToken → ℕ → M D Next
  unfolding operand peek call_value
  call_at frame token ip = do
    arg_count ← operand frame ip
    callee ← peek arg_count
    call_value token arg_count (ip + 1) callee

-- ===== src/Vm/Captures.antt =====
-- Open upvalues: the instructions `closure`, `close_upvalue` and `return_` of VM::run in src/vm.cpp.
use cpplox.Chunk.{Chunk}
use cpplox.Objects.{
  Object, open_at, a_closure, an_upvalue, upvalue_value, close, stack_index, assign_upvalue,
}
use cpplox.Prelude.{
  ℕ, zero, suc, ◌+◌, Option, none, some, List, [], ◌∷◌, ◌++◌, length, ltb, ◌==◌, if◌then◌else◌,
  get_elem?, size_sub,
}
use cpplox.Value.{Value}
use cpplox.Vm.State.{
  M, ◌>>=◌, ◌>>◌, pure, get, require, bad_variant_access, out_of_range, undefined_behaviour,
  pop_back, closure_at, upvalue_at, write_object, make,
}

-- What an activation of VM::run has besides the state: its closure, where its part of the stack
-- begins, and the chunk of its function.
pub record Frame (D : Type 0) : Type 0 where
  pub closure_pointer : ℕ
  pub stack_begin_index : ℕ
  pub chunk : Chunk D

-- `open_upvalues.back()` and `open_upvalues.pop_back()`
unfoldable pub last_of : List ℕ → Option ℕ
last_of [] = none
last_of (a ∷ []) = some a
last_of (a ∷ b ∷ rest) = last_of (b ∷ rest)

unfoldable pub without_last : List ℕ → List ℕ
without_last [] = []
without_last (a ∷ []) = []
without_last (a ∷ b ∷ rest) = a ∷ without_last (b ∷ rest)

-- The bottom `n` values of a stack.
unfoldable pub keep_bottom {ℓ} : {A : Type ℓ} → ℕ → List A → List A
keep_bottom n [] = []
keep_bottom n (v ∷ vs) = if ltb (length vs) n then v ∷ vs else keep_bottom n vs

module _ {D : Type 0} where
  -- `*bytecode_iter`
  unfoldable pub operand : Frame D → ℕ → M D ℕ
  operand frame ip = require undefined_behaviour (get_elem? frame.chunk.bytecode ip)

  -- `constants[i]`
  unfoldable pub constant_at : Frame D → ℕ → M D (Value D)
  constant_at frame i = require undefined_behaviour (get_elem? frame.chunk.constants i)

  unfoldable pub upvalue_stack_index : ℕ → M D ℕ
  unfolding upvalue_at stack_index
  upvalue_stack_index a = do u ← upvalue_at a; require bad_variant_access (stack_index u)

  -- The open upvalue of a stack index, by `std::find_if`.
  unfoldable pub find_open : ℕ → List ℕ → M D (Option ℕ)
  unfolding upvalue_stack_index
  find_open i [] = pure none
  find_open i (a ∷ rest) = do
    j ← upvalue_stack_index a
    if j == i then pure (some a) else find_open i rest

  -- `open_upvalues.insert`, before the first of a greater stack index.
  unfoldable pub insert_sorted : ℕ → ℕ → List ℕ → M D (List ℕ)
  unfolding upvalue_stack_index
  insert_sorted i new [] = pure (new ∷ [])
  insert_sorted i new (a ∷ rest) = do
    j ← upvalue_stack_index a
    if ltb i j
        then pure (new ∷ a ∷ rest)
        else (insert_sorted i new rest >>= λ inserted. pure (a ∷ inserted))

  -- `closure->upvalues.push_back(upvalue)`
  unfoldable pub push_upvalue : ℕ → ℕ → M D (Unit {0})
  unfolding closure_at write_object
  push_upvalue closure upvalue = do
    c ← closure_at closure
    write_object closure (a_closure (record c { upvalues = c.upvalues ++ upvalue ∷ [] }))

  unfoldable pub set_open_upvalues : ℕ → List ℕ → M D (Unit {0})
  unfolding closure_at write_object
  set_open_upvalues closure opens = do
    c ← closure_at closure
    write_object closure (a_closure (record c { open_upvalues = opens }))

  -- `upvalue->close()`
  unfoldable pub close_at : ℕ → M D (Unit {0})
  unfolding upvalue_at close write_object
  close_at a = do
    u ← upvalue_at a
    s ← get
    u' ← require out_of_range (close s.stack u)
    write_object a (an_upvalue u')

  unfoldable pub close_all : List ℕ → M D (Unit {0})
  unfolding close_at
  close_all [] = pure tt
  close_all (a ∷ rest) = close_at a >> close_all rest

  -- What `close_upvalue` does before it pops, on the last open upvalue.
  unfoldable pub close_last : Frame D → List ℕ → Option ℕ → M D (Unit {0})
  unfolding upvalue_stack_index close_at set_open_upvalues without_last size_sub
  close_last frame opens none = pure tt
  close_last frame opens (some a) = do
    i ← upvalue_stack_index a
    s ← get
    if i == size_sub (length s.stack) 1
        then close_at a >> set_open_upvalues frame.closure_pointer (without_last opens)
        else pure tt

  unfoldable pub close_top : Frame D → M D (Unit {0})
  unfolding closure_at last_of close_last pop_back
  close_top frame = do
    c ← closure_at frame.closure_pointer
    close_last frame c.open_upvalues (last_of c.open_upvalues)
    pop_back

  -- The stack of the caller, with the value that is returned at its back.
  unfoldable pub return_stack : ℕ → M D (Unit {0})
  unfolding keep_bottom
  return_stack begin s = elim s.stack [
    | [] ↦ require undefined_behaviour none s
    | v ∷ vs ↦
        if ltb (length vs) begin
        then require undefined_behaviour none s
        else pure tt (record s { stack = v ∷ keep_bottom begin vs })
  ]

  unfoldable pub return_from : Frame D → M D (Unit {0})
  unfolding closure_at close_all return_stack
  return_from frame = do
    c ← closure_at frame.closure_pointer
    close_all c.open_upvalues
    return_stack frame.stack_begin_index

  -- `upvalues[i]`, unchecked
  unfoldable pub capture_upvalue : Frame D → ℕ → ℕ → M D (Unit {0})
  unfolding closure_at push_upvalue
  capture_upvalue frame new_closure i = do
    c ← closure_at frame.closure_pointer
    a ← require undefined_behaviour (get_elem? c.upvalues i)
    push_upvalue new_closure a

  -- `upvalues.at(i)->value()`, and an assignment to it
  unfoldable pub get_upvalue_at : Frame D → ℕ → M D (Value D)
  unfolding closure_at upvalue_at upvalue_value
  get_upvalue_at frame i = do
    c ← closure_at frame.closure_pointer
    a ← require out_of_range (get_elem? c.upvalues i)
    u ← upvalue_at a
    s ← get
    require out_of_range (upvalue_value s.stack u)

  -- `upvalue->value() = v`
  unfoldable pub assign_upvalue_at : ℕ → Value D → M D (Unit {0})
  unfolding upvalue_at assign_upvalue write_object
  assign_upvalue_at a v = do
    u ← upvalue_at a
    s ← get
    (stack', u') ← require out_of_range (assign_upvalue v s.stack u)
    λ s'. pure tt (record s' { stack = stack' })
    write_object a (an_upvalue u')

  unfoldable pub set_upvalue_at : Frame D → ℕ → Value D → M D (Unit {0})
  unfolding closure_at assign_upvalue_at
  set_upvalue_at frame i v = do
    c ← closure_at frame.closure_pointer
    a ← require out_of_range (get_elem? c.upvalues i)
    assign_upvalue_at a v

module _ {D : Type 0} (size_of : Object D → ℕ) where
  -- The capture of the stack index `i`, on the open upvalue that was found for it.
  unfoldable pub capture_found : Frame D → ℕ → ℕ → List ℕ → Option ℕ → M D (Unit {0})
  unfolding make push_upvalue insert_sorted set_open_upvalues
  capture_found frame new_closure i opens (some a) = push_upvalue new_closure a
  capture_found frame new_closure i opens none = do
    a ← make size_of (an_upvalue (open_at i))
    push_upvalue new_closure a
    opens' ← insert_sorted i a opens
    set_open_upvalues frame.closure_pointer opens'

  unfoldable pub capture_local : Frame D → ℕ → ℕ → M D (Unit {0})
  unfolding closure_at find_open capture_found
  capture_local frame new_closure index = do
    c ← closure_at frame.closure_pointer
    existing ← find_open (frame.stack_begin_index + index) c.open_upvalues
    capture_found frame new_closure (frame.stack_begin_index + index) c.open_upvalues existing

  -- The loop over the captures, from `ip`; the position behind them.
  unfoldable pub capture_loop : Frame D → ℕ → ℕ → ℕ → M D ℕ
  unfolding operand capture_local capture_upvalue
  capture_loop frame new_closure zero ip = pure ip
  capture_loop frame new_closure (suc n) ip = do
    is_direct_capture ← operand frame ip
    enclosing_index ← operand frame (ip + 1)
    if is_direct_capture == 0
        then capture_upvalue frame new_closure enclosing_index
        else capture_local frame new_closure enclosing_index
    capture_loop frame new_closure n (ip + 2)

-- ===== src/Vm/Assigns.antt =====
-- Captured variables: an assignment through an upvalue, in VM::run of src/vm.cpp.
use cpplox.Objects.{
  Closure, Upvalue, open_at, closed, a_closure, an_upvalue, assign_upvalue, stack_at, stack_set,
  upvalue_value,
}
use cpplox.Prelude.{
  ℕ, ◌==◌, ◌≡◌, ◌≢◌, ◌∙◌, refl, sym, ap, if◌then◌else◌, Option, some, List, [], ◌∷◌, get_elem?,
  length, arith,
}
use cpplox.Value.{Value}
use cpplox.Vm.Captures.{Frame, assign_upvalue_at, get_upvalue_at, set_upvalue_at}
use cpplox.Vm.Closing.{Reads, closure_at-eq, object_of, upvalue_at-eq}
use cpplox.Vm.Keeps.{bind-done}
use cpplox.Vm.State.{Vm, done, closure_at, out_of_range, require, upvalue_at, write_object}
use cpplox.Vm.Writes.{value_at-write_other, value_at-write_self}

module _ {A : Type 0} where
  length-stack_set : (i : ℕ) (v : A) (xs : List A) → length (stack_set i v xs) ≡ length xs
  unfolding stack_set
  length-stack_set i v [] = refl
  length-stack_set i v (x ∷ xs) = ground (arith, length-stack_set i v xs)

  stack_at-stack_set :
      (k i : ℕ) (v old : A) (xs : List A)
      → stack_at i xs ≡ some old
      → stack_at k (stack_set i v xs) ≡ (if k == i then some v else stack_at k xs)
  unfolding stack_at stack_set
  stack_at-stack_set k i v old [] h = ground arith
  stack_at-stack_set k i v old (x ∷ xs) h =
      ground (arith, length-stack_set i v xs, stack_at-stack_set k i v old xs)

module _ {D : Type 0} where
  -- What a stack slot has behind an assignment of `v` through an upvalue.
  abbrev pub slot_after : Upvalue D → Value D → ℕ → Option (Value D) → Option (Value D)
  slot_after (open_at i) v k was = if k == i then some v else was
  slot_after (closed w) v k was = was

  -- What an assignment of `v` through the upvalue `u` at an address does.
  pub record Assigned (a : ℕ) (u : Upvalue D) (v : Value D) (s s' : Vm D) : Type 0 where
    pub reads : Reads s' a v
    pub others : (x : ℕ) → x ≢ a → object_of s' x ≡ object_of s x
    pub slots : (k : ℕ) → stack_at k s'.stack ≡ slot_after u v k (stack_at k s.stack)
    pub same_length : length s'.stack ≡ length s.stack

  -- The stack and the upvalue behind an assignment.
  assign_upvalue-eq :
      (u : Upvalue D) (v old : Value D) (stack : List (Value D))
      → upvalue_value stack u ≡ some old
      → (stack' : List (Value D)) × (u' : Upvalue D) × (assign_upvalue v stack u
          ≡ some (stack', u'))
        × (upvalue_value stack' u' ≡ some v)
        × ((k : ℕ) → stack_at k stack' ≡ slot_after u v k (stack_at k stack))
        × (length stack' ≡ length stack)
  unfolding assign_upvalue upvalue_value
  assign_upvalue-eq (closed w) v old stack h = (stack, closed v, refl, refl, λ k. refl, refl)
  assign_upvalue-eq (open_at i) v old stack h = (
    stack_set i v stack,
    open_at i,
    rw (h, assign_upvalue) refl,
    stack_at-stack_set i i v old stack h ∙ ground arith,
    λ k. stack_at-stack_set k i v old stack h,
    length-stack_set i v stack,
  )

  get_upvalue_at-eq :
      (frame : Frame D) (c : Closure) (i a : ℕ) (v : Value D) (s : Vm D)
      → object_of s frame.closure_pointer ≡ some (a_closure c)
      → get_elem? c.upvalues i ≡ some a
      → Reads s a v
      → get_upvalue_at frame i s ≡ done v s
  unfolding get_upvalue_at
  get_upvalue_at-eq frame c i a v s at_closure at_i (u, at_a, reads) =
      bind-done (closure_at frame.closure_pointer) _ s s c
        (closure_at-eq frame.closure_pointer c s at_closure)
      ∙ bind-done (require out_of_range (get_elem? c.upvalues i)) _ s s a
          (ap (λ o. require out_of_range o s) at_i)
      ∙ bind-done (upvalue_at a) _ s s u (upvalue_at-eq a u s at_a)
      ∙ ap (λ o. require out_of_range o s) reads

  -- An assignment to a captured variable that can be read succeeds; every closure that has captured
  -- the variable by the same upvalue then reads the value; while the variable is on the stack its slot
  -- there has the value; and no other slot and no other object changes.
  pub set_upvalue_at-Assigned :
      (frame frame' : Frame D) (c c' : Closure) (i i' a : ℕ) (u : Upvalue D) (v old : Value D)
      (s : Vm D)
      → object_of s frame.closure_pointer ≡ some (a_closure c)
      → get_elem? c.upvalues i ≡ some a
      → object_of s frame'.closure_pointer ≡ some (a_closure c')
      → get_elem? c'.upvalues i' ≡ some a
      → object_of s a ≡ some (an_upvalue u)
      → upvalue_value s.stack u ≡ some old
      → (s' : Vm D) × (set_upvalue_at frame i v s ≡ done tt s')
        × Assigned a u v s s'
        × (get_upvalue_at frame' i' s' ≡ done v s')
  unfolding set_upvalue_at assign_upvalue_at write_object
  set_upvalue_at-Assigned frame frame' c c' i i' a u v old s at_closure at_i at_closure' at_i' at_a
        reads =
      let (stack', u', assigns, reads', slots, size) = assign_upvalue-eq u v old s.stack reads in
      let s₁ : Vm D = record s { stack = stack' } in
      let there = value_at-write_self a (an_upvalue u') s.gc_heap.all_ptrs (an_upvalue u) at_a in
      let others = λ (x : ℕ). value_at-write_other x a (an_upvalue u') s.gc_heap.all_ptrs in
      let apart : frame'.closure_pointer ≢ a =
        λ e. let both = sym at_closure' ∙ ap (object_of s) e ∙ at_a in absurd cc in
      (
        _,
        bind-done (closure_at frame.closure_pointer) _ s s c
              (closure_at-eq frame.closure_pointer c s at_closure)
            ∙ bind-done (require out_of_range (get_elem? c.upvalues i)) _ s s a
                (ap (λ o. require out_of_range o s) at_i)
            ∙ bind-done (upvalue_at a) _ s s u (upvalue_at-eq a u s at_a)
            ∙ bind-done (require out_of_range (assign_upvalue v s.stack u)) _ s s (stack', u')
                (ap (λ o. require out_of_range o s) assigns),
        record { reads = (u', there, reads'); others = others; slots = slots; same_length = size },
        get_upvalue_at-eq frame' c' i' a v _ (others frame'.closure_pointer apart ∙ at_closure')
            at_i' (u', there, reads'),
      )

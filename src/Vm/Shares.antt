-- ===== src/Vm/Shares.antt =====
-- The instruction `closure` of VM::run in src/vm.cpp, on a local variable that is captured already.
use cpplox.Memory.Marking.{In}
use cpplox.Objects.{Closure, Object, open_at, a_closure, an_upvalue, stack_index}
use cpplox.Prelude.{
  ℕ, ◌+◌, ◌==◌, ◌≡◌, ◌≢◌, ◌∙◌, refl, sym, ap, All, Bool-cases, if◌then◌else◌, some, List, [], ◌∷◌,
  ◌++◌, inl, inr, arith,
}
use cpplox.Vm.Captures.{
  Frame, capture_found, capture_local, find_open, push_upvalue, upvalue_stack_index,
}
use cpplox.Vm.Closing.{closure_at-eq, object_of, upvalue_at-eq}
use cpplox.Vm.Keeps.{bind-done}
use cpplox.Vm.State.{Vm, done, closure_at, pure, upvalue_at, write_object}
use cpplox.Vm.Writes.{value_at-write_other, value_at-write_self}

module _ {D : Type 0} where
  -- The upvalue at an address is open at a stack index.
  abbrev pub IsOpenAt : Vm D → ℕ → ℕ → Type 0
  IsOpenAt s i a = object_of s a ≡ some (an_upvalue (open_at i))

  upvalue_stack_index-eq :
      (a i : ℕ) (s : Vm D) → IsOpenAt s i a → upvalue_stack_index a s ≡ done i s
  unfolding upvalue_stack_index stack_index
  upvalue_stack_index-eq a i s h =
      bind-done (upvalue_at a) _ s s (open_at i) (upvalue_at-eq a (open_at i) s h)

  index-inj : (a i j : ℕ) (s : Vm D) → IsOpenAt s i a → IsOpenAt s j a → i ≡ j
  index-inj a i j s h h' = let both = sym h ∙ h' in cc

  find_open-eq :
      (i a : ℕ) (opens : List ℕ) (s : Vm D)
      → All (λ x. (j : ℕ) × IsOpenAt s j x) opens
      → In a opens
      → IsOpenAt s i a
      → (b : ℕ) × In b opens × IsOpenAt s i b × (find_open i opens s ≡ done (some b) s)
  unfolding find_open
  find_open-eq i a [] s all member is_open = absurd member
  find_open-eq i a (x ∷ opens) s ((j, at_x), all) member is_open =
      let step =
        bind-done (upvalue_stack_index x) (λ k. if k == i then pure (some x) else find_open i opens)
          s s j (upvalue_stack_index-eq x j s at_x) in
      elim (Bool-cases (j == i)) [
        | inl e ↦
            let same : j ≡ i = ground arith in
            (x, inl refl, at_x ∙ ap (λ k. some (an_upvalue (open_at k))) same, step ∙ rw e refl)
        | inr e ↦ elim member [
          | inl first ↦
              let both = index-inj a i j s is_open (ap (object_of s) first ∙ at_x) in
              absurd (ground arith)
          | inr later ↦
              let (b, member', is_open', found) = find_open-eq i a opens s all later is_open in
              (b, inr member', is_open', step ∙ rw e found)
        ]
      ]

module _ {D : Type 0} (size_of : Object D → ℕ) where
  -- Where the open upvalues that a closure lists are all open and one of them is open at the stack
  -- index of a local, a capture of the local by a new closure makes no upvalue: one that is listed
  -- and open at that index is put behind the upvalues of the new closure, and nothing else changes on
  -- the stack or among the objects.
  pub capture_local-Shares :
      (frame : Frame D) (new_closure index a : ℕ) (c n : Closure) (s : Vm D)
      → object_of s frame.closure_pointer ≡ some (a_closure c)
      → object_of s new_closure ≡ some (a_closure n)
      → All (λ x. (j : ℕ) × IsOpenAt s j x) c.open_upvalues
      → In a c.open_upvalues
      → IsOpenAt s (frame.stack_begin_index + index) a
      → (b : ℕ) × (s' : Vm D) × In b c.open_upvalues
        × IsOpenAt s (frame.stack_begin_index + index) b
        × (capture_local size_of frame new_closure index s ≡ done tt s')
        × (object_of s' new_closure
            ≡ some (a_closure (record n { upvalues = n.upvalues ++ b ∷ [] })))
        × ((x : ℕ) → x ≢ new_closure → object_of s' x ≡ object_of s x)
        × (s'.stack ≡ s.stack)
  unfolding capture_local capture_found push_upvalue write_object
  capture_local-Shares frame new_closure index a c n s at_closure at_new all member is_open =
      let i = frame.stack_begin_index + index in
      let (b, member', is_open', found) = find_open-eq i a c.open_upvalues s all member is_open in
      let pushed : Closure = record n { upvalues = n.upvalues ++ b ∷ [] } in
      (
        b,
        _,
        member',
        is_open',
        bind-done (closure_at frame.closure_pointer) _ s s c
              (closure_at-eq frame.closure_pointer c s at_closure)
            ∙ bind-done (find_open i c.open_upvalues) _ s s (some b) found
            ∙ bind-done (closure_at new_closure) _ s s n (closure_at-eq new_closure n s at_new),
        value_at-write_self new_closure (a_closure pushed) s.gc_heap.all_ptrs (a_closure n) at_new,
        λ x other. value_at-write_other x new_closure (a_closure pushed) s.gc_heap.all_ptrs other,
        refl,
      )

-- ===== src/Vm/Returns.antt =====
-- The instruction `return_` of VM::run in src/vm.cpp: what becomes of the open upvalues.
use cpplox.Memory.Marking.{In}
use cpplox.Objects.{Closure, Object, closed, a_closure, an_upvalue, upvalue_value, stack_index}
use cpplox.Prelude.{
  ℕ, ◌+◌, ◌==◌, ◌≡◌, ◌∙◌, refl, sym, ap, subst, Bool-cases, some, List, [], ◌∷◌, length, ltb, inl,
  inr, arith, eq_of_test,
}
use cpplox.Value.{Value}
use cpplox.Vm.Captures.{
  Frame, close_all, close_at, keep_bottom, return_from, return_stack, capture_local, find_open,
  upvalue_stack_index,
}
use cpplox.Vm.Keeps.{bind-done, bind-threw}
use cpplox.Vm.State.{
  Vm, done, threw, bad_variant_access, undefined_behaviour, closure_at, upvalue_at,
}
use cpplox.Vm.Closing.{
  closure-inj, closure_at-eq, upvalue_at-eq, Closed, Reads, bind-inv, close_at-Closed,
  closure_at-inv, done-inv, object_of, some-inj, upvalue-inj,
}

module _ {D : Type 0} where
  -- What closing a list of upvalues does.
  record AllClosed (opens : List ℕ) (s s' : Vm D) : Type 0 where
    closes :
        (a : ℕ)
        → In a opens
        → (v : Value D) × Reads s a v × (object_of s' a ≡ some (an_upvalue (closed v)))
    stays :
        (a : ℕ) (v : Value D)
        → object_of s a ≡ some (an_upvalue (closed v))
        → object_of s' a ≡ some (an_upvalue (closed v))
    others : (x : ℕ) → ¬ In x opens → object_of s' x ≡ object_of s x
    same_stack : s'.stack ≡ s.stack

  module _ (b : ℕ) (s s' : Vm D) (step : Closed b s s') where
    Closed-stays :
        (a : ℕ) (v : Value D)
        → object_of s a ≡ some (an_upvalue (closed v))
        → object_of s' a ≡ some (an_upvalue (closed v))
    unfolding upvalue_value
    Closed-stays a v h = elim (Bool-cases (a == b)) [
      | inl e ↦
          let same : a ≡ b = eq_of_test a b e in
          let is : step.old ≡ closed v =
            upvalue-inj _ _ (sym step.was ∙ ap (object_of s) (sym same) ∙ h) in
          let held : step.held ≡ v = some-inj _ _ (sym step.read ∙ ap (upvalue_value s.stack) is) in
          ap (object_of s') same ∙ step.becomes ∙ ap (λ w. some (an_upvalue (closed w))) held
      | inr e ↦ step.others a (λ q. ground arith) ∙ h
    ]

    -- What an upvalue has behind the step it had before it.
    Closed-back : (a : ℕ) (v : Value D) → Reads s' a v → Reads s a v
    unfolding upvalue_value
    Closed-back a v (u, at_a, reads) = elim (Bool-cases (a == b)) [
      | inl e ↦
          let same : a ≡ b = eq_of_test a b e in
          let is : u ≡ closed step.held =
            upvalue-inj _ _ (sym at_a ∙ ap (object_of s') same ∙ step.becomes) in
          let held : step.held ≡ v = some-inj _ _ (ap (upvalue_value s'.stack) (sym is) ∙ reads) in
          (step.old, ap (object_of s) same ∙ step.was, step.read ∙ ap some held)
      | inr e ↦ (
        u,
        sym (step.others a (λ q. ground arith)) ∙ at_a,
        ap (λ stack. upvalue_value stack u) (sym step.same_stack) ∙ reads,
      )
    ]

  close_all-AllClosed :
      (opens : List ℕ) (s s' : Vm D) → close_all opens s ≡ done tt s' → AllClosed opens s s'
  unfolding close_all
  close_all-AllClosed [] s s' h = subst (AllClosed [] s) (done-inv tt tt s s' h).1 (record {
    closes = λ a absent. absurd absent;
    stays = λ a v e. e;
    others = λ x absent. refl;
    same_stack = refl;
  })
  close_all-AllClosed (b ∷ opens) s s' h =
      let (_, s₁, e₁, h₁) = bind-inv (close_at b) (λ _. close_all opens) s s' tt h in
      let step = close_at-Closed b s s₁ e₁ in
      let rest = close_all-AllClosed opens s₁ s' h₁ in
      record {
        closes = λ a member. elim member [
          | inl e ↦ (
            step.held,
            (step.old, ap (object_of s) e ∙ step.was, step.read),
            rest.stays a step.held (ap (object_of s₁) e ∙ step.becomes),
          )
          | inr later ↦
              let (v, reads, becomes) = rest.closes a later in
              (v, Closed-back b s s₁ step a v reads, becomes)
        ];
        stays = λ a v e. rest.stays a v (Closed-stays b s s₁ step a v e);
        others = λ x absent.
            rest.others x (λ later. absent (inr later)) ∙ step.others x (λ e. absent (inl e));
        same_stack = rest.same_stack ∙ step.same_stack;
      }

  -- What `return_` does: the value on the stack is what is left above the stack of the caller; each
  -- open upvalue of the closure is closed with the value that it had; no other object changes.
  pub record Returned (frame : Frame D) (c : Closure) (s s' : Vm D) : Type 0 where
    pub closes :
        (a : ℕ)
        → In a c.open_upvalues
        → (v : Value D) × Reads s a v × (object_of s' a ≡ some (an_upvalue (closed v)))
    pub others : (x : ℕ) → ¬ In x c.open_upvalues → object_of s' x ≡ object_of s x
    pub returns :
        (v : Value D) × (vs : List (Value D)) × (s.stack ≡ v ∷ vs)
        × (s'.stack ≡ v ∷ keep_bottom frame.stack_begin_index vs)

  return_stack-eq :
      (begin : ℕ) (stack : List (Value D)) (s s' : Vm D)
      → return_stack begin (record s { stack = stack }) ≡ done tt s'
      → (v : Value D) × (vs : List (Value D)) × (stack ≡ v ∷ vs)
        × (record s { stack = v ∷ keep_bottom begin vs } ≡ s')
  unfolding return_stack
  return_stack-eq begin [] s s' h = absurd cc
  return_stack-eq begin (v ∷ vs) s s' h = elim (Bool-cases (ltb (length vs) begin)) [
    | inl e ↦
        let short : return_stack begin (record s { stack = v ∷ vs })
            ≡ threw undefined_behaviour (record s { stack = v ∷ vs }) =
          rw (e, return_stack) refl in
        let thrown = sym short ∙ h in absurd cc
    | inr e ↦
        let long : return_stack begin (record s { stack = v ∷ vs })
            ≡ done tt (record s { stack = v ∷ keep_bottom begin vs }) =
          rw (e, return_stack) refl in
        (v, vs, refl, (done-inv tt tt _ s' (sym long ∙ h)).1)
  ]

  -- Where the instruction `return_` ends, each open upvalue of the closure that returns was one that
  -- could be read and is closed with the value that it had; every other object is as it was; and on
  -- the stack the value that was on top lies on what was below the activation.
  pub return_from-Returned :
      (frame : Frame D) (c : Closure) (s s' : Vm D)
      → object_of s frame.closure_pointer ≡ some (a_closure c)
      → return_from frame s ≡ done tt s'
      → Returned frame c s s'
  unfolding return_from
  return_from-Returned frame c s s' at_closure h =
      let (c', s₁, e₁, h₁) = bind-inv (closure_at frame.closure_pointer) _ s s' tt h in
      let (there, same) = closure_at-inv frame.closure_pointer s s₁ c' e₁ in
      let is : c' ≡ c = closure-inj c' c (sym there ∙ at_closure) in
      let (_, s₂, e₂, h₂) =
        bind-inv (close_all c'.open_upvalues) (λ _. return_stack frame.stack_begin_index) s₁ s' tt
          h₁ in
      let all : AllClosed c.open_upvalues s s₂ = close_all-AllClosed c.open_upvalues s s₂ (
        ap (λ z. close_all z.open_upvalues s) (sym is)
        ∙ ap (close_all c'.open_upvalues) (sym same)
        ∙ e₂) in
      let (v, vs, e, e') = return_stack-eq frame.stack_begin_index s₂.stack s₂ s' h₂ in
      subst (Returned frame c s) e' (record {
        closes = all.closes;
        others = all.others;
        returns = (v, vs, sym all.same_stack ∙ e, refl);
      })

module _ {D : Type 0} (size_of : Object D → ℕ) where
  -- A closure that lists an open upvalue when its activation returns throws bad_variant_access when
  -- a later activation of it captures a local, if neither the closure nor the first of those
  -- upvalues has changed since.
  pub return_from-Recaptures :
      (frame frame' : Frame D) (c : Closure) (a : ℕ) (rest : List ℕ) (s s' s'' : Vm D)
      (new_closure index : ℕ)
      → object_of s frame.closure_pointer ≡ some (a_closure c)
      → c.open_upvalues ≡ a ∷ rest
      → return_from frame s ≡ done tt s'
      → frame'.closure_pointer ≡ frame.closure_pointer
      → object_of s'' frame.closure_pointer ≡ object_of s' frame.closure_pointer
      → object_of s'' a ≡ object_of s' a
      → capture_local size_of frame' new_closure index s'' ≡ threw bad_variant_access s''
  unfolding capture_local find_open upvalue_stack_index stack_index
  return_from-Recaptures frame frame' c a rest s s' s'' new_closure index at_closure opens h same
        closure_stays upvalue_stays =
      let returned = return_from-Returned frame c s s' at_closure h in
      let apart : ¬ In frame.closure_pointer c.open_upvalues = λ member.
        let (_, (u, at_upvalue, _), _) = returned.closes frame.closure_pointer member in
        let both = sym at_upvalue ∙ at_closure in absurd cc in
      let closure : object_of s'' frame'.closure_pointer ≡ some (a_closure c) =
        ap (object_of s'') same
        ∙ closure_stays
        ∙ returned.others frame.closure_pointer apart
        ∙ at_closure in
      let (v, _, becomes) = returned.closes a (subst (In a) (sym opens) (inl refl)) in
      let i = frame'.stack_begin_index + index in
      let no_index : upvalue_stack_index a s'' ≡ threw bad_variant_access s'' =
        bind-done (upvalue_at a) _ s'' s'' (closed v)
          (upvalue_at-eq a (closed v) s'' (upvalue_stays ∙ becomes)) in
      let search : find_open i c.open_upvalues s'' ≡ threw bad_variant_access s'' =
        ap (λ l. find_open i l s'') opens
        ∙ bind-threw (upvalue_stack_index a) _ s'' s'' bad_variant_access no_index in
      bind-done (closure_at frame'.closure_pointer) _ s'' s'' c
        (closure_at-eq frame'.closure_pointer c s'' closure)
      ∙ bind-threw (find_open i c.open_upvalues) _ s'' s'' bad_variant_access search

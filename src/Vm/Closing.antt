-- ===== src/Vm/Closing.antt =====
-- Upvalue::close of src/object.cpp, as VM::run of src/vm.cpp applies it to an upvalue of the heap.
use cpplox.Memory.Marking.{value_at, value_of}
use cpplox.Memory.{find_block}
use cpplox.Objects.{Closure, Object, Upvalue, closed, a_closure, an_upvalue, close, upvalue_value}
use cpplox.Prelude.{
  ℕ, ◌≡◌, ◌≢◌, ◌∙◌, refl, sym, ap, subst, Option, none, some, Option-cases, List, inl, inr, arith,
}
use cpplox.Value.{Value}
use cpplox.Vm.Captures.{close_at}
use cpplox.Vm.Keeps.{Outcome-cases, bind-done, bind-threw}
use cpplox.Vm.State.{
  Vm, M, done, threw, ◌>>=◌, Error, require, undefined_behaviour, out_of_range, as_closure,
  as_upvalue, closure_at, object_at, upvalue_at, write_block, write_object,
}
use cpplox.Vm.Writes.{value_at-write_other, value_at-write_self}

pub some-inj : {A : Type 0} (a b : A) → some a ≡ some b → a ≡ b
some-inj a b h = cc

module _ {D : Type 0} where
  abbrev pub object_of : Vm D → ℕ → Option (Object D)
  object_of s a = value_at s.gc_heap.all_ptrs a

  -- The upvalue at an address, and the value that it has.
  abbrev pub Reads : Vm D → ℕ → Value D → Type 0
  Reads s a v =
      (u : Upvalue D) × (object_of s a ≡ some (an_upvalue u)) × (upvalue_value s.stack u ≡ some v)

  pub bind-inv :
      {A B : Type 0} (m : M D A) (f : A → M D B) (s s' : Vm D) (b : B)
      → (m >>= f) s ≡ done b s'
      → (a : A) × (s₁ : Vm D) × (m s ≡ done a s₁) × (f a s₁ ≡ done b s')
  bind-inv m f s s' b h = elim (Outcome-cases (m s)) [
    | inl (a, s₁, e) ↦ (a, s₁, e, sym (bind-done m f s s₁ a e) ∙ h)
    | inr (x, s₁, e) ↦
        let thrown : threw x s₁ ≡ done b s' = sym (bind-threw m f s s₁ x e) ∙ h in absurd cc
  ]

  pub done-inv : {A : Type 0} (a b : A) (s s' : Vm D) → done a s ≡ done b s' → (a ≡ b) × (s ≡ s')
  done-inv a b s s' h = (cc, cc)

  pub require-inv :
      {A : Type 0} (x : Error) (o : Option A) (s s' : Vm D) (a : A)
      → require x o s ≡ done a s'
      → (o ≡ some a) × (s' ≡ s)
  require-inv x none s s' a h = absurd cc
  require-inv x (some b) s s' a h = ground arith

  as_upvalue-eq : (o : Object D) (u : Upvalue D) → as_upvalue o ≡ some u → o ≡ an_upvalue u
  as_upvalue-eq (an_upvalue v) u h = ground arith
  as_upvalue-eq _ u h = ground arith

  as_closure-eq : (o : Object D) (c : Closure) → as_closure o ≡ some c → o ≡ a_closure c
  as_closure-eq (a_closure d) c h = ground arith
  as_closure-eq _ c h = ground arith

  object_at-inv :
      (a : ℕ) (s s' : Vm D) (o : Object D)
      → object_at a s ≡ done o s'
      → (object_of s a ≡ some o) × (s' ≡ s)
  unfolding object_at value_at value_of
  object_at-inv a s s' o h = elim (Option-cases (find_block a s.gc_heap.all_ptrs)) [
    | inl e ↦
        let none_there : object_at a s ≡ threw undefined_behaviour s = rw (e, object_at) refl in
        let thrown : threw undefined_behaviour s ≡ done o s' = sym none_there ∙ h in absurd cc
    | inr (b, e) ↦
        let there : object_at a s ≡ done b.value s = rw (e, object_at) refl in
        let same : done b.value s ≡ done o s' = sym there ∙ h in
        let (value, state) = done-inv b.value o s s' same in
        (rw (e, value_at, value_of) (ap some value), sym state)
  ]

  pub upvalue_at-inv :
      (a : ℕ) (s s' : Vm D) (u : Upvalue D)
      → upvalue_at a s ≡ done u s'
      → (object_of s a ≡ some (an_upvalue u)) × (s' ≡ s)
  unfolding upvalue_at
  upvalue_at-inv a s s' u h =
      let (o, s₁, e, e') = bind-inv (object_at a) _ s s' u h in
      let (there, same) = object_at-inv a s s₁ o e in
      let (is, same') = require-inv undefined_behaviour (as_upvalue o) s₁ s' u e' in
      (there ∙ ap some (as_upvalue-eq o u is), same' ∙ same)

  pub closure_at-inv :
      (a : ℕ) (s s' : Vm D) (c : Closure)
      → closure_at a s ≡ done c s'
      → (object_of s a ≡ some (a_closure c)) × (s' ≡ s)
  unfolding closure_at
  closure_at-inv a s s' c h =
      let (o, s₁, e, e') = bind-inv (object_at a) _ s s' c h in
      let (there, same) = object_at-inv a s s₁ o e in
      let (is, same') = require-inv undefined_behaviour (as_closure o) s₁ s' c e' in
      (there ∙ ap some (as_closure-eq o c is), same' ∙ same)

  -- What `close` does to one upvalue.
  pub record Closed (a : ℕ) (s s' : Vm D) : Type 0 where
    pub old : Upvalue D
    pub held : Value D
    pub was : object_of s a ≡ some (an_upvalue old)
    pub read : upvalue_value s.stack old ≡ some held
    pub becomes : object_of s' a ≡ some (an_upvalue (closed held))
    pub others : (x : ℕ) → x ≢ a → object_of s' x ≡ object_of s x
    pub same_stack : s'.stack ≡ s.stack

  close-eq :
      (stack : List (Value D)) (u u' : Upvalue D)
      → close stack u ≡ some u'
      → (v : Value D) × (upvalue_value stack u ≡ some v) × (u' ≡ closed v)
  unfolding close
  close-eq stack u u' h = elim (Option-cases (upvalue_value stack u)) [
    | inl e ↦ absurd (ground (arith, e))
    | inr (v, e) ↦ (v, e, ground (arith, e))
  ]

  pub close_at-Closed : (a : ℕ) (s s' : Vm D) → close_at a s ≡ done tt s' → Closed a s s'
  unfolding close_at write_object
  close_at-Closed a s s' h =
      let (u, s₁, e₁, h₁) = bind-inv (upvalue_at a) _ s s' tt h in
      let (was, same₁) = upvalue_at-inv a s s₁ u e₁ in
      let (u', s₂, e₂, h₂) =
        bind-inv (require out_of_range (close s₁.stack u)) (λ w. write_object a (an_upvalue w)) s₁
          s' tt h₁ in
      let (is, same₂) = require-inv out_of_range (close s₁.stack u) s₁ s₂ u' e₂ in
      let same : s₂ ≡ s = same₂ ∙ same₁ in
      let (v, read, closed_v) =
        close-eq s.stack u u' (ap (λ z. close z.stack u) (sym same₁) ∙ is) in
      let written : (record s {
        gc_heap = record s.gc_heap { all_ptrs = write_block a (an_upvalue u') s.gc_heap.all_ptrs };
      })
          ≡ s' =
        (done-inv tt tt _ s' (ap (λ z. write_object a (an_upvalue u') z) (sym same) ∙ h₂)).1 in
      subst (Closed a s) written (record {
        old = u;
        held = v;
        was = was;
        read = read;
        becomes =
            value_at-write_self a (an_upvalue u') s.gc_heap.all_ptrs (an_upvalue u) was
            ∙ ap (λ w. some (an_upvalue w)) closed_v;
        others = λ x other. value_at-write_other x a (an_upvalue u') s.gc_heap.all_ptrs other;
        same_stack = refl;
      })

  pub upvalue-inj : (u v : Upvalue D) → some (an_upvalue u) ≡ some (an_upvalue v) → u ≡ v
  upvalue-inj u v h = cc

  pub closure-inj :
      (c c' : Closure)
      → ◌≡◌ {A = Option (Object D)} (some (a_closure c)) (some (a_closure c'))
      → c ≡ c'
  closure-inj c c' h = cc

  -- The view of an object that is known.
  pub object_at-eq :
      (a : ℕ) (o : Object D) (s : Vm D) → object_of s a ≡ some o → object_at a s ≡ done o s
  unfolding object_at value_at value_of
  object_at-eq a o s h = elim (Option-cases (find_block a s.gc_heap.all_ptrs)) [
    | inl e ↦ absurd (ground (arith, e))
    | inr (b, e) ↦
        let is : b.value ≡ o = ground (arith, e) in rw (e, object_at) (ap (λ v. done v s) is)
  ]

  pub closure_at-eq :
      (a : ℕ) (c : Closure) (s : Vm D)
      → object_of s a ≡ some (a_closure c)
      → closure_at a s ≡ done c s
  unfolding closure_at
  closure_at-eq a c s h =
      bind-done (object_at a) _ s s (a_closure c) (object_at-eq a (a_closure c) s h)

  pub upvalue_at-eq :
      (a : ℕ) (u : Upvalue D) (s : Vm D)
      → object_of s a ≡ some (an_upvalue u)
      → upvalue_at a s ≡ done u s
  unfolding upvalue_at
  upvalue_at-eq a u s h =
      bind-done (object_at a) _ s s (an_upvalue u) (object_at-eq a (an_upvalue u) s h)

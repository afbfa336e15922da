-- ===== src/Vm/Actions.antt =====
-- The actions on the state that the instructions are made of keep what the changes of the single
-- fields keep.
use cpplox.Memory.{ControlBlock, find_block}
use cpplox.Objects.{
  Class, Closure, Instance, Upvalue, Object, a_class, a_closure, an_instance, an_upvalue, close,
  assign_upvalue, stack_set,
}
use cpplox.Prelude.{
  ℕ, zero, suc, ◌+◌, ◌≡◌, some, Option-cases, inl, inr, List, [], ◌∷◌, ◌++◌, get_elem?, if_cases,
  ltb, length, set, Bytes, bytes_eq, arith,
}
use cpplox.Table.{assign}
use cpplox.Value.{Value}
use cpplox.Vm.Captures.{push_upvalue, set_open_upvalues, close_at, assign_upvalue_at}
use cpplox.Vm.Keeps.{
  Ends, Property, Keeps, Keeps-bind, Keeps-pure, Keeps-throw, Keeps-get, Keeps-require, Keeps-if,
  Keeps-view,
}
use cpplox.Vm.State.{
  Vm, Outcome, done, threw, ◌>>=◌, undefined_behaviour, object_at, peek, push, pop_back, erase_back,
  set_peek, class_at, closure_at, function_at, instance_at, bound_method_at, upvalue_at,
  write_object, make, intern, store, assign_global, write, read_clock, as_class, as_closure,
  as_instance, as_upvalue,
}

-- An assignment to a block puts an object of the same type there, and never a string.
abbrev pub Replaces : {D : Type 0} → Object D → Object D → Type 0
Replaces (a_class k) (a_class k') = Unit
Replaces (a_closure c) (a_closure c') = Unit
Replaces (an_instance i) (an_instance i') = Unit
Replaces (an_upvalue u) (an_upvalue u') = Unit
Replaces _ _ = ⊥

-- A property that each change of a field keeps.
pub record IsKept {D : Type 0} (size_of : Object D → ℕ) (P : Property D) : Type 0 where
  pub stack : (s : Vm D) (vs : List (Value D)) → P.holds s → P.holds (record s { stack = vs })
  pub globals :
      (s : Vm D) (name : Bytes) (v : Value D)
      → P.holds s
      → P.holds (record s { globals = assign bytes_eq name v s.globals })
  pub output :
      (s : Vm D) (text : Bytes) → P.holds s → P.holds (record s { output = s.output ++ text })
  pub clock : (s : Vm D) → P.holds s → P.holds (record s { clock_calls = s.clock_calls + 1 })
  pub made : (o : Object D) (s : Vm D) → P.holds s → Ends P (make size_of o s)
  pub interned : (text : Bytes) (s : Vm D) → P.holds s → Ends P (intern size_of text s)
  pub written :
      (a : ℕ) (o : Object D) (s : Vm D) (b : ControlBlock (Object D))
      → find_block a s.gc_heap.all_ptrs ≡ some b
      → Replaces b.value o
      → P.holds s
      → Ends P (write_object a o s)

module _ {D : Type 0} where
  as_class-Replaces : (o : Object D) (k k' : Class) → as_class o ≡ some k → Replaces o (a_class k')
  as_class-Replaces (a_class j) k k' h = tt
  as_class-Replaces _ k k' h = ground arith

  as_closure-Replaces :
      (o : Object D) (c c' : Closure) → as_closure o ≡ some c → Replaces o (a_closure c')
  as_closure-Replaces (a_closure j) c c' h = tt
  as_closure-Replaces _ c c' h = ground arith

  as_instance-Replaces :
      (o : Object D) (i i' : Instance D) → as_instance o ≡ some i → Replaces o (an_instance i')
  as_instance-Replaces (an_instance j) i i' h = tt
  as_instance-Replaces _ i i' h = ground arith

  as_upvalue-Replaces :
      (o : Object D) (u u' : Upvalue D) → as_upvalue o ≡ some u → Replaces o (an_upvalue u')
  as_upvalue-Replaces (an_upvalue j) u u' h = tt
  as_upvalue-Replaces _ u u' h = ground arith

module _ {D : Type 0} {size_of : Object D → ℕ} {P : Property D} (kept : IsKept size_of P) where
  pub Keeps-object_at : (a : ℕ) → Keeps P (object_at a)
  unfolding object_at
  Keeps-object_at a = record {
    at = λ s h. elim (Option-cases (find_block a s.gc_heap.all_ptrs)) [
      | inl e ↦ rw (e, object_at) (λ _. h)
      | inr (b, e) ↦ rw (e, object_at) h
    ];
  }

  pub Keeps-peek : (n : ℕ) → Keeps P (peek n)
  unfolding peek
  Keeps-peek n = record {
    at = λ s h. (Keeps-require {P = P} undefined_behaviour (get_elem? s.stack n)).at s h;
  }

  pub Keeps-push : (v : Value D) → Keeps P (push v)
  unfolding push
  Keeps-push v = record { at = λ s h. kept.stack s (v ∷ s.stack) h }

  pub Keeps-pop_back : Keeps P pop_back
  unfolding pop_back
  Keeps-pop_back = record {
    at = λ s h.
        elim s.stack
          as (λ x. Ends {A = Unit {0}} P (elim x [
            | [] ↦ threw undefined_behaviour s
            | _ ∷ vs ↦ done tt (record s { stack = vs })
          ])) [ [] ↦ λ _. h | _ ∷ vs ↦ kept.stack s vs h ];
  }

  pub Keeps-erase_back : (n : ℕ) → Keeps P (erase_back n)
  unfolding erase_back
  Keeps-erase_back zero = record { at = λ s h. h }
  Keeps-erase_back (suc n) = record {
    at = (Keeps-bind pop_back (λ _. erase_back n) Keeps-pop_back (λ _. Keeps-erase_back n)).at;
  }

  pub Keeps-set_peek : (n : ℕ) (v : Value D) → Keeps P (set_peek n v)
  unfolding set_peek
  Keeps-set_peek n v = record {
    at = λ s h.
        if_cases {A = Outcome D (Unit {0})} (λ o. Ends P o) (ltb n (length s.stack))
          (λ _. kept.stack s (set s.stack n v) h) λ _ _. h;
  }

  pub Keeps-store : (i : ℕ) (v : Value D) → Keeps P (store i v)
  unfolding store
  Keeps-store i v = record {
    at = λ s h.
        if_cases {A = Outcome D (Unit {0})} (λ o. Ends P o) (ltb i (length s.stack))
          (λ _. kept.stack s (stack_set i v s.stack) h) λ _ _. h;
  }

  pub Keeps-assign_global : (name : Bytes) (v : Value D) → Keeps P (assign_global name v)
  unfolding assign_global
  Keeps-assign_global name v = record { at = λ s h. kept.globals s name v h }

  pub Keeps-write : (text : Bytes) → Keeps P (write text)
  unfolding write
  Keeps-write text = record { at = λ s h. kept.output s text h }

  pub Keeps-read_clock : Keeps P read_clock
  unfolding read_clock
  Keeps-read_clock = record { at = λ s h. kept.clock s h }

  pub Keeps-make : (o : Object D) → Keeps P (make size_of o)
  Keeps-make o = record { at = λ s h. kept.made o s h }

  pub Keeps-intern : (text : Bytes) → Keeps P (intern size_of text)
  Keeps-intern text = record { at = λ s h. kept.interned text s h }

  pub Keeps-class_at : (a : ℕ) → Keeps P (class_at a)
  unfolding class_at
  Keeps-class_at a = search (Keeps-bind, Keeps-object_at, Keeps-require)

  pub Keeps-closure_at : (a : ℕ) → Keeps P (closure_at a)
  unfolding closure_at
  Keeps-closure_at a = search (Keeps-bind, Keeps-object_at, Keeps-require)

  pub Keeps-function_at : (a : ℕ) → Keeps P (function_at a)
  unfolding function_at
  Keeps-function_at a = search (Keeps-bind, Keeps-object_at, Keeps-require)

  pub Keeps-instance_at : (a : ℕ) → Keeps P (instance_at a)
  unfolding instance_at
  Keeps-instance_at a = search (Keeps-bind, Keeps-object_at, Keeps-require)

  pub Keeps-bound_method_at : (a : ℕ) → Keeps P (bound_method_at a)
  unfolding bound_method_at
  Keeps-bound_method_at a = search (Keeps-bind, Keeps-object_at, Keeps-require)

  pub Keeps-upvalue_at : (a : ℕ) → Keeps P (upvalue_at a)
  unfolding upvalue_at
  Keeps-upvalue_at a = search (Keeps-bind, Keeps-object_at, Keeps-require)

  pub Keeps-write_class :
      (a : ℕ) (f : Class → Class) → Keeps P (class_at a >>= λ k. write_object a (a_class (f k)))
  unfolding class_at
  Keeps-write_class a f =
      Keeps-view a as_class (λ k. write_object a (a_class (f k)))
        λ k s b at_a is h.
          kept.written a (a_class (f k)) s b at_a (as_class-Replaces b.value k (f k) is) h

  pub Keeps-write_closure :
      (a : ℕ) (f : Closure → Closure)
      → Keeps P (closure_at a >>= λ c. write_object a (a_closure (f c)))
  unfolding closure_at
  Keeps-write_closure a f =
      Keeps-view a as_closure (λ c. write_object a (a_closure (f c)))
        λ c s b at_a is h.
          kept.written a (a_closure (f c)) s b at_a (as_closure-Replaces b.value c (f c) is) h

  pub Keeps-write_instance :
      (a : ℕ) (f : Instance D → Instance D)
      → Keeps P (instance_at a >>= λ i. write_object a (an_instance (f i)))
  unfolding instance_at
  Keeps-write_instance a f =
      Keeps-view a as_instance (λ i. write_object a (an_instance (f i)))
        λ i s b at_a is h.
          kept.written a (an_instance (f i)) s b at_a (as_instance-Replaces b.value i (f i) is) h

  pub Keeps-push_upvalue : (closure upvalue : ℕ) → Keeps P (push_upvalue closure upvalue)
  unfolding push_upvalue
  Keeps-push_upvalue closure upvalue =
      Keeps-write_closure closure λ c. record c { upvalues = c.upvalues ++ upvalue ∷ [] }

  pub Keeps-set_open_upvalues :
      (closure : ℕ) (opens : List ℕ) → Keeps P (set_open_upvalues closure opens)
  unfolding set_open_upvalues
  Keeps-set_open_upvalues closure opens =
      Keeps-write_closure closure λ c. record c { open_upvalues = opens }

  pub Keeps-close_at : (a : ℕ) → Keeps P (close_at a)
  unfolding close_at upvalue_at
  Keeps-close_at a = Keeps-view a as_upvalue _ λ u s b at_a is h.
      elim (Option-cases (close s.stack u)) [
        | inl e ↦ rw (e, close_at) (λ _. h)
        | inr (u', e) ↦
            rw (e, close_at)
              (kept.written a (an_upvalue u') s b at_a (as_upvalue-Replaces b.value u u' is) h)
      ]

  pub Keeps-assign_upvalue_at : (a : ℕ) (v : Value D) → Keeps P (assign_upvalue_at a v)
  unfolding assign_upvalue_at upvalue_at
  Keeps-assign_upvalue_at a v = Keeps-view a as_upvalue _ λ u s b at_a is h.
      elim (Option-cases (assign_upvalue v s.stack u)) [
        | inl e ↦ rw (e, assign_upvalue_at) (λ _. h)
        | inr ((vs, u'), e) ↦
            rw (e, assign_upvalue_at)
              (kept.written a (an_upvalue u') (record s { stack = vs }) b at_a
                (as_upvalue-Replaces b.value u u' is) (kept.stack s vs h))
      ]

  pub ruleset kept_rules = (
    Keeps-bind, Keeps-pure, Keeps-throw, Keeps-get, Keeps-require, Keeps-if, Keeps-object_at,
    Keeps-peek, Keeps-push, Keeps-pop_back, Keeps-erase_back, Keeps-set_peek, Keeps-store,
    Keeps-assign_global, Keeps-write, Keeps-read_clock, Keeps-make, Keeps-intern, Keeps-class_at,
    Keeps-closure_at, Keeps-function_at, Keeps-instance_at, Keeps-bound_method_at, Keeps-upvalue_at,
    Keeps-write_class, Keeps-write_closure, Keeps-write_instance, Keeps-push_upvalue,
    Keeps-set_open_upvalues, Keeps-close_at, Keeps-assign_upvalue_at,
  )

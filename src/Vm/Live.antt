-- ===== src/Vm/Live.antt =====
-- The objects that a virtual machine can still use, by what its stack, its global variables and its
-- activations refer to: what a collection of src/memory.cpp has to keep.
use cpplox.Chunk.{SourceMapToken}
use cpplox.Memory.Marking.{In, value_at}
use cpplox.Memory.Reach.{Reach, root, via}
use cpplox.Objects.{
  Object, a_bound_method, a_class, a_closure, a_function, an_instance, a_native_fn, a_string,
  an_upvalue, open_at, closed, stack_at, upvalue_value, mark_value, trace_fields, trace_methods,
  trace_function, trace_refs,
}
use cpplox.Prelude.{
  ℕ, ◌≡◌, ◌≢◌, ◌↔◌, ◌⊎◌, refl, sym, ap, inl, inr, none, some, Option-cases, List, [], ◌∷◌, ◌++◌,
  map, Bytes, arith, subst,
}
use cpplox.Value.{Value}
use cpplox.Vm.Run.{roots}
use cpplox.Vm.State.{Vm, address_of}

module _ {D : Type 0} where
  -- The string object of a text.
  abbrev pub Spells : Vm D → Bytes → ℕ → Type 0
  Spells s text a = address_of s text ≡ some a

  -- The value is a pointer to the object.
  abbrev pub Points : Vm D → Value D → ℕ → Type 0
  Points s (Value.string text) a = Spells s text a
  Points s (Value.bound_method b) a = a ≡ b
  Points s (Value.class b) a = a ≡ b
  Points s (Value.closure b) a = a ≡ b
  Points s (Value.function b) a = a ≡ b
  Points s (Value.instance_ b) a = a ≡ b
  Points s (Value.native_fn b) a = a ≡ b
  Points s _ a = ⊥

  -- An entry of a table of values has the object as its key or its value.
  abbrev pub InTable : Vm D → List (Bytes × Value D) → ℕ → Type 0
  InTable s table a =
      (key : Bytes) × (v : Value D) × In (key, v) table × (Spells s key a ⊎ Points s v a)

  -- The object has a pointer to the object at an address.
  abbrev pub Refers : Vm D → Object D → ℕ → Type 0
  Refers s (a_bound_method m) a = (a ≡ m.instance_pointer) ⊎ (a ≡ m.method_pointer)
  Refers s (a_class k) a =
      Spells s k.name a
      ⊎ ((key : Bytes) × (method : ℕ) × In (key, method) k.methods
          × (Spells s key a ⊎ (a ≡ method)))
  Refers s (a_closure c) a = (a ≡ c.function_pointer) ⊎ (In a c.upvalues ⊎ In a c.open_upvalues)
  Refers s (a_function f) a =
      Spells s f.name a
      ⊎ (((v : Value D) × In v f.chunk.constants × Points s v a)
          ⊎ ((token : SourceMapToken) × In token f.chunk.source_map_tokens
              × Spells s token.lexeme a))
  Refers s (an_instance i) a = (a ≡ i.klass) ⊎ InTable s i.fields a
  Refers s (an_upvalue (closed v)) a = Points s v a
  Refers s (an_upvalue (open_at i)) a = (v : Value D) × (stack_at i s.stack ≡ some v) × Points s v a
  Refers s _ a = ⊥

  abbrev IsObject : Vm D → ℕ → Type 0
  IsObject s a = value_at s.gc_heap.all_ptrs a ≢ none

  pub data Live (s : Vm D) : ℕ → Type 0 where
    of_frame : {a : ℕ} → In a s.call_frames → IsObject s a → Live s a
    of_stack : {a : ℕ} (v : Value D) → In v s.stack → Points s v a → IsObject s a → Live s a
    of_global : {a : ℕ} → InTable s s.globals a → IsObject s a → Live s a
    of_object :
        {a b : ℕ} (o : Object D)
        → Live s b
        → value_at s.gc_heap.all_ptrs b ≡ some o
        → Refers s o a
        → IsObject s a
        → Live s a

module _ {A : Type 0} where
  In-append : (x : A) (xs ys : List A) → In x (xs ++ ys) ↔ (In x xs ⊎ In x ys)
  In-append x [] ys = ground arith
  In-append x (y ∷ xs) ys = ground (arith, In-append x xs ys)

  In-map :
      {B : Type 0} (f : A → B) (y : B) (xs : List A)
      → In y (map f xs) ↔ ((x : A) × In x xs × (y ≡ f x))
  In-map f y [] = (λ h. absurd h, λ (x, i, e). absurd i)
  In-map f y (x ∷ xs) = (
    λ h. elim h [
      | inl e ↦ (x, inl refl, e)
      | inr i ↦ let (z, j, e) = (In-map f y xs).0 i in (z, inr j, e)
    ],
    λ (z, i, e). elim i [
      | inl z_is_x ↦ inl (subst (λ w. y ≡ f w) z_is_x e)
      | inr j ↦ inr ((In-map f y xs).1 (z, j, e))
    ],
  )

module _ {D : Type 0} (s : Vm D) (a : ℕ) where
  In-some : (bs : List ℕ) → In (some a) (map some bs) ↔ In a bs
  In-some [] = (λ h. h, λ h. h)
  In-some (b ∷ bs) = let rest = In-some bs in ground arith

  mark_value-Points : (v : Value D) → (some a ≡ mark_value (address_of s) v) ↔ Points s v a
  unfolding mark_value
  mark_value-Points (Value.string t) = (λ e. sym e, λ e. sym e)
  mark_value-Points Value.nil = ground arith
  mark_value-Points (Value.boolean b) = ground arith
  mark_value-Points (Value.number x) = ground arith
  mark_value-Points (Value.bound_method b) = ground arith
  mark_value-Points (Value.class b) = ground arith
  mark_value-Points (Value.closure b) = ground arith
  mark_value-Points (Value.function b) = ground arith
  mark_value-Points (Value.instance_ b) = ground arith
  mark_value-Points (Value.native_fn b) = ground arith

  values-Points :
      (vs : List (Value D))
      → In (some a) (map (mark_value (address_of s)) vs) ↔ ((v : Value D) × In v vs × Points s v a)
  values-Points vs =
      let found = In-map (mark_value (address_of s)) (some a) vs in
      (
        λ h. let (v, i, e) = found.0 h in (v, i, (mark_value-Points v).0 e),
        λ (v, i, p). found.1 (v, i, (mark_value-Points v).1 p),
      )

  trace_fields-InTable :
      (table : List (Bytes × Value D))
      → In (some a) (trace_fields (address_of s) table) ↔ InTable s table a
  unfolding trace_fields
  trace_fields-InTable [] = (λ h. absurd h, λ (k, v, i, p). absurd i)
  trace_fields-InTable ((key, v) ∷ table) = (
    λ h. elim h [
      | inl e ↦ (key, v, inl refl, inl (sym e))
      | inr (inl e) ↦ (key, v, inl refl, inr ((mark_value-Points v).0 e))
      | inr (inr i) ↦ let (k, w, j, p) = (trace_fields-InTable table).0 i in (k, w, inr j, p)
    ],
    λ (k, w, i, p). elim i [
      | inl same ↦ elim p [
        | inl t ↦ inl (sym (subst (λ e. Spells s e.0 a) same t))
        | inr q ↦ inr (inl ((mark_value-Points v).1 (subst (λ e. Points s e.1 a) same q)))
      ]
      | inr j ↦ inr (inr ((trace_fields-InTable table).1 (k, w, j, p)))
    ],
  )

  trace_methods-InMethods :
      (methods : List (Bytes × ℕ))
      → In (some a) (trace_methods (address_of s) methods) ↔ (
          (key : Bytes) × (method : ℕ) × In (key, method) methods × (Spells s key a ⊎ (a ≡ method)))
  unfolding trace_methods
  trace_methods-InMethods [] = (λ h. absurd h, λ (k, v, i, p). absurd i)
  trace_methods-InMethods ((key, m) ∷ methods) = (
    λ h. elim h [
      | inl e ↦ (key, m, inl refl, inl (sym e))
      | inr (inl e) ↦ (key, m, inl refl, inr (ground arith))
      | inr (inr i) ↦ let (k, w, j, p) = (trace_methods-InMethods methods).0 i in (k, w, inr j, p)
    ],
    λ (k, w, i, p). elim i [
      | inl same ↦ elim p [
        | inl t ↦ inl (sym (subst (λ e. Spells s e.0 a) same t))
        | inr q ↦ inr (inl (ap some (subst (λ e. a ≡ e.1) same q)))
      ]
      | inr j ↦ inr (inr ((trace_methods-InMethods methods).1 (k, w, j, p)))
    ],
  )

  trace_refs-Refers :
      (o : Object D) → In (some a) (trace_refs (address_of s) s.stack o) ↔ Refers s o a
  unfolding trace_refs trace_function upvalue_value mark_value
  trace_refs-Refers (a_bound_method m) = ground arith
  trace_refs-Refers (a_class k) =
      let methods = trace_methods-InMethods k.methods in
      (
        λ h. elim h [ inl e ↦ inl (sym e) | inr i ↦ inr (methods.0 i) ],
        λ r. elim r [ inl e ↦ inl (sym e) | inr i ↦ inr (methods.1 i) ],
      )
  trace_refs-Refers (a_closure c) = ground (
    arith,
    In-append (some a) (map some c.upvalues) (map some c.open_upvalues),
    In-some c.upvalues,
    In-some c.open_upvalues,
  )
  trace_refs-Refers (a_function f) =
      let constants = map (mark_value (address_of s)) f.chunk.constants in
      let spelled = λ (t : SourceMapToken). address_of s t.lexeme in
      let both = In-append (some a) constants (map spelled f.chunk.source_map_tokens) in
      let values = values-Points f.chunk.constants in
      let tokens = In-map spelled (some a) f.chunk.source_map_tokens in
      (
        λ h. elim h [
          | inl e ↦ inl (sym e)
          | inr i ↦ elim (both.0 i) [
            | inl j ↦ inr (inl (values.0 j))
            | inr j ↦ let (t, k, e) = tokens.0 j in inr (inr (t, k, sym e))
          ]
        ],
        λ r. elim r [
          | inl e ↦ inl (sym e)
          | inr (inl v) ↦ inr (both.1 (inl (values.1 v)))
          | inr (inr (t, k, e)) ↦ inr (both.1 (inr (tokens.1 (t, k, sym e))))
        ],
      )
  trace_refs-Refers (an_instance i) =
      let fields = trace_fields-InTable i.fields in ground (arith, fields)
  trace_refs-Refers a_native_fn = ground arith
  trace_refs-Refers (a_string t) = ground arith
  trace_refs-Refers (an_upvalue (closed v)) =
      let points = mark_value-Points v in
      (λ h. elim h [ inl e ↦ points.0 e | inr i ↦ absurd i ], λ p. inl (points.1 p))
  trace_refs-Refers (an_upvalue (open_at i)) = elim (Option-cases (stack_at i s.stack)) [
    | inl e ↦ rw (e, trace_refs) (λ h. absurd h, λ (v, f, p). absurd (ground arith))
    | inr (w, e) ↦
        let points = mark_value-Points w in
        rw (e, trace_refs)
          (
            λ h. elim h [ inl q ↦ (w, refl, points.0 q) | inr j ↦ absurd j ],
            λ (v, f, p).
                let same : v ≡ w = ground arith in
                inl (points.1 (subst (λ x. Points s x a) same p)),
          )
  ]

  abbrev Held : Type 0
  Held =
      In a s.call_frames ⊎ (((v : Value D) × In v s.stack × Points s v a) ⊎ InTable s s.globals a)

  roots-Held : In (some a) (roots s) ↔ Held
  unfolding roots
  roots-Held =
      let stack = map (mark_value (address_of s)) s.stack in
      let globals = trace_fields (address_of s) s.globals in
      let first = In-append (some a) (map some s.call_frames) (stack ++ globals) in
      let second = In-append (some a) stack globals in
      let frames = In-some s.call_frames in
      let values = values-Points s.stack in
      let table = trace_fields-InTable s.globals in
      (
        λ h. elim (first.0 h) [
          | inl i ↦ inl (frames.0 i)
          | inr i ↦ elim (second.0 i) [
            | inl j ↦ inr (inl (values.0 j))
            | inr j ↦ inr (inr (table.0 j))
          ]
        ],
        λ h. elim h [
          | inl i ↦ first.1 (inl (frames.1 i))
          | inr (inl i) ↦ first.1 (inr (second.1 (inl (values.1 i))))
          | inr (inr i) ↦ first.1 (inr (second.1 (inr (table.1 i))))
        ],
      )

module _ {D : Type 0} (s : Vm D) where
  pub Live-of_Reach :
      {a : ℕ} → Reach (trace_refs (address_of s) s.stack) (roots s) s.gc_heap.all_ptrs a → Live s a
  Live-of_Reach (root {a} r is_object) = elim ((roots-Held s a).0 r) [
    | inl i ↦ of_frame i is_object
    | inr (inl (v, i, p)) ↦ of_stack v i p is_object
    | inr (inr i) ↦ of_global i is_object
  ]
  Live-of_Reach (via {a} {b} o r at_a refers is_object) =
      of_object o (Live-of_Reach r) at_a ((trace_refs-Refers s b o).0 refers) is_object

  pub Reach-of_Live :
      {a : ℕ} → Live s a → Reach (trace_refs (address_of s) s.stack) (roots s) s.gc_heap.all_ptrs a
  Reach-of_Live (of_frame {a} i is_object) = root ((roots-Held s a).1 (inl i)) is_object
  Reach-of_Live (of_stack {a} v i p is_object) =
      root ((roots-Held s a).1 (inr (inl (v, i, p)))) is_object
  Reach-of_Live (of_global {a} i is_object) = root ((roots-Held s a).1 (inr (inr i))) is_object
  Reach-of_Live (of_object {a} o l at_b refers is_object) =
      via o (Reach-of_Live l) at_b ((trace_refs-Refers s a o).1 refers) is_object

-- ===== src/Vm/Inherits.antt =====
-- The instruction `inherit` of VM::run in src/vm.cpp: the methods of a subclass.
use cpplox.Chunk.{SourceMapToken}
use cpplox.Objects.{Class, a_class}
use cpplox.Prelude.{
  ℕ, ◌≡◌, ◌≢◌, ◌∙◌, refl, none, some, ◌∷◌, get_elem?, Bytes, bytes_eq, bytes_eq_iff,
}
use cpplox.Table.Laws.{lookup-insert_all}
use cpplox.Table.{lookup, insert_all}
use cpplox.Value.{Value}
use cpplox.Vm.Closing.{object_of, object_at-eq}
use cpplox.Vm.Keeps.{bind-done}
use cpplox.Vm.Properties.{inherit_top, insert_methods}
use cpplox.Vm.State.{Vm, done, class_at, object_at, peek, push, write_object}
use cpplox.Vm.Writes.{value_at-write_other, value_at-write_self}

module _ {D : Type 0} where
  pub peek-eq :
      (n : ℕ) (v : Value D) (s : Vm D) → get_elem? s.stack n ≡ some v → peek n s ≡ done v s
  unfolding peek
  peek-eq n v s e = rw (e, peek) refl

  class_at-eq :
      (a : ℕ) (k : Class) (s : Vm D) → object_of s a ≡ some (a_class k) → class_at a s ≡ done k s
  unfolding class_at
  class_at-eq a k s h = bind-done (object_at a) _ s s (a_class k) (object_at-eq a (a_class k) s h)

  -- What `inherit` leaves: the subclass with its methods, and with those of the superclass that it
  -- has none of that name of.
  pub record Inherited (child : ℕ) (p c : Class) (s s' : Vm D) : Type 0 where
    pub class_now : Class
    pub there : object_of s' child ≡ some (a_class class_now)
    pub same_name : class_now.name ≡ c.name
    pub methods :
        (name : Bytes)
        → lookup bytes_eq name class_now.methods ≡ elim (lookup bytes_eq name c.methods) [
          | some own ↦ some own
          | none ↦ lookup bytes_eq name p.methods
        ]
    pub others : (x : ℕ) → x ≢ child → object_of s' x ≡ object_of s x
    pub stack_now : s'.stack ≡ Value.class child ∷ s.stack

  -- With two classes on the stack, the superclass on top, `inherit` gives the class below the methods
  -- of the superclass that it has none of that name of, changes no other object, and pushes the class
  -- below.
  pub inherit_top-Inherited :
      (t : SourceMapToken) (parent child : ℕ) (p c : Class) (s : Vm D)
      → get_elem? s.stack 0 ≡ some (Value.class parent)
      → get_elem? s.stack 1 ≡ some (Value.class child)
      → object_of s parent ≡ some (a_class p)
      → object_of s child ≡ some (a_class c)
      → (s' : Vm D) × (inherit_top t s ≡ done tt s') × Inherited child p c s s'
  unfolding inherit_top insert_methods write_object push
  inherit_top-Inherited t parent child p c s top second at_parent at_child =
      let k : Class = record c { methods = insert_all bytes_eq p.methods c.methods } in
      let inserted =
        bind-done (class_at child)
          (λ (c : Class).
            write_object child
              (a_class (record c { methods = insert_all bytes_eq p.methods c.methods })))
          s s c (class_at-eq child c s at_child) in
      (
        _,
        bind-done (peek 0) _ s s (Value.class parent) (peek-eq 0 (Value.class parent) s top)
            ∙ bind-done (peek 1) _ s s (Value.class child) (peek-eq 1 (Value.class child) s second)
            ∙ bind-done (class_at parent) _ s s p (class_at-eq parent p s at_parent)
            ∙ bind-done (insert_methods child p.methods) _ s _ tt inserted,
        record {
          class_now = k;
          there = value_at-write_self child (a_class k) s.gc_heap.all_ptrs (a_class c) at_child;
          same_name = refl;
          methods = λ name. lookup-insert_all bytes_eq bytes_eq_iff name p.methods c.methods;
          others = λ x other. value_at-write_other x child (a_class k) s.gc_heap.all_ptrs other;
          stack_now = refl;
        },
      )

-- ===== src/Vm/Print.antt =====
-- Print_visitor of src/value.cpp.
use cpplox.Prelude.{ℕ, true, false, [], ◌∷◌, ◌++◌, Bytes}
use cpplox.Value.{Value, Double}
use cpplox.Vm.State.{
  M, ◌>>=◌, pure, function_at, bound_method_at, class_at, closure_at, instance_at,
}

abbrev text_nil : Bytes
text_nil = b'n' ∷ b'i' ∷ b'l' ∷ []

abbrev text_true : Bytes
text_true = b't' ∷ b'r' ∷ b'u' ∷ b'e' ∷ []

abbrev text_false : Bytes
text_false = b'f' ∷ b'a' ∷ b'l' ∷ b's' ∷ b'e' ∷ []

abbrev text_fn : Bytes
text_fn = b'<' ∷ b'f' ∷ b'n' ∷ b' ' ∷ []

abbrev text_class : Bytes
text_class = b'<' ∷ b'c' ∷ b'l' ∷ b'a' ∷ b's' ∷ b's' ∷ b' ' ∷ []

abbrev text_instance : Bytes
text_instance = b'<' ∷ b'i' ∷ b'n' ∷ b's' ∷ b't' ∷ b'a' ∷ b'n' ∷ b'c' ∷ b'e' ∷ b' ' ∷ []

abbrev text_native : Bytes
text_native = b'<' ∷ b'n' ∷ b'a' ∷ b't' ∷ b'i' ∷ b'v' ∷ b'e' ∷ b' ' ∷ b'f' ∷ b'n' ∷ b'>' ∷ []

abbrev text_anonymous : Bytes
text_anonymous = b'(' ∷ b'a' ∷ b'n' ∷ b'o' ∷ b'n' ∷ b'y' ∷ b'm' ∷ b'o' ∷ b'u' ∷ b's' ∷ b')' ∷ []

unfoldable pub shown_name : Bytes → Bytes
shown_name [] = text_anonymous
shown_name (c ∷ cs) = c ∷ cs

module _ {D : Type 0} where
  unfoldable pub show_function : ℕ → M D Bytes
  unfolding function_at shown_name
  show_function a = do f ← function_at a; pure (text_fn ++ (shown_name f.name ++ b'>' ∷ []))

  unfoldable pub show_closure : ℕ → M D Bytes
  unfolding closure_at show_function
  show_closure a = do c ← closure_at a; show_function c.function_pointer

  unfoldable pub show_value : ⦃d : Double D⦄ → Value D → M D Bytes
  unfolding show_closure bound_method_at class_at instance_at
  show_value Value.nil = pure text_nil
  show_value (Value.boolean true) = pure text_true
  show_value (Value.boolean false) = pure text_false
  show_value ⦃d⦄ (Value.number x) = pure (d.show x)
  show_value (Value.function a) = show_function a
  show_value (Value.bound_method a) = do m ← bound_method_at a; show_closure m.method_pointer
  show_value (Value.class a) = do k ← class_at a; pure (text_class ++ (k.name ++ b'>' ∷ []))
  show_value (Value.closure a) = show_closure a
  show_value (Value.instance_ a) = do
    i ← instance_at a
    k ← class_at i.klass
    pure (text_instance ++ (k.name ++ b'>' ∷ []))
  show_value (Value.native_fn a) = pure text_native
  show_value (Value.string s) = pure s

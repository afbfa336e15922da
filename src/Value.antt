-- ===== src/Value.antt =====
-- Dynamic_type_value of src/value.hpp. A GC_ptr is the address of its control block, except that
-- a pointer to a string is the string: `Interned_strings` hands out one pointer for each text.
-- `double` is a type `D` with the operations of the record `Double`.
use cpplox.Prelude.{ℕ, Option, Bool, true, false, ◌==◌, Bytes, bytes_eq}

-- IEEE arithmetic, the conversions of `boost::lexical_cast` and of `operator<<`.
pub record Double (D : Type 0) : Type 0 where
  pub add : D → D → D
  pub subtract : D → D → D
  pub multiply : D → D → D
  pub divide : D → D → D
  pub negate : D → D
  pub equal : D → D → Bool
  pub less : D → D → Bool
  -- `none` where `boost::lexical_cast` throws.
  pub parse : Bytes → Option D
  pub show : D → Bytes

pub data Value (D : Type 0) : Type 0 where
  nil : Value D
  boolean : Bool → Value D
  number : D → Value D
  bound_method class closure function instance_ native_fn : ℕ → Value D
  string : Bytes → Value D

module _ {D : Type 0} where
  -- `std::variant`'s `==`: the same alternative with equal contents.
  unfoldable pub value_eq : ⦃d : Double D⦄ → Value D → Value D → Bool
  unfolding bytes_eq
  value_eq nil nil = true
  value_eq (boolean true) (boolean b) = b
  value_eq (boolean false) (boolean true) = false
  value_eq (boolean false) (boolean false) = true
  value_eq ⦃d⦄ (number x) (number y) = d.equal x y
  value_eq (bound_method p) (bound_method q) = p == q
  value_eq (class p) (class q) = p == q
  value_eq (closure p) (closure q) = p == q
  value_eq (function p) (function q) = p == q
  value_eq (instance_ p) (instance_ q) = p == q
  value_eq (native_fn p) (native_fn q) = p == q
  value_eq (string s) (string t) = bytes_eq s t
  value_eq _ _ = false

  -- `Is_truthy_visitor`
  unfoldable pub is_truthy : Value D → Bool
  is_truthy nil = false
  is_truthy (boolean b) = b
  is_truthy _ = true

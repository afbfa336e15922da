-- ===== src/Result.antt =====
-- The exceptions that the scanner, the chunk writer and the compiler throw, as values.
-- A `runtime_error` is named after its message and carries what the message prints.
use cpplox.Prelude.{ℕ, Bytes, ◌≡◌, refl, ◌⊎◌, inl, inr}
use cpplox.Token.{TokenType}

pub data Error : Type 0 where
  -- scanner.cpp
  unexpected_character : ℕ → ℕ → Error
  unterminated_string : ℕ → Error
  -- compiler.cpp
  expected_token : ℕ → Bytes → TokenType → Error
  unexpected_token : ℕ → Bytes → Error
  uninitialized_local : ℕ → Bytes → Error
  already_declared : ℕ → Bytes → Error
  invalid_assignment_target : ℕ → Error
  top_level_return : ℕ → Error
  initializer_return : ℕ → Error
  inherits_from_itself : ℕ → Error
  -- `gsl::narrow` and `vector::at`
  narrowing_error : Error
  out_of_range : Error
  -- `boost::lexical_cast`
  bad_lexical_cast : Error
  -- No exception: `assert` ends the program.
  assertion_failed : Error
  -- No exception of the program: the model's recursion was cut short.
  out_of_fuel : Error

-- What a function that may throw gives.
pub data Result {ℓ} (A : Type ℓ) : Type ℓ where
  ok : A → Result A
  err : Error → Result A

module _ {ℓ κ} {A : Type ℓ} {B : Type κ} where
  infixl 5 ◌>>=◌
  abbrev pub ◌>>=◌ : (result : Result A) (continue : A → Result B) → Result B
  ok value >>= continue = continue value
  err thrown >>= continue = err thrown

  -- A chain that returns has a first part that returned.
  pub bind-eq-ok :
      (result : Result A) (continue : A → Result B) {last : B}
      → (result >>= continue) ≡ ok last
      → (value : A) × (result ≡ ok value) × (continue value ≡ ok last)
  bind-eq-ok (ok value) continue e = (value, refl, e)
  bind-eq-ok (err thrown) continue e = cc

pub Result-cases {ℓ} :
    {A : Type ℓ} (m : Result A) → ((a : A) × (m ≡ ok a)) ⊎ ((e : Error) × (m ≡ err e))
Result-cases (ok a) = inl (a, refl)
Result-cases (err e) = inr (e, refl)

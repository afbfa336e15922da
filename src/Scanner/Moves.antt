-- ===== src/Scanner/Moves.antt =====
-- What the iterator moves of the scanner pass over.
use cpplox.Prelude.{
  ℕ, ◌+◌, ◌-◌, Bool, true, false, not, ◌⊎◌, [], ◌∷◌, ◌++◌, ◌≡◌, refl, ap, All, length,
  length-append, take-append, arith, Bool-cases, ◌==◌, inl, inr, if◌then◌else◌, Bytes,
}
use cpplox.Scanner.{Cursor, skip_while, slice, at, isdigit, at_fraction, skip_fraction, string_loop}
use cpplox.Scanner.Lexical.{Is, newlines}

slice-append : (xs ys : Bytes) → slice (xs ++ ys) ys ≡ xs
unfolding slice
slice-append xs ys =
    let e : length (xs ++ ys) - length ys ≡ length xs = omega (arith, length-append xs ys) in
    rw e (take-append xs ys)

pub slice_of : {s : Bytes} (xs ys : Bytes) → s ≡ xs ++ ys → slice s ys ≡ xs
slice_of xs ys e = rw e (slice-append xs ys)

pub newlines-append : (xs ys : Bytes) → newlines (xs ++ ys) ≡ newlines xs + newlines ys
newlines-append [] ys = omega arith
newlines-append (x ∷ xs) ys = omega (arith, newlines-append xs ys)

-- What a loop passed over, and where it stopped.
pub record Passed (test : ℕ → Bool) (s t : Bytes) : Type 0 where
  pub run : Bytes
  pub splits : s ≡ run ++ t
  pub holds : All (Is test) run
  pub stops : at test t ≡ false

Passed-cons :
    {test : ℕ → Bool} (c : ℕ) {s t : Bytes} → Is test c → Passed test s t → Passed test (c ∷ s) t
Passed-cons c h p = record {
  run = c ∷ p.run;
  splits = ap (◌∷◌ c) p.splits;
  holds = (h, p.holds);
  stops = p.stops;
}

pub skip_while-Passed : (test : ℕ → Bool) (s : Bytes) → Passed test s (skip_while test s)
unfolding skip_while at
skip_while-Passed test [] = record { run = []; splits = refl; holds = tt; stops = refl }
skip_while-Passed test (c ∷ cs) = elim (Bool-cases (test c)) [
  | inl h ↦ rw h (Passed-cons c h (skip_while-Passed test cs))
  | inr h ↦ rw h (record { run = []; splits = refl; holds = tt; stops = h })
]

-- The loop in `scan_string_token` moves as `skip_while` does, and counts the newlines it passes.
pub string_loop-skip_while :
    (c : Cursor) (s : Bytes) → (string_loop c s).token_end ≡ skip_while (λ x. not (x == b'"')) s
unfolding string_loop skip_while
string_loop-skip_while c [] = refl
string_loop-skip_while c (x ∷ xs) = ground (
  arith,
  string_loop-skip_while (record c { line = if x == b'\n' then c.line + 1 else c.line }) xs,
)

pub string_loop-token_begin :
    (c : Cursor) (s : Bytes) → (string_loop c s).token_begin ≡ c.token_begin
unfolding string_loop
string_loop-token_begin c [] = refl
string_loop-token_begin c (x ∷ xs) = ground (
  arith,
  string_loop-token_begin (record c { line = if x == b'\n' then c.line + 1 else c.line }) xs,
)

pub string_loop-line :
    (c : Cursor) (s : Bytes)
    → (string_loop c s).line + newlines (string_loop c s).token_end ≡ c.line + newlines s
unfolding string_loop
string_loop-line c [] = refl
string_loop-line c (x ∷ xs) =
    ground
      (arith, string_loop-line (record c { line = if x == b'\n' then c.line + 1 else c.line }) xs)

-- The fractional part of a number, where there is one.
pub skip_fraction-cases :
    (s : Bytes)
    → (at_fraction s ≡ false) × (skip_fraction s ≡ s)
      ⊎ ((d : ℕ) × (u : Bytes) × (s ≡ b'.' ∷ d ∷ u)
          × (isdigit d ≡ true)
          × (skip_fraction s ≡ skip_while isdigit u))
unfolding skip_fraction
skip_fraction-cases [] = inl (refl, refl)
skip_fraction-cases (c ∷ []) = inl (ground arith, ground arith)
skip_fraction-cases (c ∷ d ∷ u) = elim (Bool-cases (at_fraction (c ∷ d ∷ u))) [
  | inl h ↦ inr (d, u, ground arith, ground arith, rw h)
  | inr h ↦ inl (h, rw h)
]

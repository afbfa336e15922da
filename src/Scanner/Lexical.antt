-- ===== src/Scanner/Lexical.antt =====
-- The lexical grammar that src/scanner.cpp implements, stated without iterators.
use cpplox.Prelude.{
  ℕ, ◌+◌, Bool, true, false, not, ◌||◌, [], ◌∷◌, ◌++◌, ◌≡◌, All, ◌==◌, if◌then◌else◌, Bytes,
}
use cpplox.Scanner.{isalpha, isdigit, is_word, at, at_fraction, keyword_type}
use cpplox.Token.{TokenType, slash, number, string}

abbrev pub newlines : Bytes → ℕ
newlines [] = 0
newlines (c ∷ cs) = (if c == b'\n' then 1 else 0) + newlines cs

abbrev pub is_blank : ℕ → Bool
is_blank c = c == b' ' || c == b'\r' || c == b'\t' || c == b'\n'

-- A character of a class, and a text of such characters.
abbrev pub Is : (ℕ → Bool) → ℕ → Type 0
Is test c = test c ≡ true

-- `Skips s t`: `t` is what is left of `s` behind blanks and line comments.
pub data Skips : Bytes → Bytes → Type 0 where
  done : {s : Bytes} → Skips s s
  blank : {c : ℕ} {s t : Bytes} → Is is_blank c → Skips s t → Skips (c ∷ s) t
  comment :
      (body : Bytes) {u s t : Bytes}
      → u ≡ body ++ s
      → All (Is (λ c. not (c == b'\n'))) body
      → at (λ c. not (c == b'\n')) s ≡ false
      → Skips s t
      → Skips (b'/' ∷ b'/' ∷ u) t

-- The tokens of one fixed character.
pub data Symbol : TokenType → ℕ → Type 0 where
  left_paren : Symbol TokenType.left_paren b'('
  right_paren : Symbol TokenType.right_paren b')'
  left_brace : Symbol TokenType.left_brace b'{'
  right_brace : Symbol TokenType.right_brace b'}'
  comma : Symbol TokenType.comma b','
  dot : Symbol TokenType.dot b'.'
  minus : Symbol TokenType.minus b'-'
  plus : Symbol TokenType.plus b'+'
  semicolon : Symbol TokenType.semicolon b';'
  star : Symbol TokenType.star b'*'

-- The characters that are one token alone and another before `=`.
pub data Operator : TokenType → TokenType → ℕ → Type 0 where
  bang : Operator TokenType.bang_equal TokenType.bang b'!'
  equal : Operator TokenType.equal_equal TokenType.equal b'='
  greater : Operator TokenType.greater_equal TokenType.greater b'>'
  less : Operator TokenType.less_equal TokenType.less b'<'

-- `Lexes type lexeme rest`: in front of `rest` the longest token is `lexeme`, of this type.
pub data Lexes : TokenType → Bytes → Bytes → Type 0 where
  word :
      {c : ℕ} {cs rest : Bytes}
      → (isalpha c || b'_' == c) ≡ true
      → All (Is is_word) cs
      → at is_word rest ≡ false
      → Lexes (keyword_type (c ∷ cs)) (c ∷ cs) rest
  whole :
      {c : ℕ} {cs rest : Bytes}
      → Is isdigit c
      → All (Is isdigit) cs
      → at isdigit rest ≡ false
      → at_fraction rest ≡ false
      → Lexes number (c ∷ cs) rest
  decimal :
      (c d : ℕ) (cs ds : Bytes) {lexeme rest : Bytes}
      → Is isdigit c
      → All (Is isdigit) cs
      → Is isdigit d
      → All (Is isdigit) ds
      → lexeme ≡ c ∷ (cs ++ (b'.' ∷ d ∷ ds))
      → at isdigit rest ≡ false
      → Lexes number lexeme rest
  quoted :
      (body : Bytes) {lexeme rest : Bytes}
      → All (Is (λ c. not (c == b'"'))) body
      → lexeme ≡ b'"' ∷ (body ++ (b'"' ∷ []))
      → Lexes string lexeme rest
  symbol : {type : TokenType} {c : ℕ} {rest : Bytes} → Symbol type c → Lexes type (c ∷ []) rest
  divide : {rest : Bytes} → at (λ c. c == b'/') rest ≡ false → Lexes slash (b'/' ∷ []) rest
  matched :
      {both single : TokenType} {c : ℕ} {rest : Bytes}
      → Operator both single c
      → Lexes both (c ∷ b'=' ∷ []) rest
  unmatched :
      {both single : TokenType} {c : ℕ} {rest : Bytes}
      → Operator both single c
      → at (λ x. x == b'=') rest ≡ false
      → Lexes single (c ∷ []) rest

-- The characters that no token, blank or comment begins with.
abbrev pub is_unknown : ℕ → Bool
is_unknown c = not (
    isalpha c
    || b'_' == c
    || isdigit c
    || is_blank c
    || c == b'"'
    || c == b'/'
    || c == b'('
    || c == b')'
    || c == b'{'
    || c == b'}'
    || c == b','
    || c == b'.'
    || c == b'-'
    || c == b'+'
    || c == b';'
    || c == b'*'
    || c == b'!'
    || c == b'='
    || c == b'>'
    || c == b'<')

-- ===== src/Token.antt =====
-- Token_type and Token of src/scanner.hpp.
use cpplox.Prelude.{ℕ, Bool, ◌==◌, Bytes}

pub data TokenType : Type 0 where
  eof : TokenType
  left_paren right_paren left_brace right_brace comma dot minus plus semicolon slash star :
      TokenType
  bang bang_equal equal equal_equal greater greater_equal less less_equal : TokenType
  identifier number string : TokenType
  and_ break_ class_ continue_ else_ false_ for_ fun if_ nil or_ print return_ super this_ :
      TokenType
  true_ var while_ : TokenType

pub record Token : Type 0 where
  pub type : TokenType
  pub lexeme : Bytes
  pub line : ℕ

-- The enumerators count from 0 in the order of MOTTS_LOX_TOKEN_TYPE_NAMES.
unfoldable pub token_code : TokenType → ℕ
token_code eof = 0
token_code left_paren = 1
token_code right_paren = 2
token_code left_brace = 3
token_code right_brace = 4
token_code comma = 5
token_code dot = 6
token_code minus = 7
token_code plus = 8
token_code semicolon = 9
token_code slash = 10
token_code star = 11
token_code bang = 12
token_code bang_equal = 13
token_code equal = 14
token_code equal_equal = 15
token_code greater = 16
token_code greater_equal = 17
token_code less = 18
token_code less_equal = 19
token_code identifier = 20
token_code number = 21
token_code string = 22
token_code and_ = 23
token_code break_ = 24
token_code class_ = 25
token_code continue_ = 26
token_code else_ = 27
token_code false_ = 28
token_code for_ = 29
token_code fun = 30
token_code if_ = 31
token_code nil = 32
token_code or_ = 33
token_code print = 34
token_code return_ = 35
token_code super = 36
token_code this_ = 37
token_code true_ = 38
token_code var = 39
token_code while_ = 40

-- `==` on Token_type
unfoldable pub type_eq : TokenType → TokenType → Bool
unfolding token_code
type_eq a b = token_code a == token_code b

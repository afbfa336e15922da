-- ===== src/Scanner.antt =====
-- The scanner: src/scanner.hpp and src/scanner.cpp. A `Cursor` holds the iterators and the line
-- counter of `Token_iterator`; an iterator is the text from it up to `source_end_`.
mod Chars
pub mod Lexical
mod Moves
mod Rounds
mod Symbols
pub mod Correct
pub mod Keywords
use cpplox.Prelude.{
  ℕ, zero, suc, ◌+◌, Bool, true, false, not, ◌&&◌, ◌||◌, List, [], ◌∷◌, length, ◌==◌, if◌then◌else◌,
  Bytes, bytes_eq,
}
use cpplox.Token.{
  TokenType, Token, eof, left_paren, right_paren, left_brace, right_brace, comma, dot, minus, plus,
  semicolon, slash, star, bang, bang_equal, equal, equal_equal, greater, greater_equal, less,
  less_equal, identifier, number, string, and_, break_, class_, continue_, else_, false_, for_, fun,
  if_, nil, or_, print, return_, super, this_, true_, var, while_,
}
use cpplox.Result.{Result, ok, err, ◌>>=◌, unexpected_character, unterminated_string, out_of_fuel}
unfoldable pub use Chars.{isalpha, isdigit, isalnum, skip_while, slice}

pub record Cursor : Type 0 where
  pub token_begin : Bytes
  pub token_end : Bytes
  pub line : ℕ

pub record TokenIterator : Type 0 where
  pub cursor : Cursor
  pub token : Token

-- What one round of the loop in `scan_token` does: it returns a token, or it continues.
pub data Round : Type 0 where
  returned : Token → Cursor → Round
  continued : Cursor → Round

-- `Token{type, {token_begin_, token_end_}, line_}`
abbrev pub token_here : TokenType → Cursor → Token
token_here type c = record { type = type; lexeme = slice c.token_begin c.token_end; line = c.line }

abbrev pub return_token : TokenType → Cursor → Round
return_token type c = returned (token_here type c) c

-- The character behind an iterator passes a test; false at the end of the source.
unfoldable pub at : (ℕ → Bool) → Bytes → Bool
at test [] = false
at test (c ∷ _) = test c

unfoldable pub drop_one : Bytes → Bytes
drop_one [] = []
drop_one (_ ∷ cs) = cs

-- The flag is the value returned.
unfoldable pub scan_if_match : ℕ → Cursor → Bool × Cursor
unfolding at drop_one
scan_if_match expected c =
    if at (λ x. x == expected) c.token_end
    then (true, record c { token_end = drop_one c.token_end })
    else (false, c)

-- The lambda in `scan_identifier_token`.
unfoldable pub keyword_type : Bytes → TokenType
unfolding bytes_eq
keyword_type s =
    if bytes_eq s (b'a' ∷ b'n' ∷ b'd' ∷ [])
    then and_
    else if bytes_eq s (b'b' ∷ b'r' ∷ b'e' ∷ b'a' ∷ b'k' ∷ [])
    then break_
    else if bytes_eq s (b'c' ∷ b'l' ∷ b'a' ∷ b's' ∷ b's' ∷ [])
    then class_
    else if bytes_eq s (b'c' ∷ b'o' ∷ b'n' ∷ b't' ∷ b'i' ∷ b'n' ∷ b'u' ∷ b'e' ∷ [])
    then continue_
    else if bytes_eq s (b'e' ∷ b'l' ∷ b's' ∷ b'e' ∷ [])
    then else_
    else if bytes_eq s (b'f' ∷ b'a' ∷ b'l' ∷ b's' ∷ b'e' ∷ [])
    then false_
    else if bytes_eq s (b'f' ∷ b'o' ∷ b'r' ∷ [])
    then for_
    else if bytes_eq s (b'f' ∷ b'u' ∷ b'n' ∷ [])
    then fun
    else if bytes_eq s (b'i' ∷ b'f' ∷ [])
    then if_
    else if bytes_eq s (b'n' ∷ b'i' ∷ b'l' ∷ [])
    then nil
    else if bytes_eq s (b'o' ∷ b'r' ∷ [])
    then or_
    else if bytes_eq s (b'p' ∷ b'r' ∷ b'i' ∷ b'n' ∷ b't' ∷ [])
    then print
    else if bytes_eq s (b'r' ∷ b'e' ∷ b't' ∷ b'u' ∷ b'r' ∷ b'n' ∷ [])
    then return_
    else if bytes_eq s (b's' ∷ b'u' ∷ b'p' ∷ b'e' ∷ b'r' ∷ [])
    then super
    else if bytes_eq s (b't' ∷ b'h' ∷ b'i' ∷ b's' ∷ [])
    then this_
    else if bytes_eq s (b't' ∷ b'r' ∷ b'u' ∷ b'e' ∷ [])
    then true_
    else if bytes_eq s (b'v' ∷ b'a' ∷ b'r' ∷ [])
    then var
    else if bytes_eq s (b'w' ∷ b'h' ∷ b'i' ∷ b'l' ∷ b'e' ∷ [])
    then while_
    else identifier

abbrev pub is_word : ℕ → Bool
is_word c = isalnum c || b'_' == c

unfoldable pub scan_identifier_token : Cursor → Round
scan_identifier_token c =
    let end = skip_while is_word c.token_end in
    return_token (keyword_type (slice c.token_begin end)) (record c { token_end = end })

-- `*token_end_ == '.' && (token_end_ + 1) != source_end_ && isdigit(*(token_end_ + 1))`
unfoldable pub at_fraction : Bytes → Bool
unfolding at drop_one
at_fraction s = at (λ c. c == b'.') s && at isdigit (drop_one s)

unfoldable pub skip_fraction : Bytes → Bytes
unfolding at_fraction drop_one skip_while
skip_fraction s = if at_fraction s then skip_while isdigit (drop_one (drop_one s)) else s

unfoldable pub scan_number_token : Cursor → Round
scan_number_token c =
    return_token number (record c { token_end = skip_fraction (skip_while isdigit c.token_end) })

-- `while (token_end_ != source_end_ && *token_end_ != '"')`
unfoldable pub string_loop : Cursor → Bytes → Cursor
string_loop c [] = record c { token_end = [] }
string_loop c (x ∷ xs) =
    let next = string_loop (record c { line = if x == b'\n' then c.line + 1 else c.line }) xs in
    if not (x == b'"') then next else record c { token_end = x ∷ xs }

unfoldable pub close_string : ℕ → Cursor → Bytes → Result Round
close_string begin_line c [] = err (unterminated_string c.line)
close_string begin_line c (_ ∷ rest) = ok (
    returned (record { type = string; lexeme = slice c.token_begin rest; line = begin_line })
      (record c { token_end = rest }))

unfoldable pub scan_string_token : Cursor → Result Round
scan_string_token c =
    let at_quote = string_loop c c.token_end in close_string c.line at_quote at_quote.token_end

-- `return {scan_if_match('=') ? matched : single, {token_begin_, token_end_}, line_};`
unfoldable pub scan_operator : TokenType → TokenType → Cursor → Round
scan_operator matched single c =
    let (is_matched, c') = scan_if_match b'=' c in
    if is_matched then return_token matched c' else return_token single c'

-- `case '/'`
unfoldable pub scan_slash : Cursor → Round
scan_slash c =
    let (is_comment, c') = scan_if_match b'/' c in
    if is_comment
    then continued (record c' { token_end = skip_while (λ x. not (x == b'\n')) c'.token_end })
    else return_token slash c'

-- The `switch`, on a character already consumed.
unfoldable pub scan_symbol : ℕ → Cursor → Result Round
scan_symbol x c =
    if x == b'"'
    then scan_string_token c
    else if x == b' '
    then ok (continued c)
    else if x == b'\r'
    then ok (continued c)
    else if x == b'\t'
    then ok (continued c)
    else if x == b'\n'
    then ok (continued (record c { line = c.line + 1 }))
    else if x == b'/'
    then ok (scan_slash c)
    else if x == b'('
    then ok (return_token left_paren c)
    else if x == b')'
    then ok (return_token right_paren c)
    else if x == b'{'
    then ok (return_token left_brace c)
    else if x == b'}'
    then ok (return_token right_brace c)
    else if x == b','
    then ok (return_token comma c)
    else if x == b'.'
    then ok (return_token dot c)
    else if x == b'-'
    then ok (return_token minus c)
    else if x == b'+'
    then ok (return_token plus c)
    else if x == b';'
    then ok (return_token semicolon c)
    else if x == b'*'
    then ok (return_token star c)
    else if x == b'!'
    then ok (scan_operator bang_equal bang c)
    else if x == b'='
    then ok (scan_operator equal_equal equal c)
    else if x == b'>'
    then ok (scan_operator greater_equal greater c)
    else if x == b'<'
    then ok (scan_operator less_equal less c)
    else err (unexpected_character c.line x)

-- The body of the loop in `scan_token`: `next_char` is consumed, `rest` follows it.
unfoldable pub scan_round : Cursor → ℕ → Bytes → Result Round
scan_round c next_char rest =
    let c' : Cursor = record { token_begin = next_char ∷ rest; token_end = rest; line = c.line } in
    if isalpha next_char || b'_' == next_char
    then ok (scan_identifier_token c')
    else if isdigit next_char
    then ok (scan_number_token c')
    else scan_symbol next_char c'

abbrev pub eof_token : ℕ → Token
eof_token line = record { type = eof; lexeme = b'E' ∷ b'O' ∷ b'F' ∷ []; line = line }

unfoldable pub scan_loop : ℕ → Cursor → Result (Token × Cursor)
scan_loop zero c = err out_of_fuel
scan_loop (suc fuel) c = elim c.token_end [
  | [] ↦ ok (eof_token c.line, c)
  | next_char ∷ rest ↦ elim (scan_round c next_char rest) [
    | ok (returned t c') ↦ ok (t, c')
    | ok (continued c') ↦ scan_loop fuel c'
    | err e ↦ err e
  ]
]

-- Each round consumes a character, so that the characters left bound the rounds.
unfoldable pub scan_token : Cursor → Result (Token × Cursor)
scan_token c = scan_loop (suc (length c.token_end)) c

-- `operator++`
unfoldable pub advance : TokenIterator → Result TokenIterator
advance it = do (t, c) ← scan_token it.cursor; ok (record { cursor = c; token = t })

-- The constructor from a source.
unfoldable pub begin : Bytes → Result TokenIterator
begin source = do
  (t, c) ← scan_token (record { token_begin = source; token_end = source; line = 1 })
  ok (record { cursor = c; token = t })

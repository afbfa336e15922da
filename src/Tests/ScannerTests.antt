-- ===== src/Tests/ScannerTests.antt =====
-- The scanner on concrete sources.
use Prim.Native.Char.{code}
use Prim.Native.String.{String}
use cpplox.Prelude.{ℕ, zero, suc, Bytes, List, [], ◌∷◌, ◌≡◌, refl}
use cpplox.Result.{Result, ok, err, out_of_fuel, unterminated_string}
use cpplox.Scanner.{
  Cursor, scan_token, scan_loop, scan_round, scan_symbol, scan_slash, scan_operator,
  scan_string_token, scan_number_token, scan_identifier_token, keyword_type, skip_fraction,
  string_loop, close_string, scan_if_match, skip_while, slice, isalpha, isdigit, isalnum,
}
use cpplox.Token.{Token, TokenType}

abbrev codes : String → Bytes
codes String.[] = []
codes (String.◌∷◌ c s) = code c ∷ codes s

tokens : ℕ → Cursor → Result (List Token)
unfolding scan_token scan_loop scan_round scan_symbol scan_slash scan_operator scan_string_token
    scan_number_token scan_identifier_token keyword_type skip_fraction string_loop close_string
    scan_if_match skip_while slice isalpha isdigit isalnum
tokens zero c = err out_of_fuel
tokens (suc n) c = elim (scan_token c) [
  | err e ↦ err e
  | ok (t, c') ↦ elim t.type [
    | TokenType.eof ↦ ok (t ∷ [])
    | _ ↦ elim (tokens n c') [ err e ↦ err e | ok ts ↦ ok (t ∷ ts) ]
  ]
]

abbrev start : String → Cursor
start s = record { token_begin = codes s; token_end = codes s; line = 1 }

abbrev tok : TokenType → String → ℕ → Token
tok ty s l = record { type = ty; lexeme = codes s; line = l }

tokens_demo :
    tokens 20 (start "var x1 = 12.5; // hi\n\"a\nb\" <= !for.")
    ≡ ok (
        tok TokenType.var "var" 1
        ∷ tok TokenType.identifier "x1" 1
        ∷ tok TokenType.equal "=" 1
        ∷ tok TokenType.number "12.5" 1
        ∷ tok TokenType.semicolon ";" 1
        ∷ tok TokenType.string "\"a\nb\"" 2
        ∷ tok TokenType.less_equal "<=" 3
        ∷ tok TokenType.bang "!" 3
        ∷ tok TokenType.for_ "for" 3
        ∷ tok TokenType.dot "." 3
        ∷ tok TokenType.eof "EOF" 3
        ∷ [])
unfolding tokens
tokens_demo = refl

tokens_unterminated : tokens 20 (start "a \"b\nc") ≡ err (unterminated_string 2)
unfolding tokens
tokens_unterminated = refl

-- ===== src/Scanner/Symbols.antt =====
-- The `switch` of `scan_token`, and a whole round of its loop.
use cpplox.Prelude.{
  ℕ, ◌+◌, true, false, ◌||◌, [], ◌∷◌, ◌≡◌, refl, sym, subst, if_cases, eq_of_test, arith, ◌==◌,
  Bytes,
}
use cpplox.Result.{Result, ok}
use cpplox.Scanner.Lexical.{newlines, is_blank, blank, Symbol, Operator, symbol}
use cpplox.Scanner.Rounds.{
  RoundSpec, Reads-token_here, Symbol-not_newline, cursor_at, scan_identifier_token-RoundSpec,
  scan_number_token-RoundSpec, scan_operator-RoundSpec, scan_slash-RoundSpec,
  scan_string_token-RoundSpec,
}
use cpplox.Scanner.{
  Cursor, Round, continued, return_token, isalpha, isdigit, scan_operator, scan_slash,
  scan_string_token, scan_symbol, scan_round,
}
use cpplox.Token.{TokenType}

module _ (x : ℕ) (rest : Bytes) (line : ℕ) where
  abbrev P : Result Round → Type 0
  P = RoundSpec (x ∷ rest) line

  fixed :
      {type : TokenType} {k : ℕ}
      → Symbol type k
      → (x == k) ≡ true
      → P (ok (return_token type (cursor_at x rest line rest)))
  fixed {type} {k} s e =
      let s' = subst (Symbol type) (sym (eq_of_test x k e)) s in
      Reads-token_here type (cursor_at x rest line rest) (x ∷ []) refl (symbol s')
        (Symbol-not_newline s')

  either :
      {both single : TokenType} {k : ℕ}
      → Operator both single k
      → (x == k) ≡ true
      → P (ok (scan_operator both single (cursor_at x rest line rest)))
  either {both} {single} {k} o e =
      scan_operator-RoundSpec x rest line (subst (Operator both single) (sym (eq_of_test x k e)) o)

  quote : (x == b'"') ≡ true → P (scan_string_token (cursor_at x rest line rest))
  quote e = rw (eq_of_test x b'"' e) (scan_string_token-RoundSpec rest line)

  divided : (x == b'/') ≡ true → P (ok (scan_slash (cursor_at x rest line rest)))
  divided e = rw (eq_of_test x b'/' e) (scan_slash-RoundSpec rest line)

  skip :
      (line' : ℕ)
      → is_blank x ≡ true
      → line' + newlines rest ≡ line + newlines (x ∷ rest)
      → P (ok (continued (cursor_at x rest line' rest)))
  skip line' b counted = (λ u k. blank b k, counted, omega arith)

  scan_symbol-RoundSpec :
      (isalpha x || b'_' == x) ≡ false
      → isdigit x ≡ false
      → P (scan_symbol x (cursor_at x rest line rest))
  unfolding scan_symbol
  scan_symbol-RoundSpec na nd = if_cases P (x == b'"') quote λ nq.
      if_cases P (x == b' ') (λ e. skip line (ground arith) (ground arith))
        λ n0.
          if_cases P (x == b'\r') (λ e. skip line (ground arith) (ground arith))
            λ n1.
              if_cases P (x == b'\t') (λ e. skip line (ground arith) (ground arith))
                λ n2.
                  if_cases P (x == b'\n') (λ e. skip (line + 1) (ground arith) (ground arith))
                    λ nn. if_cases P (x == b'/') divided λ nd'.
                      if_cases P (x == b'(') (λ e. fixed Symbol.left_paren e)
                        λ n_left_paren.
                          if_cases P (x == b')') (λ e. fixed Symbol.right_paren e)
                            λ n_right_paren.
                              if_cases P (x == b'{') (λ e. fixed Symbol.left_brace e)
                                λ n_left_brace.
                                  if_cases P (x == b'}') (λ e. fixed Symbol.right_brace e)
                                    λ n_right_brace.
                                      if_cases P (x == b',') (λ e. fixed Symbol.comma e)
                                        λ n_comma.
                                          if_cases P (x == b'.') (λ e. fixed Symbol.dot e)
                                            λ n_dot.
                                              if_cases P (x == b'-') (λ e. fixed Symbol.minus e)
                                                λ n_minus.
                                                  if_cases P (x == b'+') (λ e. fixed Symbol.plus e)
                                                    λ n_plus.
                                                      if_cases P (x == b';')
                                                        (λ e. fixed Symbol.semicolon e)
                                                        λ n_semicolon.
                                                          if_cases P (x == b'*')
                                                            (λ e. fixed Symbol.star e)
                                                            λ n_star.
                                                            if_cases P (x == b'!')
                                                            (λ e. either Operator.bang e)
                                                            λ n_bang.
                                                            if_cases P (x == b'=')
                                                            (λ e. either Operator.equal e)
                                                            λ n_equal.
                                                            if_cases P (x == b'>')
                                                            (λ e. either Operator.greater e)
                                                            λ n_greater.
                                                            if_cases P (x == b'<')
                                                            (λ e. either Operator.less e)
                                                            λ n_less.
                                                            (rest, refl, ground arith, refl)

-- A round returns the longest token at its first character, passes over a blank or a comment,
-- or fails.
pub scan_round-RoundSpec :
    (c : Cursor) (x : ℕ) (rest : Bytes) → RoundSpec (x ∷ rest) c.line (scan_round c x rest)
unfolding scan_round
scan_round-RoundSpec c x rest =
    if_cases P' (isalpha x || b'_' == x) (scan_identifier_token-RoundSpec x rest c.line) λ na.
      if_cases P' (isdigit x) (scan_number_token-RoundSpec x rest c.line)
        λ nd. scan_symbol-RoundSpec x rest c.line na nd
  where
    P' : Result Round → Type 0
    P' = RoundSpec (x ∷ rest) c.line

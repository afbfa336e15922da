-- ===== src/Scanner/Rounds.antt =====
-- What one round of the loop in `scan_token` returns, or passes over.
use cpplox.Prelude.{
  ℕ, ◌+◌, ◌<◌, Bool, true, false, not, ◌||◌, [], ◌∷◌, ◌++◌, ◌≡◌, refl, ap, sym, ◌∙◌, append_assoc,
  append-nil, All, length, length-append, eq_of_test, subst, arith, Bool-cases, ◌==◌, inl, inr,
  Bytes,
}
use cpplox.Result.{Result, ok, err, unexpected_character, unterminated_string}
use cpplox.Scanner.Lexical.{
  newlines, Is, Skips, comment, Symbol, Operator, Lexes, word, whole, decimal, quoted, divide,
  matched, unmatched, is_unknown,
}
use cpplox.Scanner.Moves.{
  slice_of, newlines-append, skip_fraction-cases, skip_while-Passed, string_loop-skip_while,
  string_loop-token_begin, string_loop-line,
}
use cpplox.Scanner.{
  Cursor, Round, returned, continued, token_here, isalpha, isdigit, isalnum, is_word, skip_while,
  slice, at, scan_if_match, scan_identifier_token, scan_number_token, string_loop, close_string,
  scan_string_token, scan_operator, scan_slash,
}
use cpplox.Token.{Token, TokenType}

-- A token `t` read from `s` at line `line`, with the cursor `c` behind it.
pub record Reads (s : Bytes) (line : ℕ) (t : Token) (c : Cursor) : Type 0 where
  pub splits : s ≡ t.lexeme ++ c.token_end
  pub lexes : Lexes t.type t.lexeme c.token_end
  pub line_is : t.line ≡ line
  pub counted : c.line + newlines c.token_end ≡ line + newlines s

-- What a round at `s` and line `line` may come to.
abbrev pub RoundSpec : Bytes → ℕ → Result Round → Type 0
RoundSpec s line (ok (returned t c)) = Reads s line t c
RoundSpec s line (ok (continued c)) =
    ((u : Bytes) → Skips c.token_end u → Skips s u)
    × (c.line + newlines c.token_end ≡ line + newlines s)
    × (length c.token_end < length s)
RoundSpec s line (err (unexpected_character l x)) =
    (rest : Bytes) × (s ≡ x ∷ rest) × Is is_unknown x × (l ≡ line)
RoundSpec s line (err (unterminated_string l)) =
    (body : Bytes) × (s ≡ b'"' ∷ body)
    × All (Is (λ c. not (c == b'"'))) body
    × (l ≡ line + newlines body)
RoundSpec s line (err _) = ⊥

newlines-All :
    (test : ℕ → Bool)
    → ((c : ℕ) → Is test c → (c == b'\n') ≡ false)
    → (s : Bytes) → All (Is test) s
    → newlines s ≡ 0
newlines-All test off [] h = refl
newlines-All test off (c ∷ cs) h = rw (off c h.0) (omega (arith, newlines-All test off cs h.1))

word_not_newline : (c : ℕ) → Is is_word c → (c == b'\n') ≡ false
unfolding isalnum isalpha isdigit
word_not_newline c h = ground arith

digit_not_newline : (c : ℕ) → Is isdigit c → (c == b'\n') ≡ false
unfolding isdigit
digit_not_newline c h = ground arith

-- `Token{type, {token_begin_, token_end_}, line_}`, when the iterators enclose a lexeme.
pub Reads-token_here :
    (type : TokenType) (c : Cursor) (lexeme : Bytes)
    → c.token_begin ≡ lexeme ++ c.token_end
    → Lexes type lexeme c.token_end
    → newlines lexeme ≡ 0
    → Reads c.token_begin c.line (token_here type c) c
Reads-token_here type c lexeme split lex none =
    let e : slice c.token_begin c.token_end ≡ lexeme = slice_of lexeme c.token_end split in
    record {
      splits = rw e split;
      lexes = rw e lex;
      line_is = refl;
      counted = rw split (omega (arith, newlines-append lexeme c.token_end));
    }

word_start : (c : ℕ) → (isalpha c || b'_' == c) ≡ true → Is is_word c
unfolding isalnum
word_start c h = ground arith

module _ (x : ℕ) (rest : Bytes) (line : ℕ) where
  abbrev pub cursor_at : Bytes → Cursor
  cursor_at end = record { token_begin = x ∷ rest; token_end = end; line = line }

  pub scan_identifier_token-RoundSpec :
      (isalpha x || b'_' == x) ≡ true
      → RoundSpec (x ∷ rest) line (ok (scan_identifier_token (cursor_at rest)))
  unfolding scan_identifier_token
  scan_identifier_token-RoundSpec h =
      let p = skip_while-Passed is_word rest in
      let split = ap (◌∷◌ x) p.splits in
      let e = slice_of (x ∷ p.run) (skip_while is_word rest) split in
      Reads-token_here _ (cursor_at (skip_while is_word rest)) (x ∷ p.run) split
        (rw e (word h p.holds p.stops))
        (newlines-All is_word word_not_newline (x ∷ p.run) (word_start x h, p.holds))

  pub scan_number_token-RoundSpec :
      Is isdigit x → RoundSpec (x ∷ rest) line (ok (scan_number_token (cursor_at rest)))
  unfolding scan_number_token
  scan_number_token-RoundSpec h =
      let p = skip_while-Passed isdigit rest in
      let after = skip_while isdigit rest in
      let none = newlines-All isdigit digit_not_newline in
      elim (skip_fraction-cases after) [
        | inl (f, e) ↦ rw e (
            Reads-token_here TokenType.number (cursor_at after) (x ∷ p.run) (ap (◌∷◌ x) p.splits)
              (whole h p.holds p.stops f) (none (x ∷ p.run) (h, p.holds)))
        | inr (d, u, e, hd, e') ↦
            let q = skip_while-Passed isdigit u in
            rw e' (
              Reads-token_here TokenType.number (cursor_at (skip_while isdigit u))
                (x ∷ (p.run ++ (b'.' ∷ d ∷ q.run)))
                (ap (◌∷◌ x) (
                  p.splits
                  ∙ ap (◌++◌ p.run) (e ∙ ap (λ t. b'.' ∷ d ∷ t) q.splits)
                  ∙ sym (append_assoc p.run (b'.' ∷ d ∷ q.run) (skip_while isdigit u))))
                (decimal x d p.run q.run h p.holds hd q.holds refl q.stops)
                (omega (
                  arith,
                  newlines-append p.run (b'.' ∷ d ∷ q.run),
                  none (x ∷ p.run) (h, p.holds),
                  none (d ∷ q.run) (hd, q.holds),
                )))
      ]

pub Symbol-not_newline : {type : TokenType} {c : ℕ} → Symbol type c → newlines (c ∷ []) ≡ 0
Symbol-not_newline Symbol.left_paren = refl
Symbol-not_newline _ = refl

Operator-not_newline :
    {both single : TokenType} {c : ℕ} → Operator both single c → newlines (c ∷ []) ≡ 0
Operator-not_newline Operator.bang = refl
Operator-not_newline _ = refl

pub scan_operator-RoundSpec :
    {both single : TokenType} (x : ℕ) (rest : Bytes) (line : ℕ)
    → Operator both single x
    → RoundSpec (x ∷ rest) line (ok (scan_operator both single (cursor_at x rest line rest)))
unfolding scan_operator scan_if_match
scan_operator-RoundSpec {both} {single} x [] line o =
    Reads-token_here single (cursor_at x [] line []) (x ∷ []) refl (unmatched o (unfold at in refl))
      (Operator-not_newline o)
scan_operator-RoundSpec {both} {single} x (y ∷ ys) line o = elim (Bool-cases (y == b'=')) [
  | inl e ↦
      let c = cursor_at x (y ∷ ys) line ys in
      rw e (
        Reads-token_here both c (x ∷ b'=' ∷ []) (ap (λ t. x ∷ t ∷ ys) (eq_of_test y b'=' e))
          (matched o) (omega (arith, Operator-not_newline o)))
  | inr e ↦ rw e (
      Reads-token_here single (cursor_at x (y ∷ ys) line (y ∷ ys)) (x ∷ []) refl
        (unmatched o (unfold at in e)) (Operator-not_newline o))
]

not_newline : (c : ℕ) → Is (λ x. not (x == b'\n')) c → (c == b'\n') ≡ false
not_newline c h = ground arith

pub scan_slash-RoundSpec :
    (rest : Bytes) (line : ℕ)
    → RoundSpec (b'/' ∷ rest) line (ok (scan_slash (cursor_at b'/' rest line rest)))
unfolding scan_slash scan_if_match
scan_slash-RoundSpec [] line =
    Reads-token_here TokenType.slash (cursor_at b'/' [] line []) (b'/' ∷ []) refl
      (divide (unfold at in refl)) refl
scan_slash-RoundSpec (y ∷ ys) line = elim (Bool-cases (y == b'/')) [
  | inl e ↦
      let p = skip_while-Passed (λ x. not (x == b'\n')) ys in
      let none = newlines-All (λ x. not (x == b'\n')) not_newline p.run p.holds in
      let after = skip_while (λ x. not (x == b'\n')) ys in
      let slashed = eq_of_test y b'/' e in
      rw e (
        (λ u k.
            subst (λ t. Skips (b'/' ∷ t ∷ ys) u) (sym slashed)
              (comment p.run p.splits p.holds p.stops k)),
        rw slashed (omega (arith, ap newlines p.splits, newlines-append p.run after, none)),
        omega (arith, ap length p.splits, length-append {0} p.run after),
      )
  | inr e ↦ rw e (
      Reads-token_here TokenType.slash (cursor_at b'/' (y ∷ ys) line (y ∷ ys)) (b'/' ∷ []) refl
        (divide (unfold at in e)) refl)
]

-- The loop stopped in front of `end`, having passed `run`.
close_string-RoundSpec :
    (q : Cursor) (rest run end : Bytes) (line : ℕ)
    → q.token_begin ≡ b'"' ∷ rest
    → rest ≡ run ++ end
    → All (Is (λ x. not (x == b'"'))) run
    → at (λ x. not (x == b'"')) end ≡ false
    → q.line + newlines end ≡ line + newlines rest
    → RoundSpec (b'"' ∷ rest) line (close_string line q end)
unfolding close_string at
close_string-RoundSpec q rest run [] line begins split body stops counted =
    let whole = split ∙ append-nil run in (rest, refl, rw whole body, omega arith)
close_string-RoundSpec q rest run (y ∷ t) line begins split body stops counted =
    let closed : y ≡ b'"' = ground arith in
    let quote = b'"' ∷ (run ++ (b'"' ∷ [])) in
    let split' : b'"' ∷ rest ≡ quote ++ t =
      ap (◌∷◌ b'"')
        (split ∙ ap (λ c. run ++ (c ∷ t)) closed ∙ sym (append_assoc run (b'"' ∷ []) t)) in
    let e : slice q.token_begin t ≡ quote = slice_of quote t (begins ∙ split') in
    record {
      splits = rw e split';
      lexes = rw e (quoted run body refl);
      line_is = refl;
      counted = omega (arith, rw closed at counted);
    }

pub scan_string_token-RoundSpec :
    (rest : Bytes) (line : ℕ)
    → RoundSpec (b'"' ∷ rest) line (scan_string_token (cursor_at b'"' rest line rest))
unfolding scan_string_token
scan_string_token-RoundSpec rest line =
    let c = cursor_at b'"' rest line rest in
    let p = skip_while-Passed (λ x. not (x == b'"')) rest in
    let e = string_loop-skip_while c rest in
    close_string-RoundSpec (string_loop c rest) rest p.run (string_loop c rest).token_end line
      (string_loop-token_begin c rest) (rw e p.splits) p.holds (rw e p.stops)
      (string_loop-line c rest)

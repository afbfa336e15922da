-- ===== src/Scanner/Correct.antt =====
-- What `scan_token` returns from any cursor.
use cpplox.Prelude.{
  ℕ, zero, suc, ◌+◌, ◌<◌, not, [], ◌∷◌, ◌≡◌, ◌⊎◌, inl, inr, refl, sym, ap, All, length, arith, ◌==◌,
  Bytes,
}
use cpplox.Result.{Result, ok, err, unexpected_character, unterminated_string}
use cpplox.Scanner.Lexical.{newlines, Is, Skips, done, is_unknown}
use cpplox.Scanner.Rounds.{RoundSpec, Reads}
use cpplox.Scanner.Symbols.{scan_round-RoundSpec}
use cpplox.Scanner.{
  Cursor, Round, returned, continued, eof_token, scan_round, scan_loop, scan_token,
}
use cpplox.Token.{Token}

-- Behind blanks and comments, at `from` on line `from_line`, `t` is read.
pub record TokenAt (s : Bytes) (line : ℕ) (t : Token) (c : Cursor) : Type 0 where
  pub from : Bytes
  pub from_line : ℕ
  pub skips : Skips s from
  pub counted : from_line + newlines from ≡ line + newlines s
  pub reads : Reads from from_line t c

-- Nothing but blanks and comments is left.
pub record EndAt (s : Bytes) (line : ℕ) (t : Token) (c : Cursor) : Type 0 where
  pub skips : Skips s []
  pub token_is : t ≡ eof_token (line + newlines s)
  pub nothing_left : c.token_end ≡ []
  pub line_is : c.line ≡ line + newlines s

abbrev pub ScanSpec : Bytes → ℕ → Result (Token × Cursor) → Type 0
ScanSpec s line (ok (t, c)) = TokenAt s line t c ⊎ EndAt s line t c
ScanSpec s line (err (unexpected_character l x)) =
    (rest : Bytes) × Skips s (x ∷ rest)
    × Is is_unknown x
    × (l + newlines (x ∷ rest) ≡ line + newlines s)
ScanSpec s line (err (unterminated_string l)) =
    (body : Bytes) × Skips s (b'"' ∷ body)
    × All (Is (λ c. not (c == b'"'))) body
    × (l ≡ line + newlines s)
ScanSpec s line (err _) = ⊥

-- A round that continues moves what is found from behind it to its start.
ScanSpec-continued :
    (s : Bytes) (line : ℕ) (c : Cursor) (r : Result (Token × Cursor))
    → RoundSpec s line (ok (continued c))
    → ScanSpec c.token_end c.line r
    → ScanSpec s line r
ScanSpec-continued s line c (ok (t, c')) (move, counted, _) (inl a) = inl (record {
  from = a.from;
  from_line = a.from_line;
  skips = move a.from a.skips;
  counted = omega arith;
  reads = a.reads;
})
ScanSpec-continued s line c (ok (t, c')) (move, counted, _) (inr a) = inr (record {
  skips = move [] a.skips;
  token_is = rw (sym counted) a.token_is;
  nothing_left = a.nothing_left;
  line_is = omega arith;
})
ScanSpec-continued s line c (err (unexpected_character l x)) (move, counted, _) (rest, k, u, e) =
    (rest, move (x ∷ rest) k, u, omega arith)
ScanSpec-continued s line c (err (unterminated_string l)) (move, counted, _) (body, k, a, e) =
    (body, move (b'"' ∷ body) k, a, omega arith)
ScanSpec-continued s line c (err _) _ h = absurd h

abbrev cursor : Bytes → Bytes → ℕ → Cursor
cursor b s line = record { token_begin = b; token_end = s; line = line }

-- What follows a round at `x ∷ rest`, by what the round came to.
scan_loop_after :
    (fuel : ℕ) (b : Bytes) (x : ℕ) (rest : Bytes) (line : ℕ) (r : Result Round)
    → scan_round (cursor b (x ∷ rest) line) x rest ≡ r
    → RoundSpec (x ∷ rest) line r
    → ((c : Cursor)
        → length c.token_end < suc (length rest)
        → ScanSpec c.token_end c.line (scan_loop fuel c))
    → ScanSpec (x ∷ rest) line (scan_loop (suc fuel) (cursor b (x ∷ rest) line))
unfolding scan_loop
scan_loop_after fuel b x rest line (ok (returned t c)) run h ih =
    rw (run, scan_loop)
      (inl (record { from = x ∷ rest; from_line = line; skips = done; counted = refl; reads = h }))
scan_loop_after fuel b x rest line (ok (continued c)) run h ih =
    rw (run, scan_loop) (ScanSpec-continued (x ∷ rest) line c _ h (ih c h.2))
scan_loop_after fuel b x rest line (err (unexpected_character l y)) run (t, e, u, el) ih =
    rw (run, scan_loop) (t, rw e done, u, omega (arith, ap newlines e))
scan_loop_after fuel b x rest line (err (unterminated_string l)) run (body, e, a, el) ih =
    rw (run, scan_loop) (body, rw e done, a, omega (arith, ap newlines e))
scan_loop_after fuel b x rest line (err _) run h ih = absurd h

scan_loop-ScanSpec :
    (fuel : ℕ) (b s : Bytes) (line : ℕ)
    → length s < fuel
    → ScanSpec s line (scan_loop fuel (cursor b s line))
unfolding scan_loop
scan_loop-ScanSpec zero b s line h = elim h [ ]
scan_loop-ScanSpec (suc fuel) b [] line h = inr (record {
  skips = done;
  token_is = ap eof_token (omega arith);
  nothing_left = refl;
  line_is = omega arith;
})
scan_loop-ScanSpec (suc fuel) b (x ∷ rest) line h =
    scan_loop_after fuel b x rest line _ refl
      (scan_round-RoundSpec (cursor b (x ∷ rest) line) x rest)
      (λ c lt. scan_loop-ScanSpec fuel c.token_begin c.token_end c.line (omega arith))

-- From any cursor `scan_token` returns the longest token behind blanks and comments with the line
-- it begins on, or the end-of-file token when nothing else is left, or one of the two lexical
-- errors with its line. It does not run out of rounds.
pub scan_token-ScanSpec : (c : Cursor) → ScanSpec c.token_end c.line (scan_token c)
unfolding scan_token
scan_token-ScanSpec c =
    scan_loop-ScanSpec (suc (length c.token_end)) c.token_begin c.token_end c.line (omega arith)

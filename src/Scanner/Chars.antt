-- ===== src/Scanner/Chars.antt =====
-- Character classes and iterator moves that src/scanner.cpp is written with: the `std::is*`
-- functions of <cctype> in the "C" locale, and a `string_view` iterator as the text that
-- follows it up to `source_end_`.
use cpplox.Prelude.{ℕ, ◌-◌, Bool, ◌&&◌, ◌||◌, [], ◌∷◌, length, take, leb, if◌then◌else◌, Bytes}

unfoldable pub isalpha : ℕ → Bool
isalpha c = leb b'a' c && leb c b'z' || leb b'A' c && leb c b'Z'

unfoldable pub isdigit : ℕ → Bool
isdigit c = leb b'0' c && leb c b'9'

unfoldable pub isalnum : ℕ → Bool
unfolding isalpha isdigit
isalnum c = isalpha c || isdigit c

-- `while (token_end_ != source_end_ && test(*token_end_)) ++token_end_;`
unfoldable pub skip_while : (ℕ → Bool) → Bytes → Bytes
skip_while test [] = []
skip_while test (c ∷ cs) = if test c then skip_while test cs else c ∷ cs

-- `{token_begin_, token_end_}`
unfoldable pub slice : Bytes → Bytes → Bytes
slice begin end = take (length begin - length end) begin

-- ===== src/Scanner/Keywords.antt =====
-- Keywords: the chain of comparisons in `scan_identifier_token` against a table of spellings.
use mathlib.Core.Logic.{⊎_elim}
use mathlib.Core.Option.{some-injective}
use cpplox.Prelude.{
  true, Option, none, some, [], ◌∷◌, ◌≡◌, ◌≢◌, ◌⊎◌, ◌↔◌, inl, inr, refl, sym, ap, subst, ◌∙◌,
  if_cases, bytes_eq, bytes_eq_iff, Bytes,
}
use cpplox.Scanner.{keyword_type}
use cpplox.Token.{TokenType, identifier}

-- How each keyword is written.
unfoldable pub spelling : TokenType → Option Bytes
spelling TokenType.and_ = some (b'a' ∷ b'n' ∷ b'd' ∷ [])
spelling TokenType.break_ = some (b'b' ∷ b'r' ∷ b'e' ∷ b'a' ∷ b'k' ∷ [])
spelling TokenType.class_ = some (b'c' ∷ b'l' ∷ b'a' ∷ b's' ∷ b's' ∷ [])
spelling TokenType.continue_ = some (b'c' ∷ b'o' ∷ b'n' ∷ b't' ∷ b'i' ∷ b'n' ∷ b'u' ∷ b'e' ∷ [])
spelling TokenType.else_ = some (b'e' ∷ b'l' ∷ b's' ∷ b'e' ∷ [])
spelling TokenType.false_ = some (b'f' ∷ b'a' ∷ b'l' ∷ b's' ∷ b'e' ∷ [])
spelling TokenType.for_ = some (b'f' ∷ b'o' ∷ b'r' ∷ [])
spelling TokenType.fun = some (b'f' ∷ b'u' ∷ b'n' ∷ [])
spelling TokenType.if_ = some (b'i' ∷ b'f' ∷ [])
spelling TokenType.nil = some (b'n' ∷ b'i' ∷ b'l' ∷ [])
spelling TokenType.or_ = some (b'o' ∷ b'r' ∷ [])
spelling TokenType.print = some (b'p' ∷ b'r' ∷ b'i' ∷ b'n' ∷ b't' ∷ [])
spelling TokenType.return_ = some (b'r' ∷ b'e' ∷ b't' ∷ b'u' ∷ b'r' ∷ b'n' ∷ [])
spelling TokenType.super = some (b's' ∷ b'u' ∷ b'p' ∷ b'e' ∷ b'r' ∷ [])
spelling TokenType.this_ = some (b't' ∷ b'h' ∷ b'i' ∷ b's' ∷ [])
spelling TokenType.true_ = some (b't' ∷ b'r' ∷ b'u' ∷ b'e' ∷ [])
spelling TokenType.var = some (b'v' ∷ b'a' ∷ b'r' ∷ [])
spelling TokenType.while_ = some (b'w' ∷ b'h' ∷ b'i' ∷ b'l' ∷ b'e' ∷ [])
spelling _ = none

abbrev IsSpelled : Bytes → TokenType → Type 0
IsSpelled s t = (t ≡ identifier) ⊎ (spelling t ≡ some s)

found :
    (s : Bytes) (t : TokenType) {w : Bytes}
    → spelling t ≡ some w
    → bytes_eq s w ≡ true
    → IsSpelled s t
found s t {w} h e = inr (h ∙ ap some (sym ((bytes_eq_iff s w).0 e)))

keyword_type-cases : (s : Bytes) → IsSpelled s (keyword_type s)
unfolding keyword_type spelling
keyword_type-cases s = if_cases (IsSpelled s) _ (found s TokenType.and_ refl) λ _.
    if_cases (IsSpelled s) _ (found s TokenType.break_ refl) λ _.
      if_cases (IsSpelled s) _ (found s TokenType.class_ refl) λ _.
        if_cases (IsSpelled s) _ (found s TokenType.continue_ refl) λ _.
          if_cases (IsSpelled s) _ (found s TokenType.else_ refl) λ _.
            if_cases (IsSpelled s) _ (found s TokenType.false_ refl) λ _.
              if_cases (IsSpelled s) _ (found s TokenType.for_ refl) λ _.
                if_cases (IsSpelled s) _ (found s TokenType.fun refl) λ _.
                  if_cases (IsSpelled s) _ (found s TokenType.if_ refl) λ _.
                    if_cases (IsSpelled s) _ (found s TokenType.nil refl) λ _.
                      if_cases (IsSpelled s) _ (found s TokenType.or_ refl) λ _.
                        if_cases (IsSpelled s) _ (found s TokenType.print refl) λ _.
                          if_cases (IsSpelled s) _ (found s TokenType.return_ refl) λ _.
                            if_cases (IsSpelled s) _ (found s TokenType.super refl) λ _.
                              if_cases (IsSpelled s) _ (found s TokenType.this_ refl) λ _.
                                if_cases (IsSpelled s) _ (found s TokenType.true_ refl) λ _.
                                  if_cases (IsSpelled s) _ (found s TokenType.var refl) λ _.
                                    if_cases (IsSpelled s) _ (found s TokenType.while_ refl)
                                      λ _. inl refl

at_spelling :
    (t : TokenType) {w s : Bytes} → some w ≡ some s → keyword_type w ≡ t → keyword_type s ≡ t
at_spelling t {w} {s} e h = subst (λ u. keyword_type u ≡ t) (some-injective w s e) h

keyword_type-spelled : (t : TokenType) (s : Bytes) → spelling t ≡ some s → keyword_type s ≡ t
unfolding keyword_type spelling
keyword_type-spelled TokenType.and_ s e = at_spelling TokenType.and_ e refl
keyword_type-spelled TokenType.break_ s e = at_spelling TokenType.break_ e refl
keyword_type-spelled TokenType.class_ s e = at_spelling TokenType.class_ e refl
keyword_type-spelled TokenType.continue_ s e = at_spelling TokenType.continue_ e refl
keyword_type-spelled TokenType.else_ s e = at_spelling TokenType.else_ e refl
keyword_type-spelled TokenType.false_ s e = at_spelling TokenType.false_ e refl
keyword_type-spelled TokenType.for_ s e = at_spelling TokenType.for_ e refl
keyword_type-spelled TokenType.fun s e = at_spelling TokenType.fun e refl
keyword_type-spelled TokenType.if_ s e = at_spelling TokenType.if_ e refl
keyword_type-spelled TokenType.nil s e = at_spelling TokenType.nil e refl
keyword_type-spelled TokenType.or_ s e = at_spelling TokenType.or_ e refl
keyword_type-spelled TokenType.print s e = at_spelling TokenType.print e refl
keyword_type-spelled TokenType.return_ s e = at_spelling TokenType.return_ e refl
keyword_type-spelled TokenType.super s e = at_spelling TokenType.super e refl
keyword_type-spelled TokenType.this_ s e = at_spelling TokenType.this_ e refl
keyword_type-spelled TokenType.true_ s e = at_spelling TokenType.true_ e refl
keyword_type-spelled TokenType.var s e = at_spelling TokenType.var e refl
keyword_type-spelled TokenType.while_ s e = at_spelling TokenType.while_ e refl
keyword_type-spelled _ s e = cc

-- A word gets a keyword's type exactly when it is written as the keyword.
pub keyword_type_iff :
    (s : Bytes) (t : TokenType) → spelling t ≢ none → (keyword_type s ≡ t) ↔ (spelling t ≡ some s)
unfolding spelling
keyword_type_iff s t is_keyword = (
  λ e. rw e at (
      ⊎_elim (λ (h : keyword_type s ≡ identifier). absurd (is_keyword (ap spelling (sym e ∙ h))))
        (λ h. h) (keyword_type-cases s)),
  keyword_type-spelled t s,
)

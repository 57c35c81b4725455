-- ===== src/Parser/Tokens.antt =====
-- src/k1/parse.rs, `peek` and `eat_token`: what they do with the token in front.
use bfl.Prelude.{
  Option-cases, sym, zero, refl, [], true, suc, ◌+◌, inr, ◌∷◌, arith, inl, get_elem?, ltb, none,
  Bool-cases, ◌≤◌, length, ◌⊎◌, ◌<◌, ℕ, some, List, ◌≢◌, ◌≡◌,
}
use bfl.TokenKind.{TokenKind, kind_eq}
use bfl.TokenKind.Spelling.{kind_eq_iff}
use bfl.Token
use bfl.Span
use bfl.Span.{SpanId, Spans}
use bfl.Token.{Token, TokenIter}
use bfl.Parser.{parsed, panic, extend_span, Parser, peek, advance, eat_token}

-- The token in front is of the kind.
abbrev pub At : {I : Type 0} → Parser I → TokenKind → Type 0
At p kind = (peek p).kind ≡ kind

get_elem?-beyond {ℓ} : {A : Type ℓ} (xs : List A) (i : ℕ) → length xs ≤ i → get_elem? xs i ≡ none
get_elem?-beyond [] i h = refl
get_elem?-beyond (x ∷ xs) zero h = absurd (omega (arith, h))
get_elem?-beyond (x ∷ xs) (suc i) h = get_elem?-beyond xs i (omega (arith, h))

module _ {I : Type 0} where
  pub eat_token-cases :
      (p : Parser I) (kind : TokenKind)
      → (At p kind × (eat_token p kind ≡ (some (peek p), advance p)))
        ⊎ ((At p kind → ⊥) × (eat_token p kind ≡ (none, p)))
  unfolding eat_token
  eat_token-cases p kind = elim (Bool-cases (kind_eq (peek p).kind kind)) [
    | inl q ↦ inl ((kind_eq_iff _ _).0 q, rw (eat_token, q) refl)
    | inr q ↦ inr (
      (λ e. let same : kind_eq (peek p).kind kind ≡ true = (kind_eq_iff _ _).1 e in cc (q, same)),
      rw (eat_token, q) refl,
    )
  ]

  -- A token other than the end of the file is one of the tokens.
  pub cursor-At :
      (p : Parser I) (kind : TokenKind)
      → At p kind
      → kind ≢ TokenKind.eof
      → p.tokens.cursor < length p.tokens.tokens
  unfolding peek Token.peek Token.peek_n
  cursor-At p kind e n = elim (Bool-cases (ltb p.tokens.cursor (length p.tokens.tokens))) [
    | inl q ↦ ground (arith, q)
    | inr q ↦
        let past : get_elem? p.tokens.tokens (p.tokens.cursor + 0) ≡ none =
          get_elem?-beyond p.tokens.tokens (p.tokens.cursor + 0) (ground (arith, q)) in
        absurd (n (sym (rw (peek, Token.peek, Token.peek_n, past) at e)))
  ]

  -- Extending a span adds to the pool of spans and does nothing else, or panics.
  pub extend_span-cases :
      (p : Parser I) (span1 span2 : SpanId)
      → (extend_span p span1 span2 ≡ panic)
        ⊎ ((id : SpanId) × (spans : Spans) × (extend_span p span1 span2
              ≡ parsed id (record p { program = record p.program { spans = spans } })))
  unfolding extend_span
  extend_span-cases p span1 span2 = elim (Option-cases (Span.extend p.program.spans span1 span2)) [
    | inl q ↦ inl (rw (extend_span, q) refl)
    | inr (r, q) ↦ inr (r.1, r.0, rw (extend_span, q) refl)
  ]

-- ===== src/Parser/Delimited/Explained.antt =====
-- src/k1/parse.rs, `eat_delimited`: what each of its results says about the tokens.
use bfl.Token
use bfl.Parser.Delimited.{eat_delimited, item_end, delimited_loop, closed}
use bfl.Span.{SpanId}
use bfl.Prelude.{
  zero, ap, suc, arith, ◌+◌, length, ◌<◌, inl, refl, inr, ◌∷◌, ◌≢◌, ◌++◌, [], ◌⊎◌, ◌≤◌, ℕ, ◌≡◌,
  List,
}
use bfl.TokenKind.{TokenKind}
use bfl.Syntax.Program.{ParseError, error, error_cause}
use bfl.Syntax.Program
use bfl.Parser.{panic, failed, peek, advance, out_of_fuel, extend_span, parsed, Parser, ParseResult}
use bfl.Parser.Tokens.{cursor-At, eat_token-cases, extend_span-cases, At}

-- A parser that ends, and that leaves the tokens as they are and does not go back.
pub record MovesOn {ℓ} {I : Type 0} {A : Type ℓ} (parse : Parser I → ParseResult I A) : Type ℓ where
  pub keeps :
      {p q : Parser I} {a : A}
      → parse p ≡ parsed a q
      → (q.tokens.tokens ≡ p.tokens.tokens) × (p.tokens.cursor ≤ q.tokens.cursor)
  pub returns : (p : Parser I) → parse p ≢ out_of_fuel

module _ {I A : Type 0} (name : List ℕ) (delim terminator : TokenKind)
    (parse : Parser I → ParseResult I A) where
  -- From the first state to the second stand the items, each with a delimiter behind it.
  pub data Separated (first : Parser I) : List A → Parser I → Type 0 where
    no_items : Separated first [] first
    item :
        {xs : List A} {a : A} {p q : Parser I}
        → Separated first xs p
        → (At p terminator → ⊥)
        → parse p ≡ parsed a q
        → (At q terminator → ⊥)
        → At q delim
        → Separated first (xs ++ a ∷ []) (advance q)

  -- One more item, with none behind it.
  abbrev pub WithLast : Parser I → List A → Parser I → Type 0
  WithLast first items q =
      (xs : List A) × (a : A) × (p : Parser I) × (items ≡ xs ++ a ∷ [])
      × Separated first xs p
      × (At p terminator → ⊥)
      × (parse p ≡ parsed a q)

  -- The items are all there and the terminator is next.
  abbrev pub Complete : Parser I → List A → Parser I → Type 0
  Complete first items q = (Separated first items q ⊎ WithLast first items q) × At q terminator

  abbrev pub Explained : Parser I → SpanId → ParseResult I (List A × SpanId) → Type 0
  Explained first start_span (parsed (items, span) r) =
      (q : Parser I) × Complete first items q
      × (extend_span (advance q) start_span (peek q).span ≡ parsed span r)
  Explained first start_span (failed e r) =
      (xs : List A) × (p : Parser I) × Separated first xs p
      × (At p terminator → ⊥)
      × (((cause : ParseError) × (parse p ≡ failed cause r)
            × (e ≡ error_cause (Program.separated name delim terminator) (peek r) cause))
          ⊎ ((a : A) × (parse p ≡ parsed a r)
              × (At r terminator → ⊥)
              × (At r delim → ⊥)
              × (e ≡ error (Program.token delim) (peek r))))
  Explained first start_span panic =
      ((xs : List A) × (p : Parser I) × Separated first xs p × (parse p ≡ panic))
      ⊎ ((items : List A) × (q : Parser I) × Complete first items q
          × (extend_span (advance q) start_span (peek q).span ≡ panic))
  Explained first start_span out_of_fuel = ⊥

  closed-Explained :
      (first : Parser I) (start_span : SpanId) (v : List A) (q : Parser I)
      → Complete first v q
      → Explained first start_span
          (closed name delim terminator parse v start_span (peek q) (advance q))
  unfolding closed
  closed-Explained first start_span v q h =
      elim (extend_span-cases (advance q) start_span (peek q).span) [
        | inl e ↦ rw (closed, e) (inr (v, q, h, e))
        | inr (id, spans, e) ↦ rw (closed, e) (q, h, e)
      ]

  module _ (moves : MovesOn parse) (real : delim ≢ TokenKind.eof) where
    -- The rest of a round, where the next round is explained from behind a delimiter.
    item_end-Explained :
        (again : List A → Parser I → ParseResult I (List A × SpanId)) (first : Parser I)
        (start_span : SpanId) (v : List A) (p : Parser I) (r : ParseResult I A)
        → ((w : List A) (q : Parser I)
            → Separated first w q
            → q.tokens.tokens ≡ p.tokens.tokens
            → p.tokens.cursor < q.tokens.cursor
            → q.tokens.cursor ≤ length q.tokens.tokens
            → Explained first start_span (again w q))
        → Separated first v p
        → (At p terminator → ⊥)
        → parse p ≡ r
        → Explained first start_span (item_end name delim terminator parse again start_span v r)
    unfolding item_end advance Token.advance
    item_end-Explained again first start_span v p (parsed a q) next sep away e =
        elim (eat_token-cases q terminator) [
          | inl (here, e') ↦
              rw (item_end, e', e')
                (closed-Explained first start_span (v ++ a ∷ []) q
                  (inr (v, a, p, refl, sep, away, e), here))
          | inr (gone, e') ↦ elim (eat_token-cases q delim) [
            | inl (more, e'') ↦
                let (same, later) = moves.keeps e in
                let below = cursor-At q delim more real in
                rw (item_end, e', e', e'', e', e'')
                  (next (v ++ a ∷ []) (advance q) (item sep away e gone more) same
                    (omega (arith, later)) (omega (arith, below)))
            | inr (less, e'') ↦
                rw (item_end, e', e', e'', e', e'') (v, p, sep, away, inr (a, e, gone, less, refl))
          ]
        ]
    item_end-Explained again first start_span v p (failed cause q) next sep away e =
        (v, p, sep, away, inl (cause, e, refl))
    item_end-Explained again first start_span v p panic next sep away e = inl (v, p, sep, e)
    item_end-Explained again first start_span v p out_of_fuel next sep away e = moves.returns p e

    loop-Explained :
        (f : ℕ) (first : Parser I) (start_span : SpanId) (v : List A) (p : Parser I)
        → Separated first v p
        → 0 < f
        → length p.tokens.tokens < f + p.tokens.cursor
        → Explained first start_span (delimited_loop name delim terminator parse f start_span v p)
    unfolding delimited_loop
    loop-Explained zero first start_span v p sep h enough = absurd (omega (arith, h))
    loop-Explained (suc f) first start_span v p sep h enough = elim (eat_token-cases p terminator) [
      | inl (here, e) ↦
          rw (delimited_loop, e, e) (closed-Explained first start_span v p (inl sep, here))
      | inr (away, e) ↦
          rw (delimited_loop, e, e)
            (item_end-Explained _ first start_span v p (parse p)
              (λ w q sep' same later below.
                let long : length q.tokens.tokens ≡ length p.tokens.tokens = ap length same in
                loop-Explained f first start_span w q sep'
                  (omega (arith, long, later, below, enough))
                  (omega (arith, long, later, below, enough)))
              sep away refl)
    ]

    -- Where the parser of an item ends and does not go back, and the delimiter is not the end of the
    -- file, `eat_delimited` ends. A list that it returns holds the items that stand between the
    -- delimiters up to the terminator, the last with or without a delimiter, and spans them all. An
    -- error is that of an item behind the ones already read, or a missing delimiter behind an item.
    -- A panic is that of an item or of the span.
    pub eat_delimited-Explained :
        (p : Parser I) → Explained p (peek p).span (eat_delimited name delim terminator parse p)
    unfolding eat_delimited
    eat_delimited-Explained p =
        loop-Explained (suc (length p.tokens.tokens)) p (peek p).span [] p no_items (omega arith)
          (omega arith)

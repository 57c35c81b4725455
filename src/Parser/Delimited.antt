-- ===== src/Parser/Delimited.antt =====
-- src/k1/parse.rs, `eat_delimited` and its two forms with an opener: items that are parted by a
-- delimiter, up to a terminator. The parser of an item is an argument, as in the program.
pub mod Explained
use bfl.Span.{SpanId}
use bfl.Prelude.{zero, ◌∷◌, [], if◌then◌else◌, ◌++◌, none, some, length, Option, suc, ℕ, List}
use bfl.TokenKind.{kind_eq, TokenKind}
use bfl.Token.{Token}
use bfl.Syntax.Program.{error, error_cause}
use bfl.Syntax.Program
use bfl.Parser.{
  panic, failed, parsed, out_of_fuel, ◌>>?◌, advance, extend_span, peek, eat_token, Parser,
  ParseResult,
}

module _ {ℓ} {I : Type 0} {A : Type ℓ} (name : List ℕ) (delim terminator : TokenKind)
    (parse : Parser I → ParseResult I A) where
  -- The end of the list: the span runs from the first token to the terminator.
  unfoldable pub closed : List A → SpanId → Token → Parser I → ParseResult I (List A × SpanId)
  unfolding extend_span
  closed v start_span t p = extend_span p start_span t.span >>? λ span q. parsed (v, span) q

  -- The round behind the parse of an item; `again` is the next round.
  unfoldable pub item_end :
      (List A → Parser I → ParseResult I (List A × SpanId))
      → SpanId
      → List A
      → ParseResult I A
      → ParseResult I (List A × SpanId)
  unfolding closed eat_token peek
  item_end again start_span v (parsed a p1) =
      let (found, p2) = eat_token p1 terminator in
      elim found [
        | some t ↦ closed (v ++ a ∷ []) start_span t p2
        | none ↦
            let (found_delim, p3) = eat_token p2 delim in
            elim found_delim [
              | none ↦ failed (error (Program.token delim) (peek p3)) p3
              | some d ↦ again (v ++ a ∷ []) p3
            ]
      ]
  item_end again start_span v (failed e p1) =
      failed (error_cause (Program.separated name delim terminator) (peek p1) e) p1
  item_end again start_span v panic = panic
  item_end again start_span v out_of_fuel = out_of_fuel

  -- The loop, with the items so far.
  unfoldable pub delimited_loop : ℕ → SpanId → List A → Parser I → ParseResult I (List A × SpanId)
  unfolding closed eat_token item_end
  delimited_loop zero start_span v p = out_of_fuel
  delimited_loop (suc f) start_span v p =
      let (found, p1) = eat_token p terminator in
      elim found [
        | some t ↦ closed v start_span t p1
        | none ↦ item_end (delimited_loop f start_span) start_span v (parse p1)
      ]

  -- A round that goes on has taken a delimiter.
  unfoldable pub eat_delimited : Parser I → ParseResult I (List A × SpanId)
  unfolding delimited_loop peek
  eat_delimited p = delimited_loop (suc (length p.tokens.tokens)) (peek p).span [] p

  unfoldable pub eat_delimited_if_opener :
      TokenKind → Parser I → ParseResult I (Option (List A × SpanId))
  unfolding eat_delimited peek advance extend_span kind_eq
  eat_delimited_if_opener opener p =
      if kind_eq (peek p).kind opener
      then (eat_delimited (advance p) >>? λ r p1.
          extend_span p1 (peek p).span r.1 >>? λ span p2. parsed (some (r.0, span)) p2)
      else parsed none p

  unfoldable pub eat_delimited_expect_opener :
      TokenKind → Parser I → ParseResult I (List A × SpanId)
  unfolding eat_delimited_if_opener peek
  eat_delimited_expect_opener opener p = eat_delimited_if_opener opener p >>? λ r q. elim r [
    | none ↦ failed (error (Program.token opener) (peek q)) q
    | some res ↦ parsed res q
  ]

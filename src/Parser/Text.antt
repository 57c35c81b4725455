-- ===== src/Parser/Text.antt =====
-- src/k1/parse.rs, `token_chars` and `intern_ident_token`: the text of a token and its identifier.
use bfl.Prelude.{get_elem?, some, Bool, none, ℕ, List, Option}
use bfl.Span
use bfl.Token.{Token}
use bfl.Lexer.Chars.{UnicodeTables}
use bfl.Syntax.{Identifier}
use bfl.Syntax.Program.{get_content}
use bfl.Parser.{panic, parsed, ◌>>?◌, Parser, ParseResult}

-- The library calls of the parser: the interner of strings, with its state, and the character
-- classes of Rust.
pub record Env (I : Type 0) : Type 0 where
  pub get_or_intern : I → List ℕ → Identifier × I
  pub resolve : I → Identifier → Option (List ℕ)
  pub tables : UnicodeTables
  pub is_lowercase : ℕ → Bool

module _ {I : Type 0} where
  -- The text of the token in the parser's file; `none` is a panic.
  unfoldable pub token_text : Parser I → Token → Option (List ℕ)
  unfolding Span.get get_content
  token_text p t = elim (Span.get p.program.spans t.span) [
    | none ↦ none
    | some span ↦ elim (get_elem? p.program.sources p.file_id) [
      | none ↦ none
      | some source ↦ get_content source span.start span.len
    ]
  ]

  unfoldable pub token_chars : Parser I → Token → ParseResult I (List ℕ)
  unfolding token_text
  token_chars p t = elim (token_text p t) [ none ↦ panic | some text ↦ parsed text p ]

  unfoldable pub intern_ident_token : Env I → Parser I → Token → ParseResult I Identifier
  unfolding token_chars
  intern_ident_token env p t = token_chars p t >>? λ text q.
      let (id, state) = env.get_or_intern q.program.identifiers text in
      parsed id (record q { program = record q.program { identifiers = state } })

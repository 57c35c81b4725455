-- ===== src/Tests/Tables.antt =====
-- The theorems about src/k1/lex.rs, token kinds and spans, and about the operators of
-- src/k1/typer.rs, at concrete values.
use bfl.BinaryOp.{display-from_tokenkind}
use bfl.Span.Pool.{get-add_self, end-extended}
use bfl.Prelude.{[], refl, codes, ◌∷◌, arith, some, ◌≡◌}
use bfl.TokenKind.Spelling.{token_from_str-get_repr, get_repr-from_char, get_repr-token_from_str}
use bfl.Span
use bfl.Span.{Span}
use bfl.TokenKind
use bfl.BinaryOp

get_repr-from_char_example : TokenKind.get_repr TokenKind.comma ≡ some (b',' ∷ [])
get_repr-from_char_example = get_repr-from_char b',' (unfold TokenKind.from_char in refl)

get_repr-token_from_str_example : TokenKind.get_repr TokenKind.keyword_fn ≡ some (codes "fn")
get_repr-token_from_str_example =
    get_repr-token_from_str (codes "fn") (unfold TokenKind.token_from_str in refl)

token_from_str-get_repr_example :
    TokenKind.token_from_str (codes "else") ≡ some TokenKind.keyword_else
token_from_str-get_repr_example =
    token_from_str-get_repr TokenKind.keyword_else (codes "else")
      (unfold TokenKind.get_repr in refl) (omega arith, omega arith)

abbrev word : Span
word = record { file_id = 0; start = 4; len = 3 }

abbrev next_word : Span
next_word = record { file_id = 0; start = 9; len = 2 }

get-add_self_example : Span.get (Span.add Span.new word).0 (Span.add Span.new word).1 ≡ some word
get-add_self_example = get-add_self Span.new word (unfold Span.new in omega arith)

end-extended_example :
    ((Span.extended word next_word).start ≡ 4)
    × (Span.end (Span.extended word next_word) ≡ Span.end next_word)
end-extended_example = end-extended word next_word (omega arith) (omega arith)

display-from_tokenkind_example :
    TokenKind.get_repr TokenKind.slash ≡ some (BinaryOp.display BinaryOp.divide)
display-from_tokenkind_example =
    display-from_tokenkind TokenKind.slash BinaryOp.divide (unfold BinaryOp.from_tokenkind in refl)

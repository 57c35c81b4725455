-- ===== src/Token.antt =====
-- src/k1/lex.rs, `Token` and `TokenIter`: a token with its flags, and the cursor of the parser.
use bfl.Prelude.{ℕ, ◌+◌, ◌-◌, Bool, List, Option, none, some, ◌==◌, if◌then◌else◌, get_elem?}
use bfl.TokenKind.{TokenKind, eof}
use bfl.Span.{SpanId}
use Prim.Native.Nat.{bit_and}

pub record Token : Type 0 where
  pub span : SpanId
  pub kind : TokenKind
  pub flags : ℕ

-- `TOKEN_FLAG_IS_WHITESPACE_PRECEEDED`
abbrev pub is_whitespace_preceeded_flag : ℕ
is_whitespace_preceeded_flag = 1

-- `EOF_TOKEN`
abbrev pub eof_token : Token
eof_token = record { span = 0; kind = eof; flags = 0 }

-- `Token::new`
unfoldable pub new : TokenKind → SpanId → Bool → Token
new kind span_id whitespace_preceeded = record {
  span = span_id;
  kind = kind;
  flags = if whitespace_preceeded then is_whitespace_preceeded_flag else 0;
}

unfoldable pub is_whitespace_preceeded : Token → Bool
is_whitespace_preceeded t =
    bit_and t.flags is_whitespace_preceeded_flag == is_whitespace_preceeded_flag

-- `TokenIter`: the tokens of a file and a cursor into them.
pub record TokenIter : Type 0 where
  pub cursor : ℕ
  pub tokens : List Token

unfoldable pub make : List Token → TokenIter
make ts = record { cursor = 0; tokens = ts }

-- `none` is the panic of a read past the last token.
unfoldable pub next : TokenIter → Option (Token × TokenIter)
next it = elim (get_elem? it.tokens it.cursor) [
  | none ↦ none
  | some tok ↦ some (tok, record it { cursor = it.cursor + 1 })
]

unfoldable pub advance : TokenIter → TokenIter
advance it = record it { cursor = it.cursor + 1 }

-- `none` is the panic of a subtraction below 0.
unfoldable pub retreat : TokenIter → Option TokenIter
retreat it = if it.cursor == 0 then none else some (record it { cursor = it.cursor - 1 })

unfoldable pub peek_n : TokenIter → ℕ → Token
peek_n it n = elim (get_elem? it.tokens (it.cursor + n)) [ none ↦ eof_token | some tok ↦ tok ]

unfoldable pub peek : TokenIter → Token
unfolding peek_n
peek it = peek_n it 0

unfoldable pub peek_two : TokenIter → Token × Token
unfolding peek_n
peek_two it = (peek_n it 0, peek_n it 1)

unfoldable pub peek_three : TokenIter → Token × Token × Token
unfolding peek_n
peek_three it = (peek_n it 0, peek_n it 1, peek_n it 2)

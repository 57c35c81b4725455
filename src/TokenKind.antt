-- ===== src/TokenKind.antt =====
-- src/k1/lex.rs, `TokenKind`: the kinds of token, their spelling, and the tables that the lexer reads.
pub mod Spelling
use bfl.Prelude.{
  ℕ, ◌&&◌, Bool, true, false, List, [], ◌∷◌, Option, none, some, ◌==◌, if◌then◌else◌, list_eq,
  codes,
}

pub data TokenKind : Type 0 where
  ident string char keyword_fn keyword_val keyword_mut keyword_and keyword_or keyword_if : TokenKind
  keyword_else keyword_record keyword_type keyword_while keyword_namespace : TokenKind
  keyword_intern keyword_extern keyword_for keyword_in keyword_do keyword_yield : TokenKind
  keyword_enum keyword_ability keyword_impl keyword_auto keyword_is keyword_when : TokenKind
  keyword_as keyword_not keyword_builtin keyword_where slash line_comment open_paren : TokenKind
  close_paren open_bracket close_bracket open_brace close_brace open_angle close_angle : TokenKind
  colon semicolon equals equals_equals bang_equals dot comma bang question_mark pipe : TokenKind
  ampersand percent double_quote single_quote plus minus asterisk less_than_equal : TokenKind
  greater_than_equal eof : TokenKind

-- `#[repr(u8)]`: the discriminant.
unfoldable pub discriminant : TokenKind → ℕ
discriminant ident = 0
discriminant string = 1
discriminant char = 2
discriminant keyword_fn = 3
discriminant keyword_val = 4
discriminant keyword_mut = 5
discriminant keyword_and = 6
discriminant keyword_or = 7
discriminant keyword_if = 8
discriminant keyword_else = 9
discriminant keyword_record = 10
discriminant keyword_type = 11
discriminant keyword_while = 12
discriminant keyword_namespace = 13
discriminant keyword_intern = 14
discriminant keyword_extern = 15
discriminant keyword_for = 16
discriminant keyword_in = 17
discriminant keyword_do = 18
discriminant keyword_yield = 19
discriminant keyword_enum = 20
discriminant keyword_ability = 21
discriminant keyword_impl = 22
discriminant keyword_auto = 23
discriminant keyword_is = 24
discriminant keyword_when = 25
discriminant keyword_as = 26
discriminant keyword_not = 27
discriminant keyword_builtin = 28
discriminant keyword_where = 29
discriminant slash = 30
discriminant line_comment = 31
discriminant open_paren = 32
discriminant close_paren = 33
discriminant open_bracket = 34
discriminant close_bracket = 35
discriminant open_brace = 36
discriminant close_brace = 37
discriminant open_angle = 38
discriminant close_angle = 39
discriminant colon = 40
discriminant semicolon = 41
discriminant equals = 42
discriminant equals_equals = 43
discriminant bang_equals = 44
discriminant dot = 45
discriminant comma = 46
discriminant bang = 47
discriminant question_mark = 48
discriminant pipe = 49
discriminant ampersand = 50
discriminant percent = 51
discriminant double_quote = 52
discriminant single_quote = 53
discriminant plus = 54
discriminant minus = 55
discriminant asterisk = 56
discriminant less_than_equal = 57
discriminant greater_than_equal = 58
discriminant eof = 59

-- The derived `PartialEq` compares discriminants.
unfoldable pub kind_eq : TokenKind → TokenKind → Bool
unfolding discriminant
kind_eq a b = discriminant a == discriminant b

-- The spelling as code points; `none` for an identifier.
unfoldable pub get_repr : TokenKind → Option (List ℕ)
get_repr ident = none
get_repr string = some (codes "\"?\"")
get_repr char = some (codes "'?'")
get_repr keyword_fn = some (codes "fn")
get_repr keyword_val = some (codes "val")
get_repr keyword_mut = some (codes "mut")
get_repr keyword_and = some (codes "and")
get_repr keyword_or = some (codes "or")
get_repr keyword_if = some (codes "if")
get_repr keyword_else = some (codes "else")
get_repr keyword_record = some (codes "record")
get_repr keyword_type = some (codes "type")
get_repr keyword_while = some (codes "while")
get_repr keyword_namespace = some (codes "namespace")
get_repr keyword_intern = some (codes "intern")
get_repr keyword_extern = some (codes "extern")
get_repr keyword_for = some (codes "for")
get_repr keyword_in = some (codes "in")
get_repr keyword_do = some (codes "do")
get_repr keyword_yield = some (codes "yield")
get_repr keyword_enum = some (codes "enum")
get_repr keyword_ability = some (codes "ability")
get_repr keyword_impl = some (codes "impl")
get_repr keyword_auto = some (codes "auto")
get_repr keyword_is = some (codes "is")
get_repr keyword_when = some (codes "when")
get_repr keyword_as = some (codes "as")
get_repr keyword_not = some (codes "not")
get_repr keyword_builtin = some (codes "builtin")
get_repr keyword_where = some (codes "where")
get_repr slash = some (codes "/")
get_repr line_comment = some (codes "//")
get_repr open_paren = some (codes "(")
get_repr close_paren = some (codes ")")
get_repr open_bracket = some (codes "[")
get_repr close_bracket = some (codes "]")
get_repr open_brace = some (codes "{")
get_repr close_brace = some (codes "}")
get_repr open_angle = some (codes "<")
get_repr close_angle = some (codes ">")
get_repr colon = some (codes ":")
get_repr semicolon = some (codes ";")
get_repr equals = some (codes "=")
get_repr equals_equals = some (codes "==")
get_repr bang_equals = some (codes "!=")
get_repr dot = some (codes ".")
get_repr comma = some (codes ",")
get_repr bang = some (codes "!")
get_repr question_mark = some (codes "?")
get_repr pipe = some (codes "|")
get_repr ampersand = some (codes "&")
get_repr percent = some (codes "%")
get_repr double_quote = some (codes "\"")
get_repr single_quote = some (codes "'")
get_repr plus = some (codes "+")
get_repr minus = some (codes "-")
get_repr asterisk = some (codes "*")
get_repr less_than_equal = some (codes "<=")
get_repr greater_than_equal = some (codes ">=")
get_repr eof = some (codes "<EOF>")

-- A `match` on a value is a search through its arms, in order.
unfoldable pub match_char : ℕ → List (ℕ × TokenKind) → Option TokenKind
match_char c [] = none
match_char c ((d, k) ∷ arms) = if c == d then some k else match_char c arms

unfoldable pub match_str : List ℕ → List (List ℕ × TokenKind) → Option TokenKind
match_str s [] = none
match_str s ((t, k) ∷ arms) = if list_eq s t then some k else match_str s arms

abbrev pub single_chars : List (ℕ × TokenKind)
single_chars =
    (b'(', open_paren)
    ∷ (b')', close_paren)
    ∷ (b'[', open_bracket)
    ∷ (b']', close_bracket)
    ∷ (b'{', open_brace)
    ∷ (b'}', close_brace)
    ∷ (b'<', open_angle)
    ∷ (b'>', close_angle)
    ∷ (b':', colon)
    ∷ (b';', semicolon)
    ∷ (b'=', equals)
    ∷ (b'.', dot)
    ∷ (b',', comma)
    ∷ (34, double_quote)
    ∷ (39, single_quote)
    ∷ (b'+', plus)
    ∷ (b'-', minus)
    ∷ (b'*', asterisk)
    ∷ (b'/', slash)
    ∷ (b'!', bang)
    ∷ (b'?', question_mark)
    ∷ (b'|', pipe)
    ∷ (b'&', ampersand)
    ∷ (b'%', percent)
    ∷ []

unfoldable pub from_char : ℕ → Option TokenKind
unfolding match_char
from_char c = match_char c single_chars

abbrev pub words : List (List ℕ × TokenKind)
words =
    (codes "fn", keyword_fn)
    ∷ (codes "val", keyword_val)
    ∷ (codes "mut", keyword_mut)
    ∷ (codes "and", keyword_and)
    ∷ (codes "or", keyword_or)
    ∷ (codes "if", keyword_if)
    ∷ (codes "else", keyword_else)
    ∷ (codes "record", keyword_record)
    ∷ (codes "type", keyword_type)
    ∷ (codes "while", keyword_while)
    ∷ (codes "namespace", keyword_namespace)
    ∷ (codes "intern", keyword_intern)
    ∷ (codes "extern", keyword_extern)
    ∷ (codes "for", keyword_for)
    ∷ (codes "in", keyword_in)
    ∷ (codes "do", keyword_do)
    ∷ (codes "yield", keyword_yield)
    ∷ (codes "enum", keyword_enum)
    ∷ (codes "ability", keyword_ability)
    ∷ (codes "impl", keyword_impl)
    ∷ (codes "auto", keyword_auto)
    ∷ (codes "when", keyword_when)
    ∷ (codes "not", keyword_not)
    ∷ (codes "as", keyword_as)
    ∷ (codes "is", keyword_is)
    ∷ (codes "builtin", keyword_builtin)
    ∷ (codes "where", keyword_where)
    ∷ (codes "==", equals_equals)
    ∷ (codes "!=", bang_equals)
    ∷ (codes "<=", less_than_equal)
    ∷ (codes ">=", greater_than_equal)
    ∷ []

unfoldable pub token_from_str : List ℕ → Option TokenKind
unfolding match_str list_eq
token_from_str str = match_str str words

unfoldable pub is_keyword : TokenKind → Bool
is_keyword keyword_fn = true
is_keyword keyword_val = true
is_keyword keyword_mut = true
is_keyword keyword_and = true
is_keyword keyword_or = true
is_keyword keyword_if = true
is_keyword keyword_while = true
is_keyword keyword_namespace = true
is_keyword keyword_intern = true
is_keyword keyword_extern = true
is_keyword keyword_for = true
is_keyword keyword_in = true
is_keyword keyword_do = true
is_keyword keyword_yield = true
is_keyword keyword_enum = true
is_keyword keyword_ability = true
is_keyword keyword_impl = true
is_keyword keyword_auto = true
is_keyword keyword_is = true
is_keyword keyword_when = true
is_keyword keyword_as = true
is_keyword keyword_not = true
is_keyword keyword_builtin = true
is_keyword keyword_where = true
is_keyword _ = false

unfoldable pub is_prefix_operator : TokenKind → Bool
is_prefix_operator asterisk = true
is_prefix_operator keyword_not = true
is_prefix_operator ampersand = true
is_prefix_operator _ = false

unfoldable pub is_postfix_operator : TokenKind → Bool
is_postfix_operator dot = true
is_postfix_operator open_bracket = true
is_postfix_operator bang = true
is_postfix_operator keyword_as = true
is_postfix_operator _ = false

unfoldable pub is_postfix_type_operator : TokenKind → Bool
is_postfix_type_operator question_mark = true
is_postfix_type_operator asterisk = true
is_postfix_type_operator dot = true
is_postfix_type_operator _ = false

-- ===== src/BinaryOp.antt =====
-- src/k1/typer.rs, `BinaryOpKind`: the binary operators, their tokens and their precedences.
use bfl.Prelude.{arith, true, none, codes, false, some, List, Option, Bool, ℕ, ◌≡◌}
use bfl.TokenKind

pub data BinaryOpKind : Type 0 where
  add subtract multiply divide rem less less_equal greater greater_equal : BinaryOpKind
  and or : BinaryOpKind
  equals not_equals : BinaryOpKind
  optional_else pipe : BinaryOpKind

-- `Display`
unfoldable pub display : BinaryOpKind → List ℕ
display add = codes "+"
display subtract = codes "-"
display multiply = codes "*"
display divide = codes "/"
display rem = codes "%"
display less = codes "<"
display greater = codes ">"
display less_equal = codes "<="
display greater_equal = codes ">="
display and = codes "and"
display or = codes "or"
display equals = codes "=="
display not_equals = codes "!="
display optional_else = codes "?"
display pipe = codes "|"

unfoldable pub precedence : BinaryOpKind → ℕ
precedence pipe = 102
precedence rem = 101
precedence multiply = 100
precedence divide = 100
precedence add = 90
precedence subtract = 90
precedence less = 80
precedence less_equal = 80
precedence greater = 80
precedence greater_equal = 80
precedence equals = 80
precedence not_equals = 80
precedence and = 70
precedence or = 66
precedence optional_else = 65

unfoldable pub from_tokenkind : TokenKind.TokenKind → Option BinaryOpKind
from_tokenkind TokenKind.plus = some add
from_tokenkind TokenKind.minus = some subtract
from_tokenkind TokenKind.asterisk = some multiply
from_tokenkind TokenKind.slash = some divide
from_tokenkind TokenKind.open_angle = some less
from_tokenkind TokenKind.close_angle = some greater
from_tokenkind TokenKind.less_than_equal = some less_equal
from_tokenkind TokenKind.greater_than_equal = some greater_equal
from_tokenkind TokenKind.keyword_and = some and
from_tokenkind TokenKind.keyword_or = some or
from_tokenkind TokenKind.equals_equals = some equals
from_tokenkind TokenKind.bang_equals = some not_equals
from_tokenkind TokenKind.question_mark = some optional_else
from_tokenkind TokenKind.percent = some rem
from_tokenkind TokenKind.pipe = some pipe
from_tokenkind _ = none

unfoldable pub is_symmetric_binop : BinaryOpKind → Bool
is_symmetric_binop optional_else = false
is_symmetric_binop pipe = false
is_symmetric_binop _ = true

-- An operator is displayed the way its token is spelt.
pub display-from_tokenkind :
    (kind : TokenKind.TokenKind) (op : BinaryOpKind)
    → from_tokenkind kind ≡ some op
    → TokenKind.get_repr kind ≡ some (display op)
unfolding from_tokenkind display TokenKind.get_repr
display-from_tokenkind TokenKind.plus op e = ground (arith, e)
display-from_tokenkind _ op e = ground (arith, e)

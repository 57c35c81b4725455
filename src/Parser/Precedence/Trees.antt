-- ===== src/Parser/Precedence/Trees.antt =====
-- src/k1/parse.rs, `parse_expression`: what a stack of operands and operators, and the expression
-- that it becomes, stand for. A tree has operands for leaves.
use bfl.Prelude.{
  ◌∙◌, lt_of_get_elem?, get_elem?-append_lt, some, refl, append_assoc, sym, ◌<◌, ◌++◌, ◌≤◌,
  get_elem?, [], ◌≡◌, suc, ℕ, ◌∷◌, List,
}
use bfl.BinaryOp.{BinaryOpKind, precedence}
use bfl.Syntax
use bfl.Syntax.{ParsedExpression, ParsedExpressionId}
use bfl.Parser.Precedence.{ExprStackMember, operator, expr}

pub data Tree : Type 0 where
  leaf : ParsedExpressionId → Tree
  node : BinaryOpKind → Tree → Tree → Tree

-- The expression is the operand, or the operation on what its two sides denote.
abbrev pub Denotes : List ParsedExpression → ParsedExpressionId → Tree → Type 0
Denotes es id (leaf e) = id ≡ e
Denotes es id (node op l r) =
    (b : Syntax.BinaryOp) × (get_elem? es id ≡ some (Syntax.binary_op b))
    × (b.op_kind ≡ op)
    × Denotes es b.lhs l
    × Denotes es b.rhs r

-- The operator of the tree, if it has one, binds at least this tightly.
abbrev pub AtLeast : ℕ → Tree → Type 0
AtLeast n (leaf e) = Unit
AtLeast n (node op l r) = n ≤ precedence op

-- Tighter operators are below looser ones, and those of one precedence lean to the left.
abbrev pub WellShaped : Tree → Type 0
WellShaped (leaf e) = Unit
WellShaped (node op l r) =
    AtLeast (precedence op) l × AtLeast (suc (precedence op)) r × WellShaped l × WellShaped r

-- The operands and operators from left to right.
abbrev pub leftmost : Tree → ParsedExpressionId
leftmost (leaf e) = e
leftmost (node op l r) = leftmost l

abbrev pub others : Tree → List (BinaryOpKind × ParsedExpressionId)
others (leaf e) = []
others (node op l r) = others l ++ (op, leftmost r) ∷ others r

-- The operators that wait on the stack with their left sides, the last one first.
abbrev pub Pending : Type 0
Pending = List (BinaryOpKind × Tree)

abbrev pub all_leftmost : Tree → Pending → ParsedExpressionId
all_leftmost t [] = leftmost t
all_leftmost t ((k, l) ∷ rest) = all_leftmost l rest

abbrev pub all_others : Tree → Pending → List (BinaryOpKind × ParsedExpressionId)
all_others t [] = others t
all_others t ((k, l) ∷ rest) = all_others l rest ++ (k, leftmost t) ∷ others t

abbrev pub StackHolds : List ParsedExpression → List ExprStackMember → Tree → Pending → Type 0
StackHolds es (expr id ∷ []) t [] = Denotes es id t
StackHolds es (expr id ∷ operator k span ∷ members) t ((k', l) ∷ rest) =
    Denotes es id t × (k ≡ k') × StackHolds es members l rest
StackHolds es _ t rest = ⊥

-- The operator on top of those that wait is looser.
abbrev pub Looser : ℕ → Pending → Type 0
Looser n [] = Unit
Looser n ((k, l) ∷ rest) = precedence k < n

abbrev pub InOrder : Tree → Pending → Type 0
InOrder t [] = WellShaped t
InOrder t ((k, l) ∷ rest) =
    WellShaped t
    × AtLeast (suc (precedence k)) t
    × AtLeast (precedence k) l
    × Looser (precedence k) rest
    × InOrder l rest

-- The operation on the two topmost trees has the same operands and operators.
pub all_others-node :
    (k : BinaryOpKind) (l t : Tree) (rest : Pending)
    → all_others (node k l t) rest ≡ all_others t ((k, l) ∷ rest)
all_others-node k l t [] = refl
all_others-node k l t ((k2, l2) ∷ rest) =
    sym
      (append_assoc (all_others l2 rest) ((k2, leftmost l) ∷ others l) ((k, leftmost t) ∷ others t))

pub all_leftmost-node :
    (k : BinaryOpKind) (l t : Tree) (rest : Pending)
    → all_leftmost (node k l t) rest ≡ all_leftmost l rest
all_leftmost-node k l t [] = refl
all_leftmost-node k l t ((k2, l2) ∷ rest) = refl

pub InOrder-shaped : (t : Tree) (rest : Pending) → InOrder t rest → WellShaped t
InOrder-shaped t [] h = h
InOrder-shaped t ((k, l) ∷ rest) h = h.0

-- It is still in order, since the operators that wait are looser.
pub InOrder-node :
    (k : BinaryOpKind) (l t : Tree) (rest : Pending)
    → InOrder t ((k, l) ∷ rest)
    → InOrder (node k l t) rest
InOrder-node k l t [] (w, a, b, s, o) = (b, a, o, w)
InOrder-node k l t ((k2, l2) ∷ rest) (w, a, b, s, o) = ((b, a, o.0, w), s, o.2, o.3, o.4)

pub Denotes-append :
    (es more : List ParsedExpression) (id : ParsedExpressionId) (t : Tree)
    → Denotes es id t
    → Denotes (es ++ more) id t
Denotes-append es more id (leaf e) h = h
Denotes-append es more id (node op l r) (b, g, k, x, y) = (
  b,
  get_elem?-append_lt es more id (lt_of_get_elem? es id g) ∙ g,
  k,
  Denotes-append es more b.lhs l x,
  Denotes-append es more b.rhs r y,
)

pub StackHolds-append :
    (es more : List ParsedExpression) (ms : List ExprStackMember) (t : Tree) (rest : Pending)
    → StackHolds es ms t rest
    → StackHolds (es ++ more) ms t rest
StackHolds-append es more (expr id ∷ []) t [] h = Denotes-append es more id t h
StackHolds-append es more (expr id ∷ operator k span ∷ ms) t ((k', l) ∷ rest) (d, e, h) =
    (Denotes-append es more id t d, e, StackHolds-append es more ms l rest h)
StackHolds-append es more _ t rest h = absurd h

pub StackHolds-top :
    (es : List ParsedExpression) (id : ParsedExpressionId) (ms : List ExprStackMember) (t : Tree)
    (rest : Pending)
    → StackHolds es (expr id ∷ ms) t rest
    → Denotes es id t
StackHolds-top es id [] t [] h = h
StackHolds-top es id [] t (x ∷ rest) h = absurd h
StackHolds-top es id (operator k span ∷ ms) t [] h = absurd h
StackHolds-top es id (operator k span ∷ ms) t (x ∷ rest) h = h.0
StackHolds-top es id (expr x ∷ ms) t rest h = absurd h

-- Another tree on top.
pub StackHolds-swap :
    (es : List ParsedExpression) (id id' : ParsedExpressionId) (ms : List ExprStackMember)
    (t t' : Tree) (rest : Pending)
    → StackHolds es (expr id ∷ ms) t rest
    → Denotes es id' t'
    → StackHolds es (expr id' ∷ ms) t' rest
StackHolds-swap es id id' [] t t' [] h d = d
StackHolds-swap es id id' [] t t' (x ∷ rest) h d = absurd h
StackHolds-swap es id id' (operator k span ∷ ms) t t' [] h d = absurd h
StackHolds-swap es id id' (operator k span ∷ ms) t t' (x ∷ rest) h d = (d, h.1, h.2)
StackHolds-swap es id id' (expr x ∷ ms) t t' rest h d = absurd h

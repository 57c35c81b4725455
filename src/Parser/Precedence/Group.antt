-- ===== src/Parser/Precedence/Group.antt =====
-- src/k1/parse.rs, `parse_expression`: a reference grouping of operands and operators, by recursion
-- on trees and by levels of its own, and that the loops over a stack agree with it.
use mathlib.Core.Path.{subst}
use bfl.Parser.Precedence.Unique.{same_tree}
use bfl.Parser.Precedence.Build.{exprs, Adds}
use bfl.Parser.Precedence.Stack.{Fits}
use bfl.Parser.Precedence.{binary_operators}
use bfl.Parser.Precedence.Operators.{binary_operators-ByPrecedence, Operands, Extends}
use bfl.Parser.{peek, parsed, ParseResult, Parser}
use bfl.Syntax.{ParsedExpressionId}
use bfl.Parser.Precedence.Trees.{Denotes, others, WellShaped, AtLeast, leftmost, node, leaf, Tree}
use bfl.Prelude.{
  none, append_assoc, append-nil, ◌∙◌, [], inr, inl, sym, Option, ◌∷◌, ◌++◌, ap, Bool-cases, ◌-◌,
  ltb, zero, if◌then◌else◌, arith, ◌+◌, suc, ◌≤◌, List, refl, ◌<◌, ◌≡◌, ℕ,
}
use bfl.BinaryOp
use bfl.BinaryOp.{from_tokenkind, BinaryOpKind, precedence}

-- The operators from the loosest to the tightest.
abbrev pub level : BinaryOpKind → ℕ
level BinaryOp.optional_else = 0
level BinaryOp.or = 1
level BinaryOp.and = 2
level BinaryOp.equals = 3
level BinaryOp.not_equals = 3
level BinaryOp.less = 3
level BinaryOp.less_equal = 3
level BinaryOp.greater = 3
level BinaryOp.greater_equal = 3
level BinaryOp.add = 4
level BinaryOp.subtract = 4
level BinaryOp.multiply = 5
level BinaryOp.divide = 5
level BinaryOp.rem = 6
level BinaryOp.pipe = 7

-- An operator behind a tree takes the last operand alone where it is tighter than all the operators
-- on the way to it, and otherwise all that the first one which it is not tighter than joins.
abbrev pub extend : Tree → BinaryOpKind → ParsedExpressionId → Tree
extend (leaf x) op e = node op (leaf x) (leaf e)
extend (node k l r) op e =
    let below = extend r op e in
    if ltb (level k) (level op) then node k l below else node op (node k l r) (leaf e)

abbrev pub group : Tree → List (BinaryOpKind × ParsedExpressionId) → Tree
group t [] = t
group t ((op, e) ∷ chain) = group (extend t op e) chain

-- The precedence of each level.
abbrev of_level : ℕ → ℕ
of_level zero = 65
of_level (suc zero) = 66
of_level (suc (suc zero)) = 70
of_level (suc (suc (suc zero))) = 80
of_level (suc (suc (suc (suc zero)))) = 90
of_level (suc (suc (suc (suc (suc zero))))) = 100
of_level (suc (suc (suc (suc (suc (suc n)))))) = n + 101

precedence-level : (k : BinaryOpKind) → precedence k ≡ of_level (level k)
unfolding precedence
precedence-level BinaryOp.add = refl
precedence-level _ = refl

of_level_step : (n : ℕ) → of_level n < of_level (suc n)
of_level_step zero = omega arith
of_level_step (suc zero) = omega arith
of_level_step (suc (suc zero)) = omega arith
of_level_step (suc (suc (suc zero))) = omega arith
of_level_step (suc (suc (suc (suc zero)))) = omega arith
of_level_step (suc (suc (suc (suc (suc zero))))) = omega arith
of_level_step (suc (suc (suc (suc (suc (suc n)))))) = omega arith

of_level_grows : (d n : ℕ) → of_level n ≤ of_level (d + n)
of_level_grows zero n = let same : zero + n ≡ n = omega arith in omega (arith, ap of_level same)
of_level_grows (suc d) n =
    let same : suc d + n ≡ suc (d + n) = omega arith in
    omega (arith, of_level_grows d n, of_level_step (d + n), ap of_level same)

level-precedence : (a b : BinaryOpKind) → level a ≤ level b → precedence a ≤ precedence b
level-precedence a b h =
    let grows = of_level_grows (level b - level a) (level a) in
    let sum : (level b - level a) + level a ≡ level b = omega (arith, h) in
    omega (arith, precedence-level a, precedence-level b, grows, ap of_level sum)

level-precedence_lt : (a b : BinaryOpKind) → level a < level b → precedence a < precedence b
level-precedence_lt a b h =
    let grows = of_level_grows (level b - suc (level a)) (suc (level a)) in
    let sum : (level b - suc (level a)) + suc (level a) ≡ level b = omega (arith, h) in
    omega (
      arith,
      precedence-level a,
      precedence-level b,
      of_level_step (level a),
      grows,
      ap of_level sum,
    )

leftmost-extend :
    (t : Tree) (op : BinaryOpKind) (e : ParsedExpressionId) → leftmost (extend t op e) ≡ leftmost t
leftmost-extend (leaf x) op e = refl
leftmost-extend (node k l r) op e = ground arith

others-extend :
    (t : Tree) (op : BinaryOpKind) (e : ParsedExpressionId)
    → others (extend t op e) ≡ others t ++ (op, e) ∷ []
others-extend (leaf x) op e = refl
others-extend (node k l r) op e = elim (Bool-cases (ltb (level k) (level op))) [
  | inl q ↦ rw q (
      cc (
        others-extend r op e,
        leftmost-extend r op e,
        append_assoc (others l) ((k, leftmost r) ∷ others r) ((op, e) ∷ []),
      ))
  | inr q ↦ rw q refl
]

AtLeast-extend :
    (n : ℕ) (t : Tree) (op : BinaryOpKind) (e : ParsedExpressionId)
    → AtLeast n t
    → n ≤ precedence op
    → AtLeast n (extend t op e)
AtLeast-extend n (leaf x) op e a h = h
AtLeast-extend n (node k l r) op e a h = ground (arith, a, h)

WellShaped-extend :
    (t : Tree) (op : BinaryOpKind) (e : ParsedExpressionId)
    → WellShaped t
    → WellShaped (extend t op e)
WellShaped-extend (leaf x) op e w = (tt, tt, tt, tt)
WellShaped-extend (node k l r) op e (a, b, wl, wr) = elim (Bool-cases (ltb (level k) (level op))) [
  | inl q ↦
      let tighter = level-precedence_lt k op (ground (arith, q)) in
      rw q
        (a, AtLeast-extend (suc (precedence k)) r op e b tighter, wl, WellShaped-extend r op e wr)
  | inr q ↦
      let looser : precedence op ≤ precedence k = level-precedence op k (ground (arith, q)) in
      rw q (looser, tt, (a, b, wl, wr), tt)
]

WellShaped-group :
    (chain : List (BinaryOpKind × ParsedExpressionId)) (t : Tree)
    → WellShaped t
    → WellShaped (group t chain)
WellShaped-group [] t w = w
WellShaped-group ((op, e) ∷ chain) t w =
    WellShaped-group chain (extend t op e) (WellShaped-extend t op e w)

leftmost-group :
    (chain : List (BinaryOpKind × ParsedExpressionId)) (t : Tree)
    → leftmost (group t chain) ≡ leftmost t
leftmost-group [] t = refl
leftmost-group ((op, e) ∷ chain) t = leftmost-group chain (extend t op e) ∙ leftmost-extend t op e

others-group :
    (chain : List (BinaryOpKind × ParsedExpressionId)) (t : Tree)
    → others (group t chain) ≡ others t ++ chain
others-group [] t = sym (append-nil (others t))
others-group ((op, e) ∷ chain) t =
    others-group chain (extend t op e)
    ∙ ap (λ c. c ++ chain) (others-extend t op e)
    ∙ append_assoc (others t) ((op, e) ∷ []) chain

-- Where parsing an operand leaves the expressions that are there alone, and no more than 2 ^ 32
-- are made: the operands and operators that are read, up to a token that is no operator, become the
-- expression of the reference grouping, which takes them one by one, from the left, and by levels of
-- operators instead of the numbers of the code. From loose to tight these are `?`, `or`, `and`, the
-- comparisons, `+` and `-`, `*` and `/`, `%`, and `|`.
pub binary_operators-group :
    {I : Type 0} (operand : Parser I → ParseResult I (Option ParsedExpressionId))
    (extends : Extends operand) (e id : ParsedExpressionId) (p r : Parser I)
    → binary_operators operand e p ≡ parsed id r
    → Fits r
    → (chain : List (BinaryOpKind × ParsedExpressionId)) × (last : Parser I) × Operands operand p
        chain last
      × (from_tokenkind (peek last).kind ≡ none)
      × Adds last r
      × Denotes (exprs r) id (group (leaf e) chain)
binary_operators-group operand extends e id p r eq fits =
    let (chain, last, t, ops, stop, adds, den, shape, f, o) =
      binary_operators-ByPrecedence operand extends e id p r eq fits in
    let same : t ≡ group (leaf e) chain =
      same_tree t (group (leaf e) chain) shape (WellShaped-group chain (leaf e) tt)
        (f ∙ sym (leftmost-group chain (leaf e))) (o ∙ sym (others-group chain (leaf e))) in
    (chain, last, ops, stop, adds, subst (Denotes (exprs r) id) same den)

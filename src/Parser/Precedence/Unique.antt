-- ===== src/Parser/Precedence/Unique.antt =====
-- src/k1/parse.rs, `parse_expression`: there is one way to group operands by precedence.
use mathlib.Core.Path.{subst}
use bfl.Prelude.{
  In-append_cases, refl, In-append_right, suc, sym, arith, inr, inl, ap, ◌≤◌, ◌⊎◌, ◌≡◌, ◌∷◌, ◌≢◌,
  [], ◌++◌, In, List, ℕ,
}
use bfl.BinaryOp.{BinaryOpKind, precedence}
use bfl.Syntax.{ParsedExpressionId}
use bfl.Parser.Precedence.Trees.{others, AtLeast, leftmost, WellShaped, Tree, leaf, node}

module _ {A : Type 0} where
  -- Where two lists with one element marked are the same, they are marked at the same place, or each
  -- mark is on one side of the other.
  split :
      (xs xs' : List A) (x x' : A) (ys ys' : List A)
      → xs ++ x ∷ ys ≡ xs' ++ x' ∷ ys'
      → ((xs ≡ xs') × (x ≡ x') × (ys ≡ ys')) ⊎ ((In x xs' × In x' ys) ⊎ (In x' xs × In x ys'))
  split [] [] x x' ys ys' e = inl (refl, cc e, cc e)
  split [] (z ∷ zs) x x' ys ys' e =
      let head : z ≡ x = cc e in
      let tail : zs ++ x' ∷ ys' ≡ ys = cc e in
      inr (inl (inl head, subst (In x') tail (In-append_right x' zs (x' ∷ ys') (inl refl))))
  split (z ∷ zs) [] x x' ys ys' e =
      let head : z ≡ x' = cc e in
      let tail : zs ++ x ∷ ys ≡ ys' = cc e in
      inr (inr (inl head, subst (In x) tail (In-append_right x zs (x ∷ ys) (inl refl))))
  split (z ∷ zs) (w ∷ ws) x x' ys ys' e =
      let head : z ≡ w = cc e in
      let tail : zs ++ x ∷ ys ≡ ws ++ x' ∷ ys' = cc e in
      elim (split zs ws x x' ys ys' tail) [
        | inl (a, b, c) ↦ inl (cc (head, a), b, c)
        | inr (inl (a, b)) ↦ inr (inl (inr a, b))
        | inr (inr (a, b)) ↦ inr (inr (inr a, b))
      ]

  marked-≢-nil : (xs : List A) (x : A) (ys : List A) → [] ≢ xs ++ x ∷ ys
  marked-≢-nil [] x ys e = cc e
  marked-≢-nil (z ∷ zs) x ys e = cc e

-- Every operator of a well-shaped tree binds at least as tightly as its root.
others-AtLeast :
    (n : ℕ) (t : Tree) (x : BinaryOpKind × ParsedExpressionId)
    → AtLeast n t
    → WellShaped t
    → In x (others t)
    → n ≤ precedence x.0
others-AtLeast n (leaf e) x h w i = absurd i
others-AtLeast n (node op l r) x h (a, b, wl, wr) i =
    elim (In-append_cases x (others l) ((op, leftmost r) ∷ others r) i) [
      | inl j ↦ omega (arith, h, others-AtLeast (precedence op) l x a wl j)
      | inr (inl e) ↦ omega (arith, h, ap (λ y. precedence y.0) e)
      | inr (inr j) ↦ omega (arith, h, others-AtLeast (suc (precedence op)) r x b wr j)
    ]

pub same_tree :
    (s t : Tree)
    → WellShaped s
    → WellShaped t
    → leftmost s ≡ leftmost t
    → others s ≡ others t
    → s ≡ t
same_tree (leaf e) (leaf e') w w' first rest = ap leaf first
same_tree (leaf e) (node op l r) w w' first rest =
    absurd (marked-≢-nil (others l) _ (others r) rest)
same_tree (node op l r) (leaf e) w w' first rest =
    absurd (marked-≢-nil (others l) _ (others r) (sym rest))
same_tree (node op l r) (node op' l' r') (a, b, wl, wr) (a', b', wl', wr') first rest =
    elim (split (others l) (others l') (op, leftmost r) (op', leftmost r') (others r) (others r')
      rest) [
        | inl (same_l, same_op, same_r) ↦
            let left : l ≡ l' = same_tree l l' wl wl' first same_l in
            let right : r ≡ r' = same_tree r r' wr wr' (ap (λ y. y.1) same_op) same_r in
            let op_eq : op ≡ op' = ap (λ y. y.0) same_op in cc (left, right, op_eq)
        | inr (inl (i, j)) ↦ absurd (
            omega (
              arith,
              others-AtLeast (precedence op') l' (op, leftmost r) a' wl' i,
              others-AtLeast (suc (precedence op)) r (op', leftmost r') b wr j,
            ))
        | inr (inr (i, j)) ↦ absurd (
            omega (
              arith,
              others-AtLeast (precedence op) l (op', leftmost r') a wl i,
              others-AtLeast (suc (precedence op')) r' (op, leftmost r) b' wr' j,
            ))
      ]

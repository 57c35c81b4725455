-- ===== src/Parser/Root.antt =====
-- src/k1/parse.rs, `parse_module`: the definitions of a file go to the root namespace.
use mathlib.Core.Path.{subst}
use bfl.Parser.Precedence.Build.{panic-≢-parsed, >>?-value}
use bfl.Prelude.{
  List-cases, inr, Option-cases, inl, Bool-cases, ◌≢◌, true, zero, some, codes, length, [], false,
  ◌∷◌, none, ◌≡◌, suc, ◌++◌, Option, List, ℕ,
}
use bfl.TokenKind.{TokenKind, kind_eq}
use bfl.TokenKind.Spelling.{kind_eq_iff}
use bfl.Syntax.Definitions.{ParsedId, ParsedNamespace}
use bfl.Syntax.Store
use bfl.Syntax.Program
use bfl.Syntax.Program.{ParsedModule, ParseError, error}
use bfl.Parser.{panic, failed, ◌>>?◌, parsed, out_of_fuel, peek, Parser, ParseResult}
use bfl.Parser.Text.{Env}
use bfl.Parser.Knot.{Parsers}
use bfl.Parser.Modules.{parse_definition, definitions_loop}
use bfl.Parser.Tokens.{At}

module _ {I : Type 0} (env : Env I) (inner : Parsers I) where
  -- The id of the root namespace, which is made if there is none.
  unfoldable pub root_namespace : Parser I → ParseResult I ℕ
  unfolding Store.add_namespace peek
  root_namespace p = elim p.program.namespaces [
    | [] ↦
        let (name, state) = env.get_or_intern p.program.identifiers (codes "_root") in
        let (m, id) =
          Store.add_namespace (record p.program { identifiers = state })
            (record { name = name; definitions = []; id = 0; span = (peek p).span }) in
        parsed id (record p { program = m })
    | root ∷ rest ↦ parsed root.id p
  ]

  unfoldable pub push_error : ParseError → Parser I → Parser I
  push_error e p = record p { program = record p.program { errors = p.program.errors ++ e ∷ [] } }

  -- The first loop: an error is kept and ends it.
  unfoldable pub first_loop :
      (Parser I → ParseResult I (Option ParsedId))
      → ℕ
      → List ParsedId
      → Parser I
      → ParseResult I (List ParsedId)
  unfolding push_error
  first_loop parse zero definitions p = out_of_fuel
  first_loop parse (suc f) definitions p = elim (parse p) [
    | parsed o q ↦ elim o [
      | some def ↦ first_loop parse f (definitions ++ def ∷ []) q
      | none ↦ parsed definitions q
    ]
    | failed e q ↦ parsed definitions (push_error e q)
    | panic ↦ panic
    | out_of_fuel ↦ out_of_fuel
  ]

  unfoldable pub extend_namespace :
      List ParsedNamespace → ℕ → List ParsedId → Option (List ParsedNamespace)
  extend_namespace [] id definitions = none
  extend_namespace (n ∷ ns) zero definitions =
      some (record n { definitions = n.definitions ++ definitions } ∷ ns)
  extend_namespace (n ∷ ns) (suc id) definitions = elim (extend_namespace ns id definitions) [
    | none ↦ none
    | some rest ↦ some (n ∷ rest)
  ]

  unfoldable pub last_error : ParseError → List ParseError → ParseError
  last_error e [] = e
  last_error e (x ∷ xs) = last_error x xs

  -- Behind the definitions there is the end of the file, or an error.
  unfoldable pub finish : ℕ → List ParsedId → Parser I → ParseResult I (Unit {0})
  unfolding peek kind_eq push_error extend_namespace last_error
  finish root definitions p = elim (kind_eq (peek p).kind TokenKind.eof) [
    | false ↦ elim p.program.errors [
      | [] ↦
          let e = error (Program.text (codes "End of file or start of new definition")) (peek p) in
          failed e (push_error e p)
      | x ∷ xs ↦ failed (last_error x xs) p
    ]
    | true ↦ elim (extend_namespace p.program.namespaces root definitions) [
      | none ↦ panic
      | some namespaces ↦
          parsed tt (record p { program = record p.program { namespaces = namespaces } })
    ]
  ]

  -- A second loop goes on behind the first. A level of namespaces takes a token.
  unfoldable pub parse_module : Parser I → ParseResult I (Unit {0})
  unfolding root_namespace first_loop definitions_loop parse_definition finish
  parse_module p =
      let fuel = suc (length p.tokens.tokens) in
      root_namespace p >>? λ root p1.
      first_loop (parse_definition env inner fuel) fuel [] p1 >>? λ definitions p2.
      definitions_loop env inner (parse_definition env inner fuel) fuel definitions p2 >>? λ all p3.
      finish root all p3

  failed-≢-parsed :
      (x : ParseError) (p q : Parser I)
      → ◌≢◌ {A = ParseResult I (Unit {0})} (failed x p) (parsed tt q)
  failed-≢-parsed x p q e = cc e

  -- What is finished well is at the end of the file.
  finish-end :
      (root : ℕ) (definitions : List ParsedId) (p q : Parser I)
      → finish root definitions p ≡ parsed tt q
      → At q TokenKind.eof
  unfolding finish peek
  finish-end root definitions p q e = elim (Bool-cases (kind_eq (peek p).kind TokenKind.eof)) [
    | inl here ↦ elim (Option-cases (extend_namespace p.program.namespaces root definitions)) [
      | inl none_there ↦ absurd (panic-≢-parsed tt q (rw (finish, here, none_there) at e))
      | inr (ns, there) ↦
          let done : ◌≡◌ {A = ParseResult I (Unit {0})}
              (parsed tt (record p { program = record p.program { namespaces = ns } }))
              (parsed tt q) =
            rw (finish, here, there) at e in
          let state : record p { program = record p.program { namespaces = ns } } ≡ q = cc done in
          subst (λ r. At r TokenKind.eof) state ((kind_eq_iff _ _).0 here)
    ]
    | inr away ↦ elim (List-cases p.program.errors) [
      | inl no_errors ↦ absurd (failed-≢-parsed _ _ q (rw (finish, away, no_errors) at e))
      | inr (x, xs, errors) ↦ absurd (failed-≢-parsed _ _ q (rw (finish, away, errors) at e))
    ]
  ]

  -- A file that is accepted is read to its end.
  pub parse_module-end : (p q : Parser I) → parse_module p ≡ parsed tt q → At q TokenKind.eof
  unfolding parse_module
  parse_module-end p q e =
      let fuel = suc (length p.tokens.tokens) in
      let parse = parse_definition env inner fuel in
      let (root, p1, e1, e2) =
        >>?-value (root_namespace p)
          (λ root p1. first_loop parse fuel [] p1 >>? λ definitions p2.
            definitions_loop env inner parse fuel definitions p2 >>? λ all p3. finish root all p3)
          e in
      let (definitions, p2, e3, e4) =
        >>?-value (first_loop parse fuel [] p1)
          (λ definitions p2.
            definitions_loop env inner parse fuel definitions p2 >>? λ all p3. finish root all p3)
          e2 in
      let (all, p3, e5, e6) =
        >>?-value (definitions_loop env inner parse fuel definitions p2)
          (λ all p3. finish root all p3) e4 in
      finish-end root all p3 q e6

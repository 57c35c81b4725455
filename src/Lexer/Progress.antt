-- ===== src/Lexer/Progress.antt =====
-- src/k1/lex.rs: the rounds of `eat_token`, in front of a character and at the end of the text.
use bfl.TokenKind.{from_char, TokenKind}
use bfl.Lexer.{
  emit_ident, emit, char_loop, out_of_fuel, eat_loop, step_char, char_literal, fail, break_with,
  again, step, step_text, Step, Scan, step_symbol, step_string, step_comment,
}
use bfl.Lexer.Chars.{UnicodeTables}
use bfl.Prelude.{
  ◌+◌, inr, inl, u32, List-cases, Bool, ◌⊎◌, refl, zero, suc, false, ◌≡◌, none, some, Option, true,
  ℕ, ◌≤◌, ◌<◌, [], ◌∷◌, length, arith,
}
use bfl.Lexer.Cursor.{next, peek, Lexer, advance}

pub length-advance : (l : Lexer) → length (advance l).content ≤ length l.content
unfolding advance
length-advance l =
    elim l.content as (λ cs. length (advance (record l { content = cs })).content ≤ length cs) [
      | [] ↦ omega arith
      | c ∷ cs ↦ ground arith
    ]

pub length-advance_lt :
    (l : Lexer) → 0 < length l.content → length (advance l).content < length l.content
unfolding advance
length-advance_lt l =
    elim l.content
      as (λ cs. 0 < length cs → length (advance (record l { content = cs })).content < length cs) [
        | [] ↦ λ h. absurd (omega arith)
        | c ∷ cs ↦ λ h. ground arith
      ]

pub advance_nil : (l : Lexer) → l.content ≡ [] → (advance l).content ≡ []
unfolding advance
advance_nil l h = rw h (ground arith)

pub peek_nil : (l : Lexer) → l.content ≡ [] → peek l ≡ 0
unfolding peek
peek_nil l h = rw h

pub next_nil : (l : Lexer) → l.content ≡ [] → ((next l).0 ≡ 0) × ((next l).1.content ≡ [])
unfolding next
next_nil l h = ground arith

pub length-next_lt :
    (l : Lexer) → 0 < length l.content → length (next l).1.content < length l.content
length-next_lt l h = unfold advance in length-advance_lt l h

-- A character literal at the end of the text is read on for ever.
pub char_loop_hangs :
    (f : ℕ) (l : Lexer) (ws : Bool) (n len : ℕ)
    → l.content ≡ []
    → char_loop f l ws n len ≡ out_of_fuel
unfolding char_loop
char_loop_hangs zero l ws n len e = refl
char_loop_hangs (suc f) l ws n len e =
    ground (arith, next_nil l e, char_loop_hangs f (next l).1 ws n (u32 (len + 1)) (next_nil l e).1)

-- Fuel above the length of the text decides whether a literal is closed.
pub char_loop-out_of_fuel :
    (f g : ℕ) (l : Lexer) (ws : Bool) (n len : ℕ)
    → length l.content < f
    → char_loop f l ws n len ≡ out_of_fuel
    → char_loop g l ws n len ≡ out_of_fuel
unfolding char_loop
char_loop-out_of_fuel zero g l ws n len h e = absurd (omega arith)
char_loop-out_of_fuel (suc f) zero l ws n len h e = refl
char_loop-out_of_fuel (suc f) (suc g) l ws n len h e = elim (List-cases l.content) [
  | inl nil ↦ unfold char_loop in char_loop_hangs (suc g) l ws n len nil
  | inr (c, cs, full) ↦
      let fewer = length-next_lt l (rw full (omega arith)) in
      ground (arith, char_loop-out_of_fuel f g (next l).1 ws n (u32 (len + 1)) (omega arith))
]

-- What a round leaves of the text, where `n` characters were left before it.
abbrev pub Shrinks : ℕ → Step → Type 0
Shrinks n (again l' s') = length l'.content < n
Shrinks n (break_with l' t) = length l'.content ≤ n
Shrinks n (fail e) = Unit
Shrinks n (char_literal l' p) = length l'.content < n

module _ (tables : UnicodeTables) where
  step_text-Shrinks :
      (n : ℕ) (l : Lexer) (s : Scan) (c : ℕ)
      → length l.content ≤ n
      → length (advance l).content < n
      → Shrinks n (step_text tables l s c)
  unfolding step_text emit emit_ident
  step_text-Shrinks n l s c h k = ground arith

  step_symbol-Shrinks :
      (l : Lexer) (s : Scan) (c : ℕ) (k : TokenKind)
      → 0 < length l.content
      → Shrinks (length l.content) (step_symbol tables l s c k)
  unfolding step_symbol emit emit_ident
  step_symbol-Shrinks l s c k h = ground (
    arith,
    length-advance_lt l,
    length-advance (advance l),
    length-advance (advance (advance l)),
    step_text-Shrinks (length l.content) (advance (advance l))
        (record s { is_line_comment = true; line_comment_start = l.pos }) c,
  )

  step_comment-Shrinks :
      (l : Lexer) (s : Scan) (c : ℕ)
      → 0 < length l.content
      → Shrinks (length l.content) (step_comment l s c)
  unfolding step_comment emit emit_ident
  step_comment-Shrinks l s c h = ground (arith, length-advance_lt l)

  step_string-Shrinks :
      (l : Lexer) (s : Scan) (c : ℕ)
      → 0 < length l.content
      → Shrinks (length l.content) (step_string l s c)
  unfolding step_string emit emit_ident
  step_string-Shrinks l s c h = ground (arith, length-advance_lt l)

  step_char-Shrinks :
      (l : Lexer) (s : Scan) (c : ℕ) (o : Option TokenKind)
      → 0 < length l.content
      → Shrinks (length l.content) (step_char tables l s c o)
  unfolding step_char emit emit_ident
  step_char-Shrinks l s c (some k) h = step_symbol-Shrinks l s c k h
  step_char-Shrinks l s c none h =
      step_text-Shrinks (length l.content) l s c (omega arith) (length-advance_lt l h)

  -- A round that finds text left leaves less of it, or ends the token.
  pub step-Shrinks :
      (l : Lexer) (s : Scan) → 0 < length l.content → Shrinks (length l.content) (step tables l s)
  unfolding step emit emit_ident
  step-Shrinks l s h = ground (
    arith,
    length-advance_lt l,
    step_comment-Shrinks l s (peek l) h,
    step_string-Shrinks l s (peek l) h,
    step_char-Shrinks l s (peek l) (from_char (peek l)) h,
  )

  -- At the end of the text only an open string goes on.
  abbrev pub Waits : Scan → Step → Type 0
  Waits s (again l' s') =
      (s.is_line_comment ≡ false)
      × (s.is_string ≡ true)
      × (s'.is_line_comment ≡ false)
      × (s'.is_string ≡ true)
      × (l'.content ≡ [])
  Waits s (break_with l' t) =
      (l'.content ≡ []) × ((s.is_line_comment ≡ true) ⊎ (s.is_string ≡ false))
  Waits s (fail e) = ⊥
  Waits s (char_literal l' p) = ⊥

  pub step-Waits : (l : Lexer) (s : Scan) → l.content ≡ [] → Waits s (step tables l s)
  unfolding step step_comment step_string emit emit_ident
  step-Waits l s h = ground (arith, advance_nil l h, peek_nil l h)

  -- An open string at the end of the text is read on for ever.
  pub eat_loop_hangs :
      (f : ℕ) (l : Lexer) (s : Scan)
      → l.content ≡ []
      → s.is_line_comment ≡ false
      → s.is_string ≡ true
      → eat_loop tables f l s ≡ out_of_fuel
  unfolding eat_loop
  eat_loop_hangs zero l s e c t = refl
  eat_loop_hangs (suc f) l s e c t = go (step tables l s) refl (step-Waits l s e) (eat_loop_hangs f)
    where
      go :
          (st : Step)
          → step tables l s ≡ st
          → Waits s st
          → ((l' : Lexer) (s' : Scan)
              → l'.content ≡ []
              → s'.is_line_comment ≡ false
              → s'.is_string ≡ true
              → eat_loop tables f l' s' ≡ out_of_fuel)
          → eat_loop tables (suc f) l s ≡ out_of_fuel
      go (again l' s') q w ih = rw (q, eat_loop) (ih l' s' w.4 w.2 w.3)
      go (break_with l' o) q w ih = ground arith
      go (fail r) q w ih = absurd w
      go (char_literal l' p) q w ih = absurd w

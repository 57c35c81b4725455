-- ===== src/Lexer/Extent.antt =====
-- src/k1/lex.rs: the span of a token lies in the text that the call has read, so the spans of a
-- file stand in order and do not overlap. Four times the text is to fit in 32 bits.
use bfl.Lexer.Chars.{UnicodeTables}
pub mod Call
pub mod Order
use bfl.TokenKind.{
  greater_than_equal, less_than_equal, token_from_str, bang_equals, equals_equals, ident,
  line_comment, string, TokenKind,
}
use bfl.Token
use bfl.Token.{Token}
use bfl.Lexer.{
  step_symbol, step_text, push, char_literal, fail, break_with, again, emit, make_token, Scan, Step,
  emit_ident, step_string, step_comment,
}
use bfl.Span.{add, Span, Spans}
use bfl.Prelude.{
  inr, inl, Option-cases, refl, ◌∙◌, ◌≢◌, none, u32, some, sub32, ◌++◌, true, Bool, ◌∷◌, arith, [],
  ◌≡◌, ◌*◌, ◌≤◌, length, ◌+◌, ◌<◌, ℕ,
}
use bfl.Lexer.Cursor.{first, peek, advance, Lexer}

-- The position with four for each character left: no round makes it larger.
abbrev pub room : Lexer → ℕ
room l = l.pos + 4 * length l.content

-- A reader moves on from `l` to `m`; `left` says that it found text left.
record Moves (l m : Lexer) : Type 0 where
  forward : l.pos + 1 ≤ m.pos
  room_le : room m ≤ room l + 1
  room_lt : 0 < length l.content → room m + 2 ≤ room l
  same_spans : m.spans ≡ l.spans
  same_file : m.file_id ≡ l.file_id

advance-Moves : (l : Lexer) → room l + 2 < 4294967296 → Moves l (advance l)
unfolding advance
advance-Moves l h =
    elim l.content
        as (λ cs.
          l.pos + 4 * length cs + 2 < 4294967296
          → Moves (record l { content = cs }) (advance (record l { content = cs }))) [
            | [] ↦ λ h. ground arith
            | c ∷ cs ↦
                elim cs
                  as (λ ds.
                    l.pos + 4 * length (c ∷ ds) + 2 < 4294967296
                    → Moves (record l { content = c ∷ ds })
                        (advance (record l { content = c ∷ ds }))) [
                          | [] ↦ λ h. ground arith
                          | d ∷ ds ↦ λ h. ground arith
                        ]
          ]
      h

length_of_peek : (l : Lexer) → peek l ≢ 0 → 0 < length l.content
unfolding peek
length_of_peek l = elim l.content as (λ cs. first cs ≢ 0 → 0 < length cs) [
  | [] ↦ λ h. absurd (h refl)
  | c ∷ cs ↦ λ h. omega arith
]

module _ (p0 M : ℕ) (base : Spans) (file : ℕ) where
  -- The state between two rounds, for a call that began at `p0` with the pool `base`.
  pub record Inv (l : Lexer) (s : Scan) : Type 0 where
    behind : p0 + s.tok_len ≤ l.pos
    comment_start : s.is_line_comment ≡ true → p0 ≤ s.line_comment_start
    comment_open : s.is_line_comment ≡ true → s.line_comment_start + 2 ≤ l.pos
    room_le : room l ≤ M
    same_spans : l.spans ≡ base
    same_file : l.file_id ≡ file

  -- The state in a character literal that began at `n`, `len` characters on.
  pub record CharInv (l : Lexer) (n len : ℕ) : Type 0 where
    behind : p0 ≤ n
    within : n + len ≤ l.pos
    room_le : room l ≤ M
    same_spans : l.spans ≡ base
    same_file : l.file_id ≡ file

  -- The token `t` has a new span, of text read by the call.
  pub record Spanned (l' : Lexer) (t : Token) : Type 0 where
    pub span : Span
    pub pool : l'.spans.spans ≡ base.spans ++ span ∷ []
    pub id : t.span ≡ u32 (length base.spans)
    pub starts : p0 ≤ span.start
    pub ends : span.start + span.len ≤ l'.pos
    pub in_file : span.file_id ≡ file
    pub same_file : l'.file_id ≡ file
    pub room_le : room l' ≤ M

  abbrev pub Post : Step → Type 0
  Post (again l' s') = Inv l' s'
  Post (break_with l' none) = l'.spans ≡ base
  Post (break_with l' (some t)) = Spanned l' t
  Post (fail e) = Unit
  Post (char_literal l' n) = CharInv l' n 1

  make_token-Spanned :
      (l : Lexer) (ws : Bool) (kind : TokenKind) (start len : ℕ)
      → l.spans ≡ base
      → l.file_id ≡ file
      → room l ≤ M
      → p0 ≤ start
      → start + len ≤ l.pos
      → Spanned (make_token l ws kind start len).0 (make_token l ws kind start len).1
  unfolding make_token
  make_token-Spanned l ws kind start len b f r h k = record {
    span = record { file_id = l.file_id; start = start; len = len };
    pool = unfold add in rw b;
    id = unfold add Token.new in rw b;
    starts = h;
    ends = k;
    in_file = f;
    same_file = f;
    room_le = r;
  }

  module _ (bound : M + 8 < 4294967296) where
    emit-Post :
        (m : Lexer) (s : Scan) (kind : TokenKind) (start len : ℕ)
        → m.spans ≡ base
        → m.file_id ≡ file
        → room m ≤ M
        → p0 ≤ start
        → start + len ≤ m.pos
        → Post (emit m s kind start len)
    unfolding emit
    emit-Post m s kind start len b f r h k =
        make_token-Spanned m s.peeked_whitespace kind start len b f r h k

    emit_ident-Post : (l : Lexer) (s : Scan) (k : TokenKind) → Inv l s → Post (emit_ident l s k)
    unfolding emit_ident
    emit_ident-Post l s k i =
        emit-Post l s k (sub32 l.pos s.tok_len) s.tok_len i.same_spans i.same_file i.room_le
          (omega arith) (omega arith)

    advance-Inv : (l : Lexer) (s : Scan) → Inv l s → 0 < length l.content → Inv (advance l) s
    advance-Inv l s i h =
        let m = advance-Moves l (omega (arith, i.room_le)) in
        let fits = m.room_lt h in
        record {
          behind = omega (arith, m.forward, i.behind);
          comment_start = i.comment_start;
          comment_open = λ t. omega (arith, m.forward, i.comment_open t);
          room_le = omega (arith, i.room_le);
          same_spans = m.same_spans ∙ i.same_spans;
          same_file = m.same_file ∙ i.same_file;
        }

    push-Inv :
        (l : Lexer) (s : Scan) (c : ℕ) → p0 + s.tok_len + 1 ≤ l.pos → Inv l s → Inv l (push s c)
    unfolding push
    push-Inv l s c h i = record {
      behind = omega (arith, h, i.room_le);
      comment_start = i.comment_start;
      comment_open = i.comment_open;
      room_le = i.room_le;
      same_spans = i.same_spans;
      same_file = i.same_file;
    }

    advance-push-Inv :
        (l : Lexer) (s : Scan) (c : ℕ) → Inv l s → 0 < length l.content → Inv (advance l) (push s c)
    advance-push-Inv l s c i h =
        push-Inv (advance l) s c
          (omega (arith, (advance-Moves l (omega (arith, i.room_le))).forward, i.behind))
          (advance-Inv l s i h)

    step_comment-Post :
        (l : Lexer) (s : Scan)
        → Inv l s
        → s.is_line_comment ≡ true
        → Post (step_comment l s (peek l))
    unfolding step_comment
    step_comment-Post l s i t = ground (
      arith,
      i.comment_start t,
      i.comment_open t,
      length_of_peek l,
      emit-Post l s line_comment s.line_comment_start (sub32 (sub32 l.pos s.line_comment_start) 1)
          i.same_spans i.same_file i.room_le,
      advance-Inv l s i,
    )

    step_string-Post :
        (l : Lexer) (s : Scan) (c : ℕ) → Inv l s → 0 < length l.content → Post (step_string l s c)
    unfolding step_string
    step_string-Post l s c i h =
        let a = advance-Inv l s i h in
        ground (
          arith,
          emit-Post (advance l) s string (sub32 l.pos s.tok_len) s.tok_len a.same_spans a.same_file
              a.room_le (omega (arith, i.behind, i.room_le))
              (omega
                (arith, i.behind, i.room_le, (advance-Moves l (omega (arith, i.room_le))).forward)),
          advance-push-Inv l s c i h,
        )

    module _ (tables : UnicodeTables) where
      step_text-Post :
          (l : Lexer) (s : Scan) (c : ℕ)
          → Inv l s
          → Inv (advance l) s
          → Inv (advance l) (push s c)
          → Post (step_text tables l s c)
      unfolding step_text
      step_text-Post l s c i a b = elim (Option-cases (token_from_str s.tok_buf)) [
        | inl e ↦ ground (arith, e, emit_ident-Post l s ident i)
        | inr (k, e) ↦ ground (arith, e, emit_ident-Post l s ident i, emit_ident-Post l s k i)
      ]

      literal-Inv :
          (l : Lexer) (s : Scan)
          → Inv l s
          → l.pos + 1 ≤ (advance l).pos
          → room (advance l) ≤ M
          → (advance l).spans ≡ l.spans
          → (advance l).file_id ≡ l.file_id
          → CharInv (advance l) l.pos 1
      literal-Inv l s i h r b f = record {
        behind = omega (arith, i.behind);
        within = h;
        room_le = r;
        same_spans = b ∙ i.same_spans;
        same_file = f ∙ i.same_file;
      }

      -- The state in which a comment that opened at `l` is read on.
      comment-Inv :
          (l m : Lexer) (s : Scan)
          → Inv l s
          → l.pos + 2 ≤ m.pos
          → room m ≤ M
          → m.spans ≡ l.spans
          → m.file_id ≡ l.file_id
          → Inv m (record s { is_line_comment = true; line_comment_start = l.pos })
      comment-Inv l m s i h r b f = record {
        behind = omega (arith, i.behind);
        comment_start = λ _. omega (arith, i.behind);
        comment_open = λ _. h;
        room_le = r;
        same_spans = b ∙ i.same_spans;
        same_file = f ∙ i.same_file;
      }

      step_symbol-Post :
          (l : Lexer) (s : Scan) (c : ℕ) (k : TokenKind)
          → Inv l s
          → 0 < length l.content
          → Post (step_symbol tables l s c k)
      unfolding step_symbol
      step_symbol-Post l s c k i h =
          let a = advance l in
          let m1 = advance-Moves l (omega (arith, i.room_le)) in
          let r1 = m1.room_lt h in
          let m2 = advance-Moves a (omega (arith, i.room_le)) in
          let r2 = m2.room_le in
          let m3 = advance-Moves (advance a) (omega (arith, i.room_le)) in
          let b2 = m2.same_spans ∙ m1.same_spans in
          let f2 = m2.same_file ∙ m1.same_file in
          let s' = record s { is_line_comment = true; line_comment_start = l.pos } in
          let i2 =
            comment-Inv l (advance a) s i (omega (arith, m1.forward, m2.forward))
              (omega (arith, i.room_le)) b2 f2 in
          let i3 =
            comment-Inv l (advance (advance a)) s i
              (omega (arith, m1.forward, m2.forward, m3.forward))
              (omega (arith, i.room_le, m3.room_le)) (m3.same_spans ∙ b2) (m3.same_file ∙ f2) in
          let two = λ (kind : TokenKind).
            emit-Post (advance a) s kind l.pos 2 (b2 ∙ i.same_spans) (f2 ∙ i.same_file)
              (omega (arith, i.room_le)) (omega (arith, i.behind))
              (omega (arith, m1.forward, m2.forward)) in
          ground (
            arith,
            emit_ident-Post l s ident i,
            emit-Post a s k l.pos 1 (m1.same_spans ∙ i.same_spans) (m1.same_file ∙ i.same_file)
                (omega (arith, i.room_le)) (omega (arith, i.behind)) m1.forward,
            two equals_equals,
            two bang_equals,
            two less_than_equal,
            two greater_than_equal,
            step_text-Post (advance a) s' c i2 i3
                (push-Inv (advance (advance a)) s' c (omega (arith, i.behind, m1.forward)) i3),
            literal-Inv l s i m1.forward (omega (arith, i.room_le)) m1.same_spans m1.same_file,
          )

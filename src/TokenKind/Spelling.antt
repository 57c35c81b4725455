-- ===== src/TokenKind/Spelling.antt =====
-- src/k1/lex.rs: the tables of `TokenKind` against the spellings of `get_repr`.
use mathlib.Core.Path.{subst}
use bfl.Prelude.{
  ◌≤◌, Bool-cases, ◌==◌, inl, inr, ℕ, ◌≡◌, ◌↔◌, refl, ap, true, List, [], ◌∷◌, Option, none, some,
  ==_iff, list_eq_iff, arith, All, get_elem?,
}
use bfl.TokenKind.{
  TokenKind, discriminant, kind_eq, get_repr, match_char, match_str, single_chars, words, from_char,
  token_from_str, ident, string, char, keyword_fn, keyword_val, keyword_mut, keyword_and,
  keyword_or, keyword_if, keyword_else, keyword_record, keyword_type, keyword_while,
  keyword_namespace, keyword_intern, keyword_extern, keyword_for, keyword_in, keyword_do,
  keyword_yield, keyword_enum, keyword_ability, keyword_impl, keyword_auto, keyword_is,
  keyword_when, keyword_as, keyword_not, keyword_builtin, keyword_where, slash, line_comment,
  open_paren, close_paren, open_bracket, close_bracket, open_brace, close_brace, open_angle,
  close_angle, colon, semicolon, equals, equals_equals, bang_equals, dot, comma, bang,
  question_mark, pipe, ampersand, percent, double_quote, single_quote, plus, minus, asterisk,
  less_than_equal, greater_than_equal, eof,
}

-- The kinds in the order of their discriminants.
abbrev kinds : List TokenKind
kinds =
    ident ∷ string ∷ char ∷ keyword_fn ∷ keyword_val ∷ keyword_mut ∷ keyword_and ∷ keyword_or
    ∷ keyword_if ∷ keyword_else ∷ keyword_record ∷ keyword_type ∷ keyword_while ∷ keyword_namespace
    ∷ keyword_intern ∷ keyword_extern ∷ keyword_for ∷ keyword_in ∷ keyword_do ∷ keyword_yield
    ∷ keyword_enum ∷ keyword_ability ∷ keyword_impl ∷ keyword_auto ∷ keyword_is ∷ keyword_when
    ∷ keyword_as ∷ keyword_not ∷ keyword_builtin ∷ keyword_where ∷ slash ∷ line_comment ∷ open_paren
    ∷ close_paren ∷ open_bracket ∷ close_bracket ∷ open_brace ∷ close_brace ∷ open_angle
    ∷ close_angle ∷ colon ∷ semicolon ∷ equals ∷ equals_equals ∷ bang_equals ∷ dot ∷ comma ∷ bang
    ∷ question_mark ∷ pipe ∷ ampersand ∷ percent ∷ double_quote ∷ single_quote ∷ plus ∷ minus
    ∷ asterisk ∷ less_than_equal ∷ greater_than_equal ∷ eof ∷ []

kind_of-discriminant : (k : TokenKind) → get_elem? kinds (discriminant k) ≡ some k
unfolding discriminant
kind_of-discriminant ident = refl
kind_of-discriminant _ = refl

-- Two kinds are equal exactly when the comparison of their discriminants says so.
pub kind_eq_iff : (a b : TokenKind) → (kind_eq a b ≡ true) ↔ (a ≡ b)
unfolding kind_eq
kind_eq_iff a b = (
  λ h. cc (kind_of-discriminant a, kind_of-discriminant b, (==_iff _ _).0 h),
  λ e. (==_iff _ _).1 (ap discriminant e),
)

pub kind_eq_refl : (a : TokenKind) → kind_eq a a ≡ true
kind_eq_refl a = (kind_eq_iff a a).1 refl

-- An arm of a table is spelled as its kind.
abbrev SpellsChar : ℕ × TokenKind → Type 0
SpellsChar (c, k) = get_repr k ≡ some (c ∷ [])

abbrev SpellsWord : List ℕ × TokenKind → Type 0
SpellsWord (w, k) = get_repr k ≡ some w

match_char_sound :
    (c : ℕ) (arms : List (ℕ × TokenKind)) {k : TokenKind}
    → All SpellsChar arms
    → match_char c arms ≡ some k
    → get_repr k ≡ some (c ∷ [])
unfolding match_char
match_char_sound c [] a h = absurd (cc)
match_char_sound c ((d, j) ∷ arms) {k} a h = elim (Bool-cases (c == d)) [
  | inl e ↦ cc (a.0, (==_iff c d).0 e, rw e at h)
  | inr e ↦ match_char_sound c arms {k = k} a.1 (rw e at h)
]

match_str_sound :
    (s : List ℕ) (arms : List (List ℕ × TokenKind)) {k : TokenKind}
    → All SpellsWord arms
    → match_str s arms ≡ some k
    → get_repr k ≡ some s
unfolding match_str
match_str_sound s [] a h = absurd (cc)
match_str_sound s ((t, j) ∷ arms) {k} a h =
    ground (arith, list_eq_iff s t, match_str_sound s arms {k = k} a.1)

single_chars-SpellsChar : All SpellsChar single_chars
unfolding get_repr
single_chars-SpellsChar = (
  refl,
  (
    refl,
    (
      refl,
      (
        refl,
        (
          refl,
          (
            refl,
            (
              refl,
              (
                refl,
                (
                  refl,
                  (
                    refl,
                    (
                      refl,
                      (
                        refl,
                        (
                          refl,
                          (
                            refl,
                            (
                              refl,
                              (
                                refl,
                                (refl, (refl, (refl, (refl, (refl, (refl, (refl, (refl, tt)))))))),
                              ),
                            ),
                          ),
                        ),
                      ),
                    ),
                  ),
                ),
              ),
            ),
          ),
        ),
      ),
    ),
  ),
)

words-SpellsWord : All SpellsWord words
unfolding get_repr
words-SpellsWord = (
  refl,
  (
    refl,
    (
      refl,
      (
        refl,
        (
          refl,
          (
            refl,
            (
              refl,
              (
                refl,
                (
                  refl,
                  (
                    refl,
                    (
                      refl,
                      (
                        refl,
                        (
                          refl,
                          (
                            refl,
                            (
                              refl,
                              (
                                refl,
                                (
                                  refl,
                                  (
                                    refl,
                                    (
                                      refl,
                                      (
                                        refl,
                                        (
                                          refl,
                                          (
                                            refl,
                                            (
                                              refl,
                                              (
                                                refl,
                                                (
                                                  refl,
                                                  (
                                                    refl,
                                                    (refl, (refl, (refl, (refl, (refl, tt))))),
                                                  ),
                                                ),
                                              ),
                                            ),
                                          ),
                                        ),
                                      ),
                                    ),
                                  ),
                                ),
                              ),
                            ),
                          ),
                        ),
                      ),
                    ),
                  ),
                ),
              ),
            ),
          ),
        ),
      ),
    ),
  ),
)

-- A character that `from_char` takes is the whole spelling of the kind it answers.
pub get_repr-from_char : (c : ℕ) {k : TokenKind} → from_char c ≡ some k → get_repr k ≡ some (c ∷ [])
unfolding from_char
get_repr-from_char c = match_char_sound c single_chars single_chars-SpellsChar

-- A text that `token_from_str` takes is the spelling of the kind it answers.
pub get_repr-token_from_str :
    (s : List ℕ) {k : TokenKind} → token_from_str s ≡ some k → get_repr k ≡ some s
unfolding token_from_str
get_repr-token_from_str s = match_str_sound s words words-SpellsWord

-- A text that begins with a small letter, as the spellings of the keywords do.
abbrev pub IsWord : List ℕ → Type 0
IsWord [] = ⊥
IsWord (c ∷ cs) = (b'a' ≤ c) × (c ≤ b'z')

abbrev Recognised : TokenKind → Option (List ℕ) → Type 0
Recognised k none = Unit
Recognised k (some text) = IsWord text → token_from_str text ≡ some k

get_repr-Recognised : (k : TokenKind) → Recognised k (get_repr k)
unfolding get_repr token_from_str
get_repr-Recognised ident = tt
get_repr-Recognised string = λ h. absurd (omega (arith, h))
get_repr-Recognised _ = λ h. ground (arith, h)

-- A spelling that begins with a small letter is recognised as the kind that is spelt so.
pub token_from_str-get_repr :
    (k : TokenKind) (text : List ℕ)
    → get_repr k ≡ some text
    → IsWord text
    → token_from_str text ≡ some k
token_from_str-get_repr k text e = subst (Recognised k) e (get_repr-Recognised k)

-- ===== src/Lexer/Chars.antt =====
-- src/k1/lex.rs, `is_ident_char` and `is_ident_or_num_start`, over the character classes of Rust's
-- `char`. The tables of letters and numbers are Unicode's and a parameter here; white space is the
-- finite list of the standard.
use bfl.Prelude.{ℕ, ◌≡◌, Bool, ◌&&◌, ◌||◌, ◌<◌, ◌==◌, leb, refl}

abbrev within : ℕ → ℕ → ℕ → Bool
within lo hi c = leb lo c && leb c hi

abbrev pub is_ascii_alphabetic : ℕ → Bool
is_ascii_alphabetic c = within b'a' b'z' c || within b'A' b'Z' c

abbrev pub is_ascii_digit : ℕ → Bool
is_ascii_digit c = within b'0' b'9' c

-- `char::is_alphabetic` and `char::is_numeric`, with what they answer on ASCII.
pub record UnicodeTables : Type 0 where
  pub is_alphabetic : ℕ → Bool
  pub is_numeric : ℕ → Bool
  pub alphabetic_ascii : (c : ℕ) → c < 128 → is_alphabetic c ≡ is_ascii_alphabetic c
  pub numeric_ascii : (c : ℕ) → c < 128 → is_numeric c ≡ is_ascii_digit c

-- `char::is_whitespace`: the characters with the property White_Space.
unfoldable pub is_whitespace : ℕ → Bool
is_whitespace c =
    within 9 13 c
    || c == 32
    || c == 0x85
    || c == 0xa0
    || c == 0x1680
    || within 0x2000 0x200a c
    || c == 0x2028
    || c == 0x2029
    || c == 0x202f
    || c == 0x205f
    || c == 0x3000

module _ (tables : UnicodeTables) where
  open tables use {is_alphabetic, is_numeric}

  -- `char::is_alphanumeric` is the union of the two classes.
  is_alphanumeric : ℕ → Bool
  is_alphanumeric c = is_alphabetic c || is_numeric c

  unfoldable pub is_ident_char : ℕ → Bool
  unfolding is_alphanumeric
  is_ident_char c = is_alphanumeric c || c == b'_' || c == b'.'

  unfoldable pub is_ident_or_num_start : ℕ → Bool
  is_ident_or_num_start c = is_alphabetic c || c == b'_' || c == b'-'

-- The tables of a text that is all ASCII.
abbrev pub ascii_tables : UnicodeTables
ascii_tables = record {
  is_alphabetic = is_ascii_alphabetic;
  is_numeric = is_ascii_digit;
  alphabetic_ascii = λ c h. refl;
  numeric_ascii = λ c h. refl;
}

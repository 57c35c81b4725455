-- ===== src/Patterns.antt =====
-- src/k1/typer.rs, `PatternConstructor` and `TypedPattern`: the patterns of a match, and the shapes
-- of values that its patterns are tried on. `Option<Box<…>>` is a constructor for each case.
pub mod Match
pub mod Check
pub mod Values
pub mod Cover
pub mod Variants
pub mod Product
pub mod Safe
pub mod Reasons
pub mod Finite
use bfl.Prelude.{false, true, List, Bool, ℕ}

-- A value of a signed type is that of its bits.
pub data TypedIntegerValue : Type 0 where
  u8 u16 u32 u64 i8 i16 i32 i64 : ℕ → TypedIntegerValue

mutual
  pub data PatternConstructor : Type 0 where
    unit bool_false bool_true none_value char string int type_variable : PatternConstructor
    some_value : PatternConstructor → PatternConstructor
    struct : CtorFields → PatternConstructor
    enum : ℕ → PatternConstructor
    enum_with : ℕ → PatternConstructor → PatternConstructor

  pub data CtorFields : Type 0 where
    end : CtorFields
    field : ℕ → PatternConstructor → CtorFields → CtorFields

-- `TypedEnumPattern`, without the payload's pattern.
pub record EnumPatternHead : Type 0 where
  pub enum_type_id : ℕ
  pub variant_tag_name : ℕ
  pub variant_index : ℕ
  pub span : ℕ

-- `TypedStructPatternField`, without its pattern.
pub record FieldHead : Type 0 where
  pub name : ℕ
  pub field_index : ℕ
  pub field_type_id : ℕ

mutual
  pub data TypedPattern : Type 0 where
    literal_unit : ℕ → TypedPattern
    literal_char : ℕ → ℕ → TypedPattern
    literal_integer : TypedIntegerValue → ℕ → TypedPattern
    literal_bool : Bool → ℕ → TypedPattern
    literal_string : List ℕ → ℕ → TypedPattern
    variable : ℕ → ℕ → TypedPattern
    enum_pattern : EnumPatternHead → TypedPattern
    enum_pattern_with : EnumPatternHead → TypedPattern → TypedPattern
    struct_pattern : ℕ → PatternFields → ℕ → TypedPattern
    wildcard : ℕ → TypedPattern

  pub data PatternFields : Type 0 where
    end_pattern : PatternFields
    field_pattern : FieldHead → TypedPattern → PatternFields → PatternFields

unfoldable pub is_innumerable_literal : TypedPattern → Bool
is_innumerable_literal (literal_char c span) = true
is_innumerable_literal (literal_integer v span) = true
is_innumerable_literal (literal_string s span) = true
is_innumerable_literal _ = false

unfoldable pub span_id : TypedPattern → ℕ
span_id (literal_unit span) = span
span_id (literal_char c span) = span
span_id (literal_integer v span) = span
span_id (literal_bool b span) = span
span_id (literal_string s span) = span
span_id (variable name span) = span
span_id (enum_pattern head) = head.span
span_id (enum_pattern_with head payload) = head.span
span_id (struct_pattern type_id fields span) = span
span_id (wildcard span) = span

-- ===== src/Typ.antt =====
-- src/k1/typer/types.rs: the types of a program and the pool that interns them. A `TypeId` is the
-- index of a type in the pool; names, scopes and parsed nodes are their numbers.
pub mod Pool
pub mod Equal
pub mod Intern
pub mod Dedupe
pub mod Once
pub mod Enums
pub mod Variables
pub mod Mentions
use bfl.Outcome.{panic, ok, Outcome}
use bfl.Prelude.{
  [], get_elem?, ◌+◌, true, ◌∷◌, if◌then◌else◌, some, is_some, ◌==◌, none, find, false, List, ℕ,
  Bool, Option,
}
use bfl.Maps.{HashMap}

abbrev pub TypeId : Type 0
TypeId = ℕ

-- `TypeId::PENDING`
abbrev pub pending : TypeId
pending = 4294967295

pub data NumericWidth : Type 0 where
  b8 b16 b32 b64 : NumericWidth

unfoldable pub bit_width : NumericWidth → ℕ
bit_width b8 = 8
bit_width b16 = 16
bit_width b32 = 32
bit_width b64 = 64

pub data IntegerType : Type 0 where
  u8 u16 u32 u64 i8 i16 i32 i64 : IntegerType

abbrev pub array_type_id : TypeId
array_type_id = 17

abbrev pub char_type_id : TypeId
char_type_id = 9

abbrev pub string_type_id : TypeId
string_type_id = 18

abbrev pub optional_type_id : TypeId
optional_type_id = 23

-- `U8_TYPE_ID` to `I64_TYPE_ID`
unfoldable pub type_id : IntegerType → TypeId
type_id u8 = 0
type_id u16 = 1
type_id u32 = 2
type_id u64 = 3
type_id i8 = 4
type_id i16 = 5
type_id i32 = 6
type_id i64 = 7

unfoldable pub width : IntegerType → NumericWidth
width u8 = b8
width i8 = b8
width u16 = b16
width i16 = b16
width u32 = b32
width i32 = b32
width u64 = b64
width i64 = b64

unfoldable pub is_signed : IntegerType → Bool
is_signed u8 = false
is_signed u16 = false
is_signed u32 = false
is_signed u64 = false
is_signed _ = true

pub data ParsedId : Type 0 where
  function type_defn namespace ability ability_impl constant expression type_expression
        pattern_node :
      ℕ → ParsedId

pub record StructTypeField : Type 0 where
  pub name : ℕ
  pub type_id : TypeId
  pub index : ℕ

pub record GenericInstanceInfo : Type 0 where
  pub generic_parent : TypeId
  pub param_values : List TypeId

pub record TypeDefnInfo : Type 0 where
  pub name : ℕ
  pub scope : ℕ
  pub companion_namespace : Option ℕ
  pub ast_id : ParsedId

pub record StructType : Type 0 where
  pub fields : List StructTypeField
  pub type_defn_info : Option TypeDefnInfo
  pub generic_instance_info : Option GenericInstanceInfo
  pub ast_node : ParsedId

unfoldable pub is_named : StructType → Bool
is_named s = is_some s.type_defn_info

-- `Iterator::enumerate` and `find`, from an index on.
unfoldable pub find_field_from : ℕ → List StructTypeField → ℕ → Option (ℕ × StructTypeField)
find_field_from i [] field_name = none
find_field_from i (field ∷ fields) field_name =
    if field.name == field_name then some (i, field) else find_field_from (i + 1) fields field_name

unfoldable pub find_field : StructType → ℕ → Option (ℕ × StructTypeField)
unfolding find_field_from
find_field s field_name = find_field_from 0 s.fields field_name

pub record TypeVariable : Type 0 where
  pub name : ℕ
  pub scope_id : ℕ
  pub ability_impls : List ℕ
  pub span : ℕ

pub record ReferenceType : Type 0 where
  pub inner_type : TypeId

pub record TypedEnumVariant : Type 0 where
  pub enum_type_id : TypeId
  pub my_type_id : TypeId
  pub name : ℕ
  pub index : ℕ
  pub payload : Option TypeId

pub record TypedEnum : Type 0 where
  pub variants : List TypedEnumVariant
  pub type_defn_info : Option TypeDefnInfo
  pub generic_instance_info : Option GenericInstanceInfo
  pub ast_node : ParsedId

unfoldable pub variant_by_name : TypedEnum → ℕ → Option TypedEnumVariant
variant_by_name e name = find (λ v. v.name == name) e.variants

unfoldable pub variant_by_index : TypedEnum → ℕ → Option TypedEnumVariant
variant_by_index e index = find (λ v. v.index == index) e.variants

pub record OpaqueTypeAlias : Type 0 where
  pub ast_id : ℕ
  pub aliasee : TypeId
  pub type_defn_info : TypeDefnInfo

pub record GenericTypeParam : Type 0 where
  pub name : ℕ
  pub type_id : TypeId

pub record GenericType : Type 0 where
  pub params : List GenericTypeParam
  pub inner : TypeId
  pub ast_id : ℕ
  pub type_defn_info : TypeDefnInfo
  pub specializations : List (List TypeId × TypeId)

pub record FloatType : Type 0 where
  pub size : NumericWidth
  pub defn_info : TypeDefnInfo

pub record FnArgType : Type 0 where
  pub type_id : TypeId
  pub name : ℕ

pub record FunctionType : Type 0 where
  pub params : List FnArgType
  pub return_type : TypeId
  pub defn_info : Option TypeDefnInfo

pub record RecursiveReference : Type 0 where
  pub parsed_id : ℕ
  pub root_type_id : TypeId

unfoldable pub is_pending : RecursiveReference → Bool
is_pending r = r.root_type_id == pending

-- `Type`
pub data Ty : Type 0 where
  unit char : TypeDefnInfo → Ty
  integer : IntegerType → Ty
  float : FloatType → Ty
  bool pointer : TypeDefnInfo → Ty
  struct : StructType → Ty
  reference : ReferenceType → Ty
  type_variable : TypeVariable → Ty
  enum : TypedEnum → Ty
  enum_variant : TypedEnumVariant → Ty
  never : TypeDefnInfo → Ty
  opaque_alias : OpaqueTypeAlias → Ty
  generic : GenericType → Ty
  function_type : FunctionType → Ty
  recursive_reference : RecursiveReference → Ty

unfoldable pub ast_node : Ty → Option ParsedId
ast_node (unit info) = some info.ast_id
ast_node (char info) = some info.ast_id
ast_node (bool info) = some info.ast_id
ast_node (pointer info) = some info.ast_id
ast_node (never info) = some info.ast_id
ast_node (float ft) = some ft.defn_info.ast_id
ast_node (struct t) = some t.ast_node
ast_node (enum e) = some e.ast_node
ast_node (opaque_alias opaque) = some (type_defn opaque.ast_id)
ast_node (generic gen) = some (type_defn gen.ast_id)
ast_node (recursive_reference r) = some (type_defn r.parsed_id)
ast_node _ = none

-- The instance's one argument, where it is an instance of `parent`; indexing panics.
unfoldable pub instance_of : TypeId → Option GenericInstanceInfo → Outcome (Option TypeId)
instance_of parent none = ok none
instance_of parent (some spec_info) =
    if spec_info.generic_parent == parent
    then elim (get_elem? spec_info.param_values 0) [ none ↦ panic | some param ↦ ok (some param) ]
    else ok none

-- The element type of the array, and the inner type of the optional.
unfoldable pub as_array_instance : Ty → Outcome (Option TypeId)
unfolding instance_of
as_array_instance (struct s) = instance_of array_type_id s.generic_instance_info
as_array_instance _ = ok none

unfoldable pub as_optional : Ty → Outcome (Option TypeId)
unfolding instance_of
as_optional (enum e) = instance_of optional_type_id e.generic_instance_info
as_optional _ = ok none

-- `expect_…` is the same with a panic for `none`.
unfoldable pub as_reference : Ty → Option ReferenceType
as_reference (reference r) = some r
as_reference _ = none

unfoldable pub as_enum : Ty → Option TypedEnum
as_enum (enum e) = some e
as_enum _ = none

unfoldable pub as_struct : Ty → Option StructType
as_struct (struct s) = some s
as_struct _ = none

unfoldable pub as_tvar : Ty → Option TypeVariable
as_tvar (type_variable t) = some t
as_tvar _ = none

unfoldable pub as_enum_variant : Ty → Option TypedEnumVariant
as_enum_variant (enum_variant ev) = some ev
as_enum_variant _ = none

unfoldable pub expect_enum : Ty → Outcome TypedEnum
expect_enum (enum e) = ok e
expect_enum _ = panic

-- ===== src/Patterns/Values.antt =====
-- What the patterns and shapes of src/k1/typer.rs mean: the values of a type, which of them a shape
-- stands for, and which a pattern takes when the program runs (`eval_match_arm`).
use bfl.Outcome.{ok}
use bfl.Prelude.{
  ◌==◌, ◌∷◌, if◌then◌else◌, false, true, none, get_elem?, [], Option, some, List, ◌≡◌, ◌≢◌, Bool, ℕ,
}
use bfl.Patterns
use bfl.Patterns.{TypedIntegerValue, TypedPattern, PatternFields, PatternConstructor, CtorFields}
use bfl.Typ
use bfl.Typ.Pool
use bfl.Typ.Pool.{Types}

-- `other` is a value of a type that the check does not take apart.
mutual
  pub data Value : Type 0 where
    unit : Value
    bool : Bool → Value
    char : ℕ → Value
    string : List ℕ → Value
    int : TypedIntegerValue → Value
    opaque other : ℕ → Value
    struct : ValueFields → Value
    enum : ℕ → Value
    enum_with : ℕ → Value → Value

  pub data ValueFields : Type 0 where
    end : ValueFields
    field : ℕ → Value → ValueFields → ValueFields

-- The types for which `generate_constructors_for_type` has no case.
abbrev pub Unknown : Typ.Ty → Type 0
Unknown (Typ.float _) = Unit
Unknown (Typ.pointer _) = Unit
Unknown (Typ.reference _) = Unit
Unknown (Typ.enum_variant _) = Unit
Unknown (Typ.never _) = Unit
Unknown (Typ.opaque_alias _) = Unit
Unknown (Typ.generic _) = Unit
Unknown (Typ.function_type _) = Unit
Unknown (Typ.recursive_reference _) = Unit
Unknown _ = ⊥

abbrev mutual
  pub HasType : Types → Value → Typ.TypeId → Type 0
  HasType pool unit id =
      (id ≢ Typ.string_type_id) × (i : Typ.TypeDefnInfo) × (Pool.get pool id ≡ ok (Typ.unit i))
  HasType pool (bool b) id =
      (id ≢ Typ.string_type_id) × (i : Typ.TypeDefnInfo) × (Pool.get pool id ≡ ok (Typ.bool i))
  HasType pool (char c) id =
      (id ≢ Typ.string_type_id) × (i : Typ.TypeDefnInfo) × (Pool.get pool id ≡ ok (Typ.char i))
  HasType pool (string s) id = id ≡ Typ.string_type_id
  HasType pool (int v) id =
      (id ≢ Typ.string_type_id) × (i : Typ.IntegerType) × (Pool.get pool id ≡ ok (Typ.integer i))
  HasType pool (opaque x) id =
      (id ≢ Typ.string_type_id)
      × (i : Typ.TypeVariable) × (Pool.get pool id ≡ ok (Typ.type_variable i))
  HasType pool (other x) id =
      (id ≢ Typ.string_type_id) × (t : Typ.Ty) × (Pool.get pool id ≡ ok t) × Unknown t
  HasType pool (struct vs) id =
      (id ≢ Typ.string_type_id)
      × (s : Typ.StructType) × (Pool.get pool id ≡ ok (Typ.struct s))
      × HaveTypes pool vs s.fields
  HasType pool (enum n) id =
      (id ≢ Typ.string_type_id)
      × (e : Typ.TypedEnum) × (Pool.get pool id ≡ ok (Typ.enum e))
      × (k : ℕ) × (v : Typ.TypedEnumVariant) × (get_elem? e.variants k ≡ some v)
      × (v.name ≡ n)
      × (v.payload ≡ none)
  HasType pool (enum_with n x) id =
      (id ≢ Typ.string_type_id)
      × (e : Typ.TypedEnum) × (Pool.get pool id ≡ ok (Typ.enum e))
      × (k : ℕ) × (v : Typ.TypedEnumVariant) × (get_elem? e.variants k ≡ some v)
      × (v.name ≡ n)
      × (payload : Typ.TypeId) × (v.payload ≡ some payload)
      × HasType pool x payload

  pub HaveTypes : Types → ValueFields → List Typ.StructTypeField → Type 0
  HaveTypes pool end [] = Unit
  HaveTypes pool end (f ∷ fs) = ⊥
  HaveTypes pool (field n v vs) [] = ⊥
  HaveTypes pool (field n v vs) (f ∷ fs) =
      (n ≡ f.name) × HasType pool v f.type_id × HaveTypes pool vs fs

-- No part of the value is of a type that the check does not take apart.
abbrev mutual
  pub Plain : Value → Type 0
  Plain (other x) = ⊥
  Plain (struct vs) = PlainFields vs
  Plain (enum_with n v) = Plain v
  Plain _ = Unit

  pub PlainFields : ValueFields → Type 0
  PlainFields end = Unit
  PlainFields (field n v vs) = Plain v × PlainFields vs

abbrev mutual
  pub Covers : PatternConstructor → Value → Type 0
  Covers Patterns.unit unit = Unit
  Covers Patterns.bool_false (bool false) = Unit
  Covers Patterns.bool_true (bool true) = Unit
  Covers Patterns.char (char c) = Unit
  Covers Patterns.string (string s) = Unit
  Covers Patterns.int (int v) = Unit
  Covers Patterns.type_variable (opaque x) = Unit
  Covers (Patterns.struct cs) (struct vs) = CoverFields cs vs
  Covers (Patterns.enum n) (enum m) = n ≡ m
  Covers (Patterns.enum_with n c) (enum_with m v) = (n ≡ m) × Covers c v
  Covers _ _ = ⊥

  pub CoverFields : CtorFields → ValueFields → Type 0
  CoverFields Patterns.end end = Unit
  CoverFields (Patterns.field n c cs) (field m v vs) = (n ≡ m) × Covers c v × CoverFields cs vs
  CoverFields _ _ = ⊥

abbrev pub find_value : ValueFields → ℕ → Option Value
find_value end name = none
find_value (field n v vs) name = if n == name then some v else find_value vs name

-- A pattern with no payload asks only for the tag, and a struct pattern for the fields that it names.
abbrev mutual
  pub Takes : TypedPattern → Value → Type 0
  Takes (Patterns.wildcard _) v = Unit
  Takes (Patterns.variable _ _) v = Unit
  Takes (Patterns.literal_unit _) unit = Unit
  Takes (Patterns.literal_bool b _) (bool c) = b ≡ c
  Takes (Patterns.literal_char a _) (char c) = a ≡ c
  Takes (Patterns.literal_integer a _) (int c) = a ≡ c
  Takes (Patterns.literal_string a _) (string s) = a ≡ s
  Takes (Patterns.enum_pattern head) (enum n) = n ≡ head.variant_tag_name
  Takes (Patterns.enum_pattern head) (enum_with n v) = n ≡ head.variant_tag_name
  Takes (Patterns.enum_pattern_with head p) (enum_with n v) =
      (n ≡ head.variant_tag_name) × Takes p v
  Takes (Patterns.struct_pattern _ ps _) (struct vs) = TakeFields ps vs
  Takes _ _ = ⊥

  pub TakeFields : PatternFields → ValueFields → Type 0
  TakeFields Patterns.end_pattern vs = Unit
  TakeFields (Patterns.field_pattern head p ps) vs =
      (v : Value) × (find_value vs head.name ≡ some v) × Takes p v × TakeFields ps vs

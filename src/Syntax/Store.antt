-- ===== src/Syntax/Store.antt =====
-- src/k1/parse.rs, `ParsedModule`: the definitions of a program are added with the next id, and read
-- by their ids.
use bfl.Span.{SpanId}
use bfl.Prelude.{
  get_elem?-append_end, arith, ◌≡◌, List, ◌<◌, [], ◌∷◌, some, ◌++◌, none, length, u32, get_elem?,
  Option, ℕ,
}
use bfl.Syntax.Definitions
use bfl.Syntax.Pools
use bfl.Syntax.Program.{ParsedModule, get_pattern_span, get_type_expression_span}

module _ {I : Type 0} where
  unfoldable pub get_namespace : ParsedModule I → ℕ → Option Definitions.ParsedNamespace
  get_namespace m id = get_elem? m.namespaces id

  unfoldable pub add_namespace : ParsedModule I → Definitions.ParsedNamespace → ParsedModule I × ℕ
  add_namespace m d =
      let id = u32 (length m.namespaces) in
      (record m { namespaces = m.namespaces ++ record d { id = id } ∷ [] }, id)

  unfoldable pub get_function : ParsedModule I → ℕ → Option Definitions.ParsedFunction
  get_function m id = get_elem? m.functions id

  unfoldable pub add_function : ParsedModule I → Definitions.ParsedFunction → ParsedModule I × ℕ
  add_function m d =
      let id = u32 (length m.functions) in
      (record m { functions = m.functions ++ record d { id = id } ∷ [] }, id)

  unfoldable pub get_constant : ParsedModule I → ℕ → Option Definitions.ParsedConstant
  get_constant m id = get_elem? m.constants id

  unfoldable pub add_constant : ParsedModule I → Definitions.ParsedConstant → ParsedModule I × ℕ
  add_constant m d =
      let id = u32 (length m.constants) in
      (record m { constants = m.constants ++ record d { id = id } ∷ [] }, id)

  unfoldable pub get_ability : ParsedModule I → ℕ → Option Definitions.ParsedAbility
  get_ability m id = get_elem? m.abilities id

  unfoldable pub add_ability : ParsedModule I → Definitions.ParsedAbility → ParsedModule I × ℕ
  add_ability m d =
      let id = u32 (length m.abilities) in
      (record m { abilities = m.abilities ++ record d { id = id } ∷ [] }, id)

  unfoldable pub get_ability_impl :
      ParsedModule I → ℕ → Option Definitions.ParsedAbilityImplementation
  get_ability_impl m id = get_elem? m.ability_impls id

  unfoldable pub add_ability_impl :
      ParsedModule I → Definitions.ParsedAbilityImplementation → ParsedModule I × ℕ
  add_ability_impl m d =
      let id = u32 (length m.ability_impls) in
      (record m { ability_impls = m.ability_impls ++ record d { id = id } ∷ [] }, id)

  unfoldable pub get_type_defn : ParsedModule I → ℕ → Option Definitions.ParsedTypeDefn
  get_type_defn m id = get_elem? m.type_defns id

  unfoldable pub add_typedefn : ParsedModule I → Definitions.ParsedTypeDefn → ParsedModule I × ℕ
  add_typedefn m d =
      let id = u32 (length m.type_defns) in
      (record m { type_defns = m.type_defns ++ record d { id = id } ∷ [] }, id)

  unfoldable pub get_span_for_id : ParsedModule I → Definitions.ParsedId → Option SpanId
  unfolding get_namespace get_function get_constant get_ability get_ability_impl get_type_defn
      get_pattern_span get_type_expression_span Pools.get_span
  get_span_for_id m (Definitions.function id) = elim (get_function m id) [
    | none ↦ none
    | some d ↦ some d.span
  ]
  get_span_for_id m (Definitions.namespace id) = elim (get_namespace m id) [
    | none ↦ none
    | some d ↦ some d.span
  ]
  get_span_for_id m (Definitions.constant id) = elim (get_constant m id) [
    | none ↦ none
    | some d ↦ some d.span
  ]
  get_span_for_id m (Definitions.ability id) = elim (get_ability m id) [
    | none ↦ none
    | some d ↦ some d.span
  ]
  get_span_for_id m (Definitions.ability_impl id) = elim (get_ability_impl m id) [
    | none ↦ none
    | some d ↦ some d.span
  ]
  get_span_for_id m (Definitions.type_defn id) = elim (get_type_defn m id) [
    | none ↦ none
    | some d ↦ some d.span
  ]
  get_span_for_id m (Definitions.expression id) = Pools.get_span m.expressions id
  get_span_for_id m (Definitions.type_expression id) = get_type_expression_span m id
  get_span_for_id m (Definitions.pattern_ id) = get_pattern_span m id

-- A new element of a list that fits 32-bit ids is read back by its id.
read_back :
    {A : Type 0} (xs : List A) (a : A)
    → length xs < 4294967296
    → get_elem? (xs ++ a ∷ []) (u32 (length xs)) ≡ some a
read_back xs a h =
    let here : u32 (length xs) ≡ length xs = omega (arith, h) in rw here (get_elem?-append_end xs a)

-- Below 2 ^ 32 definitions of a kind, a definition that is added is read back by the id that it is
-- given, with that id in it.
pub get-add :
    {I : Type 0} (m : ParsedModule I) (n : Definitions.ParsedNamespace)
    (f : Definitions.ParsedFunction) (c : Definitions.ParsedConstant)
    (a : Definitions.ParsedAbility) (i : Definitions.ParsedAbilityImplementation)
    (t : Definitions.ParsedTypeDefn)
    → length m.namespaces < 4294967296
    → length m.functions < 4294967296
    → length m.constants < 4294967296
    → length m.abilities < 4294967296
    → length m.ability_impls < 4294967296
    → length m.type_defns < 4294967296
    → (get_namespace (add_namespace m n).0 (add_namespace m n).1
        ≡ some (record n { id = (add_namespace m n).1 }))
      × (get_function (add_function m f).0 (add_function m f).1
          ≡ some (record f { id = (add_function m f).1 }))
      × (get_constant (add_constant m c).0 (add_constant m c).1
          ≡ some (record c { id = (add_constant m c).1 }))
      × (get_ability (add_ability m a).0 (add_ability m a).1
          ≡ some (record a { id = (add_ability m a).1 }))
      × (get_ability_impl (add_ability_impl m i).0 (add_ability_impl m i).1
          ≡ some (record i { id = (add_ability_impl m i).1 }))
      × (get_type_defn (add_typedefn m t).0 (add_typedefn m t).1
          ≡ some (record t { id = (add_typedefn m t).1 }))
unfolding get_namespace add_namespace get_function add_function get_constant add_constant
    get_ability add_ability get_ability_impl add_ability_impl get_type_defn add_typedefn
get-add m n f c a i t hn hf hc ha hi ht = (
  read_back m.namespaces _ hn,
  read_back m.functions _ hf,
  read_back m.constants _ hc,
  read_back m.abilities _ ha,
  read_back m.ability_impls _ hi,
  read_back m.type_defns _ ht,
)

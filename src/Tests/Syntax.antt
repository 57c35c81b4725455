-- ===== src/Tests/Syntax.antt =====
-- The theorems about the parsed program of src/k1/parse.rs at a program with no definitions.
use bfl.Syntax.Store.{get-add}
use bfl.Prelude.{refl, map, ℕ, All, List, arith, some, true, false, ◌∷◌, none, ◌≡◌, []}
use bfl.Span
use bfl.Syntax.Definitions
use bfl.Syntax.Program.{Line, len_utf8, ParsedModule}
use bfl.Syntax.Store
use bfl.Syntax.Lines.{
  byte_len, StandsIn, line_at, IsAscii, lines_loop, make_source, make_source-StandIn,
}

abbrev program : ParsedModule (Unit {0})
program = record {
  name = [];
  name_id = 0;
  spans = record { spans = Span.no_span ∷ [] };
  functions = [];
  constants = [];
  type_defns = [];
  namespaces = [];
  abilities = [];
  ability_impls = [];
  sources = [];
  identifiers = tt;
  expressions = record { expressions = []; type_hints = [] };
  type_expressions = record { type_expressions = [] };
  patterns = record { patterns = [] };
  errors = [];
}

abbrev n : Definitions.ParsedNamespace
n = record { name = 1; definitions = []; id = 9; span = 0 }

abbrev f : Definitions.ParsedFunction
f = record {
  name = 2;
  type_args = [];
  args = [];
  ret_type = none;
  block = none;
  span = 0;
  linkage = Definitions.external;
  id = 9;
}

abbrev c : Definitions.ParsedConstant
c = record { name = 3; ty = 0; value_expr = 0; span = 0; id = 9 }

abbrev a : Definitions.ParsedAbility
a = record { name = 4; functions = []; span = 0; id = 9 }

abbrev i : Definitions.ParsedAbilityImplementation
i = record { ability_name = 4; target_type = 0; functions = []; id = 9; auto = false; span = 0 }

abbrev t : Definitions.ParsedTypeDefn
t = record {
  name = 5;
  value_expr = 0;
  type_params = [];
  span = 0;
  id = 9;
  flags = Definitions.new_flags true false;
}

get-add_example :
    (Store.get_namespace (Store.add_namespace program n).0 0 ≡ some (record n { id = 0 }))
    × (Store.get_function (Store.add_function program f).0 0 ≡ some (record f { id = 0 }))
    × (Store.get_constant (Store.add_constant program c).0 0 ≡ some (record c { id = 0 }))
    × (Store.get_ability (Store.add_ability program a).0 0 ≡ some (record a { id = 0 }))
    × (Store.get_ability_impl (Store.add_ability_impl program i).0 0 ≡ some (record i { id = 0 }))
    × (Store.get_type_defn (Store.add_typedefn program t).0 0 ≡ some (record t { id = 0 }))
unfolding Store.add_namespace Store.add_function Store.add_constant Store.add_ability
    Store.add_ability_impl Store.add_typedefn
get-add_example =
    get-add program n f c a i t (omega arith) (omega arith) (omega arith) (omega arith)
      (omega arith) (omega arith)

-- Two lines, the first with a carriage return, and a last one that is not broken.
abbrev three_lines : List ℕ
three_lines = 97 ∷ 98 ∷ 13 ∷ 10 ∷ 99 ∷ 10 ∷ 100 ∷ []

three_lines-IsAscii : IsAscii three_lines
three_lines-IsAscii = omega arith

abbrev start_and_text : Line → ℕ × List ℕ
start_and_text l = (l.start_char, l.content)

two_lines :
    map start_and_text (make_source 0 [] [] three_lines).lines
    ≡ (0, 97 ∷ 98 ∷ []) ∷ (4, 99 ∷ []) ∷ []
unfolding make_source lines_loop line_at byte_len len_utf8
two_lines = refl

make_source-StandIn_example : All (StandsIn three_lines) (make_source 0 [] [] three_lines).lines
make_source-StandIn_example =
    make_source-StandIn 0 [] [] three_lines three_lines-IsAscii (omega arith)

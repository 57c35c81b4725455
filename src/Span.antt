-- ===== src/Span.antt =====
-- src/k1/lex.rs, `Span` and `Spans`: the extent of a token in its file, and the pool of spans. A
-- `SpanId` is the index of a span in the pool.
pub mod Pool
use bfl.Prelude.{
  ℕ, ◌+◌, ◌≡◌, refl, Bool, true, false, List, [], ◌∷◌, ◌++◌, Option, none, some, ◌==◌,
  if◌then◌else◌, u32, sub32, length, get_elem?, arith, ◌<◌, ◌≤◌,
}

pub record Span : Type 0 where
  pub file_id : ℕ
  pub start : ℕ
  pub len : ℕ

-- `Span::NONE`
abbrev pub no_span : Span
no_span = record { file_id = 0; start = 0; len = 0 }

unfoldable pub end : Span → ℕ
end s = u32 (s.start + s.len)

unfoldable pub extended : Span → Span → Span
unfolding end
extended s other = record s { len = sub32 (end other) s.start }

abbrev pub SpanId : Type 0
SpanId = ℕ

pub record Spans : Type 0 where
  pub spans : List Span

-- `Spans::new`
unfoldable pub new : Spans
new = record { spans = no_span ∷ [] }

-- `Spans::add`; the index is cast to `u32`.
unfoldable pub add : Spans → Span → Spans × SpanId
add p span = (record { spans = p.spans ++ span ∷ [] }, u32 (length p.spans))

-- `Spans::get`; `none` is the panic of an index out of bounds.
unfoldable pub get : Spans → SpanId → Option Span
get p id = get_elem? p.spans id

-- `Spans::extend`
unfoldable pub extend : Spans → SpanId → SpanId → Option (Spans × SpanId)
unfolding get add extended
extend p id1 id2 = elim (get p id1) [
  | none ↦ none
  | some span1 ↦ elim (get p id2) [ none ↦ none | some span2 ↦ some (add p (extended span1 span2)) ]
]

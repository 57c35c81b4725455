-- ===== src/Span/Pool.antt =====
-- src/k1/lex.rs, `Spans`: the pool only grows, and an id that was given out keeps its span.
use bfl.Prelude.{
  ◌+◌, ◌≡◌, refl, [], ◌∷◌, some, u32, length, arith, ◌<◌, ◌≤◌, ◌∙◌, get_elem?-append_end,
  get_elem?-append_lt, lt_of_get_elem?,
}
use bfl.Span.{Span, SpanId, Spans, end, extended, add, get}

-- The new id reads back the span, as long as ids fit in 32 bits.
pub get-add_self :
    (p : Spans) (span : Span)
    → length p.spans < 4294967296
    → get (add p span).0 (add p span).1 ≡ some span
unfolding get add
get-add_self p span h =
    let e : u32 (length p.spans) ≡ length p.spans = omega arith in
    rw e (get_elem?-append_end p.spans span)

-- Ids that were given out before keep their spans.
pub get-add_old :
    (p : Spans) (span s : Span) (id : SpanId) → get p id ≡ some s → get (add p span).0 id ≡ some s
unfolding get add
get-add_old p span s id h =
    get_elem?-append_lt p.spans (span ∷ []) id (lt_of_get_elem? p.spans id h) ∙ h

-- The extension of one span to another that ends no earlier, below 2 ^ 32, begins where the first begins and ends
-- where the second ends.
pub end-extended :
    (s other : Span)
    → s.start + s.len ≤ other.start + other.len
    → other.start + other.len < 4294967296
    → (extended s other).start ≡ s.start × end (extended s other) ≡ end other
unfolding extended
end-extended s other h k = (refl, unfold end in omega arith)

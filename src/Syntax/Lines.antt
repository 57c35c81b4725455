-- ===== src/Syntax/Lines.antt =====
-- src/k1/parse.rs, `Source::make` and `get_line_for_span`: the lines of a source.
use bfl.Prelude.{
  append-nil, append_assoc, sym, ◌∙◌, inr, All-append, inl, Bool-cases, false, some, ◌&&◌, refl,
  leb, ap, suc, length-append, if◌then◌else◌, arith, ◌-◌, true, length, none, ◌<◌, ◌+◌, ◌++◌, ◌==◌,
  [], All, ◌∷◌, Option, ◌≡◌, u32, ℕ, List,
}
use bfl.Span.{Span}
use bfl.Syntax.Program.{Line, Source, len_utf8}

-- `String::len`
unfoldable pub byte_len : List ℕ → ℕ
unfolding len_utf8
byte_len [] = 0
byte_len (c ∷ text) = len_utf8 c + byte_len text

-- The line that ends at the index; the difference is one of 64-bit words, cut to 32 bits.
unfoldable pub line_at : ℕ → List ℕ → List Line → Line
unfolding byte_len
line_at c_index buf lines = record {
  start_char = u32 (c_index + 18446744073709551616 - byte_len buf);
  line_index = u32 (length lines);
  content = buf;
}

-- A text behind the last line break gives no line.
unfoldable pub lines_loop : ℕ → List ℕ → List Line → List ℕ → List Line
unfolding line_at
lines_loop c_index buf lines [] = lines
lines_loop c_index buf lines (c ∷ []) = elim (c == 10) [
  | true ↦ lines ++ line_at c_index buf lines ∷ []
  | false ↦ lines
]
lines_loop c_index buf lines (c ∷ d ∷ text) = elim (c == 10) [
  | true ↦ lines_loop (suc c_index) [] (lines ++ line_at c_index buf lines ∷ []) (d ∷ text)
  | false ↦ elim (c == 13 && d == 10) [
    | true ↦ lines_loop (suc (suc c_index)) [] (lines ++ line_at c_index buf lines ∷ []) text
    | false ↦ lines_loop (suc c_index) (buf ++ c ∷ []) lines (d ∷ text)
  ]
]

unfoldable pub make_source : ℕ → List ℕ → List ℕ → List ℕ → Source
unfolding lines_loop
make_source file_id directory filename content = record {
  file_id = file_id;
  directory = directory;
  filename = filename;
  content = content;
  lines = lines_loop 0 [] [] content;
}

unfoldable pub end_char : Line → ℕ
unfolding byte_len
end_char line = u32 (line.start_char + u32 (byte_len line.content))

unfoldable pub get_line_for_span : List Line → Span → Option Line
unfolding end_char
get_line_for_span [] span = none
get_line_for_span (line ∷ lines) span =
    let later = get_line_for_span lines span in
    if leb line.start_char span.start && leb span.start (end_char line) then some line else later

-- The line stands in the text, as long as its start says behind the beginning.
abbrev pub StandsIn : List ℕ → Line → Type 0
StandsIn text line =
    (before after : List ℕ) × (text ≡ before ++ line.content ++ after)
    × (length before ≡ line.start_char)

abbrev pub IsAscii : List ℕ → Type 0
IsAscii = All (λ c. c < 128)

byte_len-ascii : (text : List ℕ) → IsAscii text → byte_len text ≡ length text
unfolding byte_len len_utf8
byte_len-ascii [] h = refl
byte_len-ascii (c ∷ text) h = ground (arith, byte_len-ascii text h.1, h.0)

line_at-StandsIn :
    (text before buf after : List ℕ) (lines : List Line) (i : ℕ)
    → text ≡ before ++ buf ++ after
    → i ≡ length before + length buf
    → IsAscii buf
    → length text < 4294967296
    → StandsIn text (line_at i buf lines)
unfolding line_at
line_at-StandsIn text before buf after lines i e h ascii short =
    let long : length text ≡ length (before ++ buf ++ after) = ap length e in
    let sum : length (before ++ buf ++ after) ≡ length (before ++ buf) + length after =
      length-append (before ++ buf) after in
    let sum' : length (before ++ buf) ≡ length before + length buf = length-append before buf in
    let bytes = byte_len-ascii buf ascii in
    (before, after, e, omega (arith, long, sum, sum', h, short, bytes))

-- The text read so far, with what is read next.
moved :
    (text read next rest : List ℕ)
    → text ≡ read ++ (next ++ rest)
    → text ≡ read ++ next ++ [] ++ rest
moved text read next rest e =
    e ∙ sym (append_assoc read next rest) ∙ ap (λ xs. xs ++ rest) (sym (append-nil (read ++ next)))

lines_loop-StandIn :
    (text before buf rest : List ℕ) (lines : List Line) (i : ℕ)
    → text ≡ before ++ buf ++ rest
    → i ≡ length before + length buf
    → IsAscii buf
    → IsAscii rest
    → length text < 4294967296
    → All (StandsIn text) lines
    → All (StandsIn text) (lines_loop i buf lines rest)
unfolding lines_loop
lines_loop-StandIn text before buf [] lines i e h a b short all = all
lines_loop-StandIn text before buf (c ∷ []) lines i e h a b short all =
    elim (Bool-cases (c == 10)) [
      | inl q ↦
          rw (lines_loop, q)
            (All-append (StandsIn text) lines _ all
              (line_at-StandsIn text before buf (c ∷ []) lines i e h a short, tt))
      | inr q ↦ rw (lines_loop, q) all
    ]
lines_loop-StandIn text before buf (c ∷ d ∷ rest) lines i e h a b short all =
    let pushed : All (StandsIn text) (lines ++ line_at i buf lines ∷ []) =
      All-append (StandsIn text) lines (line_at i buf lines ∷ []) all
        (line_at-StandsIn text before buf (c ∷ d ∷ rest) lines i e h a short, tt) in
    let read : length (before ++ buf) ≡ length before + length buf = length-append before buf in
    elim (Bool-cases (c == 10)) [
      | inl q ↦
          rw (lines_loop, q)
            (lines_loop-StandIn text (before ++ buf ++ c ∷ []) [] (d ∷ rest)
              (lines ++ line_at i buf lines ∷ []) (suc i)
              (moved text (before ++ buf) (c ∷ []) (d ∷ rest) e)
              (omega (arith, read, h, length-append (before ++ buf) (c ∷ []))) tt b.1 short pushed)
      | inr q ↦ elim (Bool-cases (c == 13 && d == 10)) [
        | inl q' ↦
            rw (lines_loop, q, q')
              (lines_loop-StandIn text (before ++ buf ++ c ∷ d ∷ []) [] rest
                (lines ++ line_at i buf lines ∷ []) (suc (suc i))
                (moved text (before ++ buf) (c ∷ d ∷ []) rest e)
                (omega (arith, read, h, length-append (before ++ buf) (c ∷ d ∷ []))) tt b.1.1 short
                pushed)
        | inr q' ↦
            rw (lines_loop, q, q')
              (lines_loop-StandIn text before (buf ++ c ∷ []) (d ∷ rest) lines (suc i)
                (e
                  ∙ sym (append_assoc (before ++ buf) (c ∷ []) (d ∷ rest))
                  ∙ ap (λ xs. xs ++ d ∷ rest) (append_assoc before buf (c ∷ [])))
                (omega (arith, h, length-append buf (c ∷ [])))
                (All-append (λ x. x < 128) buf (c ∷ []) a (b.0, tt)) b.1 short all)
      ]
    ]

-- The lines of an ASCII text below 2 ^ 32 characters stand in it where they say that they begin.
pub make_source-StandIn :
    (file_id : ℕ) (directory filename content : List ℕ)
    → IsAscii content
    → length content < 4294967296
    → All (StandsIn content) (make_source file_id directory filename content).lines
unfolding make_source
make_source-StandIn file_id directory filename content ascii short =
    lines_loop-StandIn content [] [] content [] 0 refl refl tt ascii short tt

-- ===== src/Prefixset/Rendered.antt =====
-- Texts whose lines end in a newline, with a carriage return before it or without.
use cubic_go_playground.Prelude.{
  ℕ, ◌-◌, ◌≡◌, refl, sym, ap, ◌∙◌, Bool, true, false, ◌||◌, List, [], ◌∷◌, ◌++◌, Option, none, some,
  Bytes, length, ◌==◌, if◌then◌else◌, arith, append_assoc, length-append, take-append,
}
use cubic_go_playground.Prefixset.Lines.{
  lines, first, last, drop_last, strip_cr, strip_newline, payload,
}

abbrev pub has_newline : Bytes → Bool
has_newline [] = false
has_newline (c ∷ cs) = (c == b'\n') || has_newline cs

-- A line without its end: no newline in it, and no carriage return at its end.
abbrev pub IsLine : Bytes → Type 0
IsLine s = (has_newline s ≡ false) × ((last s == b'\r') ≡ false)

-- What is parsed of a line: nothing of an empty line or of a comment.
unfoldable pub content : Bytes → Option Bytes
content s = if (length s == 0) || (first s == b'#') then none else some s

abbrev pub line_end : Bool → Bytes
line_end crlf = if crlf then b'\r' ∷ b'\n' ∷ [] else b'\n' ∷ []

-- The lines, each with whether it has a carriage return.
abbrev pub render : List (Bytes × Bool) → Bytes
render [] = []
render (l ∷ ls) = (l.0 ++ line_end l.1) ++ render ls

lines-line :
    (s t : Bytes) → has_newline s ≡ false → lines (s ++ b'\n' ∷ t) ≡ (s ++ b'\n' ∷ []) ∷ lines t
unfolding lines
lines-line [] t h = refl
lines-line (c ∷ s) t h = ground (arith, lines-line s t)

last-snoc : (s : Bytes) (c : ℕ) → last (s ++ c ∷ []) ≡ c
last-snoc [] c = refl
last-snoc (d ∷ []) c = refl
last-snoc (d ∷ e ∷ s) c = last-snoc (e ∷ s) c

drop_last-snoc : (s : Bytes) (c : ℕ) → drop_last (s ++ c ∷ []) ≡ s
drop_last-snoc s c =
    take-append (length (s ++ c ∷ []) - 1) s (c ∷ []) (omega (arith, length-append s (c ∷ [])))

strip_newline-snoc :
    (s : Bytes) → strip_newline (s ++ b'\n' ∷ []) ≡ (if length s == 0 then none else strip_cr s)
strip_newline-snoc s = rw (last-snoc s b'\n', drop_last-snoc s b'\n')

strip_cr-snoc : (s : Bytes) → strip_cr (s ++ b'\r' ∷ []) ≡ (if length s == 0 then none else some s)
strip_cr-snoc s = rw (last-snoc s b'\r', drop_last-snoc s b'\r')

strip_cr-line : (s : Bytes) → (last s == b'\r') ≡ false → strip_cr s ≡ some s
strip_cr-line s h = ground arith

-- Either end of a line that is not empty is taken off.
strip_newline-line_end :
    (c : ℕ) (cs : Bytes) (crlf : Bool)
    → IsLine (c ∷ cs)
    → strip_newline ((c ∷ cs) ++ line_end crlf) ≡ some (c ∷ cs)
strip_newline-line_end c cs false h =
    strip_newline-snoc (c ∷ cs) ∙ ground (arith, strip_cr-line (c ∷ cs))
strip_newline-line_end c cs true h =
    ap strip_newline (sym (append_assoc (c ∷ cs) (b'\r' ∷ []) (b'\n' ∷ [])))
    ∙ strip_newline-snoc ((c ∷ cs) ++ b'\r' ∷ [])
    ∙ ground (arith, strip_cr-snoc (c ∷ cs))

pub payload-line_end :
    (s : Bytes) (crlf : Bool) → IsLine s → payload (s ++ line_end crlf) ≡ content s
unfolding payload content
payload-line_end [] false h = refl
payload-line_end [] true h = refl
payload-line_end (c ∷ cs) crlf h = ground (arith, strip_newline-line_end c cs crlf h)

has_newline-cr : (s : Bytes) → has_newline s ≡ false → has_newline (s ++ b'\r' ∷ []) ≡ false
has_newline-cr [] h = refl
has_newline-cr (c ∷ s) h = ground (arith, has_newline-cr s)

pub lines-line_end :
    (s t : Bytes) (crlf : Bool)
    → has_newline s ≡ false
    → lines ((s ++ line_end crlf) ++ t) ≡ (s ++ line_end crlf) ∷ lines t
lines-line_end s t false h = ap lines (append_assoc s (b'\n' ∷ []) t) ∙ lines-line s t h
lines-line_end s t true h =
    let s' : Bytes = s ++ b'\r' ∷ [] in
    let whole : s ++ b'\r' ∷ b'\n' ∷ [] ≡ s' ++ b'\n' ∷ [] =
      sym (append_assoc s (b'\r' ∷ []) (b'\n' ∷ [])) in
    ap (λ l. lines (l ++ t)) whole
    ∙ ap lines (append_assoc s' (b'\n' ∷ []) t)
    ∙ lines-line s' t (has_newline-cr s h)
    ∙ ap (λ l. l ∷ lines t) (sym whole)

abbrev pub AllLines : List (Bytes × Bool) → Type 0
AllLines [] = Unit
AllLines (l ∷ ls) = IsLine l.0 × AllLines ls

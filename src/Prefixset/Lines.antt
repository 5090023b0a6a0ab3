-- ===== src/Prefixset/Lines.antt =====
-- The lines of a text, and what the loops of prefixset (bart.go, ipset.go and prefixset.go) keep of
-- a line before they parse it.
use cubic_go_playground.Prelude.{
  ℕ, ◌-◌, List, [], ◌∷◌, Option, none, some, Bytes, length, take, ◌==◌, ◌||◌, if◌then◌else◌,
}

-- `strings.Lines`: every line keeps its newline; there is no empty line at the end.
abbrev pub onto_first : ℕ → List Bytes → List Bytes
onto_first c [] = (c ∷ []) ∷ []
onto_first c (l ∷ ls) = (c ∷ l) ∷ ls

unfoldable pub lines : Bytes → List Bytes
lines [] = []
lines (c ∷ cs) = let rest = lines cs in if c == b'\n' then (c ∷ []) ∷ rest else onto_first c rest

-- `line[0]` and `line[len(line)-1]`, which are read only of a line that is not empty.
abbrev pub first : Bytes → ℕ
first [] = 0
first (c ∷ cs) = c

abbrev pub last : Bytes → ℕ
last [] = 0
last (c ∷ []) = c
last (c ∷ d ∷ cs) = last (d ∷ cs)

abbrev pub drop_last : Bytes → Bytes
drop_last line = take (length line - 1) line

abbrev pub strip_cr : Bytes → Option Bytes
strip_cr line =
    if last line == b'\r'
    then (let line' = drop_last line in if length line' == 0 then none else some line')
    else some line

abbrev pub strip_newline : Bytes → Option Bytes
strip_newline line =
    if last line == b'\n'
    then (let line' = drop_last line in if length line' == 0 then none else strip_cr line')
    else some line

-- None where the loops continue with the next line.
unfoldable pub payload : Bytes → Option Bytes
payload line = if (length line == 0) || (first line == b'#') then none else strip_newline line

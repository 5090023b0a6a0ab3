-- ===== src/Prefixset/Tests.antt =====
-- Runs of prefixset at concrete inputs. Two prefixes stand for all: a prefix is a flag that says
-- whether it is that of all IPv6 addresses or that of all IPv4 addresses.
use cubic_go_playground.Prelude.{
  ◌≡◌, refl, Bool, true, false, List, [], ◌∷◌, ◌++◌, Bytes, codes, length, ◌==◌, if◌then◌else◌,
}
use cubic_go_playground.Prelude.Result.{Result, err, ok, and_then}
use cubic_go_playground.Prefixset.Lines.{lines, payload}
use cubic_go_playground.Prefixset.Sets.{
  bart_insert_lines, bart_insert_from_text, bart_from_text, ip_set_lines, ip_set_from_text,
  prefix_set_from_text, ip_set_to_text, prefix_set_to_text,
}
use cubic_go_playground.Prefixset.Rendered.{AllLines, render, content}
use cubic_go_playground.Prefixset.Texts.{contents, each, parse_then}
use cubic_go_playground.Prefixset.Roundtrip.{
  from_text-lines, from_text-to_text, PrintsLine, add_all,
}

abbrev append_to : Bool → Bytes → Bytes
append_to v6 b = b ++ (if v6 then codes "::/0" else codes "0.0.0.0/0")

-- The error is the text that was not parsed.
abbrev parse_prefix : Bytes → Result Bytes Bool
parse_prefix t = if length t == 4 then ok true else if length t == 9 then ok false else err t

abbrev insert : Bool → List Bool → List Bool
insert p s = p ∷ s

-- A builder that holds two prefixes at most.
abbrev add : Bool → List Bool → Result Bytes (List Bool)
add p s = if length s == 2 then err (codes "full") else ok (p ∷ s)

read_all :
    bart_from_text parse_prefix insert [] (codes "# all\r\n\r\n::/0\n\n0.0.0.0/0")
    ≡ ok (false ∷ true ∷ [])
unfolding bart_from_text bart_insert_from_text bart_insert_lines lines payload
read_all = refl

-- A carriage return at the end of the text is kept.
unended :
    ip_set_from_text parse_prefix insert (λ s. ok s) [] (codes "::/0\n0.0.0.0/0\r")
    ≡ err (codes "0.0.0.0/0\r")
unfolding ip_set_from_text ip_set_lines lines payload
unended = refl

abbrev two_lines : List (Bytes × Bool)
two_lines = (codes "::/0", true) ∷ (codes "# 4", false) ∷ (codes "0.0.0.0/0", false) ∷ []

two_lines-AllLines : AllLines two_lines
two_lines-AllLines = ((refl, refl), ((refl, refl), ((refl, refl), tt)))

from_text-lines_example :
    (bart_from_text parse_prefix insert [] (render two_lines)
      ≡ each (parse_then parse_prefix (λ p s. ok (insert p s))) (contents two_lines) [])
    × (ip_set_from_text parse_prefix insert (λ s. ok s) [] (render two_lines)
        ≡ and_then
            (each (parse_then parse_prefix (λ p b. ok (insert p b))) (contents two_lines) [])
            (λ s. ok s))
    × (prefix_set_from_text parse_prefix add (λ s. s) [] (render two_lines)
        ≡ and_then (each (parse_then parse_prefix add) (contents two_lines) []) (λ s. ok s))
from_text-lines_example =
    from_text-lines parse_prefix insert insert (λ s. ok s) add (λ s. s) two_lines [] [] []
      two_lines-AllLines

append_to-PrintsLine : PrintsLine append_to
unfolding content
append_to-PrintsLine true = ((refl, refl), refl, λ b. refl)
append_to-PrintsLine false = ((refl, refl), refl, λ b. refl)

parse_prefix-text : (p : Bool) → parse_prefix (append_to p []) ≡ ok p
parse_prefix-text true = refl
parse_prefix-text false = refl

from_text-to_text_example :
    (ip_set_from_text parse_prefix insert
        (λ s. ok s)
        []
        (ip_set_to_text append_to (true ∷ false ∷ []) [])
      ≡ ok (add_all insert (true ∷ false ∷ []) []))
    × (prefix_set_from_text parse_prefix add
          (λ s. s)
          []
          (prefix_set_to_text append_to (true ∷ false ∷ []) [])
        ≡ and_then (each add (true ∷ false ∷ []) []) (λ s. ok s))
from_text-to_text_example =
    from_text-to_text append_to parse_prefix parse_prefix-text append_to-PrintsLine insert
      (λ s. ok s) add (λ s. s) (true ∷ false ∷ []) [] []

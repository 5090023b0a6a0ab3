-- ===== src/Prefixset/Sets.antt =====
-- The functions of prefixset: `BARTFromText` and `bartInsertFromText` (bart.go), `IPSetFromText` and
-- `IPSetToText` (ipset.go), `PrefixSetFromText` and `PrefixSetToText` (prefixset.go). Prefixes, their
-- parser and printer, the sets and their builders are parameters.
use cubic_go_playground.Prelude.{List, [], ◌∷◌, ◌++◌, none, some, Bytes}
use cubic_go_playground.Prelude.Result.{Result, err, ok}
use cubic_go_playground.Prefixset.Lines.{lines, payload}

module _ {E P S : Type 0} (parse_prefix : Bytes → Result E P) where
  module _ (insert : P → S → S) where
    unfoldable pub bart_insert_lines : List Bytes → S → Result E S
    bart_insert_lines [] s = ok s
    bart_insert_lines (line ∷ rest) s = elim (payload line) [
      | none ↦ bart_insert_lines rest s
      | some line' ↦ elim (parse_prefix line') [
        | err e ↦ err e
        | ok prefix ↦ bart_insert_lines rest (insert prefix s)
      ]
    ]

    unfoldable pub bart_insert_from_text : S → Bytes → Result E S
    bart_insert_from_text s text = bart_insert_lines (lines text) s

    -- `empty` is the zero value of the table.
    unfoldable pub bart_from_text : S → Bytes → Result E S
    bart_from_text empty text = elim (bart_insert_from_text empty text) [
      | err e ↦ err e
      | ok s ↦ ok s
    ]

  module _ {B : Type 0} (add_prefix : P → B → B) (ip_set : B → Result E S) where
    unfoldable pub ip_set_lines : List Bytes → B → Result E S
    ip_set_lines [] sb = ip_set sb
    ip_set_lines (line ∷ rest) sb = elim (payload line) [
      | none ↦ ip_set_lines rest sb
      | some line' ↦ elim (parse_prefix line') [
        | err e ↦ err e
        | ok prefix ↦ ip_set_lines rest (add_prefix prefix sb)
      ]
    ]

    unfoldable pub ip_set_from_text : B → Bytes → Result E S
    ip_set_from_text empty text = ip_set_lines (lines text) empty

  module _ {B : Type 0} (add : P → B → Result E B) (prefix_set : B → S) where
    unfoldable pub prefix_set_lines : List Bytes → B → Result E S
    prefix_set_lines [] sb = ok (prefix_set sb)
    prefix_set_lines (line ∷ rest) sb = elim (payload line) [
      | none ↦ prefix_set_lines rest sb
      | some line' ↦ elim (parse_prefix line') [
        | err e ↦ err e
        | ok prefix ↦ elim (add prefix sb) [ err e ↦ err e | ok sb' ↦ prefix_set_lines rest sb' ]
      ]
    ]

    unfoldable pub prefix_set_from_text : B → Bytes → Result E S
    prefix_set_from_text empty text = prefix_set_lines (lines text) empty

-- `append_to prefix b` is `prefix.AppendTo(b)`. The prefixes are those of `s.Prefixes()` or of
-- `s.AllCompact()`.
module _ {P : Type 0} (append_to : P → Bytes → Bytes) where
  unfoldable pub ip_set_to_text : List P → Bytes → Bytes
  ip_set_to_text [] b = b
  ip_set_to_text (prefix ∷ prefixes) b = ip_set_to_text prefixes (append_to prefix b ++ b'\n' ∷ [])

  unfoldable pub prefix_set_to_text : List P → Bytes → Bytes
  prefix_set_to_text [] b = b
  prefix_set_to_text (prefix ∷ prefixes) b =
      prefix_set_to_text prefixes (append_to prefix b ++ b'\n' ∷ [])

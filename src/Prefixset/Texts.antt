-- ===== src/Prefixset/Texts.antt =====
-- What the three readers make of a text of lines, and of the texts that the two printers write.
use cubic_go_playground.Prelude.{
  ◌≡◌, refl, ap, ◌∙◌, List, [], ◌∷◌, ◌++◌, Bool, Option, none, some, Bytes,
}
use cubic_go_playground.Prelude.Result.{Result, err, ok, and_then}
use cubic_go_playground.Prefixset.Lines.{lines, payload}
use cubic_go_playground.Prefixset.Sets.{bart_insert_lines, ip_set_lines, prefix_set_lines}
use cubic_go_playground.Prefixset.Rendered.{
  IsLine, AllLines, render, line_end, content, lines-line_end, payload-line_end,
}

-- The lines that are parsed.
abbrev pub contents : List (Bytes × Bool) → List Bytes
contents [] = []
contents (l ∷ ls) = elim (content l.0) [ none ↦ contents ls | some s ↦ s ∷ contents ls ]

-- Steps in order, up to the first error.
abbrev pub each : {E A B : Type 0} → (A → B → Result E B) → List A → B → Result E B
each step [] b = ok b
each step (a ∷ rest) b = elim (step a b) [ err e ↦ err e | ok b' ↦ each step rest b' ]

abbrev pub parse_then :
    {E P B : Type 0} → (Bytes → Result E P) → (P → B → Result E B) → Bytes → B → Result E B
parse_then parse_prefix add s b = and_then (parse_prefix s) (λ p. add p b)

lines-render :
    (l : Bytes × Bool) (ls : List (Bytes × Bool))
    → IsLine l.0
    → (lines (render (l ∷ ls)) ≡ (l.0 ++ line_end l.1) ∷ lines (render ls))
      × (payload (l.0 ++ line_end l.1) ≡ content l.0)
lines-render l ls h = (lines-line_end l.0 (render ls) l.1 h.0, payload-line_end l.0 l.1 h)

pub and_then-ok : {E A : Type 0} (r : Result E A) → and_then r ok ≡ r
and_then-ok (err e) = refl
and_then-ok (ok a) = refl

module _ {E P B R : Type 0} (parse_prefix : Bytes → Result E P) (add : P → B → Result E B)
    (finish : B → Result E R) where
  -- One line, with what follows given as a function of the builder.
  line_step :
      (o : Option Bytes) (b : B) (cs : List Bytes) (rest : B → Result E R)
      → ((b : B) → rest b ≡ and_then (each (parse_then parse_prefix add) cs b) finish)
      → elim o [ none ↦ rest b | some s ↦ and_then (parse_prefix s) (λ p. and_then (add p b) rest) ]
        ≡ and_then
            (each (parse_then parse_prefix add) (elim o [ none ↦ cs | some s ↦ s ∷ cs ]) b)
            finish
  line_step none b cs rest h = h b
  line_step (some s) b cs rest h = parsed (parse_prefix s)
    where
      added :
          (r : Result E B)
          → and_then r rest ≡ and_then (and_then r (each (parse_then parse_prefix add) cs)) finish
      added (err e) = refl
      added (ok b') = h b'

      parsed :
          (r : Result E P)
          → and_then r (λ p. and_then (add p b) rest)
            ≡ and_then
                (and_then (and_then r (λ p. add p b)) (each (parse_then parse_prefix add) cs))
                finish
      parsed (err e) = refl
      parsed (ok p) = added (add p b)

module _ {E P B : Type 0} (parse_prefix : Bytes → Result E P) where
  pub bart_insert_lines-each :
      (insert : P → B → B) (ls : List (Bytes × Bool)) (b : B)
      → AllLines ls
      → bart_insert_lines parse_prefix insert (lines (render ls)) b
        ≡ and_then (each (parse_then parse_prefix (λ p b. ok (insert p b))) (contents ls) b) ok
  unfolding bart_insert_lines lines
  bart_insert_lines-each insert [] b h = refl
  bart_insert_lines-each insert (l ∷ ls) b h =
      let (e, f) = lines-render l ls h.0 in
      let rest = bart_insert_lines parse_prefix insert (lines (render ls)) in
      let rec : (b : B)
          → rest b
            ≡ and_then (each (parse_then parse_prefix (λ p b. ok (insert p b))) (contents ls) b)
                ok =
        λ b. bart_insert_lines-each insert ls b h.1 in
      ap (λ r. bart_insert_lines parse_prefix insert r b) e
      ∙ ap
          (λ o. elim o [
            | none ↦ rest b
            | some s ↦ and_then (parse_prefix s) (λ p. rest (insert p b))
          ])
          f
      ∙ line_step parse_prefix (λ p b. ok (insert p b)) ok (content l.0) b (contents ls) rest rec

  pub ip_set_lines-each :
      {S : Type 0} (add : P → B → B) (ip_set : B → Result E S) (ls : List (Bytes × Bool)) (b : B)
      → AllLines ls
      → ip_set_lines parse_prefix add ip_set (lines (render ls)) b
        ≡ and_then (each (parse_then parse_prefix (λ p b. ok (add p b))) (contents ls) b) ip_set
  unfolding ip_set_lines lines
  ip_set_lines-each add ip_set [] b h = refl
  ip_set_lines-each add ip_set (l ∷ ls) b h =
      let (e, f) = lines-render l ls h.0 in
      let rest = ip_set_lines parse_prefix add ip_set (lines (render ls)) in
      let rec : (b : B)
          → rest b
            ≡ and_then (each (parse_then parse_prefix (λ p b. ok (add p b))) (contents ls) b)
                ip_set =
        λ b. ip_set_lines-each add ip_set ls b h.1 in
      ap (λ r. ip_set_lines parse_prefix add ip_set r b) e
      ∙ ap
          (λ o. elim o [ none ↦ rest b | some s ↦ and_then (parse_prefix s) (λ p. rest (add p b)) ])
          f
      ∙ line_step parse_prefix (λ p b. ok (add p b)) ip_set (content l.0) b (contents ls) rest rec

  pub prefix_set_lines-each :
      {S : Type 0} (add : P → B → Result E B) (prefix_set : B → S) (ls : List (Bytes × Bool))
      (b : B)
      → AllLines ls
      → prefix_set_lines parse_prefix add prefix_set (lines (render ls)) b
        ≡ and_then (each (parse_then parse_prefix add) (contents ls) b) (λ b. ok (prefix_set b))
  unfolding prefix_set_lines lines
  prefix_set_lines-each add prefix_set [] b h = refl
  prefix_set_lines-each add prefix_set (l ∷ ls) b h =
      let (e, f) = lines-render l ls h.0 in
      let rest = prefix_set_lines parse_prefix add prefix_set (lines (render ls)) in
      let rec : (b : B)
          → rest b
            ≡ and_then (each (parse_then parse_prefix add) (contents ls) b)
                (λ b. ok (prefix_set b)) =
        λ b. prefix_set_lines-each add prefix_set ls b h.1 in
      ap (λ r. prefix_set_lines parse_prefix add prefix_set r b) e
      ∙ ap
          (λ o. elim o [
            | none ↦ rest b
            | some s ↦ and_then (parse_prefix s) (λ p. and_then (add p b) rest)
          ])
          f
      ∙ line_step parse_prefix add (λ b. ok (prefix_set b)) (content l.0) b (contents ls) rest rec

-- ===== src/Prefixset/Roundtrip.antt =====
-- Texts of lines and texts that the printers write, read by the three readers.
use cubic_go_playground.Prelude.{
  list_laws, ◌≡◌, refl, sym, ap, ◌∙◌, false, List, [], ◌∷◌, ◌++◌, map, append-nil, Bool, none, some,
  Bytes,
}
use cubic_go_playground.Prelude.Result.{Result, err, ok, and_then}
use cubic_go_playground.Prefixset.Sets.{
  bart_insert_from_text, bart_from_text, ip_set_from_text, prefix_set_from_text, ip_set_to_text,
  prefix_set_to_text,
}
use cubic_go_playground.Prefixset.Rendered.{IsLine, AllLines, render, content}
use cubic_go_playground.Prefixset.Texts.{
  contents, each, parse_then, and_then-ok, bart_insert_lines-each, ip_set_lines-each,
  prefix_set_lines-each,
}

module _ {E P : Type 0} (parse_prefix : Bytes → Result E P) where
  -- On lines that each end in a newline, with a carriage return before it or without, the three
  -- readers parse the lines that are neither empty nor comments, in order, add each prefix before
  -- the next line is parsed, and return the first error.
  pub from_text-lines :
      {S B B' : Type 0} (insert : P → S → S) (add_prefix : P → B → B) (ip_set : B → Result E S)
      (add : P → B' → Result E B') (prefix_set : B' → S) (ls : List (Bytes × Bool)) (s : S) (b : B)
      (b' : B')
      → AllLines ls
      → (bart_from_text parse_prefix insert s (render ls)
          ≡ each (parse_then parse_prefix (λ p s. ok (insert p s))) (contents ls) s)
        × (ip_set_from_text parse_prefix add_prefix ip_set b (render ls)
            ≡ and_then
                (each (parse_then parse_prefix (λ p b. ok (add_prefix p b))) (contents ls) b)
                ip_set)
        × (prefix_set_from_text parse_prefix add prefix_set b' (render ls)
            ≡ and_then
                (each (parse_then parse_prefix add) (contents ls) b')
                (λ b. ok (prefix_set b)))
  unfolding bart_from_text bart_insert_from_text ip_set_from_text prefix_set_from_text
  from_text-lines insert add_prefix ip_set add prefix_set ls s b b' h =
      let all = each (parse_then parse_prefix (λ p s. ok (insert p s))) (contents ls) s in
      (
        ap (λ r. and_then r ok) (bart_insert_lines-each parse_prefix insert ls s h)
            ∙ and_then-ok (and_then all ok)
            ∙ and_then-ok all,
        ip_set_lines-each parse_prefix add_prefix ip_set ls b h,
        prefix_set_lines-each parse_prefix add prefix_set ls b' h,
      )

and_then_cong :
    {E A B : Type 0} {f g : A → Result E B} (r : Result E A)
    → ((a : A) → f a ≡ g a)
    → and_then r f ≡ and_then r g
and_then_cong (err e) h = refl
and_then_cong (ok a) h = h a

abbrev pub add_all : {P B : Type 0} → (P → B → B) → List P → B → B
add_all add [] b = b
add_all add (p ∷ ps) b = add_all add ps (add p b)

module _ {P : Type 0} (append_to : P → Bytes → Bytes) where
  abbrev pub text : P → Bytes
  text p = append_to p []

  -- What is read of a printed prefix is all of it: it is not empty, no comment and one line.
  abbrev pub PrintsLine : Type 0
  PrintsLine =
      (p : P)
      → IsLine (text p)
        × (content (text p) ≡ some (text p))
        × ((b : Bytes) → append_to p b ≡ b ++ text p)

  abbrev printed : List P → List (Bytes × Bool)
  printed ps = map (λ p. (text p, false)) ps

  module _ (prints : PrintsLine) where
    printed-AllLines : (ps : List P) → AllLines (printed ps)
    printed-AllLines [] = tt
    printed-AllLines (p ∷ ps) = ((prints p).0, printed-AllLines ps)

    contents-printed : (ps : List P) → contents (printed ps) ≡ map text ps
    contents-printed [] = refl
    contents-printed (p ∷ ps) =
        ap (λ o. elim o [ none ↦ contents (printed ps) | some s ↦ s ∷ contents (printed ps) ])
          (prints p).1
        ∙ ap (λ l. text p ∷ l) (contents-printed ps)

    to_text-printed :
        (ps : List P) (b : Bytes)
        → (ip_set_to_text append_to ps b ≡ b ++ render (printed ps))
          × (prefix_set_to_text append_to ps b ≡ b ++ render (printed ps))
    unfolding ip_set_to_text prefix_set_to_text
    to_text-printed [] b = (sym (append-nil b), sym (append-nil b))
    to_text-printed (p ∷ ps) b =
        let (i, s) = to_text-printed ps (append_to p b ++ b'\n' ∷ []) in
        let line : (append_to p b ++ b'\n' ∷ []) ++ render (printed ps)
            ≡ b ++ render (printed (p ∷ ps)) =
          simp (list_laws, (prints p).2 b) in
        (i ∙ line, s ∙ line)

  module _ {E : Type 0} (parse_prefix : Bytes → Result E P)
      (parses : (p : P) → parse_prefix (text p) ≡ ok p) where
    each-text :
        {B : Type 0} (add : P → B → Result E B) (ps : List P) (b : B)
        → each (parse_then parse_prefix add) (map text ps) b ≡ each add ps b
    each-text add [] b = refl
    each-text add (p ∷ ps) b =
        ap
          (λ r.
            and_then (and_then r (λ p. add p b)) (each (parse_then parse_prefix add) (map text ps)))
          (parses p)
        ∙ and_then_cong (add p b) (each-text add ps)

    each-ok :
        {B : Type 0} (add : P → B → B) (ps : List P) (b : B)
        → each {E = E} (λ p b. ok (add p b)) ps b ≡ ok (add_all add ps b)
    each-ok add [] b = refl
    each-ok add (p ∷ ps) b = each-ok add ps (add p b)

    each-printed :
        {B : Type 0} (prints : PrintsLine) (add : P → B → Result E B) (ps : List P) (b : B)
        → each (parse_then parse_prefix add) (contents (printed ps)) b ≡ each add ps b
    each-printed prints add ps b =
        ap (λ l. each (parse_then parse_prefix add) l b) (contents-printed prints ps)
        ∙ each-text add ps b

    -- If a prefix prints on a line of its own and is parsed back from it, then reading a printed set
    -- adds its prefixes, in order, to the empty builder, and nothing else.
    pub from_text-to_text :
        {S B B' : Type 0} (prints : PrintsLine) (add_prefix : P → B → B) (ip_set : B → Result E S)
        (add : P → B' → Result E B') (prefix_set : B' → S) (ps : List P) (b : B) (b' : B')
        → (ip_set_from_text parse_prefix add_prefix ip_set b (ip_set_to_text append_to ps [])
            ≡ ip_set (add_all add_prefix ps b))
          × (prefix_set_from_text parse_prefix add prefix_set b'
                (prefix_set_to_text append_to ps [])
              ≡ and_then (each add ps b') (λ b. ok (prefix_set b)))
    unfolding ip_set_from_text prefix_set_from_text
    from_text-to_text prints add_prefix ip_set add prefix_set ps b b' =
        let (i, s) = to_text-printed prints ps [] in
        let lines = printed-AllLines prints ps in
        (
          ap (ip_set_from_text parse_prefix add_prefix ip_set b) i
              ∙ ip_set_lines-each parse_prefix add_prefix ip_set (printed ps) b lines
              ∙ ap (λ r. and_then r ip_set)
                  (each-printed prints (λ p b. ok (add_prefix p b)) ps b ∙ each-ok add_prefix ps b),
          ap (prefix_set_from_text parse_prefix add prefix_set b') s
              ∙ prefix_set_lines-each parse_prefix add prefix_set (printed ps) b' lines
              ∙ ap (λ r. and_then r (λ b. ok (prefix_set b))) (each-printed prints add ps b'),
        )

-- ===== src/DataByIp/Stream.antt =====
-- What `Read` of ssgodatabyip/ssgodatabyip.go fills a buffer with.
use cubic_go_playground.Prelude.{
  ℕ, zero, suc, ◌-◌, ◌≤◌, ◌<◌, ◌≡◌, ◌⊎◌, inl, inr, refl, sym, subst, ap, ◌∙◌, false, [], ◌∷◌, ◌++◌,
  append_assoc, append-nil, none, some, Bytes, length, take-drop, take_all, drop_all, length-append,
  length-take, take, drop, ltb, Bool-cases, if◌then◌else◌, arith,
}
use cubic_go_playground.DataByIp.Reader.{
  eof, Slice, read_slice, EventJsonReader, Filled, read_loop, read,
}
use cubic_go_playground.DataByIp.Lines.{json_of, Ready, read_slice-skip, read_slice-keep}

cut : (p a b t : Bytes) → (p ++ b'{' ∷ a) ++ (b ++ t) ≡ p ++ b'{' ∷ ((a ++ b) ++ t)
cut p a b t =
    append_assoc p (b'{' ∷ a) (b ++ t) ∙ ap (λ l. p ++ b'{' ∷ l) (sym (append_assoc a b t))

module _ (size : ℕ) where
  -- What `p` is filled with, and what is kept for the next time.
  abbrev pub rest_of : EventJsonReader → Bytes
  rest_of reader = reader.leftover ++ json_of false reader.r

  abbrev pub Good : EventJsonReader → Type 0
  Good reader = (reader.err ≡ none) × Ready size false reader.r

  abbrev pub Gives : Bytes → ℕ → Bytes → Filled → Type 0
  Gives p room kept f =
      ((f.err ≡ some eof) × (f.p ≡ p ++ kept))
      ⊎ ((f.err ≡ none)
          × Good f.reader
          × (f.p ++ rest_of f.reader ≡ p ++ kept)
          × (length p ≤ length f.p)
          × (0 < room → length p < length f.p))

  Gives-on :
      (p p' : Bytes) (room room' : ℕ) (kept kept' : Bytes) (f : Filled)
      → p' ++ kept' ≡ p ++ kept
      → length p < length p'
      → Gives p' room' kept' f
      → Gives p room kept f
  Gives-on p p' room room' kept kept' f same more (inl (e, h)) = inl (e, h ∙ same)
  Gives-on p p' room room' kept kept' f same more (inr (e, good, h, grown, some_byte)) =
      inr (e, good, h ∙ same, omega arith, λ pos. omega arith)

  round-Gives :
      (k : ℕ) (p kept line t : Bytes) (f : Filled)
      → kept ≡ b'{' ∷ (line ++ json_of false t)
      → Ready size false t
      → (length line ≤ k → Gives (p ++ b'{' ∷ take k line) (k - length line) (json_of false t) f)
      → Gives p (suc k) kept (
          if ltb k (length line)
          then record {
            p = p ++ b'{' ∷ take k line;
            err = none;
            reader = record { r = t; leftover = drop k line; err = none };
          }
          else f)
  round-Gives k p kept line t f h ready next =
      let p' : Bytes = p ++ b'{' ∷ take k line in
      elim (Bool-cases (ltb k (length line))) [
        | inl long ↦
            let whole : p' ++ (drop k line ++ json_of false t) ≡ p ++ kept =
              cut p (take k line) (drop k line) (json_of false t)
              ∙ ap (λ l. p ++ b'{' ∷ (l ++ json_of false t)) (take-drop k line)
              ∙ ap (λ l. p ++ l) (sym h) in
            ground (arith, whole, length-append p (b'{' ∷ take k line))
        | inr short ↦
            let le : length line ≤ k = ground arith in
            let whole : p' ++ json_of false t ≡ p ++ kept =
              cut p (take k line) [] (json_of false t)
              ∙ ap (λ l. p ++ b'{' ∷ (l ++ json_of false t))
                  (append-nil (take k line) ∙ take_all k line le)
              ∙ ap (λ l. p ++ l) (sym h) in
            let full : Filled = record {
              p = p';
              err = none;
              reader = record { r = t; leftover = drop k line; err = none };
            } in
            subst (λ b. Gives p (suc k) kept (if b then full else f)) (sym short)
              (Gives-on p p' (suc k) (k - length line) kept (json_of false t) f whole
                (omega (arith, length-append p (b'{' ∷ take k line))) (next le))
      ]

  abbrev at : Bytes → EventJsonReader
  at r = record { r = r; leftover = []; err = none }

  read_loop-full :
      (fuel room : ℕ) (p r : Bytes)
      → room ≡ 0
      → Ready size false r
      → Gives p room (json_of false r) (read_loop size fuel room p (at r))
  unfolding read_loop
  read_loop-full zero room p r full ready = ground arith
  read_loop-full (suc fuel) zero p r full ready = ground arith
  read_loop-full (suc fuel) (suc room) p r full ready = absurd (omega arith)

  read_loop-eof :
      (fuel k : ℕ) (p r : Bytes)
      → (read_slice size b'{' r).err ≡ some eof
      → read_loop size (suc fuel) (suc k) p (at r)
        ≡ record { p = p; err = some eof; reader = at (read_slice size b'{' r).rest }
  unfolding read_loop
  read_loop-eof fuel k p r h = ground arith

  read_loop-round :
      (fuel k : ℕ) (p r : Bytes) (start s : Slice)
      → start ≡ read_slice size b'{' r
      → s ≡ read_slice size b'\n' start.rest
      → start.err ≡ none
      → s.err ≡ none
      → read_loop size (suc fuel) (suc k) p (at r) ≡ (
          if ltb k (length s.line)
          then record {
            p = p ++ b'{' ∷ take k s.line;
            err = none;
            reader = record { r = s.rest; leftover = drop k s.line; err = none };
          }
          else read_loop size fuel (k - length s.line) (p ++ b'{' ∷ take k s.line) (at s.rest))
  unfolding read_loop
  read_loop-round fuel k p r start s h h' e e' = ground arith

  read_loop-Gives :
      (fuel room : ℕ) (p r : Bytes)
      → room ≤ fuel
      → Ready size false r
      → Gives p room (json_of false r) (read_loop size fuel room p (at r))
  read_loop-Gives zero room p r le ready = read_loop-full zero room p r (omega arith) ready
  read_loop-Gives (suc fuel) zero p r le ready = read_loop-full (suc fuel) zero p r refl ready
  read_loop-Gives (suc fuel) (suc k) p r le ready =
      let start : Slice = read_slice size b'{' r in
      let s : Slice = read_slice size b'\n' start.rest in
      elim (read_slice-skip size size r ready.0 ready.1) [
        | inl (e, nothing) ↦
            subst (Gives p (suc k) (json_of false r)) (sym (read_loop-eof fuel k p r e))
              (inl (refl, sym (ap (λ l. p ++ l) nothing ∙ append-nil p)))
        | inr (e, ready', some_line) ↦
            let (e', ready'', kept) = read_slice-keep size size start.rest ready'.0 ready'.1 in
            subst (Gives p (suc k) (json_of false r))
              (sym (read_loop-round fuel k p r start s refl refl e e'))
              (round-Gives k p (json_of false r) s.line s.rest _
                (some_line ∙ ap (λ l. b'{' ∷ l) kept) ready''
                (λ short.
                  read_loop-Gives fuel (k - length s.line) (p ++ b'{' ∷ take k s.line) s.rest
                    (omega arith) ready''))
      ]

  read_full :
      (room : ℕ) (reader : EventJsonReader)
      → reader.err ≡ none
      → room < length reader.leftover
      → read size room reader ≡ record {
        p = take room reader.leftover;
        err = none;
        reader = record reader { leftover = drop room reader.leftover };
      }
  unfolding read read_loop
  read_full room reader e long = ground (arith, length-take room reader.leftover)

  read-more :
      (room : ℕ) (reader : EventJsonReader)
      → Good reader
      → room < length reader.leftover
      → Gives [] room (rest_of reader) (read size room reader)
  read-more room reader (e, ready) long =
      subst (Gives [] room (rest_of reader)) (sym (read_full room reader e long)) (
        inr (
          refl,
          (e, ready),
          sym (
                append_assoc (take room reader.leftover) (drop room reader.leftover)
                  (json_of false reader.r))
              ∙ ap (λ l. l ++ json_of false reader.r) (take-drop room reader.leftover),
          omega arith,
          λ pos. omega (arith, length-take room reader.leftover),
        ))

  read-last :
      (room : ℕ) (reader : EventJsonReader)
      → Good reader
      → length reader.leftover ≤ room
      → Gives [] room (rest_of reader) (read size room reader)
  unfolding read
  read-last room reader (e, ready) short =
      let n : ℕ = room - length reader.leftover in
      let loop = read_loop-Gives n n reader.leftover reader.r (omega arith) ready in
      ground (arith, take_all room reader.leftover, drop_all room reader.leftover)

  pub read-Gives :
      (room : ℕ) (reader : EventJsonReader)
      → Good reader
      → Gives [] room (rest_of reader) (read size room reader)
  read-Gives room reader good =
      ground (arith, read-more room reader good, read-last room reader good)

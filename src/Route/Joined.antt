-- ===== src/Route/Joined.antt =====
-- The texts of interface flags and of IPv6 address flags, read back by cutting at the separator.
use cubic_go_playground.Prelude.{
  list_laws, ℕ, ◌+◌, ◌-◌, ◌≡◌, refl, sym, ap, ◌∙◌, Bool, true, false, not, ◌&&◌, List, [], ◌∷◌,
  ◌++◌, map, Bytes, length, ◌==◌, if◌then◌else◌, arith, append_assoc, append-nil, take, take-append,
  length-append, ltb, lt→ltb, le→ltb, String,
}
use cubic_go_playground.Route.Flags.{Flag, is_set, append_names, append_text, marshal_text}
use cubic_go_playground.Route.Shown.{shown, has}
use cubic_go_playground.Route.Names.{
  Os, darwin, dragonfly, freebsd, netbsd, openbsd, iface_flag_names, ifa_flags6_names,
}

-- The parts of a text between separators; at least one.
abbrev pub onto_first : ℕ → List Bytes → List Bytes
onto_first c [] = (c ∷ []) ∷ []
onto_first c (p ∷ ps) = (c ∷ p) ∷ ps

abbrev pub fields : ℕ → Bytes → List Bytes
fields sep [] = [] ∷ []
fields sep (c ∷ cs) = let rest = fields sep cs in if c == sep then [] ∷ rest else onto_first c rest

abbrev pub joined : ℕ → List Bytes → Bytes
joined sep [] = []
joined sep (n ∷ []) = n
joined sep (n ∷ m ∷ ns) = n ++ sep ∷ joined sep (m ∷ ns)

abbrev terminated : ℕ → List Bytes → Bytes
terminated sep [] = []
terminated sep (n ∷ ns) = n ++ sep ∷ terminated sep ns

terminated-joined :
    (sep : ℕ) (n : Bytes) (ns : List Bytes)
    → terminated sep (n ∷ ns) ≡ joined sep (n ∷ ns) ++ sep ∷ []
terminated-joined sep n [] = refl
terminated-joined sep n (m ∷ ns) = simp (list_laws, terminated-joined sep m ns)

append_names-terminated :
    (sep : ℕ) (gs : List (Flag Bytes)) (f : ℕ) (b : Bytes)
    → append_names sep gs f b ≡ b ++ terminated sep (shown gs f)
unfolding append_names
append_names-terminated sep [] f b = sym (append-nil b)
append_names-terminated sep (g ∷ gs) f b =
    elim (is_set f g)
      as (λ c.
        append_names sep gs f (if c then (b ++ g.name) ++ sep ∷ [] else b)
        ≡ b ++ terminated sep (if c then g.name ∷ shown gs f else shown gs f)) [
          | true ↦ append_names-terminated sep gs f ((b ++ g.name) ++ sep ∷ []) ∙ simp list_laws
          | false ↦ append_names-terminated sep gs f b
        ]

-- What the methods do behind their loops: drop the last separator.
abbrev cut : Bytes → Bytes → Bytes
cut b r = if ltb (length b) (length r) then take (length r - 1) r else r

cut-terminated : (b t : Bytes) (c : ℕ) → cut b (b ++ (t ++ c ∷ [])) ≡ b ++ t
cut-terminated b t c =
    let r : Bytes = b ++ (t ++ c ∷ []) in
    let whole : length r ≡ length b + (length t + 1) =
      length-append b (t ++ c ∷ []) ∙ ap (λ k. length b + k) (length-append t (c ∷ [])) in
    let front : length (b ++ t) ≡ length r - 1 = omega (arith, whole, length-append b t) in
    let longer : cut b r ≡ take (length r - 1) r =
      ap (λ c. if c then take (length r - 1) r else r)
        (lt→ltb (length b) (length r) (omega (arith, whole))) in
    longer
    ∙ ap (λ r'. take (length r - 1) r') (sym (append_assoc b t (c ∷ [])))
    ∙ take-append (length r - 1) (b ++ t) (c ∷ []) front

cut-nothing : (b : Bytes) → cut b b ≡ b
cut-nothing b =
    ap (λ c. if c then take (length b - 1) b else b) (le→ltb (length b) (length b) (omega arith))

cut-joined :
    (sep : ℕ) (b : Bytes) (ns : List Bytes) → cut b (b ++ terminated sep ns) ≡ b ++ joined sep ns
cut-joined sep b [] = simp (list_laws, cut-nothing b)
cut-joined sep b (n ∷ ns) =
    ap (λ t. cut b (b ++ t)) (terminated-joined sep n ns)
    ∙ cut-terminated b (joined sep (n ∷ ns)) sep

append_text-joined :
    (sep : ℕ) (gs : List (Flag Bytes)) (f : ℕ) (b : Bytes)
    → append_text sep gs f b ≡ b ++ joined sep (shown gs f)
unfolding append_text
append_text-joined sep gs f b =
    ap (cut b) (append_names-terminated sep gs f b) ∙ cut-joined sep b (shown gs f)

fields-lacks : (sep : ℕ) (n : Bytes) → has sep n ≡ false → fields sep n ≡ n ∷ []
fields-lacks sep [] h = refl
fields-lacks sep (c ∷ cs) h = ground (arith, fields-lacks sep cs)

fields-cons :
    (sep : ℕ) (n t : Bytes) → has sep n ≡ false → fields sep (n ++ sep ∷ t) ≡ n ∷ fields sep t
fields-cons sep [] t h = ground arith
fields-cons sep (c ∷ cs) t h = ground (arith, fields-cons sep cs t)

abbrev lack : ℕ → List Bytes → Bool
lack sep [] = true
lack sep (n ∷ ns) = not (has sep n) && lack sep ns

-- The empty text has one part, which is empty.
abbrev pub parts_of : List Bytes → List Bytes
parts_of [] = [] ∷ []
parts_of (n ∷ ns) = n ∷ ns

fields-joined :
    (sep : ℕ) (ns : List Bytes) → lack sep ns ≡ true → fields sep (joined sep ns) ≡ parts_of ns
fields-joined sep [] h = refl
fields-joined sep (n ∷ []) h = fields-lacks sep n (ground arith)
fields-joined sep (n ∷ m ∷ ns) h =
    fields-cons sep n (joined sep (m ∷ ns)) (ground arith)
    ∙ ap (λ l. n ∷ l) (fields-joined sep (m ∷ ns) (ground arith))

abbrev names : List (Flag Bytes) → List Bytes
names gs = map (λ g. g.name) gs

lack-shown :
    (sep : ℕ) (gs : List (Flag Bytes)) (f : ℕ)
    → lack sep (names gs) ≡ true
    → lack sep (shown gs f) ≡ true
lack-shown sep [] f h = refl
lack-shown sep (g ∷ gs) f h = ground (arith, lack-shown sep gs f)

fields-marshal_text :
    (sep : ℕ) (gs : List (Flag Bytes)) (f : ℕ)
    → lack sep (names gs) ≡ true
    → fields sep (marshal_text sep gs f) ≡ parts_of (shown gs f)
unfolding marshal_text
fields-marshal_text sep gs f h =
    ap (fields sep) (append_text-joined sep gs f [])
    ∙ fields-joined sep (shown gs f) (lack-shown sep gs f h)

lack-iface_flag_names :
    (os : Os) (unix : String → ℕ) → lack b',' (names (iface_flag_names os unix)) ≡ true
lack-iface_flag_names darwin unix = refl
lack-iface_flag_names dragonfly unix = refl
lack-iface_flag_names freebsd unix = refl
lack-iface_flag_names netbsd unix = refl
lack-iface_flag_names openbsd unix = refl

lack-ifa_flags6_names : (os : Os) → lack b' ' (names (ifa_flags6_names os)) ≡ true
lack-ifa_flags6_names darwin = refl
lack-ifa_flags6_names dragonfly = refl
lack-ifa_flags6_names freebsd = refl
lack-ifa_flags6_names netbsd = refl
lack-ifa_flags6_names openbsd = refl

-- For every system: cut at its separator, the text of interface flags and that of IPv6 address
-- flags give the names of the flags that are set, in the order of the table.
pub marshal_text-fields :
    (os : Os) (unix : String → ℕ) (f : ℕ)
    → (fields b',' (marshal_text b',' (iface_flag_names os unix) f)
        ≡ parts_of (shown (iface_flag_names os unix) f))
      × (fields b' ' (marshal_text b' ' (ifa_flags6_names os) f)
          ≡ parts_of (shown (ifa_flags6_names os) f))
marshal_text-fields os unix f = (
  fields-marshal_text b',' (iface_flag_names os unix) f (lack-iface_flag_names os unix),
  fields-marshal_text b' ' (ifa_flags6_names os) f (lack-ifa_flags6_names os),
)

-- For every system, an existing text is kept in front, and it is followed by what MarshalText gives
-- alone.
pub append_text-append :
    (os : Os) (unix : String → ℕ) (f : ℕ) (b : Bytes)
    → (append_text b',' (iface_flag_names os unix) f b
        ≡ b ++ marshal_text b',' (iface_flag_names os unix) f)
      × (append_text b' ' (ifa_flags6_names os) f b
          ≡ b ++ marshal_text b' ' (ifa_flags6_names os) f)
unfolding marshal_text
append_text-append os unix f b = (
  append_text-joined b',' (iface_flag_names os unix) f b
      ∙ ap (λ t. b ++ t) (sym (append_text-joined b',' (iface_flag_names os unix) f [])),
  append_text-joined b' ' (ifa_flags6_names os) f b
      ∙ ap (λ t. b ++ t) (sym (append_text-joined b' ' (ifa_flags6_names os) f [])),
)

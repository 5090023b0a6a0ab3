-- ===== src/Route/Types.antt =====
-- The names of message types, read back. An unknown type is shown by its number.
use cubic_go_playground.Prelude.{
  itoa, ℕ, ◌+◌, ◌*◌, ◌-◌, ◌<◌, ◌≡◌, refl, subst, Bool, true, false, not, ◌&&◌, List, [], ◌∷◌, Bytes,
  codes, leb, ◌==◌, if◌then◌else◌, arith, String, all_below, all_below-true, ==_iff, Bool-cases,
  inl, inr,
}
use cubic_go_playground.Route.Flags.{string}
use cubic_go_playground.Route.Names.{Os, darwin, dragonfly, freebsd, netbsd, openbsd, message_types}

abbrev pub same : Bytes → Bytes → Bool
same [] [] = true
same [] (d ∷ ds) = false
same (c ∷ cs) [] = false
same (c ∷ cs) (d ∷ ds) = (c == d) && same cs ds

same→eq : (s t : Bytes) → same s t ≡ true → s ≡ t
same→eq [] [] h = refl
same→eq [] (d ∷ t) h = cc
same→eq (c ∷ s) [] h = cc
same→eq (c ∷ s) (d ∷ t) h = ground (arith, same→eq s t)

same_refl : (s : Bytes) → same s s ≡ true
same_refl [] = refl
same_refl (c ∷ s) = ground (arith, same_refl s)

abbrev decimal : ℕ → Bytes → ℕ
decimal n [] = n
decimal n (c ∷ cs) = decimal (n * 10 + (c - b'0')) cs

-- The value of the first constant of that name, or else the number that the text writes.
abbrev pub read_type : (String → ℕ) → List String → Bytes → ℕ
read_type unix [] t = decimal 0 t
read_type unix (c ∷ cs) t =
    let rest = read_type unix cs t in if same t (codes c) then unix c else rest

abbrev starts_digit : Bytes → Bool
starts_digit [] = false
starts_digit (c ∷ cs) = leb b'0' c && leb c b'9'

abbrev differs : Bytes → List String → Bool
differs t [] = not (starts_digit t)
differs t (c ∷ cs) = not (same (codes c) t) && differs t cs

abbrev readable : List String → Bool
readable [] = true
readable (c ∷ cs) = differs (codes c) cs && readable cs

numbers_start : all_below 256 (λ m. starts_digit (itoa 3 m [])) ≡ true
unfolding all_below itoa
numbers_start = refl

numbers_read : all_below 256 (λ m. decimal 0 (itoa 3 m []) == m) ≡ true
unfolding all_below itoa
numbers_read = refl

itoa-starts : (m : ℕ) → m < 256 → starts_digit (itoa 3 m []) ≡ true
itoa-starts m lt = all_below-true 256 (λ m. starts_digit (itoa 3 m [])) m numbers_start lt

decimal-itoa : (m : ℕ) → m < 256 → decimal 0 (itoa 3 m []) ≡ m
decimal-itoa m lt =
    (==_iff (decimal 0 (itoa 3 m [])) m).0
      (all_below-true 256 (λ m. decimal 0 (itoa 3 m []) == m) m numbers_read lt)

module _ (unix : String → ℕ) (m : ℕ) (lt : m < 256) where
  number-differs : (t : Bytes) → starts_digit t ≡ false → same (itoa 3 m []) t ≡ false
  number-differs t h = elim (Bool-cases (same (itoa 3 m []) t)) [
    | inl e ↦
        let eq : itoa 3 m [] ≡ t = same→eq (itoa 3 m []) t e in
        let starts : starts_digit t ≡ true =
          subst (λ u. starts_digit u ≡ true) eq (itoa-starts m lt) in
        cc
    | inr e ↦ e
  ]

  string-differs :
      (cs : List String) (t : Bytes) → differs t cs ≡ true → same (string unix cs m) t ≡ false
  unfolding string
  string-differs [] t h = number-differs t (ground arith)
  string-differs (c ∷ cs) t h = ground (arith, string-differs cs t)

  read_type-string_lem :
      (cs : List String) → readable cs ≡ true → read_type unix cs (string unix cs m) ≡ m
  unfolding string
  read_type-string_lem [] h = decimal-itoa m lt
  read_type-string_lem (c ∷ cs) h =
      ground (arith, same_refl (codes c), string-differs cs (codes c), read_type-string_lem cs)

readable-message_types : (os : Os) → readable (message_types os) ≡ true
readable-message_types darwin = refl
readable-message_types dragonfly = refl
readable-message_types freebsd = refl
readable-message_types netbsd = refl
readable-message_types openbsd = refl

-- For every system and every value of its constants, the text of a message type tells the type.
pub read_type-string :
    (os : Os) (unix : String → ℕ) (m : ℕ)
    → m < 256
    → read_type unix (message_types os) (string unix (message_types os) m) ≡ m
read_type-string os unix m lt =
    read_type-string_lem unix m lt (message_types os) (readable-message_types os)

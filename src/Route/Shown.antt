-- ===== src/Route/Shown.antt =====
-- What the texts of flags say: the names of the flags that are set, in the order of the table.
use cubic_go_playground.Prelude.{
  ℕ, zero, suc, ◌≡◌, refl, sym, ◌∙◌, subst, Bool, true, false, not, ◌&&◌, ◌||◌, ◌≤◌, List, [], ◌∷◌,
  ◌++◌, map, Bytes, length, get_elem?, some, ◌==◌, if◌then◌else◌, arith, append_assoc, append-nil,
  String,
}
use cubic_go_playground.Route.Flags.{Flag, is_set, append_chars}
use cubic_go_playground.Route.Names.{
  Os, darwin, dragonfly, freebsd, netbsd, openbsd, route_flag_names,
}

abbrev pub shown : {N : Type 0} → List (Flag N) → ℕ → List N
shown [] f = []
shown (g ∷ gs) f = let rest = shown gs f in if is_set f g then g.name ∷ rest else rest

append_chars-shown :
    (gs : List (Flag ℕ)) (f : ℕ) (b : Bytes) → append_chars gs f b ≡ b ++ shown gs f
unfolding append_chars
append_chars-shown [] f b = sym (append-nil b)
append_chars-shown (g ∷ gs) f b =
    elim (is_set f g)
      as (λ c.
        append_chars gs f (if c then b ++ g.name ∷ [] else b)
        ≡ b ++ (if c then g.name ∷ shown gs f else shown gs f)) [
          | true ↦
              append_chars-shown gs f (b ++ g.name ∷ []) ∙ append_assoc b (g.name ∷ []) (shown gs f)
          | false ↦ append_chars-shown gs f b
        ]

length-shown : (gs : List (Flag ℕ)) (f : ℕ) → length (shown gs f) ≤ length gs
length-shown [] f = omega arith
length-shown (g ∷ gs) f = ground (arith, length-shown gs f)

abbrev pub has : ℕ → Bytes → Bool
has c [] = false
has c (d ∷ ds) = (c == d) || has c ds

abbrev chars : List (Flag ℕ) → Bytes
chars gs = map (λ g. g.name) gs

abbrev distinct : List (Flag ℕ) → Bool
distinct [] = true
distinct (g ∷ gs) = not (has g.name (chars gs)) && distinct gs

has-shown :
    (c : ℕ) (gs : List (Flag ℕ)) (f : ℕ) → has c (chars gs) ≡ false → has c (shown gs f) ≡ false
has-shown c [] f h = refl
has-shown c (g ∷ gs) f h = ground (arith, has-shown c gs f)

has-get_elem :
    (gs : List (Flag ℕ)) (i : ℕ) (g : Flag ℕ)
    → get_elem? gs i ≡ some g
    → has g.name (chars gs) ≡ true
has-get_elem [] i g h = cc
has-get_elem (x ∷ gs) zero g h = ground arith
has-get_elem (x ∷ gs) (suc i) g h = ground (arith, has-get_elem gs i g h)

has-shown_get_elem :
    (gs : List (Flag ℕ)) (f i : ℕ) (g : Flag ℕ)
    → distinct gs ≡ true
    → get_elem? gs i ≡ some g
    → has g.name (shown gs f) ≡ is_set f g
has-shown_get_elem [] f i g d h = cc
has-shown_get_elem (x ∷ gs) f zero g d h = ground (arith, has-shown x.name gs f)
has-shown_get_elem (x ∷ gs) f (suc i) g d h =
    ground (arith, has-shown_get_elem gs f i g, has-get_elem gs i g)

distinct-route_flag_names :
    (os : Os) (unix : String → ℕ) → distinct (route_flag_names os unix) ≡ true
distinct-route_flag_names darwin unix = refl
distinct-route_flag_names dragonfly unix = refl
distinct-route_flag_names freebsd unix = refl
distinct-route_flag_names netbsd unix = refl
distinct-route_flag_names openbsd unix = refl

-- For every system: the text of route flags has the letter of a flag of the table exactly if the
-- flag is set, and the room that MarshalText reserves is enough for it.
pub append_chars-has :
    (os : Os) (unix : String → ℕ) (f i : ℕ) (g : Flag ℕ)
    → get_elem? (route_flag_names os unix) i ≡ some g
    → (has g.name (append_chars (route_flag_names os unix) f []) ≡ is_set f g)
      × (length (append_chars (route_flag_names os unix) f []) ≤ length (route_flag_names os unix))
append_chars-has os unix f i g h =
    let gs = route_flag_names os unix in
    subst (λ t. (has g.name t ≡ is_set f g) × (length t ≤ length gs))
      (sym (append_chars-shown gs f []))
      (has-shown_get_elem gs f i g (distinct-route_flag_names os unix) h, length-shown gs f)

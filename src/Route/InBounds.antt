-- ===== src/Route/InBounds.antt =====
-- What `ParseAddrs` makes of any buffer.
use cubic_go_playground.Prelude.{
  ℕ, zero, suc, ◌+◌, ◌≤◌, ◌≡◌, ◌⊎◌, inl, inr, refl, sym, ap, ◌∙◌, subst, true, List, [], ◌∷◌,
  Option, none, some, Bytes, length, set, get_elem?, drop, replicate, leb, arith, Bool-cases,
}
use cubic_go_playground.Route.Align.{rta_align}
use cubic_go_playground.Route.Laid.{parse_addrs_loop-unset}
use cubic_go_playground.Route.Addrs.{has_bit, first_byte, store, parse_addrs, parse_addrs_loop}

get_elem-set :
    {A : Type 0} (xs : List A) (i j : ℕ) (v w : A)
    → get_elem? (set xs i v) j ≡ some w
    → ((i ≡ j) × (v ≡ w)) ⊎ (get_elem? xs j ≡ some w)
get_elem-set [] i j v w h = inr h
get_elem-set (x ∷ xs) zero zero v w h = inl (refl, ground arith)
get_elem-set (x ∷ xs) zero (suc j) v w h = inr h
get_elem-set (x ∷ xs) (suc i) zero v w h = inr h
get_elem-set (x ∷ xs) (suc i) (suc j) v w h = elim (get_elem-set xs i j v w h) [
  | inl (e, f) ↦ inl (ap suc e, f)
  | inr e ↦ inr e
]

drop-nil : {A : Type 0} (n : ℕ) → drop {A = A} n [] ≡ []
drop-nil zero = refl
drop-nil (suc n) = refl

drop-drop : {A : Type 0} (m n : ℕ) (xs : List A) → drop m (drop n xs) ≡ drop (n + m) xs
drop-drop m zero xs = ap (λ k. drop k xs) (omega arith)
drop-drop m (suc n) [] = drop-nil m ∙ sym (drop-nil (suc n + m))
drop-drop m (suc n) (x ∷ xs) =
    let e : suc (n + m) ≡ suc n + m = omega arith in drop-drop m n xs ∙ ap (λ k. drop k (x ∷ xs)) e

get_elem-replicate :
    {A : Type 0} (k j : ℕ) (p : A)
    → get_elem? (replicate {A = Option A} k none) j ≡ some (some p)
    → ⊥
get_elem-replicate zero j p h = cc
get_elem-replicate (suc k) zero p h = cc
get_elem-replicate (suc k) (suc j) p h = get_elem-replicate k j p h

module _ (a sizeof addrs : ℕ) (b : Bytes) where
  -- A pointer that is set goes to a place in the buffer with enough bytes behind it.
  abbrev Points : List (Option Bytes) → Type 0
  Points dst =
      (j : ℕ) (p : Bytes)
      → get_elem? dst j ≡ some (some p)
      → (has_bit addrs j ≡ true) × (sizeof ≤ length p) × ((n : ℕ) × (p ≡ drop n b))

  store-Points :
      (i n : ℕ) (dst : List (Option Bytes))
      → has_bit addrs i ≡ true
      → Points dst
      → Points (store sizeof i (drop n b) dst)
  store-Points i n dst e h = elim (Bool-cases (leb sizeof (length (drop n b)))) [
    | inr small ↦ rw small h
    | inl large ↦ rw large (λ j p g. elim (get_elem-set dst i j (some (drop n b)) (some p) g) [
      | inl (same, eq) ↦
          let at_p : drop n b ≡ p = ground arith in
          let enough : sizeof ≤ length (drop n b) = ground arith in
          (
            subst (λ j. has_bit addrs j ≡ true) same e,
            subst (λ p. sizeof ≤ length p) at_p enough,
            (n, sym at_p),
          )
      | inr old ↦ h j p old
    ])
  ]

  parse_addrs_loop-cases :
      (k i : ℕ) (dst : List (Option Bytes)) (r : Bytes)
      → has_bit addrs i ≡ true
      → (parse_addrs_loop a sizeof (suc k) i addrs dst r ≡ store sizeof i r dst)
        ⊎ (parse_addrs_loop a sizeof (suc k) i addrs dst r
            ≡ parse_addrs_loop a sizeof k
                (suc i)
                addrs
                (store sizeof i r dst)
                (drop (rta_align a (first_byte r)) r))
  unfolding parse_addrs_loop
  parse_addrs_loop-cases k i dst r e = ground arith

  parse_addrs_loop-Points :
      (k i n : ℕ) (dst : List (Option Bytes))
      → Points dst
      → Points (parse_addrs_loop a sizeof k i addrs dst (drop n b))
  unfolding parse_addrs_loop
  parse_addrs_loop-Points zero i n dst h = h
  parse_addrs_loop-Points (suc k) i n dst h = elim (Bool-cases (has_bit addrs i)) [
    | inr unset ↦
        subst Points (sym (parse_addrs_loop-unset a sizeof k i addrs dst (drop n b) unset))
          (parse_addrs_loop-Points k (suc i) n dst h)
    | inl set ↦
        let dst' : List (Option Bytes) = store sizeof i (drop n b) dst in
        let m : ℕ = rta_align a (first_byte (drop n b)) in
        let h' : Points dst' = store-Points i n dst set h in
        elim (parse_addrs_loop-cases k i dst (drop n b) set) [
          | inl stops ↦ subst Points (sym stops) h'
          | inr passes ↦
              subst Points
                (sym
                  (passes ∙ ap (parse_addrs_loop a sizeof k (suc i) addrs dst') (drop-drop m n b)))
                (parse_addrs_loop-Points k (suc i) (n + m) dst' h')
        ]
  ]

  -- Whatever the buffer holds, a pointer that is set is that of an address whose bit is set, and
  -- goes to a place in the buffer with at least the smallest address behind it.
  pub parse_addrs-in_bounds :
      (rtax_max j : ℕ) (p : Bytes)
      → get_elem? (parse_addrs a sizeof rtax_max b addrs) j ≡ some (some p)
      → (has_bit addrs j ≡ true) × (sizeof ≤ length p) × ((n : ℕ) × (p ≡ drop n b))
  unfolding parse_addrs
  parse_addrs-in_bounds rtax_max j p h =
      parse_addrs_loop-Points rtax_max 0 0 (replicate rtax_max none)
        (λ j p g. absurd (get_elem-replicate rtax_max j p g)) j p h

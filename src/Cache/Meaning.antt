-- ===== src/Cache/Meaning.antt =====
-- What can be found in the list of items of cache/cache.go after each of its changes.
use cubic_go_playground.Prelude.{
  ℕ, ◌≤◌, ◌<◌, ◌≡◌, refl, sym, ap, ◌∙◌, ◌≢◌, none, some, Option, List, [], ◌∷◌, arith, length, ltb,
  if◌then◌else◌, ite, Option-cases, ◌⊎◌, inl, inr,
}
use cubic_go_playground.Cache.Links.{Item}
use cubic_go_playground.Cache.Find.{find-evict}
use cubic_go_playground.Cache.Spec.{
  live, evict, place_last, place_first, find, without, make_room, UniqueKeys,
}

module _ {K V : Type 0} where
  pub live-live : (now t : ℕ) (es : List (Item K V)) → now ≤ t → live t (live now es) ≡ live t es
  live-live now t [] le = refl
  live-live now t (y ∷ ys) le = ground (arith, live-live now t ys)

module _ {K V : Type 0} (dec : Discrete K) where
  abbrev pub alive : ℕ → Item K V → Option (Item K V)
  alive t x = if ltb t x.expires_at then some x else none

  find-live-none :
      (j : K) (t : ℕ) (es : List (Item K V)) → find dec j es ≡ none → find dec j (live t es) ≡ none
  find-live-none j t [] h = refl
  find-live-none j t (y ∷ ys) h = ground (arith, find-live-none j t ys)

  pub find-place_last :
      (j : K) (t : ℕ) (x : Item K V) (es : List (Item K V))
      → find dec x.key es ≡ none
      → find dec j (live t (place_last x es))
        ≡ ite (dec x.key j) (alive t x) (find dec j (live t es))
  find-place_last j t x [] h = ground arith
  find-place_last j t x (y ∷ ys) h =
      ground (arith, find-place_last j t x ys, find-live-none x.key t ys, find-live-none j t ys)

  pub find-place_first :
      (j : K) (t : ℕ) (x : Item K V) (es : List (Item K V))
      → find dec x.key es ≡ none
      → find dec j (live t (place_first x es))
        ≡ ite (dec x.key j) (alive t x) (find dec j (live t es))
  find-place_first j t x [] h = ground arith
  find-place_first j t x (y ∷ ys) h =
      ground (arith, find-place_first j t x ys, find-live-none x.key t ys, find-live-none j t ys)

  pub find-without : (k : K) (es : List (Item K V)) → find dec k (without dec k es) ≡ none
  find-without k [] = refl
  find-without k (y ∷ ys) = ground (arith, find-without k ys)

  pub find-without_ne :
      (j k : K) (t : ℕ) (es : List (Item K V))
      → j ≢ k
      → find dec j (live t (without dec k es)) ≡ find dec j (live t es)
  find-without_ne j k t [] ne = refl
  find-without_ne j k t (y ∷ ys) ne = ground (arith, find-without_ne j k t ys)

  pub find-evict-some :
      (j : K) (t n : ℕ) (x : Item K V) (es : List (Item K V))
      → UniqueKeys dec es
      → find dec j (live t (evict n es)) ≡ some x
      → find dec j (live t es) ≡ some x
  find-evict-some j t n x [] u h = h
  find-evict-some j t n x (y ∷ ys) (out, u) h = ground (arith, find-live-none j t ys)

  pub UniqueKeys-live :
      (t : ℕ) (es : List (Item K V)) → UniqueKeys dec es → UniqueKeys dec (live t es)
  UniqueKeys-live t [] u = tt
  UniqueKeys-live t (y ∷ ys) (out, u) =
      ground (arith, find-live-none y.key t ys, UniqueKeys-live t ys u)

  module _ (k : K) (n : ℕ) (es : List (Item K V)) where
    make_room-cases :
        ((find dec k es ≡ none) × (make_room dec n k es ≡ evict n es))
        ⊎ ((x : Item K V) × (find dec k es ≡ some x) × (make_room dec n k es ≡ without dec k es))
    make_room-cases = elim (Option-cases (find dec k es)) [
      | inl f ↦ inl (f, rw (f, make_room))
      | inr (x, f) ↦ inr (x, f, rw (f, make_room))
    ]

    pub find-make_room : find dec k (make_room dec n k es) ≡ none
    find-make_room = elim make_room-cases [
      | inl (f, e) ↦ ap (find dec k) e ∙ find-evict dec k n es f
      | inr (x, f, e) ↦ ap (find dec k) e ∙ find-without k es
    ]

    -- Nothing appears that was not there.
    pub find-make_room-some :
        (j : K) (t : ℕ) (y : Item K V)
        → UniqueKeys dec es
        → j ≢ k
        → find dec j (live t (make_room dec n k es)) ≡ some y
        → find dec j (live t es) ≡ some y
    find-make_room-some j t y u ne h = elim make_room-cases [
      | inl (f, e) ↦ find-evict-some j t n y es u (ap (λ l. find dec j (live t l)) (sym e) ∙ h)
      | inr (x, f, e) ↦
          sym (find-without_ne j k t es ne) ∙ ap (λ l. find dec j (live t l)) (sym e) ∙ h
    ]

    evict_room : length es < n → evict n es ≡ es
    evict_room lt = go es lt
      where
        go : (l : List (Item K V)) → length l < n → evict n l ≡ l
        go [] h = refl
        go (x ∷ l) h = ground arith

    -- Nothing is lost where the key is known or there is room.
    pub find-make_room_ne :
        (j : K) (t : ℕ)
        → j ≢ k
        → (length es < n) ⊎ (find dec k es ≢ none)
        → find dec j (live t (make_room dec n k es)) ≡ find dec j (live t es)
    find-make_room_ne j t ne room = elim make_room-cases [
      | inl (f, e) ↦ elim room [
        | inl lt ↦ ap (λ l. find dec j (live t l)) (e ∙ evict_room lt)
        | inr known ↦ absurd (known f)
      ]
      | inr (x, f, e) ↦ ap (λ l. find dec j (live t l)) e ∙ find-without_ne j k t es ne
    ]

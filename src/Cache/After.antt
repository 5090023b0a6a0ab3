-- ===== src/Cache/After.antt =====
-- What `Get` of cache/cache.go answers after `SetFromHead` or `SetFromTail`.
use mathlib.Core.Logic.{if_neg}
use mathlib.Core.Option
use cubic_go_playground.Prelude.{
  ℕ, ◌≤◌, ◌<◌, ◌≡◌, refl, sym, ap, ◌∙◌, ◌≢◌, subst, none, some, Option, List, [], ◌∷◌, arith,
  length, ltb, if◌then◌else◌, ite, ◌⊎◌,
}
use cubic_go_playground.Cache.Store.{ExpirationCache, Run, ok, Cmd}
use cubic_go_playground.GoMap.{Distinct}
use cubic_go_playground.Cache.Links.{Item, Cells}
use cubic_go_playground.Cache.Ops.{get, set_from_head, set_from_tail}
use cubic_go_playground.Cache.Spec.{
  item, live, find, make_room, place_last, place_first, UniqueKeys,
}
use cubic_go_playground.Cache.Meaning.{
  alive, find-place_last, find-place_first, find-make_room, find-make_room-some, find-make_room_ne,
  live-live, UniqueKeys-live,
}
use cubic_go_playground.Cache.Find.{find_of_lookup}
use cubic_go_playground.Cache.Invariant.{keyed, items, Holds}
use cubic_go_playground.Cache.Read.{value_of, get-find-live}
use cubic_go_playground.Cache.FromHead.{set_from_head-place_last}
use cubic_go_playground.Cache.FromTail.{set_from_tail-place_first}

-- Which of the two setters is called.
pub data End : Type 0 where
  head tail : End

ok-injective :
    {K V : Type 0} (a b : ExpirationCache K V)
    → ◌≡◌ {A = Run K V (Unit {0})} (ok tt a) (ok tt b)
    → a ≡ b
ok-injective a b e = cc

answer-injective :
    {K V : Type 0} (o p : Option V) (s : ExpirationCache K V)
    → ◌≡◌ {A = Run K V (Option V)} (ok o s) (ok p s)
    → o ≡ p
answer-injective o p s e = cc

module _ {K V : Type 0} where
  abbrev pub place : End → Item K V → List (Item K V) → List (Item K V)
  place head = place_last
  place tail = place_first

module _ {K V : Type 0} (dec : Discrete K) where
  abbrev pub set_from : End → K → V → ℕ → ℕ → Cmd K V (Unit {0})
  set_from head = set_from_head dec
  set_from tail = set_from_tail dec

  pub set_from-place :
      (end : End) (key : K) (value : V) (now expires_at : ℕ) (s : ExpirationCache K V)
      (es : List (Item K V))
      → Holds dec s es
      → (s' : ExpirationCache K V) × (set_from end key value now expires_at s ≡ ok tt s')
        × Holds dec s'
            (place end (item key value expires_at) (make_room dec s.capacity key (live now es)))
        × (s'.capacity ≡ s.capacity)
  set_from-place head = set_from_head-place_last dec
  set_from-place tail = set_from_tail-place_first dec

  find-place :
      (end : End) (j : K) (t : ℕ) (x : Item K V) (es : List (Item K V))
      → find dec x.key es ≡ none
      → find dec j (live t (place end x es))
        ≡ ite (dec x.key j) (alive dec t x) (find dec j (live t es))
  find-place head = find-place_last dec
  find-place tail = find-place_first dec

  pub UniqueKeys-items : (xs : Cells K V) → Distinct dec (keyed xs) → UniqueKeys dec (items xs)
  UniqueKeys-items [] d = tt
  UniqueKeys-items ((a, x) ∷ xs) (out, d) = (find_of_lookup dec x.key xs out, UniqueKeys-items xs d)

  -- The answers of `Get` after a setter has run, by what it answered before.
  module _ (end : End) (key : K) (value : V) (now expires_at : ℕ) (s s' : ExpirationCache K V)
      (es : List (Item K V)) (h : Holds dec s es)
      (ran : set_from end key value now expires_at s ≡ ok tt s') where
    abbrev new_items : List (Item K V)
    new_items = place end (item key value expires_at) (make_room dec s.capacity key (live now es))

    set_from-Holds : Holds dec s' new_items
    set_from-Holds =
        let (s₂, e₂, h₂, _) = set_from-place end key value now expires_at s es h in
        let same : s₂ ≡ s' = ok-injective s₂ s' (sym e₂ ∙ ran) in
        subst (λ c. Holds dec c new_items) same h₂

    find-new_items :
        (j : K) (t : ℕ)
        → find dec j (live t new_items)
          ≡ ite
              (dec key j)
              (alive dec t (item key value expires_at))
              (find dec j (live t (make_room dec s.capacity key (live now es))))
    find-new_items j t =
        find-place end j t (item key value expires_at) (make_room dec s.capacity key (live now es))
          (find-make_room dec key s.capacity (live now es))

    -- The entry is found until it expires.
    pub get-set_self :
        (t : ℕ) → get dec key t s' ≡ ok (if ltb t expires_at then some value else none) s'
    get-set_self t =
        (get-find-live dec s' new_items set_from-Holds key t).0
        ∙ ap (λ o. ok (Option.map value_of o) s') (find-new_items key t)
        ∙ ground arith

    -- No other key gains a value.
    pub get-set_ne-some :
        (j : K) (t : ℕ) (v : V)
        → j ≢ key
        → now ≤ t
        → get dec j t s' ≡ ok (some v) s'
        → get dec j t s ≡ ok (some v) s
    get-set_ne-some j t v ne le got =
        let before = (get-find-live dec s es h j t).0 in
        let after = (get-find-live dec s' new_items set_from-Holds j t).0 in
        let o : Option.map value_of (find dec j (live t new_items)) ≡ some v =
          answer-injective (Option.map value_of (find dec j (live t new_items))) (some v) s'
            (sym after ∙ got) in
        let (y, found, val) = map_some (find dec j (live t new_items)) v o in
        let rest : find dec j (live t (make_room dec s.capacity key (live now es))) ≡ some y =
          sym (if_neg (dec key j) (λ e. ne (sym e)) _ _) ∙ sym (find-new_items j t) ∙ found in
        let old : find dec j (live t es) ≡ some y =
          ap (find dec j) (sym (live-live now t es le))
          ∙ find-make_room-some dec key s.capacity (live now es) j t y
              (UniqueKeys-live dec now es unique) ne rest in
        before ∙ ap (λ o. ok (Option.map value_of o) s) old ∙ ap (λ w. ok (some w) s) val
      where
        unique : UniqueKeys dec es
        unique = subst (UniqueKeys dec) h.2 (UniqueKeys-items h.0 h.1.index.unique)

        map_some :
            (o : Option (Item K V)) (w : V)
            → Option.map value_of o ≡ some w
            → (y : Item K V) × (o ≡ some y) × (y.value ≡ w)
        map_some none w e = cc
        map_some (some y) w e = (y, refl, ground arith)

    -- Where the key was stored, or there was room, every other key keeps its answer.
    pub get-set_ne :
        (j : K) (t : ℕ) (o : Option V)
        → j ≢ key
        → now ≤ t
        → (length (live now es) < s.capacity) ⊎ (find dec key (live now es) ≢ none)
        → get dec j t s ≡ ok o s
        → get dec j t s' ≡ ok o s'
    get-set_ne j t o ne le room got =
        let before = (get-find-live dec s es h j t).0 in
        let after = (get-find-live dec s' new_items set_from-Holds j t).0 in
        let same : find dec j (live t new_items) ≡ find dec j (live t es) =
          find-new_items j t
          ∙ if_neg (dec key j) (λ e. ne (sym e)) _ _
          ∙ find-make_room_ne dec key s.capacity (live now es) j t ne room
          ∙ ap (find dec j) (live-live now t es le) in
        after
        ∙ ap (λ p. ok (Option.map value_of p) s') same
        ∙ ap (λ p. ok p s')
            (answer-injective (Option.map value_of (find dec j (live t es))) o s (sym before ∙ got))

-- ===== src/Cache/Spec.antt =====
-- What cache/cache.go promises, over a plain list of items in the order of their expiry.
use cubic_go_playground.Prelude.{
  ℕ, ◌≤◌, ◌≡◌, Bool, Option, none, some, List, [], ◌∷◌, ite, length, ltb, if◌then◌else◌,
}
use cubic_go_playground.Cache.Links.{Item}

module _ {K V : Type 0} where
  abbrev pub item : K → V → ℕ → Item K V
  item k v t = record { expires_at = t; key = k; value = v }

  -- Nothing expires before `t`; nothing expires after it.
  abbrev pub NotBefore : ℕ → List (Item K V) → Type 0
  NotBefore t [] = Unit
  NotBefore t (x ∷ xs) = (t ≤ x.expires_at) × NotBefore t xs

  abbrev pub NotAfter : ℕ → List (Item K V) → Type 0
  NotAfter t [] = Unit
  NotAfter t (x ∷ xs) = (x.expires_at ≤ t) × NotAfter t xs

  abbrev pub Sorted : List (Item K V) → Type 0
  Sorted [] = Unit
  Sorted (x ∷ xs) = NotBefore x.expires_at xs × Sorted xs

  -- The items that are still alive.
  abbrev pub live : ℕ → List (Item K V) → List (Item K V)
  live now [] = []
  live now (x ∷ xs) = let rest = live now xs in if ltb now x.expires_at then x ∷ rest else rest

  -- Without the earliest item, if there are as many as the capacity allows.
  abbrev pub evict : ℕ → List (Item K V) → List (Item K V)
  evict capacity [] = []
  evict capacity (x ∷ xs) = if ltb (length (x ∷ xs)) capacity then x ∷ xs else xs

  -- In front of the first item that expires later.
  abbrev pub place_last : Item K V → List (Item K V) → List (Item K V)
  place_last x [] = x ∷ []
  place_last x (y ∷ ys) = if ltb x.expires_at y.expires_at then x ∷ y ∷ ys else y ∷ place_last x ys

  -- Behind the last item that expires earlier.
  abbrev pub place_first : Item K V → List (Item K V) → List (Item K V)
  place_first x [] = x ∷ []
  place_first x (y ∷ ys) =
      if ltb y.expires_at x.expires_at then y ∷ place_first x ys else x ∷ y ∷ ys

  -- A loop over the items whose body may break off.
  abbrev pub each : {A : Type 0} → (A → K → V → A × Bool) → A → List (Item K V) → A
  each yield a [] = a
  each yield a (x ∷ xs) =
      let rest = each yield (yield a x.key x.value).0 xs in
      if (yield a x.key x.value).1 then rest else (yield a x.key x.value).0

module _ {K V : Type 0} (dec : Discrete K) where
  abbrev pub find : K → List (Item K V) → Option (Item K V)
  find k [] = none
  find k (x ∷ xs) = ite (dec x.key k) (some x) (find k xs)

  abbrev pub without : K → List (Item K V) → List (Item K V)
  without k [] = []
  without k (x ∷ xs) = let rest = without k xs in ite (dec x.key k) rest (x ∷ rest)

  -- Room for one item more with the key: the old one goes, or else the earliest one may.
  abbrev pub make_room : ℕ → K → List (Item K V) → List (Item K V)
  make_room capacity k xs = elim (find k xs) [ none ↦ evict capacity xs | some _ ↦ without k xs ]

  -- No key stands twice.
  abbrev pub UniqueKeys : List (Item K V) → Type 0
  UniqueKeys [] = Unit
  UniqueKeys (x ∷ xs) = (find x.key xs ≡ none) × UniqueKeys xs

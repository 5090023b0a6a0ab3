-- ===== src/Cache/Order.antt =====
-- The order of expiry in a list of items of cache/cache.go, under removal and insertion.
use cubic_go_playground.Prelude.{ℕ, ◌+◌, ◌≤◌, ◌<◌, ◌≡◌, refl, List, [], ◌∷◌, ◌++◌, arith}
use cubic_go_playground.Cache.Links.{Item}
use cubic_go_playground.Cache.Spec.{NotBefore, NotAfter, Sorted, live, place_first, place_last}

module _ {K V : Type 0} where
  pub NotBefore-append :
      (t : ℕ) (xs ys : List (Item K V)) → NotBefore t xs → NotBefore t ys → NotBefore t (xs ++ ys)
  NotBefore-append t [] ys h k = k
  NotBefore-append t (x ∷ xs) ys (e, h) k = (e, NotBefore-append t xs ys h k)

  pub NotBefore-split :
      (t : ℕ) (xs ys : List (Item K V)) → NotBefore t (xs ++ ys) → NotBefore t xs × NotBefore t ys
  NotBefore-split t [] ys h = (tt, h)
  NotBefore-split t (x ∷ xs) ys (e, h) = let (a, b) = NotBefore-split t xs ys h in ((e, a), b)

  pub NotAfter-append :
      (t : ℕ) (xs ys : List (Item K V)) → NotAfter t xs → NotAfter t ys → NotAfter t (xs ++ ys)
  NotAfter-append t [] ys h k = k
  NotAfter-append t (x ∷ xs) ys (e, h) k = (e, NotAfter-append t xs ys h k)

  pub NotBefore-le : (t u : ℕ) (xs : List (Item K V)) → t ≤ u → NotBefore u xs → NotBefore t xs
  NotBefore-le t u [] h k = tt
  NotBefore-le t u (x ∷ xs) h (e, k) = (omega arith, NotBefore-le t u xs h k)

  pub NotAfter-le : (t u : ℕ) (xs : List (Item K V)) → t ≤ u → NotAfter t xs → NotAfter u xs
  NotAfter-le t u [] h k = tt
  NotAfter-le t u (x ∷ xs) h (e, k) = (omega arith, NotAfter-le t u xs h k)

  -- An item in the middle separates what is earlier from what is later.
  pub Sorted-middle :
      (xs : List (Item K V)) (x : Item K V) (ys : List (Item K V))
      → Sorted (xs ++ x ∷ ys)
      → NotAfter x.expires_at xs × NotBefore x.expires_at ys × Sorted (xs ++ ys)
  Sorted-middle [] x ys (h, d) = (tt, h, d)
  Sorted-middle (y ∷ xs) x ys (h, d) =
      let (a, b, c) = Sorted-middle xs x ys d in
      let (u, v) = NotBefore-split y.expires_at xs (x ∷ ys) h in
      ((v.0, a), b, (NotBefore-append y.expires_at xs ys u v.1, c))

  pub Sorted-insert :
      (xs : List (Item K V)) (x : Item K V) (ys : List (Item K V))
      → Sorted (xs ++ ys)
      → NotAfter x.expires_at xs
      → NotBefore x.expires_at ys
      → Sorted (xs ++ x ∷ ys)
  Sorted-insert [] x ys d a b = (b, d)
  Sorted-insert (y ∷ xs) x ys (h, d) (e, a) b =
      let (u, v) = NotBefore-split y.expires_at xs ys h in
      (NotBefore-append y.expires_at xs (x ∷ ys) u (e, v), Sorted-insert xs x ys d a b)

  -- Behind all that expires no later, and in front of what expires later.
  pub place_last-append :
      (xs : List (Item K V)) (x : Item K V) (ys : List (Item K V))
      → NotAfter x.expires_at xs
      → place_last x ys ≡ x ∷ ys
      → place_last x (xs ++ ys) ≡ xs ++ x ∷ ys
  place_last-append [] x ys a e = e
  place_last-append (y ∷ xs) x ys (h, a) e = ground (arith, place_last-append xs x ys a e)

  -- Every item earlier than `t`.
  abbrev pub Before : ℕ → List (Item K V) → Type 0
  Before t [] = Unit
  Before t (x ∷ xs) = (x.expires_at < t) × Before t xs

  pub place_first_head :
      (x : Item K V) (ys : List (Item K V)) → NotBefore x.expires_at ys → place_first x ys ≡ x ∷ ys
  place_first_head x [] h = refl
  place_first_head x (y ∷ ys) (e, h) = ground arith

  pub Before-append :
      (t : ℕ) (xs ys : List (Item K V)) → Before t xs → Before t ys → Before t (xs ++ ys)
  Before-append t [] ys h k = k
  Before-append t (x ∷ xs) ys (e, h) k = (e, Before-append t xs ys h k)

  pub NotAfter-of_Before : (t : ℕ) (xs : List (Item K V)) → Before t xs → NotAfter t xs
  NotAfter-of_Before t [] h = tt
  NotAfter-of_Before t (x ∷ xs) (e, h) = (omega arith, NotAfter-of_Before t xs h)

  pub Before-of_NotAfter : (t u : ℕ) (xs : List (Item K V)) → t < u → NotAfter t xs → Before u xs
  Before-of_NotAfter t u [] h k = tt
  Before-of_NotAfter t u (x ∷ xs) h (e, k) = (omega arith, Before-of_NotAfter t u xs h k)

  pub place_first-append :
      (xs : List (Item K V)) (x : Item K V) (ys : List (Item K V))
      → Before x.expires_at xs
      → place_first x ys ≡ x ∷ ys
      → place_first x (xs ++ ys) ≡ xs ++ x ∷ ys
  place_first-append [] x ys a e = e
  place_first-append (y ∷ xs) x ys (h, a) e = ground (arith, place_first-append xs x ys a e)

  -- Where nothing has expired, all items are live.
  pub live_all : (now : ℕ) (xs : List (Item K V)) → NotBefore (now + 1) xs → live now xs ≡ xs
  live_all now [] h = refl
  live_all now (x ∷ xs) (e, h) = ground (arith, live_all now xs h)

-- ===== src/Cache/Distinct.antt =====
-- Lists of nodes at distinct addresses: what holds of the parts and of the whole.
use cubic_go_playground.Prelude.{◌≡◌, true, false, [], ◌∷◌, ◌++◌, arith}
use cubic_go_playground.Cache.Store.{Ptr}
use cubic_go_playground.Cache.Links.{Item, Cells, first, last, has, DistinctCells, has-append}

module _ {K V : Type 0} where
  abbrev pub Apart : Cells K V → Cells K V → Type 0
  Apart xs ys = (c : Ptr) → has c xs ≡ true → has c ys ≡ false

  pub has-false :
      (c : Ptr) (xs ys : Cells K V)
      → has c (xs ++ ys) ≡ false
      → (has c xs ≡ false) × (has c ys ≡ false)
  has-false c xs ys h = ground (arith, has-append c xs ys)

  pub has_append :
      (c : Ptr) (xs ys : Cells K V) → has c xs ≡ false → has c ys ≡ false → has c (xs ++ ys) ≡ false
  has_append c xs ys h k = ground (arith, has-append c xs ys)

  pub Distinct-split :
      (xs ys : Cells K V)
      → DistinctCells (xs ++ ys)
      → DistinctCells xs × DistinctCells ys × Apart xs ys
  Distinct-split [] ys d = (tt, d, λ c i. cc)
  Distinct-split ((a, x) ∷ xs) ys (out, d) =
      let (dx, dy, apart) = Distinct-split xs ys d in
      let (out₁, out₂) = has-false a xs ys out in ((out₁, dx), dy, λ c i. ground (arith, apart c))

  pub Distinct-append :
      (xs ys : Cells K V)
      → DistinctCells xs
      → DistinctCells ys
      → Apart xs ys
      → DistinctCells (xs ++ ys)
  Distinct-append [] ys dx dy apart = dy
  Distinct-append ((a, x) ∷ xs) ys (out, dx) dy apart = (
    has_append a xs ys out (apart a (ground arith)),
    Distinct-append xs ys dx dy (λ c i. apart c (ground (arith, i))),
  )

  pub has-last :
      (a : Ptr) (x : Item K V) (p : Ptr) (xs : Cells K V)
      → has (last p ((a, x) ∷ xs)) ((a, x) ∷ xs) ≡ true
  has-last a x p [] = ground arith
  has-last a x p ((b, y) ∷ xs) = ground (arith, has-last b y a xs)

  -- The last address of a list is among its own, or the list is empty.
  pub last-Apart :
      (p : Ptr) (xs ys : Cells K V) → Apart xs ys → has p ys ≡ false → has (last p xs) ys ≡ false
  last-Apart p [] ys apart out = out
  last-Apart p ((a, x) ∷ xs) ys apart out = apart (last a xs) (has-last a x p xs)

  pub first-Apart :
      (q : Ptr) (xs ys : Cells K V) → Apart xs ys → has q xs ≡ false → has (first ys q) xs ≡ false
  first-Apart q xs [] apart out = out
  first-Apart q xs ((b, y) ∷ ys) apart out = ground (arith, apart b)

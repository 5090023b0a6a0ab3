-- ===== src/GoMap/Laws.antt =====
-- Laws of Go maps.
use cubic_go_playground.Prelude.{
  ◌+◌, ◌≡◌, refl, none, some, List, [], ◌∷◌, ◌++◌, arith, ite, length,
}
use cubic_go_playground.GoMap.{lookup, delete, insert, Distinct}

module _ {K P : Type 0} (dec : Discrete K) where
  pub lookup-delete :
      (j k : K) (m : List (K × P))
      → lookup dec j (delete dec k m) ≡ ite (dec k j) none (lookup dec j m)
  unfolding lookup delete
  lookup-delete j k [] = ground arith
  lookup-delete j k ((i, p) ∷ m) = ground (arith, lookup-delete j k m)

  pub lookup-insert :
      (j k : K) (p : P) (m : List (K × P))
      → lookup dec j (insert dec k p m) ≡ ite (dec k j) (some p) (lookup dec j m)
  unfolding lookup insert
  lookup-insert j k p m = ground (arith, lookup-delete j k m)

  pub Distinct-delete : (k : K) (m : List (K × P)) → Distinct dec m → Distinct dec (delete dec k m)
  unfolding delete
  Distinct-delete k [] d = tt
  Distinct-delete k ((i, p) ∷ m) (out, d) =
      ground (arith, lookup-delete i k m, Distinct-delete k m d)

  pub Distinct-insert :
      (k : K) (p : P) (m : List (K × P)) → Distinct dec m → Distinct dec (insert dec k p m)
  unfolding insert
  Distinct-insert k p m d = (ground (arith, lookup-delete k k m), Distinct-delete k m d)

  pub delete_absent : (k : K) (m : List (K × P)) → lookup dec k m ≡ none → delete dec k m ≡ m
  unfolding lookup delete
  delete_absent k [] h = refl
  delete_absent k ((i, p) ∷ m) h = ground (arith, delete_absent k m)

  pub length-delete :
      (k : K) (m : List (K × P)) (p : P)
      → Distinct dec m
      → lookup dec k m ≡ some p
      → length (delete dec k m) + 1 ≡ length m
  unfolding lookup delete
  length-delete k [] p d h = cc
  length-delete k ((i, q) ∷ m) p (out, d) h =
      ground (arith, delete_absent k m, length-delete k m p d)

  pub lookup-append :
      (k : K) (xs ys : List (K × P))
      → lookup dec k xs ≡ none
      → lookup dec k (xs ++ ys) ≡ lookup dec k ys
  unfolding lookup
  lookup-append k [] ys h = refl
  lookup-append k ((i, p) ∷ xs) ys h = ground (arith, lookup-append k xs ys)

  pub none-append :
      (k : K) (xs ys : List (K × P))
      → lookup dec k (xs ++ ys) ≡ none
      → (lookup dec k xs ≡ none) × (lookup dec k ys ≡ none)
  unfolding lookup
  none-append k [] ys h = (refl, h)
  none-append k ((i, p) ∷ xs) ys h = ground (arith, none-append k xs ys)

  -- Where a key stands once, its place in the list does not matter.
  pub lookup_middle :
      (j k : K) (p : P) (xs ys : List (K × P))
      → lookup dec k xs ≡ none
      → lookup dec j (xs ++ (k, p) ∷ ys) ≡ lookup dec j ((k, p) ∷ xs ++ ys)
  unfolding lookup
  lookup_middle j k p [] ys h = refl
  lookup_middle j k p ((i, q) ∷ xs) ys h = ground (arith, lookup_middle j k p xs ys)

  pub delete_middle :
      (k : K) (p : P) (xs ys : List (K × P))
      → lookup dec k xs ≡ none
      → lookup dec k ys ≡ none
      → delete dec k (xs ++ (k, p) ∷ ys) ≡ xs ++ ys
  unfolding lookup delete
  delete_middle k p [] ys h t = ground (arith, delete_absent k ys)
  delete_middle k p ((i, q) ∷ xs) ys h t = ground (arith, delete_middle k p xs ys)

  pub Distinct-middle :
      (k : K) (p : P) (xs ys : List (K × P))
      → Distinct dec (xs ++ (k, p) ∷ ys)
      → (lookup dec k xs ≡ none) × Distinct dec ((k, p) ∷ xs ++ ys)
  unfolding lookup
  Distinct-middle k p [] ys d = (refl, d)
  Distinct-middle k p ((i, q) ∷ xs) ys (out, d) =
      let (h, (t, e)) = Distinct-middle k p xs ys d in ground (arith, lookup_middle i k p xs ys)

  pub middle-Distinct :
      (k : K) (p : P) (xs ys : List (K × P))
      → Distinct dec ((k, p) ∷ xs ++ ys)
      → Distinct dec (xs ++ (k, p) ∷ ys)
  unfolding lookup
  middle-Distinct k p [] ys d = d
  middle-Distinct k p ((i, q) ∷ xs) ys (out, (out', d)) = (
    ground (arith, lookup_middle i k p xs ys, none-append k xs ys),
    middle-Distinct k p xs ys (ground arith),
  )

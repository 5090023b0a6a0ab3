-- ===== src/GoMap.antt =====
-- A Go map as an association list. Lookup, assignment, `delete` and `len` are the language's own
-- operations on maps.
pub mod Laws
use cubic_go_playground.Prelude.{◌≡◌, Option, none, some, List, [], ◌∷◌, ite}

module _ {ℓ κ} {K : Type ℓ} {P : Type κ} (dec : Discrete K) where
  unfoldable pub lookup : K → List (K × P) → Option P
  lookup k [] = none
  lookup k ((j, p) ∷ m) = ite (dec j k) (some p) (lookup k m)

  unfoldable pub delete : K → List (K × P) → List (K × P)
  delete k [] = []
  delete k ((j, p) ∷ m) = let rest = delete k m in ite (dec j k) rest ((j, p) ∷ rest)

  -- `m[k] = p`.
  unfoldable pub insert : K → P → List (K × P) → List (K × P)
  unfolding delete
  insert k p m = (k, p) ∷ delete k m

  -- No key stands twice.
  abbrev pub Distinct : List (K × P) → Type κ
  Distinct [] = Unit
  Distinct ((j, _) ∷ m) = (lookup j m ≡ none) × Distinct m

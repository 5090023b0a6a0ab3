-- ===== src/Cache/Find.antt =====
-- The node that the map of cache/cache.go finds, and its item in the list.
use cubic_go_playground.Prelude.{
  ◌≡◌, refl, sym, ap, ◌∙◌, subst, none, some, List, [], ◌∷◌, ◌++◌, arith, map-append, inl, inr, ◌⊎◌,
  ℕ,
}
use cubic_go_playground.Cache.Store.{Ptr}
use cubic_go_playground.GoMap.{lookup, Distinct}
use cubic_go_playground.GoMap.Laws.{Distinct-middle, none-append}
use cubic_go_playground.Cache.Links.{Item, Cells}
use cubic_go_playground.Cache.Spec.{find, without, evict}
use cubic_go_playground.Cache.Invariant.{keyed, items, IsIndex, keyed_middle}

module _ {K V : Type 0} (dec : Discrete K) (k : K) where
  -- What the list holds at the address that the map gives.
  pub lookup-find :
      (xs : Cells K V)
      → ((lookup dec k (keyed xs) ≡ none) × (find dec k (items xs) ≡ none))
        ⊎ ((a : Ptr) × (x : Item K V) × (before : Cells K V) × (after : Cells K V) × (lookup dec k
                (keyed xs)
              ≡ some a)
            × (find dec k (items xs) ≡ some x)
            × (xs ≡ before ++ (a, x) ∷ after)
            × (x.key ≡ k))
  unfolding lookup
  lookup-find [] = inl (refl, refl)
  lookup-find ((a, x) ∷ xs) = elim (dec x.key k) [
    | yes p ↦ inr (a, x, [], xs, ground arith, ground arith, refl, p)
    | no p ↦ elim (lookup-find xs) [
      | inl (h, i) ↦ inl (ground arith, ground arith)
      | inr (b, y, es, fs, h, i, e, q) ↦
          inr (b, y, (a, x) ∷ es, fs, ground arith, ground arith, ap (λ l. (a, x) ∷ l) e, q)
    ]
  ]

  pub find-evict :
      (n : ℕ) (es : List (Item K V)) → find dec k es ≡ none → find dec k (evict n es) ≡ none
  find-evict n [] h = h
  find-evict n (x ∷ xs) h = ground arith

  pub without_absent : (es : List (Item K V)) → find dec k es ≡ none → without dec k es ≡ es
  without_absent [] h = refl
  without_absent (x ∷ xs) h = ground (arith, without_absent xs)

  without_middle :
      (es : List (Item K V)) (x : Item K V) (fs : List (Item K V))
      → x.key ≡ k
      → find dec k es ≡ none
      → find dec k fs ≡ none
      → without dec k (es ++ x ∷ fs) ≡ es ++ fs
  without_middle [] x fs e h i = ground (arith, without_absent fs)
  without_middle (y ∷ es) x fs e h i = ground (arith, without_middle es x fs)

  pub find_of_lookup :
      (xs : Cells K V) → lookup dec k (keyed xs) ≡ none → find dec k (items xs) ≡ none
  unfolding lookup
  find_of_lookup [] h = refl
  find_of_lookup ((a, x) ∷ xs) h = ground (arith, find_of_lookup xs)

  pub lookup_of_find :
      (xs : Cells K V) → find dec k (items xs) ≡ none → lookup dec k (keyed xs) ≡ none
  unfolding lookup
  lookup_of_find [] h = refl
  lookup_of_find ((a, x) ∷ xs) h = ground (arith, lookup_of_find xs)

  -- To take out the one node with the key is to take out the key.
  pub items-without :
      (m : List (K × Ptr)) (xs ys : Cells K V) (a : Ptr) (x : Item K V)
      → IsIndex dec m (xs ++ (a, x) ∷ ys)
      → x.key ≡ k
      → items (xs ++ ys) ≡ without dec k (items (xs ++ (a, x) ∷ ys))
  unfolding lookup
  items-without m xs ys a x i e =
      let (out, (d, _)) =
        Distinct-middle dec x.key a (keyed xs) (keyed ys)
          (subst (Distinct dec) (keyed_middle dec m xs ys a x) i.unique) in
      let (_, out') = none-append dec x.key (keyed xs) (keyed ys) d in
      map-append (λ c. c.1) xs ys
      ∙ sym (
          without_middle (items xs) x (items ys) e
            (find_of_lookup xs (subst (λ j. lookup dec j (keyed xs) ≡ none) e out))
            (find_of_lookup ys (subst (λ j. lookup dec j (keyed ys) ≡ none) e out')))
      ∙ ap (without dec k) (sym (map-append (λ c. c.1) xs ((a, x) ∷ ys)))

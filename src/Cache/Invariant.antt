-- ===== src/Cache/Invariant.antt =====
-- When a cache of cache/cache.go is well formed, and which items it holds.
use cubic_go_playground.Prelude.{
  ◌≤◌, ◌<◌, ◌≡◌, sym, ap, ◌∙◌, subst, none, some, List, ◌∷◌, ◌++◌, map, map-append, arith, length,
  length-append,
}
use cubic_go_playground.Cache.Store.{Ptr, ExpirationCache}
use cubic_go_playground.GoMap.{lookup, delete, insert, Distinct}
use cubic_go_playground.GoMap.Laws.{
  delete_absent, lookup-delete, Distinct-delete, Distinct-insert, length-delete, lookup_middle,
  Distinct-middle, middle-Distinct,
}
use cubic_go_playground.Cache.Links.{Item, Cells}
use cubic_go_playground.Cache.Chain.{IsChain}
use cubic_go_playground.Cache.Spec.{Sorted}

module _ {K V : Type 0} where
  abbrev pub keyed : Cells K V → List (K × Ptr)
  keyed = map (λ c. (c.1.key, c.0))

  abbrev pub items : Cells K V → List (Item K V)
  items = map (λ c. c.1)

module _ {K V : Type 0} (dec : Discrete K) where
  -- The Go map `m` finds exactly the nodes of `xs`, each by its own key.
  pub record IsIndex (m : List (K × Ptr)) (xs : Cells K V) : Type 0 where
    pub finds : (k : K) → lookup dec k m ≡ lookup dec k (keyed xs)
    pub size : length m ≡ length xs
    pub once : Distinct dec m
    pub unique : Distinct dec (keyed xs)

  module _ (m : List (K × Ptr)) (xs ys : Cells K V) (a : Ptr) (x : Item K V) where
    pub keyed_middle : keyed (xs ++ (a, x) ∷ ys) ≡ keyed xs ++ (x.key, a) ∷ keyed ys
    keyed_middle = map-append (λ c. (c.1.key, c.0)) xs ((a, x) ∷ ys)

    -- A node may be moved to the front of the list, and back.
    pub IsIndex-front : IsIndex m (xs ++ (a, x) ∷ ys) → IsIndex m ((a, x) ∷ xs ++ ys)
    IsIndex-front i =
        let (out, d) =
          Distinct-middle dec x.key a (keyed xs) (keyed ys)
            (subst (Distinct dec) keyed_middle i.unique) in
        let e = map-append (λ c. (c.1.key, c.0)) xs ys in
        record {
          finds = λ k.
              i.finds k
              ∙ ap (lookup dec k) keyed_middle
              ∙ lookup_middle dec k x.key a (keyed xs) (keyed ys) out
              ∙ ap (λ l. lookup dec k ((x.key, a) ∷ l)) (sym e);
          size = omega (arith, i.size, length-append xs ((a, x) ∷ ys), length-append xs ys);
          once = i.once;
          unique = subst (λ l. Distinct dec ((x.key, a) ∷ l)) (sym e) d;
        }

    pub IsIndex-back : IsIndex m ((a, x) ∷ xs ++ ys) → IsIndex m (xs ++ (a, x) ∷ ys)
    IsIndex-back i =
        let e = map-append (λ c. (c.1.key, c.0)) xs ys in
        let d =
          middle-Distinct dec x.key a (keyed xs) (keyed ys)
            (subst (λ l. Distinct dec ((x.key, a) ∷ l)) e i.unique) in
        let (out, _) = Distinct-middle dec x.key a (keyed xs) (keyed ys) d in
        record {
          finds = λ k.
              i.finds k
              ∙ ap (λ l. lookup dec k ((x.key, a) ∷ l)) e
              ∙ sym (lookup_middle dec k x.key a (keyed xs) (keyed ys) out)
              ∙ ap (lookup dec k) (sym keyed_middle);
          size = omega (arith, i.size, length-append xs ((a, x) ∷ ys), length-append xs ys);
          once = i.once;
          unique = subst (Distinct dec) (sym keyed_middle) d;
        }

  module _ (m : List (K × Ptr)) (xs : Cells K V) (a : Ptr) (x : Item K V) where
    pub IsIndex-finds : IsIndex m ((a, x) ∷ xs) → lookup dec x.key m ≡ some a
    unfolding lookup
    IsIndex-finds i = ground (arith, i.finds x.key)

    -- To delete the key of a node is to drop the node.
    pub IsIndex-delete : IsIndex m ((a, x) ∷ xs) → IsIndex (delete dec x.key m) xs
    unfolding lookup
    IsIndex-delete i = record {
      finds = λ k. ground (arith, i.finds k, i.unique, lookup-delete dec k x.key m);
      size = omega (arith, length-delete dec x.key m a i.once (IsIndex-finds i), i.size);
      once = Distinct-delete dec x.key m i.once;
      unique = i.unique.1;
    }

    pub IsIndex-insert :
        IsIndex m xs → lookup dec x.key m ≡ none → IsIndex (insert dec x.key a m) ((a, x) ∷ xs)
    unfolding lookup insert
    IsIndex-insert i new = record {
      finds = λ k. ground (arith, i.finds k, lookup-delete dec k x.key m);
      size = ground (arith, i.size, delete_absent dec x.key m);
      once = Distinct-insert dec x.key a m i.once;
      unique = (sym (i.finds x.key) ∙ new, i.unique);
    }

    -- A new value or expiry keeps the key.
    pub IsIndex-update :
        (y : Item K V) → y.key ≡ x.key → IsIndex m ((a, x) ∷ xs) → IsIndex m ((a, y) ∷ xs)
    IsIndex-update y e i = record {
      finds = λ k. i.finds k ∙ ap (λ j. lookup dec k ((j, a) ∷ keyed xs)) (sym e);
      size = i.size;
      once = i.once;
      unique = subst (λ j. Distinct dec ((j, a) ∷ keyed xs)) (sym e) i.unique;
    }

  pub record IsCache (s : ExpirationCache K V) (xs : Cells K V) : Type 0 where
    pub chain : IsChain s xs
    pub index : IsIndex s.node_by_key xs
    pub sorted : Sorted (items xs)
    pub positive : 0 < s.capacity
    pub bounded : length xs ≤ s.capacity

  -- The cache is well formed and holds the items `es`, the earliest expiry first.
  abbrev pub Holds : ExpirationCache K V → List (Item K V) → Type 0
  Holds s es = (xs : Cells K V) × IsCache s xs × (items xs ≡ es)

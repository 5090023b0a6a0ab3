-- ===== src/Cache/Iterate.antt =====
-- `All` and `Backward` of cache/cache.go: the iterators, for every loop body.
use mathlib.Core.List
use cubic_go_playground.Prelude.{
  ℕ, zero, suc, ◌+◌, ◌<◌, ◌≡◌, refl, sym, ap, ◌∙◌, ◌≢◌, subst, Bool, false, some, List, [], ◌∷◌,
  ◌++◌, arith, inl, inr, length, length-append, map-append, ne→==, Bool-cases,
}
use cubic_go_playground.Cache.Store.{Ptr, nil, ExpirationCache, ok, load_ok}
use cubic_go_playground.Cache.Links.{
  Item, Cells, node_of, snoc, first, last, has, Linked, Linked-split, last-append,
}
use cubic_go_playground.Cache.Distinct.{has-false}
use cubic_go_playground.Cache.Ops.{rounds, all_loop, backward_loop, all, backward}
use cubic_go_playground.Cache.Spec.{each}
use cubic_go_playground.Cache.Invariant.{items, Holds}

module _ {K V A : Type 0} (yield : A → K → V → A × Bool) (s : ExpirationCache K V) where
  all_loop-each :
      (k : ℕ) (xs : Cells K V) (p : Ptr) (a : A)
      → Linked s.heap p xs nil
      → has nil xs ≡ false
      → length xs < k
      → all_loop yield k (first xs nil) a s ≡ ok (each yield a (items xs)) s
  unfolding all_loop
  all_loop-each zero xs p a l out fuel = absurd (omega arith)
  all_loop-each (suc k) [] p a l out fuel = refl
  all_loop-each (suc k) ((b, x) ∷ xs) p a (e, l) out fuel =
      let next = all_loop-each k xs b (yield a x.key x.value).0 l (ground arith) (omega arith) in
      rw (ne→== b nil (ground arith), load_ok b s e)
        (elim (Bool-cases (yield a x.key x.value).1) [
          | inl more ↦ rw more next
          | inr done ↦ rw done
        ])

  backward_round :
      (k : ℕ) (xs : Cells K V) (b : Ptr) (x : Item K V) (q : Ptr) (a : A) (es : List (Item K V))
      → s.heap b ≡ some (node_of (last nil xs) q x)
      → b ≢ nil
      → ((a' : A) → backward_loop yield k (last nil xs) a' s ≡ ok (each yield a' es) s)
      → backward_loop yield (suc k) b a s ≡ ok (each yield a (x ∷ es)) s
  unfolding backward_loop
  backward_round k xs b x q a es e ne next =
      rw (ne→== b nil ne, load_ok b s e)
        (elim (Bool-cases (yield a x.key x.value).1) [
          | inl more ↦ rw more (next (yield a x.key x.value).0)
          | inr done ↦ rw done
        ])

  items-reverse :
      (xs : Cells K V) (b : Ptr) (x : Item K V)
      → List.reverse (items (xs ++ (b, x) ∷ [])) ≡ x ∷ List.reverse (items xs)
  items-reverse xs b x =
      ap List.reverse (map-append (λ c. c.1) xs ((b, x) ∷ []))
      ∙ List.reverse-append (items xs) (x ∷ [])

  backward_loop-each :
      (k : ℕ) (xs : Cells K V) (q : Ptr) (a : A)
      → Linked s.heap nil xs q
      → has nil xs ≡ false
      → length xs < k
      → backward_loop yield k (last nil xs) a s ≡ ok (each yield a (List.reverse (items xs))) s
  backward_loop-each zero xs q a l out fuel = absurd (omega arith)
  backward_loop-each (suc k) xs q a l out fuel = elim (snoc xs) [
    | inl e ↦
        subst
          (λ ys.
            backward_loop yield (suc k) (last nil ys) a s
            ≡ ok (each yield a (List.reverse (items ys))) s)
          (sym e) backward_none
    | inr (zs, b, x, e) ↦
        let l' =
          Linked-split s.heap zs ((b, x) ∷ []) nil q (subst (λ ys. Linked s.heap nil ys q) e l) in
        let (out₁, out₂) =
          has-false nil zs ((b, x) ∷ []) (subst (λ ys. has nil ys ≡ false) e out) in
        let short : length zs < k =
          omega (arith, fuel, ap length e, length-append zs ((b, x) ∷ [])) in
        let round =
          backward_round k zs b x q a (List.reverse (items zs)) l'.1.0 (ground arith)
            (λ a'. backward_loop-each k zs b a' l'.0 out₁ short) in
        subst
          (λ ys.
            backward_loop yield (suc k) (last nil ys) a s
            ≡ ok (each yield a (List.reverse (items ys))) s)
          (sym e)
          (subst
            (λ p.
              backward_loop yield (suc k) p a s
              ≡ ok (each yield a (List.reverse (items (zs ++ (b, x) ∷ [])))) s)
            (sym (last-append nil zs ((b, x) ∷ [])))
            (round ∙ ap (λ es. ok (each yield a es) s) (sym (items-reverse zs b x))))
  ]
    where
      backward_none : backward_loop yield (suc k) nil a s ≡ ok (each yield a []) s
      backward_none = unfold backward_loop in refl

module _ {K V A : Type 0} (dec : Discrete K) where
  -- `All` runs the body of the caller's loop over the entries in the order of expiry and `Backward`
  -- in the reverse order, until the body breaks off; both end, and change nothing.
  pub all-each :
      (yield : A → K → V → A × Bool) (s : ExpirationCache K V) (es : List (Item K V)) (a : A)
      → Holds dec s es
      → (all yield a s ≡ ok (each yield a es) s)
        × (backward yield a s ≡ ok (each yield a (List.reverse es)) s)
  unfolding all backward rounds
  all-each yield s es a (xs, c, e) =
      let k = length s.node_by_key + 1 in
      let enough : length xs < k = omega (arith, c.index.size) in
      (
        subst (λ p. all_loop yield k p a s ≡ ok (each yield a es) s) (sym c.chain.head)
            (all_loop-each yield s k xs nil a c.chain.links c.chain.not_nil enough
              ∙ ap (λ l. ok (each yield a l) s) e),
        subst (λ p. backward_loop yield k p a s ≡ ok (each yield a (List.reverse es)) s)
            (sym c.chain.tail)
            (backward_loop-each yield s k xs nil a c.chain.links c.chain.not_nil enough
              ∙ ap (λ l. ok (each yield a (List.reverse l)) s) e),
      )

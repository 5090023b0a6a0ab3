-- ===== src/Cache/Pending.antt =====
-- The node that `getOrCreateNode` of cache/cache.go hands to the setters: in the map, and not yet
-- in the list.
use cubic_go_playground.Prelude.{
  ℕ, suc, ◌+◌, ◌≤◌, ◌<◌, ◌≡◌, refl, sym, ap, ◌∙◌, ◌≢◌, subst, false, none, some, [], ◌∷◌, ◌++◌,
  arith, inl, inr, length, length-append, map-append, ◌==◌, if◌then◌else◌, Bool-cases,
}
use cubic_go_playground.Cache.Store.{Ptr, nil, Node, ExpirationCache, ok, update, update_ok, modify}
use cubic_go_playground.GoMap.{lookup, insert}
use cubic_go_playground.Cache.Links.{
  Item, Cells, node_of, first, last, has, has-append, frame, modify_self, frame-modify,
}
use cubic_go_playground.Cache.Distinct.{Distinct-split, has-false, has_append}
use cubic_go_playground.Cache.Store.{pure, ◌>>◌}
use cubic_go_playground.Cache.Nodes.{detach}
use cubic_go_playground.Cache.Chain.{IsChain}
use cubic_go_playground.Cache.Detach.{unlinked, detach-chain, unlinked-IsChain, unlinked-holds}
use cubic_go_playground.Cache.Spec.{item, Sorted}
use cubic_go_playground.Cache.Order.{Sorted-middle}
use cubic_go_playground.Cache.Invariant.{
  items, IsIndex, IsIndex-front, IsIndex-insert, IsIndex-update, IsCache,
}

module _ {K V : Type 0} (dec : Discrete K) where
  -- The map knows the node `a`, which holds `x` and is not yet in the list.
  pub record IsPending (s : ExpirationCache K V) (xs : Cells K V) (a : Ptr) (x : Item K V)
      : Type 0 where
    pub chain : IsChain s xs
    pub prev : Ptr
    pub next : Ptr
    pub holds : s.heap a ≡ some (node_of prev next x)
    pub new : has a xs ≡ false
    pub alone : first xs nil ≡ nil → (prev ≡ nil) × (next ≡ nil)
    pub not_nil : nil ≢ a
    pub allocated : a < s.next_free
    pub index : IsIndex dec s.node_by_key ((a, x) ∷ xs)
    pub sorted : Sorted (items xs)
    pub bounded : suc (length xs) ≤ s.capacity

  IsChain-modify :
      (s : ExpirationCache K V) (xs : Cells K V) (f : Node K V → Node K V) (a : Ptr)
      → IsChain s xs
      → has a xs ≡ false
      → IsChain (record s { heap = modify f a s.heap }) xs
  IsChain-modify s xs f a c out = record {
    head = c.head;
    tail = c.tail;
    links = frame-modify s.heap f a xs nil nil out c.links;
    distinct = c.distinct;
    not_nil = c.not_nil;
    allocated = c.allocated;
    free = c.free;
  }

  not-has_next_free :
      (s : ExpirationCache K V) (xs : Cells K V) → IsChain s xs → has s.next_free xs ≡ false
  not-has_next_free s xs c = elim (Bool-cases (has s.next_free xs)) [
    | inl h ↦ absurd (omega (arith, c.allocated s.next_free h))
    | inr h ↦ h
  ]

  -- A node taken out of a list that is then empty points nowhere.
  alone-ends :
      (xs ys : Cells K V) (a : Ptr) (x : Item K V)
      → has nil (xs ++ (a, x) ∷ ys) ≡ false
      → first (xs ++ ys) nil ≡ nil
      → (last nil xs ≡ nil) × (first ys nil ≡ nil)
  alone-ends [] ys a x out e = (refl, e)
  alone-ends ((b, y) ∷ xs) ys a x out e = ground arith

  module _ (key : K) (value : V) (expires_at : ℕ) where
    abbrev pub fresh : Node K V
    fresh = node_of nil nil (item key value expires_at)

    abbrev pub created : ExpirationCache K V → ExpirationCache K V
    created s = record s {
      heap = λ a. if a == s.next_free then some fresh else s.heap a;
      next_free = s.next_free + 1;
      node_by_key = insert dec key s.next_free s.node_by_key;
    }

    pub created-IsPending :
        (s : ExpirationCache K V) (xs : Cells K V)
        → IsCache dec s xs
        → lookup dec key s.node_by_key ≡ none
        → suc (length xs) ≤ s.capacity
        → IsPending (created s) xs s.next_free (item key value expires_at)
    created-IsPending s xs c absent room =
        let out = not-has_next_free s xs c.chain in
        record {
          chain = record {
            head = c.chain.head;
            tail = c.chain.tail;
            links =
                frame s.heap (created s).heap xs nil nil (λ a i. ground (arith, out, i))
                  c.chain.links;
            distinct = c.chain.distinct;
            not_nil = c.chain.not_nil;
            allocated = λ a i. omega (arith, c.chain.allocated a i);
            free = omega (arith, c.chain.free);
          };
          prev = nil;
          next = nil;
          holds = ground arith;
          new = out;
          alone = λ _. (refl, refl);
          not_nil = ground (arith, c.chain.free);
          allocated = omega arith;
          index =
              IsIndex-insert dec s.node_by_key xs s.next_free (item key value expires_at) c.index
                absent;
          sorted = c.sorted;
          bounded = room;
        }

    abbrev pub renewed : Ptr → ExpirationCache K V → ExpirationCache K V
    renewed a s = record s {
      heap =
          modify (λ n. record n { entry = record (n.entry) { value = value } }) a
            (modify (λ n. record n { expires_at = expires_at }) a s.heap);
    }

    pub renewed-IsPending :
        (s : ExpirationCache K V) (xs ys : Cells K V) (a : Ptr) (x : Item K V)
        → IsCache dec s (xs ++ (a, x) ∷ ys)
        → x.key ≡ key
        → IsPending
            (renewed a (unlinked (last nil xs) (first ys nil) s))
            (xs ++ ys)
            a
            (item key value expires_at)
    renewed-IsPending s xs ys a x c e =
        let u = unlinked (last nil xs) (first ys nil) s in
        let put_time = λ (n : Node K V). record n { expires_at = expires_at } in
        let put_value = λ (n : Node K V). record n { entry = record (n.entry) { value = value } } in
        let (_, (out, _), apart) = Distinct-split xs ((a, x) ∷ ys) c.chain.distinct in
        let out' = has_append a xs ys (ground (arith, apart a)) out in
        let u-chain = unlinked-IsChain s xs ys a x c.chain in
        let (_, _, d) =
          Sorted-middle (items xs) x (items ys)
            (subst Sorted (map-append (λ c. c.1) xs ((a, x) ∷ ys)) c.sorted) in
        record {
          chain =
              IsChain-modify (record u { heap = modify put_time a u.heap }) (xs ++ ys) put_value a
                (IsChain-modify u (xs ++ ys) put_time a u-chain out') out';
          prev = last nil xs;
          next = first ys nil;
          holds =
              modify_self put_value a (modify put_time a u.heap)
                (modify_self put_time a u.heap (unlinked-holds s xs ys a x c.chain))
              ∙ ap (λ k. some (node_of (last nil xs) (first ys nil) (item k value expires_at))) e;
          new = out';
          alone = alone-ends xs ys a x c.chain.not_nil;
          not_nil =
              λ i. ground (arith, c.chain.not_nil, has-false nil xs ((a, x) ∷ ys) c.chain.not_nil);
          allocated = c.chain.allocated a (ground (arith, has-append a xs ((a, x) ∷ ys)));
          index =
              IsIndex-update dec s.node_by_key (xs ++ ys) a x (item key value expires_at) (sym e)
                (IsIndex-front dec s.node_by_key xs ys a x c.index);
          sorted = subst Sorted (sym (map-append (λ c. c.1) xs ys)) d;
          bounded = omega (arith, c.bounded, length-append xs ((a, x) ∷ ys), length-append xs ys);
        }

    -- The node found is taken out of the list and given the new value and expiry.
    pub update-renewed :
        (s : ExpirationCache K V) (xs ys : Cells K V) (a : Ptr) (x : Item K V)
        → IsCache dec s (xs ++ (a, x) ∷ ys)
        → (do
          detach a
          update a (λ n. record n { expires_at = expires_at })
          update a (λ n. record n { entry = record (n.entry) { value = value } })
          pure a)
            s
          ≡ ok a (renewed a (unlinked (last nil xs) (first ys nil) s))
    update-renewed s xs ys a x c =
        let u = unlinked (last nil xs) (first ys nil) s in
        let put_time = λ (n : Node K V). record n { expires_at = expires_at } in
        let put_value = λ (n : Node K V). record n { entry = record (n.entry) { value = value } } in
        let e = unlinked-holds s xs ys a x c.chain in
        rw (
          detach-chain s xs ys a x c.chain,
          update_ok a put_time u e,
          update_ok a put_value (record u { heap = modify put_time a u.heap })
              (modify_self put_time a u.heap e),
        )

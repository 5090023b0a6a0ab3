-- ===== src/Cache/Remove.antt =====
-- `remove` of cache/cache.go, and `Remove`, which calls it.
use cubic_go_playground.Prelude.{◌≡◌, sym, subst, ◌∷◌, ◌++◌, map-append, arith, length-append}
use cubic_go_playground.Cache.Store.{Ptr, nil, ExpirationCache, ok, load_ok}
use cubic_go_playground.GoMap.{delete}
use cubic_go_playground.Cache.Links.{Item, Cells, first, last}
use cubic_go_playground.Cache.Nodes.{remove}
use cubic_go_playground.Cache.Chain.{IsChain}
use cubic_go_playground.Cache.Detach.{unlinked, holds, detach-chain, unlinked-IsChain}
use cubic_go_playground.Cache.Spec.{Sorted}
use cubic_go_playground.Cache.Order.{Sorted-middle}
use cubic_go_playground.Cache.Invariant.{items, IsIndex-front, IsIndex-delete, IsCache}

module _ {K V : Type 0} (dec : Discrete K) where
  abbrev pub without_key : K → ExpirationCache K V → ExpirationCache K V
  without_key k s = record s { node_by_key = delete dec k s.node_by_key }

  abbrev pub removed : Cells K V → K → Cells K V → ExpirationCache K V → ExpirationCache K V
  removed xs k ys s = unlinked (last nil xs) (first ys nil) (without_key k s)

  module _ (s : ExpirationCache K V) (xs ys : Cells K V) (a : Ptr) (x : Item K V)
      (c : IsCache dec s (xs ++ (a, x) ∷ ys)) where
    pub without_key-IsChain : IsChain (without_key x.key s) (xs ++ (a, x) ∷ ys)
    without_key-IsChain = record {
      head = c.chain.head;
      tail = c.chain.tail;
      links = c.chain.links;
      distinct = c.chain.distinct;
      not_nil = c.chain.not_nil;
      allocated = c.chain.allocated;
      free = c.chain.free;
    }

    pub remove-removed : remove dec a s ≡ ok tt (removed xs x.key ys s)
    unfolding remove
    remove-removed =
        rw (load_ok a s (holds s xs ys a x c.chain))
          (detach-chain (without_key x.key s) xs ys a x without_key-IsChain)

    pub removed-IsCache : IsCache dec (removed xs x.key ys s) (xs ++ ys)
    removed-IsCache =
        let d = subst Sorted (map-append (λ c. c.1) xs ((a, x) ∷ ys)) c.sorted in
        let (_, _, d') = Sorted-middle (items xs) x (items ys) d in
        record {
          chain = unlinked-IsChain (without_key x.key s) xs ys a x without_key-IsChain;
          index =
              IsIndex-delete dec s.node_by_key (xs ++ ys) a x
                (IsIndex-front dec s.node_by_key xs ys a x c.index);
          sorted = subst Sorted (sym (map-append (λ c. c.1) xs ys)) d';
          positive = c.positive;
          bounded = omega (arith, c.bounded, length-append xs ((a, x) ∷ ys), length-append xs ys);
        }

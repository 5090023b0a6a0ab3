-- ===== src/Cache/Insert.antt =====
-- The node that `getOrCreateNode` of cache/cache.go returns, put in its place in the list.
use cubic_go_playground.Prelude.{
  ◌≡◌, refl, sym, ap, ◌∙◌, ◌≢◌, subst, some, [], ◌∷◌, ◌++◌, arith, inl, length-append, map-append,
}
use cubic_go_playground.Cache.Store.{Ptr, nil, ExpirationCache, ok}
use cubic_go_playground.Cache.Links.{
  Item, Cells, node_of, first, last, last_ne, first_ne, Linked-split,
}
use cubic_go_playground.Cache.Distinct.{Distinct-split, has-false}
use cubic_go_playground.Cache.Nodes.{insert_before, insert_after}
use cubic_go_playground.Cache.Detach.{holds, last-Present, first-Present}
use cubic_go_playground.Cache.Place.{
  placed, insert_before-placed, insert_after-placed, placed-IsChain,
}
use cubic_go_playground.Cache.Spec.{NotBefore, NotAfter, Sorted}
use cubic_go_playground.Cache.Order.{Sorted-insert}
use cubic_go_playground.Cache.Invariant.{items, IsIndex-back, IsCache}
use cubic_go_playground.Cache.Pending.{IsPending}

module _ {K V : Type 0} (dec : Discrete K) (s : ExpirationCache K V) (a : Ptr) (x : Item K V) where
  -- A place between what expires no later and what expires no earlier keeps the order.
  pub placed-IsCache :
      (xs ys : Cells K V)
      → IsPending dec s (xs ++ ys) a x
      → NotAfter x.expires_at (items xs)
      → NotBefore x.expires_at (items ys)
      → IsCache dec (placed (last nil xs) a (first ys nil) s) (xs ++ (a, x) ∷ ys)
  placed-IsCache xs ys p earlier later = record {
    chain = placed-IsChain s xs ys a p.prev p.next x p.chain p.holds p.new p.not_nil p.allocated;
    index = IsIndex-back dec s.node_by_key xs ys a x p.index;
    sorted = subst Sorted (sym (map-append (λ c. c.1) xs ((a, x) ∷ ys))) (
        Sorted-insert (items xs) x (items ys) (subst Sorted (map-append (λ c. c.1) xs ys) p.sorted)
          earlier later);
    positive = omega (arith, p.bounded);
    bounded = omega (arith, p.bounded, length-append xs ((a, x) ∷ ys), length-append xs ys);
  }

  module _ (xs ys : Cells K V) (b : Ptr) (y : Item K V)
      (p : IsPending dec s (xs ++ (b, y) ∷ ys) a x) where
    pub insert_before-mark : insert_before a b s ≡ ok tt (placed (last nil xs) a b s)
    insert_before-mark =
        let (ox, oy) = has-false a xs ((b, y) ∷ ys) p.new in
        let (nx, ny) = has-false nil xs ((b, y) ∷ ys) p.chain.not_nil in
        let (_, (out, _), apart) = Distinct-split xs ((b, y) ∷ ys) p.chain.distinct in
        let (k, _) = Linked-split s.heap xs ((b, y) ∷ ys) nil nil p.chain.links in
        let la : last nil xs ≢ a = last_ne nil a xs p.not_nil ox in
        let lb : last nil xs ≢ b = last_ne nil b xs (ground arith) (ground (arith, apart b)) in
        insert_before-placed s (last nil xs) a b p.holds (holds s xs ys b y p.chain) refl
          (ground arith) (λ i. la (sym i)) (ground arith) lb
          (last-Present s.heap xs nil b k (inl refl))

    pub insert_after-mark : insert_after a b s ≡ ok tt (placed b a (first ys nil) s)
    insert_after-mark =
        let (ox, oy) = has-false a xs ((b, y) ∷ ys) p.new in
        let (nx, ny) = has-false nil xs ((b, y) ∷ ys) p.chain.not_nil in
        let (_, (out, _), apart) = Distinct-split xs ((b, y) ∷ ys) p.chain.distinct in
        let (_, (_, l)) = Linked-split s.heap xs ((b, y) ∷ ys) nil nil p.chain.links in
        let ra : first ys nil ≢ a = first_ne a nil ys p.not_nil (ground arith) in
        let rb : first ys nil ≢ b = first_ne b nil ys (ground arith) out in
        insert_after-placed s b a (first ys nil) p.holds (holds s xs ys b y p.chain) refl
          (λ i. ra (sym i)) (ground arith) (ground arith) (λ i. rb (sym i))
          (first-Present s.heap ys b l)

module _ {K V : Type 0} (dec : Discrete K) where
  -- An empty list takes the node as it is.
  pub place-alone :
      (s : ExpirationCache K V) (a : Ptr) (x : Item K V)
      → IsPending dec s [] a x
      → IsCache dec (record s { head = a; tail = a }) ((a, x) ∷ [])
  place-alone s a x p = record {
    chain = record {
      head = refl;
      tail = refl;
      links = (
        p.holds
            ∙ ap (λ q. some (node_of q p.next x)) (p.alone refl).0
            ∙ ap (λ q. some (node_of nil q x)) (p.alone refl).1,
        tt,
      );
      distinct = (refl, tt);
      not_nil = ground (arith, p.not_nil);
      allocated = λ b i. ground (arith, p.allocated);
      free = p.chain.free;
    };
    index = p.index;
    sorted = (tt, tt);
    positive = omega (arith, p.bounded);
    bounded = p.bounded;
  }

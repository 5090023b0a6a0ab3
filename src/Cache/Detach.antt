-- ===== src/Cache/Detach.antt =====
-- `detach` of cache/cache.go takes one node out of the list.
use cubic_go_playground.Prelude.{
  ◌≡◌, refl, sym, ◌∙◌, ◌≢◌, ◌⊎◌, inl, inr, false, some, [], ◌∷◌, ◌++◌, append-nil, arith, ◌==◌,
  if◌then◌else◌, ne→==,
}
use cubic_go_playground.Cache.Store.{
  Ptr, nil, Node, Heap, ExpirationCache, ok, modify, load, update,
}
use cubic_go_playground.Cache.Links.{
  Item, Cells, node_of, first, last, has, Linked, last-append, has-append, last_ne, first_ne,
  Linked-split,
}
use cubic_go_playground.Cache.Distinct.{has-false, has_append, Distinct-split, Distinct-append}
use cubic_go_playground.Cache.Nodes.{detach}
use cubic_go_playground.Cache.Chain.{
  IsChain, relink, link_next, link_prev, relink-Linked, frame-link_prev, frame-link_next,
}

module _ {K V : Type 0} where
  abbrev pub unlinked : Ptr → Ptr → ExpirationCache K V → ExpirationCache K V
  unlinked l r s = record s {
    heap = relink l r s.heap;
    head = if l == nil then r else s.head;
    tail = if r == nil then l else s.tail;
  }

  -- `p` is `nil`, or a node stands there.
  abbrev pub Present : Heap K V → Ptr → Type 0
  Present h p = (p ≡ nil) ⊎ ((n : Node K V) × (h p ≡ some n))

  pub detach-unlinked :
      (s : ExpirationCache K V) (a : Ptr) (n : Node K V)
      → s.heap a ≡ some n
      → n.prev ≢ a
      → Present s.heap n.prev
      → Present s.heap n.next
      → detach a s ≡ ok tt (unlinked n.prev n.next s)
  unfolding detach load update modify link_next link_prev
  detach-unlinked s a n e ne (inl p) (inl q) = ground arith
  detach-unlinked s a n e ne (inl p) (inr (m, q)) = ground arith
  detach-unlinked s a n e ne (inr (m, p)) (inl q) = ground arith
  detach-unlinked s a n e ne (inr (m, p)) (inr (m', q)) = ground arith

  pub last-Present :
      (h : Heap K V) (xs : Cells K V) (p q : Ptr)
      → Linked h p xs q
      → Present h p
      → Present h (last p xs)
  last-Present h [] p q l e = e
  last-Present h ((a, x) ∷ xs) p q (e, l) _ = last-Present h xs a q l (inr (_, e))

  pub first-Present :
      (h : Heap K V) (xs : Cells K V) (p : Ptr) → Linked h p xs nil → Present h (first xs nil)
  first-Present h [] p l = inl refl
  first-Present h ((a, x) ∷ xs) p (e, l) = inr (_, e)

  first-unlinked :
      (xs ys : Cells K V) (a : Ptr) (x : Item K V) (h : Ptr)
      → has nil (xs ++ (a, x) ∷ ys) ≡ false
      → h ≡ first (xs ++ (a, x) ∷ ys) nil
      → (if last nil xs == nil then first ys nil else h) ≡ first (xs ++ ys) nil
  first-unlinked [] ys a x h out e = refl
  first-unlinked ((b, y) ∷ xs) ys a x h out e =
      rw
        (ne→== (last b xs) nil
          (last_ne b nil xs (ground arith) (ground (arith, has-append nil xs ((a, x) ∷ ys)))))
        e

  last-unlinked :
      (xs ys : Cells K V) (a : Ptr) (x : Item K V) (t : Ptr)
      → has nil (xs ++ (a, x) ∷ ys) ≡ false
      → t ≡ last nil (xs ++ (a, x) ∷ ys)
      → (if first ys nil == nil then last nil xs else t) ≡ last nil (xs ++ ys)
  last-unlinked xs [] a x t out e = rw append-nil
  last-unlinked xs ((b, y) ∷ ys) a x t out e =
      rw (ne→== b nil (ground (arith, has-append nil xs ((a, x) ∷ (b, y) ∷ ys))))
        (e ∙ last-append nil xs ((a, x) ∷ (b, y) ∷ ys) ∙ sym (last-append nil xs ((b, y) ∷ ys)))

  module _ (s : ExpirationCache K V) (xs ys : Cells K V) (a : Ptr) (x : Item K V)
      (c : IsChain s (xs ++ (a, x) ∷ ys)) where
    -- The node in the middle of a chain points at its neighbours.
    pub holds : s.heap a ≡ some (node_of (last nil xs) (first ys nil) x)
    holds = (Linked-split s.heap xs ((a, x) ∷ ys) nil nil c.links).1.0

    pub detach-chain : detach a s ≡ ok tt (unlinked (last nil xs) (first ys nil) s)
    detach-chain =
        let (k, (e, l)) = Linked-split s.heap xs ((a, x) ∷ ys) nil nil c.links in
        let (_, _, apart) = Distinct-split xs ((a, x) ∷ ys) c.distinct in
        let (_, n) = has-false nil xs ((a, x) ∷ ys) c.not_nil in
        let ne : last nil xs ≢ a = last_ne nil a xs (ground arith) (ground (arith, apart a)) in
        detach-unlinked s a (node_of (last nil xs) (first ys nil) x) e ne
          (last-Present s.heap xs nil a k (inl refl)) (first-Present s.heap ys a l)

    pub unlinked-IsChain : IsChain (unlinked (last nil xs) (first ys nil) s) (xs ++ ys)
    unlinked-IsChain =
        let (k, (e, l)) = Linked-split s.heap xs ((a, x) ∷ ys) nil nil c.links in
        let (dx, (out, dy), apart) = Distinct-split xs ((a, x) ∷ ys) c.distinct in
        let (n₁, n₂) = has-false nil xs ((a, x) ∷ ys) c.not_nil in
        let d = Distinct-append xs ys dx dy (λ b i. ground (arith, apart b)) in
        let n = has_append nil xs ys n₁ (ground arith) in
        record {
          head = first-unlinked xs ys a x s.head c.not_nil c.head;
          tail = last-unlinked xs ys a x s.tail c.not_nil c.tail;
          links = relink-Linked s.heap xs ys a a d n k l;
          distinct = d;
          not_nil = n;
          allocated = λ b i.
              ground (arith, c.allocated b, has-append b xs ys, has-append b xs ((a, x) ∷ ys));
          free = c.free;
        }

    -- The node itself keeps what it held, its links included.
    pub unlinked-holds :
        (unlinked (last nil xs) (first ys nil) s).heap a
        ≡ some (node_of (last nil xs) (first ys nil) x)
    unlinked-holds =
        let (_, (out, _), apart) = Distinct-split xs ((a, x) ∷ ys) c.distinct in
        let (_, n) = has-false nil xs ((a, x) ∷ ys) c.not_nil in
        let ne : nil ≢ a = ground arith in
        let h = link_next (first ys nil) (last nil xs) s.heap in
        let l : last nil xs ≢ a = last_ne nil a xs ne (ground (arith, apart a)) in
        let r : first ys nil ≢ a = first_ne a nil ys ne out in
        (frame-link_prev h (last nil xs) (first ys nil) ((a, x) ∷ []) (last nil xs) (first ys nil)
          (ground arith)
          (frame-link_next s.heap (first ys nil) (last nil xs) ((a, x) ∷ []) (last nil xs)
            (first ys nil) (ground arith) (holds, tt))).0

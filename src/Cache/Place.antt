-- ===== src/Cache/Place.antt =====
-- `insertBefore` and `insertAfter` of cache/cache.go put a node between two neighbours.
use cubic_go_playground.Prelude.{
  ◌<◌, ◌≡◌, refl, fun_ext, ◌∙◌, ◌≢◌, inl, inr, false, some, [], ◌∷◌, ◌++◌, arith, ◌==◌,
  if◌then◌else◌, ne→==,
}
use cubic_go_playground.Cache.Store.{
  Ptr, nil, Node, Heap, ExpirationCache, ok, modify, set_next, set_prev, load, update,
}
use cubic_go_playground.Cache.Links.{
  Item, Cells, node_of, first, last, has, Linked, last-append, has-append, last_ne, first_ne,
  modify_self, frame-modify, Linked-split, Linked-append,
}
use cubic_go_playground.Cache.Distinct.{
  has-false, has_append, Distinct-split, Distinct-append, last-Apart, first-Apart,
}
use cubic_go_playground.Cache.Nodes.{insert_before, insert_after}
use cubic_go_playground.Cache.Chain.{
  IsChain, link_next, link_prev, link_next-last, link_prev-first, frame-link_next, frame-link_prev,
}
use cubic_go_playground.Cache.Detach.{Present}

module _ {K V : Type 0} where
  -- The heap in which the node `a` points at `l` and `r`, and they at it.
  abbrev pub between : Ptr → Ptr → Ptr → Heap K V → Heap K V
  between l a r h = link_prev a r (link_next a l (modify (set_next r) a (modify (set_prev l) a h)))

  abbrev pub placed : Ptr → Ptr → Ptr → ExpirationCache K V → ExpirationCache K V
  placed l a r s = record s {
    heap = between l a r s.heap;
    head = if l == nil then a else s.head;
    tail = if r == nil then a else s.tail;
  }

  link_comm :
      (l r a : Ptr) (h : Heap K V)
      → link_prev a r (link_next a l h) ≡ link_next a l (link_prev a r h)
  unfolding link_next link_prev modify
  link_comm l r a h = fun_ext λ b. ground arith

  module _ (s : ExpirationCache K V) (l a r : Ptr) {n m : Node K V} (e : s.heap a ≡ some n) where
    pub insert_before-placed :
        s.heap r ≡ some m
        → m.prev ≡ l
        → a ≢ r
        → a ≢ l
        → r ≢ nil
        → l ≢ r
        → Present s.heap l
        → insert_before a r s ≡ ok tt (placed l a r s)
    unfolding insert_before load update modify link_next link_prev
    insert_before-placed q i ar al rn lr (inl p) = ground arith
    insert_before-placed q i ar al rn lr (inr (o, p)) = ground arith

    insert_after-linked :
        s.heap l ≡ some m
        → m.next ≡ r
        → a ≢ r
        → a ≢ l
        → l ≢ nil
        → l ≢ r
        → Present s.heap r
        → insert_after a l s
          ≡ ok tt (record s {
            heap =
                link_next a l
                  (link_prev a r (modify (set_next r) a (modify (set_prev l) a s.heap)));
            head = if l == nil then a else s.head;
            tail = if r == nil then a else s.tail;
          })
    unfolding insert_after load update modify link_next link_prev
    insert_after-linked q i ar al ln lr (inl p) = ground arith
    insert_after-linked q i ar al ln lr (inr (o, p)) = ground arith

    pub insert_after-placed :
        s.heap l ≡ some m
        → m.next ≡ r
        → a ≢ r
        → a ≢ l
        → l ≢ nil
        → l ≢ r
        → Present s.heap r
        → insert_after a l s ≡ ok tt (placed l a r s)
    insert_after-placed q i ar al ln lr p =
        rw (link_comm l r a (modify (set_next r) a (modify (set_prev l) a s.heap)))
          (insert_after-linked q i ar al ln lr p)

  module _ (s : ExpirationCache K V) (xs ys : Cells K V) (a p q : Ptr) (x : Item K V)
      (c : IsChain s (xs ++ ys)) (e : s.heap a ≡ some (node_of p q x))
      (new : has a (xs ++ ys) ≡ false) (ne : nil ≢ a) where
    abbrev linked_heap : Heap K V
    linked_heap = modify (set_next (first ys nil)) a (modify (set_prev (last nil xs)) a s.heap)

    linked_heap-holds : linked_heap a ≡ some (node_of (last nil xs) (first ys nil) x)
    linked_heap-holds =
        modify_self (set_next (first ys nil)) a (modify (set_prev (last nil xs)) a s.heap)
          (modify_self (set_prev (last nil xs)) a s.heap e)

    frame-linked_heap :
        (zs : Cells K V) (t u : Ptr)
        → has a zs ≡ false
        → Linked s.heap t zs u
        → Linked linked_heap t zs u
    frame-linked_heap zs t u out l =
        frame-modify (modify (set_prev (last nil xs)) a s.heap) (set_next (first ys nil)) a zs t u
          out (frame-modify s.heap (set_prev (last nil xs)) a zs t u out l)

    -- The new node becomes part of the list, between its neighbours.
    placed-Linked :
        Linked (between (last nil xs) a (first ys nil) s.heap) nil (xs ++ (a, x) ∷ ys) nil
    placed-Linked =
        let (dx, dy, apart) = Distinct-split xs ys c.distinct in
        let (nx, ny) = has-false nil xs ys c.not_nil in
        let (ox, oy) = has-false a xs ys new in
        let (k, l) = Linked-split s.heap xs ys nil nil c.links in
        let la : last nil xs ≢ a = last_ne nil a xs ne ox in
        let ra : first ys nil ≢ a = first_ne a nil ys ne oy in
        let h = link_next a (last nil xs) linked_heap in
        Linked-append (link_prev a (first ys nil) h) xs ((a, x) ∷ ys) nil nil
          (frame-link_prev h a (first ys nil) xs nil a (first-Apart nil xs ys apart nx) (
            link_next-last linked_heap a xs (first ys nil) dx nx
              (frame-linked_heap xs nil (first ys nil) ox k)))
          (
            (frame-link_prev h a (first ys nil) ((a, x) ∷ []) (last nil xs) (first ys nil)
                (ground arith)
                (frame-link_next linked_heap a (last nil xs) ((a, x) ∷ []) (last nil xs)
                  (first ys nil) (ground arith) (linked_heap-holds, tt))).0,
            link_prev-first h a ys (last nil xs) nil dy ny (
                frame-link_next linked_heap a (last nil xs) ys (last nil xs) nil
                  (last-Apart nil xs ys apart ny) (frame-linked_heap ys (last nil xs) nil oy l)),
          )

    first-placed :
        (h : Ptr)
        → h ≡ first (xs ++ ys) nil
        → (if last nil xs == nil then a else h) ≡ first (xs ++ (a, x) ∷ ys) nil
    first-placed h i = go xs (has-false nil xs ys c.not_nil).0 i
      where
        go :
            (zs : Cells K V)
            → has nil zs ≡ false
            → h ≡ first (zs ++ ys) nil
            → (if last nil zs == nil then a else h) ≡ first (zs ++ (a, x) ∷ ys) nil
        go [] out j = refl
        go ((b, y) ∷ zs) out j =
            rw (ne→== (last b zs) nil (last_ne b nil zs (ground arith) (ground arith))) j

    last-placed :
        (t : Ptr)
        → t ≡ last nil (xs ++ ys)
        → (if first ys nil == nil then a else t) ≡ last nil (xs ++ (a, x) ∷ ys)
    last-placed t i =
        rw (last-append nil xs ((a, x) ∷ ys))
          (go ys (has-false nil xs ys c.not_nil).1 (i ∙ last-append nil xs ys))
      where
        go :
            (zs : Cells K V)
            → has nil zs ≡ false
            → t ≡ last (last nil xs) zs
            → (if first zs nil == nil then a else t) ≡ last a zs
        go [] out j = refl
        go ((b, y) ∷ zs) out j = rw (ne→== b nil (ground arith)) j

    pub placed-IsChain :
        a < s.next_free → IsChain (placed (last nil xs) a (first ys nil) s) (xs ++ (a, x) ∷ ys)
    placed-IsChain lt =
        let (dx, dy, apart) = Distinct-split xs ys c.distinct in
        let (nx, ny) = has-false nil xs ys c.not_nil in
        let (ox, oy) = has-false a xs ys new in
        record {
          head = first-placed s.head c.head;
          tail = last-placed s.tail c.tail;
          links = placed-Linked;
          distinct = Distinct-append xs ((a, x) ∷ ys) dx (oy, dy) (λ b i. ground (arith, apart b));
          not_nil = has_append nil xs ((a, x) ∷ ys) nx (ground arith);
          allocated = λ b i.
              ground (arith, c.allocated b, has-append b xs ys, has-append b xs ((a, x) ∷ ys));
          free = c.free;
        }

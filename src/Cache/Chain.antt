-- ===== src/Cache/Chain.antt =====
-- A cache of cache/cache.go whose heap holds a list of nodes between `head` and `tail`, and the
-- joining of two such lists.
use cubic_go_playground.Prelude.{
  ◌<◌, ◌≡◌, sym, subst, ◌≢◌, inl, inr, true, false, [], ◌∷◌, ◌++◌, arith, ◌==◌, if◌then◌else◌,
  Bool-cases, ne→==,
}
use cubic_go_playground.Cache.Store.{Ptr, nil, Heap, ExpirationCache, modify, set_next, set_prev}
use cubic_go_playground.Cache.Links.{
  Cells, first, last, has, DistinctCells, Linked, last_ne, frame-modify, Linked-append,
  Linked-set_next, Linked-set_prev,
}
use cubic_go_playground.Cache.Distinct.{has-false, Distinct-split, last-Apart, first-Apart}

module _ {K V : Type 0} where
  pub record IsChain (s : ExpirationCache K V) (xs : Cells K V) : Type 0 where
    pub head : s.head ≡ first xs nil
    pub tail : s.tail ≡ last nil xs
    pub links : Linked s.heap nil xs nil
    pub distinct : DistinctCells xs
    pub not_nil : has nil xs ≡ false
    pub allocated : (a : Ptr) → has a xs ≡ true → a < s.next_free
    pub free : nil < s.next_free

  -- The heap in which `l` and `r` are neighbours.
  unfoldable pub link_next : Ptr → Ptr → Heap K V → Heap K V
  link_next r l h = if l == nil then h else modify (set_next r) l h

  unfoldable pub link_prev : Ptr → Ptr → Heap K V → Heap K V
  link_prev l r h = if r == nil then h else modify (set_prev l) r h

  abbrev pub relink : Ptr → Ptr → Heap K V → Heap K V
  relink l r h = link_prev l r (link_next r l h)

  module _ (h : Heap K V) where
    pub link_next_ne : (r l : Ptr) → l ≢ nil → link_next r l h ≡ modify (set_next r) l h
    unfolding link_next
    link_next_ne r l ne = rw (ne→== l nil ne)

    pub link_prev_ne : (l r : Ptr) → r ≢ nil → link_prev l r h ≡ modify (set_prev l) r h
    unfolding link_prev
    link_prev_ne l r ne = rw (ne→== r nil ne)

    pub link_next-last :
        (r : Ptr) (xs : Cells K V) (q : Ptr)
        → DistinctCells xs
        → has nil xs ≡ false
        → Linked h nil xs q
        → Linked (link_next r (last nil xs) h) nil xs r
    link_next-last r [] q d out l = tt
    link_next-last r ((a, x) ∷ xs) q d out l =
        let ne : last a xs ≢ nil = last_ne a nil xs (ground arith) (ground arith) in
        subst (λ g. Linked g nil ((a, x) ∷ xs) r) (sym (link_next_ne r (last a xs) ne))
          (Linked-set_next h r ((a, x) ∷ xs) nil q d l)

    pub link_prev-first :
        (l : Ptr) (xs : Cells K V) (p q : Ptr)
        → DistinctCells xs
        → has nil xs ≡ false
        → Linked h p xs q
        → Linked (link_prev l (first xs nil) h) l xs q
    link_prev-first l [] p q d out k = tt
    link_prev-first l ((a, x) ∷ xs) p q d out k =
        subst (λ g. Linked g l ((a, x) ∷ xs) q) (sym (link_prev_ne l a (ground arith)))
          (Linked-set_prev h l nil ((a, x) ∷ xs) p q d k)

    pub frame-link_next :
        (r a : Ptr) (xs : Cells K V) (p q : Ptr)
        → has a xs ≡ false
        → Linked h p xs q
        → Linked (link_next r a h) p xs q
    unfolding link_next
    frame-link_next r a xs p q out l = elim (Bool-cases (a == nil)) [
      | inl e ↦ rw e l
      | inr e ↦ rw e (frame-modify h (set_next r) a xs p q out l)
    ]

    pub frame-link_prev :
        (l a : Ptr) (xs : Cells K V) (p q : Ptr)
        → has a xs ≡ false
        → Linked h p xs q
        → Linked (link_prev l a h) p xs q
    unfolding link_prev
    frame-link_prev l a xs p q out k = elim (Bool-cases (a == nil)) [
      | inl e ↦ rw e k
      | inr e ↦ rw e (frame-modify h (set_prev l) a xs p q out k)
    ]

  -- To make neighbours of the end of one list and the start of another is to join the lists.
  pub relink-Linked :
      (h : Heap K V) (xs ys : Cells K V) (p q : Ptr)
      → DistinctCells (xs ++ ys)
      → has nil (xs ++ ys) ≡ false
      → Linked h nil xs q
      → Linked h p ys nil
      → Linked (relink (last nil xs) (first ys nil) h) nil (xs ++ ys) nil
  relink-Linked h xs ys p q d out k l =
      let (dx, dy, apart) = Distinct-split xs ys d in
      let (out₁, out₂) = has-false nil xs ys out in
      let h' = link_next (first ys nil) (last nil xs) h in
      Linked-append (relink (last nil xs) (first ys nil) h) xs ys nil nil
        (frame-link_prev h' (last nil xs) (first ys nil) xs nil (first ys nil)
          (first-Apart nil xs ys apart out₁) (link_next-last h (first ys nil) xs q dx out₁ k))
        (link_prev-first h' (last nil xs) ys p nil dy out₂ (
          frame-link_next h (first ys nil) (last nil xs) ys p nil (last-Apart nil xs ys apart out₂)
            l))

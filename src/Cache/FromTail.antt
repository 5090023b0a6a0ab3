-- ===== src/Cache/FromTail.antt =====
-- `SetFromTail` of cache/cache.go: its loop finds the place behind the last earlier entry.
use cubic_go_playground.Prelude.{
  ℕ, zero, suc, ◌+◌, ◌≤◌, ◌<◌, ◌≡◌, refl, sym, ap, ◌∙◌, ◌≢◌, subst, List, [], ◌∷◌, ◌++◌, arith, inl,
  inr, length, length-append, map-append, append_assoc, ltb, ltb→lt, ltb→le, ne→==, Bool-cases,
}
use cubic_go_playground.Cache.Store.{Ptr, nil, ExpirationCache, ok, load_ok}
use cubic_go_playground.Cache.Links.{Item, Cells, snoc, first, last, last-append}
use cubic_go_playground.Cache.Distinct.{has-false}
use cubic_go_playground.Cache.Ops.{set_from_tail_loop, link_from_tail, set_from_tail, rounds}
use cubic_go_playground.Cache.Detach.{holds}
use cubic_go_playground.Cache.Place.{placed}
use cubic_go_playground.Cache.Spec.{item, NotBefore, Sorted, live, make_room, place_first}
use cubic_go_playground.Cache.Order.{
  Before, Before-append, Before-of_NotAfter, NotAfter-of_Before, place_first-append,
  place_first_head, Sorted-middle,
}
use cubic_go_playground.Cache.Invariant.{items, IsCache, Holds}
use cubic_go_playground.Cache.Prune.{Leaves}
use cubic_go_playground.Cache.Create.{get_or_create_node-Created}
use cubic_go_playground.Cache.Pending.{IsPending}
use cubic_go_playground.Cache.Insert.{
  placed-IsCache, insert_before-mark, insert_after-mark, place-alone,
}

module _ {K V : Type 0} (dec : Discrete K) where
  module _ (s : ExpirationCache K V) (a : Ptr) (x : Item K V) where
    place-tail :
        (xs : Cells K V) (b : Ptr) (y : Item K V) (ys : Cells K V)
        → IsPending dec s (xs ++ (b, y) ∷ ys) a x
        → NotBefore x.expires_at (items ys)
        → y.expires_at < x.expires_at
        → Leaves dec s (place_first x (items (xs ++ (b, y) ∷ ys))) (placed b a (first ys nil) s)
    place-tail xs b y ys p later lt =
        let zs = xs ++ (b, y) ∷ [] in
        let assoc : zs ++ ys ≡ xs ++ (b, y) ∷ ys = append_assoc xs ((b, y) ∷ []) ys in
        let p' = subst (λ l. IsPending dec s l a x) (sym assoc) p in
        let (early, _, _) =
          Sorted-middle (items xs) y (items ys)
            (subst Sorted (map-append (λ c. c.1) xs ((b, y) ∷ ys)) p.sorted) in
        let before : Before x.expires_at (items zs) =
          subst (Before x.expires_at) (sym (map-append (λ c. c.1) xs ((b, y) ∷ []))) (
            Before-append x.expires_at (items xs) (y ∷ [])
              (Before-of_NotAfter y.expires_at x.expires_at (items xs) lt early) (lt, tt)) in
        (
          zs ++ (a, x) ∷ ys,
          subst (λ q. IsCache dec (placed q a (first ys nil) s) (zs ++ (a, x) ∷ ys))
              (last-append nil xs ((b, y) ∷ []))
              (placed-IsCache dec s a x zs ys p' (NotAfter-of_Before x.expires_at (items zs) before)
                later),
          map-append (λ c. c.1) zs ((a, x) ∷ ys)
              ∙ sym (
                  place_first-append (items zs) x (items ys) before
                    (place_first_head x (items ys) later))
              ∙ ap (place_first x) (sym (map-append (λ c. c.1) zs ys))
              ∙ ap (λ l. place_first x (items l)) assoc,
          refl,
        )

    place-start :
        (b : Ptr) (y : Item K V) (ys : Cells K V)
        → IsPending dec s ((b, y) ∷ ys) a x
        → NotBefore x.expires_at (items ((b, y) ∷ ys))
        → Leaves dec s (place_first x (items ((b, y) ∷ ys))) (placed nil a b s)
    place-start b y ys p later = (
      (a, x) ∷ (b, y) ∷ ys,
      placed-IsCache dec s a x [] ((b, y) ∷ ys) p tt later,
      sym (place_first_head x (y ∷ items ys) later),
      refl,
    )

    abbrev Places : ℕ → Ptr → Cells K V → Type 0
    Places k b xs =
        (s' : ExpirationCache K V) × (set_from_tail_loop k a x.expires_at b s ≡ ok tt s')
        × Leaves dec s (place_first x (items xs)) s'

    -- One round at the first node, and one at a later node.
    round_first :
        (k : ℕ) (b : Ptr) (y : Item K V) (ys : Cells K V)
        → IsPending dec s ((b, y) ∷ ys) a x
        → NotBefore x.expires_at (items ys)
        → Places (suc k) b ((b, y) ∷ ys)
    unfolding set_from_tail_loop
    round_first k b y ys p later = elim (Bool-cases (ltb y.expires_at x.expires_at)) [
      | inl lt ↦
          let run : set_from_tail_loop (suc k) a x.expires_at b s
              ≡ ok tt (placed b a (first ys nil) s) =
            rw (load_ok b s (holds s [] ys b y p.chain))
              (rw (lt, insert_after-mark dec s a x [] ys b y p)) in
          (
            placed b a (first ys nil) s,
            run,
            place-tail [] b y ys p later (ltb→lt y.expires_at x.expires_at lt),
          )
      | inr ge ↦
          let run : set_from_tail_loop (suc k) a x.expires_at b s ≡ ok tt (placed nil a b s) =
            rw (load_ok b s (holds s [] ys b y p.chain))
              (rw ge (simp (p.chain.head, insert_before-mark dec s a x [] ys b y p))) in
          (placed nil a b s, run, place-start b y ys p (ltb→le y.expires_at x.expires_at ge, later))
    ]

    round_later :
        (k : ℕ) (xs : Cells K V) (b : Ptr) (y : Item K V) (ys : Cells K V)
        → IsPending dec s (xs ++ (b, y) ∷ ys) a x
        → NotBefore x.expires_at (items ys)
        → last nil xs ≢ nil
        → (x.expires_at ≤ y.expires_at → Places k (last nil xs) (xs ++ (b, y) ∷ ys))
        → Places (suc k) b (xs ++ (b, y) ∷ ys)
    unfolding set_from_tail_loop
    round_later k xs b y ys p later ne next =
        rw (load_ok b s (holds s xs ys b y p.chain))
          (elim (Bool-cases (ltb y.expires_at x.expires_at)) [
            | inl lt ↦
                rw (lt, insert_after-mark dec s a x xs ys b y p)
                  (
                    placed b a (first ys nil) s,
                    refl,
                    place-tail xs b y ys p later (ltb→lt y.expires_at x.expires_at lt),
                  )
            | inr ge ↦
                rw (ge, ne→== (last nil xs) nil ne) (next (ltb→le y.expires_at x.expires_at ge))
          ])

    -- The loop ends with rounds to spare, and the node stands in front of all that expires no earlier.
    set_from_tail_loop-place :
        (k : ℕ) (xs : Cells K V) (b : Ptr) (y : Item K V) (ys : Cells K V)
        → IsPending dec s (xs ++ (b, y) ∷ ys) a x
        → NotBefore x.expires_at (items ys)
        → length xs < k
        → Places k b (xs ++ (b, y) ∷ ys)
    set_from_tail_loop-place zero xs b y ys p later fuel = absurd (omega arith)
    set_from_tail_loop-place (suc k) xs b y ys p later fuel = elim (snoc xs) [
      | inl e ↦
          subst (λ l. Places (suc k) b (l ++ (b, y) ∷ ys)) (sym e)
            (round_first k b y ys (subst (λ l. IsPending dec s (l ++ (b, y) ∷ ys) a x) e p) later)
      | inr (zs, c, z, e) ↦
          let at_c : last nil xs ≡ c = ap (last nil) e ∙ last-append nil zs ((c, z) ∷ []) in
          let assoc : xs ++ (b, y) ∷ ys ≡ zs ++ (c, z) ∷ (b, y) ∷ ys =
            ap (λ l. l ++ (b, y) ∷ ys) e ∙ append_assoc zs ((c, z) ∷ []) ((b, y) ∷ ys) in
          let p' = subst (λ l. IsPending dec s l a x) assoc p in
          let ne : c ≢ nil =
            ground (arith, has-false nil zs ((c, z) ∷ (b, y) ∷ ys) p'.chain.not_nil) in
          let short : length zs < k =
            omega (arith, fuel, ap length e, length-append zs ((c, z) ∷ [])) in
          round_later k xs b y ys p later (subst (λ q. q ≢ nil) (sym at_c) ne) (λ le.
            subst (λ q. Places k q (xs ++ (b, y) ∷ ys)) (sym at_c)
              (subst (Places k c) (sym assoc)
                (set_from_tail_loop-place k zs c z ((b, y) ∷ ys) p' (le, later) short)))
    ]

  link_from_tail-place :
      (s : ExpirationCache K V) (a : Ptr) (x : Item K V) (xs : Cells K V)
      → IsPending dec s xs a x
      → (s' : ExpirationCache K V) × (link_from_tail a x.expires_at s ≡ ok tt s')
        × Leaves dec s (place_first x (items xs)) s'
  unfolding link_from_tail rounds
  link_from_tail-place s a x xs p = elim (snoc xs) [
    | inl e ↦
        let p' = subst (λ l. IsPending dec s l a x) e p in
        let here : s.tail ≡ nil = p.chain.tail ∙ ap (last nil) e in
        simp here (
          record s { head = a; tail = a },
          refl,
          ((a, x) ∷ [], place-alone dec s a x p', ap (λ l. place_first x (items l)) (sym e), refl),
        )
    | inr (zs, b, y, e) ↦
        let p' = subst (λ l. IsPending dec s l a x) e p in
        let here : s.tail ≡ b = p.chain.tail ∙ ap (last nil) e ∙ last-append nil zs ((b, y) ∷ []) in
        let ne : b ≢ nil = ground (arith, has-false nil zs ((b, y) ∷ []) p'.chain.not_nil) in
        simp (here, ne→== b nil ne)
          (subst (Places s a x (length s.node_by_key + 1) b) (sym e) (
            set_from_tail_loop-place s a x (length s.node_by_key + 1) zs b y [] p' tt
              (omega (arith, p'.index.size, length-append zs ((b, y) ∷ [])))))
  ]

  -- `SetFromTail` never panics and its loop ends. It does what `SetFromHead` does, except that the
  -- new entry stands behind the last one that expires earlier: in front of its equals.
  pub set_from_tail-place_first :
      (key : K) (value : V) (now expires_at : ℕ) (s : ExpirationCache K V) (es : List (Item K V))
      → Holds dec s es
      → (s' : ExpirationCache K V) × (set_from_tail dec key value now expires_at s ≡ ok tt s')
        × Holds dec s'
            (place_first (item key value expires_at) (make_room dec s.capacity key (live now es)))
        × (s'.capacity ≡ s.capacity)
  unfolding set_from_tail
  set_from_tail-place_first key value now expires_at s es (xs, c, e) =
      let (s₁, a, ys, e₁, p, i₁, k₁) =
        get_or_create_node-Created dec key value expires_at now s xs c in
      let (s₂, e₂, (zs, c₂, i₂, k₂)) = link_from_tail-place s₁ a (item key value expires_at) ys p in
      let run : set_from_tail dec key value now expires_at s ≡ ok tt s₂ = rw e₁ e₂ in
      (
        s₂,
        run,
        (
          zs,
          c₂,
          i₂
              ∙ ap (place_first (item key value expires_at)) i₁
              ∙ ap
                  (λ l.
                    place_first (item key value expires_at)
                      (make_room dec s.capacity key (live now l)))
                  e,
        ),
        k₂ ∙ k₁,
      )

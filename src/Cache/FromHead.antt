-- ===== src/Cache/FromHead.antt =====
-- `SetFromHead` of cache/cache.go: its loop finds the place in front of the first later entry.
use cubic_go_playground.Prelude.{
  ℕ, zero, suc, ◌+◌, ◌≤◌, ◌<◌, ◌≡◌, refl, sym, ap, ◌∙◌, subst, List, [], ◌∷◌, ◌++◌, arith, inl, inr,
  length, map-append, append_assoc, append-nil, ltb, ltb→lt, ltb→le, ne→==, Bool-cases,
}
use cubic_go_playground.Cache.Store.{Ptr, nil, ExpirationCache, ok, load_ok}
use cubic_go_playground.Cache.Links.{Item, Cells, last, last-append}
use cubic_go_playground.Cache.Distinct.{has-false}
use cubic_go_playground.Cache.Ops.{set_from_head_loop, link_from_head, set_from_head, rounds}
use cubic_go_playground.Cache.Detach.{holds}
use cubic_go_playground.Cache.Place.{placed}
use cubic_go_playground.Cache.Spec.{item, NotAfter, Sorted, live, make_room, place_last}
use cubic_go_playground.Cache.Order.{
  NotBefore-le, NotAfter-append, place_last-append, Sorted-middle,
}
use cubic_go_playground.Cache.Invariant.{items, IsCache, Holds}
use cubic_go_playground.Cache.Prune.{Leaves}
use cubic_go_playground.Cache.Create.{get_or_create_node-Created}
use cubic_go_playground.Cache.Pending.{IsPending}
use cubic_go_playground.Cache.Insert.{
  placed-IsCache, insert_before-mark, insert_after-mark, place-alone,
}

module _ {K V : Type 0} (dec : Discrete K) where
  module _ (s : ExpirationCache K V) (a : Ptr) (x : Item K V) where
    place-head :
        (xs : Cells K V) (b : Ptr) (y : Item K V) (ys : Cells K V)
        → IsPending dec s (xs ++ (b, y) ∷ ys) a x
        → NotAfter x.expires_at (items xs)
        → x.expires_at < y.expires_at
        → Leaves dec s (place_last x (items (xs ++ (b, y) ∷ ys))) (placed (last nil xs) a b s)
    place-head xs b y ys p earlier lt =
        let e = map-append (λ (c : Ptr × Item K V). c.1) xs ((b, y) ∷ ys) in
        let (_, later, _) = Sorted-middle (items xs) y (items ys) (subst Sorted e p.sorted) in
        let here : place_last x (y ∷ items ys) ≡ x ∷ y ∷ items ys = ground (arith, lt) in
        (
          xs ++ (a, x) ∷ (b, y) ∷ ys,
          placed-IsCache dec s a x xs ((b, y) ∷ ys) p earlier
              (omega arith, NotBefore-le x.expires_at y.expires_at (items ys) (omega arith) later),
          map-append (λ c. c.1) xs ((a, x) ∷ (b, y) ∷ ys)
              ∙ sym (place_last-append (items xs) x (y ∷ items ys) earlier here)
              ∙ ap (place_last x) (sym e),
          refl,
        )

    place-end :
        (xs : Cells K V) (b : Ptr) (y : Item K V)
        → IsPending dec s (xs ++ (b, y) ∷ []) a x
        → NotAfter x.expires_at (items (xs ++ (b, y) ∷ []))
        → Leaves dec s (place_last x (items (xs ++ (b, y) ∷ []))) (placed b a nil s)
    place-end xs b y p earlier =
        let zs = xs ++ (b, y) ∷ [] in
        let p' = subst (λ l. IsPending dec s l a x) (sym (append-nil (xs ++ (b, y) ∷ []))) p in
        let l = last-append nil xs ((b, y) ∷ []) in
        (
          zs ++ (a, x) ∷ [],
          subst (λ q. IsCache dec (placed q a nil s) (zs ++ (a, x) ∷ [])) l
              (placed-IsCache dec s a x zs [] p' earlier tt),
          map-append (λ c. c.1) zs ((a, x) ∷ [])
              ∙ sym (place_last-append (items zs) x [] earlier refl)
              ∙ ap (place_last x) (append-nil (items zs)),
          refl,
        )

    grow :
        (xs : Cells K V) (b : Ptr) (y : Item K V)
        → NotAfter x.expires_at (items xs)
        → y.expires_at ≤ x.expires_at
        → NotAfter x.expires_at (items (xs ++ (b, y) ∷ []))
    grow xs b y earlier le =
        subst (NotAfter x.expires_at) (sym (map-append (λ c. c.1) xs ((b, y) ∷ [])))
          (NotAfter-append x.expires_at (items xs) (y ∷ []) earlier (le, tt))

    abbrev Places : ℕ → Ptr → Cells K V → Type 0
    Places k b xs =
        (s' : ExpirationCache K V) × (set_from_head_loop k a x.expires_at b s ≡ ok tt s')
        × Leaves dec s (place_last x (items xs)) s'

    -- The loop ends with rounds to spare, and the node stands behind all that expires no later.
    set_from_head_loop-place :
        (k : ℕ) (xs : Cells K V) (b : Ptr) (y : Item K V) (ys : Cells K V)
        → IsPending dec s (xs ++ (b, y) ∷ ys) a x
        → NotAfter x.expires_at (items xs)
        → length ys < k
        → Places k b (xs ++ (b, y) ∷ ys)
    unfolding set_from_head_loop
    set_from_head_loop-place zero xs b y ys p earlier fuel = absurd (omega arith)
    set_from_head_loop-place (suc k) xs b y [] p earlier fuel =
        let t : s.tail ≡ b = p.chain.tail ∙ last-append nil xs ((b, y) ∷ []) in
        rw (load_ok b s (holds s xs [] b y p.chain))
          (elim (Bool-cases (ltb x.expires_at y.expires_at)) [
            | inl lt ↦
                rw (lt, insert_before-mark dec s a x xs [] b y p)
                  (
                    placed (last nil xs) a b s,
                    refl,
                    place-head xs b y [] p earlier (ltb→lt x.expires_at y.expires_at lt),
                  )
            | inr ge ↦ rw ge (
                simp (t, insert_after-mark dec s a x xs [] b y p)
                  (
                    placed b a nil s,
                    refl,
                    place-end xs b y p (grow xs b y earlier (ltb→le x.expires_at y.expires_at ge)),
                  ))
          ])
    set_from_head_loop-place (suc k) xs b y ((c, z) ∷ ys) p earlier fuel =
        let out = has-false nil xs ((b, y) ∷ (c, z) ∷ ys) p.chain.not_nil in
        let e : (xs ++ (b, y) ∷ []) ++ (c, z) ∷ ys ≡ xs ++ (b, y) ∷ (c, z) ∷ ys =
          append_assoc xs ((b, y) ∷ []) ((c, z) ∷ ys) in
        rw (load_ok b s (holds s xs ((c, z) ∷ ys) b y p.chain))
          (elim (Bool-cases (ltb x.expires_at y.expires_at)) [
            | inl lt ↦
                rw (lt, insert_before-mark dec s a x xs ((c, z) ∷ ys) b y p)
                  (
                    placed (last nil xs) a b s,
                    refl,
                    place-head xs b y ((c, z) ∷ ys) p earlier (ltb→lt x.expires_at y.expires_at lt),
                  )
            | inr ge ↦
                rw (ge, ne→== c nil (ground arith))
                  (subst (Places k c) e (
                    set_from_head_loop-place k (xs ++ (b, y) ∷ []) c z ys
                      (subst (λ l. IsPending dec s l a x) (sym e) p)
                      (grow xs b y earlier (ltb→le x.expires_at y.expires_at ge)) (omega arith)))
          ])

  link_from_head-place :
      (s : ExpirationCache K V) (a : Ptr) (x : Item K V) (xs : Cells K V)
      → IsPending dec s xs a x
      → (s' : ExpirationCache K V) × (link_from_head a x.expires_at s ≡ ok tt s')
        × Leaves dec s (place_last x (items xs)) s'
  unfolding link_from_head rounds
  link_from_head-place s a x [] p =
      simp p.chain.head
        (record s { head = a; tail = a }, refl, ((a, x) ∷ [], place-alone dec s a x p, refl, refl))
  link_from_head-place s a x ((b, y) ∷ ys) p =
      simp (p.chain.head, ne→== b nil (ground (arith, p.chain.not_nil)))
        (set_from_head_loop-place s a x (length s.node_by_key + 1) [] b y ys p tt
          (omega (arith, p.index.size)))

  -- `SetFromHead` never panics and its loop ends. On a well-formed cache it drops what has expired,
  -- replaces the entry of the key or else evicts the earliest one at capacity, and puts the new
  -- entry in front of the first one that expires later; the cache is well formed again.
  pub set_from_head-place_last :
      (key : K) (value : V) (now expires_at : ℕ) (s : ExpirationCache K V) (es : List (Item K V))
      → Holds dec s es
      → (s' : ExpirationCache K V) × (set_from_head dec key value now expires_at s ≡ ok tt s')
        × Holds dec s'
            (place_last (item key value expires_at) (make_room dec s.capacity key (live now es)))
        × (s'.capacity ≡ s.capacity)
  unfolding set_from_head
  set_from_head-place_last key value now expires_at s es (xs, c, e) =
      let (s₁, a, ys, e₁, p, i₁, k₁) =
        get_or_create_node-Created dec key value expires_at now s xs c in
      let (s₂, e₂, (zs, c₂, i₂, k₂)) = link_from_head-place s₁ a (item key value expires_at) ys p in
      let run : set_from_head dec key value now expires_at s ≡ ok tt s₂ = rw e₁ e₂ in
      (
        s₂,
        run,
        (
          zs,
          c₂,
          i₂
              ∙ ap (place_last (item key value expires_at)) i₁
              ∙ ap
                  (λ l.
                    place_last (item key value expires_at)
                      (make_room dec s.capacity key (live now l)))
                  e,
        ),
        k₂ ∙ k₁,
      )

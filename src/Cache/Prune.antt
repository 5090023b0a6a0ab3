-- ===== src/Cache/Prune.antt =====
-- `pruneExpired` and `pruneOldest` of cache/cache.go.
use cubic_go_playground.Prelude.{
  ℕ, zero, suc, ◌+◌, ◌<◌, ◌≡◌, refl, ◌≢◌, List, [], ◌∷◌, arith, ltb, ltb→lt, lt→ltb, ne→==,
  Bool-cases, inl, inr, length, length-map,
}
use cubic_go_playground.Cache.Store.{nil, ExpirationCache, ok, load_ok}
use cubic_go_playground.Cache.Links.{Item, Cells, first}
use cubic_go_playground.Cache.Ops.{rounds, prune_expired_loop, prune_expired, prune_oldest}
use cubic_go_playground.Cache.Detach.{holds, unlinked-holds}
use cubic_go_playground.Cache.Spec.{live, evict}
use cubic_go_playground.Cache.Order.{NotBefore-le, live_all}
use cubic_go_playground.Cache.Invariant.{items, IsCache}
use cubic_go_playground.Cache.Remove.{
  removed, remove-removed, removed-IsCache, without_key, without_key-IsChain,
}

module _ {K V : Type 0} (dec : Discrete K) where
  -- What a step leaves: the items `es`, and the capacity as it was.
  abbrev pub Leaves : ExpirationCache K V → List (Item K V) → ExpirationCache K V → Type 0
  Leaves s es s' =
      (xs : Cells K V) × IsCache dec s' xs × (items xs ≡ es) × (s'.capacity ≡ s.capacity)

  module _ (now : ℕ) where
    prune_expired_loop-live :
        (k : ℕ) (s : ExpirationCache K V) (xs : Cells K V)
        → IsCache dec s xs
        → length xs < k
        → (s' : ExpirationCache K V) × (prune_expired_loop dec k (first xs nil) now s ≡ ok tt s')
          × Leaves s (live now (items xs)) s'
    unfolding prune_expired_loop
    prune_expired_loop-live zero s xs c fuel = absurd (omega arith)
    prune_expired_loop-live (suc k) s [] c fuel = (s, refl, ([], c, refl, refl))
    prune_expired_loop-live (suc k) s ((a, x) ∷ ys) c fuel =
        let ne : a ≢ nil = ground (arith, c.chain.not_nil) in
        let wk = without_key-IsChain dec s [] ys a x c in
        let s' = removed dec [] x.key ys s in
        rw (ne→== a nil ne, load_ok a s (holds s [] ys a x c.chain))
          (elim (Bool-cases (ltb now x.expires_at)) [
            | inl alive ↦
                let rest : live now (items ys) ≡ items ys = live_all now (items ys) (
                  NotBefore-le (now + 1) x.expires_at (items ys)
                    (omega (arith, ltb→lt now x.expires_at alive)) c.sorted.0) in
                rw (alive, rest) (s, refl, ((a, x) ∷ ys, c, refl, refl))
            | inr expired ↦
                rw
                  (
                    expired,
                    remove-removed dec s [] ys a x c,
                    load_ok a s' (unlinked-holds (without_key dec x.key s) [] ys a x wk),
                  )
                  (prune_expired_loop-live k s' ys (removed-IsCache dec s [] ys a x c)
                    (omega arith))
          ])

    -- The loop has rounds enough, and removes exactly what has expired.
    pub prune_expired-live :
        (s : ExpirationCache K V) (xs : Cells K V)
        → IsCache dec s xs
        → (s' : ExpirationCache K V) × (prune_expired dec now s ≡ ok tt s')
          × Leaves s (live now (items xs)) s'
    unfolding prune_expired rounds
    prune_expired-live s xs c =
        simp c.chain.head
          (prune_expired_loop-live (length s.node_by_key + 1) s xs c (omega (arith, c.index.size)))

  -- At capacity the earliest item goes; there is one, so nothing is read through `nil`.
  pub prune_oldest-evict :
      (s : ExpirationCache K V) (xs : Cells K V)
      → IsCache dec s xs
      → (s' : ExpirationCache K V) × (prune_oldest dec s ≡ ok tt s')
        × Leaves s (evict s.capacity (items xs)) s'
  unfolding prune_oldest
  prune_oldest-evict s [] c =
      rw (lt→ltb (length s.node_by_key) s.capacity (omega (arith, c.index.size, c.positive)))
        (s, refl, ([], c, refl, refl))
  prune_oldest-evict s ((a, x) ∷ ys) c =
      rw (c.index.size, length-map (λ c. c.1) ys)
        (elim (Bool-cases (ltb (suc (length ys)) s.capacity)) [
          | inl room ↦ rw room (s, refl, ((a, x) ∷ ys, c, refl, refl))
          | inr full ↦ rw full (
              simp (c.chain.head, remove-removed dec s [] ys a x c)
                (
                  removed dec [] x.key ys s,
                  refl,
                  (ys, removed-IsCache dec s [] ys a x c, refl, refl),
                ))
        ])

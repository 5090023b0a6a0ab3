-- ===== src/Cache/Create.antt =====
-- `getOrCreateNode` of cache/cache.go: the node that the setters then put in its place.
use cubic_go_playground.Prelude.{
  ℕ, suc, ◌≤◌, ◌<◌, ◌≡◌, sym, ap, ◌∙◌, subst, none, some, List, [], ◌∷◌, ◌++◌, arith, inl, inr,
  length, length-map,
}
use cubic_go_playground.Cache.Store.{Ptr, nil, ExpirationCache, ok, update}
use cubic_go_playground.GoMap.{lookup}
use cubic_go_playground.Cache.Links.{Item, Cells, first, last}
use cubic_go_playground.Cache.Store.{pure, and_then, get_state, ◌>>=◌, ◌>>◌}
use cubic_go_playground.Cache.Nodes.{detach}
use cubic_go_playground.Cache.Ops.{get_or_create_node, prune_expired, prune_oldest}
use cubic_go_playground.Cache.Detach.{unlinked}
use cubic_go_playground.Cache.Spec.{item, live, evict, find, without, make_room}
use cubic_go_playground.Cache.Invariant.{items, IsCache}
use cubic_go_playground.Cache.Find.{lookup-find, find-evict, lookup_of_find, items-without}
use cubic_go_playground.Cache.Prune.{prune_expired-live, prune_oldest-evict}
use cubic_go_playground.Cache.Pending.{
  created, created-IsPending, renewed, renewed-IsPending, update-renewed, IsPending,
}

module _ {K V : Type 0} (dec : Discrete K) where
  module _ (key : K) (value : V) (expires_at : ℕ) where
    length-evict :
        (n : ℕ) (es : List (Item K V)) → 0 < n → length es ≤ n → suc (length (evict n es)) ≤ n
    length-evict n [] p h = p
    length-evict n (x ∷ es) p h = ground arith

    -- The outcome: a node for the key, in the map and out of the list, and room for it in the list.
    abbrev pub Created : ℕ → ExpirationCache K V → List (Item K V) → Type 0
    Created now s es =
        (s' : ExpirationCache K V) × (a : Ptr) × (xs : Cells K V) × (get_or_create_node dec key
            value now expires_at s
          ≡ ok a s')
        × IsPending dec s' xs a (item key value expires_at)
        × (items xs ≡ make_room dec s.capacity key (live now es))
        × (s'.capacity ≡ s.capacity)

    -- The two ways to the node, after the expired entries are gone.
    created-ok :
        (now : ℕ) (s s₁ s₂ : ExpirationCache K V)
        → prune_expired dec now s ≡ ok tt s₁
        → lookup dec key s₁.node_by_key ≡ none
        → prune_oldest dec s₁ ≡ ok tt s₂
        → get_or_create_node dec key value now expires_at s
          ≡ ok s₂.next_free ((created dec key value expires_at) s₂)
    unfolding get_or_create_node
    created-ok now s s₁ s₂ e₁ absent e₂ = ground arith

    renewed-ok :
        (now : ℕ) (s s₁ s₂ : ExpirationCache K V) (a : Ptr)
        → prune_expired dec now s ≡ ok tt s₁
        → lookup dec key s₁.node_by_key ≡ some a
        → (do
          detach a
          update a (λ n. record n { expires_at = expires_at })
          update a (λ n. record n { entry = record (n.entry) { value = value } })
          pure a)
            s₁
          ≡ ok a s₂
        → get_or_create_node dec key value now expires_at s ≡ ok a s₂
    unfolding get_or_create_node
    renewed-ok now s s₁ s₂ a e₁ found e₂ = rw e₁ (rw (found, get_state, ◌>>=◌, and_then) e₂)

    make_room-evict :
        (n : ℕ) (es : List (Item K V))
        → find dec key es ≡ none
        → make_room dec n key es ≡ evict n es
    make_room-evict n es f = rw (f, make_room)

    make_room-without :
        (n : ℕ) (es : List (Item K V)) {x : Item K V}
        → find dec key es ≡ some x
        → make_room dec n key es ≡ without dec key es
    make_room-without n es f = rw (f, make_room)

    pub get_or_create_node-Created :
        (now : ℕ) (s : ExpirationCache K V) (xs : Cells K V)
        → IsCache dec s xs
        → Created now s (items xs)
    get_or_create_node-Created now s xs c =
        let (s₁, e₁, (xs₁, c₁, i₁, k₁)) = prune_expired-live dec now s xs c in
        elim (lookup-find dec key xs₁) [
          | inl (h, f) ↦
              let absent : lookup dec key s₁.node_by_key ≡ none = c₁.index.finds key ∙ h in
              let (s₂, e₂, (xs₂, c₂, i₂, k₂)) = prune_oldest-evict dec s₁ xs₁ c₁ in
              let gone : lookup dec key s₂.node_by_key ≡ none =
                c₂.index.finds key
                ∙ lookup_of_find dec key xs₂ (
                    subst (λ l. find dec key l ≡ none) (sym i₂)
                      (find-evict dec key s₁.capacity (items xs₁) f)) in
              let fits : length (evict s₁.capacity (items xs₁)) < s₁.capacity =
                length-evict s₁.capacity (items xs₁) c₁.positive
                  (omega (arith, c₁.bounded, length-map (λ c. c.1) xs₁)) in
              let room : suc (length xs₂) ≤ s₂.capacity =
                omega (arith, fits, ap length i₂, length-map (λ c. c.1) xs₂, k₂) in
              let same : items xs₂ ≡ make_room dec s.capacity key (live now (items xs)) =
                i₂
                ∙ sym (make_room-evict s₁.capacity (items xs₁) f)
                ∙ ap (λ n. make_room dec n key (items xs₁)) k₁
                ∙ ap (make_room dec s.capacity key) i₁ in
              (
                (created dec key value expires_at) s₂,
                s₂.next_free,
                xs₂,
                created-ok now s s₁ s₂ e₁ absent e₂,
                (created-IsPending dec key value expires_at) s₂ xs₂ c₂ gone room,
                same,
                k₂ ∙ k₁,
              )
          | inr (a, x, before, after, h, f, e, q) ↦
              let c₂ = subst (IsCache dec s₁) e c₁ in
              let found : lookup dec key s₁.node_by_key ≡ some a = c₁.index.finds key ∙ h in
              let s₂ =
                (renewed dec key value expires_at) a
                  (unlinked (last nil before) (first after nil) s₁) in
              let same : items (before ++ after)
                  ≡ make_room dec s.capacity key (live now (items xs)) =
                items-without dec key s₁.node_by_key before after a x c₂.index q
                ∙ ap (λ l. without dec key (items l)) (sym e)
                ∙ sym (make_room-without s.capacity (items xs₁) f)
                ∙ ap (make_room dec s.capacity key) i₁ in
              (
                s₂,
                a,
                before ++ after,
                renewed-ok now s s₁ s₂ a e₁ found
                    ((update-renewed dec key value expires_at) s₁ before after a x c₂),
                (renewed-IsPending dec key value expires_at) s₁ before after a x c₂ q,
                same,
                k₁,
              )
        ]

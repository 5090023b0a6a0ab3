-- ===== src/Cache/Read.antt =====
-- The reads of cache/cache.go, and `Remove`: `Len`, `Contains`, `TryContains`, `Get` and `GetEntry`.
use mathlib.Core.Option
use cubic_go_playground.Prelude.{
  ℕ, ◌≡◌, refl, sym, ap, ◌∙◌, ◌⊎◌, subst, Bool, true, false, ◌&&◌, none, some, Option, List, [],
  ◌∷◌, ◌++◌, arith, inl, inr, length, length-map, ltb, if◌then◌else◌,
}
use cubic_go_playground.Cache.Store.{Ptr, Entry, Node, ExpirationCache, ok, load_ok}
use cubic_go_playground.GoMap.{lookup, Distinct}
use cubic_go_playground.Cache.Links.{Item, Cells}
use cubic_go_playground.Cache.Ops.{len, contains, try_contains, get, get_entry, remove_key}
use cubic_go_playground.Cache.Detach.{holds}
use cubic_go_playground.Cache.Spec.{live, find, without}
use cubic_go_playground.Cache.Invariant.{keyed, items, IsCache, Holds}
use cubic_go_playground.Cache.Find.{lookup-find, find_of_lookup, items-without, without_absent}
use cubic_go_playground.Cache.Remove.{removed, remove-removed, removed-IsCache}

abbrev pub is_some {ℓ} : {A : Type ℓ} → Option A → Bool
is_some none = false
is_some (some _) = true

module _ {K V : Type 0} where
  abbrev pub entry_of : Item K V → Entry K V
  entry_of x = record { key = x.key; value = x.value }

  abbrev pub value_of : Item K V → V
  value_of x = x.value

module _ {K V : Type 0} (dec : Discrete K) where
  -- A key that stands once is found among the live items if its item is alive.
  find-live :
      (k : K) (now : ℕ) (xs : Cells K V)
      → Distinct dec (keyed xs)
      → find dec k (live now (items xs)) ≡ elim (find dec k (items xs)) [
        | none ↦ none
        | some x ↦ if ltb now x.expires_at then some x else none
      ]
  unfolding lookup
  find-live k now [] d = refl
  find-live k now ((a, x) ∷ xs) (out, d) =
      ground (arith, find-live k now xs d, find_of_lookup dec k xs)

  -- What the map knows of a key, beside what the list holds.
  module _ (key : K) (s : ExpirationCache K V) (xs : Cells K V) (c : IsCache dec s xs) where
    lookup-node :
        ((lookup dec key s.node_by_key ≡ none) × (find dec key (items xs) ≡ none))
        ⊎ ((a : Ptr) × (x : Item K V) × (n : Node K V) × (lookup dec key s.node_by_key ≡ some a)
            × (find dec key (items xs) ≡ some x)
            × (s.heap a ≡ some n)
            × (n.expires_at ≡ x.expires_at)
            × (n.entry ≡ entry_of x))
    lookup-node = elim (lookup-find dec key xs) [
      | inl (h, f) ↦ inl (c.index.finds key ∙ h, f)
      | inr (a, x, before, after, h, f, e, q) ↦ inr (
        a,
        x,
        _,
        c.index.finds key ∙ h,
        f,
        holds s before after a x (subst (IsCache dec s) e c).chain,
        refl,
        refl,
      )
    ]

    get-cells :
        (now : ℕ)
        → get dec key now s ≡ ok (Option.map value_of (find dec key (live now (items xs)))) s
    unfolding get
    get-cells now = rw (find-live key now xs c.index.unique) (elim lookup-node [
      | inl (h, f) ↦ ground arith
      | inr (a, x, n, h, f, e, t, v) ↦ ground (arith, load_ok a s e)
    ])

    get_entry-cells :
        (now : ℕ)
        → get_entry dec key now s ≡ ok (Option.map entry_of (find dec key (live now (items xs)))) s
    unfolding get_entry
    get_entry-cells now = rw (find-live key now xs c.index.unique) (elim lookup-node [
      | inl (h, f) ↦ ground arith
      | inr (a, x, n, h, f, e, t, v) ↦ ground (arith, load_ok a s e)
    ])

    contains-cells : contains dec key s ≡ is_some (find dec key (items xs))
    unfolding contains
    contains-cells = elim lookup-node [
      | inl (h, f) ↦ ground arith
      | inr (a, x, n, h, f, e, t, v) ↦ ground arith
    ]

    try_contains-cells :
        (b : Bool) → try_contains dec b key s ≡ (b && is_some (find dec key (items xs)))
    unfolding try_contains
    try_contains-cells b = elim lookup-node [
      | inl (h, f) ↦ ground arith
      | inr (a, x, n, h, f, e, t, v) ↦ ground arith
    ]

    remove_key-cells :
        (s' : ExpirationCache K V) × (remove_key dec key s
          ≡ ok (is_some (find dec key (items xs))) s')
        × Holds dec s' (without dec key (items xs))
        × (s'.capacity ≡ s.capacity)
    unfolding remove_key
    remove_key-cells = elim (lookup-find dec key xs) [
      | inl (h, f) ↦ (
        s,
        ground (arith, c.index.finds key),
        (xs, c, sym (without_absent dec key (items xs) f)),
        refl,
      )
      | inr (a, x, before, after, h, f, e, q) ↦
          let c' = subst (IsCache dec s) e c in
          let found : lookup dec key s.node_by_key ≡ some a = c.index.finds key ∙ h in
          let s' = removed dec before x.key after s in
          (
            s',
            ground (arith, found, f, remove-removed dec s before after a x c'),
            (
              before ++ after,
              removed-IsCache dec s before after a x c',
              items-without dec key s.node_by_key before after a x c'.index q
                  ∙ ap (λ l. without dec key (items l)) (sym e),
            ),
            refl,
          )
    ]

  module _ (s : ExpirationCache K V) (es : List (Item K V)) (h : Holds dec s es) where
    pub get-find-live :
        (key : K) (now : ℕ)
        → (get dec key now s ≡ ok (Option.map value_of (find dec key (live now es))) s)
          × (get_entry dec key now s ≡ ok (Option.map entry_of (find dec key (live now es))) s)
    get-find-live key now =
        let (xs, c, e) = h in
        (
          subst (λ l. get dec key now s ≡ ok (Option.map value_of (find dec key (live now l))) s) e
              (get-cells key s xs c now),
          subst
              (λ l.
                get_entry dec key now s ≡ ok (Option.map entry_of (find dec key (live now l))) s)
              e (get_entry-cells key s xs c now),
        )

    pub contains-find :
        (key : K) (available : Bool)
        → (contains dec key s ≡ is_some (find dec key es))
          × (try_contains dec available key s ≡ (available && is_some (find dec key es)))
    contains-find key b =
        let (xs, c, e) = h in
        (
          subst (λ l. contains dec key s ≡ is_some (find dec key l)) e (contains-cells key s xs c),
          subst (λ l. try_contains dec b key s ≡ (b && is_some (find dec key l))) e
              (try_contains-cells key s xs c b),
        )

    -- On a well-formed cache Get and GetEntry answer from the entries that have not expired, and
    -- change nothing; Contains says whether the key is stored, expired or not, and TryContains agrees
    -- unless it is refused the lock, when it says no.
    pub get-find :
        (key : K) (now : ℕ) (available : Bool)
        → (get dec key now s ≡ ok (Option.map value_of (find dec key (live now es))) s)
          × (get_entry dec key now s ≡ ok (Option.map entry_of (find dec key (live now es))) s)
          × (contains dec key s ≡ is_some (find dec key es))
          × (try_contains dec available key s ≡ (available && is_some (find dec key es)))
    get-find key now available =
        let got = get-find-live key now in
        let told = contains-find key available in (got.0, got.1, told.0, told.1)

    pub len-length : len s ≡ length es
    unfolding len
    len-length =
        let (xs, c, e) = h in
        subst (λ l. length s.node_by_key ≡ length l) e
          (omega (arith, c.index.size, length-map (λ (c : Ptr × Item K V). c.1) xs))

    -- `Remove` says whether the key was there, and afterwards it is not.
    pub remove_key-without :
        (key : K)
        → (s' : ExpirationCache K V) × (remove_key dec key s ≡ ok (is_some (find dec key es)) s')
          × Holds dec s' (without dec key es)
          × (s'.capacity ≡ s.capacity)
    remove_key-without key =
        let (xs, c, e) = h in
        subst
          (λ l.
            (s' : ExpirationCache K V) × (remove_key dec key s ≡ ok (is_some (find dec key l)) s')
            × Holds dec s' (without dec key l)
            × (s'.capacity ≡ s.capacity))
          e (remove_key-cells key s xs c)

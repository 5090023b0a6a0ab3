-- ===== src/Cache/History.antt =====
-- A cache of cache/cache.go through any sequence of calls, against the list of items that it is
-- meant to be.
use mathlib.Core.Option
use cubic_go_playground.Prelude.{
  ℕ, ℤ, ◌≤◌, ◌≡◌, refl, ap, ◌∙◌, subst, Bool, true, Option, List, [], ◌∷◌, length, length-map,
  arith,
}
use cubic_go_playground.Cache.Store.{Ptr, ExpirationCache, Entry, ok, Cmd, pure, ◌>>=◌, ◌>>◌}
use cubic_go_playground.Cache.Links.{Item}
use cubic_go_playground.Cache.Ops.{
  new_expiration_cache, len, contains, clear, get, get_entry, remove_key,
}
use cubic_go_playground.Cache.Spec.{item, live, find, without, make_room, Sorted, UniqueKeys}
use cubic_go_playground.Cache.Invariant.{Holds}
use cubic_go_playground.Cache.Read.{
  is_some, value_of, entry_of, get-find-live, contains-find, len-length, remove_key-without,
}
use cubic_go_playground.Cache.Start.{bound_of, new_expiration_cache-Holds, clear-Holds}
use cubic_go_playground.Cache.After.{End, set_from, place, set_from-place, UniqueKeys-items}

pub data Call (K V : Type 0) : Type 0 where
  set : End → K → V → ℕ → ℕ → Call K V
  remove : K → Call K V
  clear_all : Call K V
  get_value : K → ℕ → Call K V
  get_pair : K → ℕ → Call K V
  has_key : K → Call K V
  count : Call K V

pub data Answer (K V : Type 0) : Type 0 where
  done : Answer K V
  found : Bool → Answer K V
  value : Option V → Answer K V
  pair : Option (Entry K V) → Answer K V
  size : ℕ → Answer K V

module _ {K V : Type 0} (dec : Discrete K) where
  -- One call on the cache.
  unfoldable pub step : Call K V → Cmd K V (Answer K V)
  step (set end k v now t) = set_from dec end k v now t >> pure done
  step (remove k) = do b ← remove_key dec k; pure (found b)
  step clear_all = λ s. ok done (clear s)
  step (get_value k now) = do o ← get dec k now; pure (value o)
  step (get_pair k now) = do o ← get_entry dec k now; pure (pair o)
  step (has_key k) = λ s. ok (found (contains dec k s)) s
  step count = λ s. ok (size (len s)) s

  unfoldable pub run : List (Call K V) → Cmd K V (List (Answer K V))
  run [] = pure []
  run (c ∷ cs) = do a ← step c; rest ← run cs; pure (a ∷ rest)

  -- The same call on the list.
  abbrev pub changed : ℕ → List (Item K V) → Call K V → List (Item K V)
  changed limit es (set end k v now t) =
      place end (item k v t) (make_room dec limit k (live now es))
  changed limit es (remove k) = without dec k es
  changed limit es clear_all = []
  changed limit es (get_value k now) = es
  changed limit es (get_pair k now) = es
  changed limit es (has_key k) = es
  changed limit es count = es

  abbrev pub answer : List (Item K V) → Call K V → Answer K V
  answer es (set end k v now t) = done
  answer es (remove k) = found (is_some (find dec k es))
  answer es clear_all = done
  answer es (get_value k now) = value (Option.map value_of (find dec k (live now es)))
  answer es (get_pair k now) = pair (Option.map entry_of (find dec k (live now es)))
  answer es (has_key k) = found (is_some (find dec k es))
  answer es count = size (length es)

  abbrev pub all_changed : ℕ → List (Item K V) → List (Call K V) → List (Item K V)
  all_changed limit es [] = es
  all_changed limit es (c ∷ cs) = all_changed limit (changed limit es c) cs

  abbrev pub answers : ℕ → List (Item K V) → List (Call K V) → List (Answer K V)
  answers limit es [] = []
  answers limit es (c ∷ cs) = answer es c ∷ answers limit (changed limit es c) cs

  abbrev After : ℕ → ExpirationCache K V → List (Item K V) → ExpirationCache K V → Type 0
  After limit s es s' = Holds dec s' es × (s'.capacity ≡ limit)

  step-changed :
      (c : Call K V) (limit : ℕ) (s : ExpirationCache K V) (es : List (Item K V))
      → Holds dec s es
      → s.capacity ≡ limit
      → (s' : ExpirationCache K V) × (step c s ≡ ok (answer es c) s')
        × Holds dec s' (changed limit es c)
        × (s'.capacity ≡ limit)
  unfolding step
  step-changed (set end k v now t) limit s es h e =
      let (s', ran, h', e') = set_from-place dec end k v now t s es h in
      (
        s',
        rw ran,
        subst (λ n. Holds dec s' (place end (item k v t) (make_room dec n k (live now es)))) e h',
        e' ∙ e,
      )
  step-changed (remove k) limit s es h e =
      let (s', ran, h', e') = remove_key-without dec s es h k in (s', rw ran, h', e' ∙ e)
  step-changed clear_all limit s es h e =
      let (h', e') = clear-Holds dec s es h in (clear s, refl, h', e' ∙ e)
  step-changed (get_value k now) limit s es h e = (s, rw (get-find-live dec s es h k now).0, h, e)
  step-changed (get_pair k now) limit s es h e = (s, rw (get-find-live dec s es h k now).1, h, e)
  step-changed (has_key k) limit s es h e =
      (s, ap (λ b. ok (found b) s) (contains-find dec s es h k true).0, h, e)
  step-changed count limit s es h e = (s, ap (λ n. ok (size n) s) (len-length dec s es h), h, e)

  pub run-changed :
      (cs : List (Call K V)) (limit : ℕ) (s : ExpirationCache K V) (es : List (Item K V))
      → Holds dec s es
      → s.capacity ≡ limit
      → (s' : ExpirationCache K V) × (run cs s ≡ ok (answers limit es cs) s')
        × Holds dec s' (all_changed limit es cs)
        × (s'.capacity ≡ limit)
  unfolding run
  run-changed [] limit s es h e = (s, refl, h, e)
  run-changed (c ∷ cs) limit s es h e =
      let (s₁, e₁, h₁, k₁) = step-changed c limit s es h e in
      let (s₂, e₂, h₂, k₂) = run-changed cs limit s₁ (changed limit es c) h₁ k₁ in
      (s₂, rw (e₁, e₂), h₂, k₂)

  Holds-ordered :
      (s : ExpirationCache K V) (es : List (Item K V))
      → Holds dec s es
      → Sorted es × UniqueKeys dec es × (length es ≤ s.capacity)
  Holds-ordered s es (xs, c, e) = (
    subst Sorted e c.sorted,
    subst (UniqueKeys dec) e (UniqueKeys-items dec xs c.index.unique),
    subst (λ l. length l ≤ s.capacity) e
        (omega (arith, c.bounded, length-map (λ (c : Ptr × Item K V). c.1) xs)),
  )

  -- From a new cache, no sequence of calls panics or fails to return. Every answer is the one that
  -- the plain list gives, and the list is always in the order of expiry, without a key twice, and
  -- within the bound.
  pub run-answers :
      (n : ℤ) (cs : List (Call K V))
      → (s : ExpirationCache K V) × (run cs (new_expiration_cache n)
          ≡ ok (answers (bound_of n) [] cs) s)
        × Holds dec s (all_changed (bound_of n) [] cs)
        × Sorted (all_changed (bound_of n) [] cs)
        × UniqueKeys dec (all_changed (bound_of n) [] cs)
        × (length (all_changed (bound_of n) [] cs) ≤ bound_of n)
  run-answers n cs =
      let (h, e) = new_expiration_cache-Holds dec n in
      let (s, ran, h', e') = run-changed cs (bound_of n) (new_expiration_cache n) [] h e in
      let (sorted, unique, bounded) = Holds-ordered s (all_changed (bound_of n) [] cs) h' in
      (
        s,
        ran,
        h',
        sorted,
        unique,
        subst (λ m. length (all_changed (bound_of n) [] cs) ≤ m) e' bounded,
      )

-- ===== src/Cache/Start.antt =====
-- `NewExpirationCache` and `Clear` of cache/cache.go: the empty caches.
use cubic_go_playground.Prelude.{
  ℕ, ℤ, pos, negsuc, zero, suc, ◌<◌, ◌≡◌, refl, sym, ap, subst, length, [], List, arith,
}
use cubic_go_playground.Cache.Store.{nil, ExpirationCache}
use cubic_go_playground.GoMap.{lookup, Distinct}
use cubic_go_playground.Cache.Links.{Item}
use cubic_go_playground.Cache.Ops.{max_int, new_expiration_cache, clear}
use cubic_go_playground.Cache.Invariant.{IsCache, Holds}

-- What the argument of `NewExpirationCache` comes to.
abbrev pub bound_of : ℤ → ℕ
bound_of (pos zero) = max_int
bound_of (pos (suc n)) = suc n
bound_of (negsuc _) = max_int

module _ {K V : Type 0} (dec : Discrete K) where
  empty-IsCache :
      (s : ExpirationCache K V)
      → s.node_by_key ≡ []
      → s.head ≡ nil
      → s.tail ≡ nil
      → nil < s.next_free
      → 0 < s.capacity
      → IsCache dec s []
  unfolding lookup
  empty-IsCache s m h t f p = record {
    chain = record {
      head = h;
      tail = t;
      links = tt;
      distinct = tt;
      not_nil = refl;
      allocated = λ a i. cc;
      free = f;
    };
    index = record {
      finds = λ k. ap (lookup dec k) m;
      size = ap length m;
      once = subst (Distinct dec) (sym m) tt;
      unique = tt;
    };
    sorted = tt;
    positive = p;
    bounded = omega arith;
  }

  -- `Clear` leaves a well-formed cache with nothing in it, of the same capacity.
  pub clear-Holds :
      (s : ExpirationCache K V) (es : List (Item K V))
      → Holds dec s es
      → Holds dec (clear s) [] × ((clear s).capacity ≡ s.capacity)
  unfolding clear
  clear-Holds s es (xs, c, e) =
      (([], empty-IsCache (clear s) refl refl refl c.chain.free c.positive, refl), refl)

module _ {K V : Type 0} (dec : Discrete K) where
  abbrev Started : ExpirationCache K V → ℕ → Type 0
  Started s n = Holds dec s [] × (s.capacity ≡ n)

  -- A new cache is well formed and empty, and bounded by its argument if that is positive.
  pub new_expiration_cache-Holds : (n : ℤ) → Started (new_expiration_cache n) (bound_of n)
  unfolding new_expiration_cache
  new_expiration_cache-Holds (pos zero) = (
    (
      [],
      empty-IsCache dec (new_expiration_cache (pos zero)) refl refl refl (omega arith)
          (omega arith),
      refl,
    ),
    refl,
  )
  new_expiration_cache-Holds (pos (suc n)) =
      let e : (new_expiration_cache {K = K} {V = V} (pos (suc n))).capacity ≡ suc n =
        ground arith in
      (
        (
          [],
          empty-IsCache dec (new_expiration_cache (pos (suc n))) refl refl refl (omega arith)
              (omega (arith, e)),
          refl,
        ),
        e,
      )
  new_expiration_cache-Holds (negsuc n) = (
    (
      [],
      empty-IsCache dec (new_expiration_cache (negsuc n)) refl refl refl (omega arith)
          (omega arith),
      refl,
    ),
    refl,
  )

-- ===== src/Cache/Ends.antt =====
-- How `SetFromHead` and `SetFromTail` of cache/cache.go differ: at entries that expire together.
use mathlib.Core.List.Perm
use mathlib.Core.List.{Perm, perm_middle}
use cubic_go_playground.Prelude.{
  ℕ, ◌+◌, ◌≡◌, refl, sym, ap, subst, ◌∙◌, append_assoc, List, [], ◌∷◌, ◌++◌, arith,
}
use cubic_go_playground.Cache.Links.{Item}
use cubic_go_playground.Cache.Store.{ExpirationCache, ok}
use cubic_go_playground.Cache.Ops.{set_from_head, set_from_tail}
use cubic_go_playground.Cache.Invariant.{Holds}
use cubic_go_playground.Cache.FromHead.{set_from_head-place_last}
use cubic_go_playground.Cache.FromTail.{set_from_tail-place_first}
use cubic_go_playground.Cache.Spec.{
  item, live, make_room, NotBefore, NotAfter, place_last, place_first,
}
use cubic_go_playground.Cache.Order.{
  NotAfter-append, NotBefore-append, Before, NotAfter-of_Before, NotBefore-le, place_last-append,
  place_first-append, place_first_head,
}

module _ {K V : Type 0} where
  -- Every item expires at `t`.
  abbrev pub At : ℕ → List (Item K V) → Type 0
  At t [] = Unit
  At t (x ∷ xs) = (x.expires_at ≡ t) × At t xs

  NotAfter-of_At : (t : ℕ) (xs : List (Item K V)) → At t xs → NotAfter t xs
  NotAfter-of_At t [] h = tt
  NotAfter-of_At t (x ∷ xs) (e, h) = (omega arith, NotAfter-of_At t xs h)

  NotBefore-of_At : (t : ℕ) (xs : List (Item K V)) → At t xs → NotBefore t xs
  NotBefore-of_At t [] h = tt
  NotBefore-of_At t (x ∷ xs) (e, h) = (omega arith, NotBefore-of_At t xs h)

  place_last_head :
      (x : Item K V) (ys : List (Item K V))
      → NotBefore (x.expires_at + 1) ys
      → place_last x ys ≡ x ∷ ys
  place_last_head x [] h = refl
  place_last_head x (y ∷ ys) (e, h) = ground arith

  place-ties :
      (x : Item K V) (earlier same later : List (Item K V))
      → Before x.expires_at earlier
      → At x.expires_at same
      → NotBefore (x.expires_at + 1) later
      → (place_last x (earlier ++ (same ++ later)) ≡ earlier ++ (same ++ x ∷ later))
        × (place_first x (earlier ++ (same ++ later)) ≡ earlier ++ x ∷ (same ++ later))
  place-ties x earlier same later b m a = (e₁, e₂)
    where
      e₁ : place_last x (earlier ++ (same ++ later)) ≡ earlier ++ (same ++ x ∷ later)
      e₁ =
          ap (place_last x) (sym (append_assoc earlier same later))
          ∙ place_last-append (earlier ++ same) x later
              (NotAfter-append x.expires_at earlier same (NotAfter-of_Before x.expires_at earlier b)
                (NotAfter-of_At x.expires_at same m))
              (place_last_head x later a)
          ∙ append_assoc earlier same (x ∷ later)

      e₂ : place_first x (earlier ++ (same ++ later)) ≡ earlier ++ x ∷ (same ++ later)
      e₂ = place_first-append earlier x (same ++ later) b (
          place_first_head x (same ++ later) (
            NotBefore-append x.expires_at same later (NotBefore-of_At x.expires_at same m)
              (NotBefore-le x.expires_at (x.expires_at + 1) later (omega arith) a)))

module _ {K V : Type 0} (dec : Discrete K) where
  -- Where what stays in the cache is `earlier`, then `same`, which expires with the new entry, then
  -- `later`: `SetFromHead` puts the new entry behind `same` and `SetFromTail` in front of it. The
  -- two hold the same items, as often.
  pub set_from-ties :
      (key : K) (value : V) (now t : ℕ) (s : ExpirationCache K V)
      (es earlier same later : List (Item K V))
      → Holds dec s es
      → make_room dec s.capacity key (live now es) ≡ earlier ++ (same ++ later)
      → Before t earlier
      → At t same
      → NotBefore (t + 1) later
      → ((s₁ : ExpirationCache K V) × (set_from_head dec key value now t s ≡ ok tt s₁)
          × Holds dec s₁ (earlier ++ (same ++ item key value t ∷ later)))
        × ((s₂ : ExpirationCache K V) × (set_from_tail dec key value now t s ≡ ok tt s₂)
            × Holds dec s₂ (earlier ++ item key value t ∷ (same ++ later)))
        × Perm
            (earlier ++ (same ++ item key value t ∷ later))
            (earlier ++ item key value t ∷ (same ++ later))
  set_from-ties key value now t s es earlier same later h room b m a =
      let x = item key value t in
      let (e₁, e₂) = place-ties x earlier same later b m a in
      let (s₁, r₁, h₁, _) = set_from_head-place_last dec key value now t s es h in
      let (s₂, r₂, h₂, _) = set_from_tail-place_first dec key value now t s es h in
      (
        (s₁, r₁, subst (Holds dec s₁) (ap (place_last x) room ∙ e₁) h₁),
        (s₂, r₂, subst (Holds dec s₂) (ap (place_first x) room ∙ e₂) h₂),
        Perm.append_left earlier (perm_middle same later),
      )

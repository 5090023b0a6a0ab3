-- ===== src/Cache/Tests.antt =====
-- The runs of cache/cache_test.go.
use native.Mathlib.Decide.{ℕ_discrete as dec}
use cubic_go_playground.Prelude.{
  ℕ, pos, ◌≡◌, refl, Bool, true, Option, none, some, List, [], ◌∷◌, ◌++◌,
}
use cubic_go_playground.Cache.Store.{Run, ok, Cmd, pure, ◌>>=◌, ◌>>◌, load, update, modify}
use cubic_go_playground.GoMap.{lookup, insert, delete}
use cubic_go_playground.Cache.Nodes.{detach, insert_before, insert_after, remove}
use cubic_go_playground.Cache.Ops.{
  new_expiration_cache, clear, all, backward, get, set_from_head, set_from_tail, remove_key, rounds,
  all_loop, backward_loop, get_entry, set_from_head_loop, set_from_tail_loop, link_from_head,
  link_from_tail, get_or_create_node, prune_expired, prune_expired_loop, prune_oldest, contains,
}

-- What `All` and `Backward` list.
abbrev pub collect : List (ℕ × ℕ) → ℕ → ℕ → List (ℕ × ℕ) × Bool
collect l k v = (l ++ (k, v) ∷ [], true)

abbrev both : Cmd ℕ ℕ (List (ℕ × ℕ) × List (ℕ × ℕ))
both = do a ← all collect []; b ← backward collect []; pure (a, b)

result : {A : Type 0} → Run ℕ ℕ A → Option A
result (ok a s) = some a
result _ = none

unfoldable pub program : Unit {0}
unfolding new_expiration_cache clear all backward all_loop backward_loop get get_entry set_from_head
    set_from_tail set_from_head_loop set_from_tail_loop link_from_head link_from_tail rounds
    get_or_create_node prune_expired prune_expired_loop prune_oldest remove_key remove detach
    insert_before insert_after load update modify lookup insert delete dec result contains
program = tt

-- `TestExpirationCache`, up to the fourth assignment, at instants in seconds.
four_sets :
    result (
      (do
        set_from_head dec 1 11 0 1
        set_from_head dec 2 12 0 2
        set_from_tail dec 3 13 0 4
        set_from_tail dec 4 14 0 3
        both)
        (new_expiration_cache (pos 3)))
    ≡ some ((2, 12) ∷ (4, 14) ∷ (3, 13) ∷ [], (3, 13) ∷ (4, 14) ∷ (2, 12) ∷ [])
unfolding program
four_sets = refl

-- Its end: a removal, and an update after the rest has expired.
update_after_expiry :
    result {A = Bool × List (ℕ × ℕ) × Option ℕ × Option ℕ} (
      (do
        set_from_head dec 2 12 0 2
        set_from_tail dec 3 13 0 4
        set_from_tail dec 4 14 0 3
        found ← remove_key dec 4
        set_from_tail dec 3 33 2 7
        (a, b) ← both
        v ← get dec 3 6
        w ← get dec 3 7
        pure (found, a, v, w))
        (new_expiration_cache (pos 3)))
    ≡ some (true, (3, 33) ∷ [], some 33, none)
unfolding program
update_after_expiry = refl

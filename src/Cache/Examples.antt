-- ===== src/Cache/Examples.antt =====
-- Each theorem about cache/cache.go at an input.
use native.Mathlib.Decide.{ℕ_discrete as dec}
use cubic_go_playground.Prelude.{
  ℕ, pos, ◌≡◌, refl, false, ◌&&◌, ltb, length, inl, ◌≤◌, none, some, List, [], ◌∷◌, ◌==◌,
  if◌then◌else◌, arith,
}
use cubic_go_playground.Cache.Store.{ExpirationCache, Run, ok}
use cubic_go_playground.Cache.Links.{Item, node_of}
use cubic_go_playground.Cache.Spec.{
  item, live, find, without, make_room, place_last, place_first, each, Sorted, UniqueKeys,
}
use cubic_go_playground.Cache.Read.{value_of, entry_of, is_some, get-find, remove_key-without}
use cubic_go_playground.Cache.Iterate.{all-each}
use cubic_go_playground.Cache.FromHead.{set_from_head-place_last}
use cubic_go_playground.Cache.FromTail.{set_from_tail-place_first}
use cubic_go_playground.Cache.Ends.{set_from-ties}
use cubic_go_playground.Cache.After.{End, get-set_self, get-set_ne, get-set_ne-some}
use cubic_go_playground.Cache.History.{Call, set, get_value, run, answers, all_changed, run-answers}
use mathlib.Core.List
use mathlib.Core.List.{Perm}
use mathlib.Core.Option
use cubic_go_playground.Cache.Invariant.{Holds}
use cubic_go_playground.GoMap.{lookup}
use cubic_go_playground.Cache.Ops.{
  new_expiration_cache, all, backward, get, set_from_head, set_from_tail, remove_key, get_entry,
  try_contains, contains,
}
use cubic_go_playground.Cache.Tests.{collect, program}

abbrev state_of : {A : Type 0} → Run ℕ ℕ A → ExpirationCache ℕ ℕ
state_of (ok a s) = s
state_of _ = new_expiration_cache (pos 3)

-- A cache of two entries, of three at most, whose first node was allocated second.
abbrev two_items : List (Item ℕ ℕ)
two_items = item 7 17 4 ∷ item 5 15 9 ∷ []

abbrev two : ExpirationCache ℕ ℕ
two = record {
  heap = λ a.
      if a == 2
      then some (node_of 0 1 (item 7 17 4))
      else if a == 1
      then some (node_of 2 0 (item 5 15 9))
      else none;
  next_free = 3;
  node_by_key = (7, 2) ∷ (5, 1) ∷ [];
  capacity = 3;
  head = 2;
  tail = 1;
}

two-Holds : Holds dec two two_items
unfolding lookup dec
two-Holds = (
  (2, item 7 17 4) ∷ (1, item 5 15 9) ∷ [],
  record {
    chain = record {
      head = refl;
      tail = refl;
      links = (refl, (refl, tt));
      distinct = (refl, (refl, tt));
      not_nil = refl;
      allocated = λ a i. ground arith;
      free = omega arith;
    };
    index = record {
      finds = λ k. refl;
      size = refl;
      once = (refl, (refl, tt));
      unique = (refl, (refl, tt));
    };
    sorted = ((omega arith, tt), (tt, tt));
    positive = omega arith;
    bounded = omega arith;
  },
  refl,
)

set_from_head-place_last_example :
    (s' : ExpirationCache ℕ ℕ) × (set_from_head dec 3 13 4 6 two ≡ ok tt s')
    × Holds dec s' (place_last (item 3 13 6) (make_room dec 3 3 (live 4 two_items)))
    × (s'.capacity ≡ 3)
set_from_head-place_last_example = set_from_head-place_last dec 3 13 4 6 two two_items two-Holds

set_from_tail-place_first_example :
    (s' : ExpirationCache ℕ ℕ) × (set_from_tail dec 7 27 1 12 two ≡ ok tt s')
    × Holds dec s' (place_first (item 7 27 12) (make_room dec 3 7 (live 1 two_items)))
    × (s'.capacity ≡ 3)
set_from_tail-place_first_example = set_from_tail-place_first dec 7 27 1 12 two two_items two-Holds

abbrev calls : List (Call ℕ ℕ)
calls = set End.head 1 11 0 5 ∷ get_value 1 4 ∷ get_value 1 5 ∷ []

run-answers_example :
    (s : ExpirationCache ℕ ℕ) × (run dec calls (new_expiration_cache (pos 1))
      ≡ ok (answers dec 1 [] calls) s)
    × Holds dec s (all_changed dec 1 [] calls)
    × Sorted (all_changed dec 1 [] calls)
    × UniqueKeys dec (all_changed dec 1 [] calls)
    × (length (all_changed dec 1 [] calls) ≤ 1)
run-answers_example = run-answers dec (pos 1) calls

get-set_self_example :
    get dec 3 5 (state_of (set_from_head dec 3 13 0 6 two))
    ≡ ok (if ltb 5 6 then some 13 else none) (state_of (set_from_head dec 3 13 0 6 two))
unfolding program
get-set_self_example =
    get-set_self dec End.head 3 13 0 6 two (state_of (set_from_head dec 3 13 0 6 two)) two_items
      two-Holds refl 5

get-set_ne_example :
    get dec 5 8 (state_of (set_from_tail dec 3 13 0 6 two))
    ≡ ok (some 15) (state_of (set_from_tail dec 3 13 0 6 two))
unfolding program
get-set_ne_example =
    get-set_ne dec End.tail 3 13 0 6 two (state_of (set_from_tail dec 3 13 0 6 two)) two_items
      two-Holds refl 5 8 (some 15) (omega arith) (omega arith) (inl (omega arith)) refl

get-set_ne-some_example : get dec 5 8 two ≡ ok (some 15) two
unfolding program
get-set_ne-some_example =
    get-set_ne-some dec End.head 3 13 0 6 two (state_of (set_from_head dec 3 13 0 6 two)) two_items
      two-Holds refl 5 8 15 (omega arith) (omega arith) refl

get-find_example :
    (get dec 7 3 two ≡ ok (Option.map value_of (find dec 7 (live 3 two_items))) two)
    × (get_entry dec 7 3 two ≡ ok (Option.map entry_of (find dec 7 (live 3 two_items))) two)
    × (contains dec 7 two ≡ is_some (find dec 7 two_items))
    × (try_contains dec false 7 two ≡ (false && is_some (find dec 7 two_items)))
get-find_example = get-find dec two two_items two-Holds 7 3 false

remove_key-without_example :
    (s' : ExpirationCache ℕ ℕ) × (remove_key dec 7 two ≡ ok (is_some (find dec 7 two_items)) s')
    × Holds dec s' (without dec 7 two_items)
    × (s'.capacity ≡ 3)
remove_key-without_example = remove_key-without dec two two_items two-Holds 7

all-each_example :
    (all collect [] two ≡ ok (each collect [] two_items) two)
    × (backward collect [] two ≡ ok (each collect [] (List.reverse two_items)) two)
all-each_example = all-each dec collect two two_items [] two-Holds

abbrev seven : Item ℕ ℕ
seven = item 7 17 4

abbrev three : Item ℕ ℕ
three = item 3 13 4

abbrev five : Item ℕ ℕ
five = item 5 15 9

set_from-ties_example :
    ((s₁ : ExpirationCache ℕ ℕ) × (set_from_head dec 3 13 0 4 two ≡ ok tt s₁)
      × Holds dec s₁ (seven ∷ three ∷ five ∷ []))
    × ((s₂ : ExpirationCache ℕ ℕ) × (set_from_tail dec 3 13 0 4 two ≡ ok tt s₂)
        × Holds dec s₂ (three ∷ seven ∷ five ∷ []))
    × Perm (seven ∷ three ∷ five ∷ []) (three ∷ seven ∷ five ∷ [])
unfolding dec
set_from-ties_example =
    set_from-ties dec 3 13 0 4 two two_items [] (seven ∷ []) (five ∷ []) two-Holds refl tt
      (refl, tt) (omega arith, tt)

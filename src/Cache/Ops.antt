-- ===== src/Cache/Ops.antt =====
-- The methods of `ExpirationCache` in cache/cache.go. A loop is given one round more than there
-- are entries. An instant is a number of nanoseconds; `a.After(b)` is `b < a`.
use cubic_go_playground.Prelude.{
  ℕ, zero, suc, ℤ, pos, negsuc, ◌+◌, ◌^◌, ◌-◌, Bool, true, false, Option, none, some, [], length,
  ltb, ◌==◌, if◌then◌else◌,
}
use cubic_go_playground.Cache.Store.{
  Ptr, nil, Entry, ExpirationCache, ok, out_of_fuel, Cmd, pure, ◌>>=◌, ◌>>◌, load, update,
  get_state, set_head, set_tail, alloc,
}
use cubic_go_playground.GoMap.{lookup, insert}
use cubic_go_playground.Cache.Nodes.{detach, insert_before, insert_after, remove}

abbrev pub max_int : ℕ
max_int = 2 ^ 63 - 1

-- `NewExpirationCache`: without a positive capacity the cache is bounded by the largest `int`.
unfoldable pub new_expiration_cache : {K V : Type 0} → ℤ → ExpirationCache K V
new_expiration_cache capacity = record {
  heap = λ _. none;
  next_free = 1;
  node_by_key = [];
  capacity = elim capacity [ pos n ↦ if n == 0 then max_int else n | negsuc _ ↦ max_int ];
  head = nil;
  tail = nil;
}

module _ {K V : Type 0} where
  unfoldable pub rounds : ExpirationCache K V → ℕ
  rounds s = length s.node_by_key + 1

  unfoldable pub len : ExpirationCache K V → ℕ
  len s = length s.node_by_key

  -- The body of the loop of `SetFromHead`, from the mark on.
  unfoldable pub set_from_head_loop : ℕ → Ptr → ℕ → Ptr → Cmd K V (Unit {0})
  set_from_head_loop zero node expires_at mark = λ _. out_of_fuel
  set_from_head_loop (suc k) node expires_at mark = do
    m ← load mark
    if ltb expires_at m.expires_at
        then insert_before node mark
        else if m.next == nil
        then (do s ← get_state; insert_after node s.tail)
        else set_from_head_loop k node expires_at m.next

  -- The body of the loop of `SetFromTail`, from the mark on.
  unfoldable pub set_from_tail_loop : ℕ → Ptr → ℕ → Ptr → Cmd K V (Unit {0})
  set_from_tail_loop zero node expires_at mark = λ _. out_of_fuel
  set_from_tail_loop (suc k) node expires_at mark = do
    m ← load mark
    if ltb m.expires_at expires_at
        then insert_after node mark
        else if m.prev == nil
        then (do s ← get_state; insert_before node s.head)
        else set_from_tail_loop k node expires_at m.prev

  -- What the setters do with the node of the entry.
  unfoldable pub link_from_head : Ptr → ℕ → Cmd K V (Unit {0})
  link_from_head node expires_at = do
    s ← get_state
    if s.head == nil
        then (do set_head node; set_tail node)
        else set_from_head_loop (rounds s) node expires_at s.head

  unfoldable pub link_from_tail : Ptr → ℕ → Cmd K V (Unit {0})
  link_from_tail node expires_at = do
    s ← get_state
    if s.tail == nil
        then (do set_head node; set_tail node)
        else set_from_tail_loop (rounds s) node expires_at s.tail

  unfoldable pub clear : ExpirationCache K V → ExpirationCache K V
  clear s = record s { node_by_key = []; head = nil; tail = nil }

  -- The loops of the iterators. `yield` is the loop body of the caller, over a state of its own,
  -- and says whether to go on.
  module _ {A : Type 0} (yield : A → K → V → A × Bool) where
    unfoldable pub all_loop : ℕ → Ptr → A → Cmd K V A
    all_loop zero p a = λ _. out_of_fuel
    all_loop (suc k) p a = if p == nil then pure a else do
      n ← load p
      let r = yield a n.entry.key n.entry.value
      if r.1 then all_loop k n.next r.0 else pure r.0

    unfoldable pub backward_loop : ℕ → Ptr → A → Cmd K V A
    backward_loop zero p a = λ _. out_of_fuel
    backward_loop (suc k) p a = if p == nil then pure a else do
      n ← load p
      let r = yield a n.entry.key n.entry.value
      if r.1 then backward_loop k n.prev r.0 else pure r.0

    unfoldable pub all : A → Cmd K V A
    all a = do s ← get_state; all_loop (rounds s) s.head a

    unfoldable pub backward : A → Cmd K V A
    backward a = do s ← get_state; backward_loop (rounds s) s.tail a

module _ {K V : Type 0} (dec : Discrete K) where
  unfoldable pub contains : K → ExpirationCache K V → Bool
  contains key s = elim (lookup dec key s.node_by_key) [ none ↦ false | some _ ↦ true ]

  -- `available` is what `TryRLock` returns.
  unfoldable pub try_contains : Bool → K → ExpirationCache K V → Bool
  try_contains available key s =
      if available
      then (elim (lookup dec key s.node_by_key) [ none ↦ false | some _ ↦ true ])
      else false

  unfoldable pub get : K → ℕ → Cmd K V (Option V)
  get key now s = elim (lookup dec key s.node_by_key) [
    | none ↦ ok none s
    | some p ↦
        (do n ← load p; if ltb now n.expires_at then pure (some n.entry.value) else pure none) s
  ]

  unfoldable pub get_entry : K → ℕ → Cmd K V (Option (Entry K V))
  get_entry key now s = elim (lookup dec key s.node_by_key) [
    | none ↦ ok none s
    | some p ↦ (do n ← load p; if ltb now n.expires_at then pure (some n.entry) else pure none) s
  ]

  unfoldable pub prune_expired_loop : ℕ → Ptr → ℕ → Cmd K V (Unit {0})
  prune_expired_loop zero p now = λ _. out_of_fuel
  prune_expired_loop (suc k) p now = if p == nil then pure tt else do
    n ← load p
    if ltb now n.expires_at
        then pure tt
        else do remove dec p; n ← load p; prune_expired_loop k n.next now

  unfoldable pub prune_expired : ℕ → Cmd K V (Unit {0})
  prune_expired now = do s ← get_state; prune_expired_loop (rounds s) s.head now

  unfoldable pub prune_oldest : Cmd K V (Unit {0})
  prune_oldest = do
    s ← get_state
    if ltb (length s.node_by_key) s.capacity then pure tt else remove dec s.head

  unfoldable pub get_or_create_node : K → V → ℕ → ℕ → Cmd K V Ptr
  get_or_create_node key value now expires_at = do
    prune_expired now
    s ← get_state
    elim (lookup dec key s.node_by_key) [
      | none ↦ do
        prune_oldest
        node ← alloc (record {
          prev = nil;
          next = nil;
          expires_at = expires_at;
          entry = record { key = key; value = value };
        })
        λ s. ok node (record s { node_by_key = insert dec key node s.node_by_key })
      | some node ↦ do
        detach node
        update node (λ n. record n { expires_at = expires_at })
        update node (λ n. record n { entry = record (n.entry) { value = value } })
        pure node
    ]

  unfoldable pub set_from_head : K → V → ℕ → ℕ → Cmd K V (Unit {0})
  set_from_head key value now expires_at = do
    node ← get_or_create_node key value now expires_at
    link_from_head node expires_at

  unfoldable pub set_from_tail : K → V → ℕ → ℕ → Cmd K V (Unit {0})
  set_from_tail key value now expires_at = do
    node ← get_or_create_node key value now expires_at
    link_from_tail node expires_at

  unfoldable pub remove_key : K → Cmd K V Bool
  remove_key key = do
    s ← get_state
    elim (lookup dec key s.node_by_key) [
      | none ↦ pure false
      | some node ↦ do remove dec node; pure true
    ]

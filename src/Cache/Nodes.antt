-- ===== src/Cache/Nodes.antt =====
-- The list operations of cache/cache.go: `detach`, `remove`, `insertBefore` and `insertAfter`.
use cubic_go_playground.Prelude.{◌==◌, if◌then◌else◌}
use cubic_go_playground.Cache.Store.{
  Ptr, nil, Cmd, set_next, set_prev, pure, ◌>>=◌, ◌>>◌, load, update, get_state, set_head, set_tail,
}
use cubic_go_playground.GoMap.{delete}

module _ {K V : Type 0} where
  unfoldable pub detach : Ptr → Cmd K V (Unit {0})
  detach node = do
    n ← load node
    (if n.prev == nil then set_head n.next else update n.prev (set_next n.next))
    n ← load node
    (if n.next == nil then set_tail n.prev else update n.next (set_prev n.prev))

  unfoldable pub insert_before : Ptr → Ptr → Cmd K V (Unit {0})
  insert_before node mark = do
    m ← load mark
    update node (set_prev m.prev)
    update node (set_next mark)
    m ← load mark
    (if m.prev == nil then set_head node else update m.prev (set_next node))
    update mark (set_prev node)

  unfoldable pub insert_after : Ptr → Ptr → Cmd K V (Unit {0})
  insert_after node mark = do
    update node (set_prev mark)
    m ← load mark
    update node (set_next m.next)
    m ← load mark
    (if m.next == nil then set_tail node else update m.next (set_prev node))
    update mark (set_next node)

module _ {K V : Type 0} (dec : Discrete K) where
  -- `delete(c.nodeByKey, key)`.
  abbrev pub delete_key : K → Cmd K V (Unit {0})
  delete_key k = do
    s ← get_state
    λ s. pure tt (record s { node_by_key = delete dec k s.node_by_key })

  unfoldable pub remove : Ptr → Cmd K V (Unit {0})
  remove node = do n ← load node; delete_key n.entry.key; detach node

-- ===== src/Cache/Store.antt =====
-- The state behind cache/cache.go: the nodes on the heap, the Go map from keys to nodes, and the
-- commands that read and write one field. A `nil` pointer is 0, at which no node is ever stored.
use cubic_go_playground.Prelude.{ℕ, ◌+◌, ◌≡◌, arith, Option, none, some, List, ◌==◌, if◌then◌else◌}

abbrev pub Ptr : Type 0
Ptr = ℕ

abbrev pub nil : Ptr
nil = 0

pub record Entry (K V : Type 0) : Type 0 where
  pub key : K
  pub value : V

-- `expirationNode`, with the embedded `Entry` as a field.
pub record Node (K V : Type 0) : Type 0 where
  pub prev : Ptr
  pub next : Ptr
  pub expires_at : ℕ
  pub entry : Entry K V

abbrev pub Heap : Type 0 → Type 0 → Type 0
Heap K V = Ptr → Option (Node K V)

-- `ExpirationCache`, together with the heap that its pointers lead into. `next_free` is the
-- address that the next `&expirationNode{…}` takes.
pub record ExpirationCache (K V : Type 0) : Type 0 where
  pub heap : Heap K V
  pub next_free : Ptr
  pub node_by_key : List (K × Ptr)
  pub capacity : ℕ
  pub head : Ptr
  pub tail : Ptr

-- A run returns, or panics on a `nil` pointer, or uses up the rounds given to a loop.
pub data Run (K V A : Type 0) : Type 0 where
  ok : A → ExpirationCache K V → Run K V A
  panic : Run K V A
  out_of_fuel : Run K V A

abbrev pub Cmd : Type 0 → Type 0 → Type 0 → Type 0
Cmd K V A = ExpirationCache K V → Run K V A

-- One node's fields, changed in place.
unfoldable pub modify : {K V : Type 0} → (Node K V → Node K V) → Ptr → Heap K V → Heap K V
modify f p h a = if a == p then (elim (h a) [ none ↦ none | some n ↦ some (f n) ]) else h a

module _ {K V : Type 0} where
  abbrev pub set_next : Ptr → Node K V → Node K V
  set_next q n = record n { next = q }

  abbrev pub set_prev : Ptr → Node K V → Node K V
  set_prev q n = record n { prev = q }

  abbrev pub pure : {A : Type 0} → A → Cmd K V A
  pure = ok

  module _ {A B : Type 0} where
    infixl 5 ◌>>=◌ ◌>>◌
    abbrev pub and_then : Run K V A → (A → Cmd K V B) → Run K V B
    and_then (ok a s) k = k a s
    and_then panic k = panic
    and_then out_of_fuel k = out_of_fuel

    abbrev pub ◌>>=◌ : Cmd K V A → (A → Cmd K V B) → Cmd K V B
    m >>= k = λ s. and_then (m s) k

    abbrev pub ◌>>◌ : Cmd K V A → Cmd K V B → Cmd K V B
    m >> n = m >>= λ _. n

  -- `*p`.
  unfoldable pub load : Ptr → Cmd K V (Node K V)
  load p s = elim (s.heap p) [ none ↦ panic | some n ↦ ok n s ]

  -- `p.field = …`.
  unfoldable pub update : Ptr → (Node K V → Node K V) → Cmd K V (Unit {0})
  update p f = do n ← load p; λ s. ok tt (record s { heap = modify f p s.heap })

  abbrev pub get_state : Cmd K V (ExpirationCache K V)
  get_state s = ok s s

  abbrev pub set_head : Ptr → Cmd K V (Unit {0})
  set_head p s = ok tt (record s { head = p })

  abbrev pub set_tail : Ptr → Cmd K V (Unit {0})
  set_tail p s = ok tt (record s { tail = p })

  -- `&expirationNode{…}`.
  abbrev pub alloc : Node K V → Cmd K V Ptr
  alloc n s = ok s.next_free (record s {
    heap = λ a. if a == s.next_free then some n else s.heap a;
    next_free = s.next_free + 1;
  })

  pub load_ok :
      (p : Ptr) (s : ExpirationCache K V) {n : Node K V} → s.heap p ≡ some n → load p s ≡ ok n s
  unfolding load
  load_ok p s e = ground arith

  pub update_ok :
      (p : Ptr) (f : Node K V → Node K V) (s : ExpirationCache K V) {n : Node K V}
      → s.heap p ≡ some n
      → update p f s ≡ ok tt (record s { heap = modify f p s.heap })
  unfolding update
  update_ok p f s e = rw (load_ok p s e)

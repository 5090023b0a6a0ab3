-- ===== src/Cache/Links.antt =====
-- The doubly linked list of cache/cache.go on its heap: what the links say of a list of nodes, and
-- how that changes when one link is redirected.
use mathlib.Core.Bool.{or_assoc}
use cubic_go_playground.Prelude.{
  ℕ, ◌≡◌, refl, sym, ap, ◌∙◌, ◌≢◌, ◌⊎◌, inl, inr, Bool, true, false, ◌||◌, some, List, [], ◌∷◌,
  ◌++◌, arith, ◌==◌,
}
use cubic_go_playground.Cache.Store.{Ptr, Node, Heap, modify, set_next, set_prev}

-- What a node holds, less its links.
pub record Item (K V : Type 0) : Type 0 where
  pub expires_at : ℕ
  pub key : K
  pub value : V

abbrev pub Cells : Type 0 → Type 0 → Type 0
Cells K V = List (Ptr × Item K V)

module _ {K V : Type 0} where
  abbrev pub node_of : Ptr → Ptr → Item K V → Node K V
  node_of p q x = record {
    prev = p;
    next = q;
    expires_at = x.expires_at;
    entry = record { key = x.key; value = x.value };
  }

  -- The first address, or what follows the list; the last, or what precedes it.
  abbrev pub first : Cells K V → Ptr → Ptr
  first [] q = q
  first ((a, _) ∷ xs) q = a

  abbrev pub last : Ptr → Cells K V → Ptr
  last p [] = p
  last p ((a, _) ∷ xs) = last a xs

  abbrev pub has : Ptr → Cells K V → Bool
  has a [] = false
  has a ((b, _) ∷ xs) = (a == b) || has a xs

  abbrev pub DistinctCells : Cells K V → Type 0
  DistinctCells [] = Unit
  DistinctCells ((a, _) ∷ xs) = (has a xs ≡ false) × DistinctCells xs

  -- Between `p` and `q` stand exactly the nodes of `xs`, linked both ways.
  abbrev pub Linked : Heap K V → Ptr → Cells K V → Ptr → Type 0
  Linked h p [] q = Unit
  Linked h p ((a, x) ∷ xs) q = (h a ≡ some (node_of p (first xs q) x)) × Linked h a xs q

  pub first-append : (xs ys : Cells K V) (q : Ptr) → first (xs ++ ys) q ≡ first xs (first ys q)
  first-append [] ys q = refl
  first-append (x ∷ xs) ys q = refl

  pub last-append : (p : Ptr) (xs ys : Cells K V) → last p (xs ++ ys) ≡ last (last p xs) ys
  last-append p [] ys = refl
  last-append p ((a, _) ∷ xs) ys = last-append a xs ys

  pub has-append : (a : Ptr) (xs ys : Cells K V) → has a (xs ++ ys) ≡ (has a xs || has a ys)
  has-append a [] ys = refl
  has-append a ((b, _) ∷ xs) ys = rw (has-append a xs ys, or_assoc)

  pub has-last : (a : Ptr) (xs : Cells K V) → (has (last a xs) xs ≡ true) ⊎ (last a xs ≡ a)
  has-last a [] = inr refl
  has-last a ((b, _) ∷ xs) = ground (arith, has-last b xs)

  pub last_ne : (a c : Ptr) (xs : Cells K V) → a ≢ c → has c xs ≡ false → last a xs ≢ c
  last_ne a c [] ne out = ne
  last_ne a c ((b, _) ∷ xs) ne out = last_ne b c xs (ground arith) (ground arith)

  pub first_ne : (c q : Ptr) (xs : Cells K V) → q ≢ c → has c xs ≡ false → first xs q ≢ c
  first_ne c q [] ne out = ne
  first_ne c q ((b, _) ∷ xs) ne out = ground arith

  pub modify_ne :
      (f : Node K V → Node K V) (c : Ptr) (h : Heap K V) (a : Ptr) → a ≢ c → modify f c h a ≡ h a
  unfolding modify
  modify_ne f c h a ne = ground arith

  pub modify_self :
      (f : Node K V → Node K V) (c : Ptr) (h : Heap K V) {n : Node K V}
      → h c ≡ some n
      → modify f c h c ≡ some (f n)
  unfolding modify
  modify_self f c h e = ground arith

  pub frame :
      (h g : Heap K V) (xs : Cells K V) (p q : Ptr)
      → ((a : Ptr) → has a xs ≡ true → g a ≡ h a)
      → Linked h p xs q
      → Linked g p xs q
  frame h g [] p q same l = tt
  frame h g ((a, x) ∷ xs) p q same (e, l) =
      (ground (arith, same a), frame h g xs a q (λ b i. same b (ground (arith, i))) l)

  module _ (h : Heap K V) where
    pub frame-modify :
        (f : Node K V → Node K V) (c : Ptr) (xs : Cells K V) (p q : Ptr)
        → has c xs ≡ false
        → Linked h p xs q
        → Linked (modify f c h) p xs q
    frame-modify f c [] p q out l = tt
    frame-modify f c ((a, x) ∷ xs) p q out (e, l) =
        (modify_ne f c h a (ground arith) ∙ e, frame-modify f c xs a q (ground arith) l)

    pub Linked-split :
        (xs ys : Cells K V) (p q : Ptr)
        → Linked h p (xs ++ ys) q
        → Linked h p xs (first ys q) × Linked h (last p xs) ys q
    Linked-split [] ys p q l = (tt, l)
    Linked-split ((a, x) ∷ xs) ys p q (e, l) =
        let (l₁, l₂) = Linked-split xs ys a q l in ((rw (← first-append xs ys q) e, l₁), l₂)

    pub Linked-append :
        (xs ys : Cells K V) (p q : Ptr)
        → Linked h p xs (first ys q)
        → Linked h (last p xs) ys q
        → Linked h p (xs ++ ys) q
    Linked-append [] ys p q l m = m
    Linked-append ((a, x) ∷ xs) ys p q (e, l) m =
        (rw (first-append xs ys q) e, Linked-append xs ys a q l m)

    -- Redirecting the last node's `next` moves the far end of the list.
    pub Linked-set_next :
        (r : Ptr) (xs : Cells K V) (p q : Ptr)
        → DistinctCells xs
        → Linked h p xs q
        → Linked (modify (set_next r) (last p xs) h) p xs r
    Linked-set_next r [] p q d l = tt
    Linked-set_next r ((a, x) ∷ []) p q d (e, l) = (modify_self (set_next r) a h e, tt)
    Linked-set_next r ((a, x) ∷ (b, y) ∷ xs) p q (out, d) (e, l) =
        let apart : a ≢ last b xs = λ i. last_ne b a xs (ground arith) (ground arith) (sym i) in
        (modify_ne (set_next r) (last b xs) h a apart ∙ e, Linked-set_next r ((b, y) ∷ xs) a q d l)

    -- Redirecting the first node's `prev` moves the near end.
    pub Linked-set_prev :
        (r s : Ptr) (xs : Cells K V) (p q : Ptr)
        → DistinctCells xs
        → Linked h p xs q
        → Linked (modify (set_prev r) (first xs s) h) r xs q
    Linked-set_prev r s [] p q d l = tt
    Linked-set_prev r s ((a, x) ∷ xs) p q (out, d) (e, l) =
        (modify_self (set_prev r) a h e, frame-modify (set_prev r) a xs a q out l)

  -- A list is empty, or ends in a node.
  pub snoc :
      (xs : Cells K V)
      → (xs ≡ []) ⊎ ((ys : Cells K V) × (b : Ptr) × (y : Item K V) × (xs ≡ ys ++ (b, y) ∷ []))
  snoc [] = inl refl
  snoc ((a, x) ∷ xs) = elim (snoc xs) [
    | inl e ↦ inr ([], a, x, ap (λ l. (a, x) ∷ l) e)
    | inr (ys, b, y, e) ↦ inr ((a, x) ∷ ys, b, y, ap (λ l. (a, x) ∷ l) e)
  ]

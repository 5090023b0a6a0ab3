-- ===== src/Route/Laid.antt =====
-- A buffer of addresses that are laid out as routing messages carry them, read by `ParseAddrs`.
use cubic_go_playground.Prelude.{
  ℕ, zero, suc, ◌+◌, ◌-◌, ◌≤◌, ◌≡◌, inl, inr, refl, sym, ap, ◌∙◌, subst, true, false, List, [], ◌∷◌,
  ◌++◌, Option, none, some, Bytes, length, set, drop, replicate, leb, if◌then◌else◌, arith,
  length-append, length-replicate, drop-append, append_assoc, Bool-cases,
}
use cubic_go_playground.Route.Align.{rta_align, IsAlignment, rta_align-least}
use cubic_go_playground.Route.Addrs.{has_bit, first_byte, store, parse_addrs, parse_addrs_loop}

set-append :
    {A : Type 0} (xs ys : List A) (y v : A) → set (xs ++ y ∷ ys) (length xs) v ≡ xs ++ v ∷ ys
set-append [] ys y v = refl
set-append (x ∷ xs) ys y v = ap (λ l. x ∷ l) (set-append xs ys y v)

-- The length of an address is its first byte. One of length 0 has that byte alone.
abbrev pub IsSockaddr : ℕ → Bytes → Type 0
IsSockaddr a s = (1 ≤ length s) × (length s ≤ 1 + (first_byte s - 1)) × (first_byte s ≤ 256 - a)

abbrev pub padded : ℕ → Bytes → Bytes
padded a s = s ++ replicate (rta_align a (first_byte s) - length s) 0

first_byte-append : (s t u : Bytes) → 1 ≤ length s → first_byte ((s ++ t) ++ u) ≡ first_byte s
first_byte-append [] t u h = absurd (omega arith)
first_byte-append (n ∷ s) t u h = refl

module _ (a sizeof k i addrs : ℕ) (dst : List (Option Bytes)) (b : Bytes) where
  pub parse_addrs_loop-unset :
      has_bit addrs i ≡ false
      → parse_addrs_loop a sizeof (suc k) i addrs dst b
        ≡ parse_addrs_loop a sizeof k (suc i) addrs dst b
  unfolding parse_addrs_loop
  parse_addrs_loop-unset h = ground arith

  parse_addrs_loop-passed :
      has_bit addrs i ≡ true
      → 1 ≤ length b
      → rta_align a (first_byte b) ≤ length b
      → parse_addrs_loop a sizeof (suc k) i addrs dst b
        ≡ parse_addrs_loop a sizeof k
            (suc i)
            addrs
            (store sizeof i b dst)
            (drop (rta_align a (first_byte b)) b)
  unfolding parse_addrs_loop
  parse_addrs_loop-passed h ne le = ground arith

module _ (a addrs : ℕ) (sa : ℕ → Bytes) where
  -- The addresses from `i` on whose bits are set, `k` at most.
  abbrev pub laid_out : ℕ → ℕ → Bytes
  laid_out zero i = []
  laid_out (suc k) i =
      let rest = laid_out k (suc i) in if has_bit addrs i then padded a (sa i) ++ rest else rest

  module _ (sizeof : ℕ) where
    abbrev pub large : Bytes → Option Bytes
    large b = if leb sizeof (length b) then some b else none

    -- The slots from `i` on: none for a bit that is not set, or if the buffer ends within the
    -- smallest address.
    abbrev pub slots : ℕ → ℕ → List (Option Bytes)
    slots zero i = []
    slots (suc k) i =
        (if has_bit addrs i then large (padded a (sa i) ++ laid_out k (suc i)) else none)
        ∷ slots k (suc i)

    module _ (align : IsAlignment a) (wf : (i : ℕ) → IsSockaddr a (sa i)) where
      length-padded : (i : ℕ) → length (padded a (sa i)) ≡ rta_align a (first_byte (sa i))
      length-padded i =
          let (h0, h1, h2) = wf i in
          let (l0, l1, l2, l3) = rta_align-least a (first_byte (sa i)) align h2 in
          length-append (sa i) (replicate (rta_align a (first_byte (sa i)) - length (sa i)) 0)
          ∙ ap (λ m. length (sa i) + m)
              (length-replicate (rta_align a (first_byte (sa i)) - length (sa i)) 0)
          ∙ omega arith

      first_byte-padded :
          (i : ℕ) (t : Bytes) → first_byte (padded a (sa i) ++ t) ≡ first_byte (sa i)
      first_byte-padded i t =
          first_byte-append (sa i) (replicate (rta_align a (first_byte (sa i)) - length (sa i)) 0) t
            (wf i).0

      store-append :
          (pre : List (Option Bytes)) (k i : ℕ) (b : Bytes)
          → length pre ≡ i
          → store sizeof i b (pre ++ none ∷ replicate k none)
            ≡ (pre ++ large b ∷ []) ++ replicate k none
      store-append pre k i b h =
          elim (leb sizeof (length b))
            as (λ c.
              (if c
                then set (pre ++ none ∷ replicate k none) i (some b)
                else pre ++ none ∷ replicate k none)
              ≡ (pre ++ (if c then some b else none) ∷ []) ++ replicate k none) [
                | true ↦
                    subst
                      (λ i.
                        set (pre ++ none ∷ replicate k none) i (some b)
                        ≡ pre ++ some b ∷ replicate k none)
                      h (set-append pre (replicate k none) none (some b))
                    ∙ sym (append_assoc pre (some b ∷ []) (replicate k none))
                | false ↦ sym (append_assoc pre (none ∷ []) (replicate k none))
              ]

      slots-set :
          (k i : ℕ)
          → has_bit addrs i ≡ true
          → (laid_out (suc k) i ≡ padded a (sa i) ++ laid_out k (suc i))
            × (slots (suc k) i ≡ large (padded a (sa i) ++ laid_out k (suc i)) ∷ slots k (suc i))
      slots-set k i e = (rw e, rw e)

      slots-unset :
          (k i : ℕ)
          → has_bit addrs i ≡ false
          → (laid_out (suc k) i ≡ laid_out k (suc i)) × (slots (suc k) i ≡ none ∷ slots k (suc i))
      slots-unset k i e = (rw e, rw e)

      -- What the loop does with a buffer that begins with the address of slot `i`.
      padded-passed :
          (i : ℕ) (t : Bytes)
          → let b = padded a (sa i) ++ t in
            (1 ≤ length b)
            × (rta_align a (first_byte b) ≤ length b)
            × (drop (rta_align a (first_byte b)) b ≡ t)
      padded-passed i t =
          let n = first_byte-padded i t in
          let m = length-padded i in
          let whole = length-append (padded a (sa i)) t in
          let (l0, l1, l2, l3) = rta_align-least a (first_byte (sa i)) align (wf i).2 in
          let reads = ap (rta_align a) n in
          (
            omega arith,
            omega arith,
            ap (λ r. drop r (padded a (sa i) ++ t)) reads
                ∙ drop-append (rta_align a (first_byte (sa i))) (padded a (sa i)) t m,
          )

      abbrev Reads : ℕ → ℕ → Type 0
      Reads k i =
          (pre : List (Option Bytes))
          → length pre ≡ i
          → parse_addrs_loop a sizeof k i addrs (pre ++ replicate k none) (laid_out k i)
            ≡ pre ++ slots k i

      length-snoc :
          (pre : List (Option Bytes)) (i : ℕ) (o : Option Bytes)
          → length pre ≡ i
          → length (pre ++ o ∷ []) ≡ suc i
      length-snoc pre i o h = omega (arith, h, length-append pre (o ∷ []))

      slots-step_unset :
          (k i : ℕ) (pre : List (Option Bytes))
          → length pre ≡ i
          → has_bit addrs i ≡ false
          → Reads k (suc i)
          → parse_addrs_loop a sizeof
              (suc k)
              i
              addrs
              (pre ++ replicate (suc k) none)
              (laid_out (suc k) i)
            ≡ pre ++ slots (suc k) i
      slots-step_unset k i pre h e rec =
          let (laid, all) = slots-unset k i e in
          parse_addrs_loop-unset a sizeof k i addrs (pre ++ replicate (suc k) none)
            (laid_out (suc k) i) e
          ∙ ap (parse_addrs_loop a sizeof k (suc i) addrs (pre ++ replicate (suc k) none)) laid
          ∙ ap (λ dst. parse_addrs_loop a sizeof k (suc i) addrs dst (laid_out k (suc i)))
              (sym (append_assoc pre (none ∷ []) (replicate k none)))
          ∙ rec (pre ++ none ∷ []) (length-snoc pre i none h)
          ∙ append_assoc pre (none ∷ []) (slots k (suc i))
          ∙ ap (λ l. pre ++ l) (sym all)

      slots-step_set :
          (k i : ℕ) (pre : List (Option Bytes))
          → length pre ≡ i
          → has_bit addrs i ≡ true
          → Reads k (suc i)
          → parse_addrs_loop a sizeof
              (suc k)
              i
              addrs
              (pre ++ replicate (suc k) none)
              (laid_out (suc k) i)
            ≡ pre ++ slots (suc k) i
      slots-step_set k i pre h e rec =
          let (laid, all) = slots-set k i e in
          let t : Bytes = laid_out k (suc i) in
          let b : Bytes = padded a (sa i) ++ t in
          let (ne, le, passed) = padded-passed i t in
          let dst : List (Option Bytes) = pre ++ none ∷ replicate k none in
          ap (parse_addrs_loop a sizeof (suc k) i addrs dst) laid
          ∙ parse_addrs_loop-passed a sizeof k i addrs dst b e ne le
          ∙ ap (λ r. parse_addrs_loop a sizeof k (suc i) addrs (store sizeof i b dst) r) passed
          ∙ ap (λ r. parse_addrs_loop a sizeof k (suc i) addrs r t) (store-append pre k i b h)
          ∙ rec (pre ++ large b ∷ []) (length-snoc pre i (large b) h)
          ∙ append_assoc pre (large b ∷ []) (slots k (suc i))
          ∙ ap (λ l. pre ++ l) (sym all)

      parse_addrs_loop-slots :
          (k i : ℕ) (pre : List (Option Bytes))
          → length pre ≡ i
          → parse_addrs_loop a sizeof k i addrs (pre ++ replicate k none) (laid_out k i)
            ≡ pre ++ slots k i
      unfolding parse_addrs_loop
      parse_addrs_loop-slots zero i pre h = refl
      parse_addrs_loop-slots (suc k) i pre h =
          elim (Bool-cases (has_bit addrs i))
            as (λ _.
              parse_addrs_loop a sizeof (suc k) i addrs (pre ++ replicate (suc k) none)
                (laid_out (suc k) i)
              ≡ pre ++ slots (suc k) i) [
                | inl e ↦ slots-step_set k i pre h e (parse_addrs_loop-slots k (suc i))
                | inr e ↦ slots-step_unset k i pre h e (parse_addrs_loop-slots k (suc i))
              ]

      -- A buffer that carries the addresses whose bits are set, each padded to its aligned length, is
      -- read into their slots: each points to its address, followed by the others, and to nothing if
      -- its bit is not set or if less than the smallest address is left.
      pub parse_addrs-slots :
          (rtax_max : ℕ)
          → parse_addrs a sizeof rtax_max (laid_out rtax_max 0) addrs ≡ slots rtax_max 0
      unfolding parse_addrs
      parse_addrs-slots rtax_max = parse_addrs_loop-slots rtax_max 0 [] refl

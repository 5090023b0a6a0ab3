-- ===== src/Route/Filtered.antt =====
-- What is logged under the filter.
use cubic_go_playground.Prelude.{
  inl, inr, ℕ, zero, suc, ◌+◌, ◌≡◌, refl, sym, ap, ◌∙◌, subst, Bool, true, false, not, ◌&&◌, List,
  [], ◌∷◌, ◌++◌, Bytes, String, length, take, drop, arith, ◌==◌, ltb, if◌then◌else◌,
}
use cubic_go_playground.Route.Messages.{
  Header, msglen, version, is_type, is_route, is_ifaddr, Layout, Event, rt_msghdr, if_msghdr,
  ifam_msghdr, invalid_length, invalid_size, invalid_hdrlen, unsupported_version, unknown_type,
  Step, next, return, panic, Outcome, logged, panicked, out_of_fuel, has_flag, with_addrs,
  addrs_buf, slice, refused, out_of_range, skips_route, skips_iface, route_event, iface_event,
  ifaddr_event, route_message, iface_message, ifaddr_message, message, msgs_loop,
  parse_and_log_msgs,
}
use cubic_go_playground.Route.Logged.{
  run, after, msgs_loop-short, msgs_loop-Whole, msgs_loop-not-Whole, Whole-cases,
}

module _ (unix : String → ℕ) where
  -- A route is up, by a gateway and not to a host; an interface is up and running, no loopback and
  -- not point-to-point; an address has the index of the interface that was logged last, or the one
  -- that is given if none was.
  abbrev pub Admissible : ℕ → List Event → Type 0
  Admissible i [] = Unit
  Admissible i (rt_msghdr t f x p q s d ∷ es) =
      ((has_flag unix f "RTF_UP" ≡ true)
        × (has_flag unix f "RTF_GATEWAY" ≡ true)
        × (has_flag unix f "RTF_HOST" ≡ false))
      × Admissible i es
  Admissible i (if_msghdr t f x s ∷ es) =
      ((has_flag unix f "IFF_UP" ≡ true)
        × (has_flag unix f "IFF_RUNNING" ≡ true)
        × (has_flag unix f "IFF_LOOPBACK" ≡ false)
        × (has_flag unix f "IFF_POINTOPOINT" ≡ false))
      × Admissible x es
  Admissible i (ifam_msghdr t x s ∷ es) = (x ≡ i) × Admissible i es
  Admissible i (_ ∷ es) = Admissible i es

  -- The index of the interface that was logged last.
  abbrev last_index : ℕ → List Event → ℕ
  last_index i [] = i
  last_index i (if_msghdr t f x s ∷ es) = last_index x es
  last_index i (_ ∷ es) = last_index i es

  Admissible-append :
      (i : ℕ) (es fs : List Event)
      → Admissible i es
      → Admissible (last_index i es) fs
      → Admissible i (es ++ fs)
  Admissible-append i [] fs h g = g
  Admissible-append i (rt_msghdr t f x p q s d ∷ es) fs h g = (h.0, Admissible-append i es fs h.1 g)
  Admissible-append i (if_msghdr t f x s ∷ es) fs h g = (h.0, Admissible-append x es fs h.1 g)
  Admissible-append i (ifam_msghdr t x s ∷ es) fs h g = (h.0, Admissible-append i es fs h.1 g)
  Admissible-append i (invalid_length b ∷ es) fs h g = Admissible-append i es fs h g
  Admissible-append i (unsupported_version b ∷ es) fs h g = Admissible-append i es fs h g
  Admissible-append i (invalid_size b ∷ es) fs h g = Admissible-append i es fs h g
  Admissible-append i (invalid_hdrlen b ∷ es) fs h g = Admissible-append i es fs h g
  Admissible-append i (unknown_type b ∷ es) fs h g = Admissible-append i es fs h g

  last_index-append :
      (i : ℕ) (es fs : List Event) → last_index i (es ++ fs) ≡ last_index (last_index i es) fs
  last_index-append i [] fs = refl
  last_index-append i (rt_msghdr t f x p q s d ∷ es) fs = last_index-append i es fs
  last_index-append i (if_msghdr t f x s ∷ es) fs = last_index-append x es fs
  last_index-append i (ifam_msghdr t x s ∷ es) fs = last_index-append i es fs
  last_index-append i (invalid_length b ∷ es) fs = last_index-append i es fs
  last_index-append i (unsupported_version b ∷ es) fs = last_index-append i es fs
  last_index-append i (invalid_size b ∷ es) fs = last_index-append i es fs
  last_index-append i (invalid_hdrlen b ∷ es) fs = last_index-append i es fs
  last_index-append i (unknown_type b ∷ es) fs = last_index-append i es fs

  -- What one message may lead to, from the interface index `i`.
  abbrev Good : ℕ → Step → Type 0
  Good i (next i' es) = Admissible i es × (last_index i es ≡ i')
  Good i (return es) = Admissible i es
  Good i panic = Unit

  if-Good :
      (i : ℕ) (b : Bool) (s t : Step)
      → Good i s
      → (b ≡ false → Good i t)
      → Good i (if b then s else t)
  if-Good i true s t h g = h
  if-Good i false s t h g = g refl

  with_addrs-Good :
      (header : Header) (m : Bytes) (size i j : ℕ) (event : Bytes → Event)
      → ((b : Bytes) → Good i (next j (event b ∷ [])))
      → Good i (with_addrs header m size j event)
  unfolding with_addrs
  with_addrs-Good header m size i j event h =
      elim (addrs_buf header m size)
        as (λ x. Good i (elim x [
          | slice b ↦ next j (event b ∷ [])
          | refused ↦ return (invalid_hdrlen m ∷ [])
          | out_of_range ↦ panic
        ])) [ slice b ↦ h b | refused ↦ tt | out_of_range ↦ tt ]

  skips_route-flags :
      (f : ℕ)
      → skips_route unix true f ≡ false
      → (has_flag unix f "RTF_UP" ≡ true)
        × (has_flag unix f "RTF_GATEWAY" ≡ true)
        × (has_flag unix f "RTF_HOST" ≡ false)
  unfolding skips_route
  skips_route-flags f h = ground arith

  skips_iface-flags :
      (f : ℕ)
      → skips_iface unix true f ≡ false
      → (has_flag unix f "IFF_UP" ≡ true)
        × (has_flag unix f "IFF_RUNNING" ≡ true)
        × (has_flag unix f "IFF_LOOPBACK" ≡ false)
        × (has_flag unix f "IFF_POINTOPOINT" ≡ false)
  unfolding skips_iface
  skips_iface-flags f h = ground arith

  module _ (header : Header) (align_to : ℕ) (rt ifm ifam : Layout) where
    route_message-Good :
        (i : ℕ) (m : Bytes) → Good i (route_message header align_to unix rt ifm ifam true i m)
    unfolding route_message route_event
    route_message-Good i m = if-Good i (ltb (length m) rt.size) _ _ tt (λ _.
        if-Good i (skips_route unix true (rt.flags m)) _ _ (tt, refl)
          (λ e.
            with_addrs-Good header m rt.size i i (route_event align_to unix rt true m)
              (λ b. ((skips_route-flags (rt.flags m) e, tt), refl))))

    iface_message-Good :
        (i : ℕ) (m : Bytes) → Good i (iface_message header align_to unix rt ifm ifam true i m)
    unfolding iface_message iface_event
    iface_message-Good i m = if-Good i (ltb (length m) ifm.size) _ _ tt (λ _.
        if-Good i (skips_iface unix true (ifm.flags m)) _ _ (tt, refl)
          (λ e.
            with_addrs-Good header m ifm.size i (ifm.index m) (iface_event align_to unix ifm m)
              (λ b. ((skips_iface-flags (ifm.flags m) e, tt), refl))))

    ifaddr_message-Good :
        (i : ℕ) (m : Bytes) → Good i (ifaddr_message header align_to unix rt ifm ifam true i m)
    unfolding ifaddr_message ifaddr_event
    ifaddr_message-Good i m = if-Good i (ltb (length m) ifam.size) _ _ tt (λ _.
        if-Good i (true && not (ifam.index m == i)) _ _ (tt, refl)
          (λ e.
            with_addrs-Good header m ifam.size i i (ifaddr_event align_to unix ifam m)
              (λ b. ((ground arith, tt), refl))))

    message-Good : (i : ℕ) (m : Bytes) → Good i (message header align_to unix rt ifm ifam true i m)
    unfolding message
    message-Good i m =
        let unknown : Step = next i (unknown_type m ∷ []) in
        let r : Step = route_message header align_to unix rt ifm ifam true i m in
        let f : Step = iface_message header align_to unix rt ifm ifam true i m in
        let a : Step = ifaddr_message header align_to unix rt ifm ifam true i m in
        let third : Step = if is_ifaddr unix m then a else unknown in
        let second : Step = if is_type unix m "RTM_IFINFO" then f else third in
        let first : Step = if is_route unix m then r else second in
        if-Good i (not (version m == unix "RTM_VERSION")) (next i (unsupported_version m ∷ []))
          first (tt, refl)
          (λ _. if-Good i (is_route unix m) r second (route_message-Good i m) (λ _.
            if-Good i (is_type unix m "RTM_IFINFO") f third (iface_message-Good i m) (λ _.
              if-Good i (is_ifaddr unix m) a unknown (ifaddr_message-Good i m) (λ _. (tt, refl)))))

    abbrev loop : ℕ → Bytes → ℕ → List Event → Outcome
    loop = run header align_to unix rt ifm ifam true

    abbrev Fine : Outcome → Type 0
    Fine (logged es) = Admissible 0 es
    Fine panicked = Unit
    Fine out_of_fuel = Unit

    after-Fine :
        (k i : ℕ) (b : Bytes) (log : List Event) (s : Step)
        → Admissible 0 log
        → last_index 0 log ≡ i
        → Good i s
        → ((i : ℕ) (log : List Event)
            → Admissible 0 log
            → last_index 0 log ≡ i
            → Fine (loop k (drop (msglen b) b) i log))
        → Fine (after header align_to unix rt ifm ifam true k b log s)
    after-Fine k i b log (next i' es) h e g rec =
        rec i' (log ++ es) (Admissible-append 0 log es h (subst (λ i. Admissible i es) (sym e) g.0))
          (last_index-append 0 log es ∙ ap (λ i. last_index i es) e ∙ g.1)
    after-Fine k i b log (return es) h e g rec =
        Admissible-append 0 log es h (subst (λ i. Admissible i es) (sym e) g)
    after-Fine k i b log panic h e g rec = tt

    msgs_loop-Fine :
        (k : ℕ) (b : Bytes) (i : ℕ) (log : List Event)
        → Admissible 0 log
        → last_index 0 log ≡ i
        → Fine (loop k b i log)
    unfolding msgs_loop
    msgs_loop-Fine zero b i log h e = tt
    msgs_loop-Fine (suc k) b i log h e =
        elim (Whole-cases header align_to unix rt ifm ifam true b) [
          | inl short ↦
              subst Fine
                (sym (msgs_loop-short header align_to unix rt ifm ifam true k b i log short)) h
          | inr (inl (le, bad)) ↦
              subst Fine
                (sym (msgs_loop-not-Whole header align_to unix rt ifm ifam true k b i log le bad))
                (Admissible-append 0 log (invalid_length b ∷ []) h tt)
          | inr (inr w) ↦
              subst Fine (sym (msgs_loop-Whole header align_to unix rt ifm ifam true k b i log w)) (
                after-Fine k i b log
                  (message header align_to unix rt ifm ifam true i (take (msglen b) b)) h e
                  (message-Good i (take (msglen b) b))
                  (λ i' log' h' e'. msgs_loop-Fine k (drop (msglen b) b) i' log' h' e'))
        ]

    -- With the filter on, whatever the buffer holds, a route that is logged is up, by a gateway and
    -- not to a host, an interface is up and running, no loopback and not point-to-point, and an
    -- address has the index of the interface that was logged last before it in the buffer, or the
    -- index 0 if none was.
    pub parse_and_log_msgs-Admissible :
        (b : Bytes) (es : List Event)
        → parse_and_log_msgs header align_to unix rt ifm ifam true b ≡ logged es
        → Admissible 0 es
    unfolding parse_and_log_msgs
    parse_and_log_msgs-Admissible b es e =
        subst Fine e (msgs_loop-Fine (length b + 1) b 0 [] tt refl)

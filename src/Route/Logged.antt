-- ===== src/Route/Logged.antt =====
-- How the loop over messages ends, and which slices it takes.
use cubic_go_playground.Prelude.{
  ℕ, zero, suc, ◌+◌, ◌≤◌, ◌<◌, ◌≡◌, ◌≢◌, ◌⊎◌, inl, inr, refl, ap, ◌∙◌, Bool, ◌&&◌, not, List, [],
  ◌∷◌, ◌++◌, Bytes, String, length, take, drop, ltb, ◌==◌, if◌then◌else◌, arith, length-drop,
}
use cubic_go_playground.Route.Messages.{
  Header, no_hdrlen, with_hdrlen, sizeof_msghdr, msglen, Slice, slice, refused, out_of_range,
  addrs_buf, Layout, Event, invalid_length, Step, next, return, panic, Outcome, logged, panicked,
  with_addrs, skips_route, skips_iface, route_event, iface_event, ifaddr_event, route_message,
  iface_message, ifaddr_message, message, msgs_loop, parse_and_log_msgs,
}

addrs_buf-in_range :
    (header : Header) (m : Bytes) (n : ℕ) → n ≤ length m → addrs_buf header m n ≢ out_of_range
unfolding addrs_buf
addrs_buf-in_range no_hdrlen m n le = ground arith
addrs_buf-in_range with_hdrlen m n le = ground arith

with_addrs-ne_panic :
    (header : Header) (m : Bytes) (n i : ℕ) (event : Bytes → Event)
    → n ≤ length m
    → with_addrs header m n i event ≢ panic
unfolding with_addrs
with_addrs-ne_panic header m n i event le =
    go (addrs_buf header m n) (addrs_buf-in_range header m n le)
  where
    go :
        (s : Slice)
        → s ≢ out_of_range
        → elim s [
          | slice b ↦ next i (event b ∷ [])
          | refused ↦ return (Event.invalid_hdrlen m ∷ [])
          | out_of_range ↦ panic
        ]
          ≢ panic
    go (slice b) ne = λ e. cc
    go refused ne = λ e. cc
    go out_of_range ne = absurd (ne refl)

-- A message that is too short is answered, one that is filtered out is passed over, and the
-- others are long enough.
checked-ne_panic :
    (header : Header) (m : Bytes) (size : ℕ) (skip : Bool) (i j : ℕ) (event : Bytes → Event)
    → (if ltb (length m) size
        then return (Event.invalid_size m ∷ [])
        else if skip
        then next i []
        else with_addrs header m size j event)
      ≢ panic
checked-ne_panic header m size skip i j event =
    ground (arith, with_addrs-ne_panic header m size j event)

module _ (header : Header) (align_to : ℕ) (unix : String → ℕ) (rt ifm ifam : Layout)
    (filter : Bool) where
  abbrev pub run : ℕ → Bytes → ℕ → List Event → Outcome
  run = msgs_loop header align_to unix rt ifm ifam filter

  abbrev pub handle : ℕ → Bytes → Step
  handle = message header align_to unix rt ifm ifam filter

  route_message-ne_panic :
      (i : ℕ) (m : Bytes) → route_message header align_to unix rt ifm ifam filter i m ≢ panic
  unfolding route_message
  route_message-ne_panic i m =
      checked-ne_panic header m rt.size (skips_route unix filter (rt.flags m)) i i
        (route_event align_to unix rt filter m)

  iface_message-ne_panic :
      (i : ℕ) (m : Bytes) → iface_message header align_to unix rt ifm ifam filter i m ≢ panic
  unfolding iface_message
  iface_message-ne_panic i m =
      checked-ne_panic header m ifm.size (skips_iface unix filter (ifm.flags m)) i (ifm.index m)
        (iface_event align_to unix ifm m)

  ifaddr_message-ne_panic :
      (i : ℕ) (m : Bytes) → ifaddr_message header align_to unix rt ifm ifam filter i m ≢ panic
  unfolding ifaddr_message
  ifaddr_message-ne_panic i m =
      checked-ne_panic header m ifam.size (filter && not (ifam.index m == i)) i i
        (ifaddr_event align_to unix ifam m)

  pub message-ne_panic : (i : ℕ) (m : Bytes) → handle i m ≢ panic
  unfolding message
  message-ne_panic i m =
      ground
        (arith, route_message-ne_panic i m, iface_message-ne_panic i m, ifaddr_message-ne_panic i m)

  -- A round ends the loop with what is logged, or hands over one whole message and goes on behind it.
  Continues : ℕ → Bytes → ℕ → List Event → Type 0
  Continues k b i log =
      (i' : ℕ) × (es : List Event) × (sizeof_msghdr header ≤ msglen b)
      × (msglen b ≤ length b)
      × (handle i (take (msglen b) b) ≡ next i' es)
      × (run (suc k) b i log ≡ run k (drop (msglen b) b) i' (log ++ es))

  pub msgs_loop-short :
      (k : ℕ) (b : Bytes) (i : ℕ) (log : List Event)
      → length b < sizeof_msghdr header
      → run (suc k) b i log ≡ logged log
  unfolding msgs_loop
  msgs_loop-short k b i log lt = ground arith

  -- The length that the message gives is its own and does not go beyond the buffer.
  abbrev pub Whole : Bytes → Type 0
  Whole b = (sizeof_msghdr header ≤ msglen b) × (msglen b ≤ length b)

  pub msgs_loop-not-Whole :
      (k : ℕ) (b : Bytes) (i : ℕ) (log : List Event)
      → sizeof_msghdr header ≤ length b
      → (msglen b < sizeof_msghdr header) ⊎ (length b < msglen b)
      → run (suc k) b i log ≡ logged (log ++ invalid_length b ∷ [])
  unfolding msgs_loop
  msgs_loop-not-Whole k b i log le bad = ground arith

  abbrev pub after : ℕ → Bytes → List Event → Step → Outcome
  after k b log s = elim s [
    | next i es ↦ run k (drop (msglen b) b) i (log ++ es)
    | return es ↦ logged (log ++ es)
    | panic ↦ panicked
  ]

  pub msgs_loop-Whole :
      (k : ℕ) (b : Bytes) (i : ℕ) (log : List Event)
      → Whole b
      → run (suc k) b i log ≡ after k b log (handle i (take (msglen b) b))
  unfolding msgs_loop
  msgs_loop-Whole k b i log h = ground arith

  pub Whole-cases :
      (b : Bytes)
      → (length b < sizeof_msghdr header)
        ⊎ ((sizeof_msghdr header ≤ length b)
            × ((msglen b < sizeof_msghdr header) ⊎ (length b < msglen b)))
        ⊎ Whole b
  Whole-cases b = ground arith

  after-cases :
      (k : ℕ) (b : Bytes) (i : ℕ) (log : List Event) (s : Step)
      → Whole b
      → handle i (take (msglen b) b) ≡ s
      → ((es : List Event) × (run (suc k) b i log ≡ logged es)) ⊎ Continues k b i log
  unfolding Continues
  after-cases k b i log (next i' es) h e =
      inr (i', es, h.0, h.1, e, msgs_loop-Whole k b i log h ∙ ap (after k b log) e)
  after-cases k b i log (return es) h e =
      inl (log ++ es, msgs_loop-Whole k b i log h ∙ ap (after k b log) e)
  after-cases k b i log panic h e = absurd (message-ne_panic i (take (msglen b) b) e)

  msgs_loop-cases :
      (k : ℕ) (b : Bytes) (i : ℕ) (log : List Event)
      → ((es : List Event) × (run (suc k) b i log ≡ logged es)) ⊎ Continues k b i log
  msgs_loop-cases k b i log = elim (Whole-cases b) [
    | inl short ↦ inl (log, msgs_loop-short k b i log short)
    | inr (inl (le, bad)) ↦ inl (log ++ invalid_length b ∷ [], msgs_loop-not-Whole k b i log le bad)
    | inr (inr h) ↦ after-cases k b i log (handle i (take (msglen b) b)) h refl
  ]

  pub sizeof_msghdr-positive : 4 ≤ sizeof_msghdr header
  sizeof_msghdr-positive = ground arith

  msgs_loop-logged :
      (k : ℕ) (b : Bytes) (i : ℕ) (log : List Event)
      → length b < k
      → (es : List Event) × (run k b i log ≡ logged es)
  unfolding Continues
  msgs_loop-logged zero b i log lt = absurd (omega arith)
  msgs_loop-logged (suc k) b i log lt = elim (msgs_loop-cases k b i log) [
    | inl done ↦ done
    | inr (i', es, h, le, e, goes) ↦
        let shorter : length (drop (msglen b) b) < k =
          omega (arith, length-drop (msglen b) b, sizeof_msghdr-positive) in
        let (all, ends) = msgs_loop-logged k (drop (msglen b) b) i' (log ++ es) shorter in
        (all, goes ∙ ends)
  ]

  -- Whatever the buffer holds, reading its messages returns, with no slice out of range.
  pub parse_and_log_msgs-logged :
      (b : Bytes)
      → (es : List Event) × (parse_and_log_msgs header align_to unix rt ifm ifam filter b
          ≡ logged es)
  unfolding parse_and_log_msgs
  parse_and_log_msgs-logged b = msgs_loop-logged (length b + 1) b 0 [] (omega arith)

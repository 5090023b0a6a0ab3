-- ===== src/Route/Framed.antt =====
-- A buffer that holds whole messages, one behind the other.
use cubic_go_playground.Prelude.{
  ℕ, zero, suc, ◌+◌, ◌≤◌, ◌<◌, ◌≡◌, refl, ap, ◌∙◌, Bool, List, [], ◌∷◌, ◌++◌, Bytes, String, length,
  take, drop, arith, length-append, drop-append, take-append,
}
use cubic_go_playground.Route.Messages.{
  Header, sizeof_msghdr, msglen, Layout, Event, Step, next, return, panic, Outcome, logged,
  parse_and_log_msgs,
}
use cubic_go_playground.Route.Logged.{
  run, handle, after, msgs_loop-short, msgs_loop-Whole, message-ne_panic, sizeof_msghdr-positive,
  Whole,
}

msglen-append : (m t : Bytes) → 2 ≤ length m → msglen (m ++ t) ≡ msglen m
unfolding msglen
msglen-append [] t h = absurd (omega arith)
msglen-append (a ∷ []) t h = absurd (omega arith)
msglen-append (a ∷ b ∷ m) t h = refl

abbrev pub concat : List Bytes → Bytes
concat [] = []
concat (m ∷ ms) = m ++ concat ms

module _ (header : Header) (align_to : ℕ) (unix : String → ℕ) (rt ifm ifam : Layout)
    (filter : Bool) where
  abbrev pub IsMessage : Bytes → Type 0
  IsMessage m = (sizeof_msghdr header ≤ length m) × (msglen m ≡ length m)

  abbrev pub AllMessages : List Bytes → Type 0
  AllMessages [] = Unit
  AllMessages (m ∷ ms) = IsMessage m × AllMessages ms

  -- The messages in order, each with the interface index that the one before it left, up to the
  -- first one that makes the reader return.
  abbrev pub handle_all : ℕ → List Bytes → List Event → List Event
  handle_all i [] log = log
  handle_all i (m ∷ ms) log = elim (handle header align_to unix rt ifm ifam filter i m) [
    | next i' es ↦ handle_all i' ms (log ++ es)
    | return es ↦ log ++ es
    | panic ↦ log
  ]

  abbrev loop : ℕ → Bytes → ℕ → List Event → Outcome
  loop = run header align_to unix rt ifm ifam filter

  abbrev one : ℕ → Bytes → Step
  one = handle header align_to unix rt ifm ifam filter

  first_message :
      (m t : Bytes)
      → IsMessage m
      → Whole header align_to unix rt ifm ifam filter (m ++ t)
        × (take (msglen (m ++ t)) (m ++ t) ≡ m)
        × (drop (msglen (m ++ t)) (m ++ t) ≡ t)
  first_message m t (h, e) =
      let least = sizeof_msghdr-positive header align_to unix rt ifm ifam filter in
      let len : msglen (m ++ t) ≡ length m = msglen-append m t (omega arith) ∙ e in
      let whole = length-append m t in
      (
        (omega arith, omega arith),
        ap (λ n. take n (m ++ t)) len ∙ take-append (length m) m t refl,
        ap (λ n. drop n (m ++ t)) len ∙ drop-append (length m) m t refl,
      )

  after-next :
      (k i : ℕ) (m : Bytes) (ms : List Bytes) (log : List Event) (s : Step)
      → one i m ≡ s
      → drop (msglen (m ++ concat ms)) (m ++ concat ms) ≡ concat ms
      → ((i : ℕ) (log : List Event) → loop k (concat ms) i log ≡ logged (handle_all i ms log))
      → after header align_to unix rt ifm ifam filter k (m ++ concat ms) log s
        ≡ logged (elim s [
          | next i' es ↦ handle_all i' ms (log ++ es)
          | return es ↦ log ++ es
          | panic ↦ log
        ])
  after-next k i m ms log (next i' es) e d rec =
      ap (λ b. loop k b i' (log ++ es)) d ∙ rec i' (log ++ es)
  after-next k i m ms log (return es) e d rec = refl
  after-next k i m ms log panic e d rec =
      absurd (message-ne_panic header align_to unix rt ifm ifam filter i m e)

  loop-handle_all :
      (ms : List Bytes) (k : ℕ)
      → length (concat ms) < k
      → AllMessages ms
      → (i : ℕ) (log : List Event) → loop k (concat ms) i log ≡ logged (handle_all i ms log)
  loop-handle_all ms zero lt h i log = absurd (omega arith)
  loop-handle_all [] (suc k) lt h i log =
      msgs_loop-short header align_to unix rt ifm ifam filter k [] i log
        (omega (arith, sizeof_msghdr-positive header align_to unix rt ifm ifam filter))
  loop-handle_all (m ∷ ms) (suc k) lt (h, hs) i log =
      let (w, t, d) = first_message m (concat ms) h in
      let least = sizeof_msghdr-positive header align_to unix rt ifm ifam filter in
      let shorter : length (concat ms) < k = omega (arith, length-append m (concat ms)) in
      msgs_loop-Whole header align_to unix rt ifm ifam filter k (m ++ concat ms) i log w
      ∙ ap (λ m'. after header align_to unix rt ifm ifam filter k (m ++ concat ms) log (one i m')) t
      ∙ after-next k i m ms log (one i m) refl d (loop-handle_all ms k shorter hs)

  -- Of a buffer that is made of whole messages every message is handled once, in order, with the
  -- interface index that the one before it left, up to the first one that is refused.
  pub parse_and_log_msgs-concat :
      (ms : List Bytes)
      → AllMessages ms
      → parse_and_log_msgs header align_to unix rt ifm ifam filter (concat ms)
        ≡ logged (handle_all 0 ms [])
  unfolding parse_and_log_msgs
  parse_and_log_msgs-concat ms h = loop-handle_all ms (length (concat ms) + 1) (omega arith) h 0 []

-- ===== src/Windows/Run/Ends.antt =====
-- That a run of route/cmd/route/main_windows.go comes to its end.
use cubic_go_playground.Prelude.{
  ℕ, zero, suc, ◌+◌, ◌≤◌, ◌⊎◌, inl, inr, ◌<◌, ◌≡◌, refl, ap, Bool, true, false, List, [], ◌∷◌, ◌++◌,
  length, arith,
}
use cubic_go_playground.Prelude.Result.{err}
use cubic_go_playground.Windows.Rows.{Constants}
use cubic_go_playground.Windows.Handler.{System, Notification}
use cubic_go_playground.Windows.Run.{
  MainThread, spins_up, registers, refused, registered, waits, cancels, not_cancelled, cancelled,
  returns, joins, exited, crashed, Consumer, unstarted, receives, works, finished, Process,
  is_closed, is_over, Move, Reach,
}
use cubic_go_playground.Windows.Run.Told.{IsJoined, stage}
use cubic_go_playground.Windows.Run.Sound.{IsSound}
use cubic_go_playground.Windows.Run.Moves.{Move-IsSound, Reach-IsSound}

-- How far the main thread has to go, and the process as a whole; and how much the handler has left.
abbrev ahead : MainThread → ℕ
ahead spins_up = 10
ahead registers = 8
ahead (refused e) = 4
ahead (registered h) = 7
ahead (waits h) = 6
ahead (cancels h) = 5
ahead (not_cancelled h e) = 4
ahead (cancelled h) = 4
ahead returns = 3
ahead joins = 2
ahead exited = 0
ahead crashed = 0

abbrev unfinished : Consumer → ℕ
unfinished finished = 0
unfinished _ = 1

abbrev to_go : Process → ℕ
to_go s = ahead s.main + unfinished s.consumer + length s.callbacks

abbrev left : Consumer → ℕ
left (works es) = suc (length es)
left _ = 0

length-middle :
    (before after : List Notification) (n : Notification)
    → length (before ++ n ∷ after) ≡ suc (length (before ++ after))
length-middle [] after n = refl
length-middle (m ∷ before) after n = ap suc (length-middle before after n)

-- The process ends: as long as it has not ended it can take a step, whichever it takes.
pub data Ends (c : Constants) (dump_all fails : Bool) : Process → Type 0 where
  ended : {s : Process} → is_over s.main ≡ true → Ends c dump_all fails s
  goes_on :
      {s t : Process}
      → Move c dump_all fails s t
      → ((u : Process) → Move c dump_all fails s u → Ends c dump_all fails u)
      → Ends c dump_all fails s

-- The answers of some system.
abbrev some_system : System
some_system = record { get_ip_forward_entry2 = λ row. err 0; get_ip_forward_table2 = err 0 }

module _ (c : Constants) (dump_all fails : Bool) where
  Move-shorter :
      {s t : Process}
      → is_over s.main ≡ false
      → Move c dump_all fails s t
      → (to_go t < to_go s) ⊎ ((to_go t ≡ to_go s) × (left t.consumer < left s.consumer))
  Move-shorter {s} on (Move.spin_up f) = ground arith
  Move-shorter {s} on (Move.register h f q) = ground arith
  Move-shorter {s} on (Move.refuse e f g q) = ground arith
  Move-shorter {s} on (Move.tell_refused e f) = ground arith
  Move-shorter {s} on (Move.tell_registered h f) = ground arith
  Move-shorter {s} on (Move.wake h f d) = ground arith
  Move-shorter {s} on (Move.cancel h f q) = ground arith
  Move-shorter {s} on (Move.fail_cancel h e f g) = ground arith
  Move-shorter {s} on (Move.tell_not_cancelled h e f) = ground arith
  Move-shorter {s} on (Move.tell_cancelled h f) = ground arith
  Move-shorter {s} on (Move.close f) = ground arith
  Move-shorter {s} on (Move.exit f g) = ground arith
  Move-shorter {s} on (Move.crash n ns f q) = ground arith
  Move-shorter {s} on (Move.receive before after n sys f g q) =
      ground (arith, length-middle before after n, ap length q)
  Move-shorter {s} on (Move.work e es f) = ground arith
  Move-shorter {s} on (Move.next f) = ground arith
  Move-shorter {s} on (Move.finish f g) = ground arith

  -- The next step while a callback waits, and while the main thread waits for the consumer.
  takes :
      (s : Process) (k : Consumer) (n : Notification) (ns : List Notification)
      → s.consumer ≡ k
      → stage k ≡ 1
      → is_closed s.main ≡ false
      → s.callbacks ≡ n ∷ ns
      → (t : Process) × Move c dump_all fails s t
  takes s receives n ns f g o q = (_, Move.receive [] ns n some_system f o q)
  takes s (works []) n ns f g o q = (_, Move.next f)
  takes s (works (e ∷ es)) n ns f g o q = (_, Move.work e es f)
  takes s unstarted n ns f g o q = ground arith
  takes s finished n ns f g o q = ground arith

  comes_to_exit :
      (s : Process) (k : Consumer)
      → s.consumer ≡ k
      → s.main ≡ joins
      → 1 ≤ stage k
      → (t : Process) × Move c dump_all fails s t
  comes_to_exit s unstarted f g p = ground arith
  comes_to_exit s receives f g p = (_, Move.finish f (ap is_closed g))
  comes_to_exit s (works []) f g p = (_, Move.next f)
  comes_to_exit s (works (e ∷ es)) f g p = (_, Move.work e es f)
  comes_to_exit s finished f g p = (_, Move.exit g f)

  comes_to_register :
      (s : Process) (l : List Notification)
      → s.callbacks ≡ l
      → s.main ≡ registers
      → stage s.consumer ≡ 1
      → (t : Process) × Move c dump_all fails s t
  comes_to_register s [] q f g = (_, Move.register 0 f q)
  comes_to_register s (n ∷ ns) q f g = takes s s.consumer n ns refl g (ap is_closed f) q

  comes_to_cancel :
      (s : Process) (l : List Notification) (h : ℕ)
      → s.callbacks ≡ l
      → s.main ≡ cancels h
      → stage s.consumer ≡ 1
      → (t : Process) × Move c dump_all fails s t
  comes_to_cancel s [] h q f g = (_, Move.cancel h f q)
  comes_to_cancel s (n ∷ ns) h q f g = takes s s.consumer n ns refl g (ap is_closed f) q

  moves :
      (s : Process) (m : MainThread)
      → s.main ≡ m
      → IsJoined m (stage s.consumer)
      → is_over m ≡ false
      → s.ctx_done ≡ true
      → (t : Process) × Move c dump_all fails s t
  moves s spins_up f i on d = (_, Move.spin_up f)
  moves s registers f i on d = comes_to_register s s.callbacks refl f i
  moves s (refused e) f i on d = (_, Move.tell_refused e f)
  moves s (registered h) f i on d = (_, Move.tell_registered h f)
  moves s (waits h) f i on d = (_, Move.wake h f d)
  moves s (cancels h) f i on d = comes_to_cancel s s.callbacks h refl f i
  moves s (not_cancelled h e) f i on d = (_, Move.tell_not_cancelled h e f)
  moves s (cancelled h) f i on d = (_, Move.tell_cancelled h f)
  moves s returns f i on d = (_, Move.close f)
  moves s joins f i on d = comes_to_exit s s.consumer refl f i
  moves s exited f i on d = ground arith
  moves s crashed f i on d = ground arith

  Move-ctx_done :
      {s t : Process} → Move c dump_all fails s t → s.ctx_done ≡ true → t.ctx_done ≡ true
  Move-ctx_done (Move.register h f q) d = d
  Move-ctx_done _ d = d

  -- By what is left of the handler's work, when less to go is known to end.
  Ends-left :
      (n m : ℕ)
      → ((u : Process)
          → IsSound c dump_all u
          → u.ctx_done ≡ true
          → to_go u ≤ n
          → Ends c dump_all fails u)
      → (s : Process) → IsSound c dump_all s
      → s.ctx_done ≡ true
      → to_go s ≤ suc n
      → left s.consumer ≤ m
      → (b : Bool) → is_over s.main ≡ b
      → Ends c dump_all fails s
  Ends-left n m less s i d p q true on = ended on
  Ends-left n zero less s i d p q false on = goes_on (moves s s.main refl i.joined on d).1 (λ u mv.
      elim (Move-shorter on mv) [
        | inl lt ↦
            less u (Move-IsSound c dump_all fails on mv i) (Move-ctx_done mv d)
              (omega (arith, lt, p))
        | inr e ↦ absurd (omega (arith, e.1, q))
      ])
  Ends-left n (suc m) less s i d p q false on =
      goes_on (moves s s.main refl i.joined on d).1 (λ u mv. elim (Move-shorter on mv) [
        | inl lt ↦
            less u (Move-IsSound c dump_all fails on mv i) (Move-ctx_done mv d)
              (omega (arith, lt, p))
        | inr e ↦
            Ends-left n m less u (Move-IsSound c dump_all fails on mv i) (Move-ctx_done mv d)
              (omega (arith, e.0, p)) (omega (arith, e.1, q)) (is_over u.main) refl
      ])

  Sound-Ends :
      (n : ℕ) (s : Process)
      → IsSound c dump_all s
      → s.ctx_done ≡ true
      → to_go s ≤ n
      → Ends c dump_all fails s
  Sound-Ends zero s i d p = ended (ground arith)
  Sound-Ends (suc n) s i d p =
      Ends-left n (left s.consumer) (Sound-Ends n) s i d p (omega arith) (is_over s.main) refl

  -- From every state that a run comes to, once a signal has ended the context: if the system does
  -- not call the callback any more, the process ends, whichever step it takes of those that it can
  -- take; it can take one until then, also where the system's calls do not fail.
  pub Reach-Ends :
      {s : Process} → Reach c dump_all true s → s.ctx_done ≡ true → Ends c dump_all fails s
  Reach-Ends {s} r d = Sound-Ends (to_go s) s (Reach-IsSound c dump_all true r) d (omega arith)

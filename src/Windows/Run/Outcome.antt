-- ===== src/Windows/Run/Outcome.antt =====
-- What a run of route/cmd/route/main_windows.go comes to.
use mathlib.Core.List.{Perm}
use cubic_go_playground.Prelude.{
  sum_of, sum_of-append, ◌≤◌, ◌≡◌, refl, sym, ap, subst, ◌∙◌, Bool, true, false, List, [], ◌∷◌,
  ◌++◌, list_laws, arith,
}
use cubic_go_playground.Windows.Rows.{Constants}
use cubic_go_playground.Windows.Handler.{consume}
use cubic_go_playground.Windows.Counted.{is_get, is_free, some_initial, consume-calls}
use cubic_go_playground.Windows.Run.{
  exited, crashed, Consumer, RunEvent, handles, logs_refused, logs_registered, logs_unregistered,
  logs_not_unregistered, Process, is_closed, Reach,
}
use cubic_go_playground.Windows.Run.Told.{
  effects_of, told, left_of, HasEnded, was_refused, was_cancelled, was_not_cancelled, IsJoined,
  stage, HasEnded-closed, sent,
}
use cubic_go_playground.Windows.Run.Sound.{IsSound}
use cubic_go_playground.Windows.Run.Moves.{Reach-IsSound}

-- Whether the log says that the callback could not be unregistered.
abbrev pub has_failed : List RunEvent → Bool
has_failed [] = false
has_failed (logs_not_unregistered h e ∷ l) = true
has_failed (_ ∷ l) = has_failed l

has_failed-told : (l : List RunEvent) → has_failed l ≡ has_failed (told l)
has_failed-told [] = refl
has_failed-told (handles e ∷ l) = has_failed-told l
has_failed-told (logs_refused e ∷ l) = has_failed-told l
has_failed-told (logs_registered h ∷ l) = has_failed-told l
has_failed-told (logs_unregistered ∷ l) = has_failed-told l
has_failed-told (logs_not_unregistered h e ∷ l) = refl

HasEnded-force : {l : List RunEvent} {b : Bool} → HasEnded l b → b ≡ has_failed l
HasEnded-force (was_refused e) = refl
HasEnded-force (was_cancelled h) = refl
HasEnded-force (was_not_cancelled h e) = refl

left_of-finished : (k : Consumer) → stage k ≡ 2 → left_of k ≡ []
left_of-finished k h = ground arith

closed-quiet :
    {c : Constants} {dump_all : Bool} {s : Process}
    → IsSound c dump_all s
    → is_closed s.main ≡ true
    → has_failed s.events ≡ false
    → (s.callbacks ≡ []) × (s.in_force ≡ false)
closed-quiet {s} i closed ok =
    let forced : s.in_force ≡ false =
      HasEnded-force (HasEnded-closed s.main closed i.stands)
      ∙ sym (has_failed-told s.events)
      ∙ ok in
    (i.quiet forced, forced)

module _ {c : Constants} {dump_all fails : Bool} where
  -- In every state that a run comes to, however the callbacks, the signal and the goroutines
  -- interleave and whatever the system answers: what the handler has done, followed by what is left
  -- of the notification that it works on, is what handling the received notifications one after the
  -- other does; the table is fetched once at most, and freed no more often than fetched.
  pub Reach-consume :
      {s : Process}
      → Reach c dump_all fails s
      → (consume c dump_all false s.taken ≡ (s.flag, effects_of s.events ++ left_of s.consumer))
        × (sum_of is_get (effects_of s.events) ≤ 1)
        × (sum_of is_free (effects_of s.events) ≤ 1)
  Reach-consume {s} r =
      let i = Reach-IsSound c dump_all fails r in
      let k : Bool = some_initial c s.taken in
      (
        i.follows,
        ground (
          arith,
          i.follows,
          consume-calls c dump_all s.taken,
          sum_of-append is_get (effects_of s.events) (left_of s.consumer),
        ),
        ground (
          arith,
          i.follows,
          consume-calls c dump_all s.taken,
          sum_of-append is_free (effects_of s.events) (left_of s.consumer),
        ),
      )

  -- If `run` returns, and has not logged that it could not unregister, then every notification that
  -- the callback was called with has been received once, and what the handler has done is what
  -- handling them one after the other does, to the end; what the main thread has logged is that it
  -- could not register, or that it has registered and then unregistered.
  pub Reach-exited :
      {s : Process}
      → Reach c dump_all fails s
      → s.main ≡ exited
      → has_failed s.events ≡ false
      → Perm s.called (sent s.taken)
        × (consume c dump_all false s.taken ≡ (s.flag, effects_of s.events))
        × HasEnded (told s.events) false
  Reach-exited {s} r over ok =
      let i = Reach-IsSound c dump_all fails r in
      let closed : is_closed s.main ≡ true = ap is_closed over in
      let joined = subst (λ m. IsJoined m (stage s.consumer)) over i.joined in
      (
        subst (λ l. Perm s.called l) (simp (list_laws, (closed-quiet i closed ok).0)) i.delivered,
        simp (list_laws, i.follows, left_of-finished s.consumer joined),
        let h = HasEnded-closed s.main closed i.stands in
            subst (HasEnded (told s.events)) (closed-quiet i closed ok).1 h,
      )

  -- The channel is closed with no callback in it, so that none panics by its send, unless the log
  -- says that the callback could not be unregistered.
  pub Reach-closed :
      {s : Process}
      → Reach c dump_all fails s
      → is_closed s.main ≡ true
      → has_failed s.events ≡ false
      → (s.callbacks ≡ []) × (s.in_force ≡ false) × ¬ (s.main ≡ crashed)
  Reach-closed {s} r closed ok =
      let i = Reach-IsSound c dump_all fails r in
      let (quiet, forced) = closed-quiet i closed ok in
      (quiet, forced, λ e. ground (arith, i.stands))

-- ===== src/Windows/Run/Moves.antt =====
-- The steps of the process keep the invariant of the run.
use mathlib.Core.List.Perm
use mathlib.Core.List.{Perm}
use cubic_go_playground.Prelude.{
  ◌≡◌, refl, sym, ap, subst, ◌∙◌, Bool, false, List, [], ◌∷◌, ◌++◌, list_laws, arith,
}
use cubic_go_playground.Windows.Rows.{Constants}
use cubic_go_playground.Windows.Handler.{System, Notification, Effect, handle}
use cubic_go_playground.Windows.Run.{
  MainThread, registered, refused, waits, cancels, not_cancelled, cancelled, returns, joins, exited,
  crashed, Consumer, receives, works, finished, RunEvent, is_closed, handles, logs_refused,
  logs_registered, logs_unregistered, logs_not_unregistered, Process, is_over, Move, Reach,
}
use cubic_go_playground.Windows.Run.Told.{
  effects_of, told, left_of, was_refused, was_cancelled, was_not_cancelled, StandsAt, IsJoined,
  stage, effects_of-append, told-append, told-next, HasEnded-closed, left_of-unstarted,
  none_taken_out, sent, sent-append, taken_out,
}
use cubic_go_playground.Windows.Run.Sound.{
  consume-snoc, IsSound, start-IsSound, Outside-IsSound, standing, follows-told,
}

module _ (c : Constants) (dump_all : Bool) where
  -- The main thread goes on, gives up the registration, or logs.
  goes-IsSound :
      {s : Process} (m : MainThread)
      → StandsAt m (told s.events) s.in_force
      → IsJoined m (stage s.consumer)
      → IsSound c dump_all s
      → IsSound c dump_all (record s { main = m })
  goes-IsSound m stands joined i = record {
    stands = stands;
    follows = i.follows;
    quiet = i.quiet;
    delivered = i.delivered;
    joined = joined;
  }

  gives_up-IsSound :
      {s : Process} (m : MainThread)
      → s.callbacks ≡ []
      → StandsAt m (told s.events) false
      → IsJoined m (stage s.consumer)
      → IsSound c dump_all s
      → IsSound c dump_all (record s { main = m; in_force = false })
  gives_up-IsSound m quiet stands joined i = record {
    stands = stands;
    follows = i.follows;
    quiet = λ b. quiet;
    delivered = i.delivered;
    joined = joined;
  }

  tells-IsSound :
      {s : Process} (m : MainThread) (e : RunEvent)
      → effects_of (e ∷ []) ≡ []
      → StandsAt m (told (s.events ++ e ∷ [])) s.in_force
      → IsJoined m (stage s.consumer)
      → IsSound c dump_all s
      → IsSound c dump_all (record s { main = m; events = s.events ++ e ∷ [] })
  tells-IsSound m e own stands joined i = record {
    stands = stands;
    follows = follows-told c dump_all e own i;
    quiet = i.quiet;
    delivered = i.delivered;
    joined = joined;
  }

  -- The consumer takes a notification, does what is next for it, or goes on.
  receives-IsSound :
      {s : Process} (before after : List Notification) (n : Notification) (sys : System)
      → s.consumer ≡ receives
      → is_closed s.main ≡ false
      → s.callbacks ≡ before ++ n ∷ after
      → IsSound c dump_all s
      → IsSound c dump_all (record s {
        callbacks = before ++ after;
        consumer = works (handle c dump_all s.flag sys n).1;
        flag = (handle c dump_all s.flag sys n).0;
        taken = s.taken ++ (sys, n) ∷ [];
      })
  receives-IsSound {s} before after n sys f g q i = record {
    stands = i.stands;
    follows = simp (list_laws, consume-snoc c dump_all false s.taken sys n, i.follows, f);
    quiet = λ b. none_taken_out before after n (sym q ∙ i.quiet b);
    delivered = Perm.trans (subst (λ l. Perm s.called (sent s.taken ++ l)) q i.delivered) (
        subst (λ l. Perm (sent s.taken ++ (before ++ n ∷ after)) (l ++ (before ++ after)))
          (sym (sent-append s.taken ((sys, n) ∷ []))) (taken_out (sent s.taken) before after n));
    joined = subst (λ k. IsJoined s.main (stage k)) f i.joined;
  }

  works-IsSound :
      {s : Process} (e : Effect) (es : List Effect)
      → s.consumer ≡ works (e ∷ es)
      → IsSound c dump_all s
      → IsSound c dump_all (record s { consumer = works es; events = s.events ++ handles e ∷ [] })
  works-IsSound {s} e es f i = record {
    stands =
        subst (λ l. StandsAt s.main l s.in_force)
          (sym (simp (list_laws, told-append s.events (handles e ∷ [])))) i.stands;
    follows = simp (list_laws, i.follows, f, effects_of-append s.events (handles e ∷ []));
    quiet = i.quiet;
    delivered = i.delivered;
    joined = ground (arith, i.joined);
  }

  turns-IsSound :
      {s : Process} (k : Consumer)
      → left_of s.consumer ≡ []
      → left_of k ≡ []
      → IsJoined s.main (stage k)
      → IsSound c dump_all s
      → IsSound c dump_all (record s { consumer = k })
  turns-IsSound {s} k done idle joined i = record {
    stands = i.stands;
    follows = i.follows ∙ ap (λ l. (s.flag, effects_of s.events ++ l)) (done ∙ sym idle);
    quiet = i.quiet;
    delivered = i.delivered;
    joined = joined;
  }

module _ (c : Constants) (dump_all fails : Bool) where
  pub Move-IsSound :
      {s t : Process}
      → is_over s.main ≡ false
      → Move c dump_all fails s t
      → IsSound c dump_all s
      → IsSound c dump_all t
  Move-IsSound {s} on (Move.spin_up f) i =
      let idle : left_of s.consumer ≡ [] =
        left_of-unstarted s.consumer (ground (arith, i.joined)) in
      record {
        stands = ((standing c dump_all f i).0, refl);
        follows = i.follows ∙ ap (λ l. (s.flag, effects_of s.events ++ l)) idle;
        quiet = λ b. absurd (ground arith);
        delivered = i.delivered;
        joined = refl;
      }
  Move-IsSound on (Move.register h e q) i =
      goes-IsSound c dump_all (registered h) (ground (arith, i.stands)) (ground (arith, i.joined)) i
  Move-IsSound on (Move.refuse e f g q) i =
      gives_up-IsSound c dump_all (refused e) q (ground (arith, i.stands))
        (ground (arith, i.joined)) i
  Move-IsSound {s} on (Move.tell_refused e f) i =
      let p = standing c dump_all f i in
      tells-IsSound c dump_all returns (logs_refused e) refl
        (told-next s.events (logs_refused e) p.0 p.1 refl (was_refused e))
        (ground (arith, i.joined)) i
  Move-IsSound {s} on (Move.tell_registered h f) i =
      tells-IsSound c dump_all (waits h) (logs_registered h) refl
        (ground (arith, i.stands, told-append s.events (logs_registered h ∷ [])))
        (ground (arith, i.joined)) i
  Move-IsSound on (Move.wake h f d) i =
      goes-IsSound c dump_all (cancels h) (ground (arith, i.stands)) (ground (arith, i.joined)) i
  Move-IsSound on (Move.cancel h f q) i =
      gives_up-IsSound c dump_all (cancelled h) q (ground (arith, i.stands))
        (ground (arith, i.joined)) i
  Move-IsSound on (Move.fail_cancel h e f g) i =
      goes-IsSound c dump_all (not_cancelled h e) (ground (arith, i.stands))
        (ground (arith, i.joined)) i
  Move-IsSound {s} on (Move.tell_not_cancelled h e f) i =
      let p = standing c dump_all f i in
      tells-IsSound c dump_all returns (logs_not_unregistered h e) refl
        (told-next s.events (logs_not_unregistered h e) p.0 p.1 refl (was_not_cancelled h e))
        (ground (arith, i.joined)) i
  Move-IsSound {s} on (Move.tell_cancelled h f) i =
      let p = standing c dump_all f i in
      tells-IsSound c dump_all returns logs_unregistered refl
        (told-next s.events logs_unregistered p.0 p.1 refl (was_cancelled h))
        (ground (arith, i.joined)) i
  Move-IsSound on (Move.close f) i =
      goes-IsSound c dump_all joins (ground (arith, i.stands)) (ground (arith, i.joined)) i
  Move-IsSound on (Move.exit f g) i =
      goes-IsSound c dump_all exited (ground (arith, i.stands)) (ap stage g) i
  Move-IsSound {s} on (Move.crash n ns f q) i =
      goes-IsSound c dump_all crashed (HasEnded-closed s.main f i.stands, ground (arith, i.quiet))
        (ground (arith, i.joined)) i
  Move-IsSound on (Move.receive before after n sys f g q) i =
      receives-IsSound c dump_all before after n sys f g q i
  Move-IsSound on (Move.work e es f) i = works-IsSound c dump_all e es f i
  Move-IsSound on (Move.next f) i =
      turns-IsSound c dump_all receives (ap left_of f) refl (ground (arith, i.joined)) i
  Move-IsSound on (Move.finish f g) i =
      turns-IsSound c dump_all finished (ap left_of f) refl (ground (arith, i.joined)) i

  pub Reach-IsSound : {s : Process} → Reach c dump_all fails s → IsSound c dump_all s
  Reach-IsSound Reach.start = start-IsSound c dump_all
  Reach-IsSound (Reach.outside r on o) = Outside-IsSound c dump_all o (Reach-IsSound r)
  Reach-IsSound (Reach.later r on m) = Move-IsSound on m (Reach-IsSound r)

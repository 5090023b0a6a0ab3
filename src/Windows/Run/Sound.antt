-- ===== src/Windows/Run/Sound.antt =====
-- The invariant of the run of route/cmd/route/main_windows.go, and the steps from outside.
use mathlib.Core.List.Perm
use mathlib.Core.List.{Perm}
use cubic_go_playground.Prelude.{
  ◌≡◌, refl, sym, ap, subst, ◌∙◌, Bool, false, List, [], ◌∷◌, ◌++◌, append_assoc, list_laws, arith,
}
use cubic_go_playground.Windows.Rows.{Constants}
use cubic_go_playground.Windows.Handler.{Notification, System, notify, handle, consume}
use cubic_go_playground.Windows.Run.{MainThread, RunEvent, Process, start_of_run, Outside}
use cubic_go_playground.Windows.Run.Told.{
  effects_of, told, left_of, StandsAt, IsJoined, stage, effects_of-append, sent,
}

module _ (c : Constants) (dump_all : Bool) where
  pub consume-snoc :
      (flag : Bool) (ns : List (System × Notification)) (sys : System) (n : Notification)
      → consume c dump_all flag (ns ++ (sys, n) ∷ []) ≡ (
        (handle c dump_all (consume c dump_all flag ns).0 sys n).0,
        (consume c dump_all flag ns).1
            ++ (handle c dump_all (consume c dump_all flag ns).0 sys n).1,
      )
  unfolding consume
  consume-snoc flag [] sys n = simp list_laws
  consume-snoc flag ((sys', n') ∷ ns) sys n =
      simp (list_laws, consume-snoc (handle c dump_all flag sys' n').0 ns sys n)

  pub record IsSound (s : Process) : Type 0 where
    pub stands : StandsAt s.main (told s.events) s.in_force
    pub follows :
        consume c dump_all false s.taken ≡ (s.flag, effects_of s.events ++ left_of s.consumer)
    pub quiet : s.in_force ≡ false → s.callbacks ≡ []
    pub delivered : Perm s.called (sent s.taken ++ s.callbacks)
    pub joined : IsJoined s.main (stage s.consumer)

  pub standing :
      {s : Process} {m : MainThread}
      → s.main ≡ m
      → IsSound s
      → StandsAt m (told s.events) s.in_force
  standing {s} f i = subst (λ m. StandsAt m (told s.events) s.in_force) f i.stands

  pub follows-told :
      {s : Process} (e : RunEvent)
      → effects_of (e ∷ []) ≡ []
      → IsSound s
      → consume c dump_all false s.taken
        ≡ (s.flag, effects_of (s.events ++ e ∷ []) ++ left_of s.consumer)
  follows-told {s} e h i =
      i.follows
      ∙ ap (λ l. (s.flag, l ++ left_of s.consumer))
          (sym (simp (list_laws, h, effects_of-append s.events (e ∷ []))))

  pub start-IsSound : IsSound start_of_run
  unfolding consume
  start-IsSound = record {
    stands = (refl, refl);
    follows = refl;
    quiet = λ e. refl;
    delivered = Perm.refl [];
    joined = refl;
  }

  pub Outside-IsSound : {s t : Process} → Outside s t → IsSound s → IsSound t
  Outside-IsSound {s} (Outside.calls row type e) i = record {
    stands = i.stands;
    follows = i.follows;
    quiet = λ f. ground arith;
    delivered =
        subst (λ l. Perm (s.called ++ notify row type ∷ []) l)
          (append_assoc (sent s.taken) s.callbacks (notify row type ∷ []))
          (Perm.append i.delivered (Perm.refl (notify row type ∷ [])));
    joined = i.joined;
  }
  Outside-IsSound Outside.signals i = record {
    stands = i.stands;
    follows = i.follows;
    quiet = i.quiet;
    delivered = i.delivered;
    joined = i.joined;
  }

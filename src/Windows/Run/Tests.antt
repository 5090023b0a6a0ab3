-- ===== src/Windows/Run/Tests.antt =====
-- Runs of `run` of route/cmd/route/main_windows.go, and its theorems at concrete inputs.
use mathlib.Core.List.{Perm}
use cubic_go_playground.Prelude.{sum_of, ℕ, ◌≤◌, ◌≡◌, refl, true, false, [], ◌∷◌, ◌++◌, none, Bytes}
use cubic_go_playground.Prelude.Result.{err, ok}
use cubic_go_playground.Windows.Rows.{Constants}
use cubic_go_playground.Windows.Handler.{
  System, logs_unknown_type, notify, received, handle, consume,
}
use cubic_go_playground.Windows.Counted.{is_get, is_free}
use cubic_go_playground.Windows.Run.{
  Process, crashed, logs_registered, logs_not_unregistered, Outside, Move, Reach,
}
use cubic_go_playground.Windows.Run.Told.{effects_of, told, left_of, HasEnded, sent}
use cubic_go_playground.Windows.Run.Outcome.{Reach-consume, Reach-exited, Reach-closed}
use cubic_go_playground.Windows.Run.Ends.{Ends, Reach-Ends}

abbrev length_of : Bytes → ℕ
length_of [] = 0
length_of (n ∷ b) = 1

abbrev constants : Constants
constants = record {
  af_inet = 2;
  af_inet6 = 23;
  inet4_addr = length_of;
  inet6_addr = length_of;
  mib_parameter_notification = 0;
  mib_add_instance = 1;
  mib_delete_instance = 2;
  mib_initial_notification = 3;
  error_not_found = 1168;
}

abbrev system : System
system = record { get_ip_forward_entry2 = λ row. err 1168; get_ip_forward_table2 = ok [] }

record Walk : Type 0 where
  last : Process
  reach : Reach constants false true last

-- A notification of an unknown type, which is handled while the main thread registers.
abbrev registering : Walk
unfolding handle notify
registering = record {
  last = _;
  reach =
      Reach.later
        (Reach.later
          (Reach.outside (Reach.later Reach.start refl (Move.spin_up refl)) refl
            (Outside.calls none 9 refl))
          refl (Move.receive [] [] (notify none 9) system refl refl refl))
        refl (Move.work (received constants (notify none 9)) (logs_unknown_type ∷ []) refl);
}

-- The signal, and the main thread before its deferred calls.
abbrev signalled : Walk
unfolding handle notify registering
signalled = record {
  last = _;
  reach =
      Reach.later
        (Reach.later
          (Reach.outside
            (Reach.later (Reach.later registering.reach refl (Move.register 7 refl refl)) refl
              (Move.tell_registered 7 refl))
            refl Outside.signals)
          refl (Move.work logs_unknown_type [] refl))
        refl (Move.wake 7 refl refl);
}

abbrev returned : Walk
unfolding handle notify registering signalled
returned = record {
  last = _;
  reach =
      Reach.later
        (Reach.later
          (Reach.later
            (Reach.later
              (Reach.later (Reach.later signalled.reach refl (Move.cancel 7 refl refl)) refl
                (Move.next refl))
              refl (Move.tell_cancelled 7 refl))
            refl (Move.close refl))
          refl (Move.finish refl refl))
        refl (Move.exit refl refl);
}

-- A callback that is called behind the failure to unregister panics.
abbrev unwound : Walk
unfolding handle notify registering signalled
unwound = record {
  last = _;
  reach =
      Reach.later
        (Reach.outside
          (Reach.later
            (Reach.later (Reach.later signalled.reach refl (Move.fail_cancel 7 6 refl refl)) refl
              (Move.tell_not_cancelled 7 6 refl))
            refl (Move.close refl))
          refl (Outside.calls none 9 refl))
        refl (Move.crash (notify none 9) [] refl refl);
}

unwound_crashed :
    (unwound.last.main ≡ crashed)
    × (told unwound.last.events ≡ logs_registered 7 ∷ logs_not_unregistered 7 6 ∷ [])
unfolding handle notify registering signalled unwound
unwound_crashed = (refl, refl)

Reach-consume_example :
    (consume constants false false registering.last.taken ≡ (
      registering.last.flag,
      effects_of registering.last.events ++ left_of registering.last.consumer,
    ))
    × (sum_of is_get (effects_of registering.last.events) ≤ 1)
    × (sum_of is_free (effects_of registering.last.events) ≤ 1)
Reach-consume_example = Reach-consume registering.reach

Reach-exited_example :
    Perm returned.last.called (sent returned.last.taken)
    × (consume constants false false returned.last.taken
        ≡ (returned.last.flag, effects_of returned.last.events))
    × HasEnded (told returned.last.events) false
unfolding handle notify registering signalled returned
Reach-exited_example = Reach-exited returned.reach refl refl

Reach-closed_example :
    (returned.last.callbacks ≡ [])
    × (returned.last.in_force ≡ false)
    × ¬ (returned.last.main ≡ crashed)
unfolding handle notify registering signalled returned
Reach-closed_example = Reach-closed returned.reach refl refl

Reach-Ends_example : Ends constants false false signalled.last
unfolding handle notify registering signalled
Reach-Ends_example = Reach-Ends constants false false signalled.reach refl

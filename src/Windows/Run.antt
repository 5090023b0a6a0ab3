-- ===== src/Windows/Run.antt =====
-- `run` of route/cmd/route/main_windows.go: the main thread, the callbacks of the system, and the
-- goroutine that consumes the channel, a step of one of them at a time.
pub mod Told
pub mod Sound
pub mod Moves
pub mod Outcome
pub mod Ends
mod Tests
use cubic_go_playground.Prelude.{ℕ, ◌≡◌, Bool, true, false, List, [], ◌∷◌, ◌++◌, Option}
use cubic_go_playground.Windows.Rows.{MibIpForwardRow2, Constants}
use cubic_go_playground.Windows.Handler.{Notification, System, Effect, notify, handle}

-- Where the main thread stands, with the local variables that are live there.
pub data MainThread : Type 0 where
  spins_up : MainThread  -- before `wg.Go`
  registers : MainThread  -- in NotifyRouteChange2
  refused : (e : ℕ) → MainThread
  registered : (handle : ℕ) → MainThread
  waits : (handle : ℕ) → MainThread  -- for `ctx.Done()`
  cancels : (handle : ℕ) → MainThread  -- in CancelMibChangeNotify2
  not_cancelled : (handle e : ℕ) → MainThread
  cancelled : (handle : ℕ) → MainThread
  returns : MainThread  -- before the deferred calls
  joins : MainThread  -- in `wg.Wait()`, with the channel closed
  exited : MainThread
  crashed : MainThread  -- by a send on the closed channel

pub data Consumer : Type 0 where
  unstarted : Consumer
  receives : Consumer  -- head of the `range` loop
  works : (left : List Effect) → Consumer
  finished : Consumer

-- What the process logs, and what the handler does.
pub data RunEvent : Type 0 where
  handles : Effect → RunEvent
  logs_refused : (e : ℕ) → RunEvent
  logs_registered : (handle : ℕ) → RunEvent
  logs_unregistered : RunEvent
  logs_not_unregistered : (handle e : ℕ) → RunEvent

-- The channel has no buffer: the callbacks wait in their sends. `in_force` is the system's, whether
-- it may call the callback. `called` are the notifications of all calls so far,
-- and `taken` those that the consumer has received, each with the answers of the system for it.
pub record Process : Type 0 where
  pub main : MainThread
  pub consumer : Consumer
  pub callbacks : List Notification
  pub in_force : Bool
  pub ctx_done : Bool
  pub called : List Notification
  pub flag : Bool  -- `initialNotificationHandled`
  pub taken : List (System × Notification)
  pub events : List RunEvent

abbrev pub start_of_run : Process
start_of_run = record {
  main = spins_up;
  consumer = unstarted;
  callbacks = [];
  in_force = false;
  ctx_done = false;
  called = [];
  flag = false;
  taken = [];
  events = [];
}

abbrev pub is_closed : MainThread → Bool
is_closed joins = true
is_closed exited = true
is_closed crashed = true
is_closed _ = false

abbrev pub is_over : MainThread → Bool
is_over exited = true
is_over crashed = true
is_over _ = false

-- What comes from outside: the system calls the callback, and a signal ends the context.
pub data Outside (s : Process) : Process → Type 0 where
  calls :
      (row : Option MibIpForwardRow2) (type : ℕ)
      → s.in_force ≡ true
      → Outside s (record s {
        callbacks = s.callbacks ++ notify row type ∷ [];
        called = s.called ++ notify row type ∷ [];
      })
  signals : Outside s (record s { ctx_done = true })

-- A step of the process. The consumer is spun up before NotifyRouteChange2 is called, which blocks
-- until the callbacks have returned, and does not call back any more when it returns an error.
-- CancelMibChangeNotify2 returns without an error when the callbacks have returned. Of the callbacks
-- that wait any one may be next. `fails` says whether the two calls may fail.
pub data Move (c : Constants) (dump_all fails : Bool) (s : Process) : Process → Type 0 where
  spin_up :
      s.main ≡ spins_up
      → Move c dump_all fails s
          (record s { main = registers; consumer = receives; in_force = true })
  register :
      (h : ℕ)
      → s.main ≡ registers
      → s.callbacks ≡ []
      → Move c dump_all fails s (record s { main = registered h })
  refuse :
      (e : ℕ)
      → s.main ≡ registers
      → fails ≡ true
      → s.callbacks ≡ []
      → Move c dump_all fails s (record s { main = refused e; in_force = false })
  tell_refused :
      (e : ℕ)
      → s.main ≡ refused e
      → Move c dump_all fails s
          (record s { main = returns; events = s.events ++ logs_refused e ∷ [] })
  tell_registered :
      (h : ℕ)
      → s.main ≡ registered h
      → Move c dump_all fails s
          (record s { main = waits h; events = s.events ++ logs_registered h ∷ [] })
  wake :
      (h : ℕ)
      → s.main ≡ waits h
      → s.ctx_done ≡ true
      → Move c dump_all fails s (record s { main = cancels h })
  cancel :
      (h : ℕ)
      → s.main ≡ cancels h
      → s.callbacks ≡ []
      → Move c dump_all fails s (record s { main = cancelled h; in_force = false })
  fail_cancel :
      (h e : ℕ)
      → s.main ≡ cancels h
      → fails ≡ true
      → Move c dump_all fails s (record s { main = not_cancelled h e })
  tell_not_cancelled :
      (h e : ℕ)
      → s.main ≡ not_cancelled h e
      → Move c dump_all fails s
          (record s { main = returns; events = s.events ++ logs_not_unregistered h e ∷ [] })
  tell_cancelled :
      (h : ℕ)
      → s.main ≡ cancelled h
      → Move c dump_all fails s
          (record s { main = returns; events = s.events ++ logs_unregistered ∷ [] })
  close : s.main ≡ returns → Move c dump_all fails s (record s { main = joins })
  exit :
      s.main ≡ joins → s.consumer ≡ finished → Move c dump_all fails s (record s { main = exited })
  crash :
      (n : Notification) (ns : List Notification)
      → is_closed s.main ≡ true
      → s.callbacks ≡ n ∷ ns
      → Move c dump_all fails s (record s { main = crashed })
  receive :
      (before after : List Notification) (n : Notification) (sys : System)
      → s.consumer ≡ receives
      → is_closed s.main ≡ false
      → s.callbacks ≡ before ++ n ∷ after
      → Move c dump_all fails s (record s {
        callbacks = before ++ after;
        consumer = works (handle c dump_all s.flag sys n).1;
        flag = (handle c dump_all s.flag sys n).0;
        taken = s.taken ++ (sys, n) ∷ [];
      })
  work :
      (e : Effect) (es : List Effect)
      → s.consumer ≡ works (e ∷ es)
      → Move c dump_all fails s
          (record s { consumer = works es; events = s.events ++ handles e ∷ [] })
  next : s.consumer ≡ works [] → Move c dump_all fails s (record s { consumer = receives })
  finish :
      s.consumer ≡ receives
      → is_closed s.main ≡ true
      → Move c dump_all fails s (record s { consumer = finished })

-- The states that a run of `run` comes to.
pub data Reach (c : Constants) (dump_all fails : Bool) : Process → Type 0 where
  start : Reach c dump_all fails start_of_run
  outside :
      {s t : Process}
      → Reach c dump_all fails s
      → is_over s.main ≡ false
      → Outside s t
      → Reach c dump_all fails t
  later :
      {s t : Process}
      → Reach c dump_all fails s
      → is_over s.main ≡ false
      → Move c dump_all fails s t
      → Reach c dump_all fails t

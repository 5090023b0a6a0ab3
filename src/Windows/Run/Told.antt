-- ===== src/Windows/Run/Told.antt =====
-- What the main thread of route/cmd/route/main_windows.go has logged, what its handler has done, and
-- where the main thread stands then.
use mathlib.Core.List.Perm
use mathlib.Core.List.{Perm, perm_middle}
use cubic_go_playground.Prelude.{
  ℕ, ◌≤◌, ◌≡◌, refl, sym, ap, subst, ◌∙◌, Bool, true, false, List, [], ◌∷◌, ◌++◌, append_assoc,
  arith,
}
use cubic_go_playground.Windows.Handler.{Notification, System, Effect}
use cubic_go_playground.Windows.Run.{
  MainThread, spins_up, registers, refused, registered, waits, cancels, not_cancelled, cancelled,
  returns, joins, exited, crashed, Consumer, unstarted, works, finished, RunEvent, handles,
  logs_refused, logs_registered, logs_unregistered, logs_not_unregistered, is_closed,
}

-- What the handler has done, and what the main thread has logged.
abbrev pub effects_of : List RunEvent → List Effect
effects_of [] = []
effects_of (handles e ∷ l) = e ∷ effects_of l
effects_of (_ ∷ l) = effects_of l

abbrev pub told : List RunEvent → List RunEvent
told [] = []
told (handles e ∷ l) = told l
told (logs_refused e ∷ l) = logs_refused e ∷ told l
told (logs_registered h ∷ l) = logs_registered h ∷ told l
told (logs_unregistered ∷ l) = logs_unregistered ∷ told l
told (logs_not_unregistered h e ∷ l) = logs_not_unregistered h e ∷ told l

abbrev pub left_of : Consumer → List Effect
left_of (works es) = es
left_of _ = []

-- How `run` may end, and whether the callback may still be called then.
pub data HasEnded : List RunEvent → Bool → Type 0 where
  was_refused : (e : ℕ) → HasEnded (logs_refused e ∷ []) false
  was_cancelled : (h : ℕ) → HasEnded (logs_registered h ∷ logs_unregistered ∷ []) false
  was_not_cancelled : (h e : ℕ) → HasEnded (logs_registered h ∷ logs_not_unregistered h e ∷ []) true

abbrev pub StandsAt : MainThread → List RunEvent → Bool → Type 0
StandsAt spins_up l b = (l ≡ []) × (b ≡ false)
StandsAt registers l b = (l ≡ []) × (b ≡ true)
StandsAt (refused e) l b = (l ≡ []) × (b ≡ false)
StandsAt (registered h) l b = (l ≡ []) × (b ≡ true)
StandsAt (waits h) l b = (l ≡ logs_registered h ∷ []) × (b ≡ true)
StandsAt (cancels h) l b = (l ≡ logs_registered h ∷ []) × (b ≡ true)
StandsAt (not_cancelled h e) l b = (l ≡ logs_registered h ∷ []) × (b ≡ true)
StandsAt (cancelled h) l b = (l ≡ logs_registered h ∷ []) × (b ≡ false)
StandsAt crashed l b = HasEnded l b × (b ≡ true)
StandsAt _ l b = HasEnded l b

-- The consumer is started behind the first step of the main thread, ends when the channel is closed, and the process behind it.
abbrev pub IsJoined : MainThread → ℕ → Type 0
IsJoined spins_up n = n ≡ 0
IsJoined exited n = n ≡ 2
IsJoined joins n = 1 ≤ n
IsJoined crashed n = 1 ≤ n
IsJoined _ n = n ≡ 1

abbrev pub stage : Consumer → ℕ
stage unstarted = 0
stage finished = 2
stage _ = 1

pub effects_of-append : (l m : List RunEvent) → effects_of (l ++ m) ≡ effects_of l ++ effects_of m
effects_of-append [] m = refl
effects_of-append (handles e ∷ l) m = ap (λ t. e ∷ t) (effects_of-append l m)
effects_of-append (logs_refused e ∷ l) m = effects_of-append l m
effects_of-append (logs_registered h ∷ l) m = effects_of-append l m
effects_of-append (logs_unregistered ∷ l) m = effects_of-append l m
effects_of-append (logs_not_unregistered h e ∷ l) m = effects_of-append l m

pub told-append : (l m : List RunEvent) → told (l ++ m) ≡ told l ++ told m
told-append [] m = refl
told-append (handles e ∷ l) m = told-append l m
told-append (logs_refused e ∷ l) m = ap (λ t. logs_refused e ∷ t) (told-append l m)
told-append (logs_registered h ∷ l) m = ap (λ t. logs_registered h ∷ t) (told-append l m)
told-append (logs_unregistered ∷ l) m = ap (λ t. logs_unregistered ∷ t) (told-append l m)
told-append (logs_not_unregistered h e ∷ l) m =
    ap (λ t. logs_not_unregistered h e ∷ t) (told-append l m)

pub told-next :
    {l m : List RunEvent} {b a : Bool} (events : List RunEvent) (e : RunEvent)
    → told events ≡ l
    → b ≡ a
    → l ++ told (e ∷ []) ≡ m
    → HasEnded m a
    → HasEnded (told (events ++ e ∷ [])) b
told-next {l} {m} {b} {a} events e p q r h =
    subst (λ t. HasEnded t b)
      (sym (told-append events (e ∷ []) ∙ ap (λ t. t ++ told (e ∷ [])) p ∙ r))
      (subst (λ t. HasEnded m t) (sym q) h)

pub left_of-unstarted : (k : Consumer) → stage k ≡ 0 → left_of k ≡ []
left_of-unstarted k f = ground arith

pub HasEnded-closed :
    {l : List RunEvent} {b : Bool} (m : MainThread)
    → is_closed m ≡ true
    → StandsAt m l b
    → HasEnded l b
HasEnded-closed joins f h = h
HasEnded-closed exited f h = h
HasEnded-closed crashed f h = h.0
HasEnded-closed returns f h = h
HasEnded-closed _ f h = ground arith

pub none_taken_out :
    (before after : List Notification) (n : Notification)
    → before ++ n ∷ after ≡ []
    → before ++ after ≡ []
none_taken_out [] after n h = ground arith
none_taken_out (m ∷ before) after n h = ground arith

abbrev pub sent : List (System × Notification) → List Notification
sent [] = []
sent ((sys, n) ∷ ns) = n ∷ sent ns

pub sent-append : (l m : List (System × Notification)) → sent (l ++ m) ≡ sent l ++ sent m
sent-append [] m = refl
sent-append ((sys, n) ∷ l) m = ap (λ t. n ∷ t) (sent-append l m)

pub taken_out :
    (l before after : List Notification) (n : Notification)
    → Perm (l ++ (before ++ n ∷ after)) (l ++ n ∷ [] ++ (before ++ after))
taken_out l before after n =
    subst (λ m. Perm (l ++ (before ++ n ∷ after)) m)
      (sym (append_assoc l (n ∷ []) (before ++ after)))
      (Perm.append_left l (perm_middle before after))

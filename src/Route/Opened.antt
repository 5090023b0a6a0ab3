-- ===== src/Route/Opened.antt =====
-- What `Socket` and `OpenRoutingSocket` of route/bsdroute leave behind.
use Prim.Native.Nat.{bit_or}
use cubic_go_playground.Prelude.{
  ℕ, ◌++◌, String, ◌≡◌, refl, List, [], ◌∷◌, Option, none, some, Bool, not, ◌&&◌, ◌||◌, true, false,
  ◌==◌, if◌then◌else◌, arith,
}
use cubic_go_playground.Prelude.Result.{Result, err, ok}
use cubic_go_playground.Route.Sockets.{
  Step, locks_fork, unlocks_fork, opens, closes_on_exec, closes, Failure, socket_result, Kind,
  with_flags, without_flags, Opened, Kernel, socket_with_flags, after_open, on_nonblock,
  set_nonblock, socket_without_flags, socket_of,
}

-- The descriptors that are open after a list of steps, and whether the lock is held.
abbrev without : ℕ → List ℕ → List ℕ
without fd [] = []
without fd (f ∷ fs) = let rest = without fd fs in if f == fd then rest else f ∷ rest

abbrev pub open_after : List ℕ → List Step → List ℕ
open_after fds [] = fds
open_after fds (opens domain type proto (ok fd) ∷ s) = open_after (fd ∷ fds) s
open_after fds (closes fd ∷ s) = open_after (without fd fds) s
open_after fds (_ ∷ s) = open_after fds s

abbrev pub held_after : Bool → List Step → Bool
held_after held [] = held
held_after held (locks_fork ∷ s) = held_after true s
held_after held (unlocks_fork ∷ s) = held_after false s
held_after held (_ ∷ s) = held_after held s

abbrev pub owned : Result Failure ℕ → List ℕ
owned (err e) = []
owned (ok fd) = fd ∷ []

abbrev owned_fd : Result ℕ ℕ → List ℕ
owned_fd (err e) = []
owned_fd (ok fd) = fd ∷ []

-- Whether a fork could pass a descriptor on: the lock is free while there is one that is not yet
-- closed on exec.
abbrev pub exposes : (held fresh : Bool) → List Step → Bool
exposes held fresh [] = not held && fresh
exposes held fresh (locks_fork ∷ s) = exposes true fresh s
exposes held fresh (unlocks_fork ∷ s) = fresh || exposes false fresh s
exposes held fresh (opens domain type proto (ok fd) ∷ s) = not held || exposes held true s
exposes held fresh (closes_on_exec fd ∷ s) = exposes held false s
exposes held fresh (_ ∷ s) = exposes held fresh s

abbrev pub Tidy : Opened → Type 0
Tidy o = (open_after [] o.steps ≡ owned o.result) × (held_after false o.steps ≡ false)

-- The descriptor that is returned is not blocking.
abbrev pub Nonblocking : Kernel → Result Failure ℕ → Type 0
Nonblocking k (err e) = Unit
Nonblocking k (ok fd) = k.nonblock fd ≡ none

on_nonblock-Tidy :
    (k : Kernel) (fd : ℕ) (o : Option ℕ)
    → k.nonblock fd ≡ o
    → (open_after (fd ∷ []) (on_nonblock fd o).steps ≡ owned (on_nonblock fd o).result)
      × (held_after false (on_nonblock fd o).steps ≡ false)
      × (exposes false false (on_nonblock fd o).steps ≡ false)
      × Nonblocking k (on_nonblock fd o).result
unfolding on_nonblock
on_nonblock-Tidy k fd none h = (refl, refl, refl, h)
on_nonblock-Tidy k fd (some e) h = (ground arith, refl, refl, tt)

on_answer :
    (k : Kernel) (domain type proto : ℕ) (answer : Result ℕ ℕ)
    → (open_after []
          (opens domain type proto answer ∷ after_open answer ++ (set_nonblock k answer).steps)
        ≡ owned (set_nonblock k answer).result)
      × (held_after true
            (opens domain type proto answer ∷ after_open answer ++ (set_nonblock k answer).steps)
          ≡ false)
      × (exposes true false
            (opens domain type proto answer ∷ after_open answer ++ (set_nonblock k answer).steps)
          ≡ false)
      × Nonblocking k (set_nonblock k answer).result
unfolding set_nonblock after_open
on_answer k domain type proto (err e) = (refl, refl, refl, tt)
on_answer k domain type proto (ok fd) = on_nonblock-Tidy k fd (k.nonblock fd) refl

-- What holds where there are no flags for non-blocking and for closing on exec.
abbrev pub Prepares : Kind → Kernel → Opened → Type 0
Prepares with_flags k o = Unit
Prepares without_flags k o = (exposes false false o.steps ≡ false) × Nonblocking k o.result

flagged :
    (domain type proto : ℕ) (answer : Result ℕ ℕ)
    → open_after [] (opens domain type proto answer ∷ []) ≡ owned (socket_result answer)
flagged domain type proto (err e) = refl
flagged domain type proto (ok fd) = refl

-- On both kinds of system, and whatever the system answers, the descriptors that are open behind
-- `Socket` are the one that it returns, or none if it returns an error, and the fork lock is free.
-- Where there are no flags for that, a descriptor is only returned if it was made non-blocking, and
-- at no time is the lock free while there is a descriptor that is not closed on exec.
pub socket_of-Tidy :
    (kind : Kind) (unix : String → ℕ) (k : Kernel) (domain type proto : ℕ)
    → Tidy (socket_of kind unix k domain type proto)
      × Prepares kind k (socket_of kind unix k domain type proto)
unfolding socket_of socket_with_flags socket_without_flags
socket_of-Tidy without_flags unix k domain type proto =
    let (opened, held, exposed, result) =
      on_answer k domain type proto (k.new_socket domain type proto) in
    ((opened, held), (exposed, result))
socket_of-Tidy with_flags unix k domain type proto =
    let type' : ℕ = bit_or (bit_or type (unix "SOCK_NONBLOCK")) (unix "SOCK_CLOEXEC") in
    ((flagged domain type' proto (k.new_socket domain type' proto), refl), tt)

-- ===== src/Route/Sockets.antt =====
-- `Socket` and `OpenRoutingSocket` of route/bsdroute (sys_cloexec.go on darwin, sock_cloexec.go
-- elsewhere, bsdroute_bsd.go). The calls of the system are listed in their order, those that end in
-- an error too; what they answer is a parameter.
use Prim.Native.Nat.{bit_or}
use cubic_go_playground.Prelude.{ℕ, ◌++◌, String, List, [], ◌∷◌, Option, none, some}
use cubic_go_playground.Prelude.Result.{Result, err, ok}

pub data Step : Type 0 where
  locks_fork : Step
  unlocks_fork : Step
  opens : (domain type proto : ℕ) → Result ℕ ℕ → Step
  closes_on_exec : ℕ → Step
  sets_nonblock : ℕ → Step
  closes : ℕ → Step

-- Which call failed, and with what.
pub data Failure : Type 0 where
  socket : ℕ → Failure
  setnonblock : ℕ → Failure

pub data Kind : Type 0 where
  with_flags : Kind
  without_flags : Kind

pub record Opened : Type 0 where
  pub steps : List Step
  pub result : Result Failure ℕ

pub record Kernel : Type 0 where
  pub new_socket : (domain type proto : ℕ) → Result ℕ ℕ
  pub nonblock : ℕ → Option ℕ

abbrev pub socket_result : Result ℕ ℕ → Result Failure ℕ
socket_result (err e) = err (socket e)
socket_result (ok fd) = ok fd

-- `Socket` of sock_cloexec.go.
unfoldable pub socket_with_flags : (String → ℕ) → Kernel → (domain type proto : ℕ) → Opened
socket_with_flags unix k domain type proto =
    let type' = bit_or (bit_or type (unix "SOCK_NONBLOCK")) (unix "SOCK_CLOEXEC") in
    let answer = k.new_socket domain type' proto in
    record { steps = opens domain type' proto answer ∷ []; result = socket_result answer }

-- `Socket` of sys_cloexec.go behind the call for a descriptor, and from `SetNonblock` on.
unfoldable pub after_open : Result ℕ ℕ → List Step
after_open (err e) = unlocks_fork ∷ []
after_open (ok fd) = closes_on_exec fd ∷ unlocks_fork ∷ []

unfoldable pub on_nonblock : ℕ → Option ℕ → Opened
on_nonblock fd none = record { steps = sets_nonblock fd ∷ []; result = ok fd }
on_nonblock fd (some e) = record {
  steps = sets_nonblock fd ∷ closes fd ∷ [];
  result = err (setnonblock e);
}

unfoldable pub set_nonblock : Kernel → Result ℕ ℕ → Opened
set_nonblock k (err e) = record { steps = []; result = err (socket e) }
set_nonblock k (ok fd) = on_nonblock fd (k.nonblock fd)

unfoldable pub socket_without_flags : Kernel → (domain type proto : ℕ) → Opened
socket_without_flags k domain type proto =
    let answer = k.new_socket domain type proto in
    let set = set_nonblock k answer in
    record {
      steps = locks_fork ∷ opens domain type proto answer ∷ after_open answer ++ set.steps;
      result = set.result;
    }

unfoldable pub socket_of : Kind → (String → ℕ) → Kernel → (domain type proto : ℕ) → Opened
socket_of with_flags unix k domain type proto = socket_with_flags unix k domain type proto
socket_of without_flags unix k domain type proto = socket_without_flags k domain type proto

unfoldable pub open_routing_socket : Kind → (String → ℕ) → Kernel → Opened
open_routing_socket kind unix k =
    socket_of kind unix k (unix "AF_ROUTE") (unix "SOCK_RAW") (unix "AF_UNSPEC")

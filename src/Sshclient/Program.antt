-- ===== src/Sshclient/Program.antt =====
-- `init` and `main` of sshclient/sshclient.go. The packages golang.org/x/crypto/ssh and its
-- knownhosts are a parameter, with the files, the parsing of the flags and the server.
use cubic_go_playground.Prelude.{ℕ, List, [], ◌∷◌, ◌++◌, Option, none, some, Bytes, codes}
use cubic_go_playground.Prelude.Result.{Result, err, ok}

pub record Flags : Type 0 where
  pub private_key_path : Bytes
  pub known_hosts_path : Bytes
  pub host_key_algorithm : Bytes
  pub user : Bytes
  pub network : Bytes
  pub address : Bytes
  pub command : Bytes

-- Why `ssh.Dial` fails: a `*knownhosts.KeyError` is told from the others.
pub data DialError : Type 0 where
  key_error : (want : List Bytes) → DialError
  other_error : ℕ → DialError

pub data Failure : Type 0 where
  no_home_dir : ℕ → Failure
  not_read : ℕ → Failure
  not_parsed : ℕ → Failure
  no_callback : ℕ → Failure
  host_key_mismatch : (want : List Bytes) → Failure
  not_dialled : ℕ → Failure
  no_session : ℕ → Failure
  not_started : ℕ → Failure
  not_waited : ℕ → Failure

module _ (Signer Callback : Type 0) where
  pub record ClientConfig : Type 0 where
    pub user : Bytes
    pub auth : List Signer
    pub host_key_callback : Callback
    pub host_key_algorithms : List Bytes

module _ (Signer Callback Client Session : Type 0) where
  -- What the packages and the server do in one run.
  pub record World : Type 0 where
    pub user_home_dir : Result ℕ Bytes
    pub parse_flags : Flags → Flags
    pub key_algo_ed25519 : Bytes
    pub read_file : Bytes → Result ℕ Bytes
    pub parse_private_key : Bytes → Result ℕ Signer
    pub new_known_hosts : Bytes → Result ℕ Callback
    pub dial : (network address : Bytes) → ClientConfig Signer Callback → Result DialError Client
    pub new_session : Client → Result ℕ Session
    pub shell : Session → (stdin : Bytes) → Option ℕ
    pub wait : Session → (stdin : Bytes) → Option ℕ

  -- What the program does to the outside.
  pub data SshEvent : Type 0 where
    dials : (network address : Bytes) → ClientConfig Signer Callback → SshEvent
    starts_shell : Session → (stdin : Bytes) → SshEvent
    closes_session : Session → SshEvent
    closes_client : Client → SshEvent
    prints_failure : Failure → SshEvent

module _ {Signer Callback Client Session : Type 0} where
  -- The exit code with what is done: `os.Exit(1)` runs no deferred call.
  abbrev pub exit_1 : Failure → ℕ × List (SshEvent Signer Callback Client Session)
  exit_1 failure = (1, prints_failure failure ∷ [])

  abbrev pub after :
      SshEvent Signer Callback Client Session
      → ℕ × List (SshEvent Signer Callback Client Session)
      → ℕ × List (SshEvent Signer Callback Client Session)
  after e r = (r.0, e ∷ r.1)

  module _ (world : World Signer Callback Client Session) where
    abbrev pub failure_of : DialError → Failure
    failure_of (key_error want) = host_key_mismatch want
    failure_of (other_error e) = not_dialled e

    -- `init`: the defaults of the flags.
    abbrev pub defaults : (home_dir : Bytes) → Flags
    defaults home_dir = record {
      private_key_path = home_dir ++ codes "/.ssh/id_ed25519";
      known_hosts_path = home_dir ++ codes "/.ssh/known_hosts";
      host_key_algorithm = world.key_algo_ed25519;
      user = codes "admin";
      network = codes "tcp";
      address = [];
      command = codes "uname -a\nnvram get wan0_ipaddr\nnvram get wan1_ipaddr\n";
    }

    module _ (flags : Flags) where
      abbrev pub client_config : Signer → Callback → ClientConfig Signer Callback
      client_config signer host_key_callback = record {
        user = flags.user;
        auth = signer ∷ [];
        host_key_callback = host_key_callback;
        host_key_algorithms = world.key_algo_ed25519 ∷ [];
      }

      -- The rest of `main` behind each of its calls, with the answer.
      unfoldable pub on_wait :
          Client → Session → Option ℕ → ℕ × List (SshEvent Signer Callback Client Session)
      on_wait client session (some e) = exit_1 (not_waited e)
      on_wait client session none = (0, closes_session session ∷ closes_client client ∷ [])

      unfoldable pub on_shell :
          Client → Session → Option ℕ → ℕ × List (SshEvent Signer Callback Client Session)
      on_shell client session (some e) = exit_1 (not_started e)
      on_shell client session none = on_wait client session (world.wait session flags.command)

      unfoldable pub on_session :
          Client → Result ℕ Session → ℕ × List (SshEvent Signer Callback Client Session)
      on_session client (err e) = exit_1 (no_session e)
      on_session client (ok session) =
          after (starts_shell session flags.command)
            (on_shell client session (world.shell session flags.command))

      unfoldable pub on_dial :
          Result DialError Client → ℕ × List (SshEvent Signer Callback Client Session)
      on_dial (err e) = exit_1 (failure_of e)
      on_dial (ok client) = on_session client (world.new_session client)

      unfoldable pub on_known_hosts :
          Signer → Result ℕ Callback → ℕ × List (SshEvent Signer Callback Client Session)
      on_known_hosts signer (err e) = exit_1 (no_callback e)
      on_known_hosts signer (ok host_key_callback) =
          let config = client_config signer host_key_callback in
          after (dials flags.network flags.address config)
            (on_dial (world.dial flags.network flags.address config))

      unfoldable pub on_signer :
          Result ℕ Signer → ℕ × List (SshEvent Signer Callback Client Session)
      on_signer (err e) = exit_1 (not_parsed e)
      on_signer (ok signer) = on_known_hosts signer (world.new_known_hosts flags.known_hosts_path)

      unfoldable pub on_key : Result ℕ Bytes → ℕ × List (SshEvent Signer Callback Client Session)
      on_key (err e) = exit_1 (not_read e)
      on_key (ok key) = on_signer (world.parse_private_key key)

      unfoldable pub main : ℕ × List (SshEvent Signer Callback Client Session)
      main = on_key (world.read_file flags.private_key_path)

    -- `init`, `flag.Parse` and the rest of `main`.
    unfoldable pub on_home_dir : Result ℕ Bytes → ℕ × List (SshEvent Signer Callback Client Session)
    on_home_dir (err e) = exit_1 (no_home_dir e)
    on_home_dir (ok home_dir) = main (world.parse_flags (defaults home_dir))

    abbrev pub program : ℕ × List (SshEvent Signer Callback Client Session)
    program = on_home_dir world.user_home_dir

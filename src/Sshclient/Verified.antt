-- ===== src/Sshclient/Verified.antt =====
-- What holds of a run of sshclient/sshclient.go.
use cubic_go_playground.Prelude.{
  ◌==◌, if◌then◌else◌, ℕ, ◌+◌, ◌≤◌, ◌≡◌, refl, List, [], ◌∷◌, Option, none, some, Bytes, arith,
}
use cubic_go_playground.Prelude.Result.{Result, err, ok}
use cubic_go_playground.Sshclient.Program.{
  Flags, DialError, ClientConfig, World, SshEvent, dials, starts_shell, closes_session,
  closes_client, prints_failure, client_config, on_wait, on_shell, on_session, on_dial,
  on_known_hosts, on_signer, on_key, main,
}

module _ {Signer Callback Client Session : Type 0} where
  abbrev pub failures : List (SshEvent Signer Callback Client Session) → ℕ
  failures [] = 0
  failures (prints_failure f ∷ es) = 1 + failures es
  failures (_ ∷ es) = failures es

  abbrev pub closings : List (SshEvent Signer Callback Client Session) → ℕ
  closings [] = 0
  closings (closes_session s ∷ es) = 1 + closings es
  closings (closes_client c ∷ es) = 1 + closings es
  closings (_ ∷ es) = closings es

  module _ (world : World Signer Callback Client Session) (flags : Flags) where
    -- The configuration has the key of the file of the flag, and admits only host keys that the file
    -- of the other flag vouches for, of the one algorithm.
    abbrev pub IsVerified : ClientConfig Signer Callback → Type 0
    IsVerified config =
        ((key : Bytes) × (signer : Signer) × (world.read_file flags.private_key_path ≡ ok key)
          × (world.parse_private_key key ≡ ok signer)
          × (config.auth ≡ signer ∷ []))
        × (world.new_known_hosts flags.known_hosts_path ≡ ok config.host_key_callback)
        × (config.host_key_algorithms ≡ world.key_algo_ed25519 ∷ [])
        × (config.user ≡ flags.user)

    -- The client is that of a connection with such a configuration.
    abbrev pub IsConnected : Client → Type 0
    IsConnected client =
        (config : ClientConfig Signer Callback) × IsVerified config
        × (world.dial flags.network flags.address config ≡ ok client)

    abbrev pub IsAdmitted : SshEvent Signer Callback Client Session → Type 0
    IsAdmitted (dials network address config) =
        IsVerified config × (network ≡ flags.network) × (address ≡ flags.address)
    IsAdmitted (starts_shell session stdin) =
        ((client : Client) × IsConnected client × (world.new_session client ≡ ok session))
        × (stdin ≡ flags.command)
    IsAdmitted (closes_session session) =
        (client : Client) × IsConnected client × (world.new_session client ≡ ok session)
    IsAdmitted (closes_client client) = IsConnected client
    IsAdmitted (prints_failure f) = Unit

    abbrev pub AllAdmitted : List (SshEvent Signer Callback Client Session) → Type 0
    AllAdmitted [] = Unit
    AllAdmitted (e ∷ es) = IsAdmitted e × AllAdmitted es

    abbrev pub IsOrderly : ℕ × List (SshEvent Signer Callback Client Session) → Type 0
    IsOrderly r =
        AllAdmitted r.1
        × ((r.0 ≡ failures r.1) × (r.0 ≤ 1) × (closings r.1 ≡ (if r.0 == 0 then 2 else 0)))

    on_wait-IsOrderly :
        (client : Client) (session : Session) (o : Option ℕ)
        → IsConnected client
        → world.new_session client ≡ ok session
        → IsOrderly (on_wait world flags client session o)
    unfolding on_wait
    on_wait-IsOrderly client session (some e) c n = ((tt, tt), (refl, omega arith, refl))
    on_wait-IsOrderly client session none c n =
        (((client, c, n), (c, tt)), (refl, omega arith, refl))

    on_shell-IsOrderly :
        (client : Client) (session : Session) (o : Option ℕ)
        → IsConnected client
        → world.new_session client ≡ ok session
        → IsOrderly (on_shell world flags client session o)
    unfolding on_shell
    on_shell-IsOrderly client session (some e) c n = ((tt, tt), (refl, omega arith, refl))
    on_shell-IsOrderly client session none c n =
        on_wait-IsOrderly client session (world.wait session flags.command) c n

    on_session-IsOrderly :
        (client : Client) (r : Result ℕ Session)
        → IsConnected client
        → world.new_session client ≡ r
        → IsOrderly (on_session world flags client r)
    unfolding on_session
    on_session-IsOrderly client (err e) c n = ((tt, tt), (refl, omega arith, refl))
    on_session-IsOrderly client (ok session) c n =
        let (es, code) =
          on_shell-IsOrderly client session (world.shell session flags.command) c n in
        ((((client, c, n), refl), es), code)

    on_dial-IsOrderly :
        (config : ClientConfig Signer Callback) (r : Result DialError Client)
        → IsVerified config
        → world.dial flags.network flags.address config ≡ r
        → IsOrderly (on_dial world flags r)
    unfolding on_dial
    on_dial-IsOrderly config (err (DialError.key_error want)) v d =
        ((tt, tt), (refl, omega arith, refl))
    on_dial-IsOrderly config (err (DialError.other_error e)) v d =
        ((tt, tt), (refl, omega arith, refl))
    on_dial-IsOrderly config (ok client) v d =
        on_session-IsOrderly client (world.new_session client) (config, v, d) refl

    on_known_hosts-IsOrderly :
        (key : Bytes) (signer : Signer) (r : Result ℕ Callback)
        → world.read_file flags.private_key_path ≡ ok key
        → world.parse_private_key key ≡ ok signer
        → world.new_known_hosts flags.known_hosts_path ≡ r
        → IsOrderly (on_known_hosts world flags signer r)
    unfolding on_known_hosts
    on_known_hosts-IsOrderly key signer (err e) f p h = ((tt, tt), (refl, omega arith, refl))
    on_known_hosts-IsOrderly key signer (ok callback) f p h =
        let config = client_config world flags signer callback in
        let v : IsVerified config = ((key, signer, f, p, refl), h, refl, refl) in
        let (es, code) =
          on_dial-IsOrderly config (world.dial flags.network flags.address config) v refl in
        (((v, refl, refl), es), code)

    on_signer-IsOrderly :
        (key : Bytes) (r : Result ℕ Signer)
        → world.read_file flags.private_key_path ≡ ok key
        → world.parse_private_key key ≡ r
        → IsOrderly (on_signer world flags r)
    unfolding on_signer
    on_signer-IsOrderly key (err e) f p = ((tt, tt), (refl, omega arith, refl))
    on_signer-IsOrderly key (ok signer) f p =
        on_known_hosts-IsOrderly key signer (world.new_known_hosts flags.known_hosts_path) f p refl

    on_key-IsOrderly :
        (r : Result ℕ Bytes)
        → world.read_file flags.private_key_path ≡ r
        → IsOrderly (on_key world flags r)
    unfolding on_key
    on_key-IsOrderly (err e) f = ((tt, tt), (refl, omega arith, refl))
    on_key-IsOrderly (ok key) f = on_signer-IsOrderly key (world.parse_private_key key) f refl

    -- Whatever the files hold and the server answers: the program connects only with the key of the
    -- file that the flag names and with a check of the host key against the known hosts, restricted
    -- to Ed25519; it starts a shell only in a session of such a connection, with the command as its
    -- input, and closes nothing else; it exits with 1 if it has printed a failure, which is the only
    -- one then, and has closed nothing, and else with 0, and has closed the session and the client.
    pub main-IsOrderly : IsOrderly (main world flags)
    unfolding main
    main-IsOrderly = on_key-IsOrderly (world.read_file flags.private_key_path) refl

-- ===== src/Sshclient/Tests.antt =====
-- Runs of the model of sshclient/sshclient.go, and its theorem at a concrete input. The signer and
-- the callback of a test are the numbers of their files.
use cubic_go_playground.Prelude.{ℕ, ◌≡◌, refl, [], ◌∷◌, none, Bytes, codes, length}
use cubic_go_playground.Prelude.Result.{err, ok}
use cubic_go_playground.Sshclient.Program.{
  Flags, key_error, host_key_mismatch, no_callback, World, dials, starts_shell, closes_session,
  closes_client, prints_failure, client_config, defaults, on_home_dir, on_wait, on_shell,
  on_session, on_dial, on_known_hosts, on_signer, on_key, main, program,
}
use cubic_go_playground.Sshclient.Verified.{IsOrderly, main-IsOrderly}

abbrev world : World ℕ ℕ ℕ ℕ
world = record {
  user_home_dir = ok (codes "/root");
  parse_flags = λ flags. record flags { address = codes "router:22" };
  key_algo_ed25519 = codes "ssh-ed25519";
  read_file = λ path. ok path;
  parse_private_key = λ key. ok (length key);
  new_known_hosts = λ path. ok (length path);
  dial = λ network address config. ok config.host_key_callback;
  new_session = λ client. ok 7;
  shell = λ session stdin. none;
  wait = λ session stdin. none;
}

abbrev flags : Flags
flags = world.parse_flags (defaults world (codes "/root"))

program_succeeds : program world ≡ (
  0,
  dials (codes "tcp") (codes "router:22") (client_config world flags 21 22)
      ∷ starts_shell 7 flags.command
      ∷ closes_session 7
      ∷ closes_client 22
      ∷ [],
)
unfolding main on_home_dir on_wait on_shell on_session on_dial on_known_hosts on_signer on_key
program_succeeds = refl

-- The host key is another one than the file's.
program_mismatch :
    program (record world { dial = λ network address config. err (key_error []) }) ≡ (
      1,
      dials (codes "tcp") (codes "router:22") (client_config world flags 21 22)
          ∷ prints_failure (host_key_mismatch [])
          ∷ [],
    )
unfolding main on_home_dir on_dial on_known_hosts on_signer on_key
program_mismatch = refl

program_without_known_hosts :
    program (record world { new_known_hosts = λ path. err 2 })
    ≡ (1, prints_failure (no_callback 2) ∷ [])
unfolding main on_home_dir on_known_hosts on_signer on_key
program_without_known_hosts = refl

-- The flag of the host key algorithm changes nothing.
host_key_algorithm_ignored :
    (algorithm : Bytes)
    → main world (record flags { host_key_algorithm = algorithm }) ≡ main world flags
unfolding main on_wait on_shell on_session on_dial on_known_hosts on_signer on_key
host_key_algorithm_ignored algorithm = refl

main-IsOrderly_example : IsOrderly world flags (main world flags)
main-IsOrderly_example = main-IsOrderly world flags

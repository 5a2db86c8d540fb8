-- ===== src/Admin/Stored.antt =====
-- The commands of server-package/crates/frp-game-server/src/app.rs over the storage.
use orange_frp.Prelude.{
  ℕ, ◌≡◌, subst, inl, inr, Option, none, some, nat_eq, list_eq, pair_eq, Result, ok, err, >>=-eq-ok,
  Result-cases, Text,
}
use orange_frp.Tunnel.Normalize.{IsUuidSource}
use orange_frp.Crypto.{Primitives, Bytes}
use orange_frp.Config.{ServerConfig, Error, Argon2}
use orange_frp.Config.Normalize.{normalize_loaded_config}
use orange_frp.Storage.Legacy.{LegacyReader}
use orange_frp.Storage.Read.{load}
use orange_frp.Storage.Operations.{Store, initialize, read, save}
use orange_frp.Storage.Refinement.{Holds, initialize-Holds, save-IsStorage}
use orange_frp.Admin.Commands.{Change, run_command}

-- What is stored after a command: what it answers that it saved, or what was stored before.
abbrev pub IsStored : ServerConfig → Store × Result Error (Option ServerConfig) → Type 0
IsStored before (s, ok (some after)) = Holds s after
IsStored before (s, ok none) = Holds s before
IsStored before (s, err error) = Holds s before

module _ (prims : Primitives) (argon : Argon2) (uuid : ℕ → Text) (random : ℕ → Bytes)
    (reader : LegacyReader) where
  Holds-issued :
      (s : Store) (c : ServerConfig) (n : ℕ) → Holds s c → Holds (record s { issued = n }) c
  Holds-issued s c n h = record {
    settings = h.settings;
    users = h.users;
    tunnels = h.tunnels;
    traffic = h.traffic;
  }

  read-Holds :
      (s s1 : Store) (c config : ServerConfig)
      → Holds s c
      → read prims argon uuid random reader s ≡ ok (s1, config)
      → Holds s1 c
  unfolding read
  read-Holds s s1 c config held h =
      let (ready, init, h1) = >>=-eq-ok (initialize prims argon uuid random reader s) _ h in
      let (loaded, run, h2) = >>=-eq-ok (load ready.database) _ h1 in
      let ((normal, issued), normalized, last) =
        >>=-eq-ok (normalize_loaded_config prims uuid ready.issued loaded) _ h2 in
      let e : record ready { issued = issued } ≡ s1 = cc last in
      subst (λ x. Holds x c) e
        (Holds-issued ready c issued
          (initialize-Holds prims argon uuid random reader s ready c held init))

  -- Whatever a command changes and wherever it fails, the database then holds the configuration
  -- that it saved, or the one from before if it saved none: its settings, users and tunnels, and for
  -- every proxy name the traffic record written last under it.
  pub run_command-IsStored :
      IsUuidSource uuid
      → (change : ServerConfig → Change) (s : Store) (before : ServerConfig) → Holds s before
      → IsStored before (run_command prims argon uuid random reader change s)
  unfolding run_command
  run_command-IsStored source change s before held =
      let storage = save-IsStorage prims argon uuid random reader source in
      elim (Result-cases (read prims argon uuid random reader s)) [
        | inr (error, e) ↦ rw (e, run_command) held
        | inl ((s1, config), e) ↦
            let held1 = read-Holds s s1 before config held e in
            elim (Result-cases (change config)) [
              | inr (error, failed) ↦ rw (e, run_command) (rw failed held1)
              | inl (none, idle) ↦ rw (e, run_command) (rw idle held1)
              | inl (some changed, some_change) ↦
                  elim (Result-cases (save prims argon uuid random reader s1 changed).1) [
                    | inl (saved, done) ↦
                        rw (e, run_command)
                          (rw some_change (rw done (storage.saved s1 changed saved done)))
                    | inr (error, failed) ↦
                        rw (e, run_command)
                          (rw some_change
                            (rw failed (storage.kept s1 changed before error failed held1)))
                  ]
            ]
      ]

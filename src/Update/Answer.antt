-- ===== src/Update/Answer.antt =====
-- The answer of `command_check_update` in server-package/crates/frp-game-server/src/app.rs, and the
-- installers that it runs.
use orange_frp.Prelude.{
  ◌≡◌, refl, ap, ◌∙◌, ◌≢◌, inl, inr, Bool, true, false, not, none, some, List, [], ◌∷◌, not-false,
  Option-cases, nat_eq, list_eq, pair_eq, All, Result, ok, err, ◌>>=◌, ◌>>◌, fail_if, >>=-eq-ok,
  fail_if-eq-ok, Result-cases, Text, codes,
}
use orange_frp.Crypto.{Bytes}
use orange_frp.Update.{
  UpdateError, bad_installer, not_started, installer_failed, other_version, Updater,
  installed_server_version, open_installer, write_update_installer, run_server_update_installer,
  find_update, command_check_update,
}
use orange_frp.Tunnel.Profile.{starts_with}
use orange_frp.Update.Verified.{IsVerified, found-IsVerified}

module _ (u : Updater) where
  open u use {Version}

  -- What is known after `command_check_update`.
  pub record IsUpdate (agree : Bool) (lines : List Text) (r : Result UpdateError Bool × List Bytes)
      : Type 0 where
    pub verified :
        All
          (λ bytes.
            (latest : Version) × IsVerified u agree lines latest bytes
            × (starts_with (codes "#!/usr/bin/env bash") bytes ≡ true))
          r.1
    pub updated :
        r.0 ≡ ok true
        → (latest : Version) × (installed : Version) × (bytes : Bytes) × IsVerified u agree lines
            latest bytes
          × (r.1 ≡ bytes ∷ [])
          × (u.run_bash bytes ≡ some true)
          × (installed_server_version u ≡ ok installed)
          × (u.version_eq installed latest ≡ true)

  none_run :
      (agree : Bool) (lines : List Text) (answer : Result UpdateError Bool)
      → answer ≢ ok true
      → IsUpdate agree lines (answer, [])
  none_run agree lines answer other = record { verified = tt; updated = λ e. absurd (other e) }

  -- The end of the command, when the installer was run.
  concluded :
      (success : Bool) (latest : Version)
      → (fail_if success installer_failed
          >> (installed_server_version u >>= λ installed.
              (fail_if (not (u.version_eq installed latest)) other_version >> ok true)))
        ≡ ok true
      → (success ≡ false)
        × (installed : Version) × (installed_server_version u ≡ ok installed)
        × (u.version_eq installed latest ≡ true)
  concluded success latest h =
      let (worked, h1) = fail_if-eq-ok success installer_failed _ h in
      let (installed, output, h2) = >>=-eq-ok (installed_server_version u) _ h1 in
      let (same, _) =
        fail_if-eq-ok (not (u.version_eq installed latest)) other_version (ok true) h2 in
      (worked, installed, output, not-false _ same)

  run-IsUpdate :
      (agree : Bool) (lines : List Text) (latest : Version) (bytes : Bytes)
      → IsVerified u agree lines latest bytes
      → IsUpdate agree lines (
        (run_server_update_installer u bytes).0
            >> (installed_server_version u >>= λ installed.
                (fail_if (not (u.version_eq installed latest)) other_version >> ok true)),
        (run_server_update_installer u bytes).1,
      )
  unfolding run_server_update_installer write_update_installer
  run-IsUpdate agree lines latest bytes v = elim (Result-cases (write_update_installer u bytes)) [
    | inr (e, unwritten) ↦
        rw (unwritten, run_server_update_installer) (none_run agree lines (err e) cc)
    | inl (_, written) ↦
        let (script, _) =
          fail_if-eq-ok (not (starts_with (codes "#!/usr/bin/env bash") bytes)) bad_installer
            (open_installer u 8 0) written in
        elim (Option-cases (u.run_bash bytes)) [
          | inl idle ↦
              rw (written, run_server_update_installer)
                (rw idle (none_run agree lines (err not_started) cc))
          | inr (success, ran) ↦
              rw (written, run_server_update_installer)
                (rw ran (record {
                  verified = ((latest, v, not-false _ script), tt);
                  updated = λ h.
                      let (worked, installed, output, same) = concluded (not success) latest h in
                      (
                        latest,
                        installed,
                        bytes,
                        v,
                        refl,
                        ran ∙ ap some (not-false _ worked),
                        output,
                        same,
                      );
                }))
        ]
  ]

  -- An installer is only run when it is the file whose SHA-256 the manifest names, a Bash script of
  -- at most 256 KiB, for a version of the manifest that is neither the running one nor older, by
  -- root, and after `--yes` or a typed YES. The command answers that it has updated the server only
  -- when one such installer was run and succeeded and the installed server reports that version.
  pub command_check_update-IsUpdate :
      (agree : Bool) (lines : List Text) → IsUpdate agree lines (command_check_update u agree lines)
  unfolding command_check_update
  command_check_update-IsUpdate agree lines = elim (Result-cases (find_update u agree lines)) [
    | inr (e, failed) ↦ rw (failed, command_check_update) (none_run agree lines (err e) cc)
    | inl (none, nothing) ↦
        rw (nothing, command_check_update) (none_run agree lines (ok false) (λ e. cc))
    | inl (some (latest, bytes), found) ↦
        rw (found, command_check_update)
          (run-IsUpdate agree lines latest bytes
            (found-IsVerified u agree lines latest bytes found))
  ]

-- ===== src/Update/Tests.antt =====
-- A concrete update of `command_check_update` in server-package/crates/frp-game-server/src/app.rs.
use orange_frp.Prelude.{
  ℕ, zero, suc, ◌≡◌, refl, true, false, Option, none, some, List, [], ◌∷◌, ltb, nat_beq,
  if◌then◌else◌, nat_eq, list_eq, pair_eq, ok, err, Text, codes, is_ascii_digit, trim_start_matches,
  trim, byte_len,
}
use orange_frp.Admin.{prompt_non_empty}
use orange_frp.Update.{
  Download, UpdateFile, manifest_file, installer_file, created, already_exists, Updater,
  wrong_digest, command_check_update,
}
use orange_frp.Update.Answer.{IsUpdate, command_check_update-IsUpdate}

abbrev times : ℕ → ℕ → List ℕ
times zero c = []
times (suc n) c = c ∷ times n c

abbrev digit_version : Text → Option ℕ
digit_version (c ∷ []) = some c
digit_version _ = none

abbrev response_of : UpdateFile → Option Download
response_of manifest_file = some (record { content_length = some 3; body = some (1 ∷ 2 ∷ 3 ∷ []) })
response_of installer_file =
    some (record { content_length = none; body = some (codes "#!/usr/bin/env bash") })

-- Versions of one character; every file has the digest of 32 bytes 170, which the manifest names.
abbrev second_release : Updater
second_release = record {
  Version = ℕ;
  parse_version = digit_version;
  version_eq = nat_beq;
  version_lt = ltb;
  own_version = codes "1";
  fetch = response_of;
  read_manifest =
      λ bytes. some (record { version = codes " v2"; installer_sha256 = times 64 b'A' });
  sha256 = λ bytes. times 32 170;
  is_root = true;
  opening = λ i. if nat_beq i 0 then already_exists else created;
  writes = true;
  run_bash = λ bytes. some true;
  version_output = some (true, codes "frp-game-server 2");
}

abbrev wrong_file : Updater
wrong_file = record second_release { sha256 = λ bytes. times 32 171 }

installs_release :
    command_check_update second_release false (codes "YES" ∷ [])
    ≡ (ok true, codes "#!/usr/bin/env bash" ∷ [])
unfolding command_check_update trim_start_matches trim byte_len is_ascii_digit prompt_non_empty
    orange_frp.Tunnel.Version.split_whitespace
installs_release = refl

keeps_release : command_check_update second_release false (codes "no" ∷ []) ≡ (ok false, [])
unfolding command_check_update trim_start_matches trim byte_len is_ascii_digit prompt_non_empty
keeps_release = refl

refuses_wrong_file : command_check_update wrong_file true [] ≡ (err wrong_digest, [])
unfolding command_check_update trim_start_matches trim byte_len is_ascii_digit
refuses_wrong_file = refl

command_check_update-IsUpdate_example :
    IsUpdate second_release false
      (codes "YES" ∷ [])
      (command_check_update second_release false (codes "YES" ∷ []))
command_check_update-IsUpdate_example =
    command_check_update-IsUpdate second_release false (codes "YES" ∷ [])

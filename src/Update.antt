-- ===== src/Update.antt =====
-- `fetch_update_bytes`, `parse_server_update_manifest`, `write_update_installer`,
-- `run_server_update_installer`, `parse_server_version_output` and `command_check_update` of
-- server-package/crates/frp-game-server/src/app.rs. The HTTP client, semver, the reader of the
-- manifest, SHA-256 and what the system does with files and processes are parameters.
pub mod Verified
pub mod Answer
pub mod Tests
use orange_frp.Prelude.{
  ℕ, zero, suc, ◌+◌, ◌-◌, ◌*◌, ◌/◌, ◌%◌, Bool, true, false, not, ◌&&◌, ◌||◌, Option, none, some,
  List, [], ◌∷◌, map, ltb, leb, nat_beq, if◌then◌else◌, ◌==◌, nat_eq, list_eq, pair_eq, length,
  take, all, part, Result, ok, err, ◌>>=◌, ◌>>◌, fail_if, map_err, ok_or, Text, codes,
  is_ascii_digit, trim_start_matches, trim, byte_len,
}
use orange_frp.Crypto.{Bytes}
use orange_frp.Config.{Error}
use orange_frp.Admin.{prompt_non_empty}
use orange_frp.Tunnel.Version.{split_whitespace}
use orange_frp.Tunnel.Profile.{starts_with}

abbrev pub update_manifest_max_bytes : ℕ
update_manifest_max_bytes = 4 * 1024

abbrev pub update_installer_max_bytes : ℕ
update_installer_max_bytes = 256 * 1024

pub data UpdateError : Type 0 where
  bad_own_version not_downloaded too_large unreadable bad_manifest bad_version bad_digest :
      UpdateError
  unanswered : Error → UpdateError
  not_root wrong_digest bad_installer no_file not_written no_name : UpdateError
  not_started installer_failed no_output no_version other_version : UpdateError

-- A response without an error status: the length that it announces, and the body, unless reading it
-- fails.
pub record Download : Type 0 where
  pub content_length : Option ℕ
  pub body : Option Bytes

pub record ServerUpdateManifest : Type 0 where
  pub version : Text
  pub installer_sha256 : Text

pub data UpdateFile : Type 0 where
  manifest_file installer_file : UpdateFile

-- What `create_new` does with a name.
pub data Opening : Type 0 where
  created already_exists refused : Opening

pub record Updater : Type 1 where
  pub Version : Type 0
  pub parse_version : Text → Option Version
  pub version_eq : Version → Version → Bool
  pub version_lt : Version → Version → Bool
  pub own_version : Text
  pub fetch : UpdateFile → Option Download
  pub read_manifest : Bytes → Option ServerUpdateManifest
  pub sha256 : Bytes → Bytes
  pub is_root : Bool
  pub opening : ℕ → Opening
  pub writes : Bool
  pub run_bash : Bytes → Option Bool
  pub version_output : Option (Bool × Text)

abbrev pub is_letter_v : ℕ → Bool
is_letter_v c = c == b'v' || c == b'V'

unfoldable pub to_lower : ℕ → ℕ
to_lower c = if leb b'A' c && leb c b'Z' then c + 32 else c

unfoldable pub to_ascii_lowercase : Text → Text
unfolding to_lower
to_ascii_lowercase = map to_lower

unfoldable pub is_ascii_hexdigit : ℕ → Bool
is_ascii_hexdigit c = is_ascii_digit c || (leb b'a' c && leb c b'f') || (leb b'A' c && leb c b'F')

unfoldable pub hex_digit : ℕ → ℕ
hex_digit n = if ltb n 10 then n + b'0' else n - 10 + b'a'

unfoldable pub hex : Bytes → Text
unfolding hex_digit
hex [] = []
hex (b ∷ bs) = hex_digit (b / 16) ∷ hex_digit (b % 16) ∷ hex bs

-- `eq_ignore_ascii_case`.
unfoldable pub digests_match : Text → Text → Bool
unfolding to_ascii_lowercase
digests_match s t = to_ascii_lowercase s == to_ascii_lowercase t

-- `is_some_and(|length| length > maximum_bytes as u64)`.
unfoldable pub announces_more : ℕ → Option ℕ → Bool
announces_more maximum_bytes none = false
announces_more maximum_bytes (some n) = ltb maximum_bytes n

module _ (u : Updater) where
  open u use {Version}

  unfoldable pub fetch_update_bytes : UpdateFile → ℕ → Result UpdateError Bytes
  unfolding announces_more
  fetch_update_bytes file maximum_bytes = do
    response ← ok_or (u.fetch file) not_downloaded
    fail_if (announces_more maximum_bytes response.content_length) too_large
    body ← ok_or response.body unreadable
    fail_if (ltb maximum_bytes (length (take (maximum_bytes + 1) body))) too_large
    ok (take (maximum_bytes + 1) body)

  unfoldable pub parse_server_update_manifest : Bytes → Result UpdateError (Version × Text)
  unfolding to_ascii_lowercase is_ascii_hexdigit
  parse_server_update_manifest bytes = do
    manifest ← ok_or (u.read_manifest bytes) bad_manifest
    version ←
        ok_or (u.parse_version (trim_start_matches is_letter_v (trim manifest.version))) bad_version
    fail_if
        (not (nat_beq (byte_len (to_ascii_lowercase (trim manifest.installer_sha256))) 64)
          || not (all is_ascii_hexdigit (to_ascii_lowercase (trim manifest.installer_sha256))))
        bad_digest
    ok (version, to_ascii_lowercase (trim manifest.installer_sha256))

  unfoldable pub first_version : List Text → Option Version
  first_version [] = none
  first_version (part ∷ parts) = elim (u.parse_version (trim_start_matches is_letter_v part)) [
    | some version ↦ some version
    | none ↦ first_version parts
  ]

  unfoldable pub parse_server_version_output : Text → Result UpdateError Version
  unfolding first_version
  parse_server_version_output text = ok_or (first_version (split_whitespace text)) no_version

  unfoldable pub installed_server_version : Result UpdateError Version
  unfolding parse_server_version_output
  installed_server_version = do
    output ← ok_or u.version_output no_output
    fail_if (not output.0) no_output
    parse_server_version_output output.1

  -- The loop over new names: the attempts that are left, and the number of the next one.
  unfoldable pub open_installer : ℕ → ℕ → Result UpdateError (Unit {0})
  open_installer zero i = err no_name
  open_installer (suc n) i = elim (u.opening i) [
    | created ↦ if u.writes then ok tt else err not_written
    | already_exists ↦ open_installer n (i + 1)
    | refused ↦ err no_file
  ]

  unfoldable pub write_update_installer : Bytes → Result UpdateError (Unit {0})
  unfolding starts_with open_installer
  write_update_installer bytes = do
    fail_if (not (starts_with (codes "#!/usr/bin/env bash") bytes)) bad_installer
    open_installer 8 0

  -- With the installers that were run.
  unfoldable pub run_server_update_installer : Bytes → Result UpdateError (Unit {0}) × List Bytes
  unfolding write_update_installer
  run_server_update_installer bytes = elim (write_update_installer bytes) [
    | err e ↦ (err e, [])
    | ok _ ↦ elim (u.run_bash bytes) [
      | none ↦ (err not_started, [])
      | some success ↦ (fail_if (not success) installer_failed, bytes ∷ [])
    ]
  ]

  -- Whether the administrator agrees.
  unfoldable pub confirmed : Bool → List Text → Result UpdateError Bool
  confirmed true lines = ok true
  confirmed false lines = do
    answer ← map_err unanswered (prompt_non_empty lines)
    ok (answer.0 == codes "YES")

  -- The installer that is to be run for the new version, if there is one.
  unfoldable pub download_installer : Version → Text → Result UpdateError (Option (Version × Bytes))
  unfolding digests_match hex fetch_update_bytes
  download_installer latest expected = do
    fail_if (not u.is_root) not_root
    bytes ← fetch_update_bytes installer_file update_installer_max_bytes
    fail_if (not (digests_match (hex (u.sha256 bytes)) expected)) wrong_digest
    ok (some (latest, bytes))

  unfoldable pub find_update : Bool → List Text → Result UpdateError (Option (Version × Bytes))
  unfolding parse_server_update_manifest confirmed download_installer
  find_update agree lines = do
    current ← ok_or (u.parse_version u.own_version) bad_own_version
    manifest_bytes ← fetch_update_bytes manifest_file update_manifest_max_bytes
    (latest, expected) ← parse_server_update_manifest manifest_bytes
    if u.version_eq latest current || u.version_lt latest current then ok none else do
      agreed ← confirmed agree lines
      if agreed then download_installer latest expected else ok none

  -- `command_check_update`: its answer, and the installers that were run.
  unfoldable pub command_check_update : Bool → List Text → Result UpdateError Bool × List Bytes
  unfolding find_update run_server_update_installer installed_server_version
  command_check_update agree lines = elim (find_update agree lines) [
    | err e ↦ (err e, [])
    | ok none ↦ (ok false, [])
    | ok (some (latest, bytes)) ↦
        let (outcome, ran) = run_server_update_installer bytes in
        (
          do
            outcome
            installed ← installed_server_version
            fail_if (not (u.version_eq installed latest)) other_version
            ok true,
          ran,
        )
  ]

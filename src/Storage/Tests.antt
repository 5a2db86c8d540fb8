-- ===== src/Storage/Tests.antt =====
-- The database at concrete inputs.
use orange_frp.Prelude.{
  ℕ, ◌≡◌, refl, true, false, none, some, [], ◌∷◌, ◌++◌, arith, ◌==◌, nat_eq, list_eq, pair_eq,
  lookup, ok, err, Text, codes, is_empty, is_whitespace, is_ascii_digit, is_ascii_alphanumeric,
  to_upper, to_ascii_uppercase, trim_start_matches, trim_end_matches, trim_matches, trim, char_len,
  byte_len,
}
use orange_frp.Json.{Value, obj, field, end, str, get, get_field, get_str, as_str}
use orange_frp.Tunnel.Profile.{starts_with}
use orange_frp.Tunnel.{
  normalize_tunnels, normalize_from, check_fields, prepare, with_proxy_name, with_id, trimmed,
  has_control, is_control_below_space, is_valid_port, clean_char, cleaned, proxy_name_for,
}
use orange_frp.Crypto.{Bytes, encrypt_stored_text, b64decode, derive_key}
use orange_frp.Utf8.{as_bytes}
use orange_frp.Config.{
  ServerConfig, Error, Argon2, sql_i64, decrypt_user_password, encrypt_user_password,
  verify_password,
}
use orange_frp.Config.Normalize.{
  normalize_loaded_config, check_server, check_users, check_user, prepare_user, check_tunnels,
  check_tunnel, mark, mark_user,
}
use orange_frp.Config.Sort.{insert_sorted, sort, text_leb}
use orange_frp.Samples.{
  sample_prims, sample_uuid, sample_uuid-IsUuidSource, web, ann, bob, sample_config, sample_tag,
}
use orange_frp.Api.Handlers.Stored.{IsStorage}
use orange_frp.Storage.Tables.{
  Database, settings_row, user_row, tunnel_row, upsert_user, upsert_tunnel, upsert_traffic,
  user_clash, tunnel_clash, delete_user_row, delete_tunnel_row,
}
use orange_frp.Storage.Snapshot.{
  delete_missing_users, delete_missing_tunnels, write_tunnels, write_traffic, write_user,
  write_users, prepared, cleared, write_snapshot,
}
use orange_frp.Storage.Legacy.{LegacyReader}
use orange_frp.Storage.Recover.{
  recover_passwords, recover_users, backup_candidates, candidates_of, add_candidates, add_candidate,
  add_password, backup_users, as_array, verified_password, set_password,
}
use orange_frp.Storage.Operations.{Store, settings_exist, recover, initialize, commit, save}
use orange_frp.Storage.Written.{users_table, tunnels_table}
use orange_frp.Storage.Represents.{Represents}
use orange_frp.Storage.Invariant.{IsDatabase, IsSized}
use orange_frp.Storage.Invariant.Written.{write_snapshot-IsDatabase}
use orange_frp.Storage.Loaded.{load-write_snapshot}
use orange_frp.Storage.Read.{load}
use orange_frp.Storage.Succeeds.{empty_database}
use orange_frp.Storage.Clash.{write_snapshot_blocked}
use orange_frp.Storage.Recovered.{IsRecovered, recover_passwords-IsRecovered}
use orange_frp.Accounting.{inward, outward, TrafficEvent, Task, tick, turn}
use orange_frp.Accounting.Flush.{user_of}
use orange_frp.Accounting.Ledger.{ledger}
use orange_frp.Storage.Counters.{turn-ledger}
use orange_frp.Storage.Refinement.{Holds, save-IsStorage, save-no_lost_update}

abbrev argon : Argon2
argon = record { hash = λ salt password. some password; verify = λ hash password. hash == password }

abbrev random : ℕ → Bytes
random n = 1 ∷ 2 ∷ 3 ∷ 4 ∷ 5 ∷ 6 ∷ 7 ∷ 8 ∷ 9 ∷ 10 ∷ 11 ∷ 12 ∷ []

abbrev reader : LegacyReader
reader = record { server_config = λ v. none; single_config = λ v. none }

abbrev sample_database : Database
sample_database = record {
  settings = some (settings_row sample_config);
  users = users_table (ann ∷ bob ∷ []);
  tunnels = tunnels_table (ann ∷ bob ∷ []);
  traffic_records = [];
}

written_first : write_snapshot sample_config empty_database ≡ ok sample_database
unfolding write_snapshot prepared cleared delete_missing_users delete_missing_tunnels
    delete_user_row delete_tunnel_row write_users write_user write_tunnels write_traffic upsert_user
    upsert_tunnel upsert_traffic user_clash tunnel_clash sql_i64
written_first = refl

empty_database-IsDatabase : IsDatabase empty_database
empty_database-IsDatabase = record {
  user_keys = tt;
  tunnel_keys = tt;
  traffic_keys = tt;
  settings = λ r h. absurd (cc h);
  users = tt;
  tunnels = tt;
  traffic = tt;
}

sample_config-IsSized : IsSized sample_config
sample_config-IsSized = record {
  ports = (omega arith, omega arith, omega arith);
  users = (
    record {
      tunnel_limit = omega arith;
      speed_limit = omega arith;
      tunnels =
          ((omega arith, omega arith, omega arith), ((omega arith, omega arith, omega arith), tt));
      traffic = tt;
    },
    (
      record { tunnel_limit = omega arith; speed_limit = omega arith; tunnels = tt; traffic = tt },
      tt,
    ),
  );
}

write_snapshot-IsDatabase_example : IsDatabase sample_database
write_snapshot-IsDatabase_example =
    write_snapshot-IsDatabase sample_config empty_database sample_database sample_config-IsSized
      empty_database-IsDatabase written_first

load-write_snapshot_example :
    (c' : ServerConfig) × (load sample_database ≡ ok c')
    × (settings_row c' ≡ settings_row sample_config)
    × ((id : Text) → lookup id (users_table c'.users) ≡ lookup id (users_table sample_config.users))
    × ((id : Text)
        → lookup id (tunnels_table c'.users) ≡ lookup id (tunnels_table sample_config.users))
load-write_snapshot_example =
    load-write_snapshot sample_config empty_database sample_database sample_config-IsSized
      empty_database-IsDatabase (refl, (refl, tt)) (refl, (refl, tt)) written_first

abbrev new_store : Store
new_store = record { database = empty_database; legacy = none; files = []; issued = 0; drawn = 0 }

abbrev store : Store
store = record { database = sample_database; legacy = none; files = []; issued = 0; drawn = 0 }

saved_once :
    (save sample_prims argon sample_uuid random reader store sample_config).1
    ≡ ok (record sample_config { revision = 2 })
unfolding save initialize settings_exist recover recover_passwords backup_candidates candidates_of
    commit write_snapshot prepared cleared delete_missing_users delete_missing_tunnels
    delete_user_row delete_tunnel_row write_users write_user write_tunnels write_traffic upsert_user
    upsert_tunnel upsert_traffic user_clash tunnel_clash sql_i64 normalize_loaded_config
    check_server check_users check_user prepare_user check_tunnels check_tunnel mark mark_user
    insert_sorted sort text_leb decrypt_user_password normalize_tunnels normalize_from check_fields
    prepare with_proxy_name with_id trimmed has_control is_control_below_space is_valid_port
    clean_char cleaned proxy_name_for trim byte_len char_len is_ascii_alphanumeric is_ascii_digit
    is_whitespace to_upper to_ascii_uppercase trim_start_matches trim_end_matches trim_matches
saved_once = refl

save-IsStorage_example : IsStorage (save sample_prims argon sample_uuid random reader) Holds
save-IsStorage_example =
    save-IsStorage sample_prims argon sample_uuid random reader sample_uuid-IsUuidSource

save-no_lost_update_example :
    (error : Error) × ((save sample_prims argon sample_uuid random reader
        (save sample_prims argon sample_uuid random reader store sample_config).0
        sample_config).1
      ≡ err error)
save-no_lost_update_example =
    save-no_lost_update sample_prims argon sample_uuid random reader sample_uuid-IsUuidSource store
      sample_config sample_config (record sample_config { revision = 2 }) saved_once refl
      (omega arith)

-- The tunnel "web" is deleted and its port taken by a new tunnel.
abbrev swapped : ServerConfig
swapped = record sample_config {
  users =
      record ann { tunnels = record web { id = codes "new"; proxy_name = codes "fg-new" } ∷ [] }
      ∷ bob
      ∷ [];
}

write_snapshot_blocked_example :
    (error : Error) × (write_snapshot swapped sample_database ≡ err error)
write_snapshot_blocked_example =
    write_snapshot_blocked swapped sample_database (codes "web") (tunnel_row (codes "u1") web) refl
      refl refl refl

-- A backup with the password of "ann".
abbrev backup : Value
backup = obj (
    field (codes "account") (str (codes "ann")) (field (codes "password") (str (codes "hash")) end))

abbrev recovered_database : Database
recovered_database = record sample_database {
  users =
      (
        codes "u1",
        record (user_row ann) { password_encrypted = (1 ∷ random 0) ++ codes "hash" ++ sample_tag },
      )
      ∷ (codes "u2", user_row bob)
      ∷ [];
}

recovered :
    recover_passwords sample_prims argon random
      ((codes "config.json.legacy-backup-1", some backup) ∷ [])
      0
      sample_database
    ≡ ok (recovered_database, 1)
unfolding recover_passwords recover_users backup_candidates candidates_of starts_with sort
    insert_sorted add_candidates add_candidate add_password backup_users as_array get get_field
    get_str as_str verified_password verify_password set_password encrypt_user_password
    encrypt_stored_text b64decode derive_key as_bytes
recovered = refl

recover_passwords-IsRecovered_example :
    IsRecovered sample_prims argon random sample_database recovered_database
recover_passwords-IsRecovered_example =
    recover_passwords-IsRecovered sample_prims argon random
      ((codes "config.json.legacy-backup-1", some backup) ∷ []) 0 sample_database recovered_database
      1 recovered

-- The accounting task flushes 42 bytes of "ann" into the storage.
abbrev upload : TrafficEvent
upload = record {
  user_id = codes "u1";
  proxy_name = codes "fg-web";
  protocol = codes "TCP";
  public_port = 8080;
  direction = inward;
  bytes = 30;
}

abbrev download : TrafficEvent
download = record upload { direction = outward; bytes = 12 }

abbrev task : Task
task = record { config = sample_config; pending = []; queue = upload ∷ download ∷ [] }

ann_known : user_of (codes "u1") sample_config.users ≡ some ann
ann_known = refl

goes_on :
    (turn (λ c. (save sample_prims argon sample_uuid random reader store c).1) task tick).1 ≡ true
unfolding turn
goes_on = refl

ann_given : is_empty (trim (codes "u1")) ≡ false
unfolding trim trim_matches trim_start_matches trim_end_matches is_whitespace
ann_given = refl

turn-ledger_example :
    ledger
      (codes "u1")
      (turn (λ c. (save sample_prims argon sample_uuid random reader store c).1) task tick).0
    ≡ ledger (codes "u1") task
turn-ledger_example =
    turn-ledger sample_prims argon sample_uuid random reader sample_uuid-IsUuidSource store
      (codes "u1") task tick ann ann_given ann_known (omega arith) goes_on

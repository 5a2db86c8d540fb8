-- ===== src/Storage/Operations.antt =====
-- The operations of `Storage` in server-package/crates/frp-game-server/src/storage.rs, over the
-- database and the files beside it. A transaction that fails leaves the database. The permissions
-- of files and failures of the disk are not modelled.
use orange_frp.Prelude.{
  ℕ, ◌+◌, min, Bool, true, false, not, Option, none, some, List, [], ◌++◌, nat_beq, if◌then◌else◌,
  nat_eq, list_eq, pair_eq, insert, Result, ok, err, ◌>>=◌, ◌>>◌, fail_if, ok_or, Text,
}
use orange_frp.Json.{Value}
use orange_frp.Tunnel.Profile.{decimal_from}
use orange_frp.Crypto.{Primitives, Bytes}
use orange_frp.Config.{
  ServerConfig, Error, Argon2, not_initialized, already_initialized, stale_revision, i64_max,
}
use orange_frp.Config.Normalize.{normalize_loaded_config}
use orange_frp.Storage.Tables.{Database}
use orange_frp.Storage.Snapshot.{write_snapshot}
use orange_frp.Storage.Read.{load}
use orange_frp.Storage.Recover.{backup_prefix, recover_passwords}
use orange_frp.Storage.Legacy.{LegacyReader, migrate_legacy_config}

-- The directory of the database: the old `config.json`, if there is one, with what is read of it,
-- and the other files. `issued` and `drawn` count the calls of `Uuid::new_v4` and of the random
-- number generator.
pub record Store : Type 0 where
  pub database : Database
  pub legacy : Option (Option Value)
  pub files : List (Text × Option Value)
  pub issued : ℕ
  pub drawn : ℕ

unfoldable pub settings_exist : Database → Bool
settings_exist db = elim db.settings [ none ↦ false | some row ↦ true ]

-- The rename of `config.json`; an `i64` has 19 digits at most.
unfoldable pub retire_legacy : ℕ → Option Value → Store → Store
unfolding decimal_from
retire_legacy updated_at contents s = record s {
  legacy = none;
  files = insert (backup_prefix ++ decimal_from 20 updated_at []) contents s.files;
}

module _ (prims : Primitives) (argon : Argon2) (uuid : ℕ → Text) (random : ℕ → Bytes)
    (reader : LegacyReader) where
  -- The first snapshot, and the configuration as it is written.
  unfoldable pub save_new : ServerConfig → Store → Result Error (Store × ServerConfig)
  unfolding normalize_loaded_config write_snapshot
  save_new config s = do
    (normal, issued) ← normalize_loaded_config prims uuid s.issued config
    db ← write_snapshot (record normal { revision = 1 }) s.database
    ok (record s { database = db; issued = issued }, record normal { revision = 1 })

  unfoldable pub migrate : Option Value → Store → Result Error Store
  unfolding migrate_legacy_config save_new retire_legacy
  migrate contents s = do
    (config, issued, drawn) ←
        migrate_legacy_config prims argon uuid random reader contents s.issued s.drawn
    (s', saved) ← save_new config (record s { issued = issued; drawn = drawn })
    ok (retire_legacy saved.updated_at contents s')

  unfoldable pub recover : Store → Result Error Store
  unfolding recover_passwords
  recover s = do
    (db, drawn) ← recover_passwords prims argon random s.files s.drawn s.database
    ok (record s { database = db; drawn = drawn })

  unfoldable pub initialize : Store → Result Error Store
  unfolding settings_exist recover migrate
  initialize s =
      if settings_exist s.database
      then recover s
      else elim s.legacy [ none ↦ ok s | some contents ↦ migrate contents s ]

  unfoldable pub read : Store → Result Error (Store × ServerConfig)
  unfolding initialize load normalize_loaded_config
  read s = do
    s' ← initialize s
    loaded ← load s'.database
    (config, issued) ← normalize_loaded_config prims uuid s'.issued loaded
    ok (record s' { issued = issued }, config)

  -- `save` behind `initialize`.
  unfoldable pub commit : ServerConfig → Store → Result Error (Store × ServerConfig)
  unfolding normalize_loaded_config write_snapshot
  commit config s = do
    (normal, issued) ← normalize_loaded_config prims uuid s.issued config
    settings ← ok_or s.database.settings not_initialized
    fail_if (not (nat_beq settings.revision normal.revision)) stale_revision
    db ←
        write_snapshot (record normal { revision = min (settings.revision + 1) i64_max }) s.database
    ok (
      record s { database = db; issued = issued },
      record normal { revision = min (settings.revision + 1) i64_max },
    )

  -- What has been initialised stays when the rest fails.
  unfoldable pub save : Store → ServerConfig → Store × Result Error ServerConfig
  unfolding initialize commit
  save s config = elim (initialize s) [
    | err error ↦ (s, err error)
    | ok s' ↦ elim (commit config s') [
      | err error ↦ (s', err error)
      | ok (stored, saved) ↦ (stored, ok saved)
    ]
  ]

  unfoldable pub create : Store → ServerConfig → Result Error (Store × ServerConfig)
  unfolding settings_exist save_new
  create s config = if settings_exist s.database then err already_initialized else save_new config s

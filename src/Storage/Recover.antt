-- ===== src/Storage/Recover.antt =====
-- `recover_passwords_from_legacy_backups` of
-- server-package/crates/frp-game-server/src/storage.rs: passwords of users that have none to show
-- are looked for in the backups of the old configuration. A file is its name and what `serde_json`
-- reads of it; `random n` are the bytes of the n-th nonce.
use orange_frp.Prelude.{
  ℕ, ◌+◌, Bool, not, ◌&&◌, ◌||◌, Option, none, some, List, [], ◌∷◌, ◌++◌, if◌then◌else◌, ◌==◌,
  nat_eq, list_eq, pair_eq, any, find, retain, contains, map_values, lookup, upsert, Result, ok,
  ◌>>=◌, ok_or, Text, codes, is_empty,
}
use orange_frp.Json.{Value, Items, nil, cons, arr, get, get_str, and_then}
use orange_frp.Tunnel.Profile.{starts_with}
use orange_frp.Crypto.{Primitives, Bytes}
use orange_frp.Config.{Error, not_initialized, Argon2, verify_password, encrypt_user_password}
use orange_frp.Config.Sort.{sort, text_leb}
use orange_frp.Storage.Tables.{Database, UserRow}

abbrev pub backup_prefix : Text
backup_prefix = codes "config.json.legacy-backup-"

unfoldable pub values : Items → List Value
values nil = []
values (cons v vs) = v ∷ values vs

unfoldable pub as_array : Value → Option (List Value)
unfolding values
as_array (arr items) = some (values items)
as_array _ = none

-- The users of a backup: those of its list, or the backup itself.
unfoldable pub backup_users : Value → List Value
unfolding as_array get
backup_users value = elim (and_then (get value (codes "users")) as_array) [
  | none ↦ value ∷ []
  | some users ↦ users
]

-- A password that the account does not have yet goes behind the others.
unfoldable pub add_password : Text → Text → List (Text × List Text) → List (Text × List Text)
add_password account password candidates =
    upsert account [] (λ known. if contains known password then known else known ++ password ∷ [])
      candidates

unfoldable pub add_candidate : Value → List (Text × List Text) → List (Text × List Text)
unfolding add_password get_str
add_candidate user candidates = elim (get_str user (codes "account")) [
  | none ↦ candidates
  | some account ↦ elim (get_str user (codes "password")) [
    | none ↦ candidates
    | some password ↦
        if not (is_empty account) && not (is_empty password)
        then add_password account password candidates
        else candidates
  ]
]

unfoldable pub add_candidates : List Value → List (Text × List Text) → List (Text × List Text)
unfolding add_candidate
add_candidates [] candidates = candidates
add_candidates (user ∷ users) candidates = add_candidates users (add_candidate user candidates)

-- The backups, the last name first; what cannot be read is skipped.
unfoldable pub candidates_of :
    List (Text × Option Value) → List (Text × List Text) → List (Text × List Text)
unfolding add_candidates backup_users
candidates_of [] candidates = candidates
candidates_of ((name, none) ∷ files) candidates = candidates_of files candidates
candidates_of ((name, some value) ∷ files) candidates =
    candidates_of files (add_candidates (backup_users value) candidates)

unfoldable pub backup_candidates : List (Text × Option Value) → List (Text × List Text)
unfolding starts_with candidates_of sort text_leb
backup_candidates files =
    candidates_of
      (sort (λ a b. text_leb b.0 a.0) (retain (λ file. starts_with backup_prefix file.0) files)) []

-- `UPDATE users SET password_encrypted = ?1 WHERE account = ?2 AND password_encrypted = ''`.
unfoldable pub set_password : Text → Text → UserRow → UserRow
set_password encrypted account row =
    if row.account == account && is_empty row.password_encrypted
    then record row { password_encrypted = encrypted }
    else row

abbrev pub shows_none : Text × UserRow → Bool
shows_none entry = is_empty entry.1.password_encrypted

module _ (prims : Primitives) (argon : Argon2) (random : ℕ → Bytes) where
  -- The first password that passes for the hash.
  unfoldable pub verified_password : List (Text × List Text) → UserRow → Option Text
  unfolding verify_password
  verified_password candidates row =
      and_then (lookup row.account candidates) (find (verify_password argon row.password_hash))

  -- The loop over the users that show none, on the rows that the query gave.
  unfoldable pub recover_users :
      Text
      → List (Text × List Text)
      → List (Text × UserRow)
      → ℕ
      → List (Text × UserRow)
      → Result Error (List (Text × UserRow) × ℕ)
  unfolding verified_password set_password
  recover_users api_salt candidates [] drawn users = ok (users, drawn)
  recover_users api_salt candidates ((id, row) ∷ rows) drawn users =
      elim (verified_password candidates row) [
        | none ↦ recover_users api_salt candidates rows drawn users
        | some password ↦ do
          encrypted ← encrypt_user_password prims (random drawn) api_salt row.secret password
          recover_users api_salt candidates rows (drawn + 1)
              (map_values (set_password encrypted row.account) users)
      ]

  -- The database, and the number of the next nonce.
  unfoldable pub recover_passwords :
      List (Text × Option Value) → ℕ → Database → Result Error (Database × ℕ)
  unfolding recover_users backup_candidates
  recover_passwords files drawn db =
      if not (any shows_none db.users) || is_empty (backup_candidates files)
      then ok (db, drawn)
      else do
        settings ← ok_or db.settings not_initialized
        (users, drawn') ←
            recover_users settings.api_salt (backup_candidates files) (retain shows_none db.users)
              drawn db.users
        ok (record db { users = users }, drawn')

-- ===== src/Admin/Commands.antt =====
-- The commands of server-package/crates/frp-game-server/src/app.rs that change users. Each reads the
-- configuration, changes it and saves it; the check for root, the printing and the restart of the
-- service are not modelled. Clock, salts, nonces, identifiers and secrets are arguments.
use orange_frp.Prelude.{
  ℕ, zero, suc, Bool, not, Option, none, some, List, [], ◌∷◌, ◌++◌, if◌then◌else◌, ◌==◌, nat_eq,
  list_eq, pair_eq, get_elem?, any, Result, ok, err, ◌>>=◌, ◌>>◌, fail_if, Text, codes, is_empty,
  trim,
}
use orange_frp.Floats.{Float}
use orange_frp.Crypto.{Primitives, Bytes}
use orange_frp.Config.{
  ServerConfig, ServerUser, Error, Argon2, hash_password, encrypt_user_password,
  decrypt_user_password, account_taken, empty_password, index_out_of_range,
}
use orange_frp.Api.Handlers.{update_at}
use orange_frp.Storage.Legacy.{LegacyReader}
use orange_frp.Storage.Operations.{Store, read, save}
use orange_frp.Admin.{
  prompt_non_empty, prompt_password, validate_account, validate_password, validate_tunnel_limit,
  account_exists, prompt_tunnel_limit, prompt_u32, prompt_f64, gb_to_bytes, select_user_index,
  resolve_user_index,
}

-- What a command draws: the secret and the identifier of a user, a salt and a nonce.
pub record Fresh : Type 0 where
  pub secret : Text
  pub id : Text
  pub salt : Bytes
  pub nonce : Bytes

abbrev pub default_new_user_tunnel_limit : ℕ
default_new_user_tunnel_limit = 5

-- `config.users.remove(index)`.
abbrev pub remove_at {ℓ} : {A : Type ℓ} → ℕ → List A → List A
remove_at i [] = []
remove_at zero (x ∷ xs) = xs
remove_at (suc i) (x ∷ xs) = x ∷ remove_at i xs

-- Nothing is saved where the configuration is `none`.
abbrev pub Change : Type 0
Change = Result Error (Option ServerConfig)

-- The user at the chosen index is replaced, and both time stamps are set.
unfoldable pub update_user : ℕ → (ServerUser → ServerUser) → ℕ → ServerConfig → ServerConfig
update_user unix f index config = record config {
  users = update_at index (λ u. record (f u) { updated_at = unix }) config.users;
  updated_at = unix;
}

-- `let Some(index) = ... else { return Ok(()) }`, then the user.
unfoldable pub for_choice : Option ℕ → ServerConfig → (ℕ → ServerUser → Change) → Change
for_choice none config k = ok none
for_choice (some index) config k = elim (get_elem? config.users index) [
  | none ↦ err index_out_of_range
  | some user ↦ k index user
]

-- `prompt_non_empty("请输入账号: ")` until the account is valid and free.
unfoldable pub prompt_account : (Text → Bool) → List Text → Result Error (Text × List Text)
unfolding validate_account
prompt_account is_taken [] = prompt_non_empty []
prompt_account is_taken (line ∷ lines) =
    let rest = prompt_account is_taken lines in
    if is_empty (trim line) then rest else elim (validate_account (trim line)) [
      | err error ↦ rest
      | ok done ↦ if is_taken (trim line) then rest else ok (trim line, lines)
    ]

-- The argument of the command line, or the answers.
unfoldable pub account_of : ServerConfig → Option Text → List Text → Result Error (Text × List Text)
unfolding prompt_account account_exists
account_of config none lines = prompt_account (account_exists config) lines
account_of config (some account) lines = do
  validate_account (trim account)
  fail_if (account_exists config (trim account)) account_taken
  ok (trim account, lines)

unfoldable pub password_of : Option Text → List Text → Result Error Text
unfolding prompt_password
password_of (some password) hidden = if is_empty password then err empty_password else ok password
password_of none hidden = do (password, rest) ← prompt_password hidden; ok password

unfoldable pub tunnel_limit_of : ℕ → Option ℕ → List Text → Result Error ℕ
unfolding prompt_tunnel_limit
tunnel_limit_of default none lines = do (limit, rest) ← prompt_tunnel_limit default lines; ok limit
tunnel_limit_of default (some limit) lines = do validate_tunnel_limit limit; ok limit

unfoldable pub mbps_of : Option ℕ → List Text → Result Error (ℕ × List Text)
unfolding prompt_u32
mbps_of none lines = prompt_u32 0 lines
mbps_of (some mbps) lines = ok (mbps, lines)

module _ (fl : Float) (is_finite : Float.F fl → Bool) (parse : Text → Option (Float.F fl)) where
  unfoldable pub gigabytes_of :
      Option (Float.F fl) → List Text → Result Error (Float.F fl × List Text)
  unfolding prompt_f64
  gigabytes_of none lines = prompt_f64 fl is_finite parse (fl.of_ℕ 0) lines
  gigabytes_of (some gb) lines = ok (gb, lines)

-- The quota is in gigabytes; `parse` is `str::parse` and `round` the conversion to an integer.
module _ (prims : Primitives) (argon : Argon2) (fl : Float) (is_finite : Float.F fl → Bool)
    (round : Float.F fl → ℕ) (parse : Text → Option (Float.F fl)) where
  -- `command_add_user`.
  unfoldable pub add_user :
      Fresh
      → ℕ
      → Option Text
      → Option Text
      → Option (Float.F fl)
      → Option ℕ
      → Option ℕ
      → List Text
      → List Text
      → ServerConfig
      → Change
  unfolding account_of password_of gigabytes_of mbps_of gb_to_bytes tunnel_limit_of
      validate_password hash_password encrypt_user_password
  add_user fresh unix account password gigabytes mbps tunnel_limit lines hidden config = do
    (account', lines1) ← account_of config account lines
    password' ← password_of password hidden
    validate_password password'
    (traffic_limit, lines2) ← gigabytes_of fl is_finite parse gigabytes lines1
    (speed_limit, lines3) ← mbps_of mbps lines2
    limit ← tunnel_limit_of default_new_user_tunnel_limit tunnel_limit lines3
    password_hash ← hash_password argon fresh.salt password'
    password_encrypted ←
        encrypt_user_password prims fresh.nonce config.api_salt fresh.secret password'
    traffic_limit_bytes ← gb_to_bytes fl is_finite round traffic_limit
    ok (
        some (record config {
          users =
              config.users
              ++ (record {
                id = fresh.id;
                account = account';
                password_hash = password_hash;
                password_encrypted = password_encrypted;
                secret = fresh.secret;
                tunnels = [];
                tunnel_limit = limit;
                traffic_limit_bytes = traffic_limit_bytes;
                traffic_used_bytes = 0;
                speed_limit_mbps = speed_limit;
                traffic_by_proxy = [];
                created_at = unix;
                updated_at = unix;
              })
                ∷ [];
          updated_at = unix;
        }))

  unfoldable pub set_traffic_limit :
      ℕ → Option Text → Option (Float.F fl) → List Text → ServerConfig → Change
  unfolding resolve_user_index for_choice update_user gigabytes_of gb_to_bytes
  set_traffic_limit unix account gigabytes lines config = do
    (choice, rest) ← resolve_user_index config account lines
    for_choice choice config λ index user. do
      (gb, left) ← gigabytes_of fl is_finite parse gigabytes rest
      limit ← gb_to_bytes fl is_finite round gb
      ok (some (update_user unix (λ u. record u { traffic_limit_bytes = limit }) index config))

  unfoldable pub set_traffic_used :
      ℕ → Option Text → Option (Float.F fl) → List Text → ServerConfig → Change
  unfolding resolve_user_index for_choice update_user gigabytes_of gb_to_bytes
  set_traffic_used unix account gigabytes lines config = do
    (choice, rest) ← resolve_user_index config account lines
    for_choice choice config λ index user. do
      (gb, left) ← gigabytes_of fl is_finite parse gigabytes rest
      used ← gb_to_bytes fl is_finite round gb
      ok (some (update_user unix (λ u. record u { traffic_used_bytes = used }) index config))

module _ (prims : Primitives) (argon : Argon2) where
  unfoldable pub set_speed_limit : ℕ → Option Text → Option ℕ → List Text → ServerConfig → Change
  unfolding resolve_user_index for_choice update_user mbps_of
  set_speed_limit unix account mbps lines config = do
    (choice, rest) ← resolve_user_index config account lines
    for_choice choice config λ index user. do
      (limit, left) ← mbps_of mbps rest
      ok (some (update_user unix (λ u. record u { speed_limit_mbps = limit }) index config))

  unfoldable pub set_tunnel_limit : ℕ → Option Text → Option ℕ → List Text → ServerConfig → Change
  unfolding resolve_user_index for_choice update_user tunnel_limit_of
  set_tunnel_limit unix account limit lines config = do
    (choice, rest) ← resolve_user_index config account lines
    for_choice choice config λ index user. do
      limit' ← tunnel_limit_of user.tunnel_limit limit rest
      ok (some (update_user unix (λ u. record u { tunnel_limit = limit' }) index config))

  unfoldable pub delete_user : ℕ → List Text → ServerConfig → Change
  unfolding select_user_index for_choice prompt_non_empty
  delete_user unix lines config = do
    (choice, rest) ← select_user_index config lines
    for_choice choice config λ index user. do
      (answer, left) ← prompt_non_empty rest
      if not (answer == codes "YES")
          then ok none
          else ok (some (record config { users = remove_at index config.users; updated_at = unix }))

  -- Another user has the account.
  abbrev pub other_has : ℕ → Text → List ServerUser → Bool
  other_has index account users = any (λ u. u.account == account) (remove_at index users)

  unfoldable pub change_account : ℕ → List Text → ServerConfig → Change
  unfolding select_user_index for_choice prompt_account update_user
  change_account unix lines config = do
    (choice, rest) ← select_user_index config lines
    for_choice choice config λ index user. do
      (account, left) ← prompt_account (λ value. other_has index value config.users) rest
      ok (some (update_user unix (λ u. record u { account = account }) index config))

  unfoldable pub change_password : Fresh → ℕ → List Text → List Text → ServerConfig → Change
  unfolding select_user_index for_choice prompt_password validate_password hash_password
      encrypt_user_password update_user
  change_password fresh unix lines hidden config = do
    (choice, rest) ← select_user_index config lines
    for_choice choice config λ index user. do
      (password, left) ← prompt_password hidden
      validate_password password
      password_encrypted ←
          encrypt_user_password prims fresh.nonce config.api_salt user.secret password
      password_hash ← hash_password argon fresh.salt password
      ok (
          some (
            update_user unix
              (λ u. record u {
                password_encrypted = password_encrypted;
                password_hash = password_hash;
              })
              index config))

  -- Behind the confirmation.
  unfoldable pub rotate_key : Fresh → ℕ → List Text → ServerConfig → Change
  unfolding select_user_index for_choice encrypt_user_password decrypt_user_password update_user
  rotate_key fresh unix lines config = do
    (choice, rest) ← select_user_index config lines
    for_choice choice config λ index user. do
      password ← decrypt_user_password prims config.api_salt user.secret user.password_encrypted
      password_encrypted ← elim password [
        | none ↦ ok []
        | some plain ↦ encrypt_user_password prims fresh.nonce config.api_salt fresh.secret plain
      ]
      ok (
          some (
            update_user unix
              (λ u. record u { password_encrypted = password_encrypted; secret = fresh.secret })
              index config))

  module _ (uuid : ℕ → Text) (random : ℕ → Bytes) (reader : LegacyReader) where
    -- A command: the configuration is read, changed and saved.
    unfoldable pub run_command :
        (ServerConfig → Change) → Store → Store × Result Error (Option ServerConfig)
    unfolding read save
    run_command change s = elim (read prims argon uuid random reader s) [
      | err error ↦ (s, err error)
      | ok (s1, config) ↦ elim (change config) [
        | err error ↦ (s1, err error)
        | ok none ↦ (s1, ok none)
        | ok (some changed) ↦
            let (s2, saved) = save prims argon uuid random reader s1 changed in
            (s2, elim saved [ err error ↦ err error | ok c ↦ ok (some c) ])
      ]
    ]

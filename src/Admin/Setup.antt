-- ===== src/Admin/Setup.antt =====
-- The first configuration: `new_config`, `random_secret` and the commands `init` and `setup` of
-- server-package/crates/frp-game-server/src/app.rs, as far as they touch the database. What `rand`
-- draws is a parameter; the installation of frps and of the service is not modelled.
use orange_frp.Prelude.{
  ℕ, zero, suc, ◌+◌, ◌-◌, ◌<◌, ◌≡◌, refl, ap, ◌≢◌, true, false, not, ◌||◌, Option, none, some, [],
  ◌∷◌, arith, nat_beq, if◌then◌else◌, nat_eq, list_eq, pair_eq, length, Result, ok, ◌>>=◌, Text,
  is_empty, is_whitespace, is_ascii_alphanumeric, trim_start_matches, trim_end_matches,
  trim_matches, trim,
}
use orange_frp.Json.{Value}
use orange_frp.Tunnel.Trim.{trim-cons, alphanumeric_not_space}
use orange_frp.Tunnel.Normalize.{IsUuidSource}
use orange_frp.Crypto.{Primitives, Bytes}
use orange_frp.Crypto.Laws.{IsSound, IsBytes}
use orange_frp.Config.{ServerConfig, Error, Argon2, default_plugin_port, default_public_bind}
use orange_frp.Config.Normalize.{normalize_loaded_config, check_server, check_users}
use orange_frp.Config.Sort.{sort}
use orange_frp.Storage.Legacy.{LegacyReader}
use orange_frp.Storage.Operations.{Store, settings_exist, migrate, initialize, read, save, create}
use orange_frp.Storage.Represents.{Represents}
use orange_frp.Storage.Succeeds.{empty_database, create_total}

-- One call's draws: a letter of each case, a digit, further characters, and a permutation.
pub record Draws : Type 0 where
  pub lower : ℕ
  pub upper : ℕ
  pub digit : ℕ
  pub alphanumeric : ℕ → ℕ
  pub shuffle : Text → Text

-- The first draws.
abbrev pub drawn_from : (ℕ → ℕ) → ℕ → ℕ → Text
drawn_from f i zero = []
drawn_from f i (suc n) = f i ∷ drawn_from f (i + 1) n

unfoldable pub random_secret : Draws → ℕ → Text
random_secret r size =
    r.shuffle (r.lower ∷ r.upper ∷ r.digit ∷ drawn_from r.alphanumeric 0 (size - 3))

unfoldable pub random_token : Draws → ℕ → Text
random_token r size = drawn_from r.alphanumeric 0 size

-- `URL_SAFE_NO_PAD.encode` of 32 random bytes.
unfoldable pub random_salt : Primitives → Bytes → Text
random_salt prims bytes = prims.b64encode bytes

unfoldable pub new_config : Primitives → Bytes → Draws → ℕ → Text → ℕ → ℕ → Text → ServerConfig
unfolding random_salt random_token
new_config prims bytes r unix api_bind api_port frps_port frps_binary = record {
  revision = 0;
  api_salt = random_salt prims bytes;
  api_bind = api_bind;
  api_port = api_port;
  frps_bind_port = frps_port;
  frps_token = random_token r 48;
  frps_binary = frps_binary;
  plugin_port = default_plugin_port;
  public_bind = default_public_bind;
  users = [];
  created_at = unix;
  updated_at = unix;
}

module _ (prims : Primitives) (argon : Argon2) (uuid : ℕ → Text) (random : ℕ → Bytes)
    (reader : LegacyReader) where
  -- `init` up to the configuration of frps and the first user; `none` where the server is
  -- initialised already.
  unfoldable pub init : ServerConfig → Store → Result Error (Store × Option ServerConfig)
  unfolding initialize settings_exist create
  init config s = do
    ready ← initialize prims argon uuid random reader s
    if settings_exist ready.database then ok (ready, none) else do
      (stored, saved) ← create prims argon uuid random reader ready config
      ok (stored, some saved)

  -- The configuration that `setup` stores: the new one, or the old one with the new settings.
  unfoldable pub setup : ServerConfig → Store → Result Error (Store × Result Error ServerConfig)
  unfolding initialize settings_exist create read save
  setup config s = do
    ready ← initialize prims argon uuid random reader s
    elim (settings_exist ready.database) [
      | true ↦ do
        (ready', old) ← read prims argon uuid random reader ready
        ok (
            save prims argon uuid random reader ready' (record old {
              api_bind = config.api_bind;
              api_port = config.api_port;
              frps_bind_port = config.frps_bind_port;
              frps_binary = config.frps_binary;
              updated_at = config.updated_at;
            }))
      | false ↦ do
        (stored, saved) ← create prims argon uuid random reader ready config
        ok (stored, ok saved)
    ]

-- Text of letters and digits is not blank.
token_set :
    (f : ℕ → ℕ) (i n : ℕ)
    → ((k : ℕ) → is_ascii_alphanumeric (f k) ≡ true)
    → 0 < n
    → is_empty (trim (drawn_from f i n)) ≡ false
token_set f i zero a h = absurd (omega arith)
token_set f i (suc n) a h =
    trim-cons (f i) (drawn_from f (i + 1) n) (alphanumeric_not_space (f i) (a i))

-- Ports that the checks accept.
pub record PortsApart (api_port frps_port : ℕ) : Type 0 where
  pub api_set : 0 < api_port
  pub frps_set : 0 < frps_port
  pub different : api_port ≢ frps_port
  pub api_plugin : api_port ≢ default_plugin_port
  pub frps_plugin : frps_port ≢ default_plugin_port

check_server_passes :
    (prims : Primitives) (c : ServerConfig) (salt : Bytes)
    → (nat_beq c.api_port 0 || nat_beq c.frps_bind_port 0 || nat_beq c.plugin_port 0) ≡ false
    → (nat_beq c.api_port c.frps_bind_port
        || nat_beq c.api_port c.plugin_port
        || nat_beq c.frps_bind_port c.plugin_port)
      ≡ false
    → (is_empty (trim c.api_bind) || is_empty (trim c.public_bind)) ≡ false
    → prims.b64decode_engine c.api_salt ≡ some salt
    → (not (nat_beq (length salt) 32)
        || is_empty (trim c.frps_token)
        || is_empty (trim c.frps_binary))
      ≡ false
    → check_server prims c ≡ ok tt
unfolding check_server
check_server_passes prims c salt a b d s e = rw (a, b, d, s) (rw e refl)

public_bind_set : is_empty (trim default_public_bind) ≡ false
unfolding trim trim_matches trim_start_matches trim_end_matches is_whitespace
public_bind_set = refl

fresh_settings : (s : Store) → s.database ≡ empty_database → settings_exist s.database ≡ false
unfolding settings_exist
fresh_settings s empty = rw (empty, settings_exist) refl

module _ (prims : Primitives) (sound : IsSound prims) (bytes : Bytes) (whole : IsBytes bytes)
    (sized : length bytes ≡ 32) (r : Draws)
    (letters : (k : ℕ) → is_ascii_alphanumeric (r.alphanumeric k) ≡ true) where
  new_config-check_server :
      (unix : ℕ) (api_bind : Text) (api_port frps_port : ℕ) (binary : Text)
      → PortsApart api_port frps_port
      → is_empty (trim api_bind) ≡ false
      → is_empty (trim binary) ≡ false
      → check_server prims (new_config prims bytes r unix api_bind api_port frps_port binary)
        ≡ ok tt
  unfolding new_config random_salt random_token
  new_config-check_server unix api_bind api_port frps_port binary p bind_set binary_set =
      let token = token_set r.alphanumeric 0 48 letters (omega arith) in
      check_server_passes prims (new_config prims bytes r unix api_bind api_port frps_port binary)
        bytes (ground (arith, p.api_set, p.frps_set))
        (ground (arith, p.different, p.api_plugin, p.frps_plugin))
        (rw (bind_set, public_bind_set) refl) (sound.decode_encode bytes whole)
        (rw (sized, token, binary_set) refl)

  initialize_idle :
      (argon : Argon2) (uuid : ℕ → Text) (random : ℕ → Bytes) (reader : LegacyReader) (s : Store)
      → s.database ≡ empty_database
      → s.legacy ≡ none
      → initialize prims argon uuid random reader s ≡ ok s
  unfolding initialize
  initialize_idle argon uuid random reader s empty no_legacy =
      let legacy_or : Option (Option Value) → Result Error Store = λ l. elim l [
        | none ↦ ok s
        | some contents ↦ migrate prims argon uuid random reader contents s
      ] in
      rw (fresh_settings s empty) (ap legacy_or no_legacy)

  -- The checks change nothing of a new configuration.
  new_config-normal :
      (uuid : ℕ → Text) (n unix : ℕ) (api_bind : Text) (api_port frps_port : ℕ) (binary : Text)
      → PortsApart api_port frps_port
      → is_empty (trim api_bind) ≡ false
      → is_empty (trim binary) ≡ false
      → normalize_loaded_config prims uuid n
          (new_config prims bytes r unix api_bind api_port frps_port binary)
        ≡ ok (new_config prims bytes r unix api_bind api_port frps_port binary, n)
  unfolding new_config normalize_loaded_config check_users sort
  new_config-normal uuid n unix api_bind api_port frps_port binary p bind_set binary_set =
      let c = new_config prims bytes r unix api_bind api_port frps_port binary in
      let passes : check_server prims c ≡ ok tt =
        new_config-check_server unix api_bind api_port frps_port binary p bind_set binary_set in
      rw passes refl

  -- `init` on an empty directory stores the new configuration as its first revision, whatever is
  -- drawn, if the ports are set and differ from each other and from that of the plugin, and the
  -- address and the program are given.
  pub init-new_config :
      (argon : Argon2) (uuid : ℕ → Text) (random : ℕ → Bytes) (reader : LegacyReader)
      → IsUuidSource uuid
      → (s : Store) (unix : ℕ) (api_bind : Text) (api_port frps_port : ℕ) (binary : Text)
      → s.database ≡ empty_database
      → s.legacy ≡ none
      → PortsApart api_port frps_port
      → is_empty (trim api_bind) ≡ false
      → is_empty (trim binary) ≡ false
      → let first = record (new_config prims bytes r unix api_bind api_port frps_port binary) {
        revision = 1;
      } in
        (s' : Store) × (init prims argon uuid random reader
            (new_config prims bytes r unix api_bind api_port frps_port binary)
            s
          ≡ ok (s', some first))
        × Represents s'.database first
  unfolding init new_config
  init-new_config argon uuid random reader source s unix api_bind api_port frps_port binary empty
        no_legacy p bind_set binary_set =
      let c = new_config prims bytes r unix api_bind api_port frps_port binary in
      let (s', run, represents) =
        create_total prims argon uuid random reader source s c c s.issued empty
          (new_config-normal uuid s.issued unix api_bind api_port frps_port binary p bind_set
            binary_set)
          tt in
      (
        s',
        rw (initialize_idle argon uuid random reader s empty no_legacy, run, fresh_settings s empty)
            refl,
        represents,
      )

-- ===== src/Admin/Tests.antt =====
-- The administrator's commands at concrete inputs.
use orange_frp.Prelude.{
  ℕ, zero, suc, ◌≡◌, refl, sym, subst, true, false, none, some, List, [], ◌∷◌, ◌++◌, arith, ◌==◌,
  nat_eq, list_eq, list_beq_iff, pair_eq, get_elem?, All, ok, Text, codes, is_empty, is_whitespace,
  is_ascii_digit, is_ascii_alphanumeric, is_control, trim_start_matches, trim_end_matches,
  trim_matches, trim,
}
use orange_frp.Utf8.{IsScalar, as_bytes, encode_char, from_utf8, decode_from, decode_char}
use orange_frp.Tunnel.Trim.{trim-cons}
use orange_frp.Floats.{whole}
use orange_frp.Crypto.{
  Bytes, encrypt_stored_text, decrypt_stored_text, open_stored, b64decode, derive_key,
}
use orange_frp.Config.{
  ServerConfig, ServerUser, Argon2, u64_max, hash_password, encrypt_user_password,
  decrypt_user_password,
}
use orange_frp.Storage.Legacy.{LegacyReader}
use orange_frp.Storage.Operations.{Store}
use orange_frp.Storage.Refinement.{Holds, Keeps-refl}
use orange_frp.Storage.Tables.{settings_row}
use orange_frp.Storage.Written.{users_table, tunnels_table}
use orange_frp.Samples.{
  sample_prims, sample_prims-IsSound, sample_uuid, sample_uuid-IsUuidSource, IsBytes-of,
  ascii-IsScalar, ann, bob, sample_config, sample_tag,
}
use orange_frp.Admin.{
  prompt_non_empty, prompt_password, parse_unsigned, digits_value, choose_user, select_user_index,
  validate_account, validate_password, validate_tunnel_limit, account_exists, prompt_tunnel_limit,
  prompt_u32, prompt_f64, gb_to_bytes,
}
use orange_frp.Admin.Commands.{
  Fresh, update_user, for_choice, account_of, password_of, gigabytes_of, mbps_of, tunnel_limit_of,
  add_user, change_password, rotate_key, run_command, delete_user,
}
use orange_frp.Storage.Succeeds.{empty_database}
use orange_frp.Storage.Represents.{Represents}
use orange_frp.Admin.Setup.{Draws, PortsApart, new_config, init, init-new_config}
use orange_frp.Admin.Passwords.{IsVisible}
use orange_frp.Admin.Changed.{Rotated, Changed, rotate_key-Rotated, change_password-Changed}
use orange_frp.Admin.Choice.{IsAnswer, Chosen, select_user_index-Chosen}
use orange_frp.Admin.Added.{Added, add_user-Added}
use orange_frp.Admin.Stored.{IsStored, run_command-IsStored}

abbrev argon : Argon2
argon = record { hash = λ salt password. some password; verify = λ hash password. hash == password }

argon_sound :
    (salt : Bytes) (password hash : Text)
    → argon.hash salt password ≡ some hash
    → argon.verify hash password ≡ true
argon_sound salt password hash h =
    let e : password ≡ hash = cc h in ground (arith, list_beq_iff hash password, e)

visible : IsVisible sample_prims
visible bs = trim-cons 1 bs (unfold is_whitespace in refl)

abbrev nonce : Bytes
nonce = 1 ∷ 2 ∷ 3 ∷ 4 ∷ 5 ∷ 6 ∷ 7 ∷ 8 ∷ 9 ∷ 10 ∷ 11 ∷ 12 ∷ []

abbrev fresh : Fresh
fresh = record {
  secret = codes "zyxwvutsrqponmlkjihgfedcba9876543210";
  id = codes "u3";
  salt = [];
  nonce = nonce;
}

-- "ann" has a password that can be shown.
abbrev stored : Text
stored = (1 ∷ nonce) ++ codes "password" ++ sample_tag

abbrev shown_config : ServerConfig
shown_config = record sample_config {
  users = record ann { password_encrypted = stored } ∷ bob ∷ [];
}

abbrev rotated_config : ServerConfig
rotated_config = record shown_config {
  users =
      record ann { password_encrypted = stored; secret = fresh.secret; updated_at = 5 } ∷ bob ∷ [];
  updated_at = 5;
}

rotated :
    rotate_key sample_prims argon fresh 5 (codes " ann " ∷ []) shown_config
    ≡ ok (some rotated_config)
unfolding rotate_key select_user_index prompt_non_empty choose_user for_choice update_user
    encrypt_user_password decrypt_user_password encrypt_stored_text decrypt_stored_text open_stored
    b64decode derive_key as_bytes encode_char from_utf8 decode_from decode_char trim trim_matches
    trim_start_matches trim_end_matches is_whitespace
rotated = refl

shown_ascii :
    (i : ℕ) (u : ServerUser) (text : Text)
    → get_elem? shown_config.users i ≡ some u
    → decrypt_user_password sample_prims sample_config.api_salt u.secret u.password_encrypted
      ≡ ok (some text)
    → All IsScalar text
unfolding decrypt_user_password decrypt_stored_text open_stored b64decode derive_key from_utf8
    decode_from decode_char trim trim_matches trim_start_matches trim_end_matches is_whitespace
shown_ascii zero u text at h =
    let e : record ann { password_encrypted = stored } ≡ u = cc at in
    let h' : ok (some (codes "password")) ≡ ok (some text) =
      subst
        (λ (x : ServerUser).
          decrypt_user_password sample_prims sample_config.api_salt x.secret x.password_encrypted
          ≡ ok (some text))
        (sym e) h in
    let e' : codes "password" ≡ text = cc h' in
    subst (All IsScalar) e' (ascii-IsScalar (codes "password") refl)
shown_ascii (suc zero) u text at h =
    let e : bob ≡ u = cc at in
    let h' : ok none ≡ ok (some text) =
      subst
        (λ (x : ServerUser).
          decrypt_user_password sample_prims sample_config.api_salt x.secret x.password_encrypted
          ≡ ok (some text))
        (sym e) h in
    absurd (cc h')
shown_ascii (suc (suc i)) u text at h = absurd (cc at)

rotate_key-Rotated_example :
    Rotated sample_prims argon sample_prims-IsSound visible fresh
      (IsBytes-of nonce refl)
      refl
      5
      shown_config
      rotated_config
rotate_key-Rotated_example =
    rotate_key-Rotated sample_prims argon sample_prims-IsSound visible fresh (IsBytes-of nonce refl)
      refl 5 (codes " ann " ∷ []) shown_config rotated_config shown_ascii rotated

abbrev changed_config : ServerConfig
changed_config = record sample_config {
  users =
      record ann { password_encrypted = stored; password_hash = codes "password"; updated_at = 5 }
      ∷ bob
      ∷ [];
  updated_at = 5;
}

-- The password is typed twice the same only at the second attempt.
abbrev hidden : List Text
hidden = codes "passwort" ∷ codes "password" ∷ codes "password" ∷ codes "password" ∷ []

changed :
    change_password sample_prims argon fresh 5 (codes "1" ∷ []) hidden sample_config
    ≡ ok (some changed_config)
unfolding change_password select_user_index prompt_non_empty prompt_password choose_user
    parse_unsigned digits_value is_ascii_digit for_choice update_user validate_password is_control
    hash_password encrypt_user_password encrypt_stored_text b64decode derive_key as_bytes
    encode_char trim trim_matches trim_start_matches trim_end_matches is_whitespace
changed = refl

typed_ascii :
    (password : Text) (rest : List Text)
    → prompt_password hidden ≡ ok (password, rest)
    → All IsScalar password
unfolding prompt_password
typed_ascii password rest h =
    let e : codes "password" ≡ password = cc h in
    subst (All IsScalar) e (ascii-IsScalar (codes "password") refl)

change_password-Changed_example :
    Changed sample_prims argon sample_prims-IsSound visible fresh
      (IsBytes-of nonce refl)
      refl
      5
      (codes "1" ∷ [])
      hidden
      sample_config
      changed_config
change_password-Changed_example =
    change_password-Changed sample_prims argon sample_prims-IsSound visible fresh
      (IsBytes-of nonce refl) refl 5 argon_sound (codes "1" ∷ []) hidden sample_config
      changed_config typed_ascii changed

abbrev eve : ServerUser
eve = record {
  id = codes "u3";
  account = codes "eve";
  password_hash = codes "password";
  password_encrypted = stored;
  secret = fresh.secret;
  tunnels = [];
  tunnel_limit = 5;
  traffic_limit_bytes = 1073741824;
  traffic_used_bytes = 0;
  speed_limit_mbps = 3;
  traffic_by_proxy = [];
  created_at = 5;
  updated_at = 5;
}

abbrev added_config : ServerConfig
added_config = record sample_config { users = ann ∷ bob ∷ eve ∷ []; updated_at = 5 }

added :
    add_user sample_prims argon whole
      (λ n. true)
      (λ n. n)
      (parse_unsigned u64_max)
      fresh
      5
      (some (codes "eve "))
      (some (codes "password"))
      none
      none
      none
      (codes "1" ∷ codes "fast" ∷ codes "3" ∷ [] ∷ [])
      []
      sample_config
    ≡ ok (some added_config)
unfolding add_user account_of password_of gigabytes_of mbps_of prompt_f64 prompt_u32 gb_to_bytes
    parse_unsigned digits_value is_ascii_digit tunnel_limit_of prompt_tunnel_limit
    validate_tunnel_limit validate_account validate_password account_exists is_control hash_password
    encrypt_user_password encrypt_stored_text b64decode derive_key as_bytes encode_char trim
    trim_matches trim_start_matches trim_end_matches is_whitespace
added = refl

given_ascii : (text : Text) → password_of (some (codes "password")) [] ≡ ok text → All IsScalar text
unfolding password_of
given_ascii text h =
    let e : codes "password" ≡ text = cc h in
    subst (All IsScalar) e (ascii-IsScalar (codes "password") refl)

add_user-Added_example :
    Added sample_prims argon sample_prims-IsSound visible fresh
      (IsBytes-of nonce refl)
      refl
      sample_config
      added_config
add_user-Added_example =
    add_user-Added sample_prims argon sample_prims-IsSound visible fresh (IsBytes-of nonce refl)
      refl argon_sound whole (λ n. true) (λ n. n) (parse_unsigned u64_max) 5 (some (codes "eve "))
      (some (codes "password")) none none none (codes "1" ∷ codes "fast" ∷ codes "3" ∷ [] ∷ []) []
      sample_config added_config given_ascii added

selected : select_user_index sample_config (codes "2" ∷ []) ≡ ok (some 1, [])
unfolding select_user_index prompt_non_empty choose_user parse_unsigned digits_value is_ascii_digit
    trim trim_matches trim_start_matches trim_end_matches is_whitespace
selected = refl

select_user_index-Chosen_example :
    (choice : Text) × IsAnswer (codes "2" ∷ []) choice [] × Chosen sample_config choice 1
select_user_index-Chosen_example =
    select_user_index-Chosen sample_config (codes "2" ∷ []) [] 1 selected

abbrev store : Store
store = record {
  database = record {
    settings = some (settings_row sample_config);
    users = users_table (ann ∷ bob ∷ []);
    tunnels = tunnels_table (ann ∷ bob ∷ []);
    traffic_records = [];
  };
  legacy = none;
  files = [];
  issued = 0;
  drawn = 0;
}

abbrev reader : LegacyReader
reader = record { server_config = λ v. none; single_config = λ v. none }

store-Holds : Holds store sample_config
store-Holds = record {
  settings = refl;
  users = λ id. Keeps-refl _;
  tunnels = λ id. refl;
  traffic = λ name row h. absurd (cc h);
}

run_command-IsStored_example : IsStored sample_config (
    run_command sample_prims argon sample_uuid
      (λ n. nonce)
      reader
      (delete_user sample_prims argon 5 (codes "bob" ∷ codes "YES" ∷ []))
      store)
run_command-IsStored_example =
    run_command-IsStored sample_prims argon sample_uuid (λ n. nonce) reader sample_uuid-IsUuidSource
      (delete_user sample_prims argon 5 (codes "bob" ∷ codes "YES" ∷ [])) store sample_config
      store-Holds

abbrev draws : Draws
draws = record {
  lower = b'a';
  upper = b'B';
  digit = b'7';
  alphanumeric = λ k. b'x';
  shuffle = λ text. text;
}

abbrev salt_bytes : Bytes
salt_bytes = codes "0123456789abcdef0123456789abcdef"

draws_letters : (k : ℕ) → is_ascii_alphanumeric (draws.alphanumeric k) ≡ true
unfolding is_ascii_alphanumeric
draws_letters k = refl

sample_ports : PortsApart 7631 7000
sample_ports = record {
  api_set = omega arith;
  frps_set = omega arith;
  different = λ h. omega arith;
  api_plugin = λ h. omega arith;
  frps_plugin = λ h. omega arith;
}

address_set : is_empty (trim (codes "0.0.0.0")) ≡ false
unfolding trim trim_matches trim_start_matches trim_end_matches is_whitespace
address_set = refl

program_set : is_empty (trim (codes "frps")) ≡ false
unfolding trim trim_matches trim_start_matches trim_end_matches is_whitespace
program_set = refl

abbrev new_store : Store
new_store = record { database = empty_database; legacy = none; files = []; issued = 0; drawn = 0 }

abbrev first_config : ServerConfig
first_config = new_config sample_prims salt_bytes draws 5 (codes "0.0.0.0") 7631 7000 (codes "frps")

init-new_config_example :
    (s' : Store) × (init sample_prims argon sample_uuid (λ n. nonce) reader first_config new_store
      ≡ ok (s', some (record first_config { revision = 1 })))
    × Represents s'.database (record first_config { revision = 1 })
init-new_config_example =
    init-new_config sample_prims sample_prims-IsSound salt_bytes (IsBytes-of salt_bytes refl) refl
      draws draws_letters argon sample_uuid (λ n. nonce) reader sample_uuid-IsUuidSource new_store 5
      (codes "0.0.0.0") 7631 7000 (codes "frps") refl refl sample_ports address_set program_set

-- ===== src/Admin/Added.antt =====
-- The user that `command_add_user` of server-package/crates/frp-game-server/src/app.rs adds.
use orange_frp.Prelude.{
  ℕ, ◌≤◌, ◌≡◌, refl, sym, ap, subst, inl, inr, Bool, true, false, Option, none, some, List, [], ◌∷◌,
  ◌++◌, ltb, ltb-false-le, if◌then◌else◌, Bool-cases, Option-cases, nat_eq, list_eq, pair_eq,
  length, All, Result, ok, >>=-eq-ok, >>-eq-ok, fail_if-eq-ok, Result-cases, Text, is_empty, trim,
}
use orange_frp.Utf8.{IsScalar}
use orange_frp.Tunnel.{max_tunnel_limit}
use orange_frp.Floats.{Float}
use orange_frp.Crypto.{Primitives, Bytes, nonce_length}
use orange_frp.Crypto.Laws.{IsSound, IsBytes}
use orange_frp.Config.{
  ServerConfig, ServerUser, Error, Argon2, hash_password, verify_password, encrypt_user_password,
  decrypt_user_password, account_taken,
}
use orange_frp.Admin.{
  validate_account, validate_password, validate_tunnel_limit, account_exists, prompt_non_empty,
  prompt_tunnel_limit, parse_unsigned, u32_max, gb_to_bytes,
}
use orange_frp.Admin.Commands.{
  Fresh, prompt_account, account_of, password_of, gigabytes_of, mbps_of, tunnel_limit_of, add_user,
  default_new_user_tunnel_limit,
}
use orange_frp.Admin.Passwords.{
  IsVisible, decrypt_user_password-encrypt_user_password, hash_password-eq-ok,
}

changed_eq :
    {a b : ServerConfig}
    → ◌≡◌ {A = Result Error (Option ServerConfig)} (ok (some a)) (ok (some b))
    → a ≡ b
changed_eq h = cc h

Unit-eq : (r : Result Error (Unit {0})) (u : Unit {0}) → r ≡ ok u → r ≡ ok tt
Unit-eq r tt h = h

prompt_account-valid :
    (is_taken : Text → Bool) (lines : List Text) (account : Text) (rest : List Text)
    → prompt_account is_taken lines ≡ ok (account, rest)
    → (validate_account account ≡ ok tt) × (is_taken account ≡ false)
unfolding prompt_account prompt_non_empty
prompt_account-valid is_taken [] account rest h = absurd (cc h)
prompt_account-valid is_taken (line ∷ lines) account rest h =
    elim (Bool-cases (is_empty (trim line))) [
      | inl blank ↦ prompt_account-valid is_taken lines account rest (rw blank at h)
      | inr set ↦ elim (Result-cases (validate_account (trim line))) [
        | inr (error, bad) ↦
            prompt_account-valid is_taken lines account rest (rw bad at (rw set at h))
        | inl (done, good) ↦ elim (Bool-cases (is_taken (trim line))) [
          | inl busy ↦
              prompt_account-valid is_taken lines account rest
                (rw busy at (rw good at (rw set at h)))
          | inr free ↦
              let e : ok (trim line, lines) ≡ ok (account, rest) =
                rw free at (rw good at (rw set at h)) in
              let e' : trim line ≡ account = cc e in
              (
                subst (λ x. validate_account x ≡ ok tt) e' (Unit-eq _ done good),
                subst (λ x. is_taken x ≡ false) e' free,
              )
        ]
      ]
    ]

account_of-valid :
    (config : ServerConfig) (given : Option Text) (lines : List Text) (account : Text)
    (rest : List Text)
    → account_of config given lines ≡ ok (account, rest)
    → (validate_account account ≡ ok tt) × (account_exists config account ≡ false)
unfolding account_of
account_of-valid config none lines account rest h =
    prompt_account-valid (account_exists config) lines account rest h
account_of-valid config (some text) lines account rest h =
    let (valid, h1) = >>-eq-ok (validate_account (trim text)) _ h in
    let (free, last) = fail_if-eq-ok (account_exists config (trim text)) account_taken _ h1 in
    let e : trim text ≡ account = cc last in
    (
      subst (λ x. validate_account x ≡ ok tt) e valid,
      subst (λ x. account_exists config x ≡ false) e free,
    )

validate_tunnel_limit-le :
    (limit : ℕ) (u : Unit {0}) → validate_tunnel_limit limit ≡ ok u → limit ≤ max_tunnel_limit
unfolding validate_tunnel_limit
validate_tunnel_limit-le limit u h = elim (Bool-cases (ltb max_tunnel_limit limit)) [
  | inl big ↦ absurd (cc (rw big at h))
  | inr fits ↦ ltb-false-le max_tunnel_limit limit fits
]

prompt_tunnel_limit-le :
    (default : ℕ) (lines : List Text) (limit : ℕ) (rest : List Text)
    → prompt_tunnel_limit default lines ≡ ok (limit, rest)
    → limit ≤ max_tunnel_limit
unfolding prompt_tunnel_limit
prompt_tunnel_limit-le default [] limit rest h = absurd (cc h)
prompt_tunnel_limit-le default (line ∷ lines) limit rest h =
    elim (Option-cases
      (if is_empty (trim line) then some default else parse_unsigned u32_max (trim line))) [
        | inl e ↦ prompt_tunnel_limit-le default lines limit rest (rw (e, prompt_tunnel_limit) at h)
        | inr (n, e) ↦ elim (Result-cases (validate_tunnel_limit n)) [
          | inr (error, bad) ↦
              prompt_tunnel_limit-le default lines limit rest
                (rw bad at (rw (e, prompt_tunnel_limit) at h))
          | inl (done, good) ↦
              let e1 : ok (n, lines) ≡ ok (limit, rest) =
                rw good at (rw (e, prompt_tunnel_limit) at h) in
              let e2 : n ≡ limit = cc e1 in
              subst (λ x. x ≤ max_tunnel_limit) e2 (validate_tunnel_limit-le n done good)
        ]
      ]

tunnel_limit_of-le :
    (default : ℕ) (given : Option ℕ) (lines : List Text) (limit : ℕ)
    → tunnel_limit_of default given lines ≡ ok limit
    → limit ≤ max_tunnel_limit
unfolding tunnel_limit_of
tunnel_limit_of-le default none lines limit h =
    let ((n, rest), asked, last) = >>=-eq-ok (prompt_tunnel_limit default lines) _ h in
    let e : n ≡ limit = cc last in
    subst (λ x. x ≤ max_tunnel_limit) e (prompt_tunnel_limit-le default lines n rest asked)
tunnel_limit_of-le default (some n) lines limit h =
    let (valid, last) = >>-eq-ok (validate_tunnel_limit n) _ h in
    let e : n ≡ limit = cc last in
    subst (λ x. x ≤ max_tunnel_limit) e (validate_tunnel_limit-le n tt valid)

module _ (prims : Primitives) (argon : Argon2) (sound : IsSound prims) (visible : IsVisible prims)
    (fresh : Fresh) (nb : IsBytes fresh.nonce) (nl : length fresh.nonce ≡ nonce_length) where
  -- A user is added behind the others. The account is valid and new, the password passes for the
  -- hash and can be shown, no traffic is used and no tunnel is there.
  pub record Added (before after : ServerConfig) : Type 0 where
    pub user : ServerUser
    pub password : Text
    pub users : after.users ≡ before.users ++ user ∷ []
    pub account_valid : validate_account user.account ≡ ok tt
    pub account_new : account_exists before user.account ≡ false
    pub password_valid : validate_password password ≡ ok tt
    pub passes : verify_password argon user.password_hash password ≡ true
    pub shown :
        decrypt_user_password prims before.api_salt user.secret user.password_encrypted
        ≡ ok (some password)
    pub limit_fits : user.tunnel_limit ≤ max_tunnel_limit
    pub unused : user.traffic_used_bytes ≡ 0
    pub no_tunnels : user.tunnels ≡ []

  -- A command that adds a user adds one, with a valid account that no user had and with a password
  -- that passes and can be shown, however the account, the password and the limit were given. Argon2
  -- accepts the password that it has hashed.
  pub add_user-Added :
      ((salt : Bytes) (password hash : Text)
        → argon.hash salt password ≡ some hash
        → argon.verify hash password ≡ true)
      → (fl : Float) (is_finite : Float.F fl → Bool) (round : Float.F fl → ℕ)
        (parse : Text → Option (Float.F fl)) (unix : ℕ) (account password : Option Text)
        (gigabytes : Option (Float.F fl)) (mbps limit : Option ℕ) (lines hidden : List Text)
        (config after : ServerConfig)
      → ((text : Text) → password_of password hidden ≡ ok text → All IsScalar text)
      → add_user prims argon fl is_finite round parse fresh unix account password gigabytes mbps
          limit lines hidden config
        ≡ ok (some after)
      → Added config after
  unfolding add_user verify_password
  add_user-Added argon_sound fl is_finite round parse unix account password gigabytes mbps limit
        lines hidden config after scalars h =
      let ((account', lines1), named, h1) = >>=-eq-ok (account_of config account lines) _ h in
      let (password', typed, h2) = >>=-eq-ok (password_of password hidden) _ h1 in
      let (valid, h3) = >>-eq-ok (validate_password password') _ h2 in
      let ((gb, lines2), quota, h3a) =
        >>=-eq-ok (gigabytes_of fl is_finite parse gigabytes lines1) _ h3 in
      let ((speed, lines3), paced, h3b) = >>=-eq-ok (mbps_of mbps lines2) _ h3a in
      let (limit', asked, h4) =
        >>=-eq-ok (tunnel_limit_of default_new_user_tunnel_limit limit lines3) _ h3b in
      let (hash, hashed, h5) = >>=-eq-ok (hash_password argon fresh.salt password') _ h4 in
      let (stored, sealed, h6) =
        >>=-eq-ok (encrypt_user_password prims fresh.nonce config.api_salt fresh.secret password') _
          h5 in
      let (bytes, counted, last) = >>=-eq-ok (gb_to_bytes fl is_finite round gb) _ h6 in
      let (account_valid, account_new) =
        account_of-valid config account lines account' lines1 named in
      let user : ServerUser = record {
        id = fresh.id;
        account = account';
        password_hash = hash;
        password_encrypted = stored;
        secret = fresh.secret;
        tunnels = [];
        tunnel_limit = limit';
        traffic_limit_bytes = bytes;
        traffic_used_bytes = 0;
        speed_limit_mbps = speed;
        traffic_by_proxy = [];
        created_at = unix;
        updated_at = unix;
      } in
      let e : record config { users = config.users ++ user ∷ []; updated_at = unix } ≡ after =
        changed_eq last in
      record {
        user = user;
        password = password';
        users = sym (ap (λ (c : ServerConfig). c.users) e);
        account_valid = account_valid;
        account_new = account_new;
        password_valid = valid;
        passes =
            argon_sound fresh.salt password' hash
              (hash_password-eq-ok argon fresh.salt password' hash hashed);
        shown =
            decrypt_user_password-encrypt_user_password prims sound visible fresh.nonce
              config.api_salt fresh.secret password' stored nb nl (scalars password' typed) sealed;
        limit_fits = tunnel_limit_of-le default_new_user_tunnel_limit limit lines3 limit' asked;
        unused = refl;
        no_tunnels = refl;
      }

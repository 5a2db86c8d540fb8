-- ===== src/Admin/Changed.antt =====
-- What change of a password and rotation of a key do to a user:
-- server-package/crates/frp-game-server/src/app.rs.
use orange_frp.Prelude.{
  ℕ, ◌≡◌, refl, sym, ap, ◌∙◌, subst, inl, inr, true, false, Option, none, some, List, [], ◌∷◌, ◌++◌,
  Bool-cases, Option-cases, ◌==◌, nat_eq, list_eq, list_beq_iff, pair_eq, length, get_elem?, All,
  Result, ok, >>=-eq-ok, >>-eq-ok, Text, is_empty, trim_start_matches, trim_end_matches,
  trim_matches, trim,
}
use orange_frp.Utf8.{IsScalar}
use orange_frp.Crypto.{Primitives, Bytes, nonce_length}
use orange_frp.Crypto.Laws.{IsSound, IsBytes}
use orange_frp.Config.{
  ServerConfig, ServerUser, Error, Argon2, hash_password, verify_password, encrypt_user_password,
  decrypt_user_password,
}
use orange_frp.Api.Handlers.{update_at}
use orange_frp.Admin.Choice.{IsAnswer, Chosen, select_user_index-Chosen}
use orange_frp.Admin.{select_user_index, prompt_password, validate_password}
use orange_frp.Admin.Commands.{Fresh, Change, update_user, for_choice, change_password, rotate_key}
use orange_frp.Admin.Passwords.{
  IsVisible, decrypt_user_password-encrypt_user_password, hash_password-eq-ok,
}

-- One user is replaced: the one at an index, by a function of it.
pub record Replaced (before after : ServerConfig) (f : ServerUser → ServerUser) : Type 0 where
  pub index : ℕ
  pub user : ServerUser
  pub chosen : get_elem? before.users index ≡ some user
  pub users : after.users ≡ update_at index f before.users
  pub salt : after.api_salt ≡ before.api_salt

-- Two lines in a row are the password, which is not empty.
pub record IsTypedTwice (hidden : List Text) (password : Text) : Type 0 where
  pub before : List Text
  pub after : List Text
  pub parts : hidden ≡ before ++ password ∷ password ∷ after
  pub given : is_empty password ≡ false

abbrev ok_typed : Text → List Text → Result Error (Text × List Text)
ok_typed t ls = ok (t, ls)

prompt_password-IsTypedTwice :
    (hidden : List Text) (password : Text) (rest : List Text)
    → prompt_password hidden ≡ ok (password, rest)
    → IsTypedTwice hidden password
unfolding prompt_password
prompt_password-IsTypedTwice [] password rest h = absurd (cc h)
prompt_password-IsTypedTwice (p ∷ []) password rest h = absurd (cc h)
prompt_password-IsTypedTwice (p ∷ repeated ∷ hidden) password rest h =
    elim (Bool-cases (is_empty p)) [
      | inl empty ↦
          let v = prompt_password-IsTypedTwice (repeated ∷ hidden) password rest (rw empty at h) in
          record {
            before = p ∷ v.before;
            after = v.after;
            parts = ap (◌∷◌ p) v.parts;
            given = v.given;
          }
      | inr full ↦ elim (Bool-cases (p == repeated)) [
        | inl same ↦
            let e : ok_typed p hidden ≡ ok_typed password rest = rw same at (rw full at h) in
            let is_p : p ≡ password = cc e in
            let both : repeated ≡ password = sym ((list_beq_iff p repeated).0 same) ∙ is_p in
            record {
              before = [];
              after = hidden;
              parts = ap (λ q. q ∷ repeated ∷ hidden) is_p ∙ ap (λ q. password ∷ q ∷ hidden) both;
              given = subst (λ q. is_empty q ≡ false) is_p full;
            }
        | inr differs ↦
            let v =
              prompt_password-IsTypedTwice hidden password rest (rw differs at (rw full at h)) in
            record {
              before = p ∷ repeated ∷ v.before;
              after = v.after;
              parts = ap (λ q. p ∷ repeated ∷ q) v.parts;
              given = v.given;
            }
      ]
    ]

for_choice-eq-some :
    (choice : Option ℕ) (config after : ServerConfig) (k : ℕ → ServerUser → Change)
    → for_choice choice config k ≡ ok (some after)
    → (index : ℕ) × (user : ServerUser) × (choice ≡ some index)
      × (get_elem? config.users index ≡ some user)
      × (k index user ≡ ok (some after))
unfolding for_choice
for_choice-eq-some none config after k h = absurd (cc h)
for_choice-eq-some (some index) config after k h =
    elim (Option-cases (get_elem? config.users index)) [
      | inl e ↦ absurd (cc (rw (e, for_choice) at h))
      | inr (user, e) ↦ (index, user, refl, e, rw (e, for_choice) at h)
    ]

module _ (prims : Primitives) (argon : Argon2) (sound : IsSound prims) (visible : IsVisible prims)
    (fresh : Fresh) (nb : IsBytes fresh.nonce) (nl : length fresh.nonce ≡ nonce_length)
    (unix : ℕ) where
  -- The user gets the new secret, under which the server shows the same password as before.
  pub record Rotated (before after : ServerConfig) : Type 0 where
    pub stored : Text
    pub replaced :
        Replaced before after
          (λ u. record u { password_encrypted = stored; secret = fresh.secret; updated_at = unix })
    pub shown :
        decrypt_user_password prims before.api_salt fresh.secret stored
        ≡ decrypt_user_password prims before.api_salt replaced.user.secret
            replaced.user.password_encrypted

  rotated_text :
      (salt : Text) (password : Option Text) (stored : Text)
      → ((text : Text) → password ≡ some text → All IsScalar text)
      → (elim password [
        | none ↦ ok []
        | some plain ↦ encrypt_user_password prims fresh.nonce salt fresh.secret plain
      ])
        ≡ ok stored
      → decrypt_user_password prims salt fresh.secret stored ≡ ok password
  unfolding decrypt_user_password trim trim_matches trim_start_matches trim_end_matches
  rotated_text salt none stored scalars h = let e : [] ≡ stored = cc h in rw (sym e) refl
  rotated_text salt (some plain) stored scalars h =
      decrypt_user_password-encrypt_user_password prims sound visible fresh.nonce salt fresh.secret
        plain stored nb nl (scalars plain refl) h

  -- Rotation of a key gives a user the new secret and keeps the password that can be shown, or
  -- that there is none; the other users stay as they are.
  pub rotate_key-Rotated :
      (lines : List Text) (config after : ServerConfig)
      → ((i : ℕ) (u : ServerUser) (text : Text)
          → get_elem? config.users i ≡ some u
          → decrypt_user_password prims config.api_salt u.secret u.password_encrypted
            ≡ ok (some text)
          → All IsScalar text)
      → rotate_key prims argon fresh unix lines config ≡ ok (some after)
      → Rotated config after
  unfolding rotate_key update_user
  rotate_key-Rotated lines config after scalars h =
      let ((choice, rest), selected, h1) = >>=-eq-ok (select_user_index config lines) _ h in
      let (index, user, picked, chosen, h2) = for_choice-eq-some choice config after _ h1 in
      let (password, shown, h3) =
        >>=-eq-ok (decrypt_user_password prims config.api_salt user.secret user.password_encrypted)
          _ h2 in
      let (stored, sealed, last) =
        >>=-eq-ok
          (elim password [
            | none ↦ ok []
            | some plain ↦
                encrypt_user_password prims fresh.nonce config.api_salt fresh.secret plain
          ])
          _ h3 in
      let again =
        rotated_text config.api_salt password stored
          (λ text e. scalars index user text chosen (shown ∙ ap ok e)) sealed in
      let e : update_user unix
            (λ u. record u { password_encrypted = stored; secret = fresh.secret }) index config
          ≡ after =
        cc last in
      record {
        stored = stored;
        replaced = record {
          index = index;
          user = user;
          chosen = chosen;
          users = sym (ap (λ (c : ServerConfig). c.users) e);
          salt = sym (ap (λ (c : ServerConfig). c.api_salt) e);
        };
        shown = again ∙ sym shown;
      }

  -- The user gets a password that was typed: it can be shown, and it passes for the new hash.
  pub record Changed (lines hidden : List Text) (before after : ServerConfig) : Type 0 where
    pub password : Text
    pub stored : Text
    pub hash : Text
    pub replaced :
        Replaced before after
          (λ u. record u { password_encrypted = stored; password_hash = hash; updated_at = unix })
    pub shown :
        decrypt_user_password prims before.api_salt replaced.user.secret stored ≡ ok (some password)
    pub passes : verify_password argon hash password ≡ true
    pub valid : validate_password password ≡ ok tt
    pub typed : IsTypedTwice hidden password
    pub choice : Text
    pub rest : List Text
    pub answered : IsAnswer lines choice rest
    pub chosen : Chosen before choice replaced.index

  -- A new password was typed twice in a row, passes for the stored hash and is shown again; it is
  -- the password of the user that the first line that is not blank chooses, and the other users stay
  -- as they are. Argon2 accepts the password that it has hashed.
  pub change_password-Changed :
      ((salt : Bytes) (password hash : Text)
        → argon.hash salt password ≡ some hash
        → argon.verify hash password ≡ true)
      → (lines hidden : List Text) (config after : ServerConfig)
      → ((password : Text) (rest : List Text)
          → prompt_password hidden ≡ ok (password, rest)
          → All IsScalar password)
      → change_password prims argon fresh unix lines hidden config ≡ ok (some after)
      → Changed lines hidden config after
  unfolding change_password update_user verify_password
  change_password-Changed argon_sound lines hidden config after scalars h =
      let ((choice, rest), selected, h1) = >>=-eq-ok (select_user_index config lines) _ h in
      let (index, user, picked, chosen, h2) = for_choice-eq-some choice config after _ h1 in
      let ((password, left), typed, h3) = >>=-eq-ok (prompt_password hidden) _ h2 in
      let answer =
        select_user_index-Chosen config lines rest index (
          subst (λ (o : Option ℕ). select_user_index config lines ≡ ok (o, rest)) picked
            selected) in
      let (valid, h4) = >>-eq-ok (validate_password password) _ h3 in
      let (stored, sealed, h5) =
        >>=-eq-ok (encrypt_user_password prims fresh.nonce config.api_salt user.secret password) _
          h4 in
      let (hash, hashed, last) = >>=-eq-ok (hash_password argon fresh.salt password) _ h5 in
      let e : update_user unix (λ u. record u { password_encrypted = stored; password_hash = hash })
            index config
          ≡ after =
        cc last in
      record {
        password = password;
        stored = stored;
        hash = hash;
        replaced = record {
          index = index;
          user = user;
          chosen = chosen;
          users = sym (ap (λ (c : ServerConfig). c.users) e);
          salt = sym (ap (λ (c : ServerConfig). c.api_salt) e);
        };
        shown =
            decrypt_user_password-encrypt_user_password prims sound visible fresh.nonce
              config.api_salt user.secret password stored nb nl (scalars password left typed)
              sealed;
        passes =
            argon_sound fresh.salt password hash
              (hash_password-eq-ok argon fresh.salt password hash hashed);
        valid = valid;
        typed = prompt_password-IsTypedTwice hidden password left typed;
        choice = answer.0;
        rest = rest;
        answered = answer.1;
        chosen = answer.2;
      }

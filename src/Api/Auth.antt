-- ===== src/Api/Auth.antt =====
-- Who passes the authentication of a request.
use orange_frp.Prelude.{
  ℕ, suc, ◌+◌, ◌≡◌, refl, ap, ◌∙◌, subst, ◌↔◌, inl, inr, Bool, true, false, ◌&&◌, Option, none,
  some, List, [], ◌∷◌, arith, Bool-cases, nat_eq, list_eq, list_beq_iff, pair_eq, get_elem?, All,
  Result, ok, err, Result-cases, Text, codes,
}
use orange_frp.Json.{Value, get_str}
use orange_frp.Crypto.{Bytes, Primitives, Envelope, CryptoError, decrypt_payload}
use orange_frp.Config.{ServerConfig, ServerUser, auth_failed, Argon2, verify_password}
use orange_frp.Api.{AuthContext, secure_equal, tests_str, is_authentic, auth_from, decrypt_and_auth}

four_true :
    (a b c d : Bool) → (a && b && c && d) ≡ true → (a ≡ true) × (b ≡ true) × (c ≡ true) × (d ≡ true)
four_true a b c d h = ground arith

module _ (ct_eq : Bytes → Bytes → Bool) (prims : Primitives) (argon : Argon2) where
  -- The context's user is that of the index, and the payload opens under the user's secret and
  -- holds the operation, the user's account, a key that compares equal to the secret and a password
  -- that the user's hash verifies.
  pub record Authenticated (now : ℕ) (config : ServerConfig) (envelope : Envelope)
      (operation : Text) (ctx : AuthContext) : Type 0 where
    pub user : ServerUser
    pub here : get_elem? config.users ctx.user_index ≡ some user
    pub opened : decrypt_payload prims now user.secret config.api_salt envelope ≡ ok ctx.payload
    pub for_operation : get_str ctx.payload (codes "op") ≡ some operation
    pub for_account : get_str ctx.payload (codes "account") ≡ some user.account
    pub key : Text
    pub key_sent : get_str ctx.payload (codes "key") ≡ some key
    pub key_equal : secure_equal ct_eq key user.secret ≡ true
    pub password : Text
    pub password_sent : get_str ctx.payload (codes "password") ≡ some password
    pub password_verified : verify_password argon user.password_hash password ≡ true

  tests_str-true :
      (o : Option Text) (p : Text → Bool)
      → tests_str ct_eq prims argon o p ≡ true
      → (s : Text) × (o ≡ some s) × (p s ≡ true)
  tests_str-true none p h = absurd (ground arith)
  tests_str-true (some s) p h = (s, refl, h)

  -- What the loop from an index on accepts.
  record Found (now : ℕ) (api_salt : Text) (envelope : Envelope) (operation : Text) (index : ℕ)
      (users : List ServerUser) (ctx : AuthContext) : Type 0 where
    offset : ℕ
    placed : ctx.user_index ≡ index + offset
    user : ServerUser
    here : get_elem? users offset ≡ some user
    opened : decrypt_payload prims now user.secret api_salt envelope ≡ ok ctx.payload
    authentic : is_authentic ct_eq prims argon operation user ctx.payload ≡ true

  later :
      (now : ℕ) (api_salt : Text) (envelope : Envelope) (operation : Text) (index : ℕ)
      (u : ServerUser) (users : List ServerUser) (ctx : AuthContext)
      → Found now api_salt envelope operation (index + 1) users ctx
      → Found now api_salt envelope operation index (u ∷ users) ctx
  later now api_salt envelope operation index u users ctx f = record {
    offset = suc f.offset;
    placed = omega (arith, f.placed);
    user = f.user;
    here = f.here;
    opened = f.opened;
    authentic = f.authentic;
  }

  auth_from-Found :
      (now : ℕ) (api_salt : Text) (envelope : Envelope) (operation : Text) (index : ℕ)
      (users : List ServerUser) (ctx : AuthContext)
      → auth_from ct_eq prims argon now api_salt envelope operation index users ≡ ok ctx
      → Found now api_salt envelope operation index users ctx
  unfolding auth_from
  auth_from-Found now api_salt envelope operation index [] ctx h = absurd cc
  auth_from-Found now api_salt envelope operation index (u ∷ users) ctx h =
      elim (Result-cases (decrypt_payload prims now u.secret api_salt envelope)) [
        | inr (e, shut) ↦ later now api_salt envelope operation index u users ctx (
            auth_from-Found now api_salt envelope operation (index + 1) users ctx
              (rw (shut, auth_from) at h))
        | inl (payload, opened) ↦
            elim (Bool-cases (is_authentic ct_eq prims argon operation u payload)) [
              | inr false_one ↦ later now api_salt envelope operation index u users ctx (
                  auth_from-Found now api_salt envelope operation (index + 1) users ctx
                    (rw false_one at (rw (opened, auth_from) at h)))
              | inl authentic ↦
                  let found : ok (record { user_index = index; payload = payload }) ≡ ok ctx =
                    rw authentic at (rw (opened, auth_from) at h) in
                  let same : record { user_index = index; payload = payload } ≡ ctx = cc found in
                  subst (Found now api_salt envelope operation index (u ∷ users)) same (record {
                    offset = 0;
                    placed = omega arith;
                    user = u;
                    here = refl;
                    opened = opened;
                    authentic = authentic;
                  })
            ]
      ]

  -- A request is only taken for the user at the index, under whose secret it opens, and only with
  -- the operation, account, key and password that the record demands.
  pub decrypt_and_auth-Authenticated :
      (now : ℕ) (config : ServerConfig) (envelope : Envelope) (operation : Text) (ctx : AuthContext)
      → decrypt_and_auth ct_eq prims argon now config envelope operation ≡ ok ctx
      → Authenticated now config envelope operation ctx
  unfolding decrypt_and_auth is_authentic
  decrypt_and_auth-Authenticated now config envelope operation ctx h =
      let f = auth_from-Found now config.api_salt envelope operation 0 config.users ctx h in
      let at_offset : ctx.user_index ≡ f.offset = omega (arith, f.placed) in
      let (op, acc, k, pw) = four_true _ _ _ _ f.authentic in
      let (o, o_sent, o_equal) = tests_str-true (get_str ctx.payload (codes "op")) _ op in
      let (a, a_sent, a_equal) = tests_str-true (get_str ctx.payload (codes "account")) _ acc in
      let (key, key_sent, key_equal) = tests_str-true (get_str ctx.payload (codes "key")) _ k in
      let (password, p_sent, verified) =
        tests_str-true (get_str ctx.payload (codes "password")) _ pw in
      record {
        user = f.user;
        here = ap (get_elem? config.users) at_offset ∙ f.here;
        opened = f.opened;
        for_operation = o_sent ∙ ap some ((list_beq_iff o operation).0 o_equal);
        for_account = a_sent ∙ ap some ((list_beq_iff a f.user.account).0 a_equal);
        key = key;
        key_sent = key_sent;
        key_equal = key_equal;
        password = password;
        password_sent = p_sent;
        password_verified = verified;
      }

  -- No payload that a user's secret opens passes the tests.
  abbrev pub Refuses : ℕ → Text → Envelope → Text → ServerUser → Type 0
  Refuses now api_salt envelope operation u =
      (payload : Value)
      → decrypt_payload prims now u.secret api_salt envelope ≡ ok payload
      → is_authentic ct_eq prims argon operation u payload ≡ false

  same_payload : (r : Result CryptoError Value) {a b : Value} → r ≡ ok a → r ≡ ok b → a ≡ b
  same_payload r e f = cc

  auth_from-refused_iff :
      (now : ℕ) (api_salt : Text) (envelope : Envelope) (operation : Text) (index : ℕ)
      (users : List ServerUser)
      → (auth_from ct_eq prims argon now api_salt envelope operation index users ≡ err auth_failed)
        ↔ All (Refuses now api_salt envelope operation) users
  unfolding auth_from
  auth_from-refused_iff now api_salt envelope operation index [] = (λ h. tt, λ a. refl)
  auth_from-refused_iff now api_salt envelope operation index (u ∷ users) =
      let step = auth_from-refused_iff now api_salt envelope operation (index + 1) users in
      elim (Result-cases (decrypt_payload prims now u.secret api_salt envelope)) [
        | inr (e, shut) ↦
            rw (shut, auth_from) (λ h. ((λ payload opened. absurd cc), step.0 h), λ a. step.1 a.1)
        | inl (payload, opened) ↦
            elim (Bool-cases (is_authentic ct_eq prims argon operation u payload)) [
              | inl authentic ↦
                  rw (opened, auth_from)
                    (rw authentic
                      (λ h. absurd cc, λ a. absurd (ground (arith, a.0 payload refl, authentic))))
              | inr refused ↦
                  rw (opened, auth_from)
                    (rw refused (
                      λ h. (
                        (λ other opened'.
                            subst (λ x. is_authentic ct_eq prims argon operation u x ≡ false)
                              (same_payload (ok payload) refl opened') refused),
                        step.0 h,
                      ),
                      λ a. step.1 a.1,
                    ))
            ]
      ]

  -- A request is refused just when no user's secret opens it to a payload that passes the tests.
  pub decrypt_and_auth-refused_iff :
      (now : ℕ) (config : ServerConfig) (envelope : Envelope) (operation : Text)
      → (decrypt_and_auth ct_eq prims argon now config envelope operation ≡ err auth_failed)
        ↔ All (Refuses now config.api_salt envelope operation) config.users
  unfolding decrypt_and_auth
  decrypt_and_auth-refused_iff now config envelope operation =
      auth_from-refused_iff now config.api_salt envelope operation 0 config.users

-- ===== src/Storage/Recovered.antt =====
-- Recovery of passwords in server-package/crates/frp-game-server/src/storage.rs only fills in
-- passwords that were not shown.
use orange_frp.Prelude.{
  ℕ, ◌+◌, ◌≡◌, refl, sym, ap, ◌∙◌, subst, ◌⊎◌, inl, inr, Bool, true, not, ◌||◌, Option, none, some,
  List, [], ◌∷◌, arith, Bool-cases, Option-cases, ◌==◌, nat_eq, list_eq, list_beq_iff, pair_eq,
  lookup-map_values, any, find, retain, All, map_values, lookup, ok, ok_or, >>=-eq-ok, ok_or-eq-ok,
  Text, is_empty,
}
use mathlib.Core.Option
use orange_frp.Json.{Value}
use orange_frp.Crypto.{Primitives, Bytes}
use orange_frp.Config.{Argon2, not_initialized, verify_password, encrypt_user_password}
use orange_frp.Storage.Tables.{Database, SettingsRow, UserRow}
use orange_frp.Storage.Recover.{
  set_password, shows_none, verified_password, recover_users, backup_candidates, recover_passwords,
}

abbrev pub Among : UserRow → List (Text × UserRow) → Type 0
Among row [] = ⊥
Among row ((id, r) ∷ rows) = (r ≡ row) ⊎ Among row rows

module _ (prims : Primitives) (argon : Argon2) (random : ℕ → Bytes) (users : List (Text × UserRow))
    (api_salt : Text) where
  -- A password is stored where none was shown. It passed for the hash of a user with that account,
  -- and it is sealed under the secret of that user.
  pub record Filled (before after : UserRow) : Type 0 where
    pub shown_none : is_empty before.password_encrypted ≡ true
    pub same : after ≡ record before { password_encrypted = after.password_encrypted }
    pub source : UserRow
    pub known : Among source users
    pub source_account : source.account ≡ before.account
    pub password : Text
    pub nonce : ℕ
    pub passes : verify_password argon source.password_hash password ≡ true
    pub sealed :
        encrypt_user_password prims (random nonce) api_salt source.secret password
        ≡ ok after.password_encrypted

  abbrev pub Recovered : UserRow → UserRow → Type 0
  Recovered before after = (after ≡ before) ⊎ Filled before after

  abbrev pub Recovery : Option UserRow → Option UserRow → Type 0
  Recovery none none = Unit
  Recovery (some r) (some r') = Recovered r r'
  Recovery none (some r) = ⊥
  Recovery (some r) none = ⊥

  Recovered-trans : (r s t : UserRow) → Recovered r s → Recovered s t → Recovered r t
  Recovered-trans r s t (inl e) v = subst (λ x. Recovered x t) e v
  Recovered-trans r s t (inr f) (inl e) = inr (subst (Filled r) (sym e) f)
  Recovered-trans r s t (inr f) (inr g) = inr (record {
    shown_none = f.shown_none;
    same =
        g.same
        ∙ ap (λ (x : UserRow). record x { password_encrypted = t.password_encrypted }) f.same;
    source = g.source;
    known = g.known;
    source_account = g.source_account ∙ ap (λ (x : UserRow). x.account) f.same;
    password = g.password;
    nonce = g.nonce;
    passes = g.passes;
    sealed = g.sealed;
  })

  Recovery-map :
      (f : UserRow → UserRow) (o o' : Option UserRow)
      → ((r : UserRow) → Recovered r (f r))
      → Recovery (Option.map f o) o'
      → Recovery o o'
  Recovery-map f none none step v = tt
  Recovery-map f none (some r') step v = v
  Recovery-map f (some r) none step v = v
  Recovery-map f (some r) (some r') step v = Recovered-trans r (f r) r' (step r) v

  Recovery-refl : (o : Option UserRow) → Recovery o o
  Recovery-refl none = tt
  Recovery-refl (some r) = inl refl

  find_passes : (p : Text → Bool) (xs : List Text) (x : Text) → find p xs ≡ some x → p x ≡ true
  find_passes p [] x h = absurd (ground arith)
  find_passes p (y ∷ ys) x h = elim (Bool-cases (p y)) [
    | inl good ↦ let e : some y ≡ some x = rw good at h in subst (λ z. p z ≡ true) (cc e) good
    | inr bad ↦ find_passes p ys x (rw bad at h)
  ]

  verified_password-passes :
      (candidates : List (Text × List Text)) (row : UserRow) (password : Text)
      → verified_password prims argon random candidates row ≡ some password
      → verify_password argon row.password_hash password ≡ true
  unfolding verified_password
  verified_password-passes candidates row password h =
      elim (Option-cases (lookup row.account candidates)) [
        | inl e ↦ absurd (cc (rw e at h))
        | inr (passwords, e) ↦
            find_passes (verify_password argon row.password_hash) passwords password (rw e at h)
      ]

  -- One update of the table.
  set_password-Recovered :
      (row : UserRow) (password encrypted : Text) (drawn : ℕ)
      → Among row users
      → verify_password argon row.password_hash password ≡ true
      → encrypt_user_password prims (random drawn) api_salt row.secret password ≡ ok encrypted
      → (r : UserRow) → Recovered r (set_password encrypted row.account r)
  unfolding set_password
  set_password-Recovered row password encrypted drawn here passes sealed r =
      elim (Bool-cases (r.account == row.account)) [
        | inr other ↦ rw other (inl refl)
        | inl mine ↦ elim (Bool-cases (is_empty r.password_encrypted)) [
          | inr shown ↦ rw (mine, shown) (inl refl)
          | inl none_shown ↦
              rw (mine, none_shown)
                (inr (record {
                  shown_none = none_shown;
                  same = refl;
                  source = row;
                  known = here;
                  source_account = sym ((list_beq_iff r.account row.account).0 mine);
                  password = password;
                  nonce = drawn;
                  passes = passes;
                  sealed = sealed;
                }))
        ]
      ]

  recover_users-Recovery :
      (candidates : List (Text × List Text)) (rows : List (Text × UserRow)) (drawn : ℕ)
      (before after : List (Text × UserRow)) (drawn' : ℕ)
      → All (λ entry. Among entry.1 users) rows
      → recover_users prims argon random api_salt candidates rows drawn before ≡ ok (after, drawn')
      → (id : Text) → Recovery (lookup id before) (lookup id after)
  unfolding recover_users
  recover_users-Recovery candidates [] drawn before after drawn' known h id =
      let e : after ≡ before = cc h in rw e (Recovery-refl (lookup id before))
  recover_users-Recovery candidates ((i, row) ∷ rows) drawn before after drawn' known h id =
      elim (Option-cases (verified_password prims argon random candidates row)) [
        | inl nothing ↦
            recover_users-Recovery candidates rows drawn before after drawn' known.1
              (rw (nothing, recover_users) at h) id
        | inr (password, found) ↦
            let (encrypted, sealed, rest) =
              >>=-eq-ok (encrypt_user_password prims (random drawn) api_salt row.secret password) _
                (rw (found, recover_users) at h) in
            let step = set_password encrypted row.account in
            let passes = verified_password-passes candidates row password found in
            Recovery-map step (lookup id before) (lookup id after)
              (set_password-Recovered row password encrypted drawn known.0 passes sealed)
              (subst (λ o. Recovery o (lookup id after)) (lookup-map_values step id before)
                (recover_users-Recovery candidates rows (drawn + 1) (map_values step before) after
                  drawn' known.1 rest id))
      ]

Among-retain :
    (p : Text × UserRow → Bool) (rows users : List (Text × UserRow))
    → All (λ entry. Among entry.1 users) rows
    → All (λ entry. Among entry.1 users) (retain p rows)
Among-retain p [] users a = tt
Among-retain p (entry ∷ rows) users a = elim (Bool-cases (p entry)) [
  | inl kept ↦ rw kept (a.0, Among-retain p rows users a.1)
  | inr gone ↦ rw gone (Among-retain p rows users a.1)
]

Among-cons :
    (entry : Text × UserRow) (rows users : List (Text × UserRow))
    → All (λ e. Among e.1 users) rows
    → All (λ e. Among e.1 (entry ∷ users)) rows
Among-cons entry [] users a = tt
Among-cons entry (e ∷ rows) users a = (inr a.0, Among-cons entry rows users a.1)

Among-all : (users : List (Text × UserRow)) → All (λ entry. Among entry.1 users) users
Among-all [] = tt
Among-all (entry ∷ users) = (inl refl, Among-cons entry users users (Among-all users))

-- What `recover_passwords` may change: under each identifier a row stays or is filled in.
pub record IsRecovered (prims : Primitives) (argon : Argon2) (random : ℕ → Bytes)
    (before after : Database) : Type 0 where
  pub settings : after.settings ≡ before.settings
  pub tunnels : after.tunnels ≡ before.tunnels
  pub traffic : after.traffic_records ≡ before.traffic_records
  pub users :
      (row : SettingsRow)
      → before.settings ≡ some row
      → (id : Text)
      → Recovery prims argon random before.users row.api_salt
          (lookup id before.users)
          (lookup id after.users)

-- Recovery changes the table of users only, and there only passwords that were not shown. Such a
-- password passed for the hash of a user with that account, and what is stored of it is sealed
-- under the secret of that user.
pub recover_passwords-IsRecovered :
    (prims : Primitives) (argon : Argon2) (random : ℕ → Bytes) (files : List (Text × Option Value))
    (drawn : ℕ) (db db' : Database) (drawn' : ℕ)
    → recover_passwords prims argon random files drawn db ≡ ok (db', drawn')
    → IsRecovered prims argon random db db'
unfolding recover_passwords
recover_passwords-IsRecovered prims argon random files drawn db db' drawn' h =
    elim (Bool-cases (not (any shows_none db.users) || is_empty (backup_candidates files))) [
      | inl idle ↦
          let e : db' ≡ db = cc (rw idle at h) in
          rw e (record {
            settings = refl;
            tunnels = refl;
            traffic = refl;
            users = λ row there id.
                Recovery-refl prims argon random db.users row.api_salt (lookup id db.users);
          })
      | inr busy ↦
          let (settings, found, h1) =
            >>=-eq-ok (ok_or db.settings not_initialized) _ (rw busy at h) in
          let there = ok_or-eq-ok db.settings not_initialized found in
          let ((users, drawn1), loop, last) =
            >>=-eq-ok
              (recover_users prims argon random settings.api_salt (backup_candidates files)
                (retain shows_none db.users) drawn db.users)
              _ h1 in
          let e : db' ≡ record db { users = users } = cc last in
          rw e (record {
            settings = refl;
            tunnels = refl;
            traffic = refl;
            users = λ row known id.
                let same : settings ≡ row = cc (sym there ∙ known) in
                subst
                  (λ (r : SettingsRow).
                    Recovery prims argon random db.users r.api_salt (lookup id db.users)
                      (lookup id users))
                  same
                  (recover_users-Recovery prims argon random db.users settings.api_salt
                    (backup_candidates files) (retain shows_none db.users) drawn db.users users
                    drawn1 (Among-retain shows_none db.users db.users (Among-all db.users)) loop
                    id);
          })
    ]

-- ===== src/Storage/Refinement.antt =====
-- Saving in server-package/crates/frp-game-server/src/storage.rs against what the handlers rely on:
-- the database holds the configuration that was saved last.
use orange_frp.Prelude.{
  ℕ, ◌+◌, ◌<◌, min, ◌≡◌, refl, sym, ap, ◌∙◌, subst, ◌⊎◌, inl, inr, true, not, Option, none, some,
  List, arith, not-false, nat_beq, nat_beq_iff, nat_eq, list_eq, pair_eq, lookup, ok, err, ok_or,
  >>=-eq-ok, fail_if-eq-ok, ok_or-eq-ok, Result-cases, Text, is_empty,
}
use orange_frp.Tunnel.Normalize.{IsUuidSource}
use orange_frp.Crypto.{Primitives, Bytes}
use orange_frp.Config.{ServerConfig, Error, Argon2, not_initialized, stale_revision, i64_max}
use orange_frp.Config.Normalize.{normalize_loaded_config}
use orange_frp.Config.Valid.Config.{normalize_loaded_config-IsValid}
use orange_frp.Controller.Specs.{count-Nodup}
use orange_frp.Api.Handlers.Stored.{IsStorage}
use orange_frp.Storage.Tables.{SettingsRow, UserRow, settings_row}
use orange_frp.Storage.Snapshot.{write_snapshot}
use orange_frp.Storage.Recover.{recover_passwords}
use orange_frp.Storage.Legacy.{LegacyReader}
use orange_frp.Storage.Operations.{Store, settings_exist, recover, initialize, commit, save}
use orange_frp.Storage.Written.{users_table, tunnels_table}
use orange_frp.Storage.Traffic.{HasRecords, last_records, write_snapshot-HasRecords}
use orange_frp.Storage.Represents.{Represents, write_snapshot-Represents}
use orange_frp.Storage.Recovered.{Recovered, Recovery, recover_passwords-IsRecovered}

-- The row of a user, or that row with a password to show which it does not have.
abbrev pub Shows : UserRow → UserRow → Type 0
Shows wanted row =
    (row ≡ wanted)
    ⊎ ((is_empty wanted.password_encrypted ≡ true)
        × (row ≡ record wanted { password_encrypted = row.password_encrypted }))

abbrev pub Keeps : Option UserRow → Option UserRow → Type 0
Keeps none none = Unit
Keeps (some wanted) (some row) = Shows wanted row
Keeps none (some row) = ⊥
Keeps (some wanted) none = ⊥

-- The database has the settings, tunnels and users of the configuration and no others, but for
-- passwords that recovery has filled in, and for every proxy name the traffic record of the
-- configuration that was written last under it, maybe marked as inactive.
pub record Holds (s : Store) (c : ServerConfig) : Type 0 where
  pub settings : s.database.settings ≡ some (settings_row c)
  pub users : (id : Text) → Keeps (lookup id (users_table c.users)) (lookup id s.database.users)
  pub tunnels : (id : Text) → lookup id s.database.tunnels ≡ lookup id (tunnels_table c.users)
  pub traffic : HasRecords (last_records c) s.database.traffic_records

pub Keeps-refl : (o : Option UserRow) → Keeps o o
Keeps-refl none = tt
Keeps-refl (some r) = inl refl

module _ (prims : Primitives) (argon : Argon2) (uuid : ℕ → Text) (random : ℕ → Bytes)
    (reader : LegacyReader) where
  Shows-Recovered :
      (users : List (Text × UserRow)) (salt : Text) (wanted row after : UserRow)
      → Shows wanted row
      → Recovered prims argon random users salt row after
      → Shows wanted after
  Shows-Recovered users salt wanted row after (inl e) (inl e') = inl (e' ∙ e)
  Shows-Recovered users salt wanted row after (inr (blank, e)) (inl e') = inr (
    blank,
    subst (λ (r : UserRow). r ≡ record wanted { password_encrypted = r.password_encrypted })
        (sym e') e,
  )
  Shows-Recovered users salt wanted row after (inl e) (inr f) = inr (
    subst (λ (r : UserRow). is_empty r.password_encrypted ≡ true) e f.shown_none,
    f.same ∙ ap (λ (r : UserRow). record r { password_encrypted = after.password_encrypted }) e,
  )
  Shows-Recovered users salt wanted row after (inr (blank, e)) (inr f) = inr (
    blank,
    f.same ∙ ap (λ (r : UserRow). record r { password_encrypted = after.password_encrypted }) e,
  )

  Keeps-Recovery :
      (users : List (Text × UserRow)) (salt : Text) (wanted before after : Option UserRow)
      → Keeps wanted before
      → Recovery prims argon random users salt before after
      → Keeps wanted after
  Keeps-Recovery users salt none none none k r = tt
  Keeps-Recovery users salt (some w) (some b) (some a) k r = Shows-Recovered users salt w b a k r
  Keeps-Recovery users salt none (some b) after k r = absurd k
  Keeps-Recovery users salt (some w) none after k r = absurd k
  Keeps-Recovery users salt none none (some a) k r = absurd r
  Keeps-Recovery users salt (some w) (some b) none k r = absurd r

  recover-Holds :
      (s s' : Store) (c : ServerConfig)
      → Holds s c
      → recover prims argon uuid random reader s ≡ ok s'
      → Holds s' c
  unfolding recover
  recover-Holds s s' c held h =
      let ((db, drawn), run, last) =
        >>=-eq-ok (recover_passwords prims argon random s.files s.drawn s.database) _ h in
      let v =
        recover_passwords-IsRecovered prims argon random s.files s.drawn s.database db drawn run in
      let e : s' ≡ record s { database = db; drawn = drawn } = cc last in
      rw e (record {
        settings = v.settings ∙ held.settings;
        users = λ id.
            Keeps-Recovery s.database.users c.api_salt (lookup id (users_table c.users))
              (lookup id s.database.users) (lookup id db.users) (held.users id)
              (v.users (settings_row c) held.settings id);
        tunnels = λ id. ap (lookup id) v.tunnels ∙ held.tunnels id;
        traffic = subst (HasRecords (last_records c)) (sym v.traffic) held.traffic;
      })

  -- With settings, `initialize` recovers passwords and does nothing else.
  initialize-recover :
      (s : Store) (row : SettingsRow)
      → s.database.settings ≡ some row
      → initialize prims argon uuid random reader s ≡ recover prims argon uuid random reader s
  unfolding initialize settings_exist
  initialize-recover s row e = rw (e, settings_exist, initialize) refl

  pub initialize-Holds :
      (s s' : Store) (c : ServerConfig)
      → Holds s c
      → initialize prims argon uuid random reader s ≡ ok s'
      → Holds s' c
  initialize-Holds s s' c held h =
      recover-Holds s s' c held (sym (initialize-recover s (settings_row c) held.settings) ∙ h)

  pub save-eq-ok :
      (s : Store) (c saved : ServerConfig)
      → (save prims argon uuid random reader s c).1 ≡ ok saved
      → (ready : Store) × (initialize prims argon uuid random reader s ≡ ok ready)
        × (commit prims argon uuid random reader c ready
            ≡ ok ((save prims argon uuid random reader s c).0, saved))
  unfolding save
  save-eq-ok s c saved h = elim (Result-cases (initialize prims argon uuid random reader s)) [
    | inr (error, e) ↦ absurd (cc (rw (e, save) at h))
    | inl (ready, e) ↦ elim (Result-cases (commit prims argon uuid random reader c ready)) [
      | inr (error, failed) ↦ absurd (cc (rw (failed, save) at (rw (e, save) at h)))
      | inl ((stored, done), committed) ↦
          let run : save prims argon uuid random reader s c ≡ (stored, ok done) =
            rw (e, save) (rw committed refl) in
          let same : ok done ≡ ok saved = sym (ap (λ r. r.1) run) ∙ h in
          (ready, e, rw run (committed ∙ cc same))
    ]
  ]

  save-eq-err :
      (s : Store) (c : ServerConfig) (error : Error)
      → (save prims argon uuid random reader s c).1 ≡ err error
      → ((save prims argon uuid random reader s c).0 ≡ s)
        ⊎ (initialize prims argon uuid random reader s
            ≡ ok (save prims argon uuid random reader s c).0)
  unfolding save
  save-eq-err s c error h = elim (Result-cases (initialize prims argon uuid random reader s)) [
    | inr (failure, e) ↦ rw (e, save) (inl refl)
    | inl (ready, e) ↦ elim (Result-cases (commit prims argon uuid random reader c ready)) [
      | inr (failure, failed) ↦ inr (rw (e, save) (rw failed refl))
      | inl ((stored, done), committed) ↦ absurd (cc (rw committed at (rw (e, save) at h)))
    ]
  ]

  module _ (source : IsUuidSource uuid) where
    -- A commit has met the revision that it was given, and writes the next one.
    pub record Committed (c : ServerConfig) (ready stored : Store) (saved : ServerConfig)
        : Type 0 where
      pub before : SettingsRow
      pub had : ready.database.settings ≡ some before
      pub same_revision : before.revision ≡ c.revision
      pub next_revision : saved.revision ≡ min (c.revision + 1) i64_max
      pub holds : Represents stored.database saved
      pub records : HasRecords (last_records saved) stored.database.traffic_records

    commit-Committed :
        (c : ServerConfig) (ready stored : Store) (saved : ServerConfig)
        → commit prims argon uuid random reader c ready ≡ ok (stored, saved)
        → Committed c ready stored saved
    unfolding commit
    commit-Committed c ready stored saved h =
        let ((normal, issued), normalized, h1) =
          >>=-eq-ok (normalize_loaded_config prims uuid ready.issued c) _ h in
        let (row, found, h2) = >>=-eq-ok (ok_or ready.database.settings not_initialized) _ h1 in
        let (same, h3) =
          fail_if-eq-ok (not (nat_beq row.revision normal.revision)) stale_revision _ h2 in
        let next : ServerConfig = record normal { revision = min (row.revision + 1) i64_max } in
        let (db, written, last) = >>=-eq-ok (write_snapshot next ready.database) _ h3 in
        let (valid, shape) =
          normalize_loaded_config-IsValid prims uuid source ready.issued c normal issued
            normalized in
        let kept : normal.revision ≡ c.revision = ap (λ (x : ServerConfig). x.revision) shape in
        let met : row.revision ≡ c.revision = (nat_beq_iff _ _).0 (not-false _ same) ∙ kept in
        let e : (record ready { database = db; issued = issued }, next) ≡ (stored, saved) =
          cc last in
        subst (λ (r : Store × ServerConfig). Committed c ready r.0 r.1) e
          (record {
            before = row;
            had = ok_or-eq-ok _ _ found;
            same_revision = met;
            next_revision = ap (λ n. min (n + 1) i64_max) met;
            holds =
                write_snapshot-Represents next ready.database db (count-Nodup _ valid.user_ids)
                  (count-Nodup _ valid.tunnel_ids) written;
            records = write_snapshot-HasRecords next ready.database db written;
          })

    Represents-Holds :
        (s : Store) (c : ServerConfig)
        → Represents s.database c
        → HasRecords (last_records c) s.database.traffic_records
        → Holds s c
    Represents-Holds s c r traffic = record {
      traffic = traffic;
      settings = r.settings;
      users = λ id.
          subst (Keeps (lookup id (users_table c.users))) (sym (r.users id))
            (Keeps-refl (lookup id (users_table c.users)));
      tunnels = r.tunnels;
    }

    -- The storage keeps what the handlers count on: a save that succeeds leaves the settings, users
    -- and tunnels of the new configuration in the database, whatever it held, and for every proxy
    -- name the traffic record written last under it; one that fails leaves the old ones. Two users
    -- with a record of the same name share one.
    pub save-IsStorage : IsStorage (save prims argon uuid random reader) Holds
    save-IsStorage = record {
      saved = λ s c c' h.
          let (ready, init, done) = save-eq-ok s c c' h in
          let v = commit-Committed c ready _ c' done in Represents-Holds _ c' v.holds v.records;
      kept = λ s c old error h held. elim (save-eq-err s c error h) [
        | inl e ↦ rw e held
        | inr init ↦ initialize-Holds s _ old held init
      ];
    }

    -- No update is lost: of two saves that start from the same revision the second fails.
    pub save-no_lost_update :
        (s : Store) (first second saved : ServerConfig)
        → (save prims argon uuid random reader s first).1 ≡ ok saved
        → second.revision ≡ first.revision
        → first.revision < i64_max
        → (error : Error) × ((save prims argon uuid random reader
              (save prims argon uuid random reader s first).0
              second).1
            ≡ err error)
    save-no_lost_update s first second saved h same room =
        let after = (save prims argon uuid random reader s first).0 in
        elim (Result-cases (save prims argon uuid random reader after second).1) [
          | inr (error, e) ↦ (error, e)
          | inl (again, e) ↦
              let (ready, init, done) = save-eq-ok s first saved h in
              let one = commit-Committed first ready after saved done in
              let (ready2, init2, done2) = save-eq-ok after second again e in
              let two = commit-Committed second ready2 _ again done2 in
              let held =
                initialize-Holds after ready2 saved
                  (Represents-Holds after saved one.holds one.records) init2 in
              let rows : some two.before ≡ some (settings_row saved) =
                sym two.had ∙ held.settings in
              let met : two.before.revision ≡ saved.revision =
                let rows' : two.before ≡ settings_row saved = cc rows in
                ap (λ (r : SettingsRow). r.revision) rows' in
              absurd (ground (arith, one.next_revision, two.same_revision))
        ]

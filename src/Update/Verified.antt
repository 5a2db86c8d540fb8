-- ===== src/Update/Verified.antt =====
-- What `command_check_update` of server-package/crates/frp-game-server/src/app.rs runs.
use orange_frp.Prelude.{
  ℕ, ◌+◌, ◌/◌, ◌%◌, ◌≤◌, ◌≡◌, refl, sym, ap, ◌∙◌, subst, ◌⊎◌, inl, inr, Bool, true, false, not,
  ◌||◌, some, List, [], ◌∷◌, arith, ltb, not-false, nat_beq, Bool-cases, ◌==◌, nat_eq, list_eq,
  list_beq_iff, pair_eq, length, take, all, ok, map_err, ok_or, >>=-eq-ok, fail_if-eq-ok,
  ok_or-eq-ok, map_err-eq-ok, Text, codes, trim_start_matches, trim, byte_len,
}
use orange_frp.Crypto.{Bytes}
use orange_frp.Admin.{prompt_non_empty}
use orange_frp.Update.{
  update_manifest_max_bytes, update_installer_max_bytes, unanswered, bad_own_version,
  not_downloaded, too_large, unreadable, bad_manifest, bad_version, bad_digest, not_root,
  wrong_digest, UpdateFile, manifest_file, installer_file, Updater, to_lower, announces_more,
  to_ascii_lowercase, is_ascii_hexdigit, hex_digit, hex, digests_match, fetch_update_bytes,
  parse_server_update_manifest, confirmed, download_installer, find_update, is_letter_v,
}

lower_lower : (s : Text) → to_ascii_lowercase (to_ascii_lowercase s) ≡ to_ascii_lowercase s
unfolding to_ascii_lowercase to_lower
lower_lower [] = refl
lower_lower (c ∷ s) =
    let once : to_lower (to_lower c) ≡ to_lower c = ground arith in cc (once, lower_lower s)

lower-hex_digit : (n : ℕ) → to_lower (hex_digit n) ≡ hex_digit n
unfolding hex_digit to_lower
lower-hex_digit n = ground arith

lower-hex : (bs : Bytes) → to_ascii_lowercase (hex bs) ≡ hex bs
unfolding hex to_ascii_lowercase
lower-hex [] = refl
lower-hex (b ∷ bs) = cc (lower-hex_digit (b / 16), lower-hex_digit (b % 16), lower-hex bs)

module _ (u : Updater) where
  open u use {Version}

  fetched-small :
      (file : UpdateFile) (maximum_bytes : ℕ) (bytes : Bytes)
      → fetch_update_bytes u file maximum_bytes ≡ ok bytes
      → length bytes ≤ maximum_bytes
  unfolding fetch_update_bytes
  fetched-small file maximum_bytes bytes h =
      let (response, _, h1) = >>=-eq-ok (ok_or (u.fetch file) not_downloaded) _ h in
      let (_, h2) =
        fail_if-eq-ok (announces_more maximum_bytes response.content_length) too_large _ h1 in
      let (body, _, h3) = >>=-eq-ok (ok_or response.body unreadable) _ h2 in
      let (fits, h4) =
        fail_if-eq-ok (ltb maximum_bytes (length (take (maximum_bytes + 1) body))) too_large
          (ok (take (maximum_bytes + 1) body)) h3 in
      let same : take (maximum_bytes + 1) body ≡ bytes = cc h4 in
      subst (λ bs. length bs ≤ maximum_bytes) same (ground arith)

  -- The digest of a manifest is in lower case.
  parsed-lower :
      (bytes : Bytes) (version : Version) (digest : Text)
      → parse_server_update_manifest u bytes ≡ ok (version, digest)
      → to_ascii_lowercase digest ≡ digest
  unfolding parse_server_update_manifest
  parsed-lower bytes version digest h =
      let (manifest, _, h1) = >>=-eq-ok (ok_or (u.read_manifest bytes) bad_manifest) _ h in
      let (version', _, h2) =
        >>=-eq-ok
          (ok_or (u.parse_version (trim_start_matches is_letter_v (trim manifest.version)))
            bad_version)
          _ h1 in
      let digest' = to_ascii_lowercase (trim manifest.installer_sha256) in
      let (_, h3) =
        fail_if-eq-ok (not (nat_beq (byte_len digest') 64) || not (all is_ascii_hexdigit digest'))
          bad_digest (ok (version', digest')) h2 in
      let both : (version', digest') ≡ (version, digest) = cc h3 in
      let same = ap (λ (p : Version × Text). p.1) both in
      subst (λ t. to_ascii_lowercase t ≡ t) same (lower_lower (trim manifest.installer_sha256))

  -- What must hold before a file is run as the installer of a version.
  pub record IsVerified (agree : Bool) (lines : List Text) (latest : Version) (bytes : Bytes)
      : Type 0 where
    pub expected : Text
    pub manifest : Bytes
    pub current : Version
    pub fetched : fetch_update_bytes u manifest_file update_manifest_max_bytes ≡ ok manifest
    pub parsed : parse_server_update_manifest u manifest ≡ ok (latest, expected)
    pub own : u.parse_version u.own_version ≡ some current
    pub differs : u.version_eq latest current ≡ false
    pub not_older : u.version_lt latest current ≡ false
    pub agreed :
        (agree ≡ true) ⊎ ((rest : List Text) × (prompt_non_empty lines ≡ ok (codes "YES", rest)))
    pub root : u.is_root ≡ true
    pub small : length bytes ≤ update_installer_max_bytes
    pub digest : hex (u.sha256 bytes) ≡ expected

  confirmed-agreed :
      (agree : Bool) (lines : List Text)
      → confirmed u agree lines ≡ ok true
      → (agree ≡ true) ⊎ ((rest : List Text) × (prompt_non_empty lines ≡ ok (codes "YES", rest)))
  unfolding confirmed
  confirmed-agreed true lines h = inl refl
  confirmed-agreed false lines h =
      let ((answer, rest), typed, h1) =
        >>=-eq-ok (map_err unanswered (prompt_non_empty lines)) _ h in
      let is_yes : (answer == codes "YES") ≡ true = cc h1 in
      inr (
        rest,
        subst (λ t. prompt_non_empty lines ≡ ok (t, rest))
            ((list_beq_iff answer (codes "YES")).0 is_yes)
            (map_err-eq-ok unanswered (prompt_non_empty lines) typed),
      )

  downloaded :
      (latest found : Version) (expected : Text) (bytes : Bytes)
      → download_installer u latest expected ≡ ok (some (found, bytes))
      → (latest ≡ found)
        × (u.is_root ≡ true)
        × (length bytes ≤ update_installer_max_bytes)
        × (to_ascii_lowercase (hex (u.sha256 bytes)) ≡ to_ascii_lowercase expected)
  unfolding download_installer digests_match
  downloaded latest found expected bytes h =
      let (root, h1) = fail_if-eq-ok _ not_root _ h in
      let (body, fetched, h2) =
        >>=-eq-ok (fetch_update_bytes u installer_file update_installer_max_bytes) _ h1 in
      let (right, h3) = fail_if-eq-ok _ wrong_digest _ h2 in
      let both : (latest, body) ≡ (found, bytes) = cc h3 in
      let body_same : body ≡ bytes = ap (λ (p : Version × Bytes). p.1) both in
      let fetched' =
        subst (λ b. fetch_update_bytes u installer_file update_installer_max_bytes ≡ ok b) body_same
          fetched in
      let equal : to_ascii_lowercase (hex (u.sha256 body)) ≡ to_ascii_lowercase expected =
        (list_beq_iff (to_ascii_lowercase (hex (u.sha256 body))) (to_ascii_lowercase expected)).0
          (not-false _ right) in
      (
        ap (λ (p : Version × Bytes). p.0) both,
        not-false _ root,
        fetched-small installer_file update_installer_max_bytes bytes fetched',
        subst (λ b. to_ascii_lowercase (hex (u.sha256 b)) ≡ to_ascii_lowercase expected) body_same
            equal,
      )

  pub found-IsVerified :
      (agree : Bool) (lines : List Text) (found : Version) (bytes : Bytes)
      → find_update u agree lines ≡ ok (some (found, bytes))
      → IsVerified agree lines found bytes
  unfolding find_update
  found-IsVerified agree lines found bytes h =
      let (current, own, h1) =
        >>=-eq-ok (ok_or (u.parse_version u.own_version) bad_own_version) _ h in
      let (manifest, fetched, h2) =
        >>=-eq-ok (fetch_update_bytes u manifest_file update_manifest_max_bytes) _ h1 in
      let ((latest, expected), parsed, h3) =
        >>=-eq-ok (parse_server_update_manifest u manifest) _ h2 in
      elim (Bool-cases (u.version_eq latest current || u.version_lt latest current)) [
        | inl current_enough ↦ absurd (cc (rw current_enough at h3))
        | inr newer ↦
            let (agreed, asked, h4) = >>=-eq-ok (confirmed u agree lines) _ (rw newer at h3) in
            elim (Bool-cases agreed) [
              | inr declined ↦ absurd (cc (rw declined at h4))
              | inl accepted ↦
                  let (same, root, small, equal) =
                    downloaded latest found expected bytes (rw accepted at h4) in
                  record {
                    expected = expected;
                    manifest = manifest;
                    current = current;
                    fetched = fetched;
                    parsed =
                        subst (λ v. parse_server_update_manifest u manifest ≡ ok (v, expected)) same
                          parsed;
                    own = ok_or-eq-ok (u.parse_version u.own_version) bad_own_version own;
                    differs = subst (λ v. u.version_eq v current ≡ false) same (ground arith);
                    not_older = subst (λ v. u.version_lt v current ≡ false) same (ground arith);
                    agreed = confirmed-agreed agree lines (asked ∙ ap ok accepted);
                    root = root;
                    small = small;
                    digest =
                        sym (lower-hex (u.sha256 bytes))
                        ∙ equal
                        ∙ parsed-lower manifest latest expected parsed;
                  }
            ]
      ]

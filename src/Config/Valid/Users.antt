-- ===== src/Config/Valid/Users.antt =====
-- The loop over the users.
use orange_frp.Prelude.{
  ℕ, suc, ◌≤◌, ◌≡◌, refl, ap, true, false, not, ◌||◌, List, [], ◌∷◌, map, arith, ltb, nat_beq,
  nat_eq, list_eq, pair_eq, Fresh, length, all, all-All, All, contains, ok, map_err, >>=-eq-ok,
  >>-eq-ok, fail_if-eq-ok, map_err-eq-ok, Text, is_empty, is_ascii_alphanumeric, trim, byte_len,
}
use orange_frp.Tunnel.{Tunnel, max_tunnel_limit, normalize_tunnels, proxy_name_for}
use orange_frp.Tunnel.Checks.{HasFields}
use orange_frp.Tunnel.Normalize.{IsUuidSource, normalize_tunnels-AreNormal}
use orange_frp.Crypto.{Primitives}
use orange_frp.Config.{
  ServerUser, decrypt_user_password, bad_account, duplicate_user_id, blank_hash, bad_secret,
  bad_password, limit_too_large, too_many_tunnels, max_tunnels_per_user, tunnel_error,
}
use orange_frp.Config.Normalize.{
  TunnelSets, UserSets, mark, mark_user, check_tunnel, check_user, check_tunnels, prepare_user,
  check_users,
}
use orange_frp.Config.Valid.{
  GoodTunnel, Distinct, mark_all, mark_all-append, Distinct-cons, Distinct-append,
  check_tunnel-Passed, HasFields-renamed, All-fields, GoodUser, all_tunnels,
}

-- What the checks of a user say, before its tunnels are looked at.
record UserPassed (s : UserSets) (u : ServerUser) : Type 0 where
  account_new : contains s.accounts u.account ≡ false
  id_new : contains s.user_ids u.id ≡ false
  secret_new : contains s.secrets u.secret ≡ false
  account_set : is_empty u.account ≡ false
  hash_set : is_empty (trim u.password_hash) ≡ false
  secret_size : byte_len u.secret ≡ 36
  secret_alphanumeric : all is_ascii_alphanumeric u.secret ≡ true
  limit_fits : u.tunnel_limit ≤ max_tunnel_limit
  tunnels_fit : length u.tunnels ≤ max_tunnels_per_user

check_user-UserPassed :
    (prims : Primitives) (api_salt : Text) (s : UserSets) (u : ServerUser)
    → check_user prims api_salt s u ≡ ok tt
    → UserPassed s u
unfolding check_user
check_user-UserPassed prims api_salt s u h =
    let (a, h1) =
      fail_if-eq-ok (is_empty u.account || contains s.accounts u.account) bad_account _ h in
    let (b, h2) = fail_if-eq-ok (contains s.user_ids u.id) duplicate_user_id _ h1 in
    let (c, h3) = fail_if-eq-ok (is_empty (trim u.password_hash)) blank_hash _ h2 in
    let (d, h4) =
      fail_if-eq-ok
        (not (nat_beq (byte_len u.secret) 36)
          || not (all is_ascii_alphanumeric u.secret)
          || contains s.secrets u.secret)
        bad_secret _ h3 in
    let (_, _, h5) =
      >>=-eq-ok
        (map_err (λ _. bad_password)
          (decrypt_user_password prims api_salt u.secret u.password_encrypted))
        _ h4 in
    let (f, h6) = fail_if-eq-ok (ltb max_tunnel_limit u.tunnel_limit) limit_too_large _ h5 in
    let (g, h7) =
      fail_if-eq-ok (ltb max_tunnels_per_user (length u.tunnels)) too_many_tunnels _ h6 in
    record {
      account_new = ground arith;
      id_new = b;
      secret_new = ground arith;
      account_set = ground arith;
      hash_set = c;
      secret_size = ground arith;
      secret_alphanumeric = ground arith;
      limit_fits = ground arith;
      tunnels_fit = ground arith;
    }

-- Users that repeat no account, identifier or secret of the sets, nor any of their own.
pub record DistinctUsers (s : UserSets) (us : List ServerUser) : Type 0 where
  pub accounts : Fresh s.accounts (map (λ u. u.account) us)
  pub ids : Fresh s.user_ids (map (λ u. u.id) us)
  pub secrets : Fresh s.secrets (map (λ u. u.secret) us)

module _ (prims : Primitives) (uuid : ℕ → Text) where
  check_tunnels-Distinct :
      (reserved : List ℕ) (n : ℕ) (s : TunnelSets) (ts checked : List Tunnel) (s' : TunnelSets)
      (m : ℕ)
      → check_tunnels prims uuid reserved n s ts ≡ ok (checked, s', m)
      → All HasFields ts
      → All (GoodTunnel reserved) checked
        × Distinct s checked
        × (s' ≡ mark_all s checked)
        × (length checked ≡ length ts)
  unfolding check_tunnels
  check_tunnels-Distinct reserved n s [] checked s' m h a =
      let e : checked ≡ [] = cc in
      rw e (tt, record { ids = tt; proxy_names = tt; public_ports = tt; backends = tt }, cc, refl)
  check_tunnels-Distinct reserved n s (t ∷ ts) checked s' m h a =
      let named = record t { proxy_name = (proxy_name_for uuid n t.id).0 } in
      let (passed, h1) = >>-eq-ok (check_tunnel reserved s named) _ h in
      let ((rest, s1, n1), loop, last) =
        >>=-eq-ok
          (check_tunnels prims uuid reserved (proxy_name_for uuid n t.id).1 (mark s named) ts) _
          h1 in
      let (good, distinct, marked, len) =
        check_tunnels-Distinct reserved (proxy_name_for uuid n t.id).1 (mark s named) ts rest s1 n1
          loop a.1 in
      let v = check_tunnel-Passed reserved s named passed in
      let e : checked ≡ named ∷ rest = cc last in
      rw e (
        (
          record {
            fields = HasFields-renamed t _ a.0;
            public_free = v.public_free;
            backend_set = v.backend_set;
            backend_free = v.backend_free;
          },
          good,
        ),
        Distinct-cons s named rest v.id_new v.name_new v.public_new v.backend_new distinct,
        cc (last, marked),
        ap suc len,
      )

  module _ (source : IsUuidSource uuid) (api_salt : Text) (reserved : List ℕ) where
    pub check_users-Distinct :
        (n : ℕ) (us : UserSets) (sets : TunnelSets) (users checked : List ServerUser)
        (sets' : TunnelSets) (m : ℕ)
        → check_users prims uuid api_salt reserved n us sets users ≡ ok (checked, sets', m)
        → All (GoodUser prims api_salt reserved) checked
          × DistinctUsers us checked
          × Distinct sets (all_tunnels checked)
          × (sets' ≡ mark_all sets (all_tunnels checked))
    unfolding check_users mark_user
    check_users-Distinct n us sets [] checked sets' m h =
        let e : checked ≡ [] = cc in
        rw e (
          tt,
          record { accounts = tt; ids = tt; secrets = tt },
          record { ids = tt; proxy_names = tt; public_ports = tt; backends = tt },
          cc,
        )
    check_users-Distinct n us sets (u ∷ rest) checked sets' m h =
        let user = (prepare_user prims uuid n u).0 in
        let (passed, h1) = >>-eq-ok (check_user prims api_salt us user) _ h in
        let ((tunnels, n1), normal, h2) =
          >>=-eq-ok
            (map_err tunnel_error
              (normalize_tunnels uuid (prepare_user prims uuid n u).1 user.tunnels))
            _ h1 in
        let ((named, sets1, n2), loop, h3) =
          >>=-eq-ok (check_tunnels prims uuid reserved n1 sets tunnels) _ h2 in
        let ((users, sets2, n3), others, last) =
          >>=-eq-ok (check_users prims uuid api_salt reserved n2 (mark_user us user) sets1 rest) _
            h3 in
        let (ready, same_length) =
          normalize_tunnels-AreNormal uuid source _ user.tunnels tunnels n1
            (map_err-eq-ok tunnel_error _ normal) in
        let (good, distinct, marked, len) =
          check_tunnels-Distinct reserved n1 sets tunnels named sets1 n2 loop
            (All-fields tunnels ready.each) in
        let (good_users, distinct_users, distinct_rest, marked_rest) =
          check_users-Distinct n2 (mark_user us user) sets1 rest users sets2 n3 others in
        let v = check_user-UserPassed prims api_salt us user passed in
        let e : checked ≡ record user { tunnels = named } ∷ users = cc last in
        rw e (
          (
            record {
              account_set = v.account_set;
              hash_set = v.hash_set;
              secret_size = v.secret_size;
              secret_alphanumeric = all-All _ _ v.secret_alphanumeric;
              limit_fits = v.limit_fits;
              tunnels_fit = omega (arith, v.tunnels_fit, same_length, len);
              tunnels_good = good;
            },
            good_users,
          ),
          record {
            accounts = (v.account_new, distinct_users.accounts);
            ids = (v.id_new, distinct_users.ids);
            secrets = (v.secret_new, distinct_users.secrets);
          },
          Distinct-append sets named (all_tunnels users) distinct (rw marked at distinct_rest),
          rw (mark_all-append sets named (all_tunnels users))
              (rw (← marked) (cc (last, marked_rest))),
        )

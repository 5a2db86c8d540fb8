-- ===== src/Config/Valid/Config.antt =====
-- The whole of `normalize_loaded_config`.
use orange_frp.Prelude.{
  ℕ, ◌≤◌, ◌<◌, ◌≡◌, refl, sym, ◌∙◌, subst, ◌≢◌, true, false, not, ◌||◌, some, List, [], map, arith,
  nat_beq, nat_eq, list_eq, pair_eq, Fresh, Fresh-Nodup, length, any, All, contains, count,
  count-absent, contains-count, count-pos, count-zero, any-false-contains, Nodup-count, ok, ok_or,
  >>=-eq-ok, >>-eq-ok, fail_if-eq-ok, ok_or-eq-ok, Text, is_empty, trim,
}
use orange_frp.Tunnel.{Tunnel}
use orange_frp.Tunnel.Normalize.{IsUuidSource}
use orange_frp.Crypto.{Primitives, Bytes}
use orange_frp.Config.{
  ServerConfig, ServerUser, reserved_ports, zero_port, port_clash, blank_bind, bad_salt,
  incomplete_auth, public_backend_clash,
}
use orange_frp.Config.Sort.{sort, IsSorted, sort-IsSorted, text_leb_total, All-sort}
use orange_frp.Config.Normalize.{
  TunnelSets, no_tunnels, no_users, public_key, account_leb, check_server, check_users,
  normalize_loaded_config,
}
use orange_frp.Config.Valid.{GoodUser, Distinct, all_tunnels, mark_all}
use orange_frp.Config.Valid.Users.{DistinctUsers, check_users-Distinct}
use orange_frp.Config.Valid.Views.{
  count-sort_tunnels, count-sort_users, numbers-mark_all, backends-mark_all,
}

pub record GoodServer (prims : Primitives) (c : ServerConfig) : Type 0 where
  pub api_port_set : 0 < c.api_port
  pub frps_port_set : 0 < c.frps_bind_port
  pub plugin_port_set : 0 < c.plugin_port
  pub api_frps : c.api_port ≢ c.frps_bind_port
  pub api_plugin : c.api_port ≢ c.plugin_port
  pub frps_plugin : c.frps_bind_port ≢ c.plugin_port
  pub api_bind_set : is_empty (trim c.api_bind) ≡ false
  pub public_bind_set : is_empty (trim c.public_bind) ≡ false
  pub salt : Bytes
  pub salt_read : prims.b64decode_engine c.api_salt ≡ some salt
  pub salt_size : length salt ≡ 32
  pub token_set : is_empty (trim c.frps_token) ≡ false
  pub binary_set : is_empty (trim c.frps_binary) ≡ false

-- Good users in the order of their accounts. No account, user, secret, tunnel, proxy name, public
-- port of a protocol or backend port occurs twice, and no public port is a backend port.
pub record IsValid (prims : Primitives) (c : ServerConfig) : Type 0 where
  pub server : GoodServer prims c
  pub users : All (GoodUser prims c.api_salt (reserved_ports c)) c.users
  pub sorted : IsSorted account_leb c.users
  pub accounts : (a : Text) → count a (map (λ u. u.account) c.users) ≤ 1
  pub user_ids : (a : Text) → count a (map (λ u. u.id) c.users) ≤ 1
  pub secrets : (a : Text) → count a (map (λ u. u.secret) c.users) ≤ 1
  pub tunnel_ids : (a : Text) → count a (map (λ t. t.id) (all_tunnels c.users)) ≤ 1
  pub proxy_names : (a : Text) → count a (map (λ t. t.proxy_name) (all_tunnels c.users)) ≤ 1
  pub public_ports : (a : Text × ℕ) → count a (map public_key (all_tunnels c.users)) ≤ 1
  pub backends : (a : ℕ) → count a (map (λ t. t.backend_port) (all_tunnels c.users)) ≤ 1
  pub disjoint :
      (p : ℕ)
      → contains (map (λ t. t.remote_port) (all_tunnels c.users)) p ≡ true
      → contains (map (λ t. t.backend_port) (all_tunnels c.users)) p ≡ false

check_server-GoodServer :
    (prims : Primitives) (c : ServerConfig) → check_server prims c ≡ ok tt → GoodServer prims c
unfolding check_server
check_server-GoodServer prims c h =
    let (a, h1) =
      fail_if-eq-ok (nat_beq c.api_port 0 || nat_beq c.frps_bind_port 0 || nat_beq c.plugin_port 0)
        zero_port _ h in
    let (b, h2) =
      fail_if-eq-ok
        (nat_beq c.api_port c.frps_bind_port
          || nat_beq c.api_port c.plugin_port
          || nat_beq c.frps_bind_port c.plugin_port)
        port_clash _ h1 in
    let (d, h3) =
      fail_if-eq-ok (is_empty (trim c.api_bind) || is_empty (trim c.public_bind)) blank_bind _ h2 in
    let (salt, s, h4) = >>=-eq-ok (ok_or (prims.b64decode_engine c.api_salt) bad_salt) _ h3 in
    let (f, h5) =
      fail_if-eq-ok
        (not (nat_beq (length salt) 32)
          || is_empty (trim c.frps_token)
          || is_empty (trim c.frps_binary))
        incomplete_auth _ h4 in
    record {
      api_port_set = ground arith;
      frps_port_set = ground arith;
      plugin_port_set = ground arith;
      api_frps = ground arith;
      api_plugin = ground arith;
      frps_plugin = ground arith;
      api_bind_set = ground arith;
      public_bind_set = ground arith;
      salt = salt;
      salt_read = ok_or-eq-ok _ _ s;
      salt_size = ground arith;
      token_set = ground arith;
      binary_set = ground arith;
    }

GoodServer-users :
    (prims : Primitives) (c : ServerConfig) (us : List ServerUser)
    → GoodServer prims c
    → GoodServer prims (record c { users = us })
GoodServer-users prims c us g = record {
  api_port_set = g.api_port_set;
  frps_port_set = g.frps_port_set;
  plugin_port_set = g.plugin_port_set;
  api_frps = g.api_frps;
  api_plugin = g.api_plugin;
  frps_plugin = g.frps_plugin;
  api_bind_set = g.api_bind_set;
  public_bind_set = g.public_bind_set;
  salt = g.salt;
  salt_read = g.salt_read;
  salt_size = g.salt_size;
  token_set = g.token_set;
  binary_set = g.binary_set;
}

-- What the last test says of the tunnels that filled the sets.
no_clash :
    (sets : TunnelSets) (ts : List Tunnel) (p : ℕ)
    → sets ≡ mark_all no_tunnels ts
    → any (contains sets.backend_ports) sets.public_port_numbers ≡ false
    → contains (map (λ t. t.remote_port) ts) p ≡ true
    → contains (map (λ t. t.backend_port) ts) p ≡ false
no_clash sets ts p e clear there =
    sym (backends-mark_all no_tunnels ts p)
    ∙ subst (λ s. contains s.backend_ports p ≡ false) e
        (any-false-contains (contains sets.backend_ports) sets.public_port_numbers p clear (
          subst (λ s. contains s.public_port_numbers p ≡ true) (sym e)
            (numbers-mark_all no_tunnels ts p ∙ there)))

-- The sorted users of a list that passed the loop and the last test.
sorted-IsValid :
    (prims : Primitives) (c : ServerConfig) (users : List ServerUser)
    → GoodServer prims c
    → All (GoodUser prims c.api_salt (reserved_ports c)) users
    → DistinctUsers no_users users
    → Distinct no_tunnels (all_tunnels users)
    → ((p : ℕ)
        → contains (map (λ t. t.remote_port) (all_tunnels users)) p ≡ true
        → contains (map (λ t. t.backend_port) (all_tunnels users)) p ≡ false)
    → IsValid prims (record c { users = sort account_leb users })
sorted-IsValid prims c users g good du dt apart =
    let once =
      λ (xs : List Text) (f : Fresh [] xs) (a : Text). Nodup-count a xs (Fresh-Nodup [] xs f) in
    record {
      server = GoodServer-users prims c _ g;
      users = All-sort account_leb _ users good;
      sorted = sort-IsSorted account_leb (λ u v. text_leb_total u.account v.account) users;
      accounts = λ a. rw (count-sort_users a (λ u. u.account) users) (once _ du.accounts a);
      user_ids = λ a. rw (count-sort_users a (λ u. u.id) users) (once _ du.ids a);
      secrets = λ a. rw (count-sort_users a (λ u. u.secret) users) (once _ du.secrets a);
      tunnel_ids = λ a. rw (count-sort_tunnels a (λ t. t.id) users) (once _ dt.ids a);
      proxy_names =
          λ a. rw (count-sort_tunnels a (λ t. t.proxy_name) users) (once _ dt.proxy_names a);
      public_ports = λ a.
          rw (count-sort_tunnels a public_key users)
            (Nodup-count a _ (Fresh-Nodup [] _ dt.public_ports));
      backends = λ a.
          rw (count-sort_tunnels a (λ t. t.backend_port) users)
            (Nodup-count a _ (Fresh-Nodup [] _ dt.backends));
      disjoint = λ p there. count-zero p _ (
          count-sort_tunnels p (λ t. t.backend_port) users
          ∙ count-absent p _ (
              apart p (
                count-pos p _ (
                  subst (λ n. 0 < n) (count-sort_tunnels p (λ t. t.remote_port) users)
                    (contains-count p _ there)))));
    }

-- An accepted configuration is valid, and only its users have changed.
pub normalize_loaded_config-IsValid :
    (prims : Primitives) (uuid : ℕ → Text)
    → IsUuidSource uuid
    → (n : ℕ) (c c' : ServerConfig) (m : ℕ) → normalize_loaded_config prims uuid n c ≡ ok (c', m)
    → IsValid prims c' × (c' ≡ record c { users = c'.users })
unfolding normalize_loaded_config
normalize_loaded_config-IsValid prims uuid source n c c' m h =
    let (checked, h1) = >>-eq-ok (check_server prims c) _ h in
    let ((users, sets, n1), loop, h2) =
      >>=-eq-ok (check_users prims uuid c.api_salt (reserved_ports c) n no_users no_tunnels c.users)
        _ h1 in
    let (apart, last) =
      fail_if-eq-ok (any (contains sets.backend_ports) sets.public_port_numbers)
        public_backend_clash _ h2 in
    let (good, du, dt, marked) =
      check_users-Distinct prims uuid source c.api_salt (reserved_ports c) n no_users no_tunnels
        c.users users sets n1 loop in
    let e : c' ≡ record c { users = sort account_leb users } = cc last in
    rw e (
      sorted-IsValid prims c users (check_server-GoodServer prims c checked) good du dt
          (λ p there. no_clash sets (all_tunnels users) p marked apart there),
      refl,
    )

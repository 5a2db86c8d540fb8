-- ===== src/Api/Plugin.antt =====
-- What the FRPS plugin lets through.
use orange_frp.Prelude.{
  ℕ, zero, suc, ◌<◌, ◌≡◌, refl, sym, subst, ◌↔◌, ◌⊎◌, inl, inr, Bool, true, false, not, ◌||◌, some,
  List, [], ◌∷◌, ◌++◌, arith, if◌then◌else◌, nat_beq_iff, Bool-cases, Option-cases, ◌==◌, nat_eq,
  list_eq, list_beq_iff, pair_eq, get_elem?, take, any, find, All, Text, codes, to_ascii_uppercase,
}
use orange_frp.Utf8.{IsScalar}
use orange_frp.Tunnel.{Tunnel}
use orange_frp.Crypto.{Bytes}
use orange_frp.Config.{ServerConfig, ServerUser}
use orange_frp.Api.Equal.{IsCtEq, secure_equal_iff}
use orange_frp.Api.{
  reject, unchanged, secure_equal, traffic_summary, is_registered, user_by_account,
  plugin_proxy_response,
}

-- The first user of the account, whose secret was given and who has no quota or some of it left.
pub record IsAuthorized (config : ServerConfig) (account secret : Text) (user : ServerUser)
    : Type 0 where
  pub index : ℕ
  pub at : get_elem? config.users index ≡ some user
  pub has_account : user.account ≡ account
  pub first : any (λ u. u.account == account) (take index config.users) ≡ false
  pub knows_secret : secret ≡ user.secret
  pub has_quota :
      (user.traffic_limit_bytes ≡ 0) ⊎ (user.traffic_used_bytes < user.traffic_limit_bytes)

-- A tunnel of the user that a proxy of FRPS stands for.
pub record IsProxyOf (user : ServerUser) (account proxy_name proxy_type : Text) (port : ℕ)
    (t : Tunnel) : Type 0 where
  pub index : ℕ
  pub at : get_elem? user.tunnels index ≡ some t
  pub named : (proxy_name ≡ t.proxy_name) ⊎ (proxy_name ≡ account ++ (codes "." ++ t.proxy_name))
  pub speaks : to_ascii_uppercase t.protocol ≡ to_ascii_uppercase proxy_type
  pub serves : t.backend_port ≡ port

module _ {ℓ} {A : Type ℓ} (p : A → Bool) where
  find-first :
      (xs : List A) (x : A)
      → find p xs ≡ some x
      → (i : ℕ) × (get_elem? xs i ≡ some x) × (p x ≡ true) × (any p (take i xs) ≡ false)
  find-first [] x h = absurd (cc h)
  find-first (y ∷ xs) x h = elim (Bool-cases (p y)) [
    | inl passes ↦
        let e : some y ≡ some x = rw passes at h in
        let same : y ≡ x = cc e in (0, e, subst (λ z. p z ≡ true) same passes, refl)
    | inr fails ↦
        let (i, at, good, none_before) = find-first xs x (rw fails at h) in
        (suc i, at, good, rw fails none_before)
  ]

  first-find :
      (xs : List A) (i : ℕ) (x : A)
      → get_elem? xs i ≡ some x
      → p x ≡ true
      → any p (take i xs) ≡ false
      → find p xs ≡ some x
  first-find [] i x at good none_before = absurd (cc at)
  first-find (y ∷ xs) zero x at good none_before =
      let same : y ≡ x = cc at in rw same (rw good refl)
  first-find (y ∷ xs) (suc i) x at good none_before = elim (Bool-cases (p y)) [
    | inl early ↦ absurd (cc (rw early at none_before))
    | inr late ↦ rw late (first-find xs i x at good (rw late at none_before))
  ]

exhausted-false_iff :
    (user : ServerUser)
    → ((traffic_summary user).exhausted ≡ false)
      ↔ ((user.traffic_limit_bytes ≡ 0) ⊎ (user.traffic_used_bytes < user.traffic_limit_bytes))
unfolding traffic_summary
exhausted-false_iff user = ground arith

let_through :
    (a b c : Bool) (x y : Text)
    → (if not a || b then reject x else (if not c then reject y else unchanged)) ≡ unchanged
    → (a ≡ true) × (b ≡ false) × (c ≡ true)
let_through false b c x y h = absurd cc
let_through true true c x y h = absurd cc
let_through true false false x y h = absurd cc
let_through true false true x y h = (refl, refl, refl)

-- An element of a list that passes a test.
abbrev pub Passing {ℓ} : {A : Type ℓ} → (A → Bool) → List A → Type ℓ
Passing {A = A} p xs = (i : ℕ) × (x : A) × (get_elem? xs i ≡ some x) × (p x ≡ true)

any-Passing {ℓ} : {A : Type ℓ} (p : A → Bool) (xs : List A) → any p xs ≡ true → Passing p xs
any-Passing p [] h = absurd (ground arith)
any-Passing p (x ∷ xs) h = elim (Bool-cases (p x)) [
  | inl passes ↦ (0, x, refl, passes)
  | inr fails ↦
      let (i, y, here, passes) = any-Passing p xs (ground arith) in (suc i, y, here, passes)
]

Passing-any {ℓ} :
    {A : Type ℓ} (p : A → Bool) (xs : List A) (i : ℕ) (x : A)
    → get_elem? xs i ≡ some x
    → p x ≡ true
    → any p xs ≡ true
Passing-any p [] i x here passes = absurd cc
Passing-any p (y ∷ xs) zero x here passes =
    let same : x ≡ y = cc here in rw (subst (λ z. p z ≡ true) same passes) refl
Passing-any p (y ∷ xs) (suc i) x here passes = ground (arith, Passing-any p xs i x here passes)

All-get_elem? {ℓ κ} :
    {A : Type ℓ} (P : A → Type κ) (xs : List A) (i : ℕ) (x : A)
    → All P xs
    → get_elem? xs i ≡ some x
    → P x
All-get_elem? P [] i x a at = absurd (cc at)
All-get_elem? P (y ∷ xs) zero x a at = let same : y ≡ x = cc at in subst P same a.0
All-get_elem? P (y ∷ xs) (suc i) x a at = All-get_elem? P xs i x a.1 at

is_registered_iff :
    (user : ServerUser) (account proxy_name proxy_type : Text) (port : ℕ)
    → (any (is_registered account proxy_name proxy_type port) user.tunnels ≡ true)
      ↔ ((t : Tunnel) × IsProxyOf user account proxy_name proxy_type port t)
unfolding is_registered
is_registered_iff user account proxy_name proxy_type port = (forward, backward)
  where
    full : Tunnel → Text
    full t = account ++ (codes "." ++ t.proxy_name)

    forward :
        any (is_registered account proxy_name proxy_type port) user.tunnels ≡ true
        → (t : Tunnel) × IsProxyOf user account proxy_name proxy_type port t
    forward h =
        let (i, t, at, passes) = any-Passing _ user.tunnels h in
        (
          t,
          record {
            index = i;
            at = at;
            named = elim (Bool-cases (t.proxy_name == proxy_name)) [
              | inl bare ↦ inl (sym ((list_beq_iff t.proxy_name proxy_name).0 bare))
              | inr other ↦ inr (sym ((list_beq_iff (full t) proxy_name).0 (ground arith)))
            ];
            speaks =
                (list_beq_iff (to_ascii_uppercase t.protocol) (to_ascii_uppercase proxy_type)).0
                  (ground arith);
            serves = ground (arith, nat_beq_iff t.backend_port port);
          },
        )

    backward :
        ((t : Tunnel) × IsProxyOf user account proxy_name proxy_type port t)
        → any (is_registered account proxy_name proxy_type port) user.tunnels ≡ true
    backward (t, v) =
        let same_type =
          (list_beq_iff (to_ascii_uppercase t.protocol) (to_ascii_uppercase proxy_type)).1
            v.speaks in
        let same_port = (nat_beq_iff t.backend_port port).1 v.serves in
        Passing-any (is_registered account proxy_name proxy_type port) user.tunnels v.index t v.at
          (elim v.named [
            | inl bare ↦
                let same = (list_beq_iff t.proxy_name proxy_name).1 (sym bare) in ground arith
            | inr long ↦ let same = (list_beq_iff (full t) proxy_name).1 (sym long) in ground arith
          ])

-- FRPS may open a proxy just when the first user of the account has the secret that was given and
-- no quota or some of it left, and a tunnel of that user has the proxy's name, bare or behind the
-- account, its protocol in any case of letters, and the proxy's port as its backend port. All
-- secrets consist of Unicode scalar values.
pub plugin_proxy_response_iff :
    (ct_eq : Bytes → Bytes → Bool) (config : ServerConfig)
    (account secret proxy_name proxy_type : Text) (remote_port : ℕ)
    → IsCtEq ct_eq
    → All IsScalar secret
    → All (λ u. All IsScalar u.secret) config.users
    → (plugin_proxy_response ct_eq config account secret proxy_name proxy_type remote_port
        ≡ unchanged)
      ↔ ((user : ServerUser) × IsAuthorized config account secret user
          × ((t : Tunnel) × IsProxyOf user account proxy_name proxy_type remote_port t))
unfolding plugin_proxy_response
plugin_proxy_response_iff ct_eq config account secret proxy_name proxy_type remote_port exact scalar
      scalars =
    (forward, backward)
  where
    same_secret :
        (i : ℕ) (user : ServerUser)
        → get_elem? config.users i ≡ some user
        → (secure_equal ct_eq secret user.secret ≡ true) ↔ (secret ≡ user.secret)
    same_secret i user at =
        secure_equal_iff ct_eq secret user.secret exact scalar
          (All-get_elem? (λ u. All IsScalar u.secret) config.users i user scalars at)

    forward :
        plugin_proxy_response ct_eq config account secret proxy_name proxy_type remote_port
          ≡ unchanged
        → (user : ServerUser) × IsAuthorized config account secret user
          × ((t : Tunnel) × IsProxyOf user account proxy_name proxy_type remote_port t)
    forward h = elim (Option-cases (user_by_account account config.users)) [
      | inl absent ↦ absurd (cc (rw (absent, plugin_proxy_response) at h))
      | inr (user, found) ↦
          let (a, b, c) = let_through _ _ _ _ _ (rw (found, plugin_proxy_response) at h) in
          let (i, at, mine, before) =
            find-first (λ u. u.account == account) config.users user found in
          (
            user,
            record {
              index = i;
              at = at;
              has_account = (list_beq_iff user.account account).0 mine;
              first = before;
              knows_secret = (same_secret i user at).0 a;
              has_quota = (exhausted-false_iff user).0 b;
            },
            (is_registered_iff user account proxy_name proxy_type remote_port).0 c,
          )
    ]

    backward :
        ((user : ServerUser) × IsAuthorized config account secret user
          × ((t : Tunnel) × IsProxyOf user account proxy_name proxy_type remote_port t))
        → plugin_proxy_response ct_eq config account secret proxy_name proxy_type remote_port
          ≡ unchanged
    backward (user, v, proxy) =
        let known : user_by_account account config.users ≡ some user =
          first-find (λ u. u.account == account) config.users v.index user v.at
            ((list_beq_iff user.account account).1 v.has_account) v.first in
        rw (known, plugin_proxy_response)
          (rw ((same_secret v.index user v.at).1 v.knows_secret) (
            rw ((exhausted-false_iff user).1 v.has_quota) (
              rw ((is_registered_iff user account proxy_name proxy_type remote_port).1 proxy)
                refl)))

-- ===== src/Tunnel/Normalize.antt =====
-- What `normalize_tunnels` establishes, and on which lists it changes nothing.
use orange_frp.Prelude.{
  ℕ, suc, ◌≡◌, refl, ap, ◌⊎◌, inl, inr, true, false, List, [], ◌∷◌, map, arith, Bool-cases, nat_eq,
  list_eq, pair_eq, Fresh, Fresh-Nodup, Fresh-nil_iff, length, take, All, Nodup, ok, >>=-eq-ok,
  >>-eq-ok, fail_if-eq-ok, Text, is_empty, is_whitespace, is_ascii_alphanumeric, to_ascii_uppercase,
  trim,
}
use orange_frp.Tunnel.{
  Tunnel, tcp, udp, check_fields, prepare, with_id, with_proxy_name, trimmed, normalize_from,
  normalize_tunnels, proxy_name_for, cleaned, new_tunnel_id,
}
use orange_frp.Tunnel.Checks.{HasFields, check_fields-HasFields, HasFields-check_fields}
use orange_frp.Tunnel.Trim.{trim_idem, trim-cons, alphanumeric_not_space}

-- `Uuid::simple`: 32 hexadecimal digits.
pub record IsUuidSource (uuid : ℕ → Text) : Type 0 where
  pub sized : (n : ℕ) → length (uuid n) ≡ 32
  pub digits : (n : ℕ) → All (λ c. is_ascii_alphanumeric c ≡ true) (uuid n)

-- A tunnel as it leaves the normalisation.
pub record IsNormal (t : Tunnel) : Type 0 where
  pub fields : HasFields t
  pub name_trimmed : trim t.name ≡ t.name
  pub remark_trimmed : trim t.remark ≡ t.remark
  pub ip_trimmed : trim t.local_ip ≡ t.local_ip
  pub id_set : is_empty (trim t.id) ≡ false
  pub proxy_name_set : is_empty (trim t.proxy_name) ≡ false

abbrev pub remote_key : Tunnel → Text × ℕ
remote_key t = (t.protocol, t.remote_port)

-- Normal tunnels, whose names differ and whose remote ports differ for each protocol.
pub record AreNormal (ts : List Tunnel) : Type 0 where
  pub each : All IsNormal ts
  pub names : Nodup (map (λ t. t.name) ts)
  pub remote_ports : Nodup (map remote_key ts)

take-cons_not_blank :
    (s : Text)
    → length s ≡ 32
    → All (λ c. is_ascii_alphanumeric c ≡ true) s
    → is_empty (trim (take 12 s)) ≡ false
take-cons_not_blank [] e a = absurd (omega arith)
take-cons_not_blank (c ∷ s) e a = trim-cons c (take 11 s) (alphanumeric_not_space c a.0)

transport-fixed : (s : Text) → (s ≡ tcp) ⊎ (s ≡ udp) → to_ascii_uppercase (trim s) ≡ s
unfolding to_ascii_uppercase trim
transport-fixed s (inl e) = rw e
transport-fixed s (inr e) = rw e

trimmed-fixed : (t : Tunnel) → IsNormal t → trimmed t ≡ t
unfolding trimmed
trimmed-fixed t v =
    cc (
      v.name_trimmed,
      v.remark_trimmed,
      v.ip_trimmed,
      transport-fixed t.protocol v.fields.transport,
    )

module _ (uuid : ℕ → Text) where
  with_id-fixed : (n : ℕ) (t : Tunnel) → is_empty (trim t.id) ≡ false → with_id uuid n t ≡ (t, n)
  unfolding with_id
  with_id-fixed n t h = rw h

  with_proxy_name-fixed :
      (n : ℕ) (t : Tunnel)
      → is_empty (trim t.proxy_name) ≡ false
      → with_proxy_name uuid n t ≡ (t, n)
  unfolding with_proxy_name
  with_proxy_name-fixed n t h = rw h

  prepare-fixed : (n : ℕ) (t : Tunnel) → IsNormal t → prepare uuid n t ≡ (t, n)
  unfolding prepare
  prepare-fixed n t v =
      rw (trimmed-fixed t v)
        (rw (with_id-fixed n t v.id_set) (with_proxy_name-fixed n t v.proxy_name_set))

  fixed_from :
      (n : ℕ) (names : List Text) (ports : List (Text × ℕ)) (ts : List Tunnel)
      → All IsNormal ts
      → Fresh names (map (λ t. t.name) ts)
      → Fresh ports (map remote_key ts)
      → normalize_from uuid n names ports ts ≡ ok (ts, n)
  unfolding normalize_from
  fixed_from n names ports [] a f g = refl
  fixed_from n names ports (t ∷ ts) a f g = rw (prepare-fixed n t a.0) (
      rw (HasFields-check_fields t a.0.fields) (
        rw (f.0)
          (rw (g.0) (rw (fixed_from n (t.name ∷ names) (remote_key t ∷ ports) ts a.1 f.1 g.1)))))

  -- A list of normal tunnels is accepted, and comes back as it is.
  pub normalize_tunnels-fixed :
      (n : ℕ) (ts : List Tunnel) → AreNormal ts → normalize_tunnels uuid n ts ≡ ok (ts, n)
  unfolding normalize_tunnels
  normalize_tunnels-fixed n ts v =
      fixed_from n [] [] ts v.each ((Fresh-nil_iff _).1 v.names)
        ((Fresh-nil_iff _).1 v.remote_ports)

  module _ (source : IsUuidSource uuid) where
    fresh_not_blank : (n : ℕ) → is_empty (trim (new_tunnel_id uuid n)) ≡ false
    fresh_not_blank n = take-cons_not_blank (uuid n) (source.sized n) (source.digits n)

    with_id-set : (n : ℕ) (t : Tunnel) → is_empty (trim (with_id uuid n t).0.id) ≡ false
    unfolding with_id
    with_id-set n t = elim (Bool-cases (is_empty (trim t.id))) [
      | inl blank ↦ rw blank (fresh_not_blank n)
      | inr set ↦ rw set set
    ]

    proxy_name_for-set : (n : ℕ) (s : Text) → is_empty (trim (proxy_name_for uuid n s).0) ≡ false
    unfolding proxy_name_for
    proxy_name_for-set n s = elim (Bool-cases (is_empty (cleaned s))) [
      | inl blank ↦ rw blank (trim-cons b'f' _ (unfold is_whitespace in refl))
      | inr set ↦ rw set (trim-cons b'f' _ (unfold is_whitespace in refl))
    ]

    with_proxy_name-set :
        (n : ℕ) (t : Tunnel) → is_empty (trim (with_proxy_name uuid n t).0.proxy_name) ≡ false
    unfolding with_proxy_name
    with_proxy_name-set n t = elim (Bool-cases (is_empty (trim t.proxy_name))) [
      | inl blank ↦ rw blank (proxy_name_for-set n t.id)
      | inr set ↦ rw set set
    ]

    -- Neither step that fills in a name changes a checked field.
    record SameFields (t u : Tunnel) : Type 0 where
      name : u.name ≡ t.name
      remark : u.remark ≡ t.remark
      local_ip : u.local_ip ≡ t.local_ip

    with_id-SameFields : (n : ℕ) (t : Tunnel) → SameFields t (with_id uuid n t).0
    unfolding with_id
    with_id-SameFields n t = ground arith

    with_proxy_name-SameFields : (n : ℕ) (t : Tunnel) → SameFields t (with_proxy_name uuid n t).0
    unfolding with_proxy_name
    with_proxy_name-SameFields n t = ground arith

    with_proxy_name-id : (n : ℕ) (t : Tunnel) → (with_proxy_name uuid n t).0.id ≡ t.id
    unfolding with_proxy_name
    with_proxy_name-id n t = ground arith

    prepare-IsNormal :
        (n : ℕ) (t : Tunnel)
        → check_fields (prepare uuid n t).0 ≡ ok tt
        → IsNormal (prepare uuid n t).0
    unfolding prepare trimmed
    prepare-IsNormal n t h =
        let given = with_id uuid n (trimmed t) in
        let a = with_id-SameFields n (trimmed t) in
        let b = with_proxy_name-SameFields given.1 given.0 in
        record {
          fields = check_fields-HasFields _ h;
          name_trimmed = rw (b.name, a.name) (trim_idem t.name);
          remark_trimmed = rw (b.remark, a.remark) (trim_idem t.remark);
          ip_trimmed = rw (b.local_ip, a.local_ip) (trim_idem t.local_ip);
          id_set = rw (with_proxy_name-id given.1 given.0) (with_id-set n (trimmed t));
          proxy_name_set = with_proxy_name-set given.1 given.0;
        }

    abbrev AtMostOnce : List Tunnel → List Text → List (Text × ℕ) → Type 0
    AtMostOnce us names ports =
        All IsNormal us × Fresh names (map (λ t. t.name) us) × Fresh ports (map remote_key us)

    normal_from :
        (n : ℕ) (names : List Text) (ports : List (Text × ℕ)) (ts us : List Tunnel) (m : ℕ)
        → normalize_from uuid n names ports ts ≡ ok (us, m)
        → AtMostOnce us names ports × (length us ≡ length ts)
    unfolding normalize_from
    normal_from n names ports [] us m h = let e : us ≡ [] = cc in rw e ((tt, tt, tt), refl)
    normal_from n names ports (t ∷ ts) us m h =
        let item = (prepare uuid n t).0 in
        let (checked, h1) = >>-eq-ok (check_fields item) _ h in
        let (name_new, h2) = fail_if-eq-ok _ _ _ h1 in
        let (port_new, h3) = fail_if-eq-ok _ _ _ h2 in
        let ((items, m'), rest, last) = >>=-eq-ok _ _ h3 in
        let (parts, len) =
          normal_from (prepare uuid n t).1 (item.name ∷ names) (remote_key item ∷ ports) ts items m'
            rest in
        let e : us ≡ item ∷ items = cc last in
        rw e (
          ((prepare-IsNormal n t checked, parts.0), (name_new, parts.1), (port_new, parts.2)),
          ap suc len,
        )

  -- An accepted list has as many tunnels as the request, and they are normal: good fields, nothing
  -- left to trim, no name twice and no remote port twice for a protocol.
  pub normalize_tunnels-AreNormal :
      IsUuidSource uuid
      → (n : ℕ) (ts us : List Tunnel) (m : ℕ) → normalize_tunnels uuid n ts ≡ ok (us, m)
      → AreNormal us × (length us ≡ length ts)
  unfolding normalize_tunnels
  normalize_tunnels-AreNormal source n ts us m h =
      let (parts, len) = normal_from source n [] [] ts us m h in
      (
        record {
          each = parts.0;
          names = Fresh-Nodup [] _ parts.1;
          remote_ports = Fresh-Nodup [] _ parts.2;
        },
        len,
      )

  -- Normalising an accepted list again changes nothing and takes no new identifier.
  pub normalize_tunnels_idem :
      IsUuidSource uuid
      → (n : ℕ) (ts us : List Tunnel) (m k : ℕ) → normalize_tunnels uuid n ts ≡ ok (us, m)
      → normalize_tunnels uuid k us ≡ ok (us, k)
  normalize_tunnels_idem source n ts us m k h =
      normalize_tunnels-fixed k us (normalize_tunnels-AreNormal source n ts us m h).0

-- ===== src/Api/Tunnels/Accepted.antt =====
-- What the loop of `normalize_user_tunnels` accepts.
use orange_frp.Prelude.{
  ℕ, ◌≤◌, ◌≡◌, refl, sym, ap, ◌∙◌, subst, ◌≢◌, ◌⊎◌, inl, inr, true, false, not, ◌&&◌, ◌||◌, none,
  some, List, [], ◌∷◌, map, arith, ltb, Option-cases, ◌==◌, nat_eq, beq_refl, list_eq, list_beq_iff,
  pair_eq, Fresh, contains-Fresh, all, All, contains, Nodup, lookup, Result, ok, >>=-eq-ok,
  fail_if-eq-ok, Text, byte_len,
}
use orange_frp.Tunnel.{Tunnel, proxy_name_for}
use orange_frp.Config.{
  Error, backend_port_start, backend_port_end, bad_tunnel_id, duplicate_tunnel, reserved_port,
  backend_clash, public_port_taken, proxy_name_taken,
}
use orange_frp.Config.Ports.{allocate_backend_port-first}
use orange_frp.Api.Tunnels.{is_id_char, check_others, backend_for, assign_backends, backends_of}

-- Another user's tunnel leaves the tunnel its public port and its proxy name.
abbrev pub IsApart : Tunnel → Tunnel → Type 0
IsApart t other =
    ((other.protocol == t.protocol && other.remote_port == t.remote_port) ≡ false)
    × ((other.proxy_name == t.proxy_name) ≡ false)

-- The backend port of a tunnel that had one, or one from the range that was not in use.
abbrev pub Backend : List (Text × ℕ) → List ℕ → Tunnel → Type 0
Backend existing used t =
    (lookup t.id existing ≡ some t.backend_port)
    ⊎ ((lookup t.id existing ≡ none)
        × (backend_port_start ≤ t.backend_port)
        × (t.backend_port ≤ backend_port_end)
        × (contains used t.backend_port ≡ false))

pub record Accepted (reserved backends : List ℕ) (others : List Tunnel) (t : Tunnel) : Type 0 where
  pub id_short : byte_len t.id ≤ 64
  pub id_chars : all is_id_char t.id ≡ true
  pub not_reserved : contains reserved t.remote_port ≡ false
  pub not_backend : contains backends t.remote_port ≡ false
  pub apart : All (IsApart t) others

-- The old ports are in use, and no two identifiers have the same one.
pub record AreKept (existing : List (Text × ℕ)) (used : List ℕ) : Type 0 where
  pub covered : (id : Text) (p : ℕ) → lookup id existing ≡ some p → contains used p ≡ true
  pub injective :
      (a b : Text) (p : ℕ) → lookup a existing ≡ some p → lookup b existing ≡ some p → a ≡ b

check_others-IsApart :
    (others : List Tunnel) (t : Tunnel) → check_others others t ≡ ok tt → All (IsApart t) others
unfolding check_others
check_others-IsApart [] t h = tt
check_others-IsApart (o ∷ others) t h =
    let (a, h1) =
      fail_if-eq-ok (o.protocol == t.protocol && o.remote_port == t.remote_port) public_port_taken _
        h in
    let (b, h2) = fail_if-eq-ok (o.proxy_name == t.proxy_name) proxy_name_taken _ h1 in
    ((a, b), check_others-IsApart others t h2)

abbrev ok_pair : ℕ → List ℕ → Result Error (ℕ × List ℕ)
ok_pair p used = ok (p, used)

-- The port that `backend_for` chooses, and the ports in use after it.
backend_for-cases :
    (existing : List (Text × ℕ)) (used : List ℕ) (id : Text) (port : ℕ) (used' : List ℕ)
    → backend_for existing used id ≡ ok (port, used')
    → ((lookup id existing ≡ some port) × (used' ≡ used))
      ⊎ ((lookup id existing ≡ none)
          × (backend_port_start ≤ port)
          × (port ≤ backend_port_end)
          × (contains used port ≡ false)
          × (used' ≡ port ∷ used))
unfolding backend_for
backend_for-cases existing used id port used' h = elim (Option-cases (lookup id existing)) [
  | inl absent ↦
      let (low, high, free, first, grown) =
        allocate_backend_port-first used port used' (rw (absent, backend_for) at h) in
      inr (absent, low, high, free, grown)
  | inr (p, found) ↦
      let kept : ok_pair p used ≡ ok_pair port used' = rw (found, backend_for) at h in
      let a : p ≡ port = cc kept in let b : used ≡ used' = cc kept in inl (found ∙ ap some a, sym b)
]

abbrev ok_list : List Tunnel → ℕ → Result Error (List Tunnel × ℕ)
ok_list ts n = ok (ts, n)

module _ (uuid : ℕ → Text) (reserved backends : List ℕ) (others : List Tunnel)
    (existing : List (Text × ℕ)) where
  weaken_ports :
      (p : ℕ) (used : List ℕ) (ts : List Tunnel)
      → All (Backend existing (p ∷ used)) ts
      → All (Backend existing used) ts
  weaken_ports p used [] a = tt
  weaken_ports p used (t ∷ ts) a = (
    elim a.0 [
      | inl old ↦ inl old
      | inr (none', low, high, free) ↦ inr (none', low, high, ground arith)
    ],
    weaken_ports p used ts a.1,
  )

  absent_old :
      (used : List ℕ) (id : Text) (p : ℕ) (ts : List Tunnel)
      → AreKept existing used
      → lookup id existing ≡ some p
      → contains (map (λ t. t.id) ts) id ≡ false
      → All (Backend existing used) ts
      → contains (backends_of ts) p ≡ false
  absent_old used id p [] kept old new_id a = refl
  absent_old used id p (t ∷ ts) kept old new_id a =
      ground (arith, differs, absent_old used id p ts kept old (ground arith) a.1)
    where
      differs : t.backend_port ≢ p
      differs e = elim a.0 [
        | inl old' ↦
            let same = kept.injective t.id id p (old' ∙ ap some e) old in
            absurd (ground (arith, new_id, list_beq_iff t.id id, same))
        | inr (none', low, high, free') ↦ absurd (ground (arith, kept.covered id p old, free', e))
      ]

  absent_new :
      (used : List ℕ) (p : ℕ) (ts : List Tunnel)
      → AreKept existing used
      → contains used p ≡ false
      → All (Backend existing (p ∷ used)) ts
      → contains (backends_of ts) p ≡ false
  absent_new used p [] kept free a = refl
  absent_new used p (t ∷ ts) kept free a =
      ground (arith, differs, absent_new used p ts kept free a.1)
    where
      differs : t.backend_port ≢ p
      differs e = elim a.0 [
        | inl old ↦ absurd (ground (arith, kept.covered t.id p (old ∙ ap some e), free))
        | inr (none', low, high, free') ↦ absurd (ground (arith, free', e))
      ]

  -- What holds of the tunnels that the loop returns.
  pub record Assigned (ids names : List Text) (used : List ℕ) (ts : List Tunnel) : Type 0 where
    pub each : All (Accepted reserved backends others) ts
    pub ports : All (Backend existing used) ts
    pub ids_fresh : Fresh ids (map (λ t. t.id) ts)
    pub names_fresh : Fresh names (map (λ t. t.proxy_name) ts)
    pub backends_distinct : Nodup (backends_of ts)

  here_in : (ids : List Text) (id : Text) → contains (id ∷ ids) id ≡ true
  here_in ids id = rw (beq_refl id) refl

  cons_kept :
      (ids names : List Text) (used : List ℕ) (t : Tunnel) (ts : List Tunnel)
      → AreKept existing used
      → Accepted reserved backends others t
      → contains ids t.id ≡ false
      → contains names t.proxy_name ≡ false
      → lookup t.id existing ≡ some t.backend_port
      → Assigned (t.id ∷ ids) (t.proxy_name ∷ names) used ts
      → Assigned ids names used (t ∷ ts)
  cons_kept ids names used t ts kept ok_one new_id new_name old a = record {
    each = (ok_one, a.each);
    ports = (inl old, a.ports);
    ids_fresh = (new_id, a.ids_fresh);
    names_fresh = (new_name, a.names_fresh);
    backends_distinct = (
      absent_old used t.id t.backend_port ts kept old
          (contains-Fresh (t.id ∷ ids) (map (λ u. u.id) ts) t.id a.ids_fresh (here_in ids t.id))
          a.ports,
      a.backends_distinct,
    );
  }

  cons_new :
      (ids names : List Text) (used : List ℕ) (t : Tunnel) (ts : List Tunnel)
      → AreKept existing used
      → Accepted reserved backends others t
      → contains ids t.id ≡ false
      → contains names t.proxy_name ≡ false
      → (lookup t.id existing ≡ none)
        × (backend_port_start ≤ t.backend_port)
        × (t.backend_port ≤ backend_port_end)
        × (contains used t.backend_port ≡ false)
      → Assigned (t.id ∷ ids) (t.proxy_name ∷ names) (t.backend_port ∷ used) ts
      → Assigned ids names used (t ∷ ts)
  cons_new ids names used t ts kept ok_one new_id new_name fresh a = record {
    each = (ok_one, a.each);
    ports = (inr fresh, weaken_ports t.backend_port used ts a.ports);
    ids_fresh = (new_id, a.ids_fresh);
    names_fresh = (new_name, a.names_fresh);
    backends_distinct =
        (absent_new used t.backend_port ts kept fresh.3 a.ports, a.backends_distinct);
  }

  AreKept-cons : (p : ℕ) (used : List ℕ) → AreKept existing used → AreKept existing (p ∷ used)
  AreKept-cons p used kept = record {
    covered = λ id q h. ground (arith, kept.covered id q h);
    injective = kept.injective;
  }

  pub assign_backends-Assigned :
      (n : ℕ) (ids names : List Text) (used : List ℕ) (ts ts' : List Tunnel) (n' : ℕ)
      → AreKept existing used
      → assign_backends uuid reserved backends others existing n ids names used ts ≡ ok (ts', n')
      → Assigned ids names used ts'
  unfolding assign_backends
  assign_backends-Assigned n ids names used [] ts' n' kept h =
      let e : [] ≡ ts' = cc h in
      subst (Assigned ids names used) e
        (record { each = tt; ports = tt; ids_fresh = tt; names_fresh = tt; backends_distinct = tt })
  assign_backends-Assigned n ids names used (t ∷ ts) ts' n' kept h =
      let named = record t { proxy_name = (proxy_name_for uuid n t.id).0 } in
      let (a, h1) =
        fail_if-eq-ok (ltb 64 (byte_len t.id) || not (all is_id_char t.id)) bad_tunnel_id _ h in
      let (b, h2) =
        fail_if-eq-ok (contains ids t.id || contains names named.proxy_name) duplicate_tunnel _
          h1 in
      let (c, h3) = fail_if-eq-ok (contains reserved t.remote_port) reserved_port _ h2 in
      let (d, h4) = fail_if-eq-ok (contains backends t.remote_port) backend_clash _ h3 in
      let (checked, e, h5) = >>=-eq-ok (check_others others named) _ h4 in
      let ((port, used'), f, h6) = >>=-eq-ok (backend_for existing used t.id) _ h5 in
      let ((rest, n''), g, h7) =
        >>=-eq-ok
          (assign_backends uuid reserved backends others existing (proxy_name_for uuid n t.id).1
            (t.id ∷ ids) (named.proxy_name ∷ names) used' ts)
          _ h6 in
      let last : ok_list (record named { backend_port = port } ∷ rest) n'' ≡ ok_list ts' n' = h7 in
      let same : record named { backend_port = port } ∷ rest ≡ ts' = cc last in
      let one : Accepted reserved backends others (record named { backend_port = port }) = record {
        id_short = ground arith;
        id_chars = ground arith;
        not_reserved = c;
        not_backend = d;
        apart = check_others-IsApart others named e;
      } in
      subst (Assigned ids names used) same
        (elim (backend_for-cases existing used t.id port used' f) [
          | inl (old, e') ↦
              cons_kept ids names used (record named { backend_port = port }) rest kept one
                (ground arith) (ground arith) old
                (subst (λ x. Assigned (t.id ∷ ids) (named.proxy_name ∷ names) x rest) e'
                  (assign_backends-Assigned (proxy_name_for uuid n t.id).1 (t.id ∷ ids)
                    (named.proxy_name ∷ names) used' ts rest n''
                    (subst (AreKept existing) (sym e') kept) g))
          | inr (absent, low, high, free, e') ↦
              cons_new ids names used (record named { backend_port = port }) rest kept one
                (ground arith) (ground arith) (absent, low, high, free)
                (subst (λ x. Assigned (t.id ∷ ids) (named.proxy_name ∷ names) x rest) e'
                  (assign_backends-Assigned (proxy_name_for uuid n t.id).1 (t.id ∷ ids)
                    (named.proxy_name ∷ names) used' ts rest n''
                    (subst (AreKept existing) (sym e') (AreKept-cons port used kept)) g))
        ])

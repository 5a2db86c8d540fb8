-- ===== src/Tunnel/Checks.antt =====
-- What the checks of one tunnel establish.
use orange_frp.Prelude.{
  ◌≤◌, ◌<◌, ◌≡◌, refl, ◌≢◌, ◌↔◌, ◌⊎◌, false, ◌||◌, [], ◌∷◌, ◌++◌, arith, nat_eq, list_eq,
  list_beq_iff, pair_eq, length, All, ok, Text, is_empty,
}
use orange_frp.Tunnel.{Tunnel, tcp, udp, check_fields, has_control}

-- A tunnel with the fields that the server accepts.
pub record HasFields (t : Tunnel) : Type 0 where
  pub transport : (t.protocol ≡ tcp) ⊎ (t.protocol ≡ udp)
  pub named : t.name ≢ []
  pub remarked : t.remark ≢ []
  pub placed : t.local_ip ≢ []
  pub name_fits : length t.name ≤ 64
  pub remark_fits : length t.remark ≤ 256
  pub ip_fits : length t.local_ip ≤ 255
  pub name_printable : All (λ c. 32 ≤ c) t.name
  pub remark_printable : All (λ c. 32 ≤ c) t.remark
  pub ip_printable : All (λ c. 32 ≤ c) t.local_ip
  pub local_port_set : 0 < t.local_port
  pub remote_port_set : 0 < t.remote_port

has_control-false : (s : Text) → has_control s ≡ false → All (λ c. 32 ≤ c) s
unfolding has_control
has_control-false [] h = tt
has_control-false (c ∷ s) h = (ground arith, has_control-false s (ground arith))

All-printable_has_control : (s : Text) → All (λ c. 32 ≤ c) s → has_control s ≡ false
unfolding has_control
All-printable_has_control [] h = refl
All-printable_has_control (c ∷ s) h = ground (arith, All-printable_has_control s h.1)

has_control-append : (s t : Text) → has_control (s ++ t) ≡ (has_control s || has_control t)
unfolding has_control
has_control-append [] t = refl
has_control-append (c ∷ s) t = ground (arith, has_control-append s t)

has_control_fields :
    (s t u : Text)
    → (has_control (s ++ (t ++ u)) ≡ false)
      ↔ ((has_control s ≡ false) × (has_control t ≡ false) × (has_control u ≡ false))
has_control_fields s t u = ground (arith, has_control-append s (t ++ u), has_control-append t u)

is_empty_iff : (s : Text) → (is_empty s ≡ false) ↔ (s ≢ [])
is_empty_iff [] = ground arith
is_empty_iff (c ∷ s) = ((λ h e. cc e), λ h. refl)

module _ (t : Tunnel) where
  no_control : check_fields t ≡ ok tt → has_control (t.name ++ (t.remark ++ t.local_ip)) ≡ false
  unfolding check_fields
  no_control h = ground arith

  -- An accepted tunnel has good fields.
  pub check_fields-HasFields : check_fields t ≡ ok tt → HasFields t
  unfolding check_fields
  check_fields-HasFields h =
      let clean = (has_control_fields t.name t.remark t.local_ip).0 (no_control h) in
      record {
        transport = ground (arith, list_beq_iff t.protocol tcp, list_beq_iff t.protocol udp);
        named = (is_empty_iff t.name).0 (ground arith);
        remarked = (is_empty_iff t.remark).0 (ground arith);
        placed = (is_empty_iff t.local_ip).0 (ground arith);
        name_fits = ground arith;
        remark_fits = ground arith;
        ip_fits = ground arith;
        name_printable = has_control-false t.name clean.0;
        remark_printable = has_control-false t.remark clean.1;
        ip_printable = has_control-false t.local_ip clean.2;
        local_port_set = ground arith;
        remote_port_set = ground arith;
      }

  pub HasFields-check_fields : HasFields t → check_fields t ≡ ok tt
  unfolding check_fields
  HasFields-check_fields v = ground (
    arith,
    (has_control_fields t.name t.remark t.local_ip).1 (
      All-printable_has_control t.name v.name_printable,
      All-printable_has_control t.remark v.remark_printable,
      All-printable_has_control t.local_ip v.ip_printable,
    ),
    list_beq_iff t.protocol tcp,
    list_beq_iff t.protocol udp,
    (is_empty_iff t.name).1 v.named,
    (is_empty_iff t.remark).1 v.remarked,
    (is_empty_iff t.local_ip).1 v.placed,
  )

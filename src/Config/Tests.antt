-- ===== src/Config/Tests.antt =====
-- The configuration's checks and the allocation of ports at concrete inputs.
use orange_frp.Prelude.{ℕ, ◌≡◌, refl, List, [], ◌∷◌, arith, nat_eq, list_eq, pair_eq, ok}
use orange_frp.Config.{allocate_backend_port, allocate_from}
use orange_frp.Config.Valid.Config.{IsValid, normalize_loaded_config-IsValid}
use orange_frp.Config.Ports.{allocate_backend_port_total}
use orange_frp.Samples.{
  sample_prims, sample_uuid, sample_uuid-IsUuidSource, sample_config, sample_config_normal,
}

normalize_loaded_config-IsValid_example :
    IsValid sample_prims sample_config
    × (sample_config ≡ record sample_config { users = sample_config.users })
normalize_loaded_config-IsValid_example =
    normalize_loaded_config-IsValid sample_prims sample_uuid sample_uuid-IsUuidSource 0
      sample_config sample_config 0 sample_config_normal

abbrev two_used : List ℕ
two_used = 20001 ∷ 20000 ∷ []

allocate_third : allocate_backend_port two_used ≡ ok (20002, 20002 ∷ two_used)
unfolding allocate_backend_port allocate_from
allocate_third = refl

allocate_backend_port_total_example :
    (port : ℕ) × (allocate_backend_port (7 ∷ []) ≡ ok (port, port ∷ 7 ∷ []))
allocate_backend_port_total_example = allocate_backend_port_total (7 ∷ []) (omega arith)

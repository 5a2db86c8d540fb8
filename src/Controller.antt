-- ===== src/Controller.antt =====
-- `TrafficController` of server-package/crates/frp-game-server/src/controller.rs: the tasks that
-- listen on the public ports, and the gates of the users. A task's handle and token are its number
-- among the tasks started so far; whether a socket can be bound is an argument. The order of a map
-- is that of its list.
pub mod Specs
pub mod Tasks
pub mod Start
pub mod Reconcile
pub mod Outcome
pub mod Gates
pub mod Copy
pub mod Datagrams
pub mod Listeners
pub mod Tests
use orange_frp.Prelude.{
  ℕ, ◌+◌, ◌≡◌, ◌↔◌, Bool, true, false, ◌&&◌, ◌||◌, none, some, List, [], ◌∷◌, ◌++◌, map, arith,
  if◌then◌else◌, Eq, ◌==◌, nat_eq, list_eq, list_beq_iff, pair_eq, retain, contains, lookup, insert,
  contains_key, Result, ok, err, ◌>>=◌, ◌>>◌, ok_or, Text,
}
use orange_frp.Tunnel.{Tunnel, tcp, udp}
use orange_frp.Config.{
  ServerConfig, ServerUser, Error, unreachable_protocol, no_such_gate, bind_failed,
}
use orange_frp.Floats.{Float}
use orange_frp.Gate.{GateState, new_gate, update_limits}

pub record TunnelSpec : Type 0 where
  pub user_id : Text
  pub proxy_name : Text
  pub protocol : Text
  pub public_bind : Text
  pub public_port : ℕ
  pub backend_port : ℕ

abbrev pub spec_beq : TunnelSpec → TunnelSpec → Bool
spec_beq s t =
    s.user_id == t.user_id
    && s.proxy_name == t.proxy_name
    && s.protocol == t.protocol
    && s.public_bind == t.public_bind
    && s.public_port == t.public_port
    && s.backend_port == t.backend_port

pub spec_beq_iff : (s t : TunnelSpec) → (spec_beq s t ≡ true) ↔ (s ≡ t)
spec_beq_iff s t = ground (
  arith,
  list_beq_iff s.user_id t.user_id,
  list_beq_iff s.proxy_name t.proxy_name,
  list_beq_iff s.protocol t.protocol,
  list_beq_iff s.public_bind t.public_bind,
)

-- `derive(PartialEq, Eq)`.
instance abbrev pub spec_eq : Eq TunnelSpec
spec_eq = record { beq = spec_beq; beq_iff = spec_beq_iff }

pub record ControllerTask : Type 0 where
  pub spec : TunnelSpec
  pub handle : ℕ

abbrev pub Tasks : Type 0
Tasks = List (Text × ControllerTask)

abbrev pub Specs : Type 0
Specs = List (Text × TunnelSpec)

pub record TrafficController (F : Type 0) : Type 0 where
  pub tasks : Tasks
  pub gates : List (Text × GateState F)
  pub spawned : ℕ

unfoldable pub tunnel_spec : Text → ServerUser → Tunnel → TunnelSpec
tunnel_spec public_bind user tunnel = record {
  user_id = user.id;
  proxy_name = tunnel.proxy_name;
  protocol = tunnel.protocol;
  public_bind = public_bind;
  public_port = tunnel.remote_port;
  backend_port = tunnel.backend_port;
}

-- `flat_map` over the users and their tunnels.
unfoldable pub all_specs : Text → List ServerUser → List TunnelSpec
all_specs public_bind [] = []
all_specs public_bind (user ∷ users) =
    map (tunnel_spec public_bind user) user.tunnels ++ all_specs public_bind users

-- `collect::<HashMap<_, _>>()`: a later entry replaces an earlier one.
unfoldable pub collect : List TunnelSpec → Specs → Specs
collect [] m = m
collect (spec ∷ specs) m = collect specs (insert spec.proxy_name spec m)

unfoldable pub desired : ServerConfig → Specs
unfolding all_specs collect
desired config = collect (all_specs config.public_bind config.users) []

unfoldable pub keep : Specs → Text × ControllerTask → Bool
keep specs (key, task) = elim (lookup key specs) [ none ↦ false | some spec ↦ task.spec == spec ]

-- The loop over the tasks that stops what is not kept.
unfoldable pub stop_tasks : Specs → Tasks → Tasks
unfolding keep
stop_tasks specs tasks = retain (keep specs) tasks

module _ (fl : Float) where
  open fl use {F}

  abbrev pub fresh_gate : ℕ → ServerUser → GateState F
  fresh_gate now user =
      new_gate fl now user.traffic_limit_bytes user.traffic_used_bytes user.speed_limit_mbps

  -- `TrafficController::new`.
  unfoldable pub new : ℕ → ServerConfig → TrafficController F
  new now config = record {
    tasks = [];
    gates = map (λ user. (user.id, fresh_gate now user)) config.users;
    spawned = 0;
  }

  -- The user's turn of the loop of `reconcile_gates`.
  unfoldable pub update_gate :
      ℕ → ServerUser → List (Text × GateState F) → List (Text × GateState F)
  update_gate now user gates = elim (lookup user.id gates) [
    | none ↦ insert user.id (fresh_gate now user) gates
    | some gate ↦
        insert user.id (update_limits fl now user.traffic_limit_bytes user.speed_limit_mbps gate)
          gates
  ]

  unfoldable pub update_gates :
      ℕ → List ServerUser → List (Text × GateState F) → List (Text × GateState F)
  unfolding update_gate
  update_gates now [] gates = gates
  update_gates now (user ∷ users) gates = update_gates now users (update_gate now user gates)

  unfoldable pub reconcile_gates :
      ℕ → ServerConfig → List (Text × GateState F) → List (Text × GateState F)
  unfolding update_gates
  reconcile_gates now config gates =
      update_gates now config.users
        (retain (λ entry. contains (map (λ user. user.id) config.users) entry.0) gates)

  module _ (bind : ℕ → TunnelSpec → Bool) where
    -- `start_task`, which panics on another protocol.
    unfoldable pub start_task : ℕ → TunnelSpec → Result Error ControllerTask
    start_task spawned spec =
        if spec.protocol == tcp || spec.protocol == udp
        then (if bind spawned spec
            then ok (record { spec = spec; handle = spawned })
            else err bind_failed)
        else err unreachable_protocol

    -- The task for one entry: nothing if the key has a task.
    unfoldable pub start_one :
        TrafficController F → Text → TunnelSpec → Result Error (TrafficController F)
    unfolding start_task
    start_one c key spec = if contains_key key c.tasks then ok c else do
      gate ← ok_or (lookup spec.user_id c.gates) no_such_gate
      task ← start_task c.spawned spec
      ok (record c { tasks = insert key task c.tasks; spawned = c.spawned + 1 })

    -- The controller that the loop leaves behind, and its result.
    unfoldable pub start_missing :
        Specs → TrafficController F → TrafficController F × Result Error (Unit {0})
    unfolding start_one
    start_missing [] c = (c, ok tt)
    start_missing ((key, spec) ∷ specs) c = elim (start_one c key spec) [
      | err e ↦ (c, err e)
      | ok c' ↦ start_missing specs c'
    ]

    unfoldable pub reconcile :
        ℕ → ServerConfig → TrafficController F → TrafficController F × Result Error (Unit {0})
    unfolding start_missing desired stop_tasks
    reconcile now config c = start_missing (desired config) (record c {
      tasks = stop_tasks (desired config) c.tasks;
      gates = reconcile_gates now config c.gates;
    })

  unfoldable pub shutdown : TrafficController F → TrafficController F
  shutdown c = record c { tasks = [] }

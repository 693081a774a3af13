-- ===== src/Nodes.antt =====
-- orchestrator/node_registry.py: `NodeInfo` and `NodeRegistry`. A method takes the reading of the
-- injected clock as an argument, since the source reads it before it takes the lock; what follows
-- under the lock is one step. Times are in whole units of the clock, and never negative.
pub mod Freshness
pub mod Order
pub mod Service
use pi_ssm.Base.{
  ℕ, ◌-◌, ◌*◌, String, Bool, ◌&&◌, ◌||◌, Option, none, some, List, [], ◌∷◌, ◌==◌, ltb,
  if◌then◌else◌, keep_if,
}
use pi_ssm.Base.Dict
use pi_ssm.Base.Dict.{Dict}

pub record NodeInfo : Type 0 where
  pub node_id : String
  pub ip_address : String
  pub available_ram_mb : ℕ
  pub total_ram_mb : ℕ
  pub cpu_count : ℕ
  pub arch : String
  pub os_name : String
  pub os_version : String
  pub status : String
  pub last_heartbeat : ℕ
  pub first_seen : ℕ
  pub inference_port : ℕ

-- The keyword arguments of `update_node`.
pub record NodeReport : Type 0 where
  pub node_id : String
  pub ip_address : String
  pub available_ram_mb : ℕ
  pub total_ram_mb : ℕ
  pub cpu_count : ℕ
  pub arch : String
  pub os_name : String
  pub os_version : String
  pub inference_port : ℕ

pub record NodeRegistry : Type 0 where
  pub heartbeat_interval : ℕ
  pub missed_threshold : ℕ
  pub nodes : Dict NodeInfo

abbrev pub new_registry : ℕ → ℕ → NodeRegistry
new_registry interval threshold = record {
  heartbeat_interval = interval;
  missed_threshold = threshold;
  nodes = [];
}

abbrev pub timeout : NodeRegistry → ℕ
timeout r = r.heartbeat_interval * r.missed_threshold

abbrev pub first_seen : Option NodeInfo → ℕ → ℕ
first_seen none now = now
first_seen (some existing) now = existing.first_seen

-- The `NodeInfo` that `update_node` stores.
abbrev pub fresh_info : NodeReport → ℕ → ℕ → NodeInfo
fresh_info report now first = record {
  node_id = report.node_id;
  ip_address = report.ip_address;
  available_ram_mb = report.available_ram_mb;
  total_ram_mb = report.total_ram_mb;
  cpu_count = report.cpu_count;
  arch = report.arch;
  os_name = report.os_name;
  os_version = report.os_version;
  status = "available";
  last_heartbeat = now;
  first_seen = first;
  inference_port = report.inference_port;
}

unfoldable pub update_node : NodeRegistry → NodeReport → ℕ → NodeRegistry
update_node r report now =
    let existing = Dict.get r.nodes report.node_id in
    let info = fresh_info report now (first_seen existing now) in
    record r { nodes = Dict.put r.nodes report.node_id info }

unfoldable pub get_node : NodeRegistry → String → Option NodeInfo
get_node r node_id = Dict.get r.nodes node_id

abbrev pub with_status : Option String → List NodeInfo → List NodeInfo
with_status none nodes = nodes
with_status (some status) nodes = keep_if (λ n. n.status == status) nodes

unfoldable pub list_nodes : NodeRegistry → Option String → List NodeInfo
list_nodes r status_filter = with_status status_filter (Dict.values r.nodes)

-- The test of `reap_stale_nodes`.
unfoldable pub is_stale : ℕ → ℕ → NodeInfo → Bool
is_stale now limit node =
    (node.status == "available" || node.status == "busy") && ltb limit (now - node.last_heartbeat)

abbrev pub mark_unavailable : NodeInfo → NodeInfo
mark_unavailable node = record node { status = "unavailable" }

-- The loop of `reap_stale_nodes`.
unfoldable pub reap_each : ℕ → ℕ → Dict NodeInfo → Dict NodeInfo × List String
reap_each now limit [] = ([], [])
reap_each now limit ((k, node) ∷ rest) =
    let (kept, reaped) = reap_each now limit rest in
    if is_stale now limit node
    then ((k, mark_unavailable node) ∷ kept, node.node_id ∷ reaped)
    else ((k, node) ∷ kept, reaped)

unfoldable pub reap_stale_nodes : NodeRegistry → ℕ → NodeRegistry × List String
reap_stale_nodes r now =
    let (nodes, reaped) = reap_each now (timeout r) r.nodes in (record r { nodes = nodes }, reaped)

-- What happens to a registry: a heartbeat or a reaper cycle, with the clock reading of the call.
pub data Event : Type 0 where
  heartbeat : NodeReport → ℕ → Event
  reap : ℕ → Event

unfoldable pub handle : NodeRegistry → Event → NodeRegistry
handle r (heartbeat report now) = update_node r report now
handle r (reap now) = (reap_stale_nodes r now).0

-- A history lists the newest event first.
unfoldable pub run : NodeRegistry → List Event → NodeRegistry
run r [] = r
run r (event ∷ older) = handle (run r older) event

-- ===== src/Nodes/Service.antt =====
-- orchestrator/service.py: `NodeServiceServicer`. A response is the protobuf message, whose unset
-- fields have their defaults, beside the status code that the handler sets on the gRPC context.
use pi_ssm.Base.{
  ℕ, String, Bool, true, false, Option, none, some, ap, List, [], ◌∷◌, ◌≡◌, refl, arith, ◌*◌, ◌==◌,
  if◌then◌else◌,
}
use pi_ssm.Base.Dict
use pi_ssm.Base.Dict.{Dict}
use pi_ssm.Nodes.{
  NodeInfo, NodeReport, NodeRegistry, update_node, get_node, Event, run, new_registry,
}
use pi_ssm.Nodes.Freshness.{get_node-update_node, get_node-run, trace, view_of, missed, Trace}

pub data NodeStatus : Type 0 where
  unknown available busy unavailable : NodeStatus

abbrev pub status_to_proto : Dict NodeStatus
status_to_proto =
    ("unknown", unknown)
    ∷ ("available", available)
    ∷ ("busy", busy)
    ∷ ("unavailable", unavailable)
    ∷ []

-- `STATUS_TO_PROTO.get(status, nodes_pb2.UNKNOWN)`
abbrev pub proto_status : Option NodeStatus → NodeStatus
proto_status none = unknown
proto_status (some status) = status

pub record HeartbeatResponse : Type 0 where
  pub acknowledged : Bool
  pub heartbeat_interval_ms : ℕ

pub record StatusResponse : Type 0 where
  pub node_id : String
  pub ip_address : String
  pub available_ram_mb : ℕ
  pub total_ram_mb : ℕ
  pub cpu_count : ℕ
  pub arch : String
  pub os_name : String
  pub os_version : String
  pub status : NodeStatus
  pub last_heartbeat : ℕ
  pub loaded_shards : ℕ

abbrev pub empty_status : StatusResponse
empty_status = record {
  node_id = "";
  ip_address = "";
  available_ram_mb = 0;
  total_ram_mb = 0;
  cpu_count = 0;
  arch = "";
  os_name = "";
  os_version = "";
  status = unknown;
  last_heartbeat = 0;
  loaded_shards = 0;
}

-- The status code on the gRPC context, and its details.
pub data ContextCode : Type 0 where
  unset : ContextCode
  not_found : String → ContextCode

-- `Heartbeat`
unfoldable pub heartbeat_rpc : ℕ → NodeRegistry → NodeReport → ℕ → NodeRegistry × HeartbeatResponse
heartbeat_rpc interval_ms r request now =
    (update_node r request now, record { acknowledged = true; heartbeat_interval_ms = interval_ms })

unfoldable pub status_response : NodeInfo → StatusResponse
unfolding Dict.get
status_response node = record {
  node_id = node.node_id;
  ip_address = node.ip_address;
  available_ram_mb = node.available_ram_mb;
  total_ram_mb = node.total_ram_mb;
  cpu_count = node.cpu_count;
  arch = node.arch;
  os_name = node.os_name;
  os_version = node.os_version;
  status = proto_status (Dict.get status_to_proto node.status);
  last_heartbeat = 0;
  loaded_shards = 0;
}

abbrev pub respond : String → Option NodeInfo → StatusResponse × ContextCode
respond node_id none = (empty_status, not_found node_id)
respond node_id (some node) = (status_response node, unset)

-- `ReportStatus`
unfoldable pub report_status : NodeRegistry → String → StatusResponse × ContextCode
report_status r node_id = respond node_id (get_node r node_id)

-- After a heartbeat, `ReportStatus` for the reporting node answers AVAILABLE with the reported data,
-- and its answer for every other node is the one that it gave before.
pub report_status-heartbeat_rpc :
    (interval_ms : ℕ) (r : NodeRegistry) (request : NodeReport) (now : ℕ) (j : String)
    → report_status (heartbeat_rpc interval_ms r request now).0 j ≡ (
        if request.node_id == j
        then (
          record {
            node_id = request.node_id;
            ip_address = request.ip_address;
            available_ram_mb = request.available_ram_mb;
            total_ram_mb = request.total_ram_mb;
            cpu_count = request.cpu_count;
            arch = request.arch;
            os_name = request.os_name;
            os_version = request.os_version;
            status = available;
            last_heartbeat = 0;
            loaded_shards = 0;
          },
          unset,
        )
        else report_status r j)
unfolding report_status heartbeat_rpc status_response
report_status-heartbeat_rpc interval_ms r request now j =
    ground (arith, get_node-update_node r request now j)

-- The answer that a history of heartbeats and reaper cycles determines.
abbrev pub expected_status : ℕ → Option Trace → NodeStatus × Bool
expected_status limit none = (unknown, false)
expected_status limit (some t) =
    (if missed limit t.last t.reaps then unavailable else available, true)

abbrev pub answer : StatusResponse × ContextCode → NodeStatus × Bool
answer (response, unset) = (response.status, true)
answer (response, not_found node_id) = (response.status, false)

proto_late :
    (late : Bool)
    → proto_status (Dict.get status_to_proto (if late then "unavailable" else "available"))
      ≡ (if late then unavailable else available)
unfolding Dict.get
proto_late true = refl
proto_late false = refl

answer-view_of :
    (limit : ℕ) (j : String) (o : Option Trace)
    → answer (respond j (view_of limit o)) ≡ expected_status limit o
unfolding view_of status_response
answer-view_of limit j none = refl
answer-view_of limit j (some t) =
    ap (λ (x : NodeStatus). (x, true)) (proto_late (missed limit t.last t.reaps))

-- After any history of heartbeats and reaper cycles, `ReportStatus` answers NOT_FOUND for a node that
-- never sent a heartbeat; for the others it answers UNAVAILABLE if some cycle since the last heartbeat
-- came more than the timeout after it, and AVAILABLE if not.
pub report_status-run :
    (interval threshold : ℕ) (history : List Event) (j : String)
    → answer (report_status (run (new_registry interval threshold) history) j)
      ≡ expected_status (interval * threshold) (trace j history)
unfolding report_status
report_status-run interval threshold history j =
    rw (get_node-run interval threshold history j)
      (answer-view_of (interval * threshold) j (trace j history))

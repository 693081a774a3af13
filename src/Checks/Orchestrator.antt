-- ===== src/Checks/Orchestrator.antt =====
-- The registry, the planner and the result store on concrete data.
use pi_ssm.Base.{
  ℕ, ◌<◌, ◌*◌, String, true, false, none, some, List, [], ◌∷◌, ◌≡◌, ◌⊎◌, refl, arith, length, map,
  keep_if, get_elem?,
}
use pi_ssm.Base.Dict
use pi_ssm.Base.Result.{ok, raise}
use pi_ssm.Manifest.Defs.{Manifest}
use pi_ssm.Nodes.{
  NodeReport, NodeRegistry, timeout, update_node, get_node, list_nodes, is_stale, reap_each,
  reap_stale_nodes, Event, heartbeat, reap, handle, run, new_registry,
}
use pi_ssm.Nodes.Freshness.{get_node-run, trace, view_of}
use pi_ssm.Nodes.Order.{arrivals, list_nodes-run, reap_stale_nodes_reaped}
use pi_ssm.Nodes.Service.{
  report_status, heartbeat_rpc, report_status-heartbeat_rpc, available, unset,
}
use pi_ssm.Dispatch.{
  no_available_nodes, more_nodes_than_layers, DispatchPlan, split_layers, plan_dispatch,
}
use pi_ssm.Dispatch.Ranges.{Tiles, share, split_layers-Tiles}
use pi_ssm.Dispatch.Plan.{
  endpoint, node_endpoint, IsChain, plan_dispatch-IsChain, plan_dispatch_fault,
}
use pi_ssm.Results.{ResultStore, new_store, is_listed, timeout_error, create_slot, deliver, wait}
use pi_ssm.Results.Waiting.{wait-deliver, deliver_late}

abbrev report_of : String → String → NodeReport
report_of id ip = record {
  node_id = id;
  ip_address = ip;
  available_ram_mb = 6144;
  total_ram_mb = 8192;
  cpu_count = 4;
  arch = "aarch64";
  os_name = "Linux";
  os_version = "6.1";
  inference_port = 50052;
}

-- Node "a" reports at time 0 and 20, node "b" at time 3; the reaper runs at 12 and 21.
abbrev history : List Event
history =
    reap 21
    ∷ heartbeat (report_of "a" "10.0.0.1") 20
    ∷ reap 12
    ∷ heartbeat (report_of "b" "10.0.0.2") 3
    ∷ heartbeat (report_of "a" "10.0.0.1") 0
    ∷ []

abbrev after_history : NodeRegistry
after_history = run (new_registry 5 3) history

-- At time 21 node "b" has been silent for more than 15.
statuses : map (λ n. n.status) (list_nodes after_history none) ≡ "available" ∷ "unavailable" ∷ []
unfolding run handle list_nodes update_node reap_stale_nodes is_stale reap_each Dict.put
statuses = refl

get_node-run_example : get_node after_history "b" ≡ view_of (5 * 3) (trace "b" history)
get_node-run_example = get_node-run 5 3 history "b"

list_nodes-run_example : map (λ n. n.node_id) (list_nodes after_history none) ≡ arrivals history
list_nodes-run_example = list_nodes-run 5 3 history

reap_stale_nodes_reaped_example :
    ((reap_stale_nodes after_history 40).1
      ≡ map
          (λ n. n.node_id)
          (keep_if (is_stale 40 (timeout after_history)) (list_nodes after_history none)))
    × (reap_stale_nodes (reap_stale_nodes after_history 40).0 40
        ≡ ((reap_stale_nodes after_history 40).0, []))
reap_stale_nodes_reaped_example = reap_stale_nodes_reaped after_history 40

report_status-heartbeat_rpc_example :
    report_status (heartbeat_rpc 5000 after_history (report_of "b" "10.0.0.9") 22).0 "b" ≡ (
      record {
        node_id = "b";
        ip_address = "10.0.0.9";
        available_ram_mb = 6144;
        total_ram_mb = 8192;
        cpu_count = 4;
        arch = "aarch64";
        os_name = "Linux";
        os_version = "6.1";
        status = available;
        last_heartbeat = 0;
        loaded_shards = 0;
      },
      unset,
    )
report_status-heartbeat_rpc_example =
    report_status-heartbeat_rpc 5000 after_history (report_of "b" "10.0.0.9") 22 "b"

split_layers-Tiles_example :
    (ranges : List (ℕ × ℕ)) × (split_layers 24 5 ≡ ok ranges)
    × (length ranges ≡ 5)
    × Tiles 0 24 ranges
    × ((i : ℕ) → i < 5 → get_elem? ranges i ≡ some (share 24 5 i))
split_layers-Tiles_example = split_layers-Tiles 24 5 (omega arith) (omega arith)

abbrev pub mamba : Manifest String ℕ
mamba = record {
  name = "mamba-130m";
  arch = "mamba";
  checkpoint = "state-spaces/mamba-130m-hf";
  layers = 24;
  hidden_dim = 768;
  state_dim = 16;
  input_type = "tokens";
  tokenizer = "gpt_neox";
}

-- Both nodes have reported.
abbrev pub both : NodeRegistry
both =
    run (new_registry 5 3)
      (heartbeat (report_of "b" "10.0.0.2") 3 ∷ heartbeat (report_of "a" "10.0.0.1") 0 ∷ [])

pub two_available : length (list_nodes both (some "available")) ≡ 2
unfolding run handle list_nodes update_node Dict.put
two_available = refl

plan_dispatch-IsChain_example :
    (plan : DispatchPlan) × (plan_dispatch mamba both ≡ ok plan)
    × (map endpoint plan.assignments ≡ map node_endpoint (list_nodes both (some "available")))
    × IsChain 24 plan.assignments
    × (plan.model_name ≡ "mamba-130m")
    × (plan.checkpoint ≡ "state-spaces/mamba-130m-hf")
    × (plan.arch ≡ "mamba")
    × (plan.total_layers ≡ 24)
plan_dispatch-IsChain_example =
    plan_dispatch-IsChain mamba both (omega (arith, two_available)) (omega (arith, two_available))

no_nodes : plan_dispatch mamba (new_registry 5 3) ≡ raise no_available_nodes
unfolding plan_dispatch list_nodes
no_nodes = refl

plan_dispatch_fault_example :
    (no_available_nodes ≡ no_available_nodes)
      × (list_nodes (new_registry 5 3) (some "available") ≡ [])
    ⊎ (no_available_nodes
        ≡ more_nodes_than_layers (length (list_nodes (new_registry 5 3) (some "available"))) 24)
      × (24 < length (list_nodes (new_registry 5 3) (some "available")))
plan_dispatch_fault_example =
    plan_dispatch_fault mamba (new_registry 5 3) no_available_nodes no_nodes

abbrev store : ResultStore ℕ
store = create_slot new_store "first"

unused : Dict.get store.slots "second" ≡ none
unfolding create_slot Dict.put Dict.get
unused = refl

wait-deliver_example :
    ((deliver (create_slot store "second") "second" 42).1 ≡ true)
    × ((wait (deliver (create_slot store "second") "second" 42).0 "second").1 ≡ ok (some 42))
    × ((wait (deliver (create_slot store "second") "second" 42).0 "second").0.slots ≡ store.slots)
wait-deliver_example = wait-deliver store "second" 42 unused

unfired : is_listed store.next_event store.fired ≡ false
unfolding create_slot
unfired = refl

deliver_late_example :
    ((wait (create_slot store "second") "second").1 ≡ raise (timeout_error "second"))
    × (deliver (wait (create_slot store "second") "second").0 "second" 42
        ≡ ((wait (create_slot store "second") "second").0, false))
    × ((wait (create_slot store "second") "second").0.slots ≡ store.slots)
deliver_late_example = deliver_late store "second" 42 unused unfired

-- ===== src/Checks/Whole.antt =====
-- A plan for two nodes, and its workers.
use pi_ssm.Base.{
  ℕ, ◌%◌, String, true, false, some, none, [], ◌∷◌, ◌≡◌, refl, ◌==◌, if◌then◌else◌, map, contains,
  ◌&&◌,
}
use pi_ssm.Base.Decimal.{address, decimal}
use pi_ssm.Base.Dict
use pi_ssm.Base.Dict.{Dict}
use pi_ssm.Base.Result.{ok}
use pi_ssm.Dispatch.{
  ShardAssignment, DispatchPlan, plan_dispatch, split_layers, split_loop, assign_loop, next_addr,
  next_of,
}
use pi_ssm.Manifest.Defs.{Manifest}
use pi_ssm.Nodes.{run, handle, list_nodes, update_node}
use pi_ssm.Shard.Locations.{TensorLocationSpec}
use pi_ssm.Worker.{new_worker}
use pi_ssm.Worker.Loading.{idle}
use pi_ssm.Pipeline.Unload.{unload, handle_at, handle_at-unload}
use pi_ssm.Pipeline.Loading.{worker_address, Nodes}
use pi_ssm.Cluster.{Network}
use pi_ssm.Worker.Loading.{unload_shard}
use pi_ssm.Checks.Deployment.{alone}
use pi_ssm.Checks.Orchestrator.{both}

abbrev pub small : Manifest String ℕ
small = record {
  name = "tiny";
  arch = "mamba";
  checkpoint = "tiny";
  layers = 3;
  hidden_dim = 4;
  state_dim = 2;
  input_type = "text";
  tokenizer = "gpt2";
}

abbrev pub first_assignment : ShardAssignment
first_assignment = record {
  node_id = "a";
  ip_address = "10.0.0.1";
  inference_port = 50052;
  layer_start = 0;
  layer_end = 1;
  is_first = true;
  is_last = false;
  next_worker_address = "10.0.0.2:50052";
}

abbrev pub last_assignment : ShardAssignment
last_assignment = record {
  node_id = "b";
  ip_address = "10.0.0.2";
  inference_port = 50052;
  layer_start = 1;
  layer_end = 3;
  is_first = false;
  is_last = true;
  next_worker_address = "";
}

abbrev pub plan : DispatchPlan
plan = record {
  assignments = first_assignment ∷ last_assignment ∷ [];
  arch = "mamba";
  model_name = "tiny";
  checkpoint = "tiny";
  total_layers = 3;
}

pub planned : plan_dispatch small both ≡ ok plan
unfolding plan_dispatch run handle list_nodes update_node split_layers split_loop assign_loop
    next_addr next_of address Dict.put Dict.get
planned = refl

abbrev pub spec : String → String → TensorLocationSpec
spec dest source = record {
  dest_name = dest;
  source_name = source;
  source_file = "model.safetensors";
}

abbrev pub nodes : Nodes ℕ (ℕ → ℕ)
nodes = ("10.0.0.2:50052", idle (new_worker "b")) ∷ ("10.0.0.1:50052", idle (new_worker "a")) ∷ []

abbrev pub callback : String
callback = "10.0.0.9:50051"

abbrev pub ids : ℕ → String
ids k = decimal k

abbrev pub argmax : ℕ → ℕ
argmax logits = logits % 7

-- The workers while two models are loaded.
abbrev holding : Network ℕ (ℕ → ℕ)
holding =
    ("10.0.0.2:50052", record (new_worker "b") { models = ("tiny", alone) ∷ [] })
    ∷ (
      "10.0.0.1:50052",
      record (new_worker "a") { models = ("other", alone) ∷ ("tiny", alone) ∷ [] },
    )
    ∷ []

handle_at-unload_example : handle_at "tiny" (Dict.get (unload plan holding) "10.0.0.1:50052") ≡ (
    if contains "10.0.0.1:50052" (map worker_address plan.assignments) && ("tiny" == "tiny")
    then none
    else handle_at "tiny" (Dict.get holding "10.0.0.1:50052"))
handle_at-unload_example = handle_at-unload plan holding "10.0.0.1:50052" "tiny"

other_kept : handle_at "other" (Dict.get (unload plan holding) "10.0.0.1:50052") ≡ some alone
unfolding unload unload_shard address Dict.get Dict.put Dict.remove
other_kept = refl

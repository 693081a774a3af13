-- ===== src/Checks/EndToEnd.antt =====
-- Two nodes from their heartbeats and a checkpoint to the answer of a request.
use pi_ssm.Base.{
  ◌+◌, ◌*◌, ℕ, String, true, false, some, none, [], ◌∷◌, ◌≡◌, refl, ◌==◌, if◌then◌else◌,
}
use pi_ssm.Base.Decimal.{address, decimal}
use pi_ssm.Base.Dict
use pi_ssm.Base.Result.{Result}
use pi_ssm.ModelStore.{ModelStore, extract_shard}
use pi_ssm.Results.{new_store}
use pi_ssm.Shard.{ShardModule, Mamba}
use pi_ssm.Shard.Caches.{AreLocal}
use pi_ssm.Shard.Locations.{tensor_locations_for_range, layer_locations, layer_of_name}
use pi_ssm.Shard.Ranges.{shard_of}
use pi_ssm.Shard.Weights.{LoadFault}
use pi_ssm.Shard.Weights.Blocks.{blocks_from, model_of}
use pi_ssm.Worker.{ModelHandle, new_worker}
use pi_ssm.Worker.Loading.Building.{build_shard, sized}
use pi_ssm.Cluster.Whole.{whole}
use pi_ssm.Pipeline.Loading.Dispatched.{Post, request_of}
use pi_ssm.Pipeline.Loading.EndToEnd.{AreReady}
use pi_ssm.Api.{Api, loading_state}
use pi_ssm.Api.Inference.{InferSubmission}
use pi_ssm.Api.Sessions.{Tokenizer, InferenceSession}
use pi_ssm.Api.Served.{Serves, infer-build_session}
use pi_ssm.Manifest.Registry.{get_model}
use pi_ssm.Checks.Checkpoint.{modules, weight, weight_map, fetch, checkpoint, weighted-IsLocal}
use pi_ssm.Checks.Deployment.{numbers, numbers_laws, entry_of, measured}
use pi_ssm.Checks.Orchestrator.{both}
use pi_ssm.Checks.Whole.{
  small, first_assignment, last_assignment, plan, planned, callback, ids, argmax, spec, nodes,
}

abbrev whole_model : Mamba ℕ (ℕ → ℕ)
whole_model = model_of modules weight 3 2 3 2

abbrev model_store : ModelStore
model_store = record { metadata = some weight_map; config_json = some "{}" }

abbrev first_post : Post ℕ (ℕ → ℕ)
first_post = record {
  a = first_assignment;
  worker = new_worker "a";
  metadata = (
    record (spec "embeddings.weight" "backbone.embeddings.weight") {
      source_file = "one.safetensors";
    }
        ∷ record (spec "layers.0.mixer.D" "backbone.layers.0.mixer.D") {
          source_file = "one.safetensors";
        }
        ∷ [],
    some "{}",
  );
  shard = shard_of whole_model 0 1 true false;
  memory_mb = 5;
}

abbrev last_post : Post ℕ (ℕ → ℕ)
last_post = record {
  a = last_assignment;
  worker = new_worker "b";
  metadata = (
    record (spec "layers.1.mixer.D" "backbone.layers.2.mixer.D") { source_file = "two.safetensors" }
        ∷ record (spec "layers.0.mixer.D" "backbone.layers.1.mixer.D") {
          source_file = "one.safetensors";
        }
        ∷ record (spec "norm_f.weight" "backbone.norm_f.weight") { source_file = "two.safetensors" }
        ∷ record (spec "lm_head.weight" "backbone.embeddings.weight") {
          source_file = "one.safetensors";
        }
        ∷ [],
    some "{}",
  );
  shard = shard_of whole_model 1 3 false true;
  memory_mb = 9;
}

abbrev describe : LoadFault → String
describe fault = "load failed"

-- What the thread of each worker builds.
abbrev built : String → Result String (ShardModule ℕ (ℕ → ℕ) × ℕ)
built where_at =
    if where_at == "10.0.0.1:50052"
    then sized describe 5
        (build_shard modules fetch (request_of model_store plan callback 7 first_post))
    else sized describe 9
        (build_shard modules fetch (request_of model_store plan callback 7 last_post))

locals : AreLocal entry_of 0 whole_model.layers
unfolding blocks_from
locals = (weighted-IsLocal 0 10, (weighted-IsLocal 1 11, (weighted-IsLocal 2 12, tt)))

abbrev alone : ModelHandle ℕ (ℕ → ℕ)
alone = record {
  name = "tiny";
  model = whole whole_model;
  memory_mb = 14;
  loaded_at = 0;
  layer_start = 0;
  layer_end = 3;
  is_first_shard = true;
  is_last_shard = true;
  next_worker_address = "";
  cache = none;
}

ready :
    AreReady modules weight_map fetch weight 2 3 2 describe numbers numbers_laws entry_of ids
      measured model_store callback 7 built argmax small both plan planned checkpoint refl refl
      locals
      (first_post ∷ last_post ∷ [])
      nodes
unfolding Dict.get address extract_shard tensor_locations_for_range layer_locations layer_of_name
    decimal
ready = record {
  assigned = refl;
  apart = (refl, (refl, tt));
  distinct = (refl, (refl, tt));
  stands = (refl, (refl, tt));
  fresh = (
    record { quiet = refl; missing = refl; known = refl; extracted = refl },
    (record { quiet = refl; missing = refl; known = refl; extracted = refl }, tt),
  );
  shards = (refl, (refl, tt));
  building = (refl, (refl, tt));
}

abbrev tokenizer : Tokenizer ℕ
tokenizer = record { encode = λ text. 4; decode = decimal }

abbrev submission : InferSubmission
submission = record { model_name = "tiny"; input = "1234"; max_new_tokens = 4; stream = true }

abbrev api : Api (InferenceSession ℕ)
api = record { states = ("tiny", loading_state plan) ∷ []; threads = ("tiny", plan) ∷ [] }

registered : get_model (("tiny", small) ∷ []) "tiny" ≡ some small
unfolding get_model Dict.get
registered = refl

infer-build_session_example :
    Serves modules weight_map fetch weight 2 3 2 describe numbers numbers_laws entry_of ids measured
      "{}" callback 7 built argmax small both plan planned checkpoint refl locals tokenizer
      (λ x t. 10 * x + t)
      (λ fault. "pass failed")
      api
      []
      []
      (("tiny", small) ∷ [])
      submission
      12
      nodes
      new_store
      alone
infer-build_session_example =
    infer-build_session modules weight_map fetch weight 2 3 2 describe numbers numbers_laws entry_of
      ids measured "{}" callback 7 built argmax small both plan planned checkpoint refl locals
      tokenizer (λ x t. 10 * x + t) (λ fault. "pass failed") first_post (last_post ∷ []) nodes
      new_store alone api [] [] (("tiny", small) ∷ []) submission 12 ready refl refl registered

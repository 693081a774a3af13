-- ===== src/Checks/Loading.antt =====
-- A worker that loads a shard.
use pi_ssm.Base.{ℕ, String, true, false, none, [], ◌∷◌, ◌++◌, ◌≡◌, refl, arith}
use pi_ssm.Base.Dict
use pi_ssm.Base.Result.{ok, raise}
use pi_ssm.Shard.Ranges.{shard_of}
use pi_ssm.Worker.{new_worker}
use pi_ssm.Worker.Loading.{
  LoadShardRequest, Node, idle, load_shard, load_shard_background, handle_of, report_of,
}
use pi_ssm.Worker.Loading.Threads.{
  IsReachable, start, next, load, built, IsConsistent, IsConsistent-IsReachable,
}
use pi_ssm.Worker.Loading.Answers.{
  Answer, is_loading, load_shard-Answer, load_shard_background-load_shard,
}
use pi_ssm.Checks.Deployment.{numbers, model}

abbrev request_for : String → LoadShardRequest
request_for name = record {
  model_name = name;
  checkpoint = "tiny";
  arch = "mamba";
  layer_start = 1;
  layer_end = 3;
  total_layers = 3;
  next_worker_address = "";
  tensor_locations = [];
  model_config_json = "{}";
  orchestrator_callback_address = "10.0.0.9:50051";
}

abbrev fresh : Node ℕ (ℕ → ℕ)
fresh = idle (new_worker "pi-2")

-- The worker has accepted the model "a".
abbrev busy : Node ℕ (ℕ → ℕ)
busy = (load_shard fresh (request_for "a")).0

busy-IsReachable : IsReachable numbers busy
busy-IsReachable = next (start "pi-2") (load fresh (request_for "a") (omega arith))

-- Its thread has failed to build the shard.
abbrev failed : Node ℕ (ℕ → ℕ)
failed = load_shard_background busy [] (request_for "a") [] 7 (raise "404")

failed-IsReachable : IsReachable numbers failed
unfolding load_shard Dict.get
failed-IsReachable = next busy-IsReachable (built busy [] (request_for "a") [] 7 (raise "404") refl)

IsConsistent-IsReachable_example : IsConsistent failed
IsConsistent-IsReachable_example = IsConsistent-IsReachable numbers failed-IsReachable

load_shard-Answer_example : Answer busy (request_for "a") (load_shard busy (request_for "a"))
load_shard-Answer_example = load_shard-Answer numbers busy-IsReachable (request_for "a")

-- The second request for a model that is being loaded is refused.
refused : (load_shard busy (request_for "a")).1.success ≡ false
unfolding load_shard Dict.get
refused = refl

missing : Dict.get busy.worker.models "b" ≡ none
unfolding load_shard Dict.get
missing = refl

free : is_loading busy "b" ≡ false
unfolding load_shard Dict.get
free = refl

load_shard_background-load_shard_example :
    load_shard_background
      (load_shard busy (request_for "b")).0
      busy.running
      (request_for "b")
      []
      7
      (ok (shard_of model 1 3 false true, 10))
    ≡ record {
      worker = record busy.worker {
        models =
            Dict.put busy.worker.models "b"
              (handle_of (request_for "b") 7 (shard_of model 1 3 false true, 10));
      };
      running = busy.running;
      reports = busy.reports ++ report_of "pi-2" (request_for "b") true "" 10 2 ∷ [];
    }
unfolding load_shard Dict.get
load_shard_background-load_shard_example =
    load_shard_background-load_shard numbers busy-IsReachable (request_for "b") 7
      (shard_of model 1 3 false true) 10 missing free refl

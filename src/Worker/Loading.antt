-- ===== src/Worker/Loading.antt =====
-- `LoadShard`, `UnloadShard` and the threads that they start, of inference/service.py, with
-- `load_shard_from_metadata` and `unload_model` of inference/loader.py. Every section under the lock
-- is one step, and a step of a thread ends at the next one.
pub mod Names
pub mod Threads
pub mod Answers
pub mod Building
use pi_ssm.Base.{
  ℕ, ◌-◌, String, Bool, true, false, not, Option, none, some, List, [], ◌∷◌, ◌==◌, if◌then◌else◌,
  eqb, contains, keep_if, ◌++◌, concat,
}
use pi_ssm.Base.Dict
use pi_ssm.Base.Result.{Result, ok, raise, ◌>>=◌}
use pi_ssm.Shard.{ShardModule}
use pi_ssm.Shard.Locations.{TensorLocationSpec}
use pi_ssm.Worker.{ModelHandle, Worker}

pub record LoadShardRequest : Type 0 where
  pub model_name : String
  pub checkpoint : String
  pub arch : String
  pub layer_start : ℕ
  pub layer_end : ℕ
  pub total_layers : ℕ
  pub next_worker_address : String
  pub tensor_locations : List TensorLocationSpec
  pub model_config_json : String
  pub orchestrator_callback_address : String

pub record LoadShardResponse : Type 0 where
  pub success : Bool
  pub error_message : String

pub record ShardReadyRequest : Type 0 where
  pub model_name : String
  pub node_id : String
  pub success : Bool
  pub error_message : String
  pub memory_used_mb : ℕ
  pub layers_loaded : ℕ

-- A worker with the threads that are loading a shard, and those that are about to call
-- `ReportShardReady`, each list in the order in which they started.
pub record Node (Tensor Cache : Type 0) : Type 0 where
  pub worker : Worker Tensor Cache
  pub running : List LoadShardRequest
  pub reports : List (String × ShardReadyRequest)

abbrev pub idle : {Tensor Cache : Type 0} → Worker Tensor Cache → Node Tensor Cache
idle w = record { worker = w; running = []; reports = [] }

-- `set.add` and `set.discard`
abbrev pub add : List String → String → List String
add names name = if contains name names then names else names ++ name ∷ []

abbrev pub discard : List String → String → List String
discard names name = keep_if (λ j. not (j == name)) names

abbrev pub report_of :
    String → LoadShardRequest → Bool → String → ℕ → ℕ → String × ShardReadyRequest
report_of node_id request success error_message memory_used_mb layers_loaded = (
  request.orchestrator_callback_address,
  record {
    model_name = request.model_name;
    node_id = node_id;
    success = success;
    error_message = error_message;
    memory_used_mb = memory_used_mb;
    layers_loaded = layers_loaded;
  },
)

abbrev pub accepted : LoadShardResponse
accepted = record { success = true; error_message = "" }

abbrev pub rejected : String → LoadShardResponse
rejected name = record {
  success = false;
  error_message = concat ("Model '" ∷ name ∷ "' is already loaded" ∷ []);
}

module _ {Tensor Cache : Type 0} where
  abbrev pub start_loading : Node Tensor Cache → LoadShardRequest → Node Tensor Cache
  start_loading n request = record n {
    worker = record n.worker { loading = add n.worker.loading request.model_name };
    running = n.running ++ request ∷ [];
  }

  abbrev pub report_loaded :
      Node Tensor Cache → LoadShardRequest → ModelHandle Tensor Cache → Node Tensor Cache
  report_loaded n request handle = record n {
    reports =
        n.reports
        ++ report_of n.worker.node_id request true "" handle.memory_mb
            (request.layer_end - request.layer_start)
          ∷ [];
  }

  abbrev pub load_if :
      Node Tensor Cache → LoadShardRequest → Bool → Node Tensor Cache × LoadShardResponse
  load_if n request true = (n, rejected request.model_name)
  load_if n request false = (start_loading n request, accepted)

  abbrev pub load_by :
      Node Tensor Cache
      → LoadShardRequest
      → Option (ModelHandle Tensor Cache)
      → Node Tensor Cache × LoadShardResponse
  load_by n request (some handle) = (report_loaded n request handle, accepted)
  load_by n request none = load_if n request (contains request.model_name n.worker.loading)

  -- `LoadShard`, for a request whose range has `layer_start` at most `layer_end`.
  unfoldable pub load_shard :
      Node Tensor Cache → LoadShardRequest → Node Tensor Cache × LoadShardResponse
  load_shard n request = load_by n request (Dict.get n.worker.models request.model_name)

  -- The handle around a shard that has been built, with its size and the reading of the clock.
  abbrev pub handle_of :
      LoadShardRequest → ℕ → ShardModule Tensor Cache × ℕ → ModelHandle Tensor Cache
  handle_of request now (shard, memory_mb) = record {
    name = request.model_name;
    model = shard;
    memory_mb = memory_mb;
    loaded_at = now;
    layer_start = request.layer_start;
    layer_end = request.layer_end;
    is_first_shard = eqb request.layer_start 0;
    is_last_shard = eqb request.layer_end request.total_layers;
    next_worker_address = request.next_worker_address;
    cache = none;
  }

  -- `load_shard_from_metadata`, where `built` is what building the shard and loading its tensors
  -- gives for an architecture that is registered.
  unfoldable pub load_shard_from_metadata :
      LoadShardRequest
      → ℕ
      → Result String (ShardModule Tensor Cache × ℕ)
      → Result String (ModelHandle Tensor Cache)
  load_shard_from_metadata request now built =
      if request.arch == "mamba"
      then (do shard ← built; ok (handle_of request now shard))
      else raise (
          concat
            ("Architecture '" ∷ request.arch ∷ "' is not supported. Supported: ['mamba']" ∷ []))

  abbrev pub store_handle :
      Worker Tensor Cache
      → LoadShardRequest
      → Result String (ModelHandle Tensor Cache)
      → Worker Tensor Cache × (String × ShardReadyRequest)
  store_handle w request (raise error) = (
    record w { loading = discard w.loading request.model_name },
    report_of w.node_id request false error 0 0,
  )
  store_handle w request (ok handle) = (
    record w {
      models = Dict.put w.models request.model_name handle;
      loading = discard w.loading request.model_name;
    },
    report_of w.node_id request true "" handle.memory_mb (request.layer_end - request.layer_start),
  )

  -- `_load_shard_background`, of a thread that stands between the threads `before` and `after`, up
  -- to its call of `ReportShardReady`.
  unfoldable pub load_shard_background :
      Node Tensor Cache
      → List LoadShardRequest
      → LoadShardRequest
      → List LoadShardRequest
      → ℕ
      → Result String (ShardModule Tensor Cache × ℕ)
      → Node Tensor Cache
  unfolding load_shard_from_metadata
  load_shard_background n before request after now built =
      let (w, report) =
        store_handle n.worker request (load_shard_from_metadata request now built) in
      record { worker = w; running = before ++ after; reports = n.reports ++ report ∷ [] }

  -- `unload_model`: the memory that it gives.
  abbrev pub freed : Option (ModelHandle Tensor Cache) → Bool × ℕ
  freed none = (false, 0)
  freed (some handle) = (true, handle.memory_mb)

  -- `UnloadShard`, with the fields of its response.
  unfoldable pub unload_shard : Worker Tensor Cache → String → Worker Tensor Cache × (Bool × ℕ)
  unload_shard w name =
      (record w { models = Dict.remove w.models name }, freed (Dict.get w.models name))

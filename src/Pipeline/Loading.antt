-- ===== src/Pipeline/Loading.antt =====
-- `load` of `PipelineRunner` and `ReportShardReady` of `PipelineCallbackServicer`, of
-- orchestrator/pipeline.py, with the workers that load the shards. The result store is the one of the
-- passes in the source: the keys of the two kinds of slots are never the same.
pub mod Threads
pub mod Dispatched
pub mod Collected
pub mod Deployed
pub mod Generated
pub mod Checkpoints
pub mod EndToEnd
use pi_ssm.Base.{
  ℕ, String, Bool, true, false, Option, none, some, List, [], ◌∷◌, ◌++◌, concat, if◌then◌else◌,
}
use pi_ssm.Base.Decimal.{address}
use pi_ssm.Base.Dict
use pi_ssm.Base.Dict.{Dict}
use pi_ssm.Base.Result.{Result, ok, raise}
use pi_ssm.Dispatch.{ShardAssignment, DispatchPlan}
use pi_ssm.ModelStore
use pi_ssm.ModelStore.{ModelStore, extract_shard}
use pi_ssm.Results.{ResultStore, StoreFault, key_error, timeout_error, create_slot, deliver, wait}
use pi_ssm.Shard.{ShardModule}
use pi_ssm.Shard.Locations.{TensorLocationSpec}
use pi_ssm.Worker.Loading.{
  LoadShardRequest, LoadShardResponse, ShardReadyRequest, Node, load_shard, load_shard_background,
}

pub record ShardReadyResult : Type 0 where
  pub success : Bool
  pub error_message : String
  pub memory_used_mb : ℕ
  pub layers_loaded : ℕ

-- What `load` can raise: an exception of the model store, of gRPC, `PipelineError` with its two
-- causes, what the result store raises, a slot that is gone, and a plan with no worker.
pub data LoadFault : Type 0 where
  metadata_fault : ModelStore.StoreFault → LoadFault
  rpc_error : LoadFault
  rejected : String → String → LoadFault
  failed_to_load : String → String → LoadFault
  store_fault : StoreFault → LoadFault
  no_result : LoadFault
  value_error : LoadFault

-- `_shard_ready_key`
abbrev pub shard_ready_key : String → String → String
shard_ready_key model_name node_id = concat ("shard:" ∷ model_name ∷ ":" ∷ node_id ∷ [])

abbrev pub ready_result : ShardReadyRequest → ShardReadyResult
ready_result request = record {
  success = request.success;
  error_message = request.error_message;
  memory_used_mb = request.memory_used_mb;
  layers_loaded = request.layers_loaded;
}

-- `ReportShardReady`
unfoldable pub report_shard_ready_rpc :
    ResultStore ShardReadyResult → ShardReadyRequest → ResultStore ShardReadyResult
report_shard_ready_rpc store request =
    (deliver store (shard_ready_key request.model_name request.node_id) (ready_result request)).0

abbrev pub config_of : Option String → String
config_of none = ""
config_of (some config) = config

-- The `LoadShardRequest` for an assignment.
abbrev pub load_request :
    DispatchPlan
    → String
    → ShardAssignment
    → List TensorLocationSpec × Option String
    → LoadShardRequest
load_request plan callback a (locations, config) = record {
  model_name = plan.model_name;
  checkpoint = plan.checkpoint;
  arch = plan.arch;
  layer_start = a.layer_start;
  layer_end = a.layer_end;
  total_layers = plan.total_layers;
  next_worker_address = a.next_worker_address;
  tensor_locations = locations;
  model_config_json = config_of config;
  orchestrator_callback_address = callback;
}

-- The workers with their threads, by address.
abbrev pub Nodes : Type 0 → Type 0 → Type 0
Nodes Tensor Cache = Dict (Node Tensor Cache)

abbrev pub worker_address : ShardAssignment → String
worker_address a = address a.ip_address a.inference_port

abbrev pub create_slots :
    ResultStore ShardReadyResult → String → List ShardAssignment → ResultStore ShardReadyResult
create_slots store model_name [] = store
create_slots store model_name (a ∷ rest) =
    create_slots (create_slot store (shard_ready_key model_name a.node_id)) model_name rest

module _ {Tensor Cache : Type 0} where
  -- The worker's answer to `LoadShard`, with what follows.
  abbrev pub answered :
      Nodes Tensor Cache
      → ShardAssignment
      → Node Tensor Cache × LoadShardResponse
      → (Nodes Tensor Cache → Nodes Tensor Cache × Result LoadFault (Unit {0}))
      → Nodes Tensor Cache × Result LoadFault (Unit {0})
  answered nodes a (after, response) next =
      let went_on = next (Dict.put nodes (worker_address a) after) in
      if response.success then went_on else (
        Dict.put nodes (worker_address a) after,
        raise (rejected a.node_id response.error_message),
      )

  abbrev pub call_load_shard :
      Nodes Tensor Cache
      → ShardAssignment
      → LoadShardRequest
      → Option (Node Tensor Cache)
      → (Nodes Tensor Cache → Nodes Tensor Cache × Result LoadFault (Unit {0}))
      → Nodes Tensor Cache × Result LoadFault (Unit {0})
  call_load_shard nodes a request none next = (nodes, raise rpc_error)
  call_load_shard nodes a request (some n) next = answered nodes a (load_shard n request) next

  abbrev pub dispatch_shard :
      Nodes Tensor Cache
      → DispatchPlan
      → String
      → ShardAssignment
      → Result ModelStore.StoreFault (List TensorLocationSpec × Option String)
      → (Nodes Tensor Cache → Nodes Tensor Cache × Result LoadFault (Unit {0}))
      → Nodes Tensor Cache × Result LoadFault (Unit {0})
  dispatch_shard nodes plan callback a (raise fault) next = (nodes, raise (metadata_fault fault))
  dispatch_shard nodes plan callback a (ok metadata) next =
      call_load_shard nodes a (load_request plan callback a metadata)
        (Dict.get nodes (worker_address a)) next

  -- The first loop of `load`.
  unfoldable pub dispatch_loop :
      ModelStore
      → DispatchPlan
      → String
      → List ShardAssignment
      → Nodes Tensor Cache
      → Nodes Tensor Cache × Result LoadFault (Unit {0})
  dispatch_loop model_store plan callback [] nodes = (nodes, ok tt)
  dispatch_loop model_store plan callback (a ∷ rest) nodes =
      dispatch_shard nodes plan callback a
        (extract_shard model_store plan.arch a.layer_start a.layer_end a.is_first a.is_last)
        (dispatch_loop model_store plan callback rest)

-- What a part of `load` comes to; `none` is a wait without a timeout whose report never comes, so that
-- `load` does not return.
abbrev pub LoadEnd : Type 0
LoadEnd = Option (Result LoadFault (Unit {0}))

-- A wait that has no timeout, by what it would come to at one.
abbrev pub unbounded :
    ResultStore ShardReadyResult
    → ResultStore ShardReadyResult × Result StoreFault (Option ShardReadyResult)
    → ResultStore ShardReadyResult × Option (Result StoreFault (Option ShardReadyResult))
unbounded store (after, raise (timeout_error key)) = (store, none)
unbounded store (after, raise (key_error key)) = (after, some (raise (key_error key)))
unbounded store (after, ok result) = (after, some (ok result))

-- `wait` with `load_timeout_s`; reports that come before the timeout are there already.
abbrev pub load_wait :
    Option ℕ
    → ResultStore ShardReadyResult
    → String
    → ResultStore ShardReadyResult × Option (Result StoreFault (Option ShardReadyResult))
load_wait none store key = unbounded store (wait store key)
load_wait (some load_timeout_s) store key =
    let (after, result) = wait store key in (after, some result)

abbrev pub reported :
    ResultStore ShardReadyResult
    → ShardAssignment
    → Option (Result StoreFault (Option ShardReadyResult))
    → (ResultStore ShardReadyResult → ResultStore ShardReadyResult × LoadEnd)
    → ResultStore ShardReadyResult × LoadEnd
reported store a none next = (store, none)
reported store a (some (raise fault)) next = (store, some (raise (store_fault fault)))
reported store a (some (ok none)) next = (store, some (raise no_result))
reported store a (some (ok (some result))) next =
    let went_on = next store in
    if result.success
    then went_on
    else (store, some (raise (failed_to_load a.node_id result.error_message)))

-- The second loop of `load`, over the assignments in the order in which their waits end, those that
-- never end behind the others.
unfoldable pub collect_loop :
    Option ℕ
    → String
    → List ShardAssignment
    → ResultStore ShardReadyResult
    → ResultStore ShardReadyResult × LoadEnd
collect_loop load_timeout_s model_name [] store = (store, some (ok tt))
collect_loop load_timeout_s model_name (a ∷ rest) store =
    let (after, result) = load_wait load_timeout_s store (shard_ready_key model_name a.node_id) in
    reported after a result (collect_loop load_timeout_s model_name rest)

-- A cluster while it loads.
pub record Loading (Tensor Cache : Type 0) : Type 0 where
  pub nodes : Nodes Tensor Cache
  pub store : ResultStore ShardReadyResult

module _ {Tensor Cache : Type 0} where
  abbrev pub collected :
      Option ℕ
      → String
      → List ShardAssignment
      → Loading Tensor Cache
      → Loading Tensor Cache × LoadEnd
  collected load_timeout_s model_name ending c =
      let (store, result) = collect_loop load_timeout_s model_name ending c.store in
      (record c { store = store }, result)

  -- `ThreadPoolExecutor(max_workers=n)` raises `ValueError` for no worker.
  abbrev pub waited :
      List ShardAssignment
      → Loading Tensor Cache
      → Loading Tensor Cache × LoadEnd
      → Loading Tensor Cache × LoadEnd
  waited [] c ended = (c, some (raise value_error))
  waited (a ∷ rest) c ended = ended

  abbrev pub dispatched :
      Option ℕ
      → DispatchPlan
      → List ShardAssignment
      → (Loading Tensor Cache → Loading Tensor Cache)
      → ResultStore ShardReadyResult
      → Nodes Tensor Cache × Result LoadFault (Unit {0})
      → Loading Tensor Cache × LoadEnd
  dispatched load_timeout_s plan ending meanwhile store (nodes, raise fault) =
      (record { nodes = nodes; store = store }, some (raise fault))
  dispatched load_timeout_s plan ending meanwhile store (nodes, ok _) =
      waited plan.assignments (record { nodes = nodes; store = store })
        (collected load_timeout_s plan.model_name ending
          (meanwhile (record { nodes = nodes; store = store })))

  -- `load`, where `meanwhile` is what the workers' threads and their reports do before the waits
  -- end, and `ending` lists the assignments in the order in which these do.
  unfoldable pub load :
      Option ℕ
      → ModelStore
      → DispatchPlan
      → String
      → List ShardAssignment
      → (Loading Tensor Cache → Loading Tensor Cache)
      → Loading Tensor Cache
      → Loading Tensor Cache × LoadEnd
  load load_timeout_s model_store plan callback ending meanwhile c =
      dispatched load_timeout_s plan ending meanwhile
        (create_slots c.store plan.model_name plan.assignments)
        (dispatch_loop model_store plan callback plan.assignments c.nodes)

-- ===== src/Pipeline.antt =====
-- `PipelineRunner` of orchestrator/pipeline.py: forward passes and generation, on a plan whose shards
-- are loaded, with the result store and the `DeliverResult` handler of the same file.
pub mod Streams
pub mod Correct
pub mod Generation
pub mod Loading
pub mod Unload
use pi_ssm.Base.{
  ℕ, zero, suc, ◌+◌, String, Bool, true, false, Option, none, some, List, [], ◌∷◌, ◌++◌, eqb,
  if◌then◌else◌, length, map,
}
use pi_ssm.Base.Decimal.{address}
use pi_ssm.Base.Result.{Result, ok, raise}
use pi_ssm.Tensors.{Torch, TensorFault, serialize_tensor, deserialize_tensor}
use pi_ssm.Dispatch.{ShardAssignment, DispatchPlan}
use pi_ssm.Worker.Running.{RunShardRequest, DeliverResultRequest, Measure}
use pi_ssm.Cluster.{Network, Response, Outcome, returns, call_run_shard}
use pi_ssm.Results.{ResultStore, StoreFault, create_slot, deliver, wait}

pub record PipelineResult (Tensor : Type 0) : Type 0 where
  pub output_tensor : Tensor
  pub node_latencies_ms : List ℕ
  pub node_peak_memory_mb : List ℕ

-- What a pass can raise to its caller.
pub data PassFault : Type 0 where
  store_fault : StoreFault → PassFault
  rpc_error : PassFault
  index_error : PassFault
  no_result : PassFault
  out_of_fuel : PassFault

module _ {Tensor : Type 0} (torch : Torch Tensor) where
  abbrev pub accept :
      ResultStore (PipelineResult Tensor)
      → DeliverResultRequest
      → Result TensorFault Tensor
      → ResultStore (PipelineResult Tensor)
  accept store request (raise fault) = store
  accept store request (ok out) =
      (deliver store request.request_id (record {
        output_tensor = out;
        node_latencies_ms = request.node_latencies_ms;
        node_peak_memory_mb = request.node_peak_memory_mb;
      })).0

  -- `PipelineCallbackServicer.DeliverResult`; an output that does not deserialize raises in the
  -- handler and leaves the store alone.
  unfoldable pub deliver_result_rpc :
      ResultStore (PipelineResult Tensor)
      → DeliverResultRequest
      → ResultStore (PipelineResult Tensor)
  deliver_result_rpc store request =
      accept store request (deserialize_tensor torch request.output_tensor)

  abbrev pub deliver_all :
      ResultStore (PipelineResult Tensor)
      → List DeliverResultRequest
      → ResultStore (PipelineResult Tensor)
  deliver_all store [] = store
  deliver_all store (request ∷ rest) = deliver_all (deliver_result_rpc store request) rest

-- The result store of the orchestrator and the workers.
pub record System (Tensor Cache : Type 0) : Type 0 where
  pub store : ResultStore (PipelineResult Tensor)
  pub network : Network Tensor Cache

-- The constructor's arguments that the passes use, with what the environment gives them: the
-- workers' measurements, whether the callback service is reachable, and the ids of `uuid4`.
pub record Runner : Type 0 where
  pub plan : DispatchPlan
  pub callback_address : String
  pub measure : String → Measure
  pub callback_up : Bool

module _ {Tensor : Type 0} (torch : Torch Tensor) (runner : Runner) where
  abbrev pub run_request : String → Tensor → Bool → RunShardRequest
  run_request request_id x reset_cache = record {
    model_name = runner.plan.model_name;
    input_tensor = serialize_tensor torch x;
    generate_mode = false;
    max_new_tokens = 0;
    request_id = request_id;
    orchestrator_callback_address = runner.callback_address;
    node_latencies_ms = [];
    node_peak_memory_mb = [];
    reset_cache = reset_cache;
  }

module _ {Tensor Cache : Type 0} (torch : Torch Tensor) (runner : Runner) where
  abbrev pub waited :
      Network Tensor Cache
      → ResultStore (PipelineResult Tensor) × Result StoreFault (Option (PipelineResult Tensor))
      → Result PassFault (PipelineResult Tensor) × System Tensor Cache
  waited network (store, raise fault) =
      (raise (store_fault fault), record { store = store; network = network })
  waited network (store, ok none) = (raise no_result, record { store = store; network = network })
  waited network (store, ok (some result)) =
      (ok result, record { store = store; network = network })

  -- `client.run_shard(run_request)`, whose response is not looked at, then the wait.
  abbrev pub after_call :
      ResultStore (PipelineResult Tensor)
      → Network Tensor Cache
      → String
      → Option (Outcome Tensor Cache)
      → Result PassFault (PipelineResult Tensor) × System Tensor Cache
  after_call store network request_id none =
      (raise out_of_fuel, record { store = store; network = network })
  after_call store network request_id (some o) =
      let resolved = deliver_all torch store o.delivered in
      if returns o.response
      then waited o.network (wait resolved request_id)
      else (raise rpc_error, record { store = resolved; network = o.network })

  -- The fuel is the number of workers in the plan.
  abbrev pub step_from :
      List ShardAssignment
      → System Tensor Cache
      → String
      → Tensor
      → Bool
      → Result PassFault (PipelineResult Tensor) × System Tensor Cache
  step_from [] system request_id x reset_cache =
      (raise index_error, record system { store = create_slot system.store request_id })
  step_from (first ∷ rest) system request_id x reset_cache =
      after_call (create_slot system.store request_id) system.network request_id (
        call_run_shard torch runner.measure runner.callback_up (suc (length rest)) system.network
          (address first.ip_address first.inference_port)
          (run_request torch runner request_id x reset_cache))

  -- `_run_shard_step`, with the id that `uuid4` gives.
  unfoldable pub run_shard_step :
      System Tensor Cache
      → String
      → Tensor
      → Bool
      → Result PassFault (PipelineResult Tensor) × System Tensor Cache
  run_shard_step system request_id x reset_cache =
      step_from runner.plan.assignments system request_id x reset_cache

  -- `run_forward`
  unfoldable pub run_forward :
      System Tensor Cache
      → String
      → Tensor
      → Result PassFault (PipelineResult Tensor) × System Tensor Cache
  run_forward system request_id x = run_shard_step system request_id x true

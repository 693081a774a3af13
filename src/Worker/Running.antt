-- ===== src/Worker/Running.antt =====
-- `RunShard` of inference/service.py. A handler runs up to its outgoing call, which is made over the
-- network, and then replies by what came of the call.
use pi_ssm.Base.{
  ℕ, String, Bool, true, false, not, Option, none, some, List, [], ◌∷◌, ◌++◌, ◌==◌, if◌then◌else◌,
}
use pi_ssm.Base.Dict
use pi_ssm.Base.Result.{Result, ok, raise}
use pi_ssm.Tensors.{Torch, Payload, TensorFault, serialize_tensor, deserialize_tensor}
use pi_ssm.Shard.{ShardFault, forward}
use pi_ssm.Worker.{ModelHandle, Worker}

pub record RunShardRequest : Type 0 where
  pub model_name : String
  pub input_tensor : Payload
  pub generate_mode : Bool
  pub max_new_tokens : ℕ
  pub request_id : String
  pub orchestrator_callback_address : String
  pub node_latencies_ms : List ℕ
  pub node_peak_memory_mb : List ℕ
  pub reset_cache : Bool

pub record DeliverResultRequest : Type 0 where
  pub request_id : String
  pub output_tensor : Payload
  pub node_latencies_ms : List ℕ
  pub node_peak_memory_mb : List ℕ

-- What the handler's `except` clause catches. `MambaShardModule` has no method `generate`, so a call
-- of it raises `AttributeError`.
pub data RunFault : Type 0 where
  tensor_fault : TensorFault → RunFault
  shard_fault : ShardFault → RunFault
  no_generate : RunFault
  rpc_error : RunFault

-- The reply: the gRPC status NOT_FOUND, a failure, an acknowledgement, or an output with its
-- latency and memory.
pub data RunReply : Type 0 where
  not_loaded : String → RunReply
  failed : RunFault → RunReply
  acknowledged : RunReply
  output : Payload → ℕ → ℕ → RunReply

-- The call that the handler makes before it replies.
pub data Outgoing : Type 0 where
  run_shard : String → RunShardRequest → Outgoing
  deliver_result : String → DeliverResultRequest → Outgoing

pub data Phase : Type 0 where
  reply : RunReply → Phase
  call : Outgoing → Phase

-- The measured `elapsed_ms` and `peak_memory_mb` of one call.
pub record Measure : Type 0 where
  pub elapsed_ms : ℕ
  pub peak_memory_mb : ℕ

module _ {Tensor Cache : Type 0} where
  -- The cache that a pipeline call runs on.
  unfoldable pub call_cache : Bool → ModelHandle Tensor Cache → Cache
  call_cache reset_cache handle = elim handle.cache [
    | none ↦ handle.model.fresh_cache
    | some cache ↦ if reset_cache then handle.model.fresh_cache else cache
  ]

module _ {Tensor : Type 0} (torch : Torch Tensor) where
  abbrev pub next_request : RunShardRequest → Measure → Tensor → RunShardRequest
  next_request request measure out = record {
    model_name = request.model_name;
    input_tensor = serialize_tensor torch out;
    generate_mode = false;
    max_new_tokens = request.max_new_tokens;
    request_id = request.request_id;
    orchestrator_callback_address = request.orchestrator_callback_address;
    node_latencies_ms = request.node_latencies_ms ++ measure.elapsed_ms ∷ [];
    node_peak_memory_mb = request.node_peak_memory_mb ++ measure.peak_memory_mb ∷ [];
    reset_cache = request.reset_cache;
  }

  abbrev pub deliver_request : RunShardRequest → Measure → Tensor → DeliverResultRequest
  deliver_request request measure out = record {
    request_id = request.request_id;
    output_tensor = serialize_tensor torch out;
    node_latencies_ms = request.node_latencies_ms ++ measure.elapsed_ms ∷ [];
    node_peak_memory_mb = request.node_peak_memory_mb ++ measure.peak_memory_mb ∷ [];
  }

  abbrev pub plain_phase : Measure → Result ShardFault Tensor → Phase
  plain_phase measure (raise fault) = reply (failed (shard_fault fault))
  plain_phase measure (ok out) =
      reply (output (serialize_tensor torch out) measure.elapsed_ms measure.peak_memory_mb)

module _ {Tensor Cache : Type 0} (torch : Torch Tensor) where
  -- The message behind a pipeline call's output: to the next worker, or to the orchestrator.
  unfoldable pub outgoing : ModelHandle Tensor Cache → RunShardRequest → Measure → Tensor → Outgoing
  outgoing handle request measure out =
      if handle.next_worker_address == ""
      then deliver_result request.orchestrator_callback_address
          (deliver_request torch request measure out)
      else run_shard handle.next_worker_address (next_request torch request measure out)

  abbrev pub pipeline_phase :
      ModelHandle Tensor Cache → RunShardRequest → Measure → Result ShardFault Tensor → Phase
  pipeline_phase handle request measure (raise fault) = reply (failed (shard_fault fault))
  pipeline_phase handle request measure (ok out) = call (outgoing handle request measure out)

  -- The body of the `try` behind the input tensor, with the handle as it leaves it.
  unfoldable pub run_handle :
      ModelHandle Tensor Cache
      → RunShardRequest
      → Measure
      → Tensor
      → ModelHandle Tensor Cache × Phase
  unfolding call_cache outgoing
  run_handle handle request measure x =
      if not (request.orchestrator_callback_address == "")
      then (let (result, cache) =
            forward handle.model x (some (call_cache request.reset_cache handle)) in
          (record handle { cache = cache }, pipeline_phase handle request measure result))
      else if request.generate_mode
      then (handle, reply (failed no_generate))
      else (handle, plain_phase torch measure (forward handle.model x none).0)

  abbrev pub run_input :
      Worker Tensor Cache
      → ModelHandle Tensor Cache
      → RunShardRequest
      → Measure
      → Result TensorFault Tensor
      → Worker Tensor Cache × Phase
  run_input w handle request measure (raise fault) = (w, reply (failed (tensor_fault fault)))
  run_input w handle request measure (ok x) =
      let (after, phase) = run_handle handle request measure x in
      (record w { models = Dict.put w.models request.model_name after }, phase)

  abbrev pub run_found :
      Worker Tensor Cache
      → RunShardRequest
      → Measure
      → Option (ModelHandle Tensor Cache)
      → Worker Tensor Cache × Phase
  run_found w request measure none = (w, reply (not_loaded request.model_name))
  run_found w request measure (some handle) =
      run_input w handle request measure (deserialize_tensor torch request.input_tensor)

  -- `RunShard` up to its outgoing call.
  unfoldable pub start_run_shard :
      Worker Tensor Cache → RunShardRequest → Measure → Worker Tensor Cache × Phase
  start_run_shard w request measure =
      run_found w request measure (Dict.get w.models request.model_name)

-- The reply behind the outgoing call: a call that raises is a failure, and the content of a
-- response that arrives is not looked at.
abbrev pub finish_run_shard : Bool → RunReply
finish_run_shard true = acknowledged
finish_run_shard false = failed rpc_error

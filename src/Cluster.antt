-- ===== src/Cluster.antt =====
-- The workers on the network, and one `RunShard` from the call that starts it to its last reply:
-- `RunShard` of inference/service.py with the clients of orchestrator/worker_client.py. A handler
-- waits for the reply of the worker that it forwards to, so one call is a nest of handlers.
pub mod Seats
pub mod Hops
pub mod Shards
pub mod Whole
use pi_ssm.Base.{ℕ, zero, suc, String, Bool, true, false, not, Option, none, some, List, [], ◌∷◌}
use pi_ssm.Base.Dict
use pi_ssm.Base.Dict.{Dict}
use pi_ssm.Tensors.{Torch}
use pi_ssm.Worker.{Worker}
use pi_ssm.Worker.Running.{
  RunShardRequest, DeliverResultRequest, RunReply, not_loaded, failed, acknowledged, output,
  rpc_error, Phase, reply, call, run_shard, deliver_result, Measure, start_run_shard,
  finish_run_shard,
}

-- The workers by the address at which each listens.
abbrev pub Network : Type 0 → Type 0 → Type 0
Network Tensor Cache = Dict (Worker Tensor Cache)

-- How a call of a worker ended: no worker was reached, or it replied.
pub data Response : Type 0 where
  unreachable : Response
  replied : RunReply → Response

-- The client raises `grpc.RpcError` for an unreachable worker and for a status other than OK.
abbrev pub returns : Response → Bool
returns unreachable = false
returns (replied (not_loaded name)) = false
returns (replied other) = true

pub record Outcome (Tensor Cache : Type 0) : Type 0 where
  pub network : Network Tensor Cache
  pub response : Response
  pub delivered : List DeliverResultRequest

module _ {Tensor Cache : Type 0} where
  -- `deliver_result` on the orchestrator's callback service, which is up or not.
  abbrev pub deliver : Bool → Network Tensor Cache → DeliverResultRequest → Outcome Tensor Cache
  deliver true network request = record {
    network = network;
    response = replied (finish_run_shard true);
    delivered = request ∷ [];
  }
  deliver false network request = record {
    network = network;
    response = replied (finish_run_shard false);
    delivered = [];
  }

  -- The reply behind a forwarded call.
  abbrev pub forwarded : Option (Outcome Tensor Cache) → Option (Outcome Tensor Cache)
  forwarded none = none
  forwarded (some o) =
      some (record o { response = replied (finish_run_shard (returns o.response)) })

module _ {Tensor Cache : Type 0} (torch : Torch Tensor) (measure : String → Measure)
    (callback_up : Bool) where
  abbrev pub after_phase :
      (Network Tensor Cache → String → RunShardRequest → Option (Outcome Tensor Cache))
      → Network Tensor Cache
      → Phase
      → Option (Outcome Tensor Cache)
  after_phase next network (reply r) =
      some (record { network = network; response = replied r; delivered = [] })
  after_phase next network (call (deliver_result callback request)) =
      some (deliver callback_up network request)
  after_phase next network (call (run_shard address request)) =
      forwarded (next network address request)

  abbrev pub at_worker :
      (Network Tensor Cache → String → RunShardRequest → Option (Outcome Tensor Cache))
      → Network Tensor Cache
      → String
      → RunShardRequest
      → Option (Worker Tensor Cache)
      → Option (Outcome Tensor Cache)
  at_worker next network address request none =
      some (record { network = network; response = unreachable; delivered = [] })
  at_worker next network address request (some w) =
      let (after, phase) = start_run_shard torch w request (measure address) in
      after_phase next (Dict.put network address after) phase

  -- `WorkerClient(address).run_shard(request)`, with fuel for the hops; `none` if it runs out.
  unfoldable pub call_run_shard :
      ℕ → Network Tensor Cache → String → RunShardRequest → Option (Outcome Tensor Cache)
  call_run_shard zero network address request = none
  call_run_shard (suc fuel) network address request =
      at_worker (call_run_shard fuel) network address request (Dict.get network address)

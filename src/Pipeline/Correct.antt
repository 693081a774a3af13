-- ===== src/Pipeline/Correct.antt =====
-- The pipeline on a deployed plan against a single node that holds the whole model.
use pi_ssm.Base.{
  ℕ, String, Bool, true, false, none, some, List, ◌∷◌, ◌≡◌, refl, ap, length, map, ◌==◌,
}
use pi_ssm.Base.Decimal.{address}
use pi_ssm.Base.Dict
use pi_ssm.Base.Result.{Result, ok}
use pi_ssm.Tensors.{Torch, TorchLaws}
use pi_ssm.Tensors.RoundTrip.{deserialize_tensor-serialize_tensor}
use pi_ssm.Shard.{ShardFault, forward}
use pi_ssm.Dispatch.{ShardAssignment}
use pi_ssm.Worker.{ModelHandle}
use pi_ssm.Worker.Running.{call_cache}
use pi_ssm.Cluster.Seats.{Seat, addresses, IsSeated, IsPlaced, pass, network_after}
use pi_ssm.Cluster.Hops.{call_run_shard_chain, delivery}
use pi_ssm.Results.{ResultStore, create_slot}
use pi_ssm.Results.Waiting.{resolved, settled, wait-resolved, slots-settled, deliver-create_slot}
use pi_ssm.Pipeline
use pi_ssm.Pipeline.{PipelineResult, PassFault, System, Runner, run_shard_step, deliver_result_rpc}

module _ {Tensor Cache : Type 0} where
  -- A single node's pass: the model on the node's cache, or on a fresh one.
  unfoldable pub run_alone :
      ModelHandle Tensor Cache → Tensor → Bool → Result ShardFault Tensor × ModelHandle Tensor Cache
  run_alone h x reset_cache =
      let (result, cache) = forward h.model x (some (call_cache reset_cache h)) in
      (result, record h { cache = cache })

module _ {Tensor Cache : Type 0} (torch : Torch Tensor) (laws : TorchLaws torch)
    (runner : Runner) where
  -- The workers of the plan stand on the network, the first at the address that the plan names, and
  -- none of the ids to come is in use.
  pub record IsReady (ids : ℕ → String) (system : System Tensor Cache) (first : Seat Tensor Cache)
      (rest : List (Seat Tensor Cache)) : Type 0 where
    pub head : ShardAssignment
    pub others : List ShardAssignment
    pub planned : runner.plan.assignments ≡ head ∷ others
    pub entrance : address head.ip_address head.inference_port ≡ first.address
    pub hops : length others ≡ length rest
    pub seated : IsSeated runner.plan.model_name (first ∷ rest)
    pub placed : IsPlaced system.network (first ∷ rest)
    pub unused : (k : ℕ) → Dict.get system.store.slots (ids k) ≡ none
    pub reachable : runner.callback_up ≡ true
    pub mode : (runner.callback_address == "") ≡ false

  -- The result that the workers of a chain deliver.
  abbrev pub result_of : List (Seat Tensor Cache) → Tensor → PipelineResult Tensor
  result_of seats out = record {
    output_tensor = out;
    node_latencies_ms = map (λ a. (runner.measure a).elapsed_ms) (addresses seats);
    node_peak_memory_mb = map (λ a. (runner.measure a).peak_memory_mb) (addresses seats);
  }

  delivered_lem :
      (store : ResultStore (PipelineResult Tensor)) (id : String) (seats : List (Seat Tensor Cache))
      (x out : Tensor) (reset : Bool)
      → deliver_result_rpc torch (create_slot store id) (
          delivery torch laws runner.measure
            (Pipeline.run_request torch runner id x reset)
            seats
            out)
        ≡ resolved store id (result_of seats out)
  unfolding deliver_result_rpc
  delivered_lem store id seats x out reset =
      rw (deserialize_tensor-serialize_tensor torch laws out) (
        ap (λ (p : ResultStore (PipelineResult Tensor) × Bool). p.0)
          (deliver-create_slot store id (result_of seats out)))

  -- A pass through a ready chain whose shards run returns the output of the last shard with one
  -- latency and one memory figure per worker, and ends its slot.
  pub run_shard_step_lem :
      (ids : ℕ → String) (k : ℕ) (system : System Tensor Cache) (first : Seat Tensor Cache)
      (rest : List (Seat Tensor Cache)) (x out : Tensor) (reset : Bool)
      (after : List (Seat Tensor Cache))
      → IsReady ids system first rest
      → pass runner.plan.model_name reset (first ∷ rest) x ≡ some (out, after)
      → (system' : System Tensor Cache) × (run_shard_step torch runner system (ids k) x reset
          ≡ (ok (result_of (first ∷ rest) out), system'))
        × (system'.store.slots ≡ system.store.slots)
        × (system'.network ≡ network_after after system.network)
  unfolding run_shard_step
  run_shard_step_lem ids k system first rest x out reset after ready passed =
      let id = ids k in
      let result = result_of (first ∷ rest) out in
      (
        record {
          store = settled system.store id result;
          network = network_after after system.network;
        },
        rw (
          ready.planned,
          ready.entrance,
          ready.hops,
          ready.reachable,
          call_run_shard_chain torch laws runner.measure first rest system.network
              (Pipeline.run_request torch runner id x reset) x out after ready.seated ready.placed
              refl ready.mode passed,
          delivered_lem system.store id (first ∷ rest) x out reset,
          wait-resolved system.store id result,
        ),
        slots-settled system.store id result (ready.unused k),
        refl,
      )

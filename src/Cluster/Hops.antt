-- ===== src/Cluster/Hops.antt =====
-- A call of `RunShard` at the first worker of a chain runs the shards of the chain in order, and has
-- the last worker deliver one result.
use pi_ssm.Base.{
  ℕ, suc, String, true, false, Option, some, List, [], ◌∷◌, ◌++◌, ◌≡◌, refl, ◌==◌, length, map,
  append_assoc,
}
use pi_ssm.Base.Dict
use pi_ssm.Base.Dict.{get-put}
use pi_ssm.Base.Result.{ok}
use pi_ssm.Tensors.{Torch, TorchLaws, serialize_tensor}
use pi_ssm.Tensors.RoundTrip.{deserialize_tensor-serialize_tensor}
use pi_ssm.Shard.{forward}
use pi_ssm.Worker.{ModelHandle, Worker}
use pi_ssm.Worker.Running.{
  RunShardRequest, DeliverResultRequest, acknowledged, next_request, deliver_request,
  deliver_result, run_shard, call, Measure, call_cache, outgoing, run_handle, start_run_shard,
}
use pi_ssm.Cluster.{Network, replied, call_run_shard}
use pi_ssm.Cluster.Seats.{
  Seat, addresses, IsSeated, IsPlaced, IsPlaced-put, pass, pass-cons, pass-nil, network_after,
  served,
}

append_regroup : (xs : List ℕ) (x : ℕ) (ys : List ℕ) → (xs ++ x ∷ []) ++ ys ≡ xs ++ x ∷ ys
append_regroup xs x ys = append_assoc xs (x ∷ []) ys

module _ {Tensor Cache : Type 0} (torch : Torch Tensor) (laws : TorchLaws torch)
    (measure : String → Measure) where
  -- What the last worker of a chain delivers: the output, and one latency and one memory figure for
  -- each worker in order behind those that the request brought.
  abbrev pub delivery : RunShardRequest → List (Seat Tensor Cache) → Tensor → DeliverResultRequest
  delivery request seats z = record {
    request_id = request.request_id;
    output_tensor = serialize_tensor torch z;
    node_latencies_ms =
        request.node_latencies_ms ++ map (λ a. (measure a).elapsed_ms) (addresses seats);
    node_peak_memory_mb =
        request.node_peak_memory_mb ++ map (λ a. (measure a).peak_memory_mb) (addresses seats);
  }

  start_run_shard_lem :
      (w : Worker Tensor Cache) (h : ModelHandle Tensor Cache) (request : RunShardRequest)
      (m : Measure) (x y : Tensor) (cache : Option Cache)
      → Dict.get w.models request.model_name ≡ some h
      → request.input_tensor ≡ serialize_tensor torch x
      → (request.orchestrator_callback_address == "") ≡ false
      → forward h.model x (some (call_cache request.reset_cache h)) ≡ (ok y, cache)
      → start_run_shard torch w request m ≡ (
        record w { models = Dict.put w.models request.model_name (record h { cache = cache }) },
        call (outgoing torch h request m y),
      )
  unfolding start_run_shard run_handle
  start_run_shard_lem w h request m x y cache found sent mode ran =
      rw (found, sent, deserialize_tensor-serialize_tensor torch laws x, mode, ran)

  outgoing_last :
      (h : ModelHandle Tensor Cache) (request : RunShardRequest) (m : Measure) (y : Tensor)
      → h.next_worker_address ≡ ""
      → outgoing torch h request m y
        ≡ deliver_result request.orchestrator_callback_address (deliver_request torch request m y)
  unfolding outgoing
  outgoing_last h request m y e = rw e

  outgoing_next :
      (h : ModelHandle Tensor Cache) (request : RunShardRequest) (m : Measure) (y : Tensor)
      (address : String)
      → h.next_worker_address ≡ address
      → (address == "") ≡ false
      → outgoing torch h request m y ≡ run_shard address (next_request torch request m y)
  unfolding outgoing
  outgoing_next h request m y address e nonempty = rw (e, nonempty)

  -- Take a chain of workers that hold shards of the request's model, at distinct addresses on the
  -- network, each with the address of the next one and the last with none; a request that carries a
  -- serialized tensor and a callback address that is not empty; a callback service that is reachable;
  -- no shard that raises, when each runs on the output of the one before it; and PyTorch's documented
  -- laws. Then a `RunShard` call at the first worker ends with an acknowledgement: every worker ran its
  -- shard on the output of the one before it, and the last delivered one result with the output of the
  -- last shard and one figure per worker, in order, behind those of the request. Fuel for as many hops
  -- as there are workers is enough.
  pub call_run_shard_chain :
      (s : Seat Tensor Cache) (rest : List (Seat Tensor Cache)) (network : Network Tensor Cache)
      (request : RunShardRequest) (x z : Tensor) (after : List (Seat Tensor Cache))
      → IsSeated request.model_name (s ∷ rest)
      → IsPlaced network (s ∷ rest)
      → request.input_tensor ≡ serialize_tensor torch x
      → (request.orchestrator_callback_address == "") ≡ false
      → pass request.model_name request.reset_cache (s ∷ rest) x ≡ some (z, after)
      → call_run_shard torch measure true (suc (length rest)) network s.address request
        ≡ some (record {
          network = network_after after network;
          response = replied acknowledged;
          delivered = delivery request (s ∷ rest) z ∷ [];
        })
  unfolding call_run_shard
  call_run_shard_chain s [] network request x z after i placed sent mode h =
      let p = pass-cons request.model_name request.reset_cache s [] x z after h in
      let (same, none_left) =
        pass-nil request.model_name request.reset_cache p.out z p.others p.went_on in
      rw (
        placed.0,
        start_run_shard_lem s.worker s.handle request (measure s.address) x p.out p.cache i.0 sent
            mode p.ran,
        outgoing_last s.handle request (measure s.address) p.out i.1,
        p.whole,
        none_left,
        same,
      )
  call_run_shard_chain s (r ∷ rest) network request x z after i placed sent mode h =
      let p = pass-cons request.model_name request.reset_cache s (r ∷ rest) x z after h in
      let m = measure s.address in
      let w = (served request.model_name s p.cache).worker in
      let ih =
        call_run_shard_chain r rest (Dict.put network s.address w)
          (next_request torch request m p.out) p.out z p.others i.4
          (IsPlaced-put network s.address w (r ∷ rest) i.3 placed.1) refl mode p.went_on in
      rw (
        placed.0,
        start_run_shard_lem s.worker s.handle request m x p.out p.cache i.0 sent mode p.ran,
        outgoing_next s.handle request m p.out r.address i.1 i.4.2,
        ih,
        p.whole,
        append_regroup request.node_latencies_ms m.elapsed_ms
            (map (λ a. (measure a).elapsed_ms) (addresses (r ∷ rest))),
        append_regroup request.node_peak_memory_mb m.peak_memory_mb
            (map (λ a. (measure a).peak_memory_mb) (addresses (r ∷ rest))),
      )

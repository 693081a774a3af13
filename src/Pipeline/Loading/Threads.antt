-- ===== src/Pipeline/Loading/Threads.antt =====
-- The threads of the workers while `load` of PipelineRunner waits: each builds the shard of its request
-- and delivers its report by `ReportShardReady` of orchestrator/pipeline.py.
use pi_ssm.Base.{ℕ, String, Option, none, some, List, [], ◌∷◌}
use pi_ssm.Base.Dict
use pi_ssm.Base.Dict.{Dict}
use pi_ssm.Base.Result.{Result}
use pi_ssm.Dispatch.{ShardAssignment}
use pi_ssm.Results.{ResultStore}
use pi_ssm.Shard.{ShardModule}
use pi_ssm.Worker.Loading.{LoadShardRequest, ShardReadyRequest, Node, load_shard_background}
use pi_ssm.Pipeline.Loading.{
  Loading, Nodes, ShardReadyResult, report_shard_ready_rpc, worker_address,
}

module _ {Tensor Cache : Type 0} where
  -- The newest report of a worker's threads, delivered.
  abbrev pub deliver_report :
      Nodes Tensor Cache
      → ResultStore ShardReadyResult
      → String
      → Node Tensor Cache
      → List (String × ShardReadyRequest)
      → Loading Tensor Cache
  deliver_report nodes store where_at n [] = record {
    nodes = Dict.put nodes where_at n;
    store = store;
  }
  deliver_report nodes store where_at n ((callback, request) ∷ rest) = record {
    nodes = Dict.put nodes where_at (record n { reports = rest });
    store = report_shard_ready_rpc store request;
  }

  abbrev pub end_thread :
      Loading Tensor Cache
      → String
      → Node Tensor Cache
      → ℕ
      → Result String (ShardModule Tensor Cache × ℕ)
      → List LoadShardRequest
      → Loading Tensor Cache
  end_thread c where_at n now built [] = c
  end_thread c where_at n now built (request ∷ others) =
      let after = load_shard_background n [] request others now built in
      deliver_report c.nodes c.store where_at after after.reports

  abbrev pub end_at :
      Loading Tensor Cache
      → String
      → ℕ
      → Result String (ShardModule Tensor Cache × ℕ)
      → Option (Node Tensor Cache)
      → Loading Tensor Cache
  end_at c where_at now built none = c
  end_at c where_at now built (some n) = end_thread c where_at n now built n.running

  -- The oldest thread of each worker in turn builds its shard and reports, with what building gives
  -- at each address.
  unfoldable pub end_threads :
      (String → Result String (ShardModule Tensor Cache × ℕ))
      → ℕ
      → List ShardAssignment
      → Loading Tensor Cache
      → Loading Tensor Cache
  end_threads built now [] c = c
  end_threads built now (a ∷ rest) c = end_threads built now rest (
      end_at c (worker_address a) now (built (worker_address a))
        (Dict.get c.nodes (worker_address a)))

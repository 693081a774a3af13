-- ===== src/Pipeline/Unload.antt =====
-- `unload` of `PipelineRunner` in orchestrator/pipeline.py, on the workers that hold the shards.
use pi_ssm.Base.{
  String, ◌&&◌, Option, none, some, List, [], ◌∷◌, ◌≡◌, refl, ap, ◌∙◌, arith, ◌==◌, eq_iff,
  if◌then◌else◌, contains, map, sym, Bool-cases, inl, inr,
}
use pi_ssm.Base.Dict
use pi_ssm.Base.Dict.{get-put, get-remove}
use pi_ssm.Dispatch.{ShardAssignment, DispatchPlan}
use pi_ssm.Worker.{ModelHandle, Worker}
use pi_ssm.Worker.Loading.{unload_shard}
use pi_ssm.Cluster.{Network}
use pi_ssm.Pipeline.Loading.{worker_address}

module _ {Tensor Cache : Type 0} where
  -- One call of `UnloadShard`; a worker that is not reached is skipped.
  abbrev pub unload_at :
      Network Tensor Cache → String → String → Option (Worker Tensor Cache) → Network Tensor Cache
  unload_at network model_name where_at none = network
  unload_at network model_name where_at (some w) =
      Dict.put network where_at (unload_shard w model_name).0

  abbrev pub unload_loop :
      Network Tensor Cache → String → List ShardAssignment → Network Tensor Cache
  unload_loop network model_name [] = network
  unload_loop network model_name (a ∷ rest) =
      unload_loop
        (unload_at network model_name (worker_address a) (Dict.get network (worker_address a)))
        model_name rest

  unfoldable pub unload : DispatchPlan → Network Tensor Cache → Network Tensor Cache
  unload plan network = unload_loop network plan.model_name plan.assignments

  -- The handle of a model on the worker at an address.
  abbrev pub handle_at : String → Option (Worker Tensor Cache) → Option (ModelHandle Tensor Cache)
  handle_at name none = none
  handle_at name (some w) = Dict.get w.models name

  handle_at-unload_at :
      (network : Network Tensor Cache) (name here : String) (found : Option (Worker Tensor Cache))
      (k j : String)
      → Dict.get network here ≡ found
      → handle_at j (Dict.get (unload_at network name here found) k)
        ≡ (if (here == k) && (name == j) then none else handle_at j (Dict.get network k))
  unfolding unload_shard
  handle_at-unload_at network name here none k j e = elim (Bool-cases (here == k)) [
    | inl same ↦
        let at_k = ap (Dict.get network) (sym ((eq_iff here k).0 same)) ∙ e in
        rw (at_k, same) (ground arith)
    | inr other ↦ rw other refl
  ]
  handle_at-unload_at network name here (some w) k j e =
      let left = record w { models = Dict.remove w.models name } in
      elim (Bool-cases (here == k)) [
        | inl same ↦
            let at_k = ap (Dict.get network) (sym ((eq_iff here k).0 same)) ∙ e in
            rw (get-put network here k left, same, at_k) (get-remove w.models name j)
        | inr other ↦ rw (get-put network here k left, other) refl
      ]

  unload_loop_lem :
      (network : Network Tensor Cache) (name : String) (chain : List ShardAssignment) (k j : String)
      → handle_at j (Dict.get (unload_loop network name chain) k) ≡ (
          if contains k (map worker_address chain) && (name == j)
          then none
          else handle_at j (Dict.get network k))
  unload_loop_lem network name [] k j = refl
  unload_loop_lem network name (a ∷ rest) k j =
      let here = worker_address a in
      let after = unload_at network name here (Dict.get network here) in
      ground (
        arith,
        unload_loop_lem after name rest k j,
        handle_at-unload_at network name here (Dict.get network here) k j refl,
      )

  -- After `unload`, no worker at an address of the plan holds the plan's model, whether or not the
  -- other workers are reachable, and every other handle on every worker is what it was.
  pub handle_at-unload :
      (plan : DispatchPlan) (network : Network Tensor Cache) (k j : String)
      → handle_at j (Dict.get (unload plan network) k) ≡ (
          if contains k (map worker_address plan.assignments) && (plan.model_name == j)
          then none
          else handle_at j (Dict.get network k))
  unfolding unload
  handle_at-unload plan network k j = unload_loop_lem network plan.model_name plan.assignments k j

-- ===== src/Pipeline/Loading/Generated.antt =====
-- From a registry to tokens: a plan, its load, and a generation.
use pi_ssm.Base.{
  Option, some, ℕ, String, true, false, List, ◌∷◌, ◌≡◌, refl, sym, ◌∙◌, subst, ◌==◌, map,
  length-map,
}
use pi_ssm.Base.Dict
use pi_ssm.Base.Entries.{put_all, Stands, Stands-put_all}
use pi_ssm.Base.Result.{Result, ok}
use pi_ssm.Dispatch.{ShardAssignment, DispatchPlan, plan_dispatch}
use pi_ssm.Dispatch.Plan.{plan_dispatch-ok, IsChain, Linked, Flagged, layer_range}
use pi_ssm.Dispatch.Ranges.{Tiles}
use pi_ssm.Manifest.Defs.{Manifest}
use pi_ssm.ModelStore.{ModelStore}
use pi_ssm.Nodes.{NodeRegistry}
use pi_ssm.Results.{ResultStore, new_store}
use pi_ssm.Shard.{ShardModule, Mamba}
use pi_ssm.Shard.Caches.{AreLocal}
use pi_ssm.Tensors.{Torch, TorchLaws}
use pi_ssm.Worker.{ModelHandle}
use pi_ssm.Worker.Loading.{Node, idle}
use pi_ssm.Worker.Running.{Measure}
use pi_ssm.Cluster.Shards.{depth}
use pi_ssm.Cluster.Whole.{whole}
use pi_ssm.Pipeline.{Runner, System}
use pi_ssm.Pipeline.Correct.{IsReady}
use pi_ssm.Pipeline.Generation.{
  Mirrors, cluster_step, alone_step, token_of, generate_stream-IsAlike,
}
use pi_ssm.Pipeline.Streams.{generate_stream, IsAlike}
use pi_ssm.Pipeline.Loading.{ShardReadyResult, Nodes, Loading, load}
use pi_ssm.Pipeline.Loading.Threads.{end_threads}
use pi_ssm.Pipeline.Loading.Dispatched.{Post, entries_of, started, loaded_worker, AreApart-entries}
use pi_ssm.Pipeline.Loading.Deployed.{
  workers_of, seat_of, seats_of, IsPrepared, AllShards, loaded_nodes, load_lem, IsSeated-seats_of,
  IsPlaced-seats_of, IsDeployed-seats_of,
}

module _ {Tensor Cache State : Type 0} (torch : Torch Tensor) (laws : TorchLaws torch)
    (model : Mamba Tensor Cache) (slot : Cache → ℕ → State) (ids : ℕ → String)
    (measure : String → Measure) (model_store : ModelStore) (callback : String) (now : ℕ)
    (built : String → Result String (ShardModule Tensor Cache × ℕ)) where
  abbrev pub runner_for : DispatchPlan → Runner
  runner_for plan = record {
    plan = plan;
    callback_address = callback;
    measure = measure;
    callback_up = true;
  }

  abbrev pub system_after : Loading Tensor Cache → System Tensor Cache
  system_after c = record { store = new_store; network = workers_of c.nodes }

  IsReady-loaded :
      (plan : DispatchPlan) (p : Post Tensor Cache) (rest : List (Post Tensor Cache))
      (nodes : Nodes Tensor Cache) (c : Loading Tensor Cache)
      → IsChain (depth model) plan.assignments
      → (callback == "") ≡ false
      → IsPrepared model_store plan callback now built (p ∷ rest) nodes
      → c.nodes ≡ loaded_nodes model_store plan callback now built (p ∷ rest) nodes
      → IsReady torch laws
          (runner_for plan)
          ids
          (system_after c)
          (seat_of model_store plan callback now p)
          (seats_of model_store plan callback now rest)
  unfolding Dict.get
  IsReady-loaded plan p rest nodes c chain mode h e =
      let loaded : Post Tensor Cache → Node Tensor Cache =
        λ q. idle (loaded_worker model_store plan callback now q) in
      let entries = entries_of loaded (p ∷ rest) in
      let apart =
        AreApart-entries model_store plan callback now (λ q. idle q.worker) loaded (p ∷ rest)
          h.apart in
      record {
        head = p.a;
        others = map (λ q. q.a) rest;
        planned = h.assigned;
        entrance = refl;
        hops =
            length-map (λ (q : Post Tensor Cache). q.a) rest
            ∙ sym (length-map (seat_of model_store plan callback now) rest);
        seated =
            IsSeated-seats_of model_store plan callback now (p ∷ rest) h.apart
              (subst Linked h.assigned chain.linked);
        placed = IsPlaced-seats_of model_store plan callback now (p ∷ rest) c.nodes (
            subst (λ (n : Nodes Tensor Cache). Stands n entries) (sym e)
              (Stands-put_all
                (put_all nodes (entries_of (started model_store plan callback now) (p ∷ rest)))
                entries apart));
        unused = λ k. refl;
        reachable = refl;
        mode = mode;
      }

  module _ (local : AreLocal slot 0 model.layers) (argmax : Tensor → Tensor) where
    -- Take a plan that `plan_dispatch` has returned for a manifest with the model's number of layers;
    -- workers at the addresses of the plan, distinct and with distinct ids, none of which has the model
    -- or is loading one; a model store that extracts metadata for every range; and threads that build
    -- at each worker the shard that `from_model` gives for its range. Each layer reads and writes only
    -- its own entry of a cache, PyTorch keeps its documented laws, and the callback service is reachable
    -- at an address that is not empty. Then `load`, whose threads and waits end in the order of the
    -- plan, returns, and on the workers that it leaves `generate_stream` yields, for every prompt and
    -- every number of rounds, the tokens that a node with the whole model yields, and does not raise.
    pub generate_stream-load :
        (load_timeout_s : Option ℕ) (manifest : Manifest String ℕ) (registry : NodeRegistry)
        (plan : DispatchPlan) (p : Post Tensor Cache) (rest : List (Post Tensor Cache))
        (nodes : Nodes Tensor Cache) (store : ResultStore ShardReadyResult)
        (h : ModelHandle Tensor Cache) (prompt : Tensor) (count : ℕ)
        → plan_dispatch manifest registry ≡ ok plan
        → manifest.layers ≡ depth model
        → IsPrepared model_store plan callback now built (p ∷ rest) nodes
        → AllShards model_store plan callback now model (p ∷ rest)
        → (callback == "") ≡ false
        → h.model ≡ whole model
        → (c : Loading Tensor Cache) × (load load_timeout_s model_store plan callback
              plan.assignments
              (end_threads built now plan.assignments)
              (record { nodes = nodes; store = store })
            ≡ (c, some (ok tt)))
          × IsAlike
              (cluster_step torch laws (runner_for plan) ids model slot)
              (alone_step torch laws (runner_for plan) ids model slot)
              (token_of torch laws (runner_for plan) ids model slot argmax local)
              argmax
              (Mirrors torch laws (runner_for plan) ids model slot)
              count
              (generate_stream
                (cluster_step torch laws (runner_for plan) ids model slot)
                (token_of torch laws (runner_for plan) ids model slot argmax local)
                prompt
                count
                (system_after c))
              (generate_stream
                (alone_step torch laws (runner_for plan) ids model slot)
                argmax
                prompt
                count
                h)
    generate_stream-load load_timeout_s manifest registry plan p rest nodes store h prompt count
          planned layers prepared shards mode alone =
        let chain =
          subst (λ (total : ℕ). IsChain total plan.assignments) layers
            (plan_dispatch-ok manifest registry plan planned).0 in
        let (c, returned, left) =
          load_lem model_store plan callback now built load_timeout_s p rest nodes store prepared in
        (
          c,
          returned,
          generate_stream-IsAlike torch laws (runner_for plan) ids model slot argmax local prompt
              count (system_after c) h (seat_of model_store plan callback now p)
              (seats_of model_store plan callback now rest)
              (IsReady-loaded plan p rest nodes c chain mode prepared left)
              (IsDeployed-seats_of model_store plan callback now model 0 (p ∷ rest)
                (subst
                  (λ (chained : List ShardAssignment).
                    Tiles 0 (depth model) (map layer_range chained))
                  prepared.assigned chain.tiles)
                (subst (Flagged (depth model)) prepared.assigned chain.flagged) shards)
              alone,
        )

-- ===== src/Pipeline/Loading/EndToEnd.antt =====
-- From a registry and a checkpoint to tokens.
use pi_ssm.Base.{ℕ, String, true, false, Option, some, List, ◌∷◌, ◌≡◌, sym, subst, ◌==◌, map}
use pi_ssm.Base.Dict.{Dict}
use pi_ssm.Base.Entries.{AreApart, Stands}
use pi_ssm.Base.Result.{Result, ok}
use pi_ssm.Dispatch.{ShardAssignment, DispatchPlan, plan_dispatch}
use pi_ssm.Dispatch.Plan.{plan_dispatch-ok, Flagged, layer_range}
use pi_ssm.Dispatch.Ranges.{Tiles}
use pi_ssm.Manifest.Defs.{Manifest}
use pi_ssm.ModelStore.{ModelStore}
use pi_ssm.Nodes.{NodeRegistry}
use pi_ssm.Results.{ResultStore}
use pi_ssm.Shard.{ShardModule, Mamba}
use pi_ssm.Shard.Caches.{AreLocal}
use pi_ssm.Shard.Weights.{Modules, LoadFault}
use pi_ssm.Shard.Weights.Blocks.{model_of}
use pi_ssm.Shard.Weights.Checkpoint.{IsCheckpoint}
use pi_ssm.Tensors.{Torch, TorchLaws}
use pi_ssm.Worker.{ModelHandle}
use pi_ssm.Worker.Loading.{idle}
use pi_ssm.Worker.Loading.Names.{IsDistinct}
use pi_ssm.Worker.Running.{Measure}
use pi_ssm.Cluster.Whole.{whole}
use pi_ssm.Pipeline.Generation.{Mirrors, cluster_step, alone_step, token_of}
use pi_ssm.Pipeline.Streams.{generate_stream, IsAlike}
use pi_ssm.Pipeline.Loading.{ShardReadyResult, Nodes, Loading, load}
use pi_ssm.Pipeline.Loading.Threads.{end_threads}
use pi_ssm.Pipeline.Loading.Dispatched.{Post, entries_of, assignments_of, AllFresh}
use pi_ssm.Pipeline.Loading.Deployed.{AllShards, IsPrepared}
use pi_ssm.Pipeline.Loading.Generated.{runner_for, system_after, generate_stream-load}
use pi_ssm.Pipeline.Loading.Checkpoints.{depth-whole_model, AllBuilding, AllBuilt-AllBuilding}

module _ {Weight Tensor Cache State : Type 0} (modules : Modules Weight Tensor Cache)
    (w : Dict String) (fetch : String → Option (Dict Weight)) (weight : ℕ → String → Weight)
    (embedding norm head : Weight) (describe : LoadFault → String) (torch : Torch Tensor)
    (laws : TorchLaws torch) (slot : Cache → ℕ → State) (ids : ℕ → String)
    (measure : String → Measure) (model_store : ModelStore) (callback : String) (now : ℕ)
    (built : String → Result String (ShardModule Tensor Cache × ℕ)) (argmax : Tensor → Tensor)
    (manifest : Manifest String ℕ) (registry : NodeRegistry) (plan : DispatchPlan)
    (planned : plan_dispatch manifest registry ≡ ok plan)
    (c : IsCheckpoint modules.block_parameters w fetch weight embedding norm head manifest.layers)
    (read : model_store.metadata ≡ some w) (mamba : (plan.arch == "mamba") ≡ true)
    (local : AreLocal slot 0
      (model_of modules weight manifest.layers embedding norm head).layers) where
  abbrev pub model_at : Mamba Tensor Cache
  model_at = model_of modules weight manifest.layers embedding norm head

  pub layers : plan.total_layers ≡ manifest.layers
  layers = (plan_dispatch-ok manifest registry plan planned).2

  -- The workers of the plan before the load: at distinct addresses and with distinct ids, each on the
  -- network, without the model, with the metadata that the model store extracts, and with a thread
  -- that builds the shard of its request.
  pub record AreReady (posts : List (Post Tensor Cache)) (nodes : Nodes Tensor Cache) : Type 0 where
    pub assigned : plan.assignments ≡ assignments_of posts
    pub apart : AreApart (entries_of (λ p. idle p.worker) posts)
    pub distinct : IsDistinct (map (λ p. p.a.node_id) posts)
    pub stands : Stands nodes (entries_of (λ p. idle p.worker) posts)
    pub fresh : AllFresh model_store plan callback now posts
    pub shards : AllShards model_store plan callback now model_at posts
    pub building :
        AllBuilding modules w fetch weight embedding norm head manifest.layers c describe
          model_store plan callback now read mamba layers built posts

  prepared_lem :
      (posts : List (Post Tensor Cache)) (nodes : Nodes Tensor Cache)
      → AreReady posts nodes
      → IsPrepared model_store plan callback now built posts nodes
  prepared_lem posts nodes h =
      let (chain, _, _) = plan_dispatch-ok manifest registry plan planned in
      record {
        assigned = h.assigned;
        apart = h.apart;
        distinct = h.distinct;
        stands = h.stands;
        fresh = h.fresh;
        builds =
            AllBuilt-AllBuilding modules w fetch weight embedding norm head manifest.layers c
              describe model_store plan callback now read mamba layers built 0 posts
              (subst
                (λ (chained : List ShardAssignment).
                  Tiles 0 manifest.layers (map layer_range chained))
                h.assigned chain.tiles)
              (subst (Flagged manifest.layers) h.assigned chain.flagged) h.fresh h.shards
              h.building;
        mamba = mamba;
      }

  -- Take a plan that `plan_dispatch` has returned for a manifest of the architecture `mamba`; a
  -- checkpoint that holds the weights of a model with the manifest's number of layers, whose weight map
  -- the model store has loaded; workers at the addresses of the plan, distinct and with distinct ids,
  -- none of which has the model or is loading one, with the locations that the model store extracts
  -- for their ranges; and threads that build at each worker, from these locations and the files of the
  -- checkpoint, what `from_tensor_locations` builds. Each layer of the model reads and writes only its
  -- own entry of a cache, PyTorch keeps its documented laws, and the callback service is reachable at
  -- an address that is not empty. Then `load`, whose threads and waits end in the order of the plan,
  -- returns, and on the workers that it leaves `generate_stream` yields, for every prompt and every
  -- number of rounds, the tokens that a node with the whole model yields, and does not raise.
  pub generate_stream-IsCheckpoint :
      (load_timeout_s : Option ℕ) (p : Post Tensor Cache) (rest : List (Post Tensor Cache))
      (nodes : Nodes Tensor Cache) (store : ResultStore ShardReadyResult)
      (h : ModelHandle Tensor Cache) (prompt : Tensor) (count : ℕ)
      → AreReady (p ∷ rest) nodes
      → (callback == "") ≡ false
      → h.model ≡ whole model_at
      → (end : Loading Tensor Cache) × (load load_timeout_s model_store plan callback
            plan.assignments
            (end_threads built now plan.assignments)
            (record { nodes = nodes; store = store })
          ≡ (end, some (ok tt)))
        × IsAlike
            (cluster_step torch laws
              (runner_for torch laws model_at slot ids measure model_store callback now built plan)
              ids
              model_at
              slot)
            (alone_step torch laws
              (runner_for torch laws model_at slot ids measure model_store callback now built plan)
              ids
              model_at
              slot)
            (token_of torch laws
              (runner_for torch laws model_at slot ids measure model_store callback now built plan)
              ids
              model_at
              slot
              argmax
              local)
            argmax
            (Mirrors torch laws
              (runner_for torch laws model_at slot ids measure model_store callback now built plan)
              ids
              model_at
              slot)
            count
            (generate_stream
              (cluster_step torch laws
                (runner_for torch laws model_at slot ids measure model_store callback now built
                  plan)
                ids
                model_at
                slot)
              (token_of torch laws
                (runner_for torch laws model_at slot ids measure model_store callback now built
                  plan)
                ids
                model_at
                slot
                argmax
                local)
              prompt
              count
              (system_after torch laws model_at slot ids measure model_store callback now built
                end))
            (generate_stream
              (alone_step torch laws
                (runner_for torch laws model_at slot ids measure model_store callback now built
                  plan)
                ids
                model_at
                slot)
              argmax
              prompt
              count
              h)
  generate_stream-IsCheckpoint load_timeout_s p rest nodes store h prompt count ready mode alone =
      generate_stream-load torch laws model_at slot ids measure model_store callback now built local
        argmax load_timeout_s manifest registry plan p rest nodes store h prompt count planned
        (sym
          (depth-whole_model modules w fetch weight embedding norm head manifest.layers c describe))
        (prepared_lem (p ∷ rest) nodes ready) ready.shards mode alone

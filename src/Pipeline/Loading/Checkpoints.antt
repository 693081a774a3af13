-- ===== src/Pipeline/Loading/Checkpoints.antt =====
-- From a registry and a checkpoint to tokens: the shards of a plan as the workers build them.
use pi_ssm.Base.{
  ℕ, zero, suc, ◌+◌, ◌≤◌, String, Bool, true, Option, some, List, [], ◌∷◌, ◌≡◌, refl, ap, sym, ◌∙◌,
  arith, ◌==◌, length, map, eqb,
}
use pi_ssm.Base.Dict.{Dict}
use pi_ssm.Base.Result.{Result, ok, raise}
use pi_ssm.Dispatch.{DispatchPlan}
use pi_ssm.Dispatch.Plan.{Flagged, layer_range}
use pi_ssm.Dispatch.Ranges.{Tiles}
use pi_ssm.ModelStore.{ModelStore, extract_shard, located}
use pi_ssm.Shard.{ShardModule, ShardFault, Mamba}
use pi_ssm.Shard.Locations.{TensorLocationSpec, tensor_locations_for_range}
use pi_ssm.Shard.Ranges.{shard_of, from_model_lem}
use pi_ssm.Shard.Weights.{Modules, LoadFault}
use pi_ssm.Shard.Weights.Blocks.{blocks_from, model_of}
use pi_ssm.Shard.Weights.Checkpoint.{IsCheckpoint}
use pi_ssm.Shard.Weights.Loaded.{from_tensor_locations-from_model}
use pi_ssm.Worker.Loading.Building.{build_shard, sized}
use pi_ssm.Cluster.Shards.{depth}
use pi_ssm.Pipeline.Loading.{worker_address}
use pi_ssm.Pipeline.Loading.Dispatched.{Post, request_of, assignments_of, AllFresh, AllBuilt}
use pi_ssm.Pipeline.Loading.Deployed.{AllShards}

shard_inj :
    {Tensor Cache : Type 0} (a b : ShardModule Tensor Cache)
    → (let r : Result ShardFault (ShardModule Tensor Cache) = ok a in r) ≡ ok b
    → a ≡ b
shard_inj a b e = cc

Tiles-le : (a b : ℕ) (ranges : List (ℕ × ℕ)) → Tiles a b ranges → a ≤ b
Tiles-le a b [] t = omega arith
Tiles-le a b ((s, e) ∷ ranges) t = omega (arith, Tiles-le e b ranges t.2)

module _ {Weight Tensor Cache : Type 0} (modules : Modules Weight Tensor Cache) (w : Dict String)
    (fetch : String → Option (Dict Weight)) (weight : ℕ → String → Weight)
    (embedding norm head : Weight) (total : ℕ)
    (c : IsCheckpoint modules.block_parameters w fetch weight embedding norm head total)
    (describe : LoadFault → String) where
  abbrev pub whole_model : Mamba Tensor Cache
  whole_model = model_of modules weight total embedding norm head

  length-blocks_from : (i n : ℕ) → length (blocks_from modules weight i n) ≡ n
  unfolding blocks_from
  length-blocks_from i zero = refl
  length-blocks_from i (suc n) = ap suc (length-blocks_from (i + 1) n)

  pub depth-whole_model : depth whole_model ≡ total
  depth-whole_model = length-blocks_from 0 total

  located_lem :
      (config : Option String) (r : Result String (List TensorLocationSpec))
      (locations : List TensorLocationSpec) (metadata : List TensorLocationSpec × Option String)
      → r ≡ ok locations
      → located config r ≡ ok metadata
      → metadata.0 ≡ locations
  located_lem config (raise name) locations metadata e h = absurd (cc)
  located_lem config (ok found) locations metadata e h = ground (arith, e, h)

  module _ (model_store : ModelStore) (plan : DispatchPlan) (callback : String) (now : ℕ)
      (read : model_store.metadata ≡ some w) (mamba : (plan.arch == "mamba") ≡ true)
      (layers : plan.total_layers ≡ total) where
    extract_lem :
        (s e : ℕ) (first last : Bool) (locations : List TensorLocationSpec)
        (metadata : List TensorLocationSpec × Option String)
        → tensor_locations_for_range w s e first last ≡ ok locations
        → extract_shard model_store plan.arch s e first last ≡ ok metadata
        → metadata.0 ≡ locations
    unfolding extract_shard
    extract_lem s e first last locations metadata found extracted =
        located_lem model_store.config_json (tensor_locations_for_range w s e first last) locations
          metadata found (rw (read, mamba) at extracted)

    -- Each worker's thread builds its shard out of its request's locations.
    module _ (built : String → Result String (ShardModule Tensor Cache × ℕ)) where
      abbrev pub AllBuilding : List (Post Tensor Cache) → Type 0
      AllBuilding [] = Unit
      AllBuilding (p ∷ posts) =
          (built (worker_address p.a)
            ≡ sized describe p.memory_mb
                (build_shard modules fetch (request_of model_store plan callback now p)))
          × AllBuilding posts

      build_shard_lem :
          (p : Post Tensor Cache)
          → p.a.layer_start ≤ p.a.layer_end
          → p.a.layer_end ≤ total
          → p.a.is_first ≡ eqb p.a.layer_start 0
          → p.a.is_last ≡ eqb p.a.layer_end total
          → extract_shard model_store plan.arch p.a.layer_start p.a.layer_end p.a.is_first
              p.a.is_last
            ≡ ok p.metadata
          → build_shard modules fetch (request_of model_store plan callback now p)
            ≡ ok (shard_of whole_model p.a.layer_start p.a.layer_end p.a.is_first p.a.is_last)
      unfolding build_shard
      build_shard_lem p start end first last extracted =
          let (locations, shard, found, sliced, loaded) =
            from_tensor_locations-from_model modules w fetch weight embedding norm head total c
              p.a.layer_start p.a.layer_end start end p.a.is_first p.a.is_last in
          let same =
            extract_lem p.a.layer_start p.a.layer_end p.a.is_first p.a.is_last locations p.metadata
              found extracted in
          rw (same, layers, ← first, ← last)
            (loaded
              ∙ ap ok (
                  shard_inj shard
                    (shard_of whole_model p.a.layer_start p.a.layer_end p.a.is_first p.a.is_last)
                    (sym sliced
                      ∙ from_model_lem whole_model p.a.layer_start p.a.layer_end p.a.is_first
                          p.a.is_last)))

      pub AllBuilt-AllBuilding :
          (a : ℕ) (posts : List (Post Tensor Cache))
          → Tiles a total (map layer_range (assignments_of posts))
          → Flagged total (assignments_of posts)
          → AllFresh model_store plan callback now posts
          → AllShards model_store plan callback now whole_model posts
          → AllBuilding posts
          → AllBuilt model_store plan callback now built posts
      AllBuilt-AllBuilding a [] tiles flags fresh shards building = tt
      AllBuilt-AllBuilding a (p ∷ posts) tiles flags fresh shards building =
          let end = Tiles-le p.a.layer_end total (map layer_range (assignments_of posts)) tiles.2 in
          let made =
            build_shard_lem p (omega (arith, tiles.1)) end flags.0.0 flags.0.1 fresh.0.extracted in
          (
            building.0
                ∙ ap (sized describe p.memory_mb) made
                ∙ ap
                    (λ (s : ShardModule Tensor Cache).
                      let r : Result String (ShardModule Tensor Cache × ℕ) = ok (s, p.memory_mb) in
                      r)
                    (sym shards.0),
            AllBuilt-AllBuilding p.a.layer_end posts tiles.2 flags.1 fresh.1 shards.1 building.1,
          )

-- ===== src/Worker/Loading/Building.antt =====
-- What a worker's thread builds for a request: `load_shard_from_metadata` of inference/loader.py with
-- `from_tensor_locations`, up to the size of the shard that it measures.
use pi_ssm.Base.{ℕ, String, Option, eqb}
use pi_ssm.Base.Dict.{Dict}
use pi_ssm.Base.Result.{Result, ok, raise}
use pi_ssm.Shard.{ShardModule}
use pi_ssm.Shard.Weights.{Modules, LoadFault, from_tensor_locations}
use pi_ssm.Worker.Loading.{LoadShardRequest}

module _ {Weight Tensor Cache : Type 0} (modules : Modules Weight Tensor Cache)
    (fetch : String → Option (Dict Weight)) where
  -- The shard of a request, with the flags that the thread computes from its range.
  unfoldable pub build_shard : LoadShardRequest → Result LoadFault (ShardModule Tensor Cache)
  build_shard request =
      from_tensor_locations modules fetch request.layer_start request.layer_end
        (eqb request.layer_start 0) (eqb request.layer_end request.total_layers)
        request.tensor_locations

-- A shard with its size, and an exception with its text.
abbrev pub sized :
    {Tensor Cache : Type 0}
    → (LoadFault → String)
    → ℕ
    → Result LoadFault (ShardModule Tensor Cache)
    → Result String (ShardModule Tensor Cache × ℕ)
sized describe memory_mb (raise fault) = raise (describe fault)
sized describe memory_mb (ok shard) = ok (shard, memory_mb)

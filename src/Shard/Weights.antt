-- ===== src/Shard/Weights.antt =====
-- `from_tensor_locations` of inference/shard.py with the `load_state_dict` that ends it. The modules of
-- PyTorch and transformers are a parameter: what a module computes with its weights, and the names of
-- the parameters of a Mamba block. `fetch_source_file` with `safe_open` gives the tensors of a file of
-- the checkpoint, or raises.
pub mod Names
pub mod Files
pub mod Checkpoint
pub mod Keys
pub mod Blocks
pub mod Parts
pub mod Loaded
use pi_ssm.Base.{
  ℕ, zero, suc, ◌+◌, ◌-◌, String, Bool, true, false, Option, none, some, List, [], ◌∷◌, ◌++◌, ◌==◌,
  if◌then◌else◌, concat, contains, map,
}
use pi_ssm.Base.Decimal.{decimal}
use pi_ssm.Base.Dict
use pi_ssm.Base.Dict.{Dict}
use pi_ssm.Base.Result.{Result, ok, raise, ◌>>=◌}
use pi_ssm.Shard.{Block, ShardModule, ShardFault, new_shard}
use pi_ssm.Shard.Locations.{TensorLocationSpec}

-- A module of the configuration with its weights.
pub record Modules (Weight Tensor Cache : Type 0) : Type 0 where
  pub block_parameters : List String
  pub block : ℕ → List Weight → Block Tensor Cache
  pub embedding : Weight → Tensor → Tensor
  pub norm : Weight → Tensor → Tensor
  pub head : Weight → Tensor → Tensor
  pub fresh_cache : Cache

pub data LoadFault : Type 0 where
  os_error : String → LoadFault
  no_tensor : String → LoadFault
  missing_key : String → LoadFault
  unexpected_key : String → LoadFault
  shard_fault : ShardFault → LoadFault

-- `locations_by_file.setdefault(source_file, []).append(location)`
abbrev pub appended :
    Option (List TensorLocationSpec) → TensorLocationSpec → List TensorLocationSpec
appended none location = location ∷ []
appended (some locations) location = locations ++ location ∷ []

unfoldable pub by_file :
    Dict (List TensorLocationSpec) → List TensorLocationSpec → Dict (List TensorLocationSpec)
by_file groups [] = groups
by_file groups (location ∷ rest) =
    by_file
      (Dict.put groups location.source_file
        (appended (Dict.get groups location.source_file) location))
      rest

-- The name of a parameter of a block in the shard's own numbering.
abbrev pub layer_key : ℕ → String → String
layer_key k parameter = concat ("layers." ∷ decimal k ∷ "." ∷ parameter ∷ [])

abbrev pub required : {A : Type 0} → LoadFault → Option A → Result LoadFault A
required fault none = raise fault
required fault (some a) = ok a

-- A key that no parameter of the shard has.
unfoldable pub check_keys : List String → List String → Result LoadFault (Unit {0})
check_keys expected [] = ok tt
check_keys expected (key ∷ keys) =
    if contains key expected then check_keys expected keys else raise (unexpected_key key)

module _ {Weight : Type 0} where
  -- The loop over the tensors of one file.
  unfoldable pub read_tensors :
      Dict Weight → List TensorLocationSpec → Dict Weight → Result LoadFault (Dict Weight)
  read_tensors tensors [] state = ok state
  read_tensors tensors (location ∷ rest) state = do
    tensor ← required (no_tensor location.source_name) (Dict.get tensors location.source_name)
    read_tensors tensors rest (Dict.put state location.dest_name tensor)

  -- The loop over the files.
  unfoldable pub read_files :
      (String → Option (Dict Weight))
      → Dict (List TensorLocationSpec)
      → Dict Weight
      → Result LoadFault (Dict Weight)
  read_files fetch [] state = ok state
  read_files fetch ((file, locations) ∷ rest) state = do
    tensors ← required (os_error file) (fetch file)
    after ← read_tensors tensors locations state
    read_files fetch rest after

  -- The weights of parameters in a state dictionary.
  unfoldable pub load_keys : Dict Weight → List String → Result LoadFault (List Weight)
  load_keys state [] = ok []
  load_keys state (key ∷ keys) = do
    weight ← required (missing_key key) (Dict.get state key)
    weights ← load_keys state keys
    ok (weight ∷ weights)

-- The keys of a shard's parameters, for the layers from `k` on.
unfoldable pub layer_keys : List String → ℕ → ℕ → List String
layer_keys parameters k zero = []
layer_keys parameters k (suc count) =
    map (layer_key k) parameters ++ layer_keys parameters (k + 1) count

abbrev pub first_keys : Bool → List String
first_keys false = []
first_keys true = "embeddings.weight" ∷ []

abbrev pub last_keys : Bool → List String
last_keys false = []
last_keys true = "norm_f.weight" ∷ "lm_head.weight" ∷ []

module _ {Weight Tensor Cache : Type 0} (modules : Modules Weight Tensor Cache) where
  abbrev pub shard_keys : ℕ → Bool → Bool → List String
  shard_keys count is_first is_last =
      first_keys is_first ++ layer_keys modules.block_parameters 0 count ++ last_keys is_last

  -- The blocks of the layers from `layer_idx` on, with the weights of the local layers from `k` on.
  unfoldable pub load_blocks :
      Dict Weight → ℕ → ℕ → ℕ → Result LoadFault (List (Block Tensor Cache))
  load_blocks state layer_idx k zero = ok []
  load_blocks state layer_idx k (suc count) = do
    weights ← load_keys state (map (layer_key k) modules.block_parameters)
    blocks ← load_blocks state (layer_idx + 1) (k + 1) count
    ok (modules.block layer_idx weights ∷ blocks)

  -- A submodule that the shard has only under its flag, with its one weight.
  abbrev pub load_module :
      Bool
      → String
      → (Weight → Tensor → Tensor)
      → Dict Weight
      → Result LoadFault (Option (Tensor → Tensor))
  load_module false key build state = ok none
  load_module true key build state = do
    weight ← required (missing_key key) (Dict.get state key)
    ok (some (build weight))

  abbrev pub as_load :
      Result ShardFault (ShardModule Tensor Cache) → Result LoadFault (ShardModule Tensor Cache)
  as_load (raise fault) = raise (shard_fault fault)
  as_load (ok shard) = ok shard

  -- `shard.load_state_dict(state_dict)` of the shard that the constructor gives: strict, so that a key
  -- that is missing or not expected raises.
  unfoldable pub load_state_dict :
      Dict Weight → ℕ → ℕ → Bool → Bool → Result LoadFault (ShardModule Tensor Cache)
  unfolding load_blocks
  load_state_dict state layer_start layer_end is_first is_last = do
    checked ← check_keys (shard_keys (layer_end - layer_start) is_first is_last) (Dict.keys state)
    embeddings ← load_module is_first "embeddings.weight" modules.embedding state
    layers ← load_blocks state layer_start 0 (layer_end - layer_start)
    norm_f ← load_module is_last "norm_f.weight" modules.norm state
    lm_head ← load_module is_last "lm_head.weight" modules.head state
    as_load (new_shard layers is_first is_last embeddings norm_f lm_head modules.fresh_cache)

  unfoldable pub from_tensor_locations :
      (String → Option (Dict Weight))
      → ℕ
      → ℕ
      → Bool
      → Bool
      → List TensorLocationSpec
      → Result LoadFault (ShardModule Tensor Cache)
  unfolding by_file
  from_tensor_locations fetch layer_start layer_end is_first is_last tensor_locations = do
    state ← read_files fetch (by_file [] tensor_locations) []
    load_state_dict state layer_start layer_end is_first is_last

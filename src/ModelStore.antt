-- ===== src/ModelStore.antt =====
-- `ModelStore` of orchestrator/model_store.py. Reading a checkpoint's metadata and a model's
-- configuration is done by huggingface_hub and transformers: what each gives is an argument.
pub mod Planned
use pi_ssm.Base.{
  ℕ, String, Bool, true, false, Option, none, some, List, [], ◌∷◌, ◌==◌, if◌then◌else◌, ◌≡◌, refl,
}
use pi_ssm.Base.Dict.{Dict}
use pi_ssm.Base.Result.{Result, ok, raise, ◌>>=◌}
use pi_ssm.Shard.Locations.{TensorLocationSpec, tensor_locations_for_range}

pub record ModelStore : Type 0 where
  pub metadata : Option (Dict String)
  pub config_json : Option String

pub data StoreFault : Type 0 where
  runtime_error : StoreFault
  not_implemented : String → StoreFault
  key_error : String → StoreFault

abbrev pub new_model_store : ModelStore
new_model_store = record { metadata = none; config_json = none }

module _ {E : Type 0} where
  -- `load`: the weight map is kept also where reading the configuration raises.
  unfoldable pub load :
      ModelStore → Result E (Dict String) → Result E String → ModelStore × Result E (Unit {0})
  load s (raise error) config = (s, raise error)
  load s (ok weight_map) (raise error) = (record s { metadata = some weight_map }, raise error)
  load s (ok weight_map) (ok config) =
      (record s { metadata = some weight_map; config_json = some config }, ok tt)

abbrev pub located :
    Option String
    → Result String (List TensorLocationSpec)
    → Result StoreFault (List TensorLocationSpec × Option String)
located config (raise name) = raise (key_error name)
located config (ok locations) = ok (locations, config)

abbrev pub extract_from :
    Option String
    → String
    → ℕ
    → ℕ
    → Bool
    → Bool
    → Option (Dict String)
    → Result StoreFault (List TensorLocationSpec × Option String)
extract_from config arch layer_start layer_end is_first is_last none = raise runtime_error
extract_from config arch layer_start layer_end is_first is_last (some weight_map) =
    if arch == "mamba"
    then located config
        (tensor_locations_for_range weight_map layer_start layer_end is_first is_last)
    else raise (not_implemented arch)

unfoldable pub extract_shard :
    ModelStore
    → String
    → ℕ
    → ℕ
    → Bool
    → Bool
    → Result StoreFault (List TensorLocationSpec × Option String)
extract_shard s arch layer_start layer_end is_first is_last =
    extract_from s.config_json arch layer_start layer_end is_first is_last s.metadata

abbrev pub unload : ModelStore → ModelStore
unload s = record s { metadata = none; config_json = none }

-- ===== src/Checks/Checkpoint.antt =====
-- A checkpoint of three layers in two files, and two workers that build their shards from it.
use pi_ssm.Base.{
  ℕ, zero, suc, ◌+◌, ◌*◌, ◌<◌, String, true, false, none, some, Option, List, [], ◌∷◌, ◌≡◌, refl,
  ap, arith, eqb, eqb-ne, if◌then◌else◌, ◌==◌, contains,
}
use pi_ssm.Base.Decimal.{decimal}
use pi_ssm.Base.Dict
use pi_ssm.Base.Dict.{Dict}
use pi_ssm.Base.Result.{ok}
use pi_ssm.Shard.{Block, ShardModule, new_shard, from_model}
use pi_ssm.Shard.Caches.{IsLocal}
use pi_ssm.Shard.Locations.{
  TensorLocationSpec, layer_of_name, tensor_locations_for_range, layer_locations,
}
use pi_ssm.Shard.Weights.{
  Modules, by_file, read_files, read_tensors, load_keys, check_keys, layer_keys, load_state_dict,
  from_tensor_locations,
}
use pi_ssm.Shard.Weights.Blocks.{model_of}
use pi_ssm.Shard.Weights.Checkpoint.{IsCheckpoint, lists}
use pi_ssm.Shard.Weights.Loaded.{from_tensor_locations-from_model}
use pi_ssm.Checks.Deployment.{entry_of}

-- A layer adds its weight and entry `i` of the cache to its input, and stores its input in the entry.
abbrev pub weighted : ℕ → List ℕ → Block ℕ (ℕ → ℕ)
weighted i [] = record { plain = λ x. x; cached = λ x c. (x, c) }
weighted i (d ∷ rest) = record {
  plain = λ x. x + d;
  cached = λ x c. (x + c i + d, λ j. if eqb j i then x else c j);
}

pub weighted-IsLocal : (i d : ℕ) → IsLocal entry_of i (weighted i (d ∷ []))
weighted-IsLocal i d = record {
  output = λ x c e same. ap (λ n. x + n + d) same;
  own = λ x c e same. ap (λ n. if eqb i i then x else n) same;
  frame = λ x c j other. rw (eqb-ne j i other) refl;
}

abbrev pub modules : Modules ℕ ℕ (ℕ → ℕ)
modules = record {
  block_parameters = "mixer.D" ∷ [];
  block = weighted;
  embedding = λ v x. x * v;
  norm = λ v x. x + v;
  head = λ v x. x * v + 1;
  fresh_cache = λ j. 0;
}

abbrev pub weight : ℕ → String → ℕ
weight i p = i + 10

abbrev pub weight_map : Dict String
weight_map =
    ("backbone.embeddings.weight", "one.safetensors")
    ∷ ("backbone.layers.0.mixer.D", "one.safetensors")
    ∷ ("backbone.layers.2.mixer.D", "two.safetensors")
    ∷ ("backbone.layers.1.mixer.D", "one.safetensors")
    ∷ ("backbone.norm_f.weight", "two.safetensors")
    ∷ []

abbrev pub fetch : String → Option (Dict ℕ)
fetch file =
    if file == "one.safetensors"
    then some (
        ("backbone.embeddings.weight", 2)
        ∷ ("backbone.layers.0.mixer.D", 10)
        ∷ ("backbone.layers.1.mixer.D", 11)
        ∷ [])
    else if file == "two.safetensors"
    then some (("backbone.layers.2.mixer.D", 12) ∷ ("backbone.norm_f.weight", 3) ∷ [])
    else none

complete_lem :
    (i : ℕ) (p : String) → i < 3 → contains p ("mixer.D" ∷ []) ≡ true → lists i p weight_map ≡ true
unfolding lists layer_of_name
complete_lem zero p h there = ground (arith, there)
complete_lem (suc zero) p h there = ground (arith, there)
complete_lem (suc (suc zero)) p h there = ground (arith, there)
complete_lem (suc (suc (suc i))) p h there = absurd (omega (arith, h))

pub checkpoint : IsCheckpoint modules.block_parameters weight_map fetch weight 2 3 2 3
unfolding Dict.get layer_of_name
checkpoint = record {
  named = (refl, tt);
  layer_tensors = (
    tt,
    ((refl, (_, refl, refl)), ((refl, (_, refl, refl)), ((refl, (_, refl, refl)), (tt, tt)))),
  );
  complete = complete_lem;
  embedding_there = (_, refl, (_, refl, refl));
  norm_there = (_, refl, (_, refl, refl));
  head_there = refl;
}

-- The second worker's shard, from both files.
abbrev second : List TensorLocationSpec
second =
    record {
      dest_name = "layers.1.mixer.D";
      source_name = "backbone.layers.2.mixer.D";
      source_file = "two.safetensors";
    }
    ∷ record {
      dest_name = "layers.0.mixer.D";
      source_name = "backbone.layers.1.mixer.D";
      source_file = "one.safetensors";
    }
    ∷ record {
      dest_name = "norm_f.weight";
      source_name = "backbone.norm_f.weight";
      source_file = "two.safetensors";
    }
    ∷ record {
      dest_name = "lm_head.weight";
      source_name = "backbone.embeddings.weight";
      source_file = "one.safetensors";
    }
    ∷ []

located : tensor_locations_for_range weight_map 1 3 false true ≡ ok second
unfolding tensor_locations_for_range layer_locations layer_of_name Dict.get decimal
located = refl

abbrev second_shard : ShardModule ℕ (ℕ → ℕ)
second_shard = record {
  layers = weighted 1 (11 ∷ []) ∷ weighted 2 (12 ∷ []) ∷ [];
  is_first = false;
  is_last = true;
  embeddings = none;
  norm_f = some (λ x. x + 3);
  lm_head = some (λ x. x * 2 + 1);
  fresh_cache = λ j. 0;
}

built_second : from_tensor_locations modules fetch 1 3 false true second ≡ ok second_shard
unfolding from_tensor_locations by_file read_files read_tensors load_state_dict load_keys check_keys
    layer_keys new_shard Dict.get Dict.put decimal
built_second = refl

from_tensor_locations-from_model_example :
    (locations : List TensorLocationSpec) × (shard : ShardModule ℕ (ℕ → ℕ))
    × (tensor_locations_for_range weight_map 1 3 false true ≡ ok locations)
    × (from_model (model_of modules weight 3 2 3 2) 1 3 false true ≡ ok shard)
    × (from_tensor_locations modules fetch 1 3 false true locations ≡ ok shard)
from_tensor_locations-from_model_example =
    from_tensor_locations-from_model modules weight_map fetch weight 2 3 2 3 checkpoint 1 3
      (omega arith) (omega arith) false true
